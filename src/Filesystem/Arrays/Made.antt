-- ===== src/Filesystem/Arrays/Made.antt =====
-- The command of each array: the loop over the items with an 'md'.
use mathlib.Core.Option
use disks.Filesystem.Arrays.{add_raid, all_trim, make_array, names_of}
use disks.Filesystem.Arrays.Kept.{
  Kept, modify-Kept, mounted_entry-Kept, read_mount_options-Kept, record_bcache-Kept,
  swap_entry-Kept,
}
use disks.Filesystem.Arrays.Raided.{TakesMembers, add_raid-Raided}
use disks.Filesystem.Model.{Action, Command, Drive, Error, Host, Item, State, key_error, mdadm}
use disks.Filesystem.Plan.{
  key, mkfs_options_of, mounted_entry, read_mount_options, record_bcache, swap_entry,
}
use disks.Filesystem.Plan.Quiet.{
  Quiet, mounted_entry-Quiet, read_mount_options-Quiet, record_bcache-Quiet, swap_entry-Quiet,
}
use disks.Filesystem.Recipes.{member}
use disks.Filesystem.Settings.{Profile, Settings, settings}
use disks.Filesystem.Targets.{is_some}
use disks.Prelude.{
  List, Option, String, [], ap, if◌then◌else◌, length, map, nat_key, none, option_key, refl, some,
  string_key, suc, sym, ℕ, ◌++◌, ◌<>◌, ◌==◌, ◌∙◌, ◌∷◌, ◌≡◌,
}
use disks.Prelude.Dict.{Dict, lookup}
use disks.Prelude.Exec.{Result, bind-eq-ok, for_each, modify, ok, or_raise, pure, ◌>>=◌}
use disks.Prelude.Exec.Keeps.{keeps_rules}
use disks.Prelude.Text.{show}
use mathlib.Core.List.{append-nil, append_assoc}
use mathlib.Core.Path.{subst}

-- The command makes the array that the item asks for, of the partitions that are kept for its number.
pub record MakesArray (settings : Settings) (md_list : Dict ℕ (List (String × Drive))) (item : Item)
    (command : Command) : Type 0 where
  pub number : ℕ
  pub level : ℕ
  pub members : List (String × Drive)
  pub numbered : item.md ≡ some number
  pub leveled : item.level ≡ some level
  pub kept : lookup number md_list ≡ some members
  pub takes : TakesMembers level (length members)
  pub made :
      command
      ≡ mdadm
          ("/dev/md" <> show number)
          (Option.get_or item.meta_version settings.md_meta_version)
          level
          (length members)
          (map (λ member. member.0) members)

-- There is one command for each item, in the order of the items.
abbrev pub MakesArrays :
    Settings → Dict ℕ (List (String × Drive)) → List Item → List Command → Type 0
MakesArrays settings md_list [] [] = Unit
MakesArrays settings md_list [] (command ∷ commands) = ⊥
MakesArrays settings md_list (item ∷ items) [] = ⊥
MakesArrays settings md_list (item ∷ items) (command ∷ commands) =
    MakesArray settings md_list item command × MakesArrays settings md_list items commands

names_of-map :
    (members : List (String × Drive)) → names_of members ≡ map (λ member. member.0) members
unfolding names_of
names_of-map [] = refl
names_of-map (member ∷ members) = ap (λ l. member.0 ∷ l) (names_of-map members)

length-names_of : (members : List (String × Drive)) → length (names_of members) ≡ length members
unfolding names_of
length-names_of [] = refl
length-names_of (member ∷ members) = ap suc (length-names_of members)

abbrev made_with : ℕ → ℕ → List (String × Drive) → String → Command
made_with number level members meta =
    mdadm ("/dev/md" <> show number) meta level (length (names_of members)) (names_of members)

module _ (settings : Settings) (md_list : Dict ℕ (List (String × Drive))) (log : List Command)
    (item : Item) where
  -- What the body of the loop has done where it returns.
  abbrev Made : Result Error (Unit {0}) × State → Type 0
  Made x =
      x.0 ≡ ok tt
      → (command : Command) × MakesArray settings md_list item command
        × (x.1.log ≡ log ++ command ∷ [])
        × (x.1.md_list ≡ md_list)

  silent-Made {ℓ} :
      {A : Type ℓ} (m : Action A) (f : A → Action (Unit {0})) (s : State)
      → Quiet log m
      → Kept md_list m
      → s.log ≡ log
      → s.md_list ≡ md_list
      → ((a : A) (later : State) → later.log ≡ log → later.md_list ≡ md_list → Made (f a later))
      → Made ((m >>= f) s)
  silent-Made m f s quiet kept l e next r =
      let (a, returns, same) = bind-eq-ok m f s tt r in
      subst Made (sym same) (next a (m s).1 (quiet.at s l) (kept.at s e)) r

  given-Made {ℓ} :
      {A : Type ℓ} (o : Option A) (e : Error) (f : A → Action (Unit {0})) (s : State)
      → ((a : A) → o ≡ some a → Made (f a s))
      → Made ((or_raise o e >>= f) s)
  given-Made none e f s next = λ r. cc
  given-Made (some a) e f s next = next a refl

  raid-Made :
      (host : Host) (number level : ℕ) (members : List (String × Drive))
      (f : String → Action (Unit {0})) (s : State)
      → item.md ≡ some number
      → item.level ≡ some level
      → lookup number md_list ≡ some members
      → s.log ≡ log
      → s.md_list ≡ md_list
      → ((dev : String) (l : List Command) → Quiet l (f dev))
      → ((dev : String) → Kept md_list (f dev))
      → Made (
          (add_raid host number
                (names_of members)
                level
                (Option.get_or item.meta_version settings.md_meta_version)
              >>= f)
            s)
  raid-Made host number level members f s a b c l e quiet kept r =
      let meta = Option.get_or item.meta_version settings.md_meta_version in
      let m = add_raid host number (names_of members) level meta in
      let (dev, returns, same) = bind-eq-ok m f s tt r in
      let (takes, logged, left) =
        add_raid-Raided host number (names_of members) level meta s dev returns in
      (
        made_with number level members meta,
        record {
          number = number;
          level = level;
          members = members;
          numbered = a;
          leveled = b;
          kept = c;
          takes = subst (TakesMembers level) (length-names_of members) takes;
          made = rw (length-names_of members, names_of-map members) refl;
        },
        ap (λ x. x.1.log) same
            ∙ (quiet dev _).at (m s).1
                (logged ∙ ap (λ k. k ++ made_with number level members meta ∷ []) l),
        ap (λ x. x.1.md_list) same ∙ (kept dev).at (m s).1 (left ∙ e),
      )

modify-Quiet :
    (log : List Command) (f : State → State)
    → ((s : State) → (f s).log ≡ s.log)
    → Quiet log (modify f)
modify-Quiet log f k = record { at = λ s h. k s ∙ h }

-- the part of `make_array` behind `_addRAID`
abbrev recorded : Profile → Settings → Item → List (String × Drive) → String → Action (Unit {0})
recorded profile settings item members dev =
    let part_type = Option.get_or item.type settings.fs_type in
    let mkfs_options = mkfs_options_of profile part_type item in
    if part_type == "swap"
    then swap_entry dev mkfs_options
    else if part_type == "bcache"
    then record_bcache item dev
    else if is_some item.mount_point
    then mounted_entry (all_trim members) item part_type dev (some mkfs_options)
        (some (names_of members))
    else pure tt

recorded-Quiet :
    (profile : Profile) (settings : Settings) (item : Item) (members : List (String × Drive))
    (dev : String) (log : List Command)
    → Quiet log (recorded profile settings item members dev)
recorded-Quiet profile settings item members dev log =
    search (keeps_rules, swap_entry-Quiet, record_bcache-Quiet, mounted_entry-Quiet) depth 9

recorded-Kept :
    (profile : Profile) (settings : Settings) (item : Item) (members : List (String × Drive))
    (md_list : Dict ℕ (List (String × Drive))) (dev : String)
    → Kept md_list (recorded profile settings item members dev)
recorded-Kept profile settings item members md_list dev =
    search (keeps_rules, swap_entry-Kept, record_bcache-Kept, mounted_entry-Kept) depth 9

-- the steps of `make_array`, each with what it does behind a value that is looked up
module _ (host : Host) (profile : Profile) (settings : Settings) (item : Item) where
  abbrev with_level : ℕ → List (String × Drive) → ℕ → Action (Unit {0})
  with_level number members level =
      add_raid host number (names_of members) level
        (Option.get_or item.meta_version settings.md_meta_version)
      >>= recorded profile settings item members

  abbrev with_members : ℕ → List (String × Drive) → Action (Unit {0})
  with_members number members = key item.level "level" >>= with_level number members

  abbrev with_number : ℕ → Action (Unit {0})
  with_number number s = (key (lookup number s.md_list) "md_list" >>= with_members number) s

  abbrev with_type : State → State
  with_type s = record s { part_type = some (Option.get_or item.type settings.fs_type) }

  make_array-Made :
      (s : State) → Made settings s.md_list s.log item (make_array host profile settings item s)
  unfolding make_array
  make_array-Made s =
      silent-Made settings s.md_list s.log item (modify with_type)
        (λ u. read_mount_options settings item >>= λ v. key item.md "md" >>= with_number) s
        (modify-Quiet s.log with_type (λ s. refl)) (modify-Kept s.md_list with_type (λ s. refl))
        refl refl
        λ u s1 l1 e1.
          silent-Made settings s.md_list s.log item (read_mount_options settings item)
            (λ v. key item.md "md" >>= with_number) s1
            (read_mount_options-Quiet s.log settings item)
            (read_mount_options-Kept s.md_list settings item) l1 e1
            λ v s2 l2 e2.
              given-Made settings s.md_list s.log item item.md (key_error "md") with_number s2
                λ number a.
                  given-Made settings s.md_list s.log item (lookup number s2.md_list)
                    (key_error "md_list") (with_members number) s2
                    λ members c.
                      given-Made settings s.md_list s.log item item.level (key_error "level")
                        (with_level number members) s2
                        λ level b.
                          raid-Made settings s.md_list s.log item host number level members
                            (recorded profile settings item members) s2 a b
                            (ap (lookup number) (sym e2) ∙ c) l2 e2
                            (recorded-Quiet profile settings item members)
                            (recorded-Kept profile settings item members s.md_list)

-- Where the loop over the items with an 'md' returns, it has run one command for each.
pub make_arrays-log :
    (host : Host) (profile : Profile) (settings : Settings) (items : List Item) (s : State)
    → (for_each items (make_array host profile settings) s).0 ≡ ok tt
    → (commands : List Command) × MakesArrays settings s.md_list items commands
      × ((for_each items (make_array host profile settings) s).1.log ≡ s.log ++ commands)
unfolding for_each
make_arrays-log host profile settings [] s r = ([], tt, sym (append-nil s.log))
make_arrays-log host profile settings (item ∷ items) s r =
    let m = make_array host profile settings item in
    let next = λ (u : Unit {0}). for_each items (make_array host profile settings) in
    let (u, returns, same) = bind-eq-ok m next s tt r in
    let (command, makes, logged, kept) = make_array-Made host profile settings item s returns in
    let (commands, others, behind) =
      make_arrays-log host profile settings items (m s).1 (ap (λ x. x.0) (sym same) ∙ r) in
    (
      command ∷ commands,
      (makes, subst (λ l. MakesArrays settings l items commands) kept others),
      ap (λ x. x.1.log) same
          ∙ behind
          ∙ ap (λ l. l ++ commands) logged
          ∙ append_assoc s.log (command ∷ []) commands,
    )
