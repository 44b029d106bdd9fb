-- ===== src/Filesystem/Mount/Commands.antt =====
-- The commands of `mkfs` and `remount`, and the places that they leave out.
use mathlib.Core.Option
use mathlib.Core.Option.{some_inj}
use disks.Filesystem.Model.{
  Command, Error, FsEntry, Host, Mount, State, blkid, key_error, mkfs_command, mount_command,
  value_error,
}
use disks.Filesystem.Mount.{
  do_mount, format_fs, make_fs, mkfs, mkfs_from, mount_again, mounted_points, remount, set_uuid,
}
use disks.Filesystem.Plan.{key, lift}
use disks.Filesystem.Recipes.{mkfs_types, mounted}
use disks.Filesystem.Trace.{
  Runs, Runs-bind, Runs-else, Runs-execute, Runs-execute_lines, Runs-for_each, Runs-modify,
  Runs-pure, Runs-some, concat_map,
}
use disks.Prelude.{
  Bool, Bool-cases, List, Option, String, [], ap, arith, contains, false, get_elem?, if◌then◌else◌,
  inl, inr, length, nat_key, none, not, option_key, refl, some, string_key, suc, sym, true, ℕ, ◌++◌,
  ◌==◌, ◌∙◌, ◌∷◌, ◌≡◌,
}
use disks.Prelude.Exec.{Result, bind-eq-ok, err, for_each, ok, ok-inj, ◌>>=◌}
use disks.Prelude.Text.{split_on}
use mathlib.Core.Path.{subst}

-- the two commands for an entry
abbrev pub format_of : FsEntry → List Command
format_of fs =
    mkfs_command fs.type (Option.get_or fs.mkfs_options "") fs.block_device
    ∷ blkid fs.block_device
    ∷ []

-- the two commands for an entry, with its options
abbrev commands_with : FsEntry → Option String → List Command
commands_with fs options =
    mkfs_command fs.type (Option.get_or options "") fs.block_device ∷ blkid fs.block_device ∷ []

format_fs-Runs :
    (host : Host) (i : ℕ) (fs : FsEntry) (options : String)
    → Runs (format_fs host i fs options) (commands_with fs (some options))
unfolding format_fs
format_fs-Runs host i fs options =
    Runs-bind _ _ (mkfs_command fs.type options fs.block_device ∷ []) (blkid fs.block_device ∷ [])
      (Runs-execute host _)
      λ _. Runs-bind _ _ (blkid fs.block_device ∷ []) [] (Runs-execute_lines host _) λ lines.
        Runs-modify (λ s. record s { filesystem_list = set_uuid s.filesystem_list i lines })
          (λ s. refl)

make_fs-Runs : (host : Host) (i : ℕ) (fs : FsEntry) → Runs (make_fs host i fs) (format_of fs)
unfolding make_fs
make_fs-Runs host i fs =
    Runs-else (not (contains mkfs_types fs.type)) (key_error fs.type)
      (key fs.mkfs_options "mkfs_options" >>= format_fs host i fs) (format_of fs)
      λ known.
        Runs-some fs.mkfs_options (key_error "mkfs_options") (format_fs host i fs) (format_of fs)
          λ options e.
            subst (λ o. Runs (format_fs host i fs options) (commands_with fs o)) (sym e)
              (format_fs-Runs host i fs options)

mkfs_from-Runs :
    (host : Host) (i : ℕ) (entries : List FsEntry)
    → Runs (mkfs_from host i entries) (concat_map format_of entries)
unfolding mkfs_from
mkfs_from-Runs host i [] = Runs-pure tt
mkfs_from-Runs host i (fs ∷ entries) =
    Runs-bind _ _ (format_of fs) (concat_map format_of entries) (make_fs-Runs host i fs)
      λ _. mkfs_from-Runs host (suc i) entries

-- Where `mkfs` returns, it has made the filesystem of every entry, in the order of the list, and read
-- each one's UUID directly behind that; it has run nothing else.
pub mkfs-log :
    (host : Host) (s : State)
    → (mkfs host s).0 ≡ ok tt
    → (mkfs host s).1.log ≡ s.log ++ concat_map format_of s.filesystem_list
unfolding mkfs
mkfs-log host s h = (mkfs_from-Runs host 0 s.filesystem_list).at s tt h

abbrev pub mounting : Mount → Command
mounting m = mount_command m.options m.fstype m.fs m.mount_point

-- `m` where it is not mounted
abbrev pub missing_from : List String → Mount → List Command
missing_from mounted m = if contains mounted m.mount_point then [] else mounting m ∷ []

mount_again-Runs :
    (host : Host) (mounted : List String) (m : Mount)
    → Runs (mount_again host mounted m) (missing_from mounted m)
unfolding mount_again do_mount
mount_again-Runs host mounted m = elim (Bool-cases (contains mounted m.mount_point)) [
  | inl e ↦ rw e (Runs-pure tt)
  | inr e ↦ rw e (Runs-execute host _)
]

-- Each line of /proc/mounts, split at its blanks, has six fields, of which the second is the place.
abbrev pub SecondFields : List String → List String → Type 0
SecondFields [] [] = Unit
SecondFields [] (place ∷ places) = ⊥
SecondFields (line ∷ lines) [] = ⊥
SecondFields (line ∷ lines) (place ∷ places) =
    ((device : String) × (fstype : String) × (options : String) × (dump : String) × (pass : String)
      × (split_on b' ' line ≡ device ∷ place ∷ fstype ∷ options ∷ dump ∷ pass ∷ []))
    × SecondFields lines places

six_fields :
    (fields : List String) (place : String)
    → get_elem? fields 1 ≡ some place
    → (length fields == 6) ≡ true
    → (a : String) × (b : String) × (c : String) × (d : String) × (e : String) × (fields
        ≡ a ∷ place ∷ b ∷ c ∷ d ∷ e ∷ [])
six_fields (a ∷ p ∷ b ∷ c ∷ d ∷ e ∷ []) place second six =
    (a, b, c, d, e, ap (λ q. a ∷ q ∷ b ∷ c ∷ d ∷ e ∷ []) (some_inj.0 second))
six_fields [] place second six = cc
six_fields (a ∷ []) place second six = cc
six_fields (a ∷ p ∷ []) place second six = cc
six_fields (a ∷ p ∷ b ∷ []) place second six = cc
six_fields (a ∷ p ∷ b ∷ c ∷ []) place second six = cc
six_fields (a ∷ p ∷ b ∷ c ∷ d ∷ []) place second six = cc
six_fields (a ∷ p ∷ b ∷ c ∷ d ∷ e ∷ f ∷ more) place second six = absurd (ground arith)

cons-points :
    (r : Result Error (List String)) (point : String) (mounted : List String)
    → (elim r [ ok points ↦ ok (point ∷ points) | err e ↦ err e ]) ≡ ok mounted
    → (rest : List String) × (r ≡ ok rest) × (mounted ≡ point ∷ rest)
cons-points (ok points) point mounted h = (points, refl, sym (ok-inj (point ∷ points) mounted h))
cons-points (err e) point mounted h = cc

mounted_points-SecondFields :
    (lines places : List String) → mounted_points lines ≡ ok places → SecondFields lines places
unfolding mounted_points
mounted_points-SecondFields [] [] h = tt
mounted_points-SecondFields [] (place ∷ places) h = cc
mounted_points-SecondFields (line ∷ lines) places h =
    go (get_elem? (split_on b' ' line) 1) (length (split_on b' ' line) == 6)
      (mounted_points-SecondFields lines) refl refl h
  where
    go :
        (second : Option String) (six : Bool)
        → ((rest : List String) → mounted_points lines ≡ ok rest → SecondFields lines rest)
        → get_elem? (split_on b' ' line) 1 ≡ second
        → (length (split_on b' ' line) == 6) ≡ six
        → (elim second [
          | none ↦ err value_error
          | some point ↦
              if not six
              then err value_error
              else elim (mounted_points lines) [ ok points ↦ ok (point ∷ points) | err e ↦ err e ]
        ])
          ≡ ok places
        → SecondFields (line ∷ lines) places
    go none six others e f r = cc
    go (some point) false others e f r = cc
    go (some point) true others e f r =
        let (rest, later, same) = cons-points (mounted_points lines) point places r in
        subst (SecondFields (line ∷ lines)) (sym same)
          (six_fields (split_on b' ' line) point e f, others rest later)

-- Where `remount` returns, every line of /proc/mounts had six fields, and it has mounted just the
-- places of the mount list that are not the second field of a line, with the arguments and in the
-- order of the list.
pub remount-log :
    (host : Host) (s : State)
    → (remount host s).0 ≡ ok tt
    → (mounted : List String) × SecondFields (host.proc_mounts (length s.log)) mounted
      × ((remount host s).1.log ≡ s.log ++ concat_map (missing_from mounted) s.mount_list)
unfolding remount
remount-log host s h =
    let (mounted, returns, same) =
      bind-eq-ok (lift (mounted_points (host.proc_mounts (length s.log))))
        (λ mounted s'. for_each s'.mount_list (mount_again host mounted) s') s tt h in
    (
      mounted,
      mounted_points-SecondFields (host.proc_mounts (length s.log)) mounted returns,
      ap (λ r. r.1.log) same
          ∙ (Runs-for_each s.mount_list (mount_again host mounted) _
                (mount_again-Runs host mounted)).at
              s tt (ap (λ r. r.0) (sym same) ∙ h),
    )
