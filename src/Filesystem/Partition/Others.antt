-- ===== src/Filesystem/Partition/Others.antt =====
-- What `partition` runs behind the arrays: no parted, and no mdadm.
use disks.Filesystem.Arrays.{add_bcache, bcache_entry, make_cache}
use disks.Filesystem.Model.{
  Action, Command, Drive, Error, Host, Item, Recipe, State, effect, execute, execute_lines, mdadm,
  parted,
}
use disks.Filesystem.Partition.{map_partitions}
use disks.Filesystem.Plan.{
  append_discard, lift, mounted_entry, read_mount_options, record_bcache, swap_entry, with_key,
}
use disks.Filesystem.Plan.Quiet.{
  Quiet, append_discard-Quiet, mounted_entry-Quiet, read_mount_options-Quiet, record_bcache-Quiet,
  swap_entry-Quiet,
}
use disks.Filesystem.Settings.{Profile, Settings, settings}
use disks.Filesystem.Sync.{speed_sync}
use disks.Filesystem.Targets.{is_some}
use disks.Filesystem.Volumes.{
  Groups, create_pvs, create_volume, finish_volumes, make_group, make_groups, make_volumes,
  read_volume, read_volumes,
}
use disks.Prelude.{
  All, All-append, Bool, List, Option, String, [], ap, nat_key, option_key, refl, string_key, ℕ,
  ◌++◌, ◌∙◌, ◌∷◌, ◌≡◌,
}
use disks.Prelude.Exec.{Result, for_each, modify, ◌>>◌}
use disks.Prelude.Exec.Keeps.{
  Keeps, Keeps-bind, Keeps-elim, Keeps-for_each, Keeps-pure, keeps_rules,
}
use disks.Prelude.Int.{Frac}
use mathlib.Core.List.{append_assoc}

-- A command that makes no partition and no array.
abbrev pub IsOther : Command → Type 0
IsOther (parted device tasks) = ⊥
IsOther (mdadm dev_name meta_version level raid_devices members) = ⊥
IsOther _ = Unit

module _ (base : List Command) where
  -- Behind `base`, only other commands have been run.
  abbrev pub OnlyOther : State → Type 0
  OnlyOther s = (rest : List Command) × (s.log ≡ base ++ rest) × All IsOther rest

  Quiet-Keeps {ℓ} :
      {A : Type ℓ} (m : Action A) → ((log : List Command) → Quiet log m) → Keeps OnlyOther m
  Quiet-Keeps m q = record { at = λ s h. (h.0, (q s.log).at s refl ∙ h.1, h.2) }

  with_command :
      (c : Command) (s : State)
      → IsOther c
      → OnlyOther s
      → (rest : List Command) × (s.log ++ c ∷ [] ≡ base ++ rest) × All IsOther rest
  with_command c s other h = (
    h.0 ++ c ∷ [],
    ap (λ l. l ++ c ∷ []) h.1 ∙ append_assoc base h.0 (c ∷ []),
    All-append IsOther h.0 (c ∷ []) h.2 (other, tt),
  )

  execute-Keeps : (host : Host) (c : Command) → IsOther c → Keeps OnlyOther (execute host c)
  unfolding execute
  execute-Keeps host c other = record { at = λ s h. with_command c s other h }

  execute_lines-Keeps :
      (host : Host) (c : Command) → IsOther c → Keeps OnlyOther (execute_lines host c)
  unfolding execute_lines
  execute_lines-Keeps host c other = record { at = λ s h. with_command c s other h }

  effect-Keeps : (c : Command) → IsOther c → Keeps OnlyOther (effect c)
  unfolding effect
  effect-Keeps c other = record { at = λ s h. with_command c s other h }

  modify-Keeps :
      (f : State → State)
      → ((s : State) → (f s).log ≡ s.log)
      → Keeps {E = Error} OnlyOther (modify f)
  modify-Keeps f k = record { at = λ s h. (h.0, k s ∙ h.1, h.2) }

  lift-Keeps {ℓ} : {A : Type ℓ} (r : Result Error A) → Keeps OnlyOther (lift r)
  lift-Keeps r = record { at = λ s h. h }

  ruleset steps = (
    keeps_rules, execute-Keeps, execute_lines-Keeps, effect-Keeps, modify-Keeps, lift-Keeps, refl,
  )

  add_bcache-Keeps :
      (host : Host) (id : ℕ) (backing cache : String) (mode : Option String)
      → Keeps OnlyOther (add_bcache host id backing cache mode)
  unfolding add_bcache
  add_bcache-Keeps host id backing cache mode = search (steps, tt) depth 9

  read_options-Keeps :
      (settings : Settings) (item : Item) → Keeps OnlyOther (read_mount_options settings item)
  read_options-Keeps settings item =
      Quiet-Keeps _ (λ log. read_mount_options-Quiet log settings item)

  record_bcache-Keeps :
      (item : Item) (device : String) → Keeps OnlyOther (record_bcache item device)
  record_bcache-Keeps item device = Quiet-Keeps _ (λ log. record_bcache-Quiet log item device)

  swap_entry-Keeps : (device options : String) → Keeps OnlyOther (swap_entry device options)
  swap_entry-Keeps device options = Quiet-Keeps _ (λ log. swap_entry-Quiet log device options)

  discard-Keeps : Keeps OnlyOther append_discard
  discard-Keeps = Quiet-Keeps _ append_discard-Quiet

  mounted_entry-Keeps :
      (trim : Bool) (item : Item) (t device : String) (o : Option String) (m : Option (List String))
      → Keeps OnlyOther (mounted_entry trim item t device o m)
  mounted_entry-Keeps trim item t device o m =
      Quiet-Keeps _ (λ log. mounted_entry-Quiet log trim item t device o m)

  ruleset entries = (
    steps, add_bcache-Keeps, read_options-Keeps, record_bcache-Keeps, swap_entry-Keeps,
    discard-Keeps, mounted_entry-Keeps,
  )

  make_cache-Keeps :
      (host : Host) (profile : Profile) (settings : Settings) (item : Item)
      → Keeps OnlyOther (make_cache host profile settings item)
  unfolding make_cache bcache_entry
  make_cache-Keeps host profile settings item = search entries depth 15

  create_pvs-Keeps :
      (host : Host) (members : List (String × Drive)) → Keeps OnlyOther (create_pvs host members)
  unfolding create_pvs
  create_pvs-Keeps host members = search steps depth 9

  make_group-Keeps :
      (host : Host) (item : Item) (groups : Groups) → Keeps OnlyOther (make_group host item groups)
  unfolding make_group
  make_group-Keeps host item groups = search entries depth 15

  make_groups-Keeps :
      (host : Host) (items : Recipe) (groups : Groups)
      → Keeps OnlyOther (make_groups host items groups)
  unfolding make_groups
  make_groups-Keeps host [] groups = Keeps-pure groups
  make_groups-Keeps host (item ∷ items) groups =
      Keeps-bind _ _ (make_group-Keeps host item groups) (λ g. make_groups-Keeps host items g)

  read_volume-Keeps :
      (settings : Settings) (boot_size swap_size : Frac) (item : Item) (groups : Groups)
      → Keeps OnlyOther (read_volume settings boot_size swap_size item groups)
  unfolding read_volume
  read_volume-Keeps settings boot_size swap_size item groups = search entries depth 15

  read_volumes-Keeps :
      (settings : Settings) (boot_size swap_size : Frac) (items : Recipe) (groups : Groups)
      → Keeps OnlyOther (read_volumes settings boot_size swap_size items groups)
  unfolding read_volumes
  read_volumes-Keeps settings boot_size swap_size [] groups = Keeps-pure groups
  read_volumes-Keeps settings boot_size swap_size (item ∷ items) groups =
      Keeps-bind _ _ (read_volume-Keeps settings boot_size swap_size item groups)
        (λ g. read_volumes-Keeps settings boot_size swap_size items g)

  create_volume-Keeps :
      (host : Host) (profile : Profile) (settings : Settings) (groups : Groups)
      → Keeps OnlyOther (create_volume host profile settings groups)
  unfolding create_volume
  create_volume-Keeps host profile settings groups = search (entries, tt) depth 25

  finish_volumes-Keeps :
      (host : Host) (profile : Profile) (settings : Settings) (groups : Groups)
      → Keeps OnlyOther (finish_volumes host profile settings groups)
  unfolding finish_volumes
  finish_volumes-Keeps host profile settings groups =
      Keeps-elim groups.item.mkfs_options _ _ (create_volume-Keeps host profile settings groups)
        (λ o. Keeps-pure tt)

  ruleset volumes =
      (entries, create_pvs-Keeps, make_groups-Keeps, read_volumes-Keeps, finish_volumes-Keeps)

  make_volumes-Keeps :
      (host : Host) (profile : Profile) (settings : Settings) (boot_size swap_size : Frac)
      → Keeps OnlyOther (make_volumes host profile settings boot_size swap_size)
  unfolding make_volumes
  make_volumes-Keeps host profile settings boot_size swap_size = search volumes depth 15

  map_partitions-Keeps : Keeps OnlyOther map_partitions
  unfolding map_partitions
  map_partitions-Keeps = search steps depth 5

  speed_sync-Keeps : (host : Host) → Keeps OnlyOther (speed_sync host)
  unfolding speed_sync
  speed_sync-Keeps host = search (steps, tt) depth 12

  make_caches-Keeps :
      (host : Host) (profile : Profile) (settings : Settings) (items : Recipe)
      → Keeps OnlyOther (for_each items (make_cache host profile settings))
  make_caches-Keeps host profile settings items =
      Keeps-for_each items _ (make_cache-Keeps host profile settings)

  -- the part of `build` behind the arrays
  abbrev pub behind_arrays : Host → Profile → Settings → Frac × Frac → Action (Unit {0})
  behind_arrays host profile settings sizes =
      for_each (with_key (λ i. is_some i.bcache) settings.recipe) (make_cache host profile settings)
      >> (make_volumes host profile settings sizes.0 sizes.1 >> (map_partitions >> speed_sync host))

  pub behind_arrays-Keeps :
      (host : Host) (profile : Profile) (settings : Settings) (sizes : Frac × Frac)
      → Keeps OnlyOther (behind_arrays host profile settings sizes)
  behind_arrays-Keeps host profile settings sizes =
      Keeps-bind _ _ (make_caches-Keeps host profile settings _) λ a.
        Keeps-bind _ _ (make_volumes-Keeps host profile settings sizes.0 sizes.1)
          λ b. Keeps-bind _ _ map_partitions-Keeps λ c. speed_sync-Keeps host
