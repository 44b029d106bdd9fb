-- ===== src/Filesystem/Plan/Quiet.antt =====
-- The commands of the part of `partition` that lays out the drives.
use disks.Filesystem.Model.{Action, Command, End, Error, FsEntry, Host, Item, State, Task}
use disks.Filesystem.Parted.{
  add_partition, append_task, count_up, make_partition, move_pos, partition_task, start_of,
}
use disks.Filesystem.Plan.{
  append_discard, append_entry, label_drive, lay_out, lift, mounted_entry, new_list, plan,
  read_mount_options, record_bcache, reserve, set_options, swap_entry, use_partition,
}
use disks.Filesystem.Settings.{Profile, Settings, settings}
use disks.Prelude.{
  Bool, List, Option, String, arith, if◌then◌else◌, nat_key, none, option_key, refl, some,
  string_key, ℕ, ◌==◌, ◌∙◌, ◌≡◌,
}
use disks.Prelude.Exec.{Result, modify, pure}
use disks.Prelude.Exec.Keeps.{Keeps, keeps_rules}
use disks.Prelude.Int.{Frac, ℤ}
use disks.Prelude.Text.{split_on}

module _ (log : List Command) where
  -- The commands that were run are still `log`.
  abbrev pub Quiet {ℓ} : {A : Type ℓ} → Action A → Type 0
  Quiet m = Keeps (λ s. s.log ≡ log) m

  lift-Quiet {ℓ} : {A : Type ℓ} (r : Result Error A) → Quiet (lift r)
  lift-Quiet r = record { at = λ s h. h }

  append_entry-Quiet : (entry : FsEntry) → Quiet (append_entry entry)
  unfolding append_entry
  append_entry-Quiet entry = record { at = λ s h. h }

  new_list-Quiet : (options : List String) → Quiet (new_list options)
  unfolding new_list
  new_list-Quiet options = record { at = λ s h. h }

  start_of-Quiet : (d : String) → Quiet (start_of d)
  unfolding start_of
  start_of-Quiet d = record { at = λ s h. ground arith }

  move_pos-Quiet : (d : String) (p : ℤ) → Quiet (move_pos d p)
  unfolding move_pos
  move_pos-Quiet d p = record { at = λ s h. h }

  append_task-Quiet : (d : String) (task : Task) → Quiet (append_task d task)
  unfolding append_task
  append_task-Quiet d task = record { at = λ s h. ground arith }

  count_up-Quiet : (d : String) → Quiet (count_up d)
  unfolding count_up
  count_up-Quiet d = record { at = λ s h. ground arith }

  ruleset steps = (
    keeps_rules, lift-Quiet, append_entry-Quiet, new_list-Quiet, start_of-Quiet, move_pos-Quiet,
    append_task-Quiet, count_up-Quiet,
  )

  partition_task-Quiet : (d t : String) (a : ℤ) (b : End) → Quiet (partition_task d t a b)
  unfolding partition_task
  partition_task-Quiet d t a b = search steps

  make_partition-Quiet : (d t : String) (a : ℤ) (b : End) → Quiet (make_partition d t a b)
  unfolding make_partition
  make_partition-Quiet d t a b = search (steps, partition_task-Quiet)

  add_partition-Quiet : (d t : String) (size : Frac) → Quiet (add_partition d t size)
  unfolding add_partition
  add_partition-Quiet d t size = search (steps, make_partition-Quiet)

  modify-Quiet : (f : State → State) → ((s : State) → (f s).log ≡ s.log) → Quiet (modify f)
  modify-Quiet f k = record { at = λ s h. k s ∙ h }

  ruleset more = (steps, modify-Quiet, refl, add_partition-Quiet)

  pub append_discard-Quiet : Quiet append_discard
  unfolding append_discard
  append_discard-Quiet = search more

  set_options-Quiet : (options : List String) → Quiet (set_options options)
  unfolding set_options
  set_options-Quiet options = search more

  pub read_mount_options-Quiet :
      (settings : Settings) (item : Item) → Quiet (read_mount_options settings item)
  unfolding read_mount_options
  read_mount_options-Quiet settings item =
      elim item.mount_options
        as (λ o. Quiet (elim o [
          | none ↦ set_options settings.default_options
          | some text ↦ if text == "defaults" then pure tt else set_options (split_on b',' text)
        ])) [
          | none ↦ set_options-Quiet settings.default_options
          | some text ↦ search (more, set_options-Quiet)
        ]

  pub record_bcache-Quiet : (item : Item) (device : String) → Quiet (record_bcache item device)
  unfolding record_bcache
  record_bcache-Quiet item device = search more depth 9

  pub swap_entry-Quiet : (device options : String) → Quiet (swap_entry device options)
  unfolding swap_entry
  swap_entry-Quiet device options = search more

  pub mounted_entry-Quiet :
      (trim : Bool) (item : Item) (t device : String) (o : Option String) (m : Option (List String))
      → Quiet (mounted_entry trim item t device o m)
  unfolding mounted_entry
  mounted_entry-Quiet trim item t device o m = search (more, append_discard-Quiet) depth 9

  use_partition-Quiet :
      (settings : Settings) (item : Item) (t drive device options : String)
      → Quiet (use_partition settings item t drive device options)
  unfolding use_partition
  use_partition-Quiet settings item t drive device options =
      search (more, record_bcache-Quiet, swap_entry-Quiet, mounted_entry-Quiet) depth 12

  reserve-Quiet :
      (host : Host) (profile : Profile) (settings : Settings) (place : ℕ) (drive : String)
      → Quiet (reserve host profile settings place drive)
  unfolding reserve
  reserve-Quiet host profile settings place drive = search more depth 12

  label_drive-Quiet : (settings : Settings) (target : ℕ) → Quiet (label_drive settings target)
  unfolding label_drive
  label_drive-Quiet settings target = search more

  lay_out-Quiet :
      (profile : Profile) (settings : Settings) (boot_size swap_size : Frac) (item : Item)
      → Quiet (lay_out profile settings boot_size swap_size item)
  unfolding lay_out
  lay_out-Quiet profile settings boot_size swap_size item =
      search (more, read_mount_options-Quiet, use_partition-Quiet) depth 15

  pub plan-Quiet :
      (host : Host) (profile : Profile) (settings : Settings) → Quiet (plan host profile settings)
  unfolding plan
  plan-Quiet host profile settings =
      search (more, label_drive-Quiet, reserve-Quiet, lay_out-Quiet) depth 15
