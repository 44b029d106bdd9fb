-- ===== src/Filesystem/Arrays/Kept.antt =====
-- What leaves the dict of the arrays' members as it is.
use disks.Filesystem.Model.{Action, Drive, FsEntry, Item, State}
use disks.Filesystem.Plan.{
  append_discard, append_entry, mounted_entry, new_list, read_mount_options, record_bcache,
  set_options, swap_entry,
}
use disks.Filesystem.Settings.{Settings, settings}
use disks.Prelude.{
  Bool, List, Option, String, if◌then◌else◌, nat_key, none, option_key, refl, some, string_key, ℕ,
  ◌==◌, ◌∙◌, ◌≡◌,
}
use disks.Prelude.Dict.{Dict}
use disks.Prelude.Exec.{modify, pure}
use disks.Prelude.Exec.Keeps.{Keeps, keeps_rules}
use disks.Prelude.Text.{split_on}

module _ (md_list : Dict ℕ (List (String × Drive))) where
  abbrev pub Kept {ℓ} : {A : Type ℓ} → Action A → Type 0
  Kept m = Keeps (λ s. s.md_list ≡ md_list) m

  append_entry-Kept : (entry : FsEntry) → Kept (append_entry entry)
  unfolding append_entry
  append_entry-Kept entry = record { at = λ s h. h }

  new_list-Kept : (options : List String) → Kept (new_list options)
  unfolding new_list
  new_list-Kept options = record { at = λ s h. h }

  pub modify-Kept :
      (f : State → State) → ((s : State) → (f s).md_list ≡ s.md_list) → Kept (modify f)
  modify-Kept f k = record { at = λ s h. k s ∙ h }

  ruleset steps = (keeps_rules, append_entry-Kept, new_list-Kept, modify-Kept, refl)

  append_discard-Kept : Kept append_discard
  unfolding append_discard
  append_discard-Kept = search steps

  set_options-Kept : (options : List String) → Kept (set_options options)
  unfolding set_options
  set_options-Kept options = search steps

  pub read_mount_options-Kept :
      (settings : Settings) (item : Item) → Kept (read_mount_options settings item)
  unfolding read_mount_options
  read_mount_options-Kept settings item =
      elim item.mount_options
        as (λ o. Kept (elim o [
          | none ↦ set_options settings.default_options
          | some text ↦ if text == "defaults" then pure tt else set_options (split_on b',' text)
        ])) [
          | none ↦ set_options-Kept settings.default_options
          | some text ↦ search (steps, set_options-Kept)
        ]

  pub record_bcache-Kept : (item : Item) (device : String) → Kept (record_bcache item device)
  unfolding record_bcache
  record_bcache-Kept item device = search steps depth 9

  pub swap_entry-Kept : (device options : String) → Kept (swap_entry device options)
  unfolding swap_entry
  swap_entry-Kept device options = search steps

  pub mounted_entry-Kept :
      (trim : Bool) (item : Item) (t device : String) (o : Option String) (m : Option (List String))
      → Kept (mounted_entry trim item t device o m)
  unfolding mounted_entry
  mounted_entry-Kept trim item t device o m = search (steps, append_discard-Kept) depth 9
