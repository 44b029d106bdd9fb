-- ===== src/Filesystem/Plan.antt =====
-- The part of `partition` in filesystem.py that lays out the drives: the room for the boot loader,
-- the sizes, and the loop over the items that have a 'target'. It only writes parted's scripts.
pub mod Quiet
use mathlib.Core.Option
use disks.Filesystem.Model.{
  Action, Drive, Error, FsEntry, Host, Item, Recipe, Size, Sizes, attribute_error, boot, end,
  exception, index_error, key_error, leftover, mb, minus_boot, minus_swap, mklabel, percent, swap,
  unbound_local,
}
use disks.Filesystem.Parted.{add_partition}
use disks.Filesystem.Recipes.{fs_with_trim, member}
use disks.Filesystem.Settings.{Profile, Settings, boot_targets, drive_at, drives_at, settings}
use disks.Filesystem.Targets.{is_at, is_some}
use disks.Prelude.{
  Bool, List, Option, String, [], contains, get_elem?, if◌then◌else◌, length, nat_key, none, not,
  option_key, select, set, some, string_key, ℕ, ◌&&◌, ◌++◌, ◌<>◌, ◌==◌, ◌||◌, ◌∷◌,
}
use disks.Prelude.Dict.{Dict, insert, lookup}
use disks.Prelude.Exec.{Result, err, for_each, gets, modify, ok, or_raise, pure, ◌>>=◌, ◌>>◌}
use disks.Prelude.Int.{Frac, gt_frac, neg_frac, pos, whole}
use disks.Prelude.Text.{split_on}

-- what `get_elem?` and `lookup` answer, as Python's subscript
abbrev pub key {ℓ} : {A : Type ℓ} → Option A → String → Action A
key found name = or_raise found (key_error name)

abbrev pub lift {ℓ} : {A : Type ℓ} → Result Error A → Action A
lift r s = (r, s)

-- `filesystem_list.append( entry )`
unfoldable pub append_entry : FsEntry → Action (Unit {0})
append_entry entry = modify (λ s. record s { filesystem_list = s.filesystem_list ++ entry ∷ [] })

-- a new list object
unfoldable pub new_list : List String → Action ℕ
new_list options s =
    (ok (length s.option_lists), record s { option_lists = s.option_lists ++ options ∷ [] })

-- `mount_options.append( 'discard' )`, on the object that the variable names
unfoldable pub append_discard : Action (Unit {0})
append_discard = do
  place ← or_raise (← gets (λ s. s.mount_options)) (unbound_local "mount_options")
  options ← or_raise (← gets (λ s. get_elem? s.option_lists place)) index_error
  modify (λ s. record s { option_lists = set s.option_lists place (options ++ "discard" ∷ []) })

unfoldable pub set_options : List String → Action (Unit {0})
set_options options = do
  place ← new_list options
  modify (λ s. record s { mount_options = some place })

-- An item with 'defaults' leaves the variable as it is.
unfoldable pub read_mount_options : Settings → Item → Action (Unit {0})
read_mount_options settings item = elim item.mount_options [
  | none ↦ set_options settings.default_options
  | some text ↦ if text == "defaults" then pure tt else set_options (split_on b',' text)
]

unfoldable pub mkfs_options_of : Profile → String → Item → String
mkfs_options_of profile part_type item =
    let base = Option.get_or (profile.get "filesystem" ("mkfs_" <> (part_type <> "_options"))) "" in
    elim item.mkfs_options [ none ↦ base | some more ↦ base <> (" " <> more) ]

unfoldable pub boot_entry : Host → Profile → ℕ → String → FsEntry
boot_entry host profile default_options grub_partition = record {
  mount_point = if host.efi then some (some "/boot/efi") else none;
  type = "vfat";
  mount_options = if host.efi then some default_options else none;
  block_device = grub_partition;
  mkfs_options = some (Option.get_or (profile.get "filesystem" "mkfs_vfat_options") "");
  priority = none;
  members = none;
  uuid = none;
}

-- room on a boot drive: a grub partition of a gpt drive, or space for the boot sector
unfoldable pub reserve : Host → Profile → Settings → ℕ → String → Action (Unit {0})
reserve host profile settings default_options drive =
    if settings.partition_type == "gpt"
    then (do
      made ← add_partition drive "bios_grub" settings.boot_rsvd_size
      grub_partition ← or_raise made (unbound_local "grub_partition")
      append_entry (boot_entry host profile default_options grub_partition))
    else (do add_partition drive "blank" settings.boot_rsvd_size; pure tt)

unfoldable pub label_drive : Settings → ℕ → Action (Unit {0})
label_drive settings target = do
  drive ← lift (drive_at settings target)
  modify (λ s. record s {
    parted_task_map = insert drive (mklabel settings.partition_type ∷ []) s.parted_task_map;
  })

-- The 'ref_size' items: `tmp` keeps its value where an item has no lambda.
abbrev pub or_keep : Option (Sizes → Frac) → Sizes → Option Frac → Option Frac
or_keep none sizes tmp = tmp
or_keep (some f) sizes tmp = some (f sizes)

unfoldable pub ref_sizes : Frac → Recipe → Option Frac → Frac → Frac → Result Error (Frac × Frac)
ref_sizes boot_rsvd [] tmp boot_size swap_size = ok (boot_size, swap_size)
ref_sizes boot_rsvd (item ∷ items) tmp boot_size swap_size =
    let sizes : Sizes = record { swap = swap_size; boot = boot_size; boot_rsvd = boot_rsvd } in
    let is_boot = Option.get_or item.ref_size "" == "boot" in
    let is_swap = Option.get_or item.ref_size "" == "swap" in
    elim (or_keep item.lambda sizes tmp) [
      | none ↦
          if is_boot || is_swap
          then err (unbound_local "tmp")
          else ref_sizes boot_rsvd items none boot_size swap_size
      | some new ↦
          ref_sizes boot_rsvd items (some new) (if is_boot then new else boot_size)
            (if is_swap && not is_boot then new else swap_size)
    ]

-- `size >= 1.0`, `size <= 0.0` and `size == 1.0` of a share
abbrev pub is_whole : Frac → Bool
is_whole x = not (gt_frac x (whole (pos 1)) || gt_frac (whole (pos 1)) x)

abbrev pub out_of_range : Frac → Bool
out_of_range x = not (gt_frac x (whole (pos 0))) || not (gt_frac (whole (pos 1)) x)

-- A share of the drive asks a `Drive` for its attribute 'drive', which it does not have.
unfoldable pub size_of : Settings → Frac → Frac → String → Size → Result Error Frac
size_of settings boot_size swap_size drive end = ok (whole (pos 0))
size_of settings boot_size swap_size drive boot = ok boot_size
size_of settings boot_size swap_size drive minus_boot = ok (neg_frac boot_size)
size_of settings boot_size swap_size drive swap = ok swap_size
size_of settings boot_size swap_size drive minus_swap = ok (neg_frac swap_size)
size_of settings boot_size swap_size drive (mb n) = ok (whole n)
size_of settings boot_size swap_size drive (percent share) =
    if is_whole share
    then ok (whole (pos 0))
    else if out_of_range share
    then err (exception "Invalid size percentage")
    else elim (lookup drive settings.drive_map) [
      | none ↦ err (key_error drive)
      | some d ↦ err (attribute_error "drive")
    ]

-- 'type', or the file system of the profile: that of /boot, or of any other mount point
unfoldable pub part_type_of : Settings → Item → Result Error String
part_type_of settings item = elim item.type [
  | some part_type ↦ ok part_type
  | none ↦ elim item.mount_point [
    | none ↦ err (key_error "mount_point")
    | some point ↦ ok (if is_at "/boot" item then settings.boot_fs_type else settings.fs_type)
  ]
]

-- `md_list[ group ].append( .. )`, which makes the list where it is missing
unfoldable pub add_member :
    ℕ → String × Drive → Dict ℕ (List (String × Drive)) → Dict ℕ (List (String × Drive))
add_member group member lists =
    insert group (Option.get_or (lookup group lists) [] ++ member ∷ []) lists

unfoldable pub record_bcache : Item → String → Action (Unit {0})
record_bcache item block_device = do
  used_as ← key item.used_as "as"
  if used_as == "cache"
      then (do
        group ← key item.group "group"
        modify
            (λ s. record s { bcache_cache_list = insert group block_device s.bcache_cache_list }))
      else if used_as == "backing"
      then (do
        group ← key item.group "group"
        modify (λ s. record s {
          bcache_backing_list = insert group block_device s.bcache_backing_list;
        }))
      else pure tt

unfoldable pub swap_entry : String → String → Action (Unit {0})
swap_entry block_device mkfs_options = do
  priority ← or_raise (← gets (λ s. s.priority)) (unbound_local "priority")
  append_entry (record {
    mount_point = none;
    type = "swap";
    mount_options = none;
    block_device = block_device;
    mkfs_options = some mkfs_options;
    priority = some priority;
    members = none;
    uuid = none;
  })

-- The entry of a file system: the options are extended by 'discard' where `trim` says so.
unfoldable pub mounted_entry :
    Bool → Item → String → String → Option String → Option (List String) → Action (Unit {0})
mounted_entry trim item part_type block_device mkfs_options members = do
  if trim && contains fs_with_trim part_type then append_discard else pure tt
  point ← key item.mount_point "mount_point"
  place ← or_raise (← gets (λ s. s.mount_options)) (unbound_local "mount_options")
  append_entry (record {
    mount_point = some point;
    type = part_type;
    mount_options = some place;
    block_device = block_device;
    mkfs_options = mkfs_options;
    priority = none;
    members = members;
    uuid = none;
  })

-- What the partition of a 'target' item is for.
unfoldable pub use_partition :
    Settings → Item → String → String → String → String → Action (Unit {0})
use_partition settings item part_type target_drive block_device mkfs_options =
    if part_type == "md"
    then (do
      group ← key item.group "group"
      drive ← key (lookup target_drive settings.drive_map) target_drive
      modify (λ s. record s { md_list = add_member group (block_device, drive) s.md_list }))
    else if part_type == "bcache"
    then record_bcache item block_device
    else if part_type == "pv"
    then (do
      group ← key item.group "group"
      drive ← key (lookup target_drive settings.drive_map) target_drive
      modify (λ s. record s { pv_list = add_member group (block_device, drive) s.pv_list }))
    else if part_type == "swap"
    then swap_entry block_device mkfs_options
    else do
      drive ← key (lookup target_drive settings.drive_map) target_drive
      mounted_entry drive.supports_trim item part_type block_device (some mkfs_options) none

-- the body of the loop over the items with a 'target'
unfoldable pub lay_out : Profile → Settings → Frac → Frac → Item → Action (Unit {0})
lay_out profile settings boot_size swap_size item = do
  target ← key item.target "target"
  target_drive ← lift (drive_at settings target)
  how_big ← key item.size "size"
  size ← lift (size_of settings boot_size swap_size target_drive how_big)
  part_type ← lift (part_type_of settings item)
  modify (λ s. record s { part_type = some part_type; size = some (leftover size) })
  read_mount_options settings item
  modify (λ s. record s { priority = some (Option.get_or item.priority 0) })
  if part_type == "blank" || part_type == "empty"
      then (do add_partition target_drive part_type size; pure tt)
      else (do
        made ← add_partition target_drive (if part_type == "swap" then "swap" else "fs") size
        block_device ← or_raise made (unbound_local "block_device")
        use_partition settings item part_type target_drive block_device
            (mkfs_options_of profile part_type item))

unfoldable pub with_key : (Item → Bool) → Recipe → Recipe
with_key = select

-- `partition`, from the choice of the boot drives to the scripts; the answer is what `boot_size` and
-- `swap_size` are from there on
unfoldable pub plan : Host → Profile → Settings → Action (Frac × Frac)
plan host profile settings = do
  targets ← lift (boot_targets settings.recipe)
  drives ← lift (drives_at settings targets)
  modify (λ s. record s { boot_drives = drives })
  for_each settings.targets (label_drive settings)
  default_options ← new_list settings.default_options
  for_each drives (reserve host profile settings default_options)
  sizes ← lift (
      ref_sizes settings.boot_rsvd_size (with_key (λ i. is_some i.ref_size) settings.recipe) none
        settings.boot_size settings.swap_size)
  for_each (with_key (λ i. is_some i.target) settings.recipe)
      (lay_out profile settings sizes.0 sizes.1)
  pure sizes
