-- ===== src/Filesystem/Volumes.antt =====
-- The part of `partition` in filesystem.py for LVM: physical volumes, groups and the logical volume.
-- The code behind the `try` that follows the loop over the 'lv' items stands outside of that loop,
-- and in its handler: it runs once, with the variables of the last item.
use mathlib.Core.Option
use disks.Filesystem.Arrays.{all_trim, names_of}
use disks.Filesystem.Model.{
  Action, Drive, Error, Host, Item, LvSize, Recipe, Size, boot, exception, execute, execute_lines,
  extents, key_error, lvcreate, mb, megabytes, percent, pvcreate, swap, unbound_local, value_error,
  vgcreate, vgdisplay,
}
use disks.Filesystem.Plan.{
  append_discard, is_whole, key, lift, mkfs_options_of, mounted_entry, out_of_range,
  read_mount_options, swap_entry, with_key,
}
use disks.Filesystem.Recipes.{fs_with_trim, no_keys}
use disks.Filesystem.Settings.{Profile, Settings, settings}
use disks.Filesystem.Targets.{is_some}
use disks.Prelude.{
  List, Option, String, [], contains, false, if◌then◌else◌, length, nat_key, none, not, option_key,
  some, string_key, ℕ, ◌&&◌, ◌<>◌, ◌==◌, ◌∷◌,
}
use disks.Prelude.Dict.{Dict, insert, lookup}
use disks.Prelude.Exec.{
  Result, err, for_each, gets, modify, ok, or_raise, pure, raise_if, ◌>>=◌, ◌>>◌,
}
use disks.Prelude.Int.{Frac, pos, scale, to_int, ℤ}

-- The dicts of this part, and the loop variables `vg` and `item` that the loops leave.
pub record Groups : Type 0 where
  pub vg_names : Dict ℕ String
  pub vg_extents : Dict ℕ ℕ
  pub vg_disks : Dict ℕ (List (String × Drive))
  pub vg : ℕ
  pub item : Item

-- the first line of vgdisplay that has the number of extents
unfoldable pub find_extents : Host → List String → Option ℕ
find_extents host [] = none
find_extents host (line ∷ lines) =
    let rest = find_extents host lines in
    elim (host.total_pe line) [ none ↦ rest | some n ↦ some n ]

abbrev pub note_extents : ℕ → Option ℕ → Dict ℕ ℕ → Dict ℕ ℕ
note_extents vg none found = found
note_extents vg (some n) found = insert vg n found

unfoldable pub create_pvs : Host → List (String × Drive) → Action (Unit {0})
create_pvs host members = for_each (names_of members) (λ device. execute host (pvcreate device))

-- the body of the loop over the items with a 'vg'
unfoldable pub make_group : Host → Item → Groups → Action Groups
make_group host item groups = do
  vg ← key item.vg "vg"
  name ← key item.name "name"
  members ← key (← gets (λ s. lookup vg s.pv_list)) "pv_list"
  execute host (vgcreate name (names_of members))
  lines ← execute_lines host (vgdisplay name)
  let extents_found = note_extents vg (find_extents host lines) groups.vg_extents
  raise_if (Option.get_or (lookup vg extents_found) 0 == 0)
      (exception "Unable to get Size/Extents of VG")
  pure (record {
    vg_names = insert vg name groups.vg_names;
    vg_extents = extents_found;
    vg_disks = insert vg members groups.vg_disks;
    vg = vg;
    item = item;
  })

unfoldable pub make_groups : Host → Recipe → Groups → Action Groups
make_groups host [] groups = pure groups
make_groups host (item ∷ items) groups = do
  groups' ← make_group host item groups
  make_groups host items groups'

-- int( extents * share )
unfoldable pub share_of : ℕ → Frac → ℤ
share_of n share = to_int (record { num = scale share.num n; den = share.den })

-- the size argument of an 'lv' item; only 'boot' and 'swap' are known by name
unfoldable pub lv_size : Settings → Frac → Frac → Groups → ℕ → Size → Result Error LvSize
lv_size settings boot_size swap_size groups vg boot = ok (megabytes (to_int boot_size))
lv_size settings boot_size swap_size groups vg swap = ok (megabytes (to_int swap_size))
lv_size settings boot_size swap_size groups vg (mb n) = ok (megabytes n)
lv_size settings boot_size swap_size groups vg (percent share) =
    if not (is_whole share) && out_of_range share
    then err (exception "Invalid size percentage")
    else elim (lookup vg groups.vg_extents) [
      | none ↦ err (key_error "vg_extents")
      | some n ↦ ok (extents (if is_whole share then pos n else share_of n share))
    ]
lv_size settings boot_size swap_size groups vg _ = err value_error

-- the body of the loop over the items with an 'lv', which only sets variables
unfoldable pub read_volume : Settings → Frac → Frac → Item → Groups → Action Groups
read_volume settings boot_size swap_size item groups = do
  vg ← key item.lv "lv"
  how_big ← key item.size "size"
  size ← lift (lv_size settings boot_size swap_size groups vg how_big)
  modify (λ s. record s {
    size = some size;
    part_type = some (Option.get_or item.type settings.fs_type);
  })
  read_mount_options settings item
  pure (record groups { vg = vg; item = item })

unfoldable pub read_volumes : Settings → Frac → Frac → Recipe → Groups → Action Groups
read_volumes settings boot_size swap_size [] groups = pure groups
read_volumes settings boot_size swap_size (item ∷ items) groups = do
  groups' ← read_volume settings boot_size swap_size item groups
  read_volumes settings boot_size swap_size items groups'

-- the handler of the last `try`: the one volume that is made
unfoldable pub create_volume : Host → Profile → Settings → Groups → Action (Unit {0})
create_volume host profile settings groups = do
  part_type ← or_raise (← gets (λ s. s.part_type)) (unbound_local "part_type")
  size ← or_raise (← gets (λ s. s.size)) (unbound_local "size")
  vg_name ← key (lookup groups.vg groups.vg_names) "vg_names"
  name ← key groups.item.name "name"
  let block_device = "/dev/mapper/" <> (vg_name <> ("-" <> name))
  execute host (lvcreate name size vg_name)
  disks ← key (lookup groups.vg groups.vg_disks) "vg_disks"
  let mkfs_options = mkfs_options_of profile part_type groups.item
  if part_type == "swap" then swap_entry block_device mkfs_options else do
    if all_trim disks && contains fs_with_trim part_type then append_discard else pure tt
    mounted_entry false groups.item settings.fs_type block_device (some mkfs_options) none

-- `try: .. item[ 'mkfs_options' ]`: the handler runs only where the last item has no such key.
unfoldable pub finish_volumes : Host → Profile → Settings → Groups → Action (Unit {0})
finish_volumes host profile settings groups = elim groups.item.mkfs_options [
  | some options ↦ pure tt
  | none ↦ create_volume host profile settings groups
]

-- the last item that an earlier loop of `partition` has visited
unfoldable pub last_item : Recipe → Item → Item
last_item [] item = item
last_item (i ∷ items) item = last_item items i

unfoldable pub last_group : Dict ℕ (List (String × Drive)) → ℕ → ℕ
last_group [] vg = vg
last_group ((number, members) ∷ lists) vg = last_group lists number

unfoldable pub visited : Recipe → Item
visited recipe = last_item (with_key (λ i. is_some i.bcache) recipe) (
    last_item (with_key (λ i. is_some i.md) recipe)
      (last_item (with_key (λ i. is_some i.target) recipe) no_keys))

-- `if pv_list:`
unfoldable pub make_volumes : Host → Profile → Settings → Frac → Frac → Action (Unit {0})
make_volumes host profile settings boot_size swap_size = do
  lists ← gets (λ s. s.pv_list)
  if length lists == 0 then pure tt else do
    for_each lists (λ entry. create_pvs host entry.1)
    groups ← make_groups host (with_key (λ i. is_some i.vg) settings.recipe) (record {
      vg_names = [];
      vg_extents = [];
      vg_disks = [];
      vg = last_group lists 0;
      item = visited settings.recipe;
    })
    groups' ←
        read_volumes settings boot_size swap_size (with_key (λ i. is_some i.lv) settings.recipe)
          groups
    finish_volumes host profile settings groups'
