-- ===== src/Filesystem/Arrays.antt =====
-- The parts of `partition` in filesystem.py behind parted: the RAID arrays and the bcache devices,
-- with `_addRAID` and `_addBCache`.
pub mod Kept
pub mod Raided
pub mod Made
use mathlib.Core.Option
use disks.Filesystem.Model.{
  Action, Drive, Host, Item, effect, exception, execute, make_bcache, mdadm, modprobe_bcache,
  write_file,
}
use disks.Filesystem.Plan.{
  key, mkfs_options_of, mounted_entry, read_mount_options, record_bcache, swap_entry,
}
use disks.Filesystem.Settings.{Profile, Settings, settings}
use disks.Filesystem.Targets.{is_some}
use disks.Prelude.{
  Bool, List, Option, String, [], false, if◌then◌else◌, length, ltb, nat_key, none, not, option_key,
  some, string_key, true, ℕ, ◌%◌, ◌&&◌, ◌<>◌, ◌==◌, ◌||◌, ◌∷◌,
}
use disks.Prelude.Dict.{lookup}
use disks.Prelude.Exec.{gets, modify, pure, raise_if, ◌>>=◌, ◌>>◌}
use disks.Prelude.Text.{show}

unfoldable pub even : ℕ → Bool
even n = n % 2 == 0

-- `_addRAID`
unfoldable pub add_raid : Host → ℕ → List String → ℕ → String → Action String
add_raid host id member_list md_type meta_version = do
  let dev_name = "/dev/md" <> show id
  raise_if ((md_type == 1 || md_type == 10) && not (even (length member_list)))
      (exception "RAID requires even number of members")
  raise_if ((md_type == 5 || md_type == 6) && ltb (length member_list) 3)
      (exception "RAID requires a minimum of 3 members")
  execute host (mdadm dev_name meta_version md_type (length member_list) member_list)
  pure dev_name

-- `_addBCache`
unfoldable pub add_bcache : Host → ℕ → String → String → Option String → Action String
add_bcache host id backing_dev cache_dev mode = do
  if host.bcache_loaded then pure tt else execute host modprobe_bcache
  execute host (make_bcache (Option.get_or mode "" == "writeback") backing_dev cache_dev)
  effect (write_file "/sys/fs/bcache/register" backing_dev)
  effect (write_file "/sys/fs/bcache/register" cache_dev)
  pure ("/dev/bcache" <> show id)

-- `supportsTrim &= drive.supportsTrim` over the members
unfoldable pub all_trim : List (String × Drive) → Bool
all_trim [] = true
all_trim ((name, drive) ∷ members) = drive.supports_trim && all_trim members

unfoldable pub names_of : List (String × Drive) → List String
names_of [] = []
names_of ((name, drive) ∷ members) = name ∷ names_of members

-- the body of the loop over the items with an 'md'
unfoldable pub make_array : Host → Profile → Settings → Item → Action (Unit {0})
make_array host profile settings item = do
  let part_type = Option.get_or item.type settings.fs_type
  modify (λ s. record s { part_type = some part_type })
  read_mount_options settings item
  number ← key item.md "md"
  members ← key (← gets (λ s. lookup number s.md_list)) "md_list"
  level ← key item.level "level"
  block_device ←
      add_raid host number (names_of members) level
        (Option.get_or item.meta_version settings.md_meta_version)
  let mkfs_options = mkfs_options_of profile part_type item
  if part_type == "swap"
      then swap_entry block_device mkfs_options
      else if part_type == "bcache"
      then record_bcache item block_device
      else if is_some item.mount_point
      then mounted_entry (all_trim members) item part_type block_device (some mkfs_options)
          (some (names_of members))
      else pure tt

-- The entry of a bcache device, which has no 'mkfs_options' and never 'discard'.
unfoldable pub bcache_entry : Item → String → String → Action (Unit {0})
bcache_entry item part_type block_device = mounted_entry false item part_type block_device none none

-- the body of the loop over the items with a 'bcache'
unfoldable pub make_cache : Host → Profile → Settings → Item → Action (Unit {0})
make_cache host profile settings item = do
  let part_type = Option.get_or item.type settings.fs_type
  modify (λ s. record s { part_type = some part_type })
  read_mount_options settings item
  number ← key item.bcache "bcache"
  backing ← key (← gets (λ s. lookup number s.bcache_backing_list)) "bcache_backing_list"
  cache ← key (← gets (λ s. lookup number s.bcache_cache_list)) "bcache_cache_list"
  block_device ← add_bcache host number backing cache item.mode
  if part_type == "swap"
      then swap_entry block_device (mkfs_options_of profile part_type item)
      else if is_some item.mount_point
      then bcache_entry item part_type block_device
      else pure tt
