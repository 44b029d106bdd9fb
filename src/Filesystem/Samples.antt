-- ===== src/Filesystem/Samples.antt =====
-- A small machine with two drives, and what the installer does on it.
use disks.Filesystem.Arrays.{
  add_bcache, add_raid, all_trim, bcache_entry, even, make_array, make_cache, names_of,
}
use disks.Filesystem.Model.{
  Drive, DriveScan, Error, Host, Recipe, State, Task, at, effect, end_of_device, execute,
  execute_lines, mdadm, mklabel, mkpart, parted, set_bios_grub, write_file,
}
use disks.Filesystem.Parted.{
  add_partition, append_task, count_up, end_of, make_partition, move_pos, next_pos, partition_name,
  partition_task, start_of,
}
use disks.Filesystem.Partition.{build, map_partitions, mapped, new_locals, partition, run_parted}
use disks.Filesystem.Plan.{
  add_member, append_discard, append_entry, boot_entry, key, label_drive, lay_out, mkfs_options_of,
  mounted_entry, new_list, part_type_of, plan, read_mount_options, record_bcache, ref_sizes,
  reserve, set_options, size_of, swap_entry, use_partition, with_key,
}
use disks.Filesystem.Recipes.{larger, larger_unreserved, partition_recipes}
use disks.Filesystem.Settings.{
  Profile, Values, add_target, boot_targets, choose_recipe, drive_at, drives_at, max_of,
  mounting_options, not_empty, settings, share_swap, swap_count, targets_of,
}
use disks.Filesystem.Sync.{speed_sync, sync_rounds}
use disks.Filesystem.Targets.{
  devpath_paths, find_block, find_blocks, get_target_drives, is_at, md_device_at, missing_or,
  named_block, port_paths, search_devpaths, search_ports, settle, settle_scan, target_device_at,
  targets_of_group, targets_with_mount, wait_for_drives,
}
use disks.Filesystem.Volumes.{
  create_pvs, create_volume, find_extents, finish_volumes, last_group, last_item, lv_size,
  make_group, make_groups, make_volumes, read_volume, read_volumes, share_of, visited,
}
use disks.Prelude.{
  List, Option, String, [], false, if◌then◌else◌, insert_with, nat_key, none, option_key,
  option_same, refl, some, sort_with, string_key, true, ◌*◌, ◌==◌, ◌∷◌, ◌≡◌,
}
use disks.Prelude.Dict.{has_key, insert, keys, lookup}
use disks.Prelude.Exec.{Result, for_each}
use disks.Prelude.Int.{gt_frac, neg_frac, negsuc, pos, sub_frac, to_int, ℤ, ◌+ℤ◌, ◌-ℤ◌}
use disks.Prelude.Text.{join, show, split_on}

abbrev pub disk : String → Drive
disk path = record { block_path = some path; supports_trim = true }

abbrev pub drives : DriveScan
drives = record {
  block_map = ("/dev/sda", disk "/dev/sda") ∷ ("/dev/sdb", disk "/dev/sdb") ∷ [];
  port_map =
      ("ATA 0", some (disk "/dev/sda")) ∷ ("ATA 1", some (disk "/dev/sdb")) ∷ ("ATA 2", none) ∷ [];
  devpath_map = (some "/devices/a", disk "/dev/sda") ∷ (some "/devices/b", disk "/dev/sdb") ∷ [];
}

-- Every command succeeds, and no pattern is found.
abbrev pub machine : Host
machine = record {
  efi = false;
  bcache_loaded = true;
  exit_ok = λ n. true;
  output = λ n. "  Total PE 1000" ∷ [];
  is_dir = λ n path. false;
  search = λ pattern text. false;
  total_pe = λ line. some 1000;
  scan = λ n. drives;
  proc_mounts = λ n. [];
  mdstat = λ n. [];
  clock = λ n. 30 * n;
  int_of = λ line. none;
  kill_errno = λ n. none;
}

filesystem_option : String → Option String
filesystem_option key =
    if key == "partition_type"
    then some "gpt"
    else if key == "fs_type"
    then some "ext4"
    else if key == "boot_fs_type"
    then some "ext2"
    else if key == "md_meta_version"
    then some "1.2"
    else if key == "mkfs_ext4_options"
    then some "-m 0"
    else none

unfoldable pub profile : Profile
unfolding filesystem_option
profile = record {
  get = λ section key. if section == "filesystem" then filesystem_option key else none;
  items = λ section. [];
}

abbrev pub scheme : String → Values
scheme name = record {
  md_meta_version = none;
  target_drives = [];
  swap_size = none;
  boot_size = none;
  default_mounting_options = some "noatime,nodiratime";
  partition_scheme = some name;
  partition_recipe = none;
}

abbrev pub custom : Recipe → Values
custom recipe = record (scheme "custom") { partition_recipe = some recipe }

abbrev pub start : State
start = record {
  filesystem_list = [];
  mount_list = [];
  partition_map = [];
  boot_drives = [];
  parted_task_map = [];
  partition_counter = [];
  partition_pos = [];
  option_lists = [];
  mount_options = none;
  priority = none;
  part_type = none;
  size = none;
  md_list = [];
  pv_list = [];
  bcache_cache_list = [];
  bcache_backing_list = [];
  log = [];
}

-- All that a run of `partition` computes with.
unfoldable pub program : Unit {0}
unfolding new_locals drives_at partition build plan settings profile run_parted map_partitions
    mapped speed_sync execute execute_lines effect for_each lookup insert has_key keys label_drive
    drive_at new_list append_entry append_discard set_options read_mount_options mkfs_options_of
    boot_entry reserve ref_sizes size_of part_type_of add_member record_bcache swap_entry
    mounted_entry use_partition lay_out with_key add_partition start_of end_of next_pos count_up
    partition_task append_task partition_name make_partition move_pos to_int gt_frac sub_frac
    neg_frac ◌+ℤ◌ ◌-ℤ◌ show split_on join get_target_drives find_blocks find_block named_block
    search_devpaths search_ports devpath_paths port_paths wait_for_drives missing_or
    targets_with_mount settle targets_of_group is_at md_device_at target_device_at boot_targets
    swap_count share_swap max_of targets_of add_target choose_recipe not_empty partition_recipes
    mounting_options larger larger_unreserved sort_with add_raid even make_array all_trim names_of
    add_bcache make_cache bcache_entry make_volumes make_group make_groups create_pvs find_extents
    read_volume read_volumes lv_size share_of create_volume finish_volumes last_item last_group
    visited option_same insert_with sync_rounds settle_scan
program = tt

abbrev run : Values → Result Error (Unit {0}) × State
run values = partition machine profile values start

-- The script of a drive of the "mirror" scheme on this machine, with its swap from the position `rest` on.
abbrev tasks_with : ℤ → List Task
tasks_with rest =
    mklabel "gpt"
    ∷ mkpart "fat32" (pos 0) (at (pos 100))
    ∷ set_bios_grub
    ∷ mkpart "ext2" (pos 100) (at (pos 612))
    ∷ mkpart "ext2" (pos 612) (at rest)
    ∷ mkpart "linux-swap" rest end_of_device
    ∷ []

single_log : (run (scheme "single")).1.log ≡ parted "/dev/sda" (tasks_with (negsuc 511)) ∷ []
unfolding program
single_log = refl

mirror_log :
    (run (scheme "mirror")).1.log
    ≡ parted "/dev/sda" (tasks_with (negsuc 255))
      ∷ parted "/dev/sdb" (tasks_with (negsuc 255))
      ∷ mdadm "/dev/md0" "1.2" 1 2 ("/dev/sda2" ∷ "/dev/sdb2" ∷ [])
      ∷ mdadm "/dev/md1" "1.2" 1 2 ("/dev/sda3" ∷ "/dev/sdb3" ∷ [])
      ∷ write_file "/proc/sys/dev/raid/speed_limit_min" "500000000"
      ∷ write_file "/proc/sys/dev/raid/speed_limit_max" "500000000"
      ∷ write_file "/proc/sys/dev/raid/speed_limit_min" "2000"
      ∷ []
unfolding program
mirror_log = refl

-- Both drives of "dual-lvm" are listed twice as boot drives: the group 0 of its physical volumes is
-- taken for the members of its array 0.
lvm_boot_drives :
    (run (scheme "dual-lvm")).1.boot_drives ≡ "/dev/sda" ∷ "/dev/sdb" ∷ "/dev/sda" ∷ "/dev/sdb" ∷ []
unfolding program
lvm_boot_drives = refl

-- The state behind the "single" scheme.
unfoldable pub laid_out : State
unfolding program
laid_out = (run (scheme "single")).1
