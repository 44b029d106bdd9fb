-- ===== src/Filesystem/Model.antt =====
-- The data of disks/linux-installer/root/installer/filesystem.py: recipes, drives, the module's
-- globals, and the commands that it runs. A string that `format` builds for a command or for
-- parted is a constructor with the values that the format string receives.
use disks.Prelude.{ℕ, String, Bool, Option, List, [], ◌∷◌, ◌++◌, length, if◌then◌else◌}
use disks.Prelude.Dict.{Dict}
use disks.Prelude.Int.{ℤ, Frac}
use disks.Prelude.Exec.{ok, err, Exec}

-- `item[ 'size' ]`, by the test that takes it: `percent x` is '<100 x>%', and `mb n` any other
-- value, which must be an integer.
pub data Size : Type 0 where
  end boot minus_boot swap minus_swap : Size
  percent : Frac → Size
  mb : ℤ → Size

-- The dict `sizes` that the lambda of a `ref_size` item receives.
pub record Sizes : Type 0 where
  pub swap : Frac
  pub boot : Frac
  pub boot_rsvd : Frac

-- An item of a recipe, a dict of which any key may be missing. `used_as` is its key 'as'.
pub record Item : Type 0 where
  pub target : Option ℕ
  pub type : Option String
  pub group : Option ℕ
  pub size : Option Size
  pub mount_point : Option (Option String)
  pub mount_options : Option String
  pub mkfs_options : Option String
  pub priority : Option ℕ
  pub used_as : Option String
  pub md : Option ℕ
  pub level : Option ℕ
  pub meta_version : Option String
  pub bcache : Option ℕ
  pub mode : Option String
  pub vg : Option ℕ
  pub lv : Option ℕ
  pub name : Option String
  pub ref_size : Option String
  pub lambda : Option (Sizes → Frac)

abbrev pub Recipe : Type 0
Recipe = List Item

-- A `libdrive` drive, by the two attributes that the installer reads.
pub record Drive : Type 0 where
  pub block_path : Option String
  pub supports_trim : Bool

-- What one enumeration by `DriveManager` answers: `block_map` with the drive of each port.
pub record DriveScan : Type 0 where
  pub block_map : Dict String Drive
  pub port_map : Dict String (Option Drive)
  pub devpath_map : Dict (Option String) Drive

-- Where a partition ends: `{0}m` or the end of the device, `-0`.
pub data End : Type 0 where
  at : ℤ → End
  end_of_device : End

-- A command of parted's script. `mkpart fs start end` is 'mkpart primary <fs> <start>m <end>'.
pub data Task : Type 0 where
  mklabel : String → Task
  mkpart : String → ℤ → End → Task
  set_bios_grub : Task

-- The size argument of lvcreate. `leftover` is the number that the variable `size` keeps of the
-- partitions where no item is an 'lv'.
pub data LvSize : Type 0 where
  extents : ℤ → LvSize
  megabytes : ℤ → LvSize
  leftover : Frac → LvSize

-- What reaches the system: the commands that `execute` runs and the writes to kernel files.
pub data Command : Type 0 where
  parted : String → List Task → Command
  mdadm :
      (dev_name meta_version : String)
      → (level raid_devices : ℕ) → (members : List String) → Command
  modprobe_bcache : Command
  make_bcache : (writeback : Bool) → (backing cache : String) → Command
  write_file : (path text : String) → Command
  pvcreate : String → Command
  vgcreate : String → List String → Command
  vgdisplay : String → Command
  lvcreate : (name : String) → LvSize → (vg : String) → Command
  mkfs_command : (type options block_device : String) → Command
  blkid : String → Command
  mount_command : (options : List String) → (fstype fs mount_point : String) → Command
  umount_command : String → Command
  symlink : (target path : String) → Command
  remove touch : String → Command
  list_open_files : Command
  kill : (pid : ℕ) → (by_force : Bool) → Command
  makedirs : String → Command

-- An entry of `filesystem_list`. `mount_options` is the place of its list in `option_lists`.
pub record FsEntry : Type 0 where
  pub mount_point : Option (Option String)
  pub type : String
  pub mount_options : Option ℕ
  pub block_device : String
  pub mkfs_options : Option String
  pub priority : Option ℕ
  pub members : Option (List String)
  pub uuid : Option String

-- An entry of `mount_list`: the arguments of `_do_mount`.
pub record Mount : Type 0 where
  pub mount_point : String
  pub fstype : String
  pub fs : String
  pub options : List String

-- The exceptions, by what raises them.
pub data Error : Type 0 where
  file_system_exception : String → Error
  missing_drives : String → Error
  exception : String → Error
  key_error unbound_local attribute_error : String → Error
  index_error value_error type_error : Error
  no_option : String → Error
  execute_failed : Command → Error
  os_error : ℕ → Error
  -- a loop of the program that the fuel does not suffice for
  still_running : Error

-- The module's globals, the local variables of `partition` that one item leaves for the next, the
-- lists of mount options (Python objects that several entries may share), and what was executed.
pub record State : Type 0 where
  pub filesystem_list : List FsEntry
  pub mount_list : List Mount
  pub partition_map : Dict String String
  pub boot_drives : List String
  pub parted_task_map : Dict String (List Task)
  pub partition_counter : Dict String ℕ
  pub partition_pos : Dict String ℤ
  pub option_lists : List (List String)
  pub mount_options : Option ℕ
  pub priority : Option ℕ
  pub part_type : Option String
  pub size : Option LvSize
  pub md_list : Dict ℕ (List (String × Drive))
  pub pv_list : Dict ℕ (List (String × Drive))
  pub bcache_cache_list : Dict ℕ String
  pub bcache_backing_list : Dict ℕ String
  pub log : List Command

abbrev pub Action {ℓ} : Type ℓ → Type ℓ
Action A = Exec Error State A

-- The machine and its tools, which the program only calls. `exit_ok n` and `output n` are what the
-- n-th command answers, `is_dir`, `proc_mounts` and `kill_errno` what the system does behind n
-- commands, `clock n` and `mdstat n` the seconds and the list of `_mdSyncPercentange` in the n-th round
-- of the wait for the arrays, `int_of` is Python's `int` on a line of output; `search` is `re.search` and `total_pe` the match on a line of vgdisplay.
pub record Host : Type 0 where
  pub efi : Bool
  pub bcache_loaded : Bool
  pub exit_ok : ℕ → Bool
  pub output : ℕ → List String
  pub is_dir : ℕ → String → Bool
  pub search : String → String → Bool
  pub total_pe : String → Option ℕ
  pub scan : ℕ → DriveScan
  pub proc_mounts : ℕ → List String
  pub mdstat : ℕ → List Frac
  pub clock : ℕ → ℕ
  pub int_of : String → Option ℕ
  pub kill_errno : ℕ → Option ℕ

-- `execute` of procutils.py: a command that fails raises, and has run.
unfoldable pub execute : Host → Command → Action (Unit {0})
execute host c s = (
  if host.exit_ok (length s.log) then ok tt else err (execute_failed c),
  record s { log = s.log ++ c ∷ [] },
)

-- `execute_lines`
unfoldable pub execute_lines : Host → Command → Action (List String)
execute_lines host c s = (
  if host.exit_ok (length s.log) then ok (host.output (length s.log)) else err (execute_failed c),
  record s { log = s.log ++ c ∷ [] },
)

-- `open( path, 'w' ).write( text )` and `os.makedirs`, taken to succeed
unfoldable pub effect : Command → Action (Unit {0})
effect c s = (ok tt, record s { log = s.log ++ c ∷ [] })
