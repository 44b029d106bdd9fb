-- ===== src/Filesystem/Mount.antt =====
-- `mkfs`, `mount`, `remount` and `unmount` of filesystem.py.
pub mod Commands
pub mod Order
use Prim.Native.String.{count}
use disks.Filesystem.Model.{
  Action, Error, FsEntry, Host, Mount, blkid, effect, execute, execute_lines, index_error,
  key_error, kill, list_open_files, makedirs, mkfs_command, mount_command, no_option, os_error,
  remove, still_running, symlink, touch, umount_command, value_error,
}
use disks.Filesystem.Plan.{key, lift}
use disks.Filesystem.Recipes.{mkfs_types, mounted}
use disks.Filesystem.Settings.{Profile}
use disks.Filesystem.Targets.{or_else}
use disks.Prelude.{
  Bool, List, Option, String, [], by_key, contains, false, get_elem?, if◌then◌else◌, length, ltb,
  map, nat_key, none, not, option_key, some, sort_with, string_key, suc, zero, ℕ, ◌&&◌, ◌++◌, ◌<>◌,
  ◌==◌, ◌∷◌,
}
use disks.Prelude.Dict.{Dict, insert, keys, lookup}
use disks.Prelude.Exec.{Result, err, for_each, gets, modify, ok, or_raise, pure, raise, ◌>>=◌, ◌>>◌}
use disks.Prelude.Text.{len, path_join, rstrip, split_on, strip}
use mathlib.Core.List.{reverse}
use text.Mathlib.Text.{starts_with}

-- the first part `key=value` of a blkid line whose key is UUID
unfoldable pub uuid_in : List String → Option String
uuid_in [] = none
uuid_in (part ∷ parts) =
    let rest = uuid_in parts in
    elim (split_on b'=' part) [
      | [] ↦ rest
      | name ∷ values ↦ elim values [
        | [] ↦ rest
        | value ∷ more ↦ if length more == 0 && name == "UUID" then some value else rest
      ]
    ]

-- The `break` leaves the loop over the parts, so that the last line with a UUID decides.
unfoldable pub read_uuid : List String → Option String → Option String
read_uuid [] uuid = uuid
read_uuid (line ∷ lines) uuid = read_uuid lines (or_else (uuid_in (split_on b' ' line)) uuid)

unfoldable pub set_uuid : List FsEntry → ℕ → List String → List FsEntry
set_uuid [] i lines = []
set_uuid (fs ∷ entries) zero lines = record fs { uuid = read_uuid lines fs.uuid } ∷ entries
set_uuid (fs ∷ entries) (suc i) lines = fs ∷ set_uuid entries i lines

-- the mkfs command of the i-th entry, and the UUID that blkid finds
unfoldable pub format_fs : Host → ℕ → FsEntry → String → Action (Unit {0})
format_fs host i fs options = do
  execute host (mkfs_command fs.type options fs.block_device)
  lines ← execute_lines host (blkid fs.block_device)
  modify (λ s. record s { filesystem_list = set_uuid s.filesystem_list i lines })

-- the body of the loop of `mkfs`
unfoldable pub make_fs : Host → ℕ → FsEntry → Action (Unit {0})
make_fs host i fs =
    if not (contains mkfs_types fs.type)
    then raise (key_error fs.type)
    else key fs.mkfs_options "mkfs_options" >>= format_fs host i fs

unfoldable pub mkfs_from : Host → ℕ → List FsEntry → Action (Unit {0})
mkfs_from host i [] = pure tt
mkfs_from host i (fs ∷ entries) = make_fs host i fs >> mkfs_from host (suc i) entries

unfoldable pub mkfs : Host → Action (Unit {0})
mkfs host = do entries ← gets (λ s. s.filesystem_list); mkfs_from host 0 entries

-- `if not os.path.isdir( path ): os.makedirs( path )`
unfoldable pub ensure_dir : Host → String → Action (Unit {0})
ensure_dir host path = do
  ran ← gets (λ s. length s.log)
  if host.is_dir ran path then pure tt else effect (makedirs path)

-- `_do_mount`
unfoldable pub do_mount : Host → Mount → Action (Unit {0})
do_mount host m = execute host (mount_command m.options m.fstype m.fs m.mount_point)

-- What `mount_points` has for a place: the arguments of `_mount` behind it.
pub record MountArgs : Type 0 where
  pub fstype : String
  pub fs : String
  pub options : List String

-- `_mount`
unfoldable pub mount_one : Host → String → MountArgs → Action (Unit {0})
mount_one host point args = do
  let place = rstrip b'/' (strip point)
  let m : Mount = record {
    mount_point = place;
    fstype = args.fstype;
    fs = args.fs;
    options = args.options;
  }
  ensure_dir host place
  do_mount host m
  modify (λ s. record s { mount_list = s.mount_list ++ m ∷ [] })

-- the parts of an 'extra_mount_' value; a value of fewer than three parts has no place
unfoldable pub extra_mount :
    List String → Dict String MountArgs → Result Error (Dict String MountArgs)
extra_mount (fstype ∷ fs ∷ point ∷ []) points =
    ok (insert point (record { fstype = fstype; fs = fs; options = [] }) points)
extra_mount (fstype ∷ fs ∷ point ∷ options ∷ more) points =
    ok (insert point (record { fstype = fstype; fs = fs; options = split_on b',' options }) points)
extra_mount _ points = err index_error

-- `parts[0] == 'efivarfs'`
unfoldable pub is_efivarfs : List String → Bool
is_efivarfs [] = false
is_efivarfs (part ∷ parts) = part == "efivarfs"

unfoldable pub extra_mounts :
    Host → List (String × String) → Dict String MountArgs → Result Error (Dict String MountArgs)
extra_mounts host [] points = ok points
extra_mounts host ((name, value) ∷ items) points =
    let parts = map strip (split_on b':' value) in
    let skipped = extra_mounts host items points in
    let taken : Result Error (Dict String MountArgs) = elim (extra_mount parts points) [
      | ok more ↦ extra_mounts host items more
      | err e ↦ err e
    ] in
    if not (starts_with name "extra_mount_")
    then skipped
    else if is_efivarfs parts && not host.efi
    then skipped
    else taken

-- `'mount_point' in fs and fs[ 'mount_point' ] is not None`
unfoldable pub place_of : FsEntry → Option String
place_of fs = elim fs.mount_point [ none ↦ none | some place ↦ place ]

-- `fs[ 'mount_options' ]`, a list object
unfoldable pub options_of : List (List String) → FsEntry → Result Error (List String)
options_of lists fs = elim fs.mount_options [
  | none ↦ err (key_error "mount_options")
  | some i ↦ elim (get_elem? lists i) [ none ↦ err index_error | some options ↦ ok options ]
]

unfoldable pub fs_mounts :
    List (List String) → List FsEntry → Dict String MountArgs → Result Error (Dict String MountArgs)
fs_mounts lists [] points = ok points
fs_mounts lists (fs ∷ entries) points = elim (place_of fs) [
  | none ↦ fs_mounts lists entries points
  | some place ↦ elim (options_of lists fs) [
    | err e ↦ err e
    | ok options ↦
        fs_mounts lists entries (
          insert place (record { fstype = fs.type; fs = fs.block_device; options = options })
            points)
  ]
]

-- `mount_order`: the places, the shorter ones first
unfoldable pub mount_order {ℓ} : {A : Type ℓ} → Dict String A → List String
mount_order points = sort_with (by_key len) (keys points)

unfoldable pub mount : Host → String → Profile → Action (Unit {0})
mount host mount_point profile = do
  entries ← gets (λ s. s.filesystem_list)
  lists ← gets (λ s. s.option_lists)
  extra ← lift (extra_mounts host (profile.items "filesystem") [])
  points ← lift (fs_mounts lists entries extra)
  for_each (mount_order points) (λ point. do
    args ← key (lookup point points) "mount_points"
    mount_one host (mount_point <> point) args)
  ensure_dir host (path_join mount_point "etc")
  execute host (symlink "/proc/self/mounts" (path_join (path_join mount_point "etc") "mtab"))

-- The second field of every line of /proc/mounts, of which each must have six.
unfoldable pub mounted_points : List String → Result Error (List String)
mounted_points [] = ok []
mounted_points (line ∷ lines) = elim (get_elem? (split_on b' ' line) 1) [
  | none ↦ err value_error
  | some point ↦
      if not (length (split_on b' ' line) == 6)
      then err value_error
      else elim (mounted_points lines) [ ok points ↦ ok (point ∷ points) | err e ↦ err e ]
]

-- what `remount` does for an entry of the mount list
unfoldable pub mount_again : Host → List String → Mount → Action (Unit {0})
mount_again host mounted m = if contains mounted m.mount_point then pure tt else do_mount host m

unfoldable pub remount : Host → Action (Unit {0})
remount host = do
  ran ← gets (λ s. length s.log)
  mounted ← lift (mounted_points (host.proc_mounts ran))
  mounts ← gets (λ s. s.mount_list)
  for_each mounts (mount_again host mounted)

-- `[ int( i ) for i in lines ]`
unfoldable pub pids_of : Host → List String → Result Error (List ℕ)
pids_of host [] = ok []
pids_of host (line ∷ lines) = elim (host.int_of line) [
  | none ↦ err value_error
  | some pid ↦ elim (pids_of host lines) [ ok pids ↦ ok (pid ∷ pids) | err e ↦ err e ]
]

-- the processes that lsof finds on the target
unfoldable pub open_pids : Host → Action (List ℕ)
open_pids host = do lines ← execute_lines host list_open_files; lift (pids_of host lines)

-- `os.kill`: that the process is gone, errno 3, is no error
unfoldable pub kill_pid : Host → Bool → ℕ → Action (Unit {0})
kill_pid host by_force pid = do
  ran ← gets (λ s. length s.log)
  effect (kill pid by_force)
  elim (host.kill_errno ran) [
    | none ↦ pure tt
    | some errno ↦ if errno == 3 then pure tt else raise (os_error errno)
  ]

-- the `while pid_list` loop: SIGTERM in the first three rounds, then SIGKILL
unfoldable pub kill_all : Host → ℕ → ℕ → List ℕ → Action (Unit {0})
kill_all host fuel count [] = pure tt
kill_all host zero count (pid ∷ pids) = raise still_running
kill_all host (suc fuel) count (pid ∷ pids) = do
  for_each (pid ∷ pids) (kill_pid host (not (ltb count 3)))
  left ← open_pids host
  kill_all host fuel (suc count) left

-- `mount_list.sort( .. )` and `mount_list.reverse()`
unfoldable pub unmount_order : List Mount → List Mount
unmount_order mounts = reverse (sort_with (by_key (λ m. len m.mount_point)) mounts)

unfoldable pub unmount : Host → ℕ → String → Profile → Action (Unit {0})
unmount host fuel mount_point profile = do
  let mtab_path = path_join (path_join mount_point "etc") "mtab"
  execute host (remove mtab_path)
  mtab ← or_raise (profile.get "filesystem" "mtab") (no_option "mtab")
  execute host (if mtab == "file" then touch mtab_path else symlink mtab mtab_path)
  pids ← open_pids host
  kill_all host fuel 0 pids
  modify (λ s. record s { mount_list = unmount_order s.mount_list })
  mounts ← gets (λ s. s.mount_list)
  for_each mounts (λ m. execute host (umount_command m.mount_point))
