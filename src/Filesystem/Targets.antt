-- ===== src/Filesystem/Targets.antt =====
-- Which drives a recipe's targets are: `_targetsWithMount`, `_getTargetDrives` and the wait for
-- the drives at the head of `partition`.
pub mod Wait
use Prim.Native.String.{compare, count}
use disks.Filesystem.Model.{
  Drive, DriveScan, Error, Host, Item, Recipe, exception, missing_drives, type_error,
}
use disks.Prelude.{
  Bool, List, Option, String, [], contains, false, if◌then◌else◌, ltb, nat_key, none, not,
  option_key, some, sort_with, string_key, suc, true, zero, ℕ, ◌==◌, ◌∷◌,
}
use disks.Prelude.Dict.{Dict, keys, lookup}
use disks.Prelude.Exec.{Result, err, ok}
use text.Mathlib.Text.{is_le}

-- `key in item`
abbrev pub is_some {ℓ} : {A : Type ℓ} → Option A → Bool
is_some none = false
is_some (some a) = true

-- A string or None, as `if` and `not` read it.
abbrev pub truthy : Option String → Bool
truthy none = false
truthy (some s) = not (s == "")

-- `item[ 'mount_point' ] == mount_point`, where the item has the key
unfoldable pub is_at : String → Item → Bool
is_at mount_point item = elim item.mount_point [
  | none ↦ false
  | some here ↦ elim here [ none ↦ false | some point ↦ point == mount_point ]
]

-- `md_device = int( item[ 'md' ] )`, which keeps the old value where the key is missing
abbrev pub or_else {ℓ} : {A : Type ℓ} → Option A → Option A → Option A
or_else none old = old
or_else (some a) old = some a

-- the loop's two variables behind its last item
unfoldable pub md_device_at : String → Recipe → Option ℕ → Option ℕ
md_device_at mount_point [] found = found
md_device_at mount_point (item ∷ recipe) found =
    md_device_at mount_point recipe
      (if is_at mount_point item then or_else item.md found else found)

unfoldable pub target_device_at : String → Recipe → Option ℕ → Option ℕ
target_device_at mount_point [] found = found
target_device_at mount_point (item ∷ recipe) found =
    target_device_at mount_point recipe
      (if is_at mount_point item then or_else item.target found else found)

-- the targets of every item whose 'group' is the array's number
unfoldable pub targets_of_group : ℕ → Recipe → List ℕ
targets_of_group group [] = []
targets_of_group group (item ∷ recipe) =
    let rest = targets_of_group group recipe in
    elim item.target [
      | none ↦ rest
      | some target ↦ elim item.group [
        | none ↦ rest
        | some number ↦ if number == group then target ∷ rest else rest
      ]
    ]

-- the tests behind the loop
unfoldable pub settle : Recipe → Option ℕ → Option ℕ → Result Error (List ℕ)
settle recipe none none = ok []
settle recipe none (some target) = ok (target ∷ [])
settle recipe (some md) none = ok (targets_of_group md recipe)
settle recipe (some md) (some target) = err (exception "Confused as to where it goes")

-- `_targetsWithMount`
unfoldable pub targets_with_mount : Recipe → String → Result Error (List ℕ)
targets_with_mount recipe mount_point =
    settle recipe (md_device_at mount_point recipe none) (target_device_at mount_point recipe none)

-- `x <= y` of the sort keys `( len( x ), x )`
abbrev pub device_le : String → String → Bool
device_le x y =
    if ltb (count x) (count y)
    then true
    else if ltb (count y) (count x)
    then false
    else is_le (compare x y)

-- `port_map` of `_getTargetDrives`: the block path of each port that holds a drive
unfoldable pub port_paths : Dict String (Option Drive) → Dict String (Option String)
port_paths [] = []
port_paths ((port, drive) ∷ ports) =
    let rest = port_paths ports in elim drive [ none ↦ rest | some d ↦ (port, d.block_path) ∷ rest ]

unfoldable pub devpath_paths : Dict (Option String) Drive → Dict (Option String) (Option String)
devpath_paths [] = []
devpath_paths ((path, d) ∷ devpaths) = (path, d.block_path) ∷ devpath_paths devpaths

-- `if not block: try: block = found except: pass`
abbrev pub or_try : Option String → Option (Option String) → Option String
or_try block found = if truthy block then block else elim found [ none ↦ block | some path ↦ path ]

-- `[ port_map[i] for i in port_map if re.search( drive, i ) ]`, its first item
unfoldable pub search_ports : Host → String → Dict String (Option String) → Option (Option String)
search_ports host drive [] = none
search_ports host drive ((port, path) ∷ ports) =
    let rest = search_ports host drive ports in if host.search drive port then some path else rest

-- The same over the device paths: `re.search` raises on the path of a drive that has none.
unfoldable pub search_devpaths :
    Host → String → Dict (Option String) (Option String) → Result Error (Option (Option String))
search_devpaths host drive [] = ok none
search_devpaths host drive ((none, path) ∷ devpaths) = err type_error
search_devpaths host drive ((some devpath, path) ∷ devpaths) =
    elim (search_devpaths host drive devpaths) [
      | err e ↦ err e
      | ok rest ↦ ok (if host.search drive devpath then some path else rest)
    ]

-- A lookup by exact name: a block device, then a port, then a device path.
unfoldable pub named_block : DriveScan → String → Option String
named_block scan drive =
    let blocks = keys scan.block_map in
    let block = if contains blocks drive then some drive else none in
    let block' = or_try block (lookup drive (port_paths scan.port_map)) in
    or_try block' (lookup (some drive) (devpath_paths scan.devpath_map))

unfoldable pub missing_or : String → Option String → Result Error String
missing_or drive none = err (missing_drives drive)
missing_or drive (some block) = if truthy (some block) then ok block else err (missing_drives drive)

-- the body of the loop over `target_drives`
unfoldable pub find_block : Host → DriveScan → String → Result Error String
find_block host scan drive =
    let block = named_block scan drive in
    let block' = or_try block (search_ports host drive (port_paths scan.port_map)) in
    if truthy block'
    then missing_or drive block'
    else elim (search_devpaths host drive (devpath_paths scan.devpath_map)) [
      | err e ↦ err e
      | ok found ↦ missing_or drive (or_try block' found)
    ]

unfoldable pub find_blocks : Host → DriveScan → List String → Result Error (List String)
find_blocks host scan [] = ok []
find_blocks host scan (drive ∷ drives) = elim (find_block host scan drive) [
  | err e ↦ err e
  | ok block ↦ elim (find_blocks host scan drives) [
    | err e ↦ err e
    | ok blocks ↦ ok (block ∷ blocks)
  ]
]

-- `_getTargetDrives`; its second result, `drive_map`, is `scan.block_map`
unfoldable pub get_target_drives : Host → DriveScan → List String → Result Error (List String)
get_target_drives host scan [] = ok (sort_with device_le (keys scan.block_map))
get_target_drives host scan (drive ∷ drives) = find_blocks host scan (drive ∷ drives)

abbrev pub is_missing : Error → Bool
is_missing (missing_drives drive) = true
is_missing _ = false

-- What the loop does with one enumeration: only a missing drive makes it try `again`.
unfoldable pub settle_scan :
    Result Error (List String)
    → DriveScan
    → (Error → Result Error (List String × DriveScan))
    → Result Error (List String × DriveScan)
settle_scan (ok found) scan again = ok (found, scan)
settle_scan (err e) scan again = if is_missing e then again e else err e

-- The `while True` loop of `partition`: after the n-th enumeration another `left` may follow.
unfoldable pub wait_for_drives : Host → List String → ℕ → ℕ → Result Error (List String × DriveScan)
wait_for_drives host drives zero n =
    settle_scan (get_target_drives host (host.scan n) drives) (host.scan n) err
wait_for_drives host drives (suc left) n =
    let later = wait_for_drives host drives left (suc n) in
    settle_scan (get_target_drives host (host.scan n) drives) (host.scan n) (λ e. later)
