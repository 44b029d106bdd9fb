-- ===== src/Filesystem/Fstab.antt =====
-- `writefstab`, `fsConfigValues` and `_getFirstMDMember` of filesystem.py.
pub mod Lines
use disks.Filesystem.Model.{Error, FsEntry, State, index_error, key_error}
use disks.Filesystem.Mount.{mount_order, options_of, place_of}
use disks.Filesystem.Recipes.{member}
use disks.Filesystem.Settings.{Profile}
use disks.Prelude.{
  List, Option, String, [], if◌then◌else◌, map, nat_key, none, not, option_same, option_key, some,
  string_key, ℕ, ◌++◌, ◌==◌, ◌∷◌,
}
use disks.Prelude.Dict.{Dict, insert, lookup}
use disks.Prelude.Exec.{Result, and_then, err, found_or, ok}
use disks.Prelude.Text.{begins, join, len}
use text.Mathlib.Text.{starts_with}

-- `mount_points` of `writefstab`: the entry of each place
unfoldable pub fstab_points : List FsEntry → Dict String FsEntry → Dict String FsEntry
fstab_points [] points = points
fstab_points (fs ∷ entries) points =
    fstab_points entries
      (elim (place_of fs) [ none ↦ points | some place ↦ insert place fs points ])

unfoldable pub prefix_lines : List (String × String) → List String
prefix_lines [] = []
prefix_lines ((name, value) ∷ items) =
    let rest = prefix_lines items in if starts_with name "prefix_" then value ∷ rest else rest

-- A line of the fstab: its six fields, or a text of the profile.
pub data FstabLine : Type 0 where
  verbatim : String → FstabLine
  swap_line : (uuid : String) → (priority : ℕ) → FstabLine
  mount_line : (uuid mount_point type options : String) → (pass : ℕ) → FstabLine

unfoldable pub swap_line_of : FsEntry → Result Error FstabLine
swap_line_of fs = and_then (found_or fs.uuid (key_error "uuid")) λ uuid.
    and_then (found_or fs.priority (key_error "priority")) λ priority. ok (swap_line uuid priority)

unfoldable pub swap_lines : List FsEntry → Result Error (List FstabLine)
swap_lines [] = ok []
swap_lines (fs ∷ entries) =
    let later = swap_lines entries in
    if not (fs.type == "swap")
    then later
    else and_then (swap_line_of fs) λ line. and_then later λ lines. ok (line ∷ lines)

unfoldable pub options_text : List String → String
options_text options = if join "," options == "" then "defaults" else join "," options

unfoldable pub fstab_line : List (List String) → String → FsEntry → Result Error FstabLine
fstab_line lists place fs = and_then (options_of lists fs) λ options.
    and_then (found_or fs.uuid (key_error "uuid")) λ uuid.
      ok (mount_line uuid place fs.type (options_text options) (if place == "/" then 1 else 2))

unfoldable pub mount_lines :
    List (List String) → Dict String FsEntry → List String → Result Error (List FstabLine)
mount_lines lists points [] = ok []
mount_lines lists points (place ∷ places) =
    let later = mount_lines lists points places in
    and_then (found_or (lookup place points) (key_error place))
      λ fs. and_then (fstab_line lists place fs) λ line. and_then later λ lines. ok (line ∷ lines)

-- What `writefstab` writes; an error leaves the file with the lines before it.
unfoldable pub fstab : Profile → State → Result Error (List FstabLine)
fstab profile s =
    let points = fstab_points s.filesystem_list [] in
    and_then (swap_lines s.filesystem_list) λ swaps.
      and_then (mount_lines s.option_lists points (mount_order points))
        λ mounts. ok (map verbatim (prefix_lines (profile.items "fstab")) ++ (swaps ++ mounts))

-- The result of `fsConfigValues`, of which the last two keys may be missing.
pub record FsConfig : Type 0 where
  pub boot_drives : List String
  pub mount_points : Dict String String
  pub root_uuid : Option String
  pub block_device : Option String

-- `mount_point[0] != '/'`, which raises for an empty name
unfoldable pub slash_points :
    Dict String String → Dict String String → Result Error (Dict String String)
slash_points [] found = ok found
slash_points ((place, device) ∷ map) found =
    if len place == 0
    then err index_error
    else if begins b'/' place
    then slash_points map (insert place device found)
    else slash_points map found

-- `fs[ 'mount_point' ] == '/'` with a missing key as an entry that is passed over; an entry without
-- a uuid leaves both keys as they are
unfoldable pub root_values : List FsEntry → FsConfig → FsConfig
root_values [] config = config
root_values (fs ∷ entries) config =
    let here : FsConfig = elim fs.uuid [
      | none ↦ config
      | some uuid ↦ record config { root_uuid = some uuid; block_device = some fs.block_device }
    ] in
    root_values entries (if option_same (place_of fs) (some "/") then here else config)

unfoldable pub fs_config_values : State → Result Error FsConfig
fs_config_values s = elim (slash_points s.partition_map []) [
  | err e ↦ err e
  | ok places ↦ ok (
      root_values s.filesystem_list (record {
        boot_drives = s.boot_drives;
        mount_points = places;
        root_uuid = none;
        block_device = none;
      }))
]

abbrev first_of : Option (List String) → String → String
first_of none device = device
first_of (some []) device = device
first_of (some (member ∷ members)) device = member

-- `_getFirstMDMember`, which answers None where nothing is mounted at the place
unfoldable pub first_md_member : String → List FsEntry → Option String
first_md_member place [] = none
first_md_member place (fs ∷ entries) =
    let rest = first_md_member place entries in
    if option_same (place_of fs) (some place)
    then some (first_of fs.members fs.block_device)
    else rest
