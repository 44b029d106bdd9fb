-- ===== src/Filesystem/Fstab/Lines.antt =====
-- What `writefstab` and `fsConfigValues` give for the list of filesystems.
use disks.Filesystem.Fstab.{FstabLine, mount_line}
use disks.Filesystem.Model.{FsEntry}
use disks.Prelude.{
  Bool, List, Option, String, [], contains, false, nat_key, none, not, option_key, some, string_key,
  true, ◌&&◌, ◌==◌, ◌||◌, ◌∷◌,
}
use disks.Prelude.Dict.{Dict, insert}

-- the places of the lines for mounted filesystems, in the order of the file
abbrev pub places_in : List FstabLine → List String
places_in [] = []
places_in (mount_line uuid place type options pass ∷ lines) = place ∷ places_in lines
places_in (_ ∷ lines) = places_in lines

-- the places of one line
abbrev place_in : FstabLine → List String
place_in line = places_in (line ∷ [])

-- A missing mount point and one that is None are no place.
abbrev stands_at : Option (Option String) → String → Bool
stands_at none place = false
stands_at (some none) place = false
stands_at (some (some point)) place = point == place

-- whether a filesystem of the list has the mount point
abbrev pub has_place : List FsEntry → String → Bool
has_place [] place = false
has_place (fs ∷ entries) place = stands_at fs.mount_point place || has_place entries place

-- no item of the list comes twice
abbrev pub each_once : List String → Bool
each_once [] = true
each_once (place ∷ places) = not (contains places place) && each_once places

-- what an entry with the mount point `o` does to the dict of the places
abbrev with_place : Option (Option String) → FsEntry → Dict String FsEntry → Dict String FsEntry
with_place o fs points =
    let place : Option String = elim o [ none ↦ none | some place ↦ place ] in
    elim place [ none ↦ points | some place ↦ insert place fs points ]
