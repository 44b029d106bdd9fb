-- ===== src/DiskTest/Lists.antt =====
-- The lists of disks/disk-test/root/pylib/DriveManager.py.
use disks.Cinp.Words.{Text, codes, is_nil, same_text}
use disks.DiskTest.Limits.{
  Reason, allready_dead, allready_thrashed, has_partitions, is_mounted, is_no_thrash, is_removable,
  is_virtual,
}
use disks.Filesystem.Samples.{drives}
use disks.Prelude.{
  Bool, List, Option, String, [], false, if◌then◌else◌, leb, map, nat_key, none, not, option_key,
  select, some, string_key, true, ℕ, ◌&&◌, ◌++◌, ◌==◌, ◌||◌, ◌∷◌,
}
use disks.Prelude.Dict.{Dict, insert}
use disks.Prelude.Exec.{Exec, for_each, gets, modify, pure, raise_if, ◌>>=◌, ◌>>◌}

pub data DiskError : Type 0 where
  key_error index_error : DiskError

-- What libdrive, /etc/mtab, /proc/partitions and /sys/block say of the drives.
pub record Drives : Type 0 where
  pub drive_list : List String
  pub readable : String → Bool
  pub model : String → Text
  pub block_name : String → Option Text
  pub block_path : String → Text
  -- the content of /sys/block/NAME/removable, stripped; None where it is not there
  pub removable : Text → Option Text
  pub is_virtual_disk : String → Bool
  pub mtab : List Text
  -- of each line of /proc/partitions, the last part that Python 2's `re.split` has at ' *'
  pub partition_names : List Text

-- The lists, the two dicts of reasons, the first readings, and what was told to others: the fault
-- lights, the reports and the marks.
pub record Test : Type 0 where
  pub all_list : List String
  pub good_list : List String
  pub skip_reasons : Dict String Reason
  pub bad_reasons : Dict String Reason
  pub initial : Dict String (Dict ℕ ℕ)
  pub faults : List String
  pub reports : List (String × Reason)
  pub marked : List String

abbrev pub Act {ℓ} : Type ℓ → Type ℓ
Act A = Exec DiskError Test A

-- `DriveManager.__init__`; libdrive's list is in the order that `sort` gives it
unfoldable pub init : Drives → Test
init d = record {
  all_list = select d.readable d.drive_list;
  good_list = select d.readable d.drive_list;
  skip_reasons = [];
  bad_reasons = [];
  initial = [];
  faults = [];
  reports = [];
  marked = [];
}

-- `i = l.index( drive )`, `del l[i]`, where it is there
unfoldable pub remove_first : String → List String → List String
remove_first drive [] = []
remove_first drive (x ∷ xs) =
    let rest = remove_first drive xs in if x == drive then xs else x ∷ rest

-- `prune`
unfoldable pub prune : String → Reason → (report skip : Bool) → Test → Test
prune drive reason report skip s = record {
  all_list = s.all_list;
  good_list = remove_first drive s.good_list;
  skip_reasons = if skip then insert drive reason s.skip_reasons else s.skip_reasons;
  bad_reasons = if skip then s.bad_reasons else insert drive reason s.bad_reasons;
  initial = s.initial;
  faults = if skip then s.faults else s.faults ++ drive ∷ [];
  reports = if not skip && report then s.reports ++ (drive, reason) ∷ [] else s.reports;
  marked = s.marked;
}

abbrev pub prune_drive : String → Reason → (report skip : Bool) → Act (Unit {0})
prune_drive drive reason report skip = modify (prune drive reason report skip)

-- `evaluator.mark_thrashed`
abbrev pub mark : String → Act (Unit {0})
mark drive = modify (λ s. record {
  all_list = s.all_list;
  good_list = s.good_list;
  skip_reasons = s.skip_reasons;
  bad_reasons = s.bad_reasons;
  initial = s.initial;
  faults = s.faults;
  reports = s.reports;
  marked = s.marked ++ drive ∷ [];
})

abbrev pub is_digit : ℕ → Bool
is_digit c = leb b'0' c && leb c b'9'

-- `while tmp[-1] in string.digits: tmp = tmp[:-1]`; a text of digits only raises in the end
unfoldable pub drop_digits : Text → Text
drop_digits [] = []
drop_digits (c ∷ s) = let rest = drop_digits s in if is_nil rest && is_digit c then [] else c ∷ rest

abbrev has_nil : List Text → Bool
has_nil [] = false
has_nil (t ∷ ts) = is_nil t || has_nil ts

-- the devices of /etc/mtab, without the numbers of their partitions
unfoldable pub mount_list : List Text → Act (List Text)
mount_list mtab =
    raise_if (has_nil (map drop_digits mtab)) index_error >> pure (map drop_digits mtab)

unfoldable pub text_in : Text → List Text → Bool
text_in t [] = false
text_in t (x ∷ xs) = same_text x t || text_in t xs

-- `drive.block_name and .. .strip() != '0'`
abbrev pub is_removable_drive : Drives → Option Text → Bool
is_removable_drive d none = false
is_removable_drive d (some []) = false
is_removable_drive d (some (c ∷ name)) = elim (d.removable (c ∷ name)) [
  | none ↦ false
  | some content ↦ not (same_text content (codes "0"))
]

abbrev pub has_name : Option Text → Bool
has_name none = false
has_name (some name) = not (is_nil name)

abbrev pub name_in : Option Text → List Text → Bool
name_in none names = false
name_in (some name) names = not (is_nil name) && text_in name names

-- one round of `skipUnThrashable`
unfoldable pub skip_one : Drives → List Text → String → Act (Unit {0})
skip_one d mounts drive =
    if is_removable_drive d (d.block_name drive)
    then prune_drive drive is_removable false true
    else if has_name (d.block_name drive) && text_in (d.block_path drive) mounts
    then prune_drive drive is_mounted false true
    else if same_text (d.model drive) (codes "SATADOM-SL 3ME")
    then prune_drive drive is_no_thrash false true >> mark drive
    else if d.is_virtual_disk drive
    then prune_drive drive is_virtual false true
    else pure tt

unfoldable pub skip_unthrashable : Drives → Act (Unit {0})
skip_unthrashable d = do
  mounts ← mount_list d.mtab
  drives ← gets (λ s. s.good_list)
  for_each drives (skip_one d mounts)

abbrev is_lower : ℕ → Bool
is_lower x = leb 97 x && leb x 122

abbrev is_one_digit : ℕ → Bool
is_one_digit x = leb 48 x && leb x 57

-- `[a-z]*[0-9]$`
unfoldable pub letters_digit : Text → Bool
letters_digit [] = false
letters_digit (x ∷ []) = is_one_digit x
letters_digit (x ∷ y ∷ s) = let rest = letters_digit (y ∷ s) in is_lower x && rest

-- `^sd[a-z]+[0-9]$`, of a name with no line end
unfoldable pub is_partition : Text → Bool
is_partition (x ∷ y ∷ z ∷ s) = x == b's' && y == b'd' && is_lower z && letters_digit s
is_partition _ = false

-- `re.sub( '[0-9]$', '', item )` of such a name, which has the one digit at its end
unfoldable pub drop_last : Text → Text
drop_last [] = []
drop_last (x ∷ []) = []
drop_last (x ∷ y ∷ s) = x ∷ drop_last (y ∷ s)

-- the drives that have partitions
unfoldable pub partitioned : List Text → List Text
partitioned names = map drop_last (select is_partition names)

-- `skipWithFilesystems`
unfoldable pub skip_with_filesystems : Drives → Act (Unit {0})
skip_with_filesystems d = gets (λ s. s.good_list) >>= λ drives. for_each drives λ drive.
    if name_in (d.block_name drive) (partitioned d.partition_names)
    then prune_drive drive has_partitions false true
    else pure tt

-- `pruneAllreadyDead`, with the evaluator's answer
unfoldable pub prune_allready_dead : (String → Bool) → Act (Unit {0})
prune_allready_dead is_dead = gets (λ s. s.good_list) >>= λ drives.
    for_each drives
      λ drive. if is_dead drive then prune_drive drive allready_dead false false else pure tt

-- `skipAllreadyThrashed`
unfoldable pub skip_allready_thrashed : (String → Bool) → Act (Unit {0})
skip_allready_thrashed is_thrashed = gets (λ s. s.good_list) >>= λ drives.
    for_each drives
      λ drive. if is_thrashed drive then prune_drive drive allready_thrashed false true else pure tt
