-- ===== src/Filesystem/Parted/Layout.antt =====
-- Where the partitions of a drive lie: parted counts a negative position from the drive's end.
use disks.Filesystem.Model.{
  End, Error, State, Task, at, end_of_device, mklabel, mkpart, set_bios_grub,
}
use disks.Filesystem.Parted.{
  add_partition, append_task, count_up, end_of, make_partition, move_pos, next_pos, partition_name,
  partition_task, start_of,
}
use disks.Filesystem.Parted.Numbering.{script}
use disks.Prelude.{
  Bool, List, Option, String, [], arith, false, if◌then◌else◌, nat_key, none, option_key, some,
  string_key, suc, sym, true, zero, ℕ, ◌++◌, ◌+◌, ◌-◌, ◌==◌, ◌||◌, ◌∙◌, ◌∷◌, ◌≡◌, ◌≤◌,
}
use disks.Prelude.Dict.{lookup, lookup-insert_self}
use disks.Prelude.Exec.{Result, bind-eq-ok, if_both, ok, pure, ◌>>◌}
use disks.Prelude.Int.{Frac, is_negative, is_zero, negsuc, pos, to_int, ℤ, ◌+ℤ◌}
use mathlib.Core.List.{append-nil}
use mathlib.Core.Path.{subst}

-- A position on a drive of `capacity`, in MB from its start.
abbrev pub offset : ℕ → ℤ → ℕ
offset capacity (pos n) = n
offset capacity (negsuc n) = capacity - suc n

abbrev pub end_offset : ℕ → End → ℕ
end_offset capacity (at z) = offset capacity z
end_offset capacity end_of_device = capacity

-- The partitions of a script lie between `lo` and `hi`, each behind the one before.
abbrev pub Within : ℕ → ℕ → ℕ → List Task → Type 0
Within capacity lo hi [] = lo ≤ hi
Within capacity lo hi (mkpart fs start stop ∷ tasks) =
    (lo ≤ offset capacity start)
    × (offset capacity start ≤ end_offset capacity stop)
    × Within capacity (end_offset capacity stop) hi tasks
Within capacity lo hi (_ ∷ tasks) = Within capacity lo hi tasks

Within-append :
    (capacity lo mid hi : ℕ) (xs ys : List Task)
    → Within capacity lo mid xs
    → Within capacity mid hi ys
    → Within capacity lo hi (xs ++ ys)
Within-append capacity lo mid hi [] [] h k = omega arith
Within-append capacity lo mid hi [] (mkpart fs a b ∷ ys) h k = (omega arith, k.1, k.2)
Within-append capacity lo mid hi [] (mklabel l ∷ ys) h k =
    Within-append capacity lo mid hi [] ys h k
Within-append capacity lo mid hi [] (set_bios_grub ∷ ys) h k =
    Within-append capacity lo mid hi [] ys h k
Within-append capacity lo mid hi (mkpart fs a b ∷ xs) ys h k =
    (h.0, h.1, Within-append capacity (end_offset capacity b) mid hi xs ys h.2 k)
Within-append capacity lo mid hi (mklabel l ∷ xs) ys h k =
    Within-append capacity lo mid hi xs ys h k
Within-append capacity lo mid hi (set_bios_grub ∷ xs) ys h k =
    Within-append capacity lo mid hi xs ys h k

Within-mono :
    (capacity lo hi more : ℕ) (xs : List Task)
    → Within capacity lo hi xs
    → hi ≤ more
    → Within capacity lo more xs
Within-mono capacity lo hi more xs h le =
    rw append-nil at (Within-append capacity lo hi more xs [] h le)

-- How far a drive is used up. Position 0 says that it is full.
abbrev pub used : ℕ → State → String → ℕ
used capacity s d = elim (lookup d s.partition_pos) [
  | none ↦ 0
  | some p ↦ if is_zero p then capacity else offset capacity p
]

-- The drive's partitions lie in its used part, one behind the other.
pub record IsLaidOut (capacity : ℕ) (d : String) (s : State) : Type 0 where
  pub laid : Within capacity 0 (used capacity s d) (script s d)
  pub inside : used capacity s d ≤ capacity

-- A size in MB that leaves its drive's other partitions alone: the rest of the drive, all but the
-- last MBs, or a number of MBs from a position that counts from the start.
abbrev pub Fits : ℕ → String → State → ℤ → Type 0
Fits capacity d s (pos zero) = Unit
Fits capacity d s (pos (suc n)) =
    (used capacity s d + suc n ≤ capacity)
    × ((p : ℤ) → lookup d s.partition_pos ≡ some p → is_negative p ≡ false)
Fits capacity d s (negsuc n) = used capacity s d + suc n ≤ capacity

-- The kept position is where the new partition ends, and it lies behind what was used.
abbrev pub EndsBehind : ℕ → String → State → ℤ → ℤ → Type 0
EndsBehind capacity d s start size =
    (offset capacity start ≡ used capacity s d)
    × (used capacity s d ≤ end_offset capacity (end_of start size))
    × (end_offset capacity (end_of start size) ≤ capacity)
    × ((if is_zero (next_pos start size) then capacity else offset capacity (next_pos start size))
        ≡ end_offset capacity (end_of start size))

pub start_of-EndsBehind :
    (capacity : ℕ) (d : String) (s : State) (start size : ℤ)
    → used capacity s d ≤ capacity
    → Fits capacity d s size
    → (start_of d s).0 ≡ ok start
    → EndsBehind capacity d s start size
unfolding end_of next_pos ◌+ℤ◌ start_of
start_of-EndsBehind capacity d s start (pos zero) l f began = ground arith
start_of-EndsBehind capacity d s start (pos (suc n)) l f began = ground (arith, f.0, f.1 start)
start_of-EndsBehind capacity d s start (negsuc n) l f began = ground (arith, f)

pub append_task-script :
    (d : String) (task : Task) (s : State)
    → (append_task d task s).0 ≡ ok tt
    → script (append_task d task s).1 d ≡ script s d ++ task ∷ []
unfolding append_task
append_task-script d task s h =
    ground (arith, lookup-insert_self d (script s d ++ task ∷ []) s.parted_task_map)

module _ (capacity : ℕ) (d : String) (s : State) (lo hi : ℕ)
    (h : Within capacity lo hi (script s d)) where
  append_task-Within :
      (fs : String) (start : ℤ) (stop : End)
      → hi ≡ offset capacity start
      → hi ≤ end_offset capacity stop
      → (append_task d (mkpart fs start stop) s).0 ≡ ok tt
      → Within capacity lo
          (end_offset capacity stop)
          (script (append_task d (mkpart fs start stop) s).1 d)
  append_task-Within fs start stop e le r =
      rw (append_task-script d (mkpart fs start stop) s r)
        (Within-append capacity lo hi _ (script s d) _ h (omega arith, omega arith, omega arith))

  append_task-Within_flag :
      (append_task d set_bios_grub s).0 ≡ ok tt
      → Within capacity lo hi (script (append_task d set_bios_grub s).1 d)
  append_task-Within_flag r =
      rw (append_task-script d set_bios_grub s r)
        (Within-append capacity lo hi _ (script s d) _ h (omega arith))

-- Where an action returns, it leaves the drive with partitions up to `hi`.
abbrev Lays : ℕ → String → ℕ → Result Error (Unit {0}) × State → Type 0
Lays capacity d hi x = x.0 ≡ ok tt → Within capacity 0 hi (script x.1 d)

module _ (capacity : ℕ) (d : String) (start : ℤ) (stop : End) (s : State) (hi : ℕ)
    (h : Within capacity 0 hi (script s d)) (e : hi ≡ offset capacity start)
    (le : hi ≤ end_offset capacity stop) where
  append_task-Lays :
      (fs : String)
      → Lays capacity d (end_offset capacity stop) (append_task d (mkpart fs start stop) s)
  append_task-Lays fs r = append_task-Within capacity d s 0 hi h fs start stop e le r

  grub_task-Lays :
      Lays capacity d
        (end_offset capacity stop)
        ((append_task d (mkpart "fat32" start stop) >> append_task d set_bios_grub) s)
  grub_task-Lays r =
      let (unit, first, same) =
        bind-eq-ok (append_task d (mkpart "fat32" start stop)) (λ _. append_task d set_bios_grub) s
          tt r in
      let laid = append_task-Lays "fat32" first in
      rw same (append_task-Within_flag capacity d _ 0 _ laid (rw same at r))

  partition_task-Lays :
      (part_type : String)
      → Lays capacity d (end_offset capacity stop) (partition_task d part_type start stop s)
  unfolding partition_task
  partition_task-Lays part_type =
      let P = Lays capacity d (end_offset capacity stop) in
      if_both P (part_type == "bios_grub") _ _ s grub_task-Lays (
        if_both P (part_type == "fs" || part_type == "empty") _ _ s (append_task-Lays "ext2")
          (if_both P (part_type == "swap") _ _ s (append_task-Lays "linux-swap") (λ r. cc)))

-- The counter has no part in the layout.
pub count_up-keeps :
    (d : String) (s : State)
    → ((count_up d s).1.partition_pos ≡ s.partition_pos)
      × ((count_up d s).1.parted_task_map ≡ s.parted_task_map)
unfolding count_up
count_up-keeps d s = ground arith

append_task-pos :
    (d : String) (task : Task) (s : State)
    → (append_task d task s).1.partition_pos ≡ s.partition_pos
unfolding append_task
append_task-pos d task s = ground arith

pub partition_task-pos :
    (d part_type : String) (start : ℤ) (stop : End) (s : State)
    → (partition_task d part_type start stop s).1.partition_pos ≡ s.partition_pos
unfolding partition_task
partition_task-pos d part_type start stop s = ground (
  arith,
  append_task-pos d (mkpart "fat32" start stop) s,
  append_task-pos d set_bios_grub (append_task d (mkpart "fat32" start stop) s).1,
  append_task-pos d (mkpart "ext2" start stop) s,
  append_task-pos d (mkpart "linux-swap" start stop) s,
)

pub count_up-script : (d : String) (s : State) → script (count_up d s).1 d ≡ script s d
count_up-script d s = ground (arith, count_up-keeps d s)

made-used :
    (capacity : ℕ) (d part_type : String) (start : ℤ) (stop : End) (s : State)
    → used capacity (partition_task d part_type start stop (count_up d s).1).1 d ≡ used capacity s d
made-used capacity d part_type start stop s =
    ground (arith, count_up-keeps d s, partition_task-pos d part_type start stop (count_up d s).1)

abbrev LaysOut : ℕ → String → Result Error (Option String) × State → Type 0
LaysOut capacity d x = (r : Option String) → x.0 ≡ ok r → IsLaidOut capacity d x.1

module _ (capacity : ℕ) (d part_type : String) (start : ℤ) (stop : End) (s : State) (hi : ℕ)
    (h : Within capacity 0 hi (script s d)) (e : hi ≡ offset capacity start)
    (le : hi ≤ end_offset capacity stop) (inside : end_offset capacity stop ≤ capacity)
    (there : used capacity s d ≡ end_offset capacity stop) where
  made-IsLaidOut :
      (partition_task d part_type start stop (count_up d s).1).0 ≡ ok tt
      → IsLaidOut capacity d (partition_task d part_type start stop (count_up d s).1).1
  made-IsLaidOut made = record {
    laid =
        subst
          (λ u.
            Within capacity 0 u
              (script (partition_task d part_type start stop (count_up d s).1).1 d))
          (sym (made-used capacity d part_type start stop s ∙ there))
          (partition_task-Lays capacity d start stop (count_up d s).1 hi
            (subst (Within capacity 0 hi) (sym (count_up-script d s)) h) e le part_type made);
    inside = omega (arith, made-used capacity d part_type start stop s);
  }

  make_partition-LaysOut : LaysOut capacity d (make_partition d part_type start stop s)
  unfolding make_partition
  make_partition-LaysOut r returns =
      let (number, counted, same) = bind-eq-ok (count_up d) _ s r returns in
      let m = partition_task d part_type start stop in
      let n = λ (u : Unit {0}). pure {E = Error} {S = State} (some (partition_name d number)) in
      let (unit, made, same') = bind-eq-ok m n (count_up d s).1 r (rw same at returns) in
      subst (λ x. IsLaidOut capacity d x.1) (sym (same ∙ same')) (made-IsLaidOut made)

-- Behind a call that returns the new position is the used part's end.
module _ (capacity : ℕ) (d : String) (s : State) (start size : ℤ)
    (began : (start_of d s).0 ≡ ok start) (b : EndsBehind capacity d s start size) where
  abbrev pub placed : State
  placed = (move_pos d (next_pos start size) (start_of d s).1).1

  pub used-placed : used capacity placed d ≡ end_offset capacity (end_of start size)
  unfolding move_pos start_of
  used-placed = ground (arith, lookup-insert_self d (next_pos start size) s.partition_pos, b.3)

  pub script-placed : script placed d ≡ script s d
  unfolding move_pos start_of
  script-placed = ground arith

  placed-LaysOut :
      (part_type : String) (blank : Bool)
      → IsLaidOut capacity d s
      → LaysOut capacity d (
          (if blank then pure none else make_partition d part_type start (end_of start size))
            placed)
  placed-LaysOut part_type true l = λ r e. record {
    laid =
        subst (Within capacity 0 _) (sym script-placed)
          (Within-mono capacity 0 _ _ (script s d) l.laid (omega (arith, used-placed, b.1)));
    inside = omega (arith, used-placed, b.2);
  }
  placed-LaysOut part_type false l =
      make_partition-LaysOut capacity d part_type start (end_of start size) placed
        (used capacity s d) (subst (Within capacity 0 _) (sym script-placed) l.laid) (sym b.0) b.1
        b.2 used-placed

pub add_partition-IsLaidOut :
    (capacity : ℕ) (d part_type : String) (size : Frac) (s : State)
    → IsLaidOut capacity d s
    → Fits capacity d s (to_int size)
    → (r : Option String) → (add_partition d part_type size s).0 ≡ ok r
    → IsLaidOut capacity d (add_partition d part_type size s).1
unfolding add_partition
add_partition-IsLaidOut capacity d part_type size s l f r returns =
    let (start, began, e) = bind-eq-ok (start_of d) _ s r returns in
    let b = start_of-EndsBehind capacity d s start (to_int size) l.inside f began in
    subst (LaysOut capacity d) (sym e)
      (unfold move_pos in
        placed-LaysOut capacity d s start (to_int size) began b part_type (part_type == "blank") l)
      r returns
