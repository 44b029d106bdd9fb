-- ===== src/Filesystem/Parted/Numbering.antt =====
-- The names of partitions, and the numbers that parted's scripts give them.
use disks.Filesystem.Model.{End, Error, State, Task, mklabel, mkpart, set_bios_grub}
use disks.Filesystem.Parted.{
  add_partition, append_task, count_up, end_of, make_partition, move_pos, next_pos, partition_name,
  partition_task, start_of,
}
use disks.Prelude.{
  Bool, List, Option, String, [], arith, false, if◌then◌else◌, nat_key, none, some, string_key, sym,
  true, ℕ, ◌++◌, ◌+◌, ◌-◌, ◌<◌, ◌==◌, ◌∷◌, ◌≡◌,
}
use disks.Prelude.Dict.{same_refl, lookup, lookup-insert, lookup-insert_self}
use disks.Prelude.Exec.{Result, bind-eq-ok, ok, pure}
use disks.Prelude.Int.{Frac, to_int, ℤ}
use mathlib.Core.Path.{subst}
use text.Mathlib.TextEquality.{eq_iff}

-- How many partitions a script of parted makes.
abbrev pub count_mkpart : List Task → ℕ
count_mkpart [] = 0
count_mkpart (mkpart fs start stop ∷ tasks) = count_mkpart tasks + 1
count_mkpart (_ ∷ tasks) = count_mkpart tasks

count_mkpart-append :
    (xs ys : List Task) → count_mkpart (xs ++ ys) ≡ count_mkpart xs + count_mkpart ys
count_mkpart-append [] ys = omega arith
count_mkpart-append (mkpart fs start stop ∷ xs) ys = omega (arith, count_mkpart-append xs ys)
count_mkpart-append (mklabel l ∷ xs) ys = count_mkpart-append xs ys
count_mkpart-append (set_bios_grub ∷ xs) ys = count_mkpart-append xs ys

-- The counter of a drive: 0 as long as the drive has no position.
abbrev pub counter_of : State → String → Option ℕ
counter_of s d = elim (lookup d s.partition_pos) [
  | none ↦ some 0
  | some _ ↦ lookup d s.partition_counter
]

-- The script of a drive, empty where it has none.
abbrev pub script : State → String → List Task
script s d = elim (lookup d s.parted_task_map) [ none ↦ [] | some tasks ↦ tasks ]

-- The counter of every drive is the number of partitions that its script makes.
pub record IsNumbered (s : State) : Type 0 where
  pub counted : (d : String) → counter_of s d ≡ some (count_mkpart (script s d))

append_task-count :
    (d : String) (task : Task) (s : State) (j : String)
    → (append_task d task s).0 ≡ ok tt
    → count_mkpart (script (append_task d task s).1 j)
      ≡ count_mkpart (script s j) + (if d == j then count_mkpart (task ∷ []) else 0)
unfolding append_task
append_task-count d task s j h = ground (
  arith,
  eq_iff d j,
  lookup-insert d j (script s d ++ task ∷ []) s.parted_task_map,
  count_mkpart-append (script s d) (task ∷ []),
)

append_task-keeps :
    (d : String) (task : Task) (s : State)
    → ((append_task d task s).1.partition_pos ≡ s.partition_pos)
      × ((append_task d task s).1.partition_counter ≡ s.partition_counter)
unfolding append_task
append_task-keeps d task s = ground arith

count_up-counter :
    (d : String) (s : State) (n : ℕ) (j : String)
    → (count_up d s).0 ≡ ok n
    → lookup j (count_up d s).1.partition_counter
      ≡ (if d == j then some n else lookup j s.partition_counter)
unfolding count_up
count_up-counter d s n j h = ground (arith, eq_iff d j, lookup-insert d j n s.partition_counter)

count_up-keeps :
    (d : String) (s : State) (n : ℕ)
    → (count_up d s).0 ≡ ok n
    → ((count_up d s).1.partition_pos ≡ s.partition_pos)
      × ((count_up d s).1.parted_task_map ≡ s.parted_task_map)
      × (lookup d s.partition_counter ≡ some (n - 1))
      × (0 < n)
unfolding count_up
count_up-keeps d s n h = ground arith

module _ (d part_type : String) (start : ℤ) (stop : End) (s : State) where
  partition_task-count :
      (j : String)
      → (partition_task d part_type start stop s).0 ≡ ok tt
      → count_mkpart (script (partition_task d part_type start stop s).1 j)
        ≡ count_mkpart (script s j) + (if d == j then 1 else 0)
  unfolding partition_task
  partition_task-count j h = ground (
    arith,
    append_task-count d (mkpart "fat32" start stop) s j,
    append_task-count d set_bios_grub (append_task d (mkpart "fat32" start stop) s).1 j,
    append_task-count d (mkpart "ext2" start stop) s j,
    append_task-count d (mkpart "linux-swap" start stop) s j,
  )

  partition_task-keeps :
      ((partition_task d part_type start stop s).1.partition_pos ≡ s.partition_pos)
      × ((partition_task d part_type start stop s).1.partition_counter ≡ s.partition_counter)
  unfolding partition_task
  partition_task-keeps = ground (
    arith,
    append_task-keeps d (mkpart "fat32" start stop) s,
    append_task-keeps d set_bios_grub (append_task d (mkpart "fat32" start stop) s).1,
    append_task-keeps d (mkpart "ext2" start stop) s,
    append_task-keeps d (mkpart "linux-swap" start stop) s,
  )

module _ (d : String) (s : State) (start : ℤ) (h : (start_of d s).0 ≡ ok start) where
  start_of-counter :
      (j : String)
      → (if d == j
          then some (lookup d (start_of d s).1.partition_counter)
          else some (counter_of (start_of d s).1 j))
        ≡ some (counter_of s j)
  unfolding start_of
  start_of-counter j = ground (arith, eq_iff d j, lookup-insert d j 0 s.partition_counter)

  start_of-keeps :
      ((start_of d s).1.partition_pos ≡ s.partition_pos)
      × ((start_of d s).1.parted_task_map ≡ s.parted_task_map)
  unfolding start_of
  start_of-keeps = ground arith

-- Where a drive's next partition starts has no part in the numbering.
module _ (d : String) (s : State) (start position : ℤ) (v : IsNumbered s)
    (began : (start_of d s).0 ≡ ok start) where
  abbrev moved : State
  moved = (move_pos d position (start_of d s).1).1

  moved-IsNumbered : IsNumbered moved
  unfolding start_of move_pos
  moved-IsNumbered = record {
    counted = λ j. ground (
      arith,
      eq_iff d j,
      v.counted j,
      lookup-insert d j 0 s.partition_counter,
      lookup-insert d j position s.partition_pos,
    );
  }

  has_pos-moved : lookup d moved.partition_pos ≡ some position
  unfolding start_of move_pos
  has_pos-moved = ground (arith, lookup-insert_self d position s.partition_pos)

module _ (d part_type : String) (start position : ℤ) (stop : End) (s : State) (r : Option String)
    (v : IsNumbered s) (has_pos : lookup d s.partition_pos ≡ some position)
    (returns : (make_partition d part_type start stop s).0 ≡ ok r) where
  make_partition-counted :
      (j : String)
      → counter_of (make_partition d part_type start stop s).1 j
        ≡ some (count_mkpart (script (make_partition d part_type start stop s).1 j))
  unfolding make_partition
  make_partition-counted j =
      let (number, counted, e) = bind-eq-ok (count_up d) _ s r returns in
      ground (
        arith,
        eq_iff d j,
        v.counted j,
        has_pos,
        counted,
        count_up-counter d s number j,
        count_up-keeps d s number,
        partition_task-keeps d part_type start stop (count_up d s).1,
        partition_task-count d part_type start stop (count_up d s).1 j,
      )

  make_partition-name :
      r
      ≡ some
          (partition_name d (count_mkpart (script (make_partition d part_type start stop s).1 d)))
  unfolding make_partition
  make_partition-name =
      let (number, counted, e) = bind-eq-ok (count_up d) _ s r returns in
      ground (
        arith,
        same_refl d,
        v.counted d,
        has_pos,
        counted,
        count_up-counter d s number d,
        count_up-keeps d s number,
        partition_task-count d part_type start stop (count_up d s).1 d,
      )

-- What a numbered state says of a call's answer `x`, where it returns.
abbrev pub Names : String → Bool → Result Error (Option String) × State → Type 0
Names d blank x =
    (r : Option String)
    → x.0 ≡ ok r
    → IsNumbered x.1
      × (r ≡ (if blank then none else some (partition_name d (count_mkpart (script x.1 d)))))

placed-Names :
    (d part_type : String) (start position : ℤ) (stop : End) (s : State)
    → IsNumbered s
    → lookup d s.partition_pos ≡ some position
    → (blank : Bool)
    → Names d blank ((if blank then pure none else make_partition d part_type start stop) s)
placed-Names d part_type start position stop s v h true r e = (v, ground arith)
placed-Names d part_type start position stop s v h false r e = (
  record { counted = make_partition-counted d part_type start position stop s r v h e },
  make_partition-name d part_type start position stop s r v h e,
)

-- A call of `_addPartition` that returns, from a state where every drive's counter is the number of
-- partitions in its parted script, leaves such a state. It returns no name for a 'blank'
-- partition, and else the name with the number of partitions that the drive's script then makes.
pub add_partition-Names :
    (d part_type : String) (size : Frac) (s : State)
    → IsNumbered s
    → (r : Option String) → (add_partition d part_type size s).0 ≡ ok r
    → IsNumbered (add_partition d part_type size s).1
      × (r ≡ (
          if part_type == "blank"
          then none
          else some
              (partition_name d (count_mkpart (script (add_partition d part_type size s).1 d)))))
unfolding add_partition
add_partition-Names d part_type size s v r returns =
    let (start, began, e) = bind-eq-ok (start_of d) _ s r returns in
    let p = next_pos start (to_int size) in
    let stop = end_of start (to_int size) in
    subst (Names d (part_type == "blank")) (sym e)
      (unfold move_pos in
        placed-Names d part_type start p stop _ (moved-IsNumbered d s start p v began)
          (has_pos-moved d s start p v began) (part_type == "blank"))
      r returns
