-- ===== src/Filesystem/Parted/Full.antt =====
-- A drive that a partition has filled.
use disks.Filesystem.Model.{End, Error, State, Task, end_of_device, exception}
use disks.Filesystem.Parted.{
  add_partition, append_task, count_up, end_of, make_partition, move_pos, next_pos, partition_task,
  start_of,
}
use disks.Prelude.{
  Bool-cases, List, Option, String, [], ap, arith, false, if◌then◌else◌, inl, inr, nat_key, none,
  option_key, refl, some, string_key, sym, ◌==◌, ◌∙◌, ◌∷◌, ◌≡◌,
}
use disks.Prelude.Dict.{lookup, lookup-insert, lookup-insert_self}
use disks.Prelude.Exec.{bind-eq-ok, err, modify, ok, pure}
use disks.Prelude.Exec.Keeps.{Keeps, Keeps-bind, Keeps-if, Keeps-pure, keeps_rules}
use disks.Prelude.Int.{Frac, pos, to_int, ℤ}
use mathlib.Core.Path.{subst}
use text.Mathlib.TextEquality.{eq_iff}

abbrev pub Full : String → State → Type 0
Full d s = lookup d s.partition_pos ≡ some (pos 0)

same_pos-Keeps :
    (d : String) (f : State → State)
    → ((s : State) → (f s).partition_pos ≡ s.partition_pos)
    → Keeps {E = Error} (Full d) (modify f)
same_pos-Keeps d f k = record { at = λ s h. ap (lookup d) (k s) ∙ h }

append_task-Full : (d e : String) (task : Task) → Keeps (Full d) (append_task e task)
unfolding append_task
append_task-Full d e task = search (keeps_rules, same_pos-Keeps) depth 9

count_up-Full : (d e : String) → Keeps (Full d) (count_up e)
unfolding count_up
count_up-Full d e = search (keeps_rules, same_pos-Keeps) depth 9

make_partition-Full :
    (d e part_type : String) (start : ℤ) (stop : End)
    → Keeps (Full d) (make_partition e part_type start stop)
unfolding make_partition partition_task
make_partition-Full d e part_type start stop =
    search (keeps_rules, count_up-Full, append_task-Full) depth 12

Full-start_of :
    (d : String) (s : State)
    → Full d s
    → start_of d s ≡ (err (exception "Block Device allready full"), s)
unfolding start_of
Full-start_of d s h = rw (h, start_of) refl

add_partition-refused :
    (d part_type : String) (size : Frac) (s : State)
    → Full d s
    → add_partition d part_type size s ≡ (err (exception "Block Device allready full"), s)
unfolding add_partition
add_partition-refused d part_type size s h = rw (Full-start_of d s h) refl

filled-Keeps :
    (d part_type : String) (start : ℤ)
    → Keeps
        (Full d)
        (if part_type == "blank" then pure none else make_partition d part_type start end_of_device)
filled-Keeps d part_type start =
    Keeps-if (part_type == "blank") _ _ (Keeps-pure none)
      (make_partition-Full d d part_type start end_of_device)

add_partition-fills :
    (d part_type : String) (size : Frac) (s : State)
    → to_int size ≡ pos 0
    → (r : Option String) → (add_partition d part_type size s).0 ≡ ok r
    → Full d (add_partition d part_type size s).1
unfolding add_partition end_of next_pos move_pos
add_partition-fills d part_type size s zero_size r returns =
    let (start, began, e) = bind-eq-ok (start_of d) _ s r returns in
    subst (λ p. Full d p.1) (sym e)
      (rw zero_size (
        (filled-Keeps d part_type start).at _
          (lookup-insert_self d (pos 0) (start_of d s).1.partition_pos)))

start_of-Full : (d e : String) → e == d ≡ false → Keeps (Full d) (start_of e)
unfolding start_of
start_of-Full d e other = record { at = λ s h. ground (arith, h) }

move_pos-Full :
    (d e : String) (position : ℤ) → e == d ≡ false → Keeps (Full d) (move_pos e position)
unfolding move_pos
move_pos-Full d e position other = record {
  at = λ s h. lookup-insert e d position s.partition_pos ∙ rw other h;
}

other-Full :
    (d e part_type : String) (size : Frac)
    → e == d ≡ false
    → Keeps (Full d) (add_partition e part_type size)
unfolding add_partition
other-Full d e part_type size other = Keeps-bind _ _ (start_of-Full d e other) λ start.
    Keeps-bind _ _ (move_pos-Full d e (next_pos start (to_int size)) other) λ moved.
      Keeps-if (part_type == "blank") _ _ (Keeps-pure none)
        (make_partition-Full d e part_type start (end_of start (to_int size)))

add_partition-Full :
    (d e part_type : String) (size : Frac) → Keeps (Full d) (add_partition e part_type size)
add_partition-Full d e part_type size = elim (Bool-cases (e == d)) [
  | inl same ↦
      subst (λ c. Keeps (Full d) (add_partition c part_type size)) (sym ((eq_iff e d).0 same))
        (record {
          at = λ s h. subst (λ x. Full d x.1) (sym (add_partition-refused d part_type size s h)) h;
        })
  | inr other ↦ other-Full d e part_type size other
]

-- The drive, the type and the size of a call of `_addPartition`.
abbrev pub Call : Type 0
Call = String × String × Frac

-- The state behind calls in a row, each in the state that the one before has left, whether that
-- returned or raised.
abbrev pub behind_calls : List Call → State → State
behind_calls [] s = s
behind_calls ((e, part_type, size) ∷ calls) s =
    behind_calls calls (add_partition e part_type size s).1

behind_calls-Full :
    (d : String) (calls : List Call) (s : State) → Full d s → Full d (behind_calls calls s)
behind_calls-Full d [] s h = h
behind_calls-Full d ((e, part_type, size) ∷ calls) s h =
    behind_calls-Full d calls _ ((add_partition-Full d e part_type size).at s h)

-- Once a call of `_addPartition` with a size whose integer part is 0 has returned, its drive takes no
-- further partition: whatever calls follow, for whatever drives, each later call for that drive, of
-- any type and size, raises, and changes nothing.
pub add_partition-full :
    (d part_type : String) (size : Frac) (s : State)
    → to_int size ≡ pos 0
    → (r : Option String) → (add_partition d part_type size s).0 ≡ ok r
    → (calls : List Call) (next_type : String) (next_size : Frac)
    → add_partition d next_type next_size (behind_calls calls (add_partition d part_type size s).1)
      ≡ (
        err (exception "Block Device allready full"),
        behind_calls calls (add_partition d part_type size s).1,
      )
add_partition-full d part_type size s zero_size r returns calls next_type next_size =
    add_partition-refused d next_type next_size _
      (behind_calls-Full d calls _ (add_partition-fills d part_type size s zero_size r returns))
