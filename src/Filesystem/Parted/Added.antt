-- ===== src/Filesystem/Parted/Added.antt =====
-- The partition that a call of `_addPartition` adds to the script of a drive.
use disks.Filesystem.Model.{Action, End, Error, State, Task, exception, mkpart, set_bios_grub}
use disks.Filesystem.Parted.{
  add_partition, append_task, count_up, end_of, make_partition, move_pos, partition_name,
  partition_task, start_of,
}
use disks.Filesystem.Parted.Layout.{
  Fits, IsLaidOut, add_partition-IsLaidOut, append_task-script, count_up-keeps, count_up-script,
  end_offset, offset, partition_task-pos, placed, script-placed, start_of-EndsBehind, used,
  used-placed,
}
use disks.Filesystem.Parted.Numbering.{script}
use disks.Prelude.{
  Bool, List, Option, String, [], ap, arith, false, if◌then◌else◌, nat_key, none, option_key, refl,
  some, string_key, suc, sym, true, zero, ℕ, ◌++◌, ◌+◌, ◌-◌, ◌==◌, ◌||◌, ◌∙◌, ◌∷◌, ◌≡◌, ◌≤◌,
}
use disks.Prelude.Dict.{lookup}
use disks.Prelude.Exec.{Result, bind-eq-ok, ok, pure, raise, ◌>>◌}
use disks.Prelude.Int.{Frac, negsuc, pos, to_int, ℤ, ◌+ℤ◌}
use mathlib.Core.List.{append-nil, append_assoc}
use mathlib.Core.Path.{subst}

-- What a script gets for a partition of the type; a 'blank' one has no part in it.
abbrev pub tasks_of : String → ℤ → End → List Task
tasks_of part_type start stop =
    if part_type == "blank"
    then []
    else if part_type == "bios_grub"
    then mkpart "fat32" start stop ∷ set_bios_grub ∷ []
    else if part_type == "fs" || part_type == "empty"
    then mkpart "ext2" start stop ∷ []
    else if part_type == "swap"
    then mkpart "linux-swap" start stop ∷ []
    else []

-- How far a drive is used up behind a partition of `size`, from how far it was before.
abbrev pub used_behind : ℕ → ℕ → ℤ → ℕ
used_behind capacity before (pos zero) = capacity
used_behind capacity before (pos (suc n)) = before + suc n
used_behind capacity before (negsuc n) = capacity - suc n

end-used_behind :
    (capacity : ℕ) (d : String) (s : State) (start size : ℤ)
    → used capacity s d ≤ capacity
    → Fits capacity d s size
    → (start_of d s).0 ≡ ok start
    → end_offset capacity (end_of start size) ≡ used_behind capacity (used capacity s d) size
unfolding end_of ◌+ℤ◌ start_of
end-used_behind capacity d s start (pos zero) l f began = ground arith
end-used_behind capacity d s start (pos (suc n)) l f began = ground (arith, f.0, f.1 start)
end-used_behind capacity d s start (negsuc n) l f began = ground (arith, f)

-- Where an action returns, the drive's script has got the tasks.
abbrev Adds {ℓ} : {A : Type ℓ} → String → List Task → List Task → Result Error A × State → Type ℓ
Adds {A} d before tasks x = (a : A) → x.0 ≡ ok a → script x.1 d ≡ before ++ tasks

append_task-Adds :
    (d : String) (task : Task) (s : State) → Adds d (script s d) (task ∷ []) (append_task d task s)
append_task-Adds d task s tt r = append_task-script d task s r

grub_task-Adds :
    (d : String) (start : ℤ) (stop : End) (s : State)
    → Adds d
        (script s d)
        (mkpart "fat32" start stop ∷ set_bios_grub ∷ [])
        ((append_task d (mkpart "fat32" start stop) >> append_task d set_bios_grub) s)
grub_task-Adds d start stop s tt r =
    let (unit, first, same) =
      bind-eq-ok (append_task d (mkpart "fat32" start stop)) (λ _. append_task d set_bios_grub) s tt
        r in
    rw same (
      append_task-script d set_bios_grub _ (rw same at r)
      ∙ ap (λ l. l ++ set_bios_grub ∷ []) (append_task-script d (mkpart "fat32" start stop) s first)
      ∙ append_assoc (script s d) (mkpart "fat32" start stop ∷ []) (set_bios_grub ∷ []))

partition_task-Adds :
    (d part_type : String) (start : ℤ) (stop : End) (s : State)
    → (part_type == "blank") ≡ false
    → Adds d (script s d) (tasks_of part_type start stop) (partition_task d part_type start stop s)
unfolding partition_task
partition_task-Adds d part_type start stop s known = rw known (
    go (part_type == "bios_grub") (part_type == "fs" || part_type == "empty") (part_type == "swap"))
  where
    go :
        (bios plain paging : Bool)
        → Adds d
            (script s d)
            (if bios
              then mkpart "fat32" start stop ∷ set_bios_grub ∷ []
              else if plain
              then mkpart "ext2" start stop ∷ []
              else if paging
              then mkpart "linux-swap" start stop ∷ []
              else [])
            ((if bios
                then append_task d (mkpart "fat32" start stop) >> append_task d set_bios_grub
                else if plain
                then append_task d (mkpart "ext2" start stop)
                else if paging
                then append_task d (mkpart "linux-swap" start stop)
                else raise (exception "Unknown partition type"))
              s)
    go true plain paging = grub_task-Adds d start stop s
    go false true paging = append_task-Adds d (mkpart "ext2" start stop) s
    go false false true = append_task-Adds d (mkpart "linux-swap" start stop) s
    go false false false = λ a r. cc

make_partition-Adds :
    (d part_type : String) (start : ℤ) (stop : End) (s : State)
    → (part_type == "blank") ≡ false
    → Adds d (script s d) (tasks_of part_type start stop) (make_partition d part_type start stop s)
unfolding make_partition
make_partition-Adds d part_type start stop s known r returns =
    let (number, counted, same) = bind-eq-ok (count_up d) _ s r returns in
    let m = partition_task d part_type start stop in
    let n = λ (u : Unit {0}). pure {E = Error} {S = State} (some (partition_name d number)) in
    let (unit, made, same') = bind-eq-ok m n (count_up d s).1 r (rw same at returns) in
    ap (λ x. script x.1 d) (same ∙ same')
    ∙ partition_task-Adds d part_type start stop (count_up d s).1 known unit made
    ∙ ap (λ l. l ++ tasks_of part_type start stop) (count_up-script d s)

placed-Adds :
    (d part_type : String) (start : ℤ) (stop : End) (s : State) (b : Bool)
    → (part_type == "blank") ≡ b
    → Adds d
        (script s d)
        (tasks_of part_type start stop)
        ((if b then pure none else make_partition d part_type start stop) s)
placed-Adds d part_type start stop s true e = λ a r. rw e (sym (append-nil (script s d)))
placed-Adds d part_type start stop s false e = make_partition-Adds d part_type start stop s e

made-pos :
    (d part_type : String) (start : ℤ) (stop : End) (s : State) (r : Option String)
    → (make_partition d part_type start stop s).0 ≡ ok r
    → (make_partition d part_type start stop s).1.partition_pos ≡ s.partition_pos
unfolding make_partition
made-pos d part_type start stop s r returns =
    let (number, counted, same) = bind-eq-ok (count_up d) _ s r returns in
    let m = partition_task d part_type start stop in
    let n = λ (u : Unit {0}). pure {E = Error} {S = State} (some (partition_name d number)) in
    let (unit, made, same') = bind-eq-ok m n (count_up d s).1 r (rw same at returns) in
    ap (λ x. x.1.partition_pos) (same ∙ same')
    ∙ partition_task-pos d part_type start stop (count_up d s).1
    ∙ (count_up-keeps d s).0

-- A call has put the new partition where the used part ended, and its end is the used part's end now.
pub record HasAdded (capacity : ℕ) (d part_type : String) (size : ℤ) (s later : State)
    : Type 0 where
  pub start : ℤ
  pub stop : End
  pub begins : offset capacity start ≡ used capacity s d
  pub ends : end_offset capacity stop ≡ used capacity later d
  pub sized : used capacity later d ≡ used_behind capacity (used capacity s d) size
  pub added : script later d ≡ script s d ++ tasks_of part_type start stop

used-pos :
    (capacity : ℕ) (d : String) (s later : State)
    → later.partition_pos ≡ s.partition_pos
    → used capacity later d ≡ used capacity s d
used-pos capacity d s later e = ground (arith, ap (lookup d) e)

placed-pos :
    (d part_type : String) (start : ℤ) (stop : End) (s : State) (blank : Bool) (r : Option String)
    → ((if blank then pure none else make_partition d part_type start stop) s).0 ≡ ok r
    → ((if blank then pure none else make_partition d part_type start stop) s).1.partition_pos
      ≡ s.partition_pos
placed-pos d part_type start stop s true r h = refl
placed-pos d part_type start stop s false r h = made-pos d part_type start stop s r h

add_partition-HasAdded :
    (capacity : ℕ) (d part_type : String) (size : Frac) (s : State)
    → IsLaidOut capacity d s
    → Fits capacity d s (to_int size)
    → (r : Option String) → (add_partition d part_type size s).0 ≡ ok r
    → HasAdded capacity d part_type (to_int size) s (add_partition d part_type size s).1
unfolding add_partition
add_partition-HasAdded capacity d part_type size s l f r returns =
    let (start, began, e) = bind-eq-ok (start_of d) _ s r returns in
    let b = start_of-EndsBehind capacity d s start (to_int size) l.inside f began in
    let stop = end_of start (to_int size) in
    let there = placed capacity d s start (to_int size) began b in
    let m : Action (Option String) =
      if part_type == "blank" then pure none else make_partition d part_type start stop in
    let same : add_partition d part_type size s ≡ m there = e ∙ (unfold move_pos in refl) in
    let came : (m there).0 ≡ ok r = ap (λ x. x.0) (sym same) ∙ returns in
    let now =
      used-pos capacity d there (m there).1
        (placed-pos d part_type start stop there (part_type == "blank") r came)
      ∙ used-placed capacity d s start (to_int size) began b in
    subst (λ x. HasAdded capacity d part_type (to_int size) s x.1) (sym same)
      (record {
        start = start;
        stop = stop;
        begins = b.0;
        ends = sym now;
        sized = now ∙ end-used_behind capacity d s start (to_int size) l.inside f began;
        added =
            placed-Adds d part_type start stop there (part_type == "blank") refl r came
            ∙ ap (λ l. l ++ tasks_of part_type start stop)
                (script-placed capacity d s start (to_int size) began b);
      })

-- A call of `_addPartition` that returns, on a drive of `capacity` MB whose partitions lie one behind
-- the other in its used part, and for a size that fits, leaves them so. It has added the tasks of the
-- new partition to the drive's script, and no other (none for a 'blank' one): the partition begins where the
-- used part ended, and ends where it ends now, which is as far as the size says. A size fits where it is
-- the rest of the drive (0), all but the last MBs of it (negative) with these not in use yet, or a number
-- of MBs that are left, on a drive whose kept position counts from the start: behind a negative
-- position a positive size does not fit.
pub add_partition-LaysOut :
    (capacity : ℕ) (d part_type : String) (size : Frac) (s : State)
    → IsLaidOut capacity d s
    → Fits capacity d s (to_int size)
    → (r : Option String) → (add_partition d part_type size s).0 ≡ ok r
    → IsLaidOut capacity d (add_partition d part_type size s).1
      × HasAdded capacity d part_type (to_int size) s (add_partition d part_type size s).1
add_partition-LaysOut capacity d part_type size s l f r returns = (
  add_partition-IsLaidOut capacity d part_type size s l f r returns,
  add_partition-HasAdded capacity d part_type size s l f r returns,
)
