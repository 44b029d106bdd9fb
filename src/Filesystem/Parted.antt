-- ===== src/Filesystem/Parted.antt =====
-- `_addPartition` of filesystem.py: the next partition of a drive, and where it lies.
pub mod Numbering
pub mod Layout
pub mod Added
pub mod Full
use disks.Filesystem.Model.{
  Action, End, Task, at, end_of_device, exception, key_error, mkpart, set_bios_grub,
}
use disks.Prelude.{
  Option, String, [], if◌then◌else◌, nat_key, none, some, string_key, ℕ, ◌++◌, ◌+◌, ◌<>◌, ◌==◌,
  ◌||◌, ◌∷◌,
}
use disks.Prelude.Dict.{insert, lookup}
use disks.Prelude.Exec.{err, gets, modify, ok, or_raise, pure, raise, ◌>>=◌, ◌>>◌}
use disks.Prelude.Int.{Frac, is_negative, is_zero, pos, to_int, ℤ, ◌+ℤ◌}
use disks.Prelude.Text.{show}
use text.Mathlib.Text.{starts_with}

-- the start of the next partition: 0 on a drive that has none
unfoldable pub start_of : String → Action ℤ
start_of block_device s = elim (lookup block_device s.partition_pos) [
  | none ↦ (ok (pos 0), record s { partition_counter = insert block_device 0 s.partition_counter })
  | some start ↦
      if is_zero start then (err (exception "Block Device allready full"), s) else (ok start, s)
]

-- the end of a partition of `size`, as parted is given it, and the position that is kept
unfoldable pub end_of : ℤ → ℤ → End
end_of start size =
    if is_zero size then end_of_device else if is_negative size then at size else at (start +ℤ size)

unfoldable pub next_pos : ℤ → ℤ → ℤ
next_pos start size =
    if is_zero size then pos 0 else if is_negative size then size else start +ℤ size

unfoldable pub partition_name : String → ℕ → String
partition_name block_device number =
    if starts_with block_device "/dev/nvme"
    then block_device <> ("p" <> show number)
    else block_device <> show number

-- `parted_task_map[ block_device ].append( task )`
unfoldable pub append_task : String → Task → Action (Unit {0})
append_task block_device task = do
  tasks ← or_raise (← gets (λ s. lookup block_device s.parted_task_map)) (key_error block_device)
  modify (λ s. record s {
    parted_task_map = insert block_device (tasks ++ task ∷ []) s.parted_task_map;
  })

-- `partition_counter[ block_device ] += 1`
unfoldable pub count_up : String → Action ℕ
count_up block_device = do
  number ← or_raise (← gets (λ s. lookup block_device s.partition_counter)) (key_error block_device)
  modify
      (λ s. record s { partition_counter = insert block_device (number + 1) s.partition_counter })
  pure (number + 1)

unfoldable pub partition_task : String → String → ℤ → End → Action (Unit {0})
partition_task block_device part_type start stop =
    if part_type == "bios_grub"
    then append_task block_device (mkpart "fat32" start stop)
      >> append_task block_device set_bios_grub
    else if part_type == "fs" || part_type == "empty"
    then append_task block_device (mkpart "ext2" start stop)
    else if part_type == "swap"
    then append_task block_device (mkpart "linux-swap" start stop)
    else raise (exception "Unknown partition type")

-- the part of `_addPartition` behind the test for 'blank'
unfoldable pub make_partition : String → String → ℤ → End → Action (Option String)
make_partition block_device part_type start stop = do
  number ← count_up block_device
  partition_task block_device part_type start stop
  pure (some (partition_name block_device number))

unfoldable pub move_pos : String → ℤ → Action (Unit {0})
move_pos block_device position =
    modify (λ s. record s { partition_pos = insert block_device position s.partition_pos })

-- `_addPartition`; a 'blank' one only moves the position and has no name.
unfoldable pub add_partition : String → String → Frac → Action (Option String)
add_partition block_device part_type size = do
  start ← start_of block_device
  move_pos block_device (next_pos start (to_int size))
  if part_type == "blank"
      then pure none
      else make_partition block_device part_type start (end_of start (to_int size))
