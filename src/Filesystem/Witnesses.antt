-- ===== src/Filesystem/Witnesses.antt =====
-- The theorems on the installer's disk layout, each at a small machine.
use disks.Filesystem.Fstab.{FstabLine, mount_line, swap_line}
use disks.Filesystem.Model.{DriveScan, Host, State, exception, mklabel}
use disks.Filesystem.Mount.{
  do_mount, format_fs, make_fs, mkfs, mkfs_from, mount_again, mount_order, mounted_points,
  read_uuid, remount, set_uuid, unmount_order, uuid_in,
}
use disks.Filesystem.Mount.Commands.{SecondFields, format_of, missing_from, mkfs-log, remount-log}
use disks.Filesystem.Mount.Order.{
  ChildrenFirst, ParentsFirst, mount_order-ParentsFirst, unmount_order-ChildrenFirst,
}
use disks.Filesystem.Parted.{add_partition, partition_name}
use disks.Filesystem.Parted.Added.{HasAdded, add_partition-LaysOut}
use disks.Filesystem.Parted.Full.{Call, add_partition-full, behind_calls}
use disks.Filesystem.Parted.Layout.{IsLaidOut}
use disks.Filesystem.Parted.Numbering.{
  IsNumbered, add_partition-Names, count_mkpart, counter_of, script,
}
use disks.Filesystem.Partition.{partition}
use disks.Filesystem.Partition.Commands.{HasPartitioned, partition-log}
use disks.Filesystem.Samples.{drives, laid_out, machine, profile, program, scheme, start}
use disks.Filesystem.Sync.{sync_fuel, sync_rounds, sync_rounds-ends}
use disks.Filesystem.Targets.{wait_for_drives}
use disks.Filesystem.Targets.Wait.{
  FirstFound, Misses, wait_for_drives-FirstFound, wait_for_drives-finds,
}
use disks.Filesystem.Trace.{concat_map}
use disks.Prelude.{
  List, String, [], arith, if◌then◌else◌, ltb, nat_key, option_key, refl, some, string_key, suc,
  zero, ℕ, ◌++◌, ◌+◌, ◌<◌, ◌∷◌, ◌≡◌, ◌≤◌,
}
use disks.Prelude.Dict.{Dict, keys, lookup}
use disks.Prelude.Exec.{err, ok}
use disks.Prelude.Int.{Frac, pos, whole}
use mathlib.Core.List.{Perm}
use text.Mathlib.TextEquality.{eq_iff}

-- A drive that has its label.
abbrev labelled : State
labelled = record start { parted_task_map = ("/dev/sda", mklabel "gpt" ∷ []) ∷ [] }

labelled-counted : (d : String) → counter_of labelled d ≡ some (count_mkpart (script labelled d))
unfolding lookup
labelled-counted d = ground (arith, eq_iff "/dev/sda" d)

abbrev one_gb : Frac
one_gb = whole (pos 1024)

add_partition-Names_example :
    IsNumbered (add_partition "/dev/sda" "fs" one_gb labelled).1
    × (some "/dev/sda1"
        ≡ some (
            partition_name "/dev/sda"
              (count_mkpart (script (add_partition "/dev/sda" "fs" one_gb labelled).1 "/dev/sda"))))
unfolding program
add_partition-Names_example =
    add_partition-Names "/dev/sda" "fs" one_gb labelled (record { counted = labelled-counted })
      (some "/dev/sda1") refl

add_partition-LaysOut_example :
    IsLaidOut 4096 "/dev/sda" (add_partition "/dev/sda" "fs" one_gb labelled).1
    × HasAdded 4096 "/dev/sda" "fs"
        (pos 1024)
        labelled
        (add_partition "/dev/sda" "fs" one_gb labelled).1
unfolding program
add_partition-LaysOut_example =
    add_partition-LaysOut 4096 "/dev/sda" "fs" one_gb labelled
      (record { laid = omega arith; inside = omega arith }) (omega arith, λ p h. cc)
      (some "/dev/sda1") refl

-- Another drive gets a partition in between, and the full one is asked for another.
abbrev between : List Call
between = ("/dev/sdb", "fs", one_gb) ∷ ("/dev/sda", "empty", one_gb) ∷ []

add_partition-full_example :
    add_partition "/dev/sda" "swap" one_gb
      (behind_calls between (add_partition "/dev/sda" "fs" (whole (pos 0)) labelled).1)
    ≡ (
      err (exception "Block Device allready full"),
      behind_calls between (add_partition "/dev/sda" "fs" (whole (pos 0)) labelled).1,
    )
unfolding program
add_partition-full_example =
    add_partition-full "/dev/sda" "fs" (whole (pos 0)) labelled refl (some "/dev/sda1") refl between
      "swap" one_gb

partition-log_example :
    HasPartitioned machine profile
      (scheme "mirror")
      start
      (partition machine profile (scheme "mirror") start).1.log
unfolding program
partition-log_example = partition-log machine profile (scheme "mirror") start refl

-- A machine that finds its drives in the third enumeration.
abbrev no_drives : DriveScan
no_drives = record { block_map = []; port_map = []; devpath_map = [] }

abbrev slow_machine : Host
slow_machine = record machine { scan = λ n. if ltb n 2 then no_drives else drives }

abbrev sda : List String
sda = "/dev/sda" ∷ []

wait_for_drives-FirstFound_example : FirstFound slow_machine sda 9 0 (sda, drives)
unfolding program
wait_for_drives-FirstFound_example =
    wait_for_drives-FirstFound slow_machine sda 9 0 (sda, drives) refl

missed_twice : (j : ℕ) → j < 2 → Misses slow_machine sda (0 + j)
unfolding program
missed_twice zero below = ("/dev/sda", refl)
missed_twice (suc zero) below = ("/dev/sda", refl)
missed_twice (suc (suc j)) below = absurd (omega (arith, below))

wait_for_drives-finds_example : wait_for_drives slow_machine sda 9 0 ≡ ok (sda, drives)
unfolding program
wait_for_drives-finds_example =
    wait_for_drives-finds slow_machine sda 2 9 0 sda (omega arith) missed_twice refl

mkfs-log_example :
    (mkfs machine laid_out).1.log ≡ laid_out.log ++ concat_map format_of laid_out.filesystem_list
unfolding program laid_out mkfs mkfs_from make_fs format_fs set_uuid read_uuid uuid_in
mkfs-log_example = mkfs-log machine laid_out refl

-- /proc is mounted, /sys is not.
abbrev half_mounted : State
half_mounted = record start {
  mount_list =
      record { mount_point = "/target/proc"; fstype = "proc"; fs = "proc"; options = [] }
      ∷ record { mount_point = "/target/sys"; fstype = "sysfs"; fs = "sys"; options = [] }
      ∷ [];
}

abbrev with_proc : Host
with_proc = record machine { proc_mounts = λ n. "proc /target/proc proc rw 0 0" ∷ [] }

remount-log_example :
    (mounted : List String) × SecondFields (with_proc.proc_mounts 0) mounted
    × ((remount with_proc half_mounted).1.log
        ≡ concat_map (missing_from mounted) half_mounted.mount_list)
unfolding program remount mounted_points mount_again do_mount
remount-log_example = remount-log with_proc half_mounted refl

abbrev three_points : Dict String ℕ
three_points = ("/boot/efi", 0) ∷ ("/", 1) ∷ ("/boot", 2) ∷ []

mount_order-ParentsFirst_example :
    Perm (mount_order three_points) (keys three_points) × ParentsFirst (mount_order three_points)
mount_order-ParentsFirst_example = mount_order-ParentsFirst three_points

unmount_order-ChildrenFirst_example :
    Perm (unmount_order half_mounted.mount_list) half_mounted.mount_list
    × ChildrenFirst (unmount_order half_mounted.mount_list)
unmount_order-ChildrenFirst_example = unmount_order-ChildrenFirst half_mounted.mount_list

-- What `mkfs` leaves where blkid answers.
abbrev with_blkid : Host
with_blkid = record machine { output = λ n. "UUID=1234" ∷ [] }

unfoldable formatted : State
unfolding program laid_out mkfs mkfs_from make_fs format_fs set_uuid read_uuid uuid_in
formatted = (mkfs with_blkid laid_out).1

abbrev expected_fstab : List FstabLine
expected_fstab =
    swap_line "1234" 0
    ∷ mount_line "1234" "/" "ext4" "noatime,nodiratime,discard" 1
    ∷ mount_line "1234" "/boot" "ext2" "noatime,nodiratime" 2
    ∷ []

sync_rounds-ends_example :
    (r : ℕ) × (sync_rounds machine (machine.clock 0) sync_fuel 0 ≡ some r) × (r ≤ 11)
sync_rounds-ends_example = sync_rounds-ends machine (omega arith) (λ n. omega arith)
