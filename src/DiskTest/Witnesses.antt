-- ===== src/DiskTest/Witnesses.antt =====
-- A test of two drives, one of which has pending sectors.
use disks.Cinp.Words.{codes, strip_prefix}
use disks.DiskTest.Evaluate.{evaluate, evaluate_all}
use disks.DiskTest.Evaluate.Verdict.{evaluate-IsWithin, first_reading}
use disks.DiskTest.Kept.{NoneLost, init-NoneLost}
use disks.DiskTest.Limits.{Limit, Reason, lower, smart_attribs, type_of}
use disks.DiskTest.Limits.Within.{IsWithin}
use disks.DiskTest.Lists.{
  Drives, Test, drop_last, init, is_partition, letters_digit, partitioned, prune_allready_dead,
  remove_first, skip_allready_thrashed, skip_unthrashable, skip_with_filesystems,
}
use disks.Prelude.{
  All, List, [], false, nat_key, none, option_key, refl, some, string_key, true, ℕ, ◌∷◌, ◌≡◌,
}
use disks.Prelude.Dict.{Dict, has_key, insert, lookup}

abbrev bench : Drives
bench = record {
  drive_list = "sda" ∷ "sdb" ∷ [];
  readable = λ drive. true;
  model = λ drive. codes "SATADOM-SH";
  block_name = λ drive. some (codes "sda");
  block_path = λ drive. codes "sda";
  removable = λ name. none;
  is_virtual_disk = λ drive. false;
  mtab = codes "sdb1" ∷ [];
  partition_names = codes "sda" ∷ codes "sdb" ∷ codes "sdb1" ∷ [];
}

abbrev worn : Dict ℕ ℕ
worn = (198, 30) ∷ []

init-NoneLost_example :
    NoneLost (init bench)
    × (NoneLost (init bench)
        → NoneLost (skip_unthrashable bench (init bench)).1
          × NoneLost (skip_with_filesystems bench (init bench)).1
          × NoneLost (prune_allready_dead (λ drive. true) (init bench)).1
          × NoneLost (skip_allready_thrashed (λ drive. false) (init bench)).1
          × NoneLost (evaluate_all bench (λ drive. some worn) (init bench)).1)
init-NoneLost_example =
    init-NoneLost bench (λ drive. true) (λ drive. false) (λ drive. some worn) (init bench)

abbrev new_drive : Test
new_drive = record {
  all_list = "sda" ∷ [];
  good_list = "sda" ∷ [];
  skip_reasons = [];
  bad_reasons = [];
  initial = [];
  faults = [];
  reports = [];
  marked = [];
}

abbrev satadom_limits : List Limit
satadom_limits = record { attrib = 198; most = 20; rate = 0 } ∷ []

-- The drive is remembered with another reading than the one of now.
abbrev seen_drive : Test
seen_drive = record new_drive { initial = ("sda", (198, 10) ∷ []) ∷ [] }

sdb_partitioned : partitioned bench.partition_names ≡ codes "sdb" ∷ []
unfolding partitioned is_partition letters_digit drop_last
sdb_partitioned = refl

evaluate-IsWithin_example :
    (lookup "sda" (evaluate bench (λ drive. some worn) "sda" seen_drive).1.initial
      ≡ some (first_reading "sda" worn seen_drive))
    × (All (IsWithin satadom_limits (first_reading "sda" worn seen_drive)) worn
        → ((evaluate bench (λ drive. some worn) "sda" seen_drive).1.good_list ≡ "sda" ∷ [])
          × ((evaluate bench (λ drive. some worn) "sda" seen_drive).1.bad_reasons ≡ []))
    × (¬ All (IsWithin satadom_limits (first_reading "sda" worn seen_drive)) worn
        → (reason : Reason) × (lookup "sda"
              (evaluate bench (λ drive. some worn) "sda" seen_drive).1.bad_reasons
            ≡ some reason)
          × ((evaluate bench (λ drive. some worn) "sda" seen_drive).1.good_list
              ≡ remove_first "sda" ("sda" ∷ [])))
unfolding smart_attribs type_of lower strip_prefix has_key insert lookup
evaluate-IsWithin_example =
    evaluate-IsWithin bench (λ drive. some worn) "sda" worn satadom_limits seen_drive refl refl
