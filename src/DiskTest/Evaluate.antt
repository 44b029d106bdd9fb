-- ===== src/DiskTest/Evaluate.antt =====
-- `LocalEvaluator.evaluate` and `evaluate_all` of disks/disk-test/root/pylib/Evaluator.py.
pub mod Verdict
use disks.DiskTest.Limits.{
  DriveType, Limit, Reason, get_type, judge_attribs, no_attributes, smart_attribs,
}
use disks.DiskTest.Lists.{Act, Drives, key_error, prune_drive}
use disks.Filesystem.Samples.{drives}
use disks.Prelude.{
  List, Option, String, [], false, if◌then◌else◌, nat_key, none, option_key, some, string_key, true,
  ℕ, ◌∷◌,
}
use disks.Prelude.Dict.{Dict, has_key, insert, lookup}
use disks.Prelude.Exec.{for_each, gets, modify, or_raise, pure, ◌>>=◌, ◌>>◌}

abbrev pub set_initial : String → Dict ℕ ℕ → Act (Unit {0})
set_initial drive attribs = modify (λ s. record {
  all_list = s.all_list;
  good_list = s.good_list;
  skip_reasons = s.skip_reasons;
  bad_reasons = s.bad_reasons;
  initial = if has_key drive s.initial then s.initial else insert drive attribs s.initial;
  faults = s.faults;
  reports = s.reports;
  marked = s.marked;
})

-- the end of the loop over the attributes
abbrev pub prune_for : String → Option Reason → Act (Unit {0})
prune_for drive none = pure tt
prune_for drive (some reason) = prune_drive drive reason false false

-- the limits of the type; with no attribute at all they are not looked up
abbrev pub limits_for : DriveType → Dict ℕ ℕ → Act (List Limit)
limits_for type [] = pure []
limits_for type (a ∷ attribs) = or_raise (smart_attribs type) key_error

-- the part behind the reading
unfoldable pub evaluate_read : Drives → String → Dict ℕ ℕ → Act (Unit {0})
evaluate_read d drive attribs = do
  _ ← set_initial drive attribs
  initial ← gets (λ s. lookup drive s.initial)
  first ← or_raise initial key_error
  limits ← limits_for (get_type (d.model drive)) attribs
  prune_for drive (judge_attribs limits first attribs)

-- `evaluate`, with the raw values that `smartAttrs` gives, or None where it raises
unfoldable pub evaluate : Drives → (String → Option (Dict ℕ ℕ)) → String → Act (Unit {0})
evaluate d smart_attrs drive = elim (smart_attrs drive) [
  | none ↦ prune_drive drive no_attributes true false
  | some attribs ↦ evaluate_read d drive attribs
]

unfoldable pub evaluate_all : Drives → (String → Option (Dict ℕ ℕ)) → Act (Unit {0})
evaluate_all d smart_attrs =
    gets (λ s. s.good_list) >>= λ drives. for_each drives (evaluate d smart_attrs)
