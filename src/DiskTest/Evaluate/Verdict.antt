-- ===== src/DiskTest/Evaluate/Verdict.antt =====
-- What `evaluate` does with a drive.
use mathlib.Core.Option
use disks.DiskTest.Evaluate.{evaluate, evaluate_read, prune_for, set_initial}
use disks.DiskTest.Limits.{Limit, Reason, get_type, judge_attribs, smart_attribs}
use disks.DiskTest.Limits.Within.{IsWithin, judge_attribs-IsWithin}
use disks.DiskTest.Lists.{Drives, Test, prune, remove_first}
use disks.Filesystem.Targets.{is_some}
use disks.Prelude.{
  All, List, Option, String, [], ap, arith, if◌then◌else◌, nat_key, none, option_key, refl, some,
  string_key, ℕ, ◌∙◌, ◌∷◌, ◌≡◌,
}
use disks.Prelude.Dict.{Dict, has_key, insert, lookup, lookup-insert_self}

evaluate_read-judged :
    (d : Drives) (drive : String) (attribs first : Dict ℕ ℕ) (limits : List Limit) (s : Test)
    → smart_attribs (get_type (d.model drive)) ≡ some limits
    → lookup drive (set_initial drive attribs s).1.initial ≡ some first
    → evaluate_read d drive attribs s
      ≡ prune_for drive (judge_attribs limits first attribs) (set_initial drive attribs s).1
unfolding evaluate_read judge_attribs
evaluate_read-judged d drive [] first limits s known begun = rw (begun, evaluate_read) refl
evaluate_read-judged d drive (a ∷ attribs) first limits s known begun =
    rw (begun, evaluate_read) (rw known refl)

evaluate-judged :
    (d : Drives) (smart_attrs : String → Option (Dict ℕ ℕ)) (drive : String)
    (attribs first : Dict ℕ ℕ) (limits : List Limit) (s : Test)
    → smart_attrs drive ≡ some attribs
    → smart_attribs (get_type (d.model drive)) ≡ some limits
    → lookup drive (set_initial drive attribs s).1.initial ≡ some first
    → evaluate d smart_attrs drive s
      ≡ prune_for drive (judge_attribs limits first attribs) (set_initial drive attribs s).1
unfolding evaluate
evaluate-judged d smart_attrs drive attribs first limits s given known begun =
    rw (given, evaluate) (evaluate_read-judged d drive attribs first limits s known begun)

has_key-lookup :
    (drive : String) (d : Dict String (Dict ℕ ℕ)) → has_key drive d ≡ is_some (lookup drive d)
unfolding has_key lookup
has_key-lookup drive [] = refl
has_key-lookup drive ((m, j) ∷ d) = ground (arith, has_key-lookup drive d)

-- The first reading of a drive: the one that is remembered, or the one of now.
abbrev pub first_reading : String → Dict ℕ ℕ → Test → Dict ℕ ℕ
first_reading drive attribs s = Option.get_or (lookup drive s.initial) attribs

begun_with :
    (drive : String) (attribs : Dict ℕ ℕ) (s : Test)
    → lookup drive (set_initial drive attribs s).1.initial ≡ some (first_reading drive attribs s)
begun_with drive attribs s = rw (has_key-lookup drive s.initial) (go (lookup drive s.initial) refl)
  where
    go :
        (o : Option (Dict ℕ ℕ))
        → lookup drive s.initial ≡ o
        → lookup drive (if is_some o then s.initial else insert drive attribs s.initial)
          ≡ some (Option.get_or o attribs)
    go none e = lookup-insert_self drive attribs s.initial
    go (some first) e = e

prune_for-initial :
    (drive : String) (o : Option Reason) (s : Test) → (prune_for drive o s).1.initial ≡ s.initial
unfolding prune
prune_for-initial drive none s = refl
prune_for-initial drive (some reason) s = refl

-- A drive that gives its attributes is judged by the limits of its type and by its first reading,
-- which is the one that the test remembers of it, or, where it remembers none, the one of now; the
-- test then remembers it. Where every attribute is within the limits, no drive is pruned and no reason is
-- noted; where one is not, the drive gets a reason why it is bad, and is taken out of the good drives.
pub evaluate-IsWithin :
    (d : Drives) (smart_attrs : String → Option (Dict ℕ ℕ)) (drive : String) (attribs : Dict ℕ ℕ)
    (limits : List Limit) (s : Test)
    → smart_attrs drive ≡ some attribs
    → smart_attribs (get_type (d.model drive)) ≡ some limits
    → (lookup drive (evaluate d smart_attrs drive s).1.initial
        ≡ some (first_reading drive attribs s))
      × (All (IsWithin limits (first_reading drive attribs s)) attribs
          → ((evaluate d smart_attrs drive s).1.good_list ≡ s.good_list)
            × ((evaluate d smart_attrs drive s).1.bad_reasons ≡ s.bad_reasons))
      × (¬ All (IsWithin limits (first_reading drive attribs s)) attribs
          → (reason : Reason) × (lookup drive (evaluate d smart_attrs drive s).1.bad_reasons
              ≡ some reason)
            × ((evaluate d smart_attrs drive s).1.good_list ≡ remove_first drive s.good_list))
unfolding prune
evaluate-IsWithin d smart_attrs drive attribs limits s given known =
    let first = first_reading drive attribs s in
    let begun = begun_with drive attribs s in
    let same = evaluate-judged d smart_attrs drive attribs first limits s given known begun in
    let verdict = judge_attribs-IsWithin limits first attribs in
    (
      ap (λ r. lookup drive r.1.initial) same
          ∙ ap (lookup drive) (
              prune_for-initial drive (judge_attribs limits first attribs)
                (set_initial drive attribs s).1)
          ∙ begun,
      λ within.
          let passed =
            same ∙ ap (λ o. prune_for drive o (set_initial drive attribs s).1) (verdict.1 within) in
          (ap (λ r. r.1.good_list) passed, ap (λ r. r.1.bad_reasons) passed),
      λ outside.
          pruned first (judge_attribs limits first attribs) refl (λ e. outside (verdict.0 e)) same,
    )
  where
    pruned :
        (first : Dict ℕ ℕ) (o : Option Reason)
        → judge_attribs limits first attribs ≡ o
        → ¬ (judge_attribs limits first attribs ≡ none)
        → evaluate d smart_attrs drive s ≡ prune_for drive o (set_initial drive attribs s).1
        → (reason : Reason) × (lookup drive (evaluate d smart_attrs drive s).1.bad_reasons
            ≡ some reason)
          × ((evaluate d smart_attrs drive s).1.good_list ≡ remove_first drive s.good_list)
    pruned first none e bad same = absurd (bad e)
    pruned first (some reason) e bad same = (
      reason,
      ap (λ r. lookup drive r.1.bad_reasons) same ∙ lookup-insert_self drive reason s.bad_reasons,
      ap (λ r. r.1.good_list) same,
    )
