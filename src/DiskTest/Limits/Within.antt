-- ===== src/DiskTest/Limits/Within.antt =====
-- Which readings pass.
use disks.DiskTest.Limits.{
  Limit, Reason, above_rate, above_threshold, judge_attrib, judge_attribs, limit_of, or_next,
}
use disks.Prelude.{
  All, List, Option, [], arith, if◌then◌else◌, ltb, nat_key, none, option_key, refl, some,
  string_key, sym, ℕ, ◌+◌, ◌-◌, ◌↔◌, ◌∙◌, ◌∷◌, ◌≡◌, ◌≤◌,
}
use disks.Prelude.Dict.{Dict, lookup}
use mathlib.Core.Path.{subst}

-- An attribute that has a limit is not above it, and has not grown by more than its rate.
abbrev pub IsWithin : List Limit → Dict ℕ ℕ → ℕ × ℕ → Type 0
IsWithin limits initial reading =
    (l : Limit)
    → limit_of reading.0 limits ≡ some l
    → (reading.1 ≤ l.most)
      × ((before : ℕ) → lookup reading.0 initial ≡ some before → reading.1 ≤ before + l.rate)

judge_attrib-within :
    (initial : Dict ℕ ℕ) (attrib raw : ℕ) (l : Limit)
    → (judge_attrib initial attrib raw l ≡ none) ↔ (
        (raw ≤ l.most)
        × ((before : ℕ) → lookup attrib initial ≡ some before → raw ≤ before + l.rate))
unfolding judge_attrib
judge_attrib-within initial attrib raw l = go (lookup attrib initial) refl
  where
    outcome : Option ℕ → Option Reason
    outcome o = if ltb l.most raw then some (above_threshold attrib raw) else elim o [
      | none ↦ none
      | some before ↦
          if ltb (before + l.rate) raw then some (above_rate attrib (raw - before)) else none
    ]

    go :
        (o : Option ℕ)
        → lookup attrib initial ≡ o
        → (outcome o ≡ none) ↔ (
            (raw ≤ l.most)
            × ((before : ℕ) → lookup attrib initial ≡ some before → raw ≤ before + l.rate))
    go none e = (λ h. (low h, λ before k. cc), λ p. never p.0)
      where
        low : outcome none ≡ none → raw ≤ l.most
        low h = ground arith

        never : raw ≤ l.most → outcome none ≡ none
        never h = ground arith
    go (some first) e = (
      λ h. (
        (within h).0,
        λ before k. subst (λ b. raw ≤ b + l.rate) (some_inj first before (sym e ∙ k)) (within h).1,
      ),
      λ p. fits p.0 (p.1 first e),
    )
      where
        some_inj : (a b : ℕ) → some a ≡ some b → a ≡ b
        some_inj a b h = cc

        within : outcome (some first) ≡ none → (raw ≤ l.most) × (raw ≤ first + l.rate)
        within h = ground arith

        fits : raw ≤ l.most → raw ≤ first + l.rate → outcome (some first) ≡ none
        fits h k = ground arith

or_next-none : (o next : Option Reason) → (or_next o next ≡ none) ↔ ((o ≡ none) × (next ≡ none))
or_next-none none next = (λ h. (refl, h), λ p. p.1)
or_next-none (some reason) next = (λ h. cc, λ p. cc)

-- The loop finds no reason exactly where every reading is within its limits.
pub judge_attribs-IsWithin :
    (limits : List Limit) (initial attribs : Dict ℕ ℕ)
    → (judge_attribs limits initial attribs ≡ none) ↔ All (IsWithin limits initial) attribs
unfolding judge_attribs
judge_attribs-IsWithin limits initial [] = (λ h. tt, λ h. refl)
judge_attribs-IsWithin limits initial ((attrib, raw) ∷ attribs) =
    go (limit_of attrib limits) refl (judge_attribs-IsWithin limits initial attribs)
  where
    next : Option Reason
    next = judge_attribs limits initial attribs

    outcome : Option Limit → Option Reason
    outcome o = elim o [ none ↦ next | some l ↦ or_next (judge_attrib initial attrib raw l) next ]

    some_inj : (a b : Limit) → some a ≡ some b → a ≡ b
    some_inj a b h = cc

    Fits : Limit → Type 0
    Fits l =
        (raw ≤ l.most)
        × ((before : ℕ) → lookup attrib initial ≡ some before → raw ≤ before + l.rate)

    go :
        (o : Option Limit)
        → limit_of attrib limits ≡ o
        → (next ≡ none) ↔ All (IsWithin limits initial) attribs
        → (outcome o ≡ none)
          ↔ (IsWithin limits initial (attrib, raw) × All (IsWithin limits initial) attribs)
    go none e ih = (λ h. (λ l k. cc, ih.0 h), λ p. ih.1 p.1)
    go (some l) e ih =
        let each = judge_attrib-within initial attrib raw l in
        let both = or_next-none (judge_attrib initial attrib raw l) next in
        (
          λ h. (
            λ m k. subst Fits (some_inj l m (sym e ∙ k)) (each.0 (both.0 h).0),
            ih.0 (both.0 h).1,
          ),
          λ p. both.1 (each.1 (p.0 l e), ih.1 p.1),
        )
