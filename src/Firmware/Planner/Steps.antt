-- ===== src/Firmware/Planner/Steps.antt =====
-- What `findStep` finds, and what it has not overlooked where it finds nothing.
use disks.Firmware.Planner.{
  Patterns, Step, file_of, find_matches, find_step, first_file, fits, score_le, sort_patterns,
}
use disks.Prelude.{
  All, All-map, Bool, Bool-cases, List, Option-cases, String, [], arith, false, if◌then◌else◌, inl,
  inr, insert_with, map, nat_key, none, option_key, refl, select, some, sort_with, string_key, sym,
  true, ◌&&◌, ◌==◌, ◌∙◌, ◌∷◌, ◌≡◌, ◌≢◌, ◌⊎◌,
}
use mathlib.Core.Path.{subst}
use text.Mathlib.TextEquality.{eq_iff}

-- Some item has the property.
abbrev pub Any {ℓ} : {A : Type ℓ} → (A → Type 0) → List A → Type 0
Any P [] = ⊥
Any P (x ∷ xs) = P x ⊎ Any P xs

Bool-apart : true ≡ false → ⊥
Bool-apart h = cc

some≢none : {name : String} → some name ≡ none → ⊥
some≢none h = cc

module _ {ℓ} {A : Type ℓ} where
  select-All : (p : A → Bool) (xs : List A) → All (λ x. p x ≡ true) (select p xs)
  select-All p [] = tt
  select-All p (x ∷ xs) = elim (Bool-cases (p x)) [
    | inl h ↦ rw h (h, select-All p xs)
    | inr h ↦ rw h (select-All p xs)
  ]

  -- What holds of the selected items holds of all that the test accepts.
  All-unselect {κ} :
      (P : A → Type κ) (p : A → Bool) (xs : List A)
      → All P (select p xs)
      → All (λ x. p x ≡ true → P x) xs
  All-unselect P p [] h = tt
  All-unselect P p (x ∷ xs) h = elim (Bool-cases (p x)) [
    | inl e ↦
        let k : P x × All P (select p xs) =
          subst (λ b. All P (if b then x ∷ select p xs else select p xs)) e h in
        (λ _. k.0, All-unselect P p xs k.1)
    | inr e ↦
        let k : All P (select p xs) =
          subst (λ b. All P (if b then x ∷ select p xs else select p xs)) e h in
        (λ yes. absurd (Bool-apart (sym yes ∙ e)), All-unselect P p xs k)
  ]

  All-uninsert {κ} :
      (P : A → Type κ) (le : A → A → Bool) (a : A) (xs : List A)
      → All P (insert_with le a xs)
      → P a × All P xs
  unfolding insert_with
  All-uninsert P le a [] h = h
  All-uninsert P le a (x ∷ xs) h = elim (Bool-cases (le a x)) [
    | inl e ↦ subst (λ b. All P (if b then a ∷ x ∷ xs else x ∷ insert_with le a xs)) e h
    | inr e ↦
        let k : P x × All P (insert_with le a xs) =
          subst (λ b. All P (if b then a ∷ x ∷ xs else x ∷ insert_with le a xs)) e h in
        let rest = All-uninsert P le a xs k.1 in (rest.0, (k.0, rest.1))
  ]

  All-unsort {κ} :
      (P : A → Type κ) (le : A → A → Bool) (xs : List A) → All P (sort_with le xs) → All P xs
  unfolding sort_with
  All-unsort P le [] h = tt
  All-unsort P le (x ∷ xs) h =
      let k = All-uninsert P le x (sort_with le xs) h in (k.0, All-unsort P le xs k.1)

  All-unmap {ι κ} :
      {B : Type ι} (P : B → Type κ) (f : A → B) (xs : List A)
      → All P (map f xs)
      → All (λ x. P (f x)) xs
  All-unmap P f [] h = tt
  All-unmap P f (x ∷ xs) h = (h.0, All-unmap P f xs h.1)

  All-given {ι κ} :
      (C : Type ι) (P : A → Type κ) (xs : List A) → (C → All P xs) → All (λ x. C → P x) xs
  All-given C P [] h = tt
  All-given C P (x ∷ xs) h = (λ c. (h c).0, All-given C P xs (λ c. (h c).1))

  All-diagonal {κ} :
      (R : A → A → Type κ) (xs : List A) → All (λ x. All (R x) xs) xs → All (λ x. R x x) xs
  All-diagonal R [] h = tt
  All-diagonal R (x ∷ xs) h = (
    h.0.0,
    All-diagonal R xs (All-map (λ y. All (R y) (x ∷ xs)) (λ y. All (R y) xs) (λ y k. k.1) xs h.1),
  )

-- The test of the inner loop.
abbrev is_step : String → String → Step → Bool
is_step pattern target step = step.from_version == pattern && step.to_version == target

-- A step from the pattern to the wanted version, with the file.
abbrev IsStep : String → String → String → Step → Type 0
IsStep pattern target filename step =
    (step.from_version ≡ pattern) × (step.to_version ≡ target) × (step.filename ≡ filename)

is_step-IsStep :
    (pattern target : String) (step : Step)
    → is_step pattern target step ≡ true
    → IsStep pattern target step.filename step
is_step-IsStep pattern target step h = (
  ground (arith, eq_iff step.from_version pattern),
  ground (arith, eq_iff step.to_version target),
  refl,
)

file_of-Any :
    (pattern target filename : String) (steps : List Step)
    → file_of pattern target steps ≡ some filename
    → Any (IsStep pattern target filename) steps
unfolding file_of
file_of-Any pattern target filename [] h = cc
file_of-Any pattern target filename (step ∷ steps) h =
    elim (Bool-cases (is_step pattern target step)) [
      | inl e ↦
          let same : some step.filename ≡ some filename =
            subst
              (λ b.
                (if b then some step.filename else file_of pattern target steps) ≡ some filename)
              e h in
          let (a, b, c) = is_step-IsStep pattern target step e in inl (a, b, cc)
      | inr e ↦ inr (
          file_of-Any pattern target filename steps (
            subst
              (λ b.
                (if b then some step.filename else file_of pattern target steps) ≡ some filename)
              e h))
    ]

file_of-none :
    (pattern target : String) (steps : List Step)
    → file_of pattern target steps ≡ none
    → All (λ step. step.from_version ≡ pattern → step.to_version ≢ target) steps
unfolding file_of
file_of-none pattern target [] h = tt
file_of-none pattern target (step ∷ steps) h = elim (Bool-cases (is_step pattern target step)) [
  | inl e ↦ absurd (
      some≢none
        (subst (λ b. (if b then some step.filename else file_of pattern target steps) ≡ none) e h))
  | inr e ↦ (
    λ from to. ground (arith, eq_iff step.from_version pattern, eq_iff step.to_version target),
    file_of-none pattern target steps
        (subst (λ b. (if b then some step.filename else file_of pattern target steps) ≡ none) e h),
  )
]

first_file-found :
    (P : String → Type 0) (target filename : String) (steps : List Step) (patterns : List String)
    → All P patterns
    → first_file target steps patterns ≡ some filename
    → (pattern : String) × P pattern × (file_of pattern target steps ≡ some filename)
unfolding first_file
first_file-found P target filename steps [] all h = absurd cc
first_file-found P target filename steps (p ∷ ps) all h =
    elim (Option-cases (file_of p target steps)) [
      | inl e ↦ first_file-found P target filename steps ps all.1 (rw (e, first_file) at h)
      | inr (found, e) ↦ (p, all.0, e ∙ rw (e, first_file) at h)
    ]

first_file-none :
    (target : String) (steps : List Step) (patterns : List String)
    → first_file target steps patterns ≡ none
    → All (λ p. file_of p target steps ≡ none) patterns
unfolding first_file
first_file-none target steps [] h = tt
first_file-none target steps (p ∷ ps) h = elim (Option-cases (file_of p target steps)) [
  | inl e ↦ (e, first_file-none target steps ps (rw (e, first_file) at h))
  | inr (found, e) ↦ absurd (some≢none (rw (e, first_file) at h))
]

Any-map {ℓ} :
    {A : Type ℓ} (P Q : A → Type 0) (f : (a : A) → P a → Q a) (xs : List A) → Any P xs → Any Q xs
Any-map P Q f [] h = absurd h
Any-map P Q f (x ∷ xs) (inl h) = inl (f x h)
Any-map P Q f (x ∷ xs) (inr h) = inr (Any-map P Q f xs h)

-- The file that `findStep` answers is one of the map's, its 'to' is the wanted version, and its 'from'
-- is the current version, or is a pattern that `re.match` finds at the start of the current version,
-- whatever stands behind it.
pub find_step-Any :
    (re : Patterns) (current target filename : String) (steps : List Step)
    → find_step re current target steps ≡ some filename
    → Any
        (λ step.
          (fits re current step.from_version ≡ true)
          × (step.to_version ≡ target)
          × (step.filename ≡ filename))
        steps
unfolding find_step find_matches
find_step-Any re current target filename steps h =
    let sorted = sort_patterns re (map (λ i. i.from_version) steps) in
    let (p, accepted, found) =
      first_file-found (λ p. fits re current p ≡ true) target filename steps
        (select (fits re current) sorted) (select-All (fits re current) sorted) h in
    Any-map (IsStep p target filename) _
      (λ step k. (subst (λ v. fits re current v ≡ true) (sym k.0) accepted, k.1, k.2)) steps
      (file_of-Any p target filename steps found)

-- Where `findStep` answers None, no file of the map whose 'from' equals or matches the current
-- version leads to the wanted one.
pub find_step-none :
    (re : Patterns) (current target : String) (steps : List Step)
    → find_step re current target steps ≡ none
    → All (λ step. fits re current step.from_version ≡ true → step.to_version ≢ target) steps
unfolding find_step find_matches sort_patterns
find_step-none re current target steps h =
    let froms = map (λ i. i.from_version) steps in
    let none_of = λ (p : String). file_of p target steps ≡ none in
    let accepted =
      first_file-none target steps (select (fits re current) (sort_with (score_le re) froms)) h in
    let every = All-unmap _ _ steps (
      All-unsort (λ p. fits re current p ≡ true → none_of p) (score_le re) froms
        (All-unselect none_of (fits re current) (sort_with (score_le re) froms) accepted)) in
    All-map _ _ (λ step k yes. k yes refl) steps
      (All-diagonal
        (λ s t.
          fits re current s.from_version ≡ true
          → t.from_version ≡ s.from_version
          → t.to_version ≢ target)
        steps
        (All-map _ _
          (λ s k.
            All-given (fits re current s.from_version ≡ true) _ steps
              (λ yes. file_of-none s.from_version target steps (k yes)))
          steps every))
