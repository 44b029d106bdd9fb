-- ===== src/Firmware/Planner.antt =====
-- disks/firmware/root/firmware/planner.py: which file brings a version to the wanted one.
pub mod Steps
use disks.Prelude.{
  Bool, List, Option, String, [], eqb, if◌then◌else◌, leb, ltb, map, nat_key, none, option_key,
  select, some, sort_with, string_key, ℕ, ◌&&◌, ◌==◌, ◌||◌, ◌∷◌,
}
use disks.Prelude.Text.{len}

-- Python's `re` on the patterns of versions: `re.match`, and the numbers of matches that `findall`
-- has for the two scores.
pub record Patterns : Type 0 where
  pub matches : (pattern text : String) → Bool
  pub wildcards : String → ℕ
  pub literals : String → ℕ

-- An entry of `firmware_map`: a file, and the 'from' and 'to' of its dict.
pub record Step : Type 0 where
  pub filename : String
  pub from_version : String
  pub to_version : String

-- The order of the scores `( wildcards_count, -literals_count, -len( pattern ) )`.
abbrev pub score_le : Patterns → String → String → Bool
score_le re a b =
    ltb (re.wildcards a) (re.wildcards b)
    || eqb (re.wildcards a) (re.wildcards b)
      && (ltb (re.literals b) (re.literals a)
          || eqb (re.literals a) (re.literals b) && leb (len b) (len a))

-- `sortPatterns`
unfoldable pub sort_patterns : Patterns → List String → List String
sort_patterns re patterns = sort_with (score_le re) patterns

-- `i == target or re.match( i, target )`
abbrev pub fits : Patterns → String → String → Bool
fits re target pattern = pattern == target || re.matches pattern target

-- `findMatchs`
unfoldable pub find_matches : Patterns → String → List String → List String
find_matches re target patterns = select (fits re target) patterns

-- the inner loop of `findStep`
unfoldable pub file_of : String → String → List Step → Option String
file_of pattern target [] = none
file_of pattern target (step ∷ steps) =
    let rest = file_of pattern target steps in
    if step.from_version == pattern && step.to_version == target then some step.filename else rest

-- the outer loop
unfoldable pub first_file : String → List Step → List String → Option String
first_file target steps [] = none
first_file target steps (pattern ∷ patterns) =
    let rest = first_file target steps patterns in
    elim (file_of pattern target steps) [ none ↦ rest | some filename ↦ some filename ]

-- `findStep`
unfoldable pub find_step : Patterns → (current target : String) → List Step → Option String
find_step re current target steps =
    first_file target steps
      (find_matches re current (sort_patterns re (map (λ i. i.from_version) steps)))
