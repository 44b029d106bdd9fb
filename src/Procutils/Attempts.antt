-- ===== src/Procutils/Attempts.antt =====
-- How many attempts `_execute` makes, and which one it answers with.
use Prim.Native.Char.{code}
use Prim.Native.String.{count}
use disks.Prelude.{
  Bool, List, Option, String, ap, arith, false, if◌then◌else◌, inl, inr, nat_key, not, option_key,
  refl, string_key, suc, sym, true, zero, ℕ, ◌+◌, ◌<◌, ◌∙◌, ◌≡◌, ◌⊎◌,
}
use disks.Prelude.Exec.{Result, err, ok, ok-inj}
use disks.Prelude.Int.{is_zero, ℤ}
use disks.Procutils.{
  Attempt, ExecuteError, crashed, error_executing, execute_command, execute_from, exited, judge,
  may_retry, retries_exceeded, while_executing,
}
use mathlib.Core.Path.{subst}

-- An attempt that the loop goes on behind: a failure whose code is in the list.
abbrev pub Retried : Option (List ℤ) → Attempt → Type 0
Retried codes a =
    (code : ℤ) × (output : Option String) × (a ≡ exited code output)
    × (is_zero code ≡ false)
    × (may_retry codes code ≡ true)

-- An attempt that ends with the code 0 and the output.
abbrev pub Succeeded : Attempt → Option String → Type 0
Succeeded a output = (code : ℤ) × (a ≡ exited code output) × (is_zero code ≡ true)

-- From the n-th attempt on, the k-th succeeds, behind k that are retried, and is the last one.
abbrev pub FirstSuccess :
    (ℕ → Attempt) → Option (List ℤ) → (retry n : ℕ) → Option String → ℕ → Type 0
FirstSuccess attempt codes retry n output started =
    (k : ℕ) × (k < retry)
    × Succeeded (attempt (n + k)) output
    × ((j : ℕ) → j < k → Retried codes (attempt (n + j)))
    × (started ≡ suc (n + k))

judge-cases :
    (codes : Option (List ℤ)) (a : Attempt) (started : ℕ)
    (again : Result ExecuteError (Option String) × ℕ) (output : Option String)
    → (judge codes a started again).0 ≡ ok output
    → (Succeeded a output × ((judge codes a started again).1 ≡ started))
      ⊎ (Retried codes a × (judge codes a started again ≡ again))
unfolding judge
judge-cases codes crashed started again output h = absurd (failed h)
  where
    failed : Path (Result ExecuteError (Option String)) (err while_executing) (ok output) → ⊥
    failed h = cc
judge-cases codes (exited code out) started again output h =
    go (is_zero code) (may_retry codes code) refl refl h
  where
    rest : Bool → Bool → Result ExecuteError (Option String) × ℕ
    rest z r =
        if z then (ok out, started) else if not r then (err error_executing, started) else again

    go :
        (z r : Bool)
        → is_zero code ≡ z
        → may_retry codes code ≡ r
        → (rest z r).0 ≡ ok output
        → (Succeeded (exited code out) output × ((rest z r).1 ≡ started))
          ⊎ (Retried codes (exited code out) × (rest z r ≡ again))
    go true r zero_code in_list h =
        inl ((code, ap (exited code) (ok-inj out output h), zero_code), refl)
    go false true zero_code in_list h = inr ((code, out, refl, zero_code, in_list), refl)
    go false false zero_code in_list h = absurd (failed h)
      where
        failed : Path (Result ExecuteError (Option String)) (err error_executing) (ok output) → ⊥
        failed h = cc

add_zero : (n : ℕ) → n + 0 ≡ n
add_zero n = omega arith

shift : (n j : ℕ) → suc n + j ≡ n + suc j
shift n j = omega arith

later :
    (attempt : ℕ → Attempt) (codes : Option (List ℤ)) (retry n : ℕ) (output : Option String)
    (started : ℕ)
    → Retried codes (attempt n)
    → FirstSuccess attempt codes retry (suc n) output started
    → FirstSuccess attempt codes (suc retry) n output started
later attempt codes retry n output started retried (k, bound, success, before, count) = (
  suc k,
  omega (arith, bound),
  subst (λ m. Succeeded (attempt m) output) (shift n k) success,
  λ j. elim j as (λ j. j < suc k → Retried codes (attempt (n + j))) [
    | zero ↦ λ below. subst (λ m. Retried codes (attempt m)) (sym (add_zero n)) retried
    | suc i ↦ λ below.
        subst (λ m. Retried codes (attempt m)) (shift n i) (before i (omega (arith, below)))
  ],
  omega (arith, count),
)

execute_from-FirstSuccess :
    (attempt : ℕ → Attempt) (codes : Option (List ℤ)) (retry n : ℕ) (output : Option String)
    → (execute_from attempt codes retry n).0 ≡ ok output
    → FirstSuccess attempt codes retry n output (execute_from attempt codes retry n).1
unfolding execute_from
execute_from-FirstSuccess attempt codes zero n output h = absurd (exceeded h)
  where
    exceeded : Path (Result ExecuteError (Option String)) (err retries_exceeded) (ok output) → ⊥
    exceeded h = cc
execute_from-FirstSuccess attempt codes (suc retry) n output h =
    elim (judge-cases codes (attempt n) (suc n) (execute_from attempt codes retry (suc n)) output
      h) [
        | inl (success, count) ↦ (
          0,
          omega arith,
          subst (λ m. Succeeded (attempt m) output) (sym (add_zero n)) success,
          λ j below. absurd (omega (arith, below)),
          omega (arith, count),
        )
        | inr (retried, same) ↦
            subst (λ r. FirstSuccess attempt codes (suc retry) n output r.1) (sym same)
              (later attempt codes retry n output _ retried (
                execute_from-FirstSuccess attempt codes retry (suc n) output
                  (ap (λ r. r.0) (sym same) ∙ h)))
      ]

-- Where `_execute` returns, it is with the output of an attempt that ended with the code 0, the
-- first that did, among ten at most: each one before it failed with a code of the list, and none was
-- started behind it.
pub execute_command-FirstSuccess :
    (attempt : ℕ → Attempt) (codes : Option (List ℤ)) (output : Option String)
    → (execute_command attempt codes).0 ≡ ok output
    → FirstSuccess attempt codes 10 0 output (execute_command attempt codes).1
unfolding execute_command
execute_command-FirstSuccess attempt codes output h =
    execute_from-FirstSuccess attempt codes 10 0 output h
