-- ===== src/Contractor/Retries.antt =====
-- How often `HTTPClient.request` tries, and what it answers.
use Prim.Native.String.{count}
use disks.Cinp.Json.{Json}
use disks.Cinp.Request.{Action, Cinp, CinpError, Session}
use disks.Cinp.Words.{Text}
use disks.Contractor.{Method, Outcome, after_attempt, attempt, http_request, is_retried, try_from}
use disks.Prelude.{
  Bool, Option, ap, arith, false, if◌then◌else◌, leb, nat_key, not, option_key, refl, string_key,
  suc, sym, true, zero, ℕ, ◌+◌, ◌<◌, ◌||◌, ◌∙◌, ◌≡◌, ◌≤◌,
}
use disks.Prelude.Exec.{Result, err, ok}
use disks.Prelude.Int.{pos}
use mathlib.Core.Path.{subst}

-- The state before the k-th attempt, where each is made in the state that the one before left.
abbrev pub state_at : Action Outcome → ℕ → Session → Session
state_at act zero s = s
state_at act (suc k) s = state_at act k (act s).1

-- A result behind which there may be another attempt.
abbrev pub IsFailure : Result CinpError Outcome → Type 0
IsFailure r = (e : CinpError) × (r ≡ err e) × (is_retried e ≡ true)

-- The answer is that of one of the first n + 1 attempts. Each one before it failed, and if it failed
-- itself, it is the last that is allowed.
abbrev pub Tries : Action Outcome → ℕ → Session → Result CinpError Outcome × Session → Type 0
Tries act n s r =
    (k : ℕ) × (k ≤ n)
    × (r ≡ act (state_at act k s))
    × ((j : ℕ) → j < k → IsFailure (act (state_at act j s)).0)
    × (IsFailure r.0 → k ≡ n)

module _ (act : Action Outcome) where
  Tries-first :
      (n : ℕ) (s : Session) (r : Result CinpError Outcome × Session)
      → r ≡ act s
      → (IsFailure r.0 → 0 ≡ n)
      → Tries act n s r
  Tries-first n s r same last =
      (0, omega arith, same, λ j below. absurd (omega (arith, below)), last)

  Tries-later :
      (n : ℕ) (s t : Session) (e : CinpError) (r : Result CinpError Outcome × Session)
      → act s ≡ (err e, t)
      → is_retried e ≡ true
      → Tries act n t r
      → Tries act (suc n) s r
  Tries-later n s t e r same again (k, bound, answer, before, last) = (
    suc k,
    omega (arith, bound),
    answer ∙ ap (λ p. act (state_at act k p.1)) (sym same),
    λ j. elim j as (λ j. j < suc k → IsFailure (act (state_at act j s)).0) [
      | zero ↦ λ below. (e, ap (λ p. p.0) same, again)
      | suc i ↦ λ below.
          subst (λ p. IsFailure (act (state_at act i p.1)).0) (sym same)
            (before i (omega (arith, below)))
    ],
    λ h. ap (λ m. suc m) (last h),
  )

  step :
      (n m retry : ℕ) (s : Session) (again : Action Outcome)
      (p : Result CinpError Outcome × Session)
      → act s ≡ p
      → retry + m ≡ n
      → ((l : ℕ) → m ≡ suc l → (t : Session) → Tries act l t (again t))
      → Tries act m s (after_attempt (pos n) retry again p)
  step n m retry s again (ok o, t) same count rest =
      Tries-first m s _ (sym same) (λ h. absurd (clash h.0 h.1))
    where
      clash : (e : CinpError) → Path (Result CinpError Outcome) (ok o) (err e) → ⊥
      clash e h = cc
  step n m retry s again (err e, t) same count rest = go (is_retried e) (leb n retry) refl refl
    where
      clash :
          (d : CinpError)
          → Path (Result CinpError Outcome) (err e) (err d)
          → is_retried d ≡ true
          → is_retried e ≡ false
          → ⊥
      clash d h k l = cc

      ended : (k : ℕ) → retry + k ≡ n → leb n retry ≡ true → 0 ≡ k
      ended k c h = ground arith

      goes_on : (k : ℕ) → retry + k ≡ n → leb n retry ≡ false → (l : ℕ) × (k ≡ suc l)
      goes_on zero c h = absurd (impossible c h)
        where
          impossible : retry + 0 ≡ n → leb n retry ≡ false → ⊥
          impossible c h = ground arith
      goes_on (suc l) c h = (l, refl)

      go :
          (b g : Bool)
          → is_retried e ≡ b
          → leb n retry ≡ g
          → Tries act m s (if not b || g then (err e, t) else again t)
      go false g b_lem g_lem = Tries-first m s _ (sym same) (λ h. absurd (clash h.0 h.1 h.2 b_lem))
      go true true b_lem g_lem = Tries-first m s _ (sym same) (λ h. ended m count g_lem)
      go true false b_lem g_lem =
          let more = goes_on m count g_lem in
          subst (λ k. Tries act k s (again t)) (sym more.1)
            (Tries-later more.0 s t e (again t) same b_lem (rest more.0 more.1 t))

  try_from-Tries :
      (n m retry : ℕ) (s : Session)
      → retry + m ≡ n
      → Tries act m s (try_from act (pos n) (suc m) retry s)
  unfolding try_from
  try_from-Tries n zero retry s count =
      step n zero retry s (try_from act (pos n) zero (suc retry)) (act s) refl count
        (λ l h t. absurd (clash l h))
    where
      clash : (l : ℕ) → 0 ≡ suc l → ⊥
      clash l h = omega (arith, h)
  try_from-Tries n (suc m) retry s count =
      let rest = λ (t : Session). try_from-Tries n m (suc retry) t (omega (arith, count)) in
      step n (suc m) retry s (try_from act (pos n) (suc m) (suc retry)) (act s) refl count (λ l h t.
        subst (λ k. Tries act k t (try_from act (pos n) (suc m) (suc retry) t)) (suc_inj m l h)
          (rest t))
    where
      suc_inj : (m l : ℕ) → suc m ≡ suc l → m ≡ l
      suc_inj m l h = omega (arith, h)

-- Where the number of retries is n, `HTTPClient.request` ends, and answers what one of its first n + 1
-- attempts came to, each made in the state that the one before left. Every attempt before that one
-- failed with a ResponseError or a Timeout, and where that one failed so too, it is the last that is
-- allowed.
pub http_request-Tries :
    (c : Cinp) (patience : ℕ) (method : Method) (uri : Text) (body : Json) (filter : Option Text)
    (timeout n : ℕ) (no_parse : Bool) (s : Session)
    → Tries
        (attempt c method uri body filter timeout no_parse)
        n
        s
        (http_request c patience method uri body filter timeout (pos n) no_parse s)
unfolding http_request
http_request-Tries c patience method uri body filter timeout n no_parse s =
    try_from-Tries (attempt c method uri body filter timeout no_parse) n n 0 s (omega arith)
