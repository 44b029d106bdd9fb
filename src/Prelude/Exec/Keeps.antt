-- ===== src/Prelude/Exec/Keeps.antt =====
-- Invariants of actions, one rule for each way to build an action.
use mathlib.Core.Option.{Option, none, some}
use disks.Prelude.{
  Bool, List, Option, [], false, if◌then◌else◌, nat_key, none, option_key, refl, some, string_key,
  true, ◌∷◌, ◌≡◌,
}
use disks.Prelude.Exec.{
  Exec, Result, continue, err, for_each, gets, modify, ok, or_raise, pure, raise, raise_if, ◌>>=◌,
  ◌>>◌,
}

-- `m` keeps `P`, whether it returns or raises.
pub record Keeps {ℓ} {E S : Type 0} {A : Type ℓ} (P : S → Type 0) (m : Exec E S A) : Type 0 where
  pub at : (s : S) → P s → P (m s).1

module _ {E S : Type 0} {P : S → Type 0} where
  pub Keeps-pure {ℓ} : {A : Type ℓ} (a : A) → Keeps {E = E} P (pure a)
  Keeps-pure a = record { at = λ s h. h }

  pub Keeps-raise {ℓ} : {A : Type ℓ} (e : E) → Keeps P (raise {A = A} e)
  Keeps-raise e = record { at = λ s h. h }

  pub Keeps-gets {ℓ} : {A : Type ℓ} (f : S → A) → Keeps {E = E} P (gets f)
  Keeps-gets f = record { at = λ s h. h }

  pub Keeps-or_raise {ℓ} : {A : Type ℓ} (o : Option A) (e : E) → Keeps P (or_raise o e)
  Keeps-or_raise none e = record { at = λ s h. h }
  Keeps-or_raise (some a) e = record { at = λ s h. h }

  pub Keeps-raise_if : (b : Bool) (e : E) → Keeps P (raise_if b e)
  Keeps-raise_if true e = record { at = λ s h. h }
  Keeps-raise_if false e = record { at = λ s h. h }

  pub Keeps-modify : (f : S → S) → ((s : S) → P s → P (f s)) → Keeps {E = E} P (modify f)
  Keeps-modify f k = record { at = k }

  pub Keeps-if {ℓ} :
      {A : Type ℓ} (b : Bool) (m n : Exec E S A)
      → Keeps P m
      → Keeps P n
      → Keeps P (if b then m else n)
  Keeps-if true m n km kn = km
  Keeps-if false m n km kn = kn

  pub Keeps-elim {ℓ κ} :
      {A : Type ℓ} {B : Type κ} (o : Option A) (m : Exec E S B) (f : A → Exec E S B)
      → Keeps P m
      → ((a : A) → Keeps P (f a))
      → Keeps P (elim o [ none ↦ m | some a ↦ f a ])
  Keeps-elim none m f km kf = km
  Keeps-elim (some a) m f km kf = kf a

  continue-keeps {ℓ κ} :
      {A : Type ℓ} {B : Type κ} (r : Result E A) (f : A → Exec E S B) (s : S)
      → ((a : A) → Keeps P (f a))
      → P s
      → P (continue r f s).1
  continue-keeps (ok a) f s kf h = (kf a).at s h
  continue-keeps (err e) f s kf h = h

  pub Keeps-bind {ℓ κ} :
      {A : Type ℓ} {B : Type κ} (m : Exec E S A) (next : A → Exec E S B)
      → Keeps P m
      → ((a : A) → Keeps P (next a))
      → Keeps P (m >>= next)
  Keeps-bind m next first others = record {
    at = λ s h. continue-keeps (m s).0 next (m s).1 others (first.at s h);
  }

  -- Behind a test that may raise, the test is known to have failed.
  pub Keeps-guard {ℓ} :
      {A : Type ℓ} (b : Bool) (e : E) (m : Exec E S A)
      → (b ≡ false → Keeps P m)
      → Keeps P (raise_if b e >> m)
  Keeps-guard true e m k = record { at = λ s h. h }
  Keeps-guard false e m k = k refl

  pub Keeps-for_each {ℓ} :
      {A : Type ℓ} (xs : List A) (body : A → Exec E S (Unit {0}))
      → ((a : A) → Keeps P (body a))
      → Keeps P (for_each xs body)
  unfolding for_each
  Keeps-for_each [] body k = record { at = λ s h. h }
  Keeps-for_each (x ∷ xs) body k =
      Keeps-bind (body x) (λ _. for_each xs body) (k x) (λ _. Keeps-for_each xs body k)

pub ruleset keeps_rules = (
  Keeps-pure, Keeps-raise, Keeps-gets, Keeps-or_raise, Keeps-raise_if, Keeps-if, Keeps-bind,
  Keeps-for_each,
)
