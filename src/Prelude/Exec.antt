-- ===== src/Prelude/Exec.antt =====
-- Python functions that change shared state and may raise. What was written before a raise stays
-- written, so the state comes back beside the error too.
pub mod Keeps
use mathlib.Core.Option.{Option, none, some}
use disks.Prelude.{
  Bool, List, Option, [], false, if◌then◌else◌, inl, inr, nat_key, none, option_key, refl, some,
  string_key, true, ◌∷◌, ◌≡◌, ◌⊎◌,
}

pub data Result {ℓ} (E : Type 0) (A : Type ℓ) : Type ℓ where
  ok : A → Result E A
  err : E → Result E A

-- what follows where a value came back, for code that changes no state
abbrev pub and_then {ℓ κ} :
    {E : Type 0} {A : Type ℓ} {B : Type κ} → Result E A → (A → Result E B) → Result E B
and_then (ok a) f = f a
and_then (err e) f = err e

pub and_then-eq-ok {ℓ κ} :
    {E : Type 0} {A : Type ℓ} {B : Type κ} (r : Result E A) (f : A → Result E B) (b : B)
    → and_then r f ≡ ok b
    → (a : A) × (r ≡ ok a) × (f a ≡ ok b)
and_then-eq-ok (ok a) f b h = (a, refl, h)
and_then-eq-ok (err e) f b h = cc

-- a key that may be missing
abbrev pub found_or {ℓ} : {E : Type 0} {A : Type ℓ} → Option A → E → Result E A
found_or none e = err e
found_or (some a) e = ok a

pub ok-inj {ℓ} : {E : Type 0} {A : Type ℓ} (a b : A) → Path (Result E A) (ok a) (ok b) → a ≡ b
ok-inj a b h = cc

-- One of the branches has come back with what the `if` comes back with.
pub if-eq {ℓ} : {A : Type ℓ} (b : Bool) (m n x : A) → (if b then m else n) ≡ x → (m ≡ x) ⊎ (n ≡ x)
if-eq true m n x h = inl h
if-eq false m n x h = inr h

abbrev pub Exec {ℓ} : Type 0 → Type 0 → Type ℓ → Type ℓ
Exec E S A = S → Result E A × S

module _ {E S : Type 0} where
  abbrev pub pure {ℓ} : {A : Type ℓ} → A → Exec E S A
  pure a s = (ok a, s)

  abbrev pub raise {ℓ} : {A : Type ℓ} → E → Exec E S A
  raise e s = (err e, s)

  abbrev pub gets {ℓ} : {A : Type ℓ} → (S → A) → Exec E S A
  gets f s = (ok (f s), s)

  abbrev pub modify : (S → S) → Exec E S (Unit {0})
  modify f s = (ok tt, f s)

  -- `d[k]` of a dict, a list or a variable that may be missing
  abbrev pub or_raise {ℓ} : {A : Type ℓ} → Option A → E → Exec E S A
  or_raise none e s = (err e, s)
  or_raise (some a) e s = (ok a, s)

  -- `if b: raise e`
  abbrev pub raise_if : Bool → E → Exec E S (Unit {0})
  raise_if true e s = (err e, s)
  raise_if false e s = (ok tt, s)

  abbrev pub continue {ℓ κ} : {A : Type ℓ} {B : Type κ} → Result E A → (A → Exec E S B) → Exec E S B
  continue (ok a) f s = f a s
  continue (err e) f s = (err e, s)

  infixl 10 ◌>>=◌ ◌>>◌
  abbrev pub ◌>>=◌ {ℓ κ} : {A : Type ℓ} {B : Type κ} → Exec E S A → (A → Exec E S B) → Exec E S B
  ◌>>=◌ m f s = continue (m s).0 f (m s).1

  abbrev pub ◌>>◌ {ℓ κ} : {A : Type ℓ} {B : Type κ} → Exec E S A → Exec E S B → Exec E S B
  m >> n = m >>= λ _. n

  -- `for a in xs: body( a )`
  unfoldable pub for_each {ℓ} :
      {A : Type ℓ} → List A → (A → Exec E S (Unit {0})) → Exec E S (Unit {0})
  for_each [] body = pure tt
  for_each (x ∷ xs) body = body x >> for_each xs body

module _ {ℓ κ} {E S : Type 0} {A : Type ℓ} {B : Type κ} where
  continue-eq-ok :
      (r : Result E A) (f : A → Exec E S B) (s : S) (b : B)
      → (continue r f s).0 ≡ ok b
      → (a : A) × (r ≡ ok a) × (continue r f s ≡ f a s)
  continue-eq-ok (ok a) f s b h = (a, refl, refl)
  continue-eq-ok (err e) f s b h = cc

  -- A block that returns has run its first action, and then the rest in the state that this left.
  pub bind-eq-ok :
      (m : Exec E S A) (f : A → Exec E S B) (s : S) (b : B)
      → ((m >>= f) s).0 ≡ ok b
      → (a : A) × ((m s).0 ≡ ok a) × ((m >>= f) s ≡ f a (m s).1)
  bind-eq-ok m f s b h = continue-eq-ok (m s).0 f (m s).1 b h

-- What holds of both branches of an `if` holds of the `if`.
pub if_both {ℓ} :
    {E S : Type 0} {A : Type ℓ} (P : Result E A × S → Type 0) (b : Bool) (m n : Exec E S A) (s : S)
    → P (m s)
    → P (n s)
    → P ((if b then m else n) s)
if_both P true m n s h k = h
if_both P false m n s h k = k
