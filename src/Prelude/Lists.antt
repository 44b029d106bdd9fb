-- ===== src/Prelude/Lists.antt =====
-- Lists measured by native numbers, membership tests, and a stable sort by a numeric key.
use Prim.Native.Nat.{ℕ, zero, suc, ◌+◌}
use mathlib.Core.Path.{◌≡◌, sym, subst}
use mathlib.Core.Logic.{inl, inr}
use mathlib.Core.Bool.{Bool, true, false, ◌||◌}
use mathlib.Core.List.Perm
use mathlib.Core.List.{List, [], ◌∷◌, ◌++◌, Perm, reverse, reverse-cons}
use mathlib.Core.Option.{Option, none, some}
use native.Mathlib.Omega.{arith}
use disks.Prelude.Tests.{Key, ◌==◌, leb, if◌then◌else◌, Bool-cases}

module _ {ℓ} {A : Type ℓ} where
  abbrev pub length : List A → ℕ
  length [] = 0
  length (x ∷ xs) = suc (length xs)

  abbrev pub get_elem? : List A → ℕ → Option A
  get_elem? [] i = none
  get_elem? (x ∷ xs) zero = some x
  get_elem? (x ∷ xs) (suc i) = get_elem? xs i

  abbrev pub set : List A → ℕ → A → List A
  set [] i v = []
  set (x ∷ xs) zero v = v ∷ xs
  set (x ∷ xs) (suc i) v = x ∷ set xs i v

  pub length-append : (xs ys : List A) → length (xs ++ ys) ≡ length xs + length ys
  length-append [] ys = omega arith
  length-append (x ∷ xs) ys = omega (arith, length-append xs ys)

  -- `[ i for i in xs if p i ]`
  abbrev pub select : (A → Bool) → List A → List A
  select p [] = []
  select p (x ∷ xs) = let rest = select p xs in if p x then x ∷ rest else rest

-- `a in xs`
module _ {ℓ} {A : Type ℓ} ⦃e : Key A⦄ where
  abbrev pub contains : List A → A → Bool
  contains [] a = false
  contains (x ∷ xs) a = x == a || contains xs a

-- What holds of every item.
abbrev pub All {ℓ κ} : {A : Type ℓ} → (A → Type κ) → List A → Type κ
All P [] = Unit
All P (x ∷ xs) = P x × All P xs

module _ {ℓ κ} {A : Type ℓ} (P : A → Type κ) where
  pub All-append : (xs ys : List A) → All P xs → All P ys → All P (xs ++ ys)
  All-append [] ys h k = k
  All-append (x ∷ xs) ys h k = (h.0, All-append xs ys h.1 k)

  pub All-append_left : (xs ys : List A) → All P (xs ++ ys) → All P xs
  All-append_left [] ys h = tt
  All-append_left (x ∷ xs) ys h = (h.0, All-append_left xs ys h.1)

  pub All-map {ι} : (Q : A → Type ι) → ((a : A) → P a → Q a) → (xs : List A) → All P xs → All Q xs
  All-map Q f [] h = tt
  All-map Q f (x ∷ xs) h = (f x h.0, All-map Q f xs h.1)

-- Python's `sort` and `sorted`, which are stable: an insertion sort that puts an item before the
-- first item that it may stand before, taking the items from the end. `le a b` is `a <= b`.
module _ {ℓ} {A : Type ℓ} (le : A → A → Bool) where
  unfoldable pub insert_with : A → List A → List A
  insert_with a [] = a ∷ []
  insert_with a (x ∷ xs) = let rest = insert_with a xs in if le a x then a ∷ x ∷ xs else x ∷ rest

  unfoldable pub sort_with : List A → List A
  unfolding insert_with
  sort_with [] = []
  sort_with (x ∷ xs) = insert_with x (sort_with xs)

  -- Every item may stand before those behind it.
  abbrev pub IsSortedBy : List A → Type 0
  IsSortedBy [] = Unit
  IsSortedBy (x ∷ xs) = All (λ y. le x y ≡ true) xs × IsSortedBy xs

  insert_with-perm : (a : A) (xs : List A) → Perm (insert_with a xs) (a ∷ xs)
  unfolding insert_with
  insert_with-perm a [] = Perm.refl _
  insert_with-perm a (x ∷ xs) = elim (Bool-cases (le a x)) [
    | inl h ↦ rw h (Perm.refl _)
    | inr h ↦ rw h (Perm.trans (Perm.cons x (insert_with-perm a xs)) (Perm.swap a x xs))
  ]

  pub sort_with-perm : (xs : List A) → Perm (sort_with xs) xs
  unfolding sort_with
  sort_with-perm [] = Perm.refl _
  sort_with-perm (x ∷ xs) =
      Perm.trans (insert_with-perm x (sort_with xs)) (Perm.cons x (sort_with-perm xs))

-- What an order needs for its sort to be sorted.
module _ {ℓ} {A : Type ℓ} (le : A → A → Bool)
    (le_trans : (a b c : A) → le a b ≡ true → le b c ≡ true → le a c ≡ true)
    (le_total : (a b : A) → le a b ≡ false → le b a ≡ true) where
  insert_with-All :
      (k a : A) (xs : List A)
      → le k a ≡ true
      → All (λ y. le k y ≡ true) xs
      → All (λ y. le k y ≡ true) (insert_with le a xs)
  unfolding insert_with
  insert_with-All k a [] h all = (h, tt)
  insert_with-All k a (x ∷ xs) h all = elim (Bool-cases (le a x)) [
    | inl e ↦ rw e (h, (all.0, all.1))
    | inr e ↦ rw e (all.0, insert_with-All k a xs h all.1)
  ]

  insert_with-IsSortedBy :
      (a : A) (xs : List A) → IsSortedBy le xs → IsSortedBy le (insert_with le a xs)
  unfolding insert_with
  insert_with-IsSortedBy a [] h = (tt, tt)
  insert_with-IsSortedBy a (x ∷ xs) h = elim (Bool-cases (le a x)) [
    | inl e ↦ rw e ((e, All-map _ _ (λ y q. le_trans a x y e q) xs h.0), (h.0, h.1))
    | inr e ↦ rw e (insert_with-All x a xs (le_total a x e) h.0, insert_with-IsSortedBy a xs h.1)
  ]

  pub sort_with-IsSortedBy : (xs : List A) → IsSortedBy le (sort_with le xs)
  unfolding sort_with
  sort_with-IsSortedBy [] = tt
  sort_with-IsSortedBy (x ∷ xs) =
      insert_with-IsSortedBy x (sort_with le xs) (sort_with-IsSortedBy xs)

module _ {ℓ κ} {A : Type ℓ} (P : A → Type κ) where
  pub All-reverse : (xs : List A) → All P xs → All P (reverse xs)
  All-reverse [] h = tt
  All-reverse (x ∷ xs) h =
      subst (All P) (sym (reverse-cons x xs))
        (All-append P (reverse xs) (x ∷ []) (All-reverse xs h.1) (h.0, tt))

module _ {ℓ} {A : Type ℓ} (le : A → A → Bool) where
  -- A sorted list is sorted the other way from its end.
  pub IsSortedBy-reverse :
      (xs : List A) → IsSortedBy le xs → IsSortedBy (λ a b. le b a) (reverse xs)
  IsSortedBy-reverse [] h = tt
  IsSortedBy-reverse (x ∷ xs) h =
      subst (IsSortedBy (λ a b. le b a)) (sym (reverse-cons x xs))
        (IsSortedBy-flip (reverse xs) x (IsSortedBy-reverse xs h.1) (All-reverse _ xs h.0))
    where
      IsSortedBy-flip :
          (ys : List A) (a : A)
          → IsSortedBy (λ a b. le b a) ys
          → All (λ y. le a y ≡ true) ys
          → IsSortedBy (λ a b. le b a) (ys ++ a ∷ [])
      IsSortedBy-flip [] a h all = (tt, tt)
      IsSortedBy-flip (y ∷ ys) a h all = (
        All-append (λ z. le z y ≡ true) ys (a ∷ []) h.0 (all.0, tt),
        IsSortedBy-flip ys a h.1 all.1,
      )

-- `sort( key=key )` for a key that is a number
abbrev pub by_key {ℓ} : {A : Type ℓ} → (A → ℕ) → A → A → Bool
by_key key a b = leb (key a) (key b)

pub sort_by_key-IsSortedBy {ℓ} :
    {A : Type ℓ} (key : A → ℕ) (xs : List A) → IsSortedBy (by_key key) (sort_with (by_key key) xs)
sort_by_key-IsSortedBy key =
    sort_with-IsSortedBy (by_key key) (λ a b c p q. ground arith) (λ a b p. ground arith)

-- `l[ :n ]` and `l[ n: ]`
unfoldable pub take {ℓ} : {A : Type ℓ} → ℕ → List A → List A
take zero xs = []
take (suc n) [] = []
take (suc n) (x ∷ xs) = x ∷ take n xs

unfoldable pub drop {ℓ} : {A : Type ℓ} → ℕ → List A → List A
drop zero xs = xs
drop (suc n) [] = []
drop (suc n) (x ∷ xs) = drop n xs
