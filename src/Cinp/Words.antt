-- ===== src/Cinp/Words.antt =====
-- Texts as lists of code points, for code that walks characters.
use Prim.Native.Char.{code}
use disks.Prelude.{
  All, Bool, List, Option, String, [], ap, arith, false, if◌then◌else◌, nat_key, none, not,
  option_key, refl, some, string_key, sym, true, ℕ, ◌&&◌, ◌++◌, ◌==◌, ◌∙◌, ◌∷◌, ◌≡◌,
}
use disks.Prelude.Dict.{same_refl}
use mathlib.Core.List.{append-nil, append_assoc}

abbrev pub Text : Type 0
Text = List ℕ

-- the code points of a literal
abbrev pub codes : String → Text
codes String.[] = []
codes (String.◌∷◌ c s) = code c ∷ codes s

abbrev pub is_nil {ℓ} : {A : Type ℓ} → List A → Bool
is_nil [] = true
is_nil (x ∷ xs) = false

unfoldable pub same_text : Text → Text → Bool
same_text [] [] = true
same_text (x ∷ xs) (y ∷ ys) = (x == y) && same_text xs ys
same_text _ _ = false

-- `s.lstrip( c )` and `s.rstrip( c )`
unfoldable pub lstrip_text : ℕ → Text → Text
lstrip_text c [] = []
lstrip_text c (x ∷ xs) = let rest = lstrip_text c xs in if x == c then rest else x ∷ xs

unfoldable pub rstrip_text : ℕ → Text → Text
rstrip_text c [] = []
rstrip_text c (x ∷ xs) =
    let rest = rstrip_text c xs in if is_nil rest && (x == c) then [] else x ∷ rest

-- `s.strip( c )`
abbrev pub strip_text : ℕ → Text → Text
strip_text c s = rstrip_text c (lstrip_text c s)

-- `s.split( c )`, with the part that has been begun
unfoldable pub split_text_from : ℕ → Text → Text → List Text
split_text_from c part [] = part ∷ []
split_text_from c part (x ∷ xs) =
    let closed = part ∷ split_text_from c [] xs in
    let longer = split_text_from c (part ++ x ∷ []) xs in if x == c then closed else longer

abbrev pub split_text : ℕ → Text → List Text
split_text c s = split_text_from c [] s

-- `c.join( parts )`
unfoldable pub join_text : ℕ → List Text → Text
join_text c [] = []
join_text c (p ∷ []) = p
join_text c (p ∷ q ∷ parts) = p ++ c ∷ join_text c (q ∷ parts)

-- `s[ len( prefix ): ]` where the text starts with the prefix
unfoldable pub strip_prefix : Text → Text → Option Text
strip_prefix [] s = some s
strip_prefix (p ∷ ps) [] = none
strip_prefix (p ∷ ps) (x ∷ xs) = let rest = strip_prefix ps xs in if x == p then rest else none

-- A text that is not empty, of characters that pass the test.
abbrev pub IsOf : (ℕ → Bool) → Text → Type 0
IsOf p [] = ⊥
IsOf p (x ∷ xs) = (p x ≡ true) × All (λ y. p y ≡ true) xs

pub IsOf-All : (p : ℕ → Bool) (s : Text) → IsOf p s → All (λ y. p y ≡ true) s
IsOf-All p [] h = absurd h
IsOf-All p (x ∷ xs) h = h

pub strip_prefix-append : (p s : Text) → strip_prefix p (p ++ s) ≡ some s
unfolding strip_prefix
strip_prefix-append [] s = refl
strip_prefix-append (x ∷ xs) s = rw (same_refl x) (strip_prefix-append xs s)

abbrev Lacks : ℕ → Text → Type 0
Lacks c = All (λ x. (x == c) ≡ false)

split_text_from-part :
    (c : ℕ) (part w s : Text)
    → Lacks c w
    → split_text_from c part (w ++ s) ≡ split_text_from c (part ++ w) s
unfolding split_text_from
split_text_from-part c part [] s h = rw append-nil refl
split_text_from-part c part (x ∷ w) s h =
    rw (h.0) (split_text_from-part c (part ++ x ∷ []) w s h.1 ∙ rw append_assoc refl)

-- Splitting undoes joining, for parts without the separator.
pub split_text-join_text :
    (c : ℕ) (p : Text) (parts : List Text)
    → Lacks c p
    → All (Lacks c) parts
    → split_text c (join_text c (p ∷ parts)) ≡ p ∷ parts
unfolding join_text split_text_from
split_text-join_text c p [] h hs =
    ap (split_text c) (sym (append-nil p)) ∙ split_text_from-part c [] p [] h
split_text-join_text c p (q ∷ parts) h hs =
    split_text_from-part c [] p (c ∷ join_text c (q ∷ parts)) h
    ∙ rw (same_refl c) (ap (λ l. p ∷ l) (split_text-join_text c q parts hs.0 hs.1))

-- Stripping takes the separators off that were put around.
pub lstrip_text-keeps : (c x : ℕ) (xs : Text) → (x == c) ≡ false → lstrip_text c (x ∷ xs) ≡ x ∷ xs
unfolding lstrip_text
lstrip_text-keeps c x xs h = rw h refl

rstrip_text-behind :
    (c : ℕ) (s t : Text)
    → is_nil (rstrip_text c t) ≡ false
    → rstrip_text c (s ++ t) ≡ s ++ rstrip_text c t
unfolding rstrip_text
rstrip_text-behind c [] t h = refl
rstrip_text-behind c (x ∷ s) t h =
    rw (rstrip_text-behind c s t h) (rw (is_nil-append s (rstrip_text c t) h) refl)
  where
    is_nil-append : (s t : Text) → is_nil t ≡ false → is_nil (s ++ t) ≡ false
    is_nil-append [] t h = h
    is_nil-append (x ∷ s) t h = refl

rstrip_text-one : (c : ℕ) (p : Text) → IsOf (λ x. not (x == c)) p → rstrip_text c (p ++ c ∷ []) ≡ p
unfolding rstrip_text
rstrip_text-one c [] h = absurd h
rstrip_text-one c (x ∷ []) h = ground arith
rstrip_text-one c (x ∷ y ∷ xs) h = rw (rstrip_text-one c (y ∷ xs) h.1) refl

join_text-filled :
    (c : ℕ) (test : ℕ → Bool) (p : Text) (parts : List Text)
    → IsOf test p
    → is_nil (join_text c (p ∷ parts)) ≡ false
unfolding join_text
join_text-filled c test [] parts h = absurd h
join_text-filled c test (x ∷ xs) [] h = refl
join_text-filled c test (x ∷ xs) (q ∷ parts) h = refl

pub rstrip_text-join_text :
    (c : ℕ) (p : Text) (parts : List Text)
    → IsOf (λ x. not (x == c)) p
    → All (IsOf (λ x. not (x == c))) parts
    → rstrip_text c (join_text c (p ∷ parts) ++ c ∷ []) ≡ join_text c (p ∷ parts)
unfolding join_text
rstrip_text-join_text c p [] h hs = rstrip_text-one c p h
rstrip_text-join_text c p (q ∷ parts) h hs =
    let rest = join_text c (q ∷ parts) in
    let stripped = rstrip_text-join_text c q parts hs.0 hs.1 in
    let filled = ap is_nil stripped ∙ join_text-filled c (λ x. not (x == c)) q parts hs.0 in
    ap (rstrip_text c)
      (append_assoc p (c ∷ rest) (c ∷ []) ∙ sym (append_assoc p (c ∷ []) (rest ++ c ∷ [])))
    ∙ rstrip_text-behind c (p ++ c ∷ []) (rest ++ c ∷ []) filled
    ∙ ap (λ t. (p ++ c ∷ []) ++ t) stripped
    ∙ append_assoc p (c ∷ []) rest

abbrev all_of : (ℕ → Bool) → Text → Bool
all_of p [] = true
all_of p (x ∷ xs) = p x && all_of p xs

abbrev pub is_of : (ℕ → Bool) → Text → Bool
is_of p s = not (is_nil s) && all_of p s

both_true : (a b : Bool) → (a && b) ≡ true → (a ≡ true) × (b ≡ true)
both_true a b h = ground arith

all_of-All : (p : ℕ → Bool) (s : Text) → all_of p s ≡ true → All (λ y. p y ≡ true) s
all_of-All p [] h = tt
all_of-All p (x ∷ xs) h =
    let parts = both_true (p x) (all_of p xs) h in (parts.0, all_of-All p xs parts.1)

-- The test of a text that is given.
pub is_of-IsOf : (p : ℕ → Bool) (s : Text) → is_of p s ≡ true → IsOf p s
is_of-IsOf p [] h = cc
is_of-IsOf p (x ∷ xs) h = all_of-All p (x ∷ xs) h
