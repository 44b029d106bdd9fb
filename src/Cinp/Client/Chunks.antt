-- ===== src/Cinp/Client/Chunks.antt =====
-- The blocks in which `getMulti` gets its objects.
use disks.Cinp.Client.{default_timeout, get, get_chunks, get_multi}
use disks.Cinp.Json.{Json, pairs}
use disks.Cinp.Request.{Action, Cinp, Session}
use disks.Cinp.Uri.{Parts, build, split}
use disks.Cinp.Uri.RoundTrip.{flatten}
use disks.Cinp.Words.{Text}
use disks.Prelude.{
  All, Bool-cases, List, Option, [], ap, arith, drop, false, inl, inr, length, ltb, nat_key, none,
  option_key, refl, some, string_key, suc, sym, take, true, zero, ℕ, ◌++◌, ◌+◌, ◌<◌, ◌∙◌, ◌∷◌, ◌≡◌,
  ◌≤◌,
}
use disks.Prelude.Exec.{ok, pure, ◌>>=◌}

-- The list cut into blocks that are not empty and not longer than the size.
abbrev pub InChunks : ℕ → List Text → List (List Text) → Type 0
InChunks size ids blocks =
    (flatten blocks ≡ ids) × All (λ block. (0 < length block) × (length block ≤ size)) blocks

-- One GET for each block, in their order, and the objects of all of them.
unfoldable pub get_each :
    Cinp → List Text → Option Text → List (List Text) → Action (List (Text × Json))
get_each c namespace model [] = pure []
get_each c namespace model (block ∷ blocks) =
    get c (build c.root_path namespace model none (some block) true) true default_timeout
    >>= λ found. get_each c namespace model blocks >>= λ others. pure (pairs found ++ others)

from_zero : (k : ℕ) → k ≡ 0 + k
from_zero k = omega arith

from_suc : (n k : ℕ) → suc (n + k) ≡ suc n + k
from_suc n k = omega arith

module _ {ℓ} {A : Type ℓ} where
  take-drop : (n : ℕ) (l : List A) → take n l ++ drop n l ≡ l
  unfolding take drop
  take-drop zero l = refl
  take-drop (suc n) [] = refl
  take-drop (suc n) (x ∷ l) = ap (λ r. x ∷ r) (take-drop n l)

  drop-nil : (n : ℕ) → ◌≡◌ {A = List A} (drop n []) []
  unfolding drop
  drop-nil zero = refl
  drop-nil (suc n) = refl

  drop-drop : (n k : ℕ) (l : List A) → drop k (drop n l) ≡ drop (n + k) l
  unfolding drop
  drop-drop n k [] = ap (drop k) (drop-nil n) ∙ drop-nil k ∙ sym (drop-nil (n + k))
  drop-drop zero k (x ∷ l) = ap (λ m. drop m (x ∷ l)) (from_zero k)
  drop-drop (suc n) k (x ∷ l) = drop-drop n k l ∙ ap (λ m. drop m (x ∷ l)) (from_suc n k)

  drop-all : (n : ℕ) (l : List A) → length l ≤ n → drop n l ≡ []
  unfolding drop
  drop-all zero [] h = refl
  drop-all zero (x ∷ l) h = absurd (omega (arith, h))
  drop-all (suc n) [] h = refl
  drop-all (suc n) (x ∷ l) h = drop-all n l (omega (arith, h))

  drop-some : (n : ℕ) (l : List A) → n < length l → 0 < length (drop n l)
  unfolding drop
  drop-some zero l h = h
  drop-some (suc n) [] h = absurd (omega (arith, h))
  drop-some (suc n) (x ∷ l) h = drop-some n l (omega (arith, h))

  length-take : (n : ℕ) (l : List A) → length (take n l) ≤ n
  unfolding take
  length-take zero l = omega arith
  length-take (suc n) [] = omega arith
  length-take (suc n) (x ∷ l) = omega (arith, length-take n l)

  take-some : (n : ℕ) (l : List A) → 0 < n → 0 < length l → 0 < length (take n l)
  unfolding take
  take-some zero l h k = h
  take-some (suc n) [] h k = k
  take-some (suc n) (x ∷ l) h k = omega arith

  block_lem : (n k : ℕ) (l : List A) → take k (drop n l) ++ drop (n + k) l ≡ drop n l
  block_lem n k l =
      ap (λ r. take k (drop n l) ++ r) (sym (drop-drop n k l)) ∙ take-drop k (drop n l)

get_chunks-InChunks :
    (c : Cinp) (namespace : List Text) (model : Option Text) (ids : List Text) (size fuel begun : ℕ)
    → 1 ≤ size
    → length ids ≤ begun + fuel
    → (blocks : List (List Text)) × InChunks size (drop begun ids) blocks
      × (get_chunks c namespace model ids size fuel begun ≡ get_each c namespace model blocks)
unfolding get_chunks get_each
get_chunks-InChunks c namespace model ids size zero begun one enough = (
  [],
  (sym (drop-all begun ids (omega (arith, enough))), tt),
  rw (over begun (length ids) (omega (arith, enough))) refl,
)
  where
    over : (n m : ℕ) → m ≤ n → ltb n m ≡ false
    over n m h = ground arith
get_chunks-InChunks c namespace model ids size (suc fuel) begun one enough =
    let later =
      get_chunks-InChunks c namespace model ids size fuel (begun + size) one
        (omega (arith, one, enough)) in
    elim (Bool-cases (ltb begun (length ids))) [
      | inl more ↦ (
        take size (drop begun ids) ∷ later.0,
        (
          ap (λ l. take size (drop begun ids) ++ l) later.1.0 ∙ block_lem begun size ids,
          (
            (
              take-some size (drop begun ids) one
                  (drop-some begun ids (below begun (length ids) more)),
              length-take size (drop begun ids),
            ),
            later.1.1,
          ),
        ),
        rw more (
            ap
              (λ rest.
                get c
                  (build c.root_path namespace model none (some (take size (drop begun ids))) true)
                  true default_timeout
                >>= λ found. rest >>= λ others. pure (pairs found ++ others))
              later.2),
      )
      | inr done ↦
          ([], (sym (drop-all begun ids (leb_of begun (length ids) done)), tt), rw done refl)
    ]
  where
    below : (n m : ℕ) → ltb n m ≡ true → n < m
    below n m h = ground arith

    leb_of : (n m : ℕ) → ltb n m ≡ false → m ≤ n
    leb_of n m h = ground arith

-- `getMulti` ends, for every list of ids, every block size from 1 on and whatever the server answers:
-- it does one GET for each of some blocks, in their order, and these blocks are the list of ids cut into
-- pieces that are not empty and not longer than the block size. The URI is one that can be taken apart.
pub get_multi-InChunks :
    (c : Cinp) (uri : Text) (parts : Parts) (ids : List Text) (size : ℕ)
    → split c.root_path uri false ≡ ok parts
    → 1 ≤ size
    → (blocks : List (List Text)) × InChunks size ids blocks
      × ((s : Session)
          → get_multi c uri (some ids) size s ≡ get_each c parts.namespace parts.model blocks s)
unfolding get_multi drop
get_multi-InChunks c uri parts ids size known one =
    let found =
      get_chunks-InChunks c parts.namespace parts.model ids size (length ids) 0 one (omega arith) in
    (found.0, found.1, λ s. rw known (ap (λ act. act s) found.2))
