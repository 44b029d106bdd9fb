-- ===== src/Filesystem/Mount/Order.antt =====
-- The orders in which `mount` and `unmount` take the places.
use text.Mathlib.TextLemmas.{
  append-nil as append-empty, nil-append as empty-append, cons-append as cons-join,
}
use mathlib.Core.List.Perm
use disks.Filesystem.Model.{Mount}
use disks.Filesystem.Mount.{mount_order, unmount_order}
use disks.Prelude.{
  All, All-map, IsSortedBy, IsSortedBy-reverse, List, String, [], ap, arith, by_key, leb, nat_key,
  option_key, refl, sort_by_key-IsSortedBy, sort_with-perm, string_key, sym, true, ℕ, ◌+◌, ◌<>◌,
  ◌∙◌, ◌∷◌, ◌≡◌,
}
use disks.Prelude.Dict.{Dict, keys}
use disks.Prelude.Text.{len}
use mathlib.Core.List.{Perm, reverse_perm}

-- `path` and something behind it
abbrev pub Below : String → String → Type 0
Below path place = (rest : String) × (place ≡ path <> rest)

len-append : (s t : String) → len (s <> t) ≡ len s + len t
unfolding len
len-append String.[] t = omega (arith, ap len (empty-append t))
len-append (String.◌∷◌ c s) t = omega (arith, ap len (cons-join c s t), len-append s t)

-- No item of the list lies over `place`, or is it itself.
abbrev pub NoneOver : String → List String → Type 0
NoneOver place places = All (λ p. Below p place → p ≡ place) places

-- Every place of the list comes before all the places below it.
abbrev pub ParentsFirst : List String → Type 0
ParentsFirst [] = Unit
ParentsFirst (p ∷ ps) = NoneOver p ps × ParentsFirst ps

empty-len : (s : String) → len s ≡ 0 → s ≡ ""
unfolding len
empty-len String.[] h = refl
empty-len (String.◌∷◌ c s) h = absurd (omega (arith, h))

over_longer : (p q : String) → leb (len p) (len q) ≡ true → Below q p → q ≡ p
over_longer p q h (rest, e) =
    let none_left = empty-len rest (ground (arith, len-append q rest, ap len e)) in
    sym (e ∙ ap (λ t. q <> t) none_left ∙ append-empty q)

sorted-ParentsFirst : (ps : List String) → IsSortedBy (by_key len) ps → ParentsFirst ps
sorted-ParentsFirst [] h = tt
sorted-ParentsFirst (p ∷ ps) h =
    (All-map _ _ (λ q le. over_longer p q le) ps h.0, sorted-ParentsFirst ps h.1)

-- The order of `mount` has each place of the dict once, as the dict has it, and has every place
-- before the places below it.
pub mount_order-ParentsFirst {ℓ} :
    {A : Type ℓ} (points : Dict String A)
    → Perm (mount_order points) (keys points) × ParentsFirst (mount_order points)
unfolding mount_order
mount_order-ParentsFirst points = (
  sort_with-perm (by_key len) (keys points),
  sorted-ParentsFirst _ (sort_by_key-IsSortedBy len (keys points)),
)

-- No mount of the list is below another's place that comes before it.
abbrev pub ChildrenFirst : List Mount → Type 0
ChildrenFirst [] = Unit
ChildrenFirst (m ∷ ms) =
    All (λ n. Below m.mount_point n.mount_point → m.mount_point ≡ n.mount_point) ms
    × ChildrenFirst ms

abbrev length_of : Mount → ℕ
length_of m = len m.mount_point

longer-ChildrenFirst :
    (ms : List Mount) → IsSortedBy (λ a b. by_key length_of b a) ms → ChildrenFirst ms
longer-ChildrenFirst [] h = tt
longer-ChildrenFirst (m ∷ ms) h = (
  All-map _ _ (λ n le. over_longer n.mount_point m.mount_point le) ms h.0,
  longer-ChildrenFirst ms h.1,
)

-- The order of `unmount` has every mount of the list once, and has each behind all the mounts below
-- its place.
pub unmount_order-ChildrenFirst :
    (mounts : List Mount)
    → Perm (unmount_order mounts) mounts × ChildrenFirst (unmount_order mounts)
unfolding unmount_order
unmount_order-ChildrenFirst mounts = (
  Perm.trans (reverse_perm _) (sort_with-perm (by_key length_of) mounts),
  longer-ChildrenFirst _
      (IsSortedBy-reverse (by_key length_of) _ (sort_by_key-IsSortedBy length_of mounts)),
)
