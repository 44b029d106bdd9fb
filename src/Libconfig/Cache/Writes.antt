-- ===== src/Libconfig/Cache/Writes.antt =====
-- What the statements on the cache do to the rows of one name.
use disks.Cinp.Check.{is_given}
use disks.Cinp.Json.{Json}
use disks.Filesystem.Samples.{start}
use disks.Libconfig.Cache.{CacheRow, Codec, cached_from, update_rows, write_row}
use disks.Prelude.{
  All, Bool, Bool-cases, List, String, [], ap, arith, false, if◌then◌else◌, inl, inr, nat_key,
  option_key, refl, some, string_key, sym, true, ◌++◌, ◌==◌, ◌||◌, ◌∙◌, ◌∷◌, ◌≡◌,
}
use disks.Prelude.Dict.{Dict, has_key, insert, lookup, lookup-insert, same_refl}

-- whether there is a row of the name
abbrev pub named : String → List CacheRow → Bool
named n [] = false
named n (row ∷ rows) = row.name == n || named n rows

-- Each row of the name stores the value.
abbrev pub Stores : String → String → List CacheRow → Type 0
Stores n v = All (λ row. (row.name == n) ≡ true → row.stored ≡ v)

pub has_key-lookup : (n : String) (d : Dict String Json) → has_key n d ≡ is_given (lookup n d)
unfolding has_key lookup
has_key-lookup n [] = refl
has_key-lookup n ((m, j) ∷ d) = ground (arith, has_key-lookup n d)

-- The dict of the rows has the name where it had it before, or a row has it.
pub cached_from-named :
    (k : Codec) (n : String) (known : Dict String Json) (rows : List CacheRow)
    → is_given (lookup n (cached_from k known rows)) ≡ (is_given (lookup n known) || named n rows)
unfolding cached_from
cached_from-named k n known [] = ground arith
cached_from-named k n known (row ∷ rows) =
    cached_from-named k n (insert row.name (k.decode row.stored) known) rows
    ∙ ground (arith, lookup-insert row.name n (k.decode row.stored) known)

cached_from-keeps :
    (k : Codec) (n v : String) (known : Dict String Json) (rows : List CacheRow)
    → Stores n v rows
    → lookup n known ≡ some (k.decode v)
    → lookup n (cached_from k known rows) ≡ some (k.decode v)
unfolding cached_from
cached_from-keeps k n v known [] h start = start
cached_from-keeps k n v known (row ∷ rows) h start =
    cached_from-keeps k n v (insert row.name (k.decode row.stored) known) rows h.1
      (lookup-insert row.name n (k.decode row.stored) known ∙ go (row.name == n) h.0)
  where
    go :
        (b : Bool)
        → (b ≡ true → row.stored ≡ v)
        → (if b then some (k.decode row.stored) else lookup n known) ≡ some (k.decode v)
    go true same = ap (λ w. some (k.decode w)) (same refl)
    go false same = start

-- The dict of the rows has the value that all rows of the name store.
pub cached_from-Stores :
    (k : Codec) (n v : String) (known : Dict String Json) (rows : List CacheRow)
    → Stores n v rows
    → named n rows ≡ true
    → lookup n (cached_from k known rows) ≡ some (k.decode v)
unfolding cached_from
cached_from-Stores k n v known [] h there = cc
cached_from-Stores k n v known (row ∷ rows) h there = elim (Bool-cases (row.name == n)) [
  | inl e ↦ cached_from-keeps k n v (insert row.name (k.decode row.stored) known) rows h.1 (
      lookup-insert row.name n (k.decode row.stored) known
      ∙ rw e (ap (λ w. some (k.decode w)) (h.0 e)))
  | inr e ↦
      cached_from-Stores k n v (insert row.name (k.decode row.stored) known) rows h.1
        (behind (row.name == n) (named n rows) e there)
]
  where
    behind : (a b : Bool) → a ≡ false → (a || b) ≡ true → b ≡ true
    behind a b h k = ground arith

pub unnamed-Stores : (n v : String) (rows : List CacheRow) → named n rows ≡ false → Stores n v rows
unnamed-Stores n v [] h = tt
unnamed-Stores n v (row ∷ rows) h = (
  λ e. cc (sym (first (row.name == n) (named n rows) h) ∙ e),
  unnamed-Stores n v rows (others (row.name == n) (named n rows) h),
)
  where
    first : (a b : Bool) → (a || b) ≡ false → a ≡ false
    first a b h = ground arith

    others : (a b : Bool) → (a || b) ≡ false → b ≡ false
    others a b h = ground arith

-- A write for any name keeps what holds of a name, if it stores the same for that one.
module _ (n v m w : String) (same : (m == n) ≡ true → w ≡ v) where
  update_rows-Stores : (rows : List CacheRow) → Stores n v rows → Stores n v (update_rows m w rows)
  unfolding update_rows
  update_rows-Stores [] h = tt
  update_rows-Stores (row ∷ rows) h = (go (row.name == m) refl, update_rows-Stores rows h.1)
    where
      changed : Bool → CacheRow
      changed b = if b then record { name = row.name; stored = w } else row

      go :
          (b : Bool) → (row.name == m) ≡ b → ((changed b).name == n) ≡ true → (changed b).stored ≡ v
      go true e k = same (
          ground (
            arith,
            string_key.same_iff row.name m,
            string_key.same_iff row.name n,
            string_key.same_iff m n,
          ))
      go false e k = h.0 k

  append-Stores :
      (rows : List CacheRow)
      → Stores n v rows
      → Stores n v (rows ++ record { name = m; stored = w } ∷ [])
  append-Stores [] h = (same, tt)
  append-Stores (row ∷ rows) h = (h.0, append-Stores rows h.1)

  pub write_row-Stores :
      (known : Bool) (rows : List CacheRow)
      → Stores n v rows
      → Stores n v (write_row known m w rows)
  unfolding write_row
  write_row-Stores true rows h = update_rows-Stores rows h
  write_row-Stores false rows h = append-Stores rows h

update_rows-named :
    (n m w : String) (rows : List CacheRow) → named n (update_rows m w rows) ≡ named n rows
unfolding update_rows
update_rows-named n m w [] = refl
update_rows-named n m w (row ∷ rows) = go (row.name == m) (update_rows-named n m w rows)
  where
    go :
        (b : Bool)
        → named n (update_rows m w rows) ≡ named n rows
        → ((if b then record { name = row.name; stored = w } else row).name == n
            || named n (update_rows m w rows))
          ≡ (row.name == n || named n rows)
    go true ih = ap (λ c. row.name == n || c) ih
    go false ih = ap (λ c. row.name == n || c) ih

append-named :
    (n m w : String) (rows : List CacheRow)
    → named n (rows ++ record { name = m; stored = w } ∷ []) ≡ (named n rows || m == n)
append-named n m w [] = ground arith
append-named n m w (row ∷ rows) = ground (arith, append-named n m w rows)

pub write_row-named :
    (known : Bool) (n m w : String) (rows : List CacheRow)
    → named n rows ≡ true
    → named n (write_row known m w rows) ≡ true
unfolding write_row
write_row-named true n m w rows h = update_rows-named n m w rows ∙ h
write_row-named false n m w rows h = append-named n m w rows ∙ rw h refl

-- The write for the name itself: where it is an update, every row of the name stores the value behind it;
-- where it is an insert, there is a row.
pub update_rows-same : (n v : String) (rows : List CacheRow) → Stores n v (update_rows n v rows)
unfolding update_rows
update_rows-same n v [] = tt
update_rows-same n v (row ∷ rows) = (go (row.name == n) refl, update_rows-same n v rows)
  where
    changed : Bool → CacheRow
    changed b = if b then record { name = row.name; stored = v } else row

    go : (b : Bool) → (row.name == n) ≡ b → ((changed b).name == n) ≡ true → (changed b).stored ≡ v
    go true e k = refl
    go false e k = cc

pub append-same :
    (n v : String) (rows : List CacheRow)
    → named n (rows ++ record { name = n; stored = v } ∷ []) ≡ true
append-same n v rows = append-named n n v rows ∙ rw (same_refl n) (always (named n rows))
  where
    always : (b : Bool) → (b || true) ≡ true
    always b = ground arith
