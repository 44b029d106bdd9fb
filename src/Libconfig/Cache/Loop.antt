-- ===== src/Libconfig/Cache/Loop.antt =====
-- The loop of `updateCacheFromContractor` over the names of the config, and the rows that are deleted.
use disks.Cinp.Json.{Json}
use disks.Libconfig.Cache.{
  CacheError, CacheRow, Codec, Store, keep_rows, key_error, set_cache, write_row, write_value,
}
use disks.Libconfig.Cache.Writes.{
  Stores, append-same, named, update_rows-same, write_row-Stores, write_row-named,
}
use disks.Prelude.{
  Bool, Bool-cases, List, Option, String, [], ap, arith, contains, false, if◌then◌else◌, inl, inr,
  nat_key, none, option_key, refl, some, string_key, sym, true, ◌&&◌, ◌==◌, ◌||◌, ◌∙◌, ◌∷◌, ◌≡◌,
}
use disks.Prelude.Dict.{Dict, has_key, lookup}
use disks.Prelude.Exec.{Result, for_each, ok, or_raise, ◌>>=◌, ◌>>◌}
use mathlib.Core.Path.{subst}

pub keep_rows-Stores :
    (n v : String) (config : Dict String Json) (rows : List CacheRow)
    → Stores n v rows
    → Stores n v (keep_rows config rows)
unfolding keep_rows
keep_rows-Stores n v config [] h = tt
keep_rows-Stores n v config (row ∷ rows) h =
    go (has_key row.name config) (keep_rows-Stores n v config rows h.1)
  where
    go :
        (b : Bool)
        → Stores n v (keep_rows config rows)
        → Stores n v (if b then row ∷ keep_rows config rows else keep_rows config rows)
    go true ih = (h.0, ih)
    go false ih = ih

pub keep_rows-named :
    (n : String) (config : Dict String Json) (rows : List CacheRow)
    → named n (keep_rows config rows) ≡ (named n rows && has_key n config)
unfolding keep_rows
keep_rows-named n config [] = refl
keep_rows-named n config (row ∷ rows) =
    go (row.name == n) (has_key row.name config) refl refl (keep_rows-named n config rows)
  where
    kept : Bool → List CacheRow
    kept b = if b then row ∷ keep_rows config rows else keep_rows config rows

    go :
        (a b : Bool)
        → (row.name == n) ≡ a
        → has_key row.name config ≡ b
        → named n (keep_rows config rows) ≡ (named n rows && has_key n config)
        → named n (kept b) ≡ ((a || named n rows) && has_key n config)
    go true b e d ih =
        let same : has_key n config ≡ b =
          ap (λ m. has_key m config) (sym ((string_key.same_iff row.name n).0 e)) ∙ d in
        rw same (rest b (ih ∙ rw same refl))
      where
        rest :
            (b : Bool)
            → named n (keep_rows config rows) ≡ (named n rows && b)
            → named n (kept b) ≡ (true && b)
        rest true k = rw e refl
        rest false k = k ∙ ground arith
    go false true e d ih = rw e ih
    go false false e d ih = ih

module _ (k : Codec) (config values : Dict String Json) (n : String) (j : Json)
    (there : lookup n config ≡ some j) where
  abbrev pub Done : List CacheRow → Type 0
  Done rows = Stores n (k.encode j) rows × (named n rows ≡ true)

  -- Before the write of the name: it has a row where it will be updated, and none where it will be inserted.
  abbrev pub Ready : Bool → List CacheRow → Type 0
  Ready true rows = named n rows ≡ true
  Ready false rows = Stores n (k.encode j) rows

  same_value_lem :
      (m : String) (i : Json) → lookup m config ≡ some i → (m == n) ≡ true → k.encode i ≡ k.encode j
  same_value_lem m i found e =
      let path : m ≡ n = (string_key.same_iff m n).0 e in
      ap k.encode (some_inj i j (sym found ∙ ap (λ x. lookup x config) path ∙ there))
    where
      some_inj : (a b : Json) → some a ≡ some b → a ≡ b
      some_inj a b h = cc

  Done-write :
      (m : String) (i : Json) (known : Bool) (rows : List CacheRow)
      → lookup m config ≡ some i
      → Done rows
      → Done (write_row known m (k.encode i) rows)
  Done-write m i known rows found (stores, has) = (
    write_row-Stores n (k.encode j) m (k.encode i) (same_value_lem m i found) known rows stores,
    write_row-named known n m (k.encode i) rows has,
  )

  Ready-write :
      (b : Bool) (m : String) (i : Json) (known : Bool) (rows : List CacheRow)
      → lookup m config ≡ some i
      → Ready b rows
      → Ready b (write_row known m (k.encode i) rows)
  Ready-write true m i known rows found h = write_row-named known n m (k.encode i) rows h
  Ready-write false m i known rows found h =
      write_row-Stores n (k.encode j) m (k.encode i) (same_value_lem m i found) known rows h

  Ready-Done :
      (b : Bool) (rows : List CacheRow) → Ready b rows → Done (write_row b n (k.encode j) rows)
  unfolding write_row
  Ready-Done true rows h =
      (update_rows-same n (k.encode j) rows, write_row-named true n n (k.encode j) rows h)
  Ready-Done false rows h = (
    write_row-Stores n (k.encode j) n (k.encode j) (λ e. refl) false rows h,
    append-same n (k.encode j) rows,
  )

  -- one round of the loop that has ended well
  written :
      (m : String) (names : List String) (s : Store)
      → (for_each (m ∷ names) (write_value k config values) s).0 ≡ ok tt
      → (i : Json) × (t : Store) × (lookup m config ≡ some i)
        × (t.value_cache ≡ write_row (has_key m values) m (k.encode i) s.value_cache)
        × (for_each (m ∷ names) (write_value k config values) s
            ≡ for_each names (write_value k config values) t)
  unfolding for_each
  written m names s h = go (lookup m config) refl h
    where
      outcome : Option Json → Result CacheError (Unit {0}) × Store
      outcome o =
          ((or_raise o key_error >>= λ i. set_cache (write_row (has_key m values) m (k.encode i)))
              >> for_each names (write_value k config values))
            s

      go :
          (o : Option Json)
          → lookup m config ≡ o
          → (outcome o).0 ≡ ok tt
          → (i : Json) × (t : Store) × (lookup m config ≡ some i)
            × (t.value_cache ≡ write_row (has_key m values) m (k.encode i) s.value_cache)
            × (outcome o ≡ for_each names (write_value k config values) t)
      go none e h = cc
      go (some i) e h = (i, _, e, refl, refl)

  loop-Done :
      (names : List String) (s : Store)
      → (for_each names (write_value k config values) s).0 ≡ ok tt
      → Done s.value_cache
      → Done (for_each names (write_value k config values) s).1.value_cache
  unfolding for_each
  loop-Done [] s h begun = begun
  loop-Done (m ∷ names) s h begun =
      let first = written m names s h in
      let next =
        subst Done (sym first.3)
          (Done-write m first.0 (has_key m values) s.value_cache first.2 begun) in
      subst (λ r. Done r.1.value_cache) (sym first.4)
        (loop-Done names first.1 (ap (λ r. r.0) (sym first.4) ∙ h) next)

  pub loop-Ready :
      (names : List String) (s : Store)
      → contains names n ≡ true
      → (for_each names (write_value k config values) s).0 ≡ ok tt
      → Ready (has_key n values) s.value_cache
      → Done (for_each names (write_value k config values) s).1.value_cache
  unfolding for_each
  loop-Ready [] s has h begun = cc
  loop-Ready (m ∷ names) s has h begun =
      let first = written m names s h in
      let next_ok = ap (λ r. r.0) (sym first.4) ∙ h in
      subst (λ r. Done r.1.value_cache) (sym first.4)
        (elim (Bool-cases (m == n)) [
          | inl e ↦
              loop-Done names first.1 next_ok (subst Done (sym first.3) (here m first.0 e first.2))
          | inr e ↦ loop-Ready names first.1 (behind (m == n) (contains names n) e has) next_ok (
              subst (Ready (has_key n values)) (sym first.3) (
                Ready-write (has_key n values) m first.0 (has_key m values) s.value_cache first.2
                  begun))
        ])
    where
      behind : (a b : Bool) → a ≡ false → (a || b) ≡ true → b ≡ true
      behind a b h k = ground arith

      here :
          (m : String) (i : Json)
          → (m == n) ≡ true
          → lookup m config ≡ some i
          → Done (write_row (has_key m values) m (k.encode i) s.value_cache)
      here m i e found =
          subst (λ w. Done (write_row (has_key m values) m w s.value_cache))
            (sym (same_value_lem m i found e))
            (subst (λ x. Done (write_row (has_key x values) x (k.encode j) s.value_cache))
              (sym ((string_key.same_iff m n).0 e))
              (Ready-Done (has_key n values) s.value_cache begun))
