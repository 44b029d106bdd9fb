-- ===== src/Libconfig/Cache/Fresh.antt =====
-- What the cache holds behind `updateCacheFromContractor`.
use disks.Cinp.Check.{is_given}
use disks.Cinp.Json.{Json}
use disks.Libconfig.Cache.{
  CacheError, CacheRow, Codec, Store, cached_from, get_contractor_values, get_values, keep_rows,
  set_uuid, update_cache, value_or_none, write_value,
}
use disks.Libconfig.Cache.Loop.{Ready, keep_rows-Stores, keep_rows-named, loop-Ready}
use disks.Libconfig.Cache.Writes.{
  cached_from-Stores, cached_from-named, has_key-lookup, named, unnamed-Stores,
}
use disks.Prelude.{
  All, Bool, List, Option, String, [], ap, arith, contains, false, if◌then◌else◌, nat_key, none,
  option_key, refl, some, string_key, sym, true, ◌&&◌, ◌==◌, ◌∙◌, ◌∷◌, ◌≡◌,
}
use disks.Prelude.Dict.{Dict, has_key, keys, lookup, lookup-insert}
use disks.Prelude.Exec.{bind-eq-ok, for_each, ok}
use disks.Prelude.Exec.Keeps.{Keeps, keeps_rules}
use mathlib.Core.Path.{subst}

-- A name that `getValues` does not set itself.
abbrev pub NotOwn : String → Type 0
NotOwn n =
    (("__last_modified__" == n) ≡ false)
    × (("__timestamp__" == n) ≡ false)
    × (("__uuid__" == n) ≡ false)

get_values-cached :
    (k : Codec) (now : Json) (s : Store) (n : String)
    → NotOwn n
    → lookup n (get_values k true now s) ≡ lookup n (cached_from k [] s.value_cache)
unfolding get_values
get_values-cached k now s n (last, time, uuid) =
    lookup-insert "__last_modified__" n s.last_modified _
    ∙ rw last (
        lookup-insert "__timestamp__" n now _
        ∙ rw time (
            lookup-insert "__uuid__" n (value_or_none s.config_uuid)
              (cached_from k [] s.value_cache)
            ∙ rw uuid refl))

-- Nothing of the config is written before the loop.
get_contractor_values-cache :
    (k : Codec) (config : Dict String Json) (rows : List CacheRow)
    → Keeps (λ s. s.value_cache ≡ rows) (get_contractor_values k config)
unfolding get_contractor_values
get_contractor_values-cache k config rows = search (keeps_rules, Keeps-set_uuid) depth 20
  where
    Keeps-set_uuid :
        (uuid : Json) → Keeps {E = CacheError} (λ s. s.value_cache ≡ rows) (set_uuid uuid)
    Keeps-set_uuid uuid = record { at = λ s h. h }

named-has_key :
    (k : Codec) (now : Json) (s : Store) (n : String)
    → NotOwn n
    → has_key n (get_values k true now s) ≡ named n s.value_cache
unfolding lookup
named-has_key k now s n own =
    has_key-lookup n (get_values k true now s)
    ∙ ap is_given (get_values-cached k now s n own)
    ∙ cached_from-named k n [] s.value_cache

keys-lookup :
    (n : String) (config : Dict String Json) → contains (keys config) n ≡ is_given (lookup n config)
unfolding keys lookup
keys-lookup n [] = refl
keys-lookup n ((m, j) ∷ config) = ground (arith, keys-lookup n config)

-- What a run that has ended well has done, from the state that the reading of the config left.
update_cache-steps :
    (k : Codec) (now : Json) (config : Dict String Json) (s : Store)
    → (update_cache k now config s).0 ≡ ok tt
    → (t : Store) × (t.value_cache ≡ s.value_cache)
      × ((for_each (keys config) (write_value k config (get_values k true now t)) t).0 ≡ ok tt)
      × ((update_cache k now config s).1.value_cache
          ≡ keep_rows config
              (for_each
                (keys config)
                (write_value k config (get_values k true now t))
                t).1.value_cache)
unfolding update_cache
update_cache-steps k now config s h =
    let first = bind-eq-ok (get_contractor_values k config) _ s tt h in
    let t = (get_contractor_values k config s).1 in
    let second =
      bind-eq-ok (for_each (keys config) (write_value k config (get_values k true now t))) _ t tt
        (ap (λ r. r.0) (sym first.2) ∙ h) in
    (
      t,
      (get_contractor_values-cache k config s.value_cache).at s refl,
      second.1 ∙ ap ok (unit second.0),
      ap (λ r. r.1.value_cache) (first.2 ∙ second.2),
    )
  where
    unit : (x : Unit {0}) → x ≡ tt
    unit x = refl

Ready-begun :
    (k : Codec) (config values : Dict String Json) (n : String) (j : Json)
    (there : lookup n config ≡ some j) (rows : List CacheRow) (b : Bool)
    → named n rows ≡ b
    → Ready k config values n j there b rows
Ready-begun k config values n j there rows true h = h
Ready-begun k config values n j there rows false h = unnamed-Stores n (k.encode j) rows h

lookup-All :
    (k : Codec) (n : String) (j : Json) (config : Dict String Json)
    → All (λ entry. k.decode (k.encode entry.1) ≡ entry.1) config
    → lookup n config ≡ some j
    → k.decode (k.encode j) ≡ j
unfolding lookup
lookup-All k n j [] h e = cc
lookup-All k n j ((m, i) ∷ config) h e = go (m == n) e (lookup-All k n j config h.1)
  where
    some_inj : (a b : Json) → some a ≡ some b → a ≡ b
    some_inj a b h = cc

    go :
        (b : Bool)
        → (if b then some i else lookup n config) ≡ some j
        → (lookup n config ≡ some j → k.decode (k.encode j) ≡ j)
        → k.decode (k.encode j) ≡ j
    go true e ih = subst (λ x. k.decode (k.encode x) ≡ x) (some_inj i j e) h.0
    go false e ih = ih e

-- Where `updateCacheFromContractor` ends well, `getValues` without the overlay has the config of the
-- contractor afterwards, name by name: each value of the config, whatever the cache had before, and no
-- name that the config has not. The names are those that `getValues` does not set itself, and decoding
-- undoes the encoding of the values of the config.
pub update_cache-lookup :
    (k : Codec) (now later : Json) (config : Dict String Json) (s : Store)
    → All (λ entry. k.decode (k.encode entry.1) ≡ entry.1) config
    → (update_cache k now config s).0 ≡ ok tt
    → (n : String) → NotOwn n
    → lookup n (get_values k true later (update_cache k now config s).1) ≡ lookup n config
unfolding lookup
update_cache-lookup k now later config s undone h n own =
    let steps = update_cache-steps k now config s h in
    get_values-cached k later (update_cache k now config s).1 n own
    ∙ ap (λ rows. lookup n (cached_from k [] rows)) steps.3
    ∙ held steps.0 steps.2 (lookup n config) refl
  where
    looped : Store → List CacheRow
    looped t =
        (for_each (keys config) (write_value k config (get_values k true now t)) t).1.value_cache

    not_given : (o : Option Json) → is_given o ≡ false → o ≡ none
    not_given none h = refl
    not_given (some j) h = cc

    never : (b : Bool) → (b && false) ≡ false
    never b = ground arith

    held :
        (t : Store)
        → (for_each (keys config) (write_value k config (get_values k true now t)) t).0 ≡ ok tt
        → (o : Option Json) → lookup n config ≡ o
        → lookup n (cached_from k [] (keep_rows config (looped t))) ≡ o
    held t good none e = not_given (lookup n (cached_from k [] (keep_rows config (looped t)))) (
        cached_from-named k n [] (keep_rows config (looped t))
        ∙ keep_rows-named n config (looped t)
        ∙ ap (λ b. named n (looped t) && b) (has_key-lookup n config ∙ ap is_given e)
        ∙ never (named n (looped t)))
    held t good (some j) e =
        let done =
          loop-Ready k config (get_values k true now t) n j e (keys config) t
            (keys-lookup n config ∙ ap is_given e) good
            (Ready-begun k config (get_values k true now t) n j e t.value_cache _
              (sym (named-has_key k now t n own))) in
        cached_from-Stores k n (k.encode j) [] (keep_rows config (looped t))
          (keep_rows-Stores n (k.encode j) config (looped t) done.0)
          (keep_rows-named n config (looped t)
            ∙ rw (done.1) (has_key-lookup n config ∙ ap is_given e))
        ∙ ap some (lookup-All k n j config undone e)
