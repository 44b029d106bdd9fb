-- ===== src/Cinp/Uri/RoundTrip.antt =====
-- What `split` reads of what `build` has written.
use disks.Cinp.Uri.{
  Groups, Parts, UriError, add_ids, build, build_action, build_ids, build_namespace, extract_ids,
  ids_of, is_id, is_word, match_action, match_ids, match_rest, match_uri, none_if_nil, parts_of,
  read_names, split,
}
use disks.Cinp.Uri.Reading.{
  IsId, IsName, Stops, read_action-word, read_ids-ids, read_names-model, read_names-namespace,
}
use disks.Cinp.Words.{
  IsOf, IsOf-All, Text, is_nil, join_text, lstrip_text, rstrip_text, rstrip_text-join_text,
  split_text, split_text-join_text, strip_prefix-append,
}
use disks.Prelude.{
  All, All-map, Bool, List, Option, [], ap, arith, false, if◌then◌else◌, length, ltb, map, nat_key,
  none, not, option_key, refl, some, string_key, true, ℕ, ◌++◌, ◌==◌, ◌∙◌, ◌∷◌, ◌≡◌,
}
use disks.Prelude.Exec.{Result, ok}
use mathlib.Core.List.{append-nil, append_assoc}

-- What stands behind the model in a URI with ids and an action.
abbrev tail_of : List Text → Option Text → Text
tail_of [] none = []
tail_of [] (some action) = b'(' ∷ action ++ b')' ∷ []
tail_of (i ∷ is) none = b':' ∷ join_text b':' (i ∷ is) ++ b':' ∷ []
tail_of (i ∷ is) (some action) =
    b':' ∷ (join_text b':' (i ∷ is) ++ (b':' ∷ b'(' ∷ (action ++ b')' ∷ [])))

abbrev namespace_text : List Text → Text
namespace_text [] = []
namespace_text (n ∷ ns) = join_text b'/' (n ∷ ns) ++ b'/' ∷ []

build-parts :
    (root : Text) (ns : List Text) (model : Text) (action : Option Text) (ids : List Text)
    → build root ns (some model) action (some ids) true
      ≡ root ++ (namespace_text ns ++ (model ++ tail_of ids action))
unfolding build build_action build_ids build_namespace
build-parts root [] model none [] = simp append-nil
build-parts root [] model none (i ∷ is) = simp append_assoc
build-parts root [] model (some a) [] = simp append_assoc
build-parts root [] model (some a) (i ∷ is) = simp append_assoc
build-parts root (n ∷ ns) model none [] = simp (append_assoc, append-nil)
build-parts root (n ∷ ns) model none (i ∷ is) = simp append_assoc
build-parts root (n ∷ ns) model (some a) [] = simp append_assoc
build-parts root (n ∷ ns) model (some a) (i ∷ is) = simp append_assoc

abbrev pub IsAction : Option Text → Type 0
IsAction none = Unit
IsAction (some action) = IsName action

stops : (ids : List Text) (action : Option Text) → Stops (tail_of ids action)
unfolding is_word
stops [] none = tt
stops [] (some a) = (refl, refl)
stops (i ∷ is) none = (refl, refl)
stops (i ∷ is) (some a) = (refl, refl)

read_names-parts :
    (ns : List Text) (model : Text) (s : Text)
    → All IsName ns
    → All (λ c. is_word c ≡ true) model
    → Stops s
    → read_names [] [] (namespace_text ns ++ (model ++ s)) ≡ (ns, model, s)
read_names-parts [] model s names h stop = read_names-model [] model s h stop
read_names-parts (n ∷ ns) model s names h stop =
    ap (read_names [] []) (append_assoc (join_text b'/' (n ∷ ns)) (b'/' ∷ []) (model ++ s))
    ∙ read_names-namespace [] n ns (model ++ s) names.0 names.1
    ∙ read_names-model (n ∷ ns) model s h stop

-- The ids as the expression finds them.
abbrev rec_id_of : List Text → Option Text
rec_id_of [] = none
rec_id_of (i ∷ is) = some (b':' ∷ join_text b':' (i ∷ is) ++ b':' ∷ [])

match_action-parts :
    (ns : List Text) (model : Text) (rec_id action : Option Text)
    → IsAction action
    → match_action ns model rec_id (tail_of [] action)
      ≡ some (record { names = ns; model = none_if_nil model; rec_id = rec_id; action = action })
unfolding match_action
match_action-parts ns model rec_id none h = refl
match_action-parts ns model rec_id (some []) h = absurd h
match_action-parts ns model rec_id (some (c ∷ w)) h = rw (read_action-word [] (c ∷ w) h refl) refl

match_ids-parts :
    (ns : List Text) (model : Text) (ids : List Text) (action : Option Text)
    → All IsId ids
    → IsAction action
    → match_ids ns model (tail_of ids action)
      ≡ some (record {
        names = ns;
        model = none_if_nil model;
        rec_id = rec_id_of ids;
        action = action;
      })
unfolding match_ids
match_ids-parts ns model [] none hs h = match_action-parts ns model none none h
match_ids-parts ns model [] (some a) hs h = match_action-parts ns model none (some a) h
match_ids-parts ns model (i ∷ is) none hs h =
    rw
      (read_ids-ids (b':' ∷ []) i is [] (IsOf-All is_id i hs.0)
        (All-map _ _ (IsOf-All is_id) is hs.1) tt)
      (match_action-parts ns model _ none h)
match_ids-parts ns model (i ∷ is) (some a) hs h =
    rw
      (read_ids-ids (b':' ∷ []) i is (tail_of [] (some a)) (IsOf-All is_id i hs.0)
        (All-map _ _ (IsOf-All is_id) is hs.1) refl)
      (match_action-parts ns model _ (some a) h)

match_rest-parts :
    (ns : List Text) (model : Text) (ids : List Text) (action : Option Text)
    → All IsName ns
    → All (λ c. is_word c ≡ true) model
    → All IsId ids
    → IsAction action
    → match_rest (namespace_text ns ++ (model ++ tail_of ids action))
      ≡ some (record {
        names = ns;
        model = none_if_nil model;
        rec_id = rec_id_of ids;
        action = action;
      })
unfolding match_rest
match_rest-parts ns model ids action hn hm hi ha =
    rw (read_names-parts ns model (tail_of ids action) hn hm (stops ids action))
      (match_ids-parts ns model ids action hi ha)

id_colon : (c : ℕ) → is_id c ≡ true → not (c == b':') ≡ true
unfolding is_id is_word
id_colon c h = ground arith

IsId-colon : (i : Text) → IsId i → IsOf (λ x. not (x == b':')) i
IsId-colon [] h = absurd h
IsId-colon (c ∷ w) h = (id_colon c h.0, All-map _ _ id_colon w h.1)

lacks_colon : (i : Text) → IsId i → All (λ x. (x == b':') ≡ false) i
lacks_colon i h = All-map _ _ (λ c k. not_colon c (id_colon c k)) i (IsOf-All is_id i h)
  where
    not_colon : (c : ℕ) → not (c == b':') ≡ true → (c == b':') ≡ false
    not_colon c h = ground arith

lstrip_colon :
    (i : Text) (is : List Text)
    → IsId i
    → lstrip_text b':' (b':' ∷ join_text b':' (i ∷ is) ++ b':' ∷ [])
      ≡ join_text b':' (i ∷ is) ++ b':' ∷ []
unfolding join_text lstrip_text
lstrip_colon [] is h = absurd h
lstrip_colon (c ∷ w) [] h = rw ((lacks_colon (c ∷ w) h).0) refl
lstrip_colon (c ∷ w) (j ∷ is) h = rw ((lacks_colon (c ∷ w) h).0) refl

-- The ids are read back from the colons around them.
ids_of-join :
    (i : Text) (is : List Text)
    → IsId i
    → All IsId is
    → ids_of (b':' ∷ join_text b':' (i ∷ is) ++ b':' ∷ []) ≡ i ∷ is
ids_of-join [] is h hs = absurd h
ids_of-join (c ∷ w) is h hs =
    let inner = join_text b':' ((c ∷ w) ∷ is) in
    let colons = All-map _ _ IsId-colon is hs in
    ap (λ t. split_text b':' (rstrip_text b':' t)) (lstrip_colon (c ∷ w) is h)
    ∙ ap (split_text b':') (rstrip_text-join_text b':' (c ∷ w) is (IsId-colon (c ∷ w) h) colons)
    ∙ split_text-join_text b':' (c ∷ w) is (lacks_colon (c ∷ w) h) (All-map _ _ lacks_colon is hs)

match_uri-root :
    (root s : Text) (g : Groups)
    → match_rest s ≡ some g
    → match_uri root (root ++ s) ≡ some (true, g)
unfolding match_uri
match_uri-root root s g h = rw (strip_prefix-append root s, match_uri) (rw h refl)

match_uri-build :
    (root : Text) (ns : List Text) (model : Text) (action : Option Text) (ids : List Text)
    → All IsName ns
    → IsName model
    → All IsId ids
    → IsAction action
    → match_uri root (build root ns (some model) action (some ids) true)
      ≡ some (
        true,
        record { names = ns; model = none_if_nil model; rec_id = rec_id_of ids; action = action },
      )
match_uri-build root ns model action ids hn hm hi ha =
    let matched = match_rest-parts ns model ids action hn (IsOf-All is_word model hm) hi ha in
    ap (match_uri root) (build-parts root ns model action ids) ∙ match_uri-root root _ _ matched

split-found :
    (root uri : Text) (root_optional : Bool) (g : Groups)
    → match_uri root uri ≡ some (true, g)
    → split root uri root_optional ≡ ok (parts_of g)
unfolding split
split-found root uri root_optional g h = rw (h, split) refl

-- `split` gives back what `build` was given, in the root path: the namespace, the model, the action and
-- the ids, and whether there are several. No id at all comes back as no list of ids. The names and the
-- ids are not empty and have the characters that the expression allows.
pub split-build :
    (root : Text) (root_optional : Bool) (ns : List Text) (model : Text) (action : Option Text)
    (ids : List Text)
    → All IsName ns
    → IsName model
    → All IsId ids
    → IsAction action
    → split root (build root ns (some model) action (some ids) true) root_optional
      ≡ ok (record {
        namespace = ns;
        model = some model;
        action = action;
        id_list = if is_nil ids then none else some ids;
        multi = ltb 1 (length ids);
      })
split-build root root_optional ns model action ids hn hm hi ha =
    split-found root _ root_optional _ (match_uri-build root ns model action ids hn hm hi ha)
    ∙ read model ids hm hi
  where
    read :
        (model : Text) (ids : List Text)
        → IsName model
        → All IsId ids
        → ◌≡◌ {A = Result UriError Parts}
            (ok (
              parts_of (record {
                names = ns;
                model = none_if_nil model;
                rec_id = rec_id_of ids;
                action = action;
              })))
            (ok (record {
              namespace = ns;
              model = some model;
              action = action;
              id_list = if is_nil ids then none else some ids;
              multi = ltb 1 (length ids);
            }))
    read [] ids hm hi = absurd hm
    read (c ∷ w) [] hm hi = refl
    read (c ∷ w) (i ∷ is) hm hi = rw (ids_of-join i is hi.0 hi.1) refl

abbrev pub HasIds : List Text → Type 0
HasIds [] = ⊥
HasIds (i ∷ is) = IsId i × All IsId is

abbrev pub flatten : List (List Text) → List Text
flatten [] = []
flatten (ids ∷ idss) = ids ++ flatten idss

extract_ids-found :
    (root uri : Text) (uris : List Text) (found : Bool × Groups)
    → match_uri root uri ≡ some found
    → extract_ids root (uri ∷ uris) ≡ add_ids found.1.rec_id (extract_ids root uris)
unfolding extract_ids
extract_ids-found root uri uris found h = rw (h, extract_ids) refl

-- `extract_ids` of the URIs that `build` makes of several lists of ids for one model gives these ids
-- back, in their order. No list is empty.
pub extract_ids-build :
    (root : Text) (ns : List Text) (model : Text) (idss : List (List Text))
    → All IsName ns
    → IsName model
    → All HasIds idss
    → extract_ids root (map (λ ids. build root ns (some model) none (some ids) true) idss)
      ≡ ok (flatten idss)
unfolding extract_ids
extract_ids-build root ns model [] hn hm hi = refl
extract_ids-build root ns model ([] ∷ idss) hn hm hi = absurd hi.0
extract_ids-build root ns model ((i ∷ is) ∷ idss) hn hm hi =
    let made = map (λ ids. build root ns (some model) none (some ids) true) idss in
    extract_ids-found root _ made _ (match_uri-build root ns model none (i ∷ is) hn hm hi.0 tt)
    ∙ rw (extract_ids-build root ns model idss hn hm hi.1)
        (rw (ids_of-join i is hi.0.0 hi.0.1) refl)
