-- ===== src/Cinp/Client/Proper.antt =====
-- Which requests the operations send, and what `getFilteredObjects` does.
use Prim.Native.String.{count}
use disks.Cinp.Client.{
  CountMap, call, count_map, count_of, create, default_timeout, delete, describe, dict_or_raise,
  get, get_chunks, ids_or_raise, list, list_or_raise, parts_or_raise, texts_of, update,
}
use disks.Cinp.Json.{Items, Json, array, boolean, dict, null, number, pairs, text}
use disks.Cinp.Request.{Cinp, CinpError, Session}
use disks.Cinp.Request.Sent.{AllProper, Keeps-request}
use disks.Cinp.Uri.{Parts, UriError, extract_ids}
use disks.Cinp.Words.{Text}
use disks.Prelude.{
  Bool, List, Option, String, [], length, ltb, nat_key, none, option_key, some, string_key, suc,
  true, zero, ℕ, ◌++◌, ◌+◌, ◌≡◌,
}
use disks.Prelude.Dict.{Dict, lookup}
use disks.Prelude.Exec.{Result, err, ok}
use disks.Prelude.Exec.Keeps.{Keeps, Keeps-bind, Keeps-if, Keeps-pure, keeps_rules}
use disks.Prelude.Int.{ℤ}

module _ (c : Cinp) where
  Keeps-count_of : (o : Option (Option Text)) → Keeps (AllProper c) (count_of c o)
  Keeps-count_of none = record { at = λ s h. h }
  Keeps-count_of (some none) = record { at = λ s h. h }
  Keeps-count_of (some (some t)) = record { at = λ s h. h }

  Keeps-count_map :
      (headers : Dict String (Option Text)) → Keeps (AllProper c) (count_map c headers)
  unfolding count_map
  Keeps-count_map headers =
      Keeps-bind (count_of c (lookup "Position" headers)) _
        (Keeps-count_of (lookup "Position" headers))
        λ position.
          Keeps-bind (count_of c (lookup "Count" headers)) _
            (Keeps-count_of (lookup "Count" headers))
            λ count.
              Keeps-bind (count_of c (lookup "Total" headers)) _
                (Keeps-count_of (lookup "Total" headers))
                λ total. Keeps-pure (record { position = position; count = count; total = total })

  Keeps-dict : (j : Json) (e : CinpError) → Keeps (AllProper c) (dict_or_raise j e)
  Keeps-dict null e = record { at = λ s h. h }
  Keeps-dict (boolean b) e = record { at = λ s h. h }
  Keeps-dict (number n) e = record { at = λ s h. h }
  Keeps-dict (text t) e = record { at = λ s h. h }
  Keeps-dict (array l) e = record { at = λ s h. h }
  Keeps-dict (dict m) e = record { at = λ s h. h }

  Keeps-list_or_raise : (j : Json) (e : CinpError) → Keeps (AllProper c) (list_or_raise j e)
  Keeps-list_or_raise null e = record { at = λ s h. h }
  Keeps-list_or_raise (boolean b) e = record { at = λ s h. h }
  Keeps-list_or_raise (number n) e = record { at = λ s h. h }
  Keeps-list_or_raise (text t) e = record { at = λ s h. h }
  Keeps-list_or_raise (array l) e = record { at = λ s h. h }
  Keeps-list_or_raise (dict m) e = record { at = λ s h. h }

  Keeps-parts : (r : Result UriError Parts) → Keeps (AllProper c) (parts_or_raise r)
  Keeps-parts (ok parts) = record { at = λ s h. h }
  Keeps-parts (err e) = record { at = λ s h. h }

  Keeps-ids : (r : Result UriError (List Text)) → Keeps (AllProper c) (ids_or_raise r)
  Keeps-ids (ok ids) = record { at = λ s h. h }
  Keeps-ids (err e) = record { at = λ s h. h }

ruleset client_rules = (
  keeps_rules, Keeps-request, Keeps-count_map, Keeps-dict, Keeps-list_or_raise, Keeps-parts,
  Keeps-ids,
)

module _ (c : Cinp) where
  pub Keeps-get :
      (uri : Text) (force_multi_mode : Bool) (timeout : ℕ)
      → Keeps (AllProper c) (get c uri force_multi_mode timeout)
  unfolding get
  Keeps-get uri force_multi_mode timeout = search client_rules depth 8

  pub Keeps-describe : (uri : Text) (timeout : ℕ) → Keeps (AllProper c) (describe c uri timeout)
  unfolding describe
  Keeps-describe uri timeout = search client_rules depth 8

  pub Keeps-list :
      (uri : Text) (filter_name : Option Text) (filter_value_map : Json) (position count : ℤ)
      (timeout : ℕ)
      → Keeps (AllProper c) (list c uri filter_name filter_value_map position count timeout)
  unfolding list
  Keeps-list uri filter_name filter_value_map position count timeout = search client_rules depth 12

  pub Keeps-create :
      (uri : Text) (values : Json) (timeout : ℕ) → Keeps (AllProper c) (create c uri values timeout)
  unfolding create
  Keeps-create uri values timeout = search client_rules depth 12

  pub Keeps-update :
      (uri : Text) (values : Json) (force_multi_mode : Bool) (timeout : ℕ)
      → Keeps (AllProper c) (update c uri values force_multi_mode timeout)
  unfolding update
  Keeps-update uri values force_multi_mode timeout = search client_rules depth 12

  pub Keeps-delete : (uri : Text) (timeout : ℕ) → Keeps (AllProper c) (delete c uri timeout)
  unfolding delete
  Keeps-delete uri timeout = search client_rules depth 8

  pub Keeps-call :
      (uri : Text) (args : Json) (force_multi_mode : Bool) (timeout : ℕ)
      → Keeps (AllProper c) (call c uri args force_multi_mode timeout)
  unfolding call
  Keeps-call uri args force_multi_mode timeout = search client_rules depth 12

  pub Keeps-get_chunks :
      (namespace : List Text) (model : Option Text) (ids : List Text) (chunk_size fuel begun : ℕ)
      → Keeps (AllProper c) (get_chunks c namespace model ids chunk_size fuel begun)
  unfolding get_chunks
  Keeps-get_chunks namespace model ids chunk_size zero begun = search client_rules depth 8
  Keeps-get_chunks namespace model ids chunk_size (suc fuel) begun =
      let rest = Keeps-get_chunks namespace model ids chunk_size fuel (begun + chunk_size) in
      Keeps-if (ltb begun (length ids)) _ _
        (Keeps-bind (get c _ true default_timeout) _ (Keeps-get _ true default_timeout) λ found.
          Keeps-bind (get_chunks c namespace model ids chunk_size fuel (begun + chunk_size)) _ rest
            λ others. Keeps-pure (pairs found ++ others))
        (Keeps-pure [])

-- The page that was listed: what came back, its URIs and their ids.
pub record IsPage (c : Cinp) (listed : Result CinpError (Items × CountMap) × Session)
    (ids : List Text) : Type 0 where
  pub found : Items × CountMap
  pub uris : List Text
  pub came : listed.0 ≡ ok found
  pub texts : texts_of found.0 ≡ some uris
  pub extracted : extract_ids c.root_path uris ≡ ok ids
