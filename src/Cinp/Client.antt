-- ===== src/Cinp/Client.antt =====
-- The operations of the client, in src/contractor/contractor/cinp/client.py. A generator stands for the
-- list of what it yields until it ends.
pub mod Chunks
pub mod Proper
use mathlib.Core.Option
use Prim.Native.Char.{code}
use disks.Cinp.Check.{
  bad_position, bad_uri, call_verb, create_verb, delete_verb, describe_verb, get_verb, is_given,
  list_verb, stream, update_verb, upload_verb, upload_with_id, value, values_not_dict,
}
use disks.Cinp.Json.{
  Items, Json, Members, array, dict, end_items, end_members, is_dict, item, member_at, null, pairs,
  text,
}
use disks.Cinp.Request.{
  Action, Cinp, CinpError, HeaderValue, index_error, invalid_request, key_error, no_object_id,
  not_a_dict, not_a_list, of_result, or_else, out_of_fuel, request, response_error, said_number,
  said_text, said_true, type_error, unexpected_code, value_error,
}
use disks.Cinp.Uri.{Parts, UriError, build, extract_ids, split}
use disks.Cinp.Words.{Text, codes}
use disks.Filesystem.Plan.{key}
use disks.Prelude.{
  Bool, List, Option, String, [], drop, false, if◌then◌else◌, length, ltb, nat_key, none, not,
  option_key, some, string_key, suc, take, true, zero, ℕ, ◌++◌, ◌+◌, ◌==◌, ◌||◌, ◌∷◌,
}
use disks.Prelude.Dict.{Dict, lookup}
use disks.Prelude.Exec.{Result, err, ok, or_raise, pure, raise, raise_if, ◌>>=◌, ◌>>◌}
use disks.Prelude.Int.{is_negative, pos, ℤ}

-- `int` of a header, with the value that is kept where it is no number
abbrev pub count_of : Cinp → Option (Option Text) → Action ℤ
count_of c none s = (ok (pos 0), s)
count_of c (some none) s = (err type_error, s)
count_of c (some (some t)) s = (ok (or_else (c.read_int t) (pos 0)), s)

pub record CountMap : Type 0 where
  pub position : ℤ
  pub count : ℤ
  pub total : ℤ

unfoldable pub count_map : Cinp → Dict String (Option Text) → Action CountMap
count_map c headers = do
  position ← count_of c (lookup "Position" headers)
  count ← count_of c (lookup "Count" headers)
  total ← count_of c (lookup "Total" headers)
  pure (record { position = position; count = count; total = total })

-- `isinstance( data, dict )`, `isinstance( data, list )`
abbrev pub dict_or_raise : Json → CinpError → Action Members
dict_or_raise (dict m) e s = (ok m, s)
dict_or_raise _ e s = (err e, s)

abbrev pub list_or_raise : Json → CinpError → Action Items
list_or_raise (array items) e s = (ok items, s)
list_or_raise _ e s = (err e, s)

abbrev pub expect : ℕ → ℕ → Action (Unit {0})
expect code wanted = raise_if (not (code == wanted)) (response_error unexpected_code)

abbrev pub multi_header : Bool → Dict String HeaderValue
multi_header true = ("Multi-Object", said_true) ∷ []
multi_header false = []

unfoldable pub describe : Cinp → Text → (timeout : ℕ) → Action Json
describe c uri timeout = do
  answer ← request c describe_verb uri (value null) [] timeout false
  expect answer.0 200
  pure answer.1

-- `if filter_value_map is None: filter_value_map = {}`
abbrev pub dict_if_null : Json → Json
dict_if_null null = dict end_members
dict_if_null j = j

abbrev pub list_headers : ℤ → ℤ → Option Text → Dict String HeaderValue
list_headers position count none =
    ("Position", said_number position) ∷ ("Count", said_number count) ∷ []
list_headers position count (some filter_name) =
    ("Position", said_number position)
    ∷ ("Count", said_number count)
    ∷ ("Filter", said_text filter_name)
    ∷ []

unfoldable pub list :
    Cinp
    → Text
    → (filter_name : Option Text) → (filter_value_map : Json) → (position count : ℤ) → (timeout : ℕ)
    → Action (Items × CountMap)
list c uri filter_name filter_value_map position count timeout = do
  _ ← raise_if (not (is_dict (dict_if_null filter_value_map))) (invalid_request values_not_dict)
  _ ← raise_if (is_negative position || is_negative count) (invalid_request bad_position)
  answer ←
      request c list_verb uri (value (dict_if_null filter_value_map))
        (list_headers position count filter_name) timeout false
  _ ← expect answer.0 200
  id_list ← list_or_raise answer.1 (response_error not_a_list)
  counts ← count_map c answer.2
  pure (id_list, counts)

unfoldable pub get : Cinp → Text → (force_multi_mode : Bool) → (timeout : ℕ) → Action Members
get c uri force_multi_mode timeout = do
  answer ← request c get_verb uri (value null) (multi_header force_multi_mode) timeout false
  _ ← expect answer.0 200
  dict_or_raise answer.1 (response_error not_a_dict)

unfoldable pub create :
    Cinp → Text → (values : Json) → (timeout : ℕ) → Action (Option Text × Members)
create c uri values timeout = do
  _ ← raise_if (not (is_dict values)) (invalid_request values_not_dict)
  answer ← request c create_verb uri (value values) [] timeout false
  _ ← expect answer.0 201
  rec_values ← dict_or_raise answer.1 (response_error not_a_dict)
  object_id ← or_raise (lookup "Object-Id" answer.2) (response_error no_object_id)
  pure (object_id, rec_values)

unfoldable pub update :
    Cinp → Text → (values : Json) → (force_multi_mode : Bool) → (timeout : ℕ) → Action Members
update c uri values force_multi_mode timeout = do
  _ ← raise_if (not (is_dict values)) (invalid_request values_not_dict)
  answer ← request c update_verb uri (value values) (multi_header force_multi_mode) timeout false
  _ ← expect answer.0 200
  dict_or_raise answer.1 (response_error not_a_dict)

unfoldable pub delete : Cinp → Text → (timeout : ℕ) → Action Bool
delete c uri timeout = do
  answer ← request c delete_verb uri (value null) [] timeout false
  _ ← expect answer.0 200
  pure true

unfoldable pub call :
    Cinp → Text → (args : Json) → (force_multi_mode : Bool) → (timeout : ℕ) → Action Json
call c uri args force_multi_mode timeout = do
  _ ← raise_if (not (is_dict args)) (invalid_request values_not_dict)
  answer ← request c call_verb uri (value args) (multi_header force_multi_mode) timeout false
  _ ← expect answer.0 200
  pure answer.1

-- `self.uri.split`, whose ValueError nobody catches here
abbrev pub parts_or_raise : Result UriError Parts → Action Parts
parts_or_raise (ok parts) s = (ok parts, s)
parts_or_raise (err e) s = (err (value_error e), s)

abbrev pub default_timeout : ℕ
default_timeout = 30

-- The loop of `getMulti`, from `pos`, here begun, on. The fuel bounds its rounds.
unfoldable pub get_chunks :
    Cinp
    → List Text
    → Option Text
    → (id_list : List Text) → (chunk_size fuel begun : ℕ) → Action (List (Text × Json))
get_chunks c namespace model id_list chunk_size zero begun =
    if ltb begun (length id_list) then raise out_of_fuel else pure []
get_chunks c namespace model id_list chunk_size (suc fuel) begun =
    let rest = get_chunks c namespace model id_list chunk_size fuel (begun + chunk_size) in
    let uri =
      build c.root_path namespace model none (some (take chunk_size (drop begun id_list))) true in
    if ltb begun (length id_list)
    then (get c uri true default_timeout >>= λ found.
        rest >>= λ others. pure (pairs found ++ others))
    else pure []

-- `getMulti` of a URI: the ids that are given, or its own
unfoldable pub get_multi :
    Cinp → Text → (id_list : Option (List Text)) → (chunk_size : ℕ) → Action (List (Text × Json))
get_multi c uri id_list chunk_size = do
  parts ← parts_or_raise (split c.root_path uri false)
  ids ← or_raise (elim id_list [ none ↦ parts.id_list | some given ↦ some given ]) type_error
  get_chunks c parts.namespace parts.model ids chunk_size (length ids) 0

-- the ids of the URIs, one after the other
unfoldable pub ids_of_uris : Cinp → List Text → Action (List Text)
ids_of_uris c [] = pure []
ids_of_uris c (uri ∷ uris) = do
  parts ← parts_or_raise (split c.root_path uri false)
  ids ← or_raise parts.id_list type_error
  others ← ids_of_uris c uris
  pure (ids ++ others)

abbrev pub first_of {ℓ} : {A : Type ℓ} → List A → Option A
first_of [] = none
first_of (x ∷ xs) = some x

-- `getMulti` of a list of URIs, whose first one names the model
unfoldable pub get_multi_uris : Cinp → List Text → (chunk_size : ℕ) → Action (List (Text × Json))
get_multi_uris c uris chunk_size = do
  ids ← ids_of_uris c uris
  first ← or_raise (first_of uris) index_error
  parts ← parts_or_raise (split c.root_path first false)
  get_chunks c parts.namespace parts.model ids chunk_size (length ids) 0

-- the URIs of a list that came back
unfoldable pub texts_of : Items → Option (List Text)
texts_of end_items = some []
texts_of (item (text t) items) = Option.map (λ ts. t ∷ ts) (texts_of items)
texts_of (item _ items) = none

abbrev pub ids_or_raise : Result UriError (List Text) → Action (List Text)
ids_or_raise (ok ids) s = (ok ids, s)
ids_or_raise (err e) s = (err (value_error e), s)

-- one page of the filtered list: its ids and its counts
unfoldable pub filtered_page :
    Cinp → Text → Option Text → Json → (position count : ℤ) → Action (List Text × CountMap)
filtered_page c uri filter_name filter_value_map position count = do
  found ← list c uri filter_name filter_value_map position count default_timeout
  uris ← or_raise (texts_of found.0) type_error
  ids ← ids_or_raise (extract_ids c.root_path uris)
  pure (ids, found.1)

-- `getFilteredObjects`, which returns in the first round of its loop
unfoldable pub get_filtered_objects :
    Cinp
    → Text
    → Option Text
    → Json
    → (list_chunk_size : ℤ) → (get_chunk_size : ℕ) → Action (List (Text × Json))
get_filtered_objects c uri filter_name filter_value_map list_chunk_size get_chunk_size = do
  page ← filtered_page c uri filter_name filter_value_map (pos 0) list_chunk_size
  get_multi c uri (some page.0) get_chunk_size

-- `data[ key ]` of what came back
abbrev pub key_or_raise : Text → Json → Action Json
key_or_raise key (dict m) = or_raise (member_at key m) key_error
key_or_raise key _ = raise type_error

-- `uploadFile`, of a file that can be read
unfoldable pub upload_file : Cinp → Text → (filename file : Text) → (timeout : ℕ) → Action Json
upload_file c uri filename file timeout = do
  parts ← of_result (elim (split (b'/' ∷ []) uri false) [
    | ok parts ↦ ok parts
    | err e ↦ err (invalid_request (bad_uri e))
  ])
  _ ← raise_if (is_given parts.action || is_given parts.id_list) (invalid_request upload_with_id)
  answer ←
      request c upload_verb (build (b'/' ∷ []) parts.namespace parts.model none none true)
        (stream file)
        (("Content-Disposition", said_text (codes "inline: filename=\"" ++ filename ++ b'"' ∷ []))
          ∷ ("Content-Length", said_number (pos (length file)))
          ∷ [])
        timeout false
  _ ← expect answer.0 202
  key_or_raise (codes "uri") answer.1
