-- ===== src/Cinp/Uri.antt =====
-- The class `URI` of src/contractor/contractor/cinp/common.py. Its regular expression is
-- deterministic, and is written out as the walk over the characters that it describes; the root path
-- stands for itself in it.
pub mod Reading
pub mod RoundTrip
use mathlib.Core.Option
use disks.Cinp.Words.{Text, is_nil, join_text, split_text, strip_prefix, strip_text}
use disks.Prelude.{
  Bool, List, Option, [], false, if◌then◌else◌, leb, length, ltb, nat_key, none, not, option_key,
  some, string_key, true, ℕ, ◌&&◌, ◌++◌, ◌==◌, ◌||◌, ◌∷◌,
}
use disks.Prelude.Exec.{Result, and_then, err, ok}

abbrev between : ℕ → ℕ → ℕ → Bool
between lo hi c = leb lo c && leb c hi

-- [a-zA-Z0-9\-_.!~*]
unfoldable pub is_word : ℕ → Bool
is_word c =
    between b'a' b'z' c
    || between b'A' b'Z' c
    || between b'0' b'9' c
    || c == b'-'
    || c == b'_'
    || c == b'.'
    || c == b'!'
    || c == b'~'
    || c == b'*'

-- [a-zA-Z0-9\-_.!~*\']
unfoldable pub is_id : ℕ → Bool
is_id c = is_word c || c == b'\''

-- `([..]+/)*` and `([..]+)?`: the names that are closed by a slash, the one that is not, and the rest
unfoldable pub read_names : List Text → Text → Text → List Text × Text × Text
read_names closed name [] = (closed, name, [])
read_names closed name (c ∷ s) =
    let longer = read_names closed (name ++ c ∷ []) s in
    let next = read_names (closed ++ name ∷ []) [] s in
    if is_word c
    then longer
    else if c == b'/' && not (is_nil name)
    then next
    else (closed, name, c ∷ s)

-- `([..]*:)*` behind a colon: the text up to the last colon, and the rest
unfoldable pub read_ids : Text → Text → Text → Option (Text × Text)
read_ids closed id [] = if is_nil id then some (closed, []) else none
read_ids closed id (c ∷ s) =
    let longer = read_ids closed (id ++ c ∷ []) s in
    let next = read_ids (closed ++ id ++ c ∷ []) [] s in
    if is_id c
    then longer
    else if c == b':'
    then next
    else if is_nil id
    then some (closed, c ∷ s)
    else none

-- `$`, which may stand before a line feed at the end
abbrev pub at_end : Text → Bool
at_end [] = true
at_end (c ∷ []) = c == b'\n'
at_end (c ∷ d ∷ s) = false

-- the rest of `(\([..]+\))?$` behind its parenthesis: the text inside of the parentheses
unfoldable pub read_action : Text → Text → Option Text
read_action action [] = none
read_action action (c ∷ s) =
    let longer = read_action (action ++ c ∷ []) s in
    if is_word c
    then longer
    else if c == b')' && not (is_nil action) && at_end s
    then some action
    else none

-- `uri_match.groups()` behind the root: `rec_id` with its colons, `action` without its parentheses
pub record Groups : Type 0 where
  pub names : List Text
  pub model : Option Text
  pub rec_id : Option Text
  pub action : Option Text

abbrev pub none_if_nil : Text → Option Text
none_if_nil [] = none
none_if_nil (c ∷ s) = some (c ∷ s)

-- the action and the end
unfoldable pub match_action : List Text → Text → Option Text → Text → Option Groups
match_action names model rec_id [] =
    some (record { names = names; model = none_if_nil model; rec_id = rec_id; action = none })
match_action names model rec_id (c ∷ s) =
    if c == b'('
    then elim (read_action [] s) [
      | none ↦ none
      | some action ↦ some (record {
        names = names;
        model = none_if_nil model;
        rec_id = rec_id;
        action = some action;
      })
    ]
    else if at_end (c ∷ s)
    then some (record { names = names; model = none_if_nil model; rec_id = rec_id; action = none })
    else none

-- the ids, where a colon follows
unfoldable pub match_ids : List Text → Text → Text → Option Groups
match_ids names model [] = match_action names model none []
match_ids names model (c ∷ s) =
    if c == b':'
    then elim (read_ids (b':' ∷ []) [] s) [
      | none ↦ none
      | some found ↦ match_action names model (some found.0) found.1
    ]
    else match_action names model none (c ∷ s)

unfoldable pub match_rest : Text → Option Groups
match_rest s = let (names, model, rest) = read_names [] [] s in match_ids names model rest

-- the match behind a root, where the text starts with it
abbrev pub and_match : Option Text → Option Groups
and_match none = none
and_match (some s) = match_rest s

-- `self.uri_regex.match( uri )`: the root path first, a slash else. The flag is `root == self.root_path`:
-- where the root path is a slash, the first alternative takes it.
unfoldable pub match_uri : Text → Text → Option (Bool × Groups)
match_uri root_path uri = elim (and_match (strip_prefix root_path uri)) [
  | some groups ↦ some (true, groups)
  | none ↦ Option.map (λ groups. (false, groups)) (and_match (strip_prefix (b'/' ∷ []) uri))
]

pub data UriError : Type 0 where
  unable_to_parse not_in_root no_id : UriError

-- The result of `split`.
pub record Parts : Type 0 where
  pub namespace : List Text
  pub model : Option Text
  pub action : Option Text
  pub id_list : Option (List Text)
  pub multi : Bool

-- `rec_id.strip( ':' ).split( ':' )`
abbrev pub ids_of : Text → List Text
ids_of rec_id = split_text b':' (strip_text b':' rec_id)

abbrev pub parts_of : Groups → Parts
parts_of g = record {
  namespace = g.names;
  model = g.model;
  action = g.action;
  id_list = Option.map ids_of g.rec_id;
  multi = elim g.rec_id [ none ↦ false | some rec_id ↦ ltb 1 (length (ids_of rec_id)) ];
}

unfoldable pub split : Text → Text → Bool → Result UriError Parts
split root_path uri root_optional = elim (match_uri root_path uri) [
  | none ↦ err unable_to_parse
  | some found ↦ if not found.0 && not root_optional then err not_in_root else ok (parts_of found.1)
]

-- `'{0}{1}/'.format( result, '/'.join( namespace ) )`, for a namespace that is not empty
unfoldable pub build_namespace : Text → List Text → Text
build_namespace result [] = result
build_namespace result (n ∷ ns) = result ++ join_text b'/' (n ∷ ns) ++ b'/' ∷ []

unfoldable pub build_ids : Text → Option (List Text) → Text
build_ids result none = result
build_ids result (some []) = result
build_ids result (some (i ∷ is)) = result ++ b':' ∷ join_text b':' (i ∷ is) ++ b':' ∷ []

unfoldable pub build_action : Text → Option Text → Text
build_action result none = result
build_action result (some action) = result ++ b'(' ∷ action ++ b')' ∷ []

-- A namespace or an id that is no list is the list of itself here; no namespace is the empty one.
unfoldable pub build :
    Text → (namespace : List Text) → (model action : Option Text) → Option (List Text) → Bool → Text
build root_path namespace model action id_list in_root =
    let base = build_namespace (if in_root then root_path else b'/' ∷ []) namespace in
    elim model [ none ↦ base | some name ↦ build_action (build_ids (base ++ name) id_list) action ]

-- the ids of one match, before those of the rest
abbrev pub add_ids : Option Text → Result UriError (List Text) → Result UriError (List Text)
add_ids none rest = err no_id
add_ids (some rec_id) rest = and_then rest λ ids. ok (ids_of rec_id ++ ids)

-- `extractIds` of a list
unfoldable pub extract_ids : Text → List Text → Result UriError (List Text)
extract_ids root_path [] = ok []
extract_ids root_path (uri ∷ uris) =
    let rest = extract_ids root_path uris in
    elim (match_uri root_path uri) [
      | none ↦ err unable_to_parse
      | some found ↦ add_ids found.1.rec_id rest
    ]
