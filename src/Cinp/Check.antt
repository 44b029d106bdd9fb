-- ===== src/Cinp/Check.antt =====
-- `_checkRequest` of src/contractor/contractor/cinp/client.py.
pub mod Table
use disks.Cinp.Json.{Json, is_dict, is_null}
use disks.Cinp.Uri.{Parts, UriError, split}
use disks.Cinp.Words.{Text}
use disks.Prelude.{
  Bool, List, Option, String, [], false, nat_key, none, not, option_key, some, string_key, true, ℕ,
  ◌&&◌, ◌==◌, ◌||◌, ◌∷◌,
}
use disks.Prelude.Exec.{Result, err, ok}

-- The verbs, and the two that `_request` knows beside those of the protocol.
pub data Verb : Type 0 where
  get_verb list_verb update_verb create_verb delete_verb call_verb describe_verb : Verb
  post_verb upload_verb rawget_verb : Verb
  other_verb : String → Verb

abbrev verb_code : Verb → ℕ
verb_code get_verb = 0
verb_code list_verb = 1
verb_code update_verb = 2
verb_code create_verb = 3
verb_code delete_verb = 4
verb_code call_verb = 5
verb_code describe_verb = 6
verb_code post_verb = 7
verb_code upload_verb = 8
verb_code rawget_verb = 9
verb_code (other_verb name) = 10

-- `verb in ( .. )`, for a tuple of the protocol's verbs
abbrev pub verb_in : Verb → List Verb → Bool
verb_in verb [] = false
verb_in verb (v ∷ verbs) = verb_code verb == verb_code v || verb_in verb verbs

-- What is to be sent: a value, or an object that can be read.
pub data Payload : Type 0 where
  value : Json → Payload
  stream : Text → Payload

abbrev pub is_none : Payload → Bool
is_none (value j) = is_null j
is_none (stream s) = false

abbrev pub is_dict_or_none : Payload → Bool
is_dict_or_none (value j) = is_null j || is_dict j
is_dict_or_none (stream s) = false

-- What an `InvalidRequest` says, one constructor for each `raise`.
pub data Fault : Type 0 where
  invalid_verb data_not_dict verb_with_action requires_action verb_with_id requires_id : Fault
  verb_with_data requires_data requires_model not_readable values_not_dict bad_position : Fault
  upload_with_id : Fault
  bad_uri : UriError → Fault
  said : Json → Fault

abbrev pub is_given {ℓ} : {A : Type ℓ} → Option A → Bool
is_given none = false
is_given (some a) = true

-- `if id_list == []: id_list = None`
abbrev pub none_if_empty : Option (List Text) → Option (List Text)
none_if_empty none = none
none_if_empty (some []) = none
none_if_empty (some (i ∷ is)) = some (i ∷ is)

abbrev pub refuse_if : Bool → Fault → Result Fault (Unit {0}) → Result Fault (Unit {0})
refuse_if true fault rest = err fault
refuse_if false fault rest = rest

-- the checks behind `self.uri.split`
unfoldable pub check_flags : Verb → (action ids empty model : Bool) → Result Fault (Unit {0})
check_flags verb action ids empty model =
    refuse_if (action && not (verb_in verb (call_verb ∷ describe_verb ∷ []))) verb_with_action (
      refuse_if (verb_in verb (call_verb ∷ []) && not action) requires_action (
        refuse_if
          (ids && not (verb_in verb (get_verb ∷ update_verb ∷ delete_verb ∷ call_verb ∷ [])))
          verb_with_id
          (refuse_if (verb_in verb (get_verb ∷ update_verb ∷ delete_verb ∷ []) && not ids)
            requires_id
            (refuse_if
              (not empty
                && not (verb_in verb (list_verb ∷ update_verb ∷ create_verb ∷ call_verb ∷ [])))
              verb_with_data
              (refuse_if (verb_in verb (update_verb ∷ create_verb ∷ []) && empty) requires_data (
                refuse_if
                  (verb_in verb (
                      get_verb ∷ list_verb ∷ update_verb ∷ create_verb ∷ delete_verb ∷ call_verb
                      ∷ [])
                    && not model)
                  requires_model (ok tt)))))))

abbrev pub check_parts : Verb → Parts → Payload → Result Fault (Unit {0})
check_parts verb parts payload =
    check_flags verb (is_given parts.action) (is_given (none_if_empty parts.id_list))
      (is_none payload) (is_given parts.model)

abbrev pub check_split : Verb → Result UriError Parts → Payload → Result Fault (Unit {0})
check_split verb (err e) payload = err (bad_uri e)
check_split verb (ok parts) payload = check_parts verb parts payload

abbrev pub protocol_verbs : List Verb
protocol_verbs =
    get_verb ∷ list_verb ∷ update_verb ∷ create_verb ∷ delete_verb ∷ call_verb ∷ describe_verb ∷ []

-- `_checkRequest`
unfoldable pub check_request :
    (root_path : Text) → Verb → (uri : Text) → Payload → Result Fault (Unit {0})
check_request root_path verb uri payload =
    refuse_if (not (verb_in verb protocol_verbs)) invalid_verb (
      refuse_if (not (is_dict_or_none payload)) data_not_dict
        (check_split verb (split root_path uri false) payload))
