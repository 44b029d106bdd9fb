-- ===== src/Cinp/Check/Table.antt =====
-- The requests that `_checkRequest` lets through, as a table.
use disks.Cinp.Check.{
  Fault, Payload, Verb, call_verb, check_flags, check_request, check_split, create_verb,
  data_not_dict, delete_verb, describe_verb, get_verb, invalid_verb, is_dict_or_none, is_given,
  is_none, list_verb, none_if_empty, other_verb, post_verb, protocol_verbs, rawget_verb, refuse_if,
  update_verb, upload_verb, verb_in,
}
use disks.Cinp.Uri.{Parts, UriError, split}
use disks.Cinp.Words.{Text}
use disks.Prelude.{
  Bool, arith, false, nat_key, not, option_key, refl, string_key, sym, true, ◌↔◌, ◌∙◌, ◌≡◌,
}
use disks.Prelude.Exec.{Result, err, ok, ok-inj}
use mathlib.Core.Path.{subst}

-- For each verb: whether there is an action, ids and data, and whether there has to be a model.
abbrev pub Fits : Verb → (action ids filled model : Bool) → Type 0
Fits get_verb action ids filled model =
    (action ≡ false) × (ids ≡ true) × (filled ≡ false) × (model ≡ true)
Fits delete_verb action ids filled model =
    (action ≡ false) × (ids ≡ true) × (filled ≡ false) × (model ≡ true)
Fits list_verb action ids filled model = (action ≡ false) × (ids ≡ false) × (model ≡ true)
Fits update_verb action ids filled model =
    (action ≡ false) × (ids ≡ true) × (filled ≡ true) × (model ≡ true)
Fits create_verb action ids filled model =
    (action ≡ false) × (ids ≡ false) × (filled ≡ true) × (model ≡ true)
Fits call_verb action ids filled model = (action ≡ true) × (model ≡ true)
Fits describe_verb action ids filled model = (ids ≡ false) × (filled ≡ false)
Fits _ action ids filled model = ⊥

-- The URI can be taken apart, the data is a dict or None, and the table has the request.
abbrev pub Accepted : (root_path : Text) → Verb → (uri : Text) → Payload → Type 0
Accepted root_path verb uri payload =
    (parts : Parts) × (split root_path uri false ≡ ok parts)
    × (is_dict_or_none payload ≡ true)
    × Fits verb (is_given parts.action) (is_given (none_if_empty parts.id_list))
        (not (is_none payload)) (is_given parts.model)

check_flags-Fits :
    (verb : Verb) (action ids empty model : Bool)
    → verb_in verb protocol_verbs ≡ true
    → (check_flags verb action ids empty model ≡ ok tt) ↔ Fits verb action ids (not empty) model
unfolding check_flags
check_flags-Fits get_verb action ids empty model known = ground arith
check_flags-Fits list_verb action ids empty model known = ground arith
check_flags-Fits update_verb action ids empty model known = ground arith
check_flags-Fits create_verb action ids empty model known = ground arith
check_flags-Fits delete_verb action ids empty model known = ground arith
check_flags-Fits call_verb action ids empty model known = ground arith
check_flags-Fits describe_verb action ids empty model known = ground arith
check_flags-Fits post_verb action ids empty model known = ground arith
check_flags-Fits upload_verb action ids empty model known = ground arith
check_flags-Fits rawget_verb action ids empty model known = ground arith
check_flags-Fits (other_verb name) action ids empty model known = ground arith

Fits-known :
    (verb : Verb) (action ids filled model : Bool)
    → Fits verb action ids filled model
    → verb_in verb protocol_verbs ≡ true
Fits-known get_verb action ids filled model h = refl
Fits-known list_verb action ids filled model h = refl
Fits-known update_verb action ids filled model h = refl
Fits-known create_verb action ids filled model h = refl
Fits-known delete_verb action ids filled model h = refl
Fits-known call_verb action ids filled model h = refl
Fits-known describe_verb action ids filled model h = refl
Fits-known post_verb action ids filled model h = absurd h
Fits-known upload_verb action ids filled model h = absurd h
Fits-known rawget_verb action ids filled model h = absurd h
Fits-known (other_verb name) action ids filled model h = absurd h

-- `_checkRequest` lets a request through exactly where the table has it, for every verb, URI and data.
pub check_request-Accepted :
    (root_path : Text) (verb : Verb) (uri : Text) (payload : Payload)
    → (check_request root_path verb uri payload ≡ ok tt) ↔ Accepted root_path verb uri payload
unfolding check_request
check_request-Accepted root_path verb uri payload =
    go (verb_in verb protocol_verbs) (is_dict_or_none payload) (split root_path uri false) refl refl
      refl
  where
    outcome : Bool → Bool → Result UriError Parts → Result Fault (Unit {0})
    outcome known shaped parts =
        refuse_if (not known) invalid_verb
          (refuse_if (not shaped) data_not_dict (check_split verb parts payload))

    go :
        (known shaped : Bool) (parts : Result UriError Parts)
        → verb_in verb protocol_verbs ≡ known
        → is_dict_or_none payload ≡ shaped
        → split root_path uri false ≡ parts
        → (outcome known shaped parts ≡ ok tt) ↔ Accepted root_path verb uri payload
    go false shaped parts k d p =
        (λ h. cc, λ a. absurd (clash (sym k ∙ Fits-known verb _ _ _ _ a.3)))
      where
        clash : false ≡ true → ⊥
        clash h = cc
    go true false parts k d p = (λ h. cc, λ a. cc)
    go true true (err e) k d p = (λ h. cc, λ a. cc)
    go true true (ok parts) k d p =
        let table = check_flags-Fits verb _ _ _ _ k in
        (
          λ h. (parts, p, d, table.0 h),
          λ a. table.1 (subst Allowed (ok-inj a.0 parts (sym a.1 ∙ p)) a.3),
        )
      where
        Allowed : Parts → Type 0
        Allowed x =
            Fits verb (is_given x.action) (is_given (none_if_empty x.id_list))
              (not (is_none payload)) (is_given x.model)
