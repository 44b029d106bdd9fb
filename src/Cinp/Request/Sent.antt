-- ===== src/Cinp/Request/Sent.antt =====
-- What `_request` sends for the verbs of the protocol.
use Prim.Native.Char.{code}
use disks.Cinp.Check.{
  Fault, Payload, Verb, call_verb, check_request, create_verb, delete_verb, describe_verb, get_verb,
  list_verb, other_verb, post_verb, protocol_verbs, rawget_verb, update_verb, upload_verb, verb_in,
}
use disks.Cinp.Check.Table.{Accepted, check_request-Accepted}
use disks.Cinp.Request.{
  Action, Answer, Cinp, CinpError, HeaderValue, Request, Response, Session, checked, encode,
  of_result, prepare, request, send,
}
use disks.Cinp.Words.{Text}
use disks.Prelude.{All, Bool, String, nat_key, option_key, refl, string_key, true, ℕ, ◌≡◌, ◌⊎◌}
use disks.Prelude.Dict.{Dict}
use disks.Prelude.Exec.{Result, err, ok, ok-inj, ◌>>=◌}
use disks.Prelude.Exec.Keeps.{Keeps, Keeps-bind}
use mathlib.Core.Path.{subst}

-- The request passes the check, and carries the data that was checked.
abbrev pub Proper : Cinp → Request → Type 0
Proper c r =
    (payload : Payload) × Accepted c.root_path r.method r.uri payload
    × (r.content ≡ encode c payload)

abbrev pub AllProper : Cinp → Session → Type 0
AllProper c s = All (Proper c) s.sent

checked-ok :
    (r : Result Fault (Unit {0})) (q made : Request)
    → checked r q ≡ ok made
    → (r ≡ ok tt) × (q ≡ made)
checked-ok (ok tt) q made h = (refl, ok-inj q made h)
checked-ok (err e) q made h = cc

prepare-checked :
    (c : Cinp) (verb : Verb) (uri : Text) (payload : Payload) (headers : Dict String HeaderValue)
    (timeout : ℕ) (made : Request)
    → checked (check_request c.root_path verb uri payload) (record {
      method = verb;
      uri = uri;
      content = encode c payload;
      header_map = headers;
      timeout = timeout;
    })
      ≡ ok made
    → Proper c made
prepare-checked c verb uri payload headers timeout made h =
    let found = checked-ok (check_request c.root_path verb uri payload) _ made h in
    subst (Proper c) found.1
      (payload, (check_request-Accepted c.root_path verb uri payload).0 found.0, refl)

prepare-Proper :
    (c : Cinp) (verb : Verb) (uri : Text) (payload : Payload) (headers : Dict String HeaderValue)
    (timeout : ℕ) (made : Request)
    → verb_in verb protocol_verbs ≡ true
    → prepare c verb uri payload headers timeout ≡ ok made
    → Proper c made
unfolding prepare
prepare-Proper c get_verb uri payload headers timeout made k h =
    prepare-checked c get_verb uri payload _ timeout made h
prepare-Proper c list_verb uri payload headers timeout made k h =
    prepare-checked c list_verb uri payload _ timeout made h
prepare-Proper c update_verb uri payload headers timeout made k h =
    prepare-checked c update_verb uri payload _ timeout made h
prepare-Proper c create_verb uri payload headers timeout made k h =
    prepare-checked c create_verb uri payload _ timeout made h
prepare-Proper c delete_verb uri payload headers timeout made k h =
    prepare-checked c delete_verb uri payload _ timeout made h
prepare-Proper c call_verb uri payload headers timeout made k h =
    prepare-checked c call_verb uri payload _ timeout made h
prepare-Proper c describe_verb uri payload headers timeout made k h =
    prepare-checked c describe_verb uri payload _ timeout made h
prepare-Proper c post_verb uri payload headers timeout made k h = cc
prepare-Proper c upload_verb uri payload headers timeout made k h = cc
prepare-Proper c rawget_verb uri payload headers timeout made k h = cc
prepare-Proper c (other_verb name) uri payload headers timeout made k h = cc

Keeps-made :
    (c : Cinp) (r : Result CinpError Request) (next : Response → Action Answer)
    → ((made : Request) → r ≡ ok made → Proper c made)
    → ((resp : Response) → Keeps (AllProper c) (next resp))
    → Keeps (AllProper c) (of_result r >>= λ made. send c made >>= next)
unfolding send
Keeps-made c (err e) next proper rest = record { at = λ s h. h }
Keeps-made c (ok made) next proper rest =
    Keeps-bind (send c made) next (record { at = λ s h. (proper made refl, h) }) rest

pub Keeps-request :
    (c : Cinp) (verb : Verb) (uri : Text) (payload : Payload) (headers : Dict String HeaderValue)
    (timeout : ℕ) (no_parse : Bool)
    → verb_in verb protocol_verbs ≡ true
    → Keeps (AllProper c) (request c verb uri payload headers timeout no_parse)
unfolding request
Keeps-request c verb uri payload headers timeout no_parse known =
    Keeps-made c (prepare c verb uri payload headers timeout) _
      (λ made h. prepare-Proper c verb uri payload headers timeout made known h)
      (λ resp. record { at = λ s h. h })

-- The codes that an answer can have.
abbrev pub IsSuccess : ℕ → Type 0
IsSuccess code = (code ≡ 200) ⊎ (code ≡ 201) ⊎ (code ≡ 202)
