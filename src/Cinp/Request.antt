-- ===== src/Cinp/Request.antt =====
-- `_request` and `setAuth` of src/contractor/contractor/cinp/client.py. The opener, the JSON library and
-- `int( )` of a text are parameters.
pub mod Sent
pub mod Auth
use disks.Cinp.Check.{
  Fault, Payload, Verb, check_request, get_verb, not_readable, post_verb, rawget_verb, said, stream,
  upload_verb, value,
}
use disks.Cinp.Json.{Json, dict, field_at, member_at, null, text}
use disks.Cinp.Uri.{UriError}
use disks.Cinp.Words.{Text, codes}
use disks.Prelude.{
  Bool, List, Option, String, [], false, get_elem?, if◌then◌else◌, length, map, nat_key, none, not,
  option_key, some, string_key, suc, take, zero, ℕ, ◌++◌, ◌==◌, ◌||◌, ◌∷◌,
}
use disks.Prelude.Dict.{Dict, insert}
use disks.Prelude.Exec.{Exec, Result, and_then, err, ok, ◌>>=◌, ◌>>◌}
use disks.Prelude.Int.{ℤ}

-- What is sent: the method, the URL, the body and the headers.
pub data HeaderValue : Type 0 where
  said_text : Text → HeaderValue
  said_number : ℤ → HeaderValue
  said_true : HeaderValue

pub data Content : Type 0 where
  no_content : Content
  encoded : Text → Content
  readable : Text → Content

pub record Request : Type 0 where
  pub method : Verb
  pub uri : Text
  pub content : Content
  pub header_map : Dict String HeaderValue
  pub timeout : ℕ

-- A response: its code, its body, decoded and stripped, and `resp.headers[ name ]`, which is None for a
-- header that is not there.
pub record Response : Type 0 where
  pub code : ℕ
  pub buff : Text
  pub headers : String → Option Text

-- What `self.opener.open` comes to.
pub data Reply : Type 0 where
  http_error url_timeout url_error socket_timeout socket_error : Reply
  response : Response → Reply

pub data ServerMessage : Type 0 where
  with_trace : (message trace : Json) → ServerMessage
  with_message : Json → ServerMessage
  whole_data : Json → ServerMessage
  start_of_body : Text → ServerMessage

pub data ResponseFault : Type 0 where
  from_http from_url from_socket unhandled_code not_parsed : ResponseFault
  unexpected_code not_a_list not_a_dict no_object_id : ResponseFault

pub data CinpError : Type 0 where
  timed_out invalid_session not_authorized not_found : CinpError
  type_error key_error index_error out_of_fuel unknown_method no_attribute : CinpError
  value_error : UriError → CinpError
  response_error : ResponseFault → CinpError
  invalid_request : Fault → CinpError
  server_error : ServerMessage → CinpError

-- The client: its host and root path, and the code that it uses. The reply may depend on what has been
-- sent before.
pub record Cinp : Type 0 where
  pub host : Text
  pub root_path : Text
  pub open_request : List Request → Request → Reply
  pub parse_json : Text → Option Json
  pub dump_json : Json → Text
  pub read_int : Text → Option ℤ

-- What changes: the headers of the opener, and what has been sent, the last request first.
pub record Session : Type 0 where
  pub addheaders : Dict String Json
  pub sent : List Request

-- the answer of `_request`: the code, the data and the headers, None for one that is missing
abbrev pub Answer : Type 0
Answer = ℕ × Json × Dict String (Option Text)

abbrev pub Action {ℓ} : Type ℓ → Type ℓ
Action A = Exec CinpError Session A

abbrev pub checked : Result Fault (Unit {0}) → Request → Result CinpError Request
checked (ok done) request = ok request
checked (err fault) request = err (invalid_request fault)

-- the body of a request of the protocol
abbrev pub encode : Cinp → Payload → Content
encode c (value null) = encoded []
encode c (value j) = encoded (c.dump_json j)
encode c (stream s) = readable s

abbrev pub raw_content : Payload → Content
raw_content (value null) = no_content
raw_content (value j) = no_content
raw_content (stream s) = readable s

-- The request that `_request` makes, by the verb.
unfoldable pub prepare :
    Cinp → Verb → Text → Payload → Dict String HeaderValue → ℕ → Result CinpError Request
prepare c upload_verb uri (stream s) header_map timeout = ok (record {
  method = post_verb;
  uri = uri;
  content = readable s;
  header_map = insert "Content-Type" (said_text (codes "application/octet-stream")) header_map;
  timeout = timeout;
})
prepare c upload_verb uri (value j) header_map timeout = err (invalid_request not_readable)
prepare c rawget_verb uri payload header_map timeout = ok (record {
  method = get_verb;
  uri = uri;
  content = raw_content payload;
  header_map = header_map;
  timeout = timeout;
})
prepare c verb uri payload header_map timeout =
    checked (check_request c.root_path verb uri payload) (record {
      method = verb;
      uri = uri;
      content = encode c payload;
      header_map =
          insert "Content-Type" (said_text (codes "application/json;charset=utf-8")) header_map;
      timeout = timeout;
    })

-- the `except` clauses around `self.opener.open`
abbrev pub received : Reply → Result CinpError Response
received http_error = err (response_error from_http)
received url_timeout = err timed_out
received url_error = err (response_error from_url)
received socket_timeout = err timed_out
received socket_error = err (response_error from_socket)
received (response resp) = ok resp

abbrev pub code_in : ℕ → List ℕ → Bool
code_in code [] = false
code_in code (c ∷ codes) = code == c || code_in code codes

-- the data of a body: `json.loads`, or None for the codes that can do without
unfoldable pub read_body : Cinp → ℕ → (no_parse : Bool) → Text → Result CinpError Json
read_body c code no_parse [] = ok null
read_body c code no_parse (x ∷ buff) =
    if no_parse then ok (text (x ∷ buff)) else elim (c.parse_json (x ∷ buff)) [
      | some j ↦ ok j
      | none ↦
          if not (code_in code (400 ∷ 500 ∷ [])) then err (response_error not_parsed) else ok null
    ]

abbrev pub or_else {ℓ} : {A : Type ℓ} → Option A → A → A
or_else none a = a
or_else (some b) a = b

-- `data[ 'message' ]`, or the start of the body
abbrev pub refusal : Json → Text → Json
refusal body buff = or_else (field_at (codes "message") body) (text (take 200 buff))

-- the message of a server error
unfoldable pub server_message : Json → Text → ServerMessage
server_message (dict m) buff = elim (member_at (codes "message") m) [
  | none ↦ whole_data (dict m)
  | some message ↦ elim (member_at (codes "trace") m) [
    | none ↦ with_message message
    | some trace ↦ with_trace message trace
  ]
]
server_message body buff = start_of_body (take 200 buff)

abbrev pub header_names : List String
header_names = "Position" ∷ "Count" ∷ "Total" ∷ "Type" ∷ "Multi-Object" ∷ "Object-Id" ∷ "verb" ∷ []

abbrev pub read_headers : List String → (String → Option Text) → Dict String (Option Text)
read_headers names headers = map (λ name. (name, headers name)) names

-- what the code and the data come to
unfoldable pub judge : ℕ → Text → (String → Option Text) → Json → Result CinpError Answer
judge code buff headers body =
    if code == 400
    then err (invalid_request (said (refusal body buff)))
    else if code == 500
    then err (server_error (server_message body buff))
    else ok (code, body, read_headers header_names headers)

-- everything behind the response
unfoldable pub read_response : Cinp → (no_parse : Bool) → Response → Result CinpError Answer
read_response c no_parse resp =
    if not (code_in resp.code (200 ∷ 201 ∷ 202 ∷ 400 ∷ 401 ∷ 403 ∷ 404 ∷ 500 ∷ []))
    then err (response_error unhandled_code)
    else if resp.code == 401
    then err invalid_session
    else if resp.code == 403
    then err not_authorized
    else if resp.code == 404
    then err not_found
    else and_then (read_body c resp.code no_parse resp.buff)
        λ body. judge resp.code resp.buff resp.headers body

abbrev pub of_result {ℓ} : {A : Type ℓ} → Result CinpError A → Action A
of_result r s = (r, s)

-- `self.opener.open( req )`
unfoldable pub send : Cinp → Request → Action Response
send c request s = (
  received (c.open_request s.sent request),
  record { addheaders = s.addheaders; sent = request ∷ s.sent },
)

-- `_request`
unfoldable pub request :
    Cinp
    → Verb
    → Text
    → Payload
    → Dict String HeaderValue
    → (timeout : ℕ) → (no_parse : Bool) → Action Answer
request c verb uri payload header_map timeout no_parse = do
  made ← of_result (prepare c verb uri payload header_map timeout)
  resp ← send c made
  of_result (read_response c no_parse resp)

abbrev pub is_auth_header : String → Bool
is_auth_header name = name == "Auth-Id" || name == "Auth-Token"

-- `del l[ index ]`
unfoldable pub delete_at {ℓ} : {A : Type ℓ} → ℕ → List A → List A
delete_at n [] = []
delete_at zero (x ∷ xs) = xs
delete_at (suc n) (x ∷ xs) = x ∷ delete_at n xs

abbrev pub names_auth : Option (String × Json) → Bool
names_auth none = false
names_auth (some header) = is_auth_header header.0

-- the loop over the indices from the last to the first; the number is how many are left
unfoldable pub drop_auth : ℕ → Dict String Json → Dict String Json
drop_auth zero headers = headers
drop_auth (suc index) headers =
    drop_auth index
      (if names_auth (get_elem? headers index) then delete_at index headers else headers)

-- `setAuth`; no id is none, or the empty text
unfoldable pub set_auth : Option Text → Json → Session → Session
set_auth none auth_token s = record {
  addheaders = drop_auth (length s.addheaders) s.addheaders;
  sent = s.sent;
}
set_auth (some []) auth_token s = record {
  addheaders = drop_auth (length s.addheaders) s.addheaders;
  sent = s.sent;
}
set_auth (some (x ∷ auth_id)) auth_token s = record {
  addheaders = s.addheaders ++ ("Auth-Id", text (x ∷ auth_id)) ∷ ("Auth-Token", auth_token) ∷ [];
  sent = s.sent;
}
