-- ===== src/Contractor.antt =====
-- The clients of src/contractor/contractor/client.py: the choice of one, the retries of a request, and
-- the calls of the job. The delays between the retries only pass time, and are left out.
pub mod Retries
pub mod Signals
pub mod Witnesses
use disks.Cinp.Check.{rawget_verb, value}
use disks.Cinp.Client.{CountMap, call, default_timeout, expect, list, update}
use disks.Cinp.Json.{Items, Json, array, dict, end_members, member, null, text}
use disks.Cinp.Request.{
  Action, Cinp, CinpError, Session, no_attribute, out_of_fuel, request, response_error, set_auth,
  timed_out, unknown_method,
}
use disks.Cinp.Words.{Text, codes, same_text}
use disks.Filesystem.Plan.{key}
use disks.Prelude.{
  Bool, List, Option, String, [], false, if◌then◌else◌, leb, nat_key, none, not, option_key, some,
  string_key, suc, true, zero, ℕ, ◌++◌, ◌||◌, ◌∷◌,
}
use disks.Prelude.Exec.{Result, err, modify, ok, or_raise, pure, raise, ◌>>=◌, ◌>>◌}
use disks.Prelude.Int.{negsuc, pos, ℤ}

pub data Method : Type 0 where
  raw_get_method call_method list_method update_method : Method
  other_method : String → Method

-- What `request` returns: data, or the ids and the counts of a list.
pub data Outcome : Type 0 where
  json_of : Json → Outcome
  listed : Items → CountMap → Outcome

-- the body of the `try`
unfoldable pub attempt :
    Cinp
    → Method
    → Text
    → Json
    → (filter : Option Text) → (timeout : ℕ) → (no_parse : Bool) → Action Outcome
attempt c raw_get_method uri body filter timeout no_parse = do
  answer ← request c rawget_verb uri (value null) [] timeout no_parse
  _ ← expect answer.0 200
  pure (json_of answer.1)
attempt c call_method uri body filter timeout no_parse = do
  answer ← call c uri body false timeout
  pure (json_of answer)
attempt c list_method uri body filter timeout no_parse = do
  found ← list c uri filter body (pos 0) (pos 10) timeout
  pure (listed found.0 found.1)
attempt c update_method uri body filter timeout no_parse = do
  found ← update c uri body false timeout
  pure (json_of (dict found))
attempt c (other_method name) uri body filter timeout no_parse = raise unknown_method

-- `except ( ResponseError, Timeout )`
abbrev pub is_retried : CinpError → Bool
is_retried timed_out = true
is_retried (response_error fault) = true
is_retried _ = false

-- `not retry_count == -1 and retry >= retry_count`
abbrev pub gives_up : (retry_count : ℤ) → (retry : ℕ) → Bool
gives_up (pos n) retry = leb n retry
gives_up (negsuc zero) retry = false
gives_up (negsuc (suc n)) retry = true

-- what follows an attempt; `again` is the next round
abbrev pub after_attempt :
    (retry_count : ℤ)
    → (retry : ℕ) → Action Outcome
    → Result CinpError Outcome × Session
    → Result CinpError Outcome × Session
after_attempt retry_count retry again (ok outcome, s) = (ok outcome, s)
after_attempt retry_count retry again (err e, s) =
    if not (is_retried e) || gives_up retry_count retry then (err e, s) else again s

-- The `while True` loop. The fuel bounds its rounds.
unfoldable pub try_from : Action Outcome → (retry_count : ℤ) → (fuel retry : ℕ) → Action Outcome
try_from act retry_count zero retry s = (err out_of_fuel, s)
try_from act retry_count (suc fuel) retry s =
    let again = try_from act retry_count fuel (suc retry) in
    after_attempt retry_count retry again (act s)

-- The rounds that are enough: a count of -1 goes on for as long as the caller's patience.
abbrev pub rounds_of : (retry_count : ℤ) → (patience : ℕ) → ℕ
rounds_of (pos n) patience = suc n
rounds_of (negsuc zero) patience = patience
rounds_of (negsuc (suc n)) patience = 1

-- `HTTPClient.request`
unfoldable pub http_request :
    Cinp
    → (patience : ℕ) → Method
    → Text
    → Json
    → (filter : Option Text) → (timeout : ℕ) → (retry_count : ℤ) → (no_parse : Bool)
    → Action Outcome
http_request c patience method uri body filter timeout retry_count no_parse =
    try_from (attempt c method uri body filter timeout no_parse) retry_count
      (rounds_of retry_count patience) 0

-- An HTTPClient: its CInP client, the config it is asked for, and the job. The cookie is there only where
-- a job was read.
pub record HttpClient : Type 0 where
  pub cinp : Cinp
  pub config_uuid : Option Text
  pub job_id : Option Text
  pub cookie : Option Json

-- `'{0}'.format( job_id )`
abbrev pub job_text : Option Text → Text
job_text none = codes "None"
job_text (some job) = job

abbrev pub job_uri : HttpClient → Text → Text
job_uri client action =
    codes "/api/v1/Foreman/BaseJob:"
    ++ (job_text client.job_id ++ (codes ":(" ++ (action ++ codes ")")))

-- What the clients print.
pub data Printed : Type 0 where
  message alert : Text → Printed
  complete : Printed
  failed : Outcome → Printed

-- `self.request( 'call', uri, data )`
abbrev pub call_once : HttpClient → Text → Json → Action Outcome
call_once client uri args =
    http_request client.cinp 0 call_method uri args none default_timeout (pos 0) false

-- `resp != wanted`
abbrev pub differs : Outcome → Text → Bool
differs (json_of (text t)) wanted = not (same_text t wanted)
differs _ wanted = true

abbrev pub warn_unless : Outcome → Text → List Printed
warn_unless resp wanted = if differs resp wanted then failed resp ∷ [] else []

abbrev pub one_member : String → Json → Json
one_member key j = dict (member (codes key) j end_members)

abbrev pub token_of : Outcome → Json
token_of (json_of j) = j
token_of (listed ids counts) = array ids

unfoldable pub login : HttpClient → Action (Unit {0})
login client = do
  token ← call_once client (codes "/api/v1/Auth/User(login)") (
      dict (
        member (codes "username") (text (codes "jobsig"))
          (member (codes "password") (text (codes "jobsig")) end_members)))
  modify (λ s. set_auth (some (codes "jobsig")) (token_of token) s)

unfoldable pub post_message : HttpClient → Text → Action (List Printed)
post_message client msg = do
  resp ← call_once client (job_uri client (codes "postMessage")) (one_member "msg" (text msg))
  pure (message msg ∷ warn_unless resp (codes "Posted"))

unfoldable pub signal_alert : HttpClient → Text → Action (List Printed)
signal_alert client msg = do
  resp ← call_once client (job_uri client (codes "signalAlert")) (one_member "msg" (text msg))
  pure (alert msg ∷ warn_unless resp (codes "Alerted"))

unfoldable pub signal_complete : HttpClient → Action (List Printed)
signal_complete client = do
  cookie ← or_raise client.cookie no_attribute
  resp ← call_once client (job_uri client (codes "signalComplete")) (one_member "cookie" cookie)
  pure (complete ∷ warn_unless resp (codes "Recieved"))

abbrev pub config_uri : Option Text → Option Text → Text
config_uri (some config_uuid) locator = codes "/config/config/c/" ++ config_uuid
config_uri none (some locator) = codes "/config/config/f/" ++ locator
config_uri none none = codes "/config/config/"

unfoldable pub get_config : HttpClient → (foundation_locator : Option Text) → Action Outcome
get_config client foundation_locator =
    http_request client.cinp 0 raw_get_method (config_uri client.config_uuid foundation_locator)
      null none 10 (pos 2) false

abbrev pub template_uri : Option Text → Text
template_uri (some config_uuid) = codes "/config/pxe_template/c/" ++ config_uuid
template_uri none = codes "/config/pxe_template/"

unfoldable pub get_disk_template : HttpClient → Action Outcome
get_disk_template client =
    http_request client.cinp 0 raw_get_method (template_uri client.config_uuid) null none 10 (pos 2)
      true
