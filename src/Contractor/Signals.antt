-- ===== src/Contractor/Signals.antt =====
-- What the calls of the job send.
use disks.Cinp.Check.{call_verb, check_request, value}
use disks.Cinp.Check.Table.{check_request-Accepted}
use disks.Cinp.Client.{call, default_timeout, expect}
use disks.Cinp.Json.{Json, Members, dict, text}
use disks.Cinp.Request.{
  Action, Cinp, CinpError, Request, Session, encode, of_result, out_of_fuel, prepare, read_response,
  request, said_text, send,
}
use disks.Cinp.Uri.{build, build_action, build_ids, build_namespace, is_word, split}
use disks.Cinp.Uri.Reading.{IsId, IsName}
use disks.Cinp.Uri.RoundTrip.{split-build}
use disks.Cinp.Words.{Text, codes, is_of, is_of-IsOf, join_text}
use disks.Contractor.{
  HttpClient, Outcome, Printed, after_attempt, attempt, call_method, call_once, http_request,
  is_retried, job_uri, one_member, post_message, signal_alert, signal_complete, try_from,
}
use disks.Filesystem.Plan.{key}
use disks.Prelude.{
  Bool, List, String, [], ap, false, if◌then◌else◌, nat_key, none, not, option_key, refl, some,
  string_key, sym, true, ℕ, ◌||◌, ◌∙◌, ◌∷◌, ◌≡◌,
}
use disks.Prelude.Dict.{insert}
use disks.Prelude.Exec.{Result, continue, err, ok, pure, raise_if, ◌>>=◌}
use disks.Prelude.Int.{pos}
use mathlib.Core.List.{append_assoc}
use mathlib.Core.Path.{subst}

bind-state {ℓ κ} :
    {A : Type ℓ} {B : Type κ} (m : Action A) (f : A → Action B) (s : Session)
    → ((a : A) (t : Session) → (f a t).1 ≡ t)
    → ((m >>= f) s).1 ≡ (m s).1
bind-state {A = A} m f s still = go (m s)
  where
    go : (p : Result CinpError A × Session) → (continue p.0 f p.1).1 ≡ p.1
    go (ok a, t) = still a t
    go (err e, t) = refl

raise_if-state : (b : Bool) (e : CinpError) (t : Session) → (raise_if b e t).1 ≡ t
raise_if-state true e t = refl
raise_if-state false e t = refl

-- The call of an action on the job, with the id of the job.
abbrev pub JobCall : Text → Text → Request → Type 0
JobCall job action r =
    (r.method ≡ call_verb)
    × (split (codes "/api/v1/") r.uri false
        ≡ ok (record {
          namespace = codes "Foreman" ∷ [];
          model = some (codes "BaseJob");
          action = some action;
          id_list = some (job ∷ []);
          multi = false;
        }))

job_uri-build :
    (client : HttpClient) (job action : Text)
    → client.job_id ≡ some job
    → job_uri client action
      ≡ build
          (codes "/api/v1/")
          (codes "Foreman" ∷ [])
          (some (codes "BaseJob"))
          (some action)
          (some (job ∷ []))
          true
unfolding build build_action build_ids build_namespace join_text
job_uri-build client job action h = rw h (simp append_assoc)

job_uri-split :
    (client : HttpClient) (job action : Text)
    → client.job_id ≡ some job
    → IsId job
    → IsName action
    → split (codes "/api/v1/") (job_uri client action) false
      ≡ ok (record {
        namespace = codes "Foreman" ∷ [];
        model = some (codes "BaseJob");
        action = some action;
        id_list = some (job ∷ []);
        multi = false;
      })
unfolding is_word
job_uri-split client job action h is_job is_action =
    ap (λ uri. split (codes "/api/v1/") uri false) (job_uri-build client job action h)
    ∙ split-build (codes "/api/v1/") false (codes "Foreman" ∷ []) (codes "BaseJob") (some action)
        (job ∷ []) (is_of-IsOf is_word (codes "Foreman") refl, tt)
        (is_of-IsOf is_word (codes "BaseJob") refl) (is_job, tt) is_action

-- One call of an action that fits the check makes one request.
request-sent :
    (c : Cinp) (uri : Text) (members : Members) (timeout : ℕ) (s : Session)
    → check_request c.root_path call_verb uri (value (dict members)) ≡ ok tt
    → (r : Request) × (r.method ≡ call_verb)
      × (r.uri ≡ uri)
      × ((request c call_verb uri (value (dict members)) [] timeout false s).1.sent ≡ r ∷ s.sent)
unfolding request prepare send
request-sent c uri members timeout s h =
    let made : Request = record {
      method = call_verb;
      uri = uri;
      content = encode c (value (dict members));
      header_map = insert "Content-Type" (said_text (codes "application/json;charset=utf-8")) [];
      timeout = timeout;
    } in
    (
      made,
      refl,
      refl,
      rw (h, prepare)
          (ap (λ t. t.sent)
            (bind-state (send c made) (λ resp. of_result (read_response c false resp)) s
              (λ a t. refl))),
    )

call-sent :
    (c : Cinp) (uri : Text) (members : Members) (timeout : ℕ) (s : Session)
    → (call c uri (dict members) false timeout s).1
      ≡ (request c call_verb uri (value (dict members)) [] timeout false s).1
unfolding call
call-sent c uri members timeout s =
    bind-state (request c call_verb uri (value (dict members)) [] timeout false) _ s
      (λ answer t. bind-state (expect answer.0 200) _ t (λ _ u. refl) ∙ raise_if-state _ _ t)

call_once-sent :
    (client : HttpClient) (uri : Text) (members : Members) (s : Session)
    → (call_once client uri (dict members) s).1
      ≡ (request client.cinp call_verb uri (value (dict members)) [] default_timeout false s).1
unfolding http_request try_from attempt
call_once-sent client uri members s =
    once (attempt client.cinp call_method uri (dict members) none default_timeout false s)
    ∙ bind-state (call client.cinp uri (dict members) false default_timeout) _ s (λ a t. refl)
    ∙ call-sent client.cinp uri members default_timeout s
  where
    once :
        (p : Result CinpError Outcome × Session)
        → (after_attempt (pos 0) 0 (λ t. (err out_of_fuel, t)) p).1 ≡ p.1
    once (ok o, t) = refl
    once (err e, t) = go (is_retried e)
      where
        chosen : Bool → Result CinpError Outcome × Session
        chosen b = if not b || true then (err e, t) else (err out_of_fuel, t)

        go : (b : Bool) → (chosen b).1 ≡ t
        go true = refl
        go false = refl

-- One message of a job: one request, which calls the action on the job.
abbrev pub OneJobCall : Text → Text → Session → Session → Type 0
OneJobCall job action s t = (r : Request) × (t.sent ≡ r ∷ s.sent) × JobCall job action r

job_call-sent :
    (client : HttpClient) (job action : Text) (members : Members) (s : Session)
    → client.cinp.root_path ≡ codes "/api/v1/"
    → client.job_id ≡ some job
    → IsId job
    → IsName action
    → OneJobCall job action s (call_once client (job_uri client action) (dict members) s).1
job_call-sent client job action members s root h is_job is_action =
    let known = job_uri-split client job action h is_job is_action in
    let uri = job_uri client action in
    let accepted =
      (check_request-Accepted client.cinp.root_path call_verb uri (value (dict members))).1
        (_, ap (λ p. split p uri false) root ∙ known, refl, (refl, refl)) in
    let made = request-sent client.cinp uri members default_timeout s accepted in
    (
      made.0,
      ap (λ t. t.sent) (call_once-sent client uri members s) ∙ made.3,
      (made.1, ap (λ u. split (codes "/api/v1/") u false) made.2 ∙ known),
    )

-- the call, and what is printed behind it
job_step :
    (client : HttpClient) (job action : Text) (key : String) (j : Json) (f : Outcome → List Printed)
    (s : Session)
    → client.cinp.root_path ≡ codes "/api/v1/"
    → client.job_id ≡ some job
    → IsId job
    → is_of is_word action ≡ true
    → OneJobCall job action s
        ((call_once client (job_uri client action) (one_member key j) >>= λ resp. pure (f resp))
          s).1
job_step client job action key j f s root h is_job is_action =
    subst (OneJobCall job action s)
      (sym (
        bind-state (call_once client (job_uri client action) (one_member key j)) _ s (λ a t. refl)))
      (job_call-sent client job action _ s root h is_job (is_of-IsOf is_word action is_action))

-- Whatever the server answers, each of the three messages of a job makes exactly one request, with no
-- retry: the CALL of its action, whose URI `split` reads as the action on `BaseJob` in `Foreman` with the
-- one id of the job. The root path is the one that the client is made with, the id has the characters
-- that an id may have, and there is a cookie.
pub signals-OneJobCall :
    (client : HttpClient) (job msg : Text) (cookie : Json) (s : Session)
    → client.cinp.root_path ≡ codes "/api/v1/"
    → client.job_id ≡ some job
    → client.cookie ≡ some cookie
    → IsId job
    → OneJobCall job (codes "postMessage") s (post_message client msg s).1
      × OneJobCall job (codes "signalAlert") s (signal_alert client msg s).1
      × OneJobCall job (codes "signalComplete") s (signal_complete client s).1
unfolding post_message signal_alert signal_complete is_word
signals-OneJobCall client job msg cookie s root h k is_job = (
  job_step client job (codes "postMessage") "msg" (text msg) _ s root h is_job refl,
  job_step client job (codes "signalAlert") "msg" (text msg) _ s root h is_job refl,
  rw k (job_step client job (codes "signalComplete") "cookie" cookie _ s root h is_job refl),
)
