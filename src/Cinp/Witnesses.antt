-- ===== src/Cinp/Witnesses.antt =====
-- A client with a server that lists two jobs and knows them, and what the theorems say of it.
use disks.Cinp.Check.{Verb, check_flags, check_request, create_verb, list_verb, value}
use disks.Cinp.Check.Table.{Accepted, check_request-Accepted}
use disks.Cinp.Client.{
  count_map, filtered_page, get, get_chunks, get_filtered_objects, get_multi, list, texts_of,
}
use disks.Cinp.Client.Chunks.{InChunks, get_each, get_multi-InChunks}
use disks.Cinp.Json.{
  Json, array, dict, end_items, end_members, item, member, member_at, null, pairs, text,
}
use disks.Cinp.Request.{
  Cinp, Session, judge, prepare, read_body, read_response, request, response, send, server_message,
  set_auth,
}
use disks.Cinp.Request.Auth.{set_auth-select}
use disks.Cinp.Uri.{
  Parts, build, build_action, build_ids, build_namespace, extract_ids, is_id, is_word, match_action,
  match_ids, match_rest, match_uri, read_action, read_ids, read_names, split,
}
use disks.Cinp.Uri.Reading.{IsId, IsName}
use disks.Cinp.Uri.RoundTrip.{IsAction, extract_ids-build, split-build}
use disks.Cinp.Words.{
  Text, codes, is_of-IsOf, join_text, lstrip_text, rstrip_text, same_text, split_text_from,
  strip_prefix,
}
use disks.Prelude.{
  All, List, Option, [], arith, drop, false, if◌then◌else◌, map, nat_key, none, option_key, refl,
  some, string_key, take, true, ◌==◌, ◌↔◌, ◌∷◌, ◌≡◌,
}
use disks.Prelude.Dict.{insert, lookup}
use disks.Prelude.Exec.{ok}
use disks.Prelude.Int.{pos}

abbrev foreman : List Text
foreman = codes "Foreman" ∷ []

abbrev job : Text
job = codes "BaseJob"

foreman-IsName : All IsName foreman
unfolding is_word
foreman-IsName = (is_of-IsOf is_word (codes "Foreman") refl, tt)

job-IsName : IsName job
unfolding is_word
job-IsName = is_of-IsOf is_word job refl

ids-IsId : All IsId (codes "7" ∷ codes "it's" ∷ [])
unfolding is_id is_word
ids-IsId = (is_of-IsOf is_id (codes "7") refl, (is_of-IsOf is_id (codes "it's") refl, tt))

done-IsAction : IsAction (some (codes "done"))
unfolding is_word
done-IsAction = is_of-IsOf is_word (codes "done") refl

split-build_example :
    split
      (codes "/api/v1/")
      (build
        (codes "/api/v1/")
        foreman
        (some job)
        (some (codes "done"))
        (some (codes "7" ∷ codes "it's" ∷ []))
        true)
      false
    ≡ ok (record {
      namespace = foreman;
      model = some job;
      action = some (codes "done");
      id_list = some (codes "7" ∷ codes "it's" ∷ []);
      multi = true;
    })
split-build_example =
    split-build (codes "/api/v1/") false foreman job (some (codes "done"))
      (codes "7" ∷ codes "it's" ∷ []) foreman-IsName job-IsName ids-IsId done-IsAction

extract_ids-build_example :
    extract_ids (codes "/api/v1/") (
      map
        (λ ids. build (codes "/api/v1/") foreman (some job) none (some ids) true)
        ((codes "7" ∷ codes "it's" ∷ []) ∷ (codes "7" ∷ codes "it's" ∷ []) ∷ []))
    ≡ ok (codes "7" ∷ codes "it's" ∷ codes "7" ∷ codes "it's" ∷ [])
extract_ids-build_example =
    extract_ids-build (codes "/api/v1/") foreman job
      ((codes "7" ∷ codes "it's" ∷ []) ∷ (codes "7" ∷ codes "it's" ∷ []) ∷ []) foreman-IsName
      job-IsName (ids-IsId, (ids-IsId, tt))

check_request-Accepted_example :
    (check_request
        (codes "/api/v1/")
        create_verb
        (codes "/api/v1/Foreman/BaseJob")
        (value (dict end_members))
      ≡ ok tt)
    ↔ Accepted
        (codes "/api/v1/")
        create_verb
        (codes "/api/v1/Foreman/BaseJob")
        (value (dict end_members))
check_request-Accepted_example =
    check_request-Accepted (codes "/api/v1/") create_verb (codes "/api/v1/Foreman/BaseJob")
      (value (dict end_members))

abbrev logged_in : Session
logged_in = record {
  addheaders =
      ("User-Agent", text [])
      ∷ ("Auth-Id", text [])
      ∷ ("Auth-Token", text [])
      ∷ ("Accepts", null)
      ∷ ("Auth-Id", text [])
      ∷ [];
  sent = [];
}

set_auth-select_example :
    ((set_auth none null logged_in).addheaders ≡ ("User-Agent", text []) ∷ ("Accepts", null) ∷ [])
    × (set_auth (some []) null logged_in ≡ set_auth none null logged_in)
set_auth-select_example = set_auth-select null logged_in

abbrev answer_for : Verb → Text
answer_for list_verb = codes "[..]"
answer_for verb = codes "{..}"

abbrev read_answer : Text → Option Json
read_answer [] = none
read_answer (c ∷ s) =
    if c == b'['
    then some (array (item (text (codes "/api/v1/Foreman/BaseJob:7:")) end_items))
    else some
        (dict (member (codes "/api/v1/Foreman/BaseJob:7:") (text (codes "built")) end_members))

abbrev client : Cinp
client = record {
  host = codes "http://contractor";
  root_path = codes "/api/v1/";
  open_request = λ sent request.
      response (record {
        code = 200;
        buff = answer_for request.method;
        headers = λ name. some (codes "1");
      });
  parse_json = read_answer;
  dump_json = λ j. codes "{..}";
  read_int = λ t. some (pos 1);
}

abbrev fresh : Session
fresh = record { addheaders = []; sent = [] }

abbrev jobs_uri : Text
jobs_uri = build (codes "/api/v1/") foreman (some job) none (some []) true

abbrev jobs : Parts
jobs = record {
  namespace = foreman;
  model = some job;
  action = none;
  id_list = none;
  multi = false;
}

abbrev built_job : List (Text × Json)
built_job = (codes "/api/v1/Foreman/BaseJob:7:", text (codes "built")) ∷ []

listing : Unit {0}
unfolding get_filtered_objects filtered_page list request get_multi get_chunks get split build
    extract_ids prepare check_request match_uri strip_prefix build_action build_ids build_namespace
    match_rest match_ids read_names join_text is_word match_action check_flags send read_response
    read_body member_at judge server_message is_id read_action read_ids lstrip_text rstrip_text
    same_text split_text_from insert take drop lookup count_map texts_of pairs
listing = tt

get_multi-InChunks_example :
    (blocks : List (List Text)) × InChunks 2 (codes "1" ∷ codes "2" ∷ codes "3" ∷ []) blocks
    × ((s : Session)
        → get_multi client
            (build (codes "/api/v1/") foreman (some job) none (some []) true)
            (some (codes "1" ∷ codes "2" ∷ codes "3" ∷ []))
            2
            s
          ≡ get_each client foreman (some job) blocks s)
get_multi-InChunks_example =
    get_multi-InChunks client (build (codes "/api/v1/") foreman (some job) none (some []) true)
      (record {
        namespace = foreman;
        model = some job;
        action = none;
        id_list = none;
        multi = false;
      })
      (codes "1" ∷ codes "2" ∷ codes "3" ∷ []) 2
      (split-build (codes "/api/v1/") false foreman job none [] foreman-IsName job-IsName tt tt)
      (omega arith)
