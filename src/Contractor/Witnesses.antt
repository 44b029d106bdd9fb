-- ===== src/Contractor/Witnesses.antt =====
-- A client of a job, with a server that answers no request.
use disks.Cinp.Json.{null, text}
use disks.Cinp.Request.{Cinp, Session, socket_timeout}
use disks.Cinp.Uri.{is_id, is_word}
use disks.Cinp.Uri.Reading.{IsId}
use disks.Cinp.Words.{codes, is_of-IsOf}
use disks.Contractor.{
  HttpClient, attempt, http_request, post_message, raw_get_method, signal_alert, signal_complete,
}
use disks.Contractor.Retries.{Tries, http_request-Tries}
use disks.Contractor.Signals.{OneJobCall, signals-OneJobCall}
use disks.Prelude.{[], false, nat_key, none, option_key, refl, some, string_key}
use disks.Prelude.Int.{pos}

abbrev silent : Cinp
silent = record {
  host = codes "http://contractor";
  root_path = codes "/api/v1/";
  open_request = λ sent request. socket_timeout;
  parse_json = λ t. none;
  dump_json = λ j. codes "{}";
  read_int = λ t. none;
}

abbrev fresh : Session
fresh = record { addheaders = []; sent = [] }

http_request-Tries_example :
    Tries (attempt silent raw_get_method (codes "/config/config/") null none 10 false) 2 fresh (
      http_request silent 0 raw_get_method
        (codes "/config/config/")
        null
        none
        10
        (pos 2)
        false
        fresh)
http_request-Tries_example =
    http_request-Tries silent 0 raw_get_method (codes "/config/config/") null none 10 2 false fresh

abbrev client : HttpClient
client = record {
  cinp = silent;
  config_uuid = none;
  job_id = some (codes "42");
  cookie = some (text []);
}

job-IsId : IsId (codes "42")
unfolding is_id is_word
job-IsId = is_of-IsOf is_id (codes "42") refl

signals-OneJobCall_example :
    OneJobCall
      (codes "42")
      (codes "postMessage")
      fresh
      (post_message client (codes "hello") fresh).1
    × OneJobCall
        (codes "42")
        (codes "signalAlert")
        fresh
        (signal_alert client (codes "hello") fresh).1
    × OneJobCall (codes "42") (codes "signalComplete") fresh (signal_complete client fresh).1
signals-OneJobCall_example =
    signals-OneJobCall client (codes "42") (codes "hello") (text []) fresh refl refl refl job-IsId
