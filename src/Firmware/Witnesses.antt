-- ===== src/Firmware/Witnesses.antt =====
-- The theorems on the firmware job, with two handlers that each have an old target.
use disks.Firmware.Planner.{
  Patterns, Step, file_of, find_matches, find_step, first_file, fits, sort_patterns,
}
use disks.Firmware.Planner.Steps.{Any, find_step-Any, find_step-none}
use disks.Firmware.Run.{
  Config, Outside, Progress, after_updates, before_updates, bring_to, check_handler, check_handlers,
  check_target, download, download_once, emit, run_job, setup, update_all, update_target,
}
use disks.Firmware.Run.Handlers.{OneHandler, run_job-OneHandler}
use disks.Firmware.Run.Settled.{NoUpdate, run_job-NoUpdate}
use disks.Prelude.{
  All, List, String, [], false, if◌then◌else◌, insert_with, nat_key, option_key, refl, some,
  sort_with, string_key, true, ◌==◌, ◌∷◌, ◌≡◌, ◌≢◌,
}
use disks.Prelude.Dict.{has_key, insert, lookup}
use disks.Prelude.Exec.{for_each}
use disks.Prelude.Text.{len}

-- A pattern matches what it equals, or everything.
abbrev patterns : Patterns
patterns = record {
  matches = λ pattern text. pattern == ".*";
  wildcards = λ pattern. if pattern == ".*" then 1 else 0;
  literals = λ pattern. 0;
}

abbrev outside : Outside
outside = record {
  handlers = "megaraid" ∷ "harddrive" ∷ [];
  targets = λ handler. some (record { target = "0"; model = "m"; version = "1" } ∷ []);
  fetch = λ url. some "/tmp/file";
  updates = λ handler target file. true;
  re = patterns;
}

abbrev steps : List Step
steps =
    record { filename = "any.fw"; from_version = ".*"; to_version = "2" }
    ∷ record { filename = "one.fw"; from_version = "1"; to_version = "2" }
    ∷ []

-- The version that every model of a handler shall have.
abbrev config_to : String → Config
config_to version = record {
  resource_location = some "http://files/";
  firmware = some (("megaraid", ("m", steps) ∷ []) ∷ ("harddrive", ("m", steps) ∷ []) ∷ []);
  firmware_targets =
      some (("megaraid", ("m", version) ∷ []) ∷ ("harddrive", ("m", version) ∷ []) ∷ []);
}

abbrev fresh : Progress
fresh = record { dirty = false; filename_cache = []; events = [] }

unfoldable job : Unit {0}
unfolding run_job update_all check_handlers check_handler check_target bring_to download_once emit
    find_step first_file file_of find_matches sort_patterns sort_with insert_with lookup insert
    has_key for_each len
job = tt

-- The second handler is left for the run after the reboot.
job_events :
    (run_job outside (config_to "2") fresh).1.events
    ≡ setup "megaraid"
      ∷ setup "harddrive"
      ∷ before_updates "megaraid"
      ∷ download "http://files/one.fw"
      ∷ update_target "megaraid" "0" "/tmp/file"
      ∷ after_updates "megaraid"
      ∷ []
unfolding job
job_events = refl

find_step-Any_example :
    Any
      (λ step.
        (fits patterns "1" step.from_version ≡ true)
        × (step.to_version ≡ "2")
        × (step.filename ≡ "one.fw"))
      steps
unfolding job
find_step-Any_example = find_step-Any patterns "1" "2" "one.fw" steps refl

find_step-none_example :
    All (λ step. fits patterns "1" step.from_version ≡ true → step.to_version ≢ "3") steps
unfolding job
find_step-none_example = find_step-none patterns "1" "3" steps refl

run_job-OneHandler_example : OneHandler (run_job outside (config_to "2") fresh).1
run_job-OneHandler_example = run_job-OneHandler outside (config_to "2") fresh tt

run_job-NoUpdate_example : NoUpdate (run_job outside (config_to "1") fresh).1
unfolding job
run_job-NoUpdate_example = run_job-NoUpdate outside (config_to "1") fresh tt refl
