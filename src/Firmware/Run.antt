-- ===== src/Firmware/Run.antt =====
-- The script of disks/firmware/root/firmware.py behind its imports.
pub mod Settled
pub mod Handlers
use disks.Firmware.Planner.{Patterns, Step, find_step}
use disks.Prelude.{
  Bool, List, Option, String, [], if◌then◌else◌, nat_key, none, not, option_key, some, string_key,
  true, ℕ, ◌++◌, ◌<>◌, ◌==◌, ◌∷◌,
}
use disks.Prelude.Dict.{Dict, has_key, insert, lookup}
use disks.Prelude.Exec.{
  Exec, err, for_each, gets, modify, ok, or_raise, pure, raise_if, ◌>>=◌, ◌>>◌,
}

-- What a handler lists: a target, its model and its version.
pub record Target : Type 0 where
  pub target : String
  pub model : String
  pub version : String

-- What the job does to the outside, in its order.
pub data Event : Type 0 where
  setup : (handler : String) → Event
  before_updates : (handler : String) → Event
  download : (url : String) → Event
  update_target : (handler target file : String) → Event
  after_updates : (handler : String) → Event

-- The handlers, which are plugins, and the network. `targets` is none where `getTargets` raises,
-- `fetch` none where the answer is an HTTP error; `updates` is what `updateTarget` answers.
pub record Outside : Type 0 where
  pub handlers : List String
  pub targets : String → Option (List Target)
  pub fetch : String → Option String
  pub updates : (handler target file : String) → Bool
  pub re : Patterns

-- The values of the configuration; an entry that is missing or None is none.
pub record Config : Type 0 where
  pub resource_location : Option String
  pub firmware : Option (Dict String (Dict String (List Step)))
  pub firmware_targets : Option (Dict String (Dict String String))

pub record Progress : Type 0 where
  pub dirty : Bool
  pub filename_cache : Dict String String
  pub events : List Event

-- A raise is `sys.exit` with its code.
abbrev pub Job {ℓ} : Type ℓ → Type ℓ
Job A = Exec ℕ Progress A

unfoldable pub emit : Event → Job (Unit {0})
emit event = modify (λ s. record s { events = s.events ++ event ∷ [] })

-- `if filename not in filename_cache:`
unfoldable pub download_once : Outside → String → String → Job (Unit {0})
download_once outside location filename = do
  cached ← gets (λ s. has_key filename s.filename_cache)
  if cached then pure tt else do
    emit (download (location <> filename))
    local ← or_raise (outside.fetch (location <> filename)) 1
    modify (λ s. record s { filename_cache = insert filename local s.filename_cache })

-- the body of the loop over the targets, behind the test of the version
unfoldable pub bring_to :
    Outside → String → Dict String (List Step) → String → Target → String → Job (Unit {0})
bring_to outside location firmware_map handler t target_version = do
  dirty ← gets (λ s. s.dirty)
  if dirty then pure tt else emit (before_updates handler)
  model_map ← or_raise (lookup t.model firmware_map) 1
  filename ← or_raise (find_step outside.re t.version target_version model_map) 1
  raise_if (filename == "") 1
  download_once outside location filename
  file ← or_raise (← gets (λ s. lookup filename s.filename_cache)) 1
  emit (update_target handler t.target file)
  raise_if (not (outside.updates handler t.target file)) 1
  modify (λ s. record s { dirty = true })

unfoldable pub check_target :
    Outside
    → String
    → Dict String (List Step)
    → Dict String String
    → String
    → Target
    → Job (Unit {0})
check_target outside location firmware_map version_map handler t =
    elim (lookup t.model version_map) [
      | none ↦ pure tt
      | some target_version ↦
          if t.version == target_version
          then pure tt
          else bring_to outside location firmware_map handler t target_version
    ]

-- the body of the loop over the handlers, up to its `break`
unfoldable pub check_handler :
    Outside
    → String
    → Dict String (Dict String (List Step))
    → Dict String String
    → String
    → Job (Unit {0})
check_handler outside location firmware version_map handler = do
  firmware_map ← or_raise (lookup handler firmware) 1
  targets ← or_raise (outside.targets handler) 1
  for_each targets (check_target outside location firmware_map version_map handler)

-- The loop over the handlers, which ends behind the first one that has updated something.
unfoldable pub check_handlers :
    Outside
    → String
    → Dict String (Dict String (List Step))
    → Dict String (Dict String String)
    → List String
    → Job (Unit {0})
check_handlers outside location firmware firmware_targets [] = pure tt
check_handlers outside location firmware firmware_targets (handler ∷ handlers) =
    let others = check_handlers outside location firmware firmware_targets handlers in
    elim (lookup handler firmware_targets) [
      | none ↦ others
      | some version_map ↦ do
        check_handler outside location firmware version_map handler
        dirty ← gets (λ s. s.dirty)
        if dirty then emit (after_updates handler) else others
    ]

-- `if not d: sys.exit( 1 )` of a dict or a text that may be missing
abbrev pub present {ℓ} : {A : Type ℓ} → Option (List A) → Job (List A)
present none s = (err 1, s)
present (some []) s = (err 1, s)
present (some (x ∷ xs)) s = (ok (x ∷ xs), s)

-- The script up to its end.
unfoldable pub update_all : Outside → Config → Job (Unit {0})
update_all outside config = do
  location ← or_raise config.resource_location 1
  raise_if (location == "") 1
  firmware ← present config.firmware
  firmware_targets ← present config.firmware_targets
  for_each outside.handlers (λ name. emit (setup name))
  check_handlers outside location firmware firmware_targets outside.handlers

-- the last `sys.exit`
abbrev pub exit_code : Bool → ℕ
exit_code dirty = if dirty then 20 else 0

-- The whole job, with the exit code that it ends with: 20 asks for a reboot and another run.
unfoldable pub run_job : Outside → Config → Job ℕ
run_job outside config = do
  update_all outside config
  dirty ← gets (λ s. s.dirty)
  pure (exit_code dirty)
