-- ===== src/Firmware/Run/Handlers.antt =====
-- Which handlers' targets the firmware job updates.
use Prim.Native.Char.{code}
use disks.Firmware.Planner.{Step}
use disks.Firmware.Run.{
  Config, Event, Job, Outside, Progress, Target, after_updates, before_updates, bring_to,
  check_handler, check_handlers, check_target, download, download_once, emit, present, run_job,
  setup, update_all, update_target,
}
use disks.Firmware.Run.Settled.{Clean, IsUpdate, NoUpdate, Returns, check_handler-Clean}
use disks.Prelude.{
  All, All-append, All-map, Bool-cases, List, Option, Option-cases, String, [], if◌then◌else◌, inl,
  inr, nat_key, none, option_key, refl, some, string_key, sym, ℕ, ◌==◌, ◌∷◌, ◌≡◌,
}
use disks.Prelude.Dict.{Dict, lookup}
use disks.Prelude.Exec.{Result, continue, err, gets, modify, ok, ◌>>=◌}
use disks.Prelude.Exec.Keeps.{Keeps, Keeps-elim, Keeps-if, Keeps-pure, keeps_rules}
use mathlib.Core.Path.{subst}

-- An event is no update, or one by `handler`.
abbrev pub ByHandler : String → Event → Type 0
ByHandler handler (update_target h target file) = h ≡ handler
ByHandler handler _ = Unit

abbrev pub AllBy : String → Progress → Type 0
AllBy handler s = All (ByHandler handler) s.events

emit-AllBy :
    (handler : String) (event : Event)
    → ByHandler handler event
    → Keeps {E = ℕ} (AllBy handler) (emit event)
unfolding emit
emit-AllBy handler event h = record {
  at = λ s k. All-append (ByHandler handler) s.events (event ∷ []) k (h, tt);
}

modify-AllBy :
    (handler : String) (f : Progress → Progress)
    → ((s : Progress) → (f s).events ≡ s.events)
    → Keeps {E = ℕ} (AllBy handler) (modify f)
modify-AllBy handler f k = record { at = λ s h. subst (All (ByHandler handler)) (sym (k s)) h }

download_once-AllBy :
    (handler : String) (outside : Outside) (location filename : String)
    → Keeps (AllBy handler) (download_once outside location filename)
unfolding download_once
download_once-AllBy handler outside location filename =
    search (keeps_rules, emit-AllBy, modify-AllBy, tt) depth 12

bring_to-AllBy :
    (outside : Outside) (location : String) (firmware_map : Dict String (List Step))
    (handler : String) (t : Target) (target_version : String)
    → Keeps (AllBy handler) (bring_to outside location firmware_map handler t target_version)
unfolding bring_to
bring_to-AllBy outside location firmware_map handler t target_version =
    search (keeps_rules, emit-AllBy, modify-AllBy, download_once-AllBy, tt) depth 25

check_target-AllBy :
    (outside : Outside) (location : String) (firmware_map : Dict String (List Step))
    (version_map : Dict String String) (handler : String) (t : Target)
    → Keeps (AllBy handler) (check_target outside location firmware_map version_map handler t)
unfolding check_target
check_target-AllBy outside location firmware_map version_map handler t =
    Keeps-elim (lookup t.model version_map) _ _ (Keeps-pure tt) λ v.
      Keeps-if (t.version == v) _ _ (Keeps-pure tt)
        (bring_to-AllBy outside location firmware_map handler t v)

check_handler-AllBy :
    (outside : Outside) (location : String) (firmware : Dict String (Dict String (List Step)))
    (version_map : Dict String String) (handler : String)
    → Keeps (AllBy handler) (check_handler outside location firmware version_map handler)
unfolding check_handler
check_handler-AllBy outside location firmware version_map handler =
    search (keeps_rules, check_target-AllBy) depth 12

NoUpdate-AllBy : (handler : String) (s : Progress) → NoUpdate s → AllBy handler s
NoUpdate-AllBy handler s = All-map _ _ by_any s.events
  where
    by_any : (e : Event) → (IsUpdate e → ⊥) → ByHandler handler e
    by_any (update_target h target file) k = absurd (k tt)
    by_any (setup h) k = tt
    by_any (before_updates h) k = tt
    by_any (download url) k = tt
    by_any (after_updates h) k = tt

-- All the updates are by one handler.
abbrev pub OneHandler : Progress → Type 0
OneHandler s = (handler : String) × AllBy handler s

module _ (outside : Outside) (location : String) (firmware : Dict String (Dict String (List Step)))
    (firmware_targets : Dict String (Dict String String)) where
  -- What follows the check of a handler, in the state that it left.
  stop_or_go :
      (handler : String) (others : Job (Unit {0}))
      → ((s : Progress) → NoUpdate s → OneHandler (others s).1)
      → (s : Progress) → Clean s
      → AllBy handler s
      → OneHandler ((if s.dirty then emit (after_updates handler) else others) s).1
  stop_or_go handler others k s clean all = elim (Bool-cases s.dirty) [
    | inl e ↦
        subst (λ b. OneHandler ((if b then emit (after_updates handler) else others) s).1) (sym e)
          (handler, (emit-AllBy handler (after_updates handler) tt).at s all)
    | inr e ↦
        subst (λ b. OneHandler ((if b then emit (after_updates handler) else others) s).1) (sym e)
          (k s (clean e))
  ]

  one_handler :
      (handler : String) (m : Job (Unit {0})) (others : Job (Unit {0}))
      → Keeps (AllBy handler) m
      → Returns Clean m
      → ((s : Progress) → NoUpdate s → OneHandler (others s).1)
      → (s : Progress) → NoUpdate s
      → OneHandler
          ((m >>= λ _. gets (λ s. s.dirty) >>= λ dirty.
              if dirty then emit (after_updates handler) else others)
            s).1
  one_handler handler m others keeps returns k s clean = go (m s).0 refl
    where
      by_it : AllBy handler (m s).1
      by_it = keeps.at s (NoUpdate-AllBy handler s clean)

      go :
          (r : Result ℕ (Unit {0}))
          → (m s).0 ≡ r
          → OneHandler
              (continue r
                (λ _. gets (λ s. s.dirty) >>= λ dirty.
                  if dirty then emit (after_updates handler) else others)
                (m s).1).1
      go (ok a) e = stop_or_go handler others k (m s).1 (returns.at s (λ _. clean) a e) by_it
      go (err code) e = (handler, by_it)

  check_handlers-OneHandler :
      (handlers : List String) (s : Progress)
      → NoUpdate s
      → OneHandler (check_handlers outside location firmware firmware_targets handlers s).1
  unfolding check_handlers
  check_handlers-OneHandler [] s clean = ("", NoUpdate-AllBy "" s clean)
  check_handlers-OneHandler (h ∷ hs) s clean = elim (Option-cases (lookup h firmware_targets)) [
    | inl e ↦ rw (e, check_handlers) (check_handlers-OneHandler hs s clean)
    | inr (versions, e) ↦
        rw (e, check_handlers)
          (one_handler h (check_handler outside location firmware versions h)
            (check_handlers outside location firmware firmware_targets hs)
            (check_handler-AllBy outside location firmware versions h)
            (check_handler-Clean outside location firmware versions h)
            (check_handlers-OneHandler hs) s clean)
  ]

setup-NoUpdate : (name : String) → Keeps {E = ℕ} NoUpdate (emit (setup name))
unfolding emit
setup-NoUpdate name = record {
  at =
      λ s h. All-append (λ e. IsUpdate e → ⊥) s.events (setup name ∷ []) h ((λ update. update), tt);
}

-- From a state in which nothing has been updated, `m` comes to one where one handler has updated.
record Leads {ℓ} {A : Type ℓ} (m : Job A) : Type 0 where
  pub at : (s : Progress) → NoUpdate s → OneHandler (m s).1

Leads-before {ℓ κ} :
    {A : Type ℓ} {B : Type κ} (m : Job A) (f : A → Job B)
    → Keeps NoUpdate m
    → ((a : A) → Leads (f a))
    → Leads (m >>= f)
Leads-before m f keeps k = record { at = λ s h. go (m s).0 (m s).1 (keeps.at s h) }
  where
    go : (r : Result ℕ _) (s : Progress) → NoUpdate s → OneHandler (continue r f s).1
    go (ok a) s h = (k a).at s h
    go (err e) s h = ("", NoUpdate-AllBy "" s h)

Leads-behind {ℓ κ} :
    {A : Type ℓ} {B : Type κ} (m : Job A) (f : A → Job B)
    → Leads m
    → ((a : A) → Keeps OneHandler (f a))
    → Leads (m >>= f)
Leads-behind m f leads k = record { at = λ s h. go (m s).0 (m s).1 (leads.at s h) }
  where
    go : (r : Result ℕ _) (s : Progress) → OneHandler s → OneHandler (continue r f s).1
    go (ok a) s h = (k a).at s h
    go (err e) s h = h

check_handlers-Leads :
    (outside : Outside) (location : String) (firmware : Dict String (Dict String (List Step)))
    (firmware_targets : Dict String (Dict String String)) (handlers : List String)
    → Leads (check_handlers outside location firmware firmware_targets handlers)
check_handlers-Leads outside location firmware firmware_targets handlers = record {
  at = check_handlers-OneHandler outside location firmware firmware_targets handlers;
}

present-Keeps {ℓ} : {A : Type ℓ} (o : Option (List A)) → Keeps NoUpdate (present o)
present-Keeps none = record { at = λ s h. h }
present-Keeps (some []) = record { at = λ s h. h }
present-Keeps (some (x ∷ xs)) = record { at = λ s h. h }

run_job-Leads : (outside : Outside) (config : Config) → Leads (run_job outside config)
unfolding run_job update_all
run_job-Leads outside config =
    search
      (Leads-before, Leads-behind, check_handlers-Leads, present-Keeps, setup-NoUpdate, keeps_rules)
      depth 20

-- Whatever the handlers, the configuration and the network answer, and whichever code the job ends
-- with: where nothing has been updated before, all the targets that it updates are of one handler.
pub run_job-OneHandler :
    (outside : Outside) (config : Config) (s : Progress)
    → NoUpdate s
    → OneHandler (run_job outside config s).1
run_job-OneHandler outside config = (run_job-Leads outside config).at
