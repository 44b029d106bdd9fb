-- ===== src/Firmware/Run/Settled.antt =====
-- What the job has marked as updated, and what it has updated.
use disks.Firmware.Planner.{Step}
use disks.Firmware.Run.{
  Config, Event, Job, Outside, Progress, Target, after_updates, bring_to, check_handler,
  check_handlers, check_target, emit, exit_code, present, run_job, setup, update_all, update_target,
}
use disks.Prelude.{
  All, All-append, Bool, List, Option, String, [], ap, arith, false, if◌then◌else◌, nat_key, none,
  option_key, some, string_key, sym, true, ℕ, ◌==◌, ◌∙◌, ◌∷◌, ◌≡◌,
}
use disks.Prelude.Dict.{Dict, lookup}
use disks.Prelude.Exec.{
  bind-eq-ok, for_each, gets, modify, ok, ok-inj, or_raise, pure, raise_if, ◌>>=◌,
}
use mathlib.Core.Path.{subst}

abbrev pub IsUpdate : Event → Type 0
IsUpdate (update_target h target file) = Unit
IsUpdate _ = ⊥

-- Nothing has been updated.
abbrev pub NoUpdate : Progress → Type 0
NoUpdate s = All (λ e. IsUpdate e → ⊥) s.events

-- Where `m` returns, `P` holds, whatever held before.
pub record Ensures {ℓ} {A : Type ℓ} (P : Progress → Type 0) (m : Job A) : Type ℓ where
  pub at : (s : Progress) (a : A) → (m s).0 ≡ ok a → P (m s).1

-- Where `m` returns, it has kept `P`.
pub record Returns {ℓ} {A : Type ℓ} (P : Progress → Type 0) (m : Job A) : Type ℓ where
  pub at : (s : Progress) → P s → (a : A) → (m s).0 ≡ ok a → P (m s).1

module _ {P : Progress → Type 0} where
  Ensures-bind {ℓ κ} :
      {A : Type ℓ} {B : Type κ} (m : Job A) (f : A → Job B)
      → ((a : A) → Ensures P (f a))
      → Ensures P (m >>= f)
  Ensures-bind m f k = record {
    at = λ s b h.
        let (a, returns, same) = bind-eq-ok m f s b h in
        subst (λ r. P r.1) (sym same) ((k a).at (m s).1 b (ap (λ r. r.0) (sym same) ∙ h));
  }

  Returns-pure {ℓ} : {A : Type ℓ} (a : A) → Returns P (pure a)
  Returns-pure a = record { at = λ s p b h. p }

  Returns-always {ℓ} : {A : Type ℓ} (m : Job A) → Ensures P m → Returns P m
  Returns-always m k = record { at = λ s p. k.at s }

  Returns-if {ℓ} :
      {A : Type ℓ} (b : Bool) (m n : Job A)
      → Returns P m
      → Returns P n
      → Returns P (if b then m else n)
  Returns-if true m n k l = k
  Returns-if false m n k l = l

  Returns-elim {ℓ κ} :
      {A : Type ℓ} {B : Type κ} (o : Option A) (m : Job B) (f : A → Job B)
      → Returns P m
      → ((a : A) → Returns P (f a))
      → Returns P (elim o [ none ↦ m | some a ↦ f a ])
  Returns-elim none m f k l = k
  Returns-elim (some a) m f k l = l a

  Returns-or_raise {ℓ} : {A : Type ℓ} (o : Option A) (e : ℕ) → Returns P (or_raise o e)
  Returns-or_raise none e = record { at = λ s p b h. p }
  Returns-or_raise (some a) e = record { at = λ s p b h. p }

  Returns-bind {ℓ κ} :
      {A : Type ℓ} {B : Type κ} (m : Job A) (f : A → Job B)
      → Returns P m
      → ((a : A) → Returns P (f a))
      → Returns P (m >>= f)
  Returns-bind m f k l = record {
    at = λ s p b h.
        let (a, returns, same) = bind-eq-ok m f s b h in
        subst (λ r. P r.1) (sym same)
          ((l a).at (m s).1 (k.at s p a returns) b (ap (λ r. r.0) (sym same) ∙ h));
  }

  Returns-for_each {ℓ} :
      {A : Type ℓ} (xs : List A) (body : A → Job (Unit {0}))
      → ((a : A) → Returns P (body a))
      → Returns P (for_each xs body)
  unfolding for_each
  Returns-for_each [] body k = Returns-pure tt
  Returns-for_each (x ∷ xs) body k = Returns-bind (body x) _ (k x) (λ _. Returns-for_each xs body k)

-- As long as nothing is marked as updated, nothing has been.
abbrev pub Clean : Progress → Type 0
Clean s = s.dirty ≡ false → NoUpdate s

true≢false : true ≡ false → ⊥
true≢false h = cc

mark-Clean : Ensures Clean (modify (λ s. record s { dirty = true }))
mark-Clean = record { at = λ s a h clean. absurd (true≢false clean) }

bring_to-Clean :
    (outside : Outside) (location : String) (firmware_map : Dict String (List Step))
    (handler : String) (t : Target) (target_version : String)
    → Ensures Clean (bring_to outside location firmware_map handler t target_version)
unfolding bring_to
bring_to-Clean outside location firmware_map handler t target_version =
    search (Ensures-bind, mark-Clean) depth 25

check_target-Clean :
    (outside : Outside) (location : String) (firmware_map : Dict String (List Step))
    (version_map : Dict String String) (handler : String) (t : Target)
    → Returns Clean (check_target outside location firmware_map version_map handler t)
unfolding check_target
check_target-Clean outside location firmware_map version_map handler t =
    Returns-elim (lookup t.model version_map) (pure tt) _ (Returns-pure tt) λ v.
      Returns-if (t.version == v) (pure tt) (bring_to outside location firmware_map handler t v)
        (Returns-pure tt)
        (Returns-always _ (bring_to-Clean outside location firmware_map handler t v))

pub check_handler-Clean :
    (outside : Outside) (location : String) (firmware : Dict String (Dict String (List Step)))
    (version_map : Dict String String) (handler : String)
    → Returns Clean (check_handler outside location firmware version_map handler)
unfolding check_handler
check_handler-Clean outside location firmware version_map handler =
    search (Returns-bind, Returns-or_raise, Returns-for_each, check_target-Clean) depth 12

emit-Clean : (event : Event) → (IsUpdate event → ⊥) → Returns Clean (emit event)
unfolding emit
emit-Clean event other = record {
  at =
      λ s h a e clean. All-append (λ e. IsUpdate e → ⊥) s.events (event ∷ []) (h clean) (other, tt);
}

check_handlers-Clean :
    (outside : Outside) (location : String) (firmware : Dict String (Dict String (List Step)))
    (firmware_targets : Dict String (Dict String String)) (handlers : List String)
    → Returns Clean (check_handlers outside location firmware firmware_targets handlers)
unfolding check_handlers
check_handlers-Clean outside location firmware firmware_targets [] = Returns-pure tt
check_handlers-Clean outside location firmware firmware_targets (h ∷ hs) =
    Returns-elim (lookup h firmware_targets)
      (check_handlers outside location firmware firmware_targets hs) _
      (check_handlers-Clean outside location firmware firmware_targets hs)
      λ versions.
        Returns-bind (check_handler outside location firmware versions h) _
          (check_handler-Clean outside location firmware versions h)
          λ _.
            Returns-bind (gets (λ s. s.dirty)) _ (record { at = λ s p a e. p })
              λ dirty.
                Returns-if dirty (emit (after_updates h))
                  (check_handlers outside location firmware firmware_targets hs)
                  (emit-Clean (after_updates h) (λ update. update))
                  (check_handlers-Clean outside location firmware firmware_targets hs)

setup-Clean : (name : String) → Returns Clean (emit (setup name))
setup-Clean name = emit-Clean (setup name) (λ update. update)

Returns-raise_if : (b : Bool) (e : ℕ) → Returns Clean (raise_if b e)
Returns-raise_if true e = record { at = λ s p a h. p }
Returns-raise_if false e = record { at = λ s p a h. p }

Returns-present {ℓ} : {A : Type ℓ} (o : Option (List A)) → Returns Clean (present o)
Returns-present none = record { at = λ s p a h. p }
Returns-present (some []) = record { at = λ s p a h. p }
Returns-present (some (x ∷ xs)) = record { at = λ s p a h. p }

update_all-Clean : (outside : Outside) (config : Config) → Returns Clean (update_all outside config)
unfolding update_all
update_all-Clean outside config =
    search
      (
        Returns-bind, Returns-or_raise, Returns-raise_if, Returns-present, Returns-for_each,
        setup-Clean, check_handlers-Clean,
      )
      depth 20

-- Where the job ends with the code 0, it has updated nothing, if nothing had been updated before: every
-- run that has updated a target asks for the reboot, or ends with an error.
pub run_job-NoUpdate :
    (outside : Outside) (config : Config) (s : Progress)
    → NoUpdate s
    → (run_job outside config s).0 ≡ ok 0
    → NoUpdate (run_job outside config s).1
unfolding run_job
run_job-NoUpdate outside config s clean h =
    let (a, returns, same) =
      bind-eq-ok (update_all outside config)
        (λ _. gets (λ s. s.dirty) >>= λ dirty. pure (exit_code dirty)) s 0 h in
    let s' = (update_all outside config s).1 in
    let code : exit_code s'.dirty ≡ 0 = ok-inj _ 0 (ap (λ r. r.0) (sym same) ∙ h) in
    subst (λ r. NoUpdate r.1) (sym same)
      ((update_all-Clean outside config).at s (λ _. clean) a returns (not_dirty s'.dirty code))
  where
    not_dirty : (b : Bool) → exit_code b ≡ 0 → b ≡ false
    not_dirty b h = ground arith
