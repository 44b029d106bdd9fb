-- ===== src/Libconfig/Package/Guarded.antt =====
-- Targets that were changed since they were built.
use disks.Libconfig.Package.{
  ConfigError, Flags, Found, Package, World, config_template, guard_target, hash_at, is_missing,
  judge_known, judge_target, judge_targets, rename, target_files,
}
use disks.Libconfig.Package.Safe.{
  KeepsFiles, build_template-idle, config_template-rest, judge_target-state,
}
use disks.Libconfig.Rows.{TargetRow, targets_from}
use disks.Prelude.{
  Bool, List, Option, String, [], ap, arith, false, if◌then◌else◌, inl, inr, ltb, nat_key, none,
  not, option_key, refl, some, string_key, sym, true, ℕ, ◌&&◌, ◌++◌, ◌==◌, ◌||◌, ◌∙◌, ◌∷◌, ◌≡◌, ◌⊎◌,
}
use disks.Prelude.Dict.{Dict, lookup}
use disks.Prelude.Exec.{Result, bind-eq-ok, ok, ok-inj, pure, ◌>>◌}
use mathlib.Core.Path.{subst}

-- A target that the database knows, whose file is there and is not the one that was built.
abbrev pub IsChanged : Package → Flags → Dict String TargetRow → World → String → Type 0
IsChanged p flags target_db s target =
    (row : TargetRow) × (hash : String) × (lookup target target_db ≡ some row)
    × (hash_at p (p.target_file flags.dest_rootdir target) s.files ≡ some hash)
    × ((some hash == row.target_hash) ≡ false)

guard_target-no_build :
    (p : Package) (flags : Flags) (path : String) (need no_build msg : Bool) (s : World) (g : Found)
    → flags.force ≡ false
    → (guard_target p flags path need no_build msg s).0 ≡ ok g
    → (no_build ≡ true) ⊎ ((need && msg) ≡ true)
    → g.no_build ≡ true
unfolding guard_target
guard_target-no_build p flags path need no_build msg s g unforced h why =
    go (need && msg) flags.force unforced h why
  where
    found : Bool → Found
    found b = record { need_build = need; no_build = b }

    go :
        (a b : Bool)
        → b ≡ false
        → ((if not a
              then pure (found no_build)
              else if not b
              then pure (found true)
              else if flags.no_backups || flags.dry_run
              then pure (found no_build)
              else rename path (p.saved_name path) >> pure (found no_build))
            s).0
          ≡ ok g
        → (no_build ≡ true) ⊎ (a ≡ true)
        → g.no_build ≡ true
    go true false k h why = ap (λ f. f.no_build) (sym (ok-inj (found true) g h))
    go false false k h (inl yes_lem) =
        ap (λ f. f.no_build) (sym (ok-inj (found no_build) g h)) ∙ yes_lem
    go false false k h (inr e) = cc
    go a true k h why = cc

some_inj : (a b : TargetRow) → some a ≡ some b → a ≡ b
some_inj a b h = cc

IsOther : Option String → Option String → Type 0
IsOther target_hash recorded =
    (hash : String) × (target_hash ≡ some hash) × ((some hash == recorded) ≡ false)

judge_known-no_build :
    (p : Package) (flags : Flags) (path : String) (target_hash : Option String) (row : TargetRow)
    (found : Found) (built : Option ℕ) (s : World) (g : Found)
    → flags.force ≡ false
    → (judge_known p flags path target_hash row found built s).0 ≡ ok g
    → (found.no_build ≡ true) ⊎ IsOther target_hash row.target_hash
    → g.no_build ≡ true
unfolding judge_known IsOther
judge_known-no_build p flags path target_hash row found none s g unforced h why = cc
judge_known-no_build p flags path none row found (some built) s g unforced h (inl no_lem) =
    guard_target-no_build p flags path _ _ _ s g unforced h (inl no_lem)
judge_known-no_build p flags path none row found (some built) s g unforced h (inr (hash, e, d)) = cc
judge_known-no_build p flags path (some hash) row found (some built) s g unforced h (inl no_lem) =
    guard_target-no_build p flags path _ _ _ s g unforced h (inl no_lem)
judge_known-no_build p flags path (some hash) row found (some built) s g unforced h
      (inr (other, e, d)) =
    guard_target-no_build p flags path _ _ _ s g unforced h (
      inr (
        both found.need_build (ltb built p.last_modified) (some hash == row.target_hash)
          (ap (λ o. o == row.target_hash) e ∙ d)))
  where
    both : (a b c : Bool) → c ≡ false → ((a || b || not c) && not c) ≡ true
    both a b c h = ground arith

-- Whatever the loop has found, a changed target forbids the build, and nothing allows it again.
judge_target-no_build :
    (p : Package) (flags : Flags) (target_db : Dict String TargetRow) (found : Found)
    (target : String) (s : World) (g : Found)
    → flags.force ≡ false
    → (judge_target p flags target_db found target s).0 ≡ ok g
    → (found.no_build ≡ true) ⊎ IsChanged p flags target_db s target
    → g.no_build ≡ true
unfolding judge_target IsOther
judge_target-no_build p flags target_db found target s g unforced h why =
    go (lookup target target_db) refl (hash_at p path s.files) refl h why
  where
    path : String
    path = p.target_file flags.dest_rootdir target

    outcome : Option TargetRow → Option String → Result ConfigError Found × World
    outcome row target_hash =
        let seen : Found = record {
          need_build = found.need_build || is_missing target_hash;
          no_build = found.no_build;
        } in
        elim row as (λ _. Result ConfigError Found × World) [
          | none ↦
              guard_target p flags path seen.need_build seen.no_build (not (is_missing target_hash))
                s
          | some row ↦ judge_known p flags path target_hash row seen row.last_built s
        ]

    go :
        (row : Option TargetRow)
        → lookup target target_db ≡ row
        → (target_hash : Option String) → hash_at p path s.files ≡ target_hash
        → (outcome row target_hash).0 ≡ ok g
        → (found.no_build ≡ true) ⊎ IsChanged p flags target_db s target
        → g.no_build ≡ true
    go none e hash k h (inl no_lem) =
        guard_target-no_build p flags path _ _ _ s g unforced h (inl no_lem)
    go none e hash k h (inr changed) = cc
    go (some row) e hash k h why =
        judge_known-no_build p flags path hash row _ row.last_built s g unforced h (elim why [
          | inl no_lem ↦ inl no_lem
          | inr changed ↦ inr (
            changed.1,
            sym k ∙ changed.3,
            subst (λ r. (some changed.1 == r.target_hash) ≡ false)
                (some_inj changed.0 row (sym changed.2 ∙ e)) changed.4,
          )
        ])

unforced-KeepsFiles : (flags : Flags) → flags.force ≡ false → KeepsFiles flags
unforced-KeepsFiles flags h = ground arith

-- the first round of the loop that has ended, and the others
judge_targets-step :
    (p : Package) (flags : Flags) (target_db : Dict String TargetRow) (target : String)
    (targets : List String) (found : Found) (s : World) (g : Found)
    → flags.force ≡ false
    → (judge_targets p flags target_db (target ∷ targets) found s).0 ≡ ok g
    → (next : Found) × ((judge_target p flags target_db found target s).0 ≡ ok next)
      × ((judge_targets p flags target_db targets next s).0 ≡ ok g)
unfolding judge_targets
judge_targets-step p flags target_db target targets found s g unforced h =
    let next_of = λ (next : Found). judge_targets p flags target_db targets next in
    let first = bind-eq-ok (judge_target p flags target_db found target) next_of s g h in
    let still =
      judge_target-state p flags target_db found target s (unforced-KeepsFiles flags unforced) in
    (
      first.0,
      first.1,
      ap (λ t. (next_of first.0 t).0) (sym still) ∙ ap (λ r. r.0) (sym first.2) ∙ h,
    )

judge_targets-stays :
    (p : Package) (flags : Flags) (target_db : Dict String TargetRow) (targets : List String)
    (found : Found) (s : World) (g : Found)
    → flags.force ≡ false
    → (judge_targets p flags target_db targets found s).0 ≡ ok g
    → found.no_build ≡ true
    → g.no_build ≡ true
unfolding judge_targets
judge_targets-stays p flags target_db [] found s g unforced h skip =
    ap (λ f. f.no_build) (sym (ok-inj found g h)) ∙ skip
judge_targets-stays p flags target_db (target ∷ targets) found s g unforced h skip =
    let first = judge_targets-step p flags target_db target targets found s g unforced h in
    judge_targets-stays p flags target_db targets first.0 s g unforced first.2
      (judge_target-no_build p flags target_db found target s first.0 unforced first.1 (inl skip))

judge_targets-no_build :
    (p : Package) (flags : Flags) (target_db : Dict String TargetRow) (before : List String)
    (target : String) (behind : List String) (found : Found) (s : World) (g : Found)
    → flags.force ≡ false
    → (judge_targets p flags target_db (before ++ target ∷ behind) found s).0 ≡ ok g
    → IsChanged p flags target_db s target
    → g.no_build ≡ true
judge_targets-no_build p flags target_db [] target behind found s g unforced h changed =
    let first = judge_targets-step p flags target_db target behind found s g unforced h in
    judge_targets-stays p flags target_db behind first.0 s g unforced first.2 (
      judge_target-no_build p flags target_db found target s first.0 unforced first.1 (inr changed))
judge_targets-no_build p flags target_db (b ∷ before) target behind found s g unforced h changed =
    let first =
      judge_targets-step p flags target_db b (before ++ target ∷ behind) found s g unforced h in
    judge_targets-no_build p flags target_db before target behind first.0 s g unforced first.2
      changed

-- Without `force`, a template with a target that was changed since it was built is left alone: where the
-- database knows the target, its file is there, and the hash of the file is not the one that is recorded,
-- nothing is written, no other target of the template either, and no row of the database changes.
pub config_template-IsChanged :
    (p : Package) (flags : Flags) (template_db : Dict String (Option String)) (template : String)
    (before : List String) (target : String) (behind : List String) (s : World)
    → flags.force ≡ false
    → target_files p template ≡ before ++ target ∷ behind
    → IsChanged p flags (targets_from p.name template [] s.targets) s target
    → (config_template p flags template_db template s).1 ≡ s
config_template-IsChanged p flags template_db template before target behind s unforced targets
      changed =
    config_template-rest (λ t. t ≡ s) p flags template_db template s
      (unforced-KeepsFiles flags unforced) refl
      (λ content target_db found h e.
        build_template-idle p flags template _ template_db target_db found s (
          skipped found.no_build flags.dry_run (
            judge_targets-no_build p flags target_db before target behind _ s found unforced
              (ap
                  (λ l.
                    (judge_targets p flags target_db l
                      (record { need_build = false; no_build = false }) s).0)
                  (sym targets)
                ∙ h)
              (subst (λ db. IsChanged p flags db s target) (sym e) changed))))
  where
    skipped : (a b : Bool) → a ≡ true → (a || b) ≡ true
    skipped a b h = ground arith
