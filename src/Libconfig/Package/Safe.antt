-- ===== src/Libconfig/Package/Safe.antt =====
-- What `configPackage` leaves alone.
use disks.Filesystem.Samples.{start}
use disks.Libconfig.Package.{
  Act, ConfigError, Flags, Found, Package, World, build_template, config_package, config_template,
  guard_target, judge_known, judge_target, judge_targets, rename, target_files,
}
use disks.Libconfig.Rows.{TargetRow, targets_from, templates_from}
use disks.Prelude.{
  Bool, List, Option, Option-cases, String, [], ap, arith, contains, false, if◌then◌else◌, inl, inr,
  nat_key, none, not, option_key, refl, some, string_key, sym, true, ℕ, ◌&&◌, ◌||◌, ◌∙◌, ◌∷◌, ◌≡◌,
}
use disks.Prelude.Dict.{Dict, lookup}
use disks.Prelude.Exec.{Result, continue, err, ok, pure, ◌>>◌}
use disks.Prelude.Exec.Keeps.{Keeps, Keeps-for_each, Keeps-if, Keeps-pure}
use mathlib.Core.Path.{subst}

-- No file is renamed.
abbrev pub KeepsFiles : Flags → Type 0
KeepsFiles flags = (flags.force && not (flags.no_backups || flags.dry_run)) ≡ false

guard_target-state :
    (p : Package) (flags : Flags) (path : String) (need no_build msg : Bool) (s : World)
    → KeepsFiles flags
    → (guard_target p flags path need no_build msg s).1 ≡ s
unfolding guard_target
guard_target-state p flags path need no_build msg s h =
    go (not (need && msg)) flags.force (flags.no_backups || flags.dry_run) h
  where
    found : Bool → Found
    found b = record { need_build = need; no_build = b }

    go :
        (a b c : Bool)
        → (b && not c) ≡ false
        → ((if a
              then pure (found no_build)
              else if not b
              then pure (found true)
              else if c
              then pure (found no_build)
              else rename path (p.saved_name path) >> pure (found no_build))
            s).1
          ≡ s
    go true b c h = refl
    go false false c h = refl
    go false true true h = refl
    go false true false h = absurd (clash h)
      where
        clash : true ≡ false → ⊥
        clash h = cc

judge_known-state :
    (p : Package) (flags : Flags) (path : String) (hash : Option String) (row : TargetRow)
    (found : Found) (built : Option ℕ) (s : World)
    → KeepsFiles flags
    → (judge_known p flags path hash row found built s).1 ≡ s
unfolding judge_known
judge_known-state p flags path hash row found none s h = refl
judge_known-state p flags path none row found (some built) s h =
    guard_target-state p flags path _ _ _ s h
judge_known-state p flags path (some hash) row found (some built) s h =
    guard_target-state p flags path _ _ _ s h

pub judge_target-state :
    (p : Package) (flags : Flags) (target_db : Dict String TargetRow) (found : Found)
    (target : String) (s : World)
    → KeepsFiles flags
    → (judge_target p flags target_db found target s).1 ≡ s
unfolding judge_target
judge_target-state p flags target_db found target s h =
    elim (Option-cases (lookup target target_db)) [
      | inl e ↦ rw (e, judge_target) (guard_target-state p flags _ _ _ _ s h)
      | inr (row, e) ↦ rw (e, judge_target) (judge_known-state p flags _ _ row _ row.last_built s h)
    ]

pub judge_targets-state :
    (p : Package) (flags : Flags) (target_db : Dict String TargetRow) (targets : List String)
    (found : Found) (s : World)
    → KeepsFiles flags
    → (judge_targets p flags target_db targets found s).1 ≡ s
unfolding judge_targets
judge_targets-state p flags target_db [] found s h = refl
judge_targets-state p flags target_db (target ∷ targets) found s h =
    go (judge_target p flags target_db found target s)
      (judge_target-state p flags target_db found target s h)
      (λ next t. judge_targets-state p flags target_db targets next t h)
  where
    next_of : Found → Act Found
    next_of next = judge_targets p flags target_db targets next

    go :
        (r : Result ConfigError Found × World)
        → r.1 ≡ s
        → ((next : Found) (t : World) → (next_of next t).1 ≡ t)
        → (continue r.0 next_of r.1).1 ≡ s
    go (ok next, t) same ih = ih next t ∙ same
    go (err e, t) same ih = same

-- The rest of a template, where the loop over its targets changes nothing and what follows keeps P.
pub config_template-rest :
    (P : World → Type 0) (p : Package) (flags : Flags) (template_db : Dict String (Option String))
    (template : String) (s : World)
    → KeepsFiles flags
    → P s
    → ((content : String) (target_db : Dict String TargetRow) (found : Found)
        → (judge_targets p flags target_db
            (target_files p template)
            (record { need_build = false; no_build = false })
            s).0
          ≡ ok found
        → target_db ≡ targets_from p.name template [] s.targets
        → P (build_template p flags template (p.sha1 content) template_db target_db found s).1)
    → P (config_template p flags template_db template s).1
unfolding config_template
config_template-rest P p flags template_db template s h start rest =
    elim (Option-cases (p.template_text template)) [
      | inl e ↦ rw (e, config_template) start
      | inr (content, e) ↦
          rw (e, config_template)
            (go content judged refl
              (judge_targets-state p flags db (target_files p template) _ s h))
    ]
  where
    db : Dict String TargetRow
    db = targets_from p.name template [] s.targets

    judged : Result ConfigError Found × World
    judged =
        judge_targets p flags db (target_files p template)
          (record { need_build = false; no_build = false }) s

    next_of : String → Found → Act (Unit {0})
    next_of content found = build_template p flags template (p.sha1 content) template_db db found

    go :
        (content : String) (r : Result ConfigError Found × World)
        → judged ≡ r
        → r.1 ≡ s
        → P (continue r.0 (next_of content) r.1).1
    go content (ok found, t) same still =
        subst (λ u. P (next_of content found u).1) (sym still)
          (rest content db found (ap (λ q. q.0) same) refl)
    go content (err e, t) same still = subst P (sym still) start

pub build_template-idle :
    (p : Package) (flags : Flags) (template hash : String)
    (template_db : Dict String (Option String)) (target_db : Dict String TargetRow) (found : Found)
    (s : World)
    → (found.no_build || flags.dry_run) ≡ true
    → (build_template p flags template hash template_db target_db found s).1 ≡ s
unfolding build_template
build_template-idle p flags template hash template_db target_db found s h =
    rw (h, build_template) refl

config_template-dry_run :
    (p : Package) (flags : Flags) (template_db : Dict String (Option String)) (template : String)
    (s : World)
    → flags.dry_run ≡ true
    → (config_template p flags template_db template s).1 ≡ s
config_template-dry_run p flags template_db template s dry =
    config_template-rest (λ t. t ≡ s) p flags template_db template s (keeps flags dry) refl
      (λ content target_db found h e.
        build_template-idle p flags template _ template_db target_db found s
          (idle found.no_build flags.dry_run dry))
  where
    keeps : (flags : Flags) → flags.dry_run ≡ true → KeepsFiles flags
    keeps flags h = ground arith

    idle : (a b : Bool) → b ≡ true → (a || b) ≡ true
    idle a b h = ground arith

-- A dry run changes nothing, for any package, templates, flags and database, whether it ends or raises:
-- no file is written or renamed, and no row is.
pub config_package-dry_run :
    (p : Package) (master_template_list : List String) (flags : Flags) (s : World)
    → flags.dry_run ≡ true
    → (config_package p master_template_list flags s).1 ≡ s
unfolding config_package
config_package-dry_run p master_template_list flags s dry =
    (Keeps-for_each p.template_list _ (λ template.
        Keeps-if (contains master_template_list template) _ _ (same_state template)
          (Keeps-pure tt))).at
      s refl
  where
    same_state :
        (template : String)
        → Keeps
            (λ t. t ≡ s)
            (config_template p flags (templates_from p.name [] s.templates) template)
    same_state template = record {
      at = λ t h. config_template-dry_run p flags _ template t dry ∙ h;
    }
