-- ===== src/Libconfig/Package/Current.antt =====
-- Templates that are up to date.
use disks.Libconfig.Package.{
  Act, Flags, Found, Package, World, build_template, check_one, config_template, guard_target,
  hash_at, in_place, judge_known, judge_target, judge_targets, note_built, note_checked,
  note_target, set_targets, set_templates, target_files,
}
use disks.Libconfig.Rows.{TargetRow, TemplateRow, targets_from}
use disks.Prelude.{
  All, Bool, List, Option, String, [], false, if◌then◌else◌, ltb, nat_key, option_key, refl, some,
  string_key, true, ℕ, ◌==◌, ◌∷◌, ◌≡◌,
}
use disks.Prelude.Dict.{Dict, has_key, lookup, same_refl}
use disks.Prelude.Exec.{ok, pure}
use disks.Prelude.Exec.Keeps.{Keeps, Keeps-bind, Keeps-for_each, Keeps-if, keeps_rules}

-- The database knows the target, its file is the one that was built, and the values are not newer.
abbrev pub IsCurrent : Package → Flags → Dict String TargetRow → World → String → Type 0
IsCurrent p flags target_db s target =
    (row : TargetRow) × (hash : String) × (built : ℕ) × (lookup target target_db ≡ some row)
    × (row.last_built ≡ some built)
    × (hash_at p (p.target_file flags.dest_rootdir target) s.files ≡ some hash)
    × ((some hash == row.target_hash) ≡ true)
    × (ltb built p.last_modified ≡ false)

abbrev nothing_found : Found
nothing_found = record { need_build = false; no_build = false }

judge_known-current :
    (p : Package) (flags : Flags) (path hash : String) (row : TargetRow) (built : ℕ) (s : World)
    → (some hash == row.target_hash) ≡ true
    → ltb built p.last_modified ≡ false
    → judge_known p flags path (some hash) row nothing_found (some built) s ≡ (ok nothing_found, s)
unfolding judge_known guard_target
judge_known-current p flags path hash row built s same old = rw same (rw old refl)

judge_target-current :
    (p : Package) (flags : Flags) (target_db : Dict String TargetRow) (target : String) (s : World)
    → IsCurrent p flags target_db s target
    → judge_target p flags target_db nothing_found target s ≡ (ok nothing_found, s)
unfolding judge_target judge_known
judge_target-current p flags target_db target s
      (row, hash, built, known, was_built, there, same, old) =
    rw (known, judge_target)
      (rw was_built (rw there (judge_known-current p flags _ hash row built s same old)))

judge_targets-current :
    (p : Package) (flags : Flags) (target_db : Dict String TargetRow) (targets : List String)
    (s : World)
    → All (IsCurrent p flags target_db s) targets
    → judge_targets p flags target_db targets nothing_found s ≡ (ok nothing_found, s)
unfolding judge_targets
judge_targets-current p flags target_db [] s h = refl
judge_targets-current p flags target_db (target ∷ targets) s h =
    rw (judge_target-current p flags target_db target s h.0)
      (judge_targets-current p flags target_db targets s h.1)

module _ (files : Dict String String) where
  abbrev pub SameFiles : World → Type 0
  SameFiles s = s.files ≡ files

  pub Keeps-set_templates :
      (f : List TemplateRow → List TemplateRow) → Keeps SameFiles (set_templates f)
  Keeps-set_templates f = record { at = λ s h. h }

  pub Keeps-set_targets : (f : List TargetRow → List TargetRow) → Keeps SameFiles (set_targets f)
  Keeps-set_targets f = record { at = λ s h. h }

  Keeps-check_one :
      (p : Package) (template : String) (target_db : Dict String TargetRow) (target : String)
      → Keeps SameFiles (check_one p template target_db target)
  Keeps-check_one p template target_db target =
      Keeps-if (has_key target target_db) _ _ (Keeps-set_targets _) (Keeps-set_targets _)

  Keeps-note_checked :
      (p : Package) (template : String) (known : Bool) (target_db : Dict String TargetRow)
      → Keeps SameFiles (note_checked p template known target_db)
  unfolding note_checked
  Keeps-note_checked p template known target_db =
      Keeps-if known _ _
        (Keeps-bind (set_templates _) _ (Keeps-set_templates _)
          λ _. Keeps-for_each (target_files p template) _ (Keeps-check_one p template target_db))
        (Keeps-bind (set_templates _) _ (Keeps-set_templates _)
          λ _. Keeps-for_each (target_files p template) _ (Keeps-check_one p template []))

build_template-current :
    (p : Package) (flags : Flags) (template hash : String)
    (template_db : Dict String (Option String)) (target_db : Dict String TargetRow) (s : World)
    → lookup template template_db ≡ some (some hash)
    → flags.re_generate ≡ false
    → in_place flags ≡ true
    → (build_template p flags template hash template_db target_db nothing_found s).1.files ≡ s.files
unfolding build_template
build_template-current p flags template hash template_db target_db s known no_regen here =
    rw (known, build_template)
      (rw (same_refl (some hash)) (rw no_regen (rw here (rest flags.dry_run))))
  where
    noted : Act (Unit {0})
    noted = note_checked p template (has_key template template_db) target_db

    rest : (dry : Bool) → ((if dry then pure tt else noted) s).1.files ≡ s.files
    rest true = refl
    rest false =
        (Keeps-note_checked s.files p template (has_key template template_db) target_db).at s refl

module _ (files : Dict String String) where
  Keeps-note_target :
      (p : Package) (template : String) (known : Bool) (target : String)
      → Keeps (SameFiles files) (note_target p template known target)
  Keeps-note_target p template known target = search (keeps_rules, Keeps-set_targets files) depth 8

  -- The rows of a build leave the files alone.
  pub Keeps-note_built :
      (p : Package) (template hash : String) (known : Bool)
      → Keeps (SameFiles files) (note_built p template hash known)
  unfolding note_built
  Keeps-note_built p template hash known =
      search (keeps_rules, Keeps-set_templates files, Keeps-note_target p template known) depth 8

-- A template that is up to date writes no file: where the database has the template with the hash that its
-- text has now, and each of its targets is current, then without `re_generate` and without another root
-- directory every file stays as it is, with or without `force`.
pub config_template-IsCurrent :
    (p : Package) (flags : Flags) (template_db : Dict String (Option String))
    (template content : String) (s : World)
    → p.template_text template ≡ some content
    → lookup template template_db ≡ some (some (p.sha1 content))
    → All
        (IsCurrent p flags (targets_from p.name template [] s.targets) s)
        (target_files p template)
    → flags.re_generate ≡ false
    → in_place flags ≡ true
    → (config_template p flags template_db template s).1.files ≡ s.files
unfolding config_template
config_template-IsCurrent p flags template_db template content s there known current no_regen here =
    rw (there, config_template)
      (rw
        (judge_targets-current p flags (targets_from p.name template [] s.targets)
          (target_files p template) s current)
        (build_template-current p flags template (p.sha1 content) template_db _ s known no_regen
          here))
