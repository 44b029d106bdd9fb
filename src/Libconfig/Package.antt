-- ===== src/Libconfig/Package.antt =====
-- `Config` of src/libconfig/libconfig.py: the templates of a package, what the database knows of them and
-- of the files they make, and `configPackage`. The templates are rendered by a parameter, the template
-- engine, which gives the `target` blocks of a template in order; what is printed is left out.
pub mod Safe
pub mod Guarded
pub mod Current
pub mod Overwrite
use mathlib.Core.Option
use disks.Libconfig.Rows.{
  TargetRow, TemplateRow, target_built, target_checked, targets_from, template_built,
  template_checked, templates_from, update_targets, update_templates,
}
use disks.Prelude.{
  Bool, List, Option, String, [], contains, false, if◌then◌else◌, ltb, map, nat_key, none, not,
  option_key, some, string_key, true, ℕ, ◌&&◌, ◌++◌, ◌==◌, ◌||◌, ◌∷◌,
}
use disks.Prelude.Dict.{Dict, erase, has_key, insert, lookup}
use disks.Prelude.Exec.{
  Exec, Result, err, for_each, gets, modify, ok, or_raise, pure, raise, ◌>>=◌, ◌>>◌,
}

-- The files, by their path, and the two tables.
pub record World : Type 0 where
  pub files : Dict String String
  pub templates : List TemplateRow
  pub targets : List TargetRow

pub data ConfigError : Type 0 where
  type_error no_file : ConfigError

abbrev pub Act {ℓ} : Type ℓ → Type ℓ
Act A = Exec ConfigError World A

-- What a run is given: the package's templates in the order of the directory, the text of each, None
-- where it is no file; the blocks that a template writes with the values, each a path and a text; the
-- hash; the path where a target is looked for, below the root and below `dest_rootdir`, which is empty for
-- none, and the path it is written to, which is joined from the same parts in another way (the two are
-- the same where `dest_rootdir` is relative or empty); its path for `getTargetStatus`; the name that an old file is saved under; the time of the last change of the values, and the present time.
pub record Package : Type 0 where
  pub name : String
  pub template_list : List String
  pub template_text : String → Option String
  pub render : String → List (String × String)
  pub sha1 : String → String
  pub target_file : (dest_rootdir target : String) → String
  pub written_file : (dest_rootdir target : String) → String
  pub status_file : (target : String) → String
  pub saved_name : String → String
  pub last_modified : ℕ
  pub now : ℕ

pub record Flags : Type 0 where
  pub force : Bool
  pub dry_run : Bool
  pub no_backups : Bool
  pub re_generate : Bool
  pub dest_rootdir : String

-- `_targetFiles`: the names that `_write` collects when it does not write
abbrev pub target_files : Package → String → List String
target_files p template = map (λ block. block.0) (p.render template)

abbrev pub hash_at : Package → String → Dict String String → Option String
hash_at p path files = Option.map p.sha1 (lookup path files)

-- What the loop over the targets has found so far.
pub record Found : Type 0 where
  pub need_build : Bool
  pub no_build : Bool

-- `os.rename( target_file, .. )`
unfoldable pub rename : (from to : String) → Act (Unit {0})
rename from to s = elim (lookup from s.files) [
  | none ↦ (err no_file, s)
  | some content ↦ (
    ok tt,
    record {
      files = insert to content (erase from s.files);
      templates = s.templates;
      targets = s.targets;
    },
  )
]

-- the part from `if need_build and msg` on; the test is whether there is a message
unfoldable pub guard_target :
    Package → Flags → String → (need_build no_build msg : Bool) → Act Found
guard_target p flags path need_build no_build msg =
    if not (need_build && msg)
    then pure (record { need_build = need_build; no_build = no_build })
    else if not flags.force
    then pure (record { need_build = need_build; no_build = true })
    else if flags.no_backups || flags.dry_run
    then pure (record { need_build = need_build; no_build = no_build })
    else rename path (p.saved_name path)
      >> pure (record { need_build = need_build; no_build = no_build })

-- a target that the database knows; the comparison with NULL raises
unfoldable pub judge_known :
    Package
    → Flags
    → String
    → (target_hash : Option String) → TargetRow
    → Found
    → Option ℕ
    → Act Found
judge_known p flags path target_hash row found none = raise type_error
judge_known p flags path none row found (some last_built) =
    guard_target p flags path true found.no_build false
judge_known p flags path (some hash) row found (some last_built) =
    let changed = not (some hash == row.target_hash) in
    guard_target p flags path (found.need_build || ltb last_built p.last_modified || changed)
      found.no_build changed

abbrev pub is_missing {ℓ} : {A : Type ℓ} → Option A → Bool
is_missing none = true
is_missing (some a) = false

-- one round of the loop over the targets
unfoldable pub judge_target : Package → Flags → Dict String TargetRow → Found → String → Act Found
judge_target p flags target_db found target s =
    let path = p.target_file flags.dest_rootdir target in
    let target_hash = hash_at p path s.files in
    let seen : Found = record {
      need_build = found.need_build || is_missing target_hash;
      no_build = found.no_build;
    } in
    elim (lookup target target_db) as (λ _. Result ConfigError Found × World) [
      | none ↦
          guard_target p flags path seen.need_build seen.no_build (not (is_missing target_hash)) s
      | some row ↦ judge_known p flags path target_hash row seen row.last_built s
    ]

unfoldable pub judge_targets :
    Package → Flags → Dict String TargetRow → List String → Found → Act Found
judge_targets p flags target_db [] found = pure found
judge_targets p flags target_db (target ∷ targets) found =
    judge_target p flags target_db found target >>= λ next.
    judge_targets p flags target_db targets next

abbrev pub set_templates : (List TemplateRow → List TemplateRow) → Act (Unit {0})
set_templates f =
    modify (λ s. record { files = s.files; templates = f s.templates; targets = s.targets })

abbrev pub set_targets : (List TargetRow → List TargetRow) → Act (Unit {0})
set_targets f =
    modify (λ s. record { files = s.files; templates = s.templates; targets = f s.targets })

-- a target that was only checked; the flag is `target in target_db_list`
abbrev pub check_one : Package → String → Dict String TargetRow → String → Act (Unit {0})
check_one p template target_db target =
    if has_key target target_db
    then set_targets (update_targets p.name template target (target_checked p.now))
    else set_targets (λ rows.
      rows
      ++ record {
        in_package = p.name;
        template = template;
        target = target;
        target_hash = none;
        last_checked = some p.now;
        last_built = none;
      }
        ∷ [])

-- what is written where nothing has to be built
unfoldable pub note_checked :
    Package → String → (known : Bool) → Dict String TargetRow → Act (Unit {0})
note_checked p template known target_db =
    if known
    then set_templates (update_templates p.name template (template_checked p.now))
      >> for_each (target_files p template) (check_one p template target_db)
    else set_templates (λ rows.
      rows
      ++ record {
        in_package = p.name;
        template = template;
        template_hash = none;
        last_checked = some p.now;
        last_built = none;
      }
        ∷ [])
      >> for_each (target_files p template) (check_one p template [])

-- `_renderTemplate`: each block is written to its file, below the joined root directory
unfoldable pub write_blocks :
    Package → Flags → List (String × String) → Dict String String → Dict String String
write_blocks p flags [] files = files
write_blocks p flags ((target, content) ∷ blocks) files =
    write_blocks p flags blocks (insert (p.written_file flags.dest_rootdir target) content files)

abbrev pub render_template : Package → Flags → String → Act (Unit {0})
render_template p flags template = modify (λ s. record {
  files = write_blocks p flags (p.render template) s.files;
  templates = s.templates;
  targets = s.targets;
})

-- the row of a target that was built, from the file that is there now
abbrev pub note_target : Package → String → (known : Bool) → String → Act (Unit {0})
note_target p template known target =
    gets (λ s. hash_at p (p.target_file "" target) s.files) >>= λ found.
    or_raise found no_file >>= λ hash.
    if known
    then set_targets (update_targets p.name template target (target_built p.now hash))
    else set_targets (λ rows.
      rows
      ++ record {
        in_package = p.name;
        template = template;
        target = target;
        target_hash = some hash;
        last_checked = some p.now;
        last_built = some p.now;
      }
        ∷ [])

-- the rows of a template that was built
unfoldable pub note_built : Package → String → (hash : String) → (known : Bool) → Act (Unit {0})
note_built p template hash known =
    (if known
      then set_templates (update_templates p.name template (template_built p.now hash))
      else set_templates (λ rows.
        rows
        ++ record {
          in_package = p.name;
          template = template;
          template_hash = some hash;
          last_checked = some p.now;
          last_built = some p.now;
        }
          ∷ []))
    >> for_each (target_files p template) (note_target p template known)

-- `not dest_rootdir`
abbrev pub in_place : Flags → Bool
in_place flags = flags.dest_rootdir == ""

-- Whether the template itself asks for a build: it is new, or not the one that was built.
abbrev pub template_changed : (hash : String) → Option (Option String) → Bool
template_changed hash none = true
template_changed hash (some recorded) = not (some hash == recorded)

-- what follows the loop over the targets
unfoldable pub build_template :
    Package
    → Flags
    → String
    → (hash : String) → Dict String (Option String)
    → Dict String TargetRow
    → Found
    → Act (Unit {0})
build_template p flags template hash template_db target_db found =
    let known = has_key template template_db in
    let need_build =
      found.need_build
      || template_changed hash (lookup template template_db)
      || flags.re_generate in
    if found.no_build || flags.dry_run
    then pure tt
    else if not need_build && in_place flags
    then note_checked p template known target_db
    else if in_place flags
    then render_template p flags template >> note_built p template hash known
    else render_template p flags template

-- one template of the package
unfoldable pub config_template :
    Package → Flags → Dict String (Option String) → String → Act (Unit {0})
config_template p flags template_db template = elim (p.template_text template) [
  | none ↦ pure tt
  | some content ↦ gets (λ s. targets_from p.name template [] s.targets) >>= λ target_db.
      judge_targets p flags target_db (target_files p template)
        (record { need_build = false; no_build = false })
      >>= λ found. build_template p flags template (p.sha1 content) template_db target_db found
]

-- `configPackage`
unfoldable pub config_package :
    Package → (master_template_list : List String) → Flags → Act (Unit {0})
config_package p master_template_list flags =
    gets (λ s. templates_from p.name [] s.templates) >>= λ template_db.
    for_each p.template_list λ template.
      if contains master_template_list template
      then config_template p flags template_db template
      else pure tt
