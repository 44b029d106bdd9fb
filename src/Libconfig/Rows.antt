-- ===== src/Libconfig/Rows.antt =====
-- The tables of the database that src/libconfig/libconfig.py keeps, and the statements on them.
use disks.Prelude.{
  List, Option, String, [], if◌then◌else◌, nat_key, option_key, some, string_key, ℕ, ◌&&◌, ◌==◌,
  ◌∷◌,
}
use disks.Prelude.Dict.{Dict, insert}

-- A row of "templates" and one of "targets". A time is a number; None is NULL.
pub record TemplateRow : Type 0 where
  pub in_package : String
  pub template : String
  pub template_hash : Option String
  pub last_checked : Option ℕ
  pub last_built : Option ℕ

pub record TargetRow : Type 0 where
  pub in_package : String
  pub template : String
  pub target : String
  pub target_hash : Option String
  pub last_checked : Option ℕ
  pub last_built : Option ℕ

-- `_getTemplates`: the hash of each template; of two rows, the later one counts
unfoldable pub templates_from :
    String → Dict String (Option String) → List TemplateRow → Dict String (Option String)
templates_from wanted known [] = known
templates_from wanted known (row ∷ rows) =
    templates_from wanted
      (if row.in_package == wanted then insert row.template row.template_hash known else known) rows

-- `_getTargets`
unfoldable pub targets_from :
    (wanted template : String) → Dict String TargetRow → List TargetRow → Dict String TargetRow
targets_from wanted template known [] = known
targets_from wanted template known (row ∷ rows) =
    targets_from wanted template
      (if row.in_package == wanted && row.template == template
        then insert row.target row known
        else known)
      rows

-- UPDATE "templates" .. WHERE "package" = ? AND "template" = ?
unfoldable pub update_templates :
    (wanted template : String) → (TemplateRow → TemplateRow) → List TemplateRow → List TemplateRow
update_templates wanted template change [] = []
update_templates wanted template change (row ∷ rows) =
    (if row.in_package == wanted && row.template == template then change row else row)
    ∷ update_templates wanted template change rows

-- UPDATE "targets" .. WHERE "package" = ? AND "template" = ? AND "target" = ?
unfoldable pub update_targets :
    (wanted template target : String) → (TargetRow → TargetRow) → List TargetRow → List TargetRow
update_targets wanted template target change [] = []
update_targets wanted template target change (row ∷ rows) =
    (if row.in_package == wanted && row.template == template && row.target == target
      then change row
      else row)
    ∷ update_targets wanted template target change rows

abbrev pub template_checked : ℕ → TemplateRow → TemplateRow
template_checked now row = record {
  in_package = row.in_package;
  template = row.template;
  template_hash = row.template_hash;
  last_checked = some now;
  last_built = row.last_built;
}

abbrev pub template_built : ℕ → String → TemplateRow → TemplateRow
template_built now hash row = record {
  in_package = row.in_package;
  template = row.template;
  template_hash = some hash;
  last_checked = some now;
  last_built = some now;
}

abbrev pub target_checked : ℕ → TargetRow → TargetRow
target_checked now row = record {
  in_package = row.in_package;
  template = row.template;
  target = row.target;
  target_hash = row.target_hash;
  last_checked = some now;
  last_built = row.last_built;
}

abbrev pub target_built : ℕ → String → TargetRow → TargetRow
target_built now hash row = record {
  in_package = row.in_package;
  template = row.template;
  target = row.target;
  target_hash = some hash;
  last_checked = some now;
  last_built = some now;
}
