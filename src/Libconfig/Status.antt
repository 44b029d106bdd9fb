-- ===== src/Libconfig/Status.antt =====
-- `getTargetStatus` of src/libconfig/libconfig.py.
pub mod Agree
use disks.Libconfig.Package.{
  ConfigError, Package, World, hash_at, no_file, target_files, type_error,
}
use disks.Libconfig.Rows.{TargetRow, targets_from, templates_from}
use disks.Prelude.{
  Bool, List, Option, String, [], contains, false, if◌then◌else◌, ltb, map, nat_key, none, not,
  option_key, select, some, string_key, true, ℕ, ◌++◌, ◌==◌, ◌||◌, ◌∷◌,
}
use disks.Prelude.Dict.{Dict, keys, lookup}
use disks.Prelude.Exec.{Result, and_then, err, ok}

pub data Answer : Type 0 where
  answer_yes answer_no answer_unknown answer_missing : Answer

-- One line of the result. The time of the last build is the row's, None for 'Unknown' or NULL.
pub record Status : Type 0 where
  pub template : String
  pub target : String
  pub need_update : Answer
  pub localmod : Answer
  pub last_built : Option ℕ
  pub referenced : Bool

-- `localmod` of a target that is known
abbrev pub localmod_of : (target_hash recorded : Option String) → Answer
localmod_of none recorded = answer_missing
localmod_of (some hash) recorded = if not (recorded == some hash) then answer_yes else answer_no

-- `need_update` of a target that is known; the comparison with NULL raises
abbrev pub need_update_of :
    (last_modified : Option ℕ)
    → (last_built : Option ℕ) → (changed : Bool) → Result ConfigError Answer
need_update_of none last_built changed = ok answer_unknown
need_update_of (some modified) none changed = err type_error
need_update_of (some modified) (some built) changed =
    if ltb built modified || changed then ok answer_yes else ok answer_no

-- a target that its template makes
unfoldable pub target_status :
    Package
    → (last_modified : Option ℕ) → World
    → (template hash : String) → Dict String (Option String)
    → Dict String TargetRow
    → String
    → Result ConfigError Status
target_status p last_modified s template hash template_db target_db target =
    elim (lookup template template_db) [
      | none ↦ ok (record {
        template = template;
        target = target;
        need_update = answer_yes;
        localmod = answer_unknown;
        last_built = none;
        referenced = true;
      })
      | some recorded ↦ elim (lookup target target_db) [
        | none ↦ ok (record {
          template = template;
          target = target;
          need_update = answer_yes;
          localmod = answer_unknown;
          last_built = none;
          referenced = true;
        })
        | some row ↦
            and_then (need_update_of last_modified row.last_built (not (some hash == recorded)))
              λ need_update. ok (record {
                template = template;
                target = target;
                need_update = need_update;
                localmod = localmod_of (hash_at p (p.status_file target) s.files) row.target_hash;
                last_built = row.last_built;
                referenced = true;
              })
      ]
    ]

-- every item, until one raises
unfoldable pub map_result {ℓ κ} :
    {A : Type ℓ} {B : Type κ} → (A → Result ConfigError B) → List A → Result ConfigError (List B)
map_result f [] = ok []
map_result f (x ∷ xs) = and_then (f x) λ y. and_then (map_result f xs) λ ys. ok (y ∷ ys)

unfoldable pub concat_result {ℓ κ} :
    {A : Type ℓ} {B : Type κ}
    → (A → Result ConfigError (List B))
    → List A
    → Result ConfigError (List B)
concat_result f [] = ok []
concat_result f (x ∷ xs) = and_then (f x) λ ys. and_then (concat_result f xs) λ zs. ok (ys ++ zs)

-- the targets of one template; a template whose file cannot be opened raises
abbrev pub template_status :
    Package
    → Option ℕ
    → World
    → Dict String (Option String)
    → String
    → Result ConfigError (List Status)
template_status p last_modified s template_db template = elim (p.template_text template) [
  | none ↦ err no_file
  | some content ↦
      map_result
        (target_status p last_modified s template (p.sha1 content) template_db
          (targets_from p.name template [] s.targets))
        (target_files p template)
]

abbrev pub orphan : String → String × TargetRow → Status
orphan template (target, row) = record {
  template = template;
  target = target;
  need_update = answer_unknown;
  localmod = answer_unknown;
  last_built = row.last_built;
  referenced = false;
}

-- the targets of the database that no template makes any more
unfoldable pub orphans : Package → World → String → List Status
orphans p s template =
    let target_db = targets_from p.name template [] s.targets in
    if contains p.template_list template
    then map (orphan template)
        (select (λ entry. not (contains (target_files p template) entry.0)) target_db)
    else map (orphan template) target_db

unfoldable pub all_orphans : Package → World → List String → List Status
all_orphans p s [] = []
all_orphans p s (template ∷ templates) = orphans p s template ++ all_orphans p s templates

-- `getTargetStatus`
unfoldable pub get_target_status : Package → Option ℕ → World → Result ConfigError (List Status)
get_target_status p last_modified s =
    let template_db = templates_from p.name [] s.templates in
    and_then (concat_result (template_status p last_modified s template_db) p.template_list)
      λ made. ok (made ++ all_orphans p s (keys template_db))
