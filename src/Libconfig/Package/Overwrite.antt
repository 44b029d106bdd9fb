-- ===== src/Libconfig/Package/Overwrite.antt =====
-- A new template whose target is there before it.
use disks.Libconfig.Package.{
  Act, Flags, Package, World, build_template, config_template, guard_target, in_place, judge_target,
  judge_targets, note_built, render_template, write_blocks,
}
use disks.Libconfig.Package.Current.{Keeps-note_built}
use disks.Libconfig.Rows.{TargetRow, targets_from}
use disks.Prelude.{
  Bool, Option, String, [], ap, false, if◌then◌else◌, map, nat_key, none, option_key, refl, some,
  string_key, true, ◌∙◌, ◌∷◌, ◌≡◌,
}
use disks.Prelude.Dict.{Dict, has_key, insert, lookup}
use disks.Prelude.Exec.{continue, ok, pure, ◌>>◌}

-- the loop over the one target
judged :
    (p : Package) (flags : Flags) (target_db : Dict String TargetRow) (target old : String)
    (s : World)
    → lookup target target_db ≡ none
    → lookup (p.target_file flags.dest_rootdir target) s.files ≡ some old
    → judge_targets p flags target_db
        (target ∷ [])
        (record { need_build = false; no_build = false })
        s
      ≡ (ok (record { need_build = false; no_build = false }), s)
unfolding judge_targets judge_target guard_target
judged p flags target_db target old s unknown there = rw (unknown, judge_target) (rw there refl)

built :
    (p : Package) (flags : Flags) (template hash : String)
    (template_db : Dict String (Option String)) (target_db : Dict String TargetRow) (s : World)
    → lookup template template_db ≡ none
    → flags.dry_run ≡ false
    → in_place flags ≡ true
    → (build_template p flags template hash template_db target_db
        (record { need_build = false; no_build = false })
        s).1.files
      ≡ write_blocks p flags (p.render template) s.files
unfolding build_template
built p flags template hash template_db target_db s unknown wet here =
    rw (unknown, build_template) (go flags.dry_run (in_place flags) wet here)
  where
    files : Dict String String
    files = write_blocks p flags (p.render template) s.files

    full : Act (Unit {0})
    full =
        render_template p flags template
        >> note_built p template hash (has_key template template_db)

    rendered : World
    rendered = record { files = files; templates = s.templates; targets = s.targets }

    go :
        (dry root : Bool)
        → dry ≡ false
        → root ≡ true
        → ((if dry then pure tt else if root then full else render_template p flags template)
            s).1.files
          ≡ files
    go false true h k =
        (Keeps-note_built files p template hash (has_key template template_db)).at rendered refl
    go true root h k = absurd (clash h)
      where
        clash : true ≡ false → ⊥
        clash h = cc
    go false false h k = absurd (clash k)
      where
        clash : false ≡ true → ⊥
        clash h = cc

-- Without `force`, a file that was there before its template is overwritten all the same, and no copy of
-- it is saved: the template is new to the database, its one block makes a file that the database does not
-- know either, that exists, and that is written where it is looked for. The run is no dry run, and has no
-- `dest_rootdir`.
pub config_template-overwrites :
    (p : Package) (flags : Flags) (template_db : Dict String (Option String))
    (template content target block old : String) (s : World)
    → p.template_text template ≡ some content
    → p.render template ≡ (target, block) ∷ []
    → lookup template template_db ≡ none
    → lookup target (targets_from p.name template [] s.targets) ≡ none
    → lookup (p.target_file flags.dest_rootdir target) s.files ≡ some old
    → p.written_file flags.dest_rootdir target ≡ p.target_file flags.dest_rootdir target
    → flags.force ≡ false
    → flags.dry_run ≡ false
    → in_place flags ≡ true
    → (config_template p flags template_db template s).1.files
      ≡ insert (p.target_file flags.dest_rootdir target) block s.files
unfolding config_template write_blocks
config_template-overwrites p flags template_db template content target block old s text_lem one new
      unknown there same unforced wet here =
    let db = targets_from p.name template [] s.targets in
    rw (text_lem, config_template)
      (ap
          (λ l.
            (continue
              (judge_targets p flags db (map (λ block. block.0) l)
                (record { need_build = false; no_build = false }) s).0
              (λ found. build_template p flags template (p.sha1 content) template_db db found)
              (judge_targets p flags db (map (λ block. block.0) l)
                (record { need_build = false; no_build = false }) s).1).1.files)
          one
        ∙ rw (judged p flags db target old s unknown there) (
            built p flags template (p.sha1 content) template_db db s new wet here
            ∙ rw (one, same) refl))
