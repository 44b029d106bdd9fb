-- ===== src/Libconfig/Status/Agree.antt =====
-- That `getTargetStatus` and `configPackage` agree on what is up to date.
use disks.Libconfig.Package.{
  ConfigError, Flags, Package, World, config_template, hash_at, in_place, no_file, target_files,
}
use disks.Libconfig.Package.Current.{IsCurrent, config_template-IsCurrent}
use disks.Libconfig.Rows.{TargetRow, targets_from}
use disks.Libconfig.Status.{
  Answer, Status, answer_no, answer_unknown, answer_yes, localmod_of, map_result, need_update_of,
  target_status, template_status,
}
use disks.Prelude.{
  All, Bool, List, Option, String, [], ap, arith, false, if◌then◌else◌, ltb, nat_key, none, not,
  option_key, option_same_iff, refl, some, string_key, sym, true, ℕ, ◌==◌, ◌||◌, ◌∙◌, ◌∷◌, ◌≡◌,
}
use disks.Prelude.Dict.{Dict, lookup}
use disks.Prelude.Exec.{Result, and_then, and_then-eq-ok, err, ok, ok-inj}
use mathlib.Core.Path.{subst}

-- Neither needs an update nor was changed.
abbrev pub IsSettled : Status → Type 0
IsSettled st = (st.need_update ≡ answer_no) × (st.localmod ≡ answer_no)

same_swap : (a b : Option String) → (a == b) ≡ true → (b == a) ≡ true
same_swap a b h = ground (arith, option_same_iff a b, option_same_iff b a)

localmod_of-no :
    (target_hash recorded : Option String)
    → localmod_of target_hash recorded ≡ answer_no
    → (hash : String) × (target_hash ≡ some hash) × ((some hash == recorded) ≡ true)
localmod_of-no none recorded h = cc
localmod_of-no (some hash) recorded h =
    (hash, refl, same_swap recorded (some hash) (go (recorded == some hash) h))
  where
    go : (b : Bool) → (if not b then answer_yes else answer_no) ≡ answer_no → b ≡ true
    go true h = refl
    go false h = cc

need_update_of-no :
    (modified : ℕ) (last_built : Option ℕ) (changed : Bool) (need : Answer)
    → need_update_of (some modified) last_built changed ≡ ok need
    → need ≡ answer_no
    → (built : ℕ) × (last_built ≡ some built) × (ltb built modified ≡ false) × (changed ≡ false)
need_update_of-no modified none changed need h k = cc
need_update_of-no modified (some built) changed need h k = go (ltb built modified) changed refl h
  where
    verdict : Bool → Result ConfigError Answer
    verdict b = if b then ok answer_yes else ok answer_no

    clash : Path (Result ConfigError Answer) (ok answer_yes) (ok need) → ⊥
    clash e = cc

    go :
        (a b : Bool)
        → ltb built modified ≡ a
        → verdict (a || b) ≡ ok need
        → (n : ℕ) × (some built ≡ some n) × (ltb n modified ≡ false) × (b ≡ false)
    go true b e h = absurd (clash h)
    go false true e h = absurd (clash h)
    go false false e h = (built, refl, e, refl)

target_status-IsCurrent :
    (p : Package) (flags : Flags) (s : World) (template hash : String)
    (template_db : Dict String (Option String)) (target_db : Dict String TargetRow)
    (target : String) (st : Status)
    → p.status_file target ≡ p.target_file flags.dest_rootdir target
    → target_status p (some p.last_modified) s template hash template_db target_db target ≡ ok st
    → IsSettled st
    → (lookup template template_db ≡ some (some hash)) × IsCurrent p flags target_db s target
unfolding target_status
target_status-IsCurrent p flags s template hash template_db target_db target st path h settled =
    go (lookup template template_db) (lookup target target_db) refl refl h
  where
    outcome : Option (Option String) → Option TargetRow → Result ConfigError Status
    outcome recorded row = elim recorded [
      | none ↦ ok (record {
        template = template;
        target = target;
        need_update = answer_yes;
        localmod = answer_unknown;
        last_built = none;
        referenced = true;
      })
      | some recorded ↦ elim row [
        | none ↦ ok (record {
          template = template;
          target = target;
          need_update = answer_yes;
          localmod = answer_unknown;
          last_built = none;
          referenced = true;
        })
        | some row ↦
            and_then
              (need_update_of (some p.last_modified) row.last_built (not (some hash == recorded)))
              λ need_update. ok (record {
                template = template;
                target = target;
                need_update = need_update;
                localmod = localmod_of (hash_at p (p.status_file target) s.files) row.target_hash;
                last_built = row.last_built;
                referenced = true;
              })
      ]
    ]

    recorded_same :
        (recorded : Option String) → not (some hash == recorded) ≡ false → recorded ≡ some hash
    recorded_same recorded k = ground (arith, option_same_iff (some hash) recorded)

    go :
        (recorded : Option (Option String)) (row : Option TargetRow)
        → lookup template template_db ≡ recorded
        → lookup target target_db ≡ row
        → outcome recorded row ≡ ok st
        → (lookup template template_db ≡ some (some hash)) × IsCurrent p flags target_db s target
    go none row e d h = cc
    go (some recorded) none e d h = cc
    go (some recorded) (some row) e d h =
        let parts =
          and_then-eq-ok
            (need_update_of (some p.last_modified) row.last_built (not (some hash == recorded))) _
            st h in
        let made = ok-inj _ st parts.2 in
        let need =
          need_update_of-no p.last_modified row.last_built _ parts.0 parts.1
            (ap (λ r. r.need_update) made ∙ settled.0) in
        let mod_lem =
          localmod_of-no (hash_at p (p.status_file target) s.files) row.target_hash
            (ap (λ r. r.localmod) made ∙ settled.1) in
        (
          e ∙ ap (λ o. some o) (recorded_same recorded need.3),
          (
            row,
            mod_lem.0,
            need.0,
            d,
            need.1,
            ap (λ q. hash_at p q s.files) (sym path) ∙ mod_lem.1,
            mod_lem.2,
            need.2,
          ),
        )

map_result-cons :
    {A B : Type 0} (f : A → Result ConfigError B) (x : A) (xs : List A) (ys : List B)
    → map_result f (x ∷ xs) ≡ ok ys
    → (y : B) × (zs : List B) × (f x ≡ ok y) × (map_result f xs ≡ ok zs) × (y ∷ zs ≡ ys)
unfolding map_result
map_result-cons f x xs ys h =
    let first = and_then-eq-ok (f x) _ ys h in
    let others = and_then-eq-ok (map_result f xs) _ ys first.2 in
    (first.0, others.0, first.1, others.1, ok-inj _ ys others.2)

map_result-IsCurrent :
    (p : Package) (flags : Flags) (s : World) (template hash : String)
    (template_db : Dict String (Option String)) (target_db : Dict String TargetRow)
    (targets : List String) (sts : List Status)
    → ((target : String) → p.status_file target ≡ p.target_file flags.dest_rootdir target)
    → map_result
        (target_status p (some p.last_modified) s template hash template_db target_db)
        targets
      ≡ ok sts
    → All IsSettled sts
    → All (IsCurrent p flags target_db s) targets
      × ((t : String) (ts : List String)
          → targets ≡ t ∷ ts
          → lookup template template_db ≡ some (some hash))
map_result-IsCurrent p flags s template hash template_db target_db [] sts path h settled =
    (tt, λ t ts e. cc)
map_result-IsCurrent p flags s template hash template_db target_db (target ∷ targets) sts path h
      settled =
    let parts =
      map_result-cons (target_status p (some p.last_modified) s template hash template_db target_db)
        target targets sts h in
    let each = subst (All IsSettled) (sym parts.4) settled in
    let first =
      target_status-IsCurrent p flags s template hash template_db target_db target parts.0
        (path target) parts.2 each.0 in
    let others =
      map_result-IsCurrent p flags s template hash template_db target_db targets parts.1 path
        parts.3 each.1 in
    ((first.1, others.0), λ t ts e. first.0)

-- Where `getTargetStatus` says of each target of a template that it needs no update and was not changed,
-- `configPackage` writes no file for the template, with or without `force`. The template has a target, its
-- text can be read, both take a target for the same file, and there is no `re_generate` and no other root
-- directory.
pub template_status-config_template :
    (p : Package) (flags : Flags) (s : World) (template content target : String)
    (targets : List String) (template_db : Dict String (Option String)) (sts : List Status)
    → p.template_text template ≡ some content
    → target_files p template ≡ target ∷ targets
    → ((t : String) → p.status_file t ≡ p.target_file flags.dest_rootdir t)
    → flags.re_generate ≡ false
    → in_place flags ≡ true
    → template_status p (some p.last_modified) s template_db template ≡ ok sts
    → All IsSettled sts
    → (config_template p flags template_db template s).1.files ≡ s.files
template_status-config_template p flags s template content target targets template_db sts there one
      path no_regen here status settled =
    let db = targets_from p.name template [] s.targets in
    let known =
      map_result-IsCurrent p flags s template (p.sha1 content) template_db db
        (target_files p template) sts path (sym (opened (p.template_text template) there) ∙ status)
        settled in
    config_template-IsCurrent p flags template_db template content s there
      (known.1 target targets one) known.0 no_regen here
  where
    statuses : String → Result ConfigError (List Status)
    statuses read =
        map_result
          (target_status p (some p.last_modified) s template (p.sha1 read) template_db
            (targets_from p.name template [] s.targets))
          (target_files p template)

    opened :
        (o : Option String)
        → o ≡ some content
        → elim o as (λ _. Result ConfigError (List Status)) [
          | none ↦ err no_file
          | some read ↦ statuses read
        ]
          ≡ statuses content
    opened o e = rw e refl
