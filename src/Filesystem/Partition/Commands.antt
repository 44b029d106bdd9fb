-- ===== src/Filesystem/Partition/Commands.antt =====
-- The commands that `partition` runs: the scripts of parted, the RAID arrays, and all others behind.
use disks.Filesystem.Arrays.{make_array}
use disks.Filesystem.Arrays.Kept.{Kept}
use disks.Filesystem.Arrays.Made.{MakesArrays, make_arrays-log}
use disks.Filesystem.Model.{Command, Drive, Host, State, Task, execute, parted}
use disks.Filesystem.Parted.Numbering.{script}
use disks.Filesystem.Partition.{build, new_locals, partition, run_parted}
use disks.Filesystem.Partition.Others.{IsOther, behind_arrays, behind_arrays-Keeps}
use disks.Filesystem.Plan.{lift, plan, with_key}
use disks.Filesystem.Plan.Quiet.{plan-Quiet}
use disks.Filesystem.Settings.{Profile, Settings, Values, settings}
use disks.Filesystem.Targets.{is_some}
use disks.Filesystem.Trace.{Runs, Runs-bind, Runs-execute, Runs-pure}
use disks.Prelude.{
  All, List, String, [], ap, map, nat_key, option_key, refl, string_key, sym, ℕ, ◌++◌, ◌∙◌, ◌∷◌,
  ◌≡◌,
}
use disks.Prelude.Dict.{Dict}
use disks.Prelude.Exec.{bind-eq-ok, for_each, ok, ◌>>=◌, ◌>>◌}
use disks.Prelude.Exec.Keeps.{keeps_rules}
use disks.Prelude.Int.{Frac}
use mathlib.Core.List.{append-nil}
use mathlib.Core.Path.{subst}

run_parted-Runs :
    (host : Host) (scripts : List (String × List Task))
    → Runs
        (for_each scripts (λ script. execute host (parted script.0 script.1)))
        (map (λ script. parted script.0 script.1) scripts)
unfolding for_each
run_parted-Runs host [] = Runs-pure tt
run_parted-Runs host (script ∷ scripts) =
    Runs-bind (execute host (parted script.0 script.1)) _ (parted script.0 script.1 ∷ [])
      (map (λ script. parted script.0 script.1) scripts)
      (Runs-execute host (parted script.0 script.1)) (λ u. run_parted-Runs host scripts)

execute-Kept :
    (md_list : Dict ℕ (List (String × Drive))) (host : Host) (c : Command)
    → Kept md_list (execute host c)
unfolding execute
execute-Kept md_list host c = record { at = λ s h. h }

run_parted-Kept :
    (md_list : Dict ℕ (List (String × Drive))) (host : Host) → Kept md_list (run_parted host)
unfolding run_parted
run_parted-Kept md_list host = search (keeps_rules, execute-Kept)

-- the command of each script
abbrev pub scripts_of : Dict String (List Task) → List Command
scripts_of scripts = map (λ script. parted script.0 script.1) scripts

-- What `build` has run where it returns.
pub record HasBuilt (settings : Settings) (s : State) (log : List Command) : Type 0 where
  pub arrays : List Command
  pub rest : List Command
  pub made : MakesArrays settings s.md_list (with_key (λ i. is_some i.md) settings.recipe) arrays
  pub others : All IsOther rest
  pub ran : log ≡ s.log ++ scripts_of s.parted_task_map ++ arrays ++ rest

build-HasBuilt :
    (host : Host) (profile : Profile) (settings : Settings) (sizes : Frac × Frac) (s : State)
    → (build host profile settings sizes s).0 ≡ ok tt
    → HasBuilt settings s (build host profile settings sizes s).1.log
unfolding build run_parted
build-HasBuilt host profile settings sizes s r =
    let items = with_key (λ i. is_some i.md) settings.recipe in
    let loop = for_each items (make_array host profile settings) in
    let behind = behind_arrays [] host profile settings sizes in
    let (u, scripted, same) = bind-eq-ok (run_parted host) (λ u. loop >> behind) s tt r in
    let s1 = (run_parted host s).1 in
    let (v, looped, same1) = bind-eq-ok loop (λ v. behind) s1 tt (ap (λ x. x.0) (sym same) ∙ r) in
    let (arrays, made, ran) = make_arrays-log host profile settings items s1 looped in
    let (rest, later, others) =
      (behind_arrays-Keeps (loop s1).1.log host profile settings sizes).at (loop s1).1
        ([], sym (append-nil (loop s1).1.log), tt) in
    let kept = (run_parted-Kept s.md_list host).at s refl in
    let first = (run_parted-Runs host s.parted_task_map).at s tt scripted in
    record {
      arrays = arrays;
      rest = rest;
      made = subst (λ l. MakesArrays settings l items arrays) kept made;
      others = others;
      ran =
          ap (λ x. x.1.log) (same ∙ same1)
          ∙ later
          ∙ ap (λ l. l ++ rest) (ran ∙ ap (λ l. l ++ arrays) first);
    }

-- What `partition` has run where it returns, from the settings and the plan that it has computed.
pub record HasPartitioned (host : Host) (profile : Profile) (values : Values) (s : State)
    (log : List Command) : Type 0 where
  pub chosen : Settings
  pub planned : State
  pub sizes : Frac × Frac
  pub arrays : List Command
  pub rest : List Command
  pub set_up : settings host profile values ≡ ok chosen
  pub laid : plan host profile chosen (new_locals s).1 ≡ (ok sizes, planned)
  pub made : MakesArrays chosen planned.md_list (with_key (λ i. is_some i.md) chosen.recipe) arrays
  pub others : All IsOther rest
  pub ran : log ≡ s.log ++ scripts_of planned.parted_task_map ++ arrays ++ rest

-- Where `partition` returns, it has run, in this order: parted once on each drive that the plan has a
-- script for, with that script and in the order of the scripts; one mdadm for each recipe item with an 'md', in the
-- order of the recipe, which makes /dev/md<number> at the item's level of just the partitions that the
-- plan has kept for this number, in their order, where levels 1 and 10 have an even number of them, and
-- levels 5 and 6 three or more; and then other commands, of which none is parted or mdadm. Nothing is
-- run before the plan is complete.
pub partition-log :
    (host : Host) (profile : Profile) (values : Values) (s : State)
    → (partition host profile values s).0 ≡ ok tt
    → HasPartitioned host profile values s (partition host profile values s).1.log
unfolding partition new_locals
partition-log host profile values s r =
    let planning = λ (chosen : Settings). plan host profile chosen >>= build host profile chosen in
    let (chosen, set_up, same) =
      bind-eq-ok (lift (settings host profile values)) (λ chosen. new_locals >> planning chosen) s
        tt r in
    let s1 = (new_locals s).1 in
    let (sizes, laid, same1) =
      bind-eq-ok (plan host profile chosen) (build host profile chosen) s1 tt
        (ap (λ x. x.0) (sym same) ∙ r) in
    let planned = (plan host profile chosen s1).1 in
    let done =
      build-HasBuilt host profile chosen sizes planned (ap (λ x. x.0) (sym (same ∙ same1)) ∙ r) in
    record {
      chosen = chosen;
      planned = planned;
      sizes = sizes;
      arrays = done.arrays;
      rest = done.rest;
      set_up = set_up;
      laid = ap (λ answer. (answer, planned)) laid;
      made = done.made;
      others = done.others;
      ran =
          ap (λ x. x.1.log) (same ∙ same1)
          ∙ done.ran
          ∙ ap (λ l. l ++ scripts_of planned.parted_task_map ++ done.arrays ++ done.rest)
              ((plan-Quiet s.log host profile chosen).at s1 refl);
    }
