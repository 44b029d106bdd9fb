-- ===== src/Procutils/Witnesses.antt =====
-- `_execute` with a command that is busy twice.
use disks.Prelude.{
  [], if◌then◌else◌, ltb, nat_key, none, option_key, refl, some, string_key, ℕ, ◌∷◌,
}
use disks.Prelude.Int.{pos}
use disks.Procutils.{Attempt, execute_command, execute_from, exited, judge}
use disks.Procutils.Attempts.{FirstSuccess, execute_command-FirstSuccess}

abbrev busy_twice : ℕ → Attempt
busy_twice n = if ltb n 2 then exited (pos 100) none else exited (pos 0) (some "done")

execute_command-FirstSuccess_example :
    FirstSuccess busy_twice (some (pos 100 ∷ [])) 10 0 (some "done") 3
unfolding execute_command execute_from judge
execute_command-FirstSuccess_example =
    execute_command-FirstSuccess busy_twice (some (pos 100 ∷ [])) (some "done") refl
