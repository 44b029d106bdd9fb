-- ===== src/Procutils.antt =====
-- The retries of `_execute` in disks/linux-installer/root/installer/procutils.py.
pub mod Attempts
pub mod Witnesses
use Prim.Native.Char.{code}
use disks.Prelude.{
  Bool, List, Option, String, [], false, if◌then◌else◌, nat_key, none, not, option_key, some,
  string_key, suc, zero, ℕ, ◌==◌, ◌||◌, ◌∷◌,
}
use disks.Prelude.Exec.{Result, err, ok}
use disks.Prelude.Int.{is_zero, negsuc, pos, ℤ}

-- What one `Popen` comes to: it raises, or the process ends with a code, which is negative for a
-- signal, and an output, None where it goes to the log.
pub data Attempt : Type 0 where
  crashed : Attempt
  exited : (returncode : ℤ) → (output : Option String) → Attempt

pub data ExecuteError : Type 0 where
  while_executing error_executing retries_exceeded : ExecuteError

abbrev same_code : ℤ → ℤ → Bool
same_code (pos a) (pos b) = a == b
same_code (negsuc a) (negsuc b) = a == b
same_code _ _ = false

abbrev has_code : List ℤ → ℤ → Bool
has_code [] code = false
has_code (c ∷ codes) code = same_code c code || has_code codes code

-- `retry_rc_list is None or proc.returncode not in retry_rc_list`, turned round
abbrev pub may_retry : Option (List ℤ) → ℤ → Bool
may_retry none code = false
may_retry (some codes) code = has_code codes code

-- What the loop does with one attempt; `again` is the rest of the loop. The number is how many
-- attempts have been started.
unfoldable pub judge :
    Option (List ℤ)
    → Attempt
    → ℕ
    → Result ExecuteError (Option String) × ℕ
    → Result ExecuteError (Option String) × ℕ
judge retry_rc_list crashed started again = (err while_executing, started)
judge retry_rc_list (exited code output) started again =
    if is_zero code
    then (ok output, started)
    else if not (may_retry retry_rc_list code)
    then (err error_executing, started)
    else again

-- The `while retry` loop with its `else`. `attempt n` is what the n-th attempt comes to.
unfoldable pub execute_from :
    (ℕ → Attempt) → Option (List ℤ) → (retry n : ℕ) → Result ExecuteError (Option String) × ℕ
execute_from attempt retry_rc_list zero n = (err retries_exceeded, n)
execute_from attempt retry_rc_list (suc retry) n =
    let again = execute_from attempt retry_rc_list retry (suc n) in
    judge retry_rc_list (attempt n) (suc n) again

abbrev pub exec_retry_count : ℕ
exec_retry_count = 10

-- `_execute`
unfoldable pub execute_command :
    (ℕ → Attempt) → Option (List ℤ) → Result ExecuteError (Option String) × ℕ
execute_command attempt retry_rc_list = execute_from attempt retry_rc_list exec_retry_count 0
