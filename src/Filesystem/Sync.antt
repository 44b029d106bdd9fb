-- ===== src/Filesystem/Sync.antt =====
-- The wait for the RAID arrays at the end of `partition` in filesystem.py.
use disks.Filesystem.Model.{Action, Host, effect, still_running, write_file}
use disks.Prelude.{
  Bool, Bool-cases, List, Option, [], arith, false, if◌then◌else◌, inl, inr, length, ltb, nat_key,
  none, not, option_key, some, string_key, suc, zero, ℕ, ◌*◌, ◌+◌, ◌==◌, ◌||◌, ◌∷◌, ◌≡◌, ◌≤◌,
}
use disks.Prelude.Exec.{gets, or_raise, pure, ◌>>=◌, ◌>>◌}
use disks.Prelude.Int.{Frac, gt_frac, pos}

-- `min( perc_list ) < 0.5`, of a list that is not empty
abbrev below_half : Frac → Bool
below_half x = gt_frac (record { num = pos 1; den = 2 }) x

any_below : List Frac → Bool
any_below [] = false
any_below (x ∷ xs) = below_half x || any_below xs

-- The `while` loop from its n-th test on, which sleeps 30 seconds in each round: the number of rounds
-- that it has slept. `start` is `start_at`.
unfoldable pub sync_rounds : Host → ℕ → ℕ → ℕ → Option ℕ
unfolding any_below
sync_rounds host start zero n = none
sync_rounds host start (suc fuel) n =
    let later = sync_rounds host start fuel (suc n) in
    if not (any_below (host.mdstat n))
    then some n
    else if ltb (start + 300) (host.clock (suc n))
    then some n
    else later

-- The fuel of the wait.
abbrev pub sync_fuel : ℕ
sync_fuel = 12

-- `if md_list:`
unfoldable pub speed_sync : Host → Action (Unit {0})
speed_sync host = do
  arrays ← gets (λ s. s.md_list)
  if length arrays == 0 then pure tt else do
    effect (write_file "/proc/sys/dev/raid/speed_limit_min" "500000000")
    effect (write_file "/proc/sys/dev/raid/speed_limit_max" "500000000")
    or_raise (sync_rounds host (host.clock 0) sync_fuel 0) still_running
    effect (write_file "/proc/sys/dev/raid/speed_limit_min" "2000")

module _ (host : Host) (begins_at : host.clock 0 ≤ host.clock 1)
    (sleeps : (n : ℕ) → host.clock (suc n) + 30 ≤ host.clock (suc (suc n))) where
  late : (n : ℕ) → host.clock 0 + 30 * n ≤ host.clock (suc n)
  late zero = omega (arith, begins_at)
  late (suc n) = omega (arith, sleeps n, late n)

  rounds_within :
      (fuel n : ℕ)
      → 12 ≤ fuel + n
      → n ≤ 11
      → (r : ℕ) × (sync_rounds host (host.clock 0) fuel n ≡ some r) × (r ≤ 11)
  unfolding sync_rounds any_below
  rounds_within zero n enough h = absurd (omega (arith, enough, h))
  rounds_within (suc fuel) n enough h = elim (Bool-cases (not (any_below (host.mdstat n)))) [
    | inl e ↦ (n, ground arith, h)
    | inr e ↦ elim (Bool-cases (ltb (host.clock 0 + 300) (host.clock (suc n)))) [
      | inl f ↦ (n, ground arith, h)
      | inr f ↦
          let (r, same, bound) =
            rounds_within fuel (suc n) (omega (arith, enough)) (ground (arith, late n)) in
          (r, ground arith, bound)
    ]
  ]

  -- Where each of its sleeps lasts at least 30 seconds, the wait for the arrays ends within the fuel
  -- that `speed_sync` gives it, and it has slept at most 11 times, whatever the kernel reports.
  pub sync_rounds-ends : (r : ℕ) × (sync_rounds host (host.clock 0) sync_fuel 0 ≡ some r) × (r ≤ 11)
  sync_rounds-ends = rounds_within sync_fuel 0 (omega arith) (omega arith)
