-- ===== src/Filesystem/Targets/Wait.antt =====
-- The wait of `partition` for drives that the kernel has not found yet.
use disks.Filesystem.Model.{DriveScan, Error, Host, missing_drives}
use disks.Filesystem.Targets.{get_target_drives, is_missing, settle_scan, wait_for_drives}
use disks.Prelude.{
  Bool-cases, List, String, ap, arith, if◌then◌else◌, inl, inr, nat_key, option_key, refl,
  string_key, suc, sym, true, zero, ℕ, ◌+◌, ◌<◌, ◌∙◌, ◌≡◌, ◌≤◌, ◌⊎◌,
}
use disks.Prelude.Exec.{Result, err, ok, ok-inj}
use mathlib.Core.Path.{subst}

-- The m-th enumeration lacks one of the drives.
abbrev pub Misses : Host → List String → ℕ → Type 0
Misses host drives m =
    (drive : String) × (get_target_drives host (host.scan m) drives ≡ err (missing_drives drive))

missing-eq : (e : Error) → is_missing e ≡ true → (drive : String) × (e ≡ missing_drives drive)
missing-eq (missing_drives drive) h = (drive, refl)
missing-eq _ h = absurd cc

err≢ok {ℓ} : {A : Type ℓ} (e : Error) (a : A) → Path (Result Error A) (err e) (ok a) → ⊥
err≢ok e a h = cc

settle_scan-eq-ok :
    (r : Result Error (List String)) (scan : DriveScan)
    (again : Error → Result Error (List String × DriveScan)) (x : List String × DriveScan)
    → settle_scan r scan again ≡ ok x
    → (r ≡ ok x.0) × (scan ≡ x.1)
      ⊎ ((drive : String) × (r ≡ err (missing_drives drive))
          × (again (missing_drives drive) ≡ ok x))
unfolding settle_scan
settle_scan-eq-ok (ok found) scan again x h =
    inl (ap (λ p. ok p.0) (ok-inj _ x h), ap (λ p. p.1) (ok-inj _ x h))
settle_scan-eq-ok (err e) scan again x h = elim (Bool-cases (is_missing e)) [
  | inl b ↦
      let (drive, same) = missing-eq e b in
      inr (
        drive,
        ap err same,
        subst (λ e. again e ≡ ok x) same (subst (λ b. (if b then again e else err e) ≡ ok x) b h),
      )
  | inr b ↦ absurd (err≢ok e x (subst (λ b. (if b then again e else err e) ≡ ok x) b h))
]

-- `scan` is the n-th enumeration or one behind it, and the first that has all the drives: `k`
-- enumerations before it each lacked one.
abbrev pub FirstFound : Host → List String → (left n : ℕ) → List String × DriveScan → Type 0
FirstFound host drives left n x =
    (k : ℕ) × (k ≤ left)
    × (get_target_drives host (host.scan (n + k)) drives ≡ ok x.0)
    × (host.scan (n + k) ≡ x.1)
    × ((j : ℕ) → j < k → Misses host drives (n + j))

add_zero : (n : ℕ) → n + 0 ≡ n
add_zero n = omega arith

shift : (n j : ℕ) → suc n + j ≡ n + suc j
shift n j = omega arith

at_once :
    (host : Host) (drives : List String) (left n : ℕ) (x : List String × DriveScan)
    → (get_target_drives host (host.scan n) drives ≡ ok x.0) × (host.scan n ≡ x.1)
    → FirstFound host drives left n x
at_once host drives left n x (found, same) = (
  0,
  omega arith,
  subst (λ m. get_target_drives host (host.scan m) drives ≡ ok x.0) (sym (add_zero n)) found,
  subst (λ m. host.scan m ≡ x.1) (sym (add_zero n)) same,
  λ j below. absurd (omega (arith, below)),
)

one_more :
    (host : Host) (drives : List String) (left n : ℕ) (x : List String × DriveScan)
    → Misses host drives n
    → FirstFound host drives left (suc n) x
    → FirstFound host drives (suc left) n x
one_more host drives left n x missed (k, bound, found, same, before) = (
  suc k,
  omega (arith, bound),
  subst (λ m. get_target_drives host (host.scan m) drives ≡ ok x.0) (shift n k) found,
  subst (λ m. host.scan m ≡ x.1) (shift n k) same,
  λ j. elim j as (λ j. j < suc k → Misses host drives (n + j)) [
    | zero ↦ λ below. subst (Misses host drives) (sym (add_zero n)) missed
    | suc i ↦ λ below. subst (Misses host drives) (shift n i) (before i (omega (arith, below)))
  ],
)

-- Where the wait comes back with drives, they are what the first enumeration that misses none of them
-- gives, one of the `left + 1` from the n-th on, and the drives are looked up in just that enumeration.
pub wait_for_drives-FirstFound :
    (host : Host) (drives : List String) (left n : ℕ) (x : List String × DriveScan)
    → wait_for_drives host drives left n ≡ ok x
    → FirstFound host drives left n x
unfolding wait_for_drives
wait_for_drives-FirstFound host drives zero n x h =
    elim (settle_scan-eq-ok (get_target_drives host (host.scan n) drives) (host.scan n) err x h) [
      | inl found ↦ at_once host drives zero n x found
      | inr (drive, missed, h1) ↦ absurd (err≢ok _ _ h1)
    ]
wait_for_drives-FirstFound host drives (suc left) n x h =
    elim (settle_scan-eq-ok (get_target_drives host (host.scan n) drives) (host.scan n) _ x h) [
      | inl found ↦ at_once host drives (suc left) n x found
      | inr (drive, missed, h1) ↦
          one_more host drives left n x (drive, missed)
            (wait_for_drives-FirstFound host drives left (suc n) x h1)
    ]

wait_at_once :
    (host : Host) (drives : List String) (left n : ℕ) (found : List String)
    → get_target_drives host (host.scan n) drives ≡ ok found
    → wait_for_drives host drives left n ≡ ok (found, host.scan n)
unfolding wait_for_drives settle_scan
wait_at_once host drives zero n found h =
    subst (λ r. settle_scan r (host.scan n) err ≡ ok (found, host.scan n)) (sym h) refl
wait_at_once host drives (suc left) n found h =
    subst
      (λ r.
        settle_scan r (host.scan n) (λ e. wait_for_drives host drives left (suc n))
        ≡ ok (found, host.scan n))
      (sym h) refl

wait_once_more :
    (host : Host) (drives : List String) (left n : ℕ)
    → Misses host drives n
    → wait_for_drives host drives (suc left) n ≡ wait_for_drives host drives left (suc n)
unfolding wait_for_drives settle_scan
wait_once_more host drives left n (drive, missed) =
    subst
      (λ r.
        settle_scan r (host.scan n) (λ e. wait_for_drives host drives left (suc n))
        ≡ wait_for_drives host drives left (suc n))
      (sym missed) refl

-- A drive that shows up in time is waited for: where each of the first k enumerations misses a drive
-- and the next one has them all, k of the further enumerations are enough.
pub wait_for_drives-finds :
    (host : Host) (drives : List String) (k left n : ℕ) (found : List String)
    → k ≤ left
    → ((j : ℕ) → j < k → Misses host drives (n + j))
    → get_target_drives host (host.scan (n + k)) drives ≡ ok found
    → wait_for_drives host drives left n ≡ ok (found, host.scan (n + k))
wait_for_drives-finds host drives zero left n found bound before h =
    subst
      (λ m.
        get_target_drives host (host.scan m) drives ≡ ok found
        → wait_for_drives host drives left n ≡ ok (found, host.scan m))
      (sym (add_zero n)) (wait_at_once host drives left n found) h
wait_for_drives-finds host drives (suc k) zero n found bound before h =
    absurd (omega (arith, bound))
wait_for_drives-finds host drives (suc k) (suc left) n found bound before h =
    wait_once_more host drives left n
      (subst (Misses host drives) (add_zero n) (before 0 (omega arith)))
    ∙ subst (λ m. wait_for_drives host drives left (suc n) ≡ ok (found, host.scan m)) (shift n k)
        (wait_for_drives-finds host drives k left (suc n) found (omega (arith, bound))
          (λ j below.
            subst (Misses host drives) (sym (shift n j)) (before (suc j) (omega (arith, below))))
          (subst (λ m. get_target_drives host (host.scan m) drives ≡ ok found) (sym (shift n k)) h))
