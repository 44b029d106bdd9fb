-- ===== src/Filesystem/Arrays/Raided.antt =====
-- What `_addRAID` runs and demands.
use disks.Filesystem.Arrays.{add_raid, even}
use disks.Filesystem.Model.{Command, Error, Host, State, exception, execute, mdadm}
use disks.Prelude.{
  Bool, List, String, [], ap, arith, false, length, ltb, nat_key, not, option_key, refl, string_key,
  true, ℕ, ◌%◌, ◌&&◌, ◌++◌, ◌<>◌, ◌==◌, ◌||◌, ◌∷◌, ◌≡◌, ◌≤◌,
}
use disks.Prelude.Exec.{Result, bind-eq-ok, ok, pure, raise_if, ◌>>◌}
use disks.Prelude.Text.{show}

-- How many members a level takes.
abbrev pub TakesMembers : ℕ → ℕ → Type 0
TakesMembers level n =
    (level ≡ 1 → n % 2 ≡ 0) × (level ≡ 10 → n % 2 ≡ 0) × (level ≡ 5 → 3 ≤ n) × (level ≡ 6 → 3 ≤ n)

even→mod : (n : ℕ) → even n ≡ true → n % 2 ≡ 0
unfolding even
even→mod n h = ground arith

guards-TakesMembers :
    (level n : ℕ)
    → ((level == 1 || level == 10) && not (even n)) ≡ false
    → ((level == 5 || level == 6) && ltb n 3) ≡ false
    → TakesMembers level n
guards-TakesMembers level n g h = (
  (λ e. ground (arith, even→mod n)),
  (λ e. ground (arith, even→mod n)),
  (λ e. ground arith),
  (λ e. ground arith),
)

-- What `_addRAID` has done where it returns.
abbrev pub Raided : String → ℕ → List String → String → State → Result Error String × State → Type 0
Raided dev level members meta s x =
    (name : String)
    → x.0 ≡ ok name
    → TakesMembers level (length members)
      × (x.1.log ≡ s.log ++ mdadm dev meta level (length members) members ∷ [])
      × (x.1.md_list ≡ s.md_list)

pub add_raid-Raided :
    (host : Host) (id : ℕ) (members : List String) (level : ℕ) (meta : String) (s : State)
    → Raided ("/dev/md" <> show id) level members meta s (add_raid host id members level meta s)
unfolding add_raid execute
add_raid-Raided host id members level meta s =
    go ((level == 1 || level == 10) && not (even (length members)))
      ((level == 5 || level == 6) && ltb (length members) 3) refl refl
  where
    dev : String
    dev = "/dev/md" <> show id

    command : Command
    command = mdadm dev meta level (length members) members

    go :
        (odd few : Bool)
        → ((level == 1 || level == 10) && not (even (length members))) ≡ odd
        → ((level == 5 || level == 6) && ltb (length members) 3) ≡ few
        → Raided dev level members meta s (
            (raise_if odd (exception "RAID requires even number of members")
                >> (raise_if few (exception "RAID requires a minimum of 3 members")
                    >> (execute host command >> pure dev)))
              s)
    go true few g h = λ name r. cc
    go false true g h = λ name r. cc
    go false false g h = λ name r.
        let (u, returns, same) = bind-eq-ok (execute host command) (λ _. pure dev) s name r in
        (
          guards-TakesMembers level (length members) g h,
          ap (λ x. x.1.log) same,
          ap (λ x. x.1.md_list) same,
        )
