-- ===== src/DiskTest/Kept.antt =====
-- That no drive is lost on the way.
use disks.Cinp.Words.{Text}
use disks.DiskTest.Evaluate.{
  evaluate, evaluate_all, evaluate_read, limits_for, prune_for, set_initial,
}
use disks.DiskTest.Limits.{
  DriveType, Reason, allready_dead, allready_thrashed, has_partitions, no_attributes, smart_attribs,
}
use disks.DiskTest.Lists.{
  Drives, Test, init, key_error, mark, mount_list, name_in, partitioned, prune, prune_allready_dead,
  prune_drive, remove_first, skip_allready_thrashed, skip_one, skip_unthrashable,
  skip_with_filesystems,
}
use disks.Prelude.{
  Bool, Bool-cases, List, Option, String, [], arith, contains, false, if◌then◌else◌, inl, inr,
  nat_key, none, option_key, refl, some, string_key, true, ℕ, ◌==◌, ◌||◌, ◌∷◌, ◌≡◌, ◌⊎◌,
}
use disks.Prelude.Dict.{Dict, has_key, insert}
use disks.Prelude.Exec.Keeps.{
  Keeps, Keeps-elim, Keeps-for_each, Keeps-if, Keeps-or_raise, Keeps-pure, keeps_rules,
}

-- Each drive of the test is still good, or there is a reason why it is bad or skipped.
abbrev pub NoneLost : Test → Type 0
NoneLost s =
    (x : String)
    → contains s.all_list x ≡ true
    → (contains s.good_list x || has_key x s.bad_reasons || has_key x s.skip_reasons) ≡ true

has_key-insert :
    (x k : String) (v : Reason) (d : Dict String Reason)
    → has_key x (insert k v d) ≡ (k == x || has_key x d)
unfolding has_key insert
has_key-insert x k v [] = ground arith
has_key-insert x k v ((j, w) ∷ d) = ground (
  arith,
  string_key.same_iff k x,
  string_key.same_iff j k,
  string_key.same_iff j x,
  has_key-insert x k v d,
)

contains-remove_first :
    (x y : String) (l : List String)
    → contains l x ≡ true
    → (y == x || contains (remove_first y l) x) ≡ true
unfolding remove_first
contains-remove_first x y [] h = cc
contains-remove_first x y (z ∷ l) h =
    go (contains-remove_first x y l) (z == y) refl (Bool-cases (z == x))
  where
    rest : Bool → List String
    rest b = if b then l else z ∷ remove_first y l

    behind : (a b : Bool) → a ≡ false → (a || b) ≡ true → b ≡ true
    behind a b h k = ground arith

    pass : (a b c : Bool) → (a || b) ≡ true → (a || (c || b)) ≡ true
    pass a b c h = ground arith

    go :
        (contains l x ≡ true → (y == x || contains (remove_first y l) x) ≡ true)
        → (b : Bool) → (z == y) ≡ b
        → ((z == x) ≡ true) ⊎ ((z == x) ≡ false)
        → (y == x || contains (rest b) x) ≡ true
    go ih true e (inl k) =
        ground (arith, string_key.same_iff z y, string_key.same_iff z x, string_key.same_iff y x)
    go ih true e (inr k) = ground arith
    go ih false e (inl k) = ground arith
    go ih false e (inr k) =
        pass (y == x) (contains (remove_first y l) x) (z == x)
          (ih (behind (z == x) (contains l x) k h))

prune-NoneLost :
    (drive : String) (reason : Reason) (report skip : Bool) (s : Test)
    → NoneLost s
    → NoneLost (prune drive reason report skip s)
unfolding prune
prune-NoneLost drive reason report true s h x listed_lem =
    kept (contains s.good_list x) (has_key x s.bad_reasons) (has_key x s.skip_reasons) (drive == x)
      (contains (remove_first drive s.good_list) x) _ (h x listed_lem)
      (contains-remove_first x drive s.good_list) (has_key-insert x drive reason s.skip_reasons)
  where
    kept :
        (g b k e r i : Bool)
        → (g || b || k) ≡ true
        → (g ≡ true → (e || r) ≡ true)
        → i ≡ (e || k)
        → (r || b || i) ≡ true
    kept g b k e r i h f same = ground arith
prune-NoneLost drive reason report false s h x listed_lem =
    kept (contains s.good_list x) (has_key x s.bad_reasons) (has_key x s.skip_reasons) (drive == x)
      (contains (remove_first drive s.good_list) x) _ (h x listed_lem)
      (contains-remove_first x drive s.good_list) (has_key-insert x drive reason s.bad_reasons)
  where
    kept :
        (g b k e r i : Bool)
        → (g || b || k) ≡ true
        → (g ≡ true → (e || r) ≡ true)
        → i ≡ (e || b)
        → (r || i || k) ≡ true
    kept g b k e r i h f same = ground arith

Keeps-prune :
    (drive : String) (reason : Reason) (report skip : Bool)
    → Keeps NoneLost (prune_drive drive reason report skip)
Keeps-prune drive reason report skip = record {
  at = λ s h. prune-NoneLost drive reason report skip s h;
}

Keeps-mark : (drive : String) → Keeps NoneLost (mark drive)
Keeps-mark drive = record { at = λ s h. h }

Keeps-set_initial :
    (drive : String) (attribs : Dict ℕ ℕ) → Keeps NoneLost (set_initial drive attribs)
Keeps-set_initial drive attribs = record { at = λ s h. h }

Keeps-limits_for :
    (type : DriveType) (attribs : Dict ℕ ℕ) → Keeps NoneLost (limits_for type attribs)
Keeps-limits_for type [] = record { at = λ s h. h }
Keeps-limits_for type (a ∷ attribs) = Keeps-or_raise (smart_attribs type) key_error

Keeps-prune_for :
    (drive : String) (reason : Option Reason) → Keeps NoneLost (prune_for drive reason)
Keeps-prune_for drive none = record { at = λ s h. h }
Keeps-prune_for drive (some reason) = Keeps-prune drive reason false false

ruleset test_rules =
    (keeps_rules, Keeps-prune, Keeps-mark, Keeps-set_initial, Keeps-limits_for, Keeps-prune_for)

Keeps-skip_one :
    (d : Drives) (mounts : List Text) (drive : String) → Keeps NoneLost (skip_one d mounts drive)
unfolding skip_one
Keeps-skip_one d mounts drive = search test_rules depth 10

Keeps-evaluate_read :
    (d : Drives) (drive : String) (attribs : Dict ℕ ℕ)
    → Keeps NoneLost (evaluate_read d drive attribs)
unfolding evaluate_read
Keeps-evaluate_read d drive attribs = search test_rules depth 12

Keeps-evaluate :
    (d : Drives) (smart_attrs : String → Option (Dict ℕ ℕ)) (drive : String)
    → Keeps NoneLost (evaluate d smart_attrs drive)
unfolding evaluate
Keeps-evaluate d smart_attrs drive =
    Keeps-elim (smart_attrs drive) (prune_drive drive no_attributes true false)
      (evaluate_read d drive) (Keeps-prune drive no_attributes true false)
      (Keeps-evaluate_read d drive)

Keeps-skip_unthrashable : (d : Drives) → Keeps NoneLost (skip_unthrashable d)
unfolding skip_unthrashable mount_list
Keeps-skip_unthrashable d = search (test_rules, Keeps-skip_one) depth 12

-- No drive of the test is ever lost: at the start, and behind each of the steps, whether it ends or
-- raises, every drive of the whole list is still good, or has a reason why it is bad or skipped. The
-- answers of the evaluator and the readings of the drives are any at all.
pub init-NoneLost :
    (d : Drives) (is_dead is_thrashed : String → Bool) (smart_attrs : String → Option (Dict ℕ ℕ))
    (s : Test)
    → NoneLost (init d)
      × (NoneLost s
          → NoneLost (skip_unthrashable d s).1
            × NoneLost (skip_with_filesystems d s).1
            × NoneLost (prune_allready_dead is_dead s).1
            × NoneLost (skip_allready_thrashed is_thrashed s).1
            × NoneLost (evaluate_all d smart_attrs s).1)
unfolding init skip_with_filesystems prune_allready_dead skip_allready_thrashed evaluate_all
init-NoneLost d is_dead is_thrashed smart_attrs s = (
  λ x h. rw h refl,
  λ h. (
    (Keeps-skip_unthrashable d).at s h,
    (Keeps-for_each s.good_list _ (λ drive.
          Keeps-if (name_in (d.block_name drive) (partitioned d.partition_names)) _ _
            (Keeps-prune drive has_partitions false true) (Keeps-pure tt))).at
        s h,
    (Keeps-for_each s.good_list _ (λ drive.
          Keeps-if (is_dead drive) _ _ (Keeps-prune drive allready_dead false false)
            (Keeps-pure tt))).at
        s h,
    (Keeps-for_each s.good_list _ (λ drive.
          Keeps-if (is_thrashed drive) _ _ (Keeps-prune drive allready_thrashed false true)
            (Keeps-pure tt))).at
        s h,
    (Keeps-for_each s.good_list (evaluate d smart_attrs) (Keeps-evaluate d smart_attrs)).at s h,
  ),
)
