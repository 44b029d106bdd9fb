-- ===== src/Filesystem/Trace.antt =====
-- The commands that an action runs where it returns, one rule for each way to build an action.
use disks.Filesystem.Model.{Action, Command, Error, Host, State, effect, execute, execute_lines}
use disks.Filesystem.Plan.{lift}
use disks.Prelude.{
  Bool, List, Option, [], ap, false, if◌then◌else◌, nat_key, none, option_key, refl, some,
  string_key, sym, true, ◌++◌, ◌∙◌, ◌∷◌, ◌≡◌,
}
use disks.Prelude.Exec.{Result, bind-eq-ok, for_each, modify, ok, or_raise, pure, raise, ◌>>=◌}
use mathlib.Core.List.{append-nil, append_assoc}

-- Where `m` returns, it has run just `commands`, in their order.
pub record Runs {ℓ} {A : Type ℓ} (m : Action A) (commands : List Command) : Type ℓ where
  pub at : (s : State) (a : A) → (m s).0 ≡ ok a → (m s).1.log ≡ s.log ++ commands

pub Runs-pure {ℓ} : {A : Type ℓ} (a : A) → Runs (pure a) []
Runs-pure a = record { at = λ s b h. sym (append-nil s.log) }

pub Runs-raise {ℓ} : {A : Type ℓ} (e : Error) (xs : List Command) → Runs (raise {A = A} e) xs
Runs-raise e xs = record { at = λ s b h. cc }

pub Runs-modify : (f : State → State) → ((s : State) → (f s).log ≡ s.log) → Runs (modify f) []
Runs-modify f k = record { at = λ s b h. k s ∙ sym (append-nil s.log) }

pub Runs-effect : (c : Command) → Runs (effect c) (c ∷ [])
unfolding effect
Runs-effect c = record { at = λ s b h. refl }

pub Runs-execute : (host : Host) (c : Command) → Runs (execute host c) (c ∷ [])
unfolding execute
Runs-execute host c = record { at = λ s b h. refl }

pub Runs-execute_lines : (host : Host) (c : Command) → Runs (execute_lines host c) (c ∷ [])
unfolding execute_lines
Runs-execute_lines host c = record { at = λ s b h. refl }

pub Runs-lift {ℓ} : {A : Type ℓ} (r : Result Error A) → Runs (lift r) []
Runs-lift r = record { at = λ s b h. sym (append-nil s.log) }

pub Runs-bind {ℓ κ} :
    {A : Type ℓ} {B : Type κ} (m : Action A) (f : A → Action B) (xs ys : List Command)
    → Runs m xs
    → ((a : A) → Runs (f a) ys)
    → Runs (m >>= f) (xs ++ ys)
Runs-bind m f xs ys km kf = record {
  at = λ s b h.
      let (a, returns, same) = bind-eq-ok m f s b h in
      let there = (kf a).at (m s).1 b (ap (λ r. r.0) (sym same) ∙ h) in
      ap (λ r. r.1.log) same
      ∙ there
      ∙ ap (λ l. l ++ ys) (km.at s a returns)
      ∙ append_assoc s.log xs ys;
}

-- A value that may be missing is there where the block returns.
pub Runs-some {ℓ κ} :
    {A : Type ℓ} {B : Type κ} (o : Option A) (e : Error) (f : A → Action B) (xs : List Command)
    → ((a : A) → o ≡ some a → Runs (f a) xs)
    → Runs (or_raise o e >>= f) xs
Runs-some none e f xs k = record { at = λ s b h. cc }
Runs-some (some a) e f xs k = k a refl

-- A test that raises has failed where the block returns.
pub Runs-else {ℓ} :
    {A : Type ℓ} (b : Bool) (e : Error) (m : Action A) (xs : List Command)
    → (b ≡ false → Runs m xs)
    → Runs (if b then raise e else m) xs
Runs-else true e m xs k = Runs-raise e xs
Runs-else false e m xs k = k refl

-- the commands of a loop, from those of each round
abbrev pub concat_map {ℓ} : {A : Type ℓ} → (A → List Command) → List A → List Command
concat_map f [] = []
concat_map f (x ∷ xs) = f x ++ concat_map f xs

pub Runs-for_each {ℓ} :
    {A : Type ℓ} (xs : List A) (body : A → Action (Unit {0})) (f : A → List Command)
    → ((a : A) → Runs (body a) (f a))
    → Runs (for_each xs body) (concat_map f xs)
unfolding for_each
Runs-for_each [] body f k = Runs-pure tt
Runs-for_each (x ∷ xs) body f k =
    Runs-bind (body x) (λ _. for_each xs body) (f x) (concat_map f xs) (k x)
      (λ _. Runs-for_each xs body f k)
