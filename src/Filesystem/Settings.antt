-- ===== src/Filesystem/Settings.antt =====
-- The head of `partition` in filesystem.py: what it takes from the profile and from the values, and
-- what it refuses before a drive is touched.
use disks.Filesystem.Model.{
  Drive, Error, Host, Recipe, exception, file_system_exception, index_error, no_option, value_error,
}
use disks.Filesystem.Recipes.{mkfs_types, partition_recipes}
use disks.Filesystem.Targets.{targets_with_mount, wait_for_drives}
use disks.Prelude.{
  Bool, List, Option, String, [], contains, false, get_elem?, if◌then◌else◌, length, ltb, nat_key,
  none, option_key, some, string_key, suc, true, zero, ℕ, ◌+◌, ◌==◌, ◌||◌, ◌∷◌,
}
use disks.Prelude.Dict.{Dict, lookup}
use disks.Prelude.Exec.{Result, err, ok}
use disks.Prelude.Int.{Frac, is_zero, pos, whole, ℤ}
use disks.Prelude.Text.{split_on}

-- `profile.get` and `profile.items` of the `configparser` that the installer has loaded.
pub record Profile : Type 0 where
  pub get : String → String → Option String
  pub items : String → List (String × String)

-- A size of the value map: a number, of which 0 reads as a missing key, or the integer that a text
-- gives to `int`, also where that is 0. An empty text is a missing key, and one that is no integer
-- raises and is not modelled.
pub data SizeValue : Type 0 where
  size_number : ℤ → SizeValue
  size_text : ℤ → SizeValue

-- The keys that `partition` reads of the value map; any of them may be missing.
pub record Values : Type 0 where
  pub md_meta_version : Option String
  pub target_drives : List String
  pub swap_size : Option SizeValue
  pub boot_size : Option SizeValue
  pub default_mounting_options : Option String
  pub partition_scheme : Option String
  pub partition_recipe : Option Recipe

-- What is settled before the drives are laid out.
pub record Settings : Type 0 where
  pub partition_type : String
  pub fs_type : String
  pub boot_fs_type : String
  pub md_meta_version : String
  pub target_drives : List String
  pub drive_map : Dict String Drive
  pub boot_rsvd_size : Frac
  pub swap_size : Frac
  pub boot_size : Frac
  pub default_options : List String
  pub recipe : Recipe
  pub targets : List ℕ

abbrev or_error {ℓ} : {A : Type ℓ} → Option A → Error → Result Error A
or_error none e = err e
or_error (some a) e = ok a

abbrev check : Bool → Error → Result Error (Unit {0})
check true e = ok tt
check false e = err e

infixl 10 ◌>>=◌ ◌>>◌
abbrev ◌>>=◌ {ℓ κ} :
    {A : Type ℓ} {B : Type κ} → Result Error A → (A → Result Error B) → Result Error B
ok a >>= f = f a
err e >>= f = err e

abbrev ◌>>◌ {ℓ} : {B : Type ℓ} → Result Error (Unit {0}) → Result Error B → Result Error B
m >> k = m >>= λ _. k

-- `profile.get( 'filesystem', key )`, which raises where the option is missing
abbrev pub required : Profile → String → Result Error String
required profile key = or_error (profile.get "filesystem" key) (no_option key)

-- `if value_map[ key ]: x = value_map[ key ]`, for a text and for a number
abbrev given : Option String → String → String
given none default = default
given (some text) default = if text == "" then default else text

abbrev given_size : Option SizeValue → ℤ → ℤ
given_size none default = default
given_size (some (size_number n)) default = if is_zero n then default else n
given_size (some (size_text n)) default = n

unfoldable pub mounting_options : Option String → List String
mounting_options none = []
mounting_options (some text) = if text == "" || text == "defaults" then [] else split_on b',' text

unfoldable pub choose_recipe : Values → Result Error Recipe
choose_recipe values =
    let scheme = given values.partition_scheme "single" in
    if scheme == "custom"
    then or_error values.partition_recipe (exception "recipe not found")
    else or_error (lookup scheme partition_recipes) (exception "Unknown partitioning scheme")

-- `if not recipe`: an empty recipe is refused too
unfoldable pub not_empty : Recipe → Result Error Recipe
not_empty [] = err (exception "Unknown partitioning scheme")
not_empty (item ∷ recipe) = ok (item ∷ recipe)

-- `set( [ int( i[ 'target' ] ) for i in recipe if 'target' in i ] )`; a set of small integers is
-- walked in ascending order
unfoldable pub add_target : ℕ → List ℕ → List ℕ
add_target t [] = t ∷ []
add_target t (u ∷ us) =
    let rest = add_target t us in
    if t == u then u ∷ us else if ltb t u then t ∷ u ∷ us else u ∷ rest

unfoldable pub targets_of : Recipe → List ℕ
targets_of [] = []
targets_of (item ∷ recipe) =
    let rest = targets_of recipe in elim item.target [ none ↦ rest | some t ↦ add_target t rest ]

-- `max( targets )`, which raises for no targets
unfoldable pub max_of : List ℕ → Result Error ℕ
max_of [] = err value_error
max_of (t ∷ ts) = ok (larger_of t ts)
  where
    larger_of : ℕ → List ℕ → ℕ
    larger_of m [] = m
    larger_of m (u ∷ us) = larger_of (if ltb m u then u else m) us

-- the number of items whose 'type' is 'swap'
unfoldable pub swap_count : Recipe → ℕ
swap_count [] = 0
swap_count (item ∷ recipe) =
    (elim item.type [ none ↦ 0 | some t ↦ if t == "swap" then 1 else 0 ]) + swap_count recipe

-- `swap_size / sum( .. )`, and 0 where no item is a swap
unfoldable pub share_swap : ℤ → ℕ → Frac
share_swap size zero = whole (pos 0)
share_swap size (suc n) = record { num = size; den = suc n }

unfoldable pub settings : Host → Profile → Values → Result Error Settings
settings host profile values = do
  partition_type ← required profile "partition_type"
  check (contains ("gpt" ∷ "msdos" ∷ []) partition_type)
      (file_system_exception "Invalid partition_type")
  fs_type ← required profile "fs_type"
  check (contains mkfs_types fs_type) (file_system_exception "Invalid fs_type")
  boot_fs_type ← required profile "boot_fs_type"
  check (contains mkfs_types boot_fs_type) (file_system_exception "Invalid boot_fs_type")
  md_meta_version ← required profile "md_meta_version"
  found ← wait_for_drives host values.target_drives 9 0
  recipe ← not_empty (← choose_recipe values)
  greatest ← max_of (targets_of recipe)
  check (ltb greatest (length found.0)) (exception "Not Enough Target Drives")
  ok (record {
    partition_type = partition_type;
    fs_type = fs_type;
    boot_fs_type = boot_fs_type;
    md_meta_version = given values.md_meta_version md_meta_version;
    target_drives = found.0;
    drive_map = found.1.block_map;
    boot_rsvd_size = whole (if partition_type == "gpt" then pos 100 else pos 5);
    swap_size = share_swap (given_size values.swap_size (pos 512)) (swap_count recipe);
    boot_size = whole (given_size values.boot_size (pos 512));
    default_options = mounting_options values.default_mounting_options;
    recipe = recipe;
    targets = targets_of recipe;
  })

-- `boot_drives`: the drives that hold /boot, or / where there is no /boot
unfoldable pub boot_targets : Recipe → Result Error (List ℕ)
boot_targets recipe = elim (targets_with_mount recipe "/boot") [
  | err e ↦ err e
  | ok (t ∷ ts) ↦ ok (t ∷ ts)
  | ok [] ↦ elim (targets_with_mount recipe "/") [
    | err e ↦ err e
    | ok (t ∷ ts) ↦ ok (t ∷ ts)
    | ok [] ↦ err (exception "Unable to determine the boot_drives")
  ]
]

-- `target_drives[ i ]`
unfoldable pub drive_at : Settings → ℕ → Result Error String
drive_at settings target = or_error (get_elem? settings.target_drives target) index_error

-- `[ target_drives[i] for i in boot_drives ]`
unfoldable pub drives_at : Settings → List ℕ → Result Error (List String)
drives_at settings [] = ok []
drives_at settings (target ∷ targets) = do
  drive ← drive_at settings target
  drives ← drives_at settings targets
  ok (drive ∷ drives)
