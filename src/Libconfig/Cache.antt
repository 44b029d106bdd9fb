-- ===== src/Libconfig/Cache.antt =====
-- The cache of the values in src/libconfig/libconfig.py: `updateCacheFromContractor`, `getValues`
-- and what they call. Pickle, base64, the clock and the parser of times are parameters.
pub mod Writes
pub mod Loop
pub mod Fresh
use disks.Cinp.Json.{
  Json, array, boolean, dict, end_items, end_members, item, member, null, number, text,
}
use disks.Cinp.Words.{is_nil}
use disks.Prelude.{
  Bool, List, Option, String, [], false, if◌then◌else◌, nat_key, none, not, option_key, some,
  string_key, true, ◌++◌, ◌==◌, ◌∷◌,
}
use disks.Prelude.Dict.{Dict, has_key, insert, keys, lookup}
use disks.Prelude.Exec.{Exec, for_each, gets, modify, or_raise, raise_if, ◌>>=◌, ◌>>◌}
use disks.Prelude.Int.{is_zero}

-- A row of "value_cache".
pub record CacheRow : Type 0 where
  pub name : String
  pub stored : String

pub record Codec : Type 0 where
  pub encode : Json → String
  pub decode : String → Json
  pub parse_time : Json → Option Json
  pub same_value : Json → Json → Bool

-- The cache, the time of the last change of the values, the overlay, and the client's config uuid.
pub record Store : Type 0 where
  pub value_cache : List CacheRow
  pub last_modified : Json
  pub extra_values : Dict String Json
  pub config_uuid : Option Json

pub data CacheError : Type 0 where
  empty_config not_valid uuid_mismatch key_error bad_time : CacheError

abbrev pub Act {ℓ} : Type ℓ → Type ℓ
Act A = Exec CacheError Store A

-- `not j`
abbrev pub is_falsy : Json → Bool
is_falsy null = true
is_falsy (boolean b) = not b
is_falsy (number n) = is_zero n
is_falsy (text t) = is_nil t
is_falsy (array end_items) = true
is_falsy (array (item j items)) = false
is_falsy (dict end_members) = true
is_falsy (dict (member k j members)) = false

abbrev pub set_uuid : Json → Act (Unit {0})
set_uuid uuid = modify (λ s. record {
  value_cache = s.value_cache;
  last_modified = s.last_modified;
  extra_values = s.extra_values;
  config_uuid = some uuid;
})

abbrev pub set_cache : (List CacheRow → List CacheRow) → Act (Unit {0})
set_cache f = modify (λ s. record {
  value_cache = f s.value_cache;
  last_modified = s.last_modified;
  extra_values = s.extra_values;
  config_uuid = s.config_uuid;
})

abbrev pub set_last_modified : Json → Act (Unit {0})
set_last_modified time = modify (λ s. record {
  value_cache = s.value_cache;
  last_modified = time;
  extra_values = s.extra_values;
  config_uuid = s.config_uuid;
})

abbrev pub is_other : Codec → Option Json → Json → Bool
is_other k none uuid = false
is_other k (some known) uuid = not (k.same_value known uuid)

-- `_getContractorValues`, for the config that came back; the result is the time
unfoldable pub get_contractor_values : Codec → Dict String Json → Act Json
get_contractor_values k config = do
  _ ← raise_if (is_nil config) empty_config
  uuid ← or_raise (lookup "_structure_config_uuid" config) key_error
  _ ← raise_if (is_falsy uuid) not_valid
  known ← gets (λ s. s.config_uuid)
  _ ← raise_if (is_other k known uuid) uuid_mismatch
  _ ← set_uuid uuid
  time ← or_raise (lookup "__last_modified" config) key_error
  or_raise (k.parse_time time) bad_time

-- the rows as a dict; of two rows, the later one counts
unfoldable pub cached_from : Codec → Dict String Json → List CacheRow → Dict String Json
cached_from k known [] = known
cached_from k known (row ∷ rows) = cached_from k (insert row.name (k.decode row.stored) known) rows

-- `d.update( e )`
unfoldable pub update_dict : Dict String Json → Dict String Json → Dict String Json
update_dict known [] = known
update_dict known ((name, j) ∷ entries) = update_dict (insert name j known) entries

abbrev pub value_or_none : Option Json → Json
value_or_none none = null
value_or_none (some j) = j

-- `getValues`
unfoldable pub get_values : Codec → (no_extra : Bool) → (now : Json) → Store → Dict String Json
get_values k no_extra now s =
    let cached = cached_from k [] s.value_cache in
    let values = if not no_extra then update_dict cached s.extra_values else cached in
    insert "__last_modified__" s.last_modified
      (insert "__timestamp__" now (insert "__uuid__" (value_or_none s.config_uuid) values))

-- UPDATE "value_cache" .. WHERE "name" = ?
unfoldable pub update_rows : (name stored : String) → List CacheRow → List CacheRow
update_rows name stored [] = []
update_rows name stored (row ∷ rows) =
    (if row.name == name then record { name = row.name; stored = stored } else row)
    ∷ update_rows name stored rows

-- DELETE FROM "value_cache" for the names that the config has not
unfoldable pub keep_rows : Dict String Json → List CacheRow → List CacheRow
keep_rows config [] = []
keep_rows config (row ∷ rows) =
    let rest = keep_rows config rows in if has_key row.name config then row ∷ rest else rest

-- One name of the config. `values[ name ] != value` compares a value of the config with the bytes of an
-- encoding, which is never equal.
unfoldable pub write_row : (known : Bool) → (name stored : String) → List CacheRow → List CacheRow
write_row known name stored rows =
    if known
    then update_rows name stored rows
    else rows ++ record { name = name; stored = stored } ∷ []

abbrev pub write_value : Codec → (config values : Dict String Json) → String → Act (Unit {0})
write_value k config values name = or_raise (lookup name config) key_error >>= λ j.
    set_cache (write_row (has_key name values) name (k.encode j))

-- `updateCacheFromContractor`, for the config that came back
unfoldable pub update_cache : Codec → (now : Json) → Dict String Json → Act (Unit {0})
update_cache k now config = do
  time ← get_contractor_values k config
  values ← gets (get_values k true now)
  _ ← for_each (keys config) (write_value k config values)
  _ ← set_cache (keep_rows config)
  set_last_modified time

-- `setOverlayValues`
abbrev pub set_overlay_values : Dict String Json → Act (Unit {0})
set_overlay_values values = modify (λ s. record {
  value_cache = s.value_cache;
  last_modified = s.last_modified;
  extra_values = update_dict s.extra_values values;
  config_uuid = s.config_uuid;
})
