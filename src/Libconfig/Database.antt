-- ===== src/Libconfig/Database.antt =====
-- `_checkDB` of src/libconfig/libconfig.py, which makes the tables that a new database has not.
use disks.Libconfig.Cache.{CacheRow}
use disks.Libconfig.Rows.{TargetRow, TemplateRow}
use disks.Prelude.{
  Bool, List, Option, [], arith, false, if◌then◌else◌, ltb, nat_key, none, option_key, refl, some,
  string_key, true, ℕ, ◌≡◌, ◌≤◌,
}

-- What the tables of the curator hold; the time is `valuesLastModified` of "global".
pub record Tables : Type 0 where
  pub values_last_modified : ℕ
  pub value_cache : List CacheRow
  pub targets : List TargetRow
  pub templates : List TemplateRow

-- "control" has the version, if it is there; the others are what is in them.
pub record Database : Type 0 where
  pub control : Option ℕ
  pub tables : Tables

-- the tables as they are created
abbrev pub no_tables : ℕ → Tables
no_tables now = record {
  values_last_modified = now;
  value_cache = [];
  targets = [];
  templates = [];
}

abbrev pub version_of : Option ℕ → ℕ
version_of none = 0
version_of (some version) = version

-- `_checkDB`: a version below 1 drops the tables and makes them anew
unfoldable pub check_db : (now : ℕ) → Database → Database
check_db now d =
    if ltb (version_of d.control) 1
    then record { control = some 1; tables = no_tables now }
    else record { control = some (version_of d.control); tables = d.tables }

check_db-kept :
    (now : ℕ) (control : Option ℕ) (tables : Tables) (version : ℕ)
    → control ≡ some version
    → 1 ≤ version
    → check_db now (record { control = control; tables = tables })
      ≡ record { control = control; tables = tables }
unfolding check_db
check_db-kept now none tables version h new = cc
check_db-kept now (some known) tables version h new =
    rw (high known version (some_inj known version h) new) refl
  where
    some_inj : (a b : ℕ) → some a ≡ some b → a ≡ b
    some_inj a b h = cc

    high : (known version : ℕ) → known ≡ version → 1 ≤ version → ltb known 1 ≡ false
    high known version h new = ground arith

-- The check comes to nothing the second time: what it has made stays, whenever it is done again, and a
-- database of version 1 or above keeps all its rows.
pub check_db-twice :
    (now later : ℕ) (d : Database)
    → (check_db later (check_db now d) ≡ check_db now d)
      × ((version : ℕ) → d.control ≡ some version → 1 ≤ version → check_db now d ≡ d)
unfolding check_db
check_db-twice now later d = (
  again (ltb (version_of d.control) 1) refl,
  λ version h new. check_db-kept now d.control d.tables version h new,
)
  where
    made : Bool → Database
    made b =
        if b
        then record { control = some 1; tables = no_tables now }
        else record { control = some (version_of d.control); tables = d.tables }

    low : (n : ℕ) → ltb n 1 ≡ false → 1 ≤ n
    low n h = ground arith

    again : (b : Bool) → ltb (version_of d.control) 1 ≡ b → check_db later (made b) ≡ made b
    again true h = check_db-kept later (some 1) (no_tables now) 1 refl (omega arith)
    again false h =
        check_db-kept later (some (version_of d.control)) d.tables (version_of d.control) refl
          (low (version_of d.control) h)
