-- ===== src/DiskTest/Limits.antt =====
-- The limits of the SMART attributes in disks/disk-test/root/pylib/Evaluator.py.
pub mod Within
use disks.Cinp.Words.{Text, codes, strip_prefix}
use disks.Prelude.{
  Bool, List, Option, String, [], false, if◌then◌else◌, leb, ltb, nat_key, none, option_key, some,
  string_key, true, ℕ, ◌&&◌, ◌+◌, ◌-◌, ◌==◌, ◌||◌, ◌∷◌,
}
use disks.Prelude.Dict.{Dict, lookup}

pub data DriveType : Type 0 where
  seagate western_digital samsung hitachi intel_ssd satadom unknown_type : DriveType

-- An attribute, the most that its value may be, and the most that it may have grown.
pub record Limit : Type 0 where
  pub attrib : ℕ
  pub most : ℕ
  pub rate : ℕ

abbrev limit : ℕ → ℕ → ℕ → Limit
limit attrib most rate = record { attrib = attrib; most = most; rate = rate }

-- `SMART_ATTRIBS`; two of the types that `getType` answers have no entry
unfoldable pub smart_attribs : DriveType → Option (List Limit)
smart_attribs seagate = some (
    limit 10 5 1
    ∷ limit 184 2 1
    ∷ limit 193 400000 60
    ∷ limit 194 45 30
    ∷ limit 197 2 2
    ∷ limit 198 15 10
    ∷ [])
smart_attribs western_digital = some (
    limit 1 1000 500
    ∷ limit 5 10 5
    ∷ limit 7 1000 500
    ∷ limit 10 1 1
    ∷ limit 11 1 1
    ∷ limit 193 400000 60
    ∷ limit 194 45 30
    ∷ limit 196 10 5
    ∷ limit 197 2 2
    ∷ limit 198 10 5
    ∷ limit 200 15 10
    ∷ [])
smart_attribs hitachi = some (
    limit 5 10 5
    ∷ limit 10 1 1
    ∷ limit 193 400000 60
    ∷ limit 194 45 30
    ∷ limit 196 10 5
    ∷ limit 197 2 2
    ∷ limit 198 10 5
    ∷ [])
smart_attribs satadom = some (limit 198 20 0 ∷ [])
smart_attribs unknown_type = some (
    limit 1 2000 1000
    ∷ limit 5 10 5
    ∷ limit 7 2000 1000
    ∷ limit 10 1 1
    ∷ limit 11 1 1
    ∷ limit 184 2 1
    ∷ limit 188 2 1
    ∷ limit 193 400000 60
    ∷ limit 194 45 30
    ∷ limit 195 2000 1000
    ∷ limit 196 10 5
    ∷ limit 197 2 2
    ∷ limit 198 10 5
    ∷ limit 200 15 10
    ∷ limit 201 2000 1000
    ∷ limit 221 10 5
    ∷ limit 223 10 5
    ∷ limit 225 300000 40
    ∷ [])
smart_attribs samsung = none
smart_attribs intel_ssd = none

-- `model.lower()`, of ASCII letters
unfoldable pub lower : Text → Text
lower [] = []
lower (c ∷ s) = (if leb b'A' c && leb c b'Z' then c + 32 else c) ∷ lower s

abbrev pub has_prefix : String → Text → Bool
has_prefix prefix s = elim (strip_prefix (codes prefix) s) [ none ↦ false | some rest ↦ true ]

unfoldable pub type_of : Text → DriveType
type_of model =
    if has_prefix "st" model
    then seagate
    else if has_prefix "wd" model
    then western_digital
    else if has_prefix "hd" model || has_prefix "samsung" model
    then samsung
    else if has_prefix "hu" model || has_prefix "hitachi" model
    then hitachi
    else if has_prefix "intel ssd" model
    then intel_ssd
    else if has_prefix "satadom" model
    then satadom
    else unknown_type

-- `getType`
abbrev pub get_type : Text → DriveType
get_type model = type_of (lower model)

unfoldable pub limit_of : ℕ → List Limit → Option Limit
limit_of attrib [] = none
limit_of attrib (l ∷ limits) = if l.attrib == attrib then some l else limit_of attrib limits

-- Why a drive is pruned.
pub data Reason : Type 0 where
  no_attributes is_removable is_mounted is_no_thrash is_virtual has_partitions : Reason
  allready_dead allready_thrashed : Reason
  above_threshold above_rate : (attrib raw : ℕ) → Reason

-- One attribute: its reason, if it is too high, or has grown too much since the first time.
unfoldable pub judge_attrib : Dict ℕ ℕ → ℕ → ℕ → Limit → Option Reason
judge_attrib initial attrib raw l =
    if ltb l.most raw then some (above_threshold attrib raw) else elim (lookup attrib initial) [
      | none ↦ none
      | some before ↦
          if ltb (before + l.rate) raw then some (above_rate attrib (raw - before)) else none
    ]

abbrev pub or_next : Option Reason → Option Reason → Option Reason
or_next none next = next
or_next (some reason) next = some reason

-- the loop over the attributes
unfoldable pub judge_attribs : List Limit → Dict ℕ ℕ → Dict ℕ ℕ → Option Reason
judge_attribs limits initial [] = none
judge_attribs limits initial ((attrib, raw) ∷ attribs) =
    let next = judge_attribs limits initial attribs in
    elim (limit_of attrib limits) [
      | none ↦ next
      | some l ↦ or_next (judge_attrib initial attrib raw l) next
    ]
