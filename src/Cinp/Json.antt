-- ===== src/Cinp/Json.antt =====
-- The values that `json.loads` makes, as src/contractor/contractor/cinp/client.py takes them apart.
use disks.Cinp.Words.{Text, same_text}
use disks.Filesystem.Plan.{key}
use disks.Prelude.{
  Bool, List, Option, [], false, if◌then◌else◌, nat_key, none, option_key, some, string_key, true,
  ◌∷◌,
}
use disks.Prelude.Int.{ℤ}

mutual
  pub data Json : Type 0 where
    null : Json
    boolean : Bool → Json
    number : ℤ → Json
    text : Text → Json
    array : Items → Json
    dict : Members → Json

  pub data Items : Type 0 where
    end_items : Items
    item : Json → Items → Items

  pub data Members : Type 0 where
    end_members : Members
    member : (key : Text) → Json → Members → Members

abbrev pub is_null : Json → Bool
is_null null = true
is_null _ = false

abbrev pub is_dict : Json → Bool
is_dict (dict m) = true
is_dict _ = false

-- `d[ key ]`
unfoldable pub member_at : Text → Members → Option Json
member_at key end_members = none
member_at key (member k j m) =
    let rest = member_at key m in if same_text k key then some j else rest

-- `d[ key ]` of any value: an error unless it is a dict with the key
abbrev pub field_at : Text → Json → Option Json
field_at key (dict m) = member_at key m
field_at key _ = none

-- `for key in d: l.append( ( key, d[ key ] ) )`
unfoldable pub pairs : Members → List (Text × Json)
pairs end_members = []
pairs (member k j m) = (k, j) ∷ pairs m
