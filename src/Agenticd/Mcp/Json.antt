-- ===== src/Agenticd/Mcp/Json.antt =====
-- crates/agenticd/src/mcp.rs: `canonicalize` and `json_depth`, on the values of `serde_json`.
use git_agentic.Common.{ℕ, suc, Bool, [], ◌∷◌, if◌then◌else◌, ltb}
use git_agentic.Common.SortedMap
use git_agentic.Common.SortedMap.{SortedMap}
use git_agentic.Common.Text.{Text, Bytes}
use git_agentic.External.{Serde}

-- `serde_json::Value`: a number is its JSON; the fields of an object stand in the order in which
-- its map is walked.
mutual
  pub data Json : Type 0 where
    null : Json
    boolean : Bool → Json
    number : Text → Json
    string : Text → Json
    array : Items → Json
    object : Fields → Json

  pub data Items : Type 0 where
    no_item : Items
    item : Json → Items → Items

  pub data Fields : Type 0 where
    no_field : Fields
    field : Text → Json → Fields → Fields

-- `Iterator::max`, with 0 for no value
abbrev pub larger : ℕ → ℕ → ℕ
larger a b = if ltb a b then b else a

-- The deepest of the values, 0 for none
unfoldable mutual
  pub json_depth : Json → ℕ
  json_depth (array xs) = suc (items_depth xs)
  json_depth (object fs) = suc (fields_depth fs)
  json_depth _ = 1

  pub items_depth : Items → ℕ
  items_depth no_item = 0
  items_depth (item v xs) = larger (json_depth v) (items_depth xs)

  pub fields_depth : Fields → ℕ
  fields_depth no_field = 0
  fields_depth (field k v fs) = larger (json_depth v) (fields_depth fs)

-- `sorted.into_iter()`
unfoldable pub fields_of : SortedMap Json → Fields
fields_of [] = no_field
fields_of ((k, v) ∷ m) = field k v (fields_of m)

unfoldable mutual
  pub sort_keys : Json → Json
  sort_keys (array xs) = array (sort_items xs)
  sort_keys (object fs) = object (fields_of (sort_fields fs []))
  sort_keys v = v

  pub sort_items : Items → Items
  sort_items no_item = no_item
  sort_items (item v xs) = item (sort_keys v) (sort_items xs)

  -- Each field is inserted into the map of those before it.
  pub sort_fields : Fields → SortedMap Json → SortedMap Json
  sort_fields no_field m = m
  sort_fields (field k v fs) m = sort_fields fs (SortedMap.insert m k (sort_keys v))

unfoldable pub canonicalize : Serde Json → Json → Bytes
unfolding sort_keys
canonicalize json v = json.to_vec (sort_keys v)
