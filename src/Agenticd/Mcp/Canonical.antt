-- ===== src/Agenticd/Mcp/Canonical.antt =====
-- The canonical bytes of a value do not depend on the order of the fields of its objects.
use git_agentic.Common.{◌≡◌, ◌≢◌, refl, ◌∙◌, ap, []}
use git_agentic.Common.SortedMap.{SortedMap, insert_comm}
use git_agentic.Common.Text.{Text}
use git_agentic.External.{Serde}
use git_agentic.Agenticd.Mcp.Json.{
  Json, array, object, Items, item, Fields, field, sort_keys, sort_items, sort_fields, fields_of,
  canonicalize,
}

-- The same value but for the order of the fields of objects, at any depth: two fields next to each
-- other, with different keys, may change places, as often as it takes.
mutual
  pub data Reordered : Json → Json → Type 0 where
    same : {v : Json} → Reordered v v
    in_array : {xs ys : Items} → ReorderedItems xs ys → Reordered (array xs) (array ys)
    in_object : {fs gs : Fields} → ReorderedFields fs gs → Reordered (object fs) (object gs)
    first_then : {u v w : Json} → Reordered u v → Reordered v w → Reordered u w

  pub data ReorderedItems : Items → Items → Type 0 where
    same_items : {xs : Items} → ReorderedItems xs xs
    each :
        {v w : Json} {xs ys : Items}
        → Reordered v w
        → ReorderedItems xs ys
        → ReorderedItems (item v xs) (item w ys)

  pub data ReorderedFields : Fields → Fields → Type 0 where
    same_fields : {fs : Fields} → ReorderedFields fs fs
    each_field :
        {k : Text} {v w : Json} {fs gs : Fields}
        → Reordered v w
        → ReorderedFields fs gs
        → ReorderedFields (field k v fs) (field k w gs)
    swapped :
        {j k : Text} {v w : Json} {fs : Fields}
        → j ≢ k
        → ReorderedFields (field j v (field k w fs)) (field k w (field j v fs))
    fields_then :
        {fs gs hs : Fields} → ReorderedFields fs gs → ReorderedFields gs hs → ReorderedFields fs hs

mutual
  unfolding sort_keys

  sort_keys-Reordered : {v w : Json} → Reordered v w → sort_keys v ≡ sort_keys w
  sort_keys-Reordered same = refl
  sort_keys-Reordered (in_array r) = ap array (sort_items-ReorderedItems r)
  sort_keys-Reordered (in_object r) =
      ap (λ m. object (fields_of m)) (sort_fields-ReorderedFields r [])
  sort_keys-Reordered (first_then r s) = sort_keys-Reordered r ∙ sort_keys-Reordered s

  sort_items-ReorderedItems : {xs ys : Items} → ReorderedItems xs ys → sort_items xs ≡ sort_items ys
  sort_items-ReorderedItems same_items = refl
  sort_items-ReorderedItems (each r s) =
      rw (sort_keys-Reordered r, sort_items-ReorderedItems s) refl

  sort_fields-ReorderedFields :
      {fs gs : Fields}
      → ReorderedFields fs gs
      → (m : SortedMap Json) → sort_fields fs m ≡ sort_fields gs m
  sort_fields-ReorderedFields same_fields m = refl
  sort_fields-ReorderedFields (each_field r s) m =
      rw (sort_keys-Reordered r) (sort_fields-ReorderedFields s _)
  sort_fields-ReorderedFields (swapped {j} {k} {v} {w} {fs} ne) m =
      ap (λ n. sort_fields fs n) (insert_comm m j k (sort_keys v) (sort_keys w) ne)
  sort_fields-ReorderedFields (fields_then r s) m =
      sort_fields-ReorderedFields r m ∙ sort_fields-ReorderedFields s m

-- Two values that differ in the order of the fields of objects only, at any depth, have the same
-- canonical bytes: what a server of tools is recorded as does not depend on how it orders its keys.
pub canonicalize-Reordered :
    (json : Serde Json) {v w : Json} → Reordered v w → canonicalize json v ≡ canonicalize json w
unfolding canonicalize
canonicalize-Reordered json r = ap (λ v. json.to_vec v) (sort_keys-Reordered r)
