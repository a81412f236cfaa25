-- ===== src/Canonical.antt =====
-- The canonical text of a JSON value: apps/api/src/common/canonical-json.ts. What `JSON.stringify` makes
-- of a scalar or a key is a parameter. Keys are compared by their code points, which is the order of
-- `sort` for keys without characters beyond the basic plane.
pub mod Order
use fuel_chain.Base.{String, Bool, List, [], ◌∷◌, map, sort_by}
use Prim.Native.String.{◌++◌}
use fuel_chain.Base.Int.{ℤ}
use fuel_chain.Base.Text.{text_le}

mutual
  pub data Json : Type 0 where
    null : Json
    flag : Bool → Json
    number : ℤ → Json
    text : String → Json
    array : Items → Json
    object : Fields → Json

  pub data Items : Type 0 where
    no_items : Items
    item : Json → Items → Items

  pub data Fields : Type 0 where
    no_fields : Fields
    field : String → Json → Fields → Fields

-- `join(',')`
abbrev pub joined : List String → String
joined [] = ""
joined (s ∷ []) = s
joined (s ∷ t ∷ rest) = s ++ "," ++ joined (t ∷ rest)

abbrev pub key_le : String × String → String × String → Bool
key_le a b = text_le a.0 b.0

-- The quoted key stands with the key that is compared.
abbrev pub labelled : (Json → String) → String × String → String
labelled stringify e = stringify (text e.0) ++ ":" ++ e.1

mutual
  pub canonical_json : (Json → String) → Json → String
  canonical_json stringify (array xs) = "[" ++ joined (canonical_items stringify xs) ++ "]"
  canonical_json stringify (object fs) =
      "{"
      ++ joined (map (labelled stringify) (sort_by key_le (canonical_fields stringify fs)))
      ++ "}"
  canonical_json stringify v = stringify v

  pub canonical_items : (Json → String) → Items → List String
  canonical_items stringify no_items = []
  canonical_items stringify (item v xs) = canonical_json stringify v ∷ canonical_items stringify xs

  pub canonical_fields : (Json → String) → Fields → List (String × String)
  canonical_fields stringify no_fields = []
  canonical_fields stringify (field k v fs) =
      (k, canonical_json stringify v) ∷ canonical_fields stringify fs
