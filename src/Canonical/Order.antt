-- ===== src/Canonical/Order.antt =====
-- The canonical text does not depend on the order in which an object lists its keys.
use fuel_chain.Base.{◌≡◌, ◌≢◌, refl, ap, ◌∙◌, String, List, [], ◌∷◌, map, insert_by, sort_by, arith}
use Prim.Native.String.{◌++◌}
use fuel_chain.Base.Text.{text_le_total, text_le_antisym, text_le_trans}
use fuel_chain.Canonical.{
  Json, object, array, Items, no_items, item, Fields, field, canonical_items, joined, key_le,
  labelled, canonical_json, canonical_fields,
}

-- The same value but for the order of the keys of its objects, at any depth; two neighbours with
-- different keys are exchanged at a time.
mutual
  pub data Alike : Json → Json → Type 0 where
    same : (v : Json) → Alike v v
    objects : {fs gs : Fields} → Reordered fs gs → Alike (object fs) (object gs)
    arrays : {xs ys : Items} → AlikeItems xs ys → Alike (array xs) (array ys)

  pub data AlikeItems : Items → Items → Type 0 where
    none_left : AlikeItems no_items no_items
    both :
        {v u : Json} {xs ys : Items}
        → Alike v u
        → AlikeItems xs ys
        → AlikeItems (item v xs) (item u ys)

  pub data Reordered : Fields → Fields → Type 0 where
    kept : (fs : Fields) → Reordered fs fs
    swap :
        (k l : String) (v u : Json) (fs : Fields)
        → k ≢ l
        → Reordered (field k v (field l u fs)) (field l u (field k v fs))
    under :
        (k : String) {v u : Json} {fs gs : Fields}
        → Alike v u
        → Reordered fs gs
        → Reordered (field k v fs) (field k u gs)
    next : {fs gs hs : Fields} → Reordered fs gs → Reordered gs hs → Reordered fs hs

insert_swap :
    (a b : String × String) (xs : List (String × String))
    → a.0 ≢ b.0
    → insert_by key_le a (insert_by key_le b xs) ≡ insert_by key_le b (insert_by key_le a xs)
insert_swap a b [] other = ground (arith, text_le_total a.0 b.0, text_le_antisym a.0 b.0, other)
insert_swap a b (y ∷ ys) other = ground (
  arith,
  text_le_total a.0 b.0,
  text_le_antisym a.0 b.0,
  other,
  text_le_trans a.0 b.0 y.0,
  text_le_trans b.0 a.0 y.0,
  insert_swap a b ys other,
)

ap₂ {ℓ κ μ} :
    {A : Type ℓ} {B : Type κ} {C : Type μ} (f : A → B → C) {a a' : A} {b b' : B}
    → a ≡ a'
    → b ≡ b'
    → f a b ≡ f a' b'
ap₂ f p q = λ i. f (p i) (q i)

mutual
  unfolding canonical_json canonical_items canonical_fields

  canonical_alike :
      (stringify : Json → String) {v u : Json}
      → Alike v u
      → canonical_json stringify v ≡ canonical_json stringify u
  canonical_alike stringify (same v) = refl
  canonical_alike stringify (objects r) =
      ap (λ es. "{" ++ joined (map (labelled stringify) es) ++ "}") (sorted_fields stringify r)
  canonical_alike stringify (arrays r) =
      ap (λ es. "[" ++ joined es ++ "]") (items_alike stringify r)

  items_alike :
      (stringify : Json → String) {xs ys : Items}
      → AlikeItems xs ys
      → canonical_items stringify xs ≡ canonical_items stringify ys
  items_alike stringify none_left = refl
  items_alike stringify (both v r) = ap₂ ◌∷◌ (canonical_alike stringify v) (items_alike stringify r)

  sorted_fields :
      (stringify : Json → String) {fs gs : Fields}
      → Reordered fs gs
      → sort_by key_le (canonical_fields stringify fs)
        ≡ sort_by key_le (canonical_fields stringify gs)
  sorted_fields stringify (kept fs) = refl
  sorted_fields stringify (swap k l v u rest other) =
      insert_swap (k, canonical_json stringify v) (l, canonical_json stringify u)
        (sort_by key_le (canonical_fields stringify rest)) other
  sorted_fields stringify (under k v r) =
      ap₂ (λ s es. insert_by key_le (k, s) es) (canonical_alike stringify v)
        (sorted_fields stringify r)
  sorted_fields stringify (next r s) = sorted_fields stringify r ∙ sorted_fields stringify s

-- Two values that differ in the order of the keys of their objects only, at any depth, where the keys
-- that are exchanged differ, have one canonical text.
pub canonical_json-Alike :
    (stringify : Json → String) (v u : Json)
    → Alike v u
    → canonical_json stringify v ≡ canonical_json stringify u
canonical_json-Alike stringify v u r = canonical_alike stringify r
