-- ===== src/Anchors/Select.antt =====
-- Which rows `findReusable` selects.
use fuel_chain.Base.{
  ℕ, ◌≡◌, refl, sym, ◌∙◌, String, Bool, true, ◌&&◌, Option, none, some, List, or_else, is_some,
  find_first, find_first-holds, found-sort_by, found-filter, filter, Option-cases, inl, inr, ◌⊎◌,
  arith, [], ◌∷◌,
}
use fuel_chain.Anchors.{
  Anchor, derive_anchor_status, has_transaction, is_of_event, has_hash, select_reusable_anchor,
  Ledger,
}
use fuel_chain.Anchors.Request.{is_newer, is_related, related, find_reusable, is_confirmed}

abbrev pub is_anchored : String → Anchor → Bool
is_anchored hash a = has_hash hash a && has_transaction a

-- A confirmed row of the hash is in the ledger.
abbrev pub Anchored : String → Ledger → Type 0
Anchored hash l = is_some (find_first (is_anchored hash) l.anchors) ≡ true

pub is_confirmed-has_transaction : (a : Anchor) → is_confirmed (some a) ≡ has_transaction a
unfolding derive_anchor_status
is_confirmed-has_transaction a = ground arith

pub found_other :
    (p r : Anchor → Bool) (rows : List Anchor) (a : Anchor)
    → find_first p rows ≡ some a
    → r a ≡ true
    → is_some (find_first r rows) ≡ true
found_other p r [] a h e = ground arith
found_other p r (x ∷ rows) a h e = ground (arith, found_other p r rows a)

pub found_filtered :
    (r q : Anchor → Bool) (rows : List Anchor)
    → is_some (find_first r (filter q rows)) ≡ true
    → is_some (find_first r rows) ≡ true
found_filtered r q [] h = h
found_filtered r q (x ∷ rows) h = ground (arith, found_filtered r q rows)

pub either :
    {A : Type 0} → (o o' : Option A) (a : A) → or_else o o' ≡ some a → (o ≡ some a) ⊎ (o' ≡ some a)
either none o' a h = inr h
either (some x) o' a h = inl h

second : (a b : Bool) → (a && b) ≡ true → b ≡ true
second a b h = ground (arith, h)

pub first : (a b : Bool) → (a && b) ≡ true → a ≡ true
first a b h = ground (arith, h)

-- What is selected is a row of the hash, and one of the rows.
pub select_sound :
    (rows : List Anchor) (event : ℕ) (hash : String) (a : Anchor) (r : Anchor → Bool)
    → select_reusable_anchor rows event hash ≡ some a
    → r a ≡ true
    → (has_hash hash a ≡ true) × (is_some (find_first r rows) ≡ true)
unfolding select_reusable_anchor
select_sound rows event hash a r h e =
    let p = λ (x : Anchor). is_of_event event x && (has_hash hash x && has_transaction x) in
    let q = λ (x : Anchor). has_hash hash x && has_transaction x in
    let s = λ (x : Anchor). is_of_event event x && has_hash hash x in
    elim (either (find_first p rows) _ a h) [
      | inl found ↦
          let both = second (is_of_event event a) _ (find_first-holds p rows a found) in
          (first (has_hash hash a) _ both, found_other p r rows a found e)
      | inr later ↦ elim (either (find_first q rows) _ a later) [
        | inl found ↦ (
          first (has_hash hash a) _ (find_first-holds q rows a found),
          found_other q r rows a found e,
        )
        | inr found ↦ (
          second (is_of_event event a) _ (find_first-holds s rows a found),
          found_other s r rows a found e,
        )
      ]
    ]

pub find_reusable_sound :
    (event : ℕ) (hash : String) (l : Ledger) (a : Anchor) (r : Anchor → Bool)
    → find_reusable event hash l ≡ some a
    → r a ≡ true
    → (has_hash hash a ≡ true) × (is_some (find_first r l.anchors) ≡ true)
unfolding find_reusable
find_reusable_sound event hash l a r h e =
    let (same, found) = select_sound (related event hash l) event hash a r h e in
    (
      same,
      found_filtered r (is_related event hash) l.anchors
          (sym (found-sort_by r is_newer (filter (is_related event hash) l.anchors)) ∙ found),
    )

-- Where a confirmed row of the hash is among the rows, one is selected.
pub select-confirmed :
    (rows : List Anchor) (event : ℕ) (hash : String)
    → is_some (find_first (is_anchored hash) rows) ≡ true
    → (a : Anchor) × (select_reusable_anchor rows event hash ≡ some a)
      × (is_confirmed (some a) ≡ true)
unfolding select_reusable_anchor
select-confirmed rows event hash h =
    let p = λ (x : Anchor). is_of_event event x && (has_hash hash x && has_transaction x) in
    elim (Option-cases (find_first p rows)) [
      | inr (a, found) ↦ (
        a,
        rw found refl,
        is_confirmed-has_transaction a
            ∙ second (has_hash hash a) _
                (second (is_of_event event a) _ (find_first-holds p rows a found)),
      )
      | inl none_same ↦ elim (Option-cases (find_first (is_anchored hash) rows)) [
        | inl gone ↦ absurd (ground (arith, gone, h))
        | inr (a, found) ↦ (
          a,
          rw (none_same, found) refl,
          is_confirmed-has_transaction a
              ∙ second (has_hash hash a) _ (find_first-holds (is_anchored hash) rows a found),
        )
      ]
    ]

pub find_reusable-confirmed :
    (event : ℕ) (hash : String) (l : Ledger)
    → Anchored hash l
    → (a : Anchor) × (find_reusable event hash l ≡ some a) × (is_confirmed (some a) ≡ true)
unfolding find_reusable
find_reusable-confirmed event hash l h =
    let r = is_anchored hash in
    let q = is_related event hash in
    select-confirmed (related event hash l) event hash (
      found-sort_by r is_newer (filter q l.anchors)
      ∙ found-filter r q (λ x e. related_hash event hash x (first (has_hash hash x) _ e)) l.anchors
      ∙ h)
  where
    related_hash :
        (event : ℕ) (hash : String) (x : Anchor)
        → has_hash hash x ≡ true
        → is_related event hash x ≡ true
    related_hash event hash x h = ground (arith, h)
