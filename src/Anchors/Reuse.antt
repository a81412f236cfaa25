-- ===== src/Anchors/Reuse.antt =====
-- Anchors that are repeated, and what a verification that matches says.
use fuel_chain.Base.{
  ℕ, ◌≡◌, refl, sym, ap, subst, ◌∙◌, String, Bool, true, false, ◌&&◌, Option, none, some, List,
  ◌==◌, ==_iff, is_some, find_first, find-append_new, find-append_row, found-sort_by, found-update,
  filter, Bool-cases, Option-cases, inl, inr, Result, ok, err, arith, if◌then◌else◌,
}
use package.text.Mathlib.TextPositions.{eq_refl}
use fuel_chain.Anchors.{
  Anchor, derive_anchor_status, has_transaction, has_hash, EventRow, evidence_from_received, Ledger,
  Failure, Receipt, Chain, Evidence, failed_marker,
}
use fuel_chain.Anchors.Request.{
  attempt, is_newer, is_related, related, find_reusable, with_data, upsert_index, unwritten,
  written, send_evidence, mark_event, Attempt, presented, thrown, after_mark, after_send,
  index_pending, try_chain, is_confirmed, recovered, anchor_custody_received_best_effort, Verdict,
  match, mismatch, verdict_on, verify_custody_evidence,
}
use fuel_chain.Anchors.Select.{
  Anchored, find_reusable-confirmed, find_reusable_sound, found_filtered, found_other, is_anchored,
  is_confirmed-has_transaction,
}

-- Where the chain already confirmed the evidence of a reception, in a row of this event or another, a
-- request to anchor it presents a confirmed row and writes nothing, whatever the chain would
-- answer.
pub anchor_custody_received_best_effort-reuse :
    (c : Chain) (e : EventRow) (batch : ℕ) (code : String) (now : ℕ) (l : Ledger)
    → Anchored (c.hash_evidence (evidence_from_received e batch code)) l
    → let result = anchor_custody_received_best_effort c e batch code now l in
      (is_confirmed (some result.0) ≡ true) × (result.1 ≡ l)
unfolding anchor_custody_received_best_effort
anchor_custody_received_best_effort-reuse c e batch code now l h =
    let hash = c.hash_evidence (evidence_from_received e batch code) in
    let (a, found, confirmed) = find_reusable-confirmed e.id hash l h in
    rw (found, confirmed) (confirmed, refl)

-- A row that is written under the hash of a transaction is found again.
upsert-Anchored :
    (columns : Anchor) (existing : Option Anchor) (hash : String) (l : Ledger)
    → is_anchored hash columns ≡ true
    → ((old : Anchor)
        → existing ≡ some old
        → is_some (find_first (λ (x : Anchor). x.id == old.id) l.anchors) ≡ true)
    → Anchored hash (upsert_index columns existing l).1
unfolding upsert_index
upsert-Anchored columns none hash l h known =
    let row = record columns { id = l.next_id } in
    elim (Option-cases (find_first (is_anchored hash) l.anchors)) [
      | inl e ↦ rw (find-append_new (is_anchored hash) l.anchors row e h) refl
      | inr (a, e) ↦ rw (find-append_row (is_anchored hash) l.anchors a row e) refl
    ]
upsert-Anchored columns (some old) hash l h known =
    found-update (is_anchored hash) (λ (x : Anchor). x.id == old.id) (with_data columns) (λ x e. h)
      l.anchors (known old refl)

-- What an attempt presents as confirmed is in the ledger.
abbrev Kept : String → Attempt → Type 0
Kept hash (presented a l) = is_confirmed (some a) ≡ true → Anchored hash l
Kept hash (thrown f l) = Unit

mark_event-anchors :
    (event : ℕ) (hash : String) (a : Anchor) (l l' : Ledger)
    → mark_event event hash a l ≡ ok l'
    → l'.anchors ≡ l.anchors
unfolding mark_event
mark_event-anchors event hash a l l' h = ground arith

after_mark-Kept :
    (a : Anchor) (l : Ledger) (event : ℕ) (hash : String) (r : Result Failure Ledger)
    → mark_event event hash a l ≡ r
    → (is_confirmed (some a) ≡ true → Anchored hash l)
    → Kept hash (after_mark a l r)
after_mark-Kept a l event hash (err f) e h = tt
after_mark-Kept a l event hash (ok l') e h = λ confirmed.
    ap (λ rows. is_some (find_first (is_anchored hash) rows))
      (mark_event-anchors event hash a l l' e)
    ∙ h confirmed

upsert-unconfirmed :
    (e : EventRow) (batch : ℕ) (hash : String) (wallet : Option String) (now : ℕ)
    (existing : Option Anchor) (l : Ledger)
    → is_confirmed (some (upsert_index (unwritten e batch hash wallet now) existing l).0) ≡ false
unfolding upsert_index derive_anchor_status
upsert-unconfirmed e batch hash wallet now none l = ground arith
upsert-unconfirmed e batch hash wallet now (some old) l = ground arith

upsert-confirmed :
    (columns : Anchor) (existing : Option Anchor) (l : Ledger)
    → is_confirmed (some (upsert_index columns existing l).0) ≡ has_transaction columns
unfolding upsert_index derive_anchor_status
upsert-confirmed columns none l = ground arith
upsert-confirmed columns (some old) l = ground arith

-- The row that an attempt finds, where there is one, is in the ledger.
abbrev Present : Option Anchor → Ledger → Type 0
Present existing l =
    (old : Anchor)
    → existing ≡ some old
    → is_some (find_first (λ (x : Anchor). x.id == old.id) l.anchors) ≡ true

index_pending-Kept :
    (e : EventRow) (batch : ℕ) (hash : String) (now : ℕ) (existing : Option Anchor) (l : Ledger)
    → Kept hash (index_pending e batch hash now existing l)
index_pending-Kept e batch hash now existing l = λ confirmed.
    absurd (ground (arith, confirmed, upsert-unconfirmed e batch hash none now existing l))

after_send-Kept :
    (e : EventRow) (batch : ℕ) (hash : String) (now : ℕ) (existing : Option Anchor) (l : Ledger)
    (r : Result Failure Receipt)
    → Present existing l
    → Kept hash (after_send e batch hash now existing l r)
after_send-Kept e batch hash now existing l (err f) present = tt
after_send-Kept e batch hash now existing l (ok r) present =
    let row = written e batch hash r now in
    let l' = (upsert_index row existing l).1 in
    let a = (upsert_index row existing l).0 in
    after_mark-Kept a l' e.id hash (mark_event e.id hash a l') refl (λ confirmed.
      let given_hash : has_transaction row ≡ true =
        sym (upsert-confirmed row existing l) ∙ confirmed in
      upsert-Anchored row existing hash l (rw (eq_refl hash) given_hash) present)

try_chain-Kept :
    (c : Chain) (e : EventRow) (batch : ℕ) (hash : String) (now : ℕ) (existing : Option Anchor)
    (l : Ledger)
    → Present existing l
    → Kept hash (try_chain c e batch hash now existing l)
try_chain-Kept c e batch hash now existing l present =
    elim c.contract_address
      as (λ o. Kept hash (elim o [
        | none ↦ index_pending e batch hash now existing l
        | some address ↦ elim c.private_key [
          | err f ↦ thrown f l
          | ok none ↦ index_pending e batch hash now existing l
          | ok (some key) ↦ after_send e batch hash now existing l (send_evidence c batch hash)
        ]
      ])) [
        | none ↦ index_pending-Kept e batch hash now existing l
        | some address ↦
            elim c.private_key
              as (λ k. Kept hash (elim k [
                | err f ↦ thrown f l
                | ok none ↦ index_pending e batch hash now existing l
                | ok (some key) ↦
                    after_send e batch hash now existing l (send_evidence c batch hash)
              ])) [
                | err f ↦ tt
                | ok none ↦ index_pending-Kept e batch hash now existing l
                | ok (some key) ↦
                    after_send-Kept e batch hash now existing l (send_evidence c batch hash) present
              ]
      ]

attempt-Kept :
    (c : Chain) (e : EventRow) (batch : ℕ) (hash : String) (now : ℕ) (existing : Option Anchor)
    (l : Ledger)
    → find_reusable e.id hash l ≡ existing
    → Kept hash (attempt c e batch hash now existing l)
attempt-Kept c e batch hash now none l found =
    try_chain-Kept c e batch hash now none l (λ old h. absurd (ground (arith, h)))
attempt-Kept c e batch hash now (some a) l found = elim (Bool-cases (is_confirmed (some a))) [
  | inl sure ↦
      let given_hash = sym (is_confirmed-has_transaction a) ∙ sure in
      let same = (find_reusable_sound e.id hash l a (λ x. true) found refl).0 in
      rw sure (λ confirmed.
        (find_reusable_sound e.id hash l a (is_anchored hash) found (rw (same, given_hash) refl)).1)
  | inr unsure ↦ rw unsure (
      try_chain-Kept c e batch hash now (some a) l (λ old h.
        (find_reusable_sound e.id hash l old (λ (x : Anchor). x.id == old.id) (found ∙ h)
          ((==_iff old.id old.id).1 refl)).1))
]

recovered-Anchored :
    (e : EventRow) (batch : ℕ) (hash : String) (now : ℕ) (at : Attempt)
    → Kept hash at
    → is_confirmed (some (recovered e batch hash now at).0) ≡ true
    → Anchored hash (recovered e batch hash now at).1
recovered-Anchored e batch hash now (presented a l) kept confirmed = kept confirmed
recovered-Anchored e batch hash now (thrown f l) kept confirmed = absurd (
    ground (
      arith,
      confirmed,
      upsert-unconfirmed e batch hash (some failed_marker) now (find_reusable e.id hash l) l,
    ))

best_effort-Anchored :
    (c : Chain) (e : EventRow) (batch : ℕ) (code : String) (now : ℕ) (l : Ledger)
    → is_confirmed (some (anchor_custody_received_best_effort c e batch code now l).0) ≡ true
    → Anchored
        (c.hash_evidence (evidence_from_received e batch code))
        (anchor_custody_received_best_effort c e batch code now l).1
unfolding anchor_custody_received_best_effort
best_effort-Anchored c e batch code now l confirmed =
    let hash = c.hash_evidence (evidence_from_received e batch code) in
    let existing = find_reusable e.id hash l in
    recovered-Anchored e batch hash now (attempt c e batch hash now existing l)
      (attempt-Kept c e batch hash now existing l refl) confirmed

-- Once a request to anchor the evidence of a reception presented a confirmed row, a later one of the same
-- evidence, at any time and whatever the chain answers then, presents a confirmed row and
-- writes nothing.
pub anchor_custody_received_best_effort-again :
    (c c' : Chain) (e : EventRow) (batch : ℕ) (code : String) (now later : ℕ) (l : Ledger)
    → c'.hash_evidence ≡ c.hash_evidence
    → is_confirmed (some (anchor_custody_received_best_effort c e batch code now l).0) ≡ true
    → let after = (anchor_custody_received_best_effort c e batch code now l).1 in
      let result = anchor_custody_received_best_effort c' e batch code later after in
      (is_confirmed (some result.0) ≡ true) × (result.1 ≡ after)
anchor_custody_received_best_effort-again c c' e batch code now later l same confirmed =
    let after = (anchor_custody_received_best_effort c e batch code now l).1 in
    let evidence = evidence_from_received e batch code in
    anchor_custody_received_best_effort-reuse c' e batch code later after (
      subst (λ (f : Evidence → String). Anchored (f evidence) after) (sym same)
        (best_effort-Anchored c e batch code now l confirmed))

newest :
    (hash : String) (rows : List Anchor) (o : Option Anchor)
    → find_first (λ a. true) rows ≡ o
    → verdict_on hash o ≡ match
    → is_some (find_first (is_anchored hash) rows) ≡ true
newest hash rows none found h = absurd (ground (arith, h))
newest hash rows (some a) found h =
    found_other (λ a. true) (is_anchored hash) rows a found
      (anchored_by hash a (is_confirmed-has_transaction a) h)
  where
    anchored_by :
        (hash : String) (a : Anchor)
        → is_confirmed (some a) ≡ has_transaction a
        → verdict_on hash (some a) ≡ match
        → is_anchored hash a ≡ true
    anchored_by hash a same h =
        by_tests (is_confirmed (some a)) (has_hash hash a) (has_transaction a) same h
      where
        by_tests :
            (p q r : Bool)
            → p ≡ r
            → ◌≡◌ {A = Verdict} (if p && q then match else mismatch) match
            → (q && r) ≡ true
        by_tests p q r same h = ground (arith, same, h)

-- A verification answers that the evidence matches only where the ledger holds a row that the chain
-- confirmed for the hash of the evidence as it now is.
pub verify_custody_evidence-match :
    (c : Chain) (e : EventRow) (batch : ℕ) (code : String) (l : Ledger)
    → verify_custody_evidence c e batch code l ≡ match
    → Anchored (c.hash_evidence (evidence_from_received e batch code)) l
unfolding verify_custody_evidence
verify_custody_evidence-match c e batch code l h =
    let hash = c.hash_evidence (evidence_from_received e batch code) in
    let rows = related e.id hash l in
    found_filtered (is_anchored hash) (is_related e.id hash) l.anchors (
      sym (found-sort_by (is_anchored hash) is_newer (filter (is_related e.id hash) l.anchors))
      ∙ newest hash rows (find_first (λ a. true) rows) refl h)
