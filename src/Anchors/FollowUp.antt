-- ===== src/Anchors/FollowUp.antt =====
-- What follows a reception: `afterReceived` and `ensureVolumeAnomaly` of
-- apps/api/src/custody/received-follow-up.service.ts.
use fuel_chain.Base.{
  ℕ, ◌*◌, ◌≤◌, ◌≡◌, refl, sym, ap, ◌∙◌, String, Bool, true, false, ◌&&◌, Option, none, some, List,
  ◌==◌, str_eq, get_or, is_some, if◌then◌else◌, find_first, find-append_new, count_where,
  count-append_row, count-find_none, count-find_some, ==_iff, Option-cases, Bool-cases, Result, ok,
  err, inl, inr, arith,
}
use package.text.Mathlib.TextPositions.{eq_refl}
use Prim.Native.String.{◌++◌}
use fuel_chain.Base.Int.{ℤ, pos, leb_ℤ, ltb_ℤ}
use fuel_chain.Base.Number.{Number, finite}
use fuel_chain.Movement.{MovementReconciliation, MovementReconStatus, reconcile_movement}
use fuel_chain.Store.{append}
use fuel_chain.Anchors.{
  Anchor, Ledger, Chain, Anomaly, AnomalyType, volume_discrepancy, AnomalySeverity, high, medium,
  EventRow, Failure, Receipt, evidence_from_received, failed_marker,
}
use fuel_chain.Anchors.Request.{
  attempt, Attempt, presented, thrown, upsert_index, mark_event, after_mark, after_send,
  index_pending, written, unwritten, send_evidence, try_chain, recovered, find_reusable,
  is_confirmed, anchor_custody_received_best_effort,
}

abbrev pub movement_anomaly_key : (ℕ → String) → ℕ → String
movement_anomaly_key key_text event = "movement:" ++ key_text event

abbrev is_volume : AnomalyType → Bool
is_volume volume_discrepancy = true
is_volume _ = false

abbrev is_expected : String → Option String → Bool
is_expected k none = false
is_expected k (some s) = str_eq s k

-- `where: { batchId, type: VOLUME_DISCREPANCY, expected }`
abbrev pub is_anomaly_of : ℕ → String → Anomaly → Bool
is_anomaly_of batch k a = a.batch_id == batch && (is_volume a.kind && is_expected k a.expected)

-- 10 % of what is expected, or anything where nothing is.
unfoldable pub severity_of : ℕ → ℤ → AnomalySeverity
severity_of difference expected =
    if ltb_ℤ (pos 0) expected
    then (if leb_ℤ expected (pos (10 * difference)) then high else medium)
    else high

abbrev pub risk_of : AnomalySeverity → ℕ
risk_of high = 25
risk_of _ = 10

abbrev pub volume_anomaly : ℕ → String → MovementReconciliation → Anomaly
volume_anomaly batch k m =
    let severity =
      severity_of (get_or m.abs_difference_liters 0) (get_or m.expected_liters (pos 0)) in
    record {
      batch_id = batch;
      kind = volume_discrepancy;
      severity = severity;
      expected = some k;
      actual = m.received_liters;
      difference = m.difference_liters;
      risk_impact = risk_of severity;
    }

unfoldable pub ensure_volume_anomaly :
    ℕ → String → MovementReconciliation → List Anomaly → List Anomaly
ensure_volume_anomaly batch k m anomalies =
    if is_some (find_first (is_anomaly_of batch k) anomalies)
    then anomalies
    else append (volume_anomaly batch k m) anomalies

abbrev number_of : Option ℤ → Option Number
number_of none = none
number_of (some v) = some (finite v)

abbrev pub movement_of : EventRow → MovementReconciliation
movement_of e =
    reconcile_movement (number_of e.declared_volume) (number_of e.measured_volume) (some e.id)

abbrev pub noted_as : MovementReconStatus → ℕ → String → MovementReconciliation → Ledger → Ledger
noted_as MovementReconStatus.anomaly batch k m l = record l {
  anomalies = ensure_volume_anomaly batch k m l.anomalies;
}
noted_as _ batch k m l = l

abbrev pub note_anomaly : (ℕ → String) → EventRow → ℕ → MovementReconciliation → Ledger → Ledger
note_anomaly key_text e batch m l = noted_as m.status batch (movement_anomaly_key key_text e.id) m l

-- The anomaly comes first, then the anchor.
unfoldable pub after_received :
    Chain → (ℕ → String) → EventRow → ℕ → String → ℕ → Ledger → Anchor × Ledger
after_received c key_text e batch code now l =
    anchor_custody_received_best_effort c e batch code now
      (note_anomaly key_text e batch (movement_of e) l)

ledger_of : Attempt → Ledger
ledger_of (presented a l) = l
ledger_of (thrown f l) = l

upsert_index-anomalies :
    (columns : Anchor) (existing : Option Anchor) (l : Ledger)
    → (upsert_index columns existing l).1.anomalies ≡ l.anomalies
unfolding upsert_index
upsert_index-anomalies columns none l = refl
upsert_index-anomalies columns (some old) l = refl

mark_event-anomalies :
    (event : ℕ) (hash : String) (a : Anchor) (l l' : Ledger)
    → mark_event event hash a l ≡ ok l'
    → l'.anomalies ≡ l.anomalies
unfolding mark_event
mark_event-anomalies event hash a l l' h = ground arith

after_mark-anomalies :
    (a : Anchor) (l : Ledger) (event : ℕ) (hash : String) (r : Result Failure Ledger)
    → mark_event event hash a l ≡ r
    → (ledger_of (after_mark a l r)).anomalies ≡ l.anomalies
unfolding ledger_of
after_mark-anomalies a l event hash (err f) e = refl
after_mark-anomalies a l event hash (ok l') e = mark_event-anomalies event hash a l l' e

after_send-anomalies :
    (e : EventRow) (batch : ℕ) (hash : String) (now : ℕ) (existing : Option Anchor) (l : Ledger)
    (r : Result Failure Receipt)
    → (ledger_of (after_send e batch hash now existing l r)).anomalies ≡ l.anomalies
unfolding ledger_of
after_send-anomalies e batch hash now existing l (err f) = refl
after_send-anomalies e batch hash now existing l (ok r) =
    let row = written e batch hash r now in
    let (a, l') = upsert_index row existing l in
    after_mark-anomalies a l' e.id hash (mark_event e.id hash a l') refl
    ∙ upsert_index-anomalies row existing l

try_chain-anomalies :
    (c : Chain) (e : EventRow) (batch : ℕ) (hash : String) (now : ℕ) (existing : Option Anchor)
    (l : Ledger)
    → (ledger_of (try_chain c e batch hash now existing l)).anomalies ≡ l.anomalies
unfolding ledger_of
try_chain-anomalies c e batch hash now existing l =
    let pending = upsert_index-anomalies (unwritten e batch hash none now) existing l in
    let sent = after_send-anomalies e batch hash now existing l (send_evidence c batch hash) in
    by_config c.contract_address c.private_key pending sent
  where
    by_config :
        (address : Option String) (key : Result Failure (Option String))
        → (upsert_index (unwritten e batch hash none now) existing l).1.anomalies ≡ l.anomalies
        → (ledger_of
            (after_send e batch hash now existing l (send_evidence c batch hash))).anomalies
          ≡ l.anomalies
        → (ledger_of (elim address [
          | none ↦ index_pending e batch hash now existing l
          | some a ↦ elim key [
            | err f ↦ thrown f l
            | ok none ↦ index_pending e batch hash now existing l
            | ok (some k) ↦ after_send e batch hash now existing l (send_evidence c batch hash)
          ]
        ])).anomalies
          ≡ l.anomalies
    by_config none key p s = p
    by_config (some a) (err f) p s = refl
    by_config (some a) (ok none) p s = p
    by_config (some a) (ok (some k)) p s = s

attempt-anomalies :
    (c : Chain) (e : EventRow) (batch : ℕ) (hash : String) (now : ℕ) (existing : Option Anchor)
    (l : Ledger)
    → (ledger_of (attempt c e batch hash now existing l)).anomalies ≡ l.anomalies
unfolding ledger_of
attempt-anomalies c e batch hash now none l = try_chain-anomalies c e batch hash now none l
attempt-anomalies c e batch hash now (some a) l = elim (Bool-cases (is_confirmed (some a))) [
  | inl sure ↦ rw sure refl
  | inr unsure ↦ rw unsure (try_chain-anomalies c e batch hash now (some a) l)
]

recovered-anomalies :
    (e : EventRow) (batch : ℕ) (hash : String) (now : ℕ) (at : Attempt)
    → (recovered e batch hash now at).1.anomalies ≡ (ledger_of at).anomalies
unfolding ledger_of
recovered-anomalies e batch hash now (presented a l) = refl
recovered-anomalies e batch hash now (thrown f l) =
    upsert_index-anomalies (unwritten e batch hash (some failed_marker) now)
      (find_reusable e.id hash l) l

best_effort-anomalies :
    (c : Chain) (e : EventRow) (batch : ℕ) (code : String) (now : ℕ) (l : Ledger)
    → (anchor_custody_received_best_effort c e batch code now l).1.anomalies ≡ l.anomalies
unfolding anchor_custody_received_best_effort
best_effort-anomalies c e batch code now l =
    let hash = c.hash_evidence (evidence_from_received e batch code) in
    let existing = find_reusable e.id hash l in
    recovered-anomalies e batch hash now (attempt c e batch hash now existing l)
    ∙ attempt-anomalies c e batch hash now existing l

volume_anomaly-is_anomaly_of :
    (batch : ℕ) (k : String) (m : MovementReconciliation)
    → is_anomaly_of batch k (volume_anomaly batch k m) ≡ true
volume_anomaly-is_anomaly_of batch k m = rw (eq_refl k) (rw ((==_iff batch batch).1 refl) refl)

ensure_volume_anomaly-again :
    (batch : ℕ) (k : String) (m m' : MovementReconciliation) (rows : List Anomaly)
    → let rows' = ensure_volume_anomaly batch k m rows in
      ensure_volume_anomaly batch k m' rows' ≡ rows'
unfolding ensure_volume_anomaly
ensure_volume_anomaly-again batch k m m' rows =
    let q = is_anomaly_of batch k in
    let row = volume_anomaly batch k m in
    elim (Option-cases (find_first q rows)) [
      | inr (a, e) ↦ rw (e, e) refl
      | inl e ↦ rw (e, find-append_new q rows row e (volume_anomaly-is_anomaly_of batch k m)) refl
    ]

ensure_volume_anomaly-count :
    (batch : ℕ) (k : String) (m : MovementReconciliation) (rows : List Anomaly)
    → count_where (is_anomaly_of batch k) rows ≤ 1
    → count_where (is_anomaly_of batch k) (ensure_volume_anomaly batch k m rows) ≡ 1
unfolding ensure_volume_anomaly
ensure_volume_anomaly-count batch k m rows h =
    let q = is_anomaly_of batch k in
    let row = volume_anomaly batch k m in
    elim (Option-cases (find_first q rows)) [
      | inr (a, e) ↦ rw e (omega (arith, h, count-find_some q rows a e))
      | inl e ↦ rw e (
          count-append_row q rows row
          ∙ rw (volume_anomaly-is_anomaly_of batch k m, count-find_none q rows e) refl)
    ]

noted_as-settled :
    (s : MovementReconStatus) (batch : ℕ) (k : String) (m : MovementReconciliation)
    (l after : Ledger)
    → count_where (is_anomaly_of batch k) l.anomalies ≤ 1
    → after.anomalies ≡ (noted_as s batch k m l).anomalies
    → (s ≡ MovementReconStatus.anomaly → count_where (is_anomaly_of batch k) after.anomalies ≡ 1)
      × ((noted_as s batch k m after).anomalies ≡ after.anomalies)
noted_as-settled MovementReconStatus.anomaly batch k m l after few e = (
  λ h.
      ap (count_where (is_anomaly_of batch k)) e
      ∙ ensure_volume_anomaly-count batch k m l.anomalies few,
  ap (ensure_volume_anomaly batch k m) e
      ∙ ensure_volume_anomaly-again batch k m m l.anomalies
      ∙ sym e,
)
noted_as-settled MovementReconStatus.match batch k m l after few e =
    (λ h. absurd (ground (arith, h)), refl)
noted_as-settled MovementReconStatus.within_tolerance batch k m l after few e =
    (λ h. absurd (ground (arith, h)), refl)
noted_as-settled MovementReconStatus.incomplete batch k m l after few e =
    (λ h. absurd (ground (arith, h)), refl)

-- The follow-up of a reception leaves exactly one anomaly of its movement behind where the movement is an
-- anomaly and there was one at most before; and the follow-up of the same reception later on,
-- with whatever chain, adds none and changes none.
pub after_received-anomalies :
    (c c' : Chain) (key_text : ℕ → String) (e : EventRow) (batch : ℕ) (code : String)
    (now later : ℕ) (l : Ledger)
    → let of_movement = is_anomaly_of batch (movement_anomaly_key key_text e.id) in
      count_where of_movement l.anomalies ≤ 1
      → let after = (after_received c key_text e batch code now l).1 in
        ((movement_of e).status ≡ MovementReconStatus.anomaly
          → count_where of_movement after.anomalies ≡ 1)
        × ((after_received c' key_text e batch code later after).1.anomalies ≡ after.anomalies)
unfolding after_received
after_received-anomalies c c' key_text e batch code now later l few =
    let k = movement_anomaly_key key_text e.id in
    let m = movement_of e in
    let noted = note_anomaly key_text e batch m l in
    let after = (after_received c key_text e batch code now l).1 in
    let first : after.anomalies ≡ noted.anomalies =
      best_effort-anomalies c e batch code now noted in
    let second =
      best_effort-anomalies c' e batch code later (note_anomaly key_text e batch m after) in
    let (one, same) = noted_as-settled m.status batch k m l after few first in (one, second ∙ same)
