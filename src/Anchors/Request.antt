-- ===== src/Anchors/Request.antt =====
-- The requests to anchor and verify evidence: `findReusable`, `upsertIndex`, `writeEvidenceOrThrow`,
-- `chainReady`, `anchorCustodyReceivedBestEffort`, `retryCustodyAnchor` and `verifyCustodyEvidence` of
-- apps/api/src/blockchain/blockchain.service.ts.
use fuel_chain.Base.{
  ℕ, suc, String, Bool, true, false, not, ◌&&◌, ◌||◌, Option, none, some, List, ◌==◌, leb,
  if◌then◌else◌, find_first, filter, update_where, sort_by, Result, ok, err, ◌>>=◌, ◌>>◌, or_throw,
  refuse_if,
}
use fuel_chain.Store.{append}
use fuel_chain.Anchors.{
  derive_anchor_status, select_reusable_anchor, evidence_from_received, Anchor, Chain, EventRow,
  Failure, Ledger, Receipt, address_missing, confirmed, event_missing, failed_marker, has_hash,
  is_of_event, key_missing, reverted,
}

-- `orderBy: { timestamp: 'desc' }`
abbrev pub is_newer : Anchor → Anchor → Bool
is_newer a b = leb b.timestamp a.timestamp

-- `where: { OR: [{ eventId }, { dataHash }] }`
abbrev pub is_related : ℕ → String → Anchor → Bool
is_related event hash a = is_of_event event a || has_hash hash a

abbrev pub related : ℕ → String → Ledger → List Anchor
related event hash l = sort_by is_newer (filter (is_related event hash) l.anchors)

unfoldable pub find_reusable : ℕ → String → Ledger → Option Anchor
find_reusable event hash l = select_reusable_anchor (related event hash l) event hash

-- The columns that are written; the key is that of the row.
abbrev pub with_data : Anchor → Anchor → Anchor
with_data columns a = record columns { id = a.id }

-- The row under the key of `existing` is overwritten; without one a row is created.
unfoldable pub upsert_index : Anchor → Option Anchor → Ledger → Anchor × Ledger
upsert_index columns (some old) l = (
  with_data columns old,
  record l {
    anchors = update_where (λ (a : Anchor). a.id == old.id) (with_data columns) l.anchors;
  },
)
upsert_index columns none l = (
  record columns { id = l.next_id },
  record l {
    anchors = append (record columns { id = l.next_id }) l.anchors;
    next_id = suc l.next_id;
  },
)

abbrev pub received_kind : String
received_kind = "CustodyEventRegistered"

-- The row of an event that is not in the chain.
abbrev pub unwritten : EventRow → ℕ → String → Option String → ℕ → Anchor
unwritten e batch hash wallet now = record {
  id = 0;
  batch_id = batch;
  event_kind = received_kind;
  event_id = some e.id;
  data_hash = hash;
  transaction_hash = none;
  block_number = none;
  chain_id = none;
  actor_wallet = wallet;
  timestamp = now;
}

abbrev pub written : EventRow → ℕ → String → Receipt → ℕ → Anchor
written e batch hash r now = record {
  id = 0;
  batch_id = batch;
  event_kind = received_kind;
  event_id = some e.id;
  data_hash = hash;
  transaction_hash = some r.hash;
  block_number = some r.block_number;
  chain_id = some r.chain_id;
  actor_wallet = some r.wallet;
  timestamp = now;
}

-- `throw new ServiceUnavailableException` where the address or the key is missing
unfoldable pub write_evidence : Chain → ℕ → String → String → Result Failure Receipt
write_evidence c batch kind hash = do
  key ← c.private_key
  address ← or_throw c.contract_address address_missing
  secret ← or_throw key key_missing
  receipt ← c.send address secret batch kind hash
  refuse_if (not receipt.is_success) reverted
  ok receipt

unfoldable pub send_evidence : Chain → ℕ → String → Result Failure Receipt
unfolding write_evidence
send_evidence c batch hash = write_evidence c batch received_kind hash

abbrev pub marked : String → Option String → EventRow → EventRow
marked hash transaction e = record e { evidence_hash = some hash; transaction_hash = transaction }

-- `custodyEvent.update` wants the row of the event.
unfoldable pub mark_event : ℕ → String → Anchor → Ledger → Result Failure Ledger
mark_event event hash a l = do
  row ← or_throw (find_first (λ (e : EventRow). e.id == event) l.events) event_missing
  ok (record l {
    events =
        update_where (λ (e : EventRow). e.id == event) (marked hash a.transaction_hash) l.events;
  })

-- Where the `try` ends: with a row, or with a failure, on the ledger as it then is.
pub data Attempt : Type 0 where
  presented : Anchor → Ledger → Attempt
  thrown : Failure → Ledger → Attempt

abbrev pub after_mark : Anchor → Ledger → Result Failure Ledger → Attempt
after_mark a l (ok marked) = presented a marked
after_mark a l (err f) = thrown f l

abbrev pub after_send :
    EventRow → ℕ → String → ℕ → Option Anchor → Ledger → Result Failure Receipt → Attempt
after_send e batch hash now existing l (err f) = thrown f l
after_send e batch hash now existing l (ok r) =
    let (a, l') = upsert_index (written e batch hash r now) existing l in
    after_mark a l' (mark_event e.id hash a l')

abbrev pub index_pending : EventRow → ℕ → String → ℕ → Option Anchor → Ledger → Attempt
index_pending e batch hash now existing l =
    let (a, l') = upsert_index (unwritten e batch hash none now) existing l in presented a l'

-- `chainReady` reads the address, then the key; a malformed key throws.
abbrev pub try_chain : Chain → EventRow → ℕ → String → ℕ → Option Anchor → Ledger → Attempt
try_chain c e batch hash now existing l = elim c.contract_address [
  | none ↦ index_pending e batch hash now existing l
  | some address ↦ elim c.private_key [
    | err f ↦ thrown f l
    | ok none ↦ index_pending e batch hash now existing l
    | ok (some key) ↦ after_send e batch hash now existing l (send_evidence c batch hash)
  ]
]

abbrev pub is_confirmed : Option Anchor → Bool
is_confirmed none = false
is_confirmed (some a) = elim (derive_anchor_status a) [ confirmed ↦ true | _ ↦ false ]

abbrev pub attempt : Chain → EventRow → ℕ → String → ℕ → Option Anchor → Ledger → Attempt
attempt c e batch hash now none l = try_chain c e batch hash now none l
attempt c e batch hash now (some a) l =
    if is_confirmed (some a) then presented a l else try_chain c e batch hash now (some a) l

-- The `catch`: a row that says so.
abbrev pub recovered : EventRow → ℕ → String → ℕ → Attempt → Anchor × Ledger
recovered e batch hash now (presented a l) = (a, l)
recovered e batch hash now (thrown f l) =
    upsert_index (unwritten e batch hash (some failed_marker) now) (find_reusable e.id hash l) l

-- The row that is presented, and the ledger after it.
unfoldable pub anchor_custody_received_best_effort :
    Chain → EventRow → ℕ → String → ℕ → Ledger → Anchor × Ledger
anchor_custody_received_best_effort c e batch code now l =
    let hash = c.hash_evidence (evidence_from_received e batch code) in
    recovered e batch hash now (attempt c e batch hash now (find_reusable e.id hash l) l)

pub data Verdict : Type 0 where
  match mismatch : Verdict

abbrev pub verdict_on : String → Option Anchor → Verdict
verdict_on hash none = mismatch
verdict_on hash (some a) = if is_confirmed (some a) && has_hash hash a then match else mismatch

-- The newest row of the event or the hash.
unfoldable pub verify_custody_evidence : Chain → EventRow → ℕ → String → Ledger → Verdict
verify_custody_evidence c e batch code l =
    let hash = c.hash_evidence (evidence_from_received e batch code) in
    verdict_on hash (find_first (λ a. true) (related e.id hash l))

-- The event that a request names, where it is a reception.
unfoldable pub received_event : ℕ → Ledger → Result Failure EventRow
received_event k l = do
  e ← or_throw (find_first (λ (e : EventRow). e.id == k) l.events) event_missing
  refuse_if (not e.is_received) event_missing
  ok e

-- `codes` gives the code of a batch.
unfoldable pub retry_custody_anchor :
    Chain → (ℕ → String) → ℕ → ℕ → Ledger → Result Failure (Anchor × Ledger)
retry_custody_anchor c codes k now l = do
  e ← received_event k l
  ok (anchor_custody_received_best_effort c e e.batch_id (codes e.batch_id) now l)

unfoldable pub verify_event : Chain → (ℕ → String) → ℕ → Ledger → Result Failure Verdict
verify_event c codes k l = do
  e ← received_event k l
  ok (verify_custody_evidence c e e.batch_id (codes e.batch_id) l)
