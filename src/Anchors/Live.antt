-- ===== src/Anchors/Live.antt =====
-- The requests of a user about the chain: `anchorLive`, `listAnchors` and `verifyTx` of
-- apps/api/src/blockchain/blockchain.service.ts, and the handler `list` of blockchain.controller.ts.
use fuel_chain.Base.{
  ℕ, String, Bool, true, false, not, ◌&&◌, ◌||◌, Option, none, some, List, [], ◌==◌, str_eq,
  is_some, if◌then◌else◌, find_first, filter, sort_by, Result, ok, or_throw, refuse_if, ◌>>=◌, ◌>>◌,
}
use fuel_chain.Base.Text.{trim}
use fuel_chain.Schema.{station_staff, same_role}
use fuel_chain.Store.{Actor, Station, Delivery}
use fuel_chain.Custody.Accept.{given}
use fuel_chain.Anchors.{Anchor, Chain, Failure, Ledger, Receipt, batch_missing}
use fuel_chain.Anchors.Request.{is_newer, received_kind, upsert_index, write_evidence}
use fuel_chain.Anchors.Setup.{is_prefixed_hex}

-- A batch by its code or its key; `names` is the text of a key.
pub record BatchName : Type 0 where
  pub id : ℕ
  pub batch_code : String

abbrev pub is_named : (ℕ → String) → String → BatchName → Bool
is_named key name b = str_eq b.batch_code name || str_eq (key b.id) name

pub record AnchorEvidence : Type 0 where
  pub batch_code : String
  pub event_kind : String
  pub note : Option String

-- The row of evidence that a user anchors: it is of no event.
abbrev pub live_anchor : ℕ → String → String → Receipt → ℕ → Anchor
live_anchor batch kind hash r now = record {
  id = 0;
  batch_id = batch;
  event_kind = kind;
  event_id = none;
  data_hash = hash;
  transaction_hash = some r.hash;
  block_number = some r.block_number;
  chain_id = some r.chain_id;
  actor_wallet = some r.wallet;
  timestamp = now;
}

-- The hash of the canonical payload is a parameter, from the code of the batch, the kind and the note;
-- `key` is the text of a key.
unfoldable pub anchor_live :
    Chain
    → (ℕ → String)
    → (String → String → Option String → String)
    → List BatchName
    → AnchorEvidence
    → ℕ
    → Ledger
    → Result Failure (Anchor × Ledger)
anchor_live c key hash batches dto now l = do
  batch ← or_throw (find_first (is_named key dto.batch_code) batches) batch_missing
  let kind = trim dto.event_kind
  let data_hash = hash batch.batch_code kind dto.note
  receipt ← write_evidence c batch.id kind data_hash
  ok (upsert_index (live_anchor batch.id kind data_hash receipt now) none l)

-- What the metadata of a reception say of the station.
pub record Reception : Type 0 where
  pub event_id : ℕ
  pub station_code : Option String
  pub delivery_id : Option ℕ

abbrev pub names_station : Option String → Station → Bool
names_station none s = false
names_station (some code) s = str_eq code s.code

abbrev pub is_delivery_to : ℕ → Station → Delivery → Bool
is_delivery_to k s d = d.id == k && d.destination_station_id == s.id

abbrev pub goes_to : Option ℕ → Station → List Delivery → Bool
goes_to none s deliveries = false
goes_to (some k) s deliveries = is_some (find_first (is_delivery_to k s) deliveries)

abbrev pub is_of_station : Station → List Delivery → Reception → Bool
is_of_station s deliveries r = names_station r.station_code s || goes_to r.delivery_id s deliveries

abbrev pub is_received_at : List Reception → Anchor → Bool
is_received_at receptions a = str_eq a.event_kind received_kind && elim a.event_id [
  | none ↦ false
  | some k ↦ is_some (find_first (λ (r : Reception). r.event_id == k) receptions)
]

abbrev pub of_batch : Option ℕ → Anchor → Bool
of_batch none a = true
of_batch (some k) a = a.batch_id == k

-- `orderBy: { timestamp: 'desc' }`
abbrev pub listed : (Anchor → Bool) → List Anchor → List Anchor
listed p anchors = sort_by is_newer (filter p anchors)

-- The anchors of a station that was found, or none.
abbrev pub scoped :
    Option Station → Option ℕ → List Reception → List Delivery → List Anchor → List Anchor
scoped none batch receptions deliveries anchors = []
scoped (some s) batch receptions deliveries anchors =
    let own = filter (is_of_station s deliveries) receptions in
    listed (λ (a : Anchor). of_batch batch a && is_received_at own a) anchors

-- The station is named by its key, or by its code, or not at all.
unfoldable pub list_anchors :
    Option ℕ
    → Option ℕ
    → Option String
    → List Station
    → List Reception
    → List Delivery
    → List Anchor
    → List Anchor
list_anchors batch (some k) code stations receptions deliveries anchors =
    scoped (find_first (λ (s : Station). s.id == k) stations) batch receptions deliveries anchors
list_anchors batch none (some code) stations receptions deliveries anchors =
    scoped (find_first (λ (s : Station). str_eq s.code (trim code)) stations) batch receptions
      deliveries anchors
list_anchors batch none none stations receptions deliveries anchors =
    listed (of_batch batch) anchors

abbrev trimmed : Option String → Option String
trimmed none = none
trimmed (some s) = given (some (trim s))

-- The user of the request, where its token resolves to one: a member of a station sees the own station.
unfoldable pub list_for :
    Option Actor
    → Option ℕ
    → Option String
    → List Station
    → List Reception
    → List Delivery
    → List Anchor
    → List Anchor
unfolding list_anchors
list_for none batch code stations receptions deliveries anchors =
    list_anchors batch none (trimmed code) stations receptions deliveries anchors
list_for (some user) batch code stations receptions deliveries anchors =
    if same_role user.role station_staff
    then list_anchors batch user.station_id user.station_code stations receptions deliveries anchors
    else list_anchors batch none (trimmed code) stations receptions deliveries anchors

-- A transaction as the node shows it, with the row of the index that names it.
pub record Transaction : Type 0 where
  pub hash : String
  pub block_number : ℕ
  pub is_success : Bool
  pub indexed : Option Anchor

pub data TransactionError : Type 0 where
  invalid_hash not_found : TransactionError

abbrev is_in : String → Anchor → Bool
is_in hash a = elim a.transaction_hash [ none ↦ false | some h ↦ str_eq h hash ]

-- `receipt_of` asks the node for a receipt.
unfoldable pub verify_tx :
    (String → Option Receipt) → String → List Anchor → Result TransactionError Transaction
verify_tx receipt_of hash anchors = do
  refuse_if (not (is_prefixed_hex 64 hash)) invalid_hash
  receipt ← or_throw (receipt_of hash) not_found
  ok (record {
    hash = receipt.hash;
    block_number = receipt.block_number;
    is_success = receipt.is_success;
    indexed = find_first (is_in hash) anchors;
  })
