-- ===== src/Anchors.antt =====
-- The evidence of a reception in the chain: apps/api/src/blockchain/anchor-status.ts and
-- apps/api/src/custody/received-evidence.ts. `Request` writes and verifies it, `Select` and `Reuse` are
-- what repeated anchors do, `FollowUp` is what else follows a reception. `Setup` is
-- the configuration of the chain, `Live` the requests of a user. The client of the chain is a
-- parameter, as is the hash of the canonical text.
pub mod Request
pub mod Select
pub mod Reuse
pub mod FollowUp
pub mod Setup
pub mod Live
pub mod Own
use fuel_chain.Base.{
  ℕ, suc, ◌≡◌, String, Bool, true, false, not, ◌&&◌, ◌||◌, Option, none, some, List, [], ◌∷◌, ◌==◌,
  leb, str_eq, get_or, or_else, is_some, if◌then◌else◌, find_first, filter, update_where, sort_by,
  Result, ok, err, ◌>>=◌, ◌>>◌, or_throw, refuse_if,
}
use fuel_chain.Base.Int.{ℤ, pos}
use fuel_chain.Store.{append}
use fuel_chain.Custody.Accept.{given}

pub record Anchor : Type 0 where
  pub id : ℕ
  pub batch_id : ℕ
  pub event_kind : String
  pub event_id : Option ℕ
  pub data_hash : String
  pub transaction_hash : Option String
  pub block_number : Option ℕ
  pub chain_id : Option ℕ
  pub actor_wallet : Option String
  pub timestamp : ℕ

pub data AnchorLifecycle : Type 0 where
  pending failed confirmed : AnchorLifecycle

abbrev pub failed_marker : String
failed_marker = "FAILED"

abbrev is_text : Option String → String → Bool
is_text none s = false
is_text (some t) s = str_eq t s

abbrev pub derived : Option String → Option String → AnchorLifecycle
derived (some hash) wallet = confirmed
derived none wallet = if is_text wallet failed_marker then failed else pending

-- A hash that is empty counts as missing.
unfoldable pub derive_anchor_status : Anchor → AnchorLifecycle
derive_anchor_status a = derived (given a.transaction_hash) a.actor_wallet

abbrev pub has_transaction : Anchor → Bool
has_transaction a = is_some (given a.transaction_hash)

abbrev pub is_of_event : ℕ → Anchor → Bool
is_of_event event a = elim a.event_id [ none ↦ false | some k ↦ k == event ]

abbrev pub has_hash : String → Anchor → Bool
has_hash hash a = str_eq a.data_hash hash

-- A confirmed row of the event and hash, or of the hash, or any row of the event and hash.
unfoldable pub select_reusable_anchor : List Anchor → ℕ → String → Option Anchor
select_reusable_anchor rows event hash =
    or_else
      (find_first (λ (a : Anchor). is_of_event event a && (has_hash hash a && has_transaction a))
        rows)
      (or_else (find_first (λ (a : Anchor). has_hash hash a && has_transaction a) rows)
        (find_first (λ (a : Anchor). is_of_event event a && has_hash hash a) rows))

-- A custody event with its columns of evidence. The texts of the metadata that are no texts are missing.
pub record EventRow : Type 0 where
  pub id : ℕ
  pub batch_id : ℕ
  pub is_received : Bool
  pub actor_id : Option ℕ
  pub location : Option String
  pub declared_volume : Option ℤ
  pub measured_volume : Option ℤ
  pub timestamp : ℕ
  pub meta_cistern_code : Option String
  pub meta_from : Option String
  pub evidence_hash : Option String
  pub transaction_hash : Option String

pub record Evidence : Type 0 where
  pub batch_id : ℕ
  pub batch_code : String
  pub custody_event_id : ℕ
  pub from : Option String
  pub to : Option String
  pub volume_liters : ℤ
  pub expected_volume_liters : Option ℤ
  pub occurred_at : ℕ
  pub actor_id : Option ℕ

-- `build_custody_received_evidence` on what `evidenceFromReceived` hands it
unfoldable pub evidence_from_received : EventRow → ℕ → String → Evidence
evidence_from_received e batch code = record {
  batch_id = batch;
  batch_code = code;
  custody_event_id = e.id;
  from = or_else (given e.meta_cistern_code) (given e.meta_from);
  to = e.location;
  volume_liters = get_or (or_else e.measured_volume e.declared_volume) (pos 0);
  expected_volume_liters = e.declared_volume;
  occurred_at = e.timestamp;
  actor_id = e.actor_id;
}

-- What the part of the database that anchors and follow-ups read and write holds.
pub data AnomalyType : Type 0 where
  volume_discrepancy documentation transit_anomaly measurement_anomaly : AnomalyType
  missing_events route_change other : AnomalyType

pub data AnomalySeverity : Type 0 where
  low medium high critical : AnomalySeverity

pub record Anomaly : Type 0 where
  pub batch_id : ℕ
  pub kind : AnomalyType
  pub severity : AnomalySeverity
  pub expected : Option String
  pub actual : Option ℤ
  pub difference : Option ℤ
  pub risk_impact : ℕ

pub record Ledger : Type 0 where
  pub anchors : List Anchor
  pub events : List EventRow
  pub anomalies : List Anomaly
  pub next_id : ℕ

-- Why evidence was not written.
pub data Failure : Type 0 where
  address_missing key_missing key_malformed reverted event_missing batch_missing : Failure
  client_failed : String → Failure

pub record Receipt : Type 0 where
  pub hash : String
  pub is_success : Bool
  pub block_number : ℕ
  pub chain_id : ℕ
  pub wallet : String

-- The configuration, the hash of an evidence in its canonical form, and the client: it simulates, sends
-- and waits for the call of the contract, from the address, the key, the batch, the kind and the hash.
pub record Chain : Type 0 where
  pub contract_address : Option String
  pub private_key : Result Failure (Option String)
  pub hash_evidence : Evidence → String
  pub send : String → String → ℕ → String → String → Result Failure Receipt
