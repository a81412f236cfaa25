-- ===== src/Examples/Services.antt =====
-- Anchors, sessions, stations, checkpoints and the web application on concrete data.
use fuel_chain.Inspections.{
  AuditCase, AuditCaseStatus, AnomalyRow, AnomalyStatus, Docket, update_status, is_case,
}
use fuel_chain.Inspections.Follow.{anomaly_then, update_status-follow}
use fuel_chain.Base.{
  find_first, ◌≤◌, ◌≡◌, refl, String, true, false, none, some, [], ◌∷◌, count_where, ok, arith, ◌+◌,
  eq_iff, Bool-cases, inl, inr, subst, str_eq,
}
use fuel_chain.Base.Int.{pos}
use fuel_chain.Base.Number.{finite}
use fuel_chain.Movement.{MovementReconStatus}
use fuel_chain.Store.{Db, route_waypoint}
use fuel_chain.Custody.Once.{kept}
use fuel_chain.Web.History.{StationScanEntry, has_token, Distinct}
use fuel_chain.Base.Split.{joined, after, part}
use fuel_chain.Sessions.{Claims, Codec, sign_token, verify_token, secret_of}
use fuel_chain.Stations.{
  assess_station_quality, good, is_rejected, is_out_of_range, number_or_null, is_certified,
  is_measured, Contract, acknowledged, acknowledged-own, assess_station_quality-good, is_station,
  owns,
}
use fuel_chain.Stations
use fuel_chain.Checkpoints
use fuel_chain.Checkpoints.{
  CreateCheckpoint, trip_of, store_checkpoint, write_checkpoint, create-again,
}
use fuel_chain.Anchors.{
  derive_anchor_status, select_reusable_anchor, EventRow, evidence_from_received, Ledger, Chain,
}
use fuel_chain.Anchors.Request.{
  find_reusable, upsert_index, send_evidence, mark_event, is_confirmed,
  anchor_custody_received_best_effort, match, verify_custody_evidence,
}
use fuel_chain.Anchors.Select.{Anchored}
use fuel_chain.Anchors.Reuse.{
  anchor_custody_received_best_effort-again, verify_custody_evidence-match,
}
use fuel_chain.Anchors.FollowUp.{
  after_received, is_anomaly_of, movement_of, after_received-anomalies,
}
use fuel_chain.Canonical.{Json, number, text, object, no_fields, field, canonical_json}
use fuel_chain.Canonical.Order.{objects, swap, canonical_json-Alike}
use fuel_chain.Examples.{start, staff, driver}

abbrev entry : String → StationScanEntry
entry token = record {
  token = token;
  path = "/c/x";
  cistern_code = none;
  device_id = none;
  batch_code = none;
  product = none;
  status = none;
  scanned_at = "t";
}

entries-Distinct : Distinct (entry "a" ∷ entry "b" ∷ [])
unfolding Distinct
entries-Distinct k = elim (Bool-cases (str_eq "a" k)) [
  | inl e ↦
      subst (λ x. count_where (has_token x) (entry "a" ∷ entry "b" ∷ []) ≤ 1) ((eq_iff "a" k).0 e)
        (omega arith)
  | inr e ↦ ground (arith, e)
]

abbrev claims : Claims
claims = record { sub = "u"; role = "ADMIN"; exp = 100 + 50 }

abbrev codec : Codec
codec = record {
  secret = some "key";
  encode = λ c. "body";
  decode = λ s. some claims;
  hmac = λ k b. "sig";
}

signed : sign_token codec "u" "ADMIN" 50 100 ≡ ok "body.sig"
unfolding sign_token secret_of joined
signed = refl

plain_body : after "." "body" ≡ none
unfolding after
plain_body = refl

plain_sig : after "." "sig" ≡ none
unfolding after
plain_sig = refl

accepted : verify_token codec "body.sig" 120 ≡ ok claims
unfolding verify_token part after
accepted = refl

abbrev seen : Stations.Input
seen = record {
  water_detected = some false;
  density = some (finite (pos 7450));
  temperature = none;
  batch_quality_status = none;
  certificate_status = none;
  lab_result = none;
}

abbrev contract : Contract
contract = record {
  delivery_id = 5;
  destination_station_id = 3;
  driver_id = some 11;
  cistern_code = "C-2";
  station_ack_at = none;
  driver_ack_at = none;
}

acked : acknowledged staff 700 contract ≡ ok (record contract { station_ack_at = some 700 })
unfolding acknowledged
acked = refl

abbrev sent : CreateCheckpoint
sent = record {
  kind = route_waypoint;
  delivery_id = some 5;
  cistern_code = none;
  batch_code = none;
  volume_liters = pos 3999000;
  density = none;
  temperature = none;
  water = none;
  client_event_id = some "cp-1";
}

abbrev on_road : Db
on_road = kept start (Checkpoints.create sent driver 600 start)

sent-ok : Checkpoints.create sent driver 600 start ≡ ok on_road
unfolding Checkpoints.create write_checkpoint trip_of store_checkpoint
sent-ok = refl

create-again_example :
    Checkpoints.create (record sent { volume_liters = pos 0 }) staff 900 on_road ≡ ok on_road
create-again_example =
    create-again sent (record sent { volume_liters = pos 0 }) driver staff 600 900 "cp-1" start
      on_road refl refl sent-ok

abbrev event : EventRow
event = record {
  id = 30;
  batch_id = 1;
  is_received = true;
  actor_id = some 10;
  location = none;
  declared_volume = some (pos 4000000);
  measured_volume = some (pos 3900000);
  timestamp = 1000;
  meta_cistern_code = some "C-2";
  meta_from = none;
  evidence_hash = none;
  transaction_hash = none;
}

abbrev empty_ledger : Ledger
empty_ledger = record { anchors = []; events = event ∷ []; anomalies = []; next_id = 31 }

abbrev chain : Chain
chain = record {
  contract_address = some "0xc";
  private_key = ok (some "0xk");
  hash_evidence = λ e. "hash";
  send = λ address key batch kind hash. ok (record {
    hash = "0xt";
    is_success = true;
    block_number = 7;
    chain_id = 133;
    wallet = "0xw";
  });
}

abbrev silent : Chain
silent = record chain { contract_address = none }

abbrev anchored : Ledger
anchored = (anchor_custody_received_best_effort chain event 1 "B-1" 2000 empty_ledger).1

anchored-confirmed :
    is_confirmed
      (some (anchor_custody_received_best_effort chain event 1 "B-1" 2000 empty_ledger).0)
    ≡ true
unfolding anchor_custody_received_best_effort find_reusable select_reusable_anchor upsert_index
    send_evidence mark_event derive_anchor_status evidence_from_received
anchored-confirmed = refl

anchor_custody_received_best_effort-again_example :
    let result = anchor_custody_received_best_effort silent event 1 "B-1" 3000 anchored in
    (is_confirmed (some result.0) ≡ true) × (result.1 ≡ anchored)
anchor_custody_received_best_effort-again_example =
    anchor_custody_received_best_effort-again chain silent event 1 "B-1" 2000 3000 empty_ledger refl
      anchored-confirmed

verified : verify_custody_evidence chain event 1 "B-1" anchored ≡ match
unfolding anchor_custody_received_best_effort find_reusable select_reusable_anchor upsert_index
    send_evidence mark_event derive_anchor_status evidence_from_received verify_custody_evidence
verified = refl

verify_custody_evidence-match_example : Anchored "hash" anchored
verify_custody_evidence-match_example =
    verify_custody_evidence-match chain event 1 "B-1" anchored verified

after_received-anomalies_example :
    let after = (after_received chain (λ k. "30") event 1 "B-1" 2000 empty_ledger).1 in
    ((movement_of event).status ≡ MovementReconStatus.anomaly
      → count_where (is_anomaly_of 1 "movement:30") after.anomalies ≡ 1)
    × ((after_received silent (λ k. "30") event 1 "B-1" 3000 after).1.anomalies ≡ after.anomalies)
after_received-anomalies_example =
    after_received-anomalies chain silent (λ k. "30") event 1 "B-1" 2000 3000 empty_ledger
      (omega arith)

abbrev one_way : Json
one_way = object (field "vol" (number (pos 5)) (field "id" (text "tok") no_fields))

abbrev other_way : Json
other_way = object (field "id" (text "tok") (field "vol" (number (pos 5)) no_fields))

canonical_json-Alike_example :
    canonical_json (λ v. "?") one_way ≡ canonical_json (λ v. "?") other_way
canonical_json-Alike_example =
    canonical_json-Alike (λ v. "?") one_way other_way
      (objects (
        swap "vol" "id" (number (pos 5)) (text "tok") no_fields
          (λ e. ground (arith, (eq_iff "vol" "id").1 e))))

abbrev audited : AuditCase
audited = record { id = 1; batch_id = 1; anomaly_id = some 5; status = AuditCaseStatus.open_case }

abbrev suspect : AnomalyRow
suspect = record { id = 5; status = AnomalyStatus.open_anomaly }

abbrev docket : Docket
docket = record { cases = audited ∷ []; notes = []; anomalies = suspect ∷ [] }

update_status-follow_example :
    ((update_status 1 AuditCaseStatus.false_positive docket).0 ≡ ok tt)
    × (find_first (is_case 1) (update_status 1 AuditCaseStatus.false_positive docket).1.cases
        ≡ some (record audited { status = AuditCaseStatus.false_positive }))
    × (anomaly_then 1 5 AuditCaseStatus.under_review docket
        ≡ some (record suspect { status = AnomalyStatus.under_review }))
    × (anomaly_then 1 5 AuditCaseStatus.resolved docket
        ≡ some (record suspect { status = AnomalyStatus.resolved }))
    × (anomaly_then 1 5 AuditCaseStatus.false_positive docket
        ≡ some (record suspect { status = AnomalyStatus.false_positive }))
    × (anomaly_then 1 5 AuditCaseStatus.open_case docket ≡ some suspect)
    × (anomaly_then 1 5 AuditCaseStatus.closed docket ≡ some suspect)
update_status-follow_example =
    update_status-follow 1 5 AuditCaseStatus.false_positive docket audited suspect refl refl refl
