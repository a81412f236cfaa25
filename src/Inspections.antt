-- ===== src/Inspections.antt =====
-- What inspections do to a batch: `create` of apps/api/src/customs/customs.service.ts, and `create`,
-- `addNote` and `updateStatus` of apps/api/src/audits/audits.service.ts. Titles, assignees and risk are left
-- out, as are the rows of customs, which are only listed.
pub mod Follow
pub mod Referenced
use fuel_chain.Base.{
  ℕ, ◌≡◌, refl, ap, ◌∙◌, String, Bool, false, Option, none, some, List, ◌==◌, ==_iff, find_first,
  find-update_where, map_row, update_where, if◌then◌else◌, Result, ok, err, ◌>>=◌, or_throw,
  or_throw-eq-ok, arith,
}
use fuel_chain.Base.Int.{ℤ}
use fuel_chain.Schema.{Exception, row_not_found, foreign_key_violation}
use fuel_chain.BatchStatus.{BatchStatus, can_transition, delivered, audit_required}
use fuel_chain.Movement.{CustodyEventType}
use fuel_chain.Store.{Db, Batch, CustodyEvent, batch_by_id, update_batch, append}
use fuel_chain.Custody.Payload.{Config}
use fuel_chain.Batches.{find_batch_or_throw}
use fuel_chain.Batches.Keys.{BatchKeyed, found_by_key}

pub record CreateCustomsEvent : Type 0 where
  pub declared_volume : Option ℤ
  pub measured_volume : Option ℤ
  pub actor_id : Option ℕ

-- The custody event is written without the actor of the request.
abbrev customs_event : CreateCustomsEvent → ℕ → CustodyEvent
customs_event dto batch = record {
  batch_id = batch;
  event_type = CustodyEventType.customs;
  actor_id = none;
  declared_volume = dto.declared_volume;
  measured_volume = dto.measured_volume;
  baton_token = none;
  delivery_id = none;
}

abbrev pub at_customs : Batch → Batch
at_customs b = record b { status = BatchStatus.customs }

-- The status is written without looking at the one before.
unfoldable pub create_customs : Config → String → CreateCustomsEvent → Db → Result Exception Db
create_customs c key dto db = do
  b ← find_batch_or_throw c key db
  ok (record db {
    events = append (customs_event dto b.id) db.events;
    batches = update_batch b.id at_customs db.batches;
  })

abbrev pub under_audit : Batch → Batch
under_audit b = record b { status = audit_required }

pub data AuditCaseStatus : Type 0 where
  open_case under_review resolved false_positive closed : AuditCaseStatus

pub data AnomalyStatus : Type 0 where
  open_anomaly under_review resolved false_positive : AnomalyStatus

pub record AuditCase : Type 0 where
  pub id : ℕ
  pub batch_id : ℕ
  pub anomaly_id : Option ℕ
  pub status : AuditCaseStatus

pub record AnomalyRow : Type 0 where
  pub id : ℕ
  pub status : AnomalyStatus

pub record AuditNote : Type 0 where
  pub case_id : ℕ
  pub body : String
  pub author_id : Option ℕ

-- The cases, what was noted of them, and the anomalies that they may be about.
pub record Docket : Type 0 where
  pub cases : List AuditCase
  pub notes : List AuditNote
  pub anomalies : List AnomalyRow

-- The foreign key of a case, which the database enforces.
abbrev pub check_anomaly : Option ℕ → List AnomalyRow → Result Exception (Unit {0})
check_anomaly none rows = ok tt
check_anomaly (some k) rows =
    or_throw (find_first (λ (a : AnomalyRow). a.id == k) rows) foreign_key_violation >>= λ a. ok tt

-- The case comes with the key that the database gives it.
unfoldable pub create_case : ℕ → ℕ → Option ℕ → Docket → Db → Result Exception (Docket × Db)
create_case key batch anomaly docket db = do
  b ← or_throw (batch_by_id batch db) row_not_found
  linked ← check_anomaly anomaly docket.anomalies
  let row : AuditCase = record {
    id = key;
    batch_id = batch;
    anomaly_id = anomaly;
    status = open_case;
  }
  ok (
    record docket { cases = append row docket.cases },
    record db { batches = update_batch batch under_audit db.batches },
  )

-- What a new status of a case makes of its anomaly.
abbrev pub anomaly_status_of : AuditCaseStatus → Option AnomalyStatus
anomaly_status_of AuditCaseStatus.under_review = some AnomalyStatus.under_review
anomaly_status_of AuditCaseStatus.resolved = some AnomalyStatus.resolved
anomaly_status_of AuditCaseStatus.false_positive = some AnomalyStatus.false_positive
anomaly_status_of _ = none

abbrev pub is_row : ℕ → AnomalyRow → Bool
is_row k a = a.id == k

abbrev pub with_anomaly_status : AnomalyStatus → AnomalyRow → AnomalyRow
with_anomaly_status s a = record a { status = s }

abbrev pub follow_anomaly :
    Option AnomalyStatus → Option ℕ → List AnomalyRow → Result Exception (List AnomalyRow)
follow_anomaly (some s) (some k) rows =
    or_throw (find_first (is_row k) rows) row_not_found >>= λ row.
    ok (update_where (is_row k) (with_anomaly_status s) rows)
follow_anomaly _ _ rows = ok rows

abbrev pub is_case : ℕ → AuditCase → Bool
is_case k c = c.id == k

abbrev pub follow_case :
    Result Exception (List AnomalyRow) → Docket → Result Exception (Unit {0}) × Docket
follow_case (ok rows) docket = (ok tt, record docket { anomalies = rows })
follow_case (err e) docket = (err e, docket)

abbrev pub recased : ℕ → AuditCaseStatus → Docket → Docket
recased k s docket = record docket {
  cases = update_where (is_case k) (λ (x : AuditCase). record x { status = s }) docket.cases;
}

-- The case is written before the anomaly, in no transaction. An update of a missing row fails; the foreign
-- key keeps the anomaly of a case from being missing (Inspections/Referenced).
abbrev pub update_found :
    ℕ → AuditCaseStatus → Option AuditCase → Docket → Result Exception (Unit {0}) × Docket
update_found k s none docket = (err row_not_found, docket)
update_found k s (some row) docket =
    follow_case (follow_anomaly (anomaly_status_of s) row.anomaly_id docket.anomalies)
      (recased k s docket)

unfoldable pub update_status : ℕ → AuditCaseStatus → Docket → Result Exception (Unit {0}) × Docket
update_status k s docket = update_found k s (find_first (is_case k) docket.cases) docket

-- `addNote`: the case must be there.
unfoldable pub add_note : AuditNote → Docket → Result Exception Docket
add_note note docket = do
  row ← or_throw (find_first (is_case note.case_id) docket.cases) row_not_found
  ok (record docket { notes = append note docket.notes })

row_after :
    (b : Batch) (f : Batch → Batch) (rows : List Batch)
    → ((r : Batch) → (f r).id ≡ r.id)
    → find_first (λ (r : Batch). r.id == b.id) rows ≡ some b
    → find_first (λ (r : Batch). r.id == b.id) (update_batch b.id f rows) ≡ some (f b)
row_after b f rows keep found =
    let is_b = λ (r : Batch). r.id == b.id in
    find-update_where is_b is_b f (λ r e. ap (λ (i : ℕ). i == b.id) (keep r)) rows
    ∙ ap (map_row (λ (r : Batch). if is_b r then f r else r)) found
    ∙ rw ((==_iff b.id b.id).1 refl) refl

-- The customs event of a batch that was delivered, where the keys of the batches are unique, takes it
-- back to customs, to which the state machine lets no delivered batch go.
pub create_customs-back :
    (c : Config) (key : String) (dto : CreateCustomsEvent) (db db' : Db) (b : Batch)
    → BatchKeyed db
    → find_batch_or_throw c key db ≡ ok b
    → b.status ≡ delivered
    → create_customs c key dto db ≡ ok db'
    → (batch_by_id b.id db' ≡ some (record b { status = BatchStatus.customs }))
      × (can_transition b.status BatchStatus.customs ≡ false)
unfolding create_customs can_transition find_batch_or_throw
create_customs-back c key dto db db' b w found was h =
    let first = or_throw-eq-ok _ _ b found in
    let current = found_by_key _ db b w first in
    let rows : db'.batches ≡ update_batch b.id at_customs db.batches = ground (arith, h, first) in
    (
      ap (find_first (λ (r : Batch). r.id == b.id)) rows
          ∙ row_after b at_customs db.batches (λ r. refl) current,
      rw was refl,
    )
