-- ===== src/Inspections/Follow.antt =====
-- What the anomaly of an audit case becomes when the case moves, and that a case names none but a stored one: `updateStatus` of
-- apps/api/src/audits/audits.service.ts.
use fuel_chain.Base.{
  Result, ℕ, ◌≡◌, refl, ap, ◌∙◌, Option, some, none, List, find_first, find_first-holds,
  find-update_where, map_row, update_where, if◌then◌else◌, ok,
}
use fuel_chain.Schema.{Exception}
use fuel_chain.Inspections.{
  Docket, AuditCase, AuditCaseStatus, AnomalyRow, AnomalyStatus, is_case, is_row, anomaly_status_of,
  follow_anomaly, follow_case, with_anomaly_status, update_found, recased, update_status,
}

-- The first row of a key, once the rows of that key are changed by a function that keeps it.
anomaly_after :
    (a : ℕ) (t : AnomalyStatus) (rows : List AnomalyRow) (r : AnomalyRow)
    → find_first (is_row a) rows ≡ some r
    → find_first (is_row a) (update_where (is_row a) (with_anomaly_status t) rows)
      ≡ some (record r { status = t })
anomaly_after a t rows r found =
    find-update_where (is_row a) (is_row a) (with_anomaly_status t) (λ x e. refl) rows
    ∙ ap (map_row (λ (x : AnomalyRow). if is_row a x then with_anomaly_status t x else x)) found
    ∙ rw (find_first-holds (is_row a) rows r found) refl

case_after :
    (k : ℕ) (s : AuditCaseStatus) (rows : List AuditCase) (row : AuditCase)
    → find_first (is_case k) rows ≡ some row
    → find_first
        (is_case k)
        (update_where (is_case k) (λ (x : AuditCase). record x { status = s }) rows)
      ≡ some (record row { status = s })
case_after k s rows row found =
    let f : AuditCase → AuditCase = λ x. record x { status = s } in
    find-update_where (is_case k) (is_case k) f (λ x e. refl) rows
    ∙ ap (map_row (λ (x : AuditCase). if is_case k x then f x else x)) found
    ∙ rw (find_first-holds (is_case k) rows row found) refl

-- What a status makes of an anomaly.
abbrev anomaly_under : Option AnomalyStatus → AnomalyRow → AnomalyRow
anomaly_under none r = r
anomaly_under (some t) r = record r { status = t }

followed :
    (o : Option AnomalyStatus) (link : Option ℕ) (a : ℕ) (rows : List AnomalyRow) (r : AnomalyRow)
    → link ≡ some a
    → find_first (is_row a) rows ≡ some r
    → (after : List AnomalyRow) × (follow_anomaly o link rows ≡ ok after)
      × (find_first (is_row a) after ≡ some (anomaly_under o r))
followed none link a rows r about stored = (rows, refl, stored)
followed (some t) link a rows r about stored = (
  update_where (is_row a) (with_anomaly_status t) rows,
  rw (follow_anomaly, about, stored) refl,
  anomaly_after a t rows r stored,
)

updated_case :
    (k : ℕ) (s : AuditCaseStatus) (docket : Docket) (row : AuditCase) (after : List AnomalyRow)
    → find_first (is_case k) docket.cases ≡ some row
    → follow_anomaly (anomaly_status_of s) row.anomaly_id docket.anomalies ≡ ok after
    → update_status k s docket ≡ (
      ok tt,
      record docket {
        cases = update_where (is_case k) (λ (x : AuditCase). record x { status = s }) docket.cases;
        anomalies = after;
      },
    )
unfolding update_status
updated_case k s docket row after found change =
    ap (λ (o : Option AuditCase). update_found k s o docket) found
    ∙ ap (λ (o : Result Exception (List AnomalyRow)). follow_case o (recased k s docket)) change

-- The outcome of one change of a status.
follows :
    (k a : ℕ) (s : AuditCaseStatus) (docket : Docket) (row : AuditCase) (r : AnomalyRow)
    → find_first (is_case k) docket.cases ≡ some row
    → row.anomaly_id ≡ some a
    → find_first (is_row a) docket.anomalies ≡ some r
    → let (result, after) = update_status k s docket in
      (result ≡ ok tt)
      × (find_first (is_case k) after.cases ≡ some (record row { status = s }))
      × (find_first (is_row a) after.anomalies ≡ some (anomaly_under (anomaly_status_of s) r))
follows k a s docket row r found about stored =
    let (after, change, then_row) =
      followed (anomaly_status_of s) row.anomaly_id a docket.anomalies r about stored in
    rw (updated_case k s docket row after found change)
      (refl, case_after k s docket.cases row found, then_row)

-- The anomaly of a case, after the case has a new status.
abbrev pub anomaly_then : ℕ → ℕ → AuditCaseStatus → Docket → Option AnomalyRow
anomaly_then k a s docket = find_first (is_row a) (update_status k s docket).1.anomalies

-- Where a case is about a stored anomaly, a change of its status to UNDER_REVIEW, RESOLVED or FALSE_POSITIVE
-- gives the anomaly the status of that name, and one to OPEN or CLOSED leaves the anomaly as it was; each
-- change succeeds, and the case then has the new status.
pub update_status-follow :
    (k a : ℕ) (s : AuditCaseStatus) (docket : Docket) (row : AuditCase) (r : AnomalyRow)
    → find_first (is_case k) docket.cases ≡ some row
    → row.anomaly_id ≡ some a
    → find_first (is_row a) docket.anomalies ≡ some r
    → ((update_status k s docket).0 ≡ ok tt)
      × (find_first (is_case k) (update_status k s docket).1.cases
          ≡ some (record row { status = s }))
      × (anomaly_then k a AuditCaseStatus.under_review docket
          ≡ some (record r { status = AnomalyStatus.under_review }))
      × (anomaly_then k a AuditCaseStatus.resolved docket
          ≡ some (record r { status = AnomalyStatus.resolved }))
      × (anomaly_then k a AuditCaseStatus.false_positive docket
          ≡ some (record r { status = AnomalyStatus.false_positive }))
      × (anomaly_then k a AuditCaseStatus.open_case docket ≡ some r)
      × (anomaly_then k a AuditCaseStatus.closed docket ≡ some r)
update_status-follow k a s docket row r found about stored =
    let at = λ (t : AuditCaseStatus). follows k a t docket row r found about stored in
    (
      (at s).0,
      (at s).1,
      (at AuditCaseStatus.under_review).2,
      (at AuditCaseStatus.resolved).2,
      (at AuditCaseStatus.false_positive).2,
      (at AuditCaseStatus.open_case).2,
      (at AuditCaseStatus.closed).2,
    )
