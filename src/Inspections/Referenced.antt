-- ===== src/Inspections/Referenced.antt =====
-- That a case is about no anomaly but a stored one: the foreign key of AuditCase in prisma/schema.prisma,
-- under the operations of apps/api/src/audits/audits.service.ts.
use fuel_chain.Base.{
  subst, ℕ, ◌≡◌, refl, ap, ◌∙◌, Option, some, none, List, find_first, find-update_where, map_row,
  update_where, All, All-append_row, All-mono, All-update, if◌then◌else◌, Result, ok, err,
  >>=-eq-ok, or_throw, or_throw-eq-ok,
}
use fuel_chain.Schema.{Exception, row_not_found, foreign_key_violation}
use fuel_chain.Store.{Db, batch_by_id, append}
use fuel_chain.Inspections.{
  update_found, recased, Docket, AuditCase, AuditCaseStatus, AnomalyRow, AnomalyStatus, open_case,
  is_case, is_row, anomaly_status_of, follow_anomaly, follow_case, check_anomaly,
  with_anomaly_status, create_case, update_status,
}

-- A reference that leads to a row.
Linked : List AnomalyRow → Option ℕ → Type 0
Linked rows none = Unit
Linked rows (some k) = (r : AnomalyRow) × (find_first (is_row k) rows ≡ some r)

-- Every case is about a stored anomaly, or about none.
Referenced : Docket → Type 0
Referenced docket = All (λ (c : AuditCase). Linked docket.anomalies c.anomaly_id) docket.cases

checked-Linked :
    (o : Option ℕ) (rows : List AnomalyRow) → check_anomaly o rows ≡ ok tt → Linked rows o
unfolding Linked
checked-Linked none rows h = tt
checked-Linked (some k) rows h =
    let (r, found, ends) =
      >>=-eq-ok (or_throw (find_first (is_row k) rows) foreign_key_violation) _ h in
    (r, or_throw-eq-ok (find_first (is_row k) rows) foreign_key_violation r found)

-- A new case keeps every case about a stored anomaly, or about none.
create_case-Referenced :
    (key batch : ℕ) (anomaly : Option ℕ) (docket docket' : Docket) (db db' : Db)
    → Referenced docket
    → create_case key batch anomaly docket db ≡ ok (docket', db')
    → Referenced docket'
unfolding create_case Referenced
create_case-Referenced key batch anomaly docket docket' db db' w h =
    let (b, found, rest) = >>=-eq-ok (or_throw (batch_by_id batch db) row_not_found) _ h in
    let (u, linked, ends) = >>=-eq-ok (check_anomaly anomaly docket.anomalies) _ rest in
    let row : AuditCase = record {
      id = key;
      batch_id = batch;
      anomaly_id = anomaly;
      status = open_case;
    } in
    let same : record docket { cases = append row docket.cases } ≡ docket' = cc in
    subst Referenced same (
      All-append_row (λ (c : AuditCase). Linked docket.anomalies c.anomaly_id) docket.cases row w
        (checked-Linked anomaly docket.anomalies linked))

-- Changes of the status of anomalies lose none.
changed-Linked :
    (k : ℕ) (t : AnomalyStatus) (rows : List AnomalyRow) (o : Option ℕ)
    → Linked rows o
    → Linked (update_where (is_row k) (with_anomaly_status t) rows) o
unfolding Linked
changed-Linked k t rows none h = tt
changed-Linked k t rows (some j) (r, found) = (
  (if is_row k r then with_anomaly_status t r else r),
  find-update_where (is_row j) (is_row k) (with_anomaly_status t) (λ x e. refl) rows
      ∙ ap (map_row (λ (x : AnomalyRow). if is_row k x then with_anomaly_status t x else x)) found,
)

follow_anomaly-Linked :
    (o : Option AnomalyStatus) (link : Option ℕ) (rows after : List AnomalyRow) (j : Option ℕ)
    → follow_anomaly o link rows ≡ ok after
    → Linked rows j
    → Linked after j
follow_anomaly-Linked none link rows after j h w =
    subst (λ (x : List AnomalyRow). Linked x j) (cc) w
follow_anomaly-Linked (some t) none rows after j h w =
    subst (λ (x : List AnomalyRow). Linked x j) (cc) w
follow_anomaly-Linked (some t) (some k) rows after j h w =
    let (r, found, ends) = >>=-eq-ok (or_throw (find_first (is_row k) rows) row_not_found) _ h in
    subst (λ (x : List AnomalyRow). Linked x j) (cc) (changed-Linked k t rows j w)

follow_case-Referenced :
    (r : Result Exception (List AnomalyRow)) (docket : Docket)
    → Referenced docket
    → ((after : List AnomalyRow) (j : Option ℕ)
        → r ≡ ok after
        → Linked docket.anomalies j
        → Linked after j)
    → Referenced (follow_case r docket).1
unfolding Referenced
follow_case-Referenced (err e) docket w keeps = w
follow_case-Referenced (ok after) docket w keeps =
    All-mono (λ (c : AuditCase). Linked docket.anomalies c.anomaly_id)
      (λ (c : AuditCase). Linked after c.anomaly_id) (λ c. keeps after c.anomaly_id refl)
      docket.cases w

-- A change of the status of a case keeps every case about a stored anomaly, or about none.
update_status-Referenced :
    (k : ℕ) (s : AuditCaseStatus) (docket : Docket)
    → Referenced docket
    → Referenced (update_status k s docket).1
unfolding update_status Referenced
update_status-Referenced k s docket w = by_row (find_first (is_case k) docket.cases)
  where
    by_row : (o : Option AuditCase) → Referenced (update_found k s o docket).1
    by_row none = w
    by_row (some row) =
        follow_case-Referenced
          (follow_anomaly (anomaly_status_of s) row.anomaly_id docket.anomalies)
          (recased k s docket)
          (All-update (λ (c : AuditCase). Linked docket.anomalies c.anomaly_id) (is_case k)
            (λ (x : AuditCase). record x { status = s }) (λ c e h. h) docket.cases w)
          (λ after j h.
            follow_anomaly-Linked (anomaly_status_of s) row.anomaly_id docket.anomalies after j h)
