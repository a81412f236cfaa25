-- ===== src/Batches/Moves.antt =====
-- Every operation that writes batches moves their statuses as the state machine permits, but for the
-- removal of a batch and the customs event, which checks nothing.
use fuel_chain.Base.{
  ℕ, suc, ◌≤◌, ◌≡◌, refl, sym, ap, subst, ◌∙◌, inl, inr, String, true, not, ◌&&◌, Option, none,
  some, ◌==◌, ==_iff, get_or, if◌then◌else◌, find_first, map_row, find_first-holds,
  find-update_where, find-append_row, Bool-cases, ok, arith, refuse_if, or_throw, >>=-eq-ok,
  or_throw-eq-ok,
}
use fuel_chain.Base.Int.{◌+ℤ◌}
use fuel_chain.Movement
use fuel_chain.BatchStatus.{
  BatchStatus, can_transition, assert_can_transition, can_receive_batch, audit_required, authorized,
  in_transit,
}
use fuel_chain.Store.{Db, Actor, Batch, batch_by_id, update_batch, append}
use fuel_chain.Custody.Payload.{Config}
use fuel_chain.Custody.Accept.Handover.{Ready, next_status}
use fuel_chain.Custody.Accept.Commit.{commit}
use fuel_chain.Custody.Accept.Effects.{commit-batches, next_status-permitted}
use fuel_chain.Custody.Issue.Dispatch.{Order, dispatch}
use fuel_chain.Custody.Issue.Effects.{dispatch-batches}
use fuel_chain.Custody.Issue.Frames.{dispatch-batons}
use fuel_chain.Custody.Once.{commit-next_id}
use fuel_chain.Journey.Parse.{Platform}
use fuel_chain.Sticker.Receive.{Arrival, deliver}
use fuel_chain.Sticker.Receive.Effects.{deliver-batches}
use fuel_chain.Inspections.{Docket, check_anomaly, create_case, under_audit}
use fuel_chain.Batches.{
  CreateBatch, UpdateBatch, CreateEvent, create, update, create_event, find_batch_or_throw,
  new_batch, code_of, check_move, updated_batch, with_status, event_to_status,
}
use fuel_chain.Batches.Keys.{
  BatchKeyed, found_by_key, update-BatchKeyed, same-BatchKeyed, append-BatchKeyed,
}

-- The keys stay apart, and every batch is still there, in a status that it may go to.
pub record Moves (db db' : Db) : Type 0 where
  pub keyed : BatchKeyed db'
  pub moves :
      (k : ℕ) (b : Batch)
      → batch_by_id k db ≡ some b
      → (b' : Batch) × (batch_by_id k db' ≡ some b') × (can_transition b.status b'.status ≡ true)

pub stays : (s : BatchStatus) → can_transition s s ≡ true
unfolding can_transition
stays s = ground arith

pub same-Moves :
    (db db' : Db)
    → db'.batches ≡ db.batches
    → db.next_id ≤ db'.next_id
    → BatchKeyed db
    → Moves db db'
same-Moves db db' rows grows w = record {
  keyed = same-BatchKeyed db db' rows grows w;
  moves = λ k b found. (b, ap (find_first (λ (r : Batch). r.id == k)) rows ∙ found, stays b.status);
}

-- An update of the row under one key.
pub update_row-Moves :
    (j : ℕ) (f : Batch → Batch) (db db' : Db)
    → ((b : Batch) → (f b).id ≡ b.id)
    → ((b : Batch) → batch_by_id j db ≡ some b → can_transition b.status (f b).status ≡ true)
    → db'.batches ≡ update_batch j f db.batches
    → db.next_id ≤ db'.next_id
    → BatchKeyed db
    → Moves db db'
update_row-Moves j f db db' keep permitted rows grows w = record {
  keyed = update-BatchKeyed j f db db' keep rows grows w;
  moves = λ k b found.
      let is_k = λ (r : Batch). r.id == k in
      let is_j = λ (r : Batch). r.id == j in
      let key = (==_iff b.id k).0 (find_first-holds is_k db.batches b found) in
      let after =
        ap (find_first is_k) rows
        ∙ find-update_where is_k is_j f (λ r e. ap (λ (i : ℕ). i == k) (keep r)) db.batches
        ∙ ap (map_row (λ (r : Batch). if is_j r then f r else r)) found in
      elim (Bool-cases (b.id == j)) [
        | inl e ↦ (
          f b,
          after ∙ rw e refl,
          permitted b
              (subst (λ (i : ℕ). batch_by_id i db ≡ some b) (sym key ∙ (==_iff b.id j).0 e) found),
        )
        | inr e ↦ (b, after ∙ rw e refl, stays b.status)
      ];
}

some_inj {ℓ} : {A : Type ℓ} (a b : A) → some a ≡ some b → a ≡ b
some_inj a b h = cc

pub commit-Moves : (p : Ready) (db db' : Db) → commit p db ≡ ok db' → BatchKeyed db → Moves db db'
commit-Moves p db db' h w =
    let (b, found, receivable, rows) = commit-batches p db db' h in
    let volume = b.delivered_liters +ℤ p.received in
    let current = found_by_key (λ (r : Batch). r.id == p.baton.batch_id) db b w found in
    update_row-Moves b.id
      (λ (r : Batch). record r { delivered_liters = volume; status = next_status b volume }) db db'
      (λ r. refl)
      (λ r same.
        subst (λ (x : Batch). can_transition x.status (next_status b volume) ≡ true)
          (some_inj b r (sym current ∙ same)) (next_status-permitted b volume receivable))
      rows (commit-next_id p db db' h) w

-- A reception by sticker moves no status.
pub deliver-Moves :
    (p : Platform) (a : Arrival) (db db' : Db)
    → deliver p a db ≡ ok db'
    → BatchKeyed db
    → Moves db db'
deliver-Moves p a db db' h w =
    let (b, found, rows, grows) = deliver-batches p a db db' h in
    update_row-Moves b.id
      (λ (r : Batch). record r { delivered_liters = b.delivered_liters +ℤ a.received }) db db'
      (λ r. refl) (λ r same. stays r.status) rows grows w

-- Every status may go to an audit.
audited : (s : BatchStatus) → can_transition s audit_required ≡ true
unfolding can_transition
audited s = ground arith

pub create_case-Moves :
    (key batch : ℕ) (anomaly : Option ℕ) (docket docket' : Docket) (db db' : Db)
    → create_case key batch anomaly docket db ≡ ok (docket', db')
    → BatchKeyed db
    → Moves db db'
unfolding create_case
create_case-Moves key batch anomaly docket docket' db db' h w =
    let (b, found, rest) = >>=-eq-ok (or_throw (batch_by_id batch db) _) _ h in
    let (u, linked, ends) = >>=-eq-ok (check_anomaly anomaly docket.anomalies) _ rest in
    update_row-Moves batch under_audit db db' (λ r. refl) (λ r same. audited r.status)
      (ground arith) (ground arith) w

starts : can_transition authorized in_transit ≡ true
unfolding can_transition
starts = refl

-- A dispatch whose batch is as it was read.
pub dispatch-Moves :
    (o : Order) (db db' : Db)
    → batch_by_id o.plan.batch.id db ≡ some o.plan.batch
    → dispatch o db ≡ ok db'
    → BatchKeyed db
    → Moves db db'
dispatch-Moves o db db' current h w =
    let grows : db.next_id ≤ db'.next_id = omega (arith, (dispatch-batons o db db' h).1) in
    elim (dispatch-batches o db db' h) [
      | inl rows ↦ same-Moves db db' rows grows w
      | inr (kind, rows) ↦
          update_row-Moves o.plan.batch.id (λ (b : Batch). record b { status = in_transit }) db db'
            (λ r. refl)
            (λ r same.
              subst (λ (x : Batch). can_transition x.status in_transit ≡ true)
                (some_inj o.plan.batch r (sym current ∙ same))
                (subst (λ (s : BatchStatus). can_transition s in_transit ≡ true) (sym kind) starts))
            rows grows w
    ]

checked_move :
    (from : BatchStatus) (to : Option BatchStatus)
    → check_move from to ≡ ok tt
    → can_transition from (get_or to from) ≡ true
unfolding assert_can_transition
checked_move from none h = stays from
checked_move from (some to) h = ground (arith, h)

pub update-Moves :
    (c : Config) (key : String) (dto : UpdateBatch) (db db' : Db)
    → update c key dto db ≡ ok db'
    → BatchKeyed db
    → Moves db db'
unfolding update find_batch_or_throw
update-Moves c key dto db db' h w =
    let (b, found, rest) = >>=-eq-ok (find_batch_or_throw c key db) _ h in
    let (u, checked, ends) = >>=-eq-ok (check_move b.status dto.status) _ rest in
    let current = found_by_key _ db b w (or_throw-eq-ok _ _ b found) in
    update_row-Moves b.id (updated_batch dto) db db' (λ r. refl)
      (λ r same.
        subst (λ (x : Batch). can_transition x.status (get_or dto.status x.status) ≡ true)
          (some_inj b r (sym current ∙ same)) (checked_move b.status dto.status checked))
      (ground arith) (ground arith) w

pub create_event-Moves :
    (c : Config) (key : String) (dto : CreateEvent) (actor : Actor) (db db' : Db)
    → create_event c key dto actor db ≡ ok db'
    → BatchKeyed db
    → Moves db db'
unfolding create_event find_batch_or_throw
create_event-Moves c key dto actor db db' h w =
    let (b, found, rest) = >>=-eq-ok (find_batch_or_throw c key db) _ h in
    let (u, receivable, later) =
      >>=-eq-ok
        (refuse_if (Movement.is_received dto.event_type && not (can_receive_batch b.status)) _) _
        rest in
    let next = event_to_status dto.event_type in
    let (v, checked, ends) = >>=-eq-ok (check_move b.status next) _ later in
    let current = found_by_key _ db b w (or_throw-eq-ok _ _ b found) in
    update_row-Moves b.id (with_status next) db db' (λ r. refl)
      (λ r same.
        subst (λ (x : Batch). can_transition x.status (get_or next x.status) ≡ true)
          (some_inj b r (sym current ∙ same)) (checked_move b.status next checked))
      (ground arith) (ground arith) w

pub create-Moves :
    (decimal : ℕ → String) (dto : CreateBatch) (year : ℕ) (db db' : Db)
    → create decimal dto year db ≡ ok db'
    → BatchKeyed db
    → Moves db db'
unfolding create
create-Moves decimal dto year db db' h w =
    let row = new_batch db.next_id (code_of decimal dto year db) dto in
    let rows : db'.batches ≡ append row db.batches = ground arith in
    let grows : db'.next_id ≡ suc db.next_id = ground arith in
    record {
      keyed = append-BatchKeyed row db db' rows refl grows w;
      moves = λ k b found.
          let is_k = λ (r : Batch). r.id == k in
          (
            b,
            ap (find_first is_k) rows ∙ find-append_row is_k db.batches b row found,
            stays b.status,
          );
    }
