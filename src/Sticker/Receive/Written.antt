-- ===== src/Sticker/Receive/Written.antt =====
-- The steps of a reception by sticker that committed, and the tables that they write.
use fuel_chain.Base.{
  ◌≤◌, ◌≡◌, sym, ap, ◌∙◌, Option, none, some, ◌==◌, find_first, ok, >>=-eq-ok, arith, Option-cases,
  inl, inr,
}
use fuel_chain.Base.Int.{◌+ℤ◌}
use fuel_chain.Store.{
  Db, Batch, Delivery, StorageTank, batch_by_id, delivery_by_id, update_batch, update_delivery,
  append,
}
use fuel_chain.Journey.Parse.{Platform}
use fuel_chain.Custody.Accept.Handover.{add_event}
use fuel_chain.Custody.Accept.Stocking.{is_at}
use fuel_chain.Custody.Accept.Effects.{credited}
use fuel_chain.Sticker.{has_event}
use fuel_chain.Sticker.Receive.{
  Arrival, delivered_by, close_trip, settle_trip, empty_cistern, fill_tank, arrival_id,
  arrival_point, record_point, received_event, credit_trip, deliver,
}

-- The states between the steps of a transaction that committed.
pub record Steps (w : Platform) (a : Arrival) (db db' : Db) : Type 0 where
  pub closed : Db
  pub unloaded : Db
  pub filled : Db
  pub pointed : Db
  pub closes : close_trip a db ≡ ok closed
  pub empties : empty_cistern a (settle_trip a closed) ≡ ok unloaded
  pub fills :
      fill_tank a (find_first (is_at a.delivery.destination_station_id) unloaded.tanks) unloaded
      ≡ ok filled
  pub points : record_point w a filled ≡ ok pointed
  pub credits : credit_trip a (add_event (received_event a) pointed) ≡ ok db'

pub deliver-Steps :
    (w : Platform) (a : Arrival) (db db' : Db) → deliver w a db ≡ ok db' → Steps w a db db'
unfolding deliver
deliver-Steps w a db db' h =
    let (p, ep, kp) = >>=-eq-ok (close_trip a db) _ h in
    let (q, eq, kq) = >>=-eq-ok (empty_cistern a (settle_trip a p)) _ kp in
    let (r, er, kr) = >>=-eq-ok (fill_tank a _ q) _ kq in
    let (s, es, ks) = >>=-eq-ok (record_point w a r) _ kr in
    record {
      closed = p;
      unloaded = q;
      filled = r;
      pointed = s;
      closes = ep;
      empties = eq;
      fills = er;
      points = es;
      credits = ks;
    }

pub close_trip_lem :
    (a : Arrival) (db db' : Db)
    → close_trip a db ≡ ok db'
    → (d : Delivery) × (delivery_by_id a.delivery.id db ≡ some d)
      × (db'
          ≡ record db { deliveries = update_delivery a.delivery.id (delivered_by a) db.deliveries })
unfolding close_trip
close_trip_lem a db db' h = elim (Option-cases (delivery_by_id a.delivery.id db)) [
  | inl e ↦ absurd (ground arith)
  | inr (d, e) ↦ (d, e, ground arith)
]

pub settle_trip-frame :
    (a : Arrival) (db : Db)
    → let db' = settle_trip a db in
      db' ≡ record db { settlements = db'.settlements; next_id = db'.next_id }
unfolding settle_trip
settle_trip-frame a db = ground arith

settle_trip-next_id : (a : Arrival) (db : Db) → db.next_id ≤ (settle_trip a db).next_id
unfolding settle_trip
settle_trip-next_id a db = ground arith

pub empty_cistern-frame :
    (a : Arrival) (db db' : Db)
    → empty_cistern a db ≡ ok db'
    → db' ≡ record db { cisterns = db'.cisterns }
unfolding empty_cistern
empty_cistern-frame a db db' h = ground arith

pub fill_tank-frame :
    (a : Arrival) (t : Option StorageTank) (db db' : Db)
    → fill_tank a t db ≡ ok db'
    → db'
      ≡ record db { tanks = db'.tanks; stations = db'.stations; measurements = db'.measurements }
unfolding fill_tank
fill_tank-frame a none db db' h = ground arith
fill_tank-frame a (some t) db db' h = ground arith

pub record_point_lem :
    (w : Platform) (a : Arrival) (db db' : Db)
    → record_point w a db ≡ ok db'
    → (find_first (has_event (arrival_id w a)) db.checkpoints ≡ none)
      × (db' ≡ record db { checkpoints = append (arrival_point w a) db.checkpoints })
unfolding record_point
record_point_lem w a db db' h =
    elim (Option-cases (find_first (has_event (arrival_id w a)) db.checkpoints)) [
      | inl e ↦ (e, ground arith)
      | inr (c, e) ↦ absurd (ground arith)
    ]

pub credit_trip_lem :
    (a : Arrival) (db db' : Db)
    → credit_trip a db ≡ ok db'
    → (b : Batch) × (batch_by_id a.delivery.batch_id db ≡ some b)
      × (db' ≡ record db {
        batches =
            update_batch b.id
              (λ (r : Batch). record r { delivered_liters = b.delivered_liters +ℤ a.received })
              db.batches;
      })
unfolding credit_trip
credit_trip_lem a db db' h = elim (Option-cases (batch_by_id a.delivery.batch_id db)) [
  | inl e ↦ absurd (ground arith)
  | inr (b, e) ↦ (b, e, ground arith)
]

-- The tables of `deliver` that matter to what follows, in its steps.
pub record Written (w : Platform) (a : Arrival) (db db' : Db) : Type 0 where
  pub batch : Batch
  pub delivery : Delivery
  pub batch_found : batch_by_id a.delivery.batch_id db ≡ some batch
  pub delivery_found : delivery_by_id a.delivery.id db ≡ some delivery
  pub new : find_first (has_event (arrival_id w a)) db.checkpoints ≡ none
  pub batches :
      db'.batches
      ≡ update_batch batch.id
          (λ (r : Batch). record r { delivered_liters = batch.delivered_liters +ℤ a.received })
          db.batches
  pub deliveries : db'.deliveries ≡ update_delivery a.delivery.id (delivered_by a) db.deliveries
  pub checkpoints : db'.checkpoints ≡ append (arrival_point w a) db.checkpoints
  pub batons : db'.batons ≡ db.batons
  pub grows : db.next_id ≤ db'.next_id

pub Steps-Written :
    (w : Platform) (a : Arrival) (db db' : Db) → Steps w a db db' → Written w a db db'
unfolding add_event
Steps-Written w a db db' s =
    let (d, d_found, closed) = close_trip_lem a db s.closed s.closes in
    let settled = settle_trip-frame a s.closed in
    let unloaded = empty_cistern-frame a (settle_trip a s.closed) s.unloaded s.empties in
    let filled = fill_tank-frame a _ s.unloaded s.filled s.fills in
    let (new, pointed) = record_point_lem w a s.filled s.pointed s.points in
    let (b, b_found, credited) =
      credit_trip_lem a (add_event (received_event a) s.pointed) db' s.credits in
    let batches : s.filled.batches ≡ db.batches =
      ap (λ (x : Db). x.batches) filled
      ∙ ap (λ (x : Db). x.batches) unloaded
      ∙ ap (λ (x : Db). x.batches) settled
      ∙ ap (λ (x : Db). x.batches) closed in
    let checkpoints : s.filled.checkpoints ≡ db.checkpoints =
      ap (λ (x : Db). x.checkpoints) filled
      ∙ ap (λ (x : Db). x.checkpoints) unloaded
      ∙ ap (λ (x : Db). x.checkpoints) settled
      ∙ ap (λ (x : Db). x.checkpoints) closed in
    let same_batches : s.pointed.batches ≡ db.batches =
      ap (λ (x : Db). x.batches) pointed ∙ batches in
    let update = λ (r : Batch). record r { delivered_liters = b.delivered_liters +ℤ a.received } in
    record {
      batch = b;
      delivery = d;
      batch_found =
          ap (find_first (λ (x : Batch). x.id == a.delivery.batch_id)) (sym same_batches) ∙ b_found;
      delivery_found = d_found;
      new = ap (find_first (has_event (arrival_id w a))) (sym checkpoints) ∙ new;
      batches = ap (λ (x : Db). x.batches) credited ∙ ap (update_batch b.id update) same_batches;
      deliveries =
          ap (λ (x : Db). x.deliveries) credited
          ∙ ap (λ (x : Db). x.deliveries) pointed
          ∙ ap (λ (x : Db). x.deliveries) filled
          ∙ ap (λ (x : Db). x.deliveries) unloaded
          ∙ ap (λ (x : Db). x.deliveries) settled
          ∙ ap (λ (x : Db). x.deliveries) closed;
      checkpoints =
          ap (λ (x : Db). x.checkpoints) credited
          ∙ ap (λ (x : Db). x.checkpoints) pointed
          ∙ ap (append (arrival_point w a)) checkpoints;
      batons =
          ap (λ (x : Db). x.batons) credited
          ∙ ap (λ (x : Db). x.batons) pointed
          ∙ ap (λ (x : Db). x.batons) filled
          ∙ ap (λ (x : Db). x.batons) unloaded
          ∙ ap (λ (x : Db). x.batons) settled
          ∙ ap (λ (x : Db). x.batons) closed;
      grows =
          let after : db'.next_id ≡ (settle_trip a s.closed).next_id =
            ap (λ (x : Db). x.next_id) credited
            ∙ ap (λ (x : Db). x.next_id) pointed
            ∙ ap (λ (x : Db). x.next_id) filled
            ∙ ap (λ (x : Db). x.next_id) unloaded in
          let before : s.closed.next_id ≡ db.next_id = ap (λ (x : Db). x.next_id) closed in
          omega (arith, after, before, settle_trip-next_id a s.closed);
    }
