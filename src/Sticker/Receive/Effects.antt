-- ===== src/Sticker/Receive/Effects.antt =====
-- What a reception by sticker does to the database, alone, repeated, and before the reception by the
-- baton of the same trip.
use fuel_chain.Base.{
  ◌≤◌, ◌≡◌, ◌≢◌, refl, sym, ap, ◌∙◌, none, some, ◌==◌, ==_iff, find_first, find_first-holds,
  find-update_where, find-append_new, map_row, if◌then◌else◌, ok,
}
use package.text.Mathlib.TextPositions.{eq_refl}
use fuel_chain.Base.Int.{ℤ, ◌+ℤ◌}
use fuel_chain.Schema.{DeliveryStatus}
use fuel_chain.Store.{Db, Batch, Delivery, batch_by_id, delivery_by_id, update_batch}
use fuel_chain.Journey.Parse.{Platform}
use fuel_chain.Custody.Accept.Handover.{Ready}
use fuel_chain.Custody.Accept.Commit.{commit}
use fuel_chain.Custody.Accept.Effects.{commit-credit, credited}
use fuel_chain.Sticker.{has_event}
use fuel_chain.Sticker.Receive.{Arrival, delivered_by, arrival_id, arrival_point, deliver}
use fuel_chain.Sticker.Receive.Written.{deliver-Steps, Steps-Written}

-- What a reception by sticker writes to the batches.
pub deliver-batches :
    (w : Platform) (a : Arrival) (db db' : Db)
    → deliver w a db ≡ ok db'
    → (b : Batch) × (batch_by_id a.delivery.batch_id db ≡ some b)
      × (db'.batches
          ≡ update_batch b.id
              (λ (r : Batch). record r { delivered_liters = b.delivered_liters +ℤ a.received })
              db.batches)
      × (db.next_id ≤ db'.next_id)
deliver-batches w a db db' h =
    let t = Steps-Written w a db db' (deliver-Steps w a db db' h) in
    (t.batch, t.batch_found, t.batches, t.grows)

-- A reception by sticker that commits marks the row of the trip as delivered, with the volume, density,
-- temperature, water and time of the arrival and all else as it was, and adds exactly the received volume to what its batch has delivered. It leaves the status of the
-- batch and every baton as they were.
pub deliver-credit :
    (w : Platform) (a : Arrival) (db db' : Db)
    → deliver w a db ≡ ok db'
    → (b : Batch) × (d : Delivery) × (batch_by_id a.delivery.batch_id db ≡ some b)
      × (batch_by_id a.delivery.batch_id db'
          ≡ some (record b { delivered_liters = b.delivered_liters +ℤ a.received }))
      × (delivery_by_id a.delivery.id db ≡ some d)
      × (delivery_by_id a.delivery.id db'
          ≡ some (record d {
            status = DeliveryStatus.delivered;
            received_liters = some a.received;
            received_density = some a.density;
            received_temperature = some a.temperature;
            received_water = a.water;
            delivered_at = some a.now;
          }))
      × (db'.batons ≡ db.batons)
deliver-credit w a db db' h =
    let t = Steps-Written w a db db' (deliver-Steps w a db db' h) in
    let b = t.batch in
    let d = t.delivery in
    let k = a.delivery.batch_id in
    let is_batch = λ (x : Batch). x.id == k in
    let update = λ (r : Batch). record r { delivered_liters = b.delivered_liters +ℤ a.received } in
    let is_trip = λ (x : Delivery). x.id == a.delivery.id in
    (
      b,
      d,
      t.batch_found,
      ap (find_first is_batch) t.batches
          ∙ find-update_where is_batch (λ (x : Batch). x.id == b.id) update (λ x e. refl) db.batches
          ∙ ap (map_row (λ (x : Batch). if x.id == b.id then update x else x)) t.batch_found
          ∙ rw ((==_iff b.id b.id).1 refl) refl,
      t.delivery_found,
      ap (find_first is_trip) t.deliveries
          ∙ find-update_where is_trip is_trip (delivered_by a) (λ x e. refl) db.deliveries
          ∙ ap (map_row (λ (x : Delivery). if is_trip x then delivered_by a x else x))
              t.delivery_found
          ∙ rw (find_first-holds is_trip db.deliveries d t.delivery_found) refl,
      t.batons,
    )

-- On the database that a committed reception by sticker left, no further one of the same trip and device
-- commits, whatever was read before it and whatever it says was received.
pub deliver-once :
    (w : Platform) (a late : Arrival) (db db' after : Db)
    → deliver w a db ≡ ok db'
    → arrival_id w late ≡ arrival_id w a
    → deliver w late db' ≢ ok after
deliver-once w a late db db' after h same again =
    let t = Steps-Written w a db db' (deliver-Steps w a db db' h) in
    let u = Steps-Written w late db' after (deliver-Steps w late db' after again) in
    let k = arrival_id w a in
    let stored : find_first (has_event k) db'.checkpoints ≡ some (arrival_point w a) =
      ap (find_first (has_event k)) t.checkpoints
      ∙ find-append_new (has_event k) db.checkpoints (arrival_point w a) t.new (eq_refl k) in
    let missing : find_first (has_event k) db'.checkpoints ≡ none =
      ap (λ i. find_first (has_event i) db'.checkpoints) (sym same) ∙ u.new in
    cc

-- Where a trip that was received by sticker is received once more by its baton, and both commit, its
-- batch is credited with both volumes.
pub deliver-commit :
    (w : Platform) (a : Arrival) (p : Ready) (db mid db' : Db)
    → deliver w a db ≡ ok mid
    → commit p mid ≡ ok db'
    → p.baton.batch_id ≡ a.delivery.batch_id
    → (b : Batch) × (r : Batch) × (batch_by_id a.delivery.batch_id db ≡ some b)
      × (batch_by_id a.delivery.batch_id db' ≡ some r)
      × (r.delivered_liters ≡ (b.delivered_liters +ℤ a.received) +ℤ p.received)
deliver-commit w a p db mid db' first second same =
    let (b, d, found, after, d_found, d_after, batons) = deliver-credit w a db mid first in
    let (c, c_found, ready, after_baton, moved) = commit-credit p mid db' second in
    let at_c : batch_by_id a.delivery.batch_id mid ≡ some c =
      ap (λ k. batch_by_id k mid) (sym same) ∙ c_found in
    let row : record b { delivered_liters = b.delivered_liters +ℤ a.received } ≡ c = cc in
    let litres : c.delivered_liters ≡ b.delivered_liters +ℤ a.received =
      ap (λ (x : Batch). x.delivered_liters) (sym row) in
    (
      b,
      credited c p.received,
      found,
      ap (λ k. batch_by_id k db') (sym same) ∙ after_baton,
      ap (λ (v : ℤ). v +ℤ p.received) litres,
    )
