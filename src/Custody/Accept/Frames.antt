-- ===== src/Custody/Accept/Frames.antt =====
-- Which tables each step of the transaction of `accept` writes.
use fuel_chain.Base.{
  ◌≤◌, ℕ, ◌≡◌, refl, ap, ◌∙◌, Option, none, some, count_where, update_where, ok, arith, >>=-eq-ok,
}
use fuel_chain.Store.{
  Db, Cistern, Station, Delivery, CustodyEvent, station_by_id, append, delivery_key,
}
use fuel_chain.Custody.Accept.Handover.{
  Ready, is_consumable, consumed_by, consume, add_event, credit_batch, close_delivery,
  handover_event, fresh_delivery,
}
use fuel_chain.Movement.{CustodyEventType}
use fuel_chain.Custody.Accept.Commit.{Committed, cistern_row}
use fuel_chain.Custody.Accept.Stocking.{
  cistern_key, unload_cistern, stock_tank, stock_at, stock_station, record_arrival,
}

pub consume-frame :
    (p : Ready) (db db' : Db) → consume p db ≡ ok db' → db' ≡ record db { batons = db'.batons }
unfolding consume
consume-frame p db db' h = ground arith

pub consume-batons :
    (p : Ready) (db db' : Db)
    → consume p db ≡ ok db'
    → db'.batons ≡ update_where (is_consumable p.baton.id p.now) (consumed_by p) db.batons
unfolding consume
consume-batons p db db' h = ground arith

pub consume-count :
    (p : Ready) (db db' : Db)
    → consume p db ≡ ok db'
    → count_where (is_consumable p.baton.id p.now) db.batons ≡ 1
unfolding consume
consume-count p db db' h = ground arith

pub credit_batch-frame :
    (p : Ready) (db db' : Db)
    → credit_batch p db ≡ ok db'
    → db' ≡ record db { batches = db'.batches }
unfolding credit_batch
credit_batch-frame p db db' h = ground arith

pub add_event-frame :
    (e : CustodyEvent) (db : Db) → add_event e db ≡ record db { events = (add_event e db).events }
unfolding add_event
add_event-frame e db = refl

add_event_lem : (e : CustodyEvent) (db : Db) → (add_event e db).events ≡ append e db.events
unfolding add_event
add_event_lem e db = refl

close_delivery-next_id :
    (p : Ready) (d : Option Delivery) (db : Db) → db.next_id ≤ (close_delivery p d db).next_id
unfolding close_delivery
close_delivery-next_id p d db = ground arith

pub close_delivery-frame :
    (p : Ready) (d : Option Delivery) (db : Db)
    → let db' = close_delivery p d db in
      db' ≡ record db {
        deliveries = db'.deliveries;
        settlements = db'.settlements;
        next_id = db'.next_id;
      }
unfolding close_delivery
close_delivery-frame p none db = refl
close_delivery-frame p (some d) db = ground arith

pub unload_cistern-frame :
    (p : Ready) (c : Option Cistern) (db db' : Db)
    → unload_cistern p c db ≡ ok db'
    → db' ≡ record db { cisterns = db'.cisterns }
unfolding unload_cistern
unload_cistern-frame p c db db' h = ground arith

pub stock_tank-frame :
    (p : Ready) (d : Option Delivery) (k : ℕ) (db db' : Db)
    → stock_tank p d k db ≡ ok db'
    → db'
      ≡ record db { tanks = db'.tanks; stations = db'.stations; measurements = db'.measurements }
unfolding stock_tank
stock_tank-frame p d k db db' h = ground arith

pub record_arrival-frame :
    (p : Ready) (d : Option Delivery) (c : Option ℕ) (s : Option Station) (db : Db)
    → record_arrival p d c s db
      ≡ record db { checkpoints = (record_arrival p d c s db).checkpoints }
unfolding record_arrival
record_arrival-frame p d c s db = ground arith

abbrev pub WritesStation : Db → Db → Type 0
WritesStation db db' = db' ≡ record db {
  tanks = db'.tanks;
  stations = db'.stations;
  measurements = db'.measurements;
  checkpoints = db'.checkpoints;
}

stock_at-frame :
    (p : Ready) (d : Option Delivery) (o : Option ℕ) (db db' : Db)
    → stock_at p d o db ≡ ok db'
    → WritesStation db db'
unfolding stock_at
stock_at-frame p d none db db' h = ground arith
stock_at-frame p d (some k) db db' h =
    let arrived = record_arrival p d (cistern_key p d) (station_by_id k db) in
    let (m, em, rest) = >>=-eq-ok (stock_tank p d k db) (λ stocked. ok (arrived stocked)) h in
    ground (
      arith,
      stock_tank-frame p d k db m em,
      record_arrival-frame p d (cistern_key p d) (station_by_id k db) m,
    )

pub stock_station-frame :
    (p : Ready) (d : Option Delivery) (db db' : Db)
    → stock_station p d db ≡ ok db'
    → WritesStation db db'
stock_station-frame p d db db' h =
    stock_at-frame p d p.station_id db db' (unfold stock_station in h)

-- A transaction that commits leaves the batons to its first step, the batches to the third and the
-- deliveries and settlements to the fifth.
pub record Untouched (p : Ready) {db db' : Db} (t : Committed p db db') : Type 0 where
  pub batons : db'.batons ≡ t.consumed.batons
  pub batches : db'.batches ≡ t.credited.batches
  pub before : t.consumed.batches ≡ db.batches
  pub deliveries_before : t.credited.deliveries ≡ db.deliveries
  pub settlements_before : t.credited.settlements ≡ db.settlements
  pub deliveries_after :
      db'.deliveries ≡ (close_delivery p (fresh_delivery p t.credited) t.credited).deliveries
  pub settlements_after :
      db'.settlements ≡ (close_delivery p (fresh_delivery p t.credited) t.credited).settlements
  pub tanks_before : t.emptied.tanks ≡ db.tanks
  pub tanks_after : db'.tanks ≡ t.stocked.tanks
  pub cisterns_before :
      (close_delivery p (fresh_delivery p t.credited) t.credited).cisterns ≡ db.cisterns
  pub cisterns_after : db'.cisterns ≡ t.emptied.cisterns
  pub events_before : t.consumed.events ≡ db.events
  pub events_between :
      t.stocked.events
      ≡ append (handover_event CustodyEventType.received p.baton.delivery_id p) t.consumed.events
  pub keys : db.next_id ≤ db'.next_id
  pub tables :
      (db'.transports ≡ db.transports)
      × (db'.vehicles ≡ db.vehicles)
      × (db'.sync_events ≡ db.sync_events)

pub commit-Untouched : (p : Ready) {db db' : Db} (t : Committed p db db') → Untouched p t
commit-Untouched p {db} {db'} t =
    let d = fresh_delivery p t.credited in
    let recorded =
      add_event (handover_event CustodyEventType.received p.baton.delivery_id p) t.consumed in
    let closed = close_delivery p d t.credited in
    let e1 = consume-frame p db t.consumed t.consumes in
    let e2 =
      add_event-frame (handover_event CustodyEventType.received p.baton.delivery_id p) t.consumed in
    let e3 = credit_batch-frame p recorded t.credited t.credits in
    let e4 = close_delivery-frame p d t.credited in
    let e5 = unload_cistern-frame p (cistern_row p d closed) closed t.emptied t.empties in
    let e6 = stock_station-frame p d t.emptied t.stocked t.stocks in
    let e7 =
      add_event-frame (handover_event CustodyEventType.delivered (delivery_key d) p) t.stocked in
    let e8 = t.ends in
    let e9 = close_delivery-next_id p d t.credited in
    let events = λ (s : Db). s.events in
    record {
      batons = ground arith;
      batches = ground arith;
      before = ground arith;
      deliveries_before = ground arith;
      settlements_before = ground arith;
      deliveries_after = ground arith;
      settlements_after = ground arith;
      tanks_before = ground arith;
      tanks_after = ground arith;
      cisterns_before = ground arith;
      cisterns_after = ground arith;
      events_before = ground arith;
      events_between =
          ap events e6
          ∙ ap events e5
          ∙ ap events e4
          ∙ ap events e3
          ∙ add_event_lem (handover_event CustodyEventType.received p.baton.delivery_id p)
              t.consumed;
      keys = ground arith;
      tables = (ground arith, ground arith, ground arith);
    }
