-- ===== src/Sticker/Receive.antt =====
-- The reception that a station confirms after it scanned a sticker: `receiveAfterScan` and
-- `journeyFor` of apps/api/src/cisterns/cisterns.service.ts. What was read before the transaction
-- (`Arrival`) is kept apart from the database that the transaction runs on. Rows captured at the same
-- time are taken in the order in which they were stored.
pub mod Written
pub mod Effects
use fuel_chain.Base.{
  ℕ, suc, ◌≡◌, String, Bool, false, not, ◌&&◌, ◌||◌, Option, none, some, List, [], ◌∷◌, ◌==◌, leb,
  get_or, or_else, is_some, if◌then◌else◌, find_first, filter, take, last, Result, ok, err,
  refuse_if, or_throw, ◌>>=◌, ◌>>◌,
}
use fuel_chain.Base.Int.{ℤ, pos, ◌+ℤ◌, ltb_ℤ, min_ℤ}
use fuel_chain.Base.Number.{finite}
use fuel_chain.Schema
use fuel_chain.Schema.{
  admin, station_staff, same_role, Exception, role_refused, no_active_trip, not_for_this_station,
  row_not_found, unique_violation,
}
use fuel_chain.Movement.{CustodyEventType}
use fuel_chain.Settlement.{settlement_create_data}
use fuel_chain.Tank.{Stock, apply_stock_delta, apply_stock_withdraw}
use fuel_chain.Store.{
  Db, Actor, Batch, Cistern, Delivery, CustodyEvent, Checkpoint, Measurement, Station, StorageTank,
  arrival_station, batch_by_id, delivery_by_id, cistern_by_id, station_by_id, update_batch,
  update_delivery, update_cistern, update_tank, update_station, append,
}
use fuel_chain.Journey.Parse.{Platform}
use fuel_chain.Custody.Accept.Handover.{add_event, is_for_delivery}
use fuel_chain.Custody.Accept.Stocking.{is_at}
use fuel_chain.Sticker.{resolve_cistern, active_delivery, preferred, has_event, scan_and_ingest}
use Prim.Native.String.{◌++◌}

-- The rows of a delivery, of a cistern with a batch, or of a cistern.
abbrev pub is_on_journey : ℕ → Option ℕ → Option ℕ → Checkpoint → Bool
is_on_journey cistern (some d) batch c = elim c.delivery_id [ none ↦ false | some k ↦ k == d ]
is_on_journey cistern none (some b) c = c.cistern_id == cistern && c.batch_id == b
is_on_journey cistern none none c = c.cistern_id == cistern

-- `orderBy: { capturedAt: 'asc' }`
abbrev pub insert : Checkpoint → List Checkpoint → List Checkpoint
insert x [] = x ∷ []
insert x (y ∷ ys) =
    let rest = insert x ys in if leb x.captured_at y.captured_at then x ∷ y ∷ ys else y ∷ rest

abbrev pub by_captured_at : List Checkpoint → List Checkpoint
by_captured_at [] = []
by_captured_at (x ∷ xs) = insert x (by_captured_at xs)

unfoldable pub journey_for : ℕ → Option ℕ → Option ℕ → Db → List Checkpoint
journey_for cistern delivery batch db =
    take 80 (by_captured_at (filter (is_on_journey cistern delivery batch) db.checkpoints))

-- What the station states; the rest is taken from the route or the load.
pub record Input : Type 0 where
  pub volume_liters : Option ℤ
  pub density : Option ℤ
  pub temperature : Option ℤ
  pub water : Option Bool

-- What was read, and what was received.
pub record Arrival : Type 0 where
  pub cistern : Cistern
  pub delivery : Delivery
  pub received : ℤ
  pub density : ℤ
  pub temperature : ℤ
  pub water : Bool
  pub actor : Actor
  pub now : ℕ

-- `input.x ?? lastCp?.x ?? delivery.x ?? default`
abbrev pub arrival_of : Input → Cistern → Delivery → Option Checkpoint → Actor → ℕ → Arrival
arrival_of input c d none actor now = record {
  cistern = c;
  delivery = d;
  received = get_or input.volume_liters d.loaded_liters;
  density = get_or (or_else input.density d.load_density) (pos 7450);
  temperature = get_or (or_else input.temperature d.load_temperature) (pos 2200);
  water = get_or input.water false;
  actor = actor;
  now = now;
}
arrival_of input c d (some p) actor now = record {
  cistern = c;
  delivery = d;
  received = get_or input.volume_liters p.volume_liters;
  density = get_or (or_else input.density (or_else p.density d.load_density)) (pos 7450);
  temperature =
      get_or (or_else input.temperature (or_else p.temperature d.load_temperature)) (pos 2200);
  water = get_or input.water p.water;
  actor = actor;
  now = now;
}

abbrev pub delivered_by : Arrival → Delivery → Delivery
delivered_by a r = record r {
  status = Schema.delivered;
  received_liters = some a.received;
  received_density = some a.density;
  received_temperature = some a.temperature;
  received_water = a.water;
  delivered_at = some a.now;
}

unfoldable pub close_trip : Arrival → Db → Result Exception Db
close_trip a db = do
  row ← or_throw (delivery_by_id a.delivery.id db) row_not_found
  ok (record db { deliveries = update_delivery a.delivery.id (delivered_by a) db.deliveries })

-- `upsert({ where: { deliveryId }, create, update: {} })`
unfoldable pub settle_trip : Arrival → Db → Db
settle_trip a db =
    if is_some (find_first (is_for_delivery a.delivery.id) db.settlements) then db else record db {
      settlements =
          append
            (settlement_create_data db.next_id a.delivery.id a.cistern.driver_id a.cistern.id
              a.delivery.destination_station_id a.delivery.batch_id a.received)
            db.settlements;
      next_id = suc db.next_id;
    }

unfoldable pub load_after : Arrival → Result Exception ℤ
load_after a =
    let load = a.cistern.current_load in
    let unload = min_ℤ a.received load in
    if ltb_ℤ (pos 0) unload
    then (apply_stock_withdraw load (finite unload) a.cistern.capacity >>= λ s. ok s.next_stock)
    else ok load

-- A cistern with less than a litre left is free again; otherwise it keeps the batch that was read.
abbrev pub emptied : Arrival → ℤ → Cistern → Cistern
emptied a next c = record c {
  current_load = next;
  status =
      if ltb_ℤ next (pos 1000) then Schema.CisternStatus.available else Schema.CisternStatus.loaded;
  current_batch_id = if ltb_ℤ next (pos 1000) then none else a.cistern.current_batch_id;
}

unfoldable pub empty_cistern : Arrival → Db → Result Exception Db
empty_cistern a db = do
  next ← load_after a
  row ← or_throw (cistern_by_id a.cistern.id db) row_not_found
  ok (record db { cisterns = update_cistern a.cistern.id (emptied a next) db.cisterns })

abbrev measured : Arrival → ℕ → ℤ → Measurement
measured a tank volume = record {
  batch_id = a.delivery.batch_id;
  tank_id = tank;
  volume_liters = volume;
  density = a.density;
  temperature = a.temperature;
  water = a.water;
}

abbrev stocked : Arrival → StorageTank → Stock → Db → Db
stocked a t stock db = record db {
  tanks =
      update_tank t.id (λ (r : StorageTank). record r { current_stock = stock.next_stock })
        db.tanks;
  stations =
      update_station a.delivery.destination_station_id
        (λ (s : Station). record s {
          availability = stock.availability;
          last_inventory_at = some a.now;
        })
        db.stations;
  measurements = append (measured a t.id stock.next_stock) db.measurements;
}

-- The first tank of the station takes the volume; a station without one takes none.
unfoldable pub fill_tank : Arrival → Option StorageTank → Db → Result Exception Db
fill_tank a none db = ok db
fill_tank a (some t) db = do
  stock ← apply_stock_delta t.current_stock (finite a.received) t.capacity
  station ← or_throw (station_by_id a.delivery.destination_station_id db) row_not_found
  ok (stocked a t stock db)

-- `${cistern.deviceId}-arrival-${delivery.id}`
abbrev pub arrival_id : Platform → Arrival → String
arrival_id w a = a.cistern.device_id ++ "-arrival-" ++ w.key_text a.delivery.id

abbrev pub arrival_point : Platform → Arrival → Checkpoint
arrival_point w a = record {
  kind = arrival_station;
  delivery_id = some a.delivery.id;
  cistern_id = a.cistern.id;
  batch_id = a.delivery.batch_id;
  actor_id = a.actor.id;
  volume_liters = a.received;
  density = some a.density;
  temperature = some a.temperature;
  water = a.water;
  client_event_id = some (arrival_id w a);
  captured_at = a.now;
}

-- The unique index on the ids of the events refuses a second arrival.
unfoldable pub record_point : Platform → Arrival → Db → Result Exception Db
record_point w a db = do
  refuse_if (is_some (find_first (has_event (arrival_id w a)) db.checkpoints)) unique_violation
  ok (record db { checkpoints = append (arrival_point w a) db.checkpoints })

abbrev pub received_event : Arrival → CustodyEvent
received_event a = record {
  batch_id = a.delivery.batch_id;
  event_type = CustodyEventType.received;
  actor_id = some a.actor.id;
  declared_volume = some a.delivery.loaded_liters;
  measured_volume = some a.received;
  baton_token = none;
  delivery_id = some a.delivery.id;
}

-- The volume counts as delivered; the status of the batch stays as it is.
unfoldable pub credit_trip : Arrival → Db → Result Exception Db
credit_trip a db = do
  b ← or_throw (batch_by_id a.delivery.batch_id db) row_not_found
  let next = b.delivered_liters +ℤ a.received
  ok (record db {
    batches = update_batch b.id (λ (r : Batch). record r { delivered_liters = next }) db.batches;
  })

-- The whole transaction, on the database as it is when it runs.
unfoldable pub deliver : Platform → Arrival → Db → Result Exception Db
deliver w a db = do
  closed ← close_trip a db
  unloaded ← empty_cistern a (settle_trip a closed)
  let tank = find_first (is_at a.delivery.destination_station_id) unloaded.tanks
  filled ← fill_tank a tank unloaded
  pointed ← record_point w a filled
  credit_trip a (add_event (received_event a) pointed)

-- `actor.stationId && delivery.destinationStationId !== actor.stationId` of a member of a station
abbrev pub is_elsewhere : Actor → Delivery → Bool
is_elsewhere actor d =
    same_role actor.role station_staff
    && elim actor.station_id [ none ↦ false | some k ↦ not (d.destination_station_id == k) ]

abbrev pub receive_trip :
    Platform → Input → Actor → ℕ → Cistern → Option Delivery → Db → Result Exception Db
receive_trip w input actor now c none db = err no_active_trip
receive_trip w input actor now c (some d) db = do
  refuse_if (is_elsewhere actor d) not_for_this_station
  let route = journey_for c.id (some d.id) (some d.batch_id) db
  deliver w (arrival_of input c d (last route) actor now) db

unfoldable pub receive_after_scan : Platform → String → Actor → Input → ℕ → Db → Result Exception Db
receive_after_scan w token actor input now db = do
  refuse_if (not (same_role actor.role station_staff || same_role actor.role admin)) role_refused
  scanned ← scan_and_ingest w token actor [] now db
  c ← or_throw (resolve_cistern token scanned) row_not_found
  let d = active_delivery c.id (preferred actor) scanned.deliveries
  receive_trip w input actor now c d scanned
