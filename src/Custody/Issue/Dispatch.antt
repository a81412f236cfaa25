-- ===== src/Custody/Issue/Dispatch.antt =====
-- The transaction of `issue` in custody-qr.service.ts: the delivery, the cistern, the depot's tank,
-- the baton, the record of custody and the batch. The certificate's status, a text of the delivery,
-- is left out.
use fuel_chain.Base.{
  ℕ, suc, Bool, true, false, Option, none, some, List, [], ◌∷◌, ◌++◌, str_eq, get_or, is_some,
  if◌then◌else◌, find_first, map, Result, ok, err, or_throw, ◌>>=◌,
}
use Prim.Native.String.{compare}
use text.Mathlib.Text.{is_lt}
use fuel_chain.Base.Int.{ℤ, pos, scale}
use fuel_chain.Base.Number.{finite}
use fuel_chain.Schema
use fuel_chain.Schema.{Exception, no_depot_tank, unique_violation, transition_refused}
use fuel_chain.BatchStatus
use fuel_chain.BatchStatus.{BatchStatus, authorized, in_transit, can_transition}
use fuel_chain.Movement.{CustodyEventType}
use fuel_chain.Accounting.{next_cistern_load}
use fuel_chain.Tank.{apply_stock_withdraw}
use fuel_chain.Store.{
  Db, Actor, Batch, Baton, Delivery, Cistern, StorageTank, CustodyEvent, Checkpoint, Measurement,
  update_batch, update_delivery, update_cistern, update_tank, append,
}
use fuel_chain.Custody.Payload.{Config}
use fuel_chain.Custody.Issue.{IssueInput, Plan, load_density_of, load_temperature_of}
use fuel_chain.Custody.Issue.Baton.{Draw, TrailSample, trail_plan, core_of, role_text, expires_sec}

-- All that the transaction reads besides the database.
pub record Order : Type 0 where
  pub config : Config
  pub input : IssueInput
  pub actor : Actor
  pub draw : Draw
  pub plan : Plan

abbrev pub new_delivery : Order → ℕ → Delivery
new_delivery o key = record {
  id = key;
  batch_id = o.plan.batch.id;
  cistern_id = o.plan.cistern.id;
  destination_station_id = o.plan.station_id;
  status = Schema.DeliveryStatus.in_transit;
  loaded_liters = o.input.volume_liters;
  received_liters = none;
  load_density = some (load_density_of o.input);
  load_temperature = some (load_temperature_of o.input);
  load_water = o.input.load_water;
  loaded_at = o.draw.now;
  received_density = none;
  received_temperature = none;
  received_water = false;
  delivered_at = none;
  baton_token = none;
}

unfoldable pub open_delivery : Order → Db → Db
open_delivery o db = record db {
  deliveries = append (new_delivery o db.next_id) db.deliveries;
  next_id = suc db.next_id;
}

-- The load is computed from the cistern as it was read before the transaction.
unfoldable pub load_cistern : Order → Db → Result Exception Db
load_cistern o db = do
  next ← next_cistern_load o.plan.cistern.current_load o.input.volume_liters
  ok (record db {
    cisterns =
        update_cistern o.plan.cistern.id
          (λ (c : Cistern). record c {
            current_load = next;
            status = Schema.CisternStatus.in_transit;
            current_batch_id = some o.plan.batch.id;
            driver_id = some (get_or o.plan.cistern.driver_id o.actor.id);
          })
          db.cisterns;
  })

abbrev pub is_depot : StorageTank → Bool
is_depot t = elim t.station_id [
  | none ↦ elim t.cistern_code [ none ↦ true | some k ↦ false ]
  | some k ↦ false
]

abbrev earlier : StorageTank → Option StorageTank → Option StorageTank
earlier t none = some t
earlier t (some u) = if is_lt (compare u.name t.name) then some u else some t

-- `orderBy: [{ name: 'asc' }, { createdAt: 'asc' }]`; names are ordered by their code points.
unfoldable pub depot_tank : List StorageTank → Option StorageTank
depot_tank [] = none
depot_tank (t ∷ ts) = let rest = depot_tank ts in if is_depot t then earlier t rest else rest

abbrev load_reading : Order → ℕ → ℤ → Measurement
load_reading o tank volume = record {
  batch_id = o.plan.batch.id;
  tank_id = tank;
  volume_liters = volume;
  density = load_density_of o.input;
  temperature = load_temperature_of o.input;
  water = o.input.load_water;
}

unfoldable pub draw_depot : Order → Db → Result Exception Db
draw_depot o db = do
  depot ← or_throw (depot_tank db.tanks) no_depot_tank
  stock ← apply_stock_withdraw depot.current_stock (finite o.input.volume_liters) depot.capacity
  ok (record db {
    tanks =
        update_tank depot.id (λ (t : StorageTank). record t { current_stock = stock.next_stock })
          db.tanks;
    measurements = append (load_reading o depot.id stock.next_stock) db.measurements;
  })

abbrev pub new_baton : Order → ℕ → ℕ → Baton
new_baton o key delivery = record {
  id = key;
  token_id = o.draw.token;
  batch_id = o.plan.batch.id;
  vehicle_id = o.plan.vehicle_id;
  station_id = some o.plan.station_id;
  cistern_id = some o.plan.cistern.id;
  delivery_id = some delivery;
  cistern_code = some o.plan.cistern.code;
  event_type = o.input.event_type;
  volume_liters = o.input.volume_liters;
  payload_hash = o.config.hash_payload (core_of o.config o.input o.actor o.draw o.plan);
  previous_hash = o.input.previous_hash;
  signature =
      o.config.hmac (o.config.hash_payload (core_of o.config o.input o.actor o.draw o.plan));
  status = Schema.BatonStatus.active;
  issued_by_role = role_text o.actor.role;
  consumed_by_role = none;
  consumed_at = none;
  expires_at = some (scale 1000 (pos (expires_sec o.draw)));
}

-- The token of a baton is unique in its table.
unfoldable pub create_baton_row : Order → ℕ → Db → Result Exception Db
create_baton_row o delivery db =
    if is_some (find_first (λ (b : Baton). str_eq b.token_id o.draw.token) db.batons)
    then err unique_violation
    else ok (record db {
      batons = append (new_baton o db.next_id delivery) db.batons;
      deliveries =
          update_delivery delivery (λ (d : Delivery). record d { baton_token = some o.draw.token })
            db.deliveries;
      next_id = suc db.next_id;
    })

abbrev dispatch_event : CustodyEventType → Option ℤ → Order → ℕ → CustodyEvent
dispatch_event kind measured o delivery = record {
  batch_id = o.plan.batch.id;
  event_type = kind;
  actor_id = some o.actor.id;
  declared_volume = some o.input.volume_liters;
  measured_volume = measured;
  baton_token = some o.draw.token;
  delivery_id = some delivery;
}

abbrev trail_checkpoint : Order → ℕ → TrailSample → Checkpoint
trail_checkpoint o delivery s = record {
  kind = s.kind;
  delivery_id = some delivery;
  cistern_id = o.plan.cistern.id;
  batch_id = o.plan.batch.id;
  actor_id = o.actor.id;
  volume_liters = s.volume_liters;
  density = some s.density;
  temperature = some s.temperature;
  water = s.water;
  client_event_id = some s.client_event_id;
  captured_at = s.captured_at;
}

unfoldable pub record_dispatch : Order → ℕ → Db → Db
record_dispatch o delivery db = record db {
  events = append (dispatch_event CustodyEventType.in_transit none o delivery) (
      append (dispatch_event CustodyEventType.loaded (some o.input.volume_liters) o delivery)
        db.events);
  checkpoints = db.checkpoints ++ map (trail_checkpoint o delivery) (trail_plan o.input o.draw);
}

-- The status that the transaction tests is the one that was read before it.
unfoldable pub start_transit : Order → Db → Result Exception Db
start_transit o db =
    if BatchStatus.same o.plan.batch.status authorized
    then (if can_transition o.plan.batch.status in_transit
        then ok (record db {
          batches =
              update_batch o.plan.batch.id (λ (b : Batch). record b { status = in_transit })
                db.batches;
        })
        else err transition_refused)
    else ok db

-- The whole transaction, on the database as it is when it runs.
unfoldable pub dispatch : Order → Db → Result Exception Db
dispatch o db = do
  let opened = open_delivery o db
  loaded ← load_cistern o opened
  drawn ← draw_depot o loaded
  issued ← create_baton_row o db.next_id drawn
  start_transit o (record_dispatch o db.next_id issued)
