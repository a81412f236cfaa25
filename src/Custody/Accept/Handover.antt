-- ===== src/Custody/Accept/Handover.antt =====
-- The first steps of the transaction of `accept` in custody-qr.service.ts: the baton, the events,
-- the batch, the delivery and its settlement. What was read before the transaction (`Ready`) may be
-- stale when it runs: the steps take the database as it then is.
use fuel_chain.Base.{
  ℕ, suc, Bool, true, false, not, ◌&&◌, ◌||◌, Option, none, some, ◌==◌, get_or, or_else, is_some,
  if◌then◌else◌, find_first, update_where, count_where, Result, ok, err, refuse_if, or_throw, ◌>>=◌,
  ◌>>◌,
}
use fuel_chain.Base.Int.{ℤ, pos, ◌+ℤ◌, ltb_ℤ}
use fuel_chain.Schema.{
  station_staff, same_role, BatonStatus, is_active, Exception, baton_already_consumed,
  row_not_found, reception_refused, quality_missing,
}
use fuel_chain.Schema
use fuel_chain.BatchStatus.{BatchStatus, received, distributing, can_transition, can_receive_batch}
use fuel_chain.Movement.{CustodyEventType}
use fuel_chain.Settlement.{Settlement, settlement_create_data}
use fuel_chain.Store.{
  Db, Actor, Batch, Baton, Delivery, CustodyEvent, batch_by_id, delivery_by_id, update_batch,
  update_delivery, append,
}

-- What the checks before the transaction hand to it: `baton` is the row as it was read then.
pub record Ready : Type 0 where
  pub baton : Baton
  pub driver_id : Option ℕ
  pub station_id : Option ℕ
  pub received : ℤ
  pub density : Option ℤ
  pub temperature : Option ℤ
  pub water : Option Bool
  pub actor : Actor
  pub now : ℕ

-- `expiresAt` is missing or later than `now`
abbrev pub is_unexpired : Option ℤ → ℕ → Bool
is_unexpired none now = true
is_unexpired (some t) now = ltb_ℤ (pos now) t

abbrev pub is_consumable : ℕ → ℕ → Baton → Bool
is_consumable k now b = b.id == k && (is_active b.status && is_unexpired b.expires_at now)

abbrev pub consumed_by : Ready → Baton → Baton
consumed_by p b = record b {
  status = BatonStatus.consumed;
  consumed_at = some p.now;
  consumed_by_role = some p.actor.role;
  station_id = or_else p.station_id b.station_id;
}

unfoldable pub consume : Ready → Db → Result Exception Db
consume p db =
    if count_where (is_consumable p.baton.id p.now) db.batons == 1
    then ok (record db {
      batons = update_where (is_consumable p.baton.id p.now) (consumed_by p) db.batons;
    })
    else err baton_already_consumed

abbrev pub handover_event : CustodyEventType → Option ℕ → Ready → CustodyEvent
handover_event kind delivery p = record {
  batch_id = p.baton.batch_id;
  event_type = kind;
  actor_id = some p.actor.id;
  declared_volume = some p.baton.volume_liters;
  measured_volume = some p.received;
  baton_token = some p.baton.token_id;
  delivery_id = delivery;
}

unfoldable pub add_event : CustodyEvent → Db → Db
add_event e db = record db { events = append e db.events }

-- The status of a batch of which `next` litres are delivered now; 0.001 L is one unit.
unfoldable pub next_status : Batch → ℤ → BatchStatus
next_status b next =
    if ltb_ℤ (pos 0) b.declared_volume && ltb_ℤ (next +ℤ pos 1) b.declared_volume
    then distributing
    else (if can_transition b.status received then received else b.status)

unfoldable pub credit_batch : Ready → Db → Result Exception Db
credit_batch p db = do
  b ← or_throw (batch_by_id p.baton.batch_id db) row_not_found
  refuse_if (not (can_receive_batch b.status)) reception_refused
  let next = b.delivered_liters +ℤ p.received
  ok (record db {
    batches =
        update_batch b.id
          (λ (r : Batch). record r { delivered_liters = next; status = next_status b next })
          db.batches;
  })

abbrev pub delivery_keyed : Option ℕ → Db → Option Delivery
delivery_keyed none db = none
delivery_keyed (some k) db = delivery_by_id k db

abbrev pub fresh_delivery : Ready → Db → Option Delivery
fresh_delivery p db = delivery_keyed p.baton.delivery_id db

unfoldable pub require_quality : Ready → Result Exception (Unit {0})
require_quality p =
    refuse_if
      (same_role p.actor.role station_staff
        && (not (is_some p.density) || not (is_some p.temperature) || not (is_some p.water)))
      quality_missing

abbrev load_density_of : Option Delivery → Option ℤ
load_density_of none = none
load_density_of (some d) = d.load_density

abbrev load_temperature_of : Option Delivery → Option ℤ
load_temperature_of none = none
load_temperature_of (some d) = d.load_temperature

abbrev load_water_of : Option Delivery → Bool
load_water_of none = false
load_water_of (some d) = d.load_water

-- 0.745 and 22 degrees, where neither the station nor the load says
abbrev pub quality_density : Ready → Option Delivery → ℤ
quality_density p d = get_or (or_else p.density (load_density_of d)) (pos 7450)

abbrev pub quality_temperature : Ready → Option Delivery → ℤ
quality_temperature p d = get_or (or_else p.temperature (load_temperature_of d)) (pos 2200)

abbrev pub quality_water : Ready → Option Delivery → Bool
quality_water p d = get_or p.water (load_water_of d)

abbrev pub received_by : Ready → Option Delivery → Delivery → Delivery
received_by p d r = record r {
  status = Schema.delivered;
  received_liters = some p.received;
  received_density = some (quality_density p d);
  received_temperature = some (quality_temperature p d);
  received_water = quality_water p d;
  delivered_at = some p.now;
}

abbrev pub is_for_delivery : ℕ → Settlement → Bool
is_for_delivery k s = s.delivery_id == k

-- `upsert({ where: { deliveryId }, create, update: {} })`
unfoldable pub ensure_settlement : Ready → Delivery → Db → Db
ensure_settlement p d db =
    if is_some (find_first (is_for_delivery d.id) db.settlements) then db else record db {
      settlements =
          append
            (settlement_create_data db.next_id d.id p.driver_id d.cistern_id
              d.destination_station_id d.batch_id p.received)
            db.settlements;
      next_id = suc db.next_id;
    }

unfoldable pub close_delivery : Ready → Option Delivery → Db → Db
unfolding ensure_settlement
close_delivery p none db = db
close_delivery p (some d) db =
    ensure_settlement p d
      (record db { deliveries = update_delivery d.id (received_by p (some d)) db.deliveries })
