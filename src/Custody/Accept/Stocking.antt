-- ===== src/Custody/Accept/Stocking.antt =====
-- The last steps of the transaction of `accept` in custody-qr.service.ts: the cistern is emptied,
-- and the tank of the station is filled.
use fuel_chain.Base.{
  ℕ, Bool, false, Option, none, some, ◌==◌, or_else, if◌then◌else◌, find_first, Result, ok,
  or_throw, ◌>>=◌,
}
use fuel_chain.Base.Int.{ℤ, pos, ◌-ℤ◌, ltb_ℤ, min_ℤ}
use fuel_chain.Base.Number.{finite}
use fuel_chain.Schema.{
  station_staff, same_role, BatonStatus, is_active, Exception, baton_already_consumed,
  row_not_found, reception_refused, quality_missing,
}
use fuel_chain.Schema
use fuel_chain.Accounting.{next_cistern_load}
use fuel_chain.Tank.{Stock, apply_stock_delta}
use fuel_chain.Store.{
  Db, Station, Delivery, Cistern, StorageTank, Checkpoint, Measurement, arrival_station,
  station_by_id, update_cistern, update_tank, update_station, append,
}
use fuel_chain.Custody.Accept.Handover.{Ready, quality_density, quality_temperature, quality_water}

abbrev pub cistern_key : Ready → Option Delivery → Option ℕ
cistern_key p d = or_else p.baton.cistern_id (elim d [ none ↦ none | some r ↦ some r.cistern_id ])

-- A cistern with less than a litre left is free again.
abbrev pub unloaded : ℤ → Cistern → Cistern
unloaded next c = record c {
  current_load = next;
  status =
      if ltb_ℤ next (pos 1000) then Schema.CisternStatus.available else Schema.CisternStatus.loaded;
  current_batch_id = if ltb_ℤ next (pos 1000) then none else c.current_batch_id;
}

unfoldable pub unload_cistern : Ready → Option Cistern → Db → Result Exception Db
unload_cistern p none db = ok db
unload_cistern p (some c) db =
    let unload = min_ℤ p.received c.current_load in
    if ltb_ℤ (pos 0) unload
    then (next_cistern_load c.current_load (pos 0 -ℤ unload) >>= λ next.
        ok (record db { cisterns = update_cistern c.id (unloaded next) db.cisterns }))
    else ok db

abbrev pub is_at : ℕ → StorageTank → Bool
is_at k t = elim t.station_id [ none ↦ false | some j ↦ j == k ]

abbrev pub reading : Ready → Option Delivery → ℕ → ℤ → Measurement
reading p d tank_id volume = record {
  batch_id = p.baton.batch_id;
  tank_id = tank_id;
  volume_liters = volume;
  density = quality_density p d;
  temperature = quality_temperature p d;
  water = quality_water p d;
}

abbrev booked : Ready → Option Delivery → ℕ → StorageTank → Stock → Db → Db
booked p d k t stock db = record db {
  tanks =
      update_tank t.id (λ (r : StorageTank). record r { current_stock = stock.next_stock })
        db.tanks;
  stations =
      update_station k
        (λ (s : Station). record s {
          availability = stock.availability;
          last_inventory_at = some p.now;
        })
        db.stations;
  measurements = append (reading p d t.id stock.next_stock) db.measurements;
}

-- `tx.station.update` wants the row of the station.
unfoldable pub stock_found :
    Ready → Option Delivery → ℕ → Option StorageTank → Db → Result Exception Db
stock_found p d k none db = ok db
stock_found p d k (some t) db = do
  stock ← apply_stock_delta t.current_stock (finite p.received) t.capacity
  station ← or_throw (station_by_id k db) row_not_found
  ok (booked p d k t stock db)

-- The first tank of the station takes the volume.
unfoldable pub stock_tank : Ready → Option Delivery → ℕ → Db → Result Exception Db
unfolding stock_found
stock_tank p d k db = stock_found p d k (find_first (is_at k) db.tanks) db

abbrev arrival : Ready → Option Delivery → ℕ → Checkpoint
arrival p d cistern = record {
  kind = arrival_station;
  delivery_id = elim d [ none ↦ none | some r ↦ some r.id ];
  cistern_id = cistern;
  batch_id = p.baton.batch_id;
  actor_id = p.actor.id;
  volume_liters = p.received;
  density = some (quality_density p d);
  temperature = some (quality_temperature p d);
  water = quality_water p d;
  client_event_id = none;
  captured_at = p.now;
}

-- The arrival is recorded where the cistern and the row of the station are known.
unfoldable pub record_arrival : Ready → Option Delivery → Option ℕ → Option Station → Db → Db
record_arrival p d (some cistern) (some station) db = record db {
  checkpoints = append (arrival p d cistern) db.checkpoints;
}
record_arrival p d _ _ db = db

unfoldable pub stock_at : Ready → Option Delivery → Option ℕ → Db → Result Exception Db
stock_at p d none db = ok db
stock_at p d (some k) db = do
  stocked ← stock_tank p d k db
  ok (record_arrival p d (cistern_key p d) (station_by_id k db) stocked)

unfoldable pub stock_station : Ready → Option Delivery → Db → Result Exception Db
unfolding stock_at
stock_station p d db = stock_at p d p.station_id db
