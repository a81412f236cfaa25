-- ===== src/Examples/Stickers.antt =====
-- Scans and receptions by sticker, and the steps of a batch, in the small database.
use fuel_chain.Custody.Fuel.{fuel}
use fuel_chain.Custody.Fuel.Receptions.{taken}
use fuel_chain.Custody.Fuel.Stickers.{deliver-fuel}
use fuel_chain.Examples.{start-IsIndexed, tank}
use fuel_chain.Base.{◌≡◌, ◌≢◌, refl, false, some, none, [], ◌∷◌, ok, arith}
use fuel_chain.Base.Int.{pos, ◌+ℤ◌, ◌-ℤ◌, min_ℤ}
use fuel_chain.Base.Number.{nan}
use fuel_chain.Base.Text.{trim, trim_start, trim_end}
use fuel_chain.BatchStatus
use fuel_chain.Schema
use fuel_chain.BatchStatus.{can_receive_batch, can_transition}
use fuel_chain.Accounting.{next_cistern_load}
use fuel_chain.Tank.{
  apply_stock_delta, apply_stock_withdraw, stock_of, fill_ratio_of, availability_from_fill_ratio,
}
use fuel_chain.Settlement.{settlement_create_data, settlement_amount_cents}
use fuel_chain.Store.{Db, Batch, Delivery, batch_by_id, delivery_by_id}
use fuel_chain.Custody.Once.{kept}
use fuel_chain.Custody.Accept.Handover.{
  consume, credit_batch, next_status, add_event, require_quality, ensure_settlement, close_delivery,
}
use fuel_chain.Custody.Accept.Stocking.{
  unload_cistern, stock_found, stock_tank, record_arrival, stock_at, stock_station,
}
use fuel_chain.Custody.Accept.Commit.{commit}
use fuel_chain.Journey.Parse.{Platform}
use fuel_chain.Sticker.{resolve_cistern, active_delivery, demo_trail, ingest_one, scan_and_ingest}
use fuel_chain.Sticker.Again.{scan_and_ingest-again}
use fuel_chain.Sticker.Receive.{
  Arrival, close_trip, settle_trip, load_after, empty_cistern, fill_tank, record_point, credit_trip,
  deliver,
}
use fuel_chain.Sticker.Receive.Effects.{deliver-credit, deliver-once, deliver-commit}
use fuel_chain.Batches.{find_batch_or_throw}
use fuel_chain.Inspections.{CreateCustomsEvent, create_customs, create_customs-back}
use fuel_chain.Batches.Keys.{BatchKeyed}
use fuel_chain.Examples.{config, cistern, delivery, batch, start, staff, ready}

abbrev platform : Platform
platform = record {
  number_of = λ v. nan;
  time_of = λ s. 0;
  time_of_sec = λ z. 0;
  decimal = λ n. "n";
  key_text = λ n. "key";
}

abbrev scanned : Db
scanned = kept start (scan_and_ingest platform " qr-2 " staff [] 1000 start)

scan-ok : scan_and_ingest platform " qr-2 " staff [] 1000 start ≡ ok scanned
unfolding scan_and_ingest resolve_cistern active_delivery demo_trail ingest_one trim trim_start
    trim_end
scan-ok = refl

scan_and_ingest-again_example : scan_and_ingest platform " qr-2 " staff [] 1000 scanned ≡ ok scanned
scan_and_ingest-again_example =
    scan_and_ingest-again platform " qr-2 " staff [] 1000 start scanned scan-ok

abbrev trip : Arrival
trip = record {
  cistern = cistern;
  delivery = delivery;
  received = pos 3980000;
  density = pos 7440;
  temperature = pos 2310;
  water = false;
  actor = staff;
  now = 900;
}

abbrev stickered : Db
stickered = kept start (deliver platform trip start)

trip-ok : deliver platform trip start ≡ ok stickered
unfolding deliver close_trip settle_trip load_after empty_cistern fill_tank record_point credit_trip
    add_event apply_stock_delta apply_stock_withdraw stock_of fill_ratio_of
    availability_from_fill_ratio settlement_create_data settlement_amount_cents ◌+ℤ◌ ◌-ℤ◌ min_ℤ
trip-ok = refl

deliver-credit_example :
    (b : Batch) × (d : Delivery) × (batch_by_id 1 start ≡ some b)
    × (batch_by_id 1 stickered
        ≡ some (record b { delivered_liters = b.delivered_liters +ℤ pos 3980000 }))
    × (delivery_by_id 5 start ≡ some d)
    × (delivery_by_id 5 stickered
        ≡ some (record d {
          status = Schema.DeliveryStatus.delivered;
          received_liters = some (pos 3980000);
          received_density = some trip.density;
          received_temperature = some trip.temperature;
          received_water = trip.water;
          delivered_at = some trip.now;
        }))
    × (stickered.batons ≡ start.batons)
deliver-credit_example = deliver-credit platform trip start stickered trip-ok

deliver-once_example :
    deliver platform (record trip { received = pos 1000; now = 1500 }) stickered ≢ ok start
deliver-once_example =
    deliver-once platform trip (record trip { received = pos 1000; now = 1500 }) start stickered
      start trip-ok refl

abbrev twice : Db
twice = kept start (commit ready stickered)

twice-ok : commit ready stickered ≡ ok twice
unfolding deliver close_trip settle_trip load_after empty_cistern fill_tank record_point credit_trip
    add_event apply_stock_delta apply_stock_withdraw stock_of fill_ratio_of
    availability_from_fill_ratio settlement_create_data settlement_amount_cents ◌+ℤ◌ ◌-ℤ◌ min_ℤ
    commit consume credit_batch next_status require_quality ensure_settlement close_delivery
    unload_cistern stock_found stock_tank record_arrival stock_at stock_station next_cistern_load
    can_receive_batch can_transition
twice-ok = refl

-- 3980 and 3990 of the 4000 litres that were sent.
deliver-commit_example :
    (b : Batch) × (r : Batch) × (batch_by_id 1 start ≡ some b)
    × (batch_by_id 1 twice ≡ some r)
    × (r.delivered_liters ≡ (b.delivered_liters +ℤ pos 3980000) +ℤ pos 3990000)
deliver-commit_example =
    deliver-commit platform trip ready start stickered twice trip-ok twice-ok refl

abbrev ended : Db
ended = record start { batches = record batch { status = BatchStatus.delivered } ∷ [] }

abbrev inspected : CreateCustomsEvent
inspected = record { declared_volume = none; measured_volume = none; actor_id = none }

abbrev sent_back : Db
sent_back = kept start (create_customs config "B-1" inspected ended)

ended-BatchKeyed : BatchKeyed ended
ended-BatchKeyed = record { below = (omega arith, tt); unique = λ k. ground arith }

ended-found :
    find_batch_or_throw config "B-1" ended ≡ ok (record batch { status = BatchStatus.delivered })
unfolding find_batch_or_throw
ended-found = refl

inspected-ok : create_customs config "B-1" inspected ended ≡ ok sent_back
unfolding create_customs find_batch_or_throw
inspected-ok = refl

create_customs-back_example :
    let b = record batch { status = BatchStatus.delivered } in
    (batch_by_id 1 sent_back ≡ some (record b { status = BatchStatus.customs }))
    × (can_transition b.status BatchStatus.customs ≡ false)
create_customs-back_example =
    create_customs-back config "B-1" inspected ended sent_back
      (record batch { status = BatchStatus.delivered }) ended-BatchKeyed ended-found refl
      inspected-ok

deliver-fuel_example : fuel stickered +ℤ taken (pos 3980000) cistern ≡ fuel start +ℤ pos 3980000
deliver-fuel_example =
    deliver-fuel platform trip start stickered tank start-IsIndexed trip-ok refl refl
