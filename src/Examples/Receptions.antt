-- ===== src/Examples/Receptions.antt =====
-- Receptions and offline events in the small database.
use fuel_chain.Custody.Fuel.{fuel}
use fuel_chain.Custody.Fuel.Receptions.{taken, commit-fuel}
use fuel_chain.Examples.{start-IsIndexed, cistern}
use fuel_chain.Base.{
  false, err, ◌≤◌, ◌≡◌, refl, true, none, some, [], ◌∷◌, find_first, ok, err, arith,
}
use fuel_chain.Base.Int.{pos, ◌+ℤ◌, ◌-ℤ◌, ◌≤ℤ◌, ◌<ℤ◌, min_ℤ}
use fuel_chain.Schema
use fuel_chain.Schema.{row_not_found}
use fuel_chain.BatchStatus.{can_receive_batch, can_transition}
use fuel_chain.Accounting.{next_cistern_load}
use fuel_chain.Tank.{apply_stock_delta, stock_of, fill_ratio_of, availability_from_fill_ratio}
use fuel_chain.Settlement.{settlement_create_data, settlement_amount_cents}
use fuel_chain.Store.{Db, Batch, batch_by_id, delivery_by_id}
use fuel_chain.Custody.Payload.{
  Payload, text, num, core_from_embedded, assert_embedded_signature, secret,
}
use fuel_chain.Custody.Keys.{IsKeyed}
use fuel_chain.Custody.Accept.{
  AcceptInput, receiving_station, check_request, check_status, token_of, check_embedded,
  obtain_baton,
}
use fuel_chain.Custody.Accept.Handover.{
  consume, credit_batch, next_status, add_event, require_quality, ensure_settlement, close_delivery,
}
use fuel_chain.Custody.Accept.Stocking.{
  unload_cistern, stock_found, stock_tank, record_arrival, stock_at, stock_station, is_at,
}
use fuel_chain.Custody.Accept.Commit.{commit}
use fuel_chain.Custody.Accept.Effects.{commit-credit, credited}
use fuel_chain.Custody.Accept.Delivered.{commit-stock}
use fuel_chain.Custody.Accept.Settled.{commit-settlement, settled}
use fuel_chain.Custody.Once.{receive, import, expire, receptions, kept, receptions-le}
use fuel_chain.Custody.Reception.{accept, ready_of}
use fuel_chain.Custody.Sync.{Item, sync_one}
use fuel_chain.Custody.Sync.Idempotent.{sync_one-again}
use fuel_chain.Examples.{config, tank, delivery, baton, start, staff, driver, ready}

start-IsKeyed : IsKeyed start
start-IsKeyed = record { below = (omega arith, tt); unique = λ k. ground arith }

receptions-le_example :
    receptions 6 (receive ready ∷ expire 6 ∷ import config none "tok" ∷ receive ready ∷ []) start
    ≤ 1
receptions-le_example =
    receptions-le 6 (receive ready ∷ expire 6 ∷ import config none "tok" ∷ receive ready ∷ []) start
      start-IsKeyed

abbrev arrived : Db
arrived = kept start (commit ready start)

ready-commits : commit ready start ≡ ok arrived
unfolding commit consume credit_batch next_status add_event require_quality ensure_settlement
    close_delivery unload_cistern stock_found stock_tank record_arrival stock_at stock_station
    next_cistern_load apply_stock_delta stock_of fill_ratio_of availability_from_fill_ratio
    can_receive_batch can_transition settlement_create_data settlement_amount_cents ◌+ℤ◌ ◌-ℤ◌ min_ℤ
ready-commits = refl

commit-stock_example :
    (pos 0 <ℤ pos 3990000)
    × (pos 1000000 +ℤ pos 3990000 ≤ℤ pos 20000000)
    × (find_first (is_at 3) arrived.tanks
        ≡ some (record tank { current_stock = pos 1000000 +ℤ pos 3990000 }))
commit-stock_example = commit-stock ready start arrived 3 tank ready-commits refl refl

commit-credit_example :
    (b : Batch) × (batch_by_id 1 start ≡ some b)
    × (can_receive_batch b.status ≡ true)
    × (batch_by_id 1 arrived ≡ some (credited b (pos 3990000)))
    × (can_transition b.status (credited b (pos 3990000)).status ≡ true)
commit-credit_example = commit-credit ready start arrived ready-commits

commit-settlement_example :
    (settled 5 arrived.settlements ≡ 1)
    × (delivery_by_id 5 arrived
        ≡ some (record delivery {
          status = Schema.DeliveryStatus.delivered;
          received_liters = some (pos 3990000);
          received_density = some (pos 7440);
          received_temperature = some (pos 2310);
          received_water = false;
          delivered_at = some 1000;
        }))
commit-settlement_example =
    commit-settlement ready start arrived 5 delivery ready-commits refl refl (omega arith)

abbrev by_token : AcceptInput
by_token = record {
  token_id = some "tok";
  embedded = none;
  station_code = none;
  received_volume = some (pos 3990000);
  received_density = none;
  received_temperature = none;
  received_water = none;
}

stationed : receiving_station none staff baton (some delivery) start ≡ ok (some 3)
unfolding receiving_station
stationed = refl

abbrev item : Item
item = record {
  client_event_id = "e-1";
  baton_token = some "tok";
  station_code = none;
  event_type = "ACCEPT_BATON";
  payload = ("receivedVolumeLiters", num (pos 3990000)) ∷ [];
}

sync_one-again_example :
    sync_one config item driver 2000 (sync_one config item staff 1000 start).1 ≡ (
      record {
        client_event_id = "e-1";
        status = (sync_one config item staff 1000 start).0.status;
        reason = none;
      },
      (sync_one config item staff 1000 start).1,
    )
sync_one-again_example = sync_one-again config item staff driver 1000 2000 start

abbrev sealed : Payload
sealed = ("id", text "tok") ∷ ("h", text "id") ∷ ("s", text "mac-id") ∷ []

sealed-ok : assert_embedded_signature config sealed ≡ ok tt
unfolding assert_embedded_signature core_from_embedded secret
sealed-ok = refl

commit-fuel_example : fuel arrived +ℤ taken (pos 3990000) cistern ≡ fuel start +ℤ pos 3990000
commit-fuel_example =
    commit-fuel ready start arrived 3 2 tank cistern start-IsIndexed ready-commits refl refl refl
      refl

abbrev measured : AcceptInput
measured = record by_token {
  received_density = some (pos 7440);
  received_temperature = some (pos 2310);
  received_water = some false;
}

-- What is awaited after the transaction fails: the call fails, and the fuel has moved.
late_failure :
    accept (record config { follow_up = λ token now. err row_not_found }) measured staff 1000 start
    ≡ (err row_not_found, arrived)
unfolding accept check_request token_of check_embedded obtain_baton check_status ready_of
    receiving_station
late_failure = rw ready-commits refl
