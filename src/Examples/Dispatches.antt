-- ===== src/Examples/Dispatches.antt =====
-- A dispatch in the small database, its payload, and the roles and settlements around it.
use fuel_chain.Custody.Fuel.{fuel, issue-fuel}
use fuel_chain.Examples.{start-IsIndexed}
use fuel_chain.Base.{◌≡◌, refl, true, false, none, some, [], ◌∷◌, ok, arith}
use fuel_chain.Base.Text.{trim}
use fuel_chain.Base.Int.{pos, ◌+ℤ◌, ◌-ℤ◌, ◌≤ℤ◌, max_ℤ}
use fuel_chain.Schema
use fuel_chain.Schema.{
  Exception, admin, station_staff, citizen, same_role, login_required, role_forbidden,
}
use fuel_chain.BatchStatus.{can_issue_qr, can_receive_batch, can_transition}
use fuel_chain.Accounting.{remaining_batch_liters, assert_cistern_can_load, next_cistern_load}
use fuel_chain.Tank.{apply_stock_withdraw, stock_of, fill_ratio_of, availability_from_fill_ratio}
use fuel_chain.Settlement.{Settlement}
use fuel_chain.Store.{Db, Actor, Batch, batch_by_id}
use fuel_chain.Custody.Payload.{secret}
use fuel_chain.Custody.Accept.{check_embedded}
use fuel_chain.Custody.Issue.{IssueInput, Plan, plan_issue, remaining_of, reserved, vehicle_of}
use fuel_chain.Custody.Issue.Baton.{Draw, payload_of}
use fuel_chain.Custody.Issue.Dispatch.{
  Order, dispatch, open_delivery, load_cistern, draw_depot, create_baton_row, record_dispatch,
  start_transit, depot_tank,
}
use fuel_chain.Custody.Issue.Sealed.{payload_of-accepted}
use fuel_chain.Custody.Issue.Effects.{dispatch-receivable}
use fuel_chain.Custody.Issue.Request.{issue, issue-bounds, order_of}
use fuel_chain.Custody.Once.{kept}
use fuel_chain.Access.{can_activate, roles_allowed, qr_issue, qr_accept}
use fuel_chain.Payments.{mark_paid}
use fuel_chain.Examples.{config, other_batch, free_cistern, delivery, start, staff}

abbrev request : IssueInput
request = record {
  batch_code = "B-8";
  event_type = "IN_TRANSIT";
  volume_liters = pos 400000;
  cistern_code = some "C-12";
  station_code = some "EESS-3";
  previous_hash = none;
  load_density = none;
  load_temperature = none;
  load_water = false;
}

abbrev draw : Draw
draw = record { token = "tok-2"; nonce = "n"; now = 5000 }

abbrev boss : Actor
boss = record {
  id = 20;
  role = admin;
  station_id = none;
  station_code = none;
  cistern_id = none;
  cistern_code = none;
}

abbrev plan : Plan
plan = record { batch = other_batch; cistern = free_cistern; station_id = 3; vehicle_id = none }

abbrev order : Order
order = order_of config request boss draw plan

abbrev sent : Db
sent = kept start (dispatch order start)

order-commits : dispatch order start ≡ ok sent
unfolding dispatch open_delivery load_cistern draw_depot create_baton_row record_dispatch
    start_transit depot_tank next_cistern_load apply_stock_withdraw stock_of fill_ratio_of
    availability_from_fill_ratio can_transition ◌+ℤ◌ ◌-ℤ◌
order-commits = refl

request-planned : plan_issue config request boss start ≡ ok plan
unfolding plan_issue secret can_issue_qr trim remaining_of remaining_batch_liters
    assert_cistern_can_load vehicle_of ◌+ℤ◌ ◌-ℤ◌ max_ℤ
request-planned = refl

request-issued :
    issue config request boss draw start ≡ ok (payload_of config request boss draw plan, sent)
unfolding issue
request-issued = rw (request-planned, order-commits) refl

issue-bounds_example :
    (p : Plan) × (plan_issue config request boss start ≡ ok p)
    × (reserved p.batch.id sent.deliveries ≡ reserved p.batch.id start.deliveries +ℤ pos 400000)
    × (p.batch.delivered_liters +ℤ reserved p.batch.id sent.deliveries
        ≤ℤ max_ℤ p.batch.declared_volume
            (p.batch.delivered_liters +ℤ reserved p.batch.id start.deliveries)
          +ℤ pos 1)
issue-bounds_example =
    issue-bounds config request boss draw start sent (payload_of config request boss draw plan)
      request-issued

issuable : can_issue_qr other_batch.status ≡ true
unfolding can_issue_qr
issuable = refl

dispatch-receivable_example :
    (b : Batch) × (batch_by_id 8 sent ≡ some b) × (can_receive_batch b.status ≡ true)
dispatch-receivable_example = dispatch-receivable order start sent issuable refl order-commits

payload_of-accepted_example :
    check_embedded config (some (payload_of config request boss draw plan)) 9000 ≡ ok tt
payload_of-accepted_example =
    payload_of-accepted config request boss draw plan 9000 refl (omega arith)

boss-issues : can_activate (some (roles_allowed qr_issue)) (some boss) ≡ ok tt
unfolding can_activate roles_allowed
boss-issues = refl

boss-accepts : can_activate (some (roles_allowed qr_accept)) (some boss) ≡ ok tt
unfolding can_activate roles_allowed
boss-accepts = refl

abbrev neighbour : Actor
neighbour = record {
  id = 30;
  role = citizen;
  station_id = none;
  station_code = none;
  cistern_id = none;
  cistern_code = none;
}

abbrev owed : Settlement
owed = record {
  id = 40;
  delivery_id = 5;
  driver_id = some 11;
  cistern_id = 2;
  station_id = 3;
  batch_id = 1;
  liters = pos 4000000;
  amount_cents = 140000;
  status = Schema.SettlementStatus.pending;
  paid_at = none;
  paid_by_id = none;
}

abbrev owing : Db
owing = record start {
  settlements = owed ∷ [];
  deliveries = record delivery { status = Schema.DeliveryStatus.delivered } ∷ [];
}

abbrev settled_row : Settlement
settled_row = record owed {
  status = Schema.SettlementStatus.paid;
  paid_at = some 7000;
  paid_by_id = some 10;
}

staff-pays : (mark_paid 40 staff 7000 owing).0 ≡ ok settled_row
unfolding mark_paid
staff-pays = refl

issue-fuel_example : fuel sent ≡ fuel start
issue-fuel_example =
    issue-fuel config request boss draw start sent (payload_of config request boss draw plan)
      start-IsIndexed request-issued
