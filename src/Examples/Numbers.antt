-- ===== src/Examples/Numbers.antt =====
-- The pure parts of the services at concrete values.
use fuel_chain.Base.{
  ◌*◌, ◌≤◌, ◌<◌, ◌≡◌, ◌≢◌, ◌↔◌, refl, true, false, none, some, List, [], ◌∷◌, ok, arith,
}
use fuel_chain.Base.Int.{pos, ◌+ℤ◌, ◌-ℤ◌, ◌<ℤ◌, scale}
use fuel_chain.Base.Number.{finite}
use fuel_chain.BatchStatus.{authorized, in_transit, at_border, number, can_transition}
use fuel_chain.BatchStatus.Machine.{Operates, Operates-iff}
use fuel_chain.Tank.{Stock, apply_stock_delta, apply_stock_withdraw, stock_of}
use fuel_chain.Accounting.{assert_cistern_can_load}
use fuel_chain.Movement
use fuel_chain.Movement.{MovementReconStatus, reconcile_movement, to_num, CustodyLike}
use fuel_chain.Movement.Verdict.{gap, reconcile_movement-anomaly}
use fuel_chain.Reconciliation.{
  build_quantity_reconciliation, sum_complete, expected_of, received_of,
  build_quantity_reconciliation-gap,
}
use fuel_chain.Journey.{Point}

forward_step : can_transition authorized in_transit ≡ true
unfolding can_transition
forward_step = refl

border_step : can_transition in_transit at_border ≡ true
unfolding can_transition
border_step = refl

Operates-iff_example :
    (Operates authorized at_border → number authorized ≤ number at_border)
    × (number authorized ≤ number at_border → Operates authorized at_border)
Operates-iff_example =
    Operates-iff authorized at_border (λ e. ground (arith, e)) (λ e. ground (arith, e))

abbrev filled : Stock
filled = stock_of (pos 9000) (pos 1000) (pos 500) (pos 1000 +ℤ pos 500)

fills : apply_stock_delta (pos 1000) (finite (pos 500)) (pos 9000) ≡ ok filled
unfolding apply_stock_delta ◌+ℤ◌
fills = refl

abbrev drawn : Stock
drawn = stock_of (pos 9000) (pos 1000) (pos 400) (pos 1000 -ℤ pos 400)

draws : apply_stock_withdraw (pos 1000) (finite (pos 400)) (pos 9000) ≡ ok drawn
unfolding apply_stock_withdraw ◌-ℤ◌
draws = refl

can_load : assert_cistern_can_load (pos 900) (pos 200) (finite (pos 700)) ≡ none
unfolding assert_cistern_can_load ◌+ℤ◌
can_load = refl

reconcile_movement-anomaly_example :
    let m = reconcile_movement (some (finite (pos 900000))) (some (finite (pos 800000))) none in
    ((m.status ≡ MovementReconStatus.anomaly) ↔ (
      (20000 < gap (pos 900000) (pos 800000))
      × (scale 5 (pos 900000) <ℤ pos (1000 * gap (pos 900000) (pos 800000)))))
    × (m.status ≢ MovementReconStatus.incomplete)
    × (m.abs_difference_liters ≡ some (gap (pos 900000) (pos 800000)))
reconcile_movement-anomaly_example = reconcile_movement-anomaly (pos 900000) (pos 800000) none

abbrev events : List CustodyLike
events =
    record {
      id = some 1;
      event_type = Movement.received;
      declared_volume = some (finite (pos 900));
      measured_volume = some (finite (pos 850));
    }
    ∷ record {
      id = some 2;
      event_type = Movement.received;
      declared_volume = some (finite (pos 100));
      measured_volume = none;
    }
    ∷ []

build_quantity_reconciliation-gap_example :
    sum_complete expected_of events
      +ℤ (build_quantity_reconciliation (finite (pos 1000)) events []).total_gap_liters
    ≡ sum_complete received_of events
build_quantity_reconciliation-gap_example =
    build_quantity_reconciliation-gap (finite (pos 1000)) events []

abbrev route : List Point
route =
    record {
      volume_liters = pos 3900;
      density = none;
      temperature = none;
      water = false;
      captured_at = 50;
    }
    ∷ record {
      volume_liters = pos 4000;
      density = none;
      temperature = none;
      water = false;
      captured_at = 10;
    }
    ∷ []
