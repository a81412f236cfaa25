-- ===== src/Movement.antt =====
-- The comparison of what one handover declared with what it measured:
-- apps/api/src/batches/movement-reconciliation.ts. Volumes are millilitres, tolerances are
-- thousandths of a millilitre.
pub mod Verdict
use fuel_chain.Base.{
  ℕ, ◌*◌, ◌<◌, ◌≡◌, Bool, true, false, ◌==◌, leb, ltb, Option, none, some, List, [], ◌∷◌, map,
  if◌then◌else◌, filter,
}
use fuel_chain.Base.Int.{ℤ, pos, ◌-ℤ◌, scale, leb_ℤ, max_ℤ, abs}
use fuel_chain.Base.Number.{Number, finite?}

pub data MovementReconStatus : Type 0 where
  match within_tolerance anomaly incomplete : MovementReconStatus

pub record MovementReconciliation : Type 0 where
  pub custody_event_id : Option ℕ
  pub expected_liters : Option ℤ
  pub received_liters : Option ℤ
  pub difference_liters : Option ℤ
  pub abs_difference_liters : Option ℕ
  pub status : MovementReconStatus
  pub tolerance : Option ℤ

-- A missing value and one that is not finite are both `null`.
unfoldable pub to_num : Option Number → Option ℤ
to_num none = none
to_num (some v) = finite? v

-- The larger of 0.5 % of what is expected and 20 L.
unfoldable pub demo_tolerance : ℤ → ℤ
demo_tolerance expected = max_ℤ (scale 5 expected) (pos 20000000)

-- `abs < 0.0005` L is half a millilitre; the tolerance is compared in thousandths of a millilitre.
unfoldable pub verdict : ℕ → ℤ → MovementReconStatus
verdict difference tolerance =
    if ltb (2 * difference) 1
    then match
    else (if leb_ℤ (pos (1000 * difference)) tolerance then within_tolerance else anomaly)

unfoldable pub reconciled : Option ℕ → Option ℤ → Option ℤ → MovementReconciliation
reconciled event (some expected) (some received) =
    let difference = received -ℤ expected in
    record {
      custody_event_id = event;
      expected_liters = some expected;
      received_liters = some received;
      difference_liters = some difference;
      abs_difference_liters = some (abs difference);
      status = verdict (abs difference) (demo_tolerance expected);
      tolerance = some (demo_tolerance expected);
    }
reconciled event (some expected) none = record {
  custody_event_id = event;
  expected_liters = some expected;
  received_liters = none;
  difference_liters = none;
  abs_difference_liters = none;
  status = incomplete;
  tolerance = some (demo_tolerance expected);
}
reconciled event none received = record {
  custody_event_id = event;
  expected_liters = none;
  received_liters = received;
  difference_liters = none;
  abs_difference_liters = none;
  status = incomplete;
  tolerance = none;
}

unfoldable pub reconcile_movement :
    Option Number → Option Number → Option ℕ → MovementReconciliation
reconcile_movement expected received event = reconciled event (to_num expected) (to_num received)

pub data CustodyEventType : Type 0 where
  created loaded inspected in_transit entered_country customs received sampled : CustodyEventType
  lab_analysis certified stored dispatched delivered : CustodyEventType

abbrev pub is_received : CustodyEventType → Bool
is_received received = true
is_received _ = false

abbrev pub is_stored : CustodyEventType → Bool
is_stored stored = true
is_stored _ = false

-- What the reconciliation reads of a custody event.
pub record CustodyLike : Type 0 where
  pub id : Option ℕ
  pub event_type : CustodyEventType
  pub declared_volume : Option Number
  pub measured_volume : Option Number

unfoldable pub reconcile_event : CustodyLike → MovementReconciliation
reconcile_event e = reconcile_movement e.declared_volume e.measured_volume e.id

unfoldable pub reconcile_received_events : List CustodyLike → List MovementReconciliation
reconcile_received_events events =
    map reconcile_event (filter (λ (e : CustodyLike). is_received e.event_type) events)
