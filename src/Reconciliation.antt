-- ===== src/Reconciliation.antt =====
-- The quantities of a batch's passport: apps/api/src/batches/reconciliation.ts.
use fuel_chain.Base.{◌≡◌, Bool, Option, none, some, List, [], ◌∷◌, get_or, or_else, if◌then◌else◌}
use fuel_chain.Base.Int.{ℤ, pos, ◌+ℤ◌, ◌-ℤ◌, int_laws}
use fuel_chain.Base.Number.{Number}
use fuel_chain.Movement.{
  CustodyEventType, CustodyLike, MovementReconciliation, is_received, is_stored, to_num, reconciled,
  reconcile_movement, reconcile_event, reconcile_received_events,
}

-- The volume of the last event of a kind that has one, what it measured before what it declared.
unfoldable pub volume_from_custody : (CustodyEventType → Bool) → List CustodyLike → Option ℤ
volume_from_custody wanted [] = none
volume_from_custody wanted (e ∷ es) = or_else (volume_from_custody wanted es) (
    if wanted e.event_type
    then or_else (to_num e.measured_volume) (to_num e.declared_volume)
    else none)

pub data StepKey : Type 0 where
  declared received stored sensor : StepKey

pub record Delta : Type 0 where
  pub from : StepKey
  pub to : StepKey
  pub difference_liters : ℤ

-- `steps.filter((s) => s.liters !== null)`
unfoldable pub present : List (StepKey × Option ℤ) → List (StepKey × ℤ)
present [] = []
present ((k, none) ∷ steps) = present steps
present ((k, some v) ∷ steps) = (k, v) ∷ present steps

-- The differences between neighbours, the first of them `before`.
unfoldable pub deltas_from : StepKey × ℤ → List (StepKey × ℤ) → List Delta
deltas_from before [] = []
deltas_from (j, u) ((k, v) ∷ rest) =
    record { from = j; to = k; difference_liters = v -ℤ u } ∷ deltas_from (k, v) rest

unfoldable pub deltas_of : List (StepKey × ℤ) → List Delta
unfolding deltas_from
deltas_of [] = []
deltas_of (first ∷ rest) = deltas_from first rest

-- The sum of the differences that are known.
unfoldable pub movement_gap : List MovementReconciliation → ℤ
movement_gap [] = pos 0
movement_gap (m ∷ ms) = get_or m.difference_liters (pos 0) +ℤ movement_gap ms

pub record QuantityReconciliation : Type 0 where
  pub declared_liters : ℤ
  pub received_liters : Option ℤ
  pub stored_liters : Option ℤ
  pub sensor_liters : Option ℤ
  pub steps : List (StepKey × Option ℤ)
  pub deltas : List Delta
  pub movements : List MovementReconciliation
  pub total_gap_liters : ℤ

-- `measurements[0]`
unfoldable pub latest_volume : List Number → Option ℤ
latest_volume [] = none
latest_volume (v ∷ rest) = to_num (some v)

unfoldable pub steps_of : ℤ → Option ℤ → Option ℤ → Option ℤ → List (StepKey × Option ℤ)
steps_of d r s m = (declared, some d) ∷ (received, r) ∷ (stored, s) ∷ (sensor, m) ∷ []

-- The sum over no movement is 0, as the code writes out.
unfoldable pub build_quantity_reconciliation :
    Number → List CustodyLike → List Number → QuantityReconciliation
build_quantity_reconciliation declared_volume events measurements =
    let d = get_or (to_num (some declared_volume)) (pos 0) in
    let r = volume_from_custody is_received events in
    let s = volume_from_custody is_stored events in
    let m = latest_volume measurements in
    record {
      declared_liters = d;
      received_liters = r;
      stored_liters = s;
      sensor_liters = m;
      steps = steps_of d r s m;
      deltas = deltas_of (present (steps_of d r s m));
      movements = reconcile_received_events events;
      total_gap_liters = movement_gap (reconcile_received_events events);
    }

-- The last value of a series.
abbrev pub last_value : ℤ → List (StepKey × ℤ) → ℤ
last_value u [] = u
last_value u ((k, v) ∷ rest) = last_value v rest

abbrev pub sum_deltas : List Delta → ℤ
sum_deltas [] = pos 0
sum_deltas (d ∷ ds) = d.difference_liters +ℤ sum_deltas ds

deltas_from-sum :
    (j : StepKey) (u : ℤ) (rest : List (StepKey × ℤ))
    → u +ℤ sum_deltas (deltas_from (j, u) rest) ≡ last_value u rest
unfolding deltas_from
deltas_from-sum j u [] = omega int_laws
deltas_from-sum j u ((k, v) ∷ rest) = rw (← deltas_from-sum k v rest) (omega int_laws)

-- The differences from step to step add up to what lies between the declared volume and the last
-- step whose volume is known: no litre is counted twice or dropped between two steps.
pub build_quantity_reconciliation-deltas :
    (declared_volume : Number) (events : List CustodyLike) (measurements : List Number)
    → let q = build_quantity_reconciliation declared_volume events measurements in
      q.declared_liters +ℤ sum_deltas q.deltas ≡ last_value q.declared_liters (present q.steps)
unfolding build_quantity_reconciliation steps_of deltas_of present
build_quantity_reconciliation-deltas declared_volume events measurements =
    deltas_from-sum declared (get_or (to_num (some declared_volume)) (pos 0)) (
      present (
        (received, volume_from_custody is_received events)
        ∷ (stored, volume_from_custody is_stored events)
        ∷ (sensor, latest_volume measurements)
        ∷ []))

-- The volumes of the receptions of which both are known.
abbrev pub sum_complete : (Option ℤ → Option ℤ → ℤ) → List CustodyLike → ℤ
sum_complete pick [] = pos 0
sum_complete pick (e ∷ es) =
    let rest = sum_complete pick es in
    if is_received e.event_type
    then pick (to_num e.declared_volume) (to_num e.measured_volume) +ℤ rest
    else rest

abbrev pub expected_of : Option ℤ → Option ℤ → ℤ
expected_of (some e) (some r) = e
expected_of _ _ = pos 0

abbrev pub received_of : Option ℤ → Option ℤ → ℤ
received_of (some e) (some r) = r
received_of _ _ = pos 0

gap_of_event :
    (e : CustodyLike)
    → expected_of (to_num e.declared_volume) (to_num e.measured_volume)
        +ℤ get_or (reconcile_event e).difference_liters (pos 0)
      ≡ received_of (to_num e.declared_volume) (to_num e.measured_volume)
unfolding reconcile_event reconcile_movement
gap_of_event e = known (to_num e.declared_volume) (to_num e.measured_volume)
  where
    known :
        (x y : Option ℤ)
        → expected_of x y +ℤ get_or (reconciled e.id x y).difference_liters (pos 0)
          ≡ received_of x y
    known none y = unfold reconciled in omega int_laws
    known (some x) none = unfold reconciled in omega int_laws
    known (some x) (some y) = unfold reconciled in omega int_laws

-- The gap of a batch is what its receptions measured less what they declared, over the receptions
-- of which both volumes are known; no other event counts.
pub build_quantity_reconciliation-gap :
    (declared_volume : Number) (events : List CustodyLike) (measurements : List Number)
    → sum_complete expected_of events
        +ℤ (build_quantity_reconciliation declared_volume events measurements).total_gap_liters
      ≡ sum_complete received_of events
unfolding build_quantity_reconciliation reconcile_received_events movement_gap
build_quantity_reconciliation-gap d [] ms = omega int_laws
build_quantity_reconciliation-gap d (e ∷ es) ms =
    grind (int_laws, gap_of_event e, build_quantity_reconciliation-gap d es ms)
