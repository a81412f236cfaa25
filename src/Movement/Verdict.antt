-- ===== src/Movement/Verdict.antt =====
-- What the verdict on a handover means.
use fuel_chain.Base.{ℕ, ◌*◌, ◌<◌, ◌≡◌, ◌≢◌, ◌⊎◌, ◌↔◌, arith, Option, none, some}
use fuel_chain.Base.Int.{ℤ, pos, ◌-ℤ◌, ◌<ℤ◌, scale, max_ℤ, abs, scale_parts, eq_of_parts}
use fuel_chain.Base.Number.{Number, finite}
use fuel_chain.Movement.{
  match, anomaly, incomplete, verdict, demo_tolerance, reconciled, reconcile_movement, to_num,
}

-- The gap between what was declared and what was measured, and what 0.5 % of the declared volume is.
abbrev pub gap : ℤ → ℤ → ℕ
gap expected received = abs (received -ℤ expected)

-- A handover of which both volumes are known is a match exactly when they are equal.
pub reconcile_movement-match :
    (e r : ℤ) (event : Option ℕ)
    → ((reconcile_movement (some (finite e)) (some (finite r)) event).status ≡ match) ↔ (e ≡ r)
unfolding reconcile_movement to_num reconciled verdict ◌-ℤ◌
reconcile_movement-match e r event = ground (arith, eq_of_parts e r)

-- A handover of which both volumes are known is an anomaly exactly when the gap exceeds 20 L and
-- 0.5 % of the declared volume, and it never counts as incomplete.
pub reconcile_movement-anomaly :
    (e r : ℤ) (event : Option ℕ)
    → let m = reconcile_movement (some (finite e)) (some (finite r)) event in
      ((m.status ≡ anomaly) ↔ ((20000 < gap e r) × (scale 5 e <ℤ pos (1000 * gap e r))))
      × (m.status ≢ incomplete)
      × (m.abs_difference_liters ≡ some (gap e r))
unfolding reconcile_movement to_num reconciled verdict demo_tolerance max_ℤ
reconcile_movement-anomaly e r event = ground (arith, scale_parts 5 e)

-- A handover counts as incomplete exactly when one of its volumes is missing or is not finite.
pub reconcile_movement-incomplete :
    (e r : Option Number) (event : Option ℕ)
    → ((reconcile_movement e r event).status ≡ incomplete) ↔ ((to_num e ≡ none) ⊎ (to_num r ≡ none))
unfolding reconcile_movement reconciled verdict
reconcile_movement-incomplete e r event = known (to_num e) (to_num r)
  where
    known :
        (x y : Option ℤ) → ((reconciled event x y).status ≡ incomplete) ↔ ((x ≡ none) ⊎ (y ≡ none))
    known none y = ground arith
    known (some x) none = ground arith
    known (some x) (some y) = ground arith
