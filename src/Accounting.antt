-- ===== src/Accounting.antt =====
-- The litres of a batch that may still be dispatched, and the load of a cistern:
-- apps/api/src/common/delivery-accounting.ts. Volumes are millilitres.
use fuel_chain.Base.{◌≡◌, Option, none, some, if◌then◌else◌, Result, ok, err, arith}
use fuel_chain.Base.Int.{ℤ, pos, ◌+ℤ◌, ◌-ℤ◌, ◌≤ℤ◌, ◌<ℤ◌, ltb_ℤ, leb_ℤ, max_ℤ, +ℤ_parts, -ℤ_parts}
use fuel_chain.Base.Number.{Number, finite}
use fuel_chain.Schema.{Exception, load_not_positive, cistern_full, cistern_negative}

unfoldable pub remaining_batch_liters : Number → ℤ → ℤ → ℤ
remaining_batch_liters (finite declared) delivered reserved =
    if leb_ℤ declared (pos 0) then pos 0 else max_ℤ (pos 0) (declared -ℤ delivered -ℤ reserved)
remaining_batch_liters _ delivered reserved = pos 0

-- `none` where the function returns. The 0.001 L that the test allows is one millilitre.
unfoldable pub assert_cistern_can_load : ℤ → ℤ → Number → Option Exception
assert_cistern_can_load capacity current (finite load) =
    if leb_ℤ load (pos 0)
    then some load_not_positive
    else (if ltb_ℤ (capacity +ℤ pos 1) (current +ℤ load) then some cistern_full else none)
assert_cistern_can_load capacity current _ = some load_not_positive

unfoldable pub next_cistern_load : ℤ → ℤ → Result Exception ℤ
next_cistern_load current delta =
    if ltb_ℤ (current +ℤ delta) (pos 0) then err cistern_negative else ok (current +ℤ delta)

-- What is left of a batch is never negative, and together with what was delivered and what is on
-- the road it is no more than the declared volume, or than those two where they exceed it.
pub remaining_batch_liters_bounds :
    (d del res : ℤ)
    → (pos 0 ≤ℤ remaining_batch_liters (finite d) del res)
      × (remaining_batch_liters (finite d) del res +ℤ (del +ℤ res) ≤ℤ max_ℤ d (del +ℤ res))
unfolding remaining_batch_liters max_ℤ
remaining_batch_liters_bounds d del res = ground (
  arith,
  -ℤ_parts d del,
  -ℤ_parts (d -ℤ del) res,
  +ℤ_parts del res,
  +ℤ_parts (d -ℤ del -ℤ res) (del +ℤ res),
  +ℤ_parts (pos 0) (del +ℤ res),
)

-- A load that the check lets through, of a cistern with no negative load, fills the cistern to its
-- capacity at most, or one millilitre more, and is booked on it as it is.
pub load_fits :
    (capacity current load : ℤ)
    → pos 0 ≤ℤ current
    → assert_cistern_can_load capacity current (finite load) ≡ none
    → (pos 0 <ℤ load)
      × (next_cistern_load current load ≡ ok (current +ℤ load))
      × (current +ℤ load ≤ℤ capacity +ℤ pos 1)
unfolding assert_cistern_can_load next_cistern_load
load_fits capacity current load h e =
    ground (arith, +ℤ_parts current load, +ℤ_parts capacity (pos 1))
