-- ===== src/Tank.antt =====
-- The stock of a tank: apps/api/src/common/tank-inventory.ts. Volumes are millilitres.
pub mod Levels
pub mod Burn
use fuel_chain.Base.{
  ℕ, ◌*◌, ◌-◌, Option, none, some, Bool, ◌||◌, ltb, if◌then◌else◌, Result, ok, err,
}
use fuel_chain.Base.Int.{ℤ, pos, pos_part, ◌+ℤ◌, ◌-ℤ◌, scale, ltb_ℤ, leb_ℤ, max_ℤ, min_ℤ}
use fuel_chain.Base.Number.{Number, finite}
use fuel_chain.Schema.{
  Availability, full, medium, low, empty, Exception, received_not_positive, tank_full,
  withdraw_not_positive, insufficient_stock,
}

-- A quotient of two volumes; the divisor is above 0.
pub record Ratio : Type 0 where
  pub num : ℤ
  pub den : ℕ

unfoldable pub availability_from_fill_ratio : Ratio → Availability
availability_from_fill_ratio r =
    if leb_ℤ (pos (70 * r.den)) (scale 100 r.num)
    then full
    else (if leb_ℤ (pos (35 * r.den)) (scale 100 r.num)
        then medium
        else (if ltb_ℤ (pos (5 * r.den)) (scale 100 r.num) then low else empty))

pub record Stock : Type 0 where
  pub previous_stock : ℤ
  pub moved : ℤ
  pub next_stock : ℤ
  pub fill_ratio : Ratio
  pub availability : Availability

-- `capNum > 0 ? next / capNum : 0`
unfoldable pub fill_ratio_of : ℤ → ℤ → Ratio
fill_ratio_of capacity next =
    if ltb_ℤ (pos 0) capacity
    then record { num = next; den = pos_part capacity }
    else record { num = pos 0; den = 1 }

unfoldable pub stock_of : ℤ → ℤ → ℤ → ℤ → Stock
stock_of capacity previous moved next = record {
  previous_stock = previous;
  moved = moved;
  next_stock = next;
  fill_ratio = fill_ratio_of capacity next;
  availability = availability_from_fill_ratio (fill_ratio_of capacity next);
}

unfoldable pub apply_stock_delta : ℤ → Number → ℤ → Result Exception Stock
apply_stock_delta previous (finite received) capacity =
    let next = previous +ℤ received in
    if leb_ℤ received (pos 0)
    then err received_not_positive
    else (if ltb_ℤ capacity next
        then err tank_full
        else ok (stock_of capacity previous received next))
apply_stock_delta previous _ capacity = err received_not_positive

unfoldable pub apply_stock_withdraw : ℤ → Number → ℤ → Result Exception Stock
apply_stock_withdraw previous (finite withdraw) capacity =
    if leb_ℤ withdraw (pos 0)
    then err withdraw_not_positive
    else (if ltb_ℤ previous withdraw
        then err insufficient_stock
        else ok (stock_of capacity previous withdraw (previous -ℤ withdraw)))
apply_stock_withdraw previous _ capacity = err withdraw_not_positive

-- The burn is a fraction of a millilitre: `units` of it make one. It is 24 * 3600000 * 50, so that
-- 2 % of the capacity in a day is the capacity times the milliseconds, and 4 % is `floor_units`.
abbrev pub units : ℕ
units = 4320000000

abbrev pub floor_units : ℕ
floor_units = 172800000

unfoldable pub burn_units : ℤ → ℤ → ℕ → ℤ
burn_units stock capacity elapsed =
    let raw = scale elapsed capacity in
    let max_burn = max_ℤ (pos 0) (scale units stock -ℤ scale floor_units capacity) in
    min_ℤ (min_ℤ raw max_burn) (scale units stock)

-- `demoConsumptionLiters`, in `units` of a millilitre; the times are milliseconds.
unfoldable pub demo_consumption_units : ℤ → ℤ → Option ℕ → ℕ → ℤ
demo_consumption_units stock capacity none now = pos 0
demo_consumption_units stock capacity (some last) now =
    if leb_ℤ stock (pos 0) || leb_ℤ capacity (pos 0)
    then pos 0
    else (if ltb (now - last) 3600000 then pos 0 else burn_units stock capacity (now - last))
