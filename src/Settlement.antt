-- ===== src/Settlement.antt =====
-- The amount that a driver is owed for a delivery: apps/api/src/settlements/settlement-math.ts.
-- Litres are in millilitres, the amount is in cents of a Boliviano, the rate is 0.35 a litre.
use fuel_chain.Base.{ℕ, ◌+◌, ◌*◌, ◌/◌, ◌≤◌, ◌<◌, ◌≡◌, Option, arith}
use fuel_chain.Base.Int.{ℤ, pos, pos_part, max_ℤ}
use fuel_chain.Base.Number.{Number, finite}
use fuel_chain.Schema.{SettlementStatus, pending}

-- `Math.max(0, liters)` of a finite number, and 0 of any other
abbrev payable : Number → ℕ
payable (finite liters) = pos_part liters
payable _ = 0

-- `Math.round(n * 0.35 * 100) / 100`: half a cent is rounded up.
unfoldable pub settlement_amount_cents : Number → ℕ
settlement_amount_cents liters = (payable liters * 35 + 500) / 1000

pub record Settlement : Type 0 where
  pub id : ℕ
  pub delivery_id : ℕ
  pub driver_id : Option ℕ
  pub cistern_id : ℕ
  pub station_id : ℕ
  pub batch_id : ℕ
  pub liters : ℤ
  pub amount_cents : ℕ
  pub status : SettlementStatus
  pub paid_at : Option ℕ
  pub paid_by_id : Option ℕ

-- The columns that a new settlement starts with; `id` is the key that the database gives it.
unfoldable pub settlement_create_data : ℕ → ℕ → Option ℕ → ℕ → ℕ → ℕ → ℤ → Settlement
settlement_create_data id delivery_id driver_id cistern_id station_id batch_id liters =
    let payable_liters = max_ℤ (pos 0) liters in
    record {
      id = id;
      delivery_id = delivery_id;
      driver_id = driver_id;
      cistern_id = cistern_id;
      station_id = station_id;
      batch_id = batch_id;
      liters = payable_liters;
      amount_cents = settlement_amount_cents (finite payable_liters);
      status = pending;
      paid_at = Option.none;
      paid_by_id = Option.none;
    }

-- A settlement is never for a negative volume, and its amount is within half a cent of the volume
-- at the rate of 0.35 a litre, for every volume, the negative ones included, which are paid as 0.
pub settlement_create_data_amount :
    (id delivery cistern station batch : ℕ) (driver : Option ℕ) (liters : ℤ)
    → let s = settlement_create_data id delivery driver cistern station batch liters in
      (s.liters ≡ pos (pos_part liters))
      × (1000 * s.amount_cents ≤ 35 * pos_part liters + 500)
      × (35 * pos_part liters < 1000 * s.amount_cents + 500 + 1)
unfolding settlement_create_data settlement_amount_cents max_ℤ
settlement_create_data_amount id delivery cistern station batch driver liters = ground arith

-- Splitting a delivered volume in two changes what is paid by a cent at most.
pub settlement_amount_split :
    (a b : ℕ)
    → let whole = settlement_amount_cents (finite (pos (a + b))) in
      let parts =
        settlement_amount_cents (finite (pos a)) + settlement_amount_cents (finite (pos b)) in
      (whole ≤ parts + 1) × (parts ≤ whole + 1)
unfolding settlement_amount_cents
settlement_amount_split a b = omega arith
