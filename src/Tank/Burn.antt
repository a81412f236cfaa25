-- ===== src/Tank/Burn.antt =====
-- The simulated consumption of a station never empties its tank.
use fuel_chain.Base.{ℕ, ◌-◌, arith, Option, none, some}
use fuel_chain.Base.Int.{ℤ, pos, ◌-ℤ◌, ◌≤ℤ◌, scale, min_ℤ, max_ℤ}
use fuel_chain.Tank.{units, floor_units, burn_units, demo_consumption_units}

min_ℤ_le : (a b : ℤ) → (min_ℤ a b ≤ℤ a) × (min_ℤ a b ≤ℤ b)
unfolding min_ℤ
min_ℤ_le a b = ground arith

le_min_ℤ : (a b c : ℤ) → c ≤ℤ a → c ≤ℤ b → c ≤ℤ min_ℤ a b
unfolding min_ℤ
le_min_ℤ a b c h k = ground arith

max_ℤ_le : (a b c : ℤ) → a ≤ℤ c → b ≤ℤ c → max_ℤ a b ≤ℤ c
unfolding max_ℤ
max_ℤ_le a b c h k = ground arith

le_max_ℤ : (a b : ℤ) → (a ≤ℤ max_ℤ a b) × (b ≤ℤ max_ℤ a b)
unfolding max_ℤ
le_max_ℤ a b = ground arith

scale_nonneg : (k : ℕ) (a : ℤ) → pos 0 ≤ℤ a → pos 0 ≤ℤ scale k a
unfolding scale
scale_nonneg k (pos n) h = ground arith
scale_nonneg k (ℤ.negsuc n) h = absurd (omega arith)

burn_units_nonneg :
    (s c : ℤ) (elapsed : ℕ) → pos 0 ≤ℤ s → pos 0 ≤ℤ c → pos 0 ≤ℤ burn_units s c elapsed
unfolding burn_units
burn_units_nonneg s c elapsed hs hc =
    let room = scale units s -ℤ scale floor_units c in
    le_min_ℤ (min_ℤ (scale elapsed c) (max_ℤ (pos 0) room)) (scale units s) (pos 0)
      (le_min_ℤ (scale elapsed c) (max_ℤ (pos 0) room) (pos 0) (scale_nonneg elapsed c hc)
        ((le_max_ℤ (pos 0) room).0))
      (scale_nonneg units s hs)

burn_units_le :
    (s c : ℤ) (elapsed : ℕ)
    → (burn_units s c elapsed ≤ℤ scale units s)
      × (burn_units s c elapsed ≤ℤ max_ℤ (pos 0) (scale units s -ℤ scale floor_units c))
unfolding burn_units
burn_units_le s c elapsed =
    let room = scale units s -ℤ scale floor_units c in
    let inner = min_ℤ (scale elapsed c) (max_ℤ (pos 0) room) in
    (
      (min_ℤ_le inner (scale units s)).1,
      omega
          (arith, min_ℤ_le inner (scale units s), min_ℤ_le (scale elapsed c) (max_ℤ (pos 0) room)),
    )

-- What a station with no negative stock is taken to have sold is not negative, is no more than its
-- stock, and is no more than what the stock exceeds 4 % of the capacity by.
pub demo_consumption_units_bounds :
    (s c : ℤ) (last : Option ℕ) (now : ℕ)
    → pos 0 ≤ℤ s
    → (pos 0 ≤ℤ demo_consumption_units s c last now)
      × (demo_consumption_units s c last now ≤ℤ scale units s)
      × (demo_consumption_units s c last now
          ≤ℤ max_ℤ (pos 0) (scale units s -ℤ scale floor_units c))
unfolding demo_consumption_units
demo_consumption_units_bounds s c none now hs =
    (omega arith, scale_nonneg units s hs, (le_max_ℤ (pos 0) _).0)
demo_consumption_units_bounds s c (some last) now hs =
    let zero_bound = scale_nonneg units s hs in
    let room_bound = (le_max_ℤ (pos 0) (scale units s -ℤ scale floor_units c)).0 in
    let burn_above = burn_units_nonneg s c (now - last) hs in
    let burn_below = burn_units_le s c (now - last) in ground arith
