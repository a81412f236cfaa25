-- ===== src/Stations/Level.antt =====
-- How full a station is, as its listings show it: the quotients of apps/api/src/stations/stations.service.ts
-- in `listPublic` and `listSupervision`, taken exactly. Volumes are millilitres.
use fuel_chain.Base.{
  ℕ, ◌*◌, ◌/◌, ◌≤◌, ◌≡◌, Option, none, some, if◌then◌else◌, ltb, ltb→lt, ◌<◌, ◌+◌, Bool-cases, inl,
  inr, arith,
}
use native.Mathlib.Nat.{div-lt_iff_lt-mul, mul-div-le, lt-mul-div-succ, mul-add}
use fuel_chain.Base.Int.{ℤ, pos, negsuc, pos_part, ◌+ℤ◌, ◌-ℤ◌, ltb_ℤ, leb_ℤ, scale}

-- The greatest integer that is not above a / d, for d above 0.
unfoldable pub floor_div : ℤ → ℕ → ℤ
floor_div (pos n) d = pos (n / d)
floor_div (negsuc n) d = negsuc (n / d)

-- `Math.round(a / d)`, which rounds a half up, for d above 0
unfoldable pub round_div : ℤ → ℕ → ℤ
unfolding floor_div
round_div a d = floor_div (scale 2 a +ℤ pos d) (2 * d)

-- `Math.round(litres)`
abbrev pub round_litres : ℤ → ℤ
round_litres v = round_div v 1000

-- `Math.round(Math.min(100, (stock / capacity) * 100))`, for a capacity above 0
unfoldable pub percent : ℤ → ℕ → ℤ
unfolding round_div
percent stock capacity =
    if leb_ℤ (pos capacity) stock then pos 100 else round_div (scale 100 stock) capacity

-- `capacity > 0 ? … : null`
unfoldable pub fill_percent : ℤ → ℤ → Option ℤ
unfolding percent
fill_percent stock capacity =
    if ltb_ℤ (pos 0) capacity then some (percent stock (pos_part capacity)) else none

percent_below :
    (n capacity : ℕ)
    → n < capacity
    → percent (pos n) capacity ≡ pos ((200 * n + capacity) / (2 * capacity))
unfolding percent round_div floor_div ◌+ℤ◌ scale
percent_below n capacity h = ground arith

percent_full : (n capacity : ℕ) → capacity ≤ n → percent (pos n) capacity ≡ pos 100
unfolding percent
percent_full n capacity h = ground arith

-- The stock as far as the capacity.
abbrev pub held : ℕ → ℕ → ℕ
held n capacity = if ltb n capacity then n else capacity

nearest :
    (n capacity : ℕ)
    → 1 ≤ capacity
    → n ≤ capacity
    → let p = (200 * n + capacity) / (2 * capacity) in
      (p ≤ 100)
      × (2 * capacity * p ≤ 200 * n + capacity)
      × (200 * n + capacity < 2 * capacity * p + 2 * capacity)
nearest n capacity room fits =
    let a = 200 * n + capacity in
    let d = 2 * capacity in
    let p = a / d in
    let below : p < 101 =
      (div-lt_iff_lt-mul {k = d} {x = a} {y = 101} (omega arith)).1 (omega arith) in
    let over : a < d * (p + 1) = lt-mul-div-succ a {b = d} (omega arith) in
    (omega arith, mul-div-le a d, omega (arith, over, mul-add d p 1))

-- The percentage that a listing shows of n in a tank is at most 100, and is the whole number nearest to
-- 100 n / capacity, a half rounded up, where n counts as the capacity if it exceeds it.
pub fill_percent-nearest :
    (n capacity : ℕ)
    → 1 ≤ capacity
    → (p : ℕ) × (fill_percent (pos n) (pos capacity) ≡ some (pos p))
      × (p ≤ 100)
      × (2 * capacity * p ≤ 200 * held n capacity + capacity)
      × (200 * held n capacity + capacity < 2 * capacity * p + 2 * capacity)
unfolding fill_percent
fill_percent-nearest n capacity room = elim (Bool-cases (ltb n capacity)) [
  | inl e ↦
      let (most, lower, upper) = nearest n capacity room (ground arith) in
      (
        (200 * n + capacity) / (2 * capacity),
        ground (arith, room, percent_below n capacity (ltb→lt n capacity e)),
        most,
        rw e lower,
        rw e upper,
      )
  | inr e ↦ (
    100,
    ground (arith, room, percent_full n capacity),
    omega arith,
    rw e (omega arith),
    rw e (omega arith),
  )
]

-- `capacity && stock != null`: of a capacity that is not 0, whatever its sign.
unfoldable pub public_percent : ℤ → ℤ → Option ℤ
public_percent stock capacity =
    if ltb_ℤ capacity (pos 0)
    then fill_percent (pos 0 -ℤ stock) (pos 0 -ℤ capacity)
    else fill_percent stock capacity
