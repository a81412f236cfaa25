-- ===== src/Tank/Levels.antt =====
-- What a movement of stock does, and how the availability of a station follows the stock.
use fuel_chain.Base.{ℕ, ◌≤◌, ◌≡◌, refl, arith, ok}
use fuel_chain.Base.Int.{ℤ, pos, ◌+ℤ◌, ◌-ℤ◌, ◌≤ℤ◌, ◌<ℤ◌, int_laws, -ℤ_parts, scale_parts}
use fuel_chain.Base.Number.{Number, finite}
use fuel_chain.Schema.{Availability, full, medium, low, empty, unknown}
use fuel_chain.Tank.{
  Stock, availability_from_fill_ratio, fill_ratio_of, stock_of, apply_stock_delta,
  apply_stock_withdraw,
}

-- A reception that is booked was finite and above 0, and the new stock is the old one and what was
-- received, within the capacity.
pub apply_stock_delta-ok :
    (p : ℤ) (n : Number) (c : ℤ) (s : Stock)
    → apply_stock_delta p n c ≡ ok s
    → (r : ℤ) × (n ≡ finite r)
      × (pos 0 <ℤ r)
      × (s.previous_stock ≡ p)
      × (s.next_stock ≡ p +ℤ r)
      × (s.next_stock ≤ℤ c)
unfolding apply_stock_delta stock_of
apply_stock_delta-ok p (finite r) c s h =
    (r, refl, ground (arith, h), ground (arith, h), ground (arith, h), ground (arith, h))
apply_stock_delta-ok p Number.infinity c s h = cc
apply_stock_delta-ok p Number.neg_infinity c s h = cc
apply_stock_delta-ok p Number.nan c s h = cc

-- A withdrawal that is booked was finite and above 0, and the new stock is the old one less what
-- was withdrawn, which is never below 0.
pub apply_stock_withdraw-ok :
    (p : ℤ) (n : Number) (c : ℤ) (s : Stock)
    → apply_stock_withdraw p n c ≡ ok s
    → (w : ℤ) × (n ≡ finite w)
      × (pos 0 <ℤ w)
      × (s.previous_stock ≡ p)
      × (s.next_stock ≡ p -ℤ w)
      × (pos 0 ≤ℤ s.next_stock)
unfolding apply_stock_withdraw stock_of
apply_stock_withdraw-ok p (finite w) c s h = (
  w,
  refl,
  ground (arith, h),
  ground (arith, h),
  ground (arith, h),
  ground (arith, h, -ℤ_parts p w),
)
apply_stock_withdraw-ok p Number.infinity c s h = cc
apply_stock_withdraw-ok p Number.neg_infinity c s h = cc
apply_stock_withdraw-ok p Number.nan c s h = cc

withdraw_ok :
    (p w c : ℤ)
    → pos 0 <ℤ w
    → w ≤ℤ p
    → apply_stock_withdraw p (finite w) c ≡ ok (stock_of c p w (p -ℤ w))
unfolding apply_stock_withdraw
withdraw_ok p w c h k = ground arith

-- What a tank with no negative stock has received can be withdrawn again, and the stock is then
-- what it was.
pub withdraw-delta :
    (p : ℤ) (n : Number) (c : ℤ) (s : Stock)
    → pos 0 ≤ℤ p
    → apply_stock_delta p n c ≡ ok s
    → (t : Stock) × (apply_stock_withdraw s.next_stock n c ≡ ok t) × (t.next_stock ≡ p)
withdraw-delta p n c s nonneg h = undo (apply_stock_delta-ok p n c s h)
  where
    undo :
        (r : ℤ) × (n ≡ finite r)
          × (pos 0 <ℤ r)
          × (s.previous_stock ≡ p)
          × (s.next_stock ≡ p +ℤ r)
          × (s.next_stock ≤ℤ c)
        → (t : Stock) × (apply_stock_withdraw s.next_stock n c ≡ ok t) × (t.next_stock ≡ p)
    undo (r, finite_r, above, same_p, sum_p, fits) = (
      stock_of c s.next_stock r (s.next_stock -ℤ r),
      rw finite_r (withdraw_ok s.next_stock r c above (rw sum_p (omega int_laws))),
      unfold stock_of in rw sum_p (omega int_laws),
    )

-- The order of the availabilities, from the emptiest.
abbrev pub level : Availability → ℕ
level unknown = 0
level empty = 1
level low = 2
level medium = 3
level full = 4

-- With the same capacity, a higher stock never shows as a lower availability.
pub availability_mono :
    (c s t : ℤ)
    → s ≤ℤ t
    → level (availability_from_fill_ratio (fill_ratio_of c s))
      ≤ level (availability_from_fill_ratio (fill_ratio_of c t))
unfolding availability_from_fill_ratio fill_ratio_of
availability_mono c s t h = ground (arith, scale_parts 100 s, scale_parts 100 t)
