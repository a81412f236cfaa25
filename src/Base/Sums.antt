-- ===== src/Base/Sums.antt =====
-- Sums of a column over the rows of a table, and how the change of one row changes them.
use Prim.Native.Nat.{◌≤◌}
use mathlib.Core.Path.{◌≡◌, refl}
use mathlib.Core.Bool.{Bool}
use mathlib.Core.Option.{some}
use mathlib.Core.List.{List, [], ◌∷◌}
use fuel_chain.Base.Tables.{find_first, update_where, count_where}
use fuel_chain.Base.Int.{ℤ, pos, ◌+ℤ◌, int_laws}

module _ {ℓ} {A : Type ℓ} where
  -- `rows.reduce((s, r) => s + value(r), 0)`, `_sum`
  abbrev pub sum_by : (A → ℤ) → List A → ℤ
  sum_by v [] = pos 0
  sum_by v (x ∷ xs) = v x +ℤ sum_by v xs

  sum-update_none :
      (v : A → ℤ) (p : A → Bool) (f : A → A) (xs : List A)
      → count_where p xs ≡ 0
      → sum_by v (update_where p f xs) ≡ sum_by v xs
  sum-update_none v p f [] none_left = refl
  sum-update_none v p f (x ∷ xs) none_left = grind (int_laws, sum-update_none v p f xs)

  -- Where one row at most is updated, the sum changes by what its value changes.
  pub sum-update :
      (v : A → ℤ) (p : A → Bool) (f : A → A) (xs : List A) (x : A)
      → find_first p xs ≡ some x
      → count_where p xs ≤ 1
      → sum_by v (update_where p f xs) +ℤ v x ≡ sum_by v xs +ℤ v (f x)
  sum-update v p f [] x found one = grind int_laws
  sum-update v p f (y ∷ xs) x found one =
      grind (int_laws, sum-update v p f xs x, sum-update_none v p f xs)
