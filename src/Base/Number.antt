-- ===== src/Base/Number.antt =====
-- A number of JavaScript, as far as the services tell numbers apart: a finite value, an infinite
-- one or NaN. Finite values are integers in the unit that each quantity is given in, since the
-- columns are decimals with a fixed number of places.
use mathlib.Core.Option.{Option, none, some}
use fuel_chain.Base.Int.{ℤ}

pub data Number : Type 0 where
  finite : ℤ → Number
  infinity neg_infinity nan : Number

-- the value, if it is finite
abbrev pub finite? : Number → Option ℤ
finite? (finite z) = some z
finite? _ = none
