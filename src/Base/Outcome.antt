-- ===== src/Base/Outcome.antt =====
-- The outcome of a service call: a value, or the exception that the request ends with.
use mathlib.Core.Path.{◌≡◌, refl}
use mathlib.Core.Bool.{Bool, true, false}
use mathlib.Core.Option.{Option, none, some}

pub data Result {ℓ κ} (E : Type ℓ) (A : Type κ) : Type (ℓ ⊔ κ) where
  ok : A → Result E A
  err : E → Result E A

infixl 5 ◌>>=◌ ◌>>◌
abbrev pub ◌>>=◌ {ℓ κ μ} :
    {E : Type ℓ} {A : Type κ} {B : Type μ} → Result E A → (A → Result E B) → Result E B
err e >>= step = err e
ok v >>= step = step v

abbrev pub ◌>>◌ {ℓ κ} : {E : Type ℓ} {B : Type κ} → Result E (Unit {0}) → Result E B → Result E B
check >> next = check >>= λ done. next

-- `if (refused) throw e`
abbrev pub refuse_if {ℓ} : {E : Type ℓ} → Bool → E → Result E (Unit {0})
refuse_if true e = err e
refuse_if false e = ok tt

-- `if (!row) throw e`
abbrev pub or_throw {ℓ κ} : {E : Type ℓ} {A : Type κ} → Option A → E → Result E A
or_throw none e = err e
or_throw (some a) e = ok a

-- A function that throws or returns nothing.
abbrev pub rethrow {ℓ} : {E : Type ℓ} → Option E → Result E (Unit {0})
rethrow none = ok tt
rethrow (some e) = err e

-- A chain that returned went through its first step.
pub >>=-eq-ok {ℓ κ μ} :
    {E : Type ℓ} {A : Type κ} {B : Type μ} (first : Result E A) (rest : A → Result E B) {out : B}
    → (first >>= rest) ≡ ok out
    → (mid : A) × (first ≡ ok mid) × (rest mid ≡ ok out)
>>=-eq-ok (err x) rest returned = cc
>>=-eq-ok (ok v) rest returned = (v, refl, returned)

pub or_throw-eq-ok {ℓ κ} :
    {E : Type ℓ} {A : Type κ} (o : Option A) (e : E) (a : A) → or_throw o e ≡ ok a → o ≡ some a
or_throw-eq-ok none e a h = cc
or_throw-eq-ok (some x) e a h = cc
