-- ===== src/Prelude/Options.antt =====
-- Chains of results that may be missing, where `none` stands for a throw.
use mathlib.Core.Path.{◌≡◌, refl}
use mathlib.Core.Bool.{Bool, true, false, not, ◌||◌}
use mathlib.Core.Option.{Option, none, some}
use native.Mathlib.Omega.{arith}

infixl 5 ◌>>=◌
abbrev pub ◌>>=◌ {ℓ κ} : {A : Type ℓ} {B : Type κ} → Option A → (A → Option B) → Option B
none >>= f = none
some a >>= f = f a

-- A chain that has a result.
pub >>=-some {ℓ κ} :
    {A : Type ℓ} {B : Type κ} (o : Option A) (f : A → Option B) (b : B)
    → (o >>= f) ≡ some b
    → (a : A) × (o ≡ some a) × (f a ≡ some b)
>>=-some none f b e = ground arith
>>=-some (some a) f b e = (a, refl, e)

-- A test that a chain goes on behind.
abbrev pub guard : Bool → Option (Unit {0})
guard true = some tt
guard false = none

pub guard-true : (b : Bool) {u : Unit {0}} → guard b ≡ some u → b ≡ true
guard-true true e = refl
guard-true false e = ground (arith, e)

-- A test that none of three holds.
pub none_of_three :
    (a b c : Bool) → not (a || b || c) ≡ true → (a ≡ false) × (b ≡ false) × (c ≡ false)
none_of_three a b c h = (ground (arith, h), ground (arith, h), ground (arith, h))
