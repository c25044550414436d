-- ===== src/Base/Outcome.antt =====
-- Results of code that can go wrong: `fault` is undefined behaviour, such as a read outside an
-- array; `out_of_fuel` says that a loop was given too few rounds.

use mathlib.Core.Option.{Option, none, some}
use mathlib.Core.Path.{◌≡◌, refl}

pub data Run {ℓ} (A : Type ℓ) : Type ℓ where
  ok : A → Run A
  fault : Run A
  out_of_fuel : Run A

infixl 5 ◌>>=◌
abbrev pub ◌>>=◌ {ℓ κ} : {A : Type ℓ} {B : Type κ} → Run A → (A → Run B) → Run B
ok a >>= f = f a
fault >>= f = fault
out_of_fuel >>= f = out_of_fuel

-- An access that is outside its array is a fault.
abbrev pub access {ℓ} : {A : Type ℓ} → Option A → Run A
access none = fault
access (some a) = ok a

pub ok-injective {ℓ} : {A : Type ℓ} {x y : A} → ok x ≡ ok y → x ≡ y
ok-injective e = cc

-- A pair that is made only for its second part.
pub >>=-forget {ℓ κ} :
    {A : Type ℓ} {B : Type κ} (r : Run A) (b : B)
    → (r >>= (λ a. ok (b, a)) >>= (λ (p : B × A). ok p.1)) ≡ r
>>=-forget (ok a) b = refl
>>=-forget fault b = refl
>>=-forget out_of_fuel b = refl
