-- ===== src/Base/Maybe.antt =====
-- `do` blocks over `Option`: `none` is an early `return None`.
use mathlib.Core.Path.{◌≡◌, refl}
use mathlib.Core.Bool.{Bool, true, false}
use mathlib.Core.Option.{Option, none, some}

infixl 5 ◌>>=◌ ◌>>◌
abbrev pub ◌>>=◌ {ℓ κ} : {A : Type ℓ} {B : Type κ} → Option A → (A → Option B) → Option B
none >>= f = none
some a >>= f = f a

abbrev pub ◌>>◌ {ℓ} : {B : Type ℓ} → Option (Unit {0}) → Option B → Option B
m >> k = m >>= λ _. k

abbrev pub require : Bool → Option (Unit {0})
require true = some tt
require false = none

-- The steps of a block that has returned a value.
pub >>=-eq-some {ℓ κ} :
    {A : Type ℓ} {B : Type κ} (m : Option A) (f : A → Option B) {b : B}
    → (m >>= f) ≡ some b
    → (a : A) × (m ≡ some a) × (f a ≡ some b)
>>=-eq-some (some a) f h = (a, refl, h)
>>=-eq-some none f h = cc

pub require-eq-some {ℓ} :
    {B : Type ℓ} (c : Bool) (k : Option B) {b : B}
    → (require c >> k) ≡ some b
    → (c ≡ true) × (k ≡ some b)
require-eq-some true k h = (refl, h)
require-eq-some false k h = cc
