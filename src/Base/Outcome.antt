-- ===== src/Base/Outcome.antt =====
-- The outcome of C code: a value, a fault (an access outside an object, a dereference of NULL or of
-- freed memory), or a loop that used up the rounds it was given.
use mathlib.Core.Path.{◌≡◌, refl, subst}
use mathlib.Core.Bool.{Bool, true, false}
use maitland.Base.Tests.{if◌then◌else◌}

pub data Run {ℓ} (A : Type ℓ) : Type ℓ where
  ok : A → Run A
  fault : Run A
  out_of_fuel : Run A

infixl 5 ◌>>=◌
abbrev pub ◌>>=◌ {ℓ κ} : {A : Type ℓ} {B : Type κ} → Run A → (A → Run B) → Run B
ok a >>= f = f a
fault >>= f = fault
out_of_fuel >>= f = out_of_fuel

pub >>=-assoc {ℓ} :
    {A B C : Type ℓ} (r : Run A) (f : A → Run B) (g : B → Run C)
    → ((r >>= f) >>= g) ≡ (r >>= λ a. f a >>= g)
>>=-assoc (ok a) f g = refl
>>=-assoc fault f g = refl
>>=-assoc out_of_fuel f g = refl

pub >>=-cong {ℓ} :
    {A B : Type ℓ} (r : Run A) (f g : A → Run B) → ((a : A) → f a ≡ g a) → (r >>= f) ≡ (r >>= g)
>>=-cong (ok a) f g e = e a
>>=-cong fault f g e = refl
>>=-cong out_of_fuel f g e = refl

-- Total correctness: the run ends with a value, and the value is as said.
pub data Returns {ℓ κ} {A : Type ℓ} (P : A → Type κ) : Run A → Type (ℓ ⊔ κ) where
  returns : {a : A} → P a → Returns P (ok a)

-- The rules for a later part and for a weaker conclusion.
pub Returns-bind {ℓ κ} :
    {A B : Type ℓ} {P : A → Type κ} {Q : B → Type κ} {r : Run A} {k : A → Run B}
    → Returns P r
    → ((a : A) → P a → Returns Q (k a))
    → Returns Q (r >>= k)
Returns-bind (returns p) next = next _ p

pub Returns-mono {ℓ κ} :
    {A : Type ℓ} {P Q : A → Type κ} {r : Run A} → Returns P r → ((a : A) → P a → Q a) → Returns Q r
Returns-mono (returns p) weaken = returns (weaken _ p)

-- A run with a known value.
pub Returns-eq {ℓ κ} :
    {A : Type ℓ} {P : A → Type κ} {r : Run A} → Returns P r → (a : A) × (r ≡ ok a) × P a
Returns-eq (returns {a} p) = (a, λ i. ok a, p)

-- Partial correctness: if the run ends with a value, the value is as said.
abbrev pub IfOk {ℓ κ} : {A : Type ℓ} → (A → Type κ) → Run A → Type κ
IfOk P (ok a) = P a
IfOk P fault = Unit
IfOk P out_of_fuel = Unit

pub IfOk-bind {ℓ κ} :
    {A B : Type ℓ} (P : B → Type κ) (r : Run A) (k : A → Run B)
    → ((a : A) → r ≡ ok a → IfOk P (k a))
    → IfOk P (r >>= k)
IfOk-bind P (ok a) k next = next a (λ i. ok a)
IfOk-bind P fault k next = tt
IfOk-bind P out_of_fuel k next = tt

pub IfOk-if {ℓ κ} :
    {A : Type ℓ} (P : A → Type κ) (b : Bool) (x y : Run A)
    → IfOk P x
    → IfOk P y
    → IfOk P (if b then x else y)
IfOk-if P true x y hx hy = hx
IfOk-if P false x y hx hy = hy

pub IfOk-mono {ℓ κ} :
    {A : Type ℓ} {P Q : A → Type κ} (r : Run A) → ((a : A) → P a → Q a) → IfOk P r → IfOk Q r
IfOk-mono (ok a) weaken h = weaken a h
IfOk-mono fault weaken h = tt
IfOk-mono out_of_fuel weaken h = tt

pub IfOk-ok {ℓ κ} : {A : Type ℓ} (P : A → Type κ) (r : Run A) (a : A) → IfOk P r → r ≡ ok a → P a
IfOk-ok P r a h e = subst (IfOk P) e h
