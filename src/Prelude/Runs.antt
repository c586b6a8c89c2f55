-- ===== src/Prelude/Runs.antt =====
-- Runs of code that can stop the process or be left with no fuel.

use mathlib.Core.Path.{◌≡◌, refl}

-- `crash` is an abort, a failed `assert` or a use of an invalid pointer; `out_of_fuel` is no
-- outcome of the code: the rounds given to a loop were used up.
pub data Run {ℓ} (A : Type ℓ) : Type ℓ where
  ok : A → Run A
  crash : Run A
  out_of_fuel : Run A

infixl 5 ◌>>=◌
abbrev pub ◌>>=◌ {ℓ κ} : {A : Type ℓ} {B : Type κ} → Run A → (A → Run B) → Run B
ok a >>= f = f a
crash >>= f = crash
out_of_fuel >>= f = out_of_fuel

-- The run ends, and its result is as stated.
abbrev pub Returns {ℓ} : {A : Type ℓ} → (A → Type 0) → Run A → Type 0
Returns P (ok a) = P a
Returns P crash = ⊥
Returns P out_of_fuel = ⊥

-- A run that returns, followed by code that returns from every result allowed.
pub Returns-bind {ℓ κ} :
    {A : Type ℓ} {B : Type κ} (P : A → Type 0) (Q : B → Type 0) (r : Run A) (f : A → Run B)
    → Returns P r
    → ((a : A) → P a → Returns Q (f a))
    → Returns Q (r >>= f)
Returns-bind P Q (ok a) f p next = next a p
Returns-bind P Q crash f p next = absurd p
Returns-bind P Q out_of_fuel f p next = absurd p

pub Returns-mono {ℓ} :
    {A : Type ℓ} (P Q : A → Type 0) (r : Run A) → Returns P r → ((a : A) → P a → Q a) → Returns Q r
Returns-mono P Q (ok a) p weaken = weaken a p
Returns-mono P Q crash p weaken = absurd p
Returns-mono P Q out_of_fuel p weaken = absurd p

-- What a run that returns as stated returns.
pub Returns-ok {ℓ} :
    {A : Type ℓ} (P : A → Type 0) (r : Run A) → Returns P r → (a : A) × (r ≡ ok a) × P a
Returns-ok P (ok a) p = (a, refl, p)
Returns-ok P crash p = absurd p
Returns-ok P out_of_fuel p = absurd p

pub bind_assoc {ℓ} :
    {A B C : Type ℓ} (r : Run A) (f : A → Run B) (g : B → Run C)
    → ((r >>= f) >>= g) ≡ (r >>= λ a. f a >>= g)
bind_assoc (ok a) f g = refl
bind_assoc crash f g = refl
bind_assoc out_of_fuel f g = refl

pub bind_ok {ℓ} : {A : Type ℓ} (r : Run A) → (r >>= ok) ≡ r
bind_ok (ok a) = refl
bind_ok crash = refl
bind_ok out_of_fuel = refl
