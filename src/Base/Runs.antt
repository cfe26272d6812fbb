-- ===== src/Base/Runs.antt =====
-- The outcome of code that follows pointers or loops: a value, a fault (a read or write through a
-- null or dangling pointer, or past an array), or no end within the fuel.

use mathlib.Core.Option.{Option, none, some}

pub data Run {ℓ} (A : Type ℓ) : Type ℓ where
  ok : A → Run A
  fault : Run A
  out_of_fuel : Run A

infixl 5 ◌>>=◌ ◌>>◌
abbrev pub ◌>>=◌ {ℓ κ} : {A : Type ℓ} {B : Type κ} → Run A → (A → Run B) → Run B
ok a >>= f = f a
fault >>= f = fault
out_of_fuel >>= f = out_of_fuel

abbrev pub ◌>>◌ {ℓ κ} : {A : Type ℓ} {B : Type κ} → Run A → Run B → Run B
m >> k = m >>= λ _. k

-- A value that must be there.
abbrev pub need {ℓ} : {A : Type ℓ} → Option A → Run A
need none = fault
need (some a) = ok a
