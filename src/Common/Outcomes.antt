-- ===== src/Common/Outcomes.antt =====
-- A Go computation that may panic (an index out of range, a nil dereference, a division by zero),
-- or whose loop uses up the fuel of its model.
use mathlib.Core.Option.{Option, none, some}

pub data Outcome {ℓ} (A : Type ℓ) : Type ℓ where
  ok : A → Outcome A
  panic : Outcome A
  out_of_fuel : Outcome A

infixl 5 ◌>>=◌
abbrev pub ◌>>=◌ {ℓ κ} : {A : Type ℓ} {B : Type κ} → Outcome A → (A → Outcome B) → Outcome B
ok a >>= f = f a
panic >>= f = panic
out_of_fuel >>= f = out_of_fuel

-- A read that panics where there is nothing to read.
abbrev pub guard_some {ℓ} : {A : Type ℓ} → Option A → Outcome A
guard_some none = panic
guard_some (some a) = ok a
