-- ===== src/Prelude/Outcomes.antt =====
-- What a run of C code comes to: a value, a fault (undefined behaviour, such as an access outside
-- an array), or no end.
use mathlib.Core.Option.{Option, none, some}

pub data Outcome {ℓ} (A : Type ℓ) : Type ℓ where
  ok : A → Outcome A
  fault : Outcome A
  hang : Outcome A

infixl 5 ◌>>=◌
abbrev pub ◌>>=◌ {ℓ κ} : {A : Type ℓ} {B : Type κ} → Outcome A → (A → Outcome B) → Outcome B
ok a >>= f = f a
fault >>= f = fault
hang >>= f = hang

-- An access that is outside its array faults.
abbrev pub within {ℓ} : {A : Type ℓ} → Option A → Outcome A
within none = fault
within (some a) = ok a
