-- ===== src/Base/Failure.antt =====
-- Chains of operations that can fail.
use mathlib.Core.Option.{Option, none, some}

module _ {ℓ ℓ'} {A : Type ℓ} {B : Type ℓ'} where
  infixl 15 ◌>>=◌
  abbrev pub ◌>>=◌ : Option A → (A → Option B) → Option B
  none >>= f = none
  some a >>= f = f a
