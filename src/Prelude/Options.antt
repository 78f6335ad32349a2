-- ===== src/Prelude/Options.antt =====
-- `do` blocks over `Option`: `none` is a fault, such as a read through a null pointer.
use mathlib.Core.Option.{Option, none, some}

infixl 5 ◌>>=◌
abbrev pub ◌>>=◌ {ℓ κ} : {A : Type ℓ} {B : Type κ} → Option A → (A → Option B) → Option B
none >>= f = none
some a >>= f = f a
