-- ===== src/Common/Fallible.antt =====
-- `do` blocks over `Option`: a step that fails ends the block.
use air_whatsbot.Common.{Option, none, some}

infixl 5 ◌>>=◌
abbrev pub ◌>>=◌ {ℓ κ} : {A : Type ℓ} {B : Type κ} → Option A → (A → Option B) → Option B
none >>= f = none
some a >>= f = f a
