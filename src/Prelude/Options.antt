-- ===== src/Prelude/Options.antt =====
-- Chains of results that may be missing.
use mathlib.Core.Option.{Option, none, some}
use mathlib.Core.Path.{◌≡◌}

infixl 5 ◌>>=◌
abbrev pub ◌>>=◌ {ℓ} : {A B : Type ℓ} → Option A → (A → Option B) → Option B
◌>>=◌ none f = none
◌>>=◌ (some a) f = f a

pub some_injective : {A : Type 0} (a b : A) → some a ≡ some b → a ≡ b
some_injective a b e = cc e
