-- ===== src/Prelude/Equality.antt =====
-- `operator==` as an interface, with instances for numbers and for byte strings.
use Prim.Native.Char.{code}
use Prim.Native.String.{String}
use mathlib.Core.Path.{◌≡◌, refl}
use mathlib.Core.Logic.{◌↔◌}
use mathlib.Core.Bool.{Bool, true, false, ◌&&◌, ◌||◌}
use mathlib.Core.List.{List, [], ◌∷◌}
use Prim.Native.Nat.{ℕ}
use native.Mathlib.Omega.{arith}
use suba_sync.Prelude.Tests.{nat_beq, nat_beq_iff}

-- A `std::string` is its bytes.
abbrev pub Str : Type 0
Str = List ℕ

unfoldable pub str_beq : Str → Str → Bool
str_beq [] [] = true
str_beq [] (y ∷ ys) = false
str_beq (x ∷ xs) [] = false
str_beq (x ∷ xs) (y ∷ ys) = nat_beq x y && str_beq xs ys

pub str_beq_iff : (a b : Str) → (str_beq a b ≡ true) ↔ (a ≡ b)
unfolding str_beq
str_beq_iff [] [] = ground arith
str_beq_iff [] (y ∷ ys) = ground arith
str_beq_iff (x ∷ xs) [] = ground arith
str_beq_iff (x ∷ xs) (y ∷ ys) = ground (arith, str_beq_iff xs ys)

pub record Eq {ℓ} (Value : Type ℓ) : Type ℓ where
  pub equal : Value → Value → Bool
  pub equal_iff : (v w : Value) → (equal v w ≡ true) ↔ (v ≡ w)

instance abbrev pub str_eq : Eq Str
str_eq = record { equal = str_beq; equal_iff = str_beq_iff }

-- The bytes of an ASCII literal.
abbrev pub codes : String → Str
codes (String.◌∷◌ letter rest) = code letter ∷ codes rest
codes String.[] = []

instance abbrev pub nat_eq : Eq ℕ
nat_eq = record { equal = nat_beq; equal_iff = nat_beq_iff }

module _ {ℓ} {Value : Type ℓ} ⦃e : Eq Value⦄ where
  infix 50 ◌==◌
  abbrev pub ◌==◌ : Value → Value → Bool
  ◌==◌ = e.equal

  pub equal_refl : (v : Value) → (v == v) ≡ true
  equal_refl v = (e.equal_iff v v).1 refl

  unfoldable pub contains : List Value → Value → Bool
  contains (w ∷ ws) v = w == v || contains ws v
  contains [] v = false
