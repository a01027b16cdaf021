-- ===== src/Hex/Laws.antt =====
-- Hexadecimal text determines what it was printed from.

use native.Mathlib.Nat.{pow-suc}
use suba_sync.Prelude.{
  ℕ, zero, suc, ◌+◌, ◌*◌, ◌-◌, ◌/◌, ◌%◌, ◌^◌, ◌<◌, ◌≡◌, refl, sym, ap, ap₂, ◌∙◌, Str, List, [], ◌∷◌,
  ◌++◌, ltb, if◌then◌else◌, arith, length, length-append, take, drop,
}
use suba_sync.Hex.{hex_digit, hex_padded, hex_from_bytes, generate_directory_guid}

-- Every element is a byte.
abbrev pub AllBytes : List ℕ → Type 0
AllBytes [] = Unit
AllBytes (c ∷ bytes) = (c < 256) × AllBytes bytes

hex_value : ℕ → ℕ
hex_value c = if ltb c 58 then c - 48 else c - 87

hex_value-hex_digit : (d : ℕ) → d < 16 → hex_value (hex_digit d) ≡ d
unfolding hex_value hex_digit
hex_value-hex_digit d h = ground arith

-- The number that the digits stand for, after those of `v`.
read : ℕ → Str → ℕ
read v [] = v
read v (c ∷ s) = read (v * 16 + hex_value c) s

read-append : (v : ℕ) (s t : Str) → read v (s ++ t) ≡ read (read v s) t
unfolding read
read-append v [] t = refl
read-append v (c ∷ s) t = read-append (v * 16 + hex_value c) s t

div_small : (w n : ℕ) → n < 16 ^ suc w → n / 16 < 16 ^ w
div_small w n h = let e : 16 ^ suc w ≡ 16 ^ w * 16 = pow-suc 16 w in omega (arith, e)

read-hex_padded : (w n : ℕ) → n < 16 ^ w → read 0 (hex_padded w n) ≡ n
unfolding read hex_padded
read-hex_padded zero n h = omega (arith, h)
read-hex_padded (suc w) n h =
    let last = hex_value-hex_digit (n % 16) (omega arith) in
    let front = read-hex_padded w (n / 16) (div_small w n h) in
    read-append 0 (hex_padded w (n / 16)) (hex_digit (n % 16) ∷ []) ∙ rw (last, front) (omega arith)

pub length-hex_padded : (w n : ℕ) → length (hex_padded w n) ≡ w
unfolding hex_padded
length-hex_padded zero n = refl
length-hex_padded (suc w) n = omega (
  arith,
  length-append (hex_padded w (n / 16)) (hex_digit (n % 16) ∷ []),
  length-hex_padded w (n / 16),
)

pub take-append_length {ℓ} :
    {A : Type ℓ} (n : ℕ) (xs ys : List A) → length xs ≡ n → take n (xs ++ ys) ≡ xs
take-append_length zero [] ys h = refl
take-append_length zero (x ∷ xs) ys h = absurd (omega arith)
take-append_length (suc n) [] ys h = absurd (omega arith)
take-append_length (suc n) (x ∷ xs) ys h = ap (◌∷◌ x) (take-append_length n xs ys (omega arith))

pub drop-append_length {ℓ} :
    {A : Type ℓ} (n : ℕ) (xs ys : List A) → length xs ≡ n → drop n (xs ++ ys) ≡ ys
drop-append_length zero [] ys h = refl
drop-append_length zero (x ∷ xs) ys h = absurd (omega arith)
drop-append_length (suc n) [] ys h = absurd (omega arith)
drop-append_length (suc n) (x ∷ xs) ys h = drop-append_length n xs ys (omega arith)

-- Padded numbers with a common width are read back from their concatenation.
hex_padded-split :
    (w a b : ℕ) (s t : Str)
    → a < 16 ^ w
    → b < 16 ^ w
    → hex_padded w a ++ s ≡ hex_padded w b ++ t
    → (a ≡ b) × (s ≡ t)
hex_padded-split w a b s t ha hb e =
    let la = length-hex_padded w a in
    let lb = length-hex_padded w b in
    (
      sym (read-hex_padded w a ha)
          ∙ ap (read 0)
              (sym (take-append_length w _ s la) ∙ ap (take w) e ∙ take-append_length w _ t lb)
          ∙ read-hex_padded w b hb,
      sym (drop-append_length w _ s la) ∙ ap (drop w) e ∙ drop-append_length w _ t lb,
    )

-- Two draws of 64-bit numbers that give one GUID are the same draws.
pub generate_directory_guid_injective :
    (hi lo hi' lo' : ℕ)
    → hi < 2 ^ 64
    → lo < 2 ^ 64
    → hi' < 2 ^ 64
    → lo' < 2 ^ 64
    → generate_directory_guid (hi, lo) ≡ generate_directory_guid (hi', lo')
    → (hi ≡ hi') × (lo ≡ lo')
unfolding generate_directory_guid
generate_directory_guid_injective hi lo hi' lo' h l h' l' e =
    let (same_hi, rest) =
      hex_padded-split 16 hi hi' (hex_padded 16 lo) (hex_padded 16 lo') h h' (ap (drop 4) e) in
    let ends = ap (λ (s : Str). s ++ []) rest in
    (same_hi, (hex_padded-split 16 lo lo' [] [] l l' ends).0)

-- Bytes, two digits each, can be read back: `hex_from_bytes` loses nothing.
pub hex_from_bytes_injective :
    (a b : List ℕ) → AllBytes a → AllBytes b → hex_from_bytes a ≡ hex_from_bytes b → a ≡ b
unfolding hex_from_bytes
hex_from_bytes_injective [] [] ha hb e = refl
hex_from_bytes_injective [] (y ∷ b) ha hb e = cc
hex_from_bytes_injective (x ∷ a) [] ha hb e = cc
hex_from_bytes_injective (x ∷ a) (y ∷ b) ha hb e =
    let (same, rest) = hex_padded-split 2 x y _ _ ha.0 hb.0 e in
    ap₂ ◌∷◌ same (hex_from_bytes_injective a b ha.1 hb.1 rest)

pub length-hex_from_bytes : (bytes : List ℕ) → length (hex_from_bytes bytes) ≡ 2 * length bytes
unfolding hex_from_bytes
length-hex_from_bytes [] = refl
length-hex_from_bytes (c ∷ bytes) = omega (
  arith,
  length-append (hex_padded 2 c) (hex_from_bytes bytes),
  length-hex_padded 2 c,
  length-hex_from_bytes bytes,
)
