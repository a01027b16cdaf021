-- ===== src/Text/Decimal.antt =====
-- `std::to_string` of an unsigned number, `std::stoi`, and a cast to `unsigned short`.
use suba_sync.Prelude.{
  ℕ, zero, suc, ◌+◌, ◌-◌, ◌*◌, ◌/◌, ◌%◌, ◌^◌, ◌<◌, ◌≡◌, ap, ◌∙◌, sym, inl, inr, Str, Bool, true,
  false, ◌&&◌, [], ◌∷◌, arith, ltb, leb, nat_beq, if◌then◌else◌, Bool-cases, ℤ, pos, negsuc,
}
use suba_sync.Text.{is_space, drop_start}

abbrev pub is_digit : ℕ → Bool
is_digit c = leb b'0' c && leb c b'9'

-- The digits of `n` in front of `out`, the last digit first. The fuel is above `n`.
to_digits : ℕ → ℕ → Str → Str
to_digits zero n out = out
to_digits (suc f) n out =
    let rest = to_digits f (n / 10) ((b'0' + n % 10) ∷ out) in
    if ltb n 10 then (b'0' + n % 10) ∷ out else rest

unfoldable pub to_string : ℕ → Str
unfolding to_digits
to_string n = to_digits (suc n) n []

-- The value of the digits in front, after those of `v`.
pub scan : ℕ → Str → ℕ
scan v [] = v
scan v (c ∷ s) = let rest = scan (v * 10 + (c - b'0')) s in if is_digit c then rest else v

pub data StoiResult : Type 0 where
  value : ℤ → StoiResult
  invalid_argument out_of_range : StoiResult

abbrev int_max : ℕ
int_max = 2 ^ 31 - 1

abbrev negate : ℕ → ℤ
negate zero = pos 0
negate (suc n) = negsuc n

-- The digits with their sign: `invalid_argument` if there is none.
signed_value : Bool → Str → StoiResult
unfolding scan
signed_value negative [] = invalid_argument
signed_value negative (c ∷ s) =
    if is_digit c
    then (if negative
        then (if ltb (int_max + 1) (scan 0 (c ∷ s))
            then out_of_range
            else value (negate (scan 0 (c ∷ s))))
        else (if ltb int_max (scan 0 (c ∷ s)) then out_of_range else value (pos (scan 0 (c ∷ s)))))
    else invalid_argument

with_sign : Str → StoiResult
unfolding signed_value
with_sign [] = invalid_argument
with_sign (c ∷ s) =
    if nat_beq c b'-'
    then signed_value true s
    else if nat_beq c b'+'
    then signed_value false s
    else signed_value false (c ∷ s)

-- `std::stoi(s)`: leading white space, a sign, digits, and anything behind them.
unfoldable pub stoi : Str → StoiResult
unfolding is_space drop_start with_sign
stoi s = with_sign (drop_start is_space s)

-- `static_cast<unsigned short>`
abbrev pub to_ushort : ℤ → ℕ
to_ushort (pos n) = n % 2 ^ 16
to_ushort (negsuc n) = 2 ^ 16 - 1 - n % 2 ^ 16

scan-to_digits : (f n : ℕ) (out : Str) → n < f → scan 0 (to_digits f n out) ≡ scan n out
unfolding scan to_digits
scan-to_digits zero n out h = elim h [ ]
scan-to_digits (suc f) n out h = elim (Bool-cases (ltb n 10)) [
  | inl small ↦ ground arith
  | inr large ↦
      rw large (scan-to_digits f (n / 10) ((b'0' + n % 10) ∷ out) (ground arith) ∙ ground arith)
]

pub scan-to_string : (n : ℕ) → scan 0 (to_string n) ≡ n
unfolding to_string scan
scan-to_string n = scan-to_digits (suc n) n [] (omega arith)

-- Two numbers are printed alike only if they are one.
pub to_string_injective : (m n : ℕ) → to_string m ≡ to_string n → m ≡ n
to_string_injective m n e = sym (scan-to_string m) ∙ ap (scan 0) e ∙ scan-to_string n
