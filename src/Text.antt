-- ===== src/Text.antt =====
-- The operations of `std::string` and <cctype> that the source uses, over byte lists.
pub mod Laws
pub mod Decimal
use suba_sync.Prelude.{
  ℕ, suc, ◌+◌, Str, codes, Bool, true, false, ◌&&◌, ◌||◌, Option, none, some, List, [], ◌∷◌,
  nat_beq, leb, drop, str_beq, if◌then◌else◌, is_empty,
}

-- `std::isspace` in the "C" locale.
unfoldable pub is_space : ℕ → Bool
is_space c = nat_beq c 32 || leb 9 c && leb c 13

-- `std::tolower` in the "C" locale.
unfoldable pub to_lower_byte : ℕ → ℕ
to_lower_byte c = if leb b'A' c && leb c b'Z' then c + 32 else c

-- `std::isalpha` in the "C" locale.
unfoldable pub is_alpha : ℕ → Bool
is_alpha c = leb b'A' c && leb c b'Z' || leb b'a' c && leb c b'z'

-- `std::isxdigit`.
unfoldable pub is_xdigit : ℕ → Bool
is_xdigit c = leb b'0' c && leb c b'9' || leb b'A' c && leb c b'F' || leb b'a' c && leb c b'f'

unfoldable pub drop_start : (ℕ → Bool) → Str → Str
drop_start p [] = []
drop_start p (x ∷ xs) = let rest = drop_start p xs in if p x then rest else x ∷ xs

cons_unless : (ℕ → Bool) → ℕ → Str → Str
cons_unless p x [] = if p x then [] else x ∷ []
cons_unless p x (y ∷ ys) = x ∷ y ∷ ys

-- The text without the longest suffix of bytes that pass the test.
unfoldable pub drop_end : (ℕ → Bool) → Str → Str
unfolding cons_unless
drop_end p [] = []
drop_end p (x ∷ xs) = cons_unless p x (drop_end p xs)

-- The two `erase` calls with `find_if`.
unfoldable pub trim_copy : Str → Str
unfolding is_space drop_start drop_end
trim_copy s = drop_end is_space (drop_start is_space s)

-- `s.rfind(prefix, 0) == 0`
unfoldable pub starts_with : Str → Str → Bool
starts_with [] s = true
starts_with (p ∷ ps) [] = false
starts_with (p ∷ ps) (x ∷ xs) = nat_beq p x && starts_with ps xs

-- `s.find(c)`, with `none` for `npos`.
unfoldable pub find : ℕ → Str → Option ℕ
find c [] = none
find c (x ∷ xs) =
    let rest : Option ℕ = elim (find c xs) [ none ↦ none | some i ↦ some (suc i) ] in
    if nat_beq x c then some 0 else rest

-- `s.front()` and `s.back()`, with `none` for the empty text.
abbrev pub front? : Str → Option ℕ
front? [] = none
front? (x ∷ xs) = some x

unfoldable pub back? : Str → Option ℕ
back? [] = none
back? (x ∷ []) = some x
back? (x ∷ y ∷ ys) = back? (y ∷ ys)
