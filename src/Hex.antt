-- ===== src/Hex.antt =====
-- Hexadecimal text: `hex_from_bytes` of src/utils.cpp, and the padded numbers of a directory GUID.
pub mod Laws
mod Tests
use suba_sync.Prelude.{
  ℕ, zero, suc, ◌+◌, ◌-◌, ◌/◌, ◌%◌, Str, codes, List, [], ◌∷◌, ◌++◌, ltb, if◌then◌else◌,
}

-- `std::hex` without `std::uppercase`.
unfoldable pub hex_digit : ℕ → ℕ
hex_digit d = if ltb d 10 then b'0' + d else b'a' + (d - 10)

-- `std::setw(w) << std::setfill('0')`, for a number of at most `w` digits.
unfoldable pub hex_padded : ℕ → ℕ → Str
unfolding hex_digit
hex_padded zero n = []
hex_padded (suc w) n = hex_padded w (n / 16) ++ hex_digit (n % 16) ∷ []

unfoldable pub hex_from_bytes : List ℕ → Str
unfolding hex_padded
hex_from_bytes [] = []
hex_from_bytes (c ∷ bytes) = hex_padded 2 c ++ hex_from_bytes bytes

-- `PeerManager::generate_directory_guid`, from the two numbers that it draws.
unfoldable pub generate_directory_guid : ℕ × ℕ → Str
unfolding hex_padded
generate_directory_guid (hi, lo) = codes "dir-" ++ (hex_padded 16 hi ++ hex_padded 16 lo)
