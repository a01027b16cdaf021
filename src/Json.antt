-- ===== src/Json.antt =====
-- nlohmann::json, which the program links and does not contain, as an interface: how a document is
-- built, and what the reading functions return on a document that was built so.
pub mod Sample
use suba_sync.Prelude.{ℕ, ◌≡◌, Str, Bool, Option, none, some, List, ℤ, str_eq}
use suba_sync.Prelude.Dict.{Dict, lookup}

pub record JsonApi : Type 1 where
  pub Json : Type 0
  -- `json j; j["k"] = v; …`, `json::array()` with `push_back`, and the conversions to `json`.
  pub object : Dict Str Json → Json
  pub array : List Json → Json
  pub string : Str → Json
  pub number : ℕ → Json
  pub integer : ℤ → Json
  pub boolean : Bool → Json
  -- The members, the elements, the text, the truth value, if the document is of that kind, and
  -- `get<int>()` if `is_number_integer()`.
  pub as_object : Json → Option (Dict Str Json)
  pub as_array : Json → Option (List Json)
  pub as_string : Json → Option Str
  pub as_bool : Json → Option Bool
  pub as_integer : Json → Option ℤ
  -- The values that `for(value : j)` visits.
  pub elements : Json → List Json
  -- `get<uint64_t>()`, with `none` for the exception.
  pub get_number : Json → Option ℕ
  -- The document of `get<double>()` if `is_number()`, and `std::stod`, with `none` for the exception.
  pub as_double : Json → Option Json
  pub stod : Str → Option Json
  -- `parse`, with `none` for the exception, `dump()`, and `dump(2)`.
  pub parse : Str → Option Json
  pub dump : Json → Str
  pub dump_indented : Json → Str
  -- `j.value(key, fallback)`, with `none` for the exception.
  pub value_string : Json → Str → Str → Option Str
  pub value_number : Json → Str → ℕ → Option ℕ
  pub value_integer : Json → Str → ℤ → Option ℤ
  pub value_bool : Json → Str → Bool → Option Bool
  -- `j[key]`, if `j.contains(key)`.
  pub member : Json → Str → Option Json

-- `value` on a member that is missing, or that `get` reads.
abbrev pub or_fallback {ℓ} : {J : Type 0} {A : Type ℓ} → (J → Option A) → Option J → A → Option A
or_fallback get none fallback = some fallback
or_fallback get (some v) fallback = get v

-- The documented behaviour on documents that the program builds.
pub record IsJson (J : JsonApi) : Type 0 where
  pub as_object-object : (m : Dict Str J.Json) → J.as_object (J.object m) ≡ some m
  pub as_array-array : (xs : List J.Json) → J.as_array (J.array xs) ≡ some xs
  pub elements-array : (xs : List J.Json) → J.elements (J.array xs) ≡ xs
  pub as_string-string : (s : Str) → J.as_string (J.string s) ≡ some s
  pub as_bool-boolean : (b : Bool) → J.as_bool (J.boolean b) ≡ some b
  pub as_integer-integer : (n : ℤ) → J.as_integer (J.integer n) ≡ some n
  pub as_string-boolean : (b : Bool) → J.as_string (J.boolean b) ≡ none
  pub as_string-integer : (n : ℤ) → J.as_string (J.integer n) ≡ none
  pub as_bool-integer : (n : ℤ) → J.as_bool (J.integer n) ≡ none
  pub as_double-as_double : (v d : J.Json) → J.as_double v ≡ some d → J.as_double d ≡ some d
  pub get_number-number : (n : ℕ) → J.get_number (J.number n) ≡ some n
  pub member-object : (m : Dict Str J.Json) (k : Str) → J.member (J.object m) k ≡ lookup k m
  pub value_string-object :
      (m : Dict Str J.Json) (k d : Str)
      → J.value_string (J.object m) k d ≡ or_fallback J.as_string (lookup k m) d
  pub value_number-object :
      (m : Dict Str J.Json) (k : Str) (d : ℕ)
      → J.value_number (J.object m) k d ≡ or_fallback J.get_number (lookup k m) d
  pub value_integer-object :
      (m : Dict Str J.Json) (k : Str) (d : ℤ)
      → J.value_integer (J.object m) k d ≡ or_fallback J.as_integer (lookup k m) d
  pub value_bool-object :
      (m : Dict Str J.Json) (k : Str) (d : Bool)
      → J.value_bool (J.object m) k d ≡ or_fallback J.as_bool (lookup k m) d
