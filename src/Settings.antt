-- ===== src/Settings.antt =====
-- The settings (src/settings_manager.hpp): the specification of each setting, the lookup of a key or
-- an alias, conversion, storing, loading and saving. A file is its text. The output of messages on
-- the terminal is not modelled.
pub mod Files
pub mod Table
pub mod Defaults
pub mod Typed
pub mod Edits
pub mod Stored
pub mod Saved
mod Tests
use suba_sync.Prelude.{
  ℕ, Str, codes, Bool, true, false, not, ◌&&◌, ◌||◌, Option, none, some, List, [], ◌∷◌, map, ℤ, pos,
  negsuc, nat_beq, ◌==◌, str_eq, if◌then◌else◌, is_empty, contains,
}
use suba_sync.Prelude.Dict.{Dict, lookup, insert, has}
use suba_sync.Text.{trim_copy, to_lower_byte}
use suba_sync.Text.Decimal.{StoiResult, value, invalid_argument, out_of_range, stoi}
use suba_sync.Json.{JsonApi}

-- The texts that `type` is compared with; `other` is any other text.
pub data SettingType : Type 0 where
  bool int float string json other : SettingType

unfoldable pub setting_type : Str → SettingType
setting_type s =
    if s == codes "bool"
    then bool
    else if s == codes "int"
    then int
    else if s == codes "float"
    then float
    else if s == codes "string"
    then string
    else if s == codes "json"
    then json
    else other

-- An entry of the specification, less its description.
pub record RawSpec (J : JsonApi) : Type 0 where
  pub key : Str
  pub aliases : List Str
  pub kind : Str
  pub default_value : J.Json
  pub persistent : Bool

pub record SettingSpec (J : JsonApi) : Type 0 where
  pub key : Str
  pub aliases : List Str
  pub normalized_key : Str
  pub kind : SettingType
  pub default_value : J.Json
  pub persistent : Bool

pub record Settings (J : JsonApi) : Type 0 where
  pub settings : Dict Str J.Json
  pub setting_specs : List (SettingSpec J)
  pub settings_path_override : Str

-- The errors: the texts that the source gives, and the text of a caught exception.
pub data SettingError : Type 0 where
  unknown_setting unknown_type unsupported_type : SettingError
  expected_boolean expected_boolean_text expected_integer expected_number : SettingError
  expected_string exception_text : SettingError

pub data Outcome (A : Type 0) : Type 0 where
  done : A → Outcome A
  refused : SettingError → Outcome A

unfoldable pub to_lower : Str → Str
unfolding to_lower_byte
to_lower s = map to_lower_byte s

-- One of the texts that stand for a truth value.
abbrev pub true_words : List Str
true_words = codes "true" ∷ codes "1" ∷ codes "on" ∷ codes "yes" ∷ []

abbrev pub false_words : List Str
false_words = codes "false" ∷ codes "0" ∷ codes "off" ∷ codes "no" ∷ []

unfoldable pub is_bool_literal : Str → Bool
unfolding to_lower trim_copy contains
is_bool_literal s =
    contains true_words (to_lower (trim_copy s)) || contains false_words (to_lower (trim_copy s))

abbrev pub is_bool : SettingType → Bool
is_bool bool = true
is_bool _ = false

abbrev pub is_nonzero : ℤ → Bool
is_nonzero (pos n) = not (nat_beq n 0)
is_nonzero (negsuc n) = true

module _ (J : JsonApi) where
  unfoldable pub build_spec : RawSpec J → SettingSpec J
  unfolding to_lower setting_type
  build_spec r = record {
    key = r.key;
    aliases = map to_lower r.aliases;
    normalized_key = to_lower r.key;
    kind = setting_type r.kind;
    default_value = r.default_value;
    persistent = r.persistent;
  }

  unfoldable pub build_setting_specs : List (RawSpec J) → List (SettingSpec J)
  unfolding build_spec
  build_setting_specs specification = map build_spec specification

  -- `apply_defaults`: the loop over the specifications.
  unfoldable pub apply_defaults : List (SettingSpec J) → Dict Str J.Json → Dict Str J.Json
  apply_defaults [] settings = settings
  apply_defaults (s ∷ specs) settings = apply_defaults specs (insert s.key s.default_value settings)

  -- The constructor.
  unfoldable pub init : List (RawSpec J) → Settings J
  unfolding build_setting_specs apply_defaults
  init specification = record {
    settings = apply_defaults (build_setting_specs specification) [];
    setting_specs = build_setting_specs specification;
    settings_path_override = [];
  }

  -- The loop of `find_spec`.
  unfoldable pub find_lowered : Str → List (SettingSpec J) → Option (SettingSpec J)
  find_lowered lowered [] = none
  find_lowered lowered (s ∷ specs) =
      let rest = find_lowered lowered specs in
      if lowered == s.normalized_key || contains s.aliases lowered then some s else rest

  unfoldable pub find_spec : Str → Settings J → Option (SettingSpec J)
  unfolding find_lowered to_lower
  find_spec token s = find_lowered (to_lower token) s.setting_specs

  unfoldable pub has_setting : Str → Settings J → Bool
  has_setting key s = has key s.settings

  unfoldable pub keys : Settings J → List Str
  keys s = map (λ spec. spec.key) s.setting_specs

  unfoldable pub value_as_string : Str → Settings J → Str
  value_as_string key s = elim (lookup key s.settings) [
    | none ↦ codes "<unknown>"
    | some v ↦ elim (J.as_string v) [
      | some text ↦ text
      | none ↦ elim (J.as_bool v) [
        | some b ↦ if b then codes "true" else codes "false"
        | none ↦ J.dump v
      ]
    ]
  ]

  unfoldable pub resolve_key : Str → Settings J → Option Str
  unfolding find_spec
  resolve_key token s = elim (find_spec token s) [ none ↦ none | some spec ↦ some spec.key ]

  unfoldable pub is_bool_setting : Str → Settings J → Bool
  unfolding find_spec
  is_bool_setting key s = elim (find_spec key s) [ none ↦ false | some spec ↦ is_bool spec.kind ]

  -- What `convert_and_store` stores for a setting of a type.
  unfoldable pub convert : SettingType → J.Json → Outcome J.Json
  convert bool v = elim (J.as_bool v) [
    | some b ↦ done (J.boolean b)
    | none ↦ elim (J.as_integer v) [
      | some n ↦ done (J.boolean (is_nonzero n))
      | none ↦ refused expected_boolean
    ]
  ]
  convert int v = elim (J.as_integer v) [
    | some n ↦ done (J.integer n)
    | none ↦ refused expected_integer
  ]
  convert float v = elim (J.as_double v) [ some d ↦ done d | none ↦ refused expected_number ]
  convert string v = elim (J.as_string v) [
    | some text ↦ done (J.string text)
    | none ↦ refused expected_string
  ]
  convert json v = done v
  convert other v = refused unknown_type

  unfoldable pub convert_and_store : SettingSpec J → J.Json → Settings J → Outcome (Settings J)
  unfolding convert
  convert_and_store spec v s = elim (convert spec.kind v) [
    | refused e ↦ refused e
    | done stored ↦ done (record s { settings = insert spec.key stored s.settings })
  ]

  unfoldable pub parse_string_value : SettingType → Str → Outcome J.Json
  unfolding trim_copy to_lower
  parse_string_value bool text =
      if contains true_words (to_lower (trim_copy text))
      then done (J.boolean true)
      else if contains false_words (to_lower (trim_copy text))
      then done (J.boolean false)
      else refused expected_boolean_text
  parse_string_value int text = elim (stoi (trim_copy text)) [
    | value n ↦ done (J.integer n)
    | invalid_argument ↦ refused exception_text
    | out_of_range ↦ refused exception_text
  ]
  parse_string_value float text = elim (J.stod (trim_copy text)) [
    | some d ↦ done d
    | none ↦ refused exception_text
  ]
  parse_string_value string text = done (J.string (trim_copy text))
  parse_string_value json text = elim (J.parse (trim_copy text)) [
    | some v ↦ done v
    | none ↦ refused exception_text
  ]
  parse_string_value other text = refused unsupported_type

  unfoldable pub set_from_string : Str → Str → Settings J → Outcome (Settings J)
  unfolding find_spec parse_string_value convert_and_store
  set_from_string key text s = elim (find_spec key s) [
    | none ↦ refused unknown_setting
    | some spec ↦ elim (parse_string_value spec.kind text) [
      | refused e ↦ refused e
      | done v ↦ convert_and_store spec v s
    ]
  ]

  unfoldable pub set_from_json : Str → J.Json → Settings J → Outcome (Settings J)
  unfolding find_spec convert_and_store
  set_from_json key v s = elim (find_spec key s) [
    | none ↦ refused unknown_setting
    | some spec ↦ convert_and_store spec v s
  ]
