-- ===== src/CommandLine.antt =====
-- The command line (src/command_line_parser.hpp, src/command_line_parser.cpp): options, their values
-- and positional arguments. `fail` prints a message and the usage and ends the process; it is a
-- result here, with the message left out.
pub mod Loop
mod Tests
use suba_sync.Prelude.{
  ℕ, zero, suc, Str, codes, Bool, true, false, not, ◌&&◌, ◌||◌, Option, none, some, List, [], ◌∷◌,
  ◌==◌, str_eq, nat_beq, leb, if◌then◌else◌, is_empty, drop,
}
use suba_sync.Text.{starts_with, is_alpha}
use suba_sync.Json.{JsonApi}
use suba_sync.Settings.{
  Settings, SettingError, Outcome, done, refused, resolve_key, is_bool_setting, is_bool_literal,
  set_from_string,
}

pub record ArgvSpec : Type 0 where
  pub index : ℕ
  pub key : Str

-- Why the process ends.
pub data Failure : Type 0 where
  unknown_option unexpected_positional missing_value : Str → Failure
  invalid_value : Str → SettingError → Failure

-- The settings and the number of positional arguments so far, or the end of the process.
pub data Parsed (J : JsonApi) : Type 0 where
  ok : Settings J → ℕ → Parsed J
  exit : Failure → Parsed J

-- `std::isalpha` of the second character, behind one dash; or two dashes in front.
unfoldable pub is_option_token : Str → Bool
unfolding starts_with is_alpha
is_option_token [] = false
is_option_token (c ∷ []) = false
is_option_token (c ∷ d ∷ rest) =
    starts_with (codes "--") (c ∷ d ∷ rest) || nat_beq c b'-' && is_alpha d

-- One dash and a character that is no dash.
unfoldable pub is_alias_token : Str → Bool
is_alias_token [] = false
is_alias_token (c ∷ []) = false
is_alias_token (c ∷ d ∷ rest) = nat_beq c b'-' && not (nat_beq d b'-')

-- The loop's `std::sort` by index.
unfoldable pub insert_spec : ArgvSpec → List ArgvSpec → List ArgvSpec
insert_spec a [] = a ∷ []
insert_spec a (b ∷ bs) =
    let rest = insert_spec a bs in if leb a.index b.index then a ∷ b ∷ bs else b ∷ rest

unfoldable pub sort_specs : List ArgvSpec → List ArgvSpec
unfolding insert_spec
sort_specs [] = []
sort_specs (a ∷ specs) = insert_spec a (sort_specs specs)

unfoldable pub nth_spec : List ArgvSpec → ℕ → Option ArgvSpec
nth_spec [] n = none
nth_spec (a ∷ specs) zero = some a
nth_spec (a ∷ specs) (suc n) = nth_spec specs n

-- What one token does: it is no option; it ends the process; or the settings after it, and whether
-- the next token was its value.
pub data Handled (J : JsonApi) : Type 0 where
  no_option : Handled J
  fails : Failure → Handled J
  handled : Settings J → Bool → Handled J

module _ (J : JsonApi) where
  -- Each key of the specification must resolve; `none` for the exception.
  unfoldable pub check_specs : List ArgvSpec → Settings J → Bool
  unfolding resolve_key
  check_specs [] probe = true
  check_specs (a ∷ specs) probe =
      let rest = check_specs specs probe in
      elim (resolve_key J a.key probe) [ none ↦ false | some key ↦ rest ]

  unfoldable pub build_positional_specs : List ArgvSpec → Settings J → Option (List ArgvSpec)
  unfolding check_specs sort_specs
  build_positional_specs spec probe =
      if check_specs (sort_specs spec) probe then some (sort_specs spec) else none

  -- The end of `handle_option`: the value is set.
  unfoldable pub set_option : Str → Str → Str → Bool → Settings J → Handled J
  unfolding set_from_string
  set_option token key text used s = elim (set_from_string J key text s) [
    | done s' ↦ handled s' used
    | refused e ↦ fails (invalid_value token e)
  ]

  -- The value of a truth setting: the next token if it is one of the words, else `true`.
  unfoldable pub bool_value : Option Str → Str × Bool
  unfolding is_option_token is_bool_literal
  bool_value none = (codes "true", false)
  bool_value (some next) =
      if not (is_option_token next) && is_bool_literal next
      then (next, true)
      else (codes "true", false)

  -- The lambda `handle_option`, with the token behind the option.
  unfoldable pub handle_option : Str → Bool → Option Str → Settings J → Handled J
  unfolding resolve_key is_bool_setting set_option bool_value
  handle_option token long_form next s = elim (resolve_key J token s) [
    | none ↦ if long_form then fails (unknown_option token) else no_option
    | some key ↦
        if is_bool_setting J key s
        then (let (text, used) = bool_value next in set_option token key text used s)
        else elim next [
          | none ↦ fails (missing_value token)
          | some text ↦ set_option token key text true s
        ]
  ]

  -- A positional argument.
  unfoldable pub handle_positional : List ArgvSpec → Str → ℕ → Settings J → Parsed J
  unfolding nth_spec set_from_string
  handle_positional specs token n s = elim (nth_spec specs n) [
    | none ↦ exit (unexpected_positional token)
    | some a ↦ elim (set_from_string J a.key token s) [
      | done s' ↦ ok s' (suc n)
      | refused e ↦ exit (invalid_value token e)
    ]
  ]

  -- The end of a round that looked for an option: `other` is done if the token is none.
  unfoldable pub after_option : Parsed J × Bool → ℕ → Handled J → Parsed J × Bool
  after_option other n no_option = other
  after_option other n (fails f) = (exit f, false)
  after_option other n (handled s used) = (ok s n, used)

  -- One round of the loop, and whether it took the next token too.
  unfoldable pub parse_token : List ArgvSpec → Str → Option Str → ℕ → Settings J → Parsed J × Bool
  unfolding after_option handle_option handle_positional is_alias_token starts_with
  parse_token specs token next n s =
      if starts_with (codes "--") token
      then after_option (ok s n, false) n (handle_option (drop 2 token) true next s)
      else if is_alias_token token
      then after_option (handle_positional specs token n s, false) n
          (handle_option (drop 1 token) false next s)
      else (handle_positional specs token n s, false)

  -- The loop over the arguments behind the program's name.
  unfoldable pub parse_args : List ArgvSpec → List Str → ℕ → Settings J → Parsed J
  unfolding parse_token
  parse_args specs [] n s = ok s n
  parse_args specs (token ∷ []) n s = (parse_token specs token none n s).0
  parse_args specs (token ∷ next ∷ rest) n s = elim (parse_token specs token (some next) n s).0 [
    | exit f ↦ exit f
    | ok s' n' ↦ elim (parse_token specs token (some next) n s).1 [
      | true ↦ parse_args specs rest n' s'
      | false ↦ parse_args specs (next ∷ rest) n' s'
    ]
  ]

  unfoldable pub parse : List ArgvSpec → List Str → Settings J → Parsed J
  unfolding parse_args
  parse specs args s = parse_args specs args 0 s
