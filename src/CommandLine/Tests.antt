-- ===== src/CommandLine/Tests.antt =====
-- Command lines of the program's own settings.
use suba_sync.Prelude.{
  ℕ, Str, codes, ◌≡◌, refl, Option, none, some, List, [], ◌∷◌, str_eq, str_beq, contains,
}
use suba_sync.Prelude.Dict.{lookup, insert}
use suba_sync.Text.{is_space}
use suba_sync.Text.Decimal.{stoi}
use suba_sync.Json.Sample.{sample, sample-IsJson}
use suba_sync.Settings.{
  Settings, done, refused, init, set_from_string, resolve_key, is_bool_setting, is_bool_literal,
  value_as_string,
}
use suba_sync.Settings.Edits.{edit_all}
use suba_sync.Settings.Table.{settings_specification, settings_specification-IsTyped}
use suba_sync.CommandLine.{
  ArgvSpec, Parsed, ok, exit, parse, parse_args, is_option_token, build_positional_specs,
}
use suba_sync.CommandLine.Loop.{IsGood, parse-IsGood, render, Accepts, parse_args-render}

abbrev place : ℕ → Str → ArgvSpec
place index key = record { index = index; key = key }

abbrev places : List ArgvSpec
places = place 1 (codes "listen_ip") ∷ place 0 (codes "listen_port") ∷ []

abbrev start : Settings sample
unfolding init settings_specification str_beq insert
start = init sample (settings_specification sample)

abbrev specs_of : Option (List ArgvSpec) → List ArgvSpec
specs_of none = []
specs_of (some specs) = specs

abbrev specs : List ArgvSpec
unfolding start build_positional_specs resolve_key str_beq contains
specs = specs_of (build_positional_specs sample places start)

abbrev settings_of : Parsed sample → Settings sample
settings_of (ok s n) = s
settings_of (exit f) = start

abbrev args : List Str
args =
    codes "9100"
    ∷ codes "-v"
    ∷ codes "off"
    ∷ codes "--peer_id"
    ∷ codes "node-1"
    ∷ codes "0.0.0.0"
    ∷ []

ip_is_set :
    value_as_string sample (codes "listen_ip") (settings_of (parse sample specs args start))
    ≡ codes "0.0.0.0"
unfolding specs parse set_from_string is_bool_setting is_bool_literal is_option_token contains
    is_space str_beq insert lookup value_as_string stoi
ip_is_set = refl

parse-IsGood_example : IsGood sample specs (parse sample specs args start)
unfolding specs start edit_all
parse-IsGood_example =
    parse-IsGood sample specs sample-IsJson args start
      (settings_specification-IsTyped sample sample-IsJson [])

abbrev options : List (Str × Str)
options = (codes "v", codes "on") ∷ (codes "id", codes "node-1") ∷ []

abbrev set_to : Str → Str → Settings sample → Settings sample
unfolding set_from_string contains is_space str_beq insert start
set_to key text s = elim (set_from_string sample key text s) [ done s' ↦ s' | refused e ↦ s ]

abbrev verbose : Settings sample
unfolding set_to
verbose = set_to (codes "verbose") (codes "on") start

abbrev named : Settings sample
unfolding verbose
named = set_to (codes "peer_id") (codes "node-1") verbose

options-Accepts : Accepts sample specs options start named
unfolding named resolve_key is_bool_setting is_option_token is_bool_literal
options-Accepts = (
  codes "verbose",
  verbose,
  refl,
  refl,
  λ h. (refl, refl),
  (codes "peer_id", named, refl, refl, λ h. absurd (cc h), refl),
)

parse_args-render_example :
    parse_args sample specs (render sample specs options (codes "9100" ∷ [])) 0 start
    ≡ parse_args sample specs (codes "9100" ∷ []) 0 named
parse_args-render_example =
    parse_args-render sample specs options (codes "9100" ∷ []) 0 start named options-Accepts
