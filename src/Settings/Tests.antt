-- ===== src/Settings/Tests.antt =====
-- The program's settings on sample documents.
use suba_sync.Prelude.{
  Str, codes, true, false, ◌≡◌, refl, Option, some, List, [], ◌∷◌, str_eq, str_beq, All, contains,
  All-Member, ◌==◌,
}
use suba_sync.Prelude.Dict.{lookup, insert}
use suba_sync.Text.{is_space}
use suba_sync.Json.Sample.{Doc, sample, sample_with, sample-IsJson, sample_with-IsJson}
use suba_sync.Settings.{
  RawSpec, SettingSpec, Settings, Outcome, done, refused, init, resolve_key, find_spec,
  set_from_string, value_as_string,
}
use suba_sync.Settings.Files.{get_json, save_to_file, load_from_file}
use suba_sync.Settings.Typed.{IsTyped}
use suba_sync.Settings.Edits.{Edit, from_string, load, edit_all}
use suba_sync.Settings.Table.{
  settings_specification, resolve_key-settings_specification, settings_specification-IsTyped,
  settings_specification-AreFound,
}
use suba_sync.Settings.Stored.{Shows, set_from_string_lem}
use suba_sync.Settings.Saved.{AreFound, load-save_to_file}

abbrev edits : List (Edit sample)
edits =
    from_string (codes "LP") (codes " 9100 ")
    ∷ from_string (codes "v") (codes "maybe")
    ∷ load (λ path. some (codes "{}")) (codes "settings.json")
    ∷ []

settings_specification-IsTyped_example :
    IsTyped sample (edit_all sample edits (init sample (settings_specification sample)))
settings_specification-IsTyped_example = settings_specification-IsTyped sample sample-IsJson edits

resolve_key-settings_specification_example :
    All
      (λ (r : RawSpec sample).
        All
          (λ (name : Str).
            resolve_key sample name (init sample (settings_specification sample)) ≡ some r.key)
          (r.key ∷ r.aliases))
      (settings_specification sample)
resolve_key-settings_specification_example = resolve_key-settings_specification sample

abbrev start : Settings sample
unfolding init settings_specification str_beq insert
start = init sample (settings_specification sample)

abbrev settings_of : Outcome (Settings sample) → Settings sample
settings_of (done s) = s
settings_of (refused e) = start

abbrev renamed : Settings sample
unfolding start set_from_string str_beq insert contains is_space
renamed = settings_of (set_from_string sample (codes "ID") (codes " node-1 ") start)

shown : value_as_string sample (codes "peer_id") renamed ≡ codes "node-1"
unfolding renamed value_as_string lookup
shown = refl

set_from_string_lem_example :
    (spec : SettingSpec sample) × (find_spec sample (codes "ID") start ≡ some spec)
    × Shows sample spec.kind (codes " node-1 ") (value_as_string sample spec.key renamed)
    × ((j : Str) → (spec.key == j) ≡ false → lookup j renamed.settings ≡ lookup j start.settings)
unfolding renamed set_from_string
set_from_string_lem_example =
    set_from_string_lem sample sample-IsJson (codes "ID") (codes " node-1 ") start renamed refl

-- A parser that reads the one document that is saved.
abbrev saved_doc : Doc
unfolding start get_json lookup insert str_beq
saved_doc = get_json sample true start

abbrev reader : Str → Option Doc
unfolding saved_doc
reader s = some saved_doc

abbrev at_start : Settings (sample_with reader)
unfolding init settings_specification str_beq insert reader
at_start = init (sample_with reader) (settings_specification (sample_with reader))

at_start-AreFound : AreFound (sample_with reader) at_start
unfolding at_start
at_start-AreFound spec m =
    All-Member
      (λ (x : SettingSpec (sample_with reader)).
        find_spec (sample_with reader) x.key at_start ≡ some x)
      at_start.setting_specs spec (settings_specification-AreFound (sample_with reader)) m

load-save_to_file_example :
    (load_from_file (sample_with reader) (λ path. some []) (codes "s") at_start).1 ≡ true
unfolding at_start save_to_file get_json lookup insert str_beq saved_doc reader edit_all
load-save_to_file_example =
    (load-save_to_file (sample_with reader) (sample_with-IsJson reader) (λ path. some [])
      (codes "s") [] at_start at_start
      (settings_specification-IsTyped (sample_with reader) (sample_with-IsJson reader) [])
      at_start-AreFound refl refl refl refl).0
