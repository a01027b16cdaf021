-- ===== src/Settings/Files.antt =====
-- Merging a document, the document of the settings, loading and saving (src/settings_manager.hpp).
-- The disk is a function from paths to texts where a file is read, and the text written where one is
-- written; `none` stands for a file that cannot be opened.
use suba_sync.Prelude.{
  Str, codes, Bool, true, false, not, ◌&&◌, ◌||◌, Option, none, some, List, [], ◌∷◌, str_eq,
  if◌then◌else◌, is_empty,
}
use suba_sync.Prelude.Dict.{Dict, lookup, insert}
use suba_sync.Paths.{append_path}
use suba_sync.Json.{JsonApi}
use suba_sync.Settings.{
  Settings, SettingSpec, done, refused, find_spec, convert_and_store, has_setting,
}

module _ (J : JsonApi) where
  -- One round of the loop of `merge_from_json`: an unknown key or an invalid value is passed over.
  unfoldable pub merge_member : Str → J.Json → Settings J → Settings J
  unfolding find_spec convert_and_store
  merge_member key v s = elim (find_spec J key s) [
    | none ↦ s
    | some spec ↦ elim (convert_and_store J spec v s) [ done s' ↦ s' | refused e ↦ s ]
  ]

  unfoldable pub merge_members : Dict Str J.Json → Settings J → Settings J
  unfolding merge_member
  merge_members [] s = s
  merge_members ((key, v) ∷ members) s = merge_members members (merge_member key v s)

  unfoldable pub merge_from_json : J.Json → Settings J → Settings J
  unfolding merge_members
  merge_from_json doc s = elim (J.as_object doc) [
    | none ↦ s
    | some members ↦ merge_members members s
  ]

  -- The loop of `get_json`.
  unfoldable pub collect :
      Bool → List (SettingSpec J) → Dict Str J.Json → Dict Str J.Json → Dict Str J.Json
  collect persistent_only [] settings doc = doc
  collect persistent_only (spec ∷ specs) settings doc =
      let rest = collect persistent_only specs settings in
      if persistent_only && not spec.persistent then rest doc else elim (lookup spec.key settings) [
        | none ↦ rest doc
        | some v ↦ rest (insert spec.key v doc)
      ]

  unfoldable pub get_json : Bool → Settings J → J.Json
  unfolding collect
  get_json persistent_only s = J.object (collect persistent_only s.setting_specs s.settings [])

  -- `set_settings_path`, and `settings_path()` with the current directory.
  unfoldable pub set_settings_path : Str → Settings J → Settings J
  set_settings_path path s = record s { settings_path_override = path }

  unfoldable pub settings_path : Str → Settings J → Str
  settings_path current_path s =
      if not (is_empty s.settings_path_override)
      then s.settings_path_override
      else append_path (append_path current_path (codes ".config")) (codes "settings.json")

  -- `load_from_file`: the settings, and whether it returned true.
  unfoldable pub load_from_file : (Str → Option Str) → Str → Settings J → Settings J × Bool
  unfolding merge_from_json
  load_from_file disk path s = if is_empty path then (s, false) else elim (disk path) [
    | none ↦ (s, false)
    | some text ↦ elim (J.parse text) [
      | none ↦ (s, false)
      | some doc ↦ (merge_from_json doc s, true)
    ]
  ]

  -- `save_to_file`: the text written, or `none` where it returns false.
  unfoldable pub save_to_file : Bool → Str → Settings J → Option Str
  unfolding get_json
  save_to_file opens path s =
      if is_empty path || not opens then none else some (J.dump_indented (get_json true s))

  -- `save_requested` and `help_requested`: a setting that is there and true; `get<bool>` throws on
  -- another type, which is `none`.
  unfoldable pub flag_requested : Str → Settings J → Option Bool
  unfolding has_setting
  flag_requested key s = elim (lookup key s.settings) [ none ↦ some false | some v ↦ J.as_bool v ]
