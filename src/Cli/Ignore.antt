-- ===== src/Cli/Ignore.antt =====
-- The ignore rules (src/MeshCLI.hpp): `classify_ignore_key`, adding and removing a rule, the test of a
-- conflict, and the file `ignore.json`.
use suba_sync.Prelude.{
  Str, codes, Bool, true, false, not, ◌&&◌, ◌||◌, Option, none, some, List, [], ◌∷◌, map, str_eq,
  if◌then◌else◌, is_empty, ◌>>=◌,
}
use suba_sync.Prelude.Dict.{insert, erase, has}
use suba_sync.Text.{starts_with}
use suba_sync.Peers.{StrSet}
use suba_sync.Json.{JsonApi}
use suba_sync.Cli.{normalize_cli_path, looks_like_hash}
use suba_sync.Cli.State.{
  IgnoreConfig, IgnoreKind, by_path, by_hash, by_dir_guid, Conflicts, Run, returns, lock_ignore,
  and_then,
}

unfoldable pub classify_ignore_key : Str → IgnoreKind × Str
unfolding looks_like_hash normalize_cli_path starts_with
classify_ignore_key raw =
    if looks_like_hash raw
    then (by_hash, raw)
    else if starts_with (codes "dir-") raw
    then (by_dir_guid, raw)
    else (by_path, normalize_cli_path raw)

abbrev pub rules : IgnoreKind → IgnoreConfig → StrSet
rules by_path c = c.paths
rules by_hash c = c.hashes
rules by_dir_guid c = c.dir_guids

abbrev pub set_rules : IgnoreKind → StrSet → IgnoreConfig → IgnoreConfig
set_rules by_path keys c = record c { paths = keys }
set_rules by_hash keys c = record c { hashes = keys }
set_rules by_dir_guid keys c = record c { dir_guids = keys }

unfoldable pub is_listed : IgnoreKind × Str → IgnoreConfig → Bool
is_listed (kind, key) c = has key (rules kind c)

-- The three tests of `is_conflict_ignored`.
unfoldable pub ignores : IgnoreConfig → Str → Str → Str → Bool
ignores config path hash dir_guid =
    has hash config.hashes
    || not (is_empty dir_guid) && has dir_guid config.dir_guids
    || has path config.paths

unfoldable pub is_conflict_ignored : Str → Str → Str → Conflicts → Run Bool
unfolding lock_ignore ignores
is_conflict_ignored path hash dir_guid =
    lock_ignore (λ s. returns (ignores s.ignore_config path hash dir_guid) s)

module _ (J : JsonApi) (opens : Bool) where
  abbrev pub names_of : StrSet → J.Json
  names_of keys = J.array (map (λ (key, u). J.string key) keys)

  -- The document of `save_ignore_config`.
  unfoldable pub ignore_doc : IgnoreConfig → J.Json
  ignore_doc c = J.object (
      (codes "paths", names_of c.paths)
      ∷ (codes "hashes", names_of c.hashes)
      ∷ (codes "dir_guids", names_of c.dir_guids)
      ∷ [])

  -- `save_ignore_config`; `opens` says whether the file can be opened.
  unfoldable pub save_ignore_config : Conflicts → Run (Unit {0})
  unfolding lock_ignore ignore_doc
  save_ignore_config s =
      and_then (lock_ignore (λ s'. returns (ignore_doc s'.ignore_config) s') s) (λ doc s'.
        returns tt (record s' {
          ignore_file = if opens then some (J.dump_indented doc) else s'.ignore_file;
        }))

  -- The locked part of `add_ignore_entry`.
  unfoldable pub add_classified : IgnoreKind × Str → Conflicts → Run Bool
  unfolding is_listed save_ignore_config
  add_classified (kind, key) s =
      if is_listed (kind, key) s.ignore_config
      then returns false s
      else and_then
          (save_ignore_config (record s {
            ignore_config =
                set_rules kind (insert key tt (rules kind s.ignore_config)) s.ignore_config;
          }))
          (λ u. returns true)

  unfoldable pub add_ignore_entry : Str → Conflicts → Run Bool
  unfolding classify_ignore_key add_classified lock_ignore
  add_ignore_entry raw_key = lock_ignore (add_classified (classify_ignore_key raw_key))

  -- The locked part of `remove_ignore_entry`.
  unfoldable pub remove_classified : IgnoreKind × Str → Conflicts → Run Bool
  unfolding is_listed save_ignore_config
  remove_classified (kind, key) s =
      if is_listed (kind, key) s.ignore_config
      then and_then
          (save_ignore_config (record s {
            ignore_config = set_rules kind (erase key (rules kind s.ignore_config)) s.ignore_config;
          }))
          (λ u. returns true)
      else returns false s

  unfoldable pub remove_ignore_entry : Str → Conflicts → Run Bool
  unfolding classify_ignore_key remove_classified lock_ignore
  remove_ignore_entry raw_key = lock_ignore (remove_classified (classify_ignore_key raw_key))

module _ (J : JsonApi) where
  -- `load_ignore_config`: the loop over one list, with `none` for the exception.
  unfoldable pub insert_names : List J.Json → StrSet → Option StrSet
  insert_names [] keys = some keys
  insert_names (v ∷ vs) keys = elim (J.as_string v) [
    | none ↦ none
    | some key ↦ insert_names vs (insert key tt keys)
  ]

  unfoldable pub read_names : Str → J.Json → Option StrSet
  unfolding insert_names
  read_names name doc = elim (J.member doc name) [
    | none ↦ some []
    | some names ↦ insert_names (J.elements names) []
  ]

  unfoldable pub read_ignore_config : J.Json → Option IgnoreConfig
  unfolding read_names
  read_ignore_config doc = do
    paths ← read_names (codes "paths") doc
    hashes ← read_names (codes "hashes") doc
    dir_guids ← read_names (codes "dir_guids") doc
    some (record { paths = paths; hashes = hashes; dir_guids = dir_guids })

  -- The file is its text, if it can be opened; a text that is malformed changes nothing.
  unfoldable pub load_ignore_config : Conflicts → Run (Unit {0})
  unfolding lock_ignore read_ignore_config
  load_ignore_config s = elim s.ignore_file [
    | none ↦ returns tt s
    | some text ↦ elim (J.parse text) [
      | none ↦ returns tt s
      | some doc ↦ elim (read_ignore_config doc) [
        | none ↦ returns tt s
        | some config ↦ lock_ignore (λ s'. returns tt (record s' { ignore_config = config })) s
      ]
    ]
  ]
