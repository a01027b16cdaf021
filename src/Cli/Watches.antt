-- ===== src/Cli/Watches.antt =====
-- The watched directories (src/MeshCLI.hpp): the lookups of a watch, where its files go, and the order
-- in which its peers are preferred. The GUID records are their paths, by GUID, of those that are active.
use suba_sync.Prelude.{
  Str, codes, Bool, false, not, ◌&&◌, ◌||◌, Option, none, some, List, [], ◌∷◌, ◌++◌, ◌==◌, str_eq,
  if◌then◌else◌, is_empty, contains,
}
use suba_sync.Prelude.Dict.{Dict, lookup}
use suba_sync.Cli.{normalize_cli_path, is_internal_listing_path}

-- `WatchEntry::Source`
pub record Source : Type 0 where
  pub peer : Str
  pub path : Str

-- `WatchEntry`, less its times.
pub record WatchEntry : Type 0 where
  pub id : Str
  pub sources : List Source
  pub dir_guid : Str
  pub origin_peer : Str
  pub dest_path : Str
  pub dest_is_directory : Bool

-- `DirGuidRecord`, as far as it is read here.
pub record DirGuidRecord : Type 0 where
  pub path : Str
  pub active : Bool

-- The loop of `find_watch_by_guid`.
unfoldable pub first_with_guid : Str → List WatchEntry → Option WatchEntry
first_with_guid guid [] = none
first_with_guid guid (w ∷ watches) =
    let rest = first_with_guid guid watches in if w.dir_guid == guid then some w else rest

unfoldable pub find_watch_by_guid : Str → List WatchEntry → Option WatchEntry
unfolding first_with_guid
find_watch_by_guid guid watches = if is_empty guid then none else first_with_guid guid watches

unfoldable pub has_source : Str → Str → List Source → Bool
has_source peer path [] = false
has_source peer path (s ∷ sources) =
    s.peer == peer && s.path == path || has_source peer path sources

unfoldable pub first_with_source : Str → Str → List WatchEntry → Option WatchEntry
unfolding has_source
first_with_source peer path [] = none
first_with_source peer path (w ∷ watches) =
    let rest = first_with_source peer path watches in
    if has_source peer path w.sources then some w else rest

unfoldable pub find_watch_by_peer_path : Str → Str → List WatchEntry → Option WatchEntry
unfolding first_with_source normalize_cli_path
find_watch_by_peer_path peer path watches = first_with_source peer (normalize_cli_path path) watches

unfoldable pub find_watch_by_id : Str → List WatchEntry → Option WatchEntry
find_watch_by_id id [] = none
find_watch_by_id id (w ∷ watches) =
    let rest = find_watch_by_id id watches in if w.id == id then some w else rest

unfoldable pub active_path_for_guid : Str → Dict Str DirGuidRecord → Option Str
active_path_for_guid guid records = if is_empty guid then none else elim (lookup guid records) [
  | none ↦ none
  | some r ↦ if not r.active || is_empty r.path then none else some r.path
]

-- The path of the first source, marked as the default, or `(unmapped)`.
unfoldable pub default_label : List Source → Str
default_label [] = codes "(unmapped)"
default_label (s ∷ sources) =
    if is_empty s.path then codes "(unmapped)" else s.path ++ codes " (default)"

unfoldable pub watch_local_target_label : Dict Str DirGuidRecord → WatchEntry → Str
unfolding active_path_for_guid default_label
watch_local_target_label records w =
    if not (is_empty w.dest_path)
    then w.dest_path ++ codes " (override)"
    else elim (active_path_for_guid w.dir_guid records) [
      | some path ↦ path
      | none ↦ default_label w.sources
    ]

-- The loop of `watch_binding_path_candidate`.
unfoldable pub first_binding : List Source → Option Str
unfolding is_internal_listing_path
first_binding [] = none
first_binding (s ∷ sources) =
    let rest = first_binding sources in
    if not (is_empty s.path) && not (is_internal_listing_path s.path) then some s.path else rest

unfoldable pub watch_binding_path_candidate : WatchEntry → Option Str
unfolding first_binding
watch_binding_path_candidate w =
    if not (is_empty w.dest_path) && not (is_internal_listing_path w.dest_path)
    then some w.dest_path
    else first_binding w.sources

-- A path that normalising leaves something of.
unfoldable pub kept_path : Str → Option Str
unfolding normalize_cli_path
kept_path path = if is_empty (normalize_cli_path path) then none else some (normalize_cli_path path)

-- The loop of `canonical_watch_destination`.
unfoldable pub first_destination : List Source → Str
unfolding kept_path
first_destination [] = []
first_destination (s ∷ sources) =
    let rest = first_destination sources in
    if is_empty s.path then rest else elim (kept_path s.path) [ none ↦ rest | some path ↦ path ]

-- The directory that the GUID is mapped to, or else `other`.
unfoldable pub mapped_or : Str → Str → Dict Str DirGuidRecord → Str
unfolding active_path_for_guid kept_path
mapped_or other guid records = elim (active_path_for_guid guid records) [
  | none ↦ other
  | some mapped ↦ elim (kept_path mapped) [ none ↦ other | some path ↦ path ]
]

unfoldable pub canonical_watch_destination : Dict Str DirGuidRecord → WatchEntry → Str
unfolding mapped_or first_destination
canonical_watch_destination records w =
    if not (is_empty w.dest_path)
    then normalize_cli_path w.dest_path
    else mapped_or (first_destination w.sources) w.dir_guid records

unfoldable pub requested_watch_destination :
    Dict Str DirGuidRecord → Source → Option Str → Str → Str
unfolding kept_path mapped_or
requested_watch_destination records source dest_override guid =
    let by_guid = mapped_or [] guid records in
    let by_source =
      if is_empty source.path
      then by_guid
      else elim (kept_path source.path) [ none ↦ by_guid | some path ↦ path ] in
    elim dest_override [
      | none ↦ by_source
      | some dest ↦ if is_empty dest then by_source else normalize_cli_path dest
    ]

-- The lambda `add`.
unfoldable pub add_peer : Str → List Str → List Str
add_peer peer peers = if is_empty peer || contains peers peer then peers else peers ++ peer ∷ []

unfoldable pub add_sources : List Source → List Str → List Str
unfolding add_peer
add_sources [] peers = peers
add_sources (s ∷ sources) peers = add_sources sources (add_peer s.peer peers)

unfoldable pub watch_preference_order : WatchEntry → List Str
unfolding add_peer add_sources
watch_preference_order w = add_sources w.sources (add_peer w.origin_peer [])

-- The loop of `watch_guid_for_path`.
unfoldable pub guid_bound_to : Str → List WatchEntry → Option Str
unfolding watch_binding_path_candidate normalize_cli_path
guid_bound_to path [] = none
guid_bound_to path (w ∷ watches) =
    let rest = guid_bound_to path watches in
    if is_empty w.dir_guid then rest else elim (watch_binding_path_candidate w) [
      | none ↦ rest
      | some candidate ↦ if normalize_cli_path candidate == path then some w.dir_guid else rest
    ]

unfoldable pub watch_guid_for_path : Str → List WatchEntry → Option Str
unfolding guid_bound_to normalize_cli_path
watch_guid_for_path relative_path watches =
    let path = normalize_cli_path relative_path in
    if is_empty path then none else guid_bound_to path watches
