-- ===== src/Directories.antt =====
-- The directory registry of `PeerManager` (src/peer_manager.cpp): the GUIDs of directories, the
-- directories of GUIDs, and the peer that each GUID comes from. The random numbers that the
-- generator draws are an argument, a list; a function returns `none` where they run out.
pub mod Pairing
pub mod Calls
pub mod Ensure
pub mod Supply
mod Tests
use mathlib.Core.Option
use suba_sync.Prelude.{
  ℕ, Str, codes, Bool, true, false, ◌||◌, Option, none, some, List, [], ◌∷◌, ◌==◌, str_eq, str_beq,
  if◌then◌else◌, is_empty,
}
use suba_sync.Prelude.Dict.{Dict, lookup, insert, erase, has}
use suba_sync.Hex.{generate_directory_guid}
use suba_sync.Paths.{
  normalize_relative_path, is_internal_path, parent_path, filename, elements, append_path,
}

pub record Directories : Type 0 where
  pub path_to_dir_guid : Dict Str Str
  pub dir_guid_to_path : Dict Str Str
  pub dir_guid_origin : Dict Str Str

-- The numbers that the generator will draw, two for a GUID.
abbrev pub Draws : Type 0
Draws = List (ℕ × ℕ)

-- `do { guid = generate_directory_guid(); } while(taken.count(guid));`
unfoldable pub fresh_guid : Dict Str Str → Draws → Option (Str × Draws)
fresh_guid taken [] = none
fresh_guid taken (d ∷ draws) =
    let again = fresh_guid taken draws in
    if has (generate_directory_guid d) taken then again else some (generate_directory_guid d, draws)

-- The directories from `accum` down; `none` for the early return at a reserved one.
unfoldable pub collect_dirs : Str → List Str → Option (List Str)
collect_dirs accum [] = some []
collect_dirs accum (e ∷ es) =
    let rest = collect_dirs (append_path accum e) es in
    if is_internal_path (append_path accum e)
    then none
    else Option.map (λ dirs. append_path accum e ∷ dirs) rest

-- The unlocked part of `register_directory_hierarchy`: the directories to register.
unfoldable pub hierarchy_dirs : Str → Option (List Str)
unfolding collect_dirs
hierarchy_dirs relative_path =
    if is_internal_path (normalize_relative_path relative_path)
    then none
    else Option.map (λ dirs. [] ∷ dirs)
        (collect_dirs [] (elements (normalize_relative_path relative_path)))

-- The three assignments of the loop.
unfoldable pub assign : Str → Str → Str → Directories → Directories
assign self dir guid d = record {
  path_to_dir_guid = insert dir guid d.path_to_dir_guid;
  dir_guid_to_path = insert guid dir d.dir_guid_to_path;
  dir_guid_origin = insert guid self d.dir_guid_origin;
}

-- The locked loop.
unfoldable pub add_dirs : Str → List Str → Directories → Draws → Option (Directories × Draws)
unfolding fresh_guid assign
add_dirs self [] d draws = some (d, draws)
add_dirs self (dir ∷ dirs) d draws =
    let skipped = add_dirs self dirs d draws in
    if is_internal_path dir || has dir d.path_to_dir_guid
    then skipped
    else elim (fresh_guid d.dir_guid_to_path draws) [
      | none ↦ none
      | some (guid, draws') ↦ add_dirs self dirs (assign self dir guid d) draws'
    ]

unfoldable pub register_directory_hierarchy :
    Str → Str → Directories → Draws → Option (Directories × Draws)
unfolding hierarchy_dirs add_dirs
register_directory_hierarchy self relative_path d draws = elim (hierarchy_dirs relative_path) [
  | none ↦ some (d, draws)
  | some dirs ↦ add_dirs self dirs d draws
]

-- `return path_to_dir_guid_[path];`, which enters an empty GUID for a path that is missing.
unfoldable pub guid_or_enter : Str → Directories → Str × Directories
guid_or_enter path d = elim (lookup path d.path_to_dir_guid) [
  | some guid ↦ (guid, d)
  | none ↦ ([], record d { path_to_dir_guid = insert path [] d.path_to_dir_guid })
]

unfoldable pub ensure_directory_guid :
    Str → Str → Directories → Draws → Option ((Str × Directories) × Draws)
unfolding register_directory_hierarchy guid_or_enter
ensure_directory_guid self relative_path d draws =
    let path = normalize_relative_path relative_path in
    if is_internal_path path then some (([], d), draws) else elim (lookup path d.path_to_dir_guid) [
      | some guid ↦ some ((guid, d), draws)
      | none ↦
          Option.map (λ (d', draws'). (guid_or_enter path d', draws'))
            (register_directory_hierarchy self path d draws)
    ]

unfoldable pub resolve_directory_guid : Str → Directories → Option Str
resolve_directory_guid guid d = elim (lookup guid d.dir_guid_to_path) [
  | none ↦ none
  | some path ↦ if is_internal_path path then none else some path
]

-- The locked part of `register_directory_with_guid`: the pair replaces what either half was paired with.
unfoldable pub replace_pair : Str → Str → Directories → Directories
replace_pair path guid d =
    let by_path : Dict Str Str = elim (lookup guid d.dir_guid_to_path) [
      | none ↦ d.path_to_dir_guid
      | some old ↦ if old == path then d.path_to_dir_guid else erase old d.path_to_dir_guid
    ] in
    elim (lookup path by_path) [
      | none ↦ record d {
        path_to_dir_guid = insert path guid by_path;
        dir_guid_to_path = insert guid path d.dir_guid_to_path;
      }
      | some old ↦ if old == guid then record d { path_to_dir_guid = by_path } else record d {
        path_to_dir_guid = insert path guid by_path;
        dir_guid_to_path = insert guid path (erase old d.dir_guid_to_path);
      }
    ]

-- The hierarchy above the path, unless the path is the root or stands in it.
unfoldable pub register_parents : Str → Str → Directories → Draws → Option (Directories × Draws)
unfolding register_directory_hierarchy
register_parents self path d draws =
    if is_empty path || is_empty (parent_path path)
    then some (d, draws)
    else register_directory_hierarchy self (parent_path path) d draws

unfoldable pub register_directory_with_guid :
    Str → Str → Str → Directories → Draws → Option (Directories × Draws)
unfolding register_parents replace_pair
register_directory_with_guid self relative_path guid d draws =
    let path = normalize_relative_path relative_path in
    if is_empty guid || is_internal_path path
    then some (d, draws)
    else Option.map (λ (d', draws'). (replace_pair path guid d', draws'))
        (register_parents self path d draws)

-- `unregister_directory_guid`; the entry of the root directory stays.
unfoldable pub unregister_directory_guid : Str → Directories → Directories
unregister_directory_guid guid d =
    if is_empty guid then d else elim (lookup guid d.dir_guid_to_path) [
      | none ↦ d
      | some path ↦ record {
        path_to_dir_guid =
            if is_empty path then d.path_to_dir_guid else elim (lookup path d.path_to_dir_guid) [
              | none ↦ d.path_to_dir_guid
              | some g ↦ if g == guid then erase path d.path_to_dir_guid else d.path_to_dir_guid
            ];
        dir_guid_to_path = erase guid d.dir_guid_to_path;
        dir_guid_origin = erase guid d.dir_guid_origin;
      }
    ]

unfoldable pub set_directory_origin : Str → Str → Directories → Directories
set_directory_origin guid origin_peer d = if is_empty guid then d else record d {
  dir_guid_origin =
      if is_empty origin_peer
      then erase guid d.dir_guid_origin
      else insert guid origin_peer d.dir_guid_origin;
}

unfoldable pub directory_origin : Str → Directories → Option Str
directory_origin guid d = if is_empty guid then none else lookup guid d.dir_guid_origin

-- `directory_guid_for_path`: the GUID of the directory that holds the path.
unfoldable pub directory_guid_for_path : Str → Directories → Option Str
directory_guid_for_path relative_path d =
    let path = normalize_relative_path relative_path in
    if is_internal_path path
    then none
    else lookup (if is_empty path || is_empty (filename path) then path else parent_path path)
        d.path_to_dir_guid
