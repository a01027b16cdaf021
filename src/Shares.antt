-- ===== src/Shares.antt =====
-- The shared files of `PeerManager` and their listings (src/peer_manager.hpp, src/peer_manager.cpp).
-- The order of the two maps' entries stands for the order of iteration.
pub mod Files
pub mod Listing
pub mod Children
pub mod Below
pub mod First
pub mod Shown
pub mod Sorted
pub mod Distinct
pub mod Complete
mod Tests
use mathlib.Core.Option
use suba_sync.Prelude.{
  ℕ, Str, codes, Bool, true, false, Option, none, some, List, [], ◌∷◌, str_eq, if◌then◌else◌,
}
use suba_sync.Prelude.Dict.{Dict, lookup, insert}
use suba_sync.Paths.{normalize_relative_path, is_internal_path, parent_path}
use suba_sync.Directories.{Directories, Draws, register_directory_hierarchy}

pub record SharedFileEntry : Type 0 where
  pub hash : Str
  pub relative_path : Str
  pub full_path : Str
  pub size : ℕ

pub record RemoteListingItem : Type 0 where
  pub peer_id : Str
  pub hash : Str
  pub relative_path : Str
  pub size : ℕ
  pub is_directory : Bool
  pub directory_guid : Str
  pub origin_peer : Str
  pub listing_root_path : Str

-- `shared_files_by_hash_`, `path_to_hash_`, and the directory registry.
pub record Shares : Type 0 where
  pub shared_files_by_hash : Dict Str SharedFileEntry
  pub path_to_hash : Dict Str Str
  pub directories : Directories

-- The locked block of `register_local_share`.
unfoldable pub enter_file : Str → Str → Str → ℕ → Shares → Shares
enter_file hash path full_path size s = record s {
  shared_files_by_hash =
      insert hash (record { hash = hash; relative_path = path; full_path = full_path; size = size })
        s.shared_files_by_hash;
  path_to_hash = insert path hash s.path_to_hash;
}

unfoldable pub register_local_share :
    Str → Str → Str → Str → ℕ → Shares → Draws → Option (Shares × Draws)
unfolding enter_file
register_local_share self hash relative_path full_path size s draws =
    let path = normalize_relative_path relative_path in
    if is_internal_path path
    then some (s, draws)
    else Option.map
        (λ (d, draws').
          (enter_file hash path full_path size (record s { directories = d }), draws'))
        (register_directory_hierarchy self (parent_path path) s.directories draws)

unfoldable pub find_local_file_by_hash : Str → Shares → Option SharedFileEntry
find_local_file_by_hash hash s = lookup hash s.shared_files_by_hash

unfoldable pub find_local_file_by_path : Str → Shares → Option SharedFileEntry
find_local_file_by_path relative_path s =
    if is_internal_path (normalize_relative_path relative_path)
    then none
    else elim (lookup (normalize_relative_path relative_path) s.path_to_hash) [
      | none ↦ none
      | some hash ↦ lookup hash s.shared_files_by_hash
    ]

unfoldable pub local_listing_for_hash : Str → Shares → List SharedFileEntry
unfolding find_local_file_by_hash
local_listing_for_hash hash s = elim (find_local_file_by_hash hash s) [
  | none ↦ []
  | some entry ↦ entry ∷ []
]
