-- ===== src/Cli.antt =====
-- The command line interface (src/MeshCLI.hpp): how a listing is addressed, and which texts are taken
-- for a hash, a GUID or a reserved path. The conflicts and the ignore rules are in the children.
pub mod Labels
pub mod State
pub mod Ignore
pub mod Conflicts
pub mod Commands
pub mod Stuck
pub mod Leaves
pub mod Kept
pub mod Watches
pub mod Preference
pub mod Reports
pub mod Queue
mod Tests
use suba_sync.Prelude.{
  ℕ, zero, suc, Str, codes, Bool, true, false, not, ◌&&◌, Option, none, some, List, [], ◌∷◌, ◌++◌,
  nat_beq, leb, ◌==◌, str_eq, if◌then◌else◌, is_empty, length, take, drop,
}
use suba_sync.Prelude.Dict.{Dict}
use suba_sync.Text.{trim_copy, drop_end, starts_with, front?, find, is_xdigit}
use suba_sync.Paths.{slash, is_slash, drop_slash, drop_dot, is_within_any, reserved}
use suba_sync.Peers.{Mesh, PeerInfo}

-- `trim`, one leading slash, the slashes at the end, and `.` or `./`.
unfoldable pub normalize_cli_path : Str → Str
unfolding trim_copy drop_end drop_dot
normalize_cli_path cli_path =
    let path = trim_copy cli_path in
    if is_empty path then [] else drop_dot (drop_end is_slash (drop_slash path))

unfoldable pub all_xdigits : Str → Bool
unfolding is_xdigit
all_xdigits [] = true
all_xdigits (c ∷ s) = is_xdigit c && all_xdigits s

unfoldable pub looks_like_hash : Str → Bool
unfolding all_xdigits
looks_like_hash s = if is_empty s then false else all_xdigits s && leb 8 (length s)

unfoldable pub looks_like_dir_guid : Str → Bool
unfolding starts_with
looks_like_dir_guid s = starts_with (codes "dir-") s

unfoldable pub is_internal_listing_path : Str → Bool
unfolding is_within_any
is_internal_listing_path s = if is_empty s then false else is_within_any reserved s

-- `ListCommand::Type`
pub data ListType : Type 0 where
  local_path remote_path remote_hash hash_all directory_guid remote_directory_guid : ListType

pub record ListCommand : Type 0 where
  pub kind : ListType
  pub peer : Str
  pub path : Str
  pub hash : Str
  pub dir_guid : Str

abbrev pub at_path : ListType → Str → Str → ListCommand
at_path kind peer path = record { kind = kind; peer = peer; path = path; hash = []; dir_guid = [] }

abbrev pub at_hash : ListType → Str → Str → ListCommand
at_hash kind peer hash = record { kind = kind; peer = peer; path = []; hash = hash; dir_guid = [] }

abbrev pub at_guid : ListType → Str → Str → ListCommand
at_guid kind peer guid = record { kind = kind; peer = peer; path = []; hash = []; dir_guid = guid }

-- The loop of `is_known_peer` over the peer list.
unfoldable pub is_known_among : Str → Dict Str PeerInfo → Bool
is_known_among peer [] = false
is_known_among peer ((id, p) ∷ peers) =
    if p.peer_id == peer then true else is_known_among peer peers

unfoldable pub is_known_peer : Str → Mesh → Bool
unfolding is_known_among
is_known_peer peer m = is_known_among peer m.peers

-- The text has no colon.
unfoldable pub parse_unqualified : (Str → Bool) → Str → ListCommand
unfolding normalize_cli_path looks_like_hash looks_like_dir_guid
parse_unqualified known input =
    if starts_with (slash ∷ []) input
    then at_path local_path [] (normalize_cli_path input)
    else if looks_like_dir_guid input
    then at_guid directory_guid [] input
    else if known input
    then at_path remote_path input []
    else if looks_like_hash input
    then at_hash hash_all [] input
    else at_path local_path [] (normalize_cli_path input)

-- A path behind a peer: a single name that looks like a GUID is one.
unfoldable pub parse_remote_path : Str → Str → ListCommand
unfolding find looks_like_dir_guid
parse_remote_path peer path = elim (find slash path) [
  | some i ↦ at_path remote_path peer path
  | none ↦
      if looks_like_dir_guid path
      then at_guid remote_directory_guid peer path
      else at_path remote_path peer path
]

-- The text behind the colon.
unfoldable pub parse_qualified : Str → Str → ListCommand
unfolding normalize_cli_path parse_remote_path looks_like_hash looks_like_dir_guid
parse_qualified peer remainder =
    if is_empty remainder
    then at_path remote_path peer []
    else if starts_with (slash ∷ []) remainder
    then parse_remote_path peer (normalize_cli_path remainder)
    else if looks_like_dir_guid remainder
    then at_guid remote_directory_guid peer remainder
    else if looks_like_hash remainder
    then at_hash remote_hash peer remainder
    else at_path remote_path peer (normalize_cli_path remainder)

-- The text with the place of its first colon.
unfoldable pub parse_at : (Str → Bool) → Str → Option ℕ → Option ListCommand
unfolding parse_unqualified parse_qualified
parse_at known input none = some (parse_unqualified known input)
parse_at known input (some zero) = none
parse_at known input (some (suc n)) =
    some (parse_qualified (take (suc n) input) (drop (suc (suc n)) input))

unfoldable pub parse_list_command : (Str → Bool) → Str → Option ListCommand
unfolding trim_copy find parse_at
parse_list_command known raw =
    let input = trim_copy raw in
    if is_empty input
    then some (at_path local_path [] [])
    else parse_at known input (find b':' input)

-- `format_remote_source_label`
unfoldable pub format_remote_source_label : Str → Str → Str
format_remote_source_label peer path_or_guid =
    if is_empty peer then path_or_guid else peer ++ codes ":/" ++ path_or_guid
