-- ===== src/Messages.antt =====
-- The documents that peers exchange (src/protocol.cpp, src/peer_manager.cpp): how they are built, and
-- how `PeerManager::handle_message` reads them, with `none` where `value` throws.
pub mod Handlers
pub mod Dispatch
pub mod Reading
pub mod Listing
pub mod Exchange
pub mod Sent
pub mod Relay
mod Tests
use suba_sync.Prelude.{
  ℕ, Str, codes, Bool, true, false, Option, none, some, List, [], ◌∷◌, map, ℤ, pos, str_eq,
  if◌then◌else◌, is_empty, ◌>>=◌,
}
use suba_sync.Prelude.Dict.{Dict, insert}
use suba_sync.Peers.{Mesh, PeerInfo}
use suba_sync.Shares.{RemoteListingItem}
use suba_sync.Json.{JsonApi}

-- `kPeerAnnounceDefaultTTL`
abbrev pub default_ttl : ℕ
default_ttl = 5

-- `if(!v.empty()) j[key] = v;`
unfoldable pub optional : {V : Type 0} → (Str → V) → Str → Str → Dict Str V → Dict Str V
optional string key v rest = if is_empty v then rest else (key, string v) ∷ rest

-- The members of a `peer_announce`.
pub record Announce : Type 0 where
  pub peer_id : Str
  pub display_name : Str
  pub local_addr : Str
  pub external_addr : Str
  pub ttl : ℤ

-- The members of a `list_request`.
pub record ListRequest : Type 0 where
  pub request_id : Str
  pub path : Str
  pub hash : Str
  pub dir_guid : Str

module _ (J : JsonApi) where
  unfoldable pub make_peer_announce : Str → Str → Str → Str → ℤ → J.Json
  make_peer_announce peer_id local_addr display_name external_addr ttl = J.object (
      (codes "type", J.string (codes "peer_announce"))
      ∷ (codes "peer_id", J.string peer_id)
      ∷ (codes "display_name", J.string display_name)
      ∷ (codes "local_addr", J.string local_addr)
      ∷ (codes "external_addr", J.string external_addr)
      ∷ (codes "ttl", J.integer ttl)
      ∷ [])

  unfoldable pub make_peer_list : J.Json → J.Json
  make_peer_list peers_array =
      J.object ((codes "type", J.string (codes "peer_list")) ∷ (codes "peers", peers_array) ∷ [])

  unfoldable pub peer_doc : PeerInfo → J.Json
  peer_doc p = J.object (
      (codes "peer_id", J.string p.peer_id)
      ∷ (codes "display_name", J.string p.display_name)
      ∷ (codes "local_addr", J.string p.local_addr)
      ∷ (codes "external_addr", J.string p.external_addr)
      ∷ [])

  unfoldable pub make_peer_list_json : Mesh → J.Json
  unfolding peer_doc
  make_peer_list_json m = J.array (map (λ (id, p). peer_doc p) m.peers)

  -- The document of `request_peer_listing`.
  unfoldable pub list_request_doc : ListRequest → J.Json
  unfolding optional
  list_request_doc r = J.object (
      (codes "type", J.string (codes "list_request"))
      ∷ (codes "request_id", J.string r.request_id)
      ∷ optional J.string (codes "path") r.path (
          optional J.string (codes "hash") r.hash
            (optional J.string (codes "dir_guid") r.dir_guid [])))

  -- An item of the answer of `handle_list_request`.
  unfoldable pub item_doc : RemoteListingItem → J.Json
  unfolding optional
  item_doc i = J.object (
      (codes "hash", J.string i.hash)
      ∷ (codes "path", J.string i.relative_path)
      ∷ (codes "size", J.number i.size)
      ∷ (codes "is_dir", J.boolean i.is_directory)
      ∷ optional J.string (codes "dir_guid") i.directory_guid (
          optional J.string (codes "origin") i.origin_peer
            (optional J.string (codes "root_path") i.listing_root_path [])))

  unfoldable pub list_response_doc : Str → Str → List RemoteListingItem → J.Json
  unfolding item_doc
  list_response_doc self request_id items = J.object (
      (codes "type", J.string (codes "list_response"))
      ∷ (codes "request_id", J.string request_id)
      ∷ (codes "peer_id", J.string self)
      ∷ (codes "entries", J.array (map item_doc items))
      ∷ [])

  -- `fwd = j; fwd["ttl"] = ttl;`
  unfoldable pub with_ttl : ℤ → J.Json → Option J.Json
  with_ttl ttl j = elim (J.as_object j) [
    | none ↦ none
    | some members ↦ some (J.object (insert (codes "ttl") (J.integer ttl) members))
  ]

  -- `j.value(key, "")`
  abbrev pub text_at : J.Json → Str → Option Str
  text_at j key = J.value_string j key []

  unfoldable pub read_announce : J.Json → Option Announce
  read_announce j = do
    peer_id ← text_at j (codes "peer_id")
    display_name ← text_at j (codes "display_name")
    local_addr ← text_at j (codes "local_addr")
    external_addr ← text_at j (codes "external_addr")
    ttl ← J.value_integer j (codes "ttl") (pos default_ttl)
    some (record {
      peer_id = peer_id;
      display_name = display_name;
      local_addr = local_addr;
      external_addr = external_addr;
      ttl = ttl;
    })

  -- An element of a `peer_list`; its members but the last.
  unfoldable pub read_peer : J.Json → Option Announce
  read_peer item = do
    peer_id ← text_at item (codes "peer_id")
    display_name ← text_at item (codes "display_name")
    local_addr ← text_at item (codes "local_addr")
    external_addr ← text_at item (codes "external_addr")
    some (record {
      peer_id = peer_id;
      display_name = display_name;
      local_addr = local_addr;
      external_addr = external_addr;
      ttl = pos 3;
    })

  unfoldable pub read_list_request : J.Json → Option ListRequest
  read_list_request j = do
    request_id ← text_at j (codes "request_id")
    path ← text_at j (codes "path")
    hash ← text_at j (codes "hash")
    dir_guid ← text_at j (codes "dir_guid")
    some (record { request_id = request_id; path = path; hash = hash; dir_guid = dir_guid })

  unfoldable pub read_item : Str → J.Json → Option RemoteListingItem
  read_item from_peer entry = do
    hash ← text_at entry (codes "hash")
    path ← text_at entry (codes "path")
    size ← J.value_number entry (codes "size") 0
    is_dir ← J.value_bool entry (codes "is_dir") false
    dir_guid ← text_at entry (codes "dir_guid")
    origin ← text_at entry (codes "origin")
    root_path ← text_at entry (codes "root_path")
    some (record {
      peer_id = from_peer;
      hash = hash;
      relative_path = path;
      size = size;
      is_directory = is_dir;
      directory_guid = dir_guid;
      origin_peer = origin;
      listing_root_path = root_path;
    })

  -- The loop over `entries`.
  unfoldable pub read_items : Str → List J.Json → Option (List RemoteListingItem)
  unfolding read_item
  read_items from_peer [] = some []
  read_items from_peer (entry ∷ entries) = do
    item ← read_item from_peer entry
    items ← read_items from_peer entries
    some (item ∷ items)

  unfoldable pub read_entries : Str → J.Json → Option (List RemoteListingItem)
  unfolding read_items
  read_entries from_peer j = elim (J.member j (codes "entries")) [
    | none ↦ some []
    | some entries ↦ elim (J.as_array entries) [
      | none ↦ some []
      | some elements ↦ read_items from_peer elements
    ]
  ]
