-- ===== src/Messages/Handlers.antt =====
-- What `PeerManager::handle_message` does with each type of message, but for the chunk messages
-- (src/peer_manager.cpp). A connection is its number; what is sent, called, said or written is a
-- list of effects, in the order in which they are asked for; a send that is posted runs later.
use suba_sync.Prelude.{
  ℕ, Str, Bool, true, false, not, ◌||◌, Option, none, some, List, [], ◌∷◌, ◌++◌, map, ℤ, pos,
  negsuc, nat_eq, str_eq, leb, ◌==◌, if◌then◌else◌, is_empty, ◌-◌,
}
use suba_sync.Prelude.Dict.{Dict, lookup, insert}
use suba_sync.Paths.{append_path, slash}
use suba_sync.Text.{starts_with}
use suba_sync.Directories.{resolve_directory_guid, directory_origin}
use suba_sync.Shares.{RemoteListingItem, Shares, local_listing_for_hash}
use suba_sync.Shares.Listing.{file_item, local_listing_items_for_path}
use suba_sync.Requests.{Requests, handle_list_response}
use suba_sync.Peers.{Mesh, add_peer_discovered, on_connected, broadcast_targets}
use suba_sync.Peers.Dial.{Dial, attempt_connect_more}
use suba_sync.Json.{JsonApi}
use suba_sync.Messages.{
  Announce, ListRequest, default_ttl, make_peer_announce, make_peer_list, make_peer_list_json,
  list_response_doc, with_ttl, read_peer,
}

-- The node: the peers and the directories, the pending list requests, and the peer id that each
-- connection has been given.
pub record Node (H : Type 0) : Type 0 where
  pub mesh : Mesh
  pub shares : Shares
  pub requests : Requests (Option H)
  pub peer_ids : Dict ℕ Str

pub data Effect (J : JsonApi) (H : Type 0) : Type 0 where
  send_on : ℕ → J.Json → Effect J H
  call : H → List RemoteListingItem → Effect J H
  chat_message : Str → Str → Effect J H
  dial : Dial → Effect J H
  write_file : Str → Str → Effect J H

-- The node after a message, the effects, and whether an exception ended the handling.
pub record Handled (J : JsonApi) (H : Type 0) : Type 0 where
  pub node : Node H
  pub effects : List (Effect J H)
  pub threw : Bool

-- `conn->peer_id()`, empty until it is set.
unfoldable pub peer_id_of : {H : Type 0} → ℕ → Node H → Str
peer_id_of conn n = elim (lookup conn n.peer_ids) [ none ↦ [] | some id ↦ id ]

-- `path / name`: an absolute name replaces the path.
unfoldable pub join_path : Str → Str → Str
unfolding append_path starts_with
join_path path name = if starts_with (slash ∷ []) name then name else append_path path name

-- `ttl > 1` and `ttl - 1`; `none` where the message is not passed on.
unfoldable pub next_ttl : ℤ → Option ℤ
next_ttl (pos n) = if leb n 1 then none else some (pos (n - 1))
next_ttl (negsuc n) = none

abbrev pub is_full_ttl : ℤ → Bool
is_full_ttl (pos n) = leb default_ttl n
is_full_ttl (negsuc n) = false

module _ (J : JsonApi) {H : Type 0} where
  abbrev pub quiet : Node H → Handled J H
  quiet n = record { node = n; effects = []; threw = false }

  abbrev pub thrown : Node H → Handled J H
  thrown n = record { node = n; effects = []; threw = true }

  -- `broadcast_json`
  unfoldable pub broadcast_json : J.Json → Str → Mesh → List (Effect J H)
  unfolding broadcast_targets
  broadcast_json j exclude_peer_id m =
      map (λ conn. send_on conn j) (broadcast_targets exclude_peer_id m)

  -- `set_peer_id` and `on_connected`, which sends the peer list on a new connection.
  unfoldable pub bind_peer : ℕ → Str → Node H → Handled J H
  unfolding on_connected make_peer_list make_peer_list_json
  bind_peer conn peer_id n =
      let (m, is_new) = on_connected peer_id conn n.mesh in
      record {
        node = record n { mesh = m; peer_ids = insert conn peer_id n.peer_ids };
        effects =
            if is_new then send_on conn (make_peer_list J (make_peer_list_json J m)) ∷ [] else [];
        threw = false;
      }

  -- The end of the branch: which peer the connection belongs to.
  unfoldable pub settle_peer : ℕ → Announce → Node H → Handled J H
  unfolding bind_peer peer_id_of
  settle_peer conn a n =
      if is_empty (peer_id_of conn n)
      then bind_peer conn a.peer_id n
      else if peer_id_of conn n == a.peer_id
      then quiet n
      else if is_full_ttl a.ttl
      then bind_peer conn a.peer_id n
      else quiet n

  -- The documents that are passed on.
  unfoldable pub forwards : J.Json → Announce → Mesh → List (Effect J H)
  unfolding next_ttl with_ttl broadcast_json
  forwards j a m = elim (next_ttl a.ttl) [
    | none ↦ []
    | some ttl ↦ elim (with_ttl J ttl j) [ none ↦ [] | some fwd ↦ broadcast_json fwd a.peer_id m ]
  ]

  -- The branch `peer_announce`, with its members.
  unfoldable pub announce : ℕ → J.Json → Announce → Node H → Handled J H
  unfolding add_peer_discovered forwards settle_peer
  announce conn j a n =
      if is_empty a.peer_id || is_empty a.local_addr
      then quiet n
      else (let m =
            add_peer_discovered a.peer_id a.display_name a.local_addr a.external_addr n.mesh in
          let h = settle_peer conn a (record n { mesh = m }) in
          record h { effects = forwards j a m ++ h.effects })

  -- One element of a `peer_list`.
  unfoldable pub discover : Announce → Node H → Handled J H
  unfolding add_peer_discovered make_peer_announce broadcast_json
  discover a n =
      if is_empty a.peer_id
      then quiet n
      else (let m =
            add_peer_discovered a.peer_id a.display_name a.local_addr a.external_addr n.mesh in
          record {
            node = record n { mesh = m };
            effects =
                broadcast_json
                  (make_peer_announce J a.peer_id a.local_addr a.display_name a.external_addr a.ttl)
                  a.peer_id m;
            threw = false;
          })

  -- The loop of the branch `peer_list`, and `attempt_connect_more` behind it.
  unfoldable pub peer_list : List J.Json → Node H → Handled J H
  unfolding read_peer discover attempt_connect_more
  peer_list [] n =
      let attempt = attempt_connect_more n.mesh in
      record {
        node = record n { mesh = attempt.mesh };
        effects = map dial attempt.dials;
        threw = attempt.threw;
      }
  peer_list (item ∷ items) n = elim (read_peer J item) [
    | none ↦ thrown n
    | some a ↦
        let h = discover a n in
        let rest = peer_list items h.node in record rest { effects = h.effects ++ rest.effects }
  ]

  -- The items of `handle_list_request`.
  unfoldable pub listed_items : ListRequest → Node H → List RemoteListingItem
  unfolding local_listing_for_hash local_listing_items_for_path resolve_directory_guid
      directory_origin
  listed_items r n =
      let self = n.mesh.local_peer_id in
      if not (is_empty r.hash)
      then map (file_item self) (local_listing_for_hash r.hash n.shares)
      else if not (is_empty r.dir_guid)
      then elim (resolve_directory_guid r.dir_guid n.shares.directories) [
        | none ↦ []
        | some path ↦
            record {
              peer_id = self;
              hash = [];
              relative_path = [];
              size = 0;
              is_directory = true;
              directory_guid = r.dir_guid;
              origin_peer = elim (directory_origin r.dir_guid n.shares.directories) [
                | none ↦ self
                | some origin ↦ origin
              ];
              listing_root_path = path;
            }
            ∷ local_listing_items_for_path self path n.shares
      ]
      else local_listing_items_for_path self r.path n.shares

  -- `send_json_to_peer`
  unfoldable pub send_json_to_peer : Str → J.Json → Node H → List (Effect J H)
  send_json_to_peer peer_id j n = elim (lookup peer_id n.mesh.connections) [
    | none ↦ []
    | some conn ↦ send_on conn j ∷ []
  ]

  -- `handle_list_request`; `refresh` is the callback that brings the shares up to date.
  unfoldable pub handle_list_request : (Shares → Shares) → Str → ListRequest → Node H → Handled J H
  unfolding listed_items list_response_doc send_json_to_peer
  handle_list_request refresh requester r n =
      let n' : Node H = record n { shares = refresh n.shares } in
      record {
        node = n';
        effects =
            send_json_to_peer requester
              (list_response_doc J n.mesh.local_peer_id r.request_id (listed_items r n')) n';
        threw = false;
      }

  -- The end of the branch `list_response`.
  unfoldable pub answer : Str → Str → List RemoteListingItem → Node H → Handled J H
  unfolding handle_list_response
  answer from_peer request_id items n =
      if is_empty request_id
      then quiet n
      else (let (called, requests) = handle_list_response from_peer request_id items n.requests in
          record {
            node = record n { requests = requests };
            effects = elim called [ none ↦ [] | some (handler, given) ↦ call handler given ∷ [] ];
            threw = false;
          })
