-- ===== src/Peers.antt =====
-- The peer table of `PeerManager` (src/peer_manager.hpp, src/peer_manager.cpp): which peers are
-- known, which are connected, and which are being dialled. A connection is its identity, a number.
-- The mutex is held over each operation, so an operation is one step.
pub mod Dial
pub mod State
pub mod Budget
pub mod Stuck
mod Tests
use suba_sync.Prelude.{
  ℕ, Str, Bool, true, false, ◌&&◌, not, none, some, List, [], map, ◌==◌, nat_eq, str_eq,
  if◌then◌else◌, is_empty, length, keep_if,
}
use suba_sync.Prelude.Dict.{Dict, lookup, insert, erase}
use suba_sync.Text.{starts_with}

pub data PeerState : Type 0 where
  disconnected connecting connected : PeerState

pub record PeerInfo : Type 0 where
  pub peer_id : Str
  pub display_name : Str
  pub local_addr : Str
  pub external_addr : Str
  pub state : PeerState

-- `std::set<std::string>`
abbrev pub StrSet : Type 0
StrSet = Dict Str (Unit {0})

pub record Mesh : Type 0 where
  pub local_peer_id : Str
  pub local_addr : Str
  pub display_name : Str
  pub external_addr : Str
  pub max_peers : ℕ
  pub peers : Dict Str PeerInfo
  pub connections : Dict Str ℕ
  pub in_progress_connects : StrSet

abbrev pub is_disconnected : PeerState → Bool
is_disconnected disconnected = true
is_disconnected connecting = false
is_disconnected connected = false

-- `PeerInfo::best_addr`
unfoldable pub best_addr : PeerInfo → Str → Str
unfolding starts_with
best_addr p local_subnet =
    if not (is_empty p.local_addr)
      && not (is_empty local_subnet)
      && starts_with local_subnet p.local_addr
    then p.local_addr
    else if not (is_empty p.external_addr)
    then p.external_addr
    else p.local_addr

-- The constructor's part: the node itself is the first peer, and counts as connected.
unfoldable pub init : Str → Str → Str → Str → ℕ → Mesh
unfolding insert
init id display_name local_addr external_addr max_peers = record {
  local_peer_id = id;
  local_addr = local_addr;
  display_name = display_name;
  external_addr = external_addr;
  max_peers = max_peers;
  peers =
      insert id
        (record {
          peer_id = id;
          display_name = display_name;
          local_addr = local_addr;
          external_addr = external_addr;
          state = connected;
        })
        [];
  connections = [];
  in_progress_connects = [];
}

-- `add_peer_discovered`: a known peer keeps its name and state and takes the new addresses.
unfoldable pub add_peer_discovered : Str → Str → Str → Str → Mesh → Mesh
add_peer_discovered peer_id display_name local_addr external_addr m =
    if peer_id == m.local_peer_id then m else elim (lookup peer_id m.peers) [
      | none ↦ record m {
        peers =
            insert peer_id
              (record {
                peer_id = peer_id;
                display_name = display_name;
                local_addr = local_addr;
                external_addr = external_addr;
                state = disconnected;
              })
              m.peers;
      }
      | some p ↦ record m {
        peers =
            insert peer_id (record p { local_addr = local_addr; external_addr = external_addr })
              m.peers;
      }
    ]

-- `on_connected`, its locked part; `true` if the connection is new, and the peer list is sent.
unfoldable pub on_connected : Str → ℕ → Mesh → Mesh × Bool
on_connected peer_id conn m =
    if (elim (lookup peer_id m.connections) [ none ↦ false | some c ↦ c == conn ])
    then (m, false)
    else (
      record m {
        connections = insert peer_id conn m.connections;
        peers = elim (lookup peer_id m.peers) [
          | some p ↦ insert peer_id (record p { state = connected }) m.peers
          | none ↦
              insert peer_id
                (record {
                  peer_id = peer_id;
                  display_name = [];
                  local_addr = [];
                  external_addr = [];
                  state = connected;
                })
                m.peers
        ];
        in_progress_connects = erase peer_id m.in_progress_connects;
      },
      true,
    )

-- `on_disconnected`
unfoldable pub on_disconnected : Str → Mesh → Mesh
on_disconnected peer_id m = record m {
  connections = erase peer_id m.connections;
  peers = elim (lookup peer_id m.peers) [
    | some p ↦ insert peer_id (record p { state = disconnected }) m.peers
    | none ↦ m.peers
  ];
  in_progress_connects = erase peer_id m.in_progress_connects;
}

unfoldable pub known_peer_count : Mesh → ℕ
known_peer_count m = length m.peers

unfoldable pub connected_peer_count : Mesh → ℕ
connected_peer_count m = length m.connections

-- The recipients of `broadcast_json`.
unfoldable pub broadcast_targets : Str → Mesh → List ℕ
broadcast_targets exclude_peer_id m =
    map (λ (id, c). c) (keep_if (λ (id, c). not (id == exclude_peer_id)) m.connections)
