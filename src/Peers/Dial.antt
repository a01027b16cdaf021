-- ===== src/Peers/Dial.antt =====
-- `PeerManager::attempt_connect_more` (src/peer_manager.cpp): the dials of one timer tick.
use suba_sync.Prelude.{
  ◌≡◌, refl, ◌⊎◌, inl, inr, ℕ, suc, Str, Bool, true, false, ◌||◌, not, none, some, List, [], ◌∷◌,
  map, ltb, ◌==◌, str_eq, if◌then◌else◌, is_empty, length, take, drop, keep_if,
}
use suba_sync.Prelude.Dict.{lookup, insert, has}
use suba_sync.Text.{find}
use suba_sync.Text.Decimal.{value, invalid_argument, out_of_range, stoi, to_ushort}
use suba_sync.Peers.{Mesh, PeerInfo, connecting, is_disconnected, best_addr}

-- A posted `Connection::connect_outgoing`.
pub record Dial : Type 0 where
  pub peer : Str
  pub host : Str
  pub port : ℕ

-- What the loop does with one peer: `continue`, an exception of `std::stoi`, or a dial.
pub data Choice : Type 0 where
  skip throws : Choice
  dial : Str → ℕ → Choice

pub Choice-cases :
    (c : Choice) → (c ≡ skip) ⊎ ((c ≡ throws) ⊎ ((host : Str) × (port : ℕ) × (c ≡ dial host port)))
Choice-cases skip = inl refl
Choice-cases throws = inr (inl refl)
Choice-cases (dial host port) = inr (inr (host, port, refl))

parse_address : Str → Choice
unfolding find stoi
parse_address addr = elim (find b':' addr) [
  | none ↦ skip
  | some at ↦ elim (stoi (drop (suc at) addr)) [
    | value port ↦ dial (take at addr) (to_ushort port)
    | invalid_argument ↦ throws
    | out_of_range ↦ throws
  ]
]

-- The peer is neither connected nor being dialled, and has an address.
unfoldable pub is_candidate : Mesh → Str → PeerInfo → Str → Bool
is_candidate m id p addr =
    if id == m.local_peer_id || has id m.connections || has id m.in_progress_connects
    then false
    else if is_disconnected p.state
    then not (is_empty addr)
    else false

unfoldable pub choose : Mesh → Str → Str → Choice
unfolding best_addr parse_address is_candidate
choose m local_ip id = elim (lookup id m.peers) [
  | none ↦ skip
  | some p ↦
      if is_candidate m id p (best_addr p local_ip)
      then parse_address (best_addr p local_ip)
      else skip
]

-- `in_progress_connects_.insert(id)` and the new state.
unfoldable pub mark_connecting : Str → Mesh → Mesh
mark_connecting id m = record m {
  in_progress_connects = insert id tt m.in_progress_connects;
  peers = elim (lookup id m.peers) [
    | some p ↦ insert id (record p { state = connecting }) m.peers
    | none ↦ m.peers
  ];
}

pub record Attempt : Type 0 where
  pub mesh : Mesh
  pub dials : List Dial
  pub threw : Bool

abbrev add_dial : Dial → Attempt → Attempt
add_dial d a = record a { dials = d ∷ a.dials }

-- The loop over `peers_`, from the peers still to be visited.
unfoldable pub dial_each : Str → List Str → ℕ → Mesh → Attempt
unfolding choose mark_connecting
dial_each local_ip [] connected m = record { mesh = m; dials = []; threw = false }
dial_each local_ip (id ∷ ids) connected m = elim (choose m local_ip id) [
  | skip ↦ dial_each local_ip ids connected m
  | throws ↦ record { mesh = m; dials = []; threw = true }
  | dial host port ↦
      let more = dial_each local_ip ids (suc connected) (mark_connecting id m) in
      add_dial (record { peer = id; host = host; port = port })
        (if ltb (suc connected) m.max_peers
          then more
          else record { mesh = mark_connecting id m; dials = []; threw = false })
]

-- `local_addr_` up to its first colon; empty if there is none.
unfoldable pub local_ip_of : Str → Str
unfolding find
local_ip_of addr = elim (find b':' addr) [ none ↦ [] | some at ↦ take at addr ]

-- The connections to other peers.
unfoldable pub connected_others : Mesh → ℕ
connected_others m = length (keep_if (λ (id, c). not (id == m.local_peer_id)) m.connections)

unfoldable pub attempt_connect_more : Mesh → Attempt
unfolding dial_each local_ip_of connected_others
attempt_connect_more m =
    if ltb (connected_others m) m.max_peers
    then dial_each (local_ip_of m.local_addr) (map (λ (id, p). id) m.peers) (connected_others m) m
    else record { mesh = m; dials = []; threw = false }
