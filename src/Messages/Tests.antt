-- ===== src/Messages/Tests.antt =====
-- The messages on small nodes.
use suba_sync.Prelude.{
  ℕ, Str, codes, ◌≡◌, refl, inl, none, some, List, [], ◌∷◌, map, pos, str_eq, str_beq, length, ◌≤◌,
}
use suba_sync.Prelude.Dict.{lookup, insert}
use suba_sync.Shares.{Shares}
use suba_sync.Requests.{decorate}
use suba_sync.Json.Sample.{Doc, sample, sample-IsJson}
use suba_sync.Peers.{Mesh}
use suba_sync.Messages.{ListRequest, list_request_doc, list_response_doc, make_peer_announce}
use suba_sync.Messages.Handlers.{Node, send_on, call, quiet, peer_id_of}
use suba_sync.Messages.Dispatch.{Host, handle_message}
use suba_sync.Messages.Listing.{from}
use suba_sync.Messages.Exchange.{answered, handle_message-list_request_doc}
use suba_sync.Messages.Relay.{Hop, Travels, Travels-bounded}
use suba_sync.Messages.Sent.{hops_left}

abbrev host : Host sample ℕ
host = record {
  chunk_message = λ kind conn j n. quiet sample n;
  refresh = λ s. s;
  base64_encode = λ s. s;
  base64_decode = λ s. s;
  open_file = λ path. none;
  current_path = codes "/home";
}

abbrev mesh_of : Str → Str → Mesh
mesh_of self neighbour = record {
  local_peer_id = self;
  local_addr = codes "10.0.0.1:9000";
  display_name = self;
  external_addr = [];
  max_peers = 6;
  peers = [];
  connections = (neighbour, 7) ∷ [];
  in_progress_connects = [];
}

abbrev shares : Shares
shares = record {
  shared_files_by_hash =
      (
        codes "ff00",
        record {
          hash = codes "ff00";
          relative_path = codes "a.txt";
          full_path = codes "/share/a.txt";
          size = 12;
        },
      )
      ∷ [];
  path_to_hash = [];
  directories = record { path_to_dir_guid = []; dir_guid_to_path = []; dir_guid_origin = [] };
}

-- `bob` has a connection with `alice`, number 7.
abbrev bob : Node ℕ
bob = record {
  mesh = mesh_of (codes "bob") (codes "alice");
  shares = shares;
  requests = record { counter = 0; pending = [] };
  peer_ids = (7, codes "alice") ∷ [];
}

-- `alice` has asked `bob`, and the handler 3 waits.
abbrev alice : Node ℕ
alice = record {
  mesh = mesh_of (codes "alice") (codes "bob");
  shares = shares;
  requests = record { counter = 1; pending = (codes "alice-list-1", some 3) ∷ [] };
  peer_ids = (7, codes "bob") ∷ [];
}

abbrev request : ListRequest
request = record {
  request_id = codes "alice-list-1";
  path = [];
  hash = codes "ff00";
  dir_guid = [];
}

abbrev response : Doc
unfolding list_response_doc
response =
    list_response_doc sample (codes "bob") (codes "alice-list-1") (answered sample host request bob)

handle_message-list_request_doc_example :
    ((handle_message sample host 7 (list_request_doc sample request) bob).effects
      ≡ send_on 7 response ∷ [])
    × ((handle_message sample host 7 response alice).effects
        ≡ call 3 (
            map
              (decorate (codes "bob"))
              (map (from (codes "bob")) (answered sample host request bob)))
          ∷ [])
    × (lookup
          (codes "alice-list-1")
          (handle_message sample host 7 response alice).node.requests.pending
        ≡ none)
unfolding peer_id_of lookup str_beq response list_response_doc
handle_message-list_request_doc_example =
    handle_message-list_request_doc sample sample-IsJson host host bob alice 7 7 7 request 3 refl
      refl refl refl

abbrev message : ℕ → Doc
unfolding make_peer_announce
message ttl =
    make_peer_announce sample (codes "dave") (codes "10.0.0.4:9000") (codes "Dave") [] (pos ttl)

abbrev route : List (Hop sample ℕ)
route = record { host = host; node = bob; arrives = 2; leaves = 7 } ∷ []

-- `bob` passes an announcement of `dave` on to `alice`, with one hop less.
one_hop : Travels sample ℕ route (message 5)
unfolding handle_message lookup insert str_beq
one_hop = (message 4, inl refl, refl, tt)

Travels-bounded_example : length route ≤ hops_left (pos 5)
unfolding message lookup str_beq
Travels-bounded_example =
    Travels-bounded sample sample-IsJson ℕ route (message 5) (pos 5) refl refl one_hop
