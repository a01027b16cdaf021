-- ===== src/Requests/Tests.antt =====
-- Runs of requests and answers, and the theorems at them.
use suba_sync.Prelude.{
  Bool, ℕ, ◌≡◌, refl, Str, codes, true, Option, none, some, List, [], ◌∷◌, str_eq, str_beq, All,
  Member, map, arith,
}
use suba_sync.Prelude.Dict.{Dict, lookup, insert, erase}
use suba_sync.Text.Decimal.{to_string}
use suba_sync.Shares.{RemoteListingItem, Shares}
use suba_sync.Requests.{Requests, list_infix, decorate, handle_list_response}
use suba_sync.Requests.Calls.{Call, issue, answer, cancel, run, nothing_done, AreOnce}
use suba_sync.Requests.Once.{run_once}
use suba_sync.Requests.Decorated.{IsDecorated, handle_list_response_lem}
use suba_sync.Requests.HashListing
use suba_sync.Requests.HashListing.{HashListing, Event, asks, hears, other_asks, open_listing}

abbrev me : Str
me = codes "me"

abbrev connected : Dict Str ℕ
connected = (codes "p", 0) ∷ []

-- Two requests; the first is answered twice, the second is cancelled, then answered.
abbrev calls : List (Call ℕ)
calls =
    issue connected connected (codes "p") 10
    ∷ issue connected connected (codes "p") 20
    ∷ answer (codes "me-list-1")
    ∷ answer (codes "me-list-1")
    ∷ cancel (codes "me-list-2")
    ∷ answer (codes "me-list-2")
    ∷ []

called_once : (run me list_infix calls nothing_done).called ≡ (codes "me-list-1", 10) ∷ []
unfolding run nothing_done lookup insert erase to_string str_beq
called_once = refl

run_once_example :
    AreOnce (run me list_infix calls nothing_done).called
    × All
        (λ c. Member c (run me list_infix calls nothing_done).issued)
        (run me list_infix calls nothing_done).called
run_once_example = run_once me list_infix calls (omega arith)

abbrev item : RemoteListingItem
item = record {
  peer_id = [];
  hash = codes "h";
  relative_path = codes "a";
  size = 0;
  is_directory = true;
  directory_guid = [];
  origin_peer = [];
  listing_root_path = [];
}

abbrev waiting : Requests (Option ℕ)
waiting = record { counter = 1; pending = (codes "me-list-1", some 10) ∷ [] }

handle_list_response_lem_example :
    ((handle_list_response (codes "p") (codes "me-list-1") (item ∷ []) waiting).0
      ≡ some (10, map (decorate (codes "p")) (item ∷ [])))
    × All IsDecorated (map (decorate (codes "p")) (item ∷ []))
    × ((handle_list_response
          (codes "q")
          (codes "me-list-1")
          []
          (handle_list_response (codes "p") (codes "me-list-1") (item ∷ []) waiting).1).0
        ≡ none)
unfolding lookup str_beq
handle_list_response_lem_example =
    handle_list_response_lem (codes "p") (codes "q") (codes "me-list-1") (item ∷ []) [] waiting 10
      refl refl

abbrev nothing_pending : Requests Bool
nothing_pending = record { counter = 0; pending = [] }

abbrev nothing_shared : Shares
nothing_shared = record {
  shared_files_by_hash = [];
  path_to_hash = [];
  directories = record { path_to_dir_guid = []; dir_guid_to_path = []; dir_guid_origin = [] };
}

abbrev two_peers : Dict Str ℕ
two_peers = (codes "p", 0) ∷ (codes "q", 1) ∷ []

abbrev listing : HashListing
listing = open_listing (codes "p" ∷ codes "q" ∷ []) [] nothing_pending

-- The request to q fails, since q leaves; another call asks p; p answers both.
abbrev listing_events : List Event
listing_events =
    asks two_peers two_peers
    ∷ asks two_peers connected
    ∷ other_asks connected connected (codes "p")
    ∷ hears (codes "p") (codes "me-list-3") []
    ∷ hears (codes "p") (codes "me-list-1") (item ∷ [])
    ∷ []

called_with_answer :
    (HashListing.run me listing_events listing).calls
    ≡ (map (decorate (codes "p")) (item ∷ []) ∷ [])
unfolding HashListing.run open_listing lookup insert erase to_string str_beq decorate
called_with_answer = refl
