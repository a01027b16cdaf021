-- ===== src/Requests/HashListing.antt =====
-- `PeerManager::request_hash_listing_all` (src/peer_manager.cpp): the node's own items, one request for
-- each peer, and the answers, which may come while requests are still being sent.
use mathlib.Core.Option
use suba_sync.Prelude.{
  ℕ, Str, Bool, true, false, Option, none, some, List, [], ◌∷◌, ◌++◌, map, str_eq, length, is_empty,
  if◌then◌else◌,
}
use suba_sync.Prelude.Dict.{Dict}
use suba_sync.Paths.{parent_path}
use suba_sync.Directories.{Directories, Draws, ensure_directory_guid}
use suba_sync.Shares.{SharedFileEntry, RemoteListingItem, Shares, local_listing_for_hash}
use suba_sync.Requests.{
  Requests, list_infix, request, take_handler, decorate, AggregateContext, notify,
}

-- The item of a file of the node.
unfoldable pub own_item : Str → SharedFileEntry → Str → RemoteListingItem
own_item self entry guid = record {
  peer_id = self;
  hash = entry.hash;
  relative_path = entry.relative_path;
  size = entry.size;
  is_directory = false;
  directory_guid = guid;
  origin_peer = [];
  listing_root_path = [];
}

-- The loop over `local_entries`.
unfoldable pub own_items :
    Str
    → List SharedFileEntry
    → Directories
    → Draws
    → Option ((List RemoteListingItem × Directories) × Draws)
unfolding own_item ensure_directory_guid
own_items self [] d draws = some (([], d), draws)
own_items self (entry ∷ entries) d draws =
    elim (ensure_directory_guid self (parent_path entry.relative_path) d draws) [
      | none ↦ none
      | some ((guid, d'), draws') ↦
          Option.map (λ ((items, d''), rest). ((own_item self entry guid ∷ items, d''), rest))
            (own_items self entries d' draws')
    ]

-- The call under way: the pending handlers of list requests, `true` for the lambda that calls
-- `notify`; the peers that the loop has still to ask; the context; the answers that `notify` was given;
-- and the calls of the handler.
pub record HashListing : Type 0 where
  pub requests : Requests Bool
  pub to_ask : List Str
  pub ctx : AggregateContext
  pub answers : List (List RemoteListingItem)
  pub calls : List (List RemoteListingItem)

-- Up to the loop: without a peer the handler is called at once.
unfoldable pub open_listing : List Str → List RemoteListingItem → Requests Bool → HashListing
open_listing peers items r = record {
  requests = r;
  to_ask = peers;
  ctx = record { pending = length peers; items = items };
  answers = [];
  calls = if is_empty peers then items ∷ [] else [];
}

unfoldable pub request_hash_listing_all :
    Str
    → Str
    → Dict Str ℕ
    → Shares
    → Requests Bool
    → Draws
    → Option ((HashListing × Directories) × Draws)
unfolding local_listing_for_hash own_items open_listing
request_hash_listing_all self hash connections s r draws =
    Option.map
      (λ ((items, d), draws'). ((open_listing (map (λ c. c.0) connections) items r, d), draws'))
      (own_items self (local_listing_for_hash hash s) s.directories draws)

-- A call of `notify`, and of the handler if it calls that.
unfoldable pub notified : List RemoteListingItem → HashListing → HashListing
unfolding notify
notified items a =
    let (call, ctx) = notify items a.ctx in
    record a {
      ctx = ctx;
      calls = elim call [ none ↦ a.calls | some collected ↦ a.calls ++ collected ∷ [] ];
    }

-- One round of the loop over the peers, with the connections at the two looks of the request.
unfoldable pub ask_next : Str → Dict Str ℕ → Dict Str ℕ → HashListing → HashListing
unfolding request notified
ask_next self connections later a = elim a.to_ask [
  | [] ↦ a
  | peer ∷ rest ↦
      let (id, r) = request self list_infix connections later peer true a.requests in
      elim id [
        | none ↦ notified [] (record a { to_ask = rest; requests = r })
        | some id ↦ record a { to_ask = rest; requests = r }
      ]
]

-- `handle_list_response`, whose handler is this call's lambda or another's.
unfoldable pub hear : Str → Str → List RemoteListingItem → HashListing → HashListing
unfolding take_handler decorate notified
hear peer_id id items a =
    let (taken, r) = take_handler id a.requests in
    let answer = map (decorate peer_id) items in
    elim taken [
      | none ↦ a
      | some false ↦ record a { requests = r }
      | some true ↦ notified answer (record a { requests = r; answers = a.answers ++ answer ∷ [] })
    ]

pub data Event : Type 0 where
  asks : Dict Str ℕ → Dict Str ℕ → Event
  hears : Str → Str → List RemoteListingItem → Event
  other_asks : Dict Str ℕ → Dict Str ℕ → Str → Event

-- The rounds of the loop, the answers, and other list requests of the node, in any order.
unfoldable pub step : Str → Event → HashListing → HashListing
unfolding ask_next hear request
step self (asks connections later) a = ask_next self connections later a
step self (hears peer_id id items) a = hear peer_id id items a
step self (other_asks connections later peer) a = record a {
  requests = (request self list_infix connections later peer false a.requests).1;
}

unfoldable pub run : Str → List Event → HashListing → HashListing
unfolding step
run self [] a = a
run self (e ∷ events) a = run self events (step self e a)
