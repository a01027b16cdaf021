-- ===== src/Requests.antt =====
-- Requests that wait for an answer, in `PeerManager` (src/peer_manager.cpp): the two counters and
-- the two maps of handlers, the decoration of a listing, and the listing of a hash at all peers.
-- A handler is a value of any type; to call it is to put it in the result with its argument.
pub mod Ids
pub mod Calls
pub mod Once
pub mod Decorated
pub mod HashListing
pub mod Table
pub mod Counted
pub mod Kept
pub mod Aggregate
mod Tests
use suba_sync.Prelude.{
  ℕ, zero, suc, ◌+◌, ◌-◌, ◌%◌, ◌^◌, Str, codes, Bool, true, false, not, ◌&&◌, Option, none, some,
  List, [], ◌∷◌, ◌++◌, map, str_eq, nat_beq, if◌then◌else◌, is_empty, ◌==◌,
}
use suba_sync.Prelude.Dict.{Dict, lookup, insert, erase, has}
use suba_sync.Text.Decimal.{to_string}
use suba_sync.Shares.{RemoteListingItem}

-- A map of pending handlers with its counter, a `std::atomic<uint64_t>`.
pub record Requests (H : Type 0) : Type 0 where
  pub counter : ℕ
  pub pending : Dict Str H

-- The texts between the node's id and the number.
abbrev pub list_infix : Str
list_infix = codes "-list-"

abbrev pub chunk_infix : Str
chunk_infix = codes "-chunk-"

-- `local_peer_id_ + "-list-" + std::to_string(n)`
unfoldable pub request_id : Str → Str → ℕ → Str
request_id self infix_text n = self ++ infix_text ++ to_string n

module _ {H : Type 0} where
  -- The locked block that opens a request: its id, unless the peer is not connected.
  unfoldable pub open_request :
      Str → Str → Dict Str ℕ → Str → H → Requests H → Option (Str × Requests H)
  unfolding request_id
  open_request self infix_text connections peer_id handler r =
      if not (has peer_id connections)
      then none
      else let n = suc r.counter % 2 ^ 64 in
        let id = request_id self infix_text n in
        some (id, record { counter = n; pending = insert id handler r.pending })

  -- `erase(request_id)`, and whether there was an entry.
  unfoldable pub cancel_request : Str → Requests H → Bool × Requests H
  cancel_request id r = (has id r.pending, record r { pending = erase id r.pending })

  -- `request_peer_listing`, and `request_file_chunk` with a handler that is not empty: `later` are
  -- the connections at the time that `send_json_to_peer` looks the peer up again.
  unfoldable pub request :
      Str → Str → Dict Str ℕ → Dict Str ℕ → Str → H → Requests H → Option Str × Requests H
  unfolding open_request cancel_request
  request self infix_text connections later peer_id handler r =
      elim (open_request self infix_text connections peer_id handler r) [
        | none ↦ (none, r)
        | some (id, r') ↦
            if has peer_id later then (some id, r') else (none, (cancel_request id r').1)
      ]

  -- `handle_list_response` and `handle_file_chunk_response`: the handler to call, if there is one.
  unfoldable pub take_handler : Str → Requests H → Option H × Requests H
  take_handler id r = elim (lookup id r.pending) [
    | none ↦ (none, r)
    | some handler ↦ (some handler, record r { pending = erase id r.pending })
  ]

-- The loop of `handle_list_response` over one item.
unfoldable pub decorate : Str → RemoteListingItem → RemoteListingItem
decorate peer_id item = record item {
  peer_id = if is_empty item.peer_id then peer_id else item.peer_id;
  origin_peer =
      if is_empty item.origin_peer && item.is_directory then peer_id else item.origin_peer;
}

-- `handle_list_response`: the handler that is called and the items it is given.
unfoldable pub handle_list_response :
    {H : Type 0}
    → Str
    → Str
    → List RemoteListingItem
    → Requests (Option H)
    → Option (H × List RemoteListingItem) × Requests (Option H)
unfolding take_handler decorate
handle_list_response peer_id id items r =
    let (taken, r') = take_handler id r in
    elim taken [
      | some (some handler) ↦ (some (handler, map (decorate peer_id) items), r')
      | some none ↦ (none, r')
      | none ↦ (none, r')
    ]

-- `AggregateContext`
pub record AggregateContext : Type 0 where
  pub pending : ℕ
  pub items : List RemoteListingItem

-- The lambda `notify`: the items that the handler is called with, if it is called.
unfoldable pub notify :
    List RemoteListingItem → AggregateContext → Option (List RemoteListingItem) × AggregateContext
notify new_items ctx =
    let items = ctx.items ++ new_items in
    if nat_beq ctx.pending 0 then (none, record ctx { items = items }) else (
      if nat_beq (ctx.pending - 1) 0 then some items else none,
      record { pending = ctx.pending - 1; items = items },
    )
