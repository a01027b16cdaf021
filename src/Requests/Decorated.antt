-- ===== src/Requests/Decorated.antt =====
-- What the handler of a listing is given.
use suba_sync.Prelude.{
  Str, true, false, ◌≡◌, refl, ap, Option, none, some, List, [], ◌∷◌, arith, map, All, is_empty,
  str_eq, str_beq_iff,
}
use suba_sync.Prelude.Dict.{lookup, erase, lookup-erase}
use suba_sync.Shares.{RemoteListingItem}
use suba_sync.Requests.{Requests, decorate, take_handler, handle_list_response}

-- The item names the peer that has it and, if it is a directory, the peer that it comes from.
abbrev pub IsDecorated : RemoteListingItem → Type 0
IsDecorated i =
    (is_empty i.peer_id ≡ false) × (i.is_directory ≡ true → is_empty i.origin_peer ≡ false)

decorate-IsDecorated :
    (peer_id : Str) (i : RemoteListingItem)
    → is_empty peer_id ≡ false
    → IsDecorated (decorate peer_id i)
unfolding decorate
decorate-IsDecorated peer_id i some_peer =
    (ground (arith, some_peer), λ d. ground (arith, some_peer, d))

map-decorate-All :
    (peer_id : Str) (items : List RemoteListingItem)
    → is_empty peer_id ≡ false
    → All IsDecorated (map (decorate peer_id) items)
map-decorate-All peer_id [] h = tt
map-decorate-All peer_id (i ∷ items) h =
    (decorate-IsDecorated peer_id i h, map-decorate-All peer_id items h)

handle_list_response-absent :
    {H : Type 0} (peer_id id : Str) (items : List RemoteListingItem) (r : Requests (Option H))
    → lookup id r.pending ≡ none
    → (handle_list_response peer_id id items r).0 ≡ none
unfolding handle_list_response take_handler
handle_list_response-absent peer_id id items r absent = rw (handle_list_response, absent) refl

pub handle_list_response-found :
    {H : Type 0} (peer_id id : Str) (items : List RemoteListingItem) (r : Requests (Option H))
    (handler : H)
    → lookup id r.pending ≡ some (some handler)
    → handle_list_response peer_id id items r
      ≡ (some (handler, map (decorate peer_id) items), record r { pending = erase id r.pending })
unfolding handle_list_response take_handler
handle_list_response-found peer_id id items r handler found =
    rw (handle_list_response, found, take_handler, found) refl

-- An answer calls the handler that waits under its id with items that all name a peer, directories
-- their origin too, and takes it out, so that a second answer under the id calls nothing.
pub handle_list_response_lem :
    {H : Type 0} (peer_id peer_id' id : Str) (items items' : List RemoteListingItem)
    (r : Requests (Option H)) (handler : H)
    → is_empty peer_id ≡ false
    → lookup id r.pending ≡ some (some handler)
    → ((handle_list_response peer_id id items r).0 ≡ some (handler, map (decorate peer_id) items))
      × All IsDecorated (map (decorate peer_id) items)
      × ((handle_list_response peer_id' id items' (handle_list_response peer_id id items r).1).0
          ≡ none)
handle_list_response_lem peer_id peer_id' id items items' r handler h found =
    let e = handle_list_response-found peer_id id items r handler found in
    let gone : lookup id (erase id r.pending) ≡ none = grind (arith, lookup-erase, str_beq_iff) in
    (
      ap (λ x. x.0) e,
      map-decorate-All peer_id items h,
      rw e (handle_list_response-absent peer_id' id items' _ gone),
    )
