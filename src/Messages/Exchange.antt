-- ===== src/Messages/Exchange.antt =====
-- The exchange of a listing between two nodes (src/peer_manager.cpp): `handle_message` of the node
-- that is asked, and `handle_message` of the node that gets its answer.
use suba_sync.Prelude.{
  ℕ, ◌≡◌, refl, ap, ◌∙◌, Str, false, Option, none, some, List, [], ◌∷◌, map, str_eq, str_beq_iff,
  if◌then◌else◌, is_empty, arith,
}
use suba_sync.Prelude.Dict.{lookup, erase, lookup-erase}
use suba_sync.Shares.{RemoteListingItem}
use suba_sync.Requests.{Requests, decorate, handle_list_response}
use suba_sync.Requests.Decorated.{handle_list_response-found}
use suba_sync.Json.{JsonApi, IsJson}
use suba_sync.Messages.{ListRequest, list_request_doc, list_response_doc}
use suba_sync.Messages.Handlers.{
  Node, send_on, call, Handled, quiet, peer_id_of, listed_items, send_json_to_peer,
  handle_list_request, answer,
}
use suba_sync.Messages.Dispatch.{Host, handle_message}
use suba_sync.Messages.Listing.{from, request_handled, response_handled}

module _ (J : JsonApi) {H : Type 0} where
  -- What the node with `host` answers to the request, once it has brought its shares up to date.
  abbrev pub answered : Host J H → ListRequest → Node H → List RemoteListingItem
  answered host r n = listed_items J r (record n { shares = host.refresh n.shares })

module _ (J : JsonApi) (laws : IsJson J) {H : Type 0} where
  send_json_to_peer-connected :
      (peer : Str) (j : J.Json) (n : Node H) (conn : ℕ)
      → lookup peer n.mesh.connections ≡ some conn
      → send_json_to_peer J peer j n ≡ send_on conn j ∷ []
  unfolding send_json_to_peer
  send_json_to_peer-connected peer j n conn h = rw (send_json_to_peer, h) refl

  answer_lem :
      (peer id : Str) (items : List RemoteListingItem) (n : Node H) (handler : H)
      → is_empty id ≡ false
      → lookup id n.requests.pending ≡ some (some handler)
      → answer J peer id items n ≡ record {
        node = record n { requests = record n.requests { pending = erase id n.requests.pending } };
        effects = call handler (map (decorate peer) items) ∷ [];
        threw = false;
      }
  unfolding answer
  answer_lem peer id items n handler given found =
      let go : Option (H × List RemoteListingItem) × Requests (Option H) → Handled J H = λ p.
        record {
          node = record n { requests = p.1 };
          effects = elim p.0 [ none ↦ [] | some (h, shown) ↦ call h shown ∷ [] ];
          threw = false;
        } in
      ap (λ b. if b then quiet J n else go (handle_list_response peer id items n.requests)) given
      ∙ ap go (handle_list_response-found peer id items n.requests handler found)

  -- A request for a listing that reaches a node, on a connection that has been given its peer, is
  -- answered with one document, sent to that peer if it is connected. When the answer reaches the
  -- node that asked, on any connection, it calls the handler that waits under the request's id with
  -- exactly the items that the first node listed, in its order, each with that node as its peer and
  -- directories with their origin; and the handler does not wait any more.
  pub handle_message-list_request_doc :
      (server asker : Host J H) (b a : Node H) (conn back arrival : ℕ) (r : ListRequest)
      (handler : H)
      → is_empty r.request_id ≡ false
      → is_empty (peer_id_of conn b) ≡ false
      → lookup (peer_id_of conn b) b.mesh.connections ≡ some back
      → lookup r.request_id a.requests.pending ≡ some (some handler)
      → ((handle_message J server conn (list_request_doc J r) b).effects
          ≡ send_on back
              (list_response_doc J b.mesh.local_peer_id r.request_id (answered J server r b))
            ∷ [])
        × ((handle_message J asker arrival
              (list_response_doc J b.mesh.local_peer_id r.request_id (answered J server r b))
              a).effects
            ≡ call handler (
                map
                  (decorate b.mesh.local_peer_id)
                  (map (from b.mesh.local_peer_id) (answered J server r b)))
              ∷ [])
        × (lookup r.request_id
              (handle_message J asker arrival
                (list_response_doc J b.mesh.local_peer_id r.request_id (answered J server r b))
                a).node.requests.pending
            ≡ none)
  unfolding handle_list_request
  handle_message-list_request_doc server asker b a conn back arrival r handler given known linked
        waits =
      let self = b.mesh.local_peer_id in
      let items = answered J server r b in
      let got =
        response_handled J laws asker arrival self r.request_id items a
        ∙ answer_lem self r.request_id (map (from self) items) a handler given waits in
      (
        ap (λ h. h.effects) (request_handled J laws server conn r b given known)
            ∙ send_json_to_peer-connected (peer_id_of conn b) _
                (record b { shares = server.refresh b.shares }) back linked,
        ap (λ h. h.effects) got,
        ap (λ h. lookup r.request_id h.node.requests.pending) got
            ∙ lookup-erase r.request_id r.request_id a.requests.pending
            ∙ ground (arith, str_beq_iff r.request_id r.request_id),
      )
