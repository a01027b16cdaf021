-- ===== src/Messages/Listing.antt =====
-- A listing that is asked for and answered (src/peer_manager.cpp): what the handler of the asking
-- peer is given.
use suba_sync.Prelude.{
  ℕ, ◌≡◌, refl, ap, ◌∙◌, Str, codes, false, some, List, [], map, str_eq, str_beq, if◌then◌else◌,
  is_empty,
}
use suba_sync.Prelude.Dict.{Dict, lookup}
use suba_sync.Shares.{RemoteListingItem}
use suba_sync.Json.{JsonApi, IsJson}
use suba_sync.Messages.{
  ListRequest, list_request_doc, list_response_doc, read_list_request, read_entries,
}
use suba_sync.Messages.Handlers.{Node, Handled, peer_id_of, quiet, handle_list_request, answer}
use suba_sync.Messages.Dispatch.{
  Host, reading, origin_of, on_list_request, on_list_response, dispatch, handle_message,
}
use suba_sync.Messages.Reading.{
  three, lookup-three, bind_some, text_at-object, text_at-optional, read_items-item_doc,
}

-- The item as the peer that it came from.
abbrev pub from : Str → RemoteListingItem → RemoteListingItem
from peer i = record i { peer_id = peer }

module _ (J : JsonApi) (laws : IsJson J) where
  read_list_request-list_request_doc :
      (r : ListRequest) → read_list_request J (list_request_doc J r) ≡ some r
  unfolding read_list_request list_request_doc three str_beq lookup
  read_list_request-list_request_doc r =
      let (path, hash, guid) =
        lookup-three J laws (codes "path") (codes "hash") (codes "dir_guid") r.path r.hash
          r.dir_guid (refl, refl, refl, refl, refl, refl, refl, refl, refl) in
      bind_some _ _ r.request_id (text_at-object J laws _ (codes "request_id") r.request_id refl)
      ∙ bind_some _ _ r.path (text_at-optional J laws _ (codes "path") r.path path)
      ∙ bind_some _ _ r.hash (text_at-optional J laws _ (codes "hash") r.hash hash)
      ∙ bind_some _ _ r.dir_guid (text_at-optional J laws _ (codes "dir_guid") r.dir_guid guid)

  read_entries-list_response_doc :
      (from_peer self id : Str) (items : List RemoteListingItem)
      → read_entries J from_peer (list_response_doc J self id items)
        ≡ some (map (from from_peer) items)
  unfolding read_entries list_response_doc lookup str_beq
  read_entries-list_response_doc from_peer self id items =
      rw (read_entries, laws.member-object, laws.as_array-array)
        (read_items-item_doc J laws from_peer items)

  module _ {H : Type 0} (host : Host J H) where
    -- A document of a type goes to the branch of the type.
    handle_message-dispatch :
        (conn : ℕ) (m : Dict Str J.Json) (kind : Str) (n : Node H)
        → lookup (codes "type") m ≡ some (J.string kind)
        → is_empty kind ≡ false
        → handle_message J host conn (J.object m) n ≡ dispatch J host kind conn (J.object m) n
    unfolding handle_message
    handle_message-dispatch conn m kind n h e =
        ap
          (λ k.
            reading J host k n (λ kind.
              if is_empty kind then quiet J n else dispatch J host kind conn (J.object m) n))
          (text_at-object J laws m (codes "type") kind h)
        ∙ ap (λ b. if b then quiet J n else dispatch J host kind conn (J.object m) n) e

    dispatch-list_request :
        (conn : ℕ) (j : J.Json) (n : Node H)
        → dispatch J host (codes "list_request") conn j n ≡ on_list_request J host conn j n
    unfolding dispatch str_beq
    dispatch-list_request conn j n = refl

    dispatch-list_response :
        (conn : ℕ) (j : J.Json) (n : Node H)
        → dispatch J host (codes "list_response") conn j n ≡ on_list_response J host conn j n
    unfolding dispatch str_beq
    dispatch-list_response conn j n = refl

    origin_of-bound :
        (fallback : Str) (conn : ℕ) (j : J.Json) (n : Node H)
        → is_empty (peer_id_of conn n) ≡ false
        → origin_of J host fallback conn j n ≡ some (peer_id_of conn n)
    unfolding origin_of
    origin_of-bound fallback conn j n h =
        ap
          (λ b. if b then J.value_string j (codes "peer_id") fallback else some (peer_id_of conn n))
          h

    on_list_request_lem :
        (conn : ℕ) (r : ListRequest) (n : Node H)
        → is_empty r.request_id ≡ false
        → is_empty (peer_id_of conn n) ≡ false
        → on_list_request J host conn (list_request_doc J r) n
          ≡ handle_list_request J host.refresh (peer_id_of conn n) r n
    unfolding on_list_request
    on_list_request_lem conn r n given known =
        let j = list_request_doc J r in
        let go : Str → Handled J H =
          λ requester. handle_list_request J host.refresh requester r n in
        ap
          (λ o. reading J host o n (λ q.
            if is_empty q.request_id
            then quiet J n
            else reading J host (origin_of J host [] conn j n) n
                (λ requester. handle_list_request J host.refresh requester q n)))
          (read_list_request-list_request_doc r)
        ∙ ap (λ b. if b then quiet J n else reading J host (origin_of J host [] conn j n) n go)
            given
        ∙ ap (λ o. reading J host o n go) (origin_of-bound [] conn j n known)

    on_list_response_lem :
        (conn : ℕ) (self id : Str) (items : List RemoteListingItem) (n : Node H)
        → on_list_response J host conn (list_response_doc J self id items) n
          ≡ answer J self id (map (from self) items) n
    unfolding on_list_response list_response_doc lookup str_beq
    on_list_response_lem conn self id items n =
        let j = list_response_doc J self id items in
        ap
          (λ o. reading J host o n (λ request_id.
            reading J host (J.value_string j (codes "peer_id") (peer_id_of conn n)) n (λ peer.
              reading J host (read_entries J peer j) n
                (λ given. answer J peer request_id given n))))
          (text_at-object J laws _ (codes "request_id") id refl)
        ∙ ap
            (λ o. reading J host o n (λ peer.
              reading J host (read_entries J peer j) n (λ given. answer J peer id given n)))
            (laws.value_string-object _ (codes "peer_id") (peer_id_of conn n)
              ∙ laws.as_string-string self)
        ∙ ap (λ o. reading J host o n (λ given. answer J self id given n))
            (read_entries-list_response_doc self self id items)

    pub request_handled :
        (conn : ℕ) (r : ListRequest) (n : Node H)
        → is_empty r.request_id ≡ false
        → is_empty (peer_id_of conn n) ≡ false
        → handle_message J host conn (list_request_doc J r) n
          ≡ handle_list_request J host.refresh (peer_id_of conn n) r n
    unfolding list_request_doc lookup str_beq
    request_handled conn r n given known =
        handle_message-dispatch conn _ (codes "list_request") n refl refl
        ∙ dispatch-list_request conn (list_request_doc J r) n
        ∙ on_list_request_lem conn r n given known

    pub response_handled :
        (conn : ℕ) (self id : Str) (items : List RemoteListingItem) (n : Node H)
        → handle_message J host conn (list_response_doc J self id items) n
          ≡ answer J self id (map (from self) items) n
    unfolding list_response_doc lookup str_beq
    response_handled conn self id items n =
        handle_message-dispatch conn _ (codes "list_response") n refl refl
        ∙ dispatch-list_response conn (list_response_doc J self id items) n
        ∙ on_list_response_lem conn self id items n
