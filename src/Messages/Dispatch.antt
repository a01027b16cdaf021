-- ===== src/Messages/Dispatch.antt =====
-- `PeerManager::handle_message` (src/peer_manager.cpp): the test of the type and the branches. The two
-- branches of chunk messages, which `Chunks` models, are an argument. The digest and base64 code are
-- not needed here; base64, the disk, the refresh of the shares and the current directory are arguments.
use suba_sync.Prelude.{
  ℕ, Str, codes, true, false, ◌||◌, Option, none, some, [], ◌∷◌, nat_eq, str_eq, ◌==◌,
  if◌then◌else◌, is_empty,
}
use suba_sync.Paths.{filename, append_path}
use suba_sync.Shares.{SharedFileEntry, Shares, find_local_file_by_hash}
use suba_sync.Json.{JsonApi}
use suba_sync.Messages.{text_at, read_announce, read_list_request, read_entries}
use suba_sync.Messages.Handlers.{
  Node, Effect, send_on, chat_message, write_file, Handled, peer_id_of, join_path, quiet, thrown,
  announce, peer_list, handle_list_request, answer,
}

-- The environment of a node: the chunk branches, the refresh callback, base64, the disk, and the
-- current directory.
pub record Host (J : JsonApi) (H : Type 0) : Type 0 where
  pub chunk_message : Str → ℕ → J.Json → Node H → Handled J H
  pub refresh : Shares → Shares
  pub base64_encode : Str → Str
  pub base64_decode : Str → Str
  pub open_file : Str → Option Str
  pub current_path : Str

module _ (J : JsonApi) {H : Type 0} (host : Host J H) where
  -- What follows a reading that may throw.
  abbrev pub reading : {A : Type 0} → Option A → Node H → (A → Handled J H) → Handled J H
  reading none n next = thrown J n
  reading (some a) n next = next a

  -- `current_peer_id.empty() ? j.value("peer_id", fallback) : current_peer_id`
  unfoldable pub origin_of : Str → ℕ → J.Json → Node H → Option Str
  unfolding peer_id_of
  origin_of fallback conn j n =
      if is_empty (peer_id_of conn n)
      then J.value_string j (codes "peer_id") fallback
      else some (peer_id_of conn n)

  unfoldable pub on_announce : ℕ → J.Json → Node H → Handled J H
  unfolding read_announce announce
  on_announce conn j n = reading (read_announce J j) n (λ a. announce J conn j a n)

  unfoldable pub on_peer_list : ℕ → J.Json → Node H → Handled J H
  unfolding peer_list
  on_peer_list conn j n = elim (J.member j (codes "peers")) [
    | none ↦ peer_list J [] n
    | some peers ↦ elim (J.as_array peers) [ none ↦ quiet J n | some items ↦ peer_list J items n ]
  ]

  unfoldable pub on_chat : ℕ → J.Json → Node H → Handled J H
  unfolding peer_id_of
  on_chat conn j n =
      let fallback = if is_empty (peer_id_of conn n) then codes "unknown" else peer_id_of conn n in
      reading (J.value_string j (codes "from") fallback) n (λ from.
        reading (text_at J j (codes "text")) n
          (λ text. record { node = n; effects = chat_message from text ∷ []; threw = false }))

  -- The branch `share` only prints.
  unfoldable pub on_share : ℕ → J.Json → Node H → Handled J H
  unfolding origin_of
  on_share conn j n = reading (text_at J j (codes "hash")) n (λ hash.
      reading (text_at J j (codes "filename")) n
        (λ name. reading (origin_of (codes "unknown") conn j n) n (λ origin. quiet J n)))

  unfoldable pub on_list_request : ℕ → J.Json → Node H → Handled J H
  unfolding read_list_request origin_of handle_list_request
  on_list_request conn j n = reading (read_list_request J j) n (λ r.
      if is_empty r.request_id
      then quiet J n
      else reading (origin_of [] conn j n) n
          (λ requester. handle_list_request J host.refresh requester r n))

  unfoldable pub on_list_response : ℕ → J.Json → Node H → Handled J H
  unfolding peer_id_of read_entries answer
  on_list_response conn j n = reading (text_at J j (codes "request_id")) n (λ request_id.
      reading (J.value_string j (codes "peer_id") (peer_id_of conn n)) n (λ from_peer.
        reading (read_entries J from_peer j) n (λ items. answer J from_peer request_id items n)))

  -- The documents of the branch `file_request`.
  unfoldable pub file_response_doc : Str → SharedFileEntry → Str → J.Json
  unfolding filename
  file_response_doc hash entry contents = J.object (
      (codes "type", J.string (codes "file_response"))
      ∷ (codes "hash", J.string hash)
      ∷ (codes "filename", J.string (filename entry.full_path))
      ∷ (codes "data", J.string (host.base64_encode contents))
      ∷ [])

  unfoldable pub file_error_doc : Str → J.Json
  file_error_doc hash = J.object (
      (codes "type", J.string (codes "file_error"))
      ∷ (codes "hash", J.string hash)
      ∷ (codes "reason", J.string (codes "Cannot open file"))
      ∷ [])

  -- The log line behind an effect reads the origin, and may throw.
  unfoldable pub after_logging : ℕ → J.Json → Effect J H → Node H → Handled J H
  unfolding origin_of
  after_logging conn j effect n = record {
    node = n;
    effects = effect ∷ [];
    threw = elim (origin_of (codes "unknown") conn j n) [ none ↦ true | some origin ↦ false ];
  }

  unfoldable pub on_file_request : ℕ → J.Json → Node H → Handled J H
  unfolding find_local_file_by_hash file_response_doc file_error_doc after_logging
  on_file_request conn j n = reading (text_at J j (codes "hash")) n (λ hash.
      if is_empty hash then quiet J n else elim (find_local_file_by_hash hash n.shares) [
        | none ↦ quiet J n
        | some entry ↦ elim (host.open_file entry.full_path) [
          | none ↦ record {
            node = n;
            effects = send_on conn (file_error_doc hash) ∷ [];
            threw = false;
          }
          | some contents ↦
              after_logging conn j (send_on conn (file_response_doc hash entry contents)) n
        ]
      ])

  -- Whoever sends it names the file that is written.
  unfoldable pub on_file_response : ℕ → J.Json → Node H → Handled J H
  unfolding append_path join_path after_logging
  on_file_response conn j n = reading (text_at J j (codes "hash")) n (λ hash.
      reading (text_at J j (codes "filename")) n (λ name.
        reading (text_at J j (codes "data")) n (λ encoded.
          if is_empty hash || is_empty encoded
          then quiet J n
          else after_logging conn j
              (write_file (join_path (append_path host.current_path (codes "download")) name)
                (host.base64_decode encoded))
              n)))

  unfoldable pub dispatch : Str → ℕ → J.Json → Node H → Handled J H
  unfolding on_announce on_peer_list on_chat on_share on_list_request on_list_response
      on_file_request on_file_response
  dispatch kind conn j n =
      if kind == codes "peer_announce"
      then on_announce conn j n
      else if kind == codes "peer_list"
      then on_peer_list conn j n
      else if kind == codes "chat"
      then on_chat conn j n
      else if kind == codes "share"
      then on_share conn j n
      else if kind == codes "list_request"
      then on_list_request conn j n
      else if kind == codes "list_response"
      then on_list_response conn j n
      else if kind == codes "file_chunk_request" || kind == codes "file_chunk_response"
      then host.chunk_message kind conn j n
      else if kind == codes "file_request"
      then on_file_request conn j n
      else if kind == codes "file_response"
      then on_file_response conn j n
      else quiet J n

  unfoldable pub handle_message : ℕ → J.Json → Node H → Handled J H
  unfolding dispatch
  handle_message conn j n =
      reading (text_at J j (codes "type")) n
        (λ kind. if is_empty kind then quiet J n else dispatch kind conn j n)
