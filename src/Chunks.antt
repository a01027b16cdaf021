-- ===== src/Chunks.antt =====
-- Serving a chunk of a shared file and reading the answer: the branches `file_chunk_request` and
-- `file_chunk_response` of `PeerManager::handle_message` (src/peer_manager.cpp). The digest, the
-- base64 code and the disk are parameters.
pub mod Slices
mod Tests
use suba_sync.Prelude.{
  ℕ, ◌+◌, ◌-◌, ◌*◌, min, Str, codes, Bool, true, false, ◌||◌, Option, none, some, List, [], ◌∷◌,
  str_eq, nat_beq, leb, if◌then◌else◌, is_empty, length, take, drop,
}
use suba_sync.Shares.{SharedFileEntry, Shares, find_local_file_by_hash}
use suba_sync.Swarm.Worker.{ChunkResponse}

abbrev pub max_chunk_size : ℕ
max_chunk_size = 256 * 1024

-- The members of a `file_chunk_response`; one that is missing has the value that its reader takes
-- for it.
pub record ChunkMessage : Type 0 where
  pub request_id : Str
  pub hash : Str
  pub error : Str
  pub offset : ℕ
  pub data_length : ℕ
  pub chunk_sha : Str
  pub encoded : Str

unfoldable pub failed_chunk : Str → Str → Str → ChunkMessage
failed_chunk request_id hash error = record {
  request_id = request_id;
  hash = hash;
  error = error;
  offset = 0;
  data_length = 0;
  chunk_sha = [];
  encoded = [];
}

-- `clamped_length`
unfoldable pub clamped_length : ℕ → ℕ → ℕ → ℕ
clamped_length size offset len =
    min (min (if nat_beq len 0 then max_chunk_size else len) (size - offset)) max_chunk_size

-- What the stream reads: `len` bytes from the offset, or as many as there are.
abbrev pub read_at : ℕ → ℕ → Str → Str
read_at offset len contents = take len (drop offset contents)

module _ (sha256_hex base64_encode : Str → Str) (open_file : Str → Option Str) where
  -- The answer with the bytes that were read.
  unfoldable pub sent_chunk : Str → Str → ℕ → Str → ChunkMessage
  sent_chunk request_id hash offset buffer = record {
    request_id = request_id;
    hash = hash;
    error = [];
    offset = offset;
    data_length = length buffer;
    chunk_sha = sha256_hex buffer;
    encoded = base64_encode buffer;
  }

  -- The file is open; an empty read is an error.
  unfoldable pub send_read : Str → Str → ℕ → Str → ChunkMessage
  unfolding failed_chunk sent_chunk
  send_read request_id hash offset buffer =
      if is_empty buffer
      then failed_chunk request_id hash (codes "Failed to read file chunk")
      else sent_chunk request_id hash offset buffer

  -- The branch `file_chunk_request`: the answer, or `none` where the request is ignored.
  unfoldable pub serve_chunk : Str → Str → ℕ → ℕ → Shares → Option ChunkMessage
  unfolding find_local_file_by_hash failed_chunk clamped_length send_read
  serve_chunk request_id hash offset len s =
      if is_empty request_id || is_empty hash then none else elim (find_local_file_by_hash hash s) [
        | none ↦ some (failed_chunk request_id hash (codes "Unknown file hash"))
        | some entry ↦
            if leb entry.size offset
            then some (failed_chunk request_id hash (codes "Offset beyond file size"))
            else elim (open_file entry.full_path) [
              | none ↦ some (failed_chunk request_id hash (codes "Cannot open file"))
              | some contents ↦ some (
                  send_read request_id hash offset
                    (read_at offset (clamped_length entry.size offset len) contents))
            ]
      ]

-- The branch `file_chunk_response`, as far as a worker reads the response.
unfoldable pub receive_chunk : (Str → Str) → ChunkMessage → ChunkResponse
receive_chunk base64_decode m =
    if is_empty m.error
    then record { success = true; bytes = base64_decode m.encoded; chunk_sha = m.chunk_sha }
    else record { success = false; bytes = []; chunk_sha = [] }
