-- ===== src/Chunks/Tests.antt =====
-- A file of ten bytes, served in chunks of four.
use suba_sync.Prelude.{
  ℕ, ◌<◌, ◌+◌, ◌↔◌, get_elem?, ◌≡◌, ◌≤◌, false, refl, Str, codes, Option, none, some, [], ◌∷◌,
  str_eq, str_beq, arith, length,
}
use suba_sync.Prelude.Dict.{lookup}
use suba_sync.Shares.{Shares}
use suba_sync.Swarm.{SwarmConfig, Shared, chunk_offset, chunk_length}
use suba_sync.Swarm.Worker.{judge, writing}
use suba_sync.Swarm.Ranges.{Covers}
use suba_sync.Chunks.{max_chunk_size, ChunkMessage, serve_chunk, sent_chunk, read_at, receive_chunk}
use suba_sync.Chunks.Slices.{IsServable, serve_chunk_lem, judge-serve_chunk, serve_chunk-bounded}

abbrev contents : Str
contents = codes "0123456789"

abbrev shared : Shares
shared = record {
  shared_files_by_hash =
      (
        codes "h",
        record { hash = codes "h"; relative_path = codes "a"; full_path = codes "/a"; size = 10 },
      )
      ∷ [];
  path_to_hash = (codes "a", codes "h") ∷ [];
  directories = record { path_to_dir_guid = []; dir_guid_to_path = []; dir_guid_origin = [] };
}

abbrev same : Str → Str
same s = s

abbrev disk : Str → Option Str
disk path = some contents

shared-IsServable : IsServable disk shared (codes "h") contents
unfolding lookup str_beq
shared-IsServable = record {
  entry = record { hash = codes "h"; relative_path = codes "a"; full_path = codes "/a"; size = 10 };
  known = refl;
  opens = refl;
  has_size = refl;
}

abbrev last_answer : ChunkMessage
unfolding sent_chunk
last_answer = sent_chunk same same disk (codes "r") (codes "h") 8 (codes "89")

last_answer_is : serve_chunk same same disk (codes "r") (codes "h") 8 4 shared ≡ some last_answer
unfolding last_answer serve_chunk lookup str_beq
last_answer_is = refl

serve_chunk_lem_example :
    (m : ChunkMessage) × (serve_chunk same same disk (codes "r") (codes "h") 8 4 shared ≡ some m)
    × (m.request_id ≡ codes "r")
    × (m.hash ≡ codes "h")
    × (m.error ≡ [])
    × (m.offset ≡ 8)
    × (m.data_length ≡ 2)
    × (length (same m.encoded) ≡ m.data_length)
    × (m.chunk_sha ≡ same (same m.encoded))
    × ((k : ℕ) → k < m.data_length → get_elem? (same m.encoded) k ≡ get_elem? contents (8 + k))
serve_chunk_lem_example =
    serve_chunk_lem same same same disk (codes "r") (codes "h") contents 8 4 shared
      shared-IsServable refl refl (omega arith) (omega arith) (λ b. refl)

abbrev config : SwarmConfig
config = record { chunk_size = 4; total_chunks = 3; max_parallel = 1; chunk_buffers = 1 }

config-Covers : Covers config 10
config-Covers = record {
  some_size = omega arith;
  enough = omega arith;
  needed = λ job h. omega arith;
  small = omega arith;
}

abbrev downloading : Shared
downloading = record {
  job_queue = [];
  attempts = [];
  active_jobs = 1;
  completed_jobs = 2;
  shutting_down = false;
  failure = false;
  failure_reason = [];
  slots = [];
  next_peer_index = 0;
  chunk_states = [];
  downloaded_bytes = 0;
  peer_stats = none;
  active_peers = none;
}

judge-serve_chunk_example :
    (m : ChunkMessage) × (serve_chunk same same disk
        (codes "r")
        (codes "h")
        (chunk_offset config 2)
        (chunk_length config 10 2)
        shared
      ≡ some m)
    × (judge same config 2 (codes "p") (receive_chunk same m) downloading ≡ (
      writing 2 (codes "p") (read_at (chunk_offset config 2) (chunk_length config 10 2) contents),
      downloading,
    ))
    × (length (read_at (chunk_offset config 2) (chunk_length config 10 2) contents)
        ≡ chunk_length config 10 2)
judge-serve_chunk_example =
    judge-serve_chunk same same same disk config (codes "r") (codes "h") contents (codes "p") 2
      shared downloading shared-IsServable config-Covers (omega arith) (omega arith) refl refl
      (λ b. refl)

serve_chunk-bounded_example :
    (last_answer.request_id ≡ codes "r")
    × (last_answer.hash ≡ codes "h")
    × (length (same last_answer.encoded) ≤ max_chunk_size)
    × (length (same last_answer.encoded) ≡ last_answer.data_length)
    × ((last_answer.error ≡ []) ↔ (0 < last_answer.data_length))
serve_chunk-bounded_example =
    serve_chunk-bounded same same same disk (codes "r") (codes "h") 8 4 shared last_answer
      (λ b. refl) refl last_answer_is
