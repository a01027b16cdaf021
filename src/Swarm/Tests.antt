-- ===== src/Swarm/Tests.antt =====
-- A download of three chunks from one peer by one worker, and the theorems on it.
use suba_sync.Prelude.{
  ℕ, ◌+◌, ◌≤◌, ◌<◌, ◌≡◌, refl, Str, codes, Bool, true, false, Option, none, some, List, [], ◌∷◌,
  ◌++◌, map, arith, sum_by, str_beq,
}
use suba_sync.Prelude.Dict.{insert, lookup}
use suba_sync.Swarm.{SwarmConfig, per_peer_limit, chunk_offset, chunk_length}
use suba_sync.Swarm.Worker.{
  ChunkResponse, Write, World, quiet, fetched, wrote, Action, work, run, outcome,
}
use suba_sync.Swarm.Setup.{start}
use suba_sync.Swarm.Result.{count, run_swarm_download_complete}
use suba_sync.Swarm.Load.{asks, outstanding_at, run_swarm_download_limited}
use suba_sync.Swarm.Ranges.{Covers, chunk_length_tiles}

abbrev config : SwarmConfig
config = record { chunk_size = 4; total_chunks = 3; max_parallel = 1; chunk_buffers = 1 }

abbrev providers : List Str
providers = codes "b" ∷ codes "b" ∷ []

abbrev order : List ℕ
order = 2 ∷ 0 ∷ 1 ∷ []

abbrev checksum : Str → Str
checksum bytes = bytes

abbrev good : ChunkResponse
good = record { success = true; bytes = codes "data"; chunk_sha = [] }

abbrev bad : ChunkResponse
bad = record { success = true; bytes = codes "data"; chunk_sha = codes "other" }

abbrev round : List Action
round =
    work 0 quiet
    ∷ work 0 quiet
    ∷ work 0 (fetched good)
    ∷ work 0 (wrote true)
    ∷ work 0 quiet
    ∷ work 0 quiet
    ∷ []

-- The first response fails its checksum, so the first job goes to the back of the queue.
abbrev schedule : List Action
schedule =
    (work 0 quiet ∷ work 0 quiet ∷ work 0 (fetched bad) ∷ work 0 quiet ∷ [])
    ++ (round ++ (round ++ round))

started : Option World
unfolding start insert str_beq
started = start config (some []) (some 0) 10 providers (0 ∷ 0 ∷ 0 ∷ []) order

abbrev after : Option World → List Action → Option World
after none actions = none
after (some w) actions = run checksum config w actions

abbrev summary : Option World → Option (List ℕ × Bool × List ℕ)
summary none = none
summary (some w) =
    some (map (λ (x : Write). x.offset) w.writes, outcome config w.shared, w.shared.chunk_states)

full_run : summary (after started schedule) ≡ some (0 ∷ 4 ∷ 8 ∷ [], true, 1 ∷ 1 ∷ 1 ∷ [])
unfolding started run lookup outcome chunk_offset
full_run = refl

-- What a run leaves.
abbrev end_of : Option World → World → World
end_of none w = w
end_of (some w) v = w

abbrev begun : World
unfolding started
begun = end_of started (record {
  shared = record {
    job_queue = [];
    active_jobs = 0;
    completed_jobs = 0;
    shutting_down = false;
    failure = false;
    failure_reason = [];
    attempts = [];
    slots = [];
    next_peer_index = 0;
    chunk_states = [];
    downloaded_bytes = 0;
    peer_stats = none;
    active_peers = none;
  };
  workers = [];
  writes = [];
})

finished : World
unfolding started run lookup chunk_offset
finished = end_of (run checksum config begun schedule) begun

run_swarm_download_complete_example :
    count 8 (map (λ (x : Write). x.offset) finished.writes)
    ≡ count 8 (map (chunk_offset config) order)
unfolding finished outcome
run_swarm_download_complete_example =
    run_swarm_download_complete config checksum order refl 10 providers (0 ∷ 0 ∷ 0 ∷ []) schedule
      (some []) (some 0) {w = begun} {w' = finished} refl refl refl 8

run_swarm_download_limited_example :
    (sum_by (asks 0) finished.workers ≤ per_peer_limit config)
    × (outstanding_at 0 finished.shared.slots ≡ sum_by (asks 0) finished.workers)
unfolding finished
run_swarm_download_limited_example =
    run_swarm_download_limited config checksum 10 providers (0 ∷ 0 ∷ 0 ∷ []) order (some [])
      (some 0) schedule {w = begun} {w' = finished} 0 refl refl

Covers-ten : Covers config 10
Covers-ten = record {
  some_size = omega arith;
  enough = omega arith;
  needed = λ job h. omega arith;
  small = omega arith;
}

chunk_length_tiles_example :
    (0 < chunk_length config 10 2)
    × (chunk_length config 10 2 ≤ 4)
    × (chunk_offset config 2 + chunk_length config 10 2 ≤ 10)
    × (3 < 3 → chunk_offset config 3 ≡ chunk_offset config 2 + chunk_length config 10 2)
    × (◌≡◌ {A = ℕ} 3 3 → chunk_offset config 2 + chunk_length config 10 2 ≡ 10)
chunk_length_tiles_example = chunk_length_tiles config 10 2 Covers-ten (omega arith)
