-- ===== src/Swarm/Setup.antt =====
-- The start of `run_swarm_download`: its checks, the peers without repetition, and the first state.
-- `order` is `chunk_order` after the shuffle.
use suba_sync.Prelude.{
  ℕ, max, Str, false, ◌||◌, not, Option, none, some, List, [], ◌∷◌, map, ◌==◌, nat_eq, str_eq,
  if◌then◌else◌, is_empty, length, replicate, contains,
}
use suba_sync.Prelude.Dict.{Dict}
use suba_sync.Swarm.{SwarmConfig, SwarmPeerStats, enter_stats}
use suba_sync.Swarm.Worker.{looping, World}

-- The loop over the providers, with `seen` in reverse order of insertion.
unfoldable pub distinct_peers : List Str → List Str → List Str
unfolding contains
distinct_peers seen [] = []
distinct_peers seen (p ∷ ps) =
    let skipped = distinct_peers seen ps in
    let kept = p ∷ distinct_peers (p ∷ seen) ps in
    if is_empty p || contains seen p then skipped else kept

unfoldable pub worker_count : SwarmConfig → List Str → ℕ
worker_count c peers = if c.max_parallel == 0 then length peers else max 1 c.max_parallel

initial_stats : List Str → Option (Dict Str SwarmPeerStats) → Option (Dict Str SwarmPeerStats)
unfolding enter_stats
initial_stats [] stats = stats
initial_stats (p ∷ ps) stats = initial_stats ps (enter_stats p stats)

-- `stats` and `active` are what `peer_stats` and `active_peer_count` point to, `none` for a null pointer.
unfoldable pub initial :
    SwarmConfig → Option (Dict Str SwarmPeerStats) → Option ℕ → List Str → List ℕ → List ℕ → World
unfolding worker_count initial_stats
initial c stats active peers chunk_states order = record {
  shared = record {
    job_queue = order;
    active_jobs = 0;
    completed_jobs = 0;
    shutting_down = false;
    failure = false;
    failure_reason = [];
    attempts = replicate c.total_chunks 0;
    slots = map (λ p. record { peer_id = p; outstanding = 0 }) peers;
    next_peer_index = 0;
    chunk_states = chunk_states;
    downloaded_bytes = 0;
    peer_stats = initial_stats peers stats;
    active_peers = active;
  };
  workers = replicate (worker_count c peers) looping;
  writes = [];
}

-- `none` for the early `return false`.
unfoldable pub start :
    SwarmConfig
    → Option (Dict Str SwarmPeerStats)
    → Option ℕ
    → ℕ
    → List Str
    → List ℕ
    → List ℕ
    → Option World
unfolding distinct_peers initial
start c stats active file_size providers chunk_states order =
    if file_size == 0 || is_empty providers
    then none
    else if c.total_chunks == 0 || not (length chunk_states == c.total_chunks)
    then none
    else if is_empty (distinct_peers [] providers)
    then none
    else some (initial c stats active (distinct_peers [] providers) chunk_states order)
