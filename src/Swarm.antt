-- ===== src/Swarm.antt =====
-- `run_swarm_download` (src/swarm_downloader.cpp): what its workers share, and the closures that
-- they call under a mutex. Each closure is one step; where it waits on a condition variable, its
-- model answers `blocked`.
pub mod Setup
pub mod Worker
pub mod Ledger
pub mod Result
pub mod Load
pub mod Ranges
mod Tests
use suba_sync.Prelude.{
  ℕ, zero, suc, ◌+◌, ◌-◌, ◌*◌, ◌%◌, ◌^◌, ◌≤◌, ◌<◌, min, max, Str, Bool, true, false, ◌&&◌, ◌||◌,
  not, Option, none, some, List, [], ◌∷◌, ◌++◌, ltb, leb, ◌==◌, nat_eq, str_eq, if◌then◌else◌,
  is_empty, length, get_elem?, set,
}
use suba_sync.Prelude.Dict.{Dict, lookup, insert}

-- `SwarmConfig`, without the settings of the progress meter.
pub record SwarmConfig : Type 0 where
  pub chunk_size : ℕ
  pub total_chunks : ℕ
  pub max_parallel : ℕ
  pub chunk_buffers : ℕ

pub record SwarmPeerStats : Type 0 where
  pub chunks : ℕ
  pub bytes : ℕ

-- The local `PeerState`.
pub record Slot : Type 0 where
  pub peer_id : Str
  pub outstanding : ℕ

-- The variables that the closures capture.
pub record Shared : Type 0 where
  pub job_queue : List ℕ
  pub active_jobs : ℕ
  pub completed_jobs : ℕ
  pub shutting_down : Bool
  pub failure : Bool
  pub failure_reason : Str
  pub attempts : List ℕ
  pub slots : List Slot
  pub next_peer_index : ℕ
  pub chunk_states : List ℕ
  pub downloaded_bytes : ℕ
  pub peer_stats : Option (Dict Str SwarmPeerStats)
  pub active_peers : Option ℕ

-- `const std::size_t per_peer_limit = std::max<std::size_t>(1, config.chunk_buffers);`
abbrev pub per_peer_limit : SwarmConfig → ℕ
per_peer_limit c = max 1 c.chunk_buffers

-- A closure that returns a value, that returns none, or that waits.
pub data Answer {ℓ} (A : Type ℓ) : Type ℓ where
  blocked nothing : Answer A
  got : A → Answer A

-- `take_job`
unfoldable pub take_job : Shared → Answer (ℕ × Shared)
take_job s = if s.shutting_down || s.failure then nothing else elim s.job_queue [
  | [] ↦ blocked
  | job ∷ rest ↦ got (job, record s { job_queue = rest; active_jobs = suc s.active_jobs })
]

-- `requeue_job`
unfoldable pub requeue_job : ℕ → Str → Bool → Shared → Shared
requeue_job job reason fatal s =
    let failed = s.failure || fatal in
    let down = s.shutting_down || fatal in
    record s {
      failure = failed;
      failure_reason = if fatal && is_empty s.failure_reason then reason else s.failure_reason;
      shutting_down = down;
      job_queue = if down || failed then [] else s.job_queue ++ job ∷ [];
      active_jobs = s.active_jobs - 1;
    }

-- Some peer has room.
unfoldable pub has_room : ℕ → List Slot → Bool
has_room limit [] = false
has_room limit (s ∷ slots) = ltb s.outstanding limit || has_room limit slots

-- The loop of `acquire_peer_state`: `r` rounds are left of `n`, and the round is the `i`-th.
find_slot : ℕ → List Slot → ℕ → ℕ → ℕ → ℕ → Option ℕ
find_slot limit slots n start zero i = none
find_slot limit slots n start (suc r) i =
    let more = find_slot limit slots n start r (suc i) in
    elim (get_elem? slots ((start + i) % n)) [
      | none ↦ more
      | some s ↦ if ltb s.outstanding limit then some ((start + i) % n) else more
    ]

abbrev pub add_outstanding : Slot → Slot
add_outstanding s = record s { outstanding = suc s.outstanding }

abbrev pub sub_outstanding : Slot → Slot
sub_outstanding s = record s { outstanding = s.outstanding - 1 }

unfoldable pub update_slot : (Slot → Slot) → ℕ → List Slot → List Slot
update_slot f i slots = elim (get_elem? slots i) [ none ↦ slots | some s ↦ set slots i (f s) ]

-- `acquire_peer_state`; a peer is its place in `peer_states`.
unfoldable pub acquire_peer_state : SwarmConfig → Shared → Answer (ℕ × Shared)
unfolding has_room find_slot update_slot
acquire_peer_state c s =
    if s.shutting_down || s.failure
    then nothing
    else if not (has_room (per_peer_limit c) s.slots)
    then blocked
    else elim (find_slot (per_peer_limit c) s.slots (length s.slots) s.next_peer_index
        (length s.slots) 0) [
          | none ↦ nothing
          | some i ↦ got (
            i,
            record s {
              slots = update_slot add_outstanding i s.slots;
              next_peer_index = suc i % length s.slots;
            },
          )
        ]

-- `release_peer_state`
unfoldable pub release_peer_state : ℕ → Shared → Shared
unfolding update_slot
release_peer_state i s = record s { slots = update_slot sub_outstanding i s.slots }

unfoldable pub is_known : Str → List Slot → Bool
is_known id [] = false
is_known id (s ∷ slots) = s.peer_id == id || is_known id slots

-- `if(peer_stats) (*peer_stats)[peer_id];`
unfoldable pub enter_stats :
    Str → Option (Dict Str SwarmPeerStats) → Option (Dict Str SwarmPeerStats)
enter_stats id none = none
enter_stats id (some stats) = elim (lookup id stats) [
  | none ↦ some (insert id (record { chunks = 0; bytes = 0 }) stats)
  | some st ↦ some stats
]

-- `add_peer_state`, which the thread that refreshes the providers calls.
unfoldable pub add_peer_state : Str → Shared → Shared
unfolding is_known enter_stats
add_peer_state id s = if is_empty id || is_known id s.slots then s else record s {
  slots = s.slots ++ record { peer_id = id; outstanding = 0 } ∷ [];
  peer_stats = enter_stats id s.peer_stats;
}

abbrev stats_of : Str → Dict Str SwarmPeerStats → SwarmPeerStats
stats_of id m = elim (lookup id m) [ none ↦ record { chunks = 0; bytes = 0 } | some st ↦ st ]

-- `if(peer_stats)` of the block under `progress_mutex`: the statistics, and whether the chunk is the
-- first one of its peer.
unfoldable pub count_chunk :
    Str → ℕ → Option (Dict Str SwarmPeerStats) → Option (Dict Str SwarmPeerStats) × Bool
count_chunk peer_id size none = (none, false)
count_chunk peer_id size (some stats) =
    let st = stats_of peer_id stats in
    (
      some (insert peer_id (record { chunks = suc st.chunks; bytes = st.bytes + size }) stats),
      st.bytes == 0,
    )

-- `if(first_chunk_from_peer && active_peer_count)`
unfoldable pub count_peer : Bool → Option ℕ → Option ℕ
count_peer first none = none
count_peer first (some n) = some (if first then suc n else n)

-- The block under `progress_mutex`.
unfoldable pub record_chunk : ℕ → Str → ℕ → Shared → Shared
unfolding count_chunk count_peer
record_chunk job peer_id size s =
    let (stats, first) = count_chunk peer_id size s.peer_stats in
    record s {
      chunk_states = set s.chunk_states job 1;
      downloaded_bytes = s.downloaded_bytes + size;
      peer_stats = stats;
      active_peers = count_peer first s.active_peers;
    }

-- The last block under `job_mutex`.
unfoldable pub finish_job : SwarmConfig → Shared → Shared
finish_job c s =
    let completed =
      if ltb s.completed_jobs c.total_chunks then suc s.completed_jobs else s.completed_jobs in
    record s {
      completed_jobs = completed;
      active_jobs = s.active_jobs - 1;
      shutting_down = s.shutting_down || leb c.total_chunks completed;
    }

-- `uint64_t offset` and `length` of a chunk, with the wrap of unsigned subtraction.
unfoldable pub chunk_offset : SwarmConfig → ℕ → ℕ
chunk_offset c job = job * c.chunk_size % 2 ^ 64

unfoldable pub chunk_length : SwarmConfig → ℕ → ℕ → ℕ
unfolding chunk_offset
chunk_length c file_size job = min c.chunk_size ((file_size + 2 ^ 64 - chunk_offset c job) % 2 ^ 64)
