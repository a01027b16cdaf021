-- ===== src/Swarm/Worker.antt =====
-- The worker threads of `run_swarm_download`: a worker between two steps is in a phase, and a
-- schedule says which worker moves next and what the callbacks answer.
use suba_sync.Prelude.{
  ℕ, suc, ◌*◌, max, Str, codes, Bool, true, false, ◌&&◌, ◌||◌, not, Option, none, some, List, [],
  ◌∷◌, ◌++◌, leb, ◌==◌, str_eq, if◌then◌else◌, is_empty, length, get_elem?, set,
}
use suba_sync.Swarm.{
  SwarmConfig, Shared, Slot, blocked, nothing, got, take_job, requeue_job, acquire_peer_state,
  release_peer_state, add_peer_state, record_chunk, finish_job, chunk_offset,
}

-- The fields of `PeerManager::ChunkResponse` that a worker reads.
pub record ChunkResponse : Type 0 where
  pub success : Bool
  pub bytes : Str
  pub chunk_sha : Str

-- Where a worker stands: at the head of its loop; with a job and no peer; waiting for a chunk;
-- about to requeue its job (and to stop then, if `last`); about to write, to record or to finish.
pub data Phase : Type 0 where
  looping : Phase
  holding : ℕ → Phase
  fetching : ℕ → ℕ → Phase
  requeueing : ℕ → Str → Bool → Bool → Phase
  writing : ℕ → Str → Str → Phase
  recording : ℕ → Str → ℕ → Phase
  finishing : ℕ → Phase
  stopped : Phase

-- A call of `write_chunk` that returned true.
pub record Write : Type 0 where
  pub offset : ℕ
  pub bytes : Str

pub record World : Type 0 where
  pub shared : Shared
  pub workers : List Phase
  pub writes : List Write

-- What a callback answers, where a step calls one.
pub data Reply : Type 0 where
  quiet : Reply
  fetched : ChunkResponse → Reply
  wrote : Bool → Reply

abbrev pub peer_at : List Slot → ℕ → Str
peer_at slots i = elim (get_elem? slots i) [ none ↦ [] | some s ↦ s.peer_id ]

abbrev attempts_of : ℕ → Shared → ℕ
attempts_of job s = elim (get_elem? s.attempts job) [ none ↦ 0 | some n ↦ n ]

-- `job_states[job].attempts++` and the test whether that was the last attempt.
unfoldable pub count_attempt : ℕ → Shared → Shared × Bool
count_attempt job s =
    let n = suc (attempts_of job s) in
    (record s { attempts = set s.attempts job n }, leb (max 3 (length s.slots * 2)) n)

-- A worker moves, or the thread that refreshes the providers brings a peer.
pub data Action : Type 0 where
  work : ℕ → Reply → Action
  refresh : Str → Action

module _ (sha256_hex : Str → Str) (c : SwarmConfig) where
  -- The tests on a response.
  unfoldable pub judge : ℕ → Str → ChunkResponse → Shared → Phase × Shared
  unfolding count_attempt
  judge job peer r s =
      if not r.success || is_empty r.bytes
      then (let (s', fatal) = count_attempt job s in
          (requeueing job (codes "Failed to download chunk") fatal false, s'))
      else if not (is_empty r.chunk_sha) && not (r.chunk_sha == sha256_hex r.bytes)
      then (let (s', fatal) = count_attempt job s in
          (requeueing job (codes "Chunk checksum mismatch") fatal false, s'))
      else (writing job peer r.bytes, s)

  -- One step of a worker in a phase: its next phase, the shared state, and what was written.
  -- `none` if the worker waits, has stopped, or the reply is of another kind.
  unfoldable pub act : Phase → Reply → Shared → Option (Phase × Shared × List Write)
  unfolding take_job requeue_job acquire_peer_state release_peer_state record_chunk finish_job judge
  act looping quiet s = elim (take_job s) [
    | blocked ↦ none
    | nothing ↦ some (stopped, s, [])
    | got (job, s') ↦ some (holding job, s', [])
  ]
  act (holding job) quiet s = elim (acquire_peer_state c s) [
    | blocked ↦ none
    | nothing ↦ some (requeueing job (codes "Swarm shutdown") true true, s, [])
    | got (i, s') ↦ some (fetching job i, s', [])
  ]
  act (fetching job i) (fetched r) s =
      let (p, s') = judge job (peer_at s.slots i) r (release_peer_state i s) in some (p, s', [])
  act (requeueing job reason fatal last) quiet s =
      some (if last then stopped else looping, requeue_job job reason fatal s, [])
  act (writing job peer bytes) (wrote true) s = some (
    recording job peer (length bytes),
    s,
    record { offset = chunk_offset c job; bytes = bytes } ∷ [],
  )
  act (writing job peer bytes) (wrote false) s =
      some (requeueing job (codes "Failed writing chunk to disk") true true, s, [])
  act (recording job peer size) quiet s = some (finishing job, record_chunk job peer size s, [])
  act (finishing job) quiet s = some (looping, finish_job c s, [])
  act _ _ s = none

  unfoldable pub step : World → Action → Option World
  unfolding act add_peer_state
  step w (work id reply) = elim (get_elem? w.workers id) [
    | none ↦ none
    | some p ↦ elim (act p reply w.shared) [
      | none ↦ none
      | some (p', s', new) ↦
          some (record { shared = s'; workers = set w.workers id p'; writes = w.writes ++ new })
    ]
  ]
  step w (refresh peer) = some (record w { shared = add_peer_state peer w.shared })

  -- A schedule; an action that cannot be taken ends it.
  unfoldable pub run : World → List Action → Option World
  unfolding step
  run w [] = some w
  run w (a ∷ actions) = elim (step w a) [ none ↦ none | some w' ↦ run w' actions ]

-- `return completed_jobs == total_chunks;`, or false after a failure.
unfoldable pub outcome : SwarmConfig → Shared → Bool
outcome c s =
    if s.failure
    then false
    else (leb s.completed_jobs c.total_chunks && leb c.total_chunks s.completed_jobs)
