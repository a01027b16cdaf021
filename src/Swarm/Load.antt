-- ===== src/Swarm/Load.antt =====
-- No peer is asked for more than `per_peer_limit` chunks at a time.
use suba_sync.Prelude.{
  Option, ℕ, zero, suc, ◌+◌, ◌%◌, ◌≤◌, ◌<◌, ◌≡◌, inl, inr, refl, sym, subst, ◌∙◌, Str, true, false,
  ◌||◌, not, none, some, List, [], ◌∷◌, ◌++◌, map, ltb, ltb→lt, ◌==◌, nat_eq, str_eq, if◌then◌else◌,
  length, get_elem?, get_elem?-set, set, arith, sum_by, sum_by-set, sum_by-ge, Option-cases,
  Bool-cases,
}
use suba_sync.Swarm.Setup.{distinct_peers, initial, start, worker_count}
use suba_sync.Swarm.Result.{sum_by-replicate_zero}
use suba_sync.Prelude.Dict.{Dict}
use suba_sync.Swarm.{
  SwarmPeerStats, SwarmConfig, Shared, Slot, Answer, blocked, nothing, got, per_peer_limit,
  acquire_peer_state, release_peer_state, add_peer_state, find_slot, has_room, update_slot,
  add_outstanding, sub_outstanding,
}
use suba_sync.Swarm.Worker.{
  ChunkResponse, Phase, looping, holding, fetching, requeueing, writing, recording, finishing,
  stopped, Write, World, Reply, quiet, fetched, wrote, judge, act, peer_at, Action, work, refresh,
  step, run,
}

-- One, if the worker waits for a chunk from the peer.
abbrev pub asks : ℕ → Phase → ℕ
asks i (fetching job j) = if j == i then 1 else 0
asks i looping = 0
asks i (holding job) = 0
asks i (requeueing job reason fatal last) = 0
asks i (writing job peer bytes) = 0
asks i (recording job peer size) = 0
asks i (finishing job) = 0
asks i stopped = 0

-- The requests that a slot counts.
abbrev pub outstanding_at : ℕ → List Slot → ℕ
outstanding_at i slots = elim (get_elem? slots i) [ none ↦ 0 | some s ↦ s.outstanding ]

-- Each slot counts the workers that wait for its peer, and is within the limit.
pub record IsBalanced (c : SwarmConfig) (w : World) : Type 0 where
  pub counted : (i : ℕ) → outstanding_at i w.shared.slots ≡ sum_by (asks i) w.workers
  pub limited : (i : ℕ) → outstanding_at i w.shared.slots ≤ per_peer_limit c

outstanding_at-update_slot :
    (f : Slot → Slot) (i j : ℕ) (slots : List Slot)
    → outstanding_at j (update_slot f i slots) ≡ (
        if i == j
        then (elim (get_elem? slots i) [ none ↦ 0 | some s ↦ (f s).outstanding ])
        else outstanding_at j slots)
unfolding update_slot
outstanding_at-update_slot f i j slots = elim (Option-cases (get_elem? slots i)) [
  | inl missing ↦ ground arith
  | inr (s, here) ↦ ground (arith, get_elem?-set slots i j s (f s) here)
]

find_slot-room :
    (limit : ℕ) (slots : List Slot) (n start r i : ℕ) {at : ℕ}
    → find_slot limit slots n start r i ≡ some at
    → (s : Slot) × (get_elem? slots at ≡ some s) × (s.outstanding < limit)
unfolding find_slot
find_slot-room limit slots n start zero i h = absurd (cc h)
find_slot-room limit slots n start (suc r) i {at} h =
    elim (Option-cases (get_elem? slots ((start + i) % n))) [
      | inl missing ↦ find_slot-room limit slots n start r (suc i) (ground arith)
      | inr (s, here) ↦ elim (Bool-cases (ltb s.outstanding limit)) [
        | inl room ↦
            let same : (start + i) % n ≡ at = ground arith in (s, rw same at here, ltb→lt _ _ room)
        | inr full ↦ find_slot-room limit slots n start r (suc i) (ground arith)
      ]
    ]

-- Where a request is granted: the peer had room, and counts one more.
abbrev Grants : SwarmConfig → Shared → Answer (ℕ × Shared) → Type 0
Grants c s blocked = Unit {0}
Grants c s nothing = Unit {0}
Grants c s (got (j, s')) =
    (slot : Slot) × (get_elem? s.slots j ≡ some slot)
    × (slot.outstanding < per_peer_limit c)
    × (s'.slots ≡ update_slot add_outstanding j s.slots)

acquire_peer_state-Grants : (c : SwarmConfig) (s : Shared) → Grants c s (acquire_peer_state c s)
unfolding acquire_peer_state
acquire_peer_state-Grants c s = elim (Bool-cases (s.shutting_down || s.failure)) [
  | inl over ↦ rw (over, acquire_peer_state) tt
  | inr on ↦ elim (Bool-cases (not (has_room (per_peer_limit c) s.slots))) [
    | inl full ↦ rw (on, full, acquire_peer_state) tt
    | inr room ↦
        elim (Option-cases (
          find_slot (per_peer_limit c) s.slots (length s.slots) s.next_peer_index (length s.slots)
            0)) [
              | inl none_found ↦ rw (on, room, none_found, acquire_peer_state) tt
              | inr (j, found) ↦
                  let (slot, here, below) = find_slot-room _ s.slots _ _ _ 0 found in
                  rw (on, room, found, acquire_peer_state) (slot, here, below, refl)
            ]
  ]
]

-- After a response no worker waits, and the slots are as the release left them.
judge-slots :
    (sha : Str → Str) (c : SwarmConfig) (job : ℕ) (peer : Str) (r : ChunkResponse) (s : Shared)
    (i : ℕ)
    → ((judge sha c job peer r s).1.slots ≡ s.slots) × (asks i (judge sha c job peer r s).0 ≡ 0)
unfolding judge
judge-slots sha c job peer r s i = ground arith

-- What one step of a worker does to the count of a peer.
abbrev Moves : SwarmConfig → Phase → Phase → Shared → Shared → Type 0
Moves c p p' s s' =
    (i : ℕ)
    → ((outstanding_at i s'.slots + asks i p ≡ outstanding_at i s.slots + asks i p'))
      × (outstanding_at i s.slots ≤ per_peer_limit c → outstanding_at i s'.slots ≤ per_peer_limit c)

module _ (c : SwarmConfig) (sha : Str → Str) where
  act-Moves :
      (p : Phase) (r : Reply) (s : Shared) {p' : Phase} {s' : Shared} {new : List Write}
      → ((i : ℕ) → asks i p ≤ outstanding_at i s.slots)
      → act sha c p r s ≡ some (p', s', new)
      → Moves c p p' s s'
  unfolding act
  act-Moves looping quiet s counts h = λ i. ground arith
  act-Moves (holding job) quiet s {p'} {s'} counts h =
      granted (acquire_peer_state c s) refl (acquire_peer_state-Grants c s)
    where
      granted :
          (a : Answer (ℕ × Shared))
          → acquire_peer_state c s ≡ a
          → Grants c s a
          → Moves c (holding job) p' s s'
      granted blocked e g = λ i. absurd (cc (rw (e, act) at h))
      granted nothing e g = λ i. ground (arith, rw (e, act) at h)
      granted (got (j, s₁)) e (slot, here, below, slots) = λ i.
          ground (arith, rw (e, act) at h, outstanding_at-update_slot add_outstanding j i s.slots)
  act-Moves (fetching job j) (fetched r) s counts h = λ i. ground (
    arith,
    counts i,
    judge-slots sha c job (peer_at s.slots j) r (release_peer_state j s) i,
    outstanding_at-update_slot sub_outstanding j i s.slots,
  )
  act-Moves (requeueing job reason fatal last) quiet s counts h = λ i. ground arith
  act-Moves (writing job peer bytes) (wrote true) s counts h = λ i. ground arith
  act-Moves (writing job peer bytes) (wrote false) s counts h = λ i. ground arith
  act-Moves (recording job peer size) quiet s counts h = λ i. ground arith
  act-Moves (finishing job) quiet s counts h = λ i. ground arith
  act-Moves _ _ s counts h = absurd (cc h)

outstanding_at-append :
    (i : ℕ) (slots : List Slot) (id : Str)
    → outstanding_at i (slots ++ record { peer_id = id; outstanding = 0 } ∷ [])
      ≡ outstanding_at i slots
outstanding_at-append zero [] id = refl
outstanding_at-append (suc i) [] id = refl
outstanding_at-append zero (s ∷ slots) id = refl
outstanding_at-append (suc i) (s ∷ slots) id = outstanding_at-append i slots id

module _ (c : SwarmConfig) (sha : Str → Str) where
  work-IsBalanced :
      (w : World) (k : ℕ) (p : Phase) (r : Reply) {w' : World}
      → IsBalanced c w
      → get_elem? w.workers k ≡ some p
      → step sha c w (work k r) ≡ some w'
      → IsBalanced c w'
  unfolding step
  work-IsBalanced w k p r {w'} b here h = elim (Option-cases (act sha c p r w.shared)) [
    | inl waits ↦ absurd (cc (rw (here, waits, step) at h))
    | inr ((p', s', new), e) ↦
        let moves =
          act-Moves c sha p r w.shared
            (λ i. omega (arith, b.counted i, sum_by-ge (asks i) w.workers k p here)) e in
        let same : record { shared = s'; workers = set w.workers k p'; writes = w.writes ++ new }
            ≡ w' =
          ground (arith, rw (here, e, step) at h) in
        subst (IsBalanced c) same (record {
          counted = λ i.
              omega (arith, b.counted i, (moves i).0, sum_by-set (asks i) w.workers k p p' here);
          limited = λ i. (moves i).1 (b.limited i);
        })
  ]

  step-IsBalanced :
      (w : World) (a : Action) {w' : World}
      → IsBalanced c w
      → step sha c w a ≡ some w'
      → IsBalanced c w'
  unfolding step
  step-IsBalanced w (work k r) b h = elim (Option-cases (get_elem? w.workers k)) [
    | inl nobody ↦ absurd (cc (rw (nobody, step) at h))
    | inr (p, here) ↦ work-IsBalanced w k p r b here h
  ]
  step-IsBalanced w (refresh peer) {w'} b h =
      let same : record w { shared = add_peer_state peer w.shared } ≡ w' = ground arith in
      subst (IsBalanced c) same (record {
        counted = λ i. ground (arith, b.counted i, outstanding_at-append i w.shared.slots peer);
        limited = λ i. ground (arith, b.limited i, outstanding_at-append i w.shared.slots peer);
      })

  run-IsBalanced :
      (actions : List Action) (w : World) {w' : World}
      → IsBalanced c w
      → run sha c w actions ≡ some w'
      → IsBalanced c w'
  unfolding run
  run-IsBalanced [] w {w'} b h = let same : w ≡ w' = ground arith in subst (IsBalanced c) same b
  run-IsBalanced (a ∷ actions) w b h = elim (Option-cases (step sha c w a)) [
    | inl stuck ↦ absurd (cc (rw (stuck, run) at h))
    | inr (w₁, e) ↦ run-IsBalanced actions w₁ (step-IsBalanced w a b e) (rw (e, run) at h)
  ]

outstanding_at-map :
    (i : ℕ) (peers : List Str)
    → outstanding_at i (map (λ (p : Str). record { peer_id = p; outstanding = 0 }) peers) ≡ 0
outstanding_at-map i [] = refl
outstanding_at-map zero (p ∷ peers) = refl
outstanding_at-map (suc i) (p ∷ peers) = outstanding_at-map i peers

initial-IsBalanced :
    (c : SwarmConfig) (peers : List Str) (states order : List ℕ)
    (stats : Option (Dict Str SwarmPeerStats)) (active : Option ℕ)
    → IsBalanced c (initial c stats active peers states order)
unfolding initial
initial-IsBalanced c peers states order stats active = record {
  counted = λ i.
      outstanding_at-map i peers ∙ sym (sum_by-replicate_zero (asks i) (worker_count c peers) refl);
  limited = λ i. omega (arith, outstanding_at-map i peers);
}

-- In every reachable state of a download at most `per_peer_limit` workers wait for a chunk from one
-- peer, and its slot counts exactly them.
pub run_swarm_download_limited :
    (c : SwarmConfig) (sha : Str → Str) (size : ℕ) (providers : List Str) (states order : List ℕ)
    (stats : Option (Dict Str SwarmPeerStats)) (active : Option ℕ) (actions : List Action)
    {w w' : World} (i : ℕ)
    → start c stats active size providers states order ≡ some w
    → run sha c w actions ≡ some w'
    → (sum_by (asks i) w'.workers ≤ per_peer_limit c)
      × (outstanding_at i w'.shared.slots ≡ sum_by (asks i) w'.workers)
unfolding start
run_swarm_download_limited c sha size providers states order stats active actions {w} i begun went =
    let same : initial c stats active (distinct_peers [] providers) states order ≡ w =
      ground arith in
    let b =
      run-IsBalanced c sha actions w
        (subst (IsBalanced c) same
          (initial-IsBalanced c (distinct_peers [] providers) states order stats active))
        went in
    (omega (arith, b.counted i, b.limited i), b.counted i)
