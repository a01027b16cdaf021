-- ===== src/Swarm/Ledger.antt =====
-- Every chunk is accounted for: it is queued, held by a worker, or written, as often as it stood in
-- the order at the start. The books are kept for any weight on offsets, so they count chunks, and
-- they count each offset.
use suba_sync.Prelude.{
  ℕ, ◌+◌, ◌≤◌, ◌<◌, ◌≡◌, ◌⊎◌, inl, inr, subst, Str, true, false, some, List, [], ◌∷◌, ◌++◌, str_eq,
  length, get_elem?, set, arith, sum_by, sum_by-append, sum_by-set, sum_by-one, sum_by-ge,
  length-append, Option-cases, Bool-cases,
}
use suba_sync.Swarm.{SwarmConfig, Shared, add_peer_state, chunk_offset}
use suba_sync.Swarm.Worker.{
  Phase, looping, holding, fetching, requeueing, writing, recording, finishing, stopped, Write,
  World, Reply, quiet, fetched, wrote, act, Action, work, refresh, step, run,
}

-- The job of a phase, while it is not written.
abbrev pub held : (ℕ → ℕ) → Phase → ℕ
held f looping = 0
held f (holding job) = f job
held f (fetching job i) = f job
held f (requeueing job reason fatal last) = f job
held f (writing job peer bytes) = f job
held f (recording job peer size) = 0
held f (finishing job) = 0
held f stopped = 0

-- One, if the worker has written its job and not counted it yet.
abbrev pub late : Phase → ℕ
late (recording job peer size) = 1
late (finishing job) = 1
late looping = 0
late (holding job) = 0
late (fetching job i) = 0
late (requeueing job reason fatal last) = 0
late (writing job peer bytes) = 0
late stopped = 0

module _ (c : SwarmConfig) where
  -- A weight on offsets, as a weight on jobs.
  abbrev pub at_offset : (ℕ → ℕ) → ℕ → ℕ
  at_offset f job = f (chunk_offset c job)

  -- What a step of one worker may do to the books, unless it fails the download.
  pub record Balances (p p' : Phase) (s s' : Shared) (new : List Write) : Type 0 where
    pub alive : s.failure ≡ false
    pub weight :
        (f : ℕ → ℕ)
        → sum_by (at_offset f) s.job_queue + held (at_offset f) p
          ≡ sum_by (at_offset f) s'.job_queue
            + held (at_offset f) p'
            + sum_by (λ (w : Write). f w.offset) new
    pub progress : s.completed_jobs + late p + length new ≡ s'.completed_jobs + late p'
    pub grows : s.completed_jobs ≤ s'.completed_jobs
    pub closing :
        s'.shutting_down ≡ true → (s.shutting_down ≡ true) ⊎ (c.total_chunks ≤ s'.completed_jobs)

  -- What the other books say to the worker: with a job in hand the download is not over, and with
  -- a chunk to count not all are counted.
  pub record HasRoom (p : Phase) (s : Shared) : Type 0 where
    pub open_while_held : s.failure ≡ false → 1 ≤ held (λ j. 1) p → s.shutting_down ≡ false
    pub not_all_counted : s.failure ≡ false → 1 ≤ late p → s.completed_jobs < c.total_chunks

  module _ (sha : Str → Str) where
    act-Balances :
        (p : Phase) (r : Reply) (s : Shared) {p' : Phase} {s' : Shared} {new : List Write}
        → HasRoom p s
        → act sha c p r s ≡ some (p', s', new)
        → s'.failure ≡ false
        → Balances p p' s s' new
    unfolding act sum_by
    act-Balances looping quiet s room h ok = record {
      alive = ground arith;
      weight = λ f. ground arith;
      progress = ground arith;
      grows = ground arith;
      closing = ground arith;
    }
    act-Balances (holding job) quiet s room h ok = record {
      alive = ground arith;
      weight = λ f. ground arith;
      progress = ground arith;
      grows = ground arith;
      closing = ground arith;
    }
    act-Balances (fetching job i) (fetched r) s room h ok = record {
      alive = ground arith;
      weight = λ f. ground arith;
      progress = ground arith;
      grows = ground arith;
      closing = ground arith;
    }
    act-Balances (requeueing job reason fatal last) quiet s room h ok =
        let alive : s.failure ≡ false = ground arith in
        let up : s.shutting_down ≡ false = room.open_while_held alive (omega arith) in
        record {
          alive = alive;
          weight = λ f. ground (arith, sum_by-append (at_offset f) s.job_queue (job ∷ []));
          progress = ground arith;
          grows = ground arith;
          closing = ground arith;
        }
    act-Balances (writing job peer bytes) (wrote true) s room h ok = record {
      alive = ground arith;
      weight = λ f. ground arith;
      progress = ground arith;
      grows = ground arith;
      closing = ground arith;
    }
    act-Balances (writing job peer bytes) (wrote false) s room h ok = record {
      alive = ground arith;
      weight = λ f. ground arith;
      progress = ground arith;
      grows = ground arith;
      closing = ground arith;
    }
    act-Balances (recording job peer size) quiet s room h ok = record {
      alive = ground arith;
      weight = λ f. ground arith;
      progress = ground arith;
      grows = ground arith;
      closing = ground arith;
    }
    act-Balances (finishing job) quiet s room h ok =
        let alive : s.failure ≡ false = ground arith in
        let behind : s.completed_jobs < c.total_chunks = room.not_all_counted alive (omega arith) in
        record {
          alive = alive;
          weight = λ f. ground arith;
          progress = ground arith;
          grows = ground arith;
          closing = ground arith;
        }
    act-Balances _ _ s room h ok = absurd (cc h)

  -- The books of a whole state, against the order of the chunks at the start.
  pub record IsAccounted (order : List ℕ) (w : World) : Type 0 where
    pub balance :
        w.shared.failure ≡ false
        → (f : ℕ → ℕ)
        → sum_by (at_offset f) w.shared.job_queue
            + sum_by (held (at_offset f)) w.workers
            + sum_by (λ (x : Write). f x.offset) w.writes
          ≡ sum_by (at_offset f) order
    pub counted :
        w.shared.failure ≡ false → w.shared.completed_jobs + sum_by late w.workers ≡ length w.writes
    pub closed :
        w.shared.failure ≡ false
        → w.shared.shutting_down ≡ true
        → c.total_chunks ≤ w.shared.completed_jobs

  module _ (sha : Str → Str) (order : List ℕ) (all : length order ≡ c.total_chunks) where
    -- Queued, held and written chunks add up to all chunks.
    pub IsAccounted-total :
        (w : World)
        → IsAccounted order w
        → w.shared.failure ≡ false
        → sum_by (λ j. 1) w.shared.job_queue + sum_by (held (λ j. 1)) w.workers + length w.writes
          ≡ c.total_chunks
    IsAccounted-total w books alive =
        omega (arith, books.balance alive (λ x. 1), sum_by-one w.writes, sum_by-one order)

    IsAccounted-HasRoom :
        (w : World) (i : ℕ) (p : Phase)
        → IsAccounted order w
        → get_elem? w.workers i ≡ some p
        → HasRoom p w.shared
    IsAccounted-HasRoom w i p books here = record {
      open_while_held = λ alive one. elim (Bool-cases w.shared.shutting_down) [
        | inl down ↦ absurd (
            omega (
              arith,
              books.closed alive down,
              books.counted alive,
              IsAccounted-total w books alive,
              sum_by-ge (held (λ j. 1)) w.workers i p here,
            ))
        | inr up ↦ up
      ];
      not_all_counted = λ alive one. omega (
        arith,
        books.counted alive,
        IsAccounted-total w books alive,
        sum_by-ge late w.workers i p here,
      );
    }

    advance-IsAccounted :
        (w : World) (i : ℕ) (p p' : Phase) (s' : Shared) (new : List Write)
        → IsAccounted order w
        → get_elem? w.workers i ≡ some p
        → (s'.failure ≡ false → Balances p p' w.shared s' new)
        → IsAccounted order
            (record { shared = s'; workers = set w.workers i p'; writes = w.writes ++ new })
    advance-IsAccounted w i p p' s' new books here move = record {
      balance = λ ok f.
          let b = move ok in
          omega (
            arith,
            books.balance b.alive f,
            b.weight f,
            sum_by-set (held (at_offset f)) w.workers i p p' here,
            sum_by-append (λ (x : Write). f x.offset) w.writes new,
          );
      counted = λ ok.
          let b = move ok in
          omega (
            arith,
            books.counted b.alive,
            b.progress,
            sum_by-set late w.workers i p p' here,
            length-append w.writes new,
          );
      closed = λ ok down.
          let b = move ok in
          elim (b.closing down) [
            | inl before ↦ omega (arith, books.closed b.alive before, b.grows)
            | inr enough ↦ enough
          ];
    }

    work-IsAccounted :
        (w : World) (i : ℕ) (p : Phase) (r : Reply) {w' : World}
        → IsAccounted order w
        → get_elem? w.workers i ≡ some p
        → step sha c w (work i r) ≡ some w'
        → IsAccounted order w'
    unfolding step
    work-IsAccounted w i p r {w'} books here h = elim (Option-cases (act sha c p r w.shared)) [
      | inl waits ↦ absurd (cc (rw (here, waits, step) at h))
      | inr ((p', s', new), e) ↦
          let moved =
            advance-IsAccounted w i p p' s' new books here
              (λ ok. act-Balances sha p r w.shared (IsAccounted-HasRoom w i p books here) e ok) in
          let same : record { shared = s'; workers = set w.workers i p'; writes = w.writes ++ new }
              ≡ w' =
            ground (arith, rw (here, e, step) at h) in
          subst (IsAccounted order) same moved
    ]

    pub step-IsAccounted :
        (w : World) (a : Action) {w' : World}
        → IsAccounted order w
        → step sha c w a ≡ some w'
        → IsAccounted order w'
    unfolding step
    step-IsAccounted w (work i r) books h = elim (Option-cases (get_elem? w.workers i)) [
      | inl nobody ↦ absurd (cc (rw (nobody, step) at h))
      | inr (p, here) ↦ work-IsAccounted w i p r books here h
    ]
    step-IsAccounted w (refresh peer) {w'} books h =
        let same : record w { shared = add_peer_state peer w.shared } ≡ w' = ground arith in
        subst (IsAccounted order) same (record {
          balance = λ ok f. ground (arith, books.balance (ground arith) f);
          counted = λ ok. ground (arith, books.counted (ground arith));
          closed = λ ok down. ground (arith, books.closed (ground arith) (ground arith));
        })

    pub run-IsAccounted :
        (actions : List Action) (w : World) {w' : World}
        → IsAccounted order w
        → run sha c w actions ≡ some w'
        → IsAccounted order w'
    unfolding run
    run-IsAccounted [] w {w'} books h =
        let same : w ≡ w' = ground arith in subst (IsAccounted order) same books
    run-IsAccounted (a ∷ actions) w books h = elim (Option-cases (step sha c w a)) [
      | inl stuck ↦ absurd (cc (rw (stuck, run) at h))
      | inr (w₁, e) ↦ run-IsAccounted actions w₁ (step-IsAccounted w a books e) (rw (e, run) at h)
    ]
