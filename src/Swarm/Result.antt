-- ===== src/Swarm/Result.antt =====
-- What the result of a swarm download means.
use suba_sync.Prelude.{
  Option, ℕ, zero, suc, ◌≤◌, ◌≡◌, refl, sym, ◌∙◌, Str, true, false, some, List, [], ◌∷◌, map, ◌==◌,
  nat_eq, if◌then◌else◌, length, replicate, arith, sum_by, subst,
}
use suba_sync.Prelude.Dict.{Dict}
use suba_sync.Swarm.{SwarmPeerStats, SwarmConfig, chunk_offset}
use suba_sync.Swarm.Worker.{
  Phase, looping, holding, fetching, requeueing, writing, recording, finishing, stopped, Write,
  World, Action, run, outcome,
}
use suba_sync.Swarm.Setup.{distinct_peers, initial, start, worker_count}
use suba_sync.Swarm.Ledger.{IsAccounted, IsAccounted-total, run-IsAccounted, held, late, at_offset}

-- How often a number stands in a list.
abbrev pub count : ℕ → List ℕ → ℕ
count o = sum_by (λ x. if x == o then 1 else 0)

sum_by-map {ℓ} :
    {A : Type ℓ} (g : A → ℕ) (f : ℕ → ℕ) (xs : List A)
    → sum_by f (map g xs) ≡ sum_by (λ x. f (g x)) xs
unfolding sum_by
sum_by-map g f [] = refl
sum_by-map g f (x ∷ xs) = omega (arith, sum_by-map g f xs)

pub sum_by-replicate_zero :
    (f : Phase → ℕ) (n : ℕ) → f looping ≡ 0 → sum_by f (replicate n looping) ≡ 0
unfolding sum_by
sum_by-replicate_zero f zero h = refl
sum_by-replicate_zero f (suc n) h = omega (arith, sum_by-replicate_zero f n h)

jobs-zero : (g : ℕ → ℕ) (q : List ℕ) → sum_by (λ j. 1) q ≡ 0 → sum_by g q ≡ 0
unfolding sum_by
jobs-zero g [] h = refl
jobs-zero g (j ∷ q) h = absurd (omega arith)

held-zero : (g : ℕ → ℕ) (p : Phase) → held (λ j. 1) p ≡ 0 → held g p ≡ 0
held-zero g looping h = refl
held-zero g (holding job) h = absurd (omega arith)
held-zero g (fetching job i) h = absurd (omega arith)
held-zero g (requeueing job reason fatal last) h = absurd (omega arith)
held-zero g (writing job peer bytes) h = absurd (omega arith)
held-zero g (recording job peer size) h = refl
held-zero g (finishing job) h = refl
held-zero g stopped h = refl

workers-zero :
    (g : ℕ → ℕ) (ws : List Phase) → sum_by (held (λ j. 1)) ws ≡ 0 → sum_by (held g) ws ≡ 0
unfolding sum_by
workers-zero g [] h = refl
workers-zero g (p ∷ ws) h =
    omega (arith, held-zero g p (omega arith), workers-zero g ws (omega arith))

module _ (c : SwarmConfig) (sha : Str → Str) (order : List ℕ)
    (all : length order ≡ c.total_chunks) where
  initial-IsAccounted :
      (peers : List Str) (states : List ℕ) (stats : Option (Dict Str SwarmPeerStats))
      (active : Option ℕ)
      → IsAccounted c order (initial c stats active peers states order)
  unfolding initial sum_by
  initial-IsAccounted peers states stats active = record {
    balance = λ ok f.
        omega (arith, sum_by-replicate_zero (held (at_offset c f)) (worker_count c peers) refl);
    counted = λ ok. omega (arith, sum_by-replicate_zero late (worker_count c peers) refl);
    closed = λ ok down. absurd (cc down);
  }

  start-IsAccounted :
      (size : ℕ) (providers : List Str) (states : List ℕ) (stats : Option (Dict Str SwarmPeerStats))
      (active : Option ℕ) {w : World}
      → start c stats active size providers states order ≡ some w
      → IsAccounted c order w
  unfolding start
  start-IsAccounted size providers states stats active {w} h =
      let same : initial c stats active (distinct_peers [] providers) states order ≡ w =
        ground arith in
      subst (IsAccounted c order) same
        (initial-IsAccounted (distinct_peers [] providers) states stats active)

  outcome-writes :
      (w : World)
      → IsAccounted c order w
      → outcome c w.shared ≡ true
      → (f : ℕ → ℕ) → sum_by (λ (x : Write). f x.offset) w.writes ≡ sum_by (at_offset c f) order
  unfolding outcome
  outcome-writes w books h f =
      let alive : w.shared.failure ≡ false = ground arith in
      let complete : c.total_chunks ≤ w.shared.completed_jobs = ground arith in
      let total = IsAccounted-total c sha order all w books alive in
      let counted = books.counted alive in
      omega (
        arith,
        books.balance alive f,
        jobs-zero (at_offset c f) w.shared.job_queue (omega (arith, total, counted, complete)),
        workers-zero (at_offset c f) w.workers (omega (arith, total, counted, complete)),
      )

  -- Whatever the workers, the peers, the disk and the refreshed providers do, in whatever order: if
  -- the download returns true, the offsets written are those of the chunks in the order at its
  -- start, each as often as there.
  pub run_swarm_download_complete :
      (size : ℕ) (providers : List Str) (states : List ℕ) (actions : List Action)
      (stats : Option (Dict Str SwarmPeerStats)) (active : Option ℕ) {w w' : World}
      → start c stats active size providers states order ≡ some w
      → run sha c w actions ≡ some w'
      → outcome c w'.shared ≡ true
      → (o : ℕ)
      → count o (map (λ (x : Write). x.offset) w'.writes) ≡ count o (map (chunk_offset c) order)
  run_swarm_download_complete size providers states actions stats active {w} {w'} begun ran done o =
      let books =
        run-IsAccounted c sha order all actions w
          (start-IsAccounted size providers states stats active begun) ran in
      let hit = λ (x : ℕ). if x == o then 1 else 0 in
      sum_by-map (λ (x : Write). x.offset) hit w'.writes
      ∙ outcome-writes w' books done hit
      ∙ sym (sum_by-map (chunk_offset c) hit order)
