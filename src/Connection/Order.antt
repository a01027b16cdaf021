-- ===== src/Connection/Order.antt =====
-- The socket gets the messages in the order in which they were sent; after a write error it gets none.
use mathlib.Core.List.{append_assoc, append-nil}
use suba_sync.Prelude.{
  ℕ, zero, suc, true, false, List, [], ◌∷◌, ◌++◌, ◌≡◌, refl, sym, ap, ◌∙◌, arith, inl, inr, ◌⊎◌,
}
use suba_sync.Connection.{
  Connection, take_write, do_write, async_send_json, write_next, on_written, on_write_error,
}

pub data Event (M : Type 0) : Type 0 where
  send : M → Event M
  wrote failed : ℕ → Event M

module _ {M : Type 0} where
  unfoldable pub step : Event M → Connection M → Connection M
  unfolding async_send_json on_written on_write_error
  step (send message) c = async_send_json message c
  step (wrote n) c = on_written n c
  step (failed n) c = on_write_error n c

  unfoldable pub run : List (Event M) → Connection M → Connection M
  unfolding step
  run [] c = c
  run (e ∷ events) c = run events (step e c)

  -- The messages sent, in order.
  abbrev pub sent : List (Event M) → List M
  sent [] = []
  sent (send message ∷ events) = message ∷ sent events
  sent (wrote n ∷ events) = sent events
  sent (failed n ∷ events) = sent events

  unfoldable pub fresh : Connection M
  fresh = record { write_queue = []; writing = false; under_way = []; written = []; is_open = true }

  -- At most one write is under way, and then that of the front of the queue.
  abbrev pub IsSingle : Connection M → Type 0
  IsSingle c =
      (c.under_way ≡ [])
      ⊎ ((m : M) × ((rest : List M) × ((c.under_way ≡ m ∷ []) × (c.write_queue ≡ m ∷ rest))))

  -- What the socket has taken and what waits.
  abbrev pub history : Connection M → List M
  history c = c.written ++ c.write_queue

  -- What one event adds to the messages.
  abbrev added : Event M → List M
  added (send message) = message ∷ []
  added (wrote n) = []
  added (failed n) = []

  queue_cases : (q : List M) → (q ≡ []) ⊎ ((m : M) × ((rest : List M) × (q ≡ m ∷ rest)))
  queue_cases [] = inl refl
  queue_cases (m ∷ rest) = inr (m, (rest, refl))

  -- Each event keeps the single write, and only a sent message lengthens the history.
  Keeps : Event M → Connection M → Type 0
  Keeps e c = IsSingle (step e c) × (history (step e c) ≡ history c ++ added e)

  send-Keeps : (message : M) (c : Connection M) → IsSingle c → Keeps (send message) c
  unfolding Keeps step async_send_json do_write
  send-Keeps message c (inl idle) = elim (queue_cases c.write_queue) [
    | inl empty ↦
        rw (empty, idle)
          (inr (message, ([], (refl, refl))), sym (append_assoc c.written [] (message ∷ [])))
    | inr (m, (rest, full)) ↦
        rw (full, idle) (inl refl, sym (append_assoc c.written (m ∷ rest) (message ∷ [])))
  ]
  send-Keeps message c (inr (m, (rest, (busy, full)))) =
      rw (full, busy)
        (
          inr (m, (rest ++ message ∷ [], (refl, refl))),
          sym (append_assoc c.written (m ∷ rest) (message ∷ [])),
        )

  wrote-Keeps : (n : ℕ) (c : Connection M) → IsSingle c → Keeps (wrote n) c
  unfolding Keeps step on_written take_write write_next do_write
  wrote-Keeps n c (inl idle) = rw idle (inl refl, sym (append-nil (history c)))
  wrote-Keeps (suc n) c (inr (m, (rest, (busy, full)))) =
      rw (busy, full) (inr (m, (rest, (refl, refl))), sym (append-nil (c.written ++ m ∷ rest)))
  wrote-Keeps zero c (inr (m, (rest, (busy, full)))) = elim (queue_cases rest) [
    | inl empty ↦ rw (busy, full, empty) (inl refl, grind (arith, append-nil, append_assoc))
    | inr (next, (more, e)) ↦
        rw (busy, full, e)
          (inr (next, (more, (refl, refl))), grind (arith, append-nil, append_assoc))
  ]

  failed-Keeps : (n : ℕ) (c : Connection M) → IsSingle c → Keeps (failed n) c
  unfolding Keeps step on_write_error take_write
  failed-Keeps n c (inl idle) = rw idle (inl refl, sym (append-nil (history c)))
  failed-Keeps zero c (inr (m, (rest, (busy, full)))) =
      rw busy (inl refl, sym (append-nil (history c)))
  failed-Keeps (suc n) c (inr (m, (rest, (busy, full)))) =
      rw busy (inr (m, (rest, (refl, full))), sym (append-nil (history c)))

  step-Keeps : (e : Event M) (c : Connection M) → IsSingle c → Keeps e c
  step-Keeps (send message) c front = send-Keeps message c front
  step-Keeps (wrote n) c front = wrote-Keeps n c front
  step-Keeps (failed n) c front = failed-Keeps n c front

  added-sent : (e : Event M) (events : List (Event M)) → added e ++ sent events ≡ sent (e ∷ events)
  added-sent (send message) events = refl
  added-sent (wrote n) events = refl
  added-sent (failed n) events = refl

  run-history :
      (events : List (Event M)) (c : Connection M)
      → IsSingle c
      → history (run events c) ≡ history c ++ sent events
  unfolding run Keeps
  run-history [] c front = sym (append-nil (history c))
  run-history (e ∷ events) c front =
      let (front', kept) = step-Keeps e c front in
      run-history events (step e c) front'
      ∙ ap (λ h. h ++ sent events) kept
      ∙ append_assoc (history c) (added e) (sent events)
      ∙ ap (λ t. history c ++ t) (added-sent e events)

  run-IsSingle : (events : List (Event M)) (c : Connection M) → IsSingle c → IsSingle (run events c)
  unfolding run Keeps
  run-IsSingle [] c front = front
  run-IsSingle (e ∷ events) c front = run-IsSingle events (step e c) (step-Keeps e c front).0

  -- Whatever is sent, whichever write ends at each step, and however it ends: what the socket has
  -- taken, followed by what waits, is the messages in the order in which they were sent, so none is
  -- lost, repeated or overtaken. At most one write is under way, and then it is that of the front of
  -- the queue.
  pub run_in_order :
      (events : List (Event M))
      → ((run events fresh).written ++ (run events fresh).write_queue ≡ sent events)
        × IsSingle (run events fresh)
  unfolding fresh
  run_in_order events = (run-history events fresh (inl refl), run-IsSingle events fresh (inl refl))

  -- Nothing is under way although messages wait.
  abbrev IsStuck : Connection M → Type 0
  IsStuck c = (c.under_way ≡ []) × ((m : M) × ((rest : List M) × (c.write_queue ≡ m ∷ rest)))

  step-IsStuck :
      (e : Event M) (c : Connection M)
      → IsStuck c
      → IsStuck (step e c) × ((step e c).written ≡ c.written)
  unfolding step async_send_json on_written on_write_error take_write
  step-IsStuck (send message) c (idle, (m, (rest, full))) =
      rw full ((idle, (m, (rest ++ message ∷ [], refl))), refl)
  step-IsStuck (wrote n) c (idle, waits) = rw idle ((refl, waits), refl)
  step-IsStuck (failed n) c (idle, waits) = rw idle ((refl, waits), refl)

  run-IsStuck :
      (events : List (Event M)) (c : Connection M) → IsStuck c → (run events c).written ≡ c.written
  unfolding run
  run-IsStuck [] c stuck = refl
  run-IsStuck (e ∷ events) c stuck =
      let (stuck', same) = step-IsStuck e c stuck in run-IsStuck events (step e c) stuck' ∙ same

  -- After a write error the socket gets nothing more: the failed message stays at the front of the
  -- queue, so no later message starts a write.
  pub run_after_error :
      (before after : List (Event M)) (m : M)
      → (run before fresh).under_way ≡ m ∷ []
      → (run after (step (failed zero) (run before fresh))).written ≡ (run before fresh).written
  unfolding step on_write_error take_write fresh
  run_after_error before after m busy =
      let c = run before fresh in
      elim (run-IsSingle before fresh (inl refl)) [
        | inl idle ↦ absurd (cc (busy, idle))
        | inr (m', (rest, (busy', full))) ↦
            let stuck : IsStuck (step (failed zero) c)
                × ((step (failed zero) c).written ≡ c.written) =
              rw busy' ((refl, (m', (rest, full))), refl) in
            run-IsStuck after (step (failed zero) c) stuck.0 ∙ stuck.1
      ]
