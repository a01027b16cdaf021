-- ===== src/Requests/Once.antt =====
-- A handler is called for its own request, once.
use suba_sync.Prelude.{
  ℕ, suc, ◌+◌, ◌%◌, ◌^◌, ◌≤◌, ◌<◌, Str, none, some, List, [], ◌∷◌, ◌≡◌, ◌≢◌, inl, inr, refl, sym,
  ◌∙◌, subst, arith, str_eq, str_beq_iff, ◌==◌, Member, All, All-map, All-Member, All-both, length,
  Bool-cases, Option-cases, if◌then◌else◌,
}
use suba_sync.Prelude.Dict.{
  Dict, lookup, insert, erase, has, lookup-insert, lookup-erase, lookup-nil,
}
use suba_sync.Requests.{Requests, request_id, open_request, cancel_request, request, take_handler}
use suba_sync.Requests.Calls.{Call, issue, answer, cancel, Trace, nothing_done, step, run, AreOnce}
use suba_sync.Requests.Ids.{request_id_injective}

module _ {H : Type 0} (self infix_text : Str) where
  -- What holds between the log and the table.
  pub record IsTracked (t : Trace H) : Type 0 where
    pub pending_issued :
        (id : Str) (h : H) → lookup id t.requests.pending ≡ some h → Member (id, h) t.issued
    pub called_issued : All (λ (c : Str × H). Member c t.issued) t.called
    pub called_gone : All (λ (c : Str × H). lookup c.0 t.requests.pending ≡ none) t.called
    pub called_once : AreOnce t.called
    pub issued_numbered :
        All
          (λ (c : Str × H).
            (n : ℕ) × (n ≤ t.requests.counter) × (c.0 ≡ request_id self infix_text n))
          t.issued

  -- The number of the next request, as long as the counter does not wrap.
  unfoldable pub next_id : Trace H → Str
  next_id t = request_id self infix_text (suc t.requests.counter)

  -- The next id has not been given to any request before.
  next_id-new : (t : Trace H) → IsTracked t → All (λ (c : Str × H). c.0 ≢ next_id t) t.issued
  unfolding next_id
  next_id-new t tracked =
      All-map
        (λ c (n, below, e) same.
          let clash =
            request_id_injective self infix_text n (suc t.requests.counter) (sym e ∙ same) in
          omega (arith, below, clash))
        t.issued tracked.issued_numbered

  next_id-not_called : (t : Trace H) → IsTracked t → All (λ (c : Str × H). c.0 ≢ next_id t) t.called
  next_id-not_called t tracked =
      All-map
        (λ c given.
          All-Member (λ (d : Str × H). d.0 ≢ next_id t) t.issued c (next_id-new t tracked) given)
        t.called tracked.called_issued

  cancelled-IsTracked :
      (id : Str) (t : Trace H)
      → IsTracked t
      → IsTracked
          (record t { requests = record t.requests { pending = erase id t.requests.pending } })
  cancelled-IsTracked id t tracked = record {
    pending_issued =
        λ j h found. tracked.pending_issued j h (grind (arith, lookup-erase, str_beq_iff, found));
    called_issued = tracked.called_issued;
    called_gone =
        All-map (λ c gone. grind (arith, lookup-erase, str_beq_iff, gone)) t.called
          tracked.called_gone;
    called_once = tracked.called_once;
    issued_numbered = tracked.issued_numbered;
  }

  taken-IsTracked :
      (id : Str) (h : H) (t : Trace H)
      → IsTracked t
      → lookup id t.requests.pending ≡ some h
      → IsTracked (record t {
        requests = record t.requests { pending = erase id t.requests.pending };
        called = (id, h) ∷ t.called;
      })
  taken-IsTracked id h t tracked found =
      let less = cancelled-IsTracked id t tracked in
      record {
        pending_issued = less.pending_issued;
        called_issued = (tracked.pending_issued id h found, tracked.called_issued);
        called_gone = (grind (arith, lookup-erase, str_beq_iff), less.called_gone);
        called_once = (
          All-map
              (λ c gone same.
                let gone' : lookup id t.requests.pending ≡ none =
                  subst (λ (j : Str). lookup j t.requests.pending ≡ none) same gone in
                absurd (cc (gone', found)))
              t.called tracked.called_gone,
          tracked.called_once,
        );
        issued_numbered = tracked.issued_numbered;
      }

  opened-IsTracked :
      (h : H) (t : Trace H)
      → IsTracked t
      → IsTracked (record t {
        requests = record {
          counter = suc t.requests.counter;
          pending = insert (next_id t) h t.requests.pending;
        };
        issued = (next_id t, h) ∷ t.issued;
      })
  unfolding next_id
  opened-IsTracked h t tracked = record {
    pending_issued = λ j k found. elim (Bool-cases (next_id t == j)) [
      | inl here ↦
          let found' = rw (lookup-insert (next_id t) j h t.requests.pending, here) at found in
          inl (
            let e = (str_beq_iff (next_id t) j).0 here in
            let e' : h ≡ k = ground arith in cc (e, e'))
      | inr other ↦
          let found' = rw (lookup-insert (next_id t) j h t.requests.pending, other) at found in
          inr (tracked.pending_issued j k found')
    ];
    called_issued = All-map (λ c m. inr m) t.called tracked.called_issued;
    called_gone =
        All-map
          (λ c (gone, apart).
            lookup-insert (next_id t) c.0 h t.requests.pending
            ∙ grind (arith, gone, apart, str_beq_iff (next_id t) c.0))
          t.called (All-both _ _ t.called tracked.called_gone (next_id-not_called t tracked));
    called_once = tracked.called_once;
    issued_numbered = (
      (suc t.requests.counter, omega arith, refl),
      All-map (λ c (n, below, e). (n, omega (arith, below), e)) t.issued tracked.issued_numbered,
    );
  }

  -- A request that is not sent takes a number and leaves the table as it is.
  failed-IsTracked :
      (h : H) (t : Trace H)
      → IsTracked t
      → IsTracked (record t {
        requests = record {
          counter = suc t.requests.counter;
          pending = erase (next_id t) (insert (next_id t) h t.requests.pending);
        };
      })
  failed-IsTracked h t tracked = record {
    pending_issued =
        λ j k found. tracked.pending_issued j k (grind (arith, lookup-erase, lookup-insert, found));
    called_issued = tracked.called_issued;
    called_gone =
        All-map (λ c gone. grind (arith, lookup-erase, lookup-insert, gone)) t.called
          tracked.called_gone;
    called_once = tracked.called_once;
    issued_numbered =
        All-map (λ c (n, below, e). (n, omega (arith, below), e)) t.issued tracked.issued_numbered;
  }

  pub request-unknown :
      (connections later : Dict Str ℕ) (peer_id : Str) (h : H) (r : Requests H)
      → lookup peer_id connections ≡ none
      → request self infix_text connections later peer_id h r ≡ (none, r)
  unfolding request open_request
  request-unknown connections later peer_id h r unknown = rw (request, unknown) refl

  -- The request with the next number is sent, or withdrawn.
  pub request-known :
      (connections later : Dict Str ℕ) (peer_id : Str) (h : H) (t : Trace H) (c : ℕ)
      → suc t.requests.counter < 2 ^ 64
      → lookup peer_id connections ≡ some c
      → request self infix_text connections later peer_id h t.requests ≡ (
          let opened : Requests H = record {
            counter = suc t.requests.counter;
            pending = insert (next_id t) h t.requests.pending;
          } in
          if has peer_id later
          then (some (next_id t), opened)
          else (none, record opened { pending = erase (next_id t) opened.pending }))
  unfolding request open_request cancel_request next_id
  request-known connections later peer_id h t c room known =
      let n : suc t.requests.counter % 2 ^ 64 ≡ suc t.requests.counter = omega (arith, room) in
      rw (request, known, n) refl

  -- One call keeps the log and the table in step, while the counter does not wrap.
  step-IsTracked :
      (c : Call H) (t : Trace H)
      → suc t.requests.counter < 2 ^ 64
      → IsTracked t
      → IsTracked (step self infix_text c t)
        × ((step self infix_text c t).requests.counter ≤ suc t.requests.counter)
  unfolding step cancel_request take_handler
  step-IsTracked (cancel id) t room tracked = (cancelled-IsTracked id t tracked, omega arith)
  step-IsTracked (answer id) t room tracked = elim (Option-cases (lookup id t.requests.pending)) [
    | inl absent ↦
        let e : take_handler id t.requests ≡ (none, t.requests) = rw (take_handler, absent) refl in
        rw (step, e, e) (tracked, omega arith)
    | inr (h, found) ↦
        let e : take_handler id t.requests
            ≡ (some h, record t.requests { pending = erase id t.requests.pending }) =
          rw (take_handler, found) refl in
        rw (step, e, e) (taken-IsTracked id h t tracked found, omega arith)
  ]
  step-IsTracked (issue connections later peer_id h) t room tracked =
      elim (Option-cases (lookup peer_id connections)) [
        | inl unknown ↦
            let e = request-unknown connections later peer_id h t.requests unknown in
            rw (step, e, e) (tracked, omega arith)
        | inr (c, known) ↦
            let e = request-known connections later peer_id h t c room known in
            elim (Bool-cases (has peer_id later)) [
              | inr lost ↦
                  let e' = rw lost at e in
                  rw (step, e', e') (failed-IsTracked h t tracked, omega arith)
              | inl still ↦
                  let e' = rw still at e in
                  rw (step, e', e') (opened-IsTracked h t tracked, omega arith)
            ]
      ]

  run-IsTracked :
      (calls : List (Call H)) (t : Trace H)
      → t.requests.counter + length calls < 2 ^ 64
      → IsTracked t
      → IsTracked (run self infix_text calls t)
  unfolding run
  run-IsTracked [] t room tracked = tracked
  run-IsTracked (c ∷ calls) t room tracked =
      let (next, grown) = step-IsTracked c t (omega (arith, room)) tracked in
      run-IsTracked calls (step self infix_text c t) (omega (arith, room, grown)) next

  nothing_done-IsTracked : IsTracked nothing_done
  unfolding nothing_done
  nothing_done-IsTracked = record {
    pending_issued = λ id h found. absurd (cc (lookup-nil {K = Str} {V = H} id, found));
    called_issued = tt;
    called_gone = tt;
    called_once = tt;
    issued_numbered = tt;
  }

  -- From an empty table, after any requests, answers and cancellations, fewer than 2^64: no handler
  -- is called twice for one id, and every handler called is the one that was given with the id.
  pub run_once :
      (calls : List (Call H))
      → length calls < 2 ^ 64
      → AreOnce (run self infix_text calls nothing_done).called
        × All
            (λ c. Member c (run self infix_text calls nothing_done).issued)
            (run self infix_text calls nothing_done).called
  unfolding nothing_done
  run_once calls room =
      let tracked = run-IsTracked calls nothing_done (omega (arith, room)) nothing_done-IsTracked in
      (tracked.called_once, tracked.called_issued)
