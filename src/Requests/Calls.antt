-- ===== src/Requests/Calls.antt =====
-- Runs of requests, answers and cancellations, with a log of the handlers given and called.
use suba_sync.Prelude.{ℕ, Str, none, some, List, [], ◌∷◌, ◌≢◌, str_eq, All}
use suba_sync.Prelude.Dict.{Dict}
use suba_sync.Requests.{Requests, cancel_request, request, take_handler}

-- A request to a peer, with the connections at its two looks; an answer; a cancellation.
pub data Call (H : Type 0) : Type 0 where
  issue : Dict Str ℕ → Dict Str ℕ → Str → H → Call H
  answer cancel : Str → Call H

-- The requests with what has happened: the handlers given, by id, and the handlers called.
pub record Trace (H : Type 0) : Type 0 where
  pub requests : Requests H
  pub issued : List (Str × H)
  pub called : List (Str × H)

-- A table that no request has touched.
unfoldable pub nothing_done : {H : Type 0} → Trace H
nothing_done = record { requests = record { counter = 0; pending = [] }; issued = []; called = [] }

module _ {H : Type 0} (self infix_text : Str) where
  unfoldable pub step : Call H → Trace H → Trace H
  unfolding request cancel_request take_handler
  step (issue connections later peer_id handler) t =
      let (id, r) = request self infix_text connections later peer_id handler t.requests in
      elim id [
        | none ↦ record t { requests = r }
        | some id ↦ record t { requests = r; issued = (id, handler) ∷ t.issued }
      ]
  step (answer id) t =
      let (taken, r) = take_handler id t.requests in
      elim taken [
        | none ↦ record t { requests = r }
        | some handler ↦ record t { requests = r; called = (id, handler) ∷ t.called }
      ]
  step (cancel id) t = record t { requests = (cancel_request id t.requests).1 }

  unfoldable pub run : List (Call H) → Trace H → Trace H
  unfolding step
  run [] t = t
  run (c ∷ calls) t = run calls (step c t)

module _ {H : Type 0} where
  -- No two calls are for one id.
  abbrev pub AreOnce : List (Str × H) → Type 0
  AreOnce [] = Unit
  AreOnce (c ∷ calls) = All (λ (d : Str × H). d.0 ≢ c.0) calls × AreOnce calls
