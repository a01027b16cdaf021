-- ===== src/Connection/Tests.antt =====
-- Three messages through a queue, and one write that fails.
use suba_sync.Prelude.{ℕ, ◌≡◌, refl, List, [], ◌∷◌, ◌++◌}
use suba_sync.Connection.Order.{
  Event, IsSingle, send, wrote, failed, step, run, fresh, run_in_order, run_after_error,
}

abbrev events : List (Event ℕ)
events = send 1 ∷ send 2 ∷ wrote 0 ∷ send 3 ∷ wrote 0 ∷ []

two_written : (run events fresh).written ≡ 1 ∷ 2 ∷ []
unfolding run fresh
two_written = refl

run_in_order_example :
    ((run events fresh).written ++ (run events fresh).write_queue ≡ 1 ∷ 2 ∷ 3 ∷ [])
    × IsSingle (run events fresh)
run_in_order_example = run_in_order events

run_after_error_example :
    (run (send 4 ∷ wrote 0 ∷ []) (step (failed 0) (run events fresh))).written
    ≡ (run events fresh).written
unfolding run fresh
run_after_error_example = run_after_error events (send 4 ∷ wrote 0 ∷ []) 3 refl
