-- ===== src/Peers/Tests.antt =====
-- Runs of the peer table, and its theorems at concrete tables.
use suba_sync.Prelude.{
  ◌≡◌, refl, ◌≤◌, Str, codes, List, [], ◌∷◌, arith, str_eq, str_beq, str_beq_iff, length,
}
use suba_sync.Prelude.Dict.{lookup}
use suba_sync.Text.{is_space}
use suba_sync.Peers.{Mesh, init, add_peer_discovered}
use suba_sync.Peers.Dial.{attempt_connect_more}
use suba_sync.Peers.State.{
  Event, discovered, closed, tick, run, IsConsistent, run-init-IsConsistent,
}
use suba_sync.Peers.Budget.{AreDialable, attempt_connect_more_budget, NotAmong}
use suba_sync.Peers.Stuck.{never_dialled_again}

abbrev me : Str
me = codes "peer-a"

abbrev other : Str
other = codes "peer-b"

abbrev history : List Event
history = discovered other (codes "b") (codes "10.0.0.2:9001") [] ∷ tick ∷ []

abbrev start : Mesh
unfolding init
start = init me (codes "a") (codes "10.0.0.1:9000") [] 6

dialling : Mesh
unfolding init run add_peer_discovered attempt_connect_more lookup is_space str_beq
dialling = run start history

first_tick_dials :
    (attempt_connect_more
      (run start (discovered other (codes "b") (codes "10.0.0.2:9001") [] ∷ []))).dials
    ≡ record { peer = other; host = codes "10.0.0.2"; port = 9001 } ∷ []
unfolding dialling
first_tick_dials = refl

run-init-IsConsistent_example : IsConsistent (run (init me me me [] 6) history)
run-init-IsConsistent_example = run-init-IsConsistent me me me [] 6 history

attempt_connect_more_budget_example :
    AreDialable start (attempt_connect_more start).dials
    × (length (attempt_connect_more start).dials ≤ 6)
unfolding start attempt_connect_more
attempt_connect_more_budget_example = attempt_connect_more_budget start

never_dialled_again_example :
    NotAmong other (attempt_connect_more (run dialling (tick ∷ closed me ∷ tick ∷ []))).dials
unfolding dialling
never_dialled_again_example =
    never_dialled_again other dialling (tick ∷ closed me ∷ tick ∷ []) refl
      (λ e. ground (arith, str_beq_iff me other), tt)
