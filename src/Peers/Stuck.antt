-- ===== src/Peers/Stuck.antt =====
-- A dial that fails is forgotten by nobody: src/connection.cpp reports a failed resolve or connect
-- only to the log, so the peer stays in `in_progress_connects_`.
use suba_sync.Prelude.{
  ℕ, ◌≡◌, ◌≢◌, Str, true, List, [], ◌∷◌, arith, ltb, str_eq, str_beq_iff, Bool-cases, inl, inr, suc,
}
use suba_sync.Prelude.Dict.{has, lookup-insert, lookup-erase}
use suba_sync.Peers.{Mesh, add_peer_discovered, on_connected, on_disconnected}
use suba_sync.Peers.Dial.{
  Choice-cases, choose, mark_connecting, dial_each, attempt_connect_more, connected_others,
}
use suba_sync.Peers.State.{choose-IsIdle, Event, discovered, opened, closed, tick, step, run}
use suba_sync.Peers.Budget.{NotAmong}

-- The peer is being dialled.
abbrev pub IsDialled : Str → Mesh → Type 0
IsDialled id m = has id m.in_progress_connects ≡ true

-- No connection to or from the peer is opened or closed.
abbrev pub IsApart : Str → List Event → Type 0
IsApart id [] = Unit
IsApart id (discovered _ _ _ _ ∷ es) = IsApart id es
IsApart id (opened j conn ∷ es) = (j ≢ id) × IsApart id es
IsApart id (closed j ∷ es) = (j ≢ id) × IsApart id es
IsApart id (tick ∷ es) = IsApart id es

mark_connecting-IsDialled :
    (id j : Str) (m : Mesh) → IsDialled id m → IsDialled id (mark_connecting j m)
unfolding mark_connecting
mark_connecting-IsDialled id j m d = ground (arith, lookup-insert j id tt m.in_progress_connects)

dial_each-IsDialled :
    (id ip : Str) (ids : List Str) (n : ℕ) (m : Mesh)
    → IsDialled id m
    → IsDialled id (dial_each ip ids n m).mesh × NotAmong id (dial_each ip ids n m).dials
unfolding dial_each
dial_each-IsDialled id ip [] n m d = (d, tt)
dial_each-IsDialled id ip (j ∷ ids) n m d = elim (Choice-cases (choose m ip j)) [
  | inl e ↦ rw (e, dial_each) (dial_each-IsDialled id ip ids n m d)
  | inr (inl e) ↦ rw (e, dial_each) (d, tt)
  | inr (inr (host, port, e)) ↦
      let idle = choose-IsIdle m ip j e in
      let other : j ≢ id = λ same. ground (arith, idle.not_dialled) in
      let marked = mark_connecting-IsDialled id j m d in
      let later = dial_each-IsDialled id ip ids (suc n) (mark_connecting j m) marked in
      rw (e, dial_each)
        (elim (Bool-cases (ltb (suc n) m.max_peers)) [
          | inl more ↦ rw more (later.0, (other, later.1))
          | inr full ↦ rw full (marked, (other, tt))
        ])
]

attempt_connect_more-IsDialled :
    (id : Str) (m : Mesh)
    → IsDialled id m
    → IsDialled id (attempt_connect_more m).mesh × NotAmong id (attempt_connect_more m).dials
unfolding attempt_connect_more
attempt_connect_more-IsDialled id m d = elim (Bool-cases (ltb (connected_others m) m.max_peers)) [
  | inl room ↦ rw room (dial_each-IsDialled id _ _ _ m d)
  | inr full ↦ rw full (d, tt)
]

step-IsDialled :
    (id : Str) (m : Mesh) (e : Event)
    → IsApart id (e ∷ [])
    → IsDialled id m
    → IsDialled id (step m e)
unfolding step add_peer_discovered on_connected on_disconnected
step-IsDialled id m (discovered j name local external) apart d = ground arith
step-IsDialled id m (opened j conn) apart d = grind (arith, apart.0, lookup-erase, str_beq_iff j id)
step-IsDialled id m (closed j) apart d = grind (arith, apart.0, lookup-erase, str_beq_iff j id)
step-IsDialled id m tick apart d = (attempt_connect_more-IsDialled id m d).0

run-IsDialled :
    (id : Str) (es : List Event) (m : Mesh)
    → IsApart id es
    → IsDialled id m
    → IsDialled id (run m es)
unfolding run
run-IsDialled id [] m apart d = d
run-IsDialled id (discovered j name local external ∷ es) m apart d =
    run-IsDialled id es _ apart (step-IsDialled id m (discovered j name local external) tt d)
run-IsDialled id (opened j conn ∷ es) m apart d =
    run-IsDialled id es _ apart.1 (step-IsDialled id m (opened j conn) (apart.0, tt) d)
run-IsDialled id (closed j ∷ es) m apart d =
    run-IsDialled id es _ apart.1 (step-IsDialled id m (closed j) (apart.0, tt) d)
run-IsDialled id (tick ∷ es) m apart d = run-IsDialled id es _ apart (step-IsDialled id m tick tt d)

-- A peer that has been dialled is never dialled again, whatever is announced and however often the
-- timer ticks, until a connection with it is opened or closed.
pub never_dialled_again :
    (id : Str) (m : Mesh) (es : List Event)
    → IsDialled id m
    → IsApart id es
    → NotAmong id (attempt_connect_more (run m es)).dials
never_dialled_again id m es d apart =
    (attempt_connect_more-IsDialled id _ (run-IsDialled id es m apart d)).1
