-- ===== src/Peers/State.antt =====
-- The state that the table shows for a peer agrees with the two other maps, in every history.
use suba_sync.Prelude.{
  ℕ, ◌≡◌, ◌≢◌, sym, ◌∙◌, ◌⊎◌, Str, Bool, true, false, Option, none, some, List, [], ◌∷◌, arith, ltb,
  str_eq, str_beq_iff, Option-cases, Bool-cases, inl, inr, suc,
}
use suba_sync.Prelude.Dict.{lookup, has, lookup-insert, lookup-erase}
use suba_sync.Peers.{
  Mesh, PeerInfo, PeerState, disconnected, connecting, connected, init, add_peer_discovered,
  on_connected, on_disconnected,
}
use suba_sync.Peers.Dial.{
  Choice-cases, choose, dial, mark_connecting, dial_each, is_candidate, attempt_connect_more,
  connected_others,
}

-- The state of a peer as the three maps give it.
abbrev pub expected : Bool → Bool → PeerState
expected true progress = connected
expected false true = connecting
expected false false = disconnected

abbrev pub Agrees : Option PeerInfo → Bool → Bool → Type 0
Agrees none conn progress = (conn ≡ false) × (progress ≡ false)
Agrees (some p) conn progress =
    (p.state ≡ expected conn progress) × (conn ≡ false ⊎ progress ≡ false)

pub record IsConsistent (m : Mesh) : Type 0 where
  pub agrees :
      (id : Str)
      → id ≢ m.local_peer_id
      → Agrees (lookup id m.peers) (has id m.connections) (has id m.in_progress_connects)

pub init-IsConsistent :
    (id name local external : Str) (n : ℕ) → IsConsistent (init id name local external n)
unfolding init lookup
init-IsConsistent id name local external n = record {
  agrees = λ j h. ground (arith, str_beq_iff id j);
}

local-add_peer_discovered :
    (id name local external : Str) (m : Mesh)
    → (add_peer_discovered id name local external m).local_peer_id ≡ m.local_peer_id
unfolding add_peer_discovered
local-add_peer_discovered id name local external m = ground arith

pub add_peer_discovered-IsConsistent :
    (id name local external : Str) (m : Mesh)
    → IsConsistent m
    → IsConsistent (add_peer_discovered id name local external m)
unfolding add_peer_discovered
add_peer_discovered-IsConsistent id name local external m c = record {
  agrees = λ j h.
      let before =
        c.agrees j (λ e. h (e ∙ sym (local-add_peer_discovered id name local external m))) in
      grind (arith, before, lookup-insert, str_beq_iff id j);
}

local-on_connected :
    (id : Str) (conn : ℕ) (m : Mesh) → (on_connected id conn m).0.local_peer_id ≡ m.local_peer_id
unfolding on_connected
local-on_connected id conn m = ground arith

pub on_connected-IsConsistent :
    (id : Str) (conn : ℕ) (m : Mesh) → IsConsistent m → IsConsistent (on_connected id conn m).0
unfolding on_connected
on_connected-IsConsistent id conn m c = record {
  agrees = λ j h.
      let before = c.agrees j (λ e. h (e ∙ sym (local-on_connected id conn m))) in
      grind (arith, before, lookup-insert, lookup-erase, str_beq_iff id j);
}

pub on_disconnected-IsConsistent :
    (id : Str) (m : Mesh) → IsConsistent m → IsConsistent (on_disconnected id m)
unfolding on_disconnected
on_disconnected-IsConsistent id m c = record {
  agrees = λ j h.
      let before = c.agrees j h in
      grind (arith, before, lookup-insert, lookup-erase, str_beq_iff id j);
}

-- A peer that is dialled is known, is idle, and has an address that parses.
pub record IsIdle (m : Mesh) (id : Str) : Type 0 where
  pub other : id ≢ m.local_peer_id
  pub not_connected : has id m.connections ≡ false
  pub not_dialled : has id m.in_progress_connects ≡ false
  pub known : (p : PeerInfo) × (lookup id m.peers ≡ some p) × (p.state ≡ disconnected)

pub choose-IsIdle :
    (m : Mesh) (ip id : Str) {host : Str} {port : ℕ} → choose m ip id ≡ dial host port → IsIdle m id
unfolding choose is_candidate
choose-IsIdle m ip id h = elim (Option-cases (lookup id m.peers)) [
  | inl absent ↦ absurd (ground arith)
  | inr (p, found) ↦ record {
    other = λ e. ground (arith, str_beq_iff id m.local_peer_id);
    not_connected = ground arith;
    not_dialled = ground arith;
    known = (p, found, ground arith);
  }
]

pub mark_connecting-IsConsistent :
    (id : Str) (m : Mesh) → IsIdle m id → IsConsistent m → IsConsistent (mark_connecting id m)
unfolding mark_connecting
mark_connecting-IsConsistent id m idle c = record {
  agrees = λ j h.
      let before = c.agrees j h in
      let (p, found, state) = idle.known in
      grind (arith, before, idle.not_connected, found, state, lookup-insert, str_beq_iff id j);
}

dial_each-IsConsistent :
    (ip : Str) (ids : List Str) (n : ℕ) (m : Mesh)
    → IsConsistent m
    → IsConsistent (dial_each ip ids n m).mesh
unfolding dial_each
dial_each-IsConsistent ip [] n m c = c
dial_each-IsConsistent ip (id ∷ ids) n m c = elim (Choice-cases (choose m ip id)) [
  | inl e ↦ rw (e, dial_each) (dial_each-IsConsistent ip ids n m c)
  | inr (inl e) ↦ rw (e, dial_each) c
  | inr (inr (host, port, e)) ↦
      let marked = mark_connecting-IsConsistent id m (choose-IsIdle m ip id e) c in
      let later = dial_each-IsConsistent ip ids (suc n) (mark_connecting id m) marked in
      rw (e, dial_each)
        (elim (Bool-cases (ltb (suc n) m.max_peers)) [
          | inl more ↦ rw more later
          | inr full ↦ rw full marked
        ])
]

pub attempt_connect_more-IsConsistent :
    (m : Mesh) → IsConsistent m → IsConsistent (attempt_connect_more m).mesh
unfolding attempt_connect_more
attempt_connect_more-IsConsistent m c = elim (Bool-cases (ltb (connected_others m) m.max_peers)) [
  | inl more ↦ rw more (dial_each-IsConsistent _ _ _ m c)
  | inr full ↦ rw full c
]

-- What happens to the table: an announcement, a new or a closed connection, a timer tick.
pub data Event : Type 0 where
  discovered : Str → Str → Str → Str → Event
  opened : Str → ℕ → Event
  closed : Str → Event
  tick : Event

unfoldable pub step : Mesh → Event → Mesh
step m (discovered id name local external) = add_peer_discovered id name local external m
step m (opened id conn) = (on_connected id conn m).0
step m (closed id) = on_disconnected id m
step m tick = (attempt_connect_more m).mesh

unfoldable pub run : Mesh → List Event → Mesh
unfolding step
run m [] = m
run m (e ∷ es) = run (step m e) es

step-IsConsistent : (m : Mesh) (e : Event) → IsConsistent m → IsConsistent (step m e)
unfolding step
step-IsConsistent m (discovered id name local external) c =
    add_peer_discovered-IsConsistent id name local external m c
step-IsConsistent m (opened id conn) c = on_connected-IsConsistent id conn m c
step-IsConsistent m (closed id) c = on_disconnected-IsConsistent id m c
step-IsConsistent m tick c = attempt_connect_more-IsConsistent m c

run-IsConsistent : (es : List Event) (m : Mesh) → IsConsistent m → IsConsistent (run m es)
unfolding run
run-IsConsistent [] m c = c
run-IsConsistent (e ∷ es) m c = run-IsConsistent es (step m e) (step-IsConsistent m e c)

-- From the start, after any events in any order, the table gives every other peer the state that
-- the connections and the dials under way say: connected exactly if there is a connection,
-- connecting exactly if it is being dialled, and never both.
pub run-init-IsConsistent :
    (id name local external : Str) (n : ℕ) (es : List Event)
    → IsConsistent (run (init id name local external n) es)
run-init-IsConsistent id name local external n es =
    run-IsConsistent es _ (init-IsConsistent id name local external n)
