-- ===== src/Peers/Budget.antt =====
-- What one timer tick may dial.
use suba_sync.Prelude.{
  ℕ, ◌≢◌, ◌+◌, ◌-◌, ◌≤◌, ◌<◌, Str, List, [], ◌∷◌, map, arith, ltb, str_eq, str_beq_iff, Bool-cases,
  inl, inr, suc, length, ltb→lt,
}
use suba_sync.Prelude.Dict.{lookup-insert}
use suba_sync.Peers.{Mesh}
use suba_sync.Peers.Dial.{
  Choice-cases, choose, mark_connecting, Dial, dial_each, attempt_connect_more, local_ip_of,
  connected_others,
}
use suba_sync.Peers.State.{IsIdle, choose-IsIdle}

-- Marking a peer makes no other peer idle, and the peer itself is not idle any more.
mark_connecting-IsIdle :
    (id j : Str) (m : Mesh) → IsIdle (mark_connecting id m) j → IsIdle m j × (j ≢ id)
unfolding mark_connecting
mark_connecting-IsIdle id j m idle =
    let differs : j ≢ id = λ e.
      ground
        (arith, idle.not_dialled, str_beq_iff id j, lookup-insert id j tt m.in_progress_connects) in
    (
      record {
        other = idle.other;
        not_connected = idle.not_connected;
        not_dialled = ground (
          arith,
          idle.not_dialled,
          str_beq_iff id j,
          lookup-insert id j tt m.in_progress_connects,
        );
        known =
            let (p, found, state) = idle.known in
            (p, grind (arith, found, differs, str_beq_iff id j, lookup-insert), state);
      },
      differs,
    )

-- Every dial goes to an idle peer of the table, and no peer is dialled twice.
abbrev pub AreDialable : Mesh → List Dial → Type 0
AreDialable m [] = Unit
AreDialable m (d ∷ ds) = IsIdle m d.peer × AreDialable (mark_connecting d.peer m) ds

abbrev pub NotAmong : Str → List Dial → Type 0
NotAmong id [] = Unit
NotAmong id (d ∷ ds) = (d.peer ≢ id) × NotAmong id ds

dial_each-AreDialable :
    (ip : Str) (ids : List Str) (n : ℕ) (m : Mesh) → AreDialable m (dial_each ip ids n m).dials
unfolding dial_each
dial_each-AreDialable ip [] n m = tt
dial_each-AreDialable ip (id ∷ ids) n m = elim (Choice-cases (choose m ip id)) [
  | inl e ↦ rw (e, dial_each) (dial_each-AreDialable ip ids n m)
  | inr (inl e) ↦ rw (e, dial_each) tt
  | inr (inr (host, port, e)) ↦
      let idle = choose-IsIdle m ip id e in
      let later = dial_each-AreDialable ip ids (suc n) (mark_connecting id m) in
      rw (e, dial_each)
        (elim (Bool-cases (ltb (suc n) m.max_peers)) [
          | inl more ↦ rw more (idle, later)
          | inr full ↦ rw full (idle, tt)
        ])
]

dial_each-length-le :
    (ip : Str) (ids : List Str) (n : ℕ) (m : Mesh)
    → n < m.max_peers
    → n + length (dial_each ip ids n m).dials ≤ m.max_peers
unfolding dial_each
dial_each-length-le ip [] n m h = omega arith
dial_each-length-le ip (id ∷ ids) n m h = elim (Choice-cases (choose m ip id)) [
  | inl e ↦ rw (e, dial_each) (dial_each-length-le ip ids n m h)
  | inr (inl e) ↦ rw (e, dial_each) (omega arith)
  | inr (inr (host, port, e)) ↦
      rw (e, dial_each)
        (elim (Bool-cases (ltb (suc n) m.max_peers)) [
          | inl more ↦ rw more (
              omega (
                arith,
                dial_each-length-le ip ids (suc n) (mark_connecting id m) (ltb→lt _ _ more),
              ))
          | inr full ↦ rw full (omega arith)
        ])
]

-- One tick dials only peers that are known, idle and not the node itself, none of them twice, and
-- with the connections to others at its start no more than the limit. At the limit it dials nobody.
pub attempt_connect_more_budget :
    (m : Mesh)
    → AreDialable m (attempt_connect_more m).dials
      × (length (attempt_connect_more m).dials ≤ m.max_peers - connected_others m)
unfolding attempt_connect_more
attempt_connect_more_budget m = elim (Bool-cases (ltb (connected_others m) m.max_peers)) [
  | inl room ↦ rw room (
    dial_each-AreDialable _ _ _ m,
    omega (
      arith,
      dial_each-length-le (local_ip_of m.local_addr) (map (λ (id, p). id) m.peers)
          (connected_others m) m (ltb→lt _ _ room),
    ),
  )
  | inr full ↦ rw full (tt, omega arith)
]
