-- ===== src/Messages/Relay.antt =====
-- How far a `peer_announce` travels (src/peer_manager.cpp).
use suba_sync.Prelude.{ℕ, ◌≡◌, some, List, [], ◌∷◌, ℤ, str_eq, arith, ◌≤◌, length, Member}
use suba_sync.Json.{JsonApi, IsJson}
use suba_sync.Messages.Handlers.{Node, send_on}
use suba_sync.Messages.Dispatch.{Host, handle_message}
use suba_sync.Messages.Sent.{hops_left, IsAnnounce, ttl_of, hop}

module _ (J : JsonApi) (H : Type 0) where
  -- One node on the way: its surroundings, its state, the connection that the message arrives on, and
  -- the connection that it leaves on.
  pub record Hop : Type 1 where
    pub host : Host J H
    pub node : Node H
    pub arrives : ℕ
    pub leaves : ℕ

  -- An announcement travels along the nodes: each handles it and sends it on, as an announcement, to
  -- the next.
  abbrev pub Travels : List Hop → J.Json → Type 0
  Travels [] j = Unit
  Travels (h ∷ hops) j =
      (d : J.Json) × Member (send_on h.leaves d)
        (handle_message J h.host h.arrives j h.node).effects
      × IsAnnounce J d
      × Travels hops d

module _ (J : JsonApi) (laws : IsJson J) (H : Type 0) where
  -- An announcement whose `ttl` is `t` is passed on at most `t - 1` times, by whatever nodes, in
  -- whatever states, and round whatever circles.
  pub Travels-bounded :
      (hops : List (Hop J H)) (j : J.Json) (t : ℤ)
      → IsAnnounce J j
      → ttl_of J j ≡ some t
      → Travels J H hops j
      → length hops ≤ hops_left t
  Travels-bounded [] j t h e travel = omega arith
  Travels-bounded (x ∷ hops) j t h e (d, sent_on, k, travel) =
      let (u, ttl, less) = hop J laws H x.host x.arrives j d x.node x.leaves t h e sent_on k in
      let rest = Travels-bounded hops d u k ttl travel in omega arith
