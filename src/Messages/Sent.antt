-- ===== src/Messages/Sent.antt =====
-- What a node that handles a `peer_announce` sends on (src/peer_manager.cpp).
use suba_sync.Prelude.{
  some_injective, ℕ, ◌≡◌, refl, sym, ap, ◌∙◌, subst, inl, inr, Str, codes, Bool, true, false,
  Option, none, some, ◌+◌, List, [], ◌∷◌, map, ℤ, pos, negsuc, str_eq, str_beq, ◌==◌, if◌then◌else◌,
  is_empty, arith, ◌-◌, Member, Member-append, Option-cases, Bool-cases, leb, ◌>>=◌, ◌||◌,
}
use suba_sync.Prelude.Dict.{lookup, insert, lookup-insert}
use suba_sync.Peers.{Mesh, add_peer_discovered, on_connected, broadcast_targets}
use suba_sync.Json.{JsonApi, IsJson, or_fallback}
use suba_sync.Messages.{Announce, default_ttl, make_peer_list, with_ttl, text_at, read_announce}
use suba_sync.Messages.Handlers.{
  Node, Effect, send_on, Handled, peer_id_of, next_ttl, is_full_ttl, quiet, broadcast_json,
  bind_peer, settle_peer, forwards, announce,
}
use suba_sync.Messages.Dispatch.{Host, reading, on_announce, dispatch, handle_message}
use suba_sync.Messages.Reading.{text_at-object}

-- The last part of a chain that succeeds.
chain_ttl :
    (o1 o2 o3 o4 : Option Str) (o5 : Option ℤ) (a : Announce)
    → (o1 >>= λ peer_id. o2 >>= λ name. o3 >>= λ local. o4 >>= λ external. o5 >>= λ ttl.
        some (record {
          peer_id = peer_id;
          display_name = name;
          local_addr = local;
          external_addr = external;
          ttl = ttl;
        }))
      ≡ some a
    → o5 ≡ some a.ttl
chain_ttl none o2 o3 o4 o5 a h = absurd (cc h)
chain_ttl (some p) none o3 o4 o5 a h = absurd (cc h)
chain_ttl (some p) (some n) none o4 o5 a h = absurd (cc h)
chain_ttl (some p) (some n) (some l) none o5 a h = absurd (cc h)
chain_ttl (some p) (some n) (some l) (some e) none a h = absurd (cc h)
chain_ttl (some p) (some n) (some l) (some e) (some t) a h =
    ap some (ap (λ (x : Announce). x.ttl) (some_injective _ _ h))

-- How often a message with this `ttl` can still be passed on.
abbrev pub hops_left : ℤ → ℕ
hops_left (pos n) = n - 1
hops_left (negsuc n) = 0

next_ttl_lem :
    (t u : ℤ) → next_ttl t ≡ some u → (n : ℕ) × (u ≡ pos n) × (hops_left u + 1 ≡ hops_left t)
unfolding next_ttl
next_ttl_lem (pos n) u h = elim (Bool-cases (leb n 1)) [
  | inl e ↦ absurd (cc (rw (next_ttl, e) at h))
  | inr e ↦
      let same : pos (n - 1) ≡ u = some_injective _ _ (rw (next_ttl, e) at h) in
      (n - 1, sym same, ap (λ t. hops_left t + 1) (sym same) ∙ ground arith)
]
next_ttl_lem (negsuc n) u h = absurd (cc h)

module _ (J : JsonApi) where
  abbrev pub IsAnnounce : J.Json → Type 0
  IsAnnounce j = text_at J j (codes "type") ≡ some (codes "peer_announce")

  -- `j.value("ttl", kPeerAnnounceDefaultTTL)`
  abbrev pub ttl_of : J.Json → Option ℤ
  ttl_of j = J.value_integer j (codes "ttl") (pos default_ttl)

  read_announce-ttl :
      (j : J.Json) (a : Announce) → read_announce J j ≡ some a → ttl_of j ≡ some a.ttl
  unfolding read_announce
  read_announce-ttl j a h =
      chain_ttl (text_at J j (codes "peer_id")) (text_at J j (codes "display_name"))
        (text_at J j (codes "local_addr")) (text_at J j (codes "external_addr")) (ttl_of j) a h

  with_ttl-ttl :
      (laws : IsJson J) (t : ℤ) (j d : J.Json) → with_ttl J t j ≡ some d → ttl_of d ≡ some t
  unfolding with_ttl str_beq
  with_ttl-ttl laws t j d h = elim (Option-cases (J.as_object j)) [
    | inl e ↦ absurd (cc (rw (with_ttl, e) at h))
    | inr (m, e) ↦
        let made : J.object (insert (codes "ttl") (J.integer t) m) ≡ d =
          some_injective _ _ (rw (with_ttl, e) at h) in
        subst (λ x. ttl_of x ≡ some t) made
          (laws.value_integer-object _ (codes "ttl") (pos default_ttl)
            ∙ ap (λ o. or_fallback J.as_integer o (pos default_ttl))
                (lookup-insert (codes "ttl") (codes "ttl") (J.integer t) m)
            ∙ laws.as_integer-integer t)
  ]

module _ (J : JsonApi) (laws : IsJson J) (H : Type 0) where
  -- The document that an effect sends, if it sends one.
  abbrev sent : Effect J H → Option J.Json
  sent (send_on conn j) = some j
  sent e = none

  sends : J.Json → List ℕ → List (Effect J H)
  sends j conns = map (λ conn. send_on conn j) conns

  Member-map-send :
      (j d : J.Json) (c : ℕ) (conns : List ℕ) → Member (send_on c d) (sends j conns) → d ≡ j
  unfolding sends
  Member-map-send j d c [] m = elim m [ ]
  Member-map-send j d c (x ∷ conns) m = elim m [
    | inl e ↦ sym (some_injective _ _ (ap sent e))
    | inr there ↦ Member-map-send j d c conns there
  ]

  forwards-sent :
      (j d : J.Json) (a : Announce) (m : Mesh) (c : ℕ)
      → Member (send_on c d) (forwards J {H = H} j a m)
      → (t : ℤ) × (next_ttl a.ttl ≡ some t) × (with_ttl J t j ≡ some d)
  unfolding forwards broadcast_json sends
  forwards-sent j d a m c h = elim (Option-cases (next_ttl a.ttl)) [
    | inl e ↦ elim (rw (forwards, e) at h) [ ]
    | inr (t, e) ↦ elim (Option-cases (with_ttl J t j)) [
      | inl e' ↦ elim (rw (forwards, e, e') at h) [ ]
      | inr (fwd, e') ↦ (
        t,
        e,
        e'
            ∙ ap some (
                sym (
                  Member-map-send fwd d c (broadcast_targets a.peer_id m)
                    (rw (forwards, e, e') at h))),
      )
    ]
  ]

  -- The effects send peer lists only.
  SendsLists : Handled J H → Type 0
  SendsLists h =
      (c : ℕ) (d : J.Json)
      → Member (send_on c d) h.effects
      → (peers : J.Json) × (d ≡ make_peer_list J peers)

  if-SendsLists :
      (b : Bool) (x y : Handled J H) → SendsLists x → SendsLists y → SendsLists (if b then x else y)
  if-SendsLists true x y h k = h
  if-SendsLists false x y h k = k

  quiet-SendsLists : (n : Node H) → SendsLists (quiet J n)
  unfolding SendsLists
  quiet-SendsLists n c d m = elim m [ ]

  bind_peer-SendsLists : (conn : ℕ) (peer : Str) (n : Node H) → SendsLists (bind_peer J conn peer n)
  unfolding SendsLists bind_peer
  bind_peer-SendsLists conn peer n c d m = elim (Bool-cases (on_connected peer conn n.mesh).1) [
    | inl e ↦ elim (rw (bind_peer, e) at m) [
      | inl same ↦ (_, sym (some_injective _ _ (ap sent same)))
      | inr there ↦ elim there [ ]
    ]
    | inr e ↦ elim (rw (bind_peer, e) at m) [ ]
  ]

  settle_peer-SendsLists :
      (conn : ℕ) (a : Announce) (n : Node H) → SendsLists (settle_peer J conn a n)
  unfolding settle_peer
  settle_peer-SendsLists conn a n =
      let bound = bind_peer-SendsLists conn a.peer_id n in
      let silent = quiet-SendsLists n in
      if-SendsLists (is_empty (peer_id_of conn n)) _ _ bound (
        if-SendsLists (peer_id_of conn n == a.peer_id) _ _ silent
          (if-SendsLists (is_full_ttl a.ttl) _ _ bound silent))

  -- A peer list is no announcement.
  lists_differ : (peers : J.Json) → IsAnnounce J (make_peer_list J peers) → ⊥
  unfolding make_peer_list lookup str_beq
  lists_differ peers h =
      let same = sym (text_at-object J laws _ (codes "type") (codes "peer_list") refl) ∙ h in
      absurd (cc (some_injective _ _ same))

  announce-sent :
      (conn : ℕ) (j d : J.Json) (a : Announce) (n : Node H) (c : ℕ)
      → Member (send_on c d) (announce J conn j a n).effects
      → IsAnnounce J d
      → (t : ℤ) × (next_ttl a.ttl ≡ some t) × (with_ttl J t j ≡ some d)
  unfolding announce SendsLists
  announce-sent conn j d a n c m k =
      let mesh = add_peer_discovered a.peer_id a.display_name a.local_addr a.external_addr n.mesh in
      elim (Bool-cases (is_empty a.peer_id || is_empty a.local_addr)) [
        | inl e ↦ elim (rw (announce, e) at m) [ ]
        | inr e ↦
            elim ((Member-append (send_on c d) (forwards J j a mesh)
                (settle_peer J conn a (record n { mesh = mesh })).effects).0
              (rw (announce, e) at m)) [
                | inl ahead ↦ forwards-sent j d a mesh c ahead
                | inr settled ↦
                    let (peers, same) =
                      settle_peer-SendsLists conn a (record n { mesh = mesh }) c d settled in
                    absurd (lists_differ peers (subst (IsAnnounce J) same k))
              ]
      ]

  handle_message-announce :
      (host : Host J H) (conn : ℕ) (j : J.Json) (n : Node H)
      → IsAnnounce J j
      → handle_message J host conn j n ≡ on_announce J host conn j n
  unfolding handle_message dispatch str_beq
  handle_message-announce host conn j n h =
      ap
        (λ k.
          reading J host k n
            (λ kind. if is_empty kind then quiet J n else dispatch J host kind conn j n))
        h

  -- A node that passes an announcement on has one hop less left for it.
  pub hop :
      (host : Host J H) (conn : ℕ) (j d : J.Json) (n : Node H) (c : ℕ) (t : ℤ)
      → IsAnnounce J j
      → ttl_of J j ≡ some t
      → Member (send_on c d) (handle_message J host conn j n).effects
      → IsAnnounce J d
      → (u : ℤ) × (ttl_of J d ≡ some u) × (hops_left u + 1 ≡ hops_left t)
  unfolding on_announce
  hop host conn j d n c t h e m k =
      let m' =
        subst (λ (x : Handled J H). Member (send_on c d) x.effects)
          (handle_message-announce host conn j n h) m in
      elim (Option-cases (read_announce J j)) [
        | inl absent ↦ elim (rw (on_announce, absent) at m') [ ]
        | inr (a, found) ↦
            let (u, next, made) = announce-sent conn j d a n c (rw (on_announce, found) at m') k in
            let same : a.ttl ≡ t = some_injective _ _ (sym (read_announce-ttl J j a found) ∙ e) in
            let (k', same', less) = next_ttl_lem a.ttl u next in
            (u, with_ttl-ttl J laws u j d made, less ∙ ap hops_left same)
      ]
