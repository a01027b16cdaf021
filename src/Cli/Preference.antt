-- ===== src/Cli/Preference.antt =====
-- The peers of a watch in the order of preference (src/MeshCLI.hpp).
use suba_sync.Prelude.{
  Str, Bool, true, false, not, ◌&&◌, ◌||◌, List, [], ◌∷◌, ◌++◌, ◌≡◌, refl, subst, arith, ◌==◌,
  str_eq, str_beq_iff, is_empty, contains,
}
use suba_sync.Cli.Watches.{Source, WatchEntry, add_peer, add_sources, watch_preference_order}

-- No text stands twice in the list.
abbrev pub is_distinct : List Str → Bool
is_distinct [] = true
is_distinct (x ∷ xs) = not (contains xs x) && is_distinct xs

-- One of the sources is at the peer.
abbrev pub is_source : Str → List Source → Bool
is_source peer [] = false
is_source peer (s ∷ sources) = s.peer == peer || is_source peer sources

contains-append :
    (xs : List Str) (x p : Str) → contains (xs ++ x ∷ []) p ≡ (contains xs p || x == p)
unfolding contains
contains-append [] x p = ground arith
contains-append (y ∷ ys) x p = ground (arith, contains-append ys x p)

contains-same :
    (xs : List Str) (x p : Str) → contains xs x ≡ true → (x == p) ≡ true → contains xs p ≡ true
contains-same xs x p h e = subst (λ y. contains xs y ≡ true) ((str_beq_iff x p).0 e) h

is_distinct-append :
    (xs : List Str) (x : Str) → is_distinct (xs ++ x ∷ []) ≡ (is_distinct xs && not (contains xs x))
unfolding contains
is_distinct-append [] x = refl
is_distinct-append (y ∷ ys) x =
    ground
      (arith, contains-append ys x y, is_distinct-append ys x, str_beq_iff x y, str_beq_iff y x)

-- What holds of the list while the loop adds to it.
record IsOrder (peers : List Str) (is_peer : Str → Bool) : Type 0 where
  distinct : is_distinct peers ≡ true
  members : (p : Str) → contains peers p ≡ (not (is_empty p) && is_peer p)

empty_differs : (x p : Str) → is_empty x ≡ true → (x == p) ≡ true → is_empty p ≡ true
empty_differs x p h e = subst (λ y. is_empty y ≡ true) ((str_beq_iff x p).0 e) h

full_differs : (x p : Str) → is_empty x ≡ false → (x == p) ≡ true → is_empty p ≡ false
full_differs x p h e = subst (λ y. is_empty y ≡ false) ((str_beq_iff x p).0 e) h

add_peer-IsOrder :
    (x : Str) (peers : List Str) (is_peer : Str → Bool)
    → IsOrder peers is_peer
    → IsOrder (add_peer x peers) (λ p. is_peer p || x == p)
unfolding add_peer
add_peer-IsOrder x peers is_peer h = record {
  distinct = ground (arith, h.distinct, is_distinct-append peers x);
  members = λ p. ground (
    arith,
    h.members p,
    contains-append peers x p,
    contains-same peers x p,
    empty_differs x p,
    full_differs x p,
  );
}

add_sources-IsOrder :
    (sources : List Source) (peers : List Str) (is_peer : Str → Bool)
    → IsOrder peers is_peer
    → IsOrder (add_sources sources peers) (λ p. is_peer p || is_source p sources)
unfolding add_sources
add_sources-IsOrder [] peers is_peer h = record {
  distinct = h.distinct;
  members = λ p. ground (arith, h.members p);
}
add_sources-IsOrder (s ∷ sources) peers is_peer h =
    let rest =
      add_sources-IsOrder sources (add_peer s.peer peers) (λ p. is_peer p || s.peer == p)
        (add_peer-IsOrder s.peer peers is_peer h) in
    record { distinct = rest.distinct; members = λ p. ground (arith, rest.members p) }

-- The peers that a watch prefers are exactly the peer that it comes from and the peers of its
-- sources, each once, and none of them is the empty text.
pub watch_preference_order_lem :
    (w : WatchEntry)
    → (is_distinct (watch_preference_order w) ≡ true)
      × ((p : Str)
          → contains (watch_preference_order w) p
            ≡ (not (is_empty p) && (w.origin_peer == p || is_source p w.sources)))
unfolding watch_preference_order contains
watch_preference_order_lem w =
    let order =
      add_sources-IsOrder w.sources (add_peer w.origin_peer []) (λ p. false || w.origin_peer == p)
        (add_peer-IsOrder w.origin_peer [] (λ p. false)
          (record { distinct = refl; members = λ p. ground arith })) in
    (order.distinct, λ p. order.members p)
