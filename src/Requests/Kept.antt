-- ===== src/Requests/Kept.antt =====
-- Each event of the listing at all peers keeps the count of the answers that are awaited.
use mathlib.Core.List.{append-nil}
use suba_sync.Prelude.{
  ℕ, suc, ◌+◌, ◌^◌, ◌≤◌, ◌<◌, Str, Bool, true, false, ◌≡◌, ◌⊎◌, inl, inr, refl, sym, ap, subst,
  some, List, [], ◌∷◌, ◌++◌, map, arith, str_eq, length, Option-cases,
}
use suba_sync.Prelude.Dict.{Dict, lookup, erase}
use suba_sync.Shares.{RemoteListingItem}
use suba_sync.Requests.{Requests, list_infix, request, take_handler, decorate}
use suba_sync.Requests.Table.{
  mine, IsTable, IsTable-erase, Requested, request-Requested, mine-erase,
}
use suba_sync.Requests.HashListing.{
  HashListing, notified, ask_next, hear, Event, asks, hears, other_asks, step,
}
use suba_sync.Requests.Counted.{
  gather, gather-append, awaited, IsCounted, notified-IsCounted, moved-IsCounted,
}

module _ (self : Str) (own : List RemoteListingItem) where
  pub record IsSound (a : HashListing) : Type 0 where
    pub table : IsTable self list_infix a.requests
    pub counted : IsCounted self own (awaited a) a

  -- What an event keeps.
  unfoldable pub Kept : HashListing → HashListing → Type 0
  Kept a b = IsSound b × (b.requests.counter ≤ suc a.requests.counter)

  -- A request that is not sent counts as an answer without items.
  failed-Kept :
      (a : HashListing) (peer : Str) (rest : List Str) (r : Requests Bool)
      → a.to_ask ≡ peer ∷ rest
      → IsSound a
      → IsTable self list_infix r
      → r.counter ≤ suc a.requests.counter
      → mine r.pending ≡ mine a.requests.pending
      → Kept a (notified [] (record a { to_ask = rest; requests = r }))
  unfolding Kept notified
  failed-Kept a peer rest r e sound table grown same =
      let a1 : HashListing = record a { to_ask = rest; requests = r } in
      let less : awaited a ≡ suc (length rest + mine r.pending) =
        omega (arith, ap length e, same) in
      let counted = subst (λ (n : ℕ). IsCounted self own n a) less sound.counted in
      (
        record {
          table = table;
          counted =
              notified-IsCounted self own (length rest + mine r.pending) [] a.answers a1
                (sym (append-nil (gather own a.answers)))
                (moved-IsCounted self own (suc (length rest + mine r.pending)) a rest r counted);
        },
        grown,
      )

  asked-Kept :
      (a : HashListing) (peer : Str) (rest : List Str) (r : Requests Bool)
      → a.to_ask ≡ peer ∷ rest
      → IsSound a
      → IsTable self list_infix r
      → r.counter ≤ suc a.requests.counter
      → mine r.pending ≡ 1 + mine a.requests.pending
      → Kept a (record a { to_ask = rest; requests = r })
  unfolding Kept
  asked-Kept a peer rest r e sound table grown more =
      let same : awaited a ≡ length rest + mine r.pending = omega (arith, ap length e, more) in
      let counted = subst (λ (n : ℕ). IsCounted self own n a) same sound.counted in
      (
        record {
          table = table;
          counted = moved-IsCounted self own (length rest + mine r.pending) a rest r counted;
        },
        grown,
      )

  peers_cases :
      (peers : List Str) → (peers ≡ []) ⊎ ((p : Str) × (rest : List Str) × (peers ≡ p ∷ rest))
  peers_cases [] = inl refl
  peers_cases (p ∷ rest) = inr (p, rest, refl)

  ask_next-Kept :
      (connections later : Dict Str ℕ) (a : HashListing)
      → suc a.requests.counter < 2 ^ 64
      → IsSound a
      → Kept a (ask_next self connections later a)
  unfolding Kept ask_next Requested
  ask_next-Kept connections later a room sound = elim (peers_cases a.to_ask) [
    | inl done ↦ rw (ask_next, done) (sound, omega arith)
    | inr (peer, rest, e) ↦
        let result = request self list_infix connections later peer true a.requests in
        let (table, grown, either) =
          request-Requested self list_infix connections later peer true a.requests room
            sound.table in
        elim either [
          | inl (unsent, same) ↦
              let is : ask_next self connections later a
                  ≡ notified [] (record a { to_ask = rest; requests = result.1 }) =
                rw (ask_next, e, unsent) refl in
              subst (Kept a) (sym is) (failed-Kept a peer rest result.1 e sound table grown same)
          | inr (id, sent, more) ↦
              let is : ask_next self connections later a
                  ≡ record a { to_ask = rest; requests = result.1 } =
                rw (ask_next, e, sent) refl in
              subst (Kept a) (sym is) (asked-Kept a peer rest result.1 e sound table grown more)
        ]
  ]

  -- An answer to another call's request.
  others-Kept :
      (a : HashListing) (id : Str)
      → lookup id a.requests.pending ≡ some false
      → IsSound a
      → Kept a (record a { requests = record a.requests { pending = erase id a.requests.pending } })
  unfolding Kept
  others-Kept a id found sound =
      let rest = erase id a.requests.pending in
      let gone = mine-erase id false a.requests.pending sound.table.distinct found in
      let same : awaited a ≡ length a.to_ask + mine rest = omega (arith, gone) in
      let counted = subst (λ (n : ℕ). IsCounted self own n a) same sound.counted in
      (
        record {
          table = IsTable-erase self list_infix id a.requests sound.table;
          counted =
              moved-IsCounted self own (length a.to_ask + mine rest) a a.to_ask
                (record a.requests { pending = rest }) counted;
        },
        omega arith,
      )

  -- An answer to one of this call's requests.
  answered-Kept :
      (a : HashListing) (id : Str) (answer : List RemoteListingItem)
      → lookup id a.requests.pending ≡ some true
      → IsSound a
      → Kept a (
          notified answer (record a {
            requests = record a.requests { pending = erase id a.requests.pending };
            answers = a.answers ++ answer ∷ [];
          }))
  unfolding Kept notified
  answered-Kept a id answer found sound =
      let rest = erase id a.requests.pending in
      let r : Requests Bool = record a.requests { pending = rest } in
      let n = length a.to_ask + mine rest in
      let gone = mine-erase id true a.requests.pending sound.table.distinct found in
      let less : awaited a ≡ suc (length a.to_ask + mine rest) = omega (arith, gone) in
      let counted = subst (λ (k : ℕ). IsCounted self own k a) less sound.counted in
      (
        record {
          table = IsTable-erase self list_infix id a.requests sound.table;
          counted =
              notified-IsCounted self own n answer (a.answers ++ answer ∷ [])
                (record a { requests = r }) (gather-append own answer a.answers)
                (moved-IsCounted self own (suc n) a a.to_ask r counted);
        },
        omega arith,
      )

  take_handler-found :
      (id : Str) (b : Bool) (r : Requests Bool)
      → lookup id r.pending ≡ some b
      → take_handler id r ≡ (some b, record r { pending = erase id r.pending })
  unfolding take_handler
  take_handler-found id b r found = rw (take_handler, found) refl

  hear-Kept :
      (peer_id id : Str) (items : List RemoteListingItem) (a : HashListing)
      → IsSound a
      → Kept a (hear peer_id id items a)
  unfolding Kept hear take_handler
  hear-Kept peer_id id items a sound = elim (Option-cases (lookup id a.requests.pending)) [
    | inl absent ↦ rw (hear, absent) (sound, omega arith)
    | inr (false, found) ↦
        let took = take_handler-found id false a.requests found in
        let is : hear peer_id id items a
            ≡ record a { requests = record a.requests { pending = erase id a.requests.pending } } =
          rw (hear, took, took) refl in
        subst (Kept a) (sym is) (others-Kept a id found sound)
    | inr (true, found) ↦
        let took = take_handler-found id true a.requests found in
        let answer = map (decorate peer_id) items in
        let is : hear peer_id id items a
            ≡ notified answer (record a {
              requests = record a.requests { pending = erase id a.requests.pending };
              answers = a.answers ++ answer ∷ [];
            }) =
          rw (hear, took, took) refl in
        subst (Kept a) (sym is) (answered-Kept a id answer found sound)
  ]

  -- A request of another call.
  other-Kept :
      (connections later : Dict Str ℕ) (peer : Str) (a : HashListing)
      → suc a.requests.counter < 2 ^ 64
      → IsSound a
      → Kept a (step self (other_asks connections later peer) a)
  unfolding Kept step Requested
  other-Kept connections later peer a room sound =
      let result = request self list_infix connections later peer false a.requests in
      let (table, grown, either) =
        request-Requested self list_infix connections later peer false a.requests room
          sound.table in
      let same : mine result.1.pending ≡ mine a.requests.pending = elim either [
        | inl (unsent, e) ↦ e
        | inr (id, sent, e) ↦ omega (arith, e)
      ] in
      let same' : awaited a ≡ length a.to_ask + mine result.1.pending = omega (arith, same) in
      let counted = subst (λ (n : ℕ). IsCounted self own n a) same' sound.counted in
      (
        record {
          table = table;
          counted =
              moved-IsCounted self own (length a.to_ask + mine result.1.pending) a a.to_ask result.1
                counted;
        },
        grown,
      )

  pub step-Kept :
      (e : Event) (a : HashListing)
      → suc a.requests.counter < 2 ^ 64
      → IsSound a
      → Kept a (step self e a)
  unfolding step
  step-Kept (asks connections later) a room sound = ask_next-Kept connections later a room sound
  step-Kept (hears peer_id id items) a room sound = hear-Kept peer_id id items a sound
  step-Kept (other_asks connections later peer) a room sound =
      other-Kept connections later peer a room sound
