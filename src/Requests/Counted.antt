-- ===== src/Requests/Counted.antt =====
-- The context of the listing at all peers: what it counts, and its calls of the handler.

use suba_sync.Prelude.{
  ℕ, zero, suc, ◌+◌, ◌-◌, Str, Bool, ◌≡◌, refl, sym, ap, ◌∙◌, none, some, List, [], ◌∷◌, ◌++◌,
  arith, str_eq, length,
}
use suba_sync.Shares.{RemoteListingItem}
use suba_sync.Requests.{Requests, AggregateContext, notify}
use suba_sync.Requests.Table.{mine}
use suba_sync.Requests.HashListing.{HashListing, notified}

-- The items of the answers, in their order, behind those that are there.
unfoldable pub gather :
    List RemoteListingItem → List (List RemoteListingItem) → List RemoteListingItem
gather items [] = items
gather items (answer ∷ answers) = gather (items ++ answer) answers

pub gather-append :
    (items answer : List RemoteListingItem) (answers : List (List RemoteListingItem))
    → gather items (answers ++ answer ∷ []) ≡ gather items answers ++ answer
unfolding gather
gather-append items answer [] = refl
gather-append items answer (first ∷ answers) = gather-append (items ++ first) answer answers

-- The calls of the handler: none while something is awaited, then one.
unfoldable pub calls_when : ℕ → List RemoteListingItem → List (List RemoteListingItem)
calls_when zero items = items ∷ []
calls_when (suc n) items = []

-- The peers still to ask, and the requests that wait for an answer.
abbrev pub awaited : HashListing → ℕ
awaited a = length a.to_ask + mine a.requests.pending

module _ (self : Str) (own : List RemoteListingItem) where
  -- What holds of the context, with the number of answers that are awaited.
  pub record IsCounted (n : ℕ) (a : HashListing) : Type 0 where
    pub pending_is : a.ctx.pending ≡ n
    pub items_are : a.ctx.items ≡ gather own a.answers
    pub calls_are : a.calls ≡ calls_when n (gather own a.answers)

  notify-last :
      (answer : List RemoteListingItem) (ctx : AggregateContext)
      → ctx.pending ≡ 1
      → notify answer ctx
        ≡ (some (ctx.items ++ answer), record { pending = 0; items = ctx.items ++ answer })
  unfolding notify
  notify-last answer ctx e = ground (arith, e)

  notify-more :
      (n : ℕ) (answer : List RemoteListingItem) (ctx : AggregateContext)
      → ctx.pending ≡ suc (suc n)
      → notify answer ctx ≡ (none, record { pending = suc n; items = ctx.items ++ answer })
  unfolding notify
  notify-more n answer ctx e =
      let less : ctx.pending - 1 ≡ suc n = omega (arith, e) in ground (arith, e, less)

  -- One answer less is awaited, and its items are there.
  pub notified-IsCounted :
      (n : ℕ) (answer : List RemoteListingItem) (answers : List (List RemoteListingItem))
      (a : HashListing)
      → gather own answers ≡ gather own a.answers ++ answer
      → IsCounted (suc n) a
      → IsCounted n (notified answer (record a { answers = answers }))
  unfolding notified calls_when
  notified-IsCounted zero answer answers a e counted =
      let items = ap (λ (x : List RemoteListingItem). x ++ answer) counted.items_are ∙ sym e in
      let last = notify-last answer a.ctx counted.pending_is in
      record {
        pending_is = rw (notified, last) refl;
        items_are = rw (notified, last) items;
        calls_are = rw (notified, last, counted.calls_are, items) refl;
      }
  notified-IsCounted (suc n) answer answers a e counted =
      let items = ap (λ (x : List RemoteListingItem). x ++ answer) counted.items_are ∙ sym e in
      let more = notify-more n answer a.ctx counted.pending_is in
      record {
        pending_is = rw (notified, more) refl;
        items_are = rw (notified, more) items;
        calls_are = rw (notified, more) counted.calls_are;
      }

  -- What is not the context's does not matter to it.
  pub moved-IsCounted :
      (n : ℕ) (a : HashListing) (peers : List Str) (r : Requests Bool)
      → IsCounted n a
      → IsCounted n (record a { to_ask = peers; requests = r })
  moved-IsCounted n a peers r counted = record {
    pending_is = counted.pending_is;
    items_are = counted.items_are;
    calls_are = counted.calls_are;
  }
