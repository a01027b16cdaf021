-- ===== src/Requests/Table.antt =====
-- The table of list requests: how many of its handlers belong to one call.
use suba_sync.Prelude.{
  ℕ, suc, ◌+◌, ◌^◌, ◌≤◌, ◌<◌, Str, Bool, true, false, Option, none, some, [], ◌∷◌, ◌≡◌, ◌⊎◌, inl,
  inr, refl, sym, ap, subst, arith, str_eq, str_beq_iff, ◌==◌, Bool-cases, Option-cases,
}
use suba_sync.Prelude.Dict.{Dict, lookup, insert, erase, has, lookup-insert, lookup-erase}
use suba_sync.Requests.{Requests, request_id, request}
use suba_sync.Requests.Calls.{Trace}
use suba_sync.Requests.Once.{next_id, request-unknown, request-known}
use suba_sync.Requests.Ids.{request_id_injective}

-- The handlers that are marked.
unfoldable pub mine : Dict Str Bool → ℕ
mine [] = 0
mine ((id, true) ∷ m) = suc (mine m)
mine ((id, false) ∷ m) = mine m

-- Every id stands there once.
unfoldable pub IsDistinct : Dict Str Bool → Type 0
IsDistinct [] = Unit
IsDistinct ((id, b) ∷ m) = (lookup id m ≡ none) × IsDistinct m

abbrev pub one : Bool → ℕ
one true = 1
one false = 0

mine-cons : (id : Str) (b : Bool) (m : Dict Str Bool) → mine ((id, b) ∷ m) ≡ one b + mine m
unfolding mine
mine-cons id true m = omega arith
mine-cons id false m = omega arith

mine-insert :
    (id : Str) (b : Bool) (m : Dict Str Bool)
    → lookup id m ≡ none
    → mine (insert id b m) ≡ one b + mine m
unfolding insert lookup
mine-insert id b [] new = mine-cons id b []
mine-insert id b ((j, c) ∷ m) new = elim (Bool-cases (j == id)) [
  | inl here ↦ absurd (cc (rw here at new))
  | inr other ↦
      let new' = rw other at new in
      rw other
        (omega (arith, mine-cons j c (insert id b m), mine-cons j c m, mine-insert id b m new'))
]

erase-absent : (id : Str) (m : Dict Str Bool) → lookup id m ≡ none → erase id m ≡ m
unfolding erase lookup
erase-absent id [] absent = refl
erase-absent id ((j, c) ∷ m) absent = ground (arith, erase-absent id m)

erase-insert :
    (id : Str) (b : Bool) (m : Dict Str Bool) → lookup id m ≡ none → erase id (insert id b m) ≡ m
unfolding erase insert lookup
erase-insert id b [] new = ground (arith, str_beq_iff id id)
erase-insert id b ((j, c) ∷ m) new = ground (arith, str_beq_iff id id, erase-insert id b m)

pub mine-erase :
    (id : Str) (b : Bool) (m : Dict Str Bool)
    → IsDistinct m
    → lookup id m ≡ some b
    → one b + mine (erase id m) ≡ mine m
unfolding erase lookup IsDistinct
mine-erase id b [] distinct found = absurd (cc found)
mine-erase id b ((j, c) ∷ m) (alone, distinct) found = elim (Bool-cases (j == id)) [
  | inl here ↦
      let same : j ≡ id = (str_beq_iff j id).0 here in
      let alone' = rw same at alone in
      let c_is : c ≡ b = ground (arith, rw here at found) in
      rw (here, erase-absent id m alone', c_is) (omega (arith, mine-cons j b m))
  | inr other ↦
      let found' = rw other at found in
      rw other (
        omega
          (arith, mine-cons j c (erase id m), mine-cons j c m, mine-erase id b m distinct found'))
]

IsDistinct-insert :
    (id : Str) (b : Bool) (m : Dict Str Bool)
    → lookup id m ≡ none
    → IsDistinct m
    → IsDistinct (insert id b m)
unfolding insert lookup IsDistinct
IsDistinct-insert id b [] new distinct = (refl, tt)
IsDistinct-insert id b ((j, c) ∷ m) new (alone, distinct) = elim (Bool-cases (j == id)) [
  | inl here ↦ absurd (cc (rw here at new))
  | inr other ↦
      let new' = rw other at new in
      rw other (
        ground (arith, lookup-insert id j b m, alone, str_beq_iff id j, str_beq_iff j id),
        IsDistinct-insert id b m new' distinct,
      )
]

IsDistinct-erase : (id : Str) (m : Dict Str Bool) → IsDistinct m → IsDistinct (erase id m)
unfolding erase IsDistinct
IsDistinct-erase id [] distinct = tt
IsDistinct-erase id ((j, c) ∷ m) (alone, distinct) = elim (Bool-cases (j == id)) [
  | inl here ↦ rw here (IsDistinct-erase id m distinct)
  | inr other ↦
      rw other (ground (arith, lookup-erase id j m, alone), IsDistinct-erase id m distinct)
]

module _ (self infix_text : Str) where
  -- The ids are distinct and have numbers up to the counter.
  pub record IsTable (r : Requests Bool) : Type 0 where
    pub distinct : IsDistinct r.pending
    pub numbered :
        (id : Str) (b : Bool)
        → lookup id r.pending ≡ some b
        → (n : ℕ) × (n ≤ r.counter) × (id ≡ request_id self infix_text n)

  pub IsTable-erase :
      (id : Str) (r : Requests Bool)
      → IsTable r
      → IsTable (record r { pending = erase id r.pending })
  IsTable-erase id r t = record {
    distinct = IsDistinct-erase id r.pending t.distinct;
    numbered = λ j b found. t.numbered j b (ground (arith, lookup-erase id j r.pending, found));
  }

  new_id : Requests Bool → Str
  new_id r = request_id self infix_text (suc r.counter)

  new_id-absent : (r : Requests Bool) → IsTable r → lookup (new_id r) r.pending ≡ none
  unfolding new_id
  new_id-absent r t = elim (Option-cases (lookup (new_id r) r.pending)) [
    | inl absent ↦ absent
    | inr (b, found) ↦
        let (n, below, e) = t.numbered (new_id r) b found in
        let clash = request_id_injective self infix_text (suc r.counter) n e in
        absurd (omega (arith, below, clash))
  ]

  -- The table with the next request in it.
  opened : Bool → Requests Bool → Requests Bool
  opened b r = record { counter = suc r.counter; pending = insert (new_id r) b r.pending }

  opened-IsTable : (b : Bool) (r : Requests Bool) → IsTable r → IsTable (opened b r)
  unfolding opened new_id
  opened-IsTable b r t = record {
    distinct = IsDistinct-insert (new_id r) b r.pending (new_id-absent r t) t.distinct;
    numbered = λ j c found. elim (Bool-cases (new_id r == j)) [
      | inl here ↦ (suc r.counter, omega arith, sym ((str_beq_iff (new_id r) j).0 here))
      | inr other ↦
          let (n, below, e) =
            t.numbered j c (ground (arith, lookup-insert (new_id r) j b r.pending, other, found)) in
          (n, omega (arith, below), e)
    ];
  }

  -- A request is in the table afterwards, or the table has the handlers that it had.
  unfoldable pub Requested : Bool → Requests Bool → Option Str × Requests Bool → Type 0
  Requested b r result =
      IsTable result.1
      × (result.1.counter ≤ suc r.counter)
      × (((result.0 ≡ none) × (mine result.1.pending ≡ mine r.pending))
          ⊎ ((i : Str) × (result.0 ≡ some i) × (mine result.1.pending ≡ one b + mine r.pending)))

  withdrawn-Requested :
      (b : Bool) (r : Requests Bool)
      → IsTable r
      → Requested b r
          (none, record (opened b r) { pending = erase (new_id r) (opened b r).pending })
  unfolding Requested opened
  withdrawn-Requested b r t = (
    IsTable-erase (new_id r) (opened b r) (opened-IsTable b r t),
    omega arith,
    inl (refl, ap mine (erase-insert (new_id r) b r.pending (new_id-absent r t))),
  )

  opened-Requested :
      (b : Bool) (r : Requests Bool) → IsTable r → Requested b r (some (new_id r), opened b r)
  unfolding Requested opened
  opened-Requested b r t = (
    opened-IsTable b r t,
    omega arith,
    inr (new_id r, refl, mine-insert (new_id r) b r.pending (new_id-absent r t)),
  )

  pub request-Requested :
      (connections later : Dict Str ℕ) (peer : Str) (b : Bool) (r : Requests Bool)
      → suc r.counter < 2 ^ 64
      → IsTable r
      → Requested b r (request self infix_text connections later peer b r)
  unfolding next_id new_id opened Requested
  request-Requested connections later peer b r room t =
      elim (Option-cases (lookup peer connections)) [
        | inl unknown ↦
            subst (Requested b r)
              (sym (request-unknown self infix_text connections later peer b r unknown))
              (t, omega arith, inl (refl, refl))
        | inr (c, known) ↦
            let trace : Trace Bool = record { requests = r; issued = []; called = [] } in
            let e = request-known self infix_text connections later peer b trace c room known in
            elim (Bool-cases (has peer later)) [
              | inr lost ↦ subst (Requested b r) (sym (rw lost at e)) (withdrawn-Requested b r t)
              | inl still ↦ subst (Requested b r) (sym (rw still at e)) (opened-Requested b r t)
            ]
      ]
