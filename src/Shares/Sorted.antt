-- ===== src/Shares/Sorted.antt =====
-- The sort of a listing by path: it is in order, and it keeps the items.
use suba_sync.Prelude.{
  Str, true, false, ◌≡◌, ◌⊎◌, ◌↔◌, inl, inr, refl, List, [], ◌∷◌, str_eq, Bool-cases, arith, Member,
}
use suba_sync.Shares.{RemoteListingItem}
use suba_sync.Shares.Listing.{str_lt, insert_sorted, sort}

str_lt_asym : (s t : Str) → str_lt s t ≡ true → str_lt t s ≡ false
unfolding str_lt
str_lt_asym [] [] h = absurd (cc h)
str_lt_asym [] (y ∷ ys) h = refl
str_lt_asym (x ∷ xs) [] h = absurd (cc h)
str_lt_asym (x ∷ xs) (y ∷ ys) h = ground (arith, str_lt_asym xs ys)

-- No item is followed by one with a smaller path.
pub IsSorted : List RemoteListingItem → Type 0
IsSorted [] = Unit
IsSorted (a ∷ []) = Unit
IsSorted (a ∷ b ∷ rest) = (str_lt b.relative_path a.relative_path ≡ false) × IsSorted (b ∷ rest)

IsSorted-tail :
    (a : RemoteListingItem) (xs : List RemoteListingItem) → IsSorted (a ∷ xs) → IsSorted xs
unfolding IsSorted
IsSorted-tail a [] h = tt
IsSorted-tail a (b ∷ rest) (h, hs) = hs

insert_sorted-cons :
    (a b : RemoteListingItem) (xs : List RemoteListingItem)
    → str_lt b.relative_path a.relative_path ≡ true
    → IsSorted (b ∷ xs)
    → IsSorted (insert_sorted a xs)
    → IsSorted (b ∷ insert_sorted a xs)
unfolding insert_sorted IsSorted
insert_sorted-cons a b [] less old new = (str_lt_asym b.relative_path a.relative_path less, tt)
insert_sorted-cons a b (x ∷ xs) less (h, old) new =
    elim (Bool-cases (str_lt x.relative_path a.relative_path)) [
      | inl below ↦ let new' = rw (insert_sorted, below) at new in rw below (h, new')
      | inr above ↦
          let new' = rw (insert_sorted, above) at new in
          rw above (str_lt_asym b.relative_path a.relative_path less, new')
    ]

insert_sorted-IsSorted :
    (a : RemoteListingItem) (xs : List RemoteListingItem)
    → IsSorted xs
    → IsSorted (insert_sorted a xs)
unfolding insert_sorted IsSorted
insert_sorted-IsSorted a [] h = tt
insert_sorted-IsSorted a (x ∷ xs) h = elim (Bool-cases (str_lt x.relative_path a.relative_path)) [
  | inl less ↦
      rw less
        (insert_sorted-cons a x xs less h (insert_sorted-IsSorted a xs (IsSorted-tail x xs h)))
  | inr more ↦ rw more (more, h)
]

pub sort-IsSorted : (xs : List RemoteListingItem) → IsSorted (sort xs)
unfolding sort IsSorted
sort-IsSorted [] = tt
sort-IsSorted (x ∷ xs) = insert_sorted-IsSorted x (sort xs) (sort-IsSorted xs)

Member-insert_sorted :
    (i a : RemoteListingItem) (xs : List RemoteListingItem)
    → Member i (insert_sorted a xs) ↔ ((a ≡ i) ⊎ Member i xs)
unfolding insert_sorted
Member-insert_sorted i a [] = (λ m. m, λ m. m)
Member-insert_sorted i a (x ∷ xs) = elim (Bool-cases (str_lt x.relative_path a.relative_path)) [
  | inl less ↦ rw less (
    λ m. elim m [
      | inl e ↦ inr (inl e)
      | inr m' ↦ elim ((Member-insert_sorted i a xs).0 m') [
        | inl e ↦ inl e
        | inr there ↦ inr (inr there)
      ]
    ],
    λ m. elim m [
      | inl e ↦ inr ((Member-insert_sorted i a xs).1 (inl e))
      | inr (inl e) ↦ inl e
      | inr (inr there) ↦ inr ((Member-insert_sorted i a xs).1 (inr there))
    ],
  )
  | inr more ↦ rw more (λ m. m, λ m. m)
]

pub Member-sort :
    (i : RemoteListingItem) (xs : List RemoteListingItem) → Member i (sort xs) ↔ Member i xs
unfolding sort
Member-sort i [] = (λ m. m, λ m. m)
Member-sort i (x ∷ xs) = (
  λ m. elim ((Member-insert_sorted i x (sort xs)).0 m) [
    | inl e ↦ inl e
    | inr there ↦ inr ((Member-sort i xs).0 there)
  ],
  λ m.
      (Member-insert_sorted i x (sort xs)).1
        (elim m [ inl e ↦ inl e | inr there ↦ inr ((Member-sort i xs).1 there) ]),
)
