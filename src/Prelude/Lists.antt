-- ===== src/Prelude/Lists.antt =====
-- Lists measured and indexed by native numbers, under the library's names.
use Prim.Native.Nat.{ℕ, zero, suc, ◌+◌, ◌-◌, ◌≤◌, min}
use mathlib.Core.Path.{◌≡◌, refl, ap, subst}
use mathlib.Core.Bool.{Bool, true, false}
use mathlib.Core.Logic.{◌⊎◌, inl, inr, ◌↔◌}
use mathlib.Core.List.{List, [], ◌∷◌, ◌++◌}
use mathlib.Core.Option.{Option, none, some}
use native.Mathlib.Omega.{arith}
use suba_sync.Prelude.Tests.{if◌then◌else◌, nat_beq}

module _ {ℓ} {A : Type ℓ} where
  abbrev pub length : List A → ℕ
  length [] = 0
  length (x ∷ xs) = suc (length xs)

  abbrev pub get_elem? : List A → ℕ → Option A
  get_elem? [] i = none
  get_elem? (x ∷ xs) zero = some x
  get_elem? (x ∷ xs) (suc i) = get_elem? xs i

  -- A write out of bounds changes nothing.
  abbrev pub set : List A → ℕ → A → List A
  set [] i v = []
  set (x ∷ xs) zero v = v ∷ xs
  set (x ∷ xs) (suc i) v = x ∷ set xs i v

  abbrev pub take : ℕ → List A → List A
  take zero xs = []
  take (suc n) [] = []
  take (suc n) (x ∷ xs) = x ∷ take n xs

  abbrev pub drop : ℕ → List A → List A
  drop zero xs = xs
  drop (suc n) [] = []
  drop (suc n) (x ∷ xs) = drop n xs

  abbrev pub replicate : ℕ → A → List A
  replicate zero a = []
  replicate (suc n) a = a ∷ replicate n a

  abbrev pub is_empty : List A → Bool
  is_empty [] = true
  is_empty (x ∷ xs) = false

  -- A filter that computes with a Boolean test.
  abbrev pub keep_if : (A → Bool) → List A → List A
  keep_if p [] = []
  keep_if p (x ∷ xs) = let rest = keep_if p xs in if p x then x ∷ rest else rest

  pub length-append : (xs ys : List A) → length (xs ++ ys) ≡ length xs + length ys
  length-append [] ys = omega arith
  length-append (x ∷ xs) ys = omega (arith, length-append xs ys)

  pub length-set : (xs : List A) (i : ℕ) (v : A) → length (set xs i v) ≡ length xs
  length-set [] i v = refl
  length-set (x ∷ xs) zero v = refl
  length-set (x ∷ xs) (suc i) v = ap suc (length-set xs i v)

  pub length-take : (n : ℕ) (xs : List A) → length (take n xs) ≡ min n (length xs)
  length-take zero xs = omega arith
  length-take (suc n) [] = omega arith
  length-take (suc n) (x ∷ xs) = omega (arith, length-take n xs)

  pub length-drop : (n : ℕ) (xs : List A) → length (drop n xs) ≡ length xs - n
  length-drop zero xs = omega arith
  length-drop (suc n) [] = omega arith
  length-drop (suc n) (x ∷ xs) = omega (arith, length-drop n xs)

  pub length-replicate : (n : ℕ) (a : A) → length (replicate n a) ≡ n
  length-replicate zero a = refl
  length-replicate (suc n) a = ap suc (length-replicate n a)

  unfoldable pub sum_by : (A → ℕ) → List A → ℕ
  sum_by f [] = 0
  sum_by f (x ∷ xs) = f x + sum_by f xs

  pub sum_by-append : (f : A → ℕ) (xs ys : List A) → sum_by f (xs ++ ys) ≡ sum_by f xs + sum_by f ys
  unfolding sum_by
  sum_by-append f [] ys = omega arith
  sum_by-append f (x ∷ xs) ys = omega (arith, sum_by-append f xs ys)

  -- Replacing one element changes the sum by the difference.
  pub sum_by-set :
      (f : A → ℕ) (xs : List A) (i : ℕ) (x y : A)
      → get_elem? xs i ≡ some x
      → sum_by f (set xs i y) + f x ≡ sum_by f xs + f y
  unfolding sum_by
  sum_by-set f [] i x y h = absurd (cc h)
  sum_by-set f (z ∷ xs) zero x y h = let e : z ≡ x = cc h in rw e (omega arith)
  sum_by-set f (z ∷ xs) (suc i) x y h = omega (arith, sum_by-set f xs i x y h)

  pub sum_by-one : (xs : List A) → sum_by (λ x. 1) xs ≡ length xs
  unfolding sum_by
  sum_by-one [] = refl
  sum_by-one (x ∷ xs) = omega (arith, sum_by-one xs)

  pub sum_by-ge :
      (f : A → ℕ) (xs : List A) (i : ℕ) (x : A) → get_elem? xs i ≡ some x → f x ≤ sum_by f xs
  unfolding sum_by
  sum_by-ge f [] i x h = absurd (cc h)
  sum_by-ge f (z ∷ xs) zero x h = let e : z ≡ x = cc h in rw e (omega arith)
  sum_by-ge f (z ∷ xs) (suc i) x h = omega (arith, sum_by-ge f xs i x h)

  pub get_elem?-set :
      (xs : List A) (i j : ℕ) (x v : A)
      → get_elem? xs i ≡ some x
      → get_elem? (set xs i v) j ≡ (if nat_beq i j then some v else get_elem? xs j)
  get_elem?-set [] i j x v h = absurd (cc h)
  get_elem?-set (z ∷ xs) zero zero x v h = refl
  get_elem?-set (z ∷ xs) zero (suc j) x v h = ground arith
  get_elem?-set (z ∷ xs) (suc i) zero x v h = ground arith
  get_elem?-set (z ∷ xs) (suc i) (suc j) x v h = ground (arith, get_elem?-set xs i j x v h)

module _ {A : Type 0} where
  -- The element stands in the list.
  abbrev pub Member : A → List A → Type 0
  Member a [] = ⊥
  Member a (x ∷ xs) = (x ≡ a) ⊎ Member a xs

  -- Every element of the list satisfies the predicate.
  abbrev pub All : (A → Type 0) → List A → Type 0
  All p [] = Unit
  All p (x ∷ xs) = p x × All p xs

  pub Member-append : (a : A) (xs ys : List A) → Member a (xs ++ ys) ↔ (Member a xs ⊎ Member a ys)
  Member-append a [] ys = (λ m. inr m, λ s. elim s [ inl m ↦ elim m [ ] | inr m ↦ m ])
  Member-append a (x ∷ xs) ys = (
    λ m. elim m [
      | inl e ↦ inl (inl e)
      | inr m' ↦ elim ((Member-append a xs ys).0 m') [ inl l ↦ inl (inr l) | inr r ↦ inr r ]
    ],
    λ s. elim s [
      | inl (inl e) ↦ inl e
      | inl (inr l) ↦ inr ((Member-append a xs ys).1 (inl l))
      | inr r ↦ inr ((Member-append a xs ys).1 (inr r))
    ],
  )

  pub All-append : (p : A → Type 0) (xs ys : List A) → All p xs → All p ys → All p (xs ++ ys)
  All-append p [] ys hs bs = bs
  All-append p (x ∷ xs) ys (h, hs) bs = (h, All-append p xs ys hs bs)

  pub All-map : {p q : A → Type 0} (f : (a : A) → p a → q a) (xs : List A) → All p xs → All q xs
  All-map f [] hs = tt
  All-map f (x ∷ xs) (h, hs) = (f x h, All-map f xs hs)

  pub All-Member : (p : A → Type 0) (xs : List A) (a : A) → All p xs → Member a xs → p a
  All-Member p [] a hs m = elim m [ ]
  All-Member p (x ∷ xs) a (h, hs) m = elim m [
    | inl e ↦ subst p e h
    | inr there ↦ All-Member p xs a hs there
  ]

  pub All-both : (p q : A → Type 0) (xs : List A) → All p xs → All q xs → All (λ a. p a × q a) xs
  All-both p q [] hs ks = tt
  All-both p q (x ∷ xs) (h, hs) (k, ks) = ((h, k), All-both p q xs hs ks)

  pub All-self : (xs : List A) → All (λ a. Member a xs) xs
  All-self [] = tt
  All-self (x ∷ xs) = (inl refl, All-map (λ a m. inr m) xs (All-self xs))
