-- ===== src/Text/Laws.antt =====
-- Facts about the text operations that the components share.
use suba_sync.Prelude.{
  ap, suc, inl, inr, Bool-cases, Option-cases, nat_beq, length, take, drop, ℕ, ◌≡◌, refl, Str, Bool,
  true, false, Option, none, some, [], ◌∷◌, ◌++◌, arith,
}
use suba_sync.Text.{drop_start, drop_end, cons_unless, starts_with, find, back?, front?}

-- The byte that an optional byte holds passes the test.
abbrev pub Fails : (ℕ → Bool) → Option ℕ → Type 0
Fails p none = Unit {0}
Fails p (some c) = p c ≡ false

cons_unless-Fails :
    (p : ℕ → Bool) (x : ℕ) (r : Str) → Fails p (back? r) → Fails p (back? (cons_unless p x r))
unfolding cons_unless back?
cons_unless-Fails p x [] h = ground arith
cons_unless-Fails p x (y ∷ ys) h = h

-- What is left after a trim at the end does not end in a trimmed byte.
pub back?-drop_end : (p : ℕ → Bool) (s : Str) → Fails p (back? (drop_end p s))
unfolding drop_end back?
back?-drop_end p [] = tt
back?-drop_end p (x ∷ xs) = cons_unless-Fails p x (drop_end p xs) (back?-drop_end p xs)

pub drop_end_fixed : (p : ℕ → Bool) (s : Str) → Fails p (back? s) → drop_end p s ≡ s
unfolding drop_end back?
drop_end_fixed p [] h = refl
drop_end_fixed p (x ∷ []) h = ground arith
drop_end_fixed p (x ∷ y ∷ ys) h = rw (drop_end_fixed p (y ∷ ys) h)

pub drop_start_fixed : (p : ℕ → Bool) (s : Str) → Fails p (front? s) → drop_start p s ≡ s
unfolding drop_start
drop_start_fixed p [] h = refl
drop_start_fixed p (x ∷ xs) h = ground arith

pub front?-drop_start : (p : ℕ → Bool) (s : Str) → Fails p (front? (drop_start p s))
unfolding drop_start
front?-drop_start p [] = tt
front?-drop_start p (x ∷ xs) = ground (arith, front?-drop_start p xs)

pub back?-drop : (x y : ℕ) (s : Str) → back? (x ∷ y ∷ s) ≡ back? (y ∷ s)
unfolding back?
back?-drop x y s = refl

-- A prefix test, as an equation.
pub starts_with→append : (p s : Str) → starts_with p s ≡ true → (rest : Str) × (s ≡ p ++ rest)
unfolding starts_with
starts_with→append [] s h = (s, refl)
starts_with→append (a ∷ p) [] h = cc
starts_with→append (a ∷ p) (b ∷ s) h =
    let (rest, e) = starts_with→append p s (ground arith) in (rest, ground arith)

pub starts_with-append : (p rest : Str) → starts_with p (p ++ rest) ≡ true
unfolding starts_with
starts_with-append [] rest = refl
starts_with-append (a ∷ p) rest = ground (arith, starts_with-append p rest)

-- Where a text ends at the first mark, and what stands around it.
pub find-append : (c : ℕ) (s t : Str) → find c s ≡ none → find c (s ++ c ∷ t) ≡ some (length s)
unfolding find
find-append c [] t h = ground arith
find-append c (a ∷ s) t h = elim (Bool-cases (nat_beq a c)) [
  | inl e ↦ absurd (cc (rw (find, e) at h))
  | inr e ↦ elim (Option-cases (find c s)) [
    | inl none_left ↦ rw (find, find-append c s t none_left, e) refl
    | inr (i, some_left) ↦ absurd (cc (rw (find, some_left, e) at h))
  ]
]

pub take-append : (s t : Str) → take (length s) (s ++ t) ≡ s
take-append [] t = refl
take-append (a ∷ s) t = ap (λ r. a ∷ r) (take-append s t)

pub drop-append : (s : Str) (c : ℕ) (t : Str) → drop (suc (length s)) (s ++ c ∷ t) ≡ t
drop-append [] c t = refl
drop-append (a ∷ s) c t = drop-append s c t
