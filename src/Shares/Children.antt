-- ===== src/Shares/Children.antt =====
-- The child of a directory that a path below it stands for; listings show no reserved path.
use mathlib.Core.List.{append_assoc}
use suba_sync.Prelude.{
  ℕ, zero, suc, Str, true, false, ◌≡◌, inl, inr, refl, sym, ap, ◌∙◌, none, some, [], ◌∷◌, ◌++◌,
  str_eq, nat_beq, nat_beq_iff, Bool-cases, Option-cases, arith, take, subst, ◌==◌,
}
use suba_sync.Text.{find, starts_with}
use suba_sync.Text.Laws.{drop-append, starts_with→append, starts_with-append}
use suba_sync.Paths.{slash, is_internal_path}
use suba_sync.Paths.Guard.{Within, is_internal_path-Within}
use suba_sync.Shares.Listing.{first_name, is_direct_child, child_path, listed_child}

find-take :
    (c : ℕ) (s : Str) (i : ℕ) → find c s ≡ some i → (rest : Str) × (s ≡ take i s ++ c ∷ rest)
unfolding find
find-take c [] i h = absurd (cc h)
find-take c (x ∷ s) i h = elim (Bool-cases (nat_beq x c)) [
  | inl here ↦
      let h' = rw here at h in
      let e : zero ≡ i = ground arith in
      (
        s,
        subst (λ (k : ℕ). x ∷ s ≡ take k (x ∷ s) ++ c ∷ s) e
            (ap (λ (y : ℕ). y ∷ s) ((nat_beq_iff x c).0 here)),
      )
  | inr there ↦
      let h' = rw there at h in
      elim (Option-cases (find c s)) [
        | inl absent ↦ absurd (cc (rw absent at h'))
        | inr (j, found) ↦
            let h'' = rw found at h' in
            let e : suc j ≡ i = ground arith in
            let (rest, e') = find-take c s j found in
            (
              rest,
              subst (λ (k : ℕ). x ∷ s ≡ take k (x ∷ s) ++ c ∷ rest) e (ap (λ (t : Str). x ∷ t) e'),
            )
      ]
]

-- What stands in front of the first mark has no mark.
find-take-none : (c : ℕ) (s : Str) (i : ℕ) → find c s ≡ some i → find c (take i s) ≡ none
unfolding find
find-take-none c [] i h = absurd (cc h)
find-take-none c (x ∷ s) zero h = refl
find-take-none c (x ∷ s) (suc i) h = ground (arith, find-take-none c s i)

-- A text is its first name, or lies below it.
pub first_name-Within : (s : Str) → Within (first_name s) s
unfolding first_name
first_name-Within s = elim (Option-cases (find slash s)) [
  | inl absent ↦ rw (first_name, absent) (inl refl)
  | inr (i, found) ↦ rw (first_name, found) (inr (find-take slash s i found))
]

pub find-first_name : (s : Str) → find slash (first_name s) ≡ none
unfolding first_name
find-first_name s = elim (Option-cases (find slash s)) [
  | inl absent ↦ rw (first_name, absent) absent
  | inr (i, found) ↦ rw (first_name, found) (find-take-none slash s i found)
]

Within-append : (p a b : Str) → Within a b → Within (p ++ a) (p ++ b)
Within-append p a b w = elim w [
  | inl e ↦ inl (ap (λ (t : Str). p ++ t) e)
  | inr (rest, e) ↦ inr (rest, ap (λ (t : Str). p ++ t) e ∙ sym (append_assoc p a (slash ∷ rest)))
]

is_direct_child-below :
    (p : ℕ) (ps rest child : Str)
    → is_direct_child (p ∷ ps) ((p ∷ ps) ++ slash ∷ rest) ≡ some child
    → Within (child_path (p ∷ ps) child) ((p ∷ ps) ++ slash ∷ rest)
unfolding is_direct_child child_path
is_direct_child-below p ps rest child h =
    let starts : starts_with (ps ++ slash ∷ []) (ps ++ slash ∷ rest) ≡ true =
      subst (λ (t : Str). starts_with (ps ++ slash ∷ []) t ≡ true)
        (append_assoc ps (slash ∷ []) rest) (starts_with-append (ps ++ slash ∷ []) rest) in
    let e : first_name rest ≡ child = ground (arith, starts, drop-append ps slash rest) in
    subst (λ (t : Str). Within ((p ∷ ps) ++ slash ∷ t) ((p ∷ ps) ++ slash ∷ rest)) e
      (Within-append (p ∷ ps) (slash ∷ first_name rest) (slash ∷ rest)
        (Within-append (slash ∷ []) (first_name rest) rest (first_name-Within rest)))

-- The child's path is a path above the candidate, or is the candidate.
is_direct_child-Within :
    (parent path child : Str)
    → is_direct_child parent path ≡ some child
    → Within (child_path parent child) path
unfolding is_direct_child child_path
is_direct_child-Within [] [] child h = absurd (cc h)
is_direct_child-Within [] (x ∷ xs) child h =
    let e : first_name (x ∷ xs) ≡ child = ground arith in
    subst (λ (t : Str). Within t (x ∷ xs)) e (first_name-Within (x ∷ xs))
is_direct_child-Within (p ∷ ps) path child h =
    elim (Bool-cases (starts_with ((p ∷ ps) ++ slash ∷ []) path)) [
      | inl below ↦
          let (rest, e) = starts_with→append ((p ∷ ps) ++ slash ∷ []) path below in
          let e' = e ∙ append_assoc (p ∷ ps) (slash ∷ []) rest in
          subst (λ (t : Str). Within ((p ∷ ps) ++ slash ∷ child) t) (sym e')
            (is_direct_child-below p ps rest child
              (subst (λ (t : Str). is_direct_child (p ∷ ps) t ≡ some child) e' h))
      | inr apart ↦ absurd (ground (arith, apart))
    ]

-- A listed child is not reserved.
pub listed_child-free :
    (parent path child : Str)
    → listed_child parent path ≡ some child
    → is_internal_path child ≡ false
unfolding listed_child
listed_child-free parent path child h = elim (Bool-cases (is_internal_path path)) [
  | inl hidden ↦ absurd (cc (rw hidden at h))
  | inr free ↦
      let h' = rw free at h in
      elim (Bool-cases (path == parent)) [
        | inl same ↦ absurd (cc (rw same at h'))
        | inr differs ↦
            let h'' = rw differs at h' in
            elim (Option-cases (is_direct_child parent path)) [
              | inl none_there ↦ absurd (cc (rw none_there at h''))
              | inr (name, found) ↦
                  let h3 = rw found at h'' in
                  let e : child_path parent name ≡ child = ground arith in
                  subst (λ (t : Str). is_internal_path t ≡ false) e
                    (is_internal_path-Within (child_path parent name) path
                      (is_direct_child-Within parent path name found) free)
            ]
      ]
]
