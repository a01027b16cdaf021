-- ===== src/Paths/Guard.antt =====
-- Which paths the guard on the reserved trees catches, and which it lets through.
use suba_sync.Prelude.{
  ℕ, ◌≡◌, refl, ◌∙◌, ◌↔◌, ◌⊎◌, inl, inr, Str, true, false, List, [], ◌∷◌, ◌++◌, arith, ◌==◌, str_eq,
  str_beq_iff, Bool-cases, sym, ap, subst,
}
use mathlib.Core.List.{append_assoc}
use suba_sync.Text.{back?}
use suba_sync.Text.Laws.{starts_with→append, starts_with-append, drop_end_fixed}
use suba_sync.Paths.{
  slash, is_slash, normalize_relative_path, reserved, is_within, is_within_any, is_internal_path,
}
use suba_sync.Paths.Laws.{IsClean, trim_copy_fixed}

-- `path` is `dir`, or `dir`, a slash and anything.
abbrev pub Within : Str → Str → Type 0
Within dir path = (path ≡ dir) ⊎ ((rest : Str) × (path ≡ dir ++ slash ∷ rest))

is_within_iff : (dir path : Str) → (is_within dir path ≡ true) ↔ Within dir path
unfolding is_within
is_within_iff dir path = (
  λ h. elim (Bool-cases (path == dir)) [
    | inl same ↦ inl ((str_beq_iff path dir).0 same)
    | inr differs ↦
        let (rest, e) = starts_with→append (dir ++ slash ∷ []) path (ground arith) in
        inr (rest, e ∙ append_assoc dir (slash ∷ []) rest)
  ],
  λ w. elim w [
    | inl e ↦ ground (arith, str_beq_iff path dir)
    | inr (rest, e) ↦ ground (
      arith,
      e ∙ sym (append_assoc dir (slash ∷ []) rest),
      starts_with-append (dir ++ slash ∷ []) rest,
    )
  ],
)

-- The path lies in one of the listed trees.
abbrev pub WithinAny : List Str → Str → Type 0
WithinAny [] path = ⊥
WithinAny (dir ∷ dirs) path = Within dir path ⊎ WithinAny dirs path

is_within_any_iff :
    (dirs : List Str) (path : Str) → (is_within_any dirs path ≡ true) ↔ WithinAny dirs path
unfolding is_within_any
is_within_any_iff [] path = ground arith
is_within_any_iff (dir ∷ dirs) path = (
  λ h. elim (Bool-cases (is_within dir path)) [
    | inl here ↦ inl ((is_within_iff dir path).0 here)
    | inr there ↦ inr ((is_within_any_iff dirs path).0 (ground arith))
  ],
  λ w. elim w [
    | inl here ↦ ground (arith, (is_within_iff dir path).1 here)
    | inr there ↦ ground (arith, (is_within_any_iff dirs path).1 there)
  ],
)

-- The guard holds exactly of the four reserved names and of what lies below them.
pub is_internal_path_iff : (path : Str) → (is_internal_path path ≡ true) ↔ WithinAny reserved path
unfolding is_internal_path
is_internal_path_iff [] = ground arith
is_internal_path_iff (c ∷ s) = is_within_any_iff reserved (c ∷ s)

Within-trans : (a b c : Str) → Within a b → Within b c → Within a c
Within-trans a b c ab bc = elim ab [
  | inl e ↦ subst (λ (t : Str). Within t c) e bc
  | inr (r, e) ↦ elim bc [
    | inl f ↦ inr (r, f ∙ e)
    | inr (r', f) ↦ inr (
      r ++ slash ∷ r',
      f ∙ ap (λ (t : Str). t ++ slash ∷ r') e ∙ append_assoc a (slash ∷ r) (slash ∷ r'),
    )
  ]
]

WithinAny-Within : (dirs : List Str) (b c : Str) → WithinAny dirs b → Within b c → WithinAny dirs c
WithinAny-Within [] b c w bc = elim w [ ]
WithinAny-Within (dir ∷ dirs) b c w bc = elim w [
  | inl here ↦ inl (Within-trans dir b c here bc)
  | inr there ↦ inr (WithinAny-Within dirs b c there bc)
]

-- What lies above a path that is not reserved is not reserved.
pub is_internal_path-Within :
    (b c : Str) → Within b c → is_internal_path c ≡ false → is_internal_path b ≡ false
is_internal_path-Within b c bc free = elim (Bool-cases (is_internal_path b)) [
  | inl hidden ↦
      let hidden' : is_internal_path c ≡ true =
        (is_internal_path_iff c).1
          (WithinAny-Within reserved b c ((is_internal_path_iff b).0 hidden) bc) in
      absurd (ground (arith, hidden', free))
  | inr done ↦ done
]

-- No path with a slash in front is taken for a reserved one.
is_internal_path-slash : (s : Str) → is_internal_path (slash ∷ s) ≡ false
unfolding is_internal_path
is_internal_path-slash s = refl

-- Behind two slashes a reserved path passes the guard: normalising takes one of them away.
pub is_internal_path-double_slash :
    (c : ℕ) (s : Str)
    → IsClean (c ∷ s)
    → (normalize_relative_path (slash ∷ slash ∷ c ∷ s) ≡ slash ∷ c ∷ s)
      × (is_internal_path (normalize_relative_path (slash ∷ slash ∷ c ∷ s)) ≡ false)
unfolding normalize_relative_path back? is_internal_path
is_internal_path-double_slash c s clean =
    let trimmed = trim_copy_fixed (slash ∷ slash ∷ c ∷ s) refl clean.back_space in
    let ended = drop_end_fixed is_slash (slash ∷ c ∷ s) clean.back_slash in
    rw (trimmed, ended) (refl, refl)
