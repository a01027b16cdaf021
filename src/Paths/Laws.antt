-- ===== src/Paths/Laws.antt =====
-- What normalising a path guarantees, and on which paths it changes nothing.
use suba_sync.Prelude.{
  ℕ, ◌≡◌, refl, ◌∙◌, Str, codes, Bool, false, [], ◌∷◌, arith, ◌==◌, str_eq, drop, ap,
}
use suba_sync.Text.{is_space, drop_end, trim_copy, starts_with, back?, front?}
use suba_sync.Text.Laws.{Fails, back?-drop_end, drop_end_fixed, drop_start_fixed}
use suba_sync.Paths.{is_slash, drop_slash, drop_dot, normalize_relative_path}

drop-Fails : (p : ℕ → Bool) (s : Str) → Fails p (back? s) → Fails p (back? (drop 2 s))
unfolding back?
drop-Fails p [] h = tt
drop-Fails p (a ∷ []) h = tt
drop-Fails p (a ∷ b ∷ []) h = tt
drop-Fails p (a ∷ b ∷ c ∷ r) h = h

drop_dot-Fails : (p : ℕ → Bool) (s : Str) → Fails p (back? s) → Fails p (back? (drop_dot s))
unfolding drop_dot back?
drop_dot-Fails p s h = ground (arith, drop-Fails p s h)

-- A normalised path never ends in a slash.
pub back?-normalize_relative_path : (s : Str) → Fails is_slash (back? (normalize_relative_path s))
unfolding normalize_relative_path
back?-normalize_relative_path s =
    drop_dot-Fails is_slash _ (back?-drop_end is_slash (drop_slash (trim_copy s)))

-- The paths that the index uses: no blank at an end, no slash at an end, not `.`, no `./` in front.
pub record IsClean (s : Str) : Type 0 where
  pub front_space : Fails is_space (front? s)
  pub back_space : Fails is_space (back? s)
  pub front_slash : Fails is_slash (front? s)
  pub back_slash : Fails is_slash (back? s)
  pub no_dot : (s == codes ".") ≡ false
  pub no_dot_slash : starts_with (codes "./") s ≡ false

pub trim_copy_fixed :
    (s : Str) → Fails is_space (front? s) → Fails is_space (back? s) → trim_copy s ≡ s
unfolding trim_copy
trim_copy_fixed s f b =
    ap (drop_end is_space) (drop_start_fixed is_space s f) ∙ drop_end_fixed is_space s b

drop_slash_fixed : (s : Str) → Fails is_slash (front? s) → drop_slash s ≡ s
drop_slash_fixed [] h = refl
drop_slash_fixed (c ∷ s) h = ground arith

pub drop_dot_fixed : (s : Str) → IsClean s → drop_dot s ≡ s
unfolding drop_dot
drop_dot_fixed s c = ground arith

-- On a clean path normalising changes nothing.
pub normalize_relative_path_fixed : (s : Str) → IsClean s → normalize_relative_path s ≡ s
unfolding normalize_relative_path
normalize_relative_path_fixed s c =
    rw
      (
        trim_copy_fixed s c.front_space c.back_space,
        drop_slash_fixed s c.front_slash,
        drop_end_fixed is_slash s c.back_slash,
      )
      (drop_dot_fixed s c)
