-- ===== src/Cli/Labels.antt =====
-- The labels of remote sources, and reading them back (src/MeshCLI.hpp).
use mathlib.Core.List.{append_assoc}
use suba_sync.Prelude.{
  subst, ap₂, Option-cases, inl, inr, ℕ, ◌≡◌, refl, sym, ap, ◌∙◌, Str, codes, Bool, false, none,
  some, [], ◌∷◌, ◌++◌, str_eq, if◌then◌else◌, is_empty,
}
use suba_sync.Text.{is_space, trim_copy, starts_with, find, back?, front?}
use suba_sync.Text.Laws.{find-append, take-append, drop-append, Fails, drop_end_fixed}
use suba_sync.Paths.{slash, is_slash}
use suba_sync.Paths.Laws.{IsClean, trim_copy_fixed, drop_dot_fixed}
use suba_sync.Cli.{
  normalize_cli_path, looks_like_dir_guid, at_path, remote_path, parse_remote_path, parse_qualified,
  parse_at, local_path, parse_list_command, format_remote_source_label,
}

-- The name of a peer that a label can hold: some text without a colon and with no blank in front.
pub record IsPeerName (peer : Str) : Type 0 where
  pub not_empty : is_empty peer ≡ false
  pub no_colon : find b':' peer ≡ none
  pub front_space : Fails is_space (front? peer)

back?-append : (s : Str) (c : ℕ) (t : Str) → back? (s ++ c ∷ t) ≡ back? (c ∷ t)
unfolding back?
back?-append [] c t = refl
back?-append (a ∷ []) c t = refl
back?-append (a ∷ b ∷ s) c t = back?-append (b ∷ s) c t

back_space_slash :
    (path : Str) → Fails is_space (back? path) → Fails is_space (back? (slash ∷ path))
unfolding back? is_space
back_space_slash [] h = refl
back_space_slash (a ∷ s) h = h

-- Behind the slash of a label a clean path is read as it is.
normalize_cli_path-slash : (path : Str) → IsClean path → normalize_cli_path (slash ∷ path) ≡ path
unfolding normalize_cli_path
normalize_cli_path-slash path h =
    rw
      (
        normalize_cli_path,
        trim_copy_fixed (slash ∷ path) refl (back_space_slash path h.back_space),
        drop_end_fixed is_slash path h.back_slash,
      )
      (drop_dot_fixed path h)

-- A single name in the form of a GUID.
abbrev pub is_single_guid : Str → Bool
is_single_guid path = elim (find slash path) [ none ↦ looks_like_dir_guid path | some i ↦ false ]

parse_remote_path_lem :
    (peer path : Str)
    → is_single_guid path ≡ false
    → parse_remote_path peer path ≡ at_path remote_path peer path
unfolding parse_remote_path
parse_remote_path_lem peer path h = elim (Option-cases (find slash path)) [
  | inl e ↦ rw (parse_remote_path, e, rw (is_single_guid, e) at h) refl
  | inr (i, e) ↦ rw (parse_remote_path, e) refl
]

parse_qualified-slash :
    (peer path : Str)
    → IsClean path
    → is_single_guid path ≡ false
    → parse_qualified peer (slash ∷ path) ≡ at_path remote_path peer path
unfolding parse_qualified starts_with
parse_qualified-slash peer path c g =
    rw (parse_qualified, normalize_cli_path-slash path c) (parse_remote_path_lem peer path g)

-- The label of a peer, as it is read: the colon stands behind the name.
parse_list_command-colon :
    (known : Str → Bool) (a : ℕ) (s path : Str)
    → IsPeerName (a ∷ s)
    → IsClean path
    → parse_list_command known (a ∷ s ++ b':' ∷ slash ∷ path)
      ≡ some (parse_qualified (a ∷ s) (slash ∷ path))
unfolding parse_list_command parse_at back?
parse_list_command-colon known a s path p c =
    let text = a ∷ s ++ b':' ∷ slash ∷ path in
    let trimmed : trim_copy text ≡ text = trim_copy_fixed text p.front_space (
      subst (Fails is_space) (sym (back?-append (a ∷ s) b':' (slash ∷ path)))
        (back_space_slash path c.back_space)) in
    ap (λ t. if is_empty t then some (at_path local_path [] []) else parse_at known t (find b':' t))
      trimmed
    ∙ ap (parse_at known text) (find-append b':' (a ∷ s) (slash ∷ path) p.no_colon)
    ∙ ap₂ (λ x y. some (parse_qualified (a ∷ x) y)) (take-append s (b':' ∷ slash ∷ path))
        (drop-append s b':' (slash ∷ path))

-- Reading the label of a directory at a peer gives the peer and the path back: a name with no colon
-- and no blank in front, and a clean path that is not a single name in the form of a GUID.
pub parse_list_command-format_remote_source_label :
    (known : Str → Bool) (peer path : Str)
    → IsPeerName peer
    → IsClean path
    → is_single_guid path ≡ false
    → parse_list_command known (format_remote_source_label peer path)
      ≡ some (at_path remote_path peer path)
unfolding format_remote_source_label
parse_list_command-format_remote_source_label known [] path p c g = absurd (cc p.not_empty)
parse_list_command-format_remote_source_label known (a ∷ s) path p c g =
    ap (λ text. parse_list_command known (a ∷ text)) (append_assoc s (codes ":/") path)
    ∙ parse_list_command-colon known a s path p c
    ∙ ap some (parse_qualified-slash (a ∷ s) path c g)
