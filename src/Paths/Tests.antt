-- ===== src/Paths/Tests.antt =====
-- Runs of the path functions, and the theorems at concrete paths.
use suba_sync.Prelude.{◌≡◌, ◌↔◌, refl, Str, codes, true, false, [], ◌∷◌, str_beq, str_eq}
use suba_sync.Text.{is_space, back?, starts_with}
use suba_sync.Text.Laws.{Fails}
use suba_sync.Paths.Laws.{IsClean, back?-normalize_relative_path, normalize_relative_path_fixed}
use suba_sync.Paths.Guard.{WithinAny, is_internal_path_iff, is_internal_path-double_slash}
use suba_sync.Paths.{
  normalize_relative_path, parent_path, elements, is_slash, reserved, is_internal_path,
}

normalize_test : normalize_relative_path (codes " /./docs/a.txt/ ") ≡ codes "docs/a.txt"
unfolding normalize_relative_path is_space
normalize_test = refl

parent_test : parent_path (codes "docs/2024/a.txt") ≡ codes "docs/2024"
unfolding parent_path
parent_test = refl

elements_test : elements (codes "/docs//a") ≡ codes "/" ∷ codes "docs" ∷ codes "a" ∷ []
unfolding elements
elements_test = refl

guid_dir : Str
guid_dir = codes "docs/2024"

IsClean-guid_dir : IsClean guid_dir
unfolding guid_dir is_space back? starts_with str_beq
IsClean-guid_dir = record {
  front_space = refl;
  back_space = refl;
  front_slash = refl;
  back_slash = refl;
  no_dot = refl;
  no_dot_slash = refl;
}

back?-normalize_relative_path_example :
    Fails is_slash (back? (normalize_relative_path (codes "a//")))
back?-normalize_relative_path_example = back?-normalize_relative_path (codes "a//")

normalize_relative_path-guid_dir : normalize_relative_path guid_dir ≡ guid_dir
normalize_relative_path-guid_dir = normalize_relative_path_fixed guid_dir IsClean-guid_dir

is_internal_path_iff_example :
    (is_internal_path (codes ".config/x") ≡ true) ↔ WithinAny reserved (codes ".config/x")
is_internal_path_iff_example = is_internal_path_iff (codes ".config/x")

IsClean-config : IsClean (codes ".config/ignore.json")
unfolding is_space back? starts_with str_beq
IsClean-config = record {
  front_space = refl;
  back_space = refl;
  front_slash = refl;
  back_slash = refl;
  no_dot = refl;
  no_dot_slash = refl;
}

is_internal_path-double_slash_example :
    (normalize_relative_path (codes "//.config/ignore.json") ≡ codes "/.config/ignore.json")
    × (is_internal_path (normalize_relative_path (codes "//.config/ignore.json")) ≡ false)
is_internal_path-double_slash_example =
    is_internal_path-double_slash b'.' (codes "config/ignore.json") IsClean-config
