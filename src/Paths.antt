-- ===== src/Paths.antt =====
-- Share-relative paths: the helpers at the top of src/peer_manager.cpp, and the operations of
-- `std::filesystem::path` that it uses, on POSIX paths.
pub mod Laws
pub mod Guard
mod Tests
use suba_sync.Prelude.{
  ℕ, Str, codes, Bool, true, false, ◌||◌, Option, none, some, List, [], ◌∷◌, ◌++◌, nat_beq, str_beq,
  ◌==◌, str_eq, if◌then◌else◌, is_empty, drop, reverse,
}
use suba_sync.Text.{is_space, trim_copy, drop_end, starts_with, back?}

abbrev pub slash : ℕ
slash = b'/'

abbrev pub is_slash : ℕ → Bool
is_slash c = nat_beq c slash

-- One leading slash.
abbrev pub drop_slash : Str → Str
drop_slash [] = []
drop_slash (c ∷ s) = if is_slash c then s else c ∷ s

-- The last two tests: `.` is the root, and one leading `./` goes.
unfoldable pub drop_dot : Str → Str
unfolding str_beq starts_with
drop_dot s = if s == codes "." then [] else if starts_with (codes "./") s then drop 2 s else s

unfoldable pub normalize_relative_path : Str → Str
unfolding trim_copy drop_end drop_dot
normalize_relative_path input = drop_dot (drop_end is_slash (drop_slash (trim_copy input)))

abbrev pub reserved : List Str
reserved = codes ".sync_tmp" ∷ codes ".archive" ∷ codes ".config" ∷ codes ".conflict-stage" ∷ []

-- `path` is `dir` or lies below it.
unfoldable pub is_within : Str → Str → Bool
unfolding str_beq starts_with
is_within dir path = path == dir || starts_with (dir ++ slash ∷ []) path

unfoldable pub is_within_any : List Str → Str → Bool
unfolding is_within
is_within_any [] path = false
is_within_any (dir ∷ dirs) path = is_within dir path || is_within_any dirs path

unfoldable pub is_internal_path : Str → Bool
unfolding is_within_any
is_internal_path path = if is_empty path then false else is_within_any reserved path

unfoldable pub ensure_trailing_slash : Str → Str
unfolding back?
ensure_trailing_slash input = if is_empty input then [] else elim (back? input) [
  | none ↦ []
  | some c ↦ if is_slash c then input else input ++ slash ∷ []
]

-- The text before the last slash and the text behind it; `none` if there is no slash.
split_last : Str → Option (Str × Str)
split_last [] = none
split_last (c ∷ s) = elim (split_last s) [
  | some (dir, name) ↦ some (c ∷ dir, name)
  | none ↦ if is_slash c then some ([], s) else none
]

-- `path(s).parent_path().generic_string()`
unfoldable pub parent_path : Str → Str
unfolding split_last drop_end
parent_path s = elim (split_last s) [
  | none ↦ []
  | some (dir, name) ↦ let up = drop_end is_slash dir in if is_empty up then slash ∷ [] else up
]

-- `path(s).filename().generic_string()`
unfoldable pub filename : Str → Str
unfolding split_last
filename s = elim (split_last s) [ none ↦ s | some (dir, name) ↦ name ]

-- The names between the slashes; `name` holds the bytes read of the current one, last first.
names : Str → Str → List Str
names name [] = if is_empty name then [] else reverse name ∷ []
names name (c ∷ s) =
    let next = names [] s in
    let more = names (c ∷ name) s in
    if is_slash c then (if is_empty name then next else reverse name ∷ next) else more

-- The elements that `for(it : path(s))` visits, less the empty one of a trailing slash.
unfoldable pub elements : Str → List Str
unfolding names
elements [] = []
elements (c ∷ s) = if is_slash c then (slash ∷ []) ∷ names [] s else names [] (c ∷ s)

-- `accum /= element`, for an element that is not absolute.
unfoldable pub append_path : Str → Str → Str
unfolding back?
append_path accum element = elim (back? accum) [
  | none ↦ element
  | some c ↦ if is_slash c then accum ++ element else accum ++ slash ∷ element
]
