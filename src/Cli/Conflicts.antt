-- ===== src/Cli/Conflicts.antt =====
-- The conflicts that wait for the user and the one that is staged (src/MeshCLI.hpp): queueing,
-- removing, unstaging, accepting and ignoring.
use suba_sync.Prelude.{
  Str, codes, Bool, true, false, not, ◌&&◌, ◌||◌, Option, none, some, List, [], ◌∷◌, ◌++◌, ◌==◌,
  str_eq, if◌then◌else◌, is_empty, keep_if,
}
use suba_sync.Text.{starts_with}
use suba_sync.Json.{JsonApi}
use suba_sync.Cli.State.{
  ConflictEntry, IgnoreKind, by_path, by_hash, by_dir_guid, Conflicts, Run, returns, blocks,
  lock_conflicts, and_then,
}
use suba_sync.Cli.Ignore.{classify_ignore_key, is_conflict_ignored, add_ignore_entry}

-- The `find_if` of `add_conflict`.
unfoldable pub is_queued : Str → Str → List ConflictEntry → Bool
is_queued path hash [] = false
is_queued path hash (c ∷ cs) = c.relative_path == path && c.hash == hash || is_queued path hash cs

-- The locked block of `add_conflict`.
unfoldable pub enqueue : ConflictEntry → Conflicts → Run (Unit {0})
unfolding is_queued
enqueue entry s =
    if is_queued entry.relative_path entry.hash s.conflicts
    then returns tt s
    else returns tt (record s { conflicts = s.conflicts ++ entry ∷ [] })

-- `add_conflict`, with the entry that it builds.
unfoldable pub add_conflict : ConflictEntry → Conflicts → Run (Unit {0})
unfolding is_conflict_ignored lock_conflicts enqueue
add_conflict entry s =
    and_then (is_conflict_ignored entry.relative_path entry.hash entry.dir_guid s)
      (λ ignored s'. if ignored then returns tt s' else lock_conflicts (enqueue entry) s')

-- The locked block of `clear_staged_conflict_if_matches`: the path of the file to remove.
unfoldable pub take_staged : Str → Bool → Conflicts → Run (Option Str)
take_staged conflict_id remove_file s = elim s.staged_conflict [
  | none ↦ returns none s
  | some staged ↦
      if not (staged.conflict_id == conflict_id)
      then returns none s
      else returns (if remove_file then some staged.staged_path else none)
          (record s { staged_conflict = none })
]

unfoldable pub remove_file : Option Str → Conflicts → Run (Unit {0})
remove_file none s = returns tt s
remove_file (some path) s = returns tt (record s { removed = path ∷ s.removed })

unfoldable pub clear_staged_conflict_if_matches : Str → Bool → Conflicts → Run (Unit {0})
unfolding lock_conflicts take_staged remove_file
clear_staged_conflict_if_matches conflict_id remove s =
    and_then (lock_conflicts (take_staged conflict_id remove) s) remove_file

-- The loop of `remove_conflicts_matching`.
unfoldable pub clear_each : (ConflictEntry → Bool) → List ConflictEntry → Conflicts → Run (Unit {0})
unfolding clear_staged_conflict_if_matches
clear_each predicate [] s = returns tt s
clear_each predicate (c ∷ cs) s = elim (predicate c) [
  | true ↦ and_then (clear_staged_conflict_if_matches c.id true s) (λ u. clear_each predicate cs)
  | false ↦ clear_each predicate cs s
]

unfoldable pub remove_locked : (ConflictEntry → Bool) → Conflicts → Run (Unit {0})
unfolding clear_each
remove_locked predicate s =
    and_then (clear_each predicate s.conflicts s)
      (λ u s'. returns tt (record s' { conflicts = keep_if (λ c. not (predicate c)) s'.conflicts }))

unfoldable pub remove_conflicts_matching : (ConflictEntry → Bool) → Conflicts → Run (Unit {0})
unfolding lock_conflicts remove_locked
remove_conflicts_matching predicate = lock_conflicts (remove_locked predicate)

unfoldable pub remove_conflict_by_id : Str → Conflicts → Run (Unit {0})
unfolding remove_conflicts_matching
remove_conflict_by_id id = remove_conflicts_matching (λ entry. entry.id == id)

-- `unstage_conflict`: its locked block, and the file.
unfoldable pub take_any_staged : Conflicts → Run (Option Str)
take_any_staged s = elim s.staged_conflict [
  | none ↦ returns none s
  | some staged ↦ returns (some staged.staged_path) (record s { staged_conflict = none })
]

unfoldable pub remove_preview : Option Str → Conflicts → Run Bool
unfolding remove_file
remove_preview none s = returns false s
remove_preview (some file) s = and_then (remove_file (some file) s) (λ u. returns true)

unfoldable pub unstage_conflict : Conflicts → Run Bool
unfolding lock_conflicts take_any_staged remove_preview
unstage_conflict s = and_then (lock_conflicts take_any_staged s) remove_preview

-- An entry is `path` or lies below it; the root is only itself.
unfoldable pub is_below : Str → ConflictEntry → Bool
unfolding starts_with
is_below path entry =
    if is_empty path
    then is_empty entry.relative_path
    else entry.relative_path == path || starts_with (path ++ codes "/") entry.relative_path

-- The test of `collect_conflicts_matching`, and of the predicate of `apply_conflict_ignore`.
unfoldable pub matches : IgnoreKind × Str → ConflictEntry → Bool
unfolding is_below
matches (by_hash, key) entry = entry.hash == key
matches (by_dir_guid, key) entry = entry.dir_guid == key
matches (by_path, key) entry = is_below key entry

unfoldable pub collect_conflicts_matching : Str → Conflicts → Run (List ConflictEntry)
unfolding lock_conflicts matches classify_ignore_key
collect_conflicts_matching key =
    lock_conflicts (λ s. returns (keep_if (matches (classify_ignore_key key)) s.conflicts) s)

-- `force_conflict_download`; `downloads` says whether the file can be fetched.
unfoldable pub force_conflict_download :
    (ConflictEntry → Bool) → ConflictEntry → Conflicts → Run Bool
unfolding clear_staged_conflict_if_matches
force_conflict_download downloads conflict s =
    if downloads conflict
    then and_then (clear_staged_conflict_if_matches conflict.id true s) (λ u. returns true)
    else returns false s

-- The loop of `apply_conflict_accept`.
unfoldable pub accept_each :
    (ConflictEntry → Bool) → List ConflictEntry → Bool → Conflicts → Run Bool
unfolding force_conflict_download remove_conflict_by_id
accept_each downloads [] any_applied s = returns any_applied s
accept_each downloads (c ∷ cs) any_applied s = elim (force_conflict_download downloads c s) [
  | blocks ↦ blocks
  | returns false s' ↦ accept_each downloads cs any_applied s'
  | returns true s' ↦ and_then (remove_conflict_by_id c.id s') (λ u. accept_each downloads cs true)
]

unfoldable pub apply_conflict_accept : (ConflictEntry → Bool) → Str → Conflicts → Run Bool
unfolding collect_conflicts_matching accept_each
apply_conflict_accept downloads key s =
    and_then (collect_conflicts_matching key s) (λ found. accept_each downloads found false)

module _ (J : JsonApi) (opens : Bool) where
  unfoldable pub apply_conflict_ignore : Str → Conflicts → Run Bool
  unfolding add_ignore_entry remove_conflicts_matching matches
  apply_conflict_ignore key s = and_then (add_ignore_entry J opens key s) (λ added s'.
      and_then (remove_conflicts_matching (matches (classify_ignore_key key)) s')
        (λ u. returns true))
