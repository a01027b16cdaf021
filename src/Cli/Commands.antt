-- ===== src/Cli/Commands.antt =====
-- The commands `ignore` and `conflict` (src/MeshCLI.hpp), less what they print, and histories of
-- commands and of conflicts that are reported. What is fetched from peers is an argument: `downloads`
-- for an accepted conflict; for a staged one `stager` gives the path of the preview and whether it
-- could be fetched, unless there is no provider.
use suba_sync.Prelude.{
  Str, codes, Bool, true, false, Option, none, some, List, [], ◌∷◌, ◌==◌, str_eq, if◌then◌else◌,
  is_empty,
}
use suba_sync.Text.{is_space, drop_start}
use suba_sync.Json.{JsonApi}
use suba_sync.Cli.State.{ConflictEntry, Conflicts, Run, returns, lock_conflicts, and_then}
use suba_sync.Cli.Ignore.{add_ignore_entry, remove_ignore_entry}
use suba_sync.Cli.Conflicts.{
  add_conflict, remove_file, unstage_conflict, collect_conflicts_matching, apply_conflict_accept,
  apply_conflict_ignore,
}

-- The bytes up to a blank, and the rest.
unfoldable pub span_word : Str → Str × Str
unfolding is_space
span_word [] = ([], [])
span_word (c ∷ s) =
    let (word, rest) = span_word s in if is_space c then ([], c ∷ s) else (c ∷ word, rest)

-- `stream >> word`
unfoldable pub next_word : Str → Str × Str
unfolding span_word drop_start
next_word s = span_word (drop_start is_space s)

-- What follows a result that is only printed.
abbrev pub then_print : {A : Type 0} → Run A → Run (Unit {0})
then_print r = and_then r (λ a s. returns tt s)

-- The locked block at the end of `stage_conflict`.
unfoldable pub put_staged : ConflictEntry → Str → Conflicts → Run Bool
put_staged c path s = returns true (record s {
  staged_conflict = some (record {
    conflict_id = c.id;
    relative_path = c.relative_path;
    hash = c.hash;
    dir_guid = c.dir_guid;
    staged_path = path;
  });
})

-- The rest of `stage_conflict`, with providers for the conflict that it has chosen.
unfoldable pub stage_found : ConflictEntry → Str → Bool → Conflicts → Run Bool
unfolding unstage_conflict lock_conflicts remove_file put_staged
stage_found c path fetched s = and_then (unstage_conflict s) (λ u s'.
    if fetched
    then lock_conflicts (put_staged c path) s'
    else and_then (remove_file (some path) s') (λ v. returns false))

unfoldable pub stage_first :
    (ConflictEntry → Option (Str × Bool)) → List ConflictEntry → Conflicts → Run Bool
unfolding stage_found
stage_first stager [] s = returns false s
stage_first stager (c ∷ cs) s = elim (stager c) [
  | none ↦ returns false s
  | some (path, fetched) ↦ stage_found c path fetched s
]

unfoldable pub stage_conflict : (ConflictEntry → Option (Str × Bool)) → Str → Conflicts → Run Bool
unfolding collect_conflicts_matching stage_first
stage_conflict stager key s = and_then (collect_conflicts_matching key s) (stage_first stager)

-- A history: the calls of `add_conflict`, and the two commands with their arguments.
pub data Event : Type 0 where
  report : ConflictEntry → Event
  ignore_command conflict_command : Str → Event

module _ (J : JsonApi) (opens : Bool) where
  unfoldable pub ignore_action : Str → Str → Conflicts → Run (Unit {0})
  unfolding add_ignore_entry remove_ignore_entry
  ignore_action action key s =
      if is_empty key
      then returns tt s
      else if action == codes "add"
      then then_print (add_ignore_entry J opens key s)
      else if action == codes "remove"
      then then_print (remove_ignore_entry J opens key s)
      else returns tt s

  unfoldable pub handle_ignore_command : Str → Conflicts → Run (Unit {0})
  unfolding next_word ignore_action
  handle_ignore_command args = ignore_action (next_word args).0 (next_word (next_word args).1).0

module _ (J : JsonApi) (opens : Bool) (downloads : ConflictEntry → Bool)
    (stager : ConflictEntry → Option (Str × Bool)) where
  unfoldable pub keyed_action : Str → Str → Conflicts → Run (Unit {0})
  unfolding apply_conflict_accept stage_conflict apply_conflict_ignore
  keyed_action action key s =
      if is_empty key
      then returns tt s
      else if action == codes "accept"
      then then_print (apply_conflict_accept downloads key s)
      else if action == codes "stage"
      then then_print (stage_conflict stager key s)
      else if action == codes "ignore"
      then then_print (apply_conflict_ignore J opens key s)
      else returns tt s

  unfoldable pub handle_conflict_command : Str → Conflicts → Run (Unit {0})
  unfolding next_word unstage_conflict keyed_action
  handle_conflict_command args s =
      if (next_word args).0 == codes "unstage"
      then then_print (unstage_conflict s)
      else keyed_action (next_word args).0 (next_word (next_word args).1).0 s

  unfoldable pub step : Event → Conflicts → Run (Unit {0})
  unfolding add_conflict handle_ignore_command handle_conflict_command
  step (report entry) s = add_conflict entry s
  step (ignore_command args) s = handle_ignore_command J opens args s
  step (conflict_command args) s = handle_conflict_command args s

  unfoldable pub run : List Event → Conflicts → Run (Unit {0})
  unfolding step
  run [] s = returns tt s
  run (e ∷ es) s = and_then (step e s) (λ u. run es)
