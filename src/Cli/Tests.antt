-- ===== src/Cli/Tests.antt =====
-- The conflicts, the ignore rules and the labels on small inputs.
use suba_sync.Prelude.{
  contains, not, is_empty, ◌&&◌, ◌||◌, Str, codes, Bool, true, false, ◌≡◌, refl, Option, none, some,
  List, [], ◌∷◌, map, if◌then◌else◌, str_eq, str_beq, ◌==◌,
}
use suba_sync.Cli.Watches.{WatchEntry, watch_preference_order}
use suba_sync.Cli.Preference.{is_distinct, is_source, watch_preference_order_lem}
use suba_sync.Prelude.Dict.{lookup}
use suba_sync.Json.Sample.{sample}
use suba_sync.Text.{find, is_space, back?, starts_with}
use suba_sync.Paths.Laws.{IsClean}
use suba_sync.Cli.{
  at_path, at_guid, at_hash, remote_path, directory_guid, hash_all, parse_list_command,
  format_remote_source_label,
}
use suba_sync.Cli.State.{ConflictEntry, Conflicts, Run, returns, blocks}
use suba_sync.Cli.Ignore.{add_ignore_entry, remove_ignore_entry, is_listed, classify_ignore_key}
use suba_sync.Cli.Conflicts.{remove_conflicts_matching, is_queued}
use suba_sync.Cli.Commands.{Event, report, conflict_command, ignore_command, run}
use suba_sync.Cli.Stuck.{IsFree, has_match, changes_block}
use suba_sync.Cli.Leaves.{Leaves}
use suba_sync.Cli.Queue.{Implements, queued_after, run_queue}
use suba_sync.Cli.Labels.{IsPeerName, is_single_guid, parse_list_command-format_remote_source_label}

abbrev conflict : Str → Str → ConflictEntry
conflict path hash = record {
  id = path;
  relative_path = path;
  hash = hash;
  dir_guid = [];
  origin_peer = codes "bob";
  detected_at = 0;
}

abbrev start : Conflicts
start = record {
  conflicts = conflict (codes "a.txt") (codes "0123456789abcdef") ∷ [];
  staged_conflict = none;
  ignore_config = record { paths = (codes "tmp", tt) ∷ []; hashes = []; dir_guids = [] };
  conflict_held = false;
  ignore_held = false;
  ignore_file = none;
  removed = [];
}

start-IsFree : IsFree start
start-IsFree = record { conflict_free = refl; ignore_free = refl }

abbrev is_bob : ConflictEntry → Bool
is_bob c = c.origin_peer == codes "bob"

changes_block_example :
    (add_ignore_entry sample true (codes "docs") start ≡ (
      if is_listed (classify_ignore_key (codes "docs")) start.ignore_config
      then returns false start
      else blocks))
    × (remove_ignore_entry sample true (codes "docs") start ≡ (
        if is_listed (classify_ignore_key (codes "docs")) start.ignore_config
        then blocks
        else returns false start))
    × (remove_conflicts_matching is_bob start
        ≡ (if has_match is_bob start.conflicts then blocks else returns tt start))
changes_block_example = changes_block sample true (codes "docs") is_bob start start-IsFree

abbrev fetched : ConflictEntry → Bool
fetched c = true

abbrev preview : ConflictEntry → Option (Str × Bool)
preview c = some (codes "stage/1", true)

abbrev events : List Event
events =
    report (conflict (codes "b.txt") (codes "ffffffff"))
    ∷ conflict_command (codes "stage a.txt")
    ∷ report (conflict (codes "tmp") (codes "ffffffff"))
    ∷ ignore_command (codes "remove docs")
    ∷ []

abbrev reports : List ConflictEntry
reports = conflict (codes "b.txt") (codes "ffffffff") ∷ []

run_queue_example :
    Leaves
      (Implements start.ignore_config (
        queued_after (λ path hash. is_queued path hash start.conflicts) start.ignore_config events))
      (run sample true fetched preview events start)
    × (t : Conflicts) × (run sample true fetched preview (map report reports) start ≡ returns tt t)
run_queue_example = run_queue sample true fetched preview events reports start start-IsFree

alice-IsPeerName : IsPeerName (codes "alice")
unfolding find is_space
alice-IsPeerName = record { not_empty = refl; no_colon = refl; front_space = refl }

music-IsClean : IsClean (codes "music/new")
unfolding is_space back? starts_with str_beq
music-IsClean = record {
  front_space = refl;
  back_space = refl;
  front_slash = refl;
  back_slash = refl;
  no_dot = refl;
  no_dot_slash = refl;
}

music-is_single_guid : is_single_guid (codes "music/new") ≡ false
unfolding find
music-is_single_guid = refl

parse_list_command-format_remote_source_label_example :
    parse_list_command
      (λ peer. false)
      (format_remote_source_label (codes "alice") (codes "music/new"))
    ≡ some (at_path remote_path (codes "alice") (codes "music/new"))
parse_list_command-format_remote_source_label_example =
    parse_list_command-format_remote_source_label (λ peer. false) (codes "alice")
      (codes "music/new") alice-IsPeerName music-IsClean music-is_single_guid

-- The history returns, with both conflicts queued.
abbrev queue_of : {A : Type 0} → Run A → List Str
queue_of (returns a s) = map (λ c. c.relative_path) s.conflicts
queue_of blocks = []

run-events :
    queue_of (run sample true fetched preview events start) ≡ codes "a.txt" ∷ codes "b.txt" ∷ []
unfolding run lookup
run-events = refl

-- A new rule, from the command line.
run-ignore_command :
    run sample true fetched preview (ignore_command (codes "add docs") ∷ []) start ≡ blocks
unfolding run lookup
run-ignore_command = refl

guid_read :
    parse_list_command (λ peer. false) (codes " dir-1 ")
    ≡ some (at_guid directory_guid [] (codes "dir-1"))
unfolding parse_list_command
guid_read = refl

hash_read :
    parse_list_command (λ peer. false) (codes "0123abcd")
    ≡ some (at_hash hash_all [] (codes "0123abcd"))
unfolding parse_list_command
hash_read = refl

abbrev watch : WatchEntry
watch = record {
  id = codes "1";
  sources =
      record { peer = codes "bob"; path = codes "music" }
      ∷ record { peer = codes "alice"; path = [] }
      ∷ record { peer = codes "bob"; path = codes "new" }
      ∷ [];
  dir_guid = codes "dir-1";
  origin_peer = codes "alice";
  dest_path = [];
  dest_is_directory = true;
}

watch_preference_order_lem_example :
    (is_distinct (watch_preference_order watch) ≡ true)
    × ((p : Str)
        → contains (watch_preference_order watch) p
          ≡ (not (is_empty p) && (codes "alice" == p || is_source p watch.sources)))
watch_preference_order_lem_example = watch_preference_order_lem watch

watch_preference_order-watch : watch_preference_order watch ≡ codes "alice" ∷ codes "bob" ∷ []
unfolding watch_preference_order contains str_beq
watch_preference_order-watch = refl
