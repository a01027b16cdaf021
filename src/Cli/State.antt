-- ===== src/Cli/State.antt =====
-- The state of the conflicts and of the ignore rules (src/MeshCLI.hpp), with the two mutexes over
-- them. A `std::mutex` that its own thread locks again never becomes free, so a lock that is held
-- is a result of its own, `blocks`.
use suba_sync.Prelude.{ℕ, Str, Bool, true, false, Option, List, str_eq, if◌then◌else◌}
use suba_sync.Peers.{StrSet}

pub record ConflictEntry : Type 0 where
  pub id : Str
  pub relative_path : Str
  pub hash : Str
  pub dir_guid : Str
  pub origin_peer : Str
  pub detected_at : ℕ

pub record IgnoreConfig : Type 0 where
  pub paths : StrSet
  pub hashes : StrSet
  pub dir_guids : StrSet

pub data IgnoreKind : Type 0 where
  by_path by_hash by_dir_guid : IgnoreKind

pub record StagedConflict : Type 0 where
  pub conflict_id : Str
  pub relative_path : Str
  pub hash : Str
  pub dir_guid : Str
  pub staged_path : Str

-- The members, whether the mutexes are held, the text of `ignore.json`, and the files removed.
pub record Conflicts : Type 0 where
  pub conflicts : List ConflictEntry
  pub staged_conflict : Option StagedConflict
  pub ignore_config : IgnoreConfig
  pub conflict_held : Bool
  pub ignore_held : Bool
  pub ignore_file : Option Str
  pub removed : List Str

pub data Run (A : Type 0) : Type 0 where
  returns : A → Conflicts → Run A
  blocks : Run A

-- `std::lock_guard` on each mutex: `body` runs while it is held.
module _ {A : Type 0} where
  unfoldable pub unlock_ignore : Run A → Run A
  unlock_ignore (returns a s) = returns a (record s { ignore_held = false })
  unlock_ignore blocks = blocks

  unfoldable pub lock_ignore : (Conflicts → Run A) → Conflicts → Run A
  unfolding unlock_ignore
  lock_ignore body s =
      if s.ignore_held then blocks else unlock_ignore (body (record s { ignore_held = true }))

  unfoldable pub unlock_conflicts : Run A → Run A
  unlock_conflicts (returns a s) = returns a (record s { conflict_held = false })
  unlock_conflicts blocks = blocks

  unfoldable pub lock_conflicts : (Conflicts → Run A) → Conflicts → Run A
  unfolding unlock_conflicts
  lock_conflicts body s =
      if s.conflict_held
      then blocks
      else unlock_conflicts (body (record s { conflict_held = true }))

-- The rest of a function, on what the first part leaves.
abbrev pub and_then : {A B : Type 0} → Run A → (A → Conflicts → Run B) → Run B
and_then (returns a s) next = next a s
and_then blocks next = blocks
