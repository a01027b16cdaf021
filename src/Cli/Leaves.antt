-- ===== src/Cli/Leaves.antt =====
-- What the commands leave as it was (src/MeshCLI.hpp): the queued conflicts and the ignore rules.
use suba_sync.Prelude.{
  ◌≡◌, refl, sym, subst, Str, Bool, true, false, Option, none, some, List, ◌∷◌, inl, inr, ◌==◌,
  str_eq, not, if◌then◌else◌, Option-cases,
}
use suba_sync.Cli.State.{
  ConflictEntry, IgnoreConfig, StagedConflict, Conflicts, Run, returns, blocks, lock_conflicts,
  unlock_conflicts, and_then,
}
use suba_sync.Cli.Conflicts.{
  take_staged, remove_file, clear_staged_conflict_if_matches, take_any_staged, remove_preview,
  unstage_conflict,
}
use suba_sync.Cli.Stuck.{lock_conflicts-free}

-- The state that a result carries, if it returns, has the property.
abbrev pub Leaves : {A : Type 0} → (Conflicts → Type 0) → Run A → Type 0
Leaves P (returns a s) = P s
Leaves P blocks = Unit

-- The queue and the rules are as given, and the mutex over the queue is held or not.
pub record IsAt (cs : List ConflictEntry) (g : IgnoreConfig) (held : Bool) (s : Conflicts)
    : Type 0 where
  pub same_conflicts : s.conflicts ≡ cs
  pub same_config : s.ignore_config ≡ g
  pub conflict_lock : s.conflict_held ≡ held
  pub ignore_lock : s.ignore_held ≡ false

module _ {A B : Type 0} (P Q : Conflicts → Type 0) where
  pub and_then-Leaves :
      (r : Run A) (next : A → Conflicts → Run B)
      → Leaves P r
      → ((a : A) (s : Conflicts) → P s → Leaves Q (next a s))
      → Leaves Q (and_then r next)
  and_then-Leaves (returns a s) next h k = k a s h
  and_then-Leaves blocks next h k = tt

module _ {A : Type 0} (P : Conflicts → Type 0) where
  pub if-Leaves : (b : Bool) (x y : Run A) → Leaves P x → Leaves P y → Leaves P (if b then x else y)
  if-Leaves true x y h k = h
  if-Leaves false x y h k = k

module _ (cs : List ConflictEntry) (g : IgnoreConfig) where
  unlock_conflicts-Leaves :
      {A : Type 0} (r : Run A)
      → Leaves (IsAt cs g true) r
      → Leaves (IsAt cs g false) (unlock_conflicts r)
  unfolding unlock_conflicts
  unlock_conflicts-Leaves (returns a s) h = record {
    same_conflicts = h.same_conflicts;
    same_config = h.same_config;
    conflict_lock = refl;
    ignore_lock = h.ignore_lock;
  }
  unlock_conflicts-Leaves blocks h = tt

  pub lock_conflicts-Leaves :
      {A : Type 0} (body : Conflicts → Run A) (s : Conflicts)
      → IsAt cs g false s
      → ((t : Conflicts) → IsAt cs g true t → Leaves (IsAt cs g true) (body t))
      → Leaves (IsAt cs g false) (lock_conflicts body s)
  lock_conflicts-Leaves body s h k =
      subst (Leaves (IsAt cs g false)) (sym (lock_conflicts-free body s h.conflict_lock)) (
        unlock_conflicts-Leaves _ (
          k _ (record {
            same_conflicts = h.same_conflicts;
            same_config = h.same_config;
            conflict_lock = refl;
            ignore_lock = h.ignore_lock;
          })))

  -- A state that differs in the staged conflict or in the removed files.
  staged-IsAt :
      (held : Bool) (s : Conflicts) (staged : Option StagedConflict) (files : List Str)
      → IsAt cs g held s
      → IsAt cs g held (record s { staged_conflict = staged; removed = files })
  staged-IsAt held s staged files h = record {
    same_conflicts = h.same_conflicts;
    same_config = h.same_config;
    conflict_lock = h.conflict_lock;
    ignore_lock = h.ignore_lock;
  }

  pub remove_file-Leaves :
      (file : Option Str) (s : Conflicts)
      → IsAt cs g false s
      → Leaves (IsAt cs g false) (remove_file file s)
  unfolding remove_file
  remove_file-Leaves none s h = h
  remove_file-Leaves (some path) s h = staged-IsAt false s s.staged_conflict (path ∷ s.removed) h

  take_staged-Leaves :
      (id : Str) (remove : Bool) (s : Conflicts)
      → IsAt cs g true s
      → Leaves (IsAt cs g true) (take_staged id remove s)
  unfolding take_staged
  take_staged-Leaves id remove s h = elim (Option-cases s.staged_conflict) [
    | inl e ↦ rw (take_staged, e) h
    | inr (staged, e) ↦
        rw (take_staged, e)
          (if-Leaves (IsAt cs g true) (not (staged.conflict_id == id)) _ _ h
            (staged-IsAt true s none s.removed h))
  ]

  pub clear_staged_conflict_if_matches-Leaves :
      (id : Str) (remove : Bool) (s : Conflicts)
      → IsAt cs g false s
      → Leaves (IsAt cs g false) (clear_staged_conflict_if_matches id remove s)
  unfolding clear_staged_conflict_if_matches
  clear_staged_conflict_if_matches-Leaves id remove s h =
      and_then-Leaves (IsAt cs g false) (IsAt cs g false) (lock_conflicts (take_staged id remove) s)
        remove_file
        (lock_conflicts-Leaves (take_staged id remove) s h (take_staged-Leaves id remove))
        remove_file-Leaves

  take_any_staged-Leaves :
      (s : Conflicts) → IsAt cs g true s → Leaves (IsAt cs g true) (take_any_staged s)
  unfolding take_any_staged
  take_any_staged-Leaves s h = elim (Option-cases s.staged_conflict) [
    | inl e ↦ rw (take_any_staged, e) h
    | inr (staged, e) ↦ rw (take_any_staged, e) (staged-IsAt true s none s.removed h)
  ]

  remove_preview-Leaves :
      (file : Option Str) (s : Conflicts)
      → IsAt cs g false s
      → Leaves (IsAt cs g false) (remove_preview file s)
  unfolding remove_preview remove_file
  remove_preview-Leaves none s h = h
  remove_preview-Leaves (some path) s h = staged-IsAt false s s.staged_conflict (path ∷ s.removed) h

  pub unstage_conflict-Leaves :
      (s : Conflicts) → IsAt cs g false s → Leaves (IsAt cs g false) (unstage_conflict s)
  unfolding unstage_conflict
  unstage_conflict-Leaves s h =
      and_then-Leaves (IsAt cs g false) (IsAt cs g false) (lock_conflicts take_any_staged s)
        remove_preview (lock_conflicts-Leaves take_any_staged s h take_any_staged-Leaves)
        remove_preview-Leaves
