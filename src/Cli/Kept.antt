-- ===== src/Cli/Kept.antt =====
-- The commands `conflict` and `ignore` (src/MeshCLI.hpp), where they return, change neither the queue
-- nor the rules.
use suba_sync.Prelude.{
  sym, subst, Str, codes, Bool, true, false, Option, some, List, [], ◌∷◌, inl, inr, ◌==◌, str_eq,
  if◌then◌else◌, is_empty, keep_if, Option-cases,
}
use suba_sync.Json.{JsonApi}
use suba_sync.Cli.State.{ConflictEntry, IgnoreConfig, Conflicts, Run, returns, blocks, and_then}
use suba_sync.Cli.Ignore.{classify_ignore_key, is_listed, add_ignore_entry, remove_ignore_entry}
use suba_sync.Cli.Conflicts.{
  remove_file, clear_staged_conflict_if_matches, remove_conflicts_matching, remove_conflict_by_id,
  unstage_conflict, matches, collect_conflicts_matching, force_conflict_download, accept_each,
  apply_conflict_accept, apply_conflict_ignore,
}
use suba_sync.Cli.Commands.{
  put_staged, stage_found, stage_first, stage_conflict, ignore_action, handle_ignore_command,
  keyed_action, handle_conflict_command, next_word, then_print,
}
use suba_sync.Cli.Stuck.{
  has_match, add_ignore_entry_lem, remove_ignore_entry_lem, remove_conflicts_matching_lem,
}
use suba_sync.Cli.Leaves.{
  Leaves, IsAt, and_then-Leaves, if-Leaves, lock_conflicts-Leaves, remove_file-Leaves,
  clear_staged_conflict_if_matches-Leaves, unstage_conflict-Leaves,
}

module _ (cs : List ConflictEntry) (g : IgnoreConfig) where
  unfoldable pub Keeps : {A : Type 0} → Run A → Type 0
  Keeps r = Leaves (IsAt cs g false) r

  and_then-Keeps :
      {A B : Type 0} (r : Run A) (next : A → Conflicts → Run B)
      → Keeps r
      → ((a : A) (s : Conflicts) → IsAt cs g false s → Keeps (next a s))
      → Keeps (and_then r next)
  unfolding Keeps
  and_then-Keeps r next h k = and_then-Leaves (IsAt cs g false) (IsAt cs g false) r next h k

  if-Keeps : {A : Type 0} (b : Bool) (x y : Run A) → Keeps x → Keeps y → Keeps (if b then x else y)
  unfolding Keeps
  if-Keeps b x y h k = if-Leaves (IsAt cs g false) b x y h k

  returns-Keeps : {A : Type 0} (a : A) (s : Conflicts) → IsAt cs g false s → Keeps (returns a s)
  unfolding Keeps
  returns-Keeps a s h = h

  blocks-Keeps : (A : Type 0) → Keeps {A = A} blocks
  unfolding Keeps
  blocks-Keeps A = tt

  then_print-Keeps : {A : Type 0} (r : Run A) → Keeps r → Keeps (then_print r)
  then_print-Keeps r h = and_then-Keeps r (λ a s. returns tt s) h (λ a s k. returns-Keeps tt s k)

  add_ignore_entry-Keeps :
      (J : JsonApi) (opens : Bool) (key : Str) (s : Conflicts)
      → IsAt cs g false s
      → Keeps (add_ignore_entry J opens key s)
  add_ignore_entry-Keeps J opens key s h =
      subst Keeps (sym (add_ignore_entry_lem J opens key s h.ignore_lock)) (
        if-Keeps (is_listed (classify_ignore_key key) s.ignore_config) _ _ (returns-Keeps false s h)
          (blocks-Keeps Bool))

  remove_ignore_entry-Keeps :
      (J : JsonApi) (opens : Bool) (key : Str) (s : Conflicts)
      → IsAt cs g false s
      → Keeps (remove_ignore_entry J opens key s)
  remove_ignore_entry-Keeps J opens key s h =
      subst Keeps (sym (remove_ignore_entry_lem J opens key s h.ignore_lock)) (
        if-Keeps (is_listed (classify_ignore_key key) s.ignore_config) _ _ (blocks-Keeps Bool)
          (returns-Keeps false s h))

  remove_conflicts_matching-Keeps :
      (p : ConflictEntry → Bool) (s : Conflicts)
      → IsAt cs g false s
      → Keeps (remove_conflicts_matching p s)
  remove_conflicts_matching-Keeps p s h =
      subst Keeps (sym (remove_conflicts_matching_lem p s h.conflict_lock))
        (if-Keeps (has_match p s.conflicts) _ _ (blocks-Keeps Unit) (returns-Keeps tt s h))

  force_conflict_download-Keeps :
      (downloads : ConflictEntry → Bool) (c : ConflictEntry) (s : Conflicts)
      → IsAt cs g false s
      → Keeps (force_conflict_download downloads c s)
  unfolding force_conflict_download Keeps
  force_conflict_download-Keeps downloads c s h =
      if-Keeps (downloads c) _ _
        (and_then-Keeps (clear_staged_conflict_if_matches c.id true s) (λ u. returns true)
          (clear_staged_conflict_if_matches-Leaves cs g c.id true s h)
          (λ u t k. returns-Keeps true t k))
        (returns-Keeps false s h)

  -- The rest of a round of the loop.
  accepted-Keeps :
      (downloads : ConflictEntry → Bool) (c : ConflictEntry) (rest : List ConflictEntry)
      (any : Bool) (r : Run Bool)
      → Keeps r
      → ((b : Bool) (t : Conflicts) → IsAt cs g false t → Keeps (accept_each downloads rest b t))
      → Keeps (elim r [
        | blocks ↦ blocks
        | returns false s' ↦ accept_each downloads rest any s'
        | returns true s' ↦
            and_then (remove_conflict_by_id c.id s') (λ u. accept_each downloads rest true)
      ])
  unfolding Keeps remove_conflict_by_id
  accepted-Keeps downloads c rest any blocks h k = tt
  accepted-Keeps downloads c rest any (returns false t) h k = k any t h
  accepted-Keeps downloads c rest any (returns true t) h k =
      and_then-Keeps (remove_conflicts_matching (λ e. e.id == c.id) t) _
        (remove_conflicts_matching-Keeps (λ e. e.id == c.id) t h) (λ u. k true)

  accept_each-Keeps :
      (downloads : ConflictEntry → Bool) (found : List ConflictEntry) (any : Bool) (s : Conflicts)
      → IsAt cs g false s
      → Keeps (accept_each downloads found any s)
  unfolding accept_each Keeps
  accept_each-Keeps downloads [] any s h = returns-Keeps any s h
  accept_each-Keeps downloads (c ∷ rest) any s h =
      accepted-Keeps downloads c rest any (force_conflict_download downloads c s)
        (force_conflict_download-Keeps downloads c s h)
        (λ b t k. accept_each-Keeps downloads rest b t k)

  collect_conflicts_matching-Keeps :
      (key : Str) (s : Conflicts) → IsAt cs g false s → Keeps (collect_conflicts_matching key s)
  unfolding collect_conflicts_matching Keeps
  collect_conflicts_matching-Keeps key s h =
      lock_conflicts-Leaves cs g
        (λ t. returns (keep_if (matches (classify_ignore_key key)) t.conflicts) t) s h (λ t k. k)

  put_staged-Leaves :
      (c : ConflictEntry) (path : Str) (s : Conflicts)
      → IsAt cs g true s
      → Leaves (IsAt cs g true) (put_staged c path s)
  unfolding put_staged
  put_staged-Leaves c path s h = record {
    same_conflicts = h.same_conflicts;
    same_config = h.same_config;
    conflict_lock = h.conflict_lock;
    ignore_lock = h.ignore_lock;
  }

  stage_found-Keeps :
      (c : ConflictEntry) (path : Str) (fetched : Bool) (s : Conflicts)
      → IsAt cs g false s
      → Keeps (stage_found c path fetched s)
  unfolding stage_found Keeps
  stage_found-Keeps c path fetched s h =
      and_then-Keeps (unstage_conflict s) _ (unstage_conflict-Leaves cs g s h) (λ u t k.
        if-Keeps fetched _ _
          (lock_conflicts-Leaves cs g (put_staged c path) t k (put_staged-Leaves c path))
          (and_then-Keeps (remove_file (some path) t) (λ v. returns false)
            (remove_file-Leaves cs g (some path) t k) (λ v w l. returns-Keeps false w l)))

  stage_first-Keeps :
      (stager : ConflictEntry → Option (Str × Bool)) (found : List ConflictEntry) (s : Conflicts)
      → IsAt cs g false s
      → Keeps (stage_first stager found s)
  unfolding stage_first
  stage_first-Keeps stager [] s h = returns-Keeps false s h
  stage_first-Keeps stager (c ∷ rest) s h = elim (Option-cases (stager c)) [
    | inl e ↦ rw (stage_first, e) (returns-Keeps false s h)
    | inr ((path, fetched), e) ↦ rw (stage_first, e) (stage_found-Keeps c path fetched s h)
  ]

  pub apply_conflict_accept-Keeps :
      (downloads : ConflictEntry → Bool) (key : Str) (s : Conflicts)
      → IsAt cs g false s
      → Keeps (apply_conflict_accept downloads key s)
  unfolding apply_conflict_accept
  apply_conflict_accept-Keeps downloads key s h =
      and_then-Keeps (collect_conflicts_matching key s) _ (collect_conflicts_matching-Keeps key s h)
        (λ found t k. accept_each-Keeps downloads found false t k)

  pub apply_conflict_ignore-Keeps :
      (J : JsonApi) (opens : Bool) (key : Str) (s : Conflicts)
      → IsAt cs g false s
      → Keeps (apply_conflict_ignore J opens key s)
  unfolding apply_conflict_ignore
  apply_conflict_ignore-Keeps J opens key s h =
      and_then-Keeps (add_ignore_entry J opens key s) _ (add_ignore_entry-Keeps J opens key s h)
        (λ added t k.
          and_then-Keeps (remove_conflicts_matching (matches (classify_ignore_key key)) t) _
            (remove_conflicts_matching-Keeps _ t k) (λ u v l. returns-Keeps true v l))

  pub stage_conflict-Keeps :
      (stager : ConflictEntry → Option (Str × Bool)) (key : Str) (s : Conflicts)
      → IsAt cs g false s
      → Keeps (stage_conflict stager key s)
  unfolding stage_conflict
  stage_conflict-Keeps stager key s h =
      and_then-Keeps (collect_conflicts_matching key s) _ (collect_conflicts_matching-Keeps key s h)
        (λ found t k. stage_first-Keeps stager found t k)

  pub handle_ignore_command-Keeps :
      (J : JsonApi) (opens : Bool) (args : Str) (s : Conflicts)
      → IsAt cs g false s
      → Keeps (handle_ignore_command J opens args s)
  unfolding handle_ignore_command ignore_action
  handle_ignore_command-Keeps J opens args s h =
      let action = (next_word args).0 in
      let key = (next_word (next_word args).1).0 in
      let done = returns-Keeps tt s h in
      if-Keeps (is_empty key) _ _ done (
        if-Keeps (action == codes "add") _ _
          (then_print-Keeps _ (add_ignore_entry-Keeps J opens key s h))
          (if-Keeps (action == codes "remove") _ _
            (then_print-Keeps _ (remove_ignore_entry-Keeps J opens key s h)) done))

  pub handle_conflict_command-Keeps :
      (J : JsonApi) (opens : Bool) (downloads : ConflictEntry → Bool)
      (stager : ConflictEntry → Option (Str × Bool)) (args : Str) (s : Conflicts)
      → IsAt cs g false s
      → Keeps (handle_conflict_command J opens downloads stager args s)
  unfolding handle_conflict_command keyed_action Keeps
  handle_conflict_command-Keeps J opens downloads stager args s h =
      let action = (next_word args).0 in
      let key = (next_word (next_word args).1).0 in
      let done = returns-Keeps tt s h in
      if-Keeps (action == codes "unstage") _ _
        (then_print-Keeps _ (unstage_conflict-Leaves cs g s h))
        (if-Keeps (is_empty key) _ _ done (
          if-Keeps (action == codes "accept") _ _
            (then_print-Keeps _ (apply_conflict_accept-Keeps downloads key s h))
            (if-Keeps (action == codes "stage") _ _
              (then_print-Keeps _ (stage_conflict-Keeps stager key s h))
              (if-Keeps (action == codes "ignore") _ _
                (then_print-Keeps _ (apply_conflict_ignore-Keeps J opens key s h)) done))))
