-- ===== src/Cli/Reports.antt =====
-- What reporting a conflict does to the queue (src/MeshCLI.hpp).
use suba_sync.Prelude.{
  ◌≡◌, refl, ap, ◌∙◌, subst, Str, Bool, true, false, not, ◌&&◌, ◌||◌, List, [], ◌∷◌, ◌++◌, arith,
  ◌==◌, str_eq, str_beq_iff, if◌then◌else◌,
}
use suba_sync.Cli.State.{
  ConflictEntry, Conflicts, returns, lock_conflicts, unlock_conflicts, and_then,
}
use suba_sync.Cli.Ignore.{ignores, is_conflict_ignored}
use suba_sync.Cli.Conflicts.{is_queued, enqueue, add_conflict}
use suba_sync.Cli.Stuck.{
  IsFree, ignore_released, conflicts_released, lock_ignore-free, lock_conflicts-free,
}

is_queued-append :
    (path hash : Str) (cs : List ConflictEntry) (e : ConflictEntry)
    → is_queued path hash (cs ++ e ∷ [])
      ≡ (is_queued path hash cs || e.relative_path == path && e.hash == hash)
unfolding is_queued
is_queued-append path hash [] e = ground arith
is_queued-append path hash (c ∷ cs) e = ground (arith, is_queued-append path hash cs e)

-- What is queued once the entry has been reported.
unfoldable pub after : ConflictEntry → Conflicts → List ConflictEntry
after e s =
    if ignores s.ignore_config e.relative_path e.hash e.dir_guid
    then s.conflicts
    else if is_queued e.relative_path e.hash s.conflicts
    then s.conflicts
    else s.conflicts ++ e ∷ []

is_queued-same :
    (path hash : Str) (cs : List ConflictEntry) (e : ConflictEntry)
    → is_queued e.relative_path e.hash cs ≡ true
    → (e.relative_path == path && e.hash == hash) ≡ true
    → is_queued path hash cs ≡ true
is_queued-same path hash cs e queued same =
    let p : e.relative_path ≡ path = (str_beq_iff e.relative_path path).0 (ground (arith, same)) in
    let h : e.hash ≡ hash = (str_beq_iff e.hash hash).0 (ground (arith, same)) in
    subst (λ x. is_queued path x cs ≡ true) h (subst (λ x. is_queued x e.hash cs ≡ true) p queued)

pub is_queued-after :
    (path hash : Str) (e : ConflictEntry) (s : Conflicts)
    → is_queued path hash (after e s) ≡ (
        is_queued path hash s.conflicts
        || not (ignores s.ignore_config e.relative_path e.hash e.dir_guid)
          && (e.relative_path == path && e.hash == hash))
unfolding after
is_queued-after path hash e s =
    ground (arith, is_queued-append path hash s.conflicts e, is_queued-same path hash s.conflicts e)

is_conflict_ignored_lem :
    (path hash guid : Str) (s : Conflicts)
    → s.ignore_held ≡ false
    → is_conflict_ignored path hash guid s ≡ returns (ignores s.ignore_config path hash guid) s
unfolding is_conflict_ignored
is_conflict_ignored_lem path hash guid s h =
    lock_ignore-free (λ t. returns (ignores t.ignore_config path hash guid) t) s h
    ∙ ap (returns (ignores s.ignore_config path hash guid)) (ignore_released s h)

-- A test moves from the results into the state.
returns-if :
    (b : Bool) (s : Conflicts) (cs : List ConflictEntry)
    → (if b then returns tt s else returns tt (record s { conflicts = cs }))
      ≡ returns tt (record s { conflicts = if b then s.conflicts else cs })
returns-if true s cs = refl
returns-if false s cs = refl

enqueue_lem :
    (e : ConflictEntry) (s : Conflicts)
    → s.conflict_held ≡ false
    → lock_conflicts (enqueue e) s
      ≡ returns tt (record s {
        conflicts =
            if is_queued e.relative_path e.hash s.conflicts
            then s.conflicts
            else s.conflicts ++ e ∷ [];
      })
unfolding enqueue unlock_conflicts
enqueue_lem e s h =
    lock_conflicts-free (enqueue e) s h
    ∙ ap unlock_conflicts (
        returns-if (is_queued e.relative_path e.hash s.conflicts)
          (record s { conflict_held = true }) (s.conflicts ++ e ∷ []))
    ∙ ap
        (λ (t : Conflicts). returns tt (record t {
          conflicts =
              if is_queued e.relative_path e.hash s.conflicts
              then s.conflicts
              else s.conflicts ++ e ∷ [];
        }))
        (conflicts_released s h)

pub add_conflict_lem :
    (e : ConflictEntry) (s : Conflicts)
    → IsFree s
    → add_conflict e s ≡ returns tt (record s { conflicts = after e s })
unfolding add_conflict after
add_conflict_lem e s free =
    let ignored = ignores s.ignore_config e.relative_path e.hash e.dir_guid in
    ap (λ r. and_then r (λ i t. if i then returns tt t else lock_conflicts (enqueue e) t))
      (is_conflict_ignored_lem e.relative_path e.hash e.dir_guid s free.ignore_free)
    ∙ ap (λ r. if ignored then returns tt s else r) (enqueue_lem e s free.conflict_free)
    ∙ returns-if ignored s _
