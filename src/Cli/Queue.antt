-- ===== src/Cli/Queue.antt =====
-- The queue of conflicts (src/MeshCLI.hpp) against a description of it as a set that only grows.
use suba_sync.Prelude.{
  ◌≡◌, refl, sym, ap, ◌∙◌, subst, Str, Bool, false, not, ◌&&◌, ◌||◌, List, [], ◌∷◌, map, Option,
  arith, ◌==◌, str_eq,
}
use suba_sync.Json.{JsonApi}
use suba_sync.Cli.State.{ConflictEntry, IgnoreConfig, Conflicts, Run, returns, blocks, and_then}
use suba_sync.Cli.Ignore.{ignores}
use suba_sync.Cli.Conflicts.{is_queued}
use suba_sync.Cli.Commands.{
  Event, report, ignore_command, conflict_command, step, run, handle_ignore_command,
  handle_conflict_command,
}
use suba_sync.Cli.Stuck.{IsFree}
use suba_sync.Cli.Leaves.{Leaves, IsAt, and_then-Leaves}
use suba_sync.Cli.Kept.{Keeps, handle_ignore_command-Keeps, handle_conflict_command-Keeps}
use suba_sync.Cli.Reports.{after, is_queued-after, add_conflict_lem}

-- The abstract view: a conflict of the path and the hash is reported, and no rule ignores it.
abbrev pub is_reported : Str → Str → IgnoreConfig → List Event → Bool
is_reported path hash g [] = false
is_reported path hash g (report e ∷ es) =
    not (ignores g e.relative_path e.hash e.dir_guid) && (e.relative_path == path && e.hash == hash)
    || is_reported path hash g es
is_reported path hash g (ignore_command args ∷ es) = is_reported path hash g es
is_reported path hash g (conflict_command args ∷ es) = is_reported path hash g es

-- The state implements a set, given by its test.
pub record Implements (g : IgnoreConfig) (queued : Str → Str → Bool) (s : Conflicts) : Type 0 where
  pub is_free : IsFree s
  pub same_rules : s.ignore_config ≡ g
  pub same_queue : (path hash : Str) → is_queued path hash s.conflicts ≡ queued path hash

Implements-same :
    (g : IgnoreConfig) (q r : Str → Str → Bool) (s : Conflicts)
    → ((path hash : Str) → q path hash ≡ r path hash)
    → Implements g q s
    → Implements g r s
Implements-same g q r s e h = record {
  is_free = h.is_free;
  same_rules = h.same_rules;
  same_queue = λ path hash. h.same_queue path hash ∙ e path hash;
}

Leaves-weaken :
    {A : Type 0} (P Q : Conflicts → Type 0) (r : Run A)
    → Leaves P r
    → ((s : Conflicts) → P s → Q s)
    → Leaves Q r
Leaves-weaken P Q (returns a s) h k = k s h
Leaves-weaken P Q blocks h k = tt

-- The abstract view of a history, from a set that is given.
abbrev pub queued_after : (Str → Str → Bool) → IgnoreConfig → List Event → Str → Str → Bool
queued_after queued g es path hash = queued path hash || is_reported path hash g es

IsAt-Implements :
    (g : IgnoreConfig) (queued : Str → Str → Bool) (s t : Conflicts)
    → Implements g queued s
    → IsAt s.conflicts g false t
    → Implements g (λ path hash. queued path hash || false) t
IsAt-Implements g queued s t h k = record {
  is_free = record { conflict_free = k.conflict_lock; ignore_free = k.ignore_lock };
  same_rules = k.same_config;
  same_queue = λ path hash.
      ap (is_queued path hash) k.same_conflicts ∙ h.same_queue path hash ∙ ground arith;
}

Implements-IsAt :
    (g : IgnoreConfig) (queued : Str → Str → Bool) (s : Conflicts)
    → Implements g queued s
    → IsAt s.conflicts g false s
Implements-IsAt g queued s h = record {
  same_conflicts = refl;
  same_config = h.same_rules;
  conflict_lock = h.is_free.conflict_free;
  ignore_lock = h.is_free.ignore_free;
}

report-Implements :
    (g : IgnoreConfig) (queued : Str → Str → Bool) (e : ConflictEntry) (s : Conflicts)
    → Implements g queued s
    → Implements g (queued_after queued g (report e ∷ [])) (record s { conflicts = after e s })
report-Implements g queued e s h = record {
  is_free = record { conflict_free = h.is_free.conflict_free; ignore_free = h.is_free.ignore_free };
  same_rules = h.same_rules;
  same_queue = λ path hash.
      is_queued-after path hash e s
      ∙ ap
          (λ c.
            is_queued path hash s.conflicts
            || not (ignores c e.relative_path e.hash e.dir_guid)
              && (e.relative_path == path && e.hash == hash))
          h.same_rules
      ∙ ground (arith, h.same_queue path hash);
}

module _ (J : JsonApi) (opens : Bool) (downloads : ConflictEntry → Bool)
    (stager : ConflictEntry → Option (Str × Bool)) where
  step-Implements :
      (g : IgnoreConfig) (queued : Str → Str → Bool) (e : Event) (s : Conflicts)
      → Implements g queued s
      → Leaves (Implements g (queued_after queued g (e ∷ []))) (step J opens downloads stager e s)
  unfolding step Keeps
  step-Implements g queued (report e) s h =
      subst (Leaves (Implements g (queued_after queued g (report e ∷ []))))
        (sym (add_conflict_lem e s h.is_free)) (report-Implements g queued e s h)
  step-Implements g queued (ignore_command args) s h =
      Leaves-weaken (IsAt s.conflicts g false) _ (handle_ignore_command J opens args s)
        (handle_ignore_command-Keeps s.conflicts g J opens args s (Implements-IsAt g queued s h))
        (λ t k. IsAt-Implements g queued s t h k)
  step-Implements g queued (conflict_command args) s h =
      Leaves-weaken (IsAt s.conflicts g false) _
        (handle_conflict_command J opens downloads stager args s)
        (handle_conflict_command-Keeps s.conflicts g J opens downloads stager args s
          (Implements-IsAt g queued s h))
        (λ t k. IsAt-Implements g queued s t h k)

  is_reported-first :
      (path hash : Str) (g : IgnoreConfig) (e : Event) (es : List Event)
      → is_reported path hash g (e ∷ es)
        ≡ (is_reported path hash g (e ∷ []) || is_reported path hash g es)
  is_reported-first path hash g (report e) es = ground arith
  is_reported-first path hash g (ignore_command args) es = refl
  is_reported-first path hash g (conflict_command args) es = refl

  run-Implements :
      (es : List Event) (g : IgnoreConfig) (queued : Str → Str → Bool) (s : Conflicts)
      → Implements g queued s
      → Leaves (Implements g (queued_after queued g es)) (run J opens downloads stager es s)
  unfolding run
  run-Implements [] g queued s h = Implements-same g queued _ s (λ path hash. ground arith) h
  run-Implements (e ∷ es) g queued s h =
      and_then-Leaves (Implements g (queued_after queued g (e ∷ []))) _
        (step J opens downloads stager e s) (λ u. run J opens downloads stager es)
        (step-Implements g queued e s h)
        (λ u t k.
          Leaves-weaken _ _ (run J opens downloads stager es t)
            (run-Implements es g (queued_after queued g (e ∷ [])) t k)
            (λ v.
              Implements-same g _ _ v
                (λ path hash. ground (arith, is_reported-first path hash g e es))))

  run-reports :
      (es : List ConflictEntry) (s : Conflicts)
      → IsFree s
      → (t : Conflicts) × (run J opens downloads stager (map report es) s ≡ returns tt t)
  unfolding run step
  run-reports [] s h = (s, refl)
  run-reports (e ∷ es) s h =
      let (t, k) =
        run-reports es (record s { conflicts = after e s })
          (record { conflict_free = h.conflict_free; ignore_free = h.ignore_free }) in
      (
        t,
        ap (λ r. and_then r (λ u. run J opens downloads stager (map report es)))
              (add_conflict_lem e s h)
            ∙ k,
      )

  -- With no mutex held, and whatever is reported and entered: if the history ends, and does not wait
  -- for a mutex for ever, then exactly the conflicts are queued that were queued before, or that were
  -- reported and are not ignored, and the ignore rules are those of the start. So the queue
  -- implements a set that only grows: no command takes anything out of it. A history of reports
  -- alone does end.
  pub run_queue :
      (es : List Event) (reports : List ConflictEntry) (s : Conflicts)
      → IsFree s
      → Leaves
          (Implements s.ignore_config
            (queued_after (λ path hash. is_queued path hash s.conflicts) s.ignore_config es))
          (run J opens downloads stager es s)
        × (t : Conflicts) × (run J opens downloads stager (map report reports) s ≡ returns tt t)
  run_queue es reports s h =
      let (t, ends) = run-reports reports s h in
      (
        run-Implements es s.ignore_config (λ path hash. is_queued path hash s.conflicts) s
            (record { is_free = h; same_rules = refl; same_queue = λ path hash. refl }),
        t,
        ends,
      )
