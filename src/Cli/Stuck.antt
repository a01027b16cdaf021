-- ===== src/Cli/Stuck.antt =====
-- What comes of the locks that are taken twice (src/MeshCLI.hpp): `save_ignore_config` locks
-- `ignore_mutex_` under `add_ignore_entry` and `remove_ignore_entry`, and
-- `clear_staged_conflict_if_matches` locks `conflict_mutex_` under `remove_conflicts_matching`.
use suba_sync.Prelude.{
  ◌≡◌, refl, sym, ap, ◌∙◌, inl, inr, Str, Bool, true, false, not, ◌||◌, List, [], ◌∷◌, arith,
  if◌then◌else◌, keep_if, Bool-cases,
}
use suba_sync.Json.{JsonApi}
use suba_sync.Cli.State.{
  ConflictEntry, IgnoreKind, Conflicts, Run, returns, blocks, lock_ignore, unlock_ignore,
  lock_conflicts, unlock_conflicts,
}
use suba_sync.Cli.Ignore.{
  classify_ignore_key, is_listed, save_ignore_config, add_classified, add_ignore_entry,
  remove_classified, remove_ignore_entry,
}
use suba_sync.Cli.Conflicts.{
  clear_staged_conflict_if_matches, clear_each, remove_locked, remove_conflicts_matching,
}

-- No mutex is held.
pub record IsFree (s : Conflicts) : Type 0 where
  pub conflict_free : s.conflict_held ≡ false
  pub ignore_free : s.ignore_held ≡ false

-- The predicate holds of one of the entries.
unfoldable pub has_match : (ConflictEntry → Bool) → List ConflictEntry → Bool
has_match p [] = false
has_match p (c ∷ cs) = p c || has_match p cs

pub ignore_released : (s : Conflicts) → s.ignore_held ≡ false → record s { ignore_held = false } ≡ s
ignore_released s h = ap (λ b. record s { ignore_held = b }) (sym h)

pub conflicts_released :
    (s : Conflicts) → s.conflict_held ≡ false → record s { conflict_held = false } ≡ s
conflicts_released s h = ap (λ b. record s { conflict_held = b }) (sym h)

module _ {A : Type 0} where
  -- A lock that is held blocks.
  pub lock_ignore-held :
      (body : Conflicts → Run A) (s : Conflicts)
      → s.ignore_held ≡ true
      → lock_ignore body s ≡ blocks
  unfolding lock_ignore
  lock_ignore-held body s h = rw (lock_ignore, h) refl

  pub lock_conflicts-held :
      (body : Conflicts → Run A) (s : Conflicts)
      → s.conflict_held ≡ true
      → lock_conflicts body s ≡ blocks
  unfolding lock_conflicts
  lock_conflicts-held body s h = rw (lock_conflicts, h) refl

  pub lock_ignore-free :
      (body : Conflicts → Run A) (s : Conflicts)
      → s.ignore_held ≡ false
      → lock_ignore body s ≡ unlock_ignore (body (record s { ignore_held = true }))
  unfolding lock_ignore
  lock_ignore-free body s h = rw (lock_ignore, h) refl

  pub lock_conflicts-free :
      (body : Conflicts → Run A) (s : Conflicts)
      → s.conflict_held ≡ false
      → lock_conflicts body s ≡ unlock_conflicts (body (record s { conflict_held = true }))
  unfolding lock_conflicts
  lock_conflicts-free body s h = rw (lock_conflicts, h) refl

  unlock_ignore-if :
      (b : Bool) (x y : Run A)
      → unlock_ignore (if b then x else y) ≡ (if b then unlock_ignore x else unlock_ignore y)
  unlock_ignore-if true x y = refl
  unlock_ignore-if false x y = refl

  unlock_conflicts-if :
      (b : Bool) (x y : Run A)
      → unlock_conflicts (if b then x else y)
        ≡ (if b then unlock_conflicts x else unlock_conflicts y)
  unlock_conflicts-if true x y = refl
  unlock_conflicts-if false x y = refl

clear_each-held :
    (p : ConflictEntry → Bool) (cs : List ConflictEntry) (s : Conflicts)
    → s.conflict_held ≡ true
    → clear_each p cs s ≡ (if has_match p cs then blocks else returns tt s)
unfolding clear_each has_match clear_staged_conflict_if_matches
clear_each-held p [] s h = refl
clear_each-held p (c ∷ cs) s h = elim (Bool-cases (p c)) [
  | inl e ↦ rw (clear_each, e, lock_conflicts-held _ s h) refl
  | inr e ↦ rw (clear_each, e) (clear_each-held p cs s h)
]

keep_if-unmatched :
    (p : ConflictEntry → Bool) (cs : List ConflictEntry)
    → has_match p cs ≡ false
    → keep_if (λ c. not (p c)) cs ≡ cs
unfolding has_match
keep_if-unmatched p [] h = refl
keep_if-unmatched p (c ∷ cs) h = ground (arith, keep_if-unmatched p cs)

remove_locked-held :
    (p : ConflictEntry → Bool) (s : Conflicts)
    → s.conflict_held ≡ true
    → remove_locked p s ≡ (if has_match p s.conflicts then blocks else returns tt s)
unfolding remove_locked
remove_locked-held p s h = elim (Bool-cases (has_match p s.conflicts)) [
  | inl e ↦ rw (remove_locked, clear_each-held p s.conflicts s h, e) refl
  | inr e ↦
      rw (remove_locked, clear_each-held p s.conflicts s h, e)
        (ap (λ cs. returns tt (record s { conflicts = cs })) (keep_if-unmatched p s.conflicts e))
]

pub remove_conflicts_matching_lem :
    (p : ConflictEntry → Bool) (s : Conflicts)
    → s.conflict_held ≡ false
    → remove_conflicts_matching p s ≡ (if has_match p s.conflicts then blocks else returns tt s)
unfolding remove_conflicts_matching
remove_conflicts_matching_lem p s h =
    lock_conflicts-free (remove_locked p) s h
    ∙ ap unlock_conflicts (remove_locked-held p (record s { conflict_held = true }) refl)
    ∙ unlock_conflicts-if (has_match p s.conflicts) blocks
        (returns tt (record s { conflict_held = true }))
    ∙ ap (λ t. if has_match p s.conflicts then blocks else returns tt t) (conflicts_released s h)

module _ (J : JsonApi) (opens : Bool) where
  save_ignore_config-held :
      (s : Conflicts) → s.ignore_held ≡ true → save_ignore_config J opens s ≡ blocks
  unfolding save_ignore_config
  save_ignore_config-held s h = rw (save_ignore_config, lock_ignore-held _ s h) refl

  add_classified-held :
      (key : IgnoreKind × Str) (s : Conflicts)
      → s.ignore_held ≡ true
      → add_classified J opens key s
        ≡ (if is_listed key s.ignore_config then returns false s else blocks)
  unfolding add_classified
  add_classified-held key s h =
      rw (add_classified, save_ignore_config-held (record s { ignore_config = _ }) h) refl

  pub add_ignore_entry_lem :
      (text : Str) (s : Conflicts)
      → s.ignore_held ≡ false
      → add_ignore_entry J opens text s
        ≡ (if is_listed (classify_ignore_key text) s.ignore_config then returns false s else blocks)
  unfolding add_ignore_entry
  add_ignore_entry_lem text s h =
      let key = classify_ignore_key text in
      lock_ignore-free (add_classified J opens key) s h
      ∙ ap unlock_ignore (add_classified-held key (record s { ignore_held = true }) refl)
      ∙ unlock_ignore-if (is_listed key s.ignore_config)
          (returns false (record s { ignore_held = true })) blocks
      ∙ ap (λ t. (if is_listed key s.ignore_config then returns false t else blocks))
          (ignore_released s h)

  remove_classified-held :
      (key : IgnoreKind × Str) (s : Conflicts)
      → s.ignore_held ≡ true
      → remove_classified J opens key s
        ≡ (if is_listed key s.ignore_config then blocks else returns false s)
  unfolding remove_classified
  remove_classified-held key s h =
      rw (remove_classified, save_ignore_config-held (record s { ignore_config = _ }) h) refl

  pub remove_ignore_entry_lem :
      (text : Str) (s : Conflicts)
      → s.ignore_held ≡ false
      → remove_ignore_entry J opens text s
        ≡ (if is_listed (classify_ignore_key text) s.ignore_config then blocks else returns false s)
  unfolding remove_ignore_entry
  remove_ignore_entry_lem text s h =
      let key = classify_ignore_key text in
      lock_ignore-free (remove_classified J opens key) s h
      ∙ ap unlock_ignore (remove_classified-held key (record s { ignore_held = true }) refl)
      ∙ unlock_ignore-if (is_listed key s.ignore_config) blocks
          (returns false (record s { ignore_held = true }))
      ∙ ap (λ t. (if is_listed key s.ignore_config then blocks else returns false t))
          (ignore_released s h)

  -- With no mutex held: adding a rule that is new, removing a rule that is there, and removing
  -- conflicts of which there are any, all wait for a mutex that they hold themselves. Otherwise they
  -- return, and nothing has changed.
  pub changes_block :
      (text : Str) (p : ConflictEntry → Bool) (s : Conflicts)
      → IsFree s
      → (add_ignore_entry J opens text s ≡ (
          if is_listed (classify_ignore_key text) s.ignore_config then returns false s else blocks))
        × (remove_ignore_entry J opens text s ≡ (
            if is_listed (classify_ignore_key text) s.ignore_config
            then blocks
            else returns false s))
        × (remove_conflicts_matching p s
            ≡ (if has_match p s.conflicts then blocks else returns tt s))
  changes_block text p s free = (
    add_ignore_entry_lem text s free.ignore_free,
    remove_ignore_entry_lem text s free.ignore_free,
    remove_conflicts_matching_lem p s free.conflict_free,
  )
