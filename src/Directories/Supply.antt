-- ===== src/Directories/Supply.antt =====
-- Registration ends: the search for a fresh GUID succeeds while the generator does not repeat itself.
use suba_sync.Prelude.{
  ℕ, ◌≡◌, ◌≢◌, ◌≤◌, refl, Str, ◌||◌, none, some, List, [], ◌∷◌, arith, str_eq, str_beq_iff,
  Option-cases, Bool-cases, inl, inr, length,
}
use suba_sync.Prelude.Dict.{Dict, lookup, insert, has, lookup-insert}
use suba_sync.Hex.{generate_directory_guid}
use suba_sync.Paths.{is_internal_path}
use suba_sync.Directories.{
  Directories, Draws, fresh_guid, assign, add_dirs, hierarchy_dirs, register_directory_hierarchy,
}

-- No draw of the list gives the GUID.
abbrev pub Differs : Str → Draws → Type 0
Differs g [] = Unit
Differs g (d ∷ draws) = (generate_directory_guid d ≢ g) × Differs g draws

-- The draws give GUIDs that are new and differ from one another.
abbrev pub AreFresh : Dict Str Str → Draws → Type 0
AreFresh taken [] = Unit
AreFresh taken (d ∷ draws) =
    (lookup (generate_directory_guid d) taken ≡ none)
    × Differs (generate_directory_guid d) draws
    × AreFresh taken draws

AreFresh-insert :
    (taken : Dict Str Str) (g p : Str) (draws : Draws)
    → Differs g draws
    → AreFresh taken draws
    → AreFresh (insert g p taken) draws
AreFresh-insert taken g p [] differs fresh = tt
AreFresh-insert taken g p (d ∷ draws) differs fresh = (
  ground (
    arith,
    lookup-insert g (generate_directory_guid d) p taken,
    str_beq_iff g (generate_directory_guid d),
  ),
  fresh.1,
  AreFresh-insert taken g p draws differs.1 fresh.2,
)

fresh_guid-first :
    (taken : Dict Str Str) (d : ℕ × ℕ) (draws : Draws)
    → lookup (generate_directory_guid d) taken ≡ none
    → fresh_guid taken (d ∷ draws) ≡ some (generate_directory_guid d, draws)
unfolding fresh_guid
fresh_guid-first taken d draws new = ground arith

add_dirs_total :
    (self : Str) (dirs : List Str) (d : Directories) (draws : Draws)
    → AreFresh d.dir_guid_to_path draws
    → length dirs ≤ length draws
    → (r : Directories × Draws) × (add_dirs self dirs d draws ≡ some r)
unfolding add_dirs assign
add_dirs_total self [] d draws fresh enough = ((d, draws), refl)
add_dirs_total self (dir ∷ dirs) d [] fresh enough = absurd (omega arith)
add_dirs_total self (dir ∷ dirs) d (draw ∷ draws) fresh enough =
    elim (Bool-cases (is_internal_path dir || has dir d.path_to_dir_guid)) [
      | inl skip ↦
          let (r, e) = add_dirs_total self dirs d (draw ∷ draws) fresh (omega arith) in
          (r, rw (skip, add_dirs) e)
      | inr add ↦
          let g = generate_directory_guid draw in
          let (r, e) =
            add_dirs_total self dirs (assign self dir g d) draws
              (AreFresh-insert d.dir_guid_to_path g dir draws fresh.1 fresh.2) (omega arith) in
          (r, rw (add, fresh_guid-first d.dir_guid_to_path draw draws fresh.0, add_dirs) e)
    ]

-- The `do … while` loops of a registration end: with fresh and distinct GUIDs, at least as many as
-- the path has directories (the root counted), registering it returns.
pub register_directory_hierarchy_total :
    (self path : Str) (d : Directories) (draws : Draws)
    → AreFresh d.dir_guid_to_path draws
    → ((dirs : List Str) → hierarchy_dirs path ≡ some dirs → length dirs ≤ length draws)
    → (r : Directories × Draws) × (register_directory_hierarchy self path d draws ≡ some r)
unfolding register_directory_hierarchy
register_directory_hierarchy_total self path d draws fresh enough =
    elim (Option-cases (hierarchy_dirs path)) [
      | inl early ↦ ((d, draws), rw (early, register_directory_hierarchy) refl)
      | inr (dirs, e) ↦
          let (r, added) = add_dirs_total self dirs d draws fresh (enough dirs e) in
          (r, rw (e, register_directory_hierarchy) added)
    ]
