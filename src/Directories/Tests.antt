-- ===== src/Directories/Tests.antt =====
-- Runs of the registry, and its theorems at concrete registries.
use suba_sync.Prelude.{
  ℕ, ◌≡◌, ◌≢◌, ◌≤◌, ◌<◌, ◌^◌, ap, refl, Str, codes, Option, none, some, List, [], ◌∷◌, arith,
  str_beq, str_eq, length,
}
use suba_sync.Prelude.Dict.{lookup, insert}
use suba_sync.Text.{is_space}
use suba_sync.Paths.{normalize_relative_path, is_internal_path, elements, append_path}
use suba_sync.Hex.{generate_directory_guid}
use suba_sync.Hex.Laws.{generate_directory_guid_injective}
use suba_sync.Directories.{
  Directories, Draws, register_directory_hierarchy, hierarchy_dirs, ensure_directory_guid,
  resolve_directory_guid, unregister_directory_guid,
}
use suba_sync.Directories.Pairing.{IsPaired}
use suba_sync.Directories.Calls.{
  IsSafe, Runs, done, next, registers, ensures, empty, step, Runs-empty-IsPaired,
  unregister_root_dangles,
}
use suba_sync.Directories.Ensure.{resolve-ensure_directory_guid}
use suba_sync.Directories.Supply.{register_directory_hierarchy_total}

abbrev me : Str
me = codes "peer-a"

abbrev draws : Draws
draws = (1, 1) ∷ (2, 2) ∷ (3, 3) ∷ []

abbrev registry_of : Option (Directories × Draws) → Directories
registry_of none = empty
registry_of (some (d, rest)) = d

abbrev rest_of : Option (Directories × Draws) → Draws
rest_of none = []
rest_of (some (d, rest)) = rest

abbrev first_call : Option (Directories × Draws)
unfolding step register_directory_hierarchy normalize_relative_path is_internal_path elements
    append_path is_space insert lookup str_beq generate_directory_guid
first_call = step me (registers []) empty draws

-- After the constructor: the root has the first GUID.
with_root : Directories
unfolding first_call
with_root = registry_of first_call

abbrev root_guid : Str
unfolding generate_directory_guid
root_guid = generate_directory_guid (1, 1)

root_guid_text : generate_directory_guid (1, 1) ≡ codes "dir-00000000000000010000000000000001"
unfolding generate_directory_guid
root_guid_text = refl

constructor_run : Runs me empty draws with_root ((2, 2) ∷ (3, 3) ∷ [])
unfolding with_root IsSafe
constructor_run =
    next (registers []) {d = empty} {d₁ = with_root} {draws = draws} {draws₁ = (2, 2) ∷ (3, 3) ∷ []}
      tt refl done

constructor_run-IsPaired : IsPaired with_root
constructor_run-IsPaired = Runs-empty-IsPaired constructor_run

unregister_root_dangles_example :
    let after = unregister_directory_guid (generate_directory_guid (1, 1)) with_root in
    (lookup [] after.path_to_dir_guid ≡ some (generate_directory_guid (1, 1)))
    × (resolve_directory_guid (generate_directory_guid (1, 1)) after ≡ none)
    × ¬ IsPaired after
unfolding with_root
unregister_root_dangles_example =
    unregister_root_dangles (generate_directory_guid (1, 1)) with_root (λ e. cc e)
      constructor_run-IsPaired refl

abbrev docs : Str
docs = codes "docs/a"

abbrev ensured : Option ((Str × Directories) × Draws)
unfolding with_root ensure_directory_guid
ensured = ensure_directory_guid me docs with_root ((2, 2) ∷ (3, 3) ∷ [])

abbrev guid_of : Option ((Str × Directories) × Draws) → Str
guid_of none = []
guid_of (some ((g, d), rest)) = g

abbrev state_of : Option ((Str × Directories) × Draws) → Directories
state_of none = empty
state_of (some ((g, d), rest)) = d

docs_guid : Str
unfolding ensured
docs_guid = guid_of ensured

docs_registry : Directories
unfolding ensured
docs_registry = state_of ensured

resolve-ensure_directory_guid_example :
    (resolve_directory_guid docs_guid docs_registry ≡ some docs)
    × IsPaired docs_registry
    × ((q k : Str)
        → lookup q with_root.path_to_dir_guid ≡ some k
        → lookup q docs_registry.path_to_dir_guid ≡ some k)
unfolding docs_guid docs_registry
resolve-ensure_directory_guid_example =
    resolve-ensure_directory_guid me docs with_root ((2, 2) ∷ (3, 3) ∷ []) {g = docs_guid}
      {d' = docs_registry} {rest = []} constructor_run-IsPaired refl refl refl refl

-- The constructor's call, then a GUID for `docs/a`.
ensured_run : Runs me empty draws docs_registry []
unfolding with_root docs_registry IsSafe
ensured_run =
    next (registers []) {d = empty} {d₁ = with_root} {draws = draws} {draws₁ = (2, 2) ∷ (3, 3) ∷ []}
      tt refl
      (next (ensures docs) {d = with_root} {d₁ = docs_registry} {draws = (2, 2) ∷ (3, 3) ∷ []}
        {draws₁ = []} (refl, refl) refl done)

Runs-empty-IsPaired_example : IsPaired docs_registry
Runs-empty-IsPaired_example = Runs-empty-IsPaired ensured_run

guids_differ :
    (m n : ℕ)
    → m < 2 ^ 64
    → n < 2 ^ 64
    → m ≢ n
    → generate_directory_guid (m, m) ≢ generate_directory_guid (n, n)
guids_differ m n hm hn differ e = differ (generate_directory_guid_injective m m n n hm hm hn hn e).0

abbrev length_of : Option (List Str) → ℕ
length_of none = 0
length_of (some dirs) = length dirs

hierarchy_dirs_le : (dirs : List Str) → hierarchy_dirs docs ≡ some dirs → length dirs ≤ 3
unfolding first_call
hierarchy_dirs_le dirs e = omega (arith, ap length_of e)

register_directory_hierarchy_total_example :
    (r : Directories × Draws) × (register_directory_hierarchy me docs empty draws ≡ some r)
unfolding lookup
register_directory_hierarchy_total_example =
    register_directory_hierarchy_total me docs empty draws
      (
        refl,
        (
          guids_differ 2 1 (omega arith) (omega arith) (omega arith),
          (guids_differ 3 1 (omega arith) (omega arith) (omega arith), tt),
        ),
        (refl, (guids_differ 3 2 (omega arith) (omega arith) (omega arith), tt), (refl, tt, tt)),
      )
      hierarchy_dirs_le
