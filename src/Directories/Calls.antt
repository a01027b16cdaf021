-- ===== src/Directories/Calls.antt =====
-- Histories of registry calls.
use mathlib.Core.Option
use suba_sync.Prelude.{
  ◌≡◌, ◌≢◌, ap, if◌then◌else◌, subst, ◌∙◌, Bool-cases, Option-cases, inl, inr, Str, Option, none,
  some, [], arith, str_eq, str_beq_iff,
}
use suba_sync.Prelude.Dict.{lookup, lookup-nil, lookup-erase}
use suba_sync.Directories.{
  replace_pair, guid_or_enter, ensure_directory_guid, Directories, Draws,
  register_directory_hierarchy, register_directory_with_guid, unregister_directory_guid,
  set_directory_origin, resolve_directory_guid,
}
use suba_sync.Paths.{normalize_relative_path, is_internal_path}
use suba_sync.Directories.Ensure.{guid_or_enter_known, IsJoined, resolve-ensure_directory_guid}
use suba_sync.Directories.Pairing.{
  replace_pair-IsPaired, IsPaired, register_directory_hierarchy-IsPaired,
  register_directory_with_guid-IsPaired, unregister_directory_guid-IsPaired,
  set_directory_origin-IsPaired,
}

-- A call, or a locked part of one with other calls in front of it: `replaces` is the locked part of
-- `register_directory_with_guid` behind its parents, `enters` the last one of `ensure_directory_guid`.
pub data Call : Type 0 where
  registers : Str → Call
  registers_with : Str → Str → Call
  replaces : Str → Str → Call
  unregisters : Str → Call
  sets_origin : Str → Str → Call
  ensures : Str → Call
  enters : Str → Call

-- `none` where the generator finds no fresh GUID among the draws.
unfoldable pub step : Str → Call → Directories → Draws → Option (Directories × Draws)
unfolding replace_pair guid_or_enter ensure_directory_guid
step self (registers path) d draws = register_directory_hierarchy self path d draws
step self (registers_with path guid) d draws = register_directory_with_guid self path guid d draws
step self (replaces path guid) d draws =
    some (replace_pair (normalize_relative_path path) guid d, draws)
step self (unregisters guid) d draws = some (unregister_directory_guid guid d, draws)
step self (sets_origin guid peer) d draws = some (set_directory_origin guid peer d, draws)
step self (ensures path) d draws =
    Option.map (λ ((guid, d'), draws'). (d', draws')) (ensure_directory_guid self path d draws)
step self (enters path) d draws = some ((guid_or_enter (normalize_relative_path path) d).1, draws)

-- The root directory is not unregistered; a path that gets a GUID is normal and without a doubled
-- slash; and where other calls came in between, the path still has its GUID when it is read.
unfoldable pub IsSafe : Call → Directories → Type 0
IsSafe (registers path) d = Unit
IsSafe (registers_with path guid) d = Unit
IsSafe (replaces path guid) d = Unit
IsSafe (unregisters guid) d = lookup guid d.dir_guid_to_path ≢ some []
IsSafe (sets_origin guid peer) d = Unit
IsSafe (ensures path) d =
    let p = normalize_relative_path path in (normalize_relative_path p ≡ p) × IsJoined p
IsSafe (enters path) d = lookup (normalize_relative_path path) d.path_to_dir_guid ≢ none

-- A history, call by call, each of them safe.
pub data Runs (self : Str) : Directories → Draws → Directories → Draws → Type 0 where
  done : {d : Directories} {draws : Draws} → Runs self d draws d draws
  next :
      (c : Call) {d d₁ d₂ : Directories} {draws draws₁ draws₂ : Draws}
      → IsSafe c d
      → step self c d draws ≡ some (d₁, draws₁)
      → Runs self d₁ draws₁ d₂ draws₂
      → Runs self d draws d₂ draws₂

abbrev pub empty : Directories
empty = record { path_to_dir_guid = []; dir_guid_to_path = []; dir_guid_origin = [] }

empty-IsPaired : IsPaired empty
empty-IsPaired = record {
  forth = λ p g h. ground (arith, lookup-nil {V = Str} p);
  back = λ p g h. ground (arith, lookup-nil {V = Str} g);
}

-- Only the normal form of the path counts.
ensure_directory_guid-normal :
    (self a b : Str) (d : Directories) (draws : Draws)
    → normalize_relative_path a ≡ normalize_relative_path b
    → ensure_directory_guid self a d draws ≡ ensure_directory_guid self b d draws
unfolding ensure_directory_guid
ensure_directory_guid-normal self a b d draws e =
    ap
      (λ (p : Str).
        if is_internal_path p then some (([], d), draws) else elim (lookup p d.path_to_dir_guid) [
          | some guid ↦ some ((guid, d), draws)
          | none ↦
              Option.map (λ (d', draws'). (guid_or_enter p d', draws'))
                (register_directory_hierarchy self p d draws)
        ])
      e

ensure_directory_guid-IsPaired :
    (self path : Str) (d : Directories) (draws : Draws) {guid : Str} {d₁ : Directories}
    {draws₁ : Draws}
    → normalize_relative_path (normalize_relative_path path) ≡ normalize_relative_path path
    → IsJoined (normalize_relative_path path)
    → ensure_directory_guid self path d draws ≡ some ((guid, d₁), draws₁)
    → IsPaired d
    → IsPaired d₁
unfolding ensure_directory_guid
ensure_directory_guid-IsPaired self path d draws {guid} {d₁} {draws₁} normal joined h paired =
    let p = normalize_relative_path path in
    elim (Bool-cases (is_internal_path p)) [
      | inl hidden ↦ subst IsPaired (ground (arith, hidden, h)) paired
      | inr free ↦
          let again = ensure_directory_guid-normal self p path d draws normal in
          (resolve-ensure_directory_guid self p d draws paired normal joined free (again ∙ h)).1
    ]

step-IsPaired :
    (self : Str) (c : Call) (d : Directories) (draws : Draws) {d₁ : Directories} {draws₁ : Draws}
    → IsSafe c d
    → step self c d draws ≡ some (d₁, draws₁)
    → IsPaired d
    → IsPaired d₁
unfolding step IsSafe
step-IsPaired self (registers path) d draws safe h paired =
    register_directory_hierarchy-IsPaired self path d draws paired h
step-IsPaired self (registers_with path guid) d draws safe h paired =
    register_directory_with_guid-IsPaired self path guid d draws paired h
step-IsPaired self (replaces path guid) d draws {d₁} safe h paired =
    let same : replace_pair (normalize_relative_path path) guid d ≡ d₁ = ground arith in
    subst IsPaired same (replace_pair-IsPaired (normalize_relative_path path) guid d paired)
step-IsPaired self (unregisters guid) d draws {d₁} safe h paired =
    let same : unregister_directory_guid guid d ≡ d₁ = ground arith in
    subst IsPaired same (unregister_directory_guid-IsPaired guid d safe paired)
step-IsPaired self (sets_origin guid peer) d draws {d₁} safe h paired =
    let same : set_directory_origin guid peer d ≡ d₁ = ground arith in
    subst IsPaired same (set_directory_origin-IsPaired guid peer d paired)
step-IsPaired self (ensures path) d draws {d₁} (normal, joined) h paired =
    elim (Option-cases (ensure_directory_guid self path d draws)) [
      | inl dry ↦ absurd (cc (rw dry at h))
      | inr (((guid, d'), draws'), e) ↦
          let same : d' ≡ d₁ = ground (arith, rw e at h) in
          subst IsPaired same
            (ensure_directory_guid-IsPaired self path d draws normal joined e paired)
    ]
step-IsPaired self (enters path) d draws {d₁} safe h paired =
    elim (Option-cases (lookup (normalize_relative_path path) d.path_to_dir_guid)) [
      | inl unknown ↦ absurd (safe unknown)
      | inr (guid, known) ↦
          let read = guid_or_enter_known (normalize_relative_path path) guid d known in
          let same : d ≡ d₁ = ground (arith, read, h) in subst IsPaired same paired
    ]

Runs-IsPaired :
    {self : Str} {d d₁ : Directories} {draws draws₁ : Draws}
    → Runs self d draws d₁ draws₁
    → IsPaired d
    → IsPaired d₁
Runs-IsPaired done paired = paired
Runs-IsPaired (next c safe h rest) paired = Runs-IsPaired rest (step-IsPaired _ c _ _ safe h paired)

-- From the empty registry, the calls of the registry in any order keep the two maps inverse to one
-- another: no GUID has two directories, and no directory has two GUIDs. The calls are the locked
-- parts, so those of two threads may alternate. Three conditions stand in the history: the root
-- directory is not unregistered; a path that `ensure_directory_guid` is called with, once normalised,
-- is its own normal form and has no doubled slash; and where other calls come in between its locked
-- parts, the path has a GUID when the last of them reads it.
pub Runs-empty-IsPaired :
    {self : Str} {d : Directories} {draws draws₁ : Draws}
    → Runs self empty draws d draws₁
    → IsPaired d
Runs-empty-IsPaired r = Runs-IsPaired r empty-IsPaired

-- The exception: unregistering the GUID of the root directory leaves the root with a GUID that no
-- longer resolves, so the maps are not inverse any more.
pub unregister_root_dangles :
    (guid : Str) (d : Directories)
    → guid ≢ []
    → IsPaired d
    → lookup guid d.dir_guid_to_path ≡ some []
    → let after = unregister_directory_guid guid d in
      (lookup [] after.path_to_dir_guid ≡ some guid)
      × (resolve_directory_guid guid after ≡ none)
      × ¬ IsPaired after
unfolding unregister_directory_guid resolve_directory_guid
unregister_root_dangles guid d named paired root =
    let stays : lookup [] (unregister_directory_guid guid d).path_to_dir_guid ≡ some guid =
      ground (arith, paired.back [] guid root) in
    let gone : lookup guid (unregister_directory_guid guid d).dir_guid_to_path ≡ none =
      ground (arith, lookup-erase guid guid d.dir_guid_to_path, str_beq_iff guid guid) in
    (stays, ground arith, λ after. cc (after.forth [] guid stays, gone))
