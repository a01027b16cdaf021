-- ===== src/Directories/Ensure.antt =====
-- `ensure_directory_guid` gives a path a GUID that resolves back to the path.
use mathlib.Core.List.{foldl, append_assoc}
use suba_sync.Prelude.{
  ℕ, ◌≡◌, ◌≢◌, refl, sym, ap, subst, ◌∙◌, Str, codes, true, false, ◌||◌, none, some, List, [], ◌∷◌,
  ◌++◌, arith, ◌==◌, str_eq, str_beq_iff, contains, Option-cases, Bool-cases, inl, inr,
}
use suba_sync.Prelude.Dict.{lookup, has, lookup-insert}
use suba_sync.Text.{back?}
use suba_sync.Paths.Guard.{Within, is_internal_path_iff}
use suba_sync.Paths.{
  slash, is_slash, normalize_relative_path, is_internal_path, elements, append_path,
}
use suba_sync.Directories.{
  Directories, Draws, fresh_guid, assign, add_dirs, collect_dirs, hierarchy_dirs,
  register_directory_hierarchy, ensure_directory_guid, guid_or_enter, resolve_directory_guid,
}
use suba_sync.Directories.Pairing.{IsPaired, add_dirs-IsPaired}

-- The path is the join of its elements: it has no doubled slash.
abbrev pub IsJoined : Str → Type 0
IsJoined path = foldl append_path [] (elements path) ≡ path

-- Assigned paths keep their GUID, and every directory of the list has one.
add_dirs-keeps :
    (self : Str) (dirs : List Str) (d : Directories) (draws : Draws) {d' : Directories}
    {rest : Draws} (p g : Str)
    → lookup p d.path_to_dir_guid ≡ some g
    → add_dirs self dirs d draws ≡ some (d', rest)
    → lookup p d'.path_to_dir_guid ≡ some g
unfolding add_dirs
add_dirs-keeps self [] d draws p g known h = ground arith
add_dirs-keeps self (dir ∷ dirs) d draws p g known h =
    elim (Bool-cases (is_internal_path dir || has dir d.path_to_dir_guid)) [
      | inl skip ↦ add_dirs-keeps self dirs d draws p g known (rw (skip, add_dirs) at h)
      | inr add ↦ elim (Option-cases (fresh_guid d.dir_guid_to_path draws)) [
        | inl dry ↦ absurd (cc (rw (add, dry, add_dirs) at h))
        | inr ((guid, draws'), e) ↦
            add_dirs-keeps self dirs (assign self dir guid d) draws' p g
              (ground (arith, lookup-insert dir p guid d.path_to_dir_guid, str_beq_iff dir p))
              (rw (add, e, add_dirs) at h)
      ]
    ]

-- Every listed directory that passes the guard has a GUID afterwards.
add_dirs-assigns :
    (self : Str) (dirs : List Str) (d : Directories) (draws : Draws) {d' : Directories}
    {rest : Draws} (p : Str)
    → contains dirs p ≡ true
    → is_internal_path p ≡ false
    → add_dirs self dirs d draws ≡ some (d', rest)
    → (g : Str) × (lookup p d'.path_to_dir_guid ≡ some g)
unfolding add_dirs contains
add_dirs-assigns self [] d draws p listed allowed h = cc
add_dirs-assigns self (dir ∷ dirs) d draws p listed allowed h =
    elim (Bool-cases (is_internal_path dir || has dir d.path_to_dir_guid)) [
      | inl skip ↦ elim (Bool-cases (dir == p)) [
        | inl here ↦ elim (Option-cases (lookup p d.path_to_dir_guid)) [
          | inl none_known ↦ absurd (ground (arith, str_beq_iff dir p))
          | inr (g, known) ↦
              (g, add_dirs-keeps self dirs d draws p g known (rw (skip, add_dirs) at h))
        ]
        | inr later ↦
            add_dirs-assigns self dirs d draws p (ground arith) allowed (rw (skip, add_dirs) at h)
      ]
      | inr add ↦ elim (Option-cases (fresh_guid d.dir_guid_to_path draws)) [
        | inl dry ↦ absurd (cc (rw (add, dry, add_dirs) at h))
        | inr ((guid, draws'), e) ↦ elim (Bool-cases (dir == p)) [
          | inl here ↦ (
            guid,
            add_dirs-keeps self dirs (assign self dir guid d) draws' p guid
                (ground (arith, lookup-insert dir p guid d.path_to_dir_guid, here))
                (rw (add, e, add_dirs) at h),
          )
          | inr later ↦
              add_dirs-assigns self dirs (assign self dir guid d) draws' p (ground arith) allowed
                (rw (add, e, add_dirs) at h)
        ]
      ]
    ]

-- A directory below a reserved one is reserved.
back?-ne-none : (xs : Str) (y : ℕ) (ys : Str) → back? (xs ++ y ∷ ys) ≢ none
unfolding back?
back?-ne-none [] y [] h = cc
back?-ne-none [] y (z ∷ zs) h = back?-ne-none [] z zs h
back?-ne-none (x ∷ []) y ys h = back?-ne-none [] y ys h
back?-ne-none (x ∷ x' ∷ xs) y ys h = back?-ne-none (x' ∷ xs) y ys h

append_path-Within :
    (dir acc e : Str) {c : ℕ}
    → back? dir ≡ some c
    → is_slash c ≡ false
    → Within dir acc
    → Within dir (append_path acc e)
unfolding append_path
append_path-Within dir acc e last plain (inl same) =
    let below : append_path dir e ≡ dir ++ slash ∷ e = ground arith in
    inr (e, ap (λ a. append_path a e) same ∙ below)
append_path-Within dir acc e last plain (inr (rest, same)) = elim (Option-cases (back? acc)) [
  | inl nothing ↦ absurd (back?-ne-none dir slash rest (ap back? (sym same) ∙ nothing))
  | inr (c', ending) ↦ elim (Bool-cases (is_slash c')) [
    | inl on_slash ↦
        inr
          (rest ++ e, rw (ending, append_path, on_slash, same) (append_assoc dir (slash ∷ rest) e))
    | inr off_slash ↦ inr (
      rest ++ slash ∷ e,
      rw (ending, append_path, off_slash, same) (append_assoc dir (slash ∷ rest) (slash ∷ e)),
    )
  ]
]

append_path-internal :
    (acc e : Str) → is_internal_path acc ≡ true → is_internal_path (append_path acc e) ≡ true
unfolding back?
append_path-internal acc e h =
    (is_internal_path_iff (append_path acc e)).1 (elim ((is_internal_path_iff acc).0 h) [
      | inl w ↦ inl (append_path-Within (codes ".sync_tmp") acc e refl refl w)
      | inr (inl w) ↦ inr (inl (append_path-Within (codes ".archive") acc e refl refl w))
      | inr (inr (inl w)) ↦ inr (inr (inl (append_path-Within (codes ".config") acc e refl refl w)))
      | inr (inr (inr (inl w))) ↦
          inr (inr (inr (inl (append_path-Within (codes ".conflict-stage") acc e refl refl w))))
      | inr (inr (inr (inr w))) ↦ absurd w
    ])

foldl-internal :
    (acc : Str) (es : List Str)
    → is_internal_path acc ≡ true
    → is_internal_path (foldl append_path acc es) ≡ true
foldl-internal acc [] h = h
foldl-internal acc (e ∷ es) h = foldl-internal (append_path acc e) es (append_path-internal acc e h)

-- The listed directories end in the path itself, unless a directory above it is reserved.
collect_dirs-contains :
    (accum : Str) (e : Str) (es : List Str)
    → is_internal_path (foldl append_path accum (e ∷ es)) ≡ false
    → (dirs : List Str) × (collect_dirs accum (e ∷ es) ≡ some dirs)
      × (contains dirs (foldl append_path accum (e ∷ es)) ≡ true)
unfolding collect_dirs contains
collect_dirs-contains accum e [] open_path = (
  append_path accum e ∷ [],
  rw open_path,
  ground (arith, str_beq_iff (append_path accum e) (append_path accum e)),
)
collect_dirs-contains accum e (e' ∷ es) open_path =
    let (dirs, found, last) = collect_dirs-contains (append_path accum e) e' es open_path in
    elim (Bool-cases (is_internal_path (append_path accum e))) [
      | inl reserved ↦
          absurd (cc (open_path, foldl-internal (append_path accum e) (e' ∷ es) reserved))
      | inr above ↦ (append_path accum e ∷ dirs, ground (arith, found), ground (arith, last))
    ]

hierarchy_dirs-contains :
    (p : Str)
    → normalize_relative_path p ≡ p
    → IsJoined p
    → is_internal_path p ≡ false
    → (dirs : List Str) × (hierarchy_dirs p ≡ some dirs) × (contains dirs p ≡ true)
unfolding hierarchy_dirs contains
hierarchy_dirs-contains p clean joined open_path = from (elements p) refl
  where
    from :
        (es : List Str)
        → elements p ≡ es
        → (dirs : List Str) × (hierarchy_dirs p ≡ some dirs) × (contains dirs p ≡ true)
    from [] none_left =
        let root : [] ≡ p = rw none_left at joined in
        ([] ∷ [], ground (arith, clean, none_left), ground (arith, str_beq_iff [] p))
    from (e ∷ es) parts =
        let end : foldl append_path [] (e ∷ es) ≡ p = rw parts at joined in
        let (dirs, found, last) =
          collect_dirs-contains [] e es
            (subst (λ q. is_internal_path q ≡ false) (sym end) open_path) in
        (
          [] ∷ dirs,
          ground (arith, clean, parts, found),
          ground (arith, subst (λ q. contains dirs q ≡ true) end last),
        )

pub guid_or_enter_known :
    (path g : Str) (d : Directories)
    → lookup path d.path_to_dir_guid ≡ some g
    → guid_or_enter path d ≡ (g, d)
unfolding guid_or_enter
guid_or_enter_known path g d known = rw (known, guid_or_enter)

-- What `ensure_directory_guid` leaves behind.
abbrev Ensured : Str → Directories → Str → Directories → Type 0
Ensured p d g d' =
    (lookup p d'.path_to_dir_guid ≡ some g)
    × IsPaired d'
    × ((q k : Str) → lookup q d.path_to_dir_guid ≡ some k → lookup q d'.path_to_dir_guid ≡ some k)

abbrev EnsuredBy : Str → Directories → (Str × Directories) → Type 0
EnsuredBy p d r = Ensured p d r.0 r.1

ensure_directory_guid-known :
    (self p g : Str) (d : Directories) (draws : Draws)
    → normalize_relative_path p ≡ p
    → is_internal_path p ≡ false
    → lookup p d.path_to_dir_guid ≡ some g
    → ensure_directory_guid self p d draws ≡ some ((g, d), draws)
unfolding ensure_directory_guid
ensure_directory_guid-known self p g d draws clean open_path known =
    rw (clean, open_path, known) refl

ensure_directory_guid-new :
    (self p : Str) (d d₁ : Directories) (draws draws₁ : Draws) (dirs : List Str) (g : Str)
    → normalize_relative_path p ≡ p
    → is_internal_path p ≡ false
    → lookup p d.path_to_dir_guid ≡ none
    → hierarchy_dirs p ≡ some dirs
    → add_dirs self dirs d draws ≡ some (d₁, draws₁)
    → lookup p d₁.path_to_dir_guid ≡ some g
    → ensure_directory_guid self p d draws ≡ some ((g, d₁), draws₁)
unfolding ensure_directory_guid register_directory_hierarchy guid_or_enter
ensure_directory_guid-new self p d d₁ draws draws₁ dirs g clean open_path new found added known =
    ground (arith, clean)

ensure_directory_guid-dry :
    (self p : Str) (d : Directories) (draws : Draws) (dirs : List Str)
    → normalize_relative_path p ≡ p
    → is_internal_path p ≡ false
    → lookup p d.path_to_dir_guid ≡ none
    → hierarchy_dirs p ≡ some dirs
    → add_dirs self dirs d draws ≡ none
    → ensure_directory_guid self p d draws ≡ none
unfolding ensure_directory_guid register_directory_hierarchy
ensure_directory_guid-dry self p d draws dirs clean open_path new found dry = ground (arith, clean)

ensure_directory_guid-Ensured :
    (self p : Str) (d : Directories) (draws : Draws) {g : Str} {d' : Directories} {rest : Draws}
    → IsPaired d
    → normalize_relative_path p ≡ p
    → IsJoined p
    → is_internal_path p ≡ false
    → ensure_directory_guid self p d draws ≡ some ((g, d'), rest)
    → Ensured p d g d'
ensure_directory_guid-Ensured self p d draws {g} {d'} paired clean joined open_path h =
    elim (Option-cases (lookup p d.path_to_dir_guid)) [
      | inl new ↦
          let (dirs, found, listed) = hierarchy_dirs-contains p clean joined open_path in
          elim (Option-cases (add_dirs self dirs d draws)) [
            | inl dry ↦ absurd (
                cc (h, ensure_directory_guid-dry self p d draws dirs clean open_path new found dry))
            | inr ((d₁, draws₁), added) ↦
                let (g₁, known) = add_dirs-assigns self dirs d draws p listed open_path added in
                let result =
                  ensure_directory_guid-new self p d d₁ draws draws₁ dirs g₁ clean open_path new
                    found added known in
                let same : (g₁, d₁) ≡ (g, d') = cc (result, h) in
                subst (EnsuredBy p d) same (
                  known,
                  add_dirs-IsPaired self dirs d draws paired added,
                  λ q k old. add_dirs-keeps self dirs d draws q k old added,
                )
          ]
      | inr (g₁, known) ↦
          let result = ensure_directory_guid-known self p g₁ d draws clean open_path known in
          let same : (g₁, d) ≡ (g, d') = cc (result, h) in
          subst (EnsuredBy p d) same (known, paired, λ q k old. old)
    ]

-- Ensuring a GUID for a path that normalising leaves alone, that has no doubled slash and that is
-- not reserved, gives a GUID which resolves to the path; the maps stay inverse to one another, and
-- every directory that had a GUID keeps it.
pub resolve-ensure_directory_guid :
    (self p : Str) (d : Directories) (draws : Draws) {g : Str} {d' : Directories} {rest : Draws}
    → IsPaired d
    → normalize_relative_path p ≡ p
    → IsJoined p
    → is_internal_path p ≡ false
    → ensure_directory_guid self p d draws ≡ some ((g, d'), rest)
    → (resolve_directory_guid g d' ≡ some p)
      × IsPaired d'
      × ((q k : Str) → lookup q d.path_to_dir_guid ≡ some k → lookup q d'.path_to_dir_guid ≡ some k)
unfolding resolve_directory_guid
resolve-ensure_directory_guid self p d draws {g} {d'} paired clean joined open_path h =
    let (known, paired', keeps) =
      ensure_directory_guid-Ensured self p d draws paired clean joined open_path h in
    let resolved = paired'.forth p g known in (ground (arith, resolved), paired', keeps)
