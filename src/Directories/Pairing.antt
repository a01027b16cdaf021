-- ===== src/Directories/Pairing.antt =====
-- The two maps of the registry are inverse to one another, and which operations keep them so.
use suba_sync.Prelude.{
  ◌≡◌, ◌≢◌, subst, Str, ◌||◌, none, some, List, [], ◌∷◌, arith, str_eq, str_beq_iff, is_empty,
  Option-cases, Bool-cases, inl, inr,
}
use suba_sync.Prelude.Dict.{Dict, lookup, has, lookup-insert, lookup-erase}
use suba_sync.Paths.{normalize_relative_path, is_internal_path, parent_path}
use suba_sync.Directories.{
  Directories, Draws, fresh_guid, assign, add_dirs, hierarchy_dirs, register_directory_hierarchy,
  register_directory_with_guid, register_parents, replace_pair, unregister_directory_guid,
  set_directory_origin,
}

-- A directory has a GUID exactly if that GUID has this directory.
pub record IsPaired (d : Directories) : Type 0 where
  pub forth :
      (p g : Str) → lookup p d.path_to_dir_guid ≡ some g → lookup g d.dir_guid_to_path ≡ some p
  pub back :
      (p g : Str) → lookup g d.dir_guid_to_path ≡ some p → lookup p d.path_to_dir_guid ≡ some g

pub fresh_guid-fresh :
    (taken : Dict Str Str) (draws rest : Draws) (g : Str)
    → fresh_guid taken draws ≡ some (g, rest)
    → lookup g taken ≡ none
unfolding fresh_guid
fresh_guid-fresh taken [] rest g h = cc
fresh_guid-fresh taken (d ∷ draws) rest g h = ground (arith, fresh_guid-fresh taken draws rest g)

assign-IsPaired :
    (self dir guid : Str) (d : Directories)
    → lookup dir d.path_to_dir_guid ≡ none
    → lookup guid d.dir_guid_to_path ≡ none
    → IsPaired d
    → IsPaired (assign self dir guid d)
unfolding assign
assign-IsPaired self dir guid d new_dir new_guid paired = record {
  forth = λ p g h. ground (
    arith,
    lookup-insert dir p guid d.path_to_dir_guid,
    lookup-insert guid g dir d.dir_guid_to_path,
    paired.forth p g,
    str_beq_iff dir p,
    str_beq_iff guid g,
  );
  back = λ p g h. ground (
    arith,
    lookup-insert dir p guid d.path_to_dir_guid,
    lookup-insert guid g dir d.dir_guid_to_path,
    paired.back p g,
    str_beq_iff dir p,
    str_beq_iff guid g,
  );
}

pub add_dirs-IsPaired :
    (self : Str) (dirs : List Str) (d : Directories) (draws : Draws) {d' : Directories}
    {rest : Draws}
    → IsPaired d
    → add_dirs self dirs d draws ≡ some (d', rest)
    → IsPaired d'
unfolding add_dirs
add_dirs-IsPaired self [] d draws {d'} paired h =
    let same : d ≡ d' = ground arith in subst IsPaired same paired
add_dirs-IsPaired self (dir ∷ dirs) d draws paired h =
    elim (Bool-cases (is_internal_path dir || has dir d.path_to_dir_guid)) [
      | inl skip ↦ add_dirs-IsPaired self dirs d draws paired (rw (skip, add_dirs) at h)
      | inr add ↦ elim (Option-cases (fresh_guid d.dir_guid_to_path draws)) [
        | inl dry ↦ absurd (cc (rw (add, dry, add_dirs) at h))
        | inr ((guid, draws'), e) ↦
            add_dirs-IsPaired self dirs (assign self dir guid d) draws'
              (assign-IsPaired self dir guid d (ground arith)
                (fresh_guid-fresh d.dir_guid_to_path draws draws' guid e) paired)
              (rw (add, e, add_dirs) at h)
      ]
    ]

pub replace_pair-IsPaired :
    (path guid : Str) (d : Directories) → IsPaired d → IsPaired (replace_pair path guid d)
unfolding replace_pair
replace_pair-IsPaired path guid d paired = record {
  forth = λ p g h. grind (
    arith,
    lookup-insert,
    lookup-erase,
    paired.forth p g,
    paired.back p g,
    paired.forth path guid,
    str_beq_iff,
  );
  back = λ p g h. grind (
    arith,
    lookup-insert,
    lookup-erase,
    paired.forth p g,
    paired.back p g,
    paired.forth path guid,
    str_beq_iff,
  );
}

pub unregister_directory_guid-IsPaired :
    (guid : Str) (d : Directories)
    → lookup guid d.dir_guid_to_path ≢ some []
    → IsPaired d
    → IsPaired (unregister_directory_guid guid d)
unfolding unregister_directory_guid
unregister_directory_guid-IsPaired guid d not_root paired = record {
  forth = λ p g h.
      grind (arith, lookup-erase, paired.forth p g, paired.back p g, not_root, str_beq_iff);
  back = λ p g h.
      grind (arith, lookup-erase, paired.forth p g, paired.back p g, not_root, str_beq_iff);
}

pub register_directory_hierarchy-IsPaired :
    (self path : Str) (d : Directories) (draws : Draws) {d' : Directories} {rest : Draws}
    → IsPaired d
    → register_directory_hierarchy self path d draws ≡ some (d', rest)
    → IsPaired d'
unfolding register_directory_hierarchy
register_directory_hierarchy-IsPaired self path d draws {d'} paired h =
    elim (Option-cases (hierarchy_dirs path)) [
      | inl early ↦
          let same : d ≡ d' = ground (arith, rw (early, register_directory_hierarchy) at h) in
          subst IsPaired same paired
      | inr (dirs, e) ↦
          add_dirs-IsPaired self dirs d draws paired (rw (e, register_directory_hierarchy) at h)
    ]

register_parents-IsPaired :
    (self path : Str) (d : Directories) (draws : Draws) {d' : Directories} {rest : Draws}
    → IsPaired d
    → register_parents self path d draws ≡ some (d', rest)
    → IsPaired d'
unfolding register_parents
register_parents-IsPaired self path d draws {d'} paired h =
    elim (Bool-cases (is_empty path || is_empty (parent_path path))) [
      | inl top ↦
          let same : d ≡ d' = ground (arith, rw (top, register_parents) at h) in
          subst IsPaired same paired
      | inr below ↦
          register_directory_hierarchy-IsPaired self (parent_path path) d draws paired
            (rw (below, register_parents) at h)
    ]

pub register_directory_with_guid-IsPaired :
    (self path guid : Str) (d : Directories) (draws : Draws) {d' : Directories} {rest : Draws}
    → IsPaired d
    → register_directory_with_guid self path guid d draws ≡ some (d', rest)
    → IsPaired d'
unfolding register_directory_with_guid
register_directory_with_guid-IsPaired self path guid d draws {d'} paired h =
    elim (Bool-cases (is_empty guid || is_internal_path (normalize_relative_path path))) [
      | inl ignored ↦
          let same : d ≡ d' = ground (arith, rw (ignored, register_directory_with_guid) at h) in
          subst IsPaired same paired
      | inr taken ↦
          elim (Option-cases (register_parents self (normalize_relative_path path) d draws)) [
            | inl dry ↦ absurd (cc (rw (taken, dry, register_directory_with_guid) at h))
            | inr ((d₁, draws₁), e) ↦
                let paired₁ =
                  register_parents-IsPaired self (normalize_relative_path path) d draws paired e in
                let same : replace_pair (normalize_relative_path path) guid d₁ ≡ d' =
                  ground (arith, rw (taken, e, register_directory_with_guid) at h) in
                subst IsPaired same
                  (replace_pair-IsPaired (normalize_relative_path path) guid d₁ paired₁)
          ]
    ]

pub set_directory_origin-IsPaired :
    (guid origin : Str) (d : Directories)
    → IsPaired d
    → IsPaired (set_directory_origin guid origin d)
unfolding set_directory_origin
set_directory_origin-IsPaired guid origin d paired = record {
  forth = λ p g h. ground (arith, paired.forth p g);
  back = λ p g h. ground (arith, paired.back p g);
}
