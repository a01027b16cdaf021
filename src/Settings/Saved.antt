-- ===== src/Settings/Saved.antt =====
-- Saving the settings and loading them again.
use suba_sync.Prelude.{
  some_injective, Str, Bool, true, false, ◌&&◌, ◌||◌, ◌≡◌, refl, sym, ◌∙◌, ap, subst, Option, some,
  List, [], ◌∷◌, arith, ◌==◌, str_eq, str_beq_iff, if◌then◌else◌, is_empty, Bool-cases, inl, inr,
  Member, All,
}
use suba_sync.Prelude.Dict.{Dict, lookup, insert, has, lookup-insert, lookup-nil}
use suba_sync.Json.{JsonApi, IsJson}
use suba_sync.Settings.{SettingSpec, Settings, done, find_spec, convert, convert_and_store}
use suba_sync.Settings.Files.{
  merge_member, merge_members, merge_from_json, collect, get_json, load_from_file, save_to_file,
}
use suba_sync.Settings.Typed.{IsTyped, convert_fixed}

module _ (J : JsonApi) where
  -- Every specification is the one that its key finds.
  abbrev pub AreFound : Settings J → Type 0
  AreFound s =
      (spec : SettingSpec J) → Member spec s.setting_specs → find_spec J spec.key s ≡ some spec

  -- The member is the value of a setting of `s`, as `t` would store it.
  IsKept : Settings J → Settings J → Str × J.Json → Type 0
  IsKept s t (key, v) =
      (lookup key s.settings ≡ some v)
      × ((spec : SettingSpec J) × (find_spec J key t ≡ some spec)
          × (spec.key ≡ key)
          × (convert J spec.kind v ≡ done v))

  merge_member-kept :
      (s t : Settings J) (key : Str) (v : J.Json)
      → IsKept s t (key, v)
      → merge_member J key v t ≡ record t { settings = insert key v t.settings }
  unfolding merge_member convert_and_store IsKept
  merge_member-kept s t key v (here, (spec, found, same, fits)) =
      rw (merge_member, found, convert_and_store, fits, same) refl

  -- Merging kept members gives each key of theirs the value in `s`.
  merge_members-kept :
      (s t : Settings J) (members : Dict Str J.Json) (j : Str)
      → All (IsKept s t) members
      → lookup j (merge_members J members t).settings
        ≡ (if has j members then lookup j s.settings else lookup j t.settings)
  unfolding merge_members lookup IsKept find_spec
  merge_members-kept s t [] j kept = refl
  merge_members-kept s t ((key, v) ∷ members) j (first, rest) =
      let t' : Settings J = record t { settings = insert key v t.settings } in
      let ih = merge_members-kept s t' members j rest in
      let here = first.0 in
      let split : (if has j members then lookup j s.settings else lookup j t'.settings)
          ≡ (if has j ((key, v) ∷ members) then lookup j s.settings else lookup j t.settings) =
        elim (Bool-cases (key == j)) [
          | inl same ↦
              let e = (str_beq_iff key j).0 same in
              let here' = sym (ap (λ k. lookup k s.settings) e) ∙ first.0 in
              ground (arith, same, here', lookup-insert key j v t.settings)
          | inr differs ↦ ground (arith, differs, lookup-insert key j v t.settings)
        ] in
      ap (λ (u : Settings J). lookup j (merge_members J members u).settings)
        (merge_member-kept s t key v first)
      ∙ ih
      ∙ split

  -- A persistent setting of the list has the key.
  abbrev saves : Str → List (SettingSpec J) → Bool
  saves j [] = false
  saves j (spec ∷ specs) = spec.persistent && spec.key == j || saves j specs

  saves-Member :
      (specs : List (SettingSpec J)) (spec : SettingSpec J)
      → Member spec specs
      → spec.persistent ≡ true
      → saves spec.key specs ≡ true
  saves-Member [] spec m h = elim m [ ]
  saves-Member (s ∷ specs) spec m h = elim m [
    | inl e ↦ rw e (rw h (ground (arith, str_beq_iff spec.key spec.key)))
    | inr there ↦ ground (arith, saves-Member specs spec there h)
  ]

  saves-found :
      (j : Str) (specs : List (SettingSpec J))
      → saves j specs ≡ true
      → (spec : SettingSpec J) × Member spec specs × (spec.persistent ≡ true) × (spec.key ≡ j)
  saves-found j [] h = absurd (cc h)
  saves-found j (s ∷ specs) h = elim (Bool-cases (s.persistent && s.key == j)) [
    | inl here ↦ (s, inl refl, ground (arith, here), (str_beq_iff s.key j).0 (ground (arith, here)))
    | inr there ↦
        let (spec, m, persistent, same) = saves-found j specs (ground (arith, there, h)) in
        (spec, inr m, persistent, same)
  ]

  All-insert :
      (p : Str × J.Json → Type 0) (k : Str) (v : J.Json) (m : Dict Str J.Json)
      → All p m
      → p (k, v)
      → All p (insert k v m)
  unfolding insert
  All-insert p k v [] hs h = (h, tt)
  All-insert p k v ((i, w) ∷ m) (first, hs) h = elim (Bool-cases (i == k)) [
    | inl same ↦ rw (insert, same) (h, hs)
    | inr differs ↦ rw (insert, differs) (first, All-insert p k v m hs h)
  ]

  has-insert :
      (k j : Str) (v : J.Json) (m : Dict Str J.Json) → has j (insert k v m) ≡ (k == j || has j m)
  has-insert k j v m = ground (arith, lookup-insert k j v m)

  -- Every member of the document is kept, and the persistent keys are those that it has.
  lookup-collect :
      (laws : IsJson J) (s t : Settings J) (specs : List (SettingSpec J)) (doc : Dict Str J.Json)
      → IsTyped J s
      → AreFound t
      → ((spec : SettingSpec J)
          → Member spec specs
          → Member spec s.setting_specs × Member spec t.setting_specs)
      → All (IsKept s t) doc
      → All (IsKept s t) (collect J true specs s.settings doc)
        × ((j : Str) → has j (collect J true specs s.settings doc) ≡ (saves j specs || has j doc))
  unfolding collect IsKept
  lookup-collect laws s t [] doc typed found known kept = (kept, λ j. refl)
  lookup-collect laws s t (spec ∷ specs) doc typed found known kept =
      let (v, here, fits) = typed.typed spec (known spec (inl refl)).0 in
      let rest = λ (d : Dict Str J.Json) (hd : All (IsKept s t) d).
        lookup-collect laws s t specs d typed found (λ x m. known x (inr m)) hd in
      elim (Bool-cases spec.persistent) [
        | inl stays ↦
            let entry : IsKept s t (spec.key, v) = (
              here,
              (
                spec,
                found spec (known spec (inl refl)).1,
                refl,
                convert_fixed J laws spec.kind v fits,
              ),
            ) in
            let (all, keys) =
              rest (insert spec.key v doc) (All-insert (IsKept s t) spec.key v doc kept entry) in
            rw (collect, stays, here)
              (all, λ j. keys j ∙ ground (arith, has-insert spec.key j v doc, stays))
        | inr goes ↦
            let (all, keys) = rest doc kept in
            rw (collect, goes) (all, λ j. keys j ∙ ground (arith, goes))
      ]

  -- A key of the list is saved exactly if its specification is persistent.
  saves-persistent :
      (t : Settings J) (spec : SettingSpec J)
      → AreFound t
      → Member spec t.setting_specs
      → saves spec.key t.setting_specs ≡ spec.persistent
  saves-persistent t spec found m = elim (Bool-cases spec.persistent) [
    | inl stays ↦ saves-Member t.setting_specs spec m stays ∙ sym stays
    | inr goes ↦ elim (Bool-cases (saves spec.key t.setting_specs)) [
      | inr unsaved ↦ unsaved ∙ sym goes
      | inl saved ↦
          let (spec', m', stays, same) = saves-found spec.key t.setting_specs saved in
          let one : some spec' ≡ some spec =
            sym (found spec' m') ∙ ap (λ k. find_spec J k t) same ∙ found spec m in
          let clash = ap (λ (x : SettingSpec J). x.persistent) (some_injective spec' spec one) in
          absurd (ground (arith, clash, stays, goes))
    ]
  ]

  -- Loading what was saved gives every persistent setting its saved value and leaves the others as
  -- they are. The settings saved are typed, keys find their own specification, the disk gives the
  -- text that was written, and the parser reads the printed document back.
  pub load-save_to_file :
      (laws : IsJson J) (disk : Str → Option Str) (path text : Str) (s t : Settings J)
      → IsTyped J s
      → AreFound t
      → s.setting_specs ≡ t.setting_specs
      → save_to_file J true path s ≡ some text
      → disk path ≡ some text
      → J.parse (J.dump_indented (get_json J true s)) ≡ some (get_json J true s)
      → ((load_from_file J disk path t).1 ≡ true)
        × ((spec : SettingSpec J)
            → Member spec t.setting_specs
            → lookup spec.key (load_from_file J disk path t).0.settings ≡ (
                if spec.persistent then lookup spec.key s.settings else lookup spec.key t.settings))
  unfolding load_from_file save_to_file merge_from_json get_json
  load-save_to_file laws disk path text s t typed found same saved given parses =
      elim (Bool-cases (is_empty path)) [
        | inl empty ↦ absurd (cc (rw (save_to_file, empty) at saved))
        | inr path_given ↦
            let members = collect J true s.setting_specs s.settings [] in
            let written : J.dump_indented (J.object members) ≡ text =
              some_injective _ _ (rw (save_to_file, path_given) at saved) in
            let parsed : J.parse text ≡ some (J.object members) =
              sym (ap J.parse written) ∙ parses in
            let loaded : load_from_file J disk path t ≡ (merge_members J members t, true) =
              rw
                (
                  load_from_file,
                  path_given,
                  given,
                  parsed,
                  merge_from_json,
                  laws.as_object-object members,
                )
                refl in
            let (kept, keys) =
              lookup-collect laws s t s.setting_specs [] typed found
                (λ x m. (m, subst (λ (l : List (SettingSpec J)). Member x l) same m)) tt in
            (
              ap (λ r. r.1) loaded,
              λ spec m.
                  let key_saved : has spec.key members ≡ spec.persistent =
                    keys spec.key
                    ∙ ground (arith, lookup-nil {K = Str} {V = J.Json} spec.key)
                    ∙ ap (saves spec.key) same
                    ∙ saves-persistent t spec found m in
                  ap (λ (r : Settings J × Bool). lookup spec.key r.0.settings) loaded
                  ∙ merge_members-kept s t members spec.key kept
                  ∙ ap
                      (λ (b : Bool).
                        if b then lookup spec.key s.settings else lookup spec.key t.settings)
                      key_saved,
            )
      ]
