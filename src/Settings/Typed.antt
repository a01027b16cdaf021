-- ===== src/Settings/Typed.antt =====
-- Every setting always has a value of the type that its specification gives.
use suba_sync.Prelude.{
  some_injective, Str, Bool, ◌≡◌, refl, sym, subst, some, List, [], ◌∷◌, ℤ, ◌==◌, str_eq,
  str_beq_iff, Bool-cases, Option-cases, inl, inr, ◌⊎◌, Member, contains, ◌||◌,
}
use suba_sync.Prelude.Dict.{Dict, lookup, insert, lookup-insert}
use suba_sync.Json.{JsonApi, IsJson}
use suba_sync.Settings.{
  SettingType, bool, int, float, string, json, other, SettingSpec, Settings, SettingError, Outcome,
  done, refused, find_spec, find_lowered, convert, convert_and_store, parse_string_value,
  set_from_string, set_from_json, is_nonzero, to_lower,
}
use suba_sync.Settings.Files.{merge_member, merge_members}

pub done_injective : {A : Type 0} (a b : A) → done a ≡ done b → a ≡ b
done_injective a b e = cc e

pub Outcome-cases :
    {A : Type 0} (o : Outcome A) → ((a : A) × (o ≡ done a)) ⊎ ((e : SettingError) × (o ≡ refused e))
Outcome-cases (done a) = inl (a, refl)
Outcome-cases (refused e) = inr (e, refl)

module _ (J : JsonApi) where
  -- The value is one of the type: for the four types with values of their own, one of those.
  abbrev pub HasType : SettingType → J.Json → Type 0
  HasType bool v = (b : Bool) × (v ≡ J.boolean b)
  HasType int v = (n : ℤ) × (v ≡ J.integer n)
  HasType float v = J.as_double v ≡ some v
  HasType string v = (s : Str) × (v ≡ J.string s)
  HasType json v = Unit {0}
  HasType other v = ⊥

  -- There is a value of its type for each specification, and a key belongs to one type.
  pub record IsTyped (s : Settings J) : Type 0 where
    pub typed :
        (spec : SettingSpec J)
        → Member spec s.setting_specs
        → (v : J.Json) × (lookup spec.key s.settings ≡ some v) × HasType spec.kind v
    pub one_kind :
        (a b : SettingSpec J)
        → Member a s.setting_specs
        → Member b s.setting_specs
        → a.key ≡ b.key
        → a.kind ≡ b.kind

  -- What is stored has the type, and a value of the type is stored as it is.
  convert-HasType :
      (laws : IsJson J) (t : SettingType) (v w : J.Json) → convert J t v ≡ done w → HasType t w
  unfolding convert
  convert-HasType laws bool v w h = elim (Option-cases (J.as_bool v)) [
    | inr (b, yes_bool) ↦ (b, done_injective w (J.boolean b) (sym (rw (convert, yes_bool) at h)))
    | inl absent ↦
        let h' = rw (convert, absent) at h in
        elim (Option-cases (J.as_integer v)) [
          | inr (n, found) ↦
              (is_nonzero n, done_injective w (J.boolean (is_nonzero n)) (sym (rw found at h')))
          | inl absent' ↦ absurd (cc (rw absent' at h'))
        ]
  ]
  convert-HasType laws int v w h = elim (Option-cases (J.as_integer v)) [
    | inr (n, found) ↦ (n, done_injective w (J.integer n) (sym (rw (convert, found) at h)))
    | inl absent ↦ absurd (cc (rw (convert, absent) at h))
  ]
  convert-HasType laws float v w h = elim (Option-cases (J.as_double v)) [
    | inr (d, found) ↦
        subst (λ (x : J.Json). J.as_double x ≡ some x)
          (done_injective d w (rw (convert, found) at h)) (laws.as_double-as_double v d found)
    | inl absent ↦ absurd (cc (rw (convert, absent) at h))
  ]
  convert-HasType laws string v w h = elim (Option-cases (J.as_string v)) [
    | inr (s, found) ↦ (s, done_injective w (J.string s) (sym (rw (convert, found) at h)))
    | inl absent ↦ absurd (cc (rw (convert, absent) at h))
  ]
  convert-HasType laws json v w h = tt
  convert-HasType laws other v w h = absurd (cc h)

  pub convert_fixed :
      (laws : IsJson J) (t : SettingType) (v : J.Json) → HasType t v → convert J t v ≡ done v
  unfolding convert
  convert_fixed laws bool v (b, e) = rw e (rw (convert, laws.as_bool-boolean b) refl)
  convert_fixed laws int v (n, e) = rw e (rw (convert, laws.as_integer-integer n) refl)
  convert_fixed laws float v e = rw (convert, e) refl
  convert_fixed laws string v (s, e) = rw e (rw (convert, laws.as_string-string s) refl)
  convert_fixed laws json v e = refl
  convert_fixed laws other v e = absurd e

  pub find_lowered-Member :
      (lowered : Str) (specs : List (SettingSpec J)) (spec : SettingSpec J)
      → find_lowered J lowered specs ≡ some spec
      → Member spec specs
  unfolding find_lowered
  find_lowered-Member lowered [] spec h = absurd (cc h)
  find_lowered-Member lowered (s ∷ specs) spec h =
      elim (Bool-cases (lowered == s.normalized_key || contains s.aliases lowered)) [
        | inl here ↦ inl (some_injective s spec (rw here at h))
        | inr there ↦ inr (find_lowered-Member lowered specs spec (rw there at h))
      ]

  -- Storing a value of the type under the key of a specification keeps the invariant.
  store-IsTyped :
      (spec : SettingSpec J) (v : J.Json) (s : Settings J)
      → IsTyped s
      → Member spec s.setting_specs
      → HasType spec.kind v
      → IsTyped (record s { settings = insert spec.key v s.settings })
  store-IsTyped spec v s t known fits = record {
    typed = λ other_spec m. elim (Bool-cases (spec.key == other_spec.key)) [
      | inl same ↦
          let keys_agree = (str_beq_iff spec.key other_spec.key).0 same in
          (
            v,
            rw (lookup-insert spec.key other_spec.key v s.settings, same) refl,
            subst (λ k. HasType k v) (t.one_kind spec other_spec known m keys_agree) fits,
          )
      | inr differs ↦
          let (w, found, fits') = t.typed other_spec m in
          (w, rw (lookup-insert spec.key other_spec.key v s.settings, differs) found, fits')
    ];
    one_kind = t.one_kind;
  }

  convert_and_store-IsTyped :
      (laws : IsJson J) (spec : SettingSpec J) (v : J.Json) (s s' : Settings J)
      → IsTyped s
      → Member spec s.setting_specs
      → convert_and_store J spec v s ≡ done s'
      → IsTyped s'
  unfolding convert_and_store
  convert_and_store-IsTyped laws spec v s s' t known h =
      elim (Outcome-cases (convert J spec.kind v)) [
        | inl (stored, e) ↦
            subst IsTyped (done_injective _ s' (rw (convert_and_store, e) at h))
              (store-IsTyped spec stored s t known (convert-HasType laws spec.kind v stored e))
        | inr (err, e) ↦ absurd (cc (rw (convert_and_store, e) at h))
      ]

  -- A setting that is set from a text keeps every setting typed.
  pub set_from_string-IsTyped :
      (laws : IsJson J) (key text : Str) (s s' : Settings J)
      → IsTyped s
      → set_from_string J key text s ≡ done s'
      → IsTyped s'
  unfolding set_from_string find_spec
  set_from_string-IsTyped laws key text s s' t h =
      elim (Option-cases (find_lowered J (to_lower key) s.setting_specs)) [
        | inl unknown ↦ absurd (cc (rw (set_from_string, unknown) at h))
        | inr (spec, found) ↦
            let h' = rw (set_from_string, found) at h in
            elim (Outcome-cases (parse_string_value J spec.kind text)) [
              | inl (v, parsed) ↦
                  convert_and_store-IsTyped laws spec v s s' t
                    (find_lowered-Member (to_lower key) s.setting_specs spec found)
                    (rw parsed at h')
              | inr (err, e) ↦ absurd (cc (rw e at h'))
            ]
      ]

  pub set_from_json-IsTyped :
      (laws : IsJson J) (key : Str) (v : J.Json) (s s' : Settings J)
      → IsTyped s
      → set_from_json J key v s ≡ done s'
      → IsTyped s'
  unfolding set_from_json find_spec
  set_from_json-IsTyped laws key v s s' t h =
      elim (Option-cases (find_lowered J (to_lower key) s.setting_specs)) [
        | inl unknown ↦ absurd (cc (rw (set_from_json, unknown) at h))
        | inr (spec, found) ↦
            convert_and_store-IsTyped laws spec v s s' t
              (find_lowered-Member (to_lower key) s.setting_specs spec found)
              (rw (set_from_json, found) at h)
      ]

  merge_member-IsTyped :
      (laws : IsJson J) (key : Str) (v : J.Json) (s : Settings J)
      → IsTyped s
      → IsTyped (merge_member J key v s)
  unfolding merge_member find_spec
  merge_member-IsTyped laws key v s t =
      elim (Option-cases (find_lowered J (to_lower key) s.setting_specs)) [
        | inl unknown ↦ rw (merge_member, unknown) t
        | inr (spec, found) ↦ elim (Outcome-cases (convert_and_store J spec v s)) [
          | inl (s', stored) ↦
              rw (merge_member, found, stored)
                (convert_and_store-IsTyped laws spec v s s' t
                  (find_lowered-Member (to_lower key) s.setting_specs spec found) stored)
          | inr (err, e) ↦ rw (merge_member, found, e) t
        ]
      ]

  pub merge_members-IsTyped :
      (laws : IsJson J) (members : Dict Str J.Json) (s : Settings J)
      → IsTyped s
      → IsTyped (merge_members J members s)
  unfolding merge_members
  merge_members-IsTyped laws [] s t = t
  merge_members-IsTyped laws ((key, v) ∷ members) s t =
      merge_members-IsTyped laws members (merge_member J key v s)
        (merge_member-IsTyped laws key v s t)
