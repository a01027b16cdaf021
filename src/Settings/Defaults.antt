-- ===== src/Settings/Defaults.antt =====
-- The defaults give every specification a value of its type.
use suba_sync.Prelude.{
  some_injective, Str, ◌≡◌, refl, sym, ◌∙◌, ap, subst, some, List, [], ◌∷◌, arith, ◌==◌, str_eq,
  str_beq_iff, Bool-cases, inl, inr, Member, All, All-map, All-both, All-self,
}
use suba_sync.Prelude.Dict.{Dict, lookup, insert, lookup-insert, lookup-nil}
use suba_sync.Json.{JsonApi}
use suba_sync.Settings.{RawSpec, SettingSpec, init, find_spec, apply_defaults}
use suba_sync.Settings.Typed.{HasType, IsTyped}

module _ (J : JsonApi) where
  -- A key that is set stays set, and the key of each specification is set.
  apply_defaults-keeps :
      (specs : List (SettingSpec J)) (m : Dict Str J.Json) (j : Str) (v : J.Json)
      → lookup j m ≡ some v
      → (w : J.Json) × (lookup j (apply_defaults J specs m) ≡ some w)
  unfolding apply_defaults
  apply_defaults-keeps [] m j v h = (v, h)
  apply_defaults-keeps (s ∷ specs) m j v h = elim (Bool-cases (s.key == j)) [
    | inl same ↦
        apply_defaults-keeps specs _ j s.default_value
          (lookup-insert s.key j s.default_value m ∙ rw same refl)
    | inr differs ↦
        apply_defaults-keeps specs _ j v (lookup-insert s.key j s.default_value m ∙ rw differs h)
  ]

  apply_defaults-sets :
      (specs : List (SettingSpec J)) (m : Dict Str J.Json) (spec : SettingSpec J)
      → Member spec specs
      → (w : J.Json) × (lookup spec.key (apply_defaults J specs m) ≡ some w)
  unfolding apply_defaults
  apply_defaults-sets [] m spec h = elim h [ ]
  apply_defaults-sets (s ∷ specs) m spec h = elim h [
    | inl e ↦ apply_defaults-keeps specs _ spec.key s.default_value (
        ap (λ (x : SettingSpec J). lookup x.key (insert s.key s.default_value m)) (sym e)
        ∙ lookup-insert s.key s.key s.default_value m
        ∙ grind (arith, str_beq_iff))
    | inr there ↦ apply_defaults-sets specs _ spec there
  ]

  -- What holds of each default at its key, and of the values at the start, holds of each value.
  apply_defaults-All :
      (p : Str → J.Json → Type 0) (specs : List (SettingSpec J)) (m : Dict Str J.Json)
      → All (λ (s : SettingSpec J). p s.key s.default_value) specs
      → ((j : Str) (v : J.Json) → lookup j m ≡ some v → p j v)
      → (j : Str) (v : J.Json) → lookup j (apply_defaults J specs m) ≡ some v
      → p j v
  unfolding apply_defaults
  apply_defaults-All p [] m hs start j v h = start j v h
  apply_defaults-All p (s ∷ specs) m (first, hs) start j v h =
      apply_defaults-All p specs (insert s.key s.default_value m) hs
        (λ i w found. elim (Bool-cases (s.key == i)) [
          | inl same ↦
              let e = (str_beq_iff s.key i).0 same in
              let e' =
                some_injective s.default_value w
                  (sym (lookup-insert s.key i s.default_value m ∙ rw same refl) ∙ found) in
              subst (λ k. p k w) e (subst (λ x. p s.key x) e' first)
          | inr differs ↦
              start i w (sym (lookup-insert s.key i s.default_value m ∙ rw differs refl) ∙ found)
        ])
        j v h

  pub init-IsTyped :
      (specification : List (RawSpec J))
      → All
          (λ (spec : SettingSpec J). HasType J spec.kind spec.default_value)
          (init J specification).setting_specs
      → ((spec : SettingSpec J)
          → Member spec (init J specification).setting_specs
          → find_spec J spec.key (init J specification) ≡ some spec)
      → IsTyped J (init J specification)
  unfolding init
  init-IsTyped specification defaults found =
      let s = init J specification in
      let one : (a b : SettingSpec J)
          → Member a s.setting_specs
          → Member b s.setting_specs
          → a.key ≡ b.key
          → a ≡ b =
        λ a b ma mb e.
          some_injective a b (sym (found a ma) ∙ ap (λ k. find_spec J k s) e ∙ found b mb) in
      let fits =
        apply_defaults-All
          (λ k v. (x : SettingSpec J) → Member x s.setting_specs → x.key ≡ k → HasType J x.kind v)
          s.setting_specs []
          (All-map
            (λ a (m, h) x mx e.
              subst (λ (y : SettingSpec J). HasType J y.kind a.default_value) (one a x m mx (sym e))
                h)
            s.setting_specs (All-both _ _ s.setting_specs (All-self s.setting_specs) defaults))
          (λ j v h. absurd (cc (lookup-nil {K = Str} {V = J.Json} j, h))) in
      record {
        typed = λ spec m.
            let (w, here) = apply_defaults-sets s.setting_specs [] spec m in
            (w, here, fits spec.key w here spec m refl);
        one_kind = λ a b ma mb e. ap (λ (x : SettingSpec J). x.kind) (one a b ma mb e);
      }
