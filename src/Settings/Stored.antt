-- ===== src/Settings/Stored.antt =====
-- What a setting shows after it has been set from a text, and what stays.
use suba_sync.Prelude.{
  Str, codes, true, false, ◌≡◌, refl, ◌⊎◌, sym, ◌∙◌, ap, subst, some, ℤ, ◌==◌, str_eq, equal_refl,
  if◌then◌else◌, Bool-cases, Option-cases, inl, inr, contains,
}
use suba_sync.Prelude.Dict.{lookup, insert, lookup-insert}
use suba_sync.Text.{trim_copy}
use suba_sync.Text.Decimal.{StoiResult, value, invalid_argument, out_of_range, stoi}
use suba_sync.Json.{JsonApi, IsJson}
use suba_sync.Settings.{
  SettingType, bool, int, float, string, json, other, SettingSpec, Settings, done, find_spec,
  find_lowered, convert, convert_and_store, parse_string_value, set_from_string, to_lower,
  true_words, false_words, is_bool_literal, value_as_string,
}
use suba_sync.Settings.Typed.{Outcome-cases, done_injective, convert_fixed}

StoiResult-cases :
    (r : StoiResult) → ((n : ℤ) × (r ≡ value n)) ⊎ ((r ≡ invalid_argument) ⊎ (r ≡ out_of_range))
StoiResult-cases (value n) = inl (n, refl)
StoiResult-cases invalid_argument = inr (inl refl)
StoiResult-cases out_of_range = inr (inr refl)

module _ (J : JsonApi) where
  -- How a text that is accepted for a setting is shown: a truth value as `true` or `false`, a number
  -- as the document of `std::stoi`, a text without the white space around it.
  abbrev pub Shows : SettingType → Str → Str → Type 0
  Shows bool text out =
      (is_bool_literal text ≡ true)
      × (out ≡ (
          if contains true_words (to_lower (trim_copy text)) then codes "true" else codes "false"))
  Shows int text out = (n : ℤ) × (stoi (trim_copy text) ≡ value n) × (out ≡ J.dump (J.integer n))
  Shows float text out = Unit {0}
  Shows string text out = out ≡ trim_copy text
  Shows json text out = Unit {0}
  Shows other text out = ⊥

  -- The document stored for a text.
  abbrev Stores : SettingType → Str → J.Json → Type 0
  Stores bool text v =
      (is_bool_literal text ≡ true)
      × (v ≡ J.boolean (contains true_words (to_lower (trim_copy text))))
  Stores int text v = (n : ℤ) × (stoi (trim_copy text) ≡ value n) × (v ≡ J.integer n)
  Stores float text v = Unit {0}
  Stores string text v = v ≡ J.string (trim_copy text)
  Stores json text v = Unit {0}
  Stores other text v = ⊥

  parse_string_value-Stores :
      (t : SettingType) (text : Str) (v : J.Json)
      → parse_string_value J t text ≡ done v
      → Stores t text v
  unfolding parse_string_value is_bool_literal
  parse_string_value-Stores bool text v h =
      elim (Bool-cases (contains true_words (to_lower (trim_copy text)))) [
        | inl yes_word ↦ (
          rw yes_word refl,
          rw yes_word
              (done_injective v (J.boolean true) (sym (rw (parse_string_value, yes_word) at h))),
        )
        | inr other_word ↦
            let h' = rw (parse_string_value, other_word) at h in
            elim (Bool-cases (contains false_words (to_lower (trim_copy text)))) [
              | inl no_word ↦ (
                rw (other_word, no_word) refl,
                rw other_word (done_injective v (J.boolean false) (sym (rw no_word at h'))),
              )
              | inr neither ↦ absurd (cc (rw neither at h'))
            ]
      ]
  parse_string_value-Stores int text v h = elim (StoiResult-cases (stoi (trim_copy text))) [
    | inl (n, found) ↦
        (n, found, done_injective v (J.integer n) (sym (rw (parse_string_value, found) at h)))
    | inr (inl bad) ↦ absurd (cc (rw (parse_string_value, bad) at h))
    | inr (inr bad) ↦ absurd (cc (rw (parse_string_value, bad) at h))
  ]
  parse_string_value-Stores float text v h = tt
  parse_string_value-Stores string text v h = sym (done_injective _ v h)
  parse_string_value-Stores json text v h = tt
  parse_string_value-Stores other text v h = cc h

  -- A stored text, truth value or number is shown as what it was stored for.
  stored-Shows :
      (laws : IsJson J) (t : SettingType) (text key : Str) (v stored : J.Json) (s : Settings J)
      → Stores t text v
      → convert J t v ≡ done stored
      → lookup key s.settings ≡ some stored
      → Shows t text (value_as_string J key s)
  unfolding value_as_string
  stored-Shows laws bool text key v stored s (literal, e) kept found =
      let b = contains true_words (to_lower (trim_copy text)) in
      let same : stored ≡ J.boolean b =
        done_injective _ _
          (sym kept ∙ ap (convert J bool) e ∙ convert_fixed J laws bool _ (b, refl)) in
      (
        literal,
        rw (value_as_string, found, same, laws.as_string-boolean b, same, laws.as_bool-boolean b)
            refl,
      )
  stored-Shows laws int text key v stored s (n, parsed, e) kept found =
      let same : stored ≡ J.integer n =
        done_injective _ _
          (sym kept ∙ ap (convert J int) e ∙ convert_fixed J laws int _ (n, refl)) in
      (
        n,
        parsed,
        rw (value_as_string, found, same, laws.as_string-integer n, same, laws.as_bool-integer n)
            (ap J.dump same),
      )
  stored-Shows laws float text key v stored s e kept found = tt
  stored-Shows laws string text key v stored s e kept found =
      let same : stored ≡ J.string (trim_copy text) = done_injective _ _ (
        sym kept
        ∙ ap (convert J string) e
        ∙ convert_fixed J laws string _ (trim_copy text, refl)) in
      rw (value_as_string, found, same, laws.as_string-string (trim_copy text)) refl
  stored-Shows laws json text key v stored s e kept found = tt
  stored-Shows laws other text key v stored s e kept found = e

  -- Setting a key or an alias from a text, where it is not refused: the setting that the name stands
  -- for shows the text in the form of its type, and no other setting changes.
  pub set_from_string_lem :
      (laws : IsJson J) (key text : Str) (s s' : Settings J)
      → set_from_string J key text s ≡ done s'
      → (spec : SettingSpec J) × (find_spec J key s ≡ some spec)
        × Shows spec.kind text (value_as_string J spec.key s')
        × ((j : Str) → (spec.key == j) ≡ false → lookup j s'.settings ≡ lookup j s.settings)
  unfolding set_from_string find_spec convert_and_store
  set_from_string_lem laws key text s s' h =
      elim (Option-cases (find_lowered J (to_lower key) s.setting_specs)) [
        | inl unknown ↦ absurd (cc (rw (set_from_string, unknown) at h))
        | inr (spec, found) ↦
            let h1 = rw (set_from_string, found) at h in
            elim (Outcome-cases (parse_string_value J spec.kind text)) [
              | inr (err, e) ↦ absurd (cc (rw e at h1))
              | inl (v, parsed) ↦
                  let h2 : convert_and_store J spec v s ≡ done s' = rw parsed at h1 in
                  elim (Outcome-cases (convert J spec.kind v)) [
                    | inr (err, e) ↦ absurd (cc (rw (convert_and_store, e) at h2))
                    | inl (stored, kept) ↦
                        let after : Settings J = record s {
                          settings = insert spec.key stored s.settings;
                        } in
                        let same : after ≡ s' =
                          done_injective after s' (rw (convert_and_store, kept) at h2) in
                        (
                          spec,
                          found,
                          subst
                              (λ (u : Settings J).
                                Shows spec.kind text (value_as_string J spec.key u))
                              same
                              (stored-Shows laws spec.kind text spec.key v stored after
                                (parse_string_value-Stores spec.kind text v parsed) kept
                                (lookup-insert spec.key spec.key stored s.settings
                                  ∙ rw (equal_refl spec.key) refl)),
                          λ j differs.
                              subst (λ (u : Settings J). lookup j u.settings ≡ lookup j s.settings)
                                same (lookup-insert spec.key j stored s.settings ∙ rw differs refl),
                        )
                  ]
            ]
      ]
