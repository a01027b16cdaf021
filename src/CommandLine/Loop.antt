-- ===== src/CommandLine/Loop.antt =====
-- What a command line that is accepted has done.
use suba_sync.Prelude.{
  ℕ, zero, suc, ◌≤◌, ◌<◌, Str, codes, Bool, true, false, ◌≡◌, ◌⊎◌, inl, inr, refl, ap, ◌∙◌, subst,
  Option, none, some, List, [], ◌∷◌, ◌++◌, arith, str_eq, Bool-cases, Option-cases, length, drop,
}
use suba_sync.Text.{starts_with}
use suba_sync.Json.{JsonApi, IsJson}
use suba_sync.Settings.{
  Settings, done, resolve_key, is_bool_setting, is_bool_literal, set_from_string,
}
use suba_sync.Settings.Typed.{IsTyped, Outcome-cases, set_from_string-IsTyped}
use suba_sync.CommandLine.{
  ArgvSpec, Failure, Parsed, ok, exit, Handled, no_option, fails, handled, nth_spec, set_option,
  bool_value, handle_option, handle_positional, after_option, parse_token, parse_args, parse,
  is_alias_token, is_option_token,
}

module _ (J : JsonApi) (specs : List ArgvSpec) where
  -- The settings are typed, and no more positional arguments are taken than there are places.
  pub IsGood : Parsed J → Type 0
  IsGood (ok s n) = IsTyped J s × (n ≤ length specs)
  IsGood (exit f) = Unit {0}

  IsFine : Handled J → Type 0
  IsFine no_option = Unit {0}
  IsFine (fails f) = Unit {0}
  IsFine (handled s used) = IsTyped J s

  set_option-IsFine :
      (laws : IsJson J) (token key value_text : Str) (used : Bool) (s : Settings J)
      → IsTyped J s
      → IsFine (set_option J token key value_text used s)
  unfolding set_option IsFine
  set_option-IsFine laws token key value_text used s t =
      elim (Outcome-cases (set_from_string J key value_text s)) [
        | inl (s', e) ↦ rw (set_option, e) (set_from_string-IsTyped J laws key value_text s s' t e)
        | inr (err, e) ↦ rw (set_option, e) tt
      ]

  handle_option-IsFine :
      (laws : IsJson J) (token : Str) (long_form : Bool) (next : Option Str) (s : Settings J)
      → IsTyped J s
      → IsFine (handle_option J token long_form next s)
  unfolding handle_option IsFine
  handle_option-IsFine laws token long_form next s t = elim (Option-cases (resolve_key J token s)) [
    | inl unknown ↦ elim (Bool-cases long_form) [
      | inl long ↦ rw (handle_option, unknown, long) tt
      | inr short ↦ rw (handle_option, unknown, short) tt
    ]
    | inr (key, known) ↦ elim (Bool-cases (is_bool_setting J key s)) [
      | inl flag ↦ rw (handle_option, known, flag) (set_option-IsFine laws token key _ _ s t)
      | inr valued ↦ elim (Option-cases next) [
        | inl last ↦ rw (handle_option, known, valued, last) tt
        | inr (v, more) ↦
            rw (handle_option, known, valued, more) (set_option-IsFine laws token key v true s t)
      ]
    ]
  ]

  nth_spec-some :
      (as_specs : List ArgvSpec) (n : ℕ) (a : ArgvSpec)
      → nth_spec as_specs n ≡ some a
      → n < length as_specs
  unfolding nth_spec
  nth_spec-some [] n a h = absurd (cc h)
  nth_spec-some (b ∷ rest) zero a h = omega arith
  nth_spec-some (b ∷ rest) (suc n) a h = omega (arith, nth_spec-some rest n a h)

  handle_positional-IsGood :
      (laws : IsJson J) (token : Str) (n : ℕ) (s : Settings J)
      → IsTyped J s
      → IsGood (handle_positional J specs token n s)
  unfolding handle_positional IsGood
  handle_positional-IsGood laws token n s t = elim (Option-cases (nth_spec specs n)) [
    | inl full ↦ rw (handle_positional, full) tt
    | inr (a, place) ↦ elim (Outcome-cases (set_from_string J a.key token s)) [
      | inl (s', e) ↦
          rw (handle_positional, place, e)
            (
              set_from_string-IsTyped J laws a.key token s s' t e,
              omega (arith, nth_spec-some specs n a place),
            )
      | inr (err, e) ↦ rw (handle_positional, place, e) tt
    ]
  ]

  after_option-IsGood :
      (other : Parsed J × Bool) (n : ℕ) (h : Handled J)
      → IsGood other.0
      → n ≤ length specs
      → IsFine h
      → IsGood (after_option J other n h).0
  unfolding after_option IsGood IsFine
  after_option-IsGood other n no_option good room fine = good
  after_option-IsGood other n (fails f) good room fine = tt
  after_option-IsGood other n (handled s used) good room fine = (fine, room)

  parse_token-IsGood :
      (laws : IsJson J) (token : Str) (next : Option Str) (n : ℕ) (s : Settings J)
      → IsTyped J s
      → n ≤ length specs
      → IsGood (parse_token J specs token next n s).0
  unfolding parse_token IsGood
  parse_token-IsGood laws token next n s t room =
      let place = handle_positional-IsGood laws token n s t in
      elim (Bool-cases (starts_with (codes "--") token)) [
        | inl long ↦
            rw (parse_token, long)
              (after_option-IsGood (ok s n, false) n _ (t, room) room
                (handle_option-IsFine laws (drop 2 token) true next s t))
        | inr not_long ↦ elim (Bool-cases (is_alias_token token)) [
          | inl short ↦
              rw (parse_token, not_long, short)
                (after_option-IsGood (handle_positional J specs token n s, false) n _ place room
                  (handle_option-IsFine laws (drop 1 token) false next s t))
          | inr plain ↦ rw (parse_token, not_long, plain) place
        ]
      ]

  Parsed-cases :
      (p : Parsed J)
      → ((s : Settings J) × ((n : ℕ) × (p ≡ ok s n))) ⊎ ((f : Failure) × (p ≡ exit f))
  Parsed-cases (ok s n) = inl (s, (n, refl))
  Parsed-cases (exit f) = inr (f, refl)

  parse_args-IsGood :
      (laws : IsJson J) (args : List Str) (n : ℕ) (s : Settings J)
      → IsTyped J s
      → n ≤ length specs
      → IsGood (parse_args J specs args n s)
  unfolding parse_args IsGood
  parse_args-IsGood laws [] n s t room = (t, room)
  parse_args-IsGood laws (token ∷ []) n s t room = parse_token-IsGood laws token none n s t room
  parse_args-IsGood laws (token ∷ next ∷ rest) n s t room =
      let good = parse_token-IsGood laws token (some next) n s t room in
      elim (Parsed-cases (parse_token J specs token (some next) n s).0) [
        | inr (f, stops) ↦ rw (parse_args, stops) tt
        | inl (s', (n', goes)) ↦
            let (t', room') = subst IsGood goes good in
            elim (Bool-cases (parse_token J specs token (some next) n s).1) [
              | inl used ↦ rw (parse_args, goes, used) (parse_args-IsGood laws rest n' s' t' room')
              | inr unused ↦
                  rw (parse_args, goes, unused)
                    (parse_args-IsGood laws (next ∷ rest) n' s' t' room')
            ]
      ]

  -- Whatever the arguments are: the command line is refused, or it leaves every setting with a value
  -- of its type and has taken no more positional arguments than the program has places for.
  pub parse-IsGood :
      (laws : IsJson J) (args : List Str) (s : Settings J)
      → IsTyped J s
      → IsGood (parse J specs args s)
  unfolding parse
  parse-IsGood laws args s t = parse_args-IsGood laws args 0 s t (omega arith)

  -- A command line of options in their long form, each with its value, in front of other arguments.
  abbrev pub render : List (Str × Str) → List Str → List Str
  render [] rest = rest
  render ((name, text) ∷ options) rest = (codes "--" ++ name) ∷ text ∷ render options rest

  -- Setting the options one after another leads from the first settings to the second. The value of
  -- a truth setting is one of its words, and does not look like an option.
  abbrev pub Accepts : List (Str × Str) → Settings J → Settings J → Type 0
  Accepts [] s s' = s ≡ s'
  Accepts ((name, text) ∷ options) s s' =
      (key : Str) × (next : Settings J) × (resolve_key J name s ≡ some key)
      × (set_from_string J key text s ≡ done next)
      × (is_bool_setting J key s ≡ true
          → (is_option_token text ≡ false) × (is_bool_literal text ≡ true))
      × Accepts options next s'

  set_option-done :
      (token key text : Str) (used : Bool) (s s' : Settings J)
      → set_from_string J key text s ≡ done s'
      → set_option J token key text used s ≡ handled s' used
  unfolding set_option
  set_option-done token key text used s s' e = rw (set_option, e) refl

  -- An option whose value is read: the loop goes on behind the value.
  parse_args-handled :
      (name text : Str) (rest : List Str) (n : ℕ) (s next : Settings J)
      → handle_option J name true (some text) s ≡ handled next true
      → parse_args J specs ((codes "--" ++ name) ∷ text ∷ rest) n s ≡ parse_args J specs rest n next
  unfolding parse_args parse_token after_option
  parse_args-handled name text rest n s next e =
      let e' : parse_token J specs (codes "--" ++ name) (some text) n s ≡ (ok next n, true) =
        rw (parse_token, e) refl in
      rw (parse_args, e', e') refl

  handle_option-accepted :
      (name text key : Str) (s next : Settings J)
      → resolve_key J name s ≡ some key
      → set_from_string J key text s ≡ done next
      → (is_bool_setting J key s ≡ true
          → (is_option_token text ≡ false) × (is_bool_literal text ≡ true))
      → handle_option J name true (some text) s ≡ handled next true
  unfolding handle_option bool_value
  handle_option-accepted name text key s next known set word =
      let stored = set_option-done name key text true s next set in
      elim (Bool-cases (is_bool_setting J key s)) [
        | inl flag ↦
            let (plain, literal) = word flag in
            let taken : bool_value J (some text) ≡ (text, true) =
              rw (bool_value, plain, literal) refl in
            rw (handle_option, known, flag, taken) stored
        | inr valued ↦ rw (handle_option, known, valued) stored
      ]

  -- Parsing options in their long form sets them one after another, and goes on with what follows.
  pub parse_args-render :
      (options : List (Str × Str)) (rest : List Str) (n : ℕ) (s s' : Settings J)
      → Accepts options s s'
      → parse_args J specs (render options rest) n s ≡ parse_args J specs rest n s'
  parse_args-render [] rest n s s' e = ap (parse_args J specs rest n) e
  parse_args-render ((name, text) ∷ options) rest n s s' (key, next, known, set, word, more) =
      parse_args-handled name text (render options rest) n s next
        (handle_option-accepted name text key s next known set word)
      ∙ parse_args-render options rest n next s' more
