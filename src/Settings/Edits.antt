-- ===== src/Settings/Edits.antt =====
-- Histories of the settings: whatever is set and loaded, in any order.
use suba_sync.Prelude.{
  Str, Option, List, [], ◌∷◌, str_eq, is_empty, Bool-cases, Option-cases, inl, inr,
}
use suba_sync.Json.{JsonApi, IsJson}
use suba_sync.Settings.{Settings, done, refused, set_from_string, set_from_json}
use suba_sync.Settings.Files.{merge_from_json, load_from_file}
use suba_sync.Settings.Typed.{
  IsTyped, Outcome-cases, set_from_string-IsTyped, set_from_json-IsTyped, merge_members-IsTyped,
}

pub data Edit (J : JsonApi) : Type 0 where
  from_string : Str → Str → Edit J
  from_json : Str → J.Json → Edit J
  set_json : J.Json → Edit J
  load : (Str → Option Str) → Str → Edit J

module _ (J : JsonApi) where
  -- A refused edit leaves the settings as they are.
  unfoldable pub edit : Edit J → Settings J → Settings J
  unfolding set_from_string set_from_json merge_from_json load_from_file
  edit (from_string key text) s = elim (set_from_string J key text s) [
    | done s' ↦ s'
    | refused e ↦ s
  ]
  edit (from_json key v) s = elim (set_from_json J key v s) [ done s' ↦ s' | refused e ↦ s ]
  edit (set_json doc) s = merge_from_json J doc s
  edit (load disk path) s = (load_from_file J disk path s).0

  unfoldable pub edit_all : List (Edit J) → Settings J → Settings J
  unfolding edit
  edit_all [] s = s
  edit_all (e ∷ edits) s = edit_all edits (edit e s)

  merge_from_json-IsTyped :
      (laws : IsJson J) (doc : J.Json) (s : Settings J)
      → IsTyped J s
      → IsTyped J (merge_from_json J doc s)
  unfolding merge_from_json
  merge_from_json-IsTyped laws doc s t = elim (Option-cases (J.as_object doc)) [
    | inl absent ↦ rw (merge_from_json, absent) t
    | inr (members, found) ↦ rw (merge_from_json, found) (merge_members-IsTyped J laws members s t)
  ]

  load_from_file-IsTyped :
      (laws : IsJson J) (disk : Str → Option Str) (path : Str) (s : Settings J)
      → IsTyped J s
      → IsTyped J (load_from_file J disk path s).0
  unfolding load_from_file
  load_from_file-IsTyped laws disk path s t = elim (Bool-cases (is_empty path)) [
    | inl empty ↦ rw (load_from_file, empty) t
    | inr given ↦ elim (Option-cases (disk path)) [
      | inl closed ↦ rw (load_from_file, given, closed) t
      | inr (text, opened) ↦ elim (Option-cases (J.parse text)) [
        | inl bad ↦ rw (load_from_file, given, opened, bad) t
        | inr (doc, parsed) ↦
            rw (load_from_file, given, opened, parsed) (merge_from_json-IsTyped laws doc s t)
      ]
    ]
  ]

  edit-IsTyped :
      (laws : IsJson J) (e : Edit J) (s : Settings J) → IsTyped J s → IsTyped J (edit e s)
  unfolding edit
  edit-IsTyped laws (from_string key text) s t =
      elim (Outcome-cases (set_from_string J key text s)) [
        | inl (s', stored) ↦
            rw (edit, stored) (set_from_string-IsTyped J laws key text s s' t stored)
        | inr (err, e) ↦ rw (edit, e) t
      ]
  edit-IsTyped laws (from_json key v) s t = elim (Outcome-cases (set_from_json J key v s)) [
    | inl (s', stored) ↦ rw (edit, stored) (set_from_json-IsTyped J laws key v s s' t stored)
    | inr (err, e) ↦ rw (edit, e) t
  ]
  edit-IsTyped laws (set_json doc) s t = merge_from_json-IsTyped laws doc s t
  edit-IsTyped laws (load disk path) s t = load_from_file-IsTyped laws disk path s t

  -- From settings that are typed, after any texts, documents and files, of whatever contents, every
  -- specification has a value of its type.
  pub edit_all-IsTyped :
      (laws : IsJson J) (edits : List (Edit J)) (s : Settings J)
      → IsTyped J s
      → IsTyped J (edit_all edits s)
  unfolding edit_all
  edit_all-IsTyped laws [] s t = t
  edit_all-IsTyped laws (e ∷ edits) s t =
      edit_all-IsTyped laws edits (edit e s) (edit-IsTyped laws e s t)
