-- ===== src/Json/Sample.antt =====
-- A type of documents that has the interface's laws, to run the tests on.
use suba_sync.Prelude.{
  ℕ, Str, Bool, Option, none, some, List, [], ◌∷◌, map, ◌≡◌, refl, ap, ℤ, pos, str_eq,
}
use suba_sync.Prelude.Dict.{Dict, lookup}
use suba_sync.Json.{JsonApi, IsJson, or_fallback}

mutual
  pub data Doc : Type 0 where
    obj : Members → Doc
    arr : Docs → Doc
    text : Str → Doc
    natural : ℕ → Doc
    whole : ℤ → Doc
    truth : Bool → Doc

  pub data Docs : Type 0 where
    nil : Docs
    cons : Doc → Docs → Docs

  pub data Members : Type 0 where
    end : Members
    entry : Str → Doc → Members → Members

abbrev from_docs : Docs → List Doc
from_docs nil = []
from_docs (cons d ds) = d ∷ from_docs ds

abbrev to_docs : List Doc → Docs
to_docs [] = nil
to_docs (d ∷ ds) = cons d (to_docs ds)

abbrev from_members : Members → Dict Str Doc
from_members end = []
from_members (entry k d ms) = (k, d) ∷ from_members ms

abbrev to_members : Dict Str Doc → Members
to_members [] = end
to_members ((k, d) ∷ ms) = entry k d (to_members ms)

from_docs-to_docs : (ds : List Doc) → from_docs (to_docs ds) ≡ ds
from_docs-to_docs [] = refl
from_docs-to_docs (d ∷ ds) = ap (λ xs. d ∷ xs) (from_docs-to_docs ds)

from_members-to_members : (ms : Dict Str Doc) → from_members (to_members ms) ≡ ms
from_members-to_members [] = refl
from_members-to_members ((k, d) ∷ ms) = ap (λ xs. (k, d) ∷ xs) (from_members-to_members ms)

abbrev members_of : Doc → Option (Dict Str Doc)
members_of (obj ms) = some (from_members ms)
members_of _ = none

abbrev elements_of : Doc → Option (List Doc)
elements_of (arr ds) = some (from_docs ds)
elements_of _ = none

abbrev values_of : Dict Str Doc → List Doc
values_of ms = map (λ (k, d). d) ms

abbrev visited : Doc → List Doc
visited (arr ds) = from_docs ds
visited (obj ms) = values_of (from_members ms)
visited d = d ∷ []

abbrev text_of : Doc → Option Str
text_of (text s) = some s
text_of _ = none

abbrev truth_of : Doc → Option Bool
truth_of (truth b) = some b
truth_of _ = none

abbrev integer_of : Doc → Option ℤ
integer_of (whole n) = some n
integer_of (natural n) = some (pos n)
integer_of _ = none

abbrev natural_of : Doc → Option ℕ
natural_of (natural n) = some n
natural_of _ = none

abbrev member_of : Doc → Str → Option Doc
member_of (obj ms) k = lookup k (from_members ms)
member_of _ k = none

-- With any parser.
abbrev pub sample_with : (Str → Option Doc) → JsonApi
sample_with parser = record {
  Json = Doc;
  object = λ m. obj (to_members m);
  array = λ ds. arr (to_docs ds);
  string = text;
  number = natural;
  integer = whole;
  boolean = truth;
  as_object = members_of;
  as_array = elements_of;
  elements = visited;
  as_string = text_of;
  as_bool = truth_of;
  as_integer = integer_of;
  get_number = natural_of;
  as_double = λ d. none;
  stod = λ s. none;
  parse = parser;
  dump = λ d. [];
  dump_indented = λ d. [];
  value_string = λ d k fallback. or_fallback text_of (member_of d k) fallback;
  value_number = λ d k fallback. or_fallback natural_of (member_of d k) fallback;
  value_integer = λ d k fallback. or_fallback integer_of (member_of d k) fallback;
  value_bool = λ d k fallback. or_fallback truth_of (member_of d k) fallback;
  member = member_of;
}

abbrev pub sample : JsonApi
sample = sample_with (λ s. some (text s))

pub sample_with-IsJson : (parser : Str → Option Doc) → IsJson (sample_with parser)
sample_with-IsJson parser = record {
  as_object-object = λ m. ap some (from_members-to_members m);
  as_array-array = λ ds. ap some (from_docs-to_docs ds);
  elements-array = λ ds. from_docs-to_docs ds;
  as_string-string = λ s. refl;
  as_bool-boolean = λ b. refl;
  as_integer-integer = λ n. refl;
  as_string-boolean = λ b. refl;
  as_string-integer = λ n. refl;
  as_bool-integer = λ n. refl;
  as_double-as_double = λ v d h. absurd (cc h);
  get_number-number = λ n. refl;
  member-object = λ m k. ap (λ ms. lookup k ms) (from_members-to_members m);
  value_string-object =
      λ m k d. ap (λ ms. or_fallback text_of (lookup k ms) d) (from_members-to_members m);
  value_number-object =
      λ m k d. ap (λ ms. or_fallback natural_of (lookup k ms) d) (from_members-to_members m);
  value_integer-object =
      λ m k d. ap (λ ms. or_fallback integer_of (lookup k ms) d) (from_members-to_members m);
  value_bool-object =
      λ m k d. ap (λ ms. or_fallback truth_of (lookup k ms) d) (from_members-to_members m);
}

pub sample-IsJson : IsJson sample
sample-IsJson = sample_with-IsJson (λ s. some (text s))
