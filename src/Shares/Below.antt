-- ===== src/Shares/Below.antt =====
-- The child of a directory that a registered path stands for, described without the code's tests.
use mathlib.Core.List.{append_assoc}
use suba_sync.Prelude.{
  ℕ, Str, true, false, ◌≡◌, ◌≢◌, ◌↔◌, inl, inr, refl, sym, ap, ◌∙◌, none, some, [], ◌∷◌, ◌++◌,
  str_eq, str_beq_iff, Bool-cases, Option-cases, is_empty, if◌then◌else◌, length-append, arith,
  length, subst, ◌==◌,
}
use suba_sync.Text.{find, starts_with}
use suba_sync.Text.Laws.{
  starts_with→append, starts_with-append, find-append, take-append, drop-append,
}
use suba_sync.Paths.{slash, is_internal_path}
use suba_sync.Paths.Guard.{Within}
use suba_sync.Shares.Listing.{first_name, is_direct_child, child_path, listed_child}
use suba_sync.Shares.Children.{first_name-Within, find-first_name}

-- What stands in front of the names in a directory: nothing at the root.
abbrev pub folder : Str → Str
folder [] = []
folder (c ∷ s) = (c ∷ s) ++ slash ∷ []

-- The path lies below the directory, at or below the child, and is not reserved.
pub record IsChildOf (parent path child : Str) : Type 0 where
  pub name : Str
  pub rest : Str
  pub one_name : find slash name ≡ none
  pub below : Within name rest
  pub some_rest : rest ≢ []
  pub path_is : path ≡ folder parent ++ rest
  pub child_is : child ≡ folder parent ++ name
  pub free : is_internal_path path ≡ false

first_name-one : (name : Str) → find slash name ≡ none → first_name name ≡ name
unfolding first_name
first_name-one name one = rw (first_name, one) refl

first_name-append :
    (name rest : Str) → find slash name ≡ none → first_name (name ++ slash ∷ rest) ≡ name
unfolding first_name
first_name-append name rest one =
    rw (first_name, find-append slash name rest one) (take-append name (slash ∷ rest))

first_name_iff : (s name : Str) → (first_name s ≡ name) ↔ ((find slash name ≡ none) × Within name s)
first_name_iff s name = (
  λ e.
      subst (λ (n : Str). (find slash n ≡ none) × Within n s) e
        (find-first_name s, first_name-Within s),
  λ (one, w). elim w [
    | inl e ↦ ap first_name e ∙ first_name-one name one
    | inr (rest, e) ↦ ap first_name e ∙ first_name-append name rest one
  ],
)

child_path-folder : (parent name : Str) → child_path parent name ≡ folder parent ++ name
unfolding child_path
child_path-folder [] name = refl
child_path-folder (c ∷ s) name = sym (append_assoc (c ∷ s) (slash ∷ []) name)

is_direct_child-slash :
    (p : ℕ) (ps rest : Str)
    → is_direct_child (p ∷ ps) ((p ∷ ps) ++ slash ∷ rest)
      ≡ (if is_empty rest then none else some (first_name rest))
unfolding is_direct_child
is_direct_child-slash p ps rest =
    let starts : starts_with (ps ++ slash ∷ []) (ps ++ slash ∷ rest) ≡ true =
      subst (λ (t : Str). starts_with (ps ++ slash ∷ []) t ≡ true)
        (append_assoc ps (slash ∷ []) rest) (starts_with-append (ps ++ slash ∷ []) rest) in
    ground (arith, starts, drop-append ps slash rest)

is_direct_child-folder :
    (parent rest : Str)
    → rest ≢ []
    → is_direct_child parent (folder parent ++ rest) ≡ some (first_name rest)
unfolding is_direct_child
is_direct_child-folder parent [] some_rest = absurd (some_rest refl)
is_direct_child-folder [] (c ∷ rest) some_rest = refl
is_direct_child-folder (p ∷ ps) (c ∷ rest) some_rest =
    ap (is_direct_child (p ∷ ps)) (append_assoc (p ∷ ps) (slash ∷ []) (c ∷ rest))
    ∙ is_direct_child-slash p ps (c ∷ rest)

no_rest :
    (p : ℕ) (ps rest child : Str)
    → rest ≡ []
    → is_direct_child (p ∷ ps) ((p ∷ ps) ++ slash ∷ rest) ≢ some child
no_rest p ps rest child empty h =
    let plain = is_direct_child-slash p ps rest in cc (rw empty at plain, rw empty at h)

-- What a direct child's candidate looks like.
is_direct_child→folder :
    (parent path child : Str)
    → is_direct_child parent path ≡ some child
    → (rest : Str) × (rest ≢ []) × (path ≡ folder parent ++ rest)
unfolding is_direct_child
is_direct_child→folder parent [] child h = absurd (cc h)
is_direct_child→folder [] (x ∷ xs) child h = (x ∷ xs, λ e. cc e, refl)
is_direct_child→folder (p ∷ ps) (x ∷ xs) child h =
    elim (Bool-cases (starts_with ((p ∷ ps) ++ slash ∷ []) (x ∷ xs))) [
      | inr apart ↦ absurd (ground (arith, apart))
      | inl below ↦
          let (rest, e) = starts_with→append ((p ∷ ps) ++ slash ∷ []) (x ∷ xs) below in
          let e' = e ∙ append_assoc (p ∷ ps) (slash ∷ []) rest in
          let cut : is_direct_child (p ∷ ps) ((p ∷ ps) ++ slash ∷ rest) ≡ some child =
            subst (λ (t : Str). is_direct_child (p ∷ ps) t ≡ some child) e' h in
          (rest, λ empty. no_rest p ps rest child empty cut, e)
    ]

folder-longer : (parent rest : Str) → rest ≢ [] → folder parent ++ rest ≢ parent
folder-longer [] rest some_rest e = some_rest e
folder-longer (c ∷ s) rest some_rest e = absurd (
    omega (
      arith,
      ap length e,
      length-append ((c ∷ s) ++ slash ∷ []) rest,
      length-append (c ∷ s) (slash ∷ []),
    ))

pub some_injective : (a b : Str) → some a ≡ some b → a ≡ b
some_injective a b e = cc e

listed_child_if :
    (parent path : Str)
    → is_internal_path path ≡ false
    → path ≢ parent
    → (name : Str) → is_direct_child parent path ≡ some name
    → listed_child parent path ≡ some (child_path parent name)
unfolding listed_child
listed_child_if parent path free apart name found =
    let differs : (path == parent) ≡ false = ground (arith, str_beq_iff path parent) in
    rw (listed_child, free, differs, found) refl

IsChildOf→listed_child :
    (parent path child : Str) → IsChildOf parent path child → listed_child parent path ≡ some child
IsChildOf→listed_child parent path child b =
    let found : is_direct_child parent path ≡ some b.name =
      ap (is_direct_child parent) b.path_is
      ∙ is_direct_child-folder parent b.rest b.some_rest
      ∙ ap some ((first_name_iff b.rest b.name).1 (b.one_name, b.below)) in
    listed_child_if parent path b.free
      (λ e. folder-longer parent b.rest b.some_rest (sym b.path_is ∙ e)) b.name found
    ∙ ap some (child_path-folder parent b.name ∙ sym b.child_is)

listed_child→parts :
    (parent path child : Str)
    → listed_child parent path ≡ some child
    → (is_internal_path path ≡ false)
      × (name : Str) × (is_direct_child parent path ≡ some name)
      × (child ≡ child_path parent name)
unfolding listed_child
listed_child→parts parent path child h = elim (Bool-cases (is_internal_path path)) [
  | inl hidden ↦ absurd (cc (rw hidden at h))
  | inr free ↦
      let h' = rw free at h in
      elim (Bool-cases (path == parent)) [
        | inl same ↦ absurd (cc (rw same at h'))
        | inr differs ↦
            let h'' = rw differs at h' in
            elim (Option-cases (is_direct_child parent path)) [
              | inl absent ↦ absurd (cc (rw absent at h''))
              | inr (name, found) ↦ let h3 = rw found at h'' in (free, name, found, ground arith)
            ]
      ]
]

-- The code's tests find the child that the description names, and no other.
pub listed_child_iff :
    (parent path child : Str)
    → (listed_child parent path ≡ some child) ↔ IsChildOf parent path child
listed_child_iff parent path child = (
  λ h.
      let (free, name, found, child_is) = listed_child→parts parent path child h in
      let (rest, some_rest, path_is) = is_direct_child→folder parent path name found in
      let found' = ap (is_direct_child parent) (sym path_is) ∙ found in
      let first : first_name rest ≡ name =
        some_injective _ _ (sym (is_direct_child-folder parent rest some_rest) ∙ found') in
      let (one, below) = (first_name_iff rest name).0 first in
      record {
        name = name;
        rest = rest;
        one_name = one;
        below = below;
        some_rest = some_rest;
        path_is = path_is;
        child_is = child_is ∙ child_path-folder parent name;
        free = free;
      },
  IsChildOf→listed_child parent path child,
)
