-- ===== src/Messages/Reading.antt =====
-- Reading what was built (src/peer_manager.cpp).
use suba_sync.Prelude.{
  ◌≡◌, refl, ap, ◌∙◌, Str, codes, true, false, Option, none, some, List, [], ◌∷◌, map, str_eq,
  str_beq, ◌==◌, if◌then◌else◌, is_empty, arith, ◌>>=◌,
}
use suba_sync.Prelude.Dict.{Dict, lookup}
use suba_sync.Shares.{RemoteListingItem}
use suba_sync.Json.{JsonApi, IsJson, or_fallback}
use suba_sync.Messages.{optional, item_doc, text_at, read_item, read_items}

module _ {V : Type 0} (string : Str → V) (key k v : Str) (rest : Dict Str V) where
  -- Another member is looked up behind.
  lookup-skipped : (key == k) ≡ false → lookup k (optional string key v rest) ≡ lookup k rest
  unfolding optional lookup
  lookup-skipped h = ground arith

  lookup-optional :
      (key == k) ≡ true
      → lookup k rest ≡ none
      → lookup k (optional string key v rest) ≡ (if is_empty v then none else some (string v))
  unfolding optional lookup
  lookup-optional h absent = ground (arith, h, absent)

pub bind_some :
    {A B : Type 0} (m : Option A) (f : A → Option B) (a : A) → m ≡ some a → (m >>= f) ≡ f a
bind_some m f a e = ap (λ x. x >>= f) e

-- Three keys that the test tells apart.
abbrev pub AreApart : Str → Str → Str → Type 0
AreApart a b c =
    ((a == a) ≡ true)
    × ((b == b) ≡ true)
    × ((c == c) ≡ true)
    × ((a == b) ≡ false)
    × ((a == c) ≡ false)
    × ((b == a) ≡ false)
    × ((b == c) ≡ false)
    × ((c == a) ≡ false)
    × ((c == b) ≡ false)

unfoldable pub three : (J : JsonApi) → Str → Str → Str → Str → Str → Str → Dict Str J.Json
three J a b c va vb vc = optional J.string a va (optional J.string b vb (optional J.string c vc []))

module _ (J : JsonApi) (laws : IsJson J) where
  -- A member that was left out because it is empty reads as the empty text.
  or_fallback-optional :
      (v : Str)
      → or_fallback J.as_string (if is_empty v then none else some (J.string v)) [] ≡ some v
  or_fallback-optional [] = refl
  or_fallback-optional (c ∷ v) = laws.as_string-string (c ∷ v)

  pub text_at-object :
      (m : Dict Str J.Json) (key v : Str)
      → lookup key m ≡ some (J.string v)
      → text_at J (J.object m) key ≡ some v
  text_at-object m key v h =
      laws.value_string-object m key []
      ∙ ap (λ x. or_fallback J.as_string x []) h
      ∙ laws.as_string-string v

  pub text_at-optional :
      (m : Dict Str J.Json) (key v : Str)
      → lookup key m ≡ (if is_empty v then none else some (J.string v))
      → text_at J (J.object m) key ≡ some v
  text_at-optional m key v h =
      laws.value_string-object m key []
      ∙ ap (λ x. or_fallback J.as_string x []) h
      ∙ or_fallback-optional v

  -- Three members that are left out where they are empty.
  pub lookup-three :
      (a b c va vb vc : Str)
      → AreApart a b c
      → (lookup a (three J a b c va vb vc) ≡ (if is_empty va then none else some (J.string va)))
        × (lookup b (three J a b c va vb vc) ≡ (if is_empty vb then none else some (J.string vb)))
        × (lookup c (three J a b c va vb vc) ≡ (if is_empty vc then none else some (J.string vc)))
  unfolding three lookup
  lookup-three a b c va vb vc (aa, bb, cc, ab, ac, ba, bc, ca, cb) = (
    lookup-optional J.string a a va _ aa
        (lookup-skipped J.string b a vb _ ba ∙ lookup-skipped J.string c a vc [] ca),
    lookup-skipped J.string a b va _ ab
        ∙ lookup-optional J.string b b vb _ bb (lookup-skipped J.string c b vc [] cb),
    lookup-skipped J.string a c va _ ac
        ∙ lookup-skipped J.string b c vb _ bc
        ∙ lookup-optional J.string c c vc [] cc refl,
  )

  pub read_item-item_doc :
      (from_peer : Str) (i : RemoteListingItem)
      → read_item J from_peer (item_doc J i) ≡ some (record i { peer_id = from_peer })
  unfolding read_item item_doc three str_beq lookup
  read_item-item_doc from_peer i =
      let (guid, origin, root) =
        lookup-three (codes "dir_guid") (codes "origin") (codes "root_path") i.directory_guid
          i.origin_peer i.listing_root_path
          (refl, refl, refl, refl, refl, refl, refl, refl, refl) in
      bind_some _ _ i.hash (text_at-object _ (codes "hash") i.hash refl)
      ∙ bind_some _ _ i.relative_path (text_at-object _ (codes "path") i.relative_path refl)
      ∙ bind_some _ _ i.size
          (laws.value_number-object _ (codes "size") 0 ∙ laws.get_number-number i.size)
      ∙ bind_some _ _ i.is_directory
          (laws.value_bool-object _ (codes "is_dir") false ∙ laws.as_bool-boolean i.is_directory)
      ∙ bind_some _ _ i.directory_guid (text_at-optional _ (codes "dir_guid") i.directory_guid guid)
      ∙ bind_some _ _ i.origin_peer (text_at-optional _ (codes "origin") i.origin_peer origin)
      ∙ bind_some _ _ i.listing_root_path
          (text_at-optional _ (codes "root_path") i.listing_root_path root)

  pub read_items-item_doc :
      (from_peer : Str) (items : List RemoteListingItem)
      → read_items J from_peer (map (item_doc J) items)
        ≡ some (map (λ (i : RemoteListingItem). record i { peer_id = from_peer }) items)
  unfolding read_items
  read_items-item_doc from_peer [] = refl
  read_items-item_doc from_peer (i ∷ items) =
      bind_some _ _ _ (read_item-item_doc from_peer i)
      ∙ bind_some _ _ _ (read_items-item_doc from_peer items)
