-- ===== src/Shares/Distinct.antt =====
-- A listing shows no directory twice: `seen_directories`, and the sort.
use suba_sync.Prelude.{
  Str, false, ◌≡◌, ◌≢◌, inl, inr, sym, List, [], ◌∷◌, str_eq, Bool-cases, Option-cases, contains,
  All, All-map,
}
use suba_sync.Prelude.Dict.{Dict}
use suba_sync.Directories.{Directories}
use suba_sync.Shares.{RemoteListingItem}
use suba_sync.Shares.Listing.{
  listed_child, directory_item, directory_items, str_lt, insert_sorted, sort,
}
use suba_sync.Shares.Shown.{insert_sorted-All, sort-All}
use suba_sync.Shares.First.{contains-uncons}

abbrev Differs : RemoteListingItem → RemoteListingItem → Type 0
Differs i j = j.relative_path ≢ i.relative_path

-- No two items have one path.
unfoldable pub AreDistinct : List RemoteListingItem → Type 0
AreDistinct [] = Unit
AreDistinct (i ∷ items) = All (Differs i) items × AreDistinct items

insert_sorted-AreDistinct :
    (a : RemoteListingItem) (xs : List RemoteListingItem)
    → All (Differs a) xs
    → AreDistinct xs
    → AreDistinct (insert_sorted a xs)
unfolding insert_sorted AreDistinct
insert_sorted-AreDistinct a [] apart distinct = (tt, tt)
insert_sorted-AreDistinct a (x ∷ xs) (differs, apart) (alone, distinct) =
    elim (Bool-cases (str_lt x.relative_path a.relative_path)) [
      | inl less ↦ rw less (
        insert_sorted-All (Differs x) a xs (λ e. differs (sym e)) alone,
        insert_sorted-AreDistinct a xs apart distinct,
      )
      | inr more ↦ rw more ((differs, apart), (alone, distinct))
    ]

pub sort-AreDistinct : (xs : List RemoteListingItem) → AreDistinct xs → AreDistinct (sort xs)
unfolding sort AreDistinct
sort-AreDistinct [] distinct = tt
sort-AreDistinct (x ∷ xs) (alone, distinct) =
    insert_sorted-AreDistinct x (sort xs) (sort-All (Differs x) xs alone)
      (sort-AreDistinct xs distinct)

module _ (self : Str) (d : Directories) (parent : Str) where
  -- What the loop shows is not among the directories seen before.
  Unseen : List Str → RemoteListingItem → Type 0
  Unseen seen i = contains seen i.relative_path ≡ false

  directory_items-Unseen :
      (seen : List Str) (m : Dict Str Str)
      → All (Unseen seen) (directory_items self d parent seen m)
  unfolding directory_items directory_item Unseen
  directory_items-Unseen seen [] = tt
  directory_items-Unseen seen ((path, g) ∷ rest) = elim (Option-cases (listed_child parent path)) [
    | inl absent ↦ rw (directory_items, absent) (directory_items-Unseen seen rest)
    | inr (child, found) ↦ elim (Bool-cases (contains seen child)) [
      | inl old ↦ rw (directory_items, found, old) (directory_items-Unseen seen rest)
      | inr new ↦
          rw (directory_items, found, new)
            (
              new,
              All-map (λ i unseen. (contains-uncons child i.relative_path seen unseen).1)
                  (directory_items self d parent (child ∷ seen) rest)
                  (directory_items-Unseen (child ∷ seen) rest),
            )
    ]
  ]

  pub directory_items-AreDistinct :
      (seen : List Str) (m : Dict Str Str) → AreDistinct (directory_items self d parent seen m)
  unfolding directory_items directory_item Unseen AreDistinct
  directory_items-AreDistinct seen [] = tt
  directory_items-AreDistinct seen ((path, g) ∷ rest) =
      elim (Option-cases (listed_child parent path)) [
        | inl absent ↦ rw (directory_items, absent) (directory_items-AreDistinct seen rest)
        | inr (child, found) ↦ elim (Bool-cases (contains seen child)) [
          | inl old ↦ rw (directory_items, found, old) (directory_items-AreDistinct seen rest)
          | inr new ↦
              rw (directory_items, found, new)
                (
                  All-map
                      (λ i unseen e. (contains-uncons child i.relative_path seen unseen).0 (sym e))
                      (directory_items self d parent (child ∷ seen) rest)
                      (directory_items-Unseen (child ∷ seen) rest),
                  directory_items-AreDistinct (child ∷ seen) rest,
                )
        ]
      ]
