-- ===== src/Shares/Shown.antt =====
-- What a listing shows: which paths, which files, in which order.
use suba_sync.Prelude.{
  Str, false, ◌≡◌, inl, inr, List, [], ◌∷◌, str_eq, Bool-cases, Option-cases, arith, contains, All,
  All-append,
}
use suba_sync.Prelude.Dict.{Dict}
use suba_sync.Paths.{is_internal_path, normalize_relative_path}
use suba_sync.Directories.{Directories}
use suba_sync.Shares.{SharedFileEntry, RemoteListingItem, Shares}
use suba_sync.Shares.Listing.{
  listed_child, directory_item, directory_items, file_item, file_items, is_in, str_lt,
  insert_sorted, sort, local_listing_items_for_path,
}
use suba_sync.Shares.Children.{listed_child-free}

-- The item's path is not reserved.
abbrev pub IsShowable : RemoteListingItem → Type 0
IsShowable i = is_internal_path i.relative_path ≡ false

pub insert_sorted-All :
    (p : RemoteListingItem → Type 0) (a : RemoteListingItem) (xs : List RemoteListingItem)
    → p a
    → All p xs
    → All p (insert_sorted a xs)
unfolding insert_sorted
insert_sorted-All p a [] h hs = (h, tt)
insert_sorted-All p a (x ∷ xs) h (hx, hs) =
    elim (Bool-cases (str_lt x.relative_path a.relative_path)) [
      | inl less ↦ rw less (hx, insert_sorted-All p a xs h hs)
      | inr more ↦ rw more (h, (hx, hs))
    ]

pub sort-All :
    (p : RemoteListingItem → Type 0) (xs : List RemoteListingItem) → All p xs → All p (sort xs)
unfolding sort
sort-All p [] hs = tt
sort-All p (x ∷ xs) (h, hs) = insert_sorted-All p x (sort xs) h (sort-All p xs hs)

directory_items-All :
    (self : Str) (d : Directories) (parent : Str) (seen : List Str) (m : Dict Str Str)
    → All IsShowable (directory_items self d parent seen m)
unfolding directory_items directory_item
directory_items-All self d parent seen [] = tt
directory_items-All self d parent seen ((path, guid) ∷ rest) =
    elim (Option-cases (listed_child parent path)) [
      | inl absent ↦ rw (directory_items, absent) (directory_items-All self d parent seen rest)
      | inr (child, found) ↦ elim (Bool-cases (contains seen child)) [
        | inl old ↦ rw (directory_items, found, old) (directory_items-All self d parent seen rest)
        | inr new ↦
            rw (directory_items, found, new)
              (
                listed_child-free parent path child found,
                directory_items-All self d parent (child ∷ seen) rest,
              )
      ]
    ]

file_items-All :
    (self parent : Str) (m : Dict Str SharedFileEntry) → All IsShowable (file_items self parent m)
unfolding file_items file_item is_in
file_items-All self parent [] = tt
file_items-All self parent ((hash, entry) ∷ rest) =
    let more = file_items-All self parent rest in
    elim (Bool-cases (is_in parent entry)) [
      | inl inside ↦ rw inside (ground (arith, inside), more)
      | inr outside ↦ rw outside more
    ]

-- No listing shows a reserved path, whatever has been registered.
pub local_listing_items_for_path-All :
    (self relative_path : Str) (s : Shares)
    → All IsShowable (local_listing_items_for_path self relative_path s)
unfolding local_listing_items_for_path
local_listing_items_for_path-All self relative_path s =
    let parent = normalize_relative_path relative_path in
    elim (Bool-cases (is_internal_path parent)) [
      | inl hidden ↦ rw hidden tt
      | inr free ↦ rw free (
          All-append IsShowable _ _
            (sort-All IsShowable _
              (directory_items-All self s.directories parent [] s.directories.path_to_dir_guid))
            (sort-All IsShowable _ (file_items-All self parent s.shared_files_by_hash)))
    ]
