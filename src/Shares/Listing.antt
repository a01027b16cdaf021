-- ===== src/Shares/Listing.antt =====
-- `local_listing_items_for_path` and `local_listing_for_dir_guid`, with the sort by path.
use suba_sync.Prelude.{
  suc, Str, Bool, true, false, ◌&&◌, ◌||◌, not, Option, none, some, List, [], ◌∷◌, ◌++◌, str_eq,
  ◌==◌, contains, if◌then◌else◌, is_empty, length, ltb, drop, take, nat_beq,
}
use suba_sync.Prelude.Dict.{Dict, lookup}
use suba_sync.Text.{starts_with, find}
use suba_sync.Paths.{normalize_relative_path, is_internal_path, parent_path, slash}
use suba_sync.Directories.{Directories, resolve_directory_guid}
use suba_sync.Shares.{SharedFileEntry, RemoteListingItem, Shares}

-- `s.substr(0, s.find('/'))`, or the whole text if there is no slash.
unfoldable pub first_name : Str → Str
unfolding find
first_name s = elim (find slash s) [ none ↦ s | some i ↦ take i s ]

-- The lambda `is_direct_child`: the first name of the candidate below the parent.
unfoldable pub is_direct_child : Str → Str → Option Str
unfolding first_name starts_with
is_direct_child parent candidate =
    if is_empty candidate
    then none
    else if is_empty parent
    then some (first_name candidate)
    else if not (starts_with (parent ++ slash ∷ []) candidate)
    then none
    else if is_empty (drop (suc (length parent)) candidate)
    then none
    else some (first_name (drop (suc (length parent)) candidate))

-- `normalized.empty() ? *child : normalized + "/" + *child`
unfoldable pub child_path : Str → Str → Str
child_path parent child = if is_empty parent then child else parent ++ slash ∷ child

unfoldable pub directory_item : Str → Directories → Str → Str → RemoteListingItem
directory_item self d path guid = record {
  peer_id = self;
  hash = [];
  relative_path = path;
  size = 0;
  is_directory = true;
  directory_guid = guid;
  origin_peer = elim (lookup guid d.dir_guid_origin) [ none ↦ self | some origin ↦ origin ];
  listing_root_path = [];
}

-- The child of `parent` that an entry of the registry stands for.
unfoldable pub listed_child : Str → Str → Option Str
unfolding is_direct_child child_path
listed_child parent path =
    if is_internal_path path || path == parent then none else elim (is_direct_child parent path) [
      | none ↦ none
      | some child ↦ some (child_path parent child)
    ]

-- The loop over `path_to_dir_guid_`; `seen` is `seen_directories`.
unfoldable pub directory_items :
    Str → Directories → Str → List Str → Dict Str Str → List RemoteListingItem
unfolding listed_child directory_item
directory_items self d parent seen [] = []
directory_items self d parent seen ((path, guid) ∷ rest) = elim (listed_child parent path) [
  | none ↦ directory_items self d parent seen rest
  | some child ↦ elim (contains seen child) [
    | true ↦ directory_items self d parent seen rest
    | false ↦ directory_item self d child guid ∷ directory_items self d parent (child ∷ seen) rest
  ]
]

unfoldable pub file_item : Str → SharedFileEntry → RemoteListingItem
file_item self entry = record {
  peer_id = self;
  hash = entry.hash;
  relative_path = entry.relative_path;
  size = entry.size;
  is_directory = false;
  directory_guid = [];
  origin_peer = [];
  listing_root_path = [];
}

-- The file stands in the directory.
unfoldable pub is_in : Str → SharedFileEntry → Bool
is_in parent entry =
    not (is_internal_path entry.relative_path)
    && normalize_relative_path (parent_path entry.relative_path) == parent

-- The loop over `shared_files_by_hash_`.
unfoldable pub file_items : Str → Str → Dict Str SharedFileEntry → List RemoteListingItem
unfolding is_in file_item
file_items self parent [] = []
file_items self parent ((hash, entry) ∷ rest) =
    let more = file_items self parent rest in
    if is_in parent entry then file_item self entry ∷ more else more

-- `a < b` of `std::string`.
unfoldable pub str_lt : Str → Str → Bool
str_lt [] [] = false
str_lt [] (y ∷ ys) = true
str_lt (x ∷ xs) [] = false
str_lt (x ∷ xs) (y ∷ ys) = ltb x y || nat_beq x y && str_lt xs ys

-- `std::sort` by path; of equal paths, which the standard leaves in any order, the earlier is first.
unfoldable pub insert_sorted : RemoteListingItem → List RemoteListingItem → List RemoteListingItem
unfolding str_lt
insert_sorted a [] = a ∷ []
insert_sorted a (b ∷ bs) =
    let rest = insert_sorted a bs in
    if str_lt b.relative_path a.relative_path then b ∷ rest else a ∷ b ∷ bs

unfoldable pub sort : List RemoteListingItem → List RemoteListingItem
unfolding insert_sorted
sort [] = []
sort (a ∷ rest) = insert_sorted a (sort rest)

unfoldable pub local_listing_items_for_path : Str → Str → Shares → List RemoteListingItem
unfolding directory_items file_items sort
local_listing_items_for_path self relative_path s =
    let parent = normalize_relative_path relative_path in
    if is_internal_path parent
    then []
    else sort (directory_items self s.directories parent [] s.directories.path_to_dir_guid)
      ++ sort (file_items self parent s.shared_files_by_hash)

unfoldable pub local_listing_for_dir_guid : Str → Str → Shares → List RemoteListingItem
unfolding resolve_directory_guid local_listing_items_for_path
local_listing_for_dir_guid self guid s = elim (resolve_directory_guid guid s.directories) [
  | none ↦ []
  | some path ↦ local_listing_items_for_path self path s
]
