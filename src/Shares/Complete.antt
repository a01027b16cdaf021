-- ===== src/Shares/Complete.antt =====
-- What a listing shows of its directory: directories in front of files, each part sorted.
use suba_sync.Prelude.{
  Str, sym, str_beq_iff, contains, true, false, ◌≡◌, ◌↔◌, inl, inr, refl, List, [], ◌∷◌, ◌++◌,
  str_eq, Bool-cases, arith, Member, ap, ◌∙◌,
}
use suba_sync.Prelude.Dict.{Dict}
use suba_sync.Directories.{Directories}
use suba_sync.Paths.{parent_path, is_internal_path, normalize_relative_path}
use suba_sync.Shares.{SharedFileEntry, RemoteListingItem, Shares}
use suba_sync.Shares.First.{IsFirst, IsDirectory, Exact, Shows, directory_items-Exact}
use suba_sync.Shares.Listing.{
  directory_items, file_item, file_items, is_in, sort, local_listing_items_for_path,
}
use suba_sync.Shares.Distinct.{AreDistinct, sort-AreDistinct, directory_items-AreDistinct}
use suba_sync.Shares.Sorted.{IsSorted, sort-IsSorted, Member-sort}

-- The item shows a file that stands in the directory: its path is not reserved, and the path above
-- it is the directory's.
pub record IsFile (self parent : Str) (entry : SharedFileEntry) (i : RemoteListingItem)
    : Type 0 where
  pub free : is_internal_path entry.relative_path ≡ false
  pub stands_in : normalize_relative_path (parent_path entry.relative_path) ≡ parent
  pub shown : i ≡ record {
    peer_id = self;
    hash = entry.hash;
    relative_path = entry.relative_path;
    size = entry.size;
    is_directory = false;
    directory_guid = [];
    origin_peer = [];
    listing_root_path = [];
  }

is_in_iff :
    (parent : Str) (entry : SharedFileEntry)
    → (is_in parent entry ≡ true) ↔ (
        (is_internal_path entry.relative_path ≡ false)
        × (normalize_relative_path (parent_path entry.relative_path) ≡ parent))
unfolding is_in
is_in_iff parent entry =
    let above = normalize_relative_path (parent_path entry.relative_path) in
    (
      λ h. (ground (arith, h), (str_beq_iff above parent).0 (ground (arith, h))),
      λ (free, e). ground (arith, free, (str_beq_iff above parent).1 e),
    )

IsFile-iff :
    (self parent : Str) (entry : SharedFileEntry) (i : RemoteListingItem)
    → ((is_in parent entry ≡ true) × (file_item self entry ≡ i)) ↔ IsFile self parent entry i
unfolding file_item
IsFile-iff self parent entry i = (
  λ (inside, e).
      let (free, stands) = (is_in_iff parent entry).0 inside in
      record { free = free; stands_in = stands; shown = sym e },
  λ f. ((is_in_iff parent entry).1 (f.free, f.stands_in), sym f.shown),
)

-- The item shows a shared file that stands in the directory.
pub FileOf : Str → Str → Dict Str SharedFileEntry → RemoteListingItem → Type 0
FileOf self parent m i =
    (hash : Str) × (entry : SharedFileEntry) × Member (hash, entry) m × IsFile self parent entry i

FileOf-cons :
    (self parent : Str) (e : Str × SharedFileEntry) (m : Dict Str SharedFileEntry)
    (i : RemoteListingItem)
    → FileOf self parent m i
    → FileOf self parent (e ∷ m) i
unfolding FileOf
FileOf-cons self parent e m i (hash, entry, there, file) = (hash, entry, inr there, file)

Member-file_items :
    (self parent : Str) (m : Dict Str SharedFileEntry) (i : RemoteListingItem)
    → Member i (file_items self parent m) ↔ FileOf self parent m i
unfolding file_items FileOf
Member-file_items self parent [] i = (λ m. elim m [ ], λ (h, e, m, file). elim m [ ])
Member-file_items self parent ((hash, entry) ∷ rest) i = elim (Bool-cases (is_in parent entry)) [
  | inl inside ↦ rw inside (
    λ m. elim m [
      | inl e ↦ (hash, entry, inl refl, (IsFile-iff self parent entry i).0 (inside, e))
      | inr there ↦
          FileOf-cons self parent (hash, entry) rest i
            ((Member-file_items self parent rest i).0 there)
    ],
    λ (h, e, m, file). elim m [
      | inl here ↦ inl (
          ap (λ (x : Str × SharedFileEntry). file_item self x.1) here
          ∙ ((IsFile-iff self parent e i).1 file).1)
      | inr there ↦ inr ((Member-file_items self parent rest i).1 (h, e, there, file))
    ],
  )
  | inr outside ↦ rw outside (
    λ m. FileOf-cons self parent (hash, entry) rest i ((Member-file_items self parent rest i).0 m),
    λ (h, e, m, file). elim m [
      | inl here ↦ absurd (
          cc (
            ap (λ (x : Str × SharedFileEntry). is_in parent x.1) here,
            outside,
            ((IsFile-iff self parent e i).1 file).0,
          ))
      | inr there ↦ (Member-file_items self parent rest i).1 (h, e, there, file)
    ],
  )
]

-- The item shows a child directory, with the GUID of the first path of the registry that stands for
-- that child.
pub DirectoryOf : Str → Str → Directories → RemoteListingItem → Type 0
DirectoryOf self parent d i =
    (child : Str) × (guid : Str) × IsFirst parent child guid d.path_to_dir_guid
    × IsDirectory self child guid d i

Member-directory_items :
    (self parent : Str) (d : Directories) (i : RemoteListingItem)
    → Member i (directory_items self d parent [] d.path_to_dir_guid) ↔ DirectoryOf self parent d i
unfolding DirectoryOf Exact Shows contains
Member-directory_items self parent d i = (
  λ m.
      let (c, g, unseen, first, dir) =
        (directory_items-Exact self d parent [] d.path_to_dir_guid i).0 m in
      (c, g, first, dir),
  λ (c, g, first, dir).
      (directory_items-Exact self d parent [] d.path_to_dir_guid i).1 (c, g, refl, first, dir),
)

-- A listing: directories in front of files, each part sorted by path; the directories are exactly the
-- registry's children, and the files exactly those that stand in the directory.
pub record IsListing (self parent : Str) (s : Shares) (items : List RemoteListingItem)
    : Type 0 where
  pub directories : List RemoteListingItem
  pub files : List RemoteListingItem
  pub whole : items ≡ directories ++ files
  pub directories_sorted : IsSorted directories
  pub directories_distinct : AreDistinct directories
  pub files_sorted : IsSorted files
  pub exact_directories :
      (i : RemoteListingItem) → Member i directories ↔ DirectoryOf self parent s.directories i
  pub exact_files :
      (i : RemoteListingItem) → Member i files ↔ FileOf self parent s.shared_files_by_hash i

-- The listing of a directory that is not reserved has two parts, each sorted by path. In front stand
-- exactly the directories directly in it at or above a registered path that is not reserved, each
-- once, with the GUID of the first such path of the iteration and that GUID's origin. Behind them stand exactly
-- the shared files that are not reserved and whose parent path is the directory.
pub local_listing_items_for_path-IsListing :
    (self relative_path : Str) (s : Shares)
    → is_internal_path (normalize_relative_path relative_path) ≡ false
    → IsListing self
        (normalize_relative_path relative_path)
        s
        (local_listing_items_for_path self relative_path s)
unfolding local_listing_items_for_path
local_listing_items_for_path-IsListing self relative_path s free =
    let parent = normalize_relative_path relative_path in
    let dirs = directory_items self s.directories parent [] s.directories.path_to_dir_guid in
    let files = file_items self parent s.shared_files_by_hash in
    record {
      directories = sort dirs;
      files = sort files;
      whole = rw free refl;
      directories_sorted = sort-IsSorted dirs;
      directories_distinct =
          sort-AreDistinct dirs (
            directory_items-AreDistinct self s.directories parent []
              s.directories.path_to_dir_guid);
      files_sorted = sort-IsSorted files;
      exact_directories = λ i. (
        λ m. (Member-directory_items self parent s.directories i).0 ((Member-sort i dirs).0 m),
        λ f. (Member-sort i dirs).1 ((Member-directory_items self parent s.directories i).1 f),
      );
      exact_files = λ i. (
        λ m. (Member-file_items self parent s.shared_files_by_hash i).0 ((Member-sort i files).0 m),
        λ f. (Member-sort i files).1 ((Member-file_items self parent s.shared_files_by_hash i).1 f),
      );
    }
