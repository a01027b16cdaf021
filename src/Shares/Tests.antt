-- ===== src/Shares/Tests.antt =====
-- A small share: its listing, and the theorems at it.
use suba_sync.Prelude.{
  ◌↔◌, inl, inr, Member, true, ◌≡◌, refl, Str, codes, Option, none, some, [], ◌∷◌, str_eq, str_beq,
  map, contains, All,
}
use suba_sync.Prelude.Dict.{Dict, lookup, insert}
use suba_sync.Text.{find, is_space}
use suba_sync.Paths.{normalize_relative_path, is_internal_path, elements, append_path, parent_path}
use suba_sync.Hex.{generate_directory_guid}
use suba_sync.Directories.{Draws, register_directory_hierarchy}
use suba_sync.Shares.{
  RemoteListingItem, Shares, register_local_share, find_local_file_by_hash, find_local_file_by_path,
}
use suba_sync.Shares.Files.{
  AreFiled, register_local_share-AreFiled, find-register_local_share, register_local_share-old,
}
use suba_sync.Shares.Listing.{local_listing_items_for_path, str_lt, directory_items}
use suba_sync.Shares.Shown.{IsShowable, local_listing_items_for_path-All}
use suba_sync.Shares.Below.{IsChildOf}
use suba_sync.Shares.First.{IsFirst, IsDirectory, directory_items-first}
use suba_sync.Shares.Complete.{IsListing, local_listing_items_for_path-IsListing}

abbrev me : Str
me = codes "me"

abbrev nothing_shared : Shares
nothing_shared = record {
  shared_files_by_hash = [];
  path_to_hash = [];
  directories = record { path_to_dir_guid = []; dir_guid_to_path = []; dir_guid_origin = [] };
}

abbrev draws : Draws
draws = (1, 1) ∷ (2, 2) ∷ (3, 3) ∷ []

abbrev registered : Option (Shares × Draws)
unfolding register_local_share register_directory_hierarchy normalize_relative_path is_internal_path
    elements append_path is_space insert lookup str_beq generate_directory_guid parent_path
registered =
    register_local_share me (codes "h") (codes "/a/b") (codes "/home/a/b") 7 nothing_shared draws

abbrev share_of : Option (Shares × Draws) → Shares
share_of none = nothing_shared
share_of (some (s, rest)) = s

abbrev shared : Shares
unfolding registered
shared = share_of registered

found_by_path :
    find_local_file_by_path (codes " a/b/") shared
    ≡ some (record {
      hash = codes "h";
      relative_path = codes "a/b";
      full_path = codes "/home/a/b";
      size = 7;
    })
unfolding find_local_file_by_path normalize_relative_path is_internal_path is_space str_beq lookup
    shared
found_by_path = refl

shown_in_a :
    map (λ i. i.relative_path) (local_listing_items_for_path me (codes "a") shared)
    ≡ codes "a/b" ∷ []
unfolding local_listing_items_for_path normalize_relative_path is_internal_path is_space str_beq
    lookup parent_path str_lt shared
shown_in_a = refl

shown_in_root :
    map (λ i. i.relative_path) (local_listing_items_for_path me [] shared) ≡ codes "a" ∷ []
unfolding local_listing_items_for_path normalize_relative_path is_internal_path is_space str_beq
    lookup parent_path str_lt contains shared
shown_in_root = refl

nothing_shared-AreFiled : AreFiled nothing_shared
unfolding AreFiled lookup
nothing_shared-AreFiled hash e found = absurd (cc found)

register_local_share-AreFiled_example : AreFiled shared
unfolding shared register_local_share register_directory_hierarchy normalize_relative_path
    is_internal_path elements append_path is_space insert lookup str_beq generate_directory_guid
    parent_path
register_local_share-AreFiled_example =
    register_local_share-AreFiled me (codes "h") (codes "/a/b") (codes "/home/a/b") 7 nothing_shared
      shared draws ((3, 3) ∷ []) nothing_shared-AreFiled refl

find-register_local_share_example :
    find_local_file_by_path (codes "a/b") shared ≡ find_local_file_by_hash (codes "h") shared
unfolding shared register_local_share register_directory_hierarchy normalize_relative_path
    is_internal_path elements append_path is_space insert lookup str_beq generate_directory_guid
    parent_path
find-register_local_share_example =
    (find-register_local_share me (codes "h") (codes "/a/b") (codes "/home/a/b") 7 nothing_shared
        shared draws ((3, 3) ∷ []) refl refl).1
      (codes "a/b") refl

local_listing_items_for_path-All_example :
    All IsShowable (local_listing_items_for_path me (codes "a") shared)
unfolding shared
local_listing_items_for_path-All_example = local_listing_items_for_path-All me (codes "a") shared

local_listing_items_for_path-IsListing_example :
    IsListing me (codes "a") shared (local_listing_items_for_path me (codes "a") shared)
unfolding shared normalize_relative_path is_internal_path is_space str_beq
local_listing_items_for_path-IsListing_example =
    local_listing_items_for_path-IsListing me (codes "a") shared refl

abbrev deep_first : Dict Str Str
deep_first = (codes "a/b", codes "g1") ∷ (codes "a", codes "g2") ∷ []

a_over_b : IsChildOf [] (codes "a/b") (codes "a")
unfolding find is_internal_path str_beq
a_over_b = record {
  name = codes "a";
  rest = codes "a/b";
  one_name = refl;
  below = inr (codes "b", refl);
  some_rest = λ e. cc e;
  path_is = refl;
  child_is = refl;
  free = refl;
}

deep_first-IsFirst : IsFirst [] (codes "a") (codes "g1") deep_first
unfolding IsFirst
deep_first-IsFirst = inl (a_over_b, refl)

abbrev shown_a : RemoteListingItem
shown_a = record {
  peer_id = me;
  hash = [];
  relative_path = codes "a";
  size = 0;
  is_directory = true;
  directory_guid = codes "g1";
  origin_peer = me;
  listing_root_path = [];
}

directory_items-first_example :
    (Member shown_a (directory_items me nothing_shared.directories [] [] deep_first)
      × (codes "a" ≡ codes "a"))
    ↔ IsDirectory me (codes "a") (codes "g1") nothing_shared.directories shown_a
directory_items-first_example =
    directory_items-first me nothing_shared.directories [] (codes "a") (codes "g1") deep_first
      deep_first-IsFirst shown_a

register_local_share-old_example :
    find_local_file_by_hash (codes "g") shared ≡ find_local_file_by_hash (codes "g") nothing_shared
unfolding shared register_local_share register_directory_hierarchy normalize_relative_path
    is_internal_path elements append_path is_space insert lookup str_beq generate_directory_guid
    parent_path
register_local_share-old_example =
    register_local_share-old me (codes "h") (codes "/a/b") (codes "/home/a/b") 7 nothing_shared
      shared draws ((3, 3) ∷ []) (codes "g") refl refl
