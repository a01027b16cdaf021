-- ===== src/FileIndex.antt =====
-- The file index (src/file_index.hpp, src/file_index.cpp): a map by file hash; `get` throws on a
-- missing key.
mod Tests
use suba_sync.Prelude.{
  ℕ, Str, Bool, true, false, ◌≡◌, refl, Option, none, some, List, [], ◌∷◌, map, arith, str_eq,
  str_beq_iff, ◌==◌, if◌then◌else◌,
}
use suba_sync.Prelude.Dict.{Dict, lookup, insert, has, lookup-insert}

pub record FileEntry : Type 0 where
  pub path : Str
  pub file_hash : Str
  pub size : ℕ
  pub chunk_size : ℕ
  pub chunk_hashes : List Str

abbrev pub FileIndex : Type 0
FileIndex = Dict Str FileEntry

-- `get`'s result, or its exception.
pub data GetResult : Type 0 where
  entry : FileEntry → GetResult
  no_such_file : GetResult

unfoldable pub add_or_update : FileEntry → FileIndex → FileIndex
add_or_update e index = insert e.file_hash e index

unfoldable pub list : FileIndex → List FileEntry
list index = map (λ (hash, e). e) index

unfoldable pub has_file : Str → FileIndex → Bool
has_file file_hash index = has file_hash index

unfoldable pub get : Str → FileIndex → GetResult
get file_hash index = elim (lookup file_hash index) [ none ↦ no_such_file | some e ↦ entry e ]

-- After an update the index has the entry's hash and gives the entry, and every other hash answers
-- as before, with an entry or with the exception.
pub get-add_or_update :
    (e : FileEntry) (index : FileIndex) (file_hash : Str)
    → (get file_hash (add_or_update e index)
        ≡ (if e.file_hash == file_hash then entry e else get file_hash index))
      × (has_file file_hash (add_or_update e index)
          ≡ (if e.file_hash == file_hash then true else has_file file_hash index))
unfolding get add_or_update has_file
get-add_or_update e index file_hash =
    let found = lookup-insert e.file_hash file_hash e index in
    (ground (arith, found), ground (arith, found))
