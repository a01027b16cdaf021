-- ===== src/FileIndex/Tests.antt =====
-- An index of one file.
use suba_sync.Prelude.{◌≡◌, codes, true, [], str_eq, str_beq}
use suba_sync.FileIndex.{FileEntry, get, add_or_update, has_file, entry, get-add_or_update}

abbrev file : FileEntry
file = record {
  path = codes "a";
  file_hash = codes "h";
  size = 10;
  chunk_size = 4;
  chunk_hashes = [];
}

get-file : get (codes "h") (add_or_update file []) ≡ entry file
unfolding str_beq
get-file = (get-add_or_update file [] (codes "h")).0

has-file : has_file (codes "h") (add_or_update file []) ≡ true
unfolding str_beq
has-file = (get-add_or_update file [] (codes "h")).1
