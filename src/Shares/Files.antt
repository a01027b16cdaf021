-- ===== src/Shares/Files.antt =====
-- Registering a file and finding it again; no reserved path is ever found.
use suba_sync.Prelude.{
  ℕ, Str, true, false, ◌≡◌, ◌⊎◌, inl, inr, some, arith, str_eq, str_beq_iff, Bool-cases,
  Option-cases, refl, sym, ◌∙◌, subst, ◌==◌,
}
use suba_sync.Prelude.Dict.{lookup, lookup-insert}
use suba_sync.Paths.{normalize_relative_path, is_internal_path, parent_path}
use suba_sync.Directories.{Directories, Draws, register_directory_hierarchy}
use suba_sync.Shares.{
  SharedFileEntry, Shares, enter_file, register_local_share, find_local_file_by_hash,
  find_local_file_by_path,
}

-- Every entry stands under its hash, and at a path that is not reserved.
unfoldable pub AreFiled : Shares → Type 0
AreFiled s =
    (hash : Str) (e : SharedFileEntry)
    → lookup hash s.shared_files_by_hash ≡ some e
    → (e.hash ≡ hash) × (is_internal_path e.relative_path ≡ false)

AreFiled-directories :
    (s : Shares) (d : Directories) → AreFiled s → AreFiled (record s { directories = d })
unfolding AreFiled
AreFiled-directories s d filed = filed

enter_file-AreFiled :
    (hash path full_path : Str) (size : ℕ) (s : Shares)
    → AreFiled s
    → is_internal_path path ≡ false
    → AreFiled (enter_file hash path full_path size s)
unfolding AreFiled enter_file
enter_file-AreFiled hash path full_path size s filed free k e found =
    let entry : SharedFileEntry = record {
      hash = hash;
      relative_path = path;
      full_path = full_path;
      size = size;
    } in
    let e' = sym (lookup-insert hash k entry s.shared_files_by_hash) ∙ found in
    elim (Bool-cases (hash == k)) [
      | inl here ↦
          let e'' = rw here at e' in
          let same : entry ≡ e = ground arith in
          subst (λ (x : SharedFileEntry). (x.hash ≡ k) × (is_internal_path x.relative_path ≡ false))
            same ((str_beq_iff hash k).0 here, free)
      | inr other ↦ filed k e (rw other at e')
    ]

-- What a registration that returns has done: nothing at a reserved path; otherwise the file is
-- entered, and only the directory registry has changed besides.
pub register_local_share-cases :
    (self hash relative_path full_path : Str) (size : ℕ) (s s' : Shares) (draws draws' : Draws)
    → register_local_share self hash relative_path full_path size s draws ≡ some (s', draws')
    → ((is_internal_path (normalize_relative_path relative_path) ≡ true) × (s ≡ s'))
      ⊎ ((is_internal_path (normalize_relative_path relative_path) ≡ false)
          × ((d : Directories) × (enter_file hash
                  (normalize_relative_path relative_path)
                  full_path
                  size
                  (record s { directories = d })
                ≡ s')))
unfolding register_local_share
register_local_share-cases self hash relative_path full_path size s s' draws draws' h =
    let path = normalize_relative_path relative_path in
    elim (Bool-cases (is_internal_path path)) [
      | inl hidden ↦ let h' = rw hidden at h in inl (hidden, ground arith)
      | inr free ↦
          let h' = rw free at h in
          elim (Option-cases
            (register_directory_hierarchy self (parent_path path) s.directories draws)) [
              | inl out ↦ absurd (cc (rw out at h'))
              | inr ((d, rest), done) ↦ let h'' = rw done at h' in inr (free, (d, ground arith))
            ]
    ]

-- Registering a file keeps every entry under its own hash, and off the reserved trees.
pub register_local_share-AreFiled :
    (self hash relative_path full_path : Str) (size : ℕ) (s s' : Shares) (draws draws' : Draws)
    → AreFiled s
    → register_local_share self hash relative_path full_path size s draws ≡ some (s', draws')
    → AreFiled s'
register_local_share-AreFiled self hash relative_path full_path size s s' draws draws' filed h =
    elim (register_local_share-cases self hash relative_path full_path size s s' draws draws' h) [
      | inl (hidden, same) ↦ subst AreFiled same filed
      | inr (free, (d, same)) ↦ subst AreFiled same (
          enter_file-AreFiled hash (normalize_relative_path relative_path) full_path size
            (record s { directories = d }) (AreFiled-directories s d filed) free)
    ]

-- A file that is registered at a path that is not reserved is found by its hash and by its path,
-- however the path is written.
pub find-register_local_share :
    (self hash relative_path full_path : Str) (size : ℕ) (s s' : Shares) (draws draws' : Draws)
    → register_local_share self hash relative_path full_path size s draws ≡ some (s', draws')
    → is_internal_path (normalize_relative_path relative_path) ≡ false
    → (find_local_file_by_hash hash s'
        ≡ some (record {
          hash = hash;
          relative_path = normalize_relative_path relative_path;
          full_path = full_path;
          size = size;
        }))
      × ((spelling : Str)
          → normalize_relative_path spelling ≡ normalize_relative_path relative_path
          → find_local_file_by_path spelling s' ≡ find_local_file_by_hash hash s')
unfolding find_local_file_by_hash find_local_file_by_path enter_file
find-register_local_share self hash relative_path full_path size s s' draws draws' h free =
    elim (register_local_share-cases self hash relative_path full_path size s s' draws draws' h) [
      | inl (hidden, same) ↦ absurd (ground (arith, hidden, free))
      | inr (free', (d, same)) ↦
          let path = normalize_relative_path relative_path in
          let entry : SharedFileEntry = record {
            hash = hash;
            relative_path = path;
            full_path = full_path;
            size = size;
          } in
          let by_hash : lookup hash s'.shared_files_by_hash ≡ some entry =
            subst (λ (t : Shares). lookup hash t.shared_files_by_hash ≡ some entry) same
              (grind (arith, lookup-insert, str_beq_iff)) in
          let by_path : lookup path s'.path_to_hash ≡ some hash =
            subst (λ (t : Shares). lookup path t.path_to_hash ≡ some hash) same
              (grind (arith, lookup-insert, str_beq_iff)) in
          (by_hash, λ spelling e. rw (e, free, by_path, by_hash) refl)
    ]

-- Registering a file leaves the entry of every other hash: a file that is registered again with
-- other contents stays listed under its old hash too.
pub register_local_share-old :
    (self hash relative_path full_path : Str) (size : ℕ) (s s' : Shares) (draws draws' : Draws)
    (old : Str)
    → register_local_share self hash relative_path full_path size s draws ≡ some (s', draws')
    → (hash == old) ≡ false
    → find_local_file_by_hash old s' ≡ find_local_file_by_hash old s
unfolding find_local_file_by_hash enter_file
register_local_share-old self hash relative_path full_path size s s' draws draws' old h differs =
    elim (register_local_share-cases self hash relative_path full_path size s s' draws draws' h) [
      | inl (hidden, same) ↦
          subst (λ (t : Shares). find_local_file_by_hash old t ≡ find_local_file_by_hash old s) same
            refl
      | inr (free, (d, same)) ↦
          subst (λ (t : Shares). find_local_file_by_hash old t ≡ find_local_file_by_hash old s) same
            (grind (arith, lookup-insert, differs))
    ]
