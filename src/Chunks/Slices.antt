-- ===== src/Chunks/Slices.antt =====
-- Chunks that are served: their bytes, their size, and what a worker of the downloader does with them.
use suba_sync.Prelude.{
  ℕ, zero, suc, ◌+◌, ◌↔◌, sym, ◌∙◌, codes, get_elem?, take, ◌-◌, ◌≤◌, ◌<◌, ◌≡◌, refl, ap, subst,
  min, Str, false, ◌||◌, Option, some, [], ◌∷◌, str_eq, leb, is_empty, length, drop, arith,
  length-take, length-drop, inl, inr, Bool-cases, Option-cases, str_beq_iff,
}
use suba_sync.Prelude.Dict.{lookup}
use suba_sync.Shares.{SharedFileEntry, Shares, find_local_file_by_hash}
use suba_sync.Swarm.{SwarmConfig, Shared, chunk_offset, chunk_length}
use suba_sync.Swarm.Worker.{writing, judge}
use suba_sync.Swarm.Ranges.{Covers, chunk_length_tiles}
use suba_sync.Chunks.{
  max_chunk_size, ChunkMessage, failed_chunk, clamped_length, read_at, sent_chunk, send_read,
  serve_chunk, receive_chunk,
}

is_empty-some : (s : Str) → is_empty s ≡ false → 0 < length s
is_empty-some [] h = absurd (cc h)
is_empty-some (x ∷ s) h = omega arith

is_empty-false : (s : Str) → 0 < length s → is_empty s ≡ false
is_empty-false [] h = absurd (omega (arith, h))
is_empty-false (x ∷ s) h = refl

length-read_at :
    (offset len : ℕ) (contents : Str)
    → length (read_at offset len contents) ≡ min len (length contents - offset)
length-read_at offset len contents =
    omega (arith, length-take len (drop offset contents), length-drop offset contents)

get_elem?-take : (n k : ℕ) (s : Str) → k < n → get_elem? (take n s) k ≡ get_elem? s k
get_elem?-take zero k s h = absurd (omega (arith, h))
get_elem?-take (suc n) k [] h = refl
get_elem?-take (suc n) zero (x ∷ s) h = refl
get_elem?-take (suc n) (suc k) (x ∷ s) h = get_elem?-take n k s (omega (arith, h))

get_elem?-drop : (n k : ℕ) (s : Str) → get_elem? (drop n s) k ≡ get_elem? s (n + k)
get_elem?-drop zero k s = grind arith
get_elem?-drop (suc n) k [] = grind arith
get_elem?-drop (suc n) k (x ∷ s) =
    let shift : suc n + k ≡ suc (n + k) = omega arith in
    get_elem?-drop n k s ∙ sym (ap (λ (i : ℕ). get_elem? (x ∷ s) i) shift)

-- A byte that is read is the byte of the file at its place behind the offset.
get_elem?-read_at :
    (offset len k : ℕ) (contents : Str)
    → k < len
    → get_elem? (read_at offset len contents) k ≡ get_elem? contents (offset + k)
get_elem?-read_at offset len k contents h =
    get_elem?-take len k (drop offset contents) h ∙ get_elem?-drop offset k contents

-- The file that an entry stands for can be opened, and has the size of the entry.
pub record IsServable (open_file : Str → Option Str) (s : Shares) (hash contents : Str)
    : Type 0 where
  pub entry : SharedFileEntry
  pub known : lookup hash s.shared_files_by_hash ≡ some entry
  pub opens : open_file entry.full_path ≡ some contents
  pub has_size : entry.size ≡ length contents

module _ (sha256_hex base64_encode base64_decode : Str → Str) (open_file : Str → Option Str) where
  send_read-sent_chunk :
      (request_id hash buffer : Str) (offset : ℕ)
      → 0 < length buffer
      → send_read sha256_hex base64_encode open_file request_id hash offset buffer
        ≡ sent_chunk sha256_hex base64_encode open_file request_id hash offset buffer
  unfolding send_read sent_chunk
  send_read-sent_chunk request_id hash buffer offset some_byte =
      rw (is_empty-false buffer some_byte) refl

  -- The branch that serves: the clamped length of the request is what is read.
  serve_chunk-sent_chunk :
      (request_id hash contents : Str) (offset len : ℕ) (s : Shares)
      → IsServable open_file s hash contents
      → is_empty request_id ≡ false
      → is_empty hash ≡ false
      → offset < length contents
      → 0 < len
      → serve_chunk sha256_hex base64_encode open_file request_id hash offset len s
        ≡ some (
            sent_chunk sha256_hex base64_encode open_file request_id hash offset
              (read_at offset (min (min len (length contents - offset)) max_chunk_size) contents))
  unfolding serve_chunk find_local_file_by_hash clamped_length send_read sent_chunk
  serve_chunk-sent_chunk request_id hash contents offset len s servable id_given hash_given inside
        some_len =
      let wanted = min (min len (length contents - offset)) max_chunk_size in
      let past : leb servable.entry.size offset ≡ false = ground (arith, servable.has_size) in
      let clamped : clamped_length servable.entry.size offset len ≡ wanted =
        ground (arith, servable.has_size) in
      let full : 0 < length (read_at offset wanted contents) =
        omega (arith, length-read_at offset wanted contents) in
      rw (serve_chunk, id_given, hash_given, servable.known, past, servable.opens, clamped)
        (ap some
          (send_read-sent_chunk request_id hash (read_at offset wanted contents) offset full))

  -- A request that lies inside a shared file, and asks for some bytes, is answered without an error:
  -- the answer names the request, the hash and the offset. What its data decode to is as long as the
  -- length asked for, cut at the end of the file and at the largest chunk; the answer says that length
  -- and carries the digest of those bytes; and each of them is the file's byte at the same distance
  -- behind the offset. Decoding must undo encoding.
  pub serve_chunk_lem :
      (request_id hash contents : Str) (offset len : ℕ) (s : Shares)
      → IsServable open_file s hash contents
      → is_empty request_id ≡ false
      → is_empty hash ≡ false
      → offset < length contents
      → 0 < len
      → ((bytes : Str) → base64_decode (base64_encode bytes) ≡ bytes)
      → (m : ChunkMessage) × (serve_chunk sha256_hex base64_encode open_file request_id hash offset
            len s
          ≡ some m)
        × (m.request_id ≡ request_id)
        × (m.hash ≡ hash)
        × (m.error ≡ [])
        × (m.offset ≡ offset)
        × (m.data_length ≡ min (min len (length contents - offset)) max_chunk_size)
        × (length (base64_decode m.encoded) ≡ m.data_length)
        × (m.chunk_sha ≡ sha256_hex (base64_decode m.encoded))
        × ((k : ℕ)
            → k < m.data_length
            → get_elem? (base64_decode m.encoded) k ≡ get_elem? contents (offset + k))
  unfolding sent_chunk
  serve_chunk_lem request_id hash contents offset len s servable id_given hash_given inside some_len
        decodes =
      let wanted = min (min len (length contents - offset)) max_chunk_size in
      let buffer = read_at offset wanted contents in
      let size : length buffer ≡ wanted = omega (arith, length-read_at offset wanted contents) in
      (
        sent_chunk sha256_hex base64_encode open_file request_id hash offset buffer,
        serve_chunk-sent_chunk request_id hash contents offset len s servable id_given hash_given
            inside some_len,
        refl,
        refl,
        refl,
        refl,
        size,
        ap length (decodes buffer),
        ap sha256_hex (sym (decodes buffer)),
        λ k h.
            ap (λ (b : Str). get_elem? b k) (decodes buffer)
            ∙ get_elem?-read_at offset wanted k contents (omega (arith, h, size)),
      )

  -- A chunk that the downloader asks for, of a peer that shares the file, passes its checks: the
  -- worker goes on to write exactly the chunk's bytes of the file, all of them. The largest chunk
  -- that is served must be as large as the downloader's, and decoding must undo encoding.
  pub judge-serve_chunk :
      (c : SwarmConfig) (request_id hash contents peer : Str) (job : ℕ) (s : Shares) (t : Shared)
      → IsServable open_file s hash contents
      → Covers c (length contents)
      → job < c.total_chunks
      → c.chunk_size ≤ max_chunk_size
      → is_empty request_id ≡ false
      → is_empty hash ≡ false
      → ((bytes : Str) → base64_decode (base64_encode bytes) ≡ bytes)
      → (m : ChunkMessage) × (serve_chunk sha256_hex base64_encode open_file request_id hash
            (chunk_offset c job)
            (chunk_length c (length contents) job)
            s
          ≡ some m)
        × (judge sha256_hex c job peer (receive_chunk base64_decode m) t ≡ (
          writing job peer
              (read_at (chunk_offset c job) (chunk_length c (length contents) job) contents),
          t,
        ))
        × (length (read_at (chunk_offset c job) (chunk_length c (length contents) job) contents)
            ≡ chunk_length c (length contents) job)
  unfolding judge receive_chunk sent_chunk
  judge-serve_chunk c request_id hash contents peer job s t servable covers inside small id_given
        hash_given decodes =
      let offset = chunk_offset c job in
      let len = chunk_length c (length contents) job in
      let (some_len, short, fits, next, last) =
        chunk_length_tiles c (length contents) job covers inside in
      let buffer = read_at offset len contents in
      let whole : length buffer ≡ len = omega (arith, length-read_at offset len contents, fits) in
      let cut : min (min len (length contents - offset)) max_chunk_size ≡ len =
        omega (arith, fits, short, small) in
      let full = is_empty-false buffer (omega (arith, whole, some_len)) in
      let served =
        serve_chunk-sent_chunk request_id hash contents offset len s servable id_given hash_given
          (omega (arith, fits, some_len)) some_len in
      let served' = rw cut at served in
      (
        sent_chunk sha256_hex base64_encode open_file request_id hash offset buffer,
        served',
        rw (decodes buffer, full)
            (ground (arith, str_beq_iff (sha256_hex buffer) (sha256_hex buffer))),
        whole,
      )

  -- What every answer has in common.
  abbrev pub IsReply : Str → Str → ChunkMessage → Type 0
  IsReply request_id hash m =
      (m.request_id ≡ request_id)
      × (m.hash ≡ hash)
      × (length (base64_decode m.encoded) ≤ max_chunk_size)
      × (length (base64_decode m.encoded) ≡ m.data_length)
      × ((m.error ≡ []) ↔ (0 < m.data_length))

  failed-IsReply :
      (request_id hash error : Str)
      → is_empty error ≡ false
      → base64_decode [] ≡ []
      → IsReply request_id hash (failed_chunk request_id hash error)
  unfolding failed_chunk
  failed-IsReply request_id hash error told nothing_sent = (
    refl,
    refl,
    omega (arith, ap length nothing_sent),
    ap length nothing_sent,
    (λ e. absurd (cc (e, told)), λ h. absurd (omega (arith, h))),
  )

  send_read-IsReply :
      (request_id hash contents : Str) (offset len : ℕ)
      → len ≤ max_chunk_size
      → ((bytes : Str) → base64_decode (base64_encode bytes) ≡ bytes)
      → (base64_decode [] ≡ [])
      → IsReply request_id hash (
          send_read sha256_hex base64_encode open_file request_id hash offset
            (read_at offset len contents))
  unfolding send_read failed_chunk sent_chunk
  send_read-IsReply request_id hash contents offset len small decodes nothing_sent =
      elim (Bool-cases (is_empty (read_at offset len contents))) [
        | inl nothing ↦
            rw nothing
              (failed-IsReply request_id hash (codes "Failed to read file chunk") refl nothing_sent)
        | inr something ↦
            let buffer = read_at offset len contents in
            let same = ap length (decodes buffer) in
            rw something (
              refl,
              refl,
              omega (arith, same, length-read_at offset len contents, small),
              same,
              (λ e. is_empty-some buffer something, λ h. refl),
            )
      ]

  same_some : (m m' : ChunkMessage) → some m ≡ some m' → m ≡ m'
  same_some m m' e = ground arith

  -- Whatever is asked for, and whatever stands on the disk: an answer names the request and the hash
  -- that it was asked for; what its data decode to is at most the largest chunk, and as long as the
  -- answer says; and the answer has no error exactly if it carries some bytes. Decoding must undo
  -- encoding, and decode nothing from nothing.
  pub serve_chunk-bounded :
      (request_id hash : Str) (offset len : ℕ) (s : Shares) (m : ChunkMessage)
      → ((bytes : Str) → base64_decode (base64_encode bytes) ≡ bytes)
      → base64_decode [] ≡ []
      → serve_chunk sha256_hex base64_encode open_file request_id hash offset len s ≡ some m
      → (m.request_id ≡ request_id)
        × (m.hash ≡ hash)
        × (length (base64_decode m.encoded) ≤ max_chunk_size)
        × (length (base64_decode m.encoded) ≡ m.data_length)
        × ((m.error ≡ []) ↔ (0 < m.data_length))
  unfolding serve_chunk failed_chunk send_read sent_chunk clamped_length
  serve_chunk-bounded request_id hash offset len s m decodes nothing_sent h =
      elim (Bool-cases (is_empty request_id || is_empty hash)) [
        | inl ignored ↦ absurd (cc (rw ignored at h))
        | inr asked ↦
            let h1 = rw asked at h in
            elim (Option-cases (lookup hash s.shared_files_by_hash)) [
              | inl unknown ↦
                  subst (IsReply request_id hash) (same_some _ m (rw unknown at h1))
                    (failed-IsReply request_id hash (codes "Unknown file hash") refl nothing_sent)
              | inr (entry, known) ↦
                  let h2 = rw known at h1 in
                  elim (Bool-cases (leb entry.size offset)) [
                    | inl past ↦ subst (IsReply request_id hash) (same_some _ m (rw past at h2)) (
                        failed-IsReply request_id hash (codes "Offset beyond file size") refl
                          nothing_sent)
                    | inr inside ↦
                        let h3 = rw inside at h2 in
                        elim (Option-cases (open_file entry.full_path)) [
                          | inl closed ↦
                              subst (IsReply request_id hash) (same_some _ m (rw closed at h3)) (
                                failed-IsReply request_id hash (codes "Cannot open file") refl
                                  nothing_sent)
                          | inr (contents, opens) ↦
                              subst (IsReply request_id hash) (same_some _ m (rw opens at h3)) (
                                send_read-IsReply request_id hash contents offset _ (omega arith)
                                  decodes nothing_sent)
                        ]
                  ]
            ]
      ]
