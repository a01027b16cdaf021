-- ===== src/Swarm/Ranges.antt =====
-- The byte ranges of the chunks tile the file, when the caller's chunk count is the rounded quotient.
use suba_sync.Prelude.{ℕ, suc, ◌+◌, ◌-◌, ◌*◌, ◌^◌, ◌≤◌, ◌<◌, ◌≡◌, ap, min, arith}
use suba_sync.Swarm.{SwarmConfig, chunk_offset, chunk_length}

-- `total_chunks` chunks of `chunk_size` cover the file, and one less do not; no number is near 2^64.
pub record Covers (c : SwarmConfig) (file_size : ℕ) : Type 0 where
  pub some_size : 0 < c.chunk_size
  pub enough : file_size ≤ c.total_chunks * c.chunk_size
  pub needed : (job : ℕ) → job < c.total_chunks → job * c.chunk_size < file_size
  pub small : file_size < 2 ^ 63

chunk_offset_exact :
    (c : SwarmConfig) (file_size job : ℕ)
    → Covers c file_size
    → job < c.total_chunks
    → chunk_offset c job ≡ job * c.chunk_size
unfolding chunk_offset
chunk_offset_exact c file_size job covers inside =
    omega (arith, covers.needed job inside, covers.small)

chunk_length_exact :
    (c : SwarmConfig) (file_size job : ℕ)
    → Covers c file_size
    → job < c.total_chunks
    → chunk_length c file_size job ≡ min c.chunk_size (file_size - job * c.chunk_size)
unfolding chunk_length
chunk_length_exact c file_size job covers inside = omega (
  arith,
  covers.needed job inside,
  covers.small,
  chunk_offset_exact c file_size job covers inside,
)

-- Each chunk is a non-empty part of the file, no longer than the chunk size; the next begins where
-- it ends, and the last ends with the file.
pub chunk_length_tiles :
    (c : SwarmConfig) (file_size job : ℕ)
    → Covers c file_size
    → job < c.total_chunks
    → (0 < chunk_length c file_size job)
      × (chunk_length c file_size job ≤ c.chunk_size)
      × (chunk_offset c job + chunk_length c file_size job ≤ file_size)
      × (suc job < c.total_chunks
          → chunk_offset c (suc job) ≡ chunk_offset c job + chunk_length c file_size job)
      × (suc job ≡ c.total_chunks → chunk_offset c job + chunk_length c file_size job ≡ file_size)
chunk_length_tiles c file_size job covers inside =
    let offset = chunk_offset_exact c file_size job covers inside in
    let len = chunk_length_exact c file_size job covers inside in
    let here = covers.needed job inside in
    (
      omega (arith, len, here, covers.some_size),
      omega (arith, len),
      omega (arith, len, offset, here),
      λ more. omega (
        arith,
        len,
        offset,
        here,
        covers.needed (suc job) more,
        chunk_offset_exact c file_size (suc job) covers more,
      ),
      λ last.
          omega (arith, len, offset, here, covers.enough, ap (λ (t : ℕ). t * c.chunk_size) last),
    )
