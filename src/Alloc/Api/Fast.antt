-- ===== src/Alloc/Api/Fast.antt =====
-- Small chunks through the fast bins of runtime/src/alloc.c.
use picasso_lang.Base.{
  ℕ, ◌+◌, ◌-◌, ◌/◌, ◌≤◌, ◌≡◌, ◌≢◌, refl, true, false, ◌&&◌, ltb, leb, ◌==◌, arith, has_bit, set_bit,
  unset_bit,
}
use picasso_lang.Alloc.State.{Ptr, null, poke, Arena, done, put}
use picasso_lang.Alloc.Sizes.{mmap_threshold, header_size, fastbins_count, payload_of}
use picasso_lang.Alloc.Chunk.{get_size, size_at, fd_at, size_bits, curr_in_use_flag}
use picasso_lang.Alloc.Bins.{insert_into_fastbin}
use picasso_lang.Alloc.Search.{fastbin_search}
use picasso_lang.Alloc.Api.{allocate, find_chunk, release, release_chunk}

abbrev pub fast_index : ℕ → ℕ
fast_index n = n / 16 - 1

-- The state after a chunk has gone to its fast bin.
abbrev pub fast_released : Ptr → ℕ → Arena → Arena
fast_released fc n s = record s {
  mem =
      poke (poke s.mem (fc + fd_at) (s.fastbins (fast_index n))) (fc + size_at)
        (unset_bit (s.mem (fc + size_at)) curr_in_use_flag);
  fastbins = put s.fastbins (fast_index n) fc;
}

module _ (fc : Ptr) (s : Arena) (n : ℕ) (ne : fc ≢ null)
    (size : size_bits (s.mem (fc + size_at)) ≡ n) (lo : 32 ≤ n) (hi : n ≤ 112) where
  not_null : (fc == null) ≡ false
  not_null = ground arith

  fits : (leb 16 n && ltb (n / 16 - 1) fastbins_count) ≡ true
  fits = ground arith

  apart : (fc + size_at == fc + fd_at) ≡ false
  apart = ground arith

  insert_fast : insert_into_fastbin fc s ≡ done tt (fast_released fc n s)
  unfolding insert_into_fastbin poke
  insert_fast = simp (not_null, size, fits, apart)

  pub release_fast : release (fc + header_size) s ≡ done tt (fast_released fc n s)
  unfolding release release_chunk get_size
  release_fast = simp (not_null', back, not_null, size, size_ok, small, fast, insert_fast)
    where
      not_null' : (fc + header_size == null) ≡ false
      not_null' = ground arith

      back : fc + header_size - header_size ≡ fc
      back = omega arith

      size_ok : (n == 0) ≡ false
      size_ok = ground arith

      small : leb mmap_threshold n ≡ false
      small = ground arith

      fast : leb n 112 ≡ true
      fast = ground arith

-- The state after the head `fc` of a fast bin has been taken for a payload of `n`.
abbrev fast_taken : Ptr → ℕ → Arena → Arena
fast_taken fc n s = record s {
  mem =
      poke (poke s.mem (fc + fd_at) null) (fc + size_at)
        (set_bit (s.mem (fc + size_at)) curr_in_use_flag);
  fastbins = put s.fastbins (fast_index n) (s.mem (fc + fd_at));
}

module _ (fc : Ptr) (s : Arena) (n : ℕ) (ne : fc ≢ null) (head : s.fastbins (fast_index n) ≡ fc)
    (lo : 32 ≤ n) (hi : n ≤ 112) where
  search_fast : fastbin_search n s ≡ done fc (fast_taken fc n s)
  unfolding fastbin_search poke
  search_fast = simp (head, not_null, fits, apart)
    where
      not_null : (fc == null) ≡ false
      not_null = ground arith

      fits : (leb 16 n && ltb (n / 16 - 1) fastbins_count) ≡ true
      fits = ground arith

      apart : (fc + size_at == fc + fd_at) ≡ false
      apart = ground arith

  allocate_fast :
      (fuel r : ℕ)
      → r ≢ 0
      → payload_of r ≡ n
      → allocate fuel r s ≡ done (fc + header_size) (fast_taken fc n s)
  unfolding allocate find_chunk
  allocate_fast fuel r pos e = simp (nonzero, e, small, fast, search_fast, not_null)
    where
      not_null : (fc == null) ≡ false
      not_null = ground arith

      nonzero : (r == 0) ≡ false
      nonzero = ground arith

      small : leb mmap_threshold n ≡ false
      small = ground arith

      fast : leb n 112 ≡ true
      fast = ground arith

payload_of-ge : (r : ℕ) → 32 ≤ payload_of r
unfolding payload_of
payload_of-ge r = ground arith

-- Releasing a chunk in use of at most 112 bytes and then allocating for its size returns the same chunk,
-- leaves every fast bin as it was, and changes no word but the first of the payload.
pub allocate-release :
    (fc : Ptr) (s : Arena) (fuel r : ℕ)
    → fc ≢ null
    → r ≢ 0
    → payload_of r ≤ 112
    → size_bits (s.mem (fc + size_at)) ≡ payload_of r
    → has_bit (s.mem (fc + size_at)) curr_in_use_flag ≡ true
    → (s' : Arena) × (s'' : Arena) × (release (fc + header_size) s ≡ done tt s')
      × (allocate fuel r s' ≡ done (fc + header_size) s'')
      × ((i : ℕ) → s''.fastbins i ≡ s.fastbins i)
      × ((a : Ptr) → a ≢ fc + header_size → s''.mem a ≡ s.mem a)
unfolding poke
allocate-release fc s fuel r ne pos hi size used = (
  fast_released fc n s,
  fast_taken fc n (fast_released fc n s),
  release_fast fc s n ne size (payload_of-ge r) hi,
  allocate_fast fc (fast_released fc n s) n ne (ground arith) (payload_of-ge r) hi fuel r pos refl,
  λ i. ground arith,
  λ a other. ground arith,
)
  where
    n : ℕ
    n = payload_of r
