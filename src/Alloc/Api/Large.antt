-- ===== src/Alloc/Api/Large.antt =====
-- The release of a large chunk in runtime/src/alloc.c whose neighbours stay as they are.
use picasso_lang.Base.{
  ℕ, ◌+◌, ◌-◌, ◌≤◌, ◌<◌, ◌≡◌, ◌≢◌, ◌⊎◌, true, false, ◌||◌, List, ◌∷◌, ◌++◌, ◌==◌, leb, arith,
  has_bit,
}
use picasso_lang.Alloc.State.{Ptr, null, Arena, done}
use picasso_lang.Alloc.Sizes.{mmap_threshold, header_size}
use picasso_lang.Alloc.Chunk.{
  get_size, size_at, size_bits, curr_in_use_flag, prev_in_use_flag, fd_at,
}
use picasso_lang.Alloc.Tiles.{Tiles}
use picasso_lang.Alloc.Tiles.Fields.{span, span-ge, HasRoom, IsTarget}
use picasso_lang.Alloc.Tiles.Words.{IsChunk-span, Tiles-size}
use picasso_lang.Alloc.Bins.{insert_into_unsortedbin}
use picasso_lang.Alloc.Bins.Insert.{Inserted, insert-Inserted}
use picasso_lang.Alloc.Api.{backward_coalesce, coalesce, release, release_chunk}
use picasso_lang.Alloc.Api.Coalesce.{forward_stays}
use picasso_lang.Alloc.Api.Merged.{next_size, next_there}

module _ (s : Arena) (a e : Ptr) (ns : List ℕ) (k m : ℕ) (ms : List ℕ) (high : 48 ≤ a)
    (room : HasRoom (ns ++ k ∷ m ∷ ms)) (t : Tiles s.mem a (ns ++ k ∷ m ∷ ms) e)
    (used : has_bit (s.mem (span a ns + size_at)) prev_in_use_flag ≡ true)
    (stays : (has_bit (s.mem (span a ns + header_size + k + size_at)) curr_in_use_flag || leb m 112)
      ≡ true) where
  not_null : (span a ns == null) ≡ false
  not_null = let far = span-ge a ns in ground arith

  backward : backward_coalesce (span a ns) s ≡ done (span a ns) s
  unfolding backward_coalesce
  backward = simp (not_null, used)

  coalesced : coalesce (span a ns) s ≡ done (span a ns) s
  unfolding coalesce
  coalesced = rw backward (
      forward_stays s a (ns ++ k ∷ m ∷ ms) room high (span a ns) k m
        (Tiles-size s.mem a e ns k (m ∷ ms) t) (next_size s a e ns k m ms high room t)
        (IsChunk-span a ns k (m ∷ ms)) (next_there s a e ns k m ms high room t) stays)

  release-run :
      112 < k
      → k < mmap_threshold
      → release (span a ns + header_size) s ≡ insert_into_unsortedbin (span a ns) s
  unfolding release release_chunk get_size insert_into_unsortedbin
  release-run lo hi = simp (not_null', back, not_null, size, size_ok, small, slow, coalesced)
    where
      not_null' : (span a ns + header_size == null) ≡ false
      not_null' = ground arith

      back : span a ns + header_size - header_size ≡ span a ns
      back = omega arith

      size : size_bits (s.mem (span a ns + size_at)) ≡ k
      size = Tiles-size s.mem a e ns k (m ∷ ms) t

      size_ok : (k == 0) ≡ false
      size_ok = ground arith

      small : leb mmap_threshold k ≡ false
      small = ground arith

      slow : leb k 112 ≡ false
      slow = ground arith

  -- On a heap that chunks with room for their links fill, let the head of the unsorted bin lie outside, and let its
  -- first chunk be a chunk of the heap or lie outside. Let the payload `k` of a chunk be above 112 bytes and below the
  -- size from which chunks have a mapping of their own, let its header say that the chunk before is in use, and let the
  -- next one be in use or of at most 112 bytes. Then the release of its payload ends, and the same chunks fill the heap.
  -- The chunk is the first of the unsorted bin, before the one that was, and is not in use; the next chunk says that
  -- the one before it is free, and of payload `k`, as coalescing reads it.
  pub release-Inserted :
      112 < k
      → k < mmap_threshold
      → (s.unsortedbin + 48 ≤ a) ⊎ (span a (ns ++ k ∷ m ∷ ms) ≤ s.unsortedbin)
      → IsTarget a (ns ++ k ∷ m ∷ ms) (s.mem (s.unsortedbin + fd_at))
      → s.unsortedbin ≢ null
      → s.mem (s.unsortedbin + fd_at) ≢ null
      → Inserted s a e ns k (m ∷ ms) (release (span a ns + header_size) s)
  release-Inserted lo hi outside target head_ne first_ne =
      rw (release-run lo hi)
        (insert-Inserted s a e ns k (m ∷ ms) high room t outside target head_ne first_ne)
