-- ===== src/Alloc/Api/Coalesce.antt =====
-- The coalescing of `_release` in runtime/src/alloc.c on a heap that chunks fill from end to end.
use picasso_lang.Base.{
  ℕ, ◌+◌, ◌-◌, ◌≤◌, ◌<◌, ◌≡◌, ◌≢◌, inl, true, false, ◌||◌, List, ◌==◌, leb, arith, has_bit, or_low,
}
use picasso_lang.Alloc.State.{Ptr, null, Mem, poke, Arena, done}
use picasso_lang.Alloc.Sizes.{header_size}
use picasso_lang.Alloc.Chunk.{
  size_at, prev_size_at, size_bits, flag_bits, curr_in_use_flag, prev_in_use_flag,
}
use picasso_lang.Alloc.Tiles.{IsChunk, IsChunk-ge}
use picasso_lang.Alloc.Tiles.Fields.{HasRoom}
use picasso_lang.Alloc.Tiles.Unlink.{
  IsLinked, unlinked, unlinked_header, unlink_fdlist-run, unlink_sortedlist-run,
}
use picasso_lang.Alloc.Search.Carve.{size_bits-or_low}
use picasso_lang.Alloc.Api.{forward_coalesce, backward_coalesce}

-- The memory after the chunk at `c` has been given the payload `size` in place of what it had.
unfoldable pub resized : Mem → Ptr → ℕ → ℕ → Mem
resized mem c size flags =
    let m = poke mem (c + size_at) (or_low size (flag_bits (mem (c + size_at)))) in
    poke m (c + header_size + size + prev_size_at) (or_low size flags)

module _ (s : Arena) (a : Ptr) (ns : List ℕ) (room : HasRoom ns) (high : 48 ≤ a) (c : Ptr) (n m : ℕ)
    (size : size_bits (s.mem (c + size_at)) ≡ n)
    (next_size : size_bits (s.mem (c + header_size + n + size_at)) ≡ m) (here : IsChunk a ns c)
    (there : IsChunk a ns (c + header_size + n)) where
  pub forward_merges :
      IsLinked s.mem a ns (c + header_size + n)
      → has_bit (s.mem (c + header_size + n + size_at)) curr_in_use_flag ≡ false
      → 112 < m
      → c + header_size + n ≢ s.top_chunk
      → forward_coalesce c s
        ≡ done c (record s {
          mem = resized (unlinked s.mem (c + header_size + n)) c (n + header_size + m) (
              flag_bits (
                unlinked s.mem
                  (c + header_size + n)
                  (c + header_size + (n + header_size + m) + prev_size_at)));
        })
  unfolding forward_coalesce resized poke
  forward_merges linked unused large not_top = simp (
    not_null,
    next_not_null,
    size,
    next_size,
    unused,
    big,
    apart,
    unlink_fdlist-run a ns room s (c + header_size + n) there linked high,
    unlink_sortedlist-run a ns room s (c + header_size + n) there linked high,
    same_size,
    same_next_size,
    self,
    new_size,
    after_not_null,
    not_zero,
    after_apart,
  )
    where
      not_null : (c == null) ≡ false
      not_null = let above = IsChunk-ge a c ns here in ground arith

      next_not_null : (c + header_size + n == null) ≡ false
      next_not_null = ground arith

      big : leb m 112 ≡ false
      big = ground arith

      apart : (c + header_size + n == s.top_chunk) ≡ false
      apart = ground arith

      same_size : unlinked s.mem (c + header_size + n) (c + size_at) ≡ s.mem (c + size_at)
      same_size =
          unlinked_header a ns room s.mem (c + header_size + n) there linked c size_at (inl here)
            (omega arith)

      same_next_size :
          unlinked s.mem (c + header_size + n) (c + header_size + n + size_at)
          ≡ s.mem (c + header_size + n + size_at)
      same_next_size =
          unlinked_header a ns room s.mem (c + header_size + n) there linked (c + header_size + n)
            size_at (inl there) (omega arith)

      self : (c + size_at == c + size_at) ≡ true
      self = ground arith

      new_size :
          size_bits (or_low (n + header_size + m) (flag_bits (s.mem (c + size_at))))
          ≡ n + header_size + m
      new_size =
          size_bits-or_low (n + header_size + m) (flag_bits (s.mem (c + size_at))) (omega arith)
            (omega arith)

      after_not_null : (c + header_size + (n + header_size + m) == null) ≡ false
      after_not_null = ground arith

      not_zero : (n + header_size + m == 0) ≡ false
      not_zero = ground arith

      after_apart : (c + header_size + (n + header_size + m) + prev_size_at == c + size_at) ≡ false
      after_apart = ground arith

  pub forward_top :
      has_bit (s.mem (c + header_size + n + size_at)) curr_in_use_flag ≡ false
      → 112 < m
      → c + header_size + n ≡ s.top_chunk
      → forward_coalesce c s
        ≡ done null (record s { mem = resized s.mem c (n + header_size + m) 0; top_chunk = c })
  unfolding forward_coalesce resized poke
  forward_top unused large top = simp (
    not_null, next_not_null, size, next_size, unused, big, at_top, self, new_size, after_not_null,
    not_zero,
  )
    where
      not_null : (c == null) ≡ false
      not_null = let above = IsChunk-ge a c ns here in ground arith

      next_not_null : (c + header_size + n == null) ≡ false
      next_not_null = ground arith

      big : leb m 112 ≡ false
      big = ground arith

      at_top : (c + header_size + n == s.top_chunk) ≡ true
      at_top = ground arith

      self : (c + size_at == c + size_at) ≡ true
      self = ground arith

      new_size :
          size_bits (or_low (n + header_size + m) (flag_bits (s.mem (c + size_at))))
          ≡ n + header_size + m
      new_size =
          size_bits-or_low (n + header_size + m) (flag_bits (s.mem (c + size_at))) (omega arith)
            (omega arith)

      after_not_null : (c + header_size + (n + header_size + m) == null) ≡ false
      after_not_null = ground arith

      not_zero : (n + header_size + m == 0) ≡ false
      not_zero = ground arith

  pub forward_stays :
      (has_bit (s.mem (c + header_size + n + size_at)) curr_in_use_flag || leb m 112) ≡ true
      → forward_coalesce c s ≡ done c s
  unfolding forward_coalesce
  forward_stays stays = simp (not_null, next_not_null, size, next_size, stays)
    where
      not_null : (c == null) ≡ false
      not_null = let above = IsChunk-ge a c ns here in ground arith

      next_not_null : (c + header_size + n == null) ≡ false
      next_not_null = ground arith

-- The chunk at `c`, with the one of payload `q` at `p` before it.
module _ (s : Arena) (a : Ptr) (ns : List ℕ) (room : HasRoom ns) (high : 48 ≤ a) (p : Ptr) (q n : ℕ)
    (prev_size : size_bits (s.mem (p + size_at)) ≡ q)
    (size : size_bits (s.mem (p + header_size + q + size_at)) ≡ n) (here : IsChunk a ns p)
    (there : IsChunk a ns (p + header_size + q)) where
  pub backward_stays :
      has_bit (s.mem (p + header_size + q + size_at)) prev_in_use_flag ≡ true
      → backward_coalesce (p + header_size + q) s ≡ done (p + header_size + q) s
  unfolding backward_coalesce
  backward_stays used = simp (not_null, used)
    where
      not_null : (p + header_size + q == null) ≡ false
      not_null = ground arith

  pub backward_merges :
      IsLinked s.mem a ns p
      → has_bit (s.mem (p + header_size + q + size_at)) prev_in_use_flag ≡ false
      → size_bits (s.mem (p + header_size + q + prev_size_at)) ≡ q
      → 16 < q
      → backward_coalesce (p + header_size + q) s
        ≡ done p (record s {
          mem = resized (unlinked s.mem p) p (q + header_size + n) (
              flag_bits
                (unlinked s.mem p (p + header_size + (q + header_size + n) + prev_size_at)));
        })
  unfolding backward_coalesce resized poke
  backward_merges linked unused footer large = simp (
    not_null,
    next_not_null,
    unused,
    footer,
    fits,
    back,
    prev_size,
    size,
    big,
    unlink_fdlist-run a ns room s p here linked high,
    unlink_sortedlist-run a ns room s p here linked high,
    same_size,
    same_next_size,
    self,
    new_size,
    after_not_null,
    not_zero,
    after_apart,
  )
    where
      not_null : (p == null) ≡ false
      not_null = let above = IsChunk-ge a p ns here in ground arith

      next_not_null : (p + header_size + q == null) ≡ false
      next_not_null = ground arith

      fits : leb (header_size + q) (p + header_size + q) ≡ true
      fits = ground arith

      back : p + header_size + q - header_size - q ≡ p
      back = omega arith

      big : leb q 16 ≡ false
      big = ground arith

      same_size : unlinked s.mem p (p + size_at) ≡ s.mem (p + size_at)
      same_size = unlinked_header a ns room s.mem p here linked p size_at (inl here) (omega arith)

      same_next_size :
          unlinked s.mem p (p + header_size + q + size_at) ≡ s.mem (p + header_size + q + size_at)
      same_next_size =
          unlinked_header a ns room s.mem p here linked (p + header_size + q) size_at (inl there)
            (omega arith)

      self : (p + size_at == p + size_at) ≡ true
      self = ground arith

      new_size :
          size_bits (or_low (q + header_size + n) (flag_bits (s.mem (p + size_at))))
          ≡ q + header_size + n
      new_size =
          size_bits-or_low (q + header_size + n) (flag_bits (s.mem (p + size_at))) (omega arith)
            (omega arith)

      after_not_null : (p + header_size + (q + header_size + n) == null) ≡ false
      after_not_null = ground arith

      not_zero : (q + header_size + n == 0) ≡ false
      not_zero = ground arith

      after_apart : (p + header_size + (q + header_size + n) + prev_size_at == p + size_at) ≡ false
      after_apart = ground arith
