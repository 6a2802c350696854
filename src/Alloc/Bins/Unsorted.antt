-- ===== src/Alloc/Bins/Unsorted.antt =====
-- The words that the insertion into the unsorted bin of runtime/src/alloc.c writes.
use picasso_lang.Base.{ℕ, ◌+◌, ◌≤◌, ◌<◌, ◌≡◌, ◌≢◌, true, false, ◌==◌, ltb, arith, unset_bit, or_low}
use picasso_lang.Alloc.State.{Ptr, null, Mem, poke, Arena, done}
use picasso_lang.Alloc.Sizes.{header_size}
use picasso_lang.Alloc.Chunk.{
  size_at, prev_size_at, size_bits, flag_bits, curr_in_use_flag, prev_in_use_flag, fd_at, bk_at,
  next_sizeptr_at, prev_sizeptr_at,
}
use picasso_lang.Alloc.Bins.{insert_into_unsortedbin}

-- The memory after the chunk at `p` of payload `k`, before `y`, is no longer in use.
unfoldable pub freed : Mem → Ptr → Ptr → ℕ → Mem
freed mem p y k =
    let m1 = poke mem (p + size_at) (unset_bit (mem (p + size_at)) curr_in_use_flag) in
    let m2 = poke m1 (y + size_at) (unset_bit (mem (y + size_at)) prev_in_use_flag) in
    let m3 = poke m2 (y + prev_size_at) (or_low k (flag_bits (mem (y + prev_size_at)))) in
    poke (poke m3 (p + prev_sizeptr_at) null) (p + next_sizeptr_at) null

-- The memory after it has become the first of the bin of `head`.
unfoldable pub inserted : Mem → Ptr → Ptr → Ptr → Mem
inserted mem head first p =
    poke (poke (poke (poke mem (p + fd_at) first) (p + bk_at) head) (first + bk_at) p)
      (head + fd_at) p

module _ (s : Arena) (p : Ptr) (k : ℕ) (size : size_bits (s.mem (p + size_at)) ≡ k) (room : 32 ≤ k)
    (ne : p ≢ null) (head_ne : s.unsortedbin ≢ null)
    (first_ne : s.mem (s.unsortedbin + fd_at) ≢ null)
    (apart : (h : ℕ) → h < 48 → s.unsortedbin + fd_at ≢ p + h)
    (apart_next : (h : ℕ) → h < 16 → s.unsortedbin + fd_at ≢ p + header_size + k + h) where
  pub insert-run :
      insert_into_unsortedbin p s
      ≡ done tt (record s {
        mem =
            inserted
              (freed s.mem p (p + header_size + k) k)
              s.unsortedbin
              (s.mem (s.unsortedbin + fd_at))
              p;
      })
  unfolding insert_into_unsortedbin freed inserted poke
  insert-run = simp (
    head_there, not_null, not_null', first_there, same_size, self, here_next, next_here, next_first,
    first_size, large, not_zero, f8, f16, f24, f32, f40, n0, n8,
  )
    where
      head_there : (s.unsortedbin == null) ≡ false
      head_there = ground arith

      not_null : (p == null) ≡ false
      not_null = ground arith

      not_null' : (p + header_size + k == null) ≡ false
      not_null' = ground arith

      first_there : (s.mem (s.unsortedbin + fd_at) == null) ≡ false
      first_there = ground arith

      same_size : size_bits (unset_bit (s.mem (p + size_at)) curr_in_use_flag) ≡ k
      same_size = ground arith

      self : (p + size_at == p + size_at) ≡ true
      self = ground arith

      here_next : (p + size_at == p + header_size + k + size_at) ≡ false
      here_next = ground arith

      next_here : (p + header_size + k + size_at == p + size_at) ≡ false
      next_here = ground arith

      next_first : (p + header_size + k + prev_size_at == p + header_size + k + size_at) ≡ false
      next_first = ground arith

      first_size : (p + header_size + k + prev_size_at == p + size_at) ≡ false
      first_size = ground arith

      large : ltb 16 k ≡ true
      large = ground arith

      not_zero : (k == 0) ≡ false
      not_zero = ground arith

      f8 : (s.unsortedbin + fd_at == p + size_at) ≡ false
      f8 = ground (arith, apart size_at)

      f16 : (s.unsortedbin + fd_at == p + fd_at) ≡ false
      f16 = ground (arith, apart fd_at)

      f24 : (s.unsortedbin + fd_at == p + bk_at) ≡ false
      f24 = ground (arith, apart bk_at)

      f32 : (s.unsortedbin + fd_at == p + next_sizeptr_at) ≡ false
      f32 = ground (arith, apart next_sizeptr_at)

      f40 : (s.unsortedbin + fd_at == p + prev_sizeptr_at) ≡ false
      f40 = ground (arith, apart prev_sizeptr_at)

      n0 : (s.unsortedbin + fd_at == p + header_size + k + prev_size_at) ≡ false
      n0 = ground (arith, apart_next prev_size_at)

      n8 : (s.unsortedbin + fd_at == p + header_size + k + size_at) ≡ false
      n8 = ground (arith, apart_next size_at)

pub poke_other : (mem : Mem) (b v w : Ptr) → w ≢ b → poke mem b v w ≡ mem w
unfolding poke
poke_other mem b v w ne = ground arith

-- A chunk of payload `k` behind the chunks `ns` after it has been put into the bin of `head`, before `first`.
