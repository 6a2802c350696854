-- ===== src/Alloc/Tiles/Lists.antt =====
-- The memory without a chunk in the lists of its bin, runtime/src/alloc.c, word by word.
use picasso_lang.Base.{
  ◌+◌, ◌≡◌, ◌≢◌, inl, inr, refl, false, Bool-cases, ◌||◌, ◌==◌, if◌then◌else◌, arith,
}
use picasso_lang.Alloc.State.{Ptr, null, Mem, poke, Arena, done}
use picasso_lang.Alloc.Chunk.{
  fd_at, bk_at, next_sizeptr_at, prev_sizeptr_at, unlink_chunk_from_fdlist,
  unlink_chunk_from_sortedlist,
}

-- Memory without the chunk at `p` in the list of its bin, and in the list by sizes.
unfoldable pub off_fdlist : Mem → Ptr → Mem
off_fdlist mem p =
    let fd = mem (p + fd_at) in
    let bk = mem (p + bk_at) in
    if (bk == null) || (fd == null)
    then mem
    else poke (poke (poke (poke mem (fd + bk_at) bk) (bk + fd_at) fd) (p + bk_at) null) (p + fd_at)
        null

unfoldable pub off_sortedlist : Mem → Ptr → Mem
off_sortedlist mem p =
    let next = mem (p + next_sizeptr_at) in
    let prev = mem (p + prev_sizeptr_at) in
    if (prev == null) || (next == null)
    then mem
    else poke
        (poke (poke (poke mem (prev + next_sizeptr_at) next) (next + prev_sizeptr_at) prev)
          (p + prev_sizeptr_at) null)
        (p + next_sizeptr_at) null

pub unlink_fdlist-off :
    (p : Ptr) (s : Arena)
    → p ≢ null
    → s.mem (p + fd_at) + bk_at ≢ p + fd_at
    → unlink_chunk_from_fdlist p s ≡ done tt (record s { mem = off_fdlist s.mem p })
unfolding unlink_chunk_from_fdlist poke off_fdlist
unlink_fdlist-off p s ne apart =
    let not_null : (p == null) ≡ false = ground arith in
    let away : (p + fd_at == s.mem (p + fd_at) + bk_at) ≡ false = ground arith in
    elim (Bool-cases (s.mem (p + bk_at) == null)) [
      | inl no_bk ↦ simp (not_null, no_bk)
      | inr bk ↦ elim (Bool-cases (s.mem (p + fd_at) == null)) [
        | inl no_fd ↦ simp (not_null, bk, no_fd)
        | inr fd ↦ elim (Bool-cases (p + bk_at == s.mem (p + fd_at) + bk_at)) [
          | inl self ↦ simp (not_null, bk, fd, away, self)
          | inr other ↦ simp (not_null, bk, fd, away, other)
        ]
      ]
    ]

pub unlink_sortedlist-off :
    (p : Ptr) (s : Arena)
    → p ≢ null
    → s.mem (p + prev_sizeptr_at) + next_sizeptr_at ≢ p + prev_sizeptr_at
    → unlink_chunk_from_sortedlist p s ≡ done tt (record s { mem = off_sortedlist s.mem p })
unfolding unlink_chunk_from_sortedlist poke off_sortedlist
unlink_sortedlist-off p s ne apart =
    let not_null : (p == null) ≡ false = ground arith in
    let away : (p + prev_sizeptr_at == s.mem (p + prev_sizeptr_at) + next_sizeptr_at) ≡ false =
      ground arith in
    elim (Bool-cases (s.mem (p + prev_sizeptr_at) == null)) [
      | inl no_prev ↦ simp (not_null, no_prev)
      | inr prev ↦ elim (Bool-cases (s.mem (p + next_sizeptr_at) == null)) [
        | inl no_next ↦ simp (not_null, prev, no_next)
        | inr next ↦
            elim (Bool-cases
              (p + next_sizeptr_at == s.mem (p + prev_sizeptr_at) + next_sizeptr_at)) [
                | inl self ↦ simp (not_null, prev, next, away, self)
                | inr other ↦ simp (not_null, prev, next, away, other)
              ]
      ]
    ]

pub off_fdlist_other :
    (mem : Mem) (p w : Ptr)
    → w ≢ mem (p + fd_at) + bk_at
    → w ≢ mem (p + bk_at) + fd_at
    → w ≢ p + bk_at
    → w ≢ p + fd_at
    → off_fdlist mem p w ≡ mem w
unfolding off_fdlist poke
off_fdlist_other mem p w a b c d =
    elim (Bool-cases ((mem (p + bk_at) == null) || (mem (p + fd_at) == null))) [
      | inl none_there ↦ rw none_there refl
      | inr there ↦ rw there (ground arith)
    ]

pub off_sortedlist_other :
    (mem : Mem) (p w : Ptr)
    → w ≢ mem (p + prev_sizeptr_at) + next_sizeptr_at
    → w ≢ mem (p + next_sizeptr_at) + prev_sizeptr_at
    → w ≢ p + prev_sizeptr_at
    → w ≢ p + next_sizeptr_at
    → off_sortedlist mem p w ≡ mem w
unfolding off_sortedlist poke
off_sortedlist_other mem p w a b c d =
    elim (Bool-cases ((mem (p + prev_sizeptr_at) == null) || (mem (p + next_sizeptr_at) == null))) [
      | inl none_there ↦ rw none_there refl
      | inr there ↦ rw there (ground arith)
    ]

-- What a word of the memory after that can be.
module _ (P : Ptr → Type 0) (zero_ok : P null) where
  poke_value : (mem : Mem) (b v w : Ptr) → P v → P (mem w) → P (poke mem b v w)
  unfolding poke
  poke_value mem b v w new old = elim (Bool-cases (w == b)) [
    | inl at ↦ rw at new
    | inr away ↦ rw away old
  ]

  pub off_fdlist_value :
      (mem : Mem) (p w : Ptr)
      → P (mem (p + fd_at))
      → P (mem (p + bk_at))
      → P (mem w)
      → P (off_fdlist mem p w)
  unfolding off_fdlist
  off_fdlist_value mem p w fd bk old =
      elim (Bool-cases ((mem (p + bk_at) == null) || (mem (p + fd_at) == null))) [
        | inl none_there ↦ rw none_there old
        | inr there ↦ rw there (
            poke_value _ _ null w zero_ok
              (poke_value _ _ null w zero_ok (poke_value _ _ _ w fd (poke_value _ _ _ w bk old))))
      ]

  pub off_sortedlist_value :
      (mem : Mem) (p w : Ptr)
      → P (mem (p + next_sizeptr_at))
      → P (mem (p + prev_sizeptr_at))
      → P (mem w)
      → P (off_sortedlist mem p w)
  unfolding off_sortedlist
  off_sortedlist_value mem p w next prev old =
      elim (Bool-cases
        ((mem (p + prev_sizeptr_at) == null) || (mem (p + next_sizeptr_at) == null))) [
          | inl none_there ↦ rw none_there old
          | inr there ↦ rw there (
              poke_value _ _ null w zero_ok (
                poke_value _ _ null w zero_ok
                  (poke_value _ _ _ w prev (poke_value _ _ _ w next old))))
        ]
