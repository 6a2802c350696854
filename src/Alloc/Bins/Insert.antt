-- ===== src/Alloc/Bins/Insert.antt =====
-- A free chunk put into the unsorted bin of runtime/src/alloc.c, on a heap that chunks fill.
use picasso_lang.Base.{
  ℕ, ◌+◌, ◌≤◌, ◌<◌, ◌≡◌, ◌≢◌, ◌⊎◌, inl, inr, sym, ap, ◌∙◌, false, List, ◌∷◌, ◌++◌, arith, has_bit,
  unset_bit, or_low,
}
use picasso_lang.Alloc.State.{Ptr, null, Mem, poke, Arena, Outcome, done}
use picasso_lang.Alloc.Sizes.{header_size}
use picasso_lang.Alloc.Chunk.{
  size_at, prev_size_at, size_bits, flag_bits, curr_in_use_flag, prev_in_use_flag, fd_at, bk_at,
  next_sizeptr_at, prev_sizeptr_at,
}
use picasso_lang.Alloc.Tiles.{Tiles, IsChunk}
use picasso_lang.Alloc.Tiles.Fields.{
  HasRoom, NoSize, IsTarget, IsTarget-NoSize, IsChunk-le, span, poke-Tiles, poke_same-Tiles,
  NoSize-behind,
}
use picasso_lang.Alloc.Tiles.Words.{
  IsSpot, IsSpot-behind, header_apart, fields_apart, IsChunk-span, Tiles-size, HasRoom-size,
}
use picasso_lang.Alloc.Search.Carve.{size_bits-or_low}
use picasso_lang.Alloc.Bins.{insert_into_unsortedbin}
use picasso_lang.Alloc.Bins.Unsorted.{freed, inserted, insert-run, poke_other}

pub record Inserted (s : Arena) (a e : Ptr) (ns : List ℕ) (k : ℕ) (ms : List ℕ)
    (r : Outcome (Unit {0})) : Type 0 where
  pub after : Arena
  pub returns : r ≡ done tt after
  pub tiles : Tiles after.mem a (ns ++ k ∷ ms) e
  pub unused : has_bit (after.mem (span a ns + size_at)) curr_in_use_flag ≡ false
  pub told : has_bit (after.mem (span a ns + header_size + k + size_at)) prev_in_use_flag ≡ false
  pub footer : size_bits (after.mem (span a ns + header_size + k + prev_size_at)) ≡ k
  pub first : after.mem (s.unsortedbin + fd_at) ≡ span a ns
  pub second : after.mem (span a ns + fd_at) ≡ s.mem (s.unsortedbin + fd_at)
  pub back : after.mem (s.mem (s.unsortedbin + fd_at) + bk_at) ≡ span a ns

module _ (s : Arena) (a e : Ptr) (ns : List ℕ) (k : ℕ) (ms : List ℕ) (high : 48 ≤ a)
    (room : HasRoom (ns ++ k ∷ ms)) (t : Tiles s.mem a (ns ++ k ∷ ms) e)
    (outside : (s.unsortedbin + 48 ≤ a) ⊎ (span a (ns ++ k ∷ ms) ≤ s.unsortedbin))
    (target : IsTarget a (ns ++ k ∷ ms) (s.mem (s.unsortedbin + fd_at))) where
  abbrev p : Ptr
  p = span a ns

  abbrev y : Ptr
  y = span a ns + header_size + k

  abbrev after_mem : Mem
  after_mem = inserted (freed s.mem p y k) s.unsortedbin (s.mem (s.unsortedbin + fd_at)) p

  p_there : IsChunk a (ns ++ k ∷ ms) p
  p_there = IsChunk-span a ns k ms

  y_there : IsSpot a (ns ++ k ∷ ms) y
  y_there = IsSpot-behind a ns k ms

  head_apart : (h : ℕ) → h < 48 → s.unsortedbin + fd_at ≢ p + h
  head_apart h lh e' =
      let (lo, hi) = IsChunk-le a p (ns ++ k ∷ ms) room p_there in
      elim outside [ inl below ↦ omega arith | inr above ↦ omega arith ]

  head_apart_next : (h : ℕ) → h < 16 → s.unsortedbin + fd_at ≢ y + h
  head_apart_next h lh e =
      header_apart a y s.unsortedbin h fd_at (ns ++ k ∷ ms) room y_there (inr outside) lh
        (omega arith) (omega arith) (sym e)

  size_multiple : size_bits (s.mem (p + size_at)) ≡ k
  size_multiple = Tiles-size s.mem a e ns k ms t

  link : (h : ℕ) → 16 ≤ h → h < 48 → NoSize a (ns ++ k ∷ ms) (p + h)
  link h lo hi = IsTarget-NoSize a p h (ns ++ k ∷ ms) room (inl p_there) lo hi

  unused-Tiles :
      Tiles
        (poke
          (poke s.mem (p + size_at) (unset_bit (s.mem (p + size_at)) curr_in_use_flag))
          (y + size_at)
          (unset_bit (s.mem (y + size_at)) prev_in_use_flag))
        a
        (ns ++ k ∷ ms)
        e
  unused-Tiles =
      let m1 = poke s.mem (p + size_at) (unset_bit (s.mem (p + size_at)) curr_in_use_flag) in
      let word = unset_bit (s.mem (y + size_at)) prev_in_use_flag in
      let other : m1 (y + size_at) ≡ s.mem (y + size_at) =
        poke_other s.mem (p + size_at) _ (y + size_at) (omega arith) in
      let kept : size_bits word ≡ size_bits (s.mem (y + size_at)) = ground arith in
      poke_same-Tiles m1 a e (y + size_at) word (ns ++ k ∷ ms) (kept ∙ ap size_bits (sym other)) (
        poke_same-Tiles s.mem a e (p + size_at) (unset_bit (s.mem (p + size_at)) curr_in_use_flag)
          (ns ++ k ∷ ms) (ground arith) t)

  after-Tiles : Tiles after_mem a (ns ++ k ∷ ms) e
  unfolding inserted freed
  after-Tiles =
      let first = s.mem (s.unsortedbin + fd_at) in
      let list = ns ++ k ∷ ms in
      poke-Tiles _ a e (s.unsortedbin + fd_at) p list
        (IsTarget-NoSize a s.unsortedbin fd_at list room (inr outside) (omega arith) (omega arith))
        (poke-Tiles _ a e (first + bk_at) p list
          (IsTarget-NoSize a first bk_at list room target (omega arith) (omega arith))
          (poke-Tiles _ a e (p + bk_at) s.unsortedbin list (link bk_at (omega arith) (omega arith))
            (poke-Tiles _ a e (p + fd_at) first list (link fd_at (omega arith) (omega arith)) (
              poke-Tiles _ a e (p + next_sizeptr_at) null list
                (link next_sizeptr_at (omega arith) (omega arith))
                (poke-Tiles _ a e (p + prev_sizeptr_at) null list
                  (link prev_sizeptr_at (omega arith) (omega arith))
                  (poke-Tiles _ a e (y + prev_size_at)
                    (or_low k (flag_bits (s.mem (y + prev_size_at)))) list (NoSize-behind a ns k ms)
                    unused-Tiles))))))

  first_apart :
      (x h : ℕ) → IsSpot a (ns ++ k ∷ ms) x → h < 16 → x + h ≢ s.mem (s.unsortedbin + fd_at) + bk_at
  first_apart x h spot lh =
      header_apart a x (s.mem (s.unsortedbin + fd_at)) h bk_at (ns ++ k ∷ ms) room spot target lh
        (omega arith) (omega arith)

  size_word : after_mem (p + size_at) ≡ unset_bit (s.mem (p + size_at)) curr_in_use_flag
  unfolding inserted freed poke
  size_word = ground (arith, head_apart size_at, first_apart p size_at (inl p_there))

  next_word : after_mem (y + size_at) ≡ unset_bit (s.mem (y + size_at)) prev_in_use_flag
  unfolding inserted freed poke
  next_word =
      ground
        (arith, head_apart_next size_at, first_apart y size_at y_there, HasRoom-size ns k ms room)

  first_word : after_mem (y + prev_size_at) ≡ or_low k (flag_bits (s.mem (y + prev_size_at)))
  unfolding inserted freed poke
  first_word = ground (
    arith,
    head_apart_next prev_size_at,
    first_apart y prev_size_at y_there,
    HasRoom-size ns k ms room,
  )

  second_word : after_mem (p + fd_at) ≡ s.mem (s.unsortedbin + fd_at)
  unfolding inserted freed poke
  second_word = ground (
    arith,
    head_apart fd_at,
    fields_apart a p (s.mem (s.unsortedbin + fd_at)) fd_at bk_at (ns ++ k ∷ ms) room p_there target,
  )

  -- On a heap that chunks with room for their links fill, let the head of the unsorted bin lie outside, and let its
  -- first chunk be a chunk of the heap or lie outside. Putting a chunk of payload `k` into the bin ends, and the same
  -- chunks fill the heap. The chunk is the first of the bin, before the one that was, and is not in use; the next
  -- chunk says that the one before it is free, and of payload `k`, as coalescing reads it.
  pub insert-Inserted :
      s.unsortedbin ≢ null
      → s.mem (s.unsortedbin + fd_at) ≢ null
      → Inserted s a e ns k ms (insert_into_unsortedbin p s)
  unfolding inserted freed poke
  insert-Inserted head_ne first_ne = record {
    after = record s { mem = after_mem };
    returns =
        insert-run s p k size_multiple (HasRoom-size ns k ms room)
          (let (lo, hi) = IsChunk-le a p (ns ++ k ∷ ms) room p_there in omega arith) head_ne
          first_ne head_apart head_apart_next;
    tiles = after-Tiles;
    unused = rw size_word (ground arith);
    told = rw next_word (ground arith);
    footer = rw first_word (
        size_bits-or_low k (flag_bits (s.mem (y + prev_size_at))) (omega (arith, size_multiple))
          (omega arith));
    first = ground arith;
    second = second_word;
    back = ground arith;
  }
