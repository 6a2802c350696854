-- ===== src/Alloc/Tiles/Unlink.antt =====
-- The two functions of runtime/src/alloc.c that take a free chunk out of its lists, on a heap that chunks fill.
use picasso_lang.Base.{
  ℕ, ◌+◌, ◌≤◌, ◌<◌, ◌≡◌, ◌≢◌, inl, inr, sym, ap, ◌∙◌, Bool-cases, ◌||◌, List, ◌==◌, arith,
}
use picasso_lang.Alloc.State.{Ptr, null, Mem, Arena, done}
use picasso_lang.Alloc.Chunk.{
  fd_at, bk_at, next_sizeptr_at, prev_sizeptr_at, unlink_chunk_from_fdlist,
  unlink_chunk_from_sortedlist,
}
use picasso_lang.Alloc.Tiles.{Tiles, IsChunk, IsChunk-ge}
use picasso_lang.Alloc.Tiles.Fields.{HasRoom, IsTarget, IsTarget-NoSize, poke-Tiles}
use picasso_lang.Alloc.Tiles.Words.{IsSpot, header_apart, fields_apart}
use picasso_lang.Alloc.Tiles.Lists.{
  off_fdlist, off_sortedlist, unlink_fdlist-off, unlink_sortedlist-off, off_fdlist_other,
  off_sortedlist_other, off_fdlist_value, off_sortedlist_value,
}

-- The links of a chunk point to where they may; NULL is an address below every heap.
pub record IsLinked (mem : Mem) (a : Ptr) (ns : List ℕ) (p : Ptr) : Type 0 where
  pub fd : IsTarget a ns (mem (p + fd_at))
  pub bk : IsTarget a ns (mem (p + bk_at))
  pub next : IsTarget a ns (mem (p + next_sizeptr_at))
  pub prev : IsTarget a ns (mem (p + prev_sizeptr_at))

-- The memory after the chunk at `p` has been taken out of both lists.
unfoldable pub unlinked : Mem → Ptr → Mem
unlinked mem p = off_sortedlist (off_fdlist mem p) p

module _ (a e : Ptr) (ns : List ℕ) (room : HasRoom ns) (mem : Mem) (p : Ptr)
    (i : IsChunk a ns p) where
  off_fdlist-Tiles :
      IsTarget a ns (mem (p + fd_at))
      → IsTarget a ns (mem (p + bk_at))
      → Tiles mem a ns e
      → Tiles (off_fdlist mem p) a ns e
  unfolding off_fdlist
  off_fdlist-Tiles fd bk t =
      elim (Bool-cases ((mem (p + bk_at) == null) || (mem (p + fd_at) == null))) [
        | inl none_there ↦ rw none_there t
        | inr there ↦ rw there (
            poke-Tiles _ a e (p + fd_at) null ns
              (IsTarget-NoSize a p fd_at ns room (inl i) (omega arith) (omega arith))
              (poke-Tiles _ a e (p + bk_at) null ns
                (IsTarget-NoSize a p bk_at ns room (inl i) (omega arith) (omega arith))
                (poke-Tiles _ a e (mem (p + bk_at) + fd_at) (mem (p + fd_at)) ns
                  (IsTarget-NoSize a (mem (p + bk_at)) fd_at ns room bk (omega arith) (omega arith))
                  (poke-Tiles mem a e (mem (p + fd_at) + bk_at) (mem (p + bk_at)) ns
                    (IsTarget-NoSize a (mem (p + fd_at)) bk_at ns room fd (omega arith)
                      (omega arith))
                    t))))
      ]

  off_sortedlist-Tiles :
      IsTarget a ns (mem (p + next_sizeptr_at))
      → IsTarget a ns (mem (p + prev_sizeptr_at))
      → Tiles mem a ns e
      → Tiles (off_sortedlist mem p) a ns e
  unfolding off_sortedlist
  off_sortedlist-Tiles next prev t =
      elim (Bool-cases
        ((mem (p + prev_sizeptr_at) == null) || (mem (p + next_sizeptr_at) == null))) [
          | inl none_there ↦ rw none_there t
          | inr there ↦ rw there (
              poke-Tiles _ a e (p + next_sizeptr_at) null ns
                (IsTarget-NoSize a p next_sizeptr_at ns room (inl i) (omega arith) (omega arith))
                (poke-Tiles _ a e (p + prev_sizeptr_at) null ns
                  (IsTarget-NoSize a p prev_sizeptr_at ns room (inl i) (omega arith) (omega arith))
                  (poke-Tiles _ a e (mem (p + next_sizeptr_at) + prev_sizeptr_at)
                    (mem (p + prev_sizeptr_at)) ns
                    (IsTarget-NoSize a (mem (p + next_sizeptr_at)) prev_sizeptr_at ns room next
                      (omega arith) (omega arith))
                    (poke-Tiles mem a e (mem (p + prev_sizeptr_at) + next_sizeptr_at)
                      (mem (p + next_sizeptr_at)) ns
                      (IsTarget-NoSize a (mem (p + prev_sizeptr_at)) next_sizeptr_at ns room prev
                        (omega arith) (omega arith))
                      t))))
        ]

module _ (a : Ptr) (ns : List ℕ) (room : HasRoom ns) (mem : Mem) (p : Ptr) (i : IsChunk a ns p)
    (l : IsLinked mem a ns p) where
  off_fdlist_prev : off_fdlist mem p (p + prev_sizeptr_at) ≡ mem (p + prev_sizeptr_at)
  off_fdlist_prev =
      off_fdlist_other mem p (p + prev_sizeptr_at)
        (fields_apart a p (mem (p + fd_at)) prev_sizeptr_at bk_at ns room i l.fd (omega arith)
          (omega arith) (omega arith))
        (fields_apart a p (mem (p + bk_at)) prev_sizeptr_at fd_at ns room i l.bk (omega arith)
          (omega arith) (omega arith))
        (omega arith) (omega arith)

  off_fdlist_next : off_fdlist mem p (p + next_sizeptr_at) ≡ mem (p + next_sizeptr_at)
  off_fdlist_next =
      off_fdlist_other mem p (p + next_sizeptr_at)
        (fields_apart a p (mem (p + fd_at)) next_sizeptr_at bk_at ns room i l.fd (omega arith)
          (omega arith) (omega arith))
        (fields_apart a p (mem (p + bk_at)) next_sizeptr_at fd_at ns room i l.bk (omega arith)
          (omega arith) (omega arith))
        (omega arith) (omega arith)

  pub unlinked-Tiles : (e : Ptr) → Tiles mem a ns e → Tiles (unlinked mem p) a ns e
  unfolding unlinked
  unlinked-Tiles e t =
      off_sortedlist-Tiles a e ns room (off_fdlist mem p) p i (rw off_fdlist_next l.next)
        (rw off_fdlist_prev l.prev) (off_fdlist-Tiles a e ns room mem p i l.fd l.bk t)

  -- The words of the headers stay.
  pub unlinked_header : (x h : Ptr) → IsSpot a ns x → h < 16 → unlinked mem p (x + h) ≡ mem (x + h)
  unfolding unlinked
  unlinked_header x h spot small =
      off_sortedlist_other (off_fdlist mem p) p (x + h)
        (header_apart a x _ h next_sizeptr_at ns room spot (rw off_fdlist_prev l.prev) small
          (omega arith) (omega arith))
        (header_apart a x _ h prev_sizeptr_at ns room spot (rw off_fdlist_next l.next) small
          (omega arith) (omega arith))
        (header_apart a x p h prev_sizeptr_at ns room spot (inl i) small (omega arith)
          (omega arith))
        (header_apart a x p h next_sizeptr_at ns room spot (inl i) small (omega arith)
          (omega arith))
      ∙ off_fdlist_other mem p (x + h)
          (header_apart a x (mem (p + fd_at)) h bk_at ns room spot l.fd small (omega arith)
            (omega arith))
          (header_apart a x (mem (p + bk_at)) h fd_at ns room spot l.bk small (omega arith)
            (omega arith))
          (header_apart a x p h bk_at ns room spot (inl i) small (omega arith) (omega arith))
          (header_apart a x p h fd_at ns room spot (inl i) small (omega arith) (omega arith))

  pub unlinked_value :
      (P : Ptr → Type 0)
      → P null
      → P (mem (p + fd_at))
      → P (mem (p + bk_at))
      → P (mem (p + next_sizeptr_at))
      → P (mem (p + prev_sizeptr_at))
      → (w : Ptr) → P (mem w)
      → P (unlinked mem p w)
  unfolding unlinked
  unlinked_value P zero_ok fd bk next prev w old =
      let value = λ (v : Ptr) (ok : P (mem v)). off_fdlist_value P zero_ok mem p v fd bk ok in
      off_sortedlist_value P zero_ok (off_fdlist mem p) p w (value (p + next_sizeptr_at) next)
        (value (p + prev_sizeptr_at) prev) (value w old)

-- On a heap above the addresses of the fields of NULL.
module _ (a : Ptr) (ns : List ℕ) (room : HasRoom ns) (s : Arena) (p : Ptr) (i : IsChunk a ns p)
    (l : IsLinked s.mem a ns p) (high : 48 ≤ a) where
  not_null : p ≢ null
  not_null = let above = IsChunk-ge a p ns i in omega arith

  pub unlink_fdlist-run :
      unlink_chunk_from_fdlist p s ≡ done tt (record s { mem = off_fdlist s.mem p })
  unlink_fdlist-run = unlink_fdlist-off p s not_null (λ e.
      fields_apart a p (s.mem (p + fd_at)) fd_at bk_at ns room i l.fd (omega arith) (omega arith)
        (omega arith) (sym e))

  pub unlink_sortedlist-run :
      unlink_chunk_from_sortedlist p (record s { mem = off_fdlist s.mem p })
      ≡ done tt (record s { mem = unlinked s.mem p })
  unfolding unlinked
  unlink_sortedlist-run =
      unlink_sortedlist-off p (record s { mem = off_fdlist s.mem p }) not_null
        (λ e.
          fields_apart a p (s.mem (p + prev_sizeptr_at)) prev_sizeptr_at next_sizeptr_at ns room i
            l.prev (omega arith) (omega arith) (omega arith)
            (sym (ap (λ x. x + next_sizeptr_at) (sym (off_fdlist_prev a ns room s.mem p i l)) ∙ e)))
