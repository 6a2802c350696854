-- ===== src/Gc/Mark/Find.antt =====
-- `find_chunk_in_heap` of runtime/src/gc.c on a heap that chunks fill from end to end.
use picasso_lang.Base.{ℕ, zero, suc, ◌+◌, ◌-◌, ◌≤◌, ◌≡◌, ◌↔◌, inl, inr, List, [], ◌∷◌, some, arith}
use picasso_lang.Alloc.State.{Ptr, Mem, Span}
use picasso_lang.Alloc.Sizes.{header_size}
use picasso_lang.Alloc.Tiles.{Tiles, IsChunk, Holds, Tiles-le, IsChunk-ge}
use picasso_lang.Gc.Mark.{scan_heap, find_chunk_in_heap}

module _ (mem : Mem) (e p : Ptr) where
  scan_sound :
      (k : ℕ) (a : Ptr) (ns : List ℕ) {c : Ptr}
      → Tiles mem a ns e
      → scan_heap k mem e p a ≡ some c
      → IsChunk a ns c × Holds mem c p
  unfolding scan_heap
  scan_sound zero a ns t h = cc
  scan_sound (suc k) a [] t h = ground arith
  scan_sound (suc k) a (n ∷ ns) {c} t h =
      ground (arith, scan_sound k (a + header_size + n) ns {c = c} t.1)

  scan_complete :
      (k : ℕ) (a : Ptr) (ns : List ℕ) {c : Ptr}
      → Tiles mem a ns e
      → e ≤ a + k
      → IsChunk a ns c
      → Holds mem c p
      → scan_heap k mem e p a ≡ some c
  unfolding scan_heap
  scan_complete k a [] t f i h = absurd i
  scan_complete zero a (n ∷ ns) t f i h =
      absurd (omega (arith, Tiles-le mem (a + header_size + n) e ns t.1))
  scan_complete (suc k) a (n ∷ ns) t f (inl i) h =
      ground (arith, Tiles-le mem (a + header_size + n) e ns t.1)
  scan_complete (suc k) a (n ∷ ns) {c} t f (inr i) h = ground (
    arith,
    Tiles-le mem (a + header_size + n) e ns t.1,
    IsChunk-ge (a + header_size + n) c ns i,
    scan_complete k (a + header_size + n) ns {c = c} t.1 (omega arith) i h,
  )

-- On a heap that chunks fill, `find_chunk_in_heap` returns a chunk exactly when it is a chunk of the heap
-- that is in use and has the address in its payload; in particular its walk is long enough.
pub find_chunk_in_heap_iff :
    (mem : Mem) (heap : Span) (p c : Ptr) (ns : List ℕ)
    → Tiles mem heap.start ns heap.end
    → (find_chunk_in_heap mem heap p ≡ some c) ↔ (IsChunk heap.start ns c × Holds mem c p)
unfolding find_chunk_in_heap
find_chunk_in_heap_iff mem heap p c ns t = (
  λ h. scan_sound mem heap.end p (heap.end - heap.start) heap.start ns t h,
  λ (i, h). scan_complete mem heap.end p (heap.end - heap.start) heap.start ns t (omega arith) i h,
)
