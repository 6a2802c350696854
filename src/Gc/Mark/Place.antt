-- ===== src/Gc/Mark/Place.antt =====
-- Where the targets of the mark phase of runtime/src/gc.c lie.
use picasso_lang.Base.{
  ℕ, zero, suc, ◌+◌, ◌-◌, ◌≤◌, ◌<◌, ◌≡◌, ◌⊎◌, inl, inr, ◌||◌, List, [], ◌∷◌, some, ltb, leb, arith,
  Bool-cases, Option-cases,
}
use picasso_lang.Alloc.State.{Ptr, Mem, Span}
use picasso_lang.Alloc.Sizes.{header_size}
use picasso_lang.Alloc.Chunk.{size_at, size_bits}
use picasso_lang.Gc.Mark.{scan_heap, heap_of, find_chunk_in_heap}
use picasso_lang.Gc.Mark.Target.{target}

-- A target lies in one of the heaps.
abbrev pub InHeaps : List Span → Ptr → Type 0
InHeaps [] c = ⊥
InHeaps (h ∷ hs) c = ((h.start ≤ c) × (c < h.end)) ⊎ InHeaps hs c

scan_heap-in_heap :
    (k : ℕ) (mem : Mem) (e p a : Ptr) {c : Ptr} → scan_heap k mem e p a ≡ some c → (a ≤ c) × (c < e)
unfolding scan_heap
scan_heap-in_heap zero mem e p a h = cc
scan_heap-in_heap (suc k) mem e p a {c} h =
    ground
      (arith, scan_heap-in_heap k mem e p (a + header_size + size_bits (mem (a + size_at))) {c = c})

find_chunk_in_heap-in_heap :
    (mem : Mem) (h : Span) (p c : Ptr)
    → find_chunk_in_heap mem h p ≡ some c
    → (h.start ≤ c) × (c < h.end)
unfolding find_chunk_in_heap
find_chunk_in_heap-in_heap mem h p c e = scan_heap-in_heap (h.end - h.start) mem h.end p h.start e

heap_of-InHeaps :
    (heaps : List Span) (p : Ptr) {h : Span} {c : Ptr}
    → heap_of heaps p ≡ some h
    → (h.start ≤ c) × (c < h.end)
    → InHeaps heaps c
unfolding heap_of
heap_of-InHeaps [] p e i = cc
heap_of-InHeaps (h ∷ hs) p {h = h'} {c} e i = elim (Bool-cases (ltb p h.start || leb h.end p)) [
  | inl out ↦ inr (heap_of-InHeaps hs p (rw out at e) i)
  | inr within ↦ inl (ground arith)
]

pub target-InHeaps :
    (heaps : List Span) (mem : Mem) (v : ℕ) (c : Ptr)
    → target heaps mem v ≡ some c
    → InHeaps heaps c
unfolding target
target-InHeaps heaps mem v c e = elim (Option-cases (heap_of heaps v)) [
  | inl none_of ↦ absurd (ground (arith, none_of))
  | inr (h, is) ↦
      let found : find_chunk_in_heap mem h v ≡ some c = ground (arith, is) in
      heap_of-InHeaps heaps v is (find_chunk_in_heap-in_heap mem h v c found)
]
