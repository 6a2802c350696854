-- ===== src/Gc/Mark/Pointed.antt =====
-- What a value points into, said of the chunks that fill the heaps, and that the mark phase of runtime/src/gc.c
-- finds just that.
use picasso_lang.Base.{
  ℕ, ◌+◌, ◌%◌, ◌≤◌, ◌<◌, ◌≡◌, ◌⊎◌, ◌↔◌, inl, inr, ◌||◌, List, [], ◌∷◌, Option, none, some, true,
  ltb, leb, arith, Bool-cases, ◌==◌,
}
use picasso_lang.Alloc.State.{Ptr, Mem, Span}
use picasso_lang.Alloc.Sizes.{header_size}
use picasso_lang.Alloc.Chunk.{size_at, size_bits}
use picasso_lang.Alloc.Tiles.{Tiles, IsChunk, Holds, Tiles-le}
use picasso_lang.Gc.Spans.{Each, Apart, AreDisjoint}
use picasso_lang.Gc.Mark.{is_pointer_aligned, heap_of, find_chunk_in_heap}
use picasso_lang.Gc.Mark.Find.{find_chunk_in_heap_iff}
use picasso_lang.Gc.Mark.Target.{target}

-- The chunks of the heap `h` have the payloads `sizes h`.
abbrev pub IsTiled : (Span → List ℕ) → Mem → Span → Type 0
IsTiled sizes mem h = Tiles mem h.start (sizes h) h.end

-- `c` is where a chunk of one of the heaps begins.
abbrev pub IsHeader : (Span → List ℕ) → List Span → Ptr → Type 0
IsHeader sizes [] c = ⊥
IsHeader sizes (h ∷ hs) c = IsChunk h.start (sizes h) c ⊎ IsHeader sizes hs c

-- `v` is a multiple of 8 and an address in the payload of the chunk at `c`, which is one of a heap and in use.
pub record PointsInto (sizes : Span → List ℕ) (heaps : List Span) (mem : Mem) (v : ℕ) (c : Ptr)
    : Type 0 where
  pub aligned : v % 8 ≡ 0
  pub there : IsHeader sizes heaps c
  pub holds : Holds mem c v

pub chunk_within :
    (mem : Mem) (a e c : Ptr) (ns : List ℕ)
    → Tiles mem a ns e
    → IsChunk a ns c
    → (a ≤ c) × (c + header_size + size_bits (mem (c + size_at)) ≤ e)
chunk_within mem a e c [] t i = absurd i
chunk_within mem a e c (n ∷ ns) t (inl at) =
    let far = Tiles-le mem (a + header_size + n) e ns t.1 in ground (arith, t.0)
chunk_within mem a e c (n ∷ ns) t (inr i) =
    let (lo, hi) = chunk_within mem (a + header_size + n) e c ns t.1 i in (omega arith, hi)

abbrev found : List Span → Mem → ℕ → Option Ptr
found heaps mem v = elim (heap_of heaps v) [ none ↦ none | some h ↦ find_chunk_in_heap mem h v ]

module _ (sizes : Span → List ℕ) (mem : Mem) (v : ℕ) (c : Ptr) where
  -- A heap apart from the others has none of their addresses.
  elsewhere :
      (h : Span) (hs : List Span)
      → Each (IsTiled sizes mem) hs
      → Each (Apart h) hs
      → IsHeader sizes hs c
      → Holds mem c v
      → h.start ≤ v
      → v < h.end
      → ⊥
  elsewhere h [] tiled apart i holds lo hi = i
  elsewhere h (h' ∷ hs) tiled apart (inl i) holds lo hi =
      let (above, below) = chunk_within mem h'.start h'.end c (sizes h') tiled.0 i in
      let a = holds.above in
      let b = holds.below in elim (apart.0) [ inl l ↦ omega arith | inr l ↦ omega arith ]
  elsewhere h (h' ∷ hs) tiled apart (inr i) holds lo hi =
      elsewhere h hs tiled.1 apart.1 i holds lo hi

  found-IsHeader :
      (hs : List Span)
      → Each (IsTiled sizes mem) hs
      → found hs mem v ≡ some c
      → IsHeader sizes hs c × Holds mem c v
  unfolding heap_of
  found-IsHeader [] tiled e = absurd (ground arith)
  found-IsHeader (h ∷ hs) tiled e = elim (Bool-cases (ltb v h.start || leb h.end v)) [
    | inl out ↦ let (i, holds) = found-IsHeader hs tiled.1 (rw (out, found) at e) in (inr i, holds)
    | inr within ↦
        let (i, holds) =
          (find_chunk_in_heap_iff mem h v c (sizes h) tiled.0).0 (rw (within, found) at e) in
        (inl i, holds)
  ]

  header-found :
      (hs : List Span)
      → Each (IsTiled sizes mem) hs
      → AreDisjoint hs
      → IsHeader sizes hs c
      → Holds mem c v
      → found hs mem v ≡ some c
  unfolding heap_of
  header-found [] tiled apart i holds = absurd i
  header-found (h ∷ hs) tiled apart i holds = elim (Bool-cases (ltb v h.start || leb h.end v)) [
    | inl out ↦ elim i [
      | inl here ↦
          let (above, below) = chunk_within mem h.start h.end c (sizes h) tiled.0 here in
          absurd (let a = holds.above in let b = holds.below in ground arith)
      | inr there ↦ rw (out, found) (header-found hs tiled.1 apart.1 there holds)
    ]
    | inr within ↦ elim i [
      | inl here ↦
          rw (within, found) ((find_chunk_in_heap_iff mem h v c (sizes h) tiled.0).1 (here, holds))
      | inr there ↦
          absurd (elsewhere h hs tiled.1 apart.0 there holds (ground arith) (ground arith))
    ]
  ]

  -- On disjoint heaps that chunks fill, the target of a value is the chunk that it points into.
  pub target-PointsInto :
      (heaps : List Span)
      → Each (IsTiled sizes mem) heaps
      → AreDisjoint heaps
      → (target heaps mem v ≡ some c) ↔ PointsInto sizes heaps mem v c
  unfolding target is_pointer_aligned
  target-PointsInto heaps tiled apart = (
    λ e. elim (Bool-cases (v % 8 == 0)) [
      | inl even ↦
          let (i, holds) = found-IsHeader heaps tiled (rw even at e) in
          record { aligned = ground arith; there = i; holds = holds }
      | inr odd ↦ absurd (ground arith)
    ],
    λ p.
        let even : (v % 8 == 0) ≡ true = let a = p.aligned in ground arith in
        rw even (header-found heaps tiled apart p.there p.holds),
  )
