-- ===== src/Gc/Sweep/Collected.antt =====
-- What a whole collection of runtime/src/gc.c does to the heaps of the arenas.
use mathlib.Core.Path.{subst}
use picasso_lang.Base.{
  ℕ, suc, ◌+◌, ◌≤◌, ◌≡◌, ◌≢◌, inl, inr, refl, sym, ap, ◌∙◌, true, false, List, [], ◌∷◌, Option,
  some, arith, has_bit,
}
use picasso_lang.Alloc.State.{Ptr, null, Mem, Span, Arena}
use picasso_lang.Alloc.Sizes.{header_size}
use picasso_lang.Alloc.Chunk.{size_at, curr_in_use_flag, gc_mark_flag, size_bits}
use picasso_lang.Alloc.Tiles.{Tiles, IsChunk}
use picasso_lang.Alloc.Tiles.Fields.{HasRoom}
use picasso_lang.Gc.Mark.{Root, gc_mark}
use picasso_lang.Gc.Mark.Target.{MarksOnly, same_size, same_use}
use picasso_lang.Gc.Mark.Pointed.{IsTiled, IsHeader, PointsInto, chunk_within}
use picasso_lang.Gc.Mark.Marks.{ApartStacks, MarksPointed, gc_mark-MarksPointed}
use picasso_lang.Gc.Mark.Exact.{Examined}
use picasso_lang.Gc.Sweep.{gc_sweep, heaps_of, gc_collect}
use picasso_lang.Gc.Sweep.Headers.{
  is_marked, is_used, swept_first, swept_size, Swept, GarbageIsSmall,
}
use picasso_lang.Gc.Spans.{Each, Each-map, AreDisjoint, Outside}
use picasso_lang.Gc.Sweep.Heaps.{IsSweepable, IsSwept, gc_sweep-AreSwept}

-- Some value that a collection examines points into the chunk at `c`.
abbrev pub IsRooted : (Span → List ℕ) → List Span → Mem → List Root → Ptr → Type 0
IsRooted sizes heaps mem roots c = (v : ℕ) × Examined mem roots v × PointsInto sizes heaps mem v c

Swept-at :
    (mem mem' : Mem) (a c : Ptr) (ns : List ℕ)
    → Swept mem mem' a ns
    → IsChunk a ns c
    → (mem' c ≡ swept_first mem c) × (mem' (c + size_at) ≡ swept_size mem c)
Swept-at mem mem' a c [] s i = absurd i
Swept-at mem mem' a c (n ∷ ns) s (inl e) =
    subst (λ (x : Ptr). (mem' x ≡ swept_first mem x) × (mem' (x + size_at) ≡ swept_size mem x)) e
      (s.0, s.1)
Swept-at mem mem' a c (n ∷ ns) (first, size, rest) (inr i) =
    Swept-at mem mem' (a + header_size + n) c ns rest i

GarbageIsSmall-each :
    (mem : Mem) (a e : Ptr) (ns : List ℕ)
    → Tiles mem a ns e
    → ((c : Ptr)
        → IsChunk a ns c
        → is_marked mem c ≡ false
        → is_used mem c ≡ true
        → size_bits (mem (c + size_at)) ≤ 112)
    → GarbageIsSmall mem a ns
GarbageIsSmall-each mem a e [] t small = omega arith
GarbageIsSmall-each mem a e (n ∷ ns) t small = (
  (λ plain used. subst (λ (x : ℕ). x ≤ 112) t.0 (small a (inl refl) plain used)),
  GarbageIsSmall-each mem (a + header_size + n) e ns t.1 (λ c i. small c (inr i)),
)

Tiles-marked :
    {mem m : Mem} → MarksOnly mem m → (a e : Ptr) (ns : List ℕ) → Tiles mem a ns e → Tiles m a ns e
Tiles-marked only a e [] t = t
Tiles-marked only a e (n ∷ ns) t =
    (same_size only (a + size_at) ∙ t.0, Tiles-marked only (a + header_size + n) e ns t.1)

swept_mark : (mem : Mem) (c : Ptr) → has_bit (swept_first mem c) gc_mark_flag ≡ false
swept_mark mem c = ground arith

swept_bits : (mem : Mem) (c : Ptr) → size_bits (swept_size mem c) ≡ size_bits (mem (c + size_at))
swept_bits mem c = ground arith

swept_kept : (mem : Mem) (c : Ptr) → is_marked mem c ≡ true → swept_size mem c ≡ mem (c + size_at)
swept_kept mem c marked = rw marked refl

swept_freed :
    (mem : Mem) (c : Ptr)
    → is_marked mem c ≡ false
    → has_bit (swept_size mem c) curr_in_use_flag ≡ false
swept_freed mem c plain = ground arith

gc_collect-runs :
    (fuel : ℕ) (roots : List Root) (ars ars' : List Arena) (mem m mem' : Mem)
    → gc_mark (heaps_of ars) fuel roots mem ≡ some m
    → gc_sweep ars m ≡ some (ars', mem')
    → gc_collect fuel roots ars mem ≡ some (ars', mem')
unfolding gc_collect
gc_collect-runs fuel roots ars ars' mem m mem' marks sweeps = rw (gc_collect, marks) sweeps

-- What a collection does to the chunk at `c`.
pub record Collected (sizes : Span → List ℕ) (heaps : List Span) (mem : Mem) (roots : List Root)
    (mem' : Mem) (c : Ptr) : Type 0 where
  pub unmarked : is_marked mem' c ≡ false
  pub same_bits : size_bits (mem' (c + size_at)) ≡ size_bits (mem (c + size_at))
  pub keeps : IsRooted sizes heaps mem roots c → is_used mem' c ≡ is_used mem c
  pub frees : (IsRooted sizes heaps mem roots c → ⊥) → is_used mem' c ≡ false

-- Chunks with room for their links and without marks fill the heap, and those in use that no examined value points
-- into have at most 112 bytes.
pub record IsFilled (sizes : Span → List ℕ) (heaps : List Span) (mem : Mem) (roots : List Root)
    (h : Span) : Type 0 where
  pub placed : h.start ≢ null
  pub room : HasRoom (sizes h)
  pub tiles : Tiles mem h.start (sizes h) h.end
  pub plain : (c : Ptr) → IsChunk h.start (sizes h) c → is_marked mem c ≡ false
  pub small :
      (c : Ptr)
      → IsChunk h.start (sizes h) c
      → (IsRooted sizes heaps mem roots c → ⊥)
      → is_used mem c ≡ true
      → size_bits (mem (c + size_at)) ≤ 112

abbrev pub ChunksCollected : (Span → List ℕ) → List Span → Mem → List Root → Mem → Span → Type 0
ChunksCollected sizes heaps mem roots mem' h =
    (c : Ptr) → IsChunk h.start (sizes h) c → Collected sizes heaps mem roots mem' c

no_header-Outside :
    (sizes : Span → List ℕ) (mem : Mem) (w : Ptr) (hs : List Span)
    → Each (IsTiled sizes mem) hs
    → Each (Outside w) hs
    → IsHeader sizes hs w
    → ⊥
no_header-Outside sizes mem w [] tiled out i = i
no_header-Outside sizes mem w (h ∷ hs) tiled out (inl i) =
    let (above, below) = chunk_within mem h.start h.end w (sizes h) tiled.0 i in
    elim (out.0) [ inl l ↦ omega arith | inr l ↦ omega arith ]
no_header-Outside sizes mem w (h ∷ hs) tiled out (inr i) =
    no_header-Outside sizes mem w hs tiled.1 out.1 i

module _ (sizes : Span → List ℕ) (heaps : List Span) (mem : Mem) (roots : List Root)
    (r : Option Mem) (marked : MarksPointed sizes heaps mem (Examined mem roots) r) where
  -- After the marking, what is to be released is small.
  IsFilled-IsSweepable :
      (h : Span) → IsFilled sizes heaps mem roots h → IsSweepable sizes marked.out h
  IsFilled-IsSweepable h f =
      let tiles = Tiles-marked marked.only h.start h.end (sizes h) f.tiles in
      record {
        placed = f.placed;
        room = f.room;
        tiles = tiles;
        small = GarbageIsSmall-each marked.out h.start h.end (sizes h) tiles (λ c i off used.
            subst (λ (x : ℕ). x ≤ 112) (sym (same_size marked.only (c + size_at)))
              (f.small c i (λ r. cc (marked.hits r.0 c r.1 r.2, off))
                (sym (same_use marked.only (c + size_at)) ∙ used)));
      }

  swept-Collected :
      (mem' : Mem) (h : Span)
      → IsFilled sizes heaps mem roots h
      → IsSwept sizes marked.out mem' h
      → ChunksCollected sizes heaps mem roots mem' h
  swept-Collected mem' h f swept c i =
      let (first, size) = Swept-at marked.out mem' h.start c (sizes h) swept i in
      record {
        unmarked = ap (λ x. has_bit x gc_mark_flag) first ∙ swept_mark marked.out c;
        same_bits =
            ap size_bits size ∙ swept_bits marked.out c ∙ same_size marked.only (c + size_at);
        keeps = λ r.
            ap (λ x. has_bit x curr_in_use_flag)
              (size ∙ swept_kept marked.out c (marked.hits r.0 c r.1 r.2))
            ∙ same_use marked.only (c + size_at);
        frees = λ no_root.
            ap (λ x. has_bit x curr_in_use_flag) size
            ∙ swept_freed marked.out c (
                ap (λ x. has_bit x gc_mark_flag) (marked.skips c (λ v s e. no_root (v, s, e)))
                ∙ f.plain c i);
      }

  Each-Collected :
      (mem' : Mem) (hs : List Span)
      → Each (IsFilled sizes heaps mem roots) hs
      → Each (IsSwept sizes marked.out mem') hs
      → Each (ChunksCollected sizes heaps mem roots mem') hs
  Each-Collected mem' [] f swept = tt
  Each-Collected mem' (h ∷ hs) f swept =
      (swept-Collected mem' h f.0 swept.0, Each-Collected mem' hs f.1 swept.1)

-- Let the heaps of the arenas be disjoint. Let chunks with room for their links and without marks fill each, and let no
-- word of a task's stack be where a chunk begins. Say that a value is for a chunk if it is a multiple of 8 and an address
-- in the payload of the chunk, which is in use. Let the chunks in use that no value from the stacks and registers of the
-- unfinished tasks is for be of at most 112 bytes. Then a collection with fuel for one call of the marking ends, and
-- every chunk keeps its size and has no mark behind it. A chunk that one of the values is for stays in use. Every other
-- chunk is no longer in use, also where a chunk that is kept points to it, or a value that is no multiple of 8 points
-- into it. No word outside the heaps changes.
pub gc_collect-Collected :
    (sizes : Span → List ℕ) (k : ℕ) (roots : List Root) (ars : List Arena) (mem : Mem)
    → AreDisjoint (heaps_of ars)
    → Each (IsFilled sizes (heaps_of ars) mem roots) (heaps_of ars)
    → ApartStacks sizes (heaps_of ars) roots
    → (ars' : List Arena) × (mem' : Mem) × (gc_collect (suc k) roots ars mem ≡ some (ars', mem'))
      × Each (ChunksCollected sizes (heaps_of ars) mem roots mem') (heaps_of ars)
      × ((w : Ptr) → Each (Outside w) (heaps_of ars) → mem' w ≡ mem w)
gc_collect-Collected sizes k roots ars mem disjoint filled quiet =
    let hs = heaps_of ars in
    let r = gc_mark hs (suc k) roots mem in
    let tiled : Each (IsTiled sizes mem) hs = Each-map (λ h f. f.tiles) hs filled in
    let marked : MarksPointed sizes hs mem (Examined mem roots) r =
      gc_mark-MarksPointed sizes hs mem tiled disjoint k roots quiet in
    let (ars', mem', run, swept) =
      gc_sweep-AreSwept sizes ars marked.out
        (Each-map (IsFilled-IsSweepable sizes hs mem roots r marked) hs filled) disjoint in
    (
      ars',
      mem',
      gc_collect-runs (suc k) roots ars ars' mem marked.out mem' marked.returns run,
      Each-Collected sizes hs mem roots r marked mem' hs filled swept.each,
      λ w out.
          swept.others w out
          ∙ marked.skips w (λ v s p. no_header-Outside sizes mem w hs tiled out p.there),
    )
