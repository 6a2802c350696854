-- ===== src/Gc/Mark/Marks.antt =====
-- What the whole mark phase of runtime/src/gc.c marks, on heaps that chunks fill.
use picasso_lang.Base.{ℕ, zero, suc, ◌+◌, ◌≡◌, true, List, [], ◌∷◌, Option, some, has_bit}
use picasso_lang.Alloc.State.{Ptr, Mem, Span}
use picasso_lang.Alloc.Chunk.{gc_mark_flag}
use picasso_lang.Gc.Spans.{Each, AreDisjoint}
use picasso_lang.Gc.Mark.{Root, gc_mark}
use picasso_lang.Gc.Mark.Target.{MarksOnly}
use picasso_lang.Gc.Mark.Exact.{Examined, Quiet, QuietStacks, stack_words, gc_mark-Marked}
use picasso_lang.Gc.Mark.Pointed.{IsTiled, IsHeader, PointsInto, target-PointsInto}

-- None of `n` words from `p` on is where a chunk begins.
abbrev pub NoHeaders : (Span → List ℕ) → List Span → ℕ → Ptr → Type 0
NoHeaders sizes heaps zero p = Unit
NoHeaders sizes heaps (suc n) p = (IsHeader sizes heaps p → ⊥) × NoHeaders sizes heaps n (p + 8)

abbrev pub ApartStacks : (Span → List ℕ) → List Span → List Root → Type 0
ApartStacks sizes heaps [] = Unit
ApartStacks sizes heaps (r ∷ rs) =
    NoHeaders sizes heaps (stack_words r.ctx) r.ctx.stack_base × ApartStacks sizes heaps rs

-- A marking that examines the values `Seen` ends, sets marks only, marks every chunk that one of the values points
-- into, and leaves the first word of every other chunk as it was.
pub record MarksPointed (sizes : Span → List ℕ) (heaps : List Span) (mem : Mem) (Seen : ℕ → Type 0)
    (r : Option Mem) : Type 0 where
  pub out : Mem
  pub returns : r ≡ some out
  pub only : MarksOnly mem out
  pub hits :
      (v : ℕ) (c : Ptr)
      → Seen v
      → PointsInto sizes heaps mem v c
      → has_bit (out c) gc_mark_flag ≡ true
  pub skips : (c : Ptr) → ((v : ℕ) → Seen v → PointsInto sizes heaps mem v c → ⊥) → out c ≡ mem c

module _ (sizes : Span → List ℕ) (heaps : List Span) (mem : Mem)
    (tiled : Each (IsTiled sizes mem) heaps) (apart : AreDisjoint heaps) where
  NoHeaders-Quiet : (n : ℕ) (p : Ptr) → NoHeaders sizes heaps n p → Quiet heaps mem n p
  NoHeaders-Quiet zero p h = tt
  NoHeaders-Quiet (suc n) p h = (
    (λ v e. h.0 ((target-PointsInto sizes mem v p heaps tiled apart).0 e).there),
    NoHeaders-Quiet n (p + 8) h.1,
  )

  ApartStacks-QuietStacks :
      (roots : List Root) → ApartStacks sizes heaps roots → QuietStacks heaps mem roots
  ApartStacks-QuietStacks [] h = tt
  ApartStacks-QuietStacks (r ∷ rs) h =
      (NoHeaders-Quiet (stack_words r.ctx) r.ctx.stack_base h.0, ApartStacks-QuietStacks rs h.1)

  -- Let chunks fill heaps that are disjoint, and let no word of a task's stack be where a chunk begins. With fuel for
  -- one call the mark phase ends, and it sets marks only. A value from the stacks and registers of the unfinished
  -- tasks marks a chunk that is in use, if it is a multiple of 8 and an address in the chunk's payload. The first word
  -- of any other chunk stays as it was: an address that is no multiple of 8 marks nothing, and neither does what is
  -- in the chunks that are marked.
  pub gc_mark-MarksPointed :
      (k : ℕ) (roots : List Root)
      → ApartStacks sizes heaps roots
      → MarksPointed sizes heaps mem (Examined mem roots) (gc_mark heaps (suc k) roots mem)
  gc_mark-MarksPointed k roots quiet =
      let marked = gc_mark-Marked heaps k roots mem (ApartStacks-QuietStacks roots quiet) in
      record {
        out = marked.out;
        returns = marked.returns;
        only = marked.only;
        hits =
            λ v c s p. marked.hits v c s ((target-PointsInto sizes mem v c heaps tiled apart).1 p);
        skips = λ c none_there.
            marked.skips c
              (λ v s e. none_there v s ((target-PointsInto sizes mem v c heaps tiled apart).0 e));
      }
