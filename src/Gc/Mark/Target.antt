-- ===== src/Gc/Mark/Target.antt =====
-- What a candidate value of the mark phase of runtime/src/gc.c points to, and memories that differ by
-- mark bits only.
use picasso_lang.Base.{
  ap, ◌∙◌, ℕ, zero, suc, ◌+◌, ◌-◌, ◌≡◌, ◌≢◌, refl, ◌⊎◌, inl, inr, true, List, Option, none, some,
  has_bit, set_bit, arith, Option-cases, Bool-cases, ◌↔◌, if◌then◌else◌, ◌==◌,
}
use mathlib.Core.Option
use picasso_lang.Alloc.State.{Ptr, Mem, Span}
use picasso_lang.Alloc.Sizes.{header_size}
use picasso_lang.Alloc.Chunk.{size_at, curr_in_use_flag, gc_mark_flag, size_bits}
use picasso_lang.Gc.Mark.{
  scan_heap, find_chunk_in_heap, is_pointer_aligned, heap_of, set_mark, try_mark_with,
  try_mark_pointer,
}

-- The chunk in use that an aligned value points into.
unfoldable pub target : List Span → Mem → ℕ → Option Ptr
unfolding is_pointer_aligned heap_of find_chunk_in_heap
target heaps mem val =
    if is_pointer_aligned val
    then elim (heap_of heaps val) [ none ↦ none | some h ↦ find_chunk_in_heap mem h val ]
    else none

-- Each word of `m` is that of `mem`, or that with the mark set.
abbrev pub MarksOnly : Mem → Mem → Type 0
MarksOnly mem m = (a : Ptr) → (m a ≡ mem a) ⊎ (m a ≡ set_bit (mem a) gc_mark_flag)

-- The memory with the mark set on the chunk that the value points into, if there is one.
unfoldable pub mark_target : List Span → Mem → ℕ → Mem
unfolding set_mark
mark_target heaps mem val = elim (target heaps mem val) [ none ↦ mem | some c ↦ set_mark mem c ]

-- With fuel for one call, `try_mark_pointer` marks the one chunk that the value points into and nothing
-- else: the call of `mark_chunk_recursive` finds the mark set and returns.
pub try_mark_pointer-mark_target :
    (heaps : List Span) (k : ℕ) (mem : Mem) (val : ℕ)
    → try_mark_pointer heaps (suc k) mem val ≡ some (mark_target heaps mem val)
unfolding try_mark_pointer mark_target try_mark_with target
try_mark_pointer-mark_target heaps k mem val = ground arith

module _ {mem m : Mem} (only : MarksOnly mem m) where
  pub same_size : (a : Ptr) → size_bits (m a) ≡ size_bits (mem a)
  same_size a = ground (arith, only a)

  pub same_use : (a : Ptr) → has_bit (m a) curr_in_use_flag ≡ has_bit (mem a) curr_in_use_flag
  same_use a = ground (arith, only a)

  scan_heap-same : (k : ℕ) (e p a : Ptr) → scan_heap k m e p a ≡ scan_heap k mem e p a
  unfolding scan_heap
  scan_heap-same zero e p a = refl
  scan_heap-same (suc k) e p a = rw (
    same_size (a + size_at),
    same_use (a + size_at),
    scan_heap-same k e p (a + header_size + size_bits (mem (a + size_at))),
  )

  -- Marks do not change what a value points to.
  pub target-same : (heaps : List Span) (v : ℕ) → target heaps m v ≡ target heaps mem v
  unfolding target
  target-same heaps v = elim (Option-cases (heap_of heaps v)) [
    | inl e ↦ rw e refl
    | inr (h, e) ↦ rw (e, scan_heap-same (h.end - h.start) h.end v h.start) refl
  ]

  pub set_mark-only : (c : Ptr) → MarksOnly mem (set_mark m c)
  unfolding set_mark
  set_mark-only c a = ground (arith, only a)

-- What a marking step `r` from `m` does to a memory that began as `mem`, where it examines the values
-- `Seen`: it ends, sets marks only, keeps the marks that are set, marks the target of every value that it
-- examines, and leaves the word of every other chunk as it was.
pub record Marked (heaps : List Span) (mem : Mem) (Seen : ℕ → Type 0) (m : Mem) (r : Option Mem)
    : Type 0 where
  pub out : Mem
  pub returns : r ≡ some out
  pub only : MarksOnly mem out
  pub keeps : (c : Ptr) → has_bit (m c) gc_mark_flag ≡ true → has_bit (out c) gc_mark_flag ≡ true
  pub hits :
      (v : ℕ) (c : Ptr) → Seen v → target heaps mem v ≡ some c → has_bit (out c) gc_mark_flag ≡ true
  pub skips : (c : Ptr) → ((v : ℕ) → Seen v → target heaps mem v ≢ some c) → out c ≡ m c

module _ {heaps : List Span} {mem : Mem} where
  pub Marked-none : {m : Mem} → MarksOnly mem m → Marked heaps mem (λ _. ⊥) m (some m)
  Marked-none {m} only = record {
    out = m;
    returns = refl;
    only = only;
    keeps = λ c h. h;
    hits = λ v c s. absurd s;
    skips = λ c h. refl;
  }

  -- One value, by `try_mark_pointer`.
  pub Marked-try :
      (k : ℕ) {m : Mem} (val : ℕ)
      → MarksOnly mem m
      → Marked heaps mem (λ v. v ≡ val) m (try_mark_pointer heaps (suc k) m val)
  unfolding mark_target
  Marked-try k {m} val only = record {
    out = mark_target heaps m val;
    returns = try_mark_pointer-mark_target heaps k m val;
    only = mark_target-only;
    keeps = λ c h. ground arith;
    hits = λ v c s t. ground (arith, target-same only heaps val, ap (target heaps mem) s);
    skips = λ c h. ground (arith, h val refl, target-same only heaps val);
  }
    where
      mark_target-only : MarksOnly mem (mark_target heaps m val)
      mark_target-only a = ground (arith, only a)

  -- Two steps, one after the other.
  pub Marked-bind :
      {Seen Seen' : ℕ → Type 0} {m : Mem} {r : Option Mem} (k : Mem → Option Mem)
      → (first : Marked heaps mem Seen m r) → Marked heaps mem Seen' first.out (k first.out)
      → Marked heaps mem (λ v. Seen v ⊎ Seen' v) m (Option.bind r k)
  unfolding Option.bind
  Marked-bind {Seen} {Seen'} {m} {r} k first two = record {
    out = two.out;
    returns = rw first.returns two.returns;
    only = two.only;
    keeps = λ c h. two.keeps c (first.keeps c h);
    hits = either;
    skips = λ c h. two.skips c (λ v s. h v (inr s)) ∙ first.skips c (λ v s. h v (inl s));
  }
    where
      either :
          (v : ℕ) (c : Ptr)
          → Seen v ⊎ Seen' v
          → target heaps mem v ≡ some c
          → has_bit (two.out c) gc_mark_flag ≡ true
      either v c (inl s) t = two.keeps c (first.hits v c s t)
      either v c (inr s) t = two.hits v c s t

  -- Another name for the values that are examined.
  pub Marked-mono :
      {Seen Seen' : ℕ → Type 0} {m : Mem} {r : Option Mem}
      → Marked heaps mem Seen m r
      → ((v : ℕ) → Seen v ↔ Seen' v)
      → Marked heaps mem Seen' m r
  Marked-mono first same = record {
    out = first.out;
    returns = first.returns;
    only = first.only;
    keeps = first.keeps;
    hits = λ v c s t. first.hits v c ((same v).1 s) t;
    skips = λ c h. first.skips c (λ v s. h v ((same v).0 s));
  }

  -- A value behind the test for zero.
  pub Marked-nonzero :
      (k : ℕ) {m : Mem} (val : ℕ)
      → MarksOnly mem m
      → Marked heaps mem
          (λ v. (v ≡ val) × (v ≢ 0))
          m
          (if val == 0 then some m else try_mark_pointer heaps (suc k) m val)
  Marked-nonzero k val only = elim (Bool-cases (val == 0)) [
    | inl e ↦ rw e (Marked-mono (Marked-none only) (λ v. ((λ s. absurd s), λ s. ground arith)))
    | inr e ↦ rw e (Marked-mono (Marked-try k val only) (λ v. ((λ s. (s, ground arith)), λ s. s.0)))
  ]
