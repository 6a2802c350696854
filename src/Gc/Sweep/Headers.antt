-- ===== src/Gc/Sweep/Headers.antt =====
-- The headers of the chunks that fill a heap of runtime/src/alloc.c, before and after a sweep.
use picasso_lang.Base.{
  ℕ, ◌+◌, ◌≤◌, ◌<◌, ◌≡◌, sym, ap, ap₂, ◌∙◌, true, false, Bool, List, [], ◌∷◌, if◌then◌else◌, arith,
  has_bit, unset_bit,
}
use picasso_lang.Alloc.State.{Ptr, Mem}
use picasso_lang.Alloc.Sizes.{header_size}
use picasso_lang.Alloc.Chunk.{size_at, curr_in_use_flag, gc_mark_flag, size_bits}
use picasso_lang.Alloc.Tiles.{Tiles, Tiles-le}

abbrev pub is_marked : Mem → Ptr → Bool
is_marked mem c = has_bit (mem c) gc_mark_flag

abbrev pub is_used : Mem → Ptr → Bool
is_used mem c = has_bit (mem (c + size_at)) curr_in_use_flag

-- The two words of the header of the chunk at `c` after a sweep: a mark is cleared, and a chunk in use that has none
-- is no longer in use.
abbrev pub swept_first : Mem → Ptr → ℕ
swept_first mem c = if is_marked mem c then unset_bit (mem c) gc_mark_flag else mem c

abbrev pub swept_size : Mem → Ptr → ℕ
swept_size mem c =
    if is_marked mem c
    then mem (c + size_at)
    else if is_used mem c
    then unset_bit (mem (c + size_at)) curr_in_use_flag
    else mem (c + size_at)

-- All headers of the chunks `ns` from `a` on are swept.
abbrev pub Swept : Mem → Mem → Ptr → List ℕ → Type 0
Swept mem mem' a [] = 0 ≤ 0
Swept mem mem' a (n ∷ ns) =
    (mem' a ≡ swept_first mem a)
    × (mem' (a + size_at) ≡ swept_size mem a)
    × Swept mem mem' (a + header_size + n) ns

-- What is to be released has at most 112 bytes.
abbrev pub GarbageIsSmall : Mem → Ptr → List ℕ → Type 0
GarbageIsSmall mem a [] = 0 ≤ 0
GarbageIsSmall mem a (n ∷ ns) =
    ((is_marked mem a ≡ false) → (is_used mem a ≡ true) → n ≤ 112)
    × GarbageIsSmall mem (a + header_size + n) ns

-- The same words from `a` to `e`.
abbrev pub SameWords : Ptr → Ptr → Mem → Mem → Type 0
SameWords a e mem mem1 = (w : Ptr) → a ≤ w → w < e → mem1 w ≡ mem w

pub SameWords-later :
    (a n e : Ptr) {mem mem1 : Mem}
    → SameWords a e mem mem1
    → SameWords (a + header_size + n) e mem mem1
SameWords-later a n e same w l h = same w (omega arith) h

module _ (mem mem1 : Mem) where
  pub Tiles-within :
      (a e : Ptr) (ns : List ℕ) → SameWords a e mem mem1 → Tiles mem a ns e → Tiles mem1 a ns e
  Tiles-within a e [] same t = t
  Tiles-within a e (n ∷ ns) same t =
      let far = Tiles-le mem (a + header_size + n) e ns t.1 in
      (
        ap size_bits (same (a + size_at) (omega arith) (omega arith)) ∙ t.0,
        Tiles-within (a + header_size + n) e ns (SameWords-later a n e same) t.1,
      )

  pub GarbageIsSmall-within :
      (a e : Ptr) (ns : List ℕ)
      → SameWords a e mem mem1
      → Tiles mem a ns e
      → GarbageIsSmall mem a ns
      → GarbageIsSmall mem1 a ns
  GarbageIsSmall-within a e [] same t g = g
  GarbageIsSmall-within a e (n ∷ ns) same t (small, rest) =
      let far = Tiles-le mem (a + header_size + n) e ns t.1 in
      let one = same a (omega arith) (omega arith) in
      let two = same (a + size_at) (omega arith) (omega arith) in
      (
        λ plain used.
            small (ap (λ v. has_bit v gc_mark_flag) (sym one) ∙ plain)
              (ap (λ v. has_bit v curr_in_use_flag) (sym two) ∙ used),
        GarbageIsSmall-within (a + header_size + n) e ns (SameWords-later a n e same) t.1 rest,
      )

-- A sweep from `mem` to `mem'` is one from `mem1` to `mem1'` where the words of the heap are the same.
pub Swept-within :
    (mem mem1 mem' mem1' : Mem) (a e : Ptr) (ns : List ℕ)
    → SameWords a e mem mem1
    → SameWords a e mem' mem1'
    → Tiles mem a ns e
    → Swept mem mem' a ns
    → Swept mem1 mem1' a ns
Swept-within mem mem1 mem' mem1' a e [] same same' t s = s
Swept-within mem mem1 mem' mem1' a e (n ∷ ns) same same' t (first, size, rest) =
    let far = Tiles-le mem (a + header_size + n) e ns t.1 in
    let one = same a (omega arith) (omega arith) in
    let two = same (a + size_at) (omega arith) (omega arith) in
    (
      same' a (omega arith) (omega arith)
          ∙ first
          ∙ ap (λ v. if has_bit v gc_mark_flag then unset_bit v gc_mark_flag else v) (sym one),
      same' (a + size_at) (omega arith) (omega arith)
          ∙ size
          ∙ ap₂
              (λ v u.
                if has_bit v gc_mark_flag
                then u
                else if has_bit u curr_in_use_flag
                then unset_bit u curr_in_use_flag
                else u)
              (sym one) (sym two),
      Swept-within mem mem1 mem' mem1' (a + header_size + n) e ns (SameWords-later a n e same)
          (SameWords-later a n e same') t.1 rest,
    )
