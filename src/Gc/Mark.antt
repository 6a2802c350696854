-- ===== src/Gc/Mark.antt =====
-- The mark phase of runtime/src/gc.c, over the words of memory and the heaps of the registered arenas.
-- The source's recursion, from a marked chunk into its payload, runs on fuel (`none` when it runs out).
pub mod Find
pub mod Target
pub mod Place
pub mod Pointed
pub mod Marks
pub mod Exact
use picasso_lang.Base.{
  ℕ, zero, suc, ◌+◌, ◌-◌, ◌/◌, ◌%◌, Bool, ◌&&◌, ◌||◌, Option, none, some, List, [], ◌∷◌, ◌==◌, ltb,
  leb, if◌then◌else◌, has_bit, set_bit,
}
use mathlib.Core.Option
use picasso_lang.Alloc.State.{Ptr, Mem, poke, Span}
use picasso_lang.Alloc.Sizes.{header_size}
use picasso_lang.Alloc.Chunk.{size_at, curr_in_use_flag, gc_mark_flag, size_bits}

-- The loop of `find_chunk_in_heap` from `scan` on. Each round moves on by a header at least, so
-- `end - start` rounds are enough.
unfoldable pub scan_heap : ℕ → Mem → Ptr → Ptr → Ptr → Option Ptr
scan_heap zero mem end ptr scan = none
scan_heap (suc k) mem end ptr scan =
    let word = mem (scan + size_at) in
    let payload_size = size_bits word in
    let payload_start = scan + header_size in
    let rest = scan_heap k mem end ptr (scan + header_size + payload_size) in
    if ltb scan end
    then (if has_bit word curr_in_use_flag
          && (leb payload_start ptr && ltb ptr (payload_start + payload_size))
        then some scan
        else rest)
    else none

unfoldable pub find_chunk_in_heap : Mem → Span → Ptr → Option Ptr
unfolding scan_heap
find_chunk_in_heap mem heap ptr = scan_heap (heap.end - heap.start) mem heap.end ptr heap.start

unfoldable pub is_pointer_aligned : ℕ → Bool
is_pointer_aligned v = v % 8 == 0

-- The first registered heap that holds the address.
unfoldable pub heap_of : List Span → Ptr → Option Span
heap_of [] p = none
heap_of (h ∷ hs) p = if ltb p h.start || leb h.end p then heap_of hs p else some h

-- `ch->prev_size |= __GC_MARK_FLAG_MASK`
unfoldable pub set_mark : Mem → Ptr → Mem
unfolding poke
set_mark mem ch = poke mem ch (set_bit (mem ch) gc_mark_flag)

-- `try_mark_pointer`, given the call that it makes on the chunk that it has marked. The number that it
-- returns is not used by any caller.
unfoldable pub try_mark_with : (Mem → Ptr → Option Mem) → List Span → Mem → ℕ → Option Mem
unfolding is_pointer_aligned heap_of set_mark find_chunk_in_heap
try_mark_with recurse heaps mem val =
    if is_pointer_aligned val
    then elim (heap_of heaps val) [
      | none ↦ some mem
      | some h ↦ elim (find_chunk_in_heap mem h val) [
        | none ↦ some mem
        | some ch ↦ recurse (set_mark mem ch) ch
      ]
    ]
    else some mem

-- `gc_mark_mem_region` over the given number of words from `p` on.
unfoldable pub mark_words : (Mem → ℕ → Option Mem) → ℕ → Mem → Ptr → Option Mem
mark_words try zero mem p = some mem
mark_words try (suc words) mem p =
    let val = mem p in
    Option.bind (if val == 0 then some mem else try mem val)
      λ mem'. mark_words try words mem' (p + 8)

unfoldable pub gc_mark_mem_region : (Mem → ℕ → Option Mem) → Mem → Ptr → Ptr → Option Mem
unfolding mark_words
gc_mark_mem_region try mem start end = mark_words try ((end - start) / 8) mem start

unfoldable pub mark_chunk_recursive : List Span → ℕ → Mem → Ptr → Option Mem
unfolding gc_mark_mem_region try_mark_with
mark_chunk_recursive heaps zero mem ch = none
mark_chunk_recursive heaps (suc k) mem ch =
    let payload_start = ch + header_size in
    let traced =
      gc_mark_mem_region (try_mark_with (mark_chunk_recursive heaps k) heaps) mem payload_start
        (payload_start + size_bits (mem (ch + size_at))) in
    if has_bit (mem ch) gc_mark_flag then some mem else traced

unfoldable pub try_mark_pointer : List Span → ℕ → Mem → ℕ → Option Mem
unfolding try_mark_with mark_chunk_recursive
try_mark_pointer heaps fuel = try_mark_with (mark_chunk_recursive heaps fuel) heaps

-- What the collector reads of `platform_ctx_t`: the stack, the 31 registers, the stack pointer, the pc.
pub record Ctx : Type 0 where
  pub stack_base : Ptr
  pub stack_size : ℕ
  pub stack_pointer : Ptr
  pub regs : List ℕ
  pub pc : ℕ

unfoldable pub mark_values : (Mem → ℕ → Option Mem) → List ℕ → Mem → Option Mem
mark_values try [] mem = some mem
mark_values try (v ∷ vs) mem =
    Option.bind (if v == 0 then some mem else try mem v) λ mem'. mark_values try vs mem'

unfoldable pub gc_mark_registers : (Mem → ℕ → Option Mem) → Ctx → Mem → Option Mem
unfolding mark_values
gc_mark_registers try ctx mem =
    Option.bind (mark_values try ctx.regs mem)
      λ mem'. Option.bind (try mem' ctx.stack_pointer) λ mem''. try mem'' ctx.pc

-- A stack pointer outside the stack: a message, and the task is skipped.
unfoldable pub gc_mark_task : (Mem → ℕ → Option Mem) → Ctx → Mem → Option Mem
unfolding gc_mark_mem_region gc_mark_registers
gc_mark_task try ctx mem =
    let top = ctx.stack_base + ctx.stack_size in
    if ltb ctx.stack_pointer ctx.stack_base || ltb top ctx.stack_pointer
    then some mem
    else Option.bind (gc_mark_mem_region try mem ctx.stack_base top)
        λ mem'. gc_mark_registers try ctx mem'

-- A registered task: whether it is finished, and its context.
pub record Root : Type 0 where
  pub finished : Bool
  pub ctx : Ctx

-- The walk round the ring of roots, given in the order of its `fd` links from the head.
unfoldable pub mark_roots : (Mem → ℕ → Option Mem) → List Root → Mem → Option Mem
unfolding gc_mark_task
mark_roots try [] mem = some mem
mark_roots try (r ∷ rs) mem =
    Option.bind (if r.finished then some mem else gc_mark_task try r.ctx mem)
      λ mem'. mark_roots try rs mem'

unfoldable pub gc_mark : List Span → ℕ → List Root → Mem → Option Mem
unfolding mark_roots try_mark_pointer
gc_mark heaps fuel roots mem = mark_roots (try_mark_pointer heaps fuel) roots mem
