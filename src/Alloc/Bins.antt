-- ===== src/Alloc/Bins.antt =====
-- Growth of the heap and insertion of free chunks into the bins, runtime/src/alloc.c.
pub mod Unsorted
pub mod Insert
use picasso_lang.Base.{
  ℕ, zero, suc, ◌+◌, ◌-◌, ◌*◌, ◌/◌, ◌^◌, not, ◌&&◌, Option, none, some, [], ◌∷◌, ◌++◌, ◌==◌, ltb,
  leb, if◌then◌else◌, length,
}
use picasso_lang.Alloc.State.{
  Ptr, null, Span, Arena, M, out_of_fuel, pure, abort, ◌>>=◌, ◌>>◌, get, modify, load, store, check,
  put,
}
use picasso_lang.Alloc.Sizes.{
  heap_base_size, heap_exponential_growth_limit, heap_constant_growth, max_heap_growth_iterations,
  header_size, fastbins_count, smallbins_count, largebins_count, heap_boundary_size,
  get_smallbin_index, get_largebin_index,
}
use picasso_lang.Alloc.Chunk.{
  prev_in_use_flag, curr_in_use_flag, fd_at, next_sizeptr_at, prev_sizeptr_at, get_size,
  get_prev_size_flags, set_size, set_prev_size, next_chunk, unset_curr_inuse, unset_prev_inuse,
  unset_mmap_flag, set_fdbk_to, set_nextprev_sizeptr_to, alloc_chunk, insert_into_fdlist,
}

-- The size of the next heap, with the counter that it advances.
unfoldable pub next_heap_size : Arena → ℕ × Arena
next_heap_size ar =
    let expo = heap_base_size * 2 ^ ar.heap_expo_growth_iters in
    if leb expo heap_exponential_growth_limit
    then (expo, record ar { heap_expo_growth_iters = ar.heap_expo_growth_iters + 1 })
    else (
      heap_exponential_growth_limit + heap_constant_growth * ar.heap_constant_growth_iters,
      record ar { heap_constant_growth_iters = ar.heap_constant_growth_iters + 1 },
    )

-- `ar->alloced_heaps[ar->alloced_heap_count++] = …`
unfoldable pub register_heap : Span → M (Unit {0})
register_heap span = do
  ar ← get
  check (ltb (length ar.alloced_heaps) max_heap_growth_iterations)
  modify (λ s. record s { alloced_heaps = s.alloced_heaps ++ (span ∷ []) })

-- The message on a size above HEAP_MAX_SIZE changes nothing and is left out.
unfoldable pub grow_heap : M (Unit {0})
unfolding next_heap_size register_heap alloc_chunk unset_mmap_flag set_size set_fdbk_to
grow_heap = do
  ar ← get
  let (next_size, ar') = next_heap_size ar
  modify (λ _. ar')
  new_block ← alloc_chunk (next_size + heap_boundary_size)
  unset_mmap_flag new_block
  set_size new_block next_size prev_in_use_flag
  modify (λ s. record s { top_chunk = new_block })
  let boundary = new_block + header_size + next_size
  set_size boundary 0 (curr_in_use_flag + prev_in_use_flag)
  set_fdbk_to boundary null
  register_heap (record { start = new_block; end = new_block + next_size + header_size })

-- The head of the fast bin: a chunk of another size is dropped, as in the source.
unfoldable pub insert_into_fastbin : Ptr → M (Unit {0})
unfolding get_size unset_curr_inuse
insert_into_fastbin fc = do
  size ← get_size fc
  ar ← get
  let idx = size / 16 - 1
  if leb 16 size && ltb idx fastbins_count
      then (do
        store fc fd_at (ar.fastbins idx)
        modify (λ s. record s { fastbins = put s.fastbins idx fc })
        unset_curr_inuse fc)
      else pure tt

unfoldable pub smallbin_at : Option ℕ → M Ptr
smallbin_at none = abort
smallbin_at (some idx) = do check (ltb idx smallbins_count); ar ← get; pure (ar.smallbins idx)

unfoldable pub insert_into_smallbin : Ptr → M (Unit {0})
unfolding get_size smallbin_at insert_into_fdlist get_smallbin_index
insert_into_smallbin fc = do
  sz ← get_size fc
  head ← smallbin_at (get_smallbin_index sz)
  insert_into_fdlist head fc

unfoldable pub largebin_at : Option ℕ → M Ptr
largebin_at none = abort
largebin_at (some idx) = do
  check (ltb idx largebins_count)
  ar ← get
  check (not (ar.largebins idx == null))
  pure (ar.largebins idx)

-- `while (ceil_chunk != head && get_size(ceil_chunk) < size)`
unfoldable pub find_ceil : ℕ → Ptr → ℕ → Ptr → M Ptr
find_ceil zero head size ceil = λ _. out_of_fuel
find_ceil (suc k) head size ceil =
    let step = (do
      n ← get_size ceil
      next ← load ceil next_sizeptr_at
      if ltb n size then find_ceil k head size next else pure ceil) in
    if ceil == head then pure ceil else step

unfoldable pub insert_into_largebin : ℕ → Ptr → M (Unit {0})
unfolding get_size largebin_at find_ceil insert_into_fdlist get_largebin_index
insert_into_largebin fuel fc = do
  size ← get_size fc
  head ← largebin_at (get_largebin_index size)
  first ← load head next_sizeptr_at
  ceil_chunk ← find_ceil fuel head size first
  floor_chunk ← load ceil_chunk prev_sizeptr_at
  store fc next_sizeptr_at ceil_chunk
  store fc prev_sizeptr_at floor_chunk
  store ceil_chunk prev_sizeptr_at fc
  store floor_chunk next_sizeptr_at fc
  insert_into_fdlist head fc

unfoldable pub insert_into_unsortedbin : Ptr → M (Unit {0})
unfolding get_size get_prev_size_flags set_prev_size next_chunk unset_curr_inuse unset_prev_inuse
    set_nextprev_sizeptr_to insert_into_fdlist
insert_into_unsortedbin fc = do
  ar ← get
  check (not (ar.unsortedbin == null))
  let head = ar.unsortedbin
  unset_curr_inuse fc
  next ← next_chunk fc
  unset_prev_inuse next
  next_fc ← next_chunk fc
  size ← get_size fc
  flags ← get_prev_size_flags next_fc
  set_prev_size next_fc size flags
  if ltb 16 size then set_nextprev_sizeptr_to fc null else pure tt
  insert_into_fdlist head fc
