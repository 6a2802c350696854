-- ===== src/Alloc/Create.antt =====
-- `arena_create` of runtime/src/alloc.c: the arena's block holds `arena_t` and behind it one sentinel
-- for each small bin, each large bin and the unsorted bin. The size of `arena_t` depends on the
-- platform's mutex, and the page size comes from the system: both are parameters.
use picasso_lang.Base.{ℕ, zero, suc, ◌+◌, ◌-◌, ◌*◌, ◌/◌, List, [], not, ◌==◌}
use picasso_lang.Alloc.State.{
  Ptr, null, Mem, Arena, M, pure, ◌>>=◌, ◌>>◌, modify, store, check, put, alloc_memory,
}
use picasso_lang.Alloc.Sizes.{smallbins_count, largebins_count}
use picasso_lang.Alloc.Chunk.{size_at, set_fdbk_to, set_nextprev_sizeptr_to}
use picasso_lang.Alloc.Bins.{grow_heap}

-- `sizeof(free_chunk_t)`
abbrev pub chunk_bytes : ℕ
chunk_bytes = 48

-- `(size + page_size - 1) & ~(page_size - 1)` for a page size that is a power of two
unfoldable pub align_page : ℕ → ℕ → ℕ
align_page page_size size = (size + page_size - 1) / page_size * page_size

unfoldable pub init_smallbins : ℕ → ℕ → Ptr → M Ptr
unfolding set_fdbk_to
init_smallbins zero i curr = pure curr
init_smallbins (suc rounds) i curr = do
  set_fdbk_to curr curr
  store curr size_at 0
  modify (λ s. record s { smallbins = put s.smallbins i curr })
  init_smallbins rounds (i + 1) (curr + chunk_bytes)

unfoldable pub init_largebins : ℕ → ℕ → Ptr → M Ptr
unfolding set_fdbk_to set_nextprev_sizeptr_to
init_largebins zero i curr = pure curr
init_largebins (suc rounds) i curr = do
  set_fdbk_to curr curr
  set_nextprev_sizeptr_to curr curr
  store curr size_at 0
  modify (λ s. record s { largebins = put s.largebins i curr })
  init_largebins rounds (i + 1) (curr + chunk_bytes)

-- Fresh pages are zero, so the counters and pointers of the new `arena_t` start at 0.
abbrev pub blank : Mem → List Ptr → Arena
blank mem mmaps = record {
  mem = mem;
  fastbins = λ _. null;
  top_chunk = null;
  unsortedbin = null;
  smallbins = λ _. null;
  largebins = λ _. null;
  heap_expo_growth_iters = 0;
  heap_constant_growth_iters = 0;
  alloced_heaps = [];
  mmaps = mmaps;
  unmapped = [];
}

unfoldable pub arena_create : ℕ → ℕ → M (Unit {0})
unfolding align_page alloc_memory init_smallbins init_largebins set_fdbk_to grow_heap
arena_create arena_bytes page_size = do
  block ← alloc_memory (
      align_page page_size
        (arena_bytes + smallbins_count * chunk_bytes + largebins_count * chunk_bytes + chunk_bytes))
  check (not (block == null))
  large ← init_smallbins smallbins_count 0 (block + arena_bytes)
  ufc ← init_largebins largebins_count 0 large
  set_fdbk_to ufc ufc
  store ufc size_at 0
  modify (λ s. record s { unsortedbin = ufc })
  grow_heap
