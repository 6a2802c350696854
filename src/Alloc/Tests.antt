-- ===== src/Alloc/Tests.antt =====
-- Runs of the allocator of runtime/src/alloc.c on a concrete arena, and its theorems at concrete inputs.
use picasso_lang.Base.{
  suc, ◌*◌, ◌^◌, ◌+◌, or_low, ℕ, ◌≢◌, ◌≤◌, ◌<◌, ◌≡◌, refl, inl, inr, List, [], ◌∷◌, ◌++◌, Option,
  none, some, arith, ◌==◌, if◌then◌else◌,
}
use picasso_lang.Alloc.State.{
  Ptr, null, Mem, poke, Arena, M, Outcome, done, aborted, out_of_fuel, ◌>>=◌, ◌>>◌, pure,
}
use picasso_lang.Alloc.Chunk.{unlink_chunk_from_fdlist, unlink_chunk_from_sortedlist}
use picasso_lang.Alloc.Sizes.{largebins_count, header_size, payload_of, get_largebin_index}
use picasso_lang.Alloc.Sizes.Bounds.{get_largebin_index_bounds}
use picasso_lang.Alloc.Search.{
  fastbin_search, smallbin_search, unsortedbin_search, largebin_search, carve_from_top_chunk, carve,
}
use picasso_lang.Alloc.Search.Carve.{Carved, carve-Carved}
use picasso_lang.Alloc.Api.{
  allocate, find_chunk, release, release_chunk, coalesce, backward_coalesce, forward_coalesce,
}
use picasso_lang.Alloc.Bins.{insert_into_fastbin}
use picasso_lang.Alloc.Bins.Insert.{Inserted}
use picasso_lang.Alloc.Api.Large.{release-Inserted}
use picasso_lang.Alloc.Api.Merged.{joined, is_joined}
use picasso_lang.Alloc.Api.Both.{before, merged, Coalesced, coalesce-Coalesced}
use picasso_lang.Alloc.Api.Fast.{allocate-release}
use picasso_lang.Alloc.Create.{blank, arena_create}

-- The value that a run returns.
abbrev value : {A : Type 0} → Outcome A → Option A
value (done a s) = some a
value aborted = none
value out_of_fuel = none

abbrev start : Arena
start = blank (λ _. 0) (0x10000 ∷ 0x1000000 ∷ 0x8000000 ∷ [])

-- The second chunk of 100 bytes is the first again, 200 bytes come from the unsorted chunk of 300, and the
-- large chunk goes back into the top chunk.
abbrev session : M (List Ptr)
session = do
  arena_create 3504 4096
  a ← allocate 50 100
  b ← allocate 50 300
  c ← allocate 50 1000
  release a
  d ← allocate 50 100
  release b
  e ← allocate 50 200
  release c
  f ← allocate 50 2000
  pure (a ∷ b ∷ c ∷ d ∷ e ∷ f ∷ [])

session_result :
    value (session start)
    ≡ some (0x1000010 ∷ 0x1000090 ∷ 0x10001d0 ∷ 0x1000010 ∷ 0x1000090 ∷ 0x1000170 ∷ [])
unfolding arena_create allocate find_chunk release release_chunk coalesce backward_coalesce
    forward_coalesce unlink_chunk_from_fdlist unlink_chunk_from_sortedlist insert_into_fastbin
    fastbin_search smallbin_search unsortedbin_search largebin_search carve_from_top_chunk carve
    payload_of poke or_low
session_result = refl

get_largebin_index_bounds_example :
    (1000 < 512 → get_largebin_index 1000 ≡ none)
    × (512 ≤ 1000
        → 1000 ≤ 65536
        → (i : ℕ) × (get_largebin_index 1000 ≡ some i)
          × (i ≤ 31)
          × (512 + 64 * i ≤ 1000)
          × (i < 31 → 1000 < 512 + 64 * (i + 1)))
    × (65536 < 1000
        → 1000 < 2 ^ 64
        → (k : ℕ) × (i : ℕ) × (2 ^ k ≤ 1000)
          × (1000 < 2 ^ suc k)
          × (get_largebin_index 1000 ≡ some i)
          × ((32 ≤ i) × (i < largebins_count))
          × (k < 47 → i ≡ k + 16)
          × (47 ≤ k → i ≡ 63))
    × ((t i j : ℕ)
        → 1000 ≤ t
        → get_largebin_index 1000 ≡ some i
        → get_largebin_index t ≡ some j
        → i ≤ j)
get_largebin_index_bounds_example = get_largebin_index_bounds 1000

-- A chunk of 112 bytes in use at 0x1000.
abbrev one_chunk : Mem
one_chunk a = if a == 0x1008 then 117 else 0

allocate-release_example :
    (s' : Arena) × (s'' : Arena) × (release (0x1000 + header_size) (blank one_chunk [])
      ≡ done tt s')
    × (allocate 5 100 s' ≡ done (0x1000 + header_size) s'')
    × ((i : ℕ) → s''.fastbins i ≡ null)
    × ((a : Ptr) → a ≢ 0x1000 + header_size → s''.mem a ≡ one_chunk a)
unfolding payload_of
allocate-release_example =
    allocate-release 0x1000 (blank one_chunk []) 5 100 (omega arith) (omega arith) (omega arith)
      refl refl

-- A heap from 0x1000 with one chunk of 32 bytes and a top chunk of 1000.
abbrev small_heap : Mem
small_heap a = if a == 0x1008 then 37 else if a == 0x1038 then 1001 else 0

abbrev small_arena : Arena
small_arena = record (blank small_heap []) { top_chunk = 0x1030 }

carve-Carved_example :
    Carved small_arena 0x1000 0x1428 (32 ∷ []) 64 1000 (carve_from_top_chunk 64 small_arena)
carve-Carved_example =
    carve-Carved small_arena 0x1000 0x1428 (32 ∷ []) 64 1000 (omega arith) (omega arith)
      (omega arith) (omega arith) (omega arith)

-- A free chunk of 64 bytes, one of 128 in use, a free one of 256 and one of 32 in use, from 0x1000 to 0x1220.
abbrev four_words : Mem
four_words a =
    if a == 0x1008
    then 65
    else if a == 0x1010
    then 0x500
    else if a == 0x1018
    then 0x500
    else if a == 0x1050
    then 64
    else if a == 0x1058
    then 132
    else if a == 0x10e8
    then 257
    else if a == 0x10f0
    then 0x600
    else if a == 0x10f8
    then 0x600
    else if a == 0x11f8
    then 36
    else 0

abbrev four_chunks : Arena
four_chunks = blank four_words []

coalesce-Coalesced_example :
    Coalesced four_chunks 0x1000 0x1220 [] 64 128 256
      (32 ∷ [])
      0x1050
      0x10e0
      (coalesce 0x1050 four_chunks)
coalesce-Coalesced_example =
    coalesce-Coalesced four_chunks 0x1000 0x1220 [] 64 128 256 (32 ∷ []) (omega arith)
      (omega arith, (omega arith, (omega arith, (omega arith, omega arith))))
      (refl, (refl, (refl, (refl, refl))))
      (λ back. (
        refl,
        record {
          fd = (inr (inl (omega arith)), λ e. omega arith);
          bk = (inr (inl (omega arith)), λ e. omega arith);
          next = (inr (inl (omega arith)), λ e. omega arith);
          prev = (inr (inl (omega arith)), λ e. omega arith);
        },
      ))
      (λ joins below. record {
        fd = (inr (inl (omega arith)), λ e. omega arith);
        bk = (inr (inl (omega arith)), λ e. omega arith);
        next = (inr (inl (omega arith)), λ e. omega arith);
        prev = (inr (inl (omega arith)), λ e. omega arith);
      })

-- The three become one of 480 bytes.
all_joined :
    before four_words [] 64 0x1050
      ++ joined (is_joined four_words 0x10e0 256) (merged four_words 64 128 0x1050) 256 (32 ∷ [])
    ≡ 480 ∷ 32 ∷ []
all_joined = refl

-- The second chunk between two in use.
abbrev binned : Arena
binned = record four_chunks {
  unsortedbin = 0x500;
  mem = poke (poke (poke four_words 0x1058 133) 0x10e8 261) 0x510 0x500;
}

release-Inserted_example :
    Inserted binned 0x1000 0x1220 (64 ∷ []) 128 (256 ∷ 32 ∷ []) (release 0x1060 binned)
unfolding poke
release-Inserted_example =
    release-Inserted binned 0x1000 0x1220 (64 ∷ []) 128 256 (32 ∷ []) (omega arith)
      (omega arith, (omega arith, (omega arith, (omega arith, omega arith))))
      (refl, (refl, (refl, (refl, refl)))) refl refl (omega arith) (omega arith) (inl (omega arith))
      (inr (inl (omega arith))) (λ e. omega arith) (λ e. omega arith)
