-- ===== src/Alloc/Api.antt =====
-- `_allocate`, `_release` and `arena_create` of runtime/src/alloc.c, with the coalescing of `_release`.
-- `allocate` and `release` only hold the arena's mutex round them.
pub mod Fast
pub mod Coalesce
pub mod Merged
pub mod Both
pub mod Large
use picasso_lang.Base.{ℕ, ◌+◌, ◌-◌, ◌*◌, Bool, true, not, ◌||◌, ◌&&◌, ◌==◌, ltb, leb, if◌then◌else◌}
use picasso_lang.Alloc.State.{Ptr, null, M, pure, ◌>>=◌, ◌>>◌, get, modify, check, munmap}
use picasso_lang.Alloc.Sizes.{
  mmap_threshold, header_size, fastbins_count, smallbins_count, payload_of,
}
use picasso_lang.Alloc.Chunk.{
  get_size, get_size_flags, get_prev_size_flags, set_size, set_prev_size, next_chunk, prev_chunk,
  is_curr_inuse, is_prev_inuse, alloc_chunk, unlink_chunk_from_fdlist, unlink_chunk_from_sortedlist,
}
use picasso_lang.Alloc.Bins.{insert_into_fastbin, insert_into_unsortedbin}
use picasso_lang.Alloc.Search.{
  fastbin_search, smallbin_search, unsortedbin_search, largebin_search, carve_from_top_chunk,
}

-- `if (!victim && test) victim = search`
abbrev pub try_next : Bool → M Ptr → Ptr → M Ptr
try_next test search victim = if (victim == null) && test then search else pure victim

unfoldable pub find_chunk : ℕ → ℕ → M Ptr
find_chunk fuel payload_size = do
  v ← try_next (leb mmap_threshold payload_size) (alloc_chunk payload_size) null
  v ← try_next (leb payload_size (16 * fastbins_count)) (fastbin_search payload_size) v
  v ← try_next (ltb payload_size (16 * smallbins_count)) (smallbin_search payload_size) v
  v ← try_next true (unsortedbin_search fuel payload_size) v
  v ← try_next true (largebin_search fuel payload_size) v
  v ← try_next true (carve_from_top_chunk payload_size) v
  if v == null
      then (do
        ar ← get
        insert_into_unsortedbin ar.top_chunk
        modify (λ s. record s { top_chunk = null })
        carve_from_top_chunk payload_size)
      else pure v

unfoldable pub allocate : ℕ → ℕ → M Ptr
allocate fuel requested_size =
    if requested_size == 0
    then pure null
    else do victim ← find_chunk fuel (payload_of requested_size); pure (victim + header_size)

-- NULL where `fc` went into the top chunk.
unfoldable pub forward_coalesce : Ptr → M Ptr
unfolding get_size get_size_flags get_prev_size_flags set_size set_prev_size next_chunk
    is_curr_inuse
forward_coalesce fc = do
  next_fc ← next_chunk fc
  used ← is_curr_inuse next_fc
  next_size ← get_size next_fc
  ar ← get
  if used || leb next_size (16 * fastbins_count)
      then pure fc
      else if next_fc == ar.top_chunk
      then (do
        size ← get_size fc
        let updated_size = size + header_size + next_size
        flags ← get_size_flags fc
        set_size fc updated_size flags
        after ← next_chunk fc
        set_prev_size after updated_size 0
        modify (λ s. record s { top_chunk = fc })
        pure null)
      else (do
        unlink_chunk_from_fdlist next_fc
        unlink_chunk_from_sortedlist next_fc
        size ← get_size fc
        rest ← get_size next_fc
        let updated_size = size + header_size + rest
        flags ← get_size_flags fc
        set_size fc updated_size flags
        after ← next_chunk fc
        after_flags ← get_prev_size_flags after
        set_prev_size after updated_size after_flags
        pure fc)

unfoldable pub backward_coalesce : Ptr → M Ptr
unfolding get_size get_size_flags get_prev_size_flags set_size set_prev_size next_chunk prev_chunk
    is_prev_inuse
backward_coalesce fc = do
  used ← is_prev_inuse fc
  if used then pure fc else do
    prev_fc ← prev_chunk fc
    prev_size ← get_size prev_fc
    if leb prev_size 16 then pure fc else do
      unlink_chunk_from_fdlist prev_fc
      unlink_chunk_from_sortedlist prev_fc
      prev_size' ← get_size prev_fc
      size ← get_size fc
      let updated_size = prev_size' + header_size + size
      flags ← get_size_flags prev_fc
      set_size prev_fc updated_size flags
      after ← next_chunk prev_fc
      after_flags ← get_prev_size_flags after
      set_prev_size after updated_size after_flags
      pure prev_fc

unfoldable pub coalesce : Ptr → M Ptr
coalesce fc = do prev ← backward_coalesce fc; forward_coalesce prev

-- The chunk before the payload at `ptr`.
unfoldable pub release_chunk : Ptr → M (Unit {0})
release_chunk fc = do
  size ← get_size fc
  check (not (size == 0))
  if leb mmap_threshold size
      then munmap fc (size + header_size)
      else if leb size (16 * fastbins_count)
      then insert_into_fastbin fc
      else do
        merged ← coalesce fc
        if merged == null then pure tt else insert_into_unsortedbin merged

unfoldable pub release : Ptr → M (Unit {0})
release ptr = if ptr == null then pure tt else release_chunk (ptr - header_size)
