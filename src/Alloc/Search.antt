-- ===== src/Alloc/Search.antt =====
-- The searches of runtime/src/alloc.c for a chunk of a payload size, in the order in which `_allocate`
-- tries them. A search returns the chunk, or NULL. Loops over lists of chunks run on fuel.
pub mod Carve
use picasso_lang.Base.{
  ℕ, zero, suc, ◌+◌, ◌-◌, ◌*◌, ◌/◌, not, ◌&&◌, none, some, ◌==◌, ltb, leb, if◌then◌else◌,
}
use picasso_lang.Alloc.State.{
  Ptr, null, M, out_of_fuel, pure, ◌>>=◌, ◌>>◌, get, modify, load, store, check, put,
}
use picasso_lang.Alloc.Sizes.{
  header_size, min_payload_size, fastbins_count, smallbins_count, largebins_count,
  get_smallbin_index, get_largebin_index,
}
use picasso_lang.Alloc.Chunk.{
  prev_in_use_flag, fd_at, next_sizeptr_at, get_size, get_size_flags, set_size, set_prev_size,
  next_chunk, set_curr_inuse, set_prev_inuse, unlink_chunk_from_fdlist,
  unlink_chunk_from_sortedlist,
}
use picasso_lang.Alloc.Bins.{
  grow_heap, insert_into_smallbin, insert_into_largebin, insert_into_unsortedbin,
}

unfoldable pub fastbin_search : ℕ → M Ptr
unfolding set_curr_inuse
fastbin_search requested_size = do
  ar ← get
  let idx = requested_size / 16 - 1
  let victim = ar.fastbins idx
  if (leb 16 requested_size && ltb idx fastbins_count) && not (victim == null)
      then (do
        next ← load victim fd_at
        modify (λ s. record s { fastbins = put s.fastbins idx next })
        store victim fd_at null
        set_curr_inuse victim
        pure victim)
      else pure null

unfoldable pub smallbin_take : Ptr → M Ptr
unfolding unlink_chunk_from_fdlist set_curr_inuse set_prev_inuse next_chunk
smallbin_take head = do
  victim ← load head fd_at
  if victim == head then pure null else do
    unlink_chunk_from_fdlist victim
    set_curr_inuse victim
    next ← next_chunk victim
    set_prev_inuse next
    pure victim

unfoldable pub smallbin_search : ℕ → M Ptr
unfolding smallbin_take get_smallbin_index
smallbin_search requested_size = do
  ar ← get
  elim (get_smallbin_index requested_size) [
    | none ↦ pure null
    | some idx ↦ if ltb idx smallbins_count then smallbin_take (ar.smallbins idx) else pure null
  ]

-- The header of what is left of `curr` behind its first `requested_size` bytes.
unfoldable pub write_remainder : Ptr → ℕ → M Ptr
unfolding set_size set_prev_size next_chunk
write_remainder remainder remainder_payload_size = do
  set_size remainder remainder_payload_size prev_in_use_flag
  next ← next_chunk remainder
  set_prev_size next remainder_payload_size 0
  pure remainder

-- The branch that the unsorted and the large bins share: a chunk that is large enough is split where
-- the rest can be a chunk, and the rest goes to the unsorted bin.
unfoldable pub take_chunk : Ptr → ℕ → ℕ → M Ptr
unfolding write_remainder insert_into_unsortedbin set_size get_size_flags set_curr_inuse
    set_prev_inuse next_chunk
take_chunk curr curr_size requested_size =
    let rest = curr_size - requested_size in
    if leb (min_payload_size + header_size) rest
    then (do
      remainder ← write_remainder (curr + header_size + requested_size) (rest - header_size)
      insert_into_unsortedbin remainder
      flags ← get_size_flags curr
      set_size curr requested_size flags
      set_curr_inuse curr
      pure curr)
    else (do set_curr_inuse curr; next ← next_chunk curr; set_prev_inuse next; pure curr)

-- The inner loop over one large bin, by increasing size.
unfoldable pub largebin_walk : ℕ → Ptr → ℕ → Ptr → M Ptr
unfolding take_chunk get_size unlink_chunk_from_fdlist unlink_chunk_from_sortedlist
largebin_walk zero head requested_size curr = λ _. out_of_fuel
largebin_walk (suc k) head requested_size curr =
    let step = (do
      next ← load curr next_sizeptr_at
      curr_size ← get_size curr
      if leb requested_size curr_size
          then (do
            unlink_chunk_from_fdlist curr
            unlink_chunk_from_sortedlist curr
            take_chunk curr curr_size requested_size)
          else largebin_walk k head requested_size next) in
    if curr == head then pure null else step

-- The outer loop: `rounds` bins from index `i` on.
unfoldable pub largebin_from : ℕ → ℕ → ℕ → ℕ → M Ptr
unfolding largebin_walk
largebin_from fuel requested_size zero i = pure null
largebin_from fuel requested_size (suc rounds) i = do
  ar ← get
  check (not (ar.largebins i == null))
  first ← load (ar.largebins i) next_sizeptr_at
  found ← largebin_walk fuel (ar.largebins i) requested_size first
  if found == null then largebin_from fuel requested_size rounds (i + 1) else pure found

unfoldable pub largebin_search : ℕ → ℕ → M Ptr
unfolding largebin_from get_largebin_index
largebin_search fuel requested_size = elim (get_largebin_index requested_size) [
  | none ↦ pure null
  | some idx ↦
      if ltb idx largebins_count
      then largebin_from fuel requested_size (largebins_count - idx) idx
      else pure null
]

-- Each chunk is taken out; one that is too small goes to its bin.
unfoldable pub unsortedbin_walk : ℕ → Ptr → ℕ → Ptr → M Ptr
unfolding take_chunk get_size unlink_chunk_from_fdlist insert_into_smallbin insert_into_largebin
unsortedbin_walk zero head requested_size curr = λ _. out_of_fuel
unsortedbin_walk (suc k) head requested_size curr =
    let step = (do
      next ← load curr fd_at
      unlink_chunk_from_fdlist curr
      curr_size ← get_size curr
      if leb requested_size curr_size then take_chunk curr curr_size requested_size else do
        if ltb curr_size (16 * smallbins_count)
            then insert_into_smallbin curr
            else insert_into_largebin k curr
        unsortedbin_walk k head requested_size next) in
    if curr == head then pure null else step

unfoldable pub unsortedbin_search : ℕ → ℕ → M Ptr
unfolding unsortedbin_walk
unsortedbin_search fuel requested_size = do
  ar ← get
  first ← load ar.unsortedbin fd_at
  unsortedbin_walk fuel ar.unsortedbin requested_size first

-- What `carve_from_top_chunk` does once there is a top chunk.
unfoldable pub carve : Ptr → ℕ → M Ptr
unfolding get_size get_size_flags set_size write_remainder set_curr_inuse set_prev_inuse next_chunk
carve curr requested_size = do
  curr_size ← get_size curr
  let rest = curr_size - requested_size
  if ltb curr_size requested_size
      then pure null
      else if leb (min_payload_size + header_size) rest
      then (do
        remainder ← write_remainder (curr + header_size + requested_size) (rest - header_size)
        flags ← get_size_flags curr
        set_size curr requested_size flags
        set_curr_inuse curr
        modify (λ s. record s { top_chunk = remainder })
        pure curr)
      else (do
        set_curr_inuse curr
        next ← next_chunk curr
        set_prev_inuse next
        modify (λ s. record s { top_chunk = null })
        pure curr)

unfoldable pub carve_from_top_chunk : ℕ → M Ptr
carve_from_top_chunk requested_size = do
  ar ← get
  if ar.top_chunk == null then grow_heap else pure tt
  ar' ← get
  carve ar'.top_chunk requested_size
