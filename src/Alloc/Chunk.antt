-- ===== src/Alloc/Chunk.antt =====
-- The chunk headers of runtime/src/alloc.c: `free_chunk_t`, its size and flag bits, its neighbours, and
-- the doubly linked lists that run through free chunks.
use picasso_lang.Base.{
  ℕ, ◌+◌, ◌-◌, ◌*◌, ◌/◌, ◌%◌, Bool, not, ◌||◌, ◌==◌, leb, if◌then◌else◌, has_bit, set_bit,
  unset_bit, or_low,
}
use picasso_lang.Alloc.State.{
  Ptr, null, M, pure, abort, ◌>>=◌, ◌>>◌, load, store, check, alloc_memory,
}
use picasso_lang.Alloc.Sizes.{header_size, add_size, align16}

-- Byte offsets of the fields of `free_chunk_t`.
abbrev pub prev_size_at : ℕ
prev_size_at = 0

abbrev pub size_at : ℕ
size_at = 8

abbrev pub fd_at : ℕ
fd_at = 16

abbrev pub bk_at : ℕ
bk_at = 24

abbrev pub next_sizeptr_at : ℕ
next_sizeptr_at = 32

abbrev pub prev_sizeptr_at : ℕ
prev_sizeptr_at = 40

abbrev pub prev_in_use_flag : ℕ
prev_in_use_flag = 1

abbrev pub gc_mark_flag : ℕ
gc_mark_flag = 2

abbrev pub curr_in_use_flag : ℕ
curr_in_use_flag = 4

abbrev pub mmap_allocated_flag : ℕ
mmap_allocated_flag = 2

-- `word & __CHUNK_SIZE_MASK` and `word & __SIZE_BITS`
abbrev pub size_bits : ℕ → ℕ
size_bits w = w / 8 * 8

abbrev pub flag_bits : ℕ → ℕ
flag_bits w = w % 8

unfoldable pub is_prev_inuse : Ptr → M Bool
is_prev_inuse fc = do w ← load fc size_at; pure (has_bit w prev_in_use_flag)

unfoldable pub set_prev_inuse : Ptr → M (Unit {0})
set_prev_inuse fc = do w ← load fc size_at; store fc size_at (set_bit w prev_in_use_flag)

unfoldable pub unset_prev_inuse : Ptr → M (Unit {0})
unset_prev_inuse fc = do w ← load fc size_at; store fc size_at (unset_bit w prev_in_use_flag)

unfoldable pub is_curr_inuse : Ptr → M Bool
is_curr_inuse fc = do w ← load fc size_at; pure (has_bit w curr_in_use_flag)

unfoldable pub set_curr_inuse : Ptr → M (Unit {0})
set_curr_inuse fc = do w ← load fc size_at; store fc size_at (set_bit w curr_in_use_flag)

unfoldable pub unset_curr_inuse : Ptr → M (Unit {0})
unset_curr_inuse fc = do w ← load fc size_at; store fc size_at (unset_bit w curr_in_use_flag)

unfoldable pub unset_mmap_flag : Ptr → M (Unit {0})
unset_mmap_flag fc = do w ← load fc size_at; store fc size_at (unset_bit w mmap_allocated_flag)

unfoldable pub get_size : Ptr → M ℕ
get_size fc = do w ← load fc size_at; pure (size_bits w)

unfoldable pub get_prev_size : Ptr → M ℕ
get_prev_size fc = do w ← load fc prev_size_at; pure (size_bits w)

unfoldable pub get_size_flags : Ptr → M ℕ
get_size_flags fc = do w ← load fc size_at; pure (flag_bits w)

unfoldable pub get_prev_size_flags : Ptr → M ℕ
get_prev_size_flags fc = do w ← load fc prev_size_at; pure (flag_bits w)

unfoldable pub set_size : Ptr → ℕ → ℕ → M (Unit {0})
set_size fc size flags = store fc size_at (or_low size flags)

unfoldable pub set_prev_size : Ptr → ℕ → ℕ → M (Unit {0})
set_prev_size fc size flags = do check (not (size == 0)); store fc prev_size_at (or_low size flags)

unfoldable pub next_chunk : Ptr → M Ptr
unfolding get_size
next_chunk fc = do n ← get_size fc; pure (fc + header_size + n)

-- A chunk below address 0 cannot be read.
unfoldable pub prev_chunk : Ptr → M Ptr
unfolding get_prev_size
prev_chunk fc = do
  n ← get_prev_size fc
  if leb (header_size + n) fc then pure (fc - header_size - n) else abort

unfoldable pub set_fdbk_to : Ptr → Ptr → M (Unit {0})
set_fdbk_to fc v = do store fc bk_at v; store fc fd_at v

unfoldable pub set_nextprev_sizeptr_to : Ptr → Ptr → M (Unit {0})
set_nextprev_sizeptr_to fc v = do store fc prev_sizeptr_at v; store fc next_sizeptr_at v

-- A chunk of its own pages, marked as mapped.
unfoldable pub alloc_chunk : ℕ → M Ptr
unfolding align16 alloc_memory set_size set_fdbk_to
alloc_chunk size = do
  fc ← alloc_memory (align16 (add_size size header_size))
  check (not (fc == null))
  set_size fc size mmap_allocated_flag
  set_fdbk_to fc null
  pure fc

unfoldable pub unlink_chunk_from_fdlist : Ptr → M (Unit {0})
unlink_chunk_from_fdlist p = do
  bk ← load p bk_at
  fd ← load p fd_at
  if (bk == null) || (fd == null) then pure tt else do
    store fd bk_at bk
    bk' ← load p bk_at
    fd' ← load p fd_at
    store bk' fd_at fd'
    store p bk_at null
    store p fd_at null

unfoldable pub unlink_chunk_from_sortedlist : Ptr → M (Unit {0})
unlink_chunk_from_sortedlist p = do
  prev ← load p prev_sizeptr_at
  next ← load p next_sizeptr_at
  if (prev == null) || (next == null) then pure tt else do
    store prev next_sizeptr_at next
    next' ← load p next_sizeptr_at
    prev' ← load p prev_sizeptr_at
    store next' prev_sizeptr_at prev'
    store p prev_sizeptr_at null
    store p next_sizeptr_at null

-- `p` becomes the first chunk of the list of `head`.
unfoldable pub insert_into_fdlist : Ptr → Ptr → M (Unit {0})
insert_into_fdlist head p = do
  first ← load head fd_at
  store p fd_at first
  store p bk_at head
  first' ← load head fd_at
  store first' bk_at p
  store head fd_at p
