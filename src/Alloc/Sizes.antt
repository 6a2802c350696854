-- ===== src/Alloc/Sizes.antt =====
-- The size arithmetic of runtime/src/alloc.c and the constants of runtime/headers/alloc.h.
pub mod Bounds
use picasso_lang.Base.{
  ℕ, zero, suc, ◌+◌, ◌-◌, ◌*◌, ◌/◌, ◌%◌, ◌^◌, Option, none, some, ◌==◌, ltb, leb, if◌then◌else◌,
}

abbrev pub heap_base_size : ℕ
heap_base_size = 1024 * 1024

abbrev pub heap_max_size : ℕ
heap_max_size = 10_737_418_240

abbrev pub heap_exponential_growth_limit : ℕ
heap_exponential_growth_limit = 64 * 1024 * 1024

abbrev pub heap_constant_growth : ℕ
heap_constant_growth = 64 * 1024 * 1024

abbrev pub max_heap_growth_iterations : ℕ
max_heap_growth_iterations = 159

abbrev pub mmap_threshold : ℕ
mmap_threshold = 131072

abbrev pub header_size : ℕ
header_size = 16

abbrev pub min_payload_size : ℕ
min_payload_size = 32

abbrev pub fastbins_count : ℕ
fastbins_count = 7

abbrev pub smallbins_count : ℕ
smallbins_count = 32

abbrev pub largebins_count : ℕ
largebins_count = 64

abbrev pub heap_boundary_size : ℕ
heap_boundary_size = 32

-- `size_t` addition
abbrev pub add_size : ℕ → ℕ → ℕ
add_size a b = (a + b) % 2 ^ 64

-- `(size + 15) & ~15`
unfoldable pub align16 : ℕ → ℕ
align16 size = add_size size 15 / 16 * 16

-- The payload that a request is given: aligned, and of at least `min_payload_size`.
unfoldable pub payload_of : ℕ → ℕ
unfolding align16
payload_of requested_size =
    let payload_size = align16 requested_size in
    if ltb payload_size min_payload_size then min_payload_size else payload_size

-- `(int)((size >> 4) - 1)`, `none` where it is negative. The callers pass sizes below 2 ^ 35 only, so
-- that the cast keeps the value.
unfoldable pub get_smallbin_index : ℕ → Option ℕ
get_smallbin_index size = if size / 16 == 0 then none else some (size / 16 - 1)

-- `63 - clz(x)`: the position of the highest bit, found within 64 halvings.
unfoldable pub log2_fuel : ℕ → ℕ → ℕ
log2_fuel zero x = 0
log2_fuel (suc k) x = let rest = suc (log2_fuel k (x / 2)) in if ltb x 2 then 0 else rest

unfoldable pub floor_log2 : ℕ → ℕ
unfolding log2_fuel
floor_log2 x = log2_fuel 64 x

-- `none` stands for -1.
unfoldable pub get_largebin_index : ℕ → Option ℕ
get_largebin_index size =
    if ltb size 512
    then none
    else if leb size (64 * 1024)
    then (let idx = (size - 512) / 64 in some (if ltb 31 idx then 31 else idx))
    else (let idx = 32 + floor_log2 size - 16 in
        some (if ltb idx 32 then 32 else if ltb 63 idx then 63 else idx))
