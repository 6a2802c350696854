-- ===== src/Alloc/Sizes/Bounds.antt =====
-- Bounds of the size arithmetic of runtime/src/alloc.c: no index leaves its array of bins.
use picasso_lang.Base.{
  refl, if◌then◌else◌, ℕ, zero, suc, ◌+◌, ◌-◌, ◌*◌, ◌/◌, ◌%◌, ◌^◌, ◌≤◌, ◌<◌, ◌≡◌, inl, inr, none,
  some, ltb, arith, tests, Bool-cases,
}
use native.Mathlib.Nat.{two-pow-succ}
use picasso_lang.Alloc.Sizes.{
  min_payload_size, smallbins_count, largebins_count, payload_of, get_smallbin_index, log2_fuel,
  floor_log2, get_largebin_index,
}

-- The payload for a request of up to 2 ^ 63 bytes is a multiple of 16, at least 32 and at least the
-- request, and exceeds the request by less than 32 bytes.
pub payload_of_bounds :
    (requested : ℕ)
    → 0 < requested
    → requested ≤ 2 ^ 63
    → (payload_of requested % 16 ≡ 0)
      × (min_payload_size ≤ payload_of requested)
      × (requested ≤ payload_of requested)
      × (payload_of requested < requested + 32)
unfolding payload_of
payload_of_bounds requested pos small = ground arith

log2_fuel-bounds :
    (k x : ℕ) → 0 < x → x < 2 ^ k → (2 ^ log2_fuel k x ≤ x) × (x < 2 ^ suc (log2_fuel k x))
unfolding log2_fuel
log2_fuel-bounds zero x pos small = absurd (omega arith)
log2_fuel-bounds (suc k) x pos small = elim (Bool-cases (ltb x 2)) [
  | inl e ↦ rw e (omega tests)
  | inr e ↦
      let ih = log2_fuel-bounds k (x / 2) (ground arith) (omega (arith, two-pow-succ k)) in
      rw e (
        omega
          (arith, ih, two-pow-succ (log2_fuel k (x / 2)), two-pow-succ (suc (log2_fuel k (x / 2)))))
]

-- `floor_log2` gives the position of the highest bit of a 64-bit number above zero.
pub floor_log2_bounds :
    (x : ℕ) → 0 < x → x < 2 ^ 64 → (2 ^ floor_log2 x ≤ x) × (x < 2 ^ suc (floor_log2 x))
unfolding floor_log2
floor_log2_bounds x = log2_fuel-bounds 64 x

log2_fuel_mono : (k x y : ℕ) → x ≤ y → log2_fuel k x ≤ log2_fuel k y
unfolding log2_fuel
log2_fuel_mono zero x y h = omega arith
log2_fuel_mono (suc k) x y h = ground (arith, log2_fuel_mono k (x / 2) (y / 2))

floor_log2_mono : (x y : ℕ) → x ≤ y → floor_log2 x ≤ floor_log2 y
unfolding floor_log2
floor_log2_mono x y h = log2_fuel_mono 64 x y h

floor_log2_65536 : floor_log2 65536 ≡ 16
unfolding floor_log2 log2_fuel
floor_log2_65536 = refl

sixteen_le : (size : ℕ) → 65536 ≤ size → 16 ≤ floor_log2 size
sixteen_le size h =
    let at : floor_log2 65536 ≡ 16 = floor_log2_65536 in omega (arith, floor_log2_mono 65536 size h)

-- A size below 512 has no large bin. A size from 512 to 64 KB has one of the bins 0 to 31: bin i serves the 64 sizes
-- from 512 + 64 * i on, and bin 31 all that are left. A size above 64 KB, of 64 bits, has one of the bins 32 to 63: bin
-- k + 16 serves the sizes from 2 ^ k to the next power of two, and bin 63 all from 2 ^ 47 on. A larger size never has an
-- earlier bin.
pub get_largebin_index_bounds :
    (size : ℕ)
    → (size < 512 → get_largebin_index size ≡ none)
      × (512 ≤ size
          → size ≤ 65536
          → (i : ℕ) × (get_largebin_index size ≡ some i)
            × (i ≤ 31)
            × (512 + 64 * i ≤ size)
            × (i < 31 → size < 512 + 64 * (i + 1)))
      × (65536 < size
          → size < 2 ^ 64
          → (k : ℕ) × (i : ℕ) × (2 ^ k ≤ size)
            × (size < 2 ^ suc k)
            × (get_largebin_index size ≡ some i)
            × ((32 ≤ i) × (i < largebins_count))
            × (k < 47 → i ≡ k + 16)
            × (47 ≤ k → i ≡ 63))
      × ((t i j : ℕ)
          → size ≤ t
          → get_largebin_index size ≡ some i
          → get_largebin_index t ≡ some j
          → i ≤ j)
unfolding get_largebin_index
get_largebin_index_bounds size = (
  λ h. ground arith,
  λ lo hi. (
    if ltb 31 ((size - 512) / 64) then 31 else (size - 512) / 64,
    ground arith,
    ground arith,
    ground arith,
    λ l. ground arith,
  ),
  λ lo hi.
      let (above, below) = floor_log2_bounds size (omega arith) hi in
      let k = floor_log2 size in
      let sixteen : 16 ≤ k = sixteen_le size (omega arith) in
      (
        k,
        if ltb 63 (k + 16) then 63 else k + 16,
        above,
        below,
        ground arith,
        (ground arith, ground arith),
        λ l. ground arith,
        λ l. ground arith,
      ),
  λ t i j h e e'. ground (arith, floor_log2_mono size t),
)

-- A size below 512 that is a multiple of 16 and not 0 has a small bin, which no other size shares.
pub get_smallbin_index_exact :
    (size t : ℕ)
    → 0 < size
    → size < 16 * smallbins_count
    → size % 16 ≡ 0
    → t % 16 ≡ 0
    → ((i : ℕ) × (get_smallbin_index size ≡ some i) × (i < smallbins_count))
      × (get_smallbin_index t ≡ get_smallbin_index size → t ≡ size)
unfolding get_smallbin_index
get_smallbin_index_exact size t pos small m m' =
    ((size / 16 - 1, ground arith, omega arith), λ e. ground arith)
