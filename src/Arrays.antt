-- ===== src/Arrays.antt =====
-- The arrays of runtime/src/array.c (and the copy of its allocation in runtime/src/main.c). An array of rank 1 holds
-- bytes, and one of a higher rank arrays or NULL, each at an address of its own; which addresses, and that an
-- array stored in two places is shared, is not seen.
-- Numbers of elements and the size of an element are not negative, and allocation does not fail.
pub mod Shapes
pub mod Extend
pub mod Bytes
mod Tests
use picasso_lang.Base.{
  ℕ, zero, suc, ◌+◌, ◌-◌, ◌*◌, ◌%◌, ◌^◌, Bool, true, false, not, ◌||◌, Option, none, some, List, [],
  ◌∷◌, ◌++◌, ◌==◌, ltb, leb, if◌then◌else◌, length, take, drop, replicate,
}
use picasso_lang.Base.Int.{ℤ, pos, negsuc}
use picasso_lang.Text.Ops.{read_bytes}

-- `__public__array_t`, less its data.
pub record Header : Type 0 where
  pub shape : List ℕ
  pub length : ℕ
  pub rank : ℕ
  pub capacity : ℕ
  pub elem_size : ℕ

mutual
  pub data Array : Type 0 where
    array : Header → Cells → Array

  pub data Cells : Type 0 where
    bytes : List ℕ → Cells
    subs : Subs → Cells

  pub data Subs : Type 0 where
    nil : Subs
    null_sub : Subs → Subs
    sub : Array → Subs → Subs

abbrev pub header_of : Array → Header
header_of (array h c) = h

abbrev pub cells_of : Array → Cells
cells_of (array h c) = c

-- The loop that allocates a sub-array for each place.
unfoldable pub fill_subs : ℕ → Array → Subs
fill_subs zero a = nil
fill_subs (suc n) a = sub a (fill_subs n a)

-- `__alloc_array_recursive` on the dimensions that are left. The bytes of the data are counted in a `size_t`, which
-- wraps round. `none`: a dimension is 0, and the program stops; or the pointers to the sub-arrays are more than their
-- block has room for, and are written behind it. A place that is left NULL does not occur.
unfoldable pub alloc_array_recursive : ℕ → List ℕ → Option Array
alloc_array_recursive elem_size [] = none
alloc_array_recursive elem_size (count ∷ []) =
    if count == 0
    then none
    else some (
        array
          (record {
            shape = count ∷ [];
            length = count;
            rank = 1;
            capacity = count;
            elem_size = elem_size;
          })
          (bytes (replicate (count * elem_size % 2 ^ 64) 0)))
alloc_array_recursive elem_size (count ∷ next ∷ dims) =
    elim (alloc_array_recursive elem_size (next ∷ dims)) [
      | none ↦ none
      | some a ↦
          if (count == 0) || not (count * 8 % 2 ^ 64 == count * 8)
          then none
          else some (
              array
                (record {
                  shape = count ∷ next ∷ dims;
                  length = count;
                  rank = 2 + length dims;
                  capacity = count;
                  elem_size = elem_size;
                })
                (subs (fill_subs count a)))
    ]

-- NULL for no dimensions; otherwise the program stops or there is an array.
unfoldable pub alloc_array : ℕ → List ℕ → Option (Option Array)
alloc_array elem_size [] = some none
alloc_array elem_size (count ∷ dims) = elim (alloc_array_recursive elem_size (count ∷ dims)) [
  | none ↦ none
  | some a ↦ some (some a)
]

unfoldable pub len : Array → ℕ
len a = (header_of a).length

-- `none` behind the last pointer.
unfoldable pub get_sub : Subs → ℕ → Option (Option Array)
get_sub nil i = none
get_sub (null_sub s) zero = some none
get_sub (sub a s) zero = some (some a)
get_sub (null_sub s) (suc i) = get_sub s i
get_sub (sub a s) (suc i) = get_sub s i

unfoldable pub set_sub : Subs → ℕ → Option Array → Option Subs
set_sub nil i a = none
set_sub (null_sub s) zero none = some (null_sub s)
set_sub (null_sub s) zero (some a) = some (sub a s)
set_sub (sub b s) zero none = some (null_sub s)
set_sub (sub b s) zero (some a) = some (sub a s)
set_sub (null_sub s) (suc i) a = elim (set_sub s i a) [ none ↦ none | some s' ↦ some (null_sub s') ]
set_sub (sub b s) (suc i) a = elim (set_sub s i a) [ none ↦ none | some s' ↦ some (sub b s') ]

-- The pointers of an array that passes the tests of the two functions below, and the index.
unfoldable pub checked : Option Array → ℤ → Option (Header × Subs × ℕ)
checked (some (array h (subs s))) (pos i) =
    if leb h.rank 1 || leb h.length i then none else some (h, s, i)
checked a i = none

-- The outer `none` is a read or a write behind the pointers.
unfoldable pub get_subarray : Option Array → ℤ → Option (Option Array)
get_subarray a i = elim (checked a i) [ none ↦ some none | some (h, s, j) ↦ get_sub s j ]

unfoldable pub set_subarray : Option Array → ℤ → Option Array → Option (Option Array)
set_subarray a i v = elim (checked a i) [
  | none ↦ some a
  | some (h, s, j) ↦ elim (set_sub s j v) [
    | none ↦ none
    | some s' ↦ some (some (array h (subs s')))
  ]
]

-- On an array of bytes; `fresh` is what the new memory holds, and the assertion is that it is not empty.
unfoldable pub extend_array : (ℕ → List ℕ) → Header → List ℕ → Option (Header × List ℕ)
extend_array fresh h data_bytes =
    let h' = record h { length = h.length + 1 } in
    if leb h'.length h.capacity
    then some (h', data_bytes)
    else (let new_cap = if ltb 0 h.capacity then h.capacity * 2 else 1 in
        let n = (h'.length - 1) * h.elem_size in
        if new_cap * h.elem_size == 0 then none else elim (read_bytes n data_bytes) [
          | none ↦ none
          | some copied ↦
              some
                (record h' { capacity = new_cap }, copied ++ drop n (fresh (new_cap * h.elem_size)))
        ])
