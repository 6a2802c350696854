-- ===== src/Arrays/Tests.antt =====
-- The arrays of runtime/src/array.c at concrete inputs.
use picasso_lang.Base.{
  ℕ, ◌≡◌, ◌≢◌, refl, ◌+◌, ◌*◌, ◌⊎◌, none, some, List, [], ◌∷◌, ltb, if◌then◌else◌, replicate,
  length-replicate, take, arith,
}
use picasso_lang.Base.Int.{pos}
use picasso_lang.Arrays.{
  Header, Array, array, bytes, subs, Subs, nil, null_sub, sub, alloc_array, get_subarray,
  set_subarray, extend_array, set_sub,
}
use picasso_lang.Arrays.Bytes.{strings_get_bytes, strings_alloc_from_arr}
use picasso_lang.Arrays.Shapes.{IsShaped, header_for, alloc_array-IsShaped, set_subarray-get}
use picasso_lang.Arrays.Extend.{IsRoomy, extend_array-IsRoomy}

-- Two rows of three elements of 4 bytes.
alloc_array-IsShaped_example :
    (a : Array) × (alloc_array 4 (2 ∷ 3 ∷ []) ≡ some (some a)) × IsShaped 4 (2 ∷ 3 ∷ []) a
alloc_array-IsShaped_example =
    alloc_array-IsShaped 4 2 (3 ∷ []) (omega arith, (omega arith, omega arith))
      (omega arith, omega arith)

abbrev row : Array
row = array (header_for 4 3 []) (bytes (replicate 12 0))

abbrev rows : Header
rows = header_for 4 2 (3 ∷ [])

abbrev two_rows : Subs
two_rows = sub row (sub row nil)

abbrev one_row : Subs
one_row = null_sub (sub row nil)

stores_null : set_sub two_rows 0 none ≡ some one_row
unfolding set_sub
stores_null = refl

set_subarray-get_example :
    (set_subarray (some (array rows (subs two_rows))) (pos 0) none
      ≡ some (some (array rows (subs one_row))))
    × (get_subarray (some (array rows (subs one_row))) (pos 0) ≡ some none)
    × (◌≢◌ {A = ℕ} 0 1
        → get_subarray (some (array rows (subs one_row))) (pos 1)
          ≡ get_subarray (some (array rows (subs two_rows))) (pos 1))
set_subarray-get_example =
    set_subarray-get rows two_rows 0 1 none one_row (omega arith) (omega arith) stores_null

abbrev pairs : Header
pairs = header_for 2 1 []

extend_array-IsRoomy_example :
    (h' : Header) × (b' : List ℕ) × (extend_array (λ n. replicate n 0) pairs (7 ∷ 8 ∷ [])
      ≡ some (h', b'))
    × IsRoomy h' b'
    × (h'.length ≡ 1 + 1)
    × (take (1 * 2) b' ≡ take (1 * 2) (7 ∷ 8 ∷ []))
    × ((h'.capacity ≡ 1)
        ⊎ ((pairs.length ≡ pairs.capacity) × (h'.capacity ≡ (if ltb 0 1 then 1 * 2 else 1))))
extend_array-IsRoomy_example =
    extend_array-IsRoomy (λ n. replicate n 0) pairs (7 ∷ 8 ∷ []) (λ n. length-replicate n 0)
      (omega arith) (record { within = omega arith; memory = refl })

abbrev old : Header
old = record { shape = []; length = 0; rank = 0; capacity = 5; elem_size = 6 }

bytes_and_back :
    (strings_get_bytes old (record { bytes = 97 ∷ 98 ∷ 0 ∷ []; size = 2 })
      ≡ array (record old { length = 2; rank = 1 }) (bytes (97 ∷ 98 ∷ 0 ∷ [])))
    × (strings_alloc_from_arr (record old { length = 2; rank = 1 }) (97 ∷ 98 ∷ 0 ∷ [])
        ≡ some (record { bytes = 97 ∷ 98 ∷ 0 ∷ []; size = 2 }))
unfolding strings_get_bytes strings_alloc_from_arr
bytes_and_back = (refl, refl)
