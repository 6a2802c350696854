-- ===== src/Text/Ops.antt =====
-- The operations on strings of runtime/src/strings.c. A string is the bytes of the allocation that `data`
-- points to, as far as they have been written, with the size; `none` is a read past those bytes.
-- Allocation does not fail, and a release of the old bytes is not seen.
pub mod Content
pub mod Order
use picasso_lang.Base.{
  ℕ, zero, suc, ◌+◌, ◌-◌, ◌%◌, ◌^◌, min, Option, none, some, List, [], ◌∷◌, ◌++◌, ◌==◌, ltb, leb,
  if◌then◌else◌, length, get_elem?, take, drop, set,
}
use picasso_lang.Base.Int.{ℤ, pos, negsuc, sub_ℕ}

-- `__public__string_t`
pub record Str : Type 0 where
  pub bytes : List ℕ
  pub size : ℕ

-- `memcpy` of `n` bytes from the start of an allocation.
unfoldable pub read_bytes : ℕ → List ℕ → Option (List ℕ)
read_bytes n bytes = if leb n (length bytes) then some (take n bytes) else none

-- The same bytes with a NUL behind them.
unfoldable pub strings_alloc_from_raw : List ℕ → ℕ → Option Str
strings_alloc_from_raw fmt size = elim (read_bytes size fmt) [
  | none ↦ none
  | some copied ↦ some (record { bytes = copied ++ (0 ∷ []); size = size })
]

-- The low 32 bits of a difference, read as an `int`.
abbrev pub to_int : ℕ → ℤ
to_int n = let m = n % 2 ^ 32 in if ltb m (2 ^ 31) then pos m else sub_ℕ m (2 ^ 32)

unfoldable pub strings_length : Str → ℤ
strings_length str = to_int str.size

-- No bound is looked at.
unfoldable pub strings_get : Str → ℕ → Option ℕ
strings_get str i = get_elem? str.bytes i

-- The loop over the first `n` bytes: the difference of the first two that differ.
unfoldable pub first_difference : ℕ → List ℕ → List ℕ → Option (Option ℤ)
first_difference zero xs ys = some none
first_difference (suc n) (x ∷ xs) (y ∷ ys) =
    if x == y then first_difference n xs ys else some (some (sub_ℕ x y))
first_difference (suc n) xs ys = none

-- `none` for a pointer is NULL; the outer `none` is a read past the bytes.
unfoldable pub strings_compare : Option Str → Option Str → Option ℤ
unfolding first_difference
strings_compare none none = some (pos 0)
strings_compare none (some s) = some (negsuc 0)
strings_compare (some s) none = some (pos 1)
strings_compare (some s) (some t) = elim (first_difference (min s.size t.size) s.bytes t.bytes) [
  | none ↦ none
  | some (some d) ↦ some d
  | some none ↦ some (to_int (s.size + 2 ^ 64 - t.size))
]

-- The size is increased first, so one byte more than the string has is copied.
unfoldable pub strings_append : Str → ℕ → Option Str
strings_append str ch =
    let size = str.size + 1 in
    elim (read_bytes size str.bytes) [
      | none ↦ none
      | some copied ↦ some (record { bytes = set copied (size - 1) ch ++ (0 ∷ []); size = size })
    ]

unfoldable pub strings_join : Str → Str → Option Str
strings_join s t = elim (read_bytes s.size s.bytes) [
  | none ↦ none
  | some copied ↦ elim (read_bytes t.size t.bytes) [
    | none ↦ none
    | some more ↦ some (record { bytes = copied ++ more ++ (0 ∷ []); size = s.size + t.size })
  ]
]

-- The inner `none` is NULL. A size below zero is taken as one of nearly 2 ^ 64 by `memcpy`.
unfoldable pub strings_substring : Str → ℤ → ℤ → Option (Option Str)
strings_substring s (negsuc n) end = some none
strings_substring s (pos start) (negsuc n) = none
strings_substring s (pos start) (pos end) =
    if ltb s.size end
    then some none
    else if ltb end start
    then none
    else elim (read_bytes (end - start) (drop start s.bytes)) [
      | none ↦ none
      | some copied ↦ some (some (record { bytes = copied ++ (0 ∷ []); size = end - start }))
    ]
