-- ===== src/Arrays/Shapes.antt =====
-- The shapes of the arrays that runtime/src/array.c allocates, and the access to their sub-arrays.
use picasso_lang.Base.{
  ℕ, zero, suc, ◌≡◌, ◌≢◌, refl, sym, ap, ◌∙◌, inl, inr, ◌+◌, ◌*◌, ◌^◌, ◌≤◌, ◌<◌, true, false,
  Option, none, some, List, [], ◌∷◌, ◌==◌, leb, leb→le, if◌then◌else◌, Option-cases, Bool-cases,
  arith, length, replicate,
}
use picasso_lang.Base.Int.{pos, negsuc}
use picasso_lang.Arrays.{
  Header, Array, array, bytes, subs, Subs, nil, null_sub, sub, header_of, cells_of, fill_subs,
  alloc_array_recursive, alloc_array, get_sub, set_sub, checked, get_subarray, set_subarray,
}

abbrev pub header_for : ℕ → ℕ → List ℕ → Header
header_for elem_size count dims = record {
  shape = count ∷ dims;
  length = count;
  rank = 1 + length dims;
  capacity = count;
  elem_size = elem_size;
}

-- An array of these dimensions: at the last one so many elements, all zero, and at the others a sub-array of the
-- dimensions that are left for each index, and NULL for any other.
abbrev pub IsShaped : ℕ → List ℕ → Array → Type 0
IsShaped elem_size [] a = 1 ≤ 0
IsShaped elem_size (count ∷ []) a =
    (header_of a ≡ header_for elem_size count [])
    × (cells_of a ≡ bytes (replicate (count * elem_size) 0))
IsShaped elem_size (count ∷ next ∷ dims) a =
    (header_of a ≡ header_for elem_size count (next ∷ dims))
    × ((i : ℕ)
        → i < count
        → (b : Array) × (get_subarray (some a) (pos i) ≡ some (some b))
          × IsShaped elem_size (next ∷ dims) b)
    × ((i : ℕ) → count ≤ i → get_subarray (some a) (pos i) ≡ some none)
    × ((i : ℕ) → get_subarray (some a) (negsuc i) ≡ some none)

abbrev pub AllPositive : List ℕ → Type 0
AllPositive [] = 0 ≤ 0
AllPositive (count ∷ dims) = (0 < count) × AllPositive dims

-- The data of each level is of less than 2 ^ 64 bytes: so many elements at the last, and pointers at the others.
abbrev pub DataFits : ℕ → List ℕ → Type 0
DataFits elem_size [] = 0 ≤ 0
DataFits elem_size (count ∷ []) = count * elem_size < 2 ^ 64
DataFits elem_size (count ∷ next ∷ dims) = (count * 8 < 2 ^ 64) × DataFits elem_size (next ∷ dims)

fill_subs-get : (n i : ℕ) (a : Array) → i < n → get_sub (fill_subs n a) i ≡ some (some a)
unfolding fill_subs get_sub
fill_subs-get zero i a h = absurd (omega arith)
fill_subs-get (suc n) zero a h = refl
fill_subs-get (suc n) (suc i) a h = fill_subs-get n i a (omega arith)

-- The access with an index in range and out of it.
get_subarray-in :
    (h : Header) (s : Subs) (i : ℕ)
    → 1 < h.rank
    → i < h.length
    → get_subarray (some (array h (subs s))) (pos i) ≡ get_sub s i
unfolding get_subarray checked
get_subarray-in h s i r l = ground arith

get_subarray-out :
    (h : Header) (s : Subs) (i : ℕ)
    → h.length ≤ i
    → get_subarray (some (array h (subs s))) (pos i) ≡ some none
unfolding get_subarray checked
get_subarray-out h s i l = ground arith

get_subarray-below :
    (h : Header) (s : Subs) (i : ℕ) → get_subarray (some (array h (subs s))) (negsuc i) ≡ some none
unfolding get_subarray checked
get_subarray-below h s i = refl

alloc_array_recursive-IsShaped :
    (elem_size count : ℕ) (dims : List ℕ)
    → AllPositive (count ∷ dims)
    → DataFits elem_size (count ∷ dims)
    → (a : Array) × (alloc_array_recursive elem_size (count ∷ dims) ≡ some a)
      × IsShaped elem_size (count ∷ dims) a
unfolding alloc_array_recursive
alloc_array_recursive-IsShaped elem_size count [] (p, ps) fits = (
  array (header_for elem_size count []) (bytes (replicate (count * elem_size) 0)),
  ground arith,
  (refl, refl),
)
alloc_array_recursive-IsShaped elem_size count (next ∷ dims) (p, ps) fits =
    let (b, e, shaped) = alloc_array_recursive-IsShaped elem_size next dims ps fits.1 in
    let h = header_for elem_size count (next ∷ dims) in
    let s = fill_subs count b in
    (
      array h (subs s),
      rw (e, alloc_array_recursive) (ground arith),
      (
        refl,
        λ i l. (b, get_subarray-in h s i (omega arith) l ∙ fill_subs-get count i b l, shaped),
        λ i l. get_subarray-out h s i l,
        λ i. get_subarray-below h s i,
      ),
    )

-- With every dimension positive and, at every level, less than 2 ^ 64 bytes of elements or of pointers to the
-- sub-arrays, `__public__alloc_array` returns an array whose nesting, sizes, headers and contents are those that the
-- dimensions say, at every level; the access to sub-arrays finds the one of each index in range, and NULL otherwise.
pub alloc_array-IsShaped :
    (elem_size count : ℕ) (dims : List ℕ)
    → AllPositive (count ∷ dims)
    → DataFits elem_size (count ∷ dims)
    → (a : Array) × (alloc_array elem_size (count ∷ dims) ≡ some (some a))
      × IsShaped elem_size (count ∷ dims) a
unfolding alloc_array
alloc_array-IsShaped elem_size count dims p fits =
    let (a, e, shaped) = alloc_array_recursive-IsShaped elem_size count dims p fits in
    (a, rw (e, alloc_array) refl, shaped)

set_sub-get :
    (s s' : Subs) (i j : ℕ) (v : Option Array)
    → set_sub s i v ≡ some s'
    → get_sub s' j ≡ (if i == j then some v else get_sub s j)
unfolding set_sub get_sub
set_sub-get nil s' i j v e = absurd (ground arith)
set_sub-get (null_sub s) s' zero zero none e = ground arith
set_sub-get (null_sub s) s' zero (suc j) none e = ground arith
set_sub-get (null_sub s) s' zero zero (some a) e = ground arith
set_sub-get (null_sub s) s' zero (suc j) (some a) e = ground arith
set_sub-get (sub b s) s' zero zero none e = ground arith
set_sub-get (sub b s) s' zero (suc j) none e = ground arith
set_sub-get (sub b s) s' zero zero (some a) e = ground arith
set_sub-get (sub b s) s' zero (suc j) (some a) e = ground arith
set_sub-get (null_sub s) s' (suc i) zero v e = elim (Option-cases (set_sub s i v)) [
  | inl n ↦ absurd (ground arith)
  | inr (rest, q) ↦ ground (arith)
]
set_sub-get (null_sub s) s' (suc i) (suc j) v e = elim (Option-cases (set_sub s i v)) [
  | inl n ↦ absurd (ground arith)
  | inr (rest, q) ↦ ground (arith, set_sub-get s rest i j v q)
]
set_sub-get (sub b s) s' (suc i) zero v e = elim (Option-cases (set_sub s i v)) [
  | inl n ↦ absurd (ground arith)
  | inr (rest, q) ↦ ground (arith)
]
set_sub-get (sub b s) s' (suc i) (suc j) v e = elim (Option-cases (set_sub s i v)) [
  | inl n ↦ absurd (ground arith)
  | inr (rest, q) ↦ ground (arith, set_sub-get s rest i j v q)
]

-- Where `__public__set_subarray` stores within the pointers of an array of a rank above 1, with an index below the
-- length, `__public__get_subarray` afterwards finds what was stored at that index, and at every other index what it
-- found before.
pub set_subarray-get :
    (h : Header) (s : Subs) (i j : ℕ) (v : Option Array) (s' : Subs)
    → 1 < h.rank
    → i < h.length
    → set_sub s i v ≡ some s'
    → (set_subarray (some (array h (subs s))) (pos i) v ≡ some (some (array h (subs s'))))
      × (get_subarray (some (array h (subs s'))) (pos i) ≡ some v)
      × (i ≢ j
          → get_subarray (some (array h (subs s'))) (pos j)
            ≡ get_subarray (some (array h (subs s))) (pos j))
unfolding set_subarray checked
set_subarray-get h s i j v s' r l e =
    let self : (i == i) ≡ true = ground arith in
    (
      ground arith,
      get_subarray-in h s' i r l
          ∙ set_sub-get s s' i i v e
          ∙ ap (λ b. if b then some v else get_sub s i) self,
      λ ne. elim (Bool-cases (leb h.length j)) [
        | inl out ↦
            let o : h.length ≤ j = leb→le h.length j out in
            get_subarray-out h s' j o ∙ sym (get_subarray-out h s j o)
        | inr within ↦
            let w : j < h.length = ground arith in
            let other : (i == j) ≡ false = ground arith in
            get_subarray-in h s' j r w
            ∙ set_sub-get s s' i j v e
            ∙ ap (λ b. if b then some v else get_sub s j) other
            ∙ sym (get_subarray-in h s j r w)
      ],
    )
