-- ===== src/Text/Ops/Order.antt =====
-- `strings_compare` of runtime/src/strings.c is the order of dictionaries on the contents.
use picasso_lang.Base.{
  ℕ, zero, suc, ◌≡◌, ◌↔◌, refl, sym, ap, ◌∙◌, ◌⊎◌, inl, inr, ◌+◌, ◌-◌, ◌≤◌, ◌<◌, ◌^◌, min,
  Bool-cases, none, some, List, [], ◌∷◌, arith, ◌==◌, if◌then◌else◌, length, take, length-take,
}
use picasso_lang.Base.Int.{ℤ, pos, sub_ℕ, pos_part, neg_part}
use picasso_lang.Text.Ops.{Str, to_int, first_difference, strings_compare}
use picasso_lang.Text.Ops.Content.{content}

-- The difference of the first two elements that differ, else that of the lengths.
unfoldable pub dictionary : List ℕ → List ℕ → ℤ
dictionary [] ys = sub_ℕ 0 (length ys)
dictionary (x ∷ xs) [] = pos (suc (length xs))
dictionary (x ∷ xs) (y ∷ ys) = if x == y then dictionary xs ys else sub_ℕ x y

-- Either the shorter is a prefix, or the first difference is what counts.
first_difference-dictionary :
    (m n : ℕ) (xs ys : List ℕ)
    → m ≤ length xs
    → n ≤ length ys
    → ((first_difference (min m n) xs ys ≡ some none)
        × (dictionary (take m xs) (take n ys) ≡ sub_ℕ m n))
      ⊎ ((d : ℤ) × (first_difference (min m n) xs ys ≡ some (some d))
          × (dictionary (take m xs) (take n ys) ≡ d))
unfolding first_difference dictionary
first_difference-dictionary zero n xs ys lm ln =
    let none_left : min zero n ≡ zero = omega arith in
    let len = length-take n ys in inl (rw none_left refl, ap (λ k. sub_ℕ 0 k) (omega arith))
first_difference-dictionary (suc m) zero [] ys lm ln = absurd (omega arith)
first_difference-dictionary (suc m) zero (x ∷ xs) ys lm ln =
    let none_left : min (suc m) zero ≡ zero = omega arith in
    let len = length-take m xs in inl (rw none_left refl, ground arith)
first_difference-dictionary (suc m) (suc n) [] ys lm ln = absurd (omega arith)
first_difference-dictionary (suc m) (suc n) (x ∷ xs) [] lm ln = absurd (omega arith)
first_difference-dictionary (suc m) (suc n) (x ∷ xs) (y ∷ ys) lm ln =
    let more : min (suc m) (suc n) ≡ suc (min m n) = omega arith in
    let rest = first_difference-dictionary m n xs ys (omega arith) (omega arith) in
    elim (Bool-cases (x == y)) [
      | inl same ↦ elim rest [
        | inl (e, d) ↦
            let shift : sub_ℕ m n ≡ sub_ℕ (suc m) (suc n) = ground arith in
            inl (rw (more, first_difference) (rw same e), rw same (d ∙ shift))
        | inr (z, e, d) ↦ inr (z, rw (more, first_difference) (rw same e), rw same d)
      ]
      | inr other ↦ inr (sub_ℕ x y, rw (more, first_difference) (rw other refl), rw other refl)
    ]

to_int-sub_ℕ : (m n : ℕ) → m < 2 ^ 31 → n < 2 ^ 31 → to_int (m + 2 ^ 64 - n) ≡ sub_ℕ m n
to_int-sub_ℕ m n lm ln = ground arith

-- Two strings of less than 2 ^ 31 bytes compare as their contents do in a dictionary.
pub strings_compare-dictionary :
    (s t : Str)
    → s.size ≤ length s.bytes
    → t.size ≤ length t.bytes
    → s.size < 2 ^ 31
    → t.size < 2 ^ 31
    → strings_compare (some s) (some t) ≡ some (dictionary (content s) (content t))
unfolding strings_compare
strings_compare-dictionary s t ls lt small_s small_t =
    elim (first_difference-dictionary s.size t.size s.bytes t.bytes ls lt) [
      | inl (e, d) ↦
          rw (e, strings_compare) (ap some (to_int-sub_ℕ s.size t.size small_s small_t ∙ sym d))
      | inr (d, e, f) ↦ rw (e, strings_compare) (ap some (sym f))
    ]

-- Two lists with the same place in a dictionary are the same.
pub dictionary_iff : (xs ys : List ℕ) → (dictionary xs ys ≡ pos 0) ↔ (xs ≡ ys)
unfolding dictionary
dictionary_iff [] [] = ground arith
dictionary_iff [] (y ∷ ys) = ground arith
dictionary_iff (x ∷ xs) [] = ground arith
dictionary_iff (x ∷ xs) (y ∷ ys) = ground (arith, dictionary_iff xs ys)

abbrev pub opposite : ℤ → ℤ
opposite d = sub_ℕ (neg_part d) (pos_part d)

pub dictionary_comm : (xs ys : List ℕ) → dictionary ys xs ≡ opposite (dictionary xs ys)
unfolding dictionary
dictionary_comm [] [] = ground arith
dictionary_comm [] (y ∷ ys) = ground arith
dictionary_comm (x ∷ xs) [] = ground arith
dictionary_comm (x ∷ xs) (y ∷ ys) = ground (arith, dictionary_comm xs ys)

-- On strings of less than 2 ^ 31 bytes `strings_compare` returns 0 exactly for equal contents, and with the
-- strings exchanged it returns the opposite.
pub strings_compare-opposite :
    (s t : Str)
    → s.size ≤ length s.bytes
    → t.size ≤ length t.bytes
    → s.size < 2 ^ 31
    → t.size < 2 ^ 31
    → (d : ℤ) × (strings_compare (some s) (some t) ≡ some d)
      × (strings_compare (some t) (some s) ≡ some (opposite d))
      × ((d ≡ pos 0) ↔ (content s ≡ content t))
strings_compare-opposite s t ls lt small_s small_t = (
  dictionary (content s) (content t),
  strings_compare-dictionary s t ls lt small_s small_t,
  strings_compare-dictionary t s lt ls small_t small_s
      ∙ ap some (dictionary_comm (content s) (content t)),
  dictionary_iff (content s) (content t),
)
