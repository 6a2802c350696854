-- ===== src/Text/Tests.antt =====
-- The strings of runtime/src/strings.c at concrete inputs.
use picasso_lang.Base.{
  ◌≢◌, false, ℕ, ◌≡◌, refl, ◌⊎◌, ◌+◌, ◌-◌, ◌/◌, ◌%◌, ◌^◌, ◌≤◌, ◌<◌, none, some, List, [], ◌∷◌, ◌++◌,
  arith, length, replicate, get_or,
}
use picasso_lang.Text.Ops.{Str, strings_append, strings_compare}
use picasso_lang.Text.Ops.Content.{content, IsTerminated, strings_append-content}
use picasso_lang.Text.Ops.Order.{dictionary, strings_compare-dictionary}
use picasso_lang.Text.Buffer.{u64_to_dec, i64_to_dec, ptr_to_hex, digits_loop, swap_loop, hex_loop}
use picasso_lang.Text.Format.{Arg, int32, strings_format}
use picasso_lang.Text.Format.Spec.{Typed, plain, int_of, ends, Prints}
use picasso_lang.Text.Format.Prints.{strings_format-text}
use picasso_lang.Text.Buffer.Decimal.{u64_to_dec-digits}

abbrev ab : Str
ab = record { bytes = 97 ∷ 98 ∷ 0 ∷ []; size = 2 }

abbrev abc : Str
abc = record { bytes = 97 ∷ 98 ∷ 99 ∷ 0 ∷ []; size = 3 }

minus_seven : i64_to_dec (2 ^ 64 - 7) (replicate 32 0) ≡ some (2, 45 ∷ 55 ∷ replicate 30 0)
unfolding i64_to_dec u64_to_dec digits_loop swap_loop
minus_seven = refl

address_zero : ptr_to_hex 0 ≡ 48 ∷ 120 ∷ 48 ∷ []
unfolding ptr_to_hex hex_loop
address_zero = refl

strings_append-content_example :
    (ab.size < length ab.bytes
      → (t : Str) × (strings_append ab 99 ≡ some t)
        × (content t ≡ content ab ++ (99 ∷ []))
        × IsTerminated t)
    × (ab.size ≡ length ab.bytes → strings_append ab 99 ≡ none)
strings_append-content_example = strings_append-content ab 99 (omega arith)

strings_compare-dictionary_example :
    strings_compare (some ab) (some abc) ≡ some (dictionary (content ab) (content abc))
strings_compare-dictionary_example =
    strings_compare-dictionary ab abc (omega arith) (omega arith) (omega arith) (omega arith)

abbrev number : ℕ
number = 1024

u64_to_dec-digits_example :
    (n : ℕ) × (tmp : List ℕ) × (u64_to_dec number (replicate 32 0) ≡ some (n, tmp))
    × ((1 ≤ n) × (n ≤ 20))
    × ((number < 10 ^ n) × ((n ≡ 1) ⊎ (10 ^ (n - 1) ≤ number)))
    × ((m : ℕ) → m < n → get_or tmp m 0 ≡ 48 + number / 10 ^ (n - 1 - m) % 10)
u64_to_dec-digits_example = u64_to_dec-digits number (replicate 32 0) (omega arith) (omega arith)

-- "a%d" with 7.
abbrev letter_and_int : Str
letter_and_int = record { bytes = 97 ∷ 37 ∷ 100 ∷ []; size = 3 }

abbrev print_double : ℕ → List ℕ
print_double d = d ∷ []

abbrev seven : List (Arg ℕ)
seven = int32 7 ∷ []

a_plain : ◌≢◌ {A = ℕ} 97 37
a_plain = ground arith

abbrev letter_and_int-Typed : Typed false (content letter_and_int) seven
letter_and_int-Typed =
    plain 97 (37 ∷ 100 ∷ []) seven a_plain (int_of 7 [] [] (omega arith) (ends []))

strings_format-text_example :
    (text : List ℕ) × Prints print_double letter_and_int-Typed text
    × (strings_format print_double (some letter_and_int) seven
        ≡ some (some (record { bytes = text; size = length text })))
strings_format-text_example =
    strings_format-text print_double letter_and_int seven letter_and_int-Typed (omega arith)
      (omega arith)
