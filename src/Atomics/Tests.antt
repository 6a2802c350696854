-- ===== src/Atomics/Tests.antt =====
-- The atomic cells of runtime/src/atomics.c at concrete inputs.
use picasso_lang.Base.{ℕ, ◌≡◌, ◌^◌, refl, true, false, [], ◌∷◌, map, arith}
use picasso_lang.Atomics.{
  value, swapped, cas, add, sub, and_bits, or_bits, xor_bits, exec_plain, exec, exec_all,
  atomics_uint8, atomics_int8, atomics_float32,
}
use picasso_lang.Atomics.Laws.{swaps, swaps_race}

uint8_wraps : atomics_uint8 (add 10) 250 ≡ (4, value 250)
unfolding atomics_uint8 exec
uint8_wraps = refl

int8_below_zero : atomics_int8 (sub 1) 0 ≡ (255, value 0)
unfolding atomics_int8 exec
int8_below_zero = refl

masks :
    exec_all 8 (and_bits 12 ∷ or_bits 3 ∷ xor_bits 5 ∷ []) 10
    ≡ (14, value 10 ∷ value 8 ∷ value 11 ∷ [])
unfolding exec_all exec
masks = refl

float_zeros_differ : atomics_float32 (cas 0 1) (2 ^ 31) ≡ (2 ^ 31, swapped false)
unfolding atomics_float32 exec_plain
float_zeros_differ = refl

swaps_race_example :
    exec_all 64 (swaps 0 (1 ∷ 2 ∷ 3 ∷ [])) 0
    ≡ (1, swapped true ∷ map {A = ℕ} (λ d. swapped false) (2 ∷ 3 ∷ []))
swaps_race_example = swaps_race 64 0 1 (2 ∷ 3 ∷ []) (λ e. omega arith)
