-- ===== src/Hash.antt =====
-- The hash of runtime/src/crypto.c.
pub mod Change
mod Tests
use Prim.Native.Nat.{bit_xor}
use picasso_lang.Base.{ℕ, ◌*◌, ◌%◌, ◌^◌, List, [], ◌∷◌}

abbrev pub offset_basis : ℕ
offset_basis = 1469598103934665603

abbrev pub fnv_prime : ℕ
fnv_prime = 1099511628211

-- The loop over the bytes; the product is of 64-bit words.
unfoldable pub hash_loop : ℕ → List ℕ → ℕ
hash_loop h [] = h
hash_loop h (byte ∷ bytes) = hash_loop (bit_xor h byte * fnv_prime % 2 ^ 64) bytes

unfoldable pub hash : List ℕ → ℕ
unfolding hash_loop
hash bytes = hash_loop offset_basis bytes
