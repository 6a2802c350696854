-- ===== src/Hash/Change.antt =====
-- A change of one byte changes the hash of runtime/src/crypto.c: each round can be taken back.
use Prim.Native.Nat.{two, digits, differ, bit_xor, bit_xor-bitwise}
use picasso_lang.Base.{
  ℕ, zero, suc, ◌+◌, ◌*◌, ◌/◌, ◌%◌, ◌^◌, ◌<◌, ◌≤◌, ◌≡◌, ◌≢◌, List, [], ◌∷◌, ◌++◌, refl, sym, ◌∙◌,
  arith,
}
use picasso_lang.Atomics.Bits.{bit_xor_lt, differ_lt}
use picasso_lang.Hash.{offset_basis, fnv_prime, hash_loop, hash}

differ_cancel : (x y z : ℕ) → x < 2 → y < 2 → z < 2 → differ x y ≡ differ x z → y ≡ z
differ_cancel zero y z lx ly lz e = e
differ_cancel (suc zero) zero zero lx ly lz e = refl
differ_cancel (suc zero) zero (suc zero) lx ly lz e = absurd (ground arith)
differ_cancel (suc zero) (suc zero) zero lx ly lz e = absurd (ground arith)
differ_cancel (suc zero) (suc zero) (suc zero) lx ly lz e = refl
differ_cancel (suc x) (suc (suc y)) z lx ly lz e = absurd (omega arith)
differ_cancel (suc x) y (suc (suc z)) lx ly lz e = absurd (omega arith)
differ_cancel (suc (suc x)) y z lx ly lz e = absurd (omega arith)

digits_cancel : (n a b c : ℕ) → digits (λ b. b) differ n a b ≡ digits (λ b. b) differ n a c → b ≡ c
digits_cancel zero a b c e = e
digits_cancel (suc n) zero b c e = e
digits_cancel (suc n) (suc a) b c e =
    let la = differ_lt (suc a % two) (b % two) (omega arith) (omega arith) in
    let lb = differ_lt (suc a % two) (c % two) (omega arith) (omega arith) in
    let high = digits_cancel n (suc a / two) (b / two) (c / two) (omega arith) in
    let low =
      differ_cancel (suc a % two) (b % two) (c % two) (omega arith) (omega arith) (omega arith)
        (omega arith) in
    omega arith

differ_sym_cancel : (x y z : ℕ) → x < 2 → y < 2 → z < 2 → differ x z ≡ differ y z → x ≡ y
differ_sym_cancel zero zero z lx ly lz e = refl
differ_sym_cancel zero (suc zero) zero lx ly lz e = absurd (ground arith)
differ_sym_cancel zero (suc zero) (suc zero) lx ly lz e = absurd (ground arith)
differ_sym_cancel (suc zero) zero zero lx ly lz e = absurd (ground arith)
differ_sym_cancel (suc zero) zero (suc zero) lx ly lz e = absurd (ground arith)
differ_sym_cancel (suc zero) (suc zero) z lx ly lz e = refl
differ_sym_cancel (suc (suc x)) y z lx ly lz e = absurd (omega arith)
differ_sym_cancel x (suc (suc y)) z lx ly lz e = absurd (omega arith)
differ_sym_cancel x y (suc (suc z)) lx ly lz e = absurd (omega arith)

-- The lowest digit and the others, also where the first number is 0.
digits-zero : (n c : ℕ) → digits (λ b. b) differ n 0 c ≡ c
digits-zero zero c = refl
digits-zero (suc n) c = refl

digits-suc :
    (n a c : ℕ)
    → digits (λ b. b) differ (suc n) a c
      ≡ digits (λ b. b) differ n (a / two) (c / two) * two + differ (a % two) (c % two)
digits-suc n zero c = let rest = digits-zero n (c / two) in omega arith
digits-suc n (suc a) c = refl

digits_sym_cancel :
    (n m a b c : ℕ)
    → a ≤ n
    → b ≤ m
    → digits (λ b. b) differ n a c ≡ digits (λ b. b) differ m b c
    → a ≡ b
digits_sym_cancel zero zero a b c la lb e = omega arith
digits_sym_cancel zero (suc m) a b c la lb e =
    let db = digits-suc m b c in
    let fb = differ_lt (b % two) (c % two) (omega arith) (omega arith) in
    let high =
      digits_sym_cancel zero m 0 (b / two) (c / two) (omega arith) (omega arith) (omega arith) in
    let low =
      differ_sym_cancel 0 (b % two) (c % two) (omega arith) (omega arith) (omega arith)
        (omega arith) in
    omega arith
digits_sym_cancel (suc n) zero a b c la lb e =
    let da = digits-suc n a c in
    let fa = differ_lt (a % two) (c % two) (omega arith) (omega arith) in
    let high =
      digits_sym_cancel n zero (a / two) 0 (c / two) (omega arith) (omega arith) (omega arith) in
    let low =
      differ_sym_cancel (a % two) 0 (c % two) (omega arith) (omega arith) (omega arith)
        (omega arith) in
    omega arith
digits_sym_cancel (suc n) (suc m) a b c la lb e =
    let da = digits-suc n a c in
    let db = digits-suc m b c in
    let fa = differ_lt (a % two) (c % two) (omega arith) (omega arith) in
    let fb = differ_lt (b % two) (c % two) (omega arith) (omega arith) in
    let high =
      digits_sym_cancel n m (a / two) (b / two) (c / two) (omega arith) (omega arith)
        (omega arith) in
    let low =
      differ_sym_cancel (a % two) (b % two) (c % two) (omega arith) (omega arith) (omega arith)
        (omega arith) in
    omega arith

-- A round for two states and a byte, and for a state and two bytes.
prime_cancel :
    (h k : ℕ) → h < 2 ^ 64 → k < 2 ^ 64 → h * fnv_prime % 2 ^ 64 ≡ k * fnv_prime % 2 ^ 64 → h ≡ k
prime_cancel h k lh lk e = omega arith

state_cancel :
    (h k byte : ℕ)
    → h < 2 ^ 64
    → k < 2 ^ 64
    → byte < 256
    → bit_xor h byte * fnv_prime % 2 ^ 64 ≡ bit_xor k byte * fnv_prime % 2 ^ 64
    → h ≡ k
state_cancel h k byte lh lk lb e =
    let x = bit_xor_lt 64 h byte lh (omega arith) in
    let y = bit_xor_lt 64 k byte lk (omega arith) in
    let same = prime_cancel (bit_xor h byte) (bit_xor k byte) x y e in
    digits_sym_cancel h k h k byte (omega arith) (omega arith)
      (sym (bit_xor-bitwise h byte) ∙ same ∙ bit_xor-bitwise k byte)

byte_cancel :
    (h a b : ℕ)
    → h < 2 ^ 64
    → a < 256
    → b < 256
    → bit_xor h a * fnv_prime % 2 ^ 64 ≡ bit_xor h b * fnv_prime % 2 ^ 64
    → a ≡ b
byte_cancel h a b lh la lb e =
    let x = bit_xor_lt 64 h a lh (omega arith) in
    let y = bit_xor_lt 64 h b lh (omega arith) in
    let same = prime_cancel (bit_xor h a) (bit_xor h b) x y e in
    digits_cancel h h a b (sym (bit_xor-bitwise h a) ∙ same ∙ bit_xor-bitwise h b)

abbrev pub AreBytes : List ℕ → Type 0
AreBytes [] = 0 ≤ 0
AreBytes (byte ∷ bytes) = (byte < 256) × AreBytes bytes

hash_loop_cancel :
    (bytes : List ℕ) (h k : ℕ)
    → AreBytes bytes
    → h < 2 ^ 64
    → k < 2 ^ 64
    → hash_loop h bytes ≡ hash_loop k bytes
    → h ≡ k
unfolding hash_loop
hash_loop_cancel [] h k are lh lk e = e
hash_loop_cancel (byte ∷ bytes) h k (small, are) lh lk e = state_cancel h k byte lh lk small (
    hash_loop_cancel bytes (bit_xor h byte * fnv_prime % 2 ^ 64)
      (bit_xor k byte * fnv_prime % 2 ^ 64) are (omega arith) (omega arith) e)

hash_loop-change :
    (before : List ℕ) (h a b : ℕ) (behind : List ℕ)
    → h < 2 ^ 64
    → a < 256
    → b < 256
    → AreBytes behind
    → hash_loop h (before ++ a ∷ behind) ≡ hash_loop h (before ++ b ∷ behind)
    → a ≡ b
unfolding hash_loop
hash_loop-change [] h a b behind lh la lb are e = byte_cancel h a b lh la lb (
    hash_loop_cancel behind (bit_xor h a * fnv_prime % 2 ^ 64) (bit_xor h b * fnv_prime % 2 ^ 64)
      are (omega arith) (omega arith) e)
hash_loop-change (byte ∷ before) h a b behind lh la lb are e =
    hash_loop-change before (bit_xor h byte * fnv_prime % 2 ^ 64) a b behind (omega arith) la lb are
      e

-- Two sequences of bytes that differ in one place, and are of the same length therefore, have different hashes.
pub hash-changes :
    (before : List ℕ) (a b : ℕ) (behind : List ℕ)
    → a < 256
    → b < 256
    → AreBytes behind
    → a ≢ b
    → hash (before ++ a ∷ behind) ≢ hash (before ++ b ∷ behind)
unfolding hash
hash-changes before a b behind la lb are ne e =
    ne (hash_loop-change before offset_basis a b behind (omega arith) la lb are e)
