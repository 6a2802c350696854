-- ===== src/Text/Buffer/Hex.antt =====
-- `ptr_to_hex` of runtime/src/strings.c can be read back.
use native.Mathlib.Nat.{
  mul-le-mul_right, mul_assoc, mul_comm, mul-add, add-mul, div-add-mod, mod-lt, mod-eq_of_lt,
  mul-add-mod_self_left, one-le-pow,
}
use picasso_lang.Base.{
  ℕ, zero, suc, false, true, ◌≡◌, refl, sym, ap, ap₂, ◌∙◌, ◌⊎◌, inl, inr, ◌+◌, ◌-◌, ◌*◌, ◌/◌, ◌≤◌,
  ◌<◌, ◌≢◌, ◌%◌, ◌^◌, Bool, Bool-cases, not, ◌||◌, List, [], ◌∷◌, arith, ◌==◌, ltb, if◌then◌else◌,
  length,
}
use picasso_lang.Text.Buffer.{hex_digit, hex_loop, ptr_to_hex}

-- A reader of hexadecimal digits, with what was read before them.
abbrev pub digit_of : ℕ → ℕ
digit_of c = if ltb c 58 then c - 48 else c - 87

abbrev pub parse_hex : ℕ → List ℕ → ℕ
parse_hex acc [] = acc
parse_hex acc (c ∷ cs) = parse_hex (acc * 16 + digit_of c) cs

digit_of-hex_digit : (d : ℕ) → d < 16 → digit_of (hex_digit d) ≡ d
digit_of-hex_digit d l = ground arith

hex_digit-zero : (d : ℕ) → d < 16 → (hex_digit d == 48) ≡ (d == 0)
hex_digit-zero d l = ground arith

distribute : (p e r : ℕ) → p * (16 * e + r) ≡ 16 * p * e + r * p
distribute p e r =
    mul-add p (16 * e) r
    ∙ ap₂ (λ x y. x + y) (sym (mul_assoc p 16 e) ∙ ap (λ x. x * e) (mul_comm p 16)) (mul_comm p r)

-- The remainder by sixteen times as much has one digit more.
mod-digit : (v p : ℕ) → 0 < p → v % (16 * p) ≡ v / p % 16 * p + v % p
mod-digit v p pos =
    let q = v / p in
    let low = v % p in
    let split : v ≡ 16 * p * (q / 16) + (q % 16 * p + low) = omega (
      arith,
      div-add-mod v p,
      ap (λ x. p * x) (div-add-mod q 16),
      distribute p (q / 16) (q % 16),
    ) in
    let most : q % 16 * p ≤ 15 * p = mul-le-mul_right p (omega arith) in
    let small : q % 16 * p + low < 16 * p = omega (arith, most, mod-lt v pos) in
    ap (λ x. x % (16 * p)) split
    ∙ mul-add-mod_self_left (16 * p) (q / 16) (q % 16 * p + low)
    ∙ mod-eq_of_lt small

widen : (acc d p r : ℕ) → (acc * 16 + d) * p + r ≡ acc * (16 * p) + (d * p + r)
widen acc d p r = omega (arith, add-mul (acc * 16) d p, mul_assoc acc 16 p)

-- Reading what the loop writes goes on from what was read of the higher digits, which is nothing until the
-- first digit that counts.
pub hex_loop-parse :
    (shift v : ℕ) (started : Bool) (acc : ℕ)
    → (started ≡ true) ⊎ (acc ≡ 0)
    → parse_hex acc (hex_loop shift v started) ≡ acc * 16 ^ shift + v % 16 ^ shift
unfolding hex_loop
hex_loop-parse zero v started acc s = omega arith
hex_loop-parse (suc shift) v started acc s =
    let p = 16 ^ shift in
    let d = v / p % 16 in
    let small : d < 16 = omega arith in
    let step : v % (16 ^ suc shift) ≡ d * p + v % p =
      ap (λ x. v % x) (omega arith) ∙ mod-digit v p (one-le-pow shift 16 (omega arith)) in
    let power : 16 * p ≡ 16 ^ suc shift = omega arith in
    elim (Bool-cases (not (hex_digit d == 48) || started || (shift == 0))) [
      | inl written ↦
          rw (written, hex_loop)
            (rw (digit_of-hex_digit d small, parse_hex)
              (hex_loop-parse shift v true (acc * 16 + d) (inl refl)
                ∙ widen acc d p (v % p)
                ∙ ap₂ (λ x y. acc * x + y) power (sym step)))
      | inr skipped ↦
          let unread : acc ≡ 0 = ground arith in
          let no_digit : d ≡ 0 = ground (arith, hex_digit-zero d small) in
          rw (skipped, hex_loop)
            (hex_loop-parse shift v started acc s
              ∙ omega (
                arith,
                ap (λ x. x * p) unread,
                ap (λ x. x * 16 ^ suc shift) unread,
                ap (λ x. x * p) no_digit,
                step,
              ))
    ]

-- What `ptr_to_hex` writes for an address of 64 bits starts with "0x", and the rest reads back as the address.
pub ptr_to_hex-parse :
    (v : ℕ)
    → v < 2 ^ 64
    → (digits : List ℕ) × (ptr_to_hex v ≡ 48 ∷ 120 ∷ digits) × (parse_hex 0 digits ≡ v)
unfolding ptr_to_hex
ptr_to_hex-parse v l =
    (hex_loop 16 v false, refl, hex_loop-parse 16 v false 0 (inr refl) ∙ omega arith)

-- No digit before the first one that is not 0, but for the number 0.
abbrev pub IsLean : List ℕ → Type 0
IsLean [] = ⊥
IsLean (c ∷ cs) = (c ≢ 48) ⊎ (cs ≡ [])

pub hex_loop-IsLean : (shift v : ℕ) → IsLean (hex_loop (suc shift) v false)
unfolding hex_loop
hex_loop-IsLean zero v = elim (Bool-cases (hex_digit (v / 1 % 16) == 48)) [
  | inl zero_digit ↦ rw (zero_digit, hex_loop) (inr refl)
  | inr other ↦ rw (other, hex_loop) (inr refl)
]
hex_loop-IsLean (suc shift) v =
    elim (Bool-cases
      (not (hex_digit (v / 16 ^ suc shift % 16) == 48) || false || (suc shift == 0))) [
        | inl written ↦ rw (written, hex_loop) (inl (ground arith))
        | inr skipped ↦ rw (skipped, hex_loop) (hex_loop-IsLean shift v)
      ]

pub hex_loop-short : (shift v : ℕ) (started : Bool) → length (hex_loop shift v started) ≤ shift
unfolding hex_loop
hex_loop-short zero v started = omega arith
hex_loop-short (suc shift) v started =
    let d = hex_digit (v / 16 ^ shift % 16) in
    elim (Bool-cases (not (d == 48) || started || (shift == 0))) [
      | inl written ↦ rw (written, hex_loop) (omega (arith, hex_loop-short shift v true))
      | inr skipped ↦ rw (skipped, hex_loop) (omega (arith, hex_loop-short shift v started))
    ]
