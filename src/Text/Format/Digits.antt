-- ===== src/Text/Format/Digits.antt =====
-- The texts of numbers, said of their bytes, and that the printers of runtime/src/strings.c write them.
use picasso_lang.Base.{
  ℕ, zero, suc, ◌≡◌, refl, ap, ◌∙◌, ◌⊎◌, inl, inr, ◌+◌, ◌-◌, ◌*◌, ◌/◌, ◌%◌, ◌^◌, ◌≤◌, ◌<◌, some,
  List, [], ◌∷◌, arith, ltb, length, length-take, take, drop, get_or, false, Bool-cases,
}
use picasso_lang.Text.Ops.Content.{read_bytes-at}
use picasso_lang.Text.Buffer.{u64_to_dec, i64_to_dec, ptr_to_hex, hex_loop}
use picasso_lang.Text.Buffer.Decimal.{u64_to_dec-whole}
use picasso_lang.Text.Buffer.Hex.{
  parse_hex, IsLean, hex_loop-IsLean, hex_loop-parse, hex_loop-short,
}
use picasso_lang.Text.Format.{blank, printed, sign_extend}

-- The decimal digits of `v`, the first one first, and no more than it needs.
pub record IsDecimal (v : ℕ) (ds : List ℕ) : Type 0 where
  pub some_digit : 1 ≤ length ds
  pub short : length ds ≤ 20
  pub enough : v < 10 ^ length ds
  pub needed : (length ds ≡ 1) ⊎ (10 ^ (length ds - 1) ≤ v)
  pub digit : (m : ℕ) → m < length ds → get_or ds m 0 ≡ 48 + v / 10 ^ (length ds - 1 - m) % 10

-- The text of the integer of which `v` is the two's complement, below 2 * half: from `half` on it is negative.
pub record IsSigned (half v : ℕ) (text : List ℕ) : Type 0 where
  pub positive : v < half → IsDecimal v text
  pub negative : half ≤ v → (ds : List ℕ) × (text ≡ 45 ∷ ds) × IsDecimal (2 * half - v) ds

-- 0x and the hexadecimal digits, no more than it needs.
abbrev pub IsAddress : ℕ → List ℕ → Type 0
IsAddress v text = (ds : List ℕ) × (text ≡ 48 ∷ 120 ∷ ds) × (parse_hex 0 ds ≡ v) × IsLean ds

get_or-take : (n m : ℕ) (xs : List ℕ) → m < n → get_or (take n xs) m 0 ≡ get_or xs m 0
get_or-take zero m xs l = absurd (omega arith)
get_or-take (suc n) m [] l = refl
get_or-take (suc n) zero (x ∷ xs) l = refl
get_or-take (suc n) (suc m) (x ∷ xs) l = get_or-take n m xs (omega arith)

-- A printed number, with the length that it has.
digits_printed :
    (v : ℕ) (tmp : List ℕ)
    → v < 2 ^ 64
    → 20 ≤ length tmp
    → (n : ℕ) × (tmp' : List ℕ) × (u64_to_dec v tmp ≡ some (n, tmp'))
      × (n ≤ length tmp')
      × IsDecimal v (take n tmp')
digits_printed v tmp small room =
    let (n, tmp', e, bounds, exact, digit, long) = u64_to_dec-whole v tmp small room in
    let fits : n ≤ length tmp' = omega (arith, bounds.1) in
    let len : length (take n tmp') ≡ n = omega (arith, length-take n tmp') in
    (
      n,
      tmp',
      e,
      fits,
      record {
        some_digit = rw len (bounds.0);
        short = rw len (bounds.1);
        enough = rw len (exact.0);
        needed = rw len (exact.1);
        digit =
            λ m l. let l' : m < n = omega arith in rw len (get_or-take n m tmp' l' ∙ digit m l');
      },
    )

pub printed-u64_to_dec :
    (v : ℕ) → v < 2 ^ 64 → (ds : List ℕ) × (printed (u64_to_dec v blank) ≡ some ds) × IsDecimal v ds
printed-u64_to_dec v small =
    let (n, tmp', e, fits, is) =
      digits_printed v blank small (let len : length blank ≡ 32 = refl in omega arith) in
    (take n tmp', ap printed e ∙ read_bytes-at n tmp' fits, is)

negative_text :
    (v n : ℕ) (tmp' : List ℕ)
    → ltb v (2 ^ 63) ≡ false
    → u64_to_dec ((2 ^ 64 - v) % 2 ^ 64) (drop 1 blank) ≡ some (n, tmp')
    → n ≤ length tmp'
    → printed (i64_to_dec v blank) ≡ some (45 ∷ take n tmp')
unfolding i64_to_dec
negative_text v n tmp' down e fits =
    let one_more : 1 + n ≡ suc n = omega arith in
    let whole : take (1 + n) (45 ∷ tmp') ≡ 45 ∷ take n tmp' =
      ap (λ x. take x (45 ∷ tmp')) one_more in
    rw (down, i64_to_dec) (rw e (read_bytes-at (1 + n) (45 ∷ tmp') (omega arith) ∙ ap some whole))

pub printed-i64_to_dec :
    (v : ℕ)
    → v < 2 ^ 64
    → (ds : List ℕ) × (printed (i64_to_dec v blank) ≡ some ds) × IsSigned (2 ^ 63) v ds
unfolding i64_to_dec
printed-i64_to_dec v small = elim (Bool-cases (ltb v (2 ^ 63))) [
  | inl up ↦
      let (ds, e, is) = printed-u64_to_dec v small in
      (ds, rw up e, record { positive = λ l. is; negative = λ l. absurd (ground arith) })
  | inr down ↦
      let back : (2 ^ 64 - v) % 2 ^ 64 ≡ 2 ^ 64 - v = ground arith in
      let (n, tmp', e, fits, is) =
        digits_printed (2 ^ 64 - v) (drop 1 blank) (ground arith) (omega arith) in
      (
        45 ∷ take n tmp',
        negative_text v n tmp' down (ap (λ x. u64_to_dec x (drop 1 blank)) back ∙ e) fits,
        record { positive = λ l. absurd (ground arith); negative = λ l. (take n tmp', refl, is) },
      )
]

pub printed_int :
    (v : ℕ)
    → v < 2 ^ 32
    → (ds : List ℕ) × (printed (i64_to_dec (sign_extend v) blank) ≡ some ds)
      × IsSigned (2 ^ 31) v ds
printed_int v small = elim (Bool-cases (ltb v (2 ^ 31))) [
  | inl up ↦
      let (ds, e, is) = printed-i64_to_dec v (omega arith) in
      (
        ds,
        rw up e,
        record { positive = λ l. is.positive (omega arith); negative = λ l. absurd (ground arith) },
      )
  | inr down ↦
      let (ds, e, is) = printed-i64_to_dec (v + (2 ^ 64 - 2 ^ 32)) (omega arith) in
      let same : 2 * 2 ^ 63 - (v + (2 ^ 64 - 2 ^ 32)) ≡ 2 * 2 ^ 31 - v = omega arith in
      (
        ds,
        rw down e,
        record {
          positive = λ l. absurd (ground arith);
          negative = λ l. let (more, at, d) = is.negative (ground arith) in (more, at, rw⁻¹ same d);
        },
      )
]

pub ptr_to_hex-IsAddress : (v : ℕ) → v < 2 ^ 64 → IsAddress v (ptr_to_hex v)
unfolding ptr_to_hex
ptr_to_hex-IsAddress v l = (
  hex_loop 16 v false,
  refl,
  hex_loop-parse 16 v false 0 (inr refl) ∙ omega arith,
  hex_loop-IsLean 15 v,
)

pub ptr_to_hex-short : (v : ℕ) → length (ptr_to_hex v) ≤ 18
unfolding ptr_to_hex
ptr_to_hex-short v = omega (arith, hex_loop-short 16 v false)

pub IsSigned-short : (half v : ℕ) (text : List ℕ) → IsSigned half v text → length text ≤ 21
IsSigned-short half v text is = elim (Bool-cases (ltb v half)) [
  | inl up ↦ let d = is.positive (ground arith) in omega (arith, d.short)
  | inr down ↦
      let (ds, e, d) = is.negative (ground arith) in
      let len : length text ≡ length (45 ∷ ds) = ap length e in omega (arith, d.short)
]
