-- ===== src/Text/Buffer/Decimal.antt =====
-- `u64_to_dec` of runtime/src/strings.c writes the decimal digits of its argument.
use native.Mathlib.Nat.{div-div-eq-div-mul}
use picasso_lang.Base.{
  ℕ, zero, suc, ◌≡◌, refl, ap, ◌∙◌, ◌⊎◌, inl, inr, ◌+◌, ◌-◌, ◌*◌, ◌/◌, ◌≤◌, ◌<◌, ◌%◌, ◌^◌,
  Bool-cases, some, List, [], ◌∷◌, arith, ◌==◌, if◌then◌else◌, length, get_or, set, length-set,
  ℕ_discrete,
}
use picasso_lang.Text.Buffer.{digits_loop, swap_loop, u64_to_dec}

get_or-set :
    (xs : List ℕ) (i m v : ℕ)
    → i < length xs
    → get_or (set xs i v) m 0 ≡ (if m == i then v else get_or xs m 0)
get_or-set [] i m v l = absurd (omega arith)
get_or-set (x ∷ xs) zero zero v l = refl
get_or-set (x ∷ xs) zero (suc m) v l = ground arith
get_or-set (x ∷ xs) (suc i) zero v l = ground arith
get_or-set (x ∷ xs) (suc i) (suc m) v l = ground (arith, get_or-set xs i m v)

abbrev swapped_at : ℕ → ℕ → List ℕ → List ℕ
swapped_at i j tmp = set (set tmp j (get_or tmp (i - 1 - j) 0)) (i - 1 - j) (get_or tmp j 0)

get_or-swapped_at :
    (i j m : ℕ) (tmp : List ℕ)
    → j < i - 1 - j
    → i ≤ length tmp
    → get_or (swapped_at i j tmp) m 0 ≡ (
        if m == i - 1 - j
        then get_or tmp j 0
        else if m == j
        then get_or tmp (i - 1 - j) 0
        else get_or tmp m 0)
get_or-swapped_at i j m tmp l room =
    let first = set tmp j (get_or tmp (i - 1 - j) 0) in
    let len = length-set tmp j (get_or tmp (i - 1 - j) 0) in
    get_or-set first (i - 1 - j) m (get_or tmp j 0) (omega arith)
    ∙ ap (λ x. if m == i - 1 - j then get_or tmp j 0 else x)
        (get_or-set tmp j m (get_or tmp (i - 1 - j) 0) (omega arith))

length-swapped_at : (i j : ℕ) (tmp : List ℕ) → length (swapped_at i j tmp) ≡ length tmp
length-swapped_at i j tmp =
    length-set (set tmp j (get_or tmp (i - 1 - j) 0)) (i - 1 - j) (get_or tmp j 0)
    ∙ length-set tmp j (get_or tmp (i - 1 - j) 0)

-- The swaps that are left turn the bytes between the two ends round, and touch no others.
swap_loop-get_or :
    (rounds i j : ℕ) (tmp : List ℕ) (m : ℕ)
    → j + rounds ≡ i / 2
    → i ≤ length tmp
    → ((j ≤ m) → (m + j < i) → get_or (swap_loop rounds i j tmp) m 0 ≡ get_or tmp (i - 1 - m) 0)
      × (((m < j) ⊎ (i ≤ m + j)) → get_or (swap_loop rounds i j tmp) m 0 ≡ get_or tmp m 0)
unfolding swap_loop
swap_loop-get_or zero i j tmp m e room =
    (λ lo hi. ap (λ k. get_or tmp k 0) (omega arith), λ out. refl)
swap_loop-get_or (suc rounds) i j tmp m e room =
    let len = length-swapped_at i j tmp in
    let (inside, outside) =
      swap_loop-get_or rounds i (j + 1) (swapped_at i j tmp) m (omega arith) (omega arith) in
    let here = get_or-swapped_at i j m tmp (omega arith) room in
    let there = get_or-swapped_at i j (i - 1 - m) tmp (omega arith) room in
    (
      λ lo hi. elim (ℕ_discrete m j) [
        | yes first ↦ outside (inl (omega arith)) ∙ here ∙ ground arith
        | no later ↦ elim (ℕ_discrete m (i - 1 - j)) [
          | yes last ↦ outside (inr (omega arith)) ∙ here ∙ ground arith
          | no before ↦ inside (omega arith) (omega arith) ∙ there ∙ ground arith
        ]
      ],
      λ out. outside (ground arith) ∙ here ∙ ground arith,
    )

-- The digits from the last one on, `n` of them: no more than are needed, and one for zero.
record Written (v i n : ℕ) (tmp tmp' : List ℕ) : Type 0 where
  pub some_digit : 1 ≤ n
  pub enough : v < 10 ^ n
  pub needed : (n ≡ 1) ⊎ (10 ^ (n - 1) ≤ v)
  pub digit : (m : ℕ) → m < n → get_or tmp' (i + m) 0 ≡ 48 + v / 10 ^ m % 10
  pub kept : (m : ℕ) → m < i → get_or tmp' m 0 ≡ get_or tmp m 0
  pub same_length : length tmp' ≡ length tmp

first_digit : (v m : ℕ) → m < 1 → v / 10 ^ m % 10 ≡ v % 10
first_digit v zero l = omega arith
first_digit v (suc m) l = absurd (omega arith)

pow_pred : (n : ℕ) → 1 ≤ n → 10 ^ n ≡ 10 * 10 ^ (n - 1)
pow_pred zero l = absurd (omega arith)
pow_pred (suc n) l =
    let index : 10 ^ (suc n - 1) ≡ 10 ^ n = ap (λ x. 10 ^ x) (omega arith) in omega (arith, index)

next_digit :
    (v i n : ℕ) (tmp tmp1 tmp' : List ℕ)
    → get_or tmp1 i 0 ≡ 48 + v % 10
    → Written (v / 10) (i + 1) n tmp1 tmp'
    → (m : ℕ) → m < suc n
    → get_or tmp' (i + m) 0 ≡ 48 + v / 10 ^ m % 10
next_digit v i n tmp tmp1 tmp' h w zero l =
    let index : i + 0 ≡ i = omega arith in
    let low : 48 + v % 10 ≡ 48 + v / 10 ^ 0 % 10 = omega arith in
    ap (λ x. get_or tmp' x 0) index ∙ w.kept i (omega arith) ∙ h ∙ low
next_digit v i n tmp tmp1 tmp' h w (suc m) l =
    let index : i + suc m ≡ i + 1 + m = omega arith in
    let power : 10 * 10 ^ m ≡ 10 ^ suc m = omega arith in
    ap (λ x. get_or tmp' x 0) index
    ∙ w.digit m (omega arith)
    ∙ ap (λ x. 48 + x % 10) (div-div-eq-div-mul v 10 (10 ^ m) ∙ ap (λ x. v / x) power)

two_digits : (v n : ℕ) → 0 < v / 10 → 1 ≤ n → (n ≡ 1) ⊎ (10 ^ (n - 1) ≤ v / 10) → 10 ^ n ≤ v
two_digits v n more l (inl one) = let power : 10 ^ n ≡ 10 = ap (λ x. 10 ^ x) one in omega arith
two_digits v n more l (inr fits) = omega (arith, pow_pred n l)

digits_loop-Written :
    (k v : ℕ) (tmp : List ℕ) (i : ℕ)
    → v < 10 ^ k
    → 0 < k
    → i + k ≤ length tmp
    → (n : ℕ) × (tmp' : List ℕ) × (digits_loop k v tmp i ≡ some (i + n, tmp'))
      × (n ≤ k)
      × Written v i n tmp tmp'
unfolding digits_loop
digits_loop-Written zero v tmp i l p room = absurd (omega arith)
digits_loop-Written (suc k) v tmp i l p room =
    let tmp1 = set tmp i (48 + v % 10) in
    let len = length-set tmp i (48 + v % 10) in
    elim (Bool-cases (v / 10 == 0)) [
      | inl last ↦ (
        1,
        tmp1,
        rw (last, digits_loop) refl,
        omega arith,
        record {
          some_digit = omega arith;
          enough = ground arith;
          needed = inl refl;
          digit =
              λ m small. ground (arith, get_or-set tmp i (i + m) (48 + v % 10), first_digit v m);
          kept = λ m small. ground (arith, get_or-set tmp i m (48 + v % 10));
          same_length = len;
        },
      )
      | inr more ↦
          let (n, tmp', e, le, w) =
            digits_loop-Written k (v / 10) tmp1 (i + 1) (omega arith) (ground arith)
              (omega arith) in
          let index : 10 ^ (suc n - 1) ≡ 10 ^ n = ap (λ x. 10 ^ x) (omega arith) in
          (
            suc n,
            tmp',
            rw (more, digits_loop) (e ∙ ap (λ x. some (x, tmp')) (omega arith)),
            omega arith,
            record {
              some_digit = omega arith;
              enough = omega (arith, w.enough);
              needed =
                  inr (omega (arith, two_digits v n (ground arith) w.some_digit w.needed, index));
              digit =
                  next_digit v i n tmp tmp1 tmp' (ground (arith, get_or-set tmp i i (48 + v % 10)))
                    w;
              kept = λ m small.
                  w.kept m (omega arith) ∙ ground (arith, get_or-set tmp i m (48 + v % 10));
              same_length = w.same_length ∙ len;
            },
          )
    ]

swap_loop-length : (rounds i j : ℕ) (tmp : List ℕ) → length (swap_loop rounds i j tmp) ≡ length tmp
unfolding swap_loop
swap_loop-length zero i j tmp = refl
swap_loop-length (suc rounds) i j tmp =
    let tmp1 = set tmp j (get_or tmp (i - 1 - j) 0) in
    swap_loop-length rounds i (j + 1) (set tmp1 (i - 1 - j) (get_or tmp j 0))
    ∙ length-set tmp1 (i - 1 - j) (get_or tmp j 0)
    ∙ length-set tmp j (get_or tmp (i - 1 - j) 0)

pub u64_to_dec-whole :
    (v : ℕ) (tmp : List ℕ)
    → v < 2 ^ 64
    → 20 ≤ length tmp
    → (n : ℕ) × (tmp' : List ℕ) × (u64_to_dec v tmp ≡ some (n, tmp'))
      × ((1 ≤ n) × (n ≤ 20))
      × ((v < 10 ^ n) × ((n ≡ 1) ⊎ (10 ^ (n - 1) ≤ v)))
      × ((m : ℕ) → m < n → get_or tmp' m 0 ≡ 48 + v / 10 ^ (n - 1 - m) % 10)
      × (length tmp' ≡ length tmp)
unfolding u64_to_dec
u64_to_dec-whole v tmp small room =
    let (n, tmp1, e, le, w) =
      digits_loop-Written 20 v tmp 0 (omega arith) (omega arith) (omega arith) in
    let index : 0 + n ≡ n = omega arith in
    let long = w.same_length in
    (
      n,
      swap_loop (n / 2) n 0 tmp1,
      rw (e, u64_to_dec) (ap (λ x. some (x, swap_loop (x / 2) x 0 tmp1)) index),
      (w.some_digit, le),
      (w.enough, w.needed),
      λ m l.
          let turned =
            (swap_loop-get_or (n / 2) n 0 tmp1 m (omega arith) (omega arith)).0 (omega arith)
              (omega arith) in
          let start : n - 1 - m ≡ 0 + (n - 1 - m) = omega arith in
          turned ∙ ap (λ x. get_or tmp1 x 0) start ∙ w.digit (n - 1 - m) (omega arith),
      swap_loop-length (n / 2) n 0 tmp1 ∙ long,
    )

-- For every number of 64 bits and room for 20 bytes, `u64_to_dec` returns between 1 and 20, no more than the
-- number needs, and the bytes up to there are its decimal digits, the first one first.
pub u64_to_dec-digits :
    (v : ℕ) (tmp : List ℕ)
    → v < 2 ^ 64
    → 20 ≤ length tmp
    → (n : ℕ) × (tmp' : List ℕ) × (u64_to_dec v tmp ≡ some (n, tmp'))
      × ((1 ≤ n) × (n ≤ 20))
      × ((v < 10 ^ n) × ((n ≡ 1) ⊎ (10 ^ (n - 1) ≤ v)))
      × ((m : ℕ) → m < n → get_or tmp' m 0 ≡ 48 + v / 10 ^ (n - 1 - m) % 10)
u64_to_dec-digits v tmp small room =
    let (n, tmp', e, bounds, exact, digit, long) = u64_to_dec-whole v tmp small room in
    (n, tmp', e, bounds, exact, digit)
