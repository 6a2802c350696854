-- ===== src/Text/Buffer.antt =====
-- The growing buffer and the printers of numbers of runtime/src/strings.c. `size_t` wraps round at 2 ^ 64.
-- Allocation does not fail.
pub mod Growth
pub mod Decimal
pub mod Hex
use picasso_lang.Base.{
  ℕ, zero, suc, ◌+◌, ◌-◌, ◌*◌, ◌/◌, ◌%◌, ◌^◌, Option, none, some, List, [], ◌∷◌, ◌++◌, ◌==◌, ltb,
  leb, if◌then◌else◌, length, get_elem?, get_or, set, drop, Bool, true, false, not, ◌||◌,
}

-- `*cap`, and the `*len` bytes that have been written at `*buf`. A capacity of 0 stands for NULL.
pub record Buffer : Type 0 where
  pub cap : ℕ
  pub bytes : List ℕ

-- The loop that doubles the new capacity while it is less than `target`.
unfoldable pub double_until : ℕ → ℕ → ℕ → Option ℕ
double_until zero target cap = none
double_until (suc k) target cap =
    let rest = double_until k target (cap * 2 % 2 ^ 64) in if ltb cap target then rest else some cap

-- The capacity is at least doubled each round, so `target` rounds are enough.
unfoldable pub buf_append : Buffer → List ℕ → Option Buffer
unfolding double_until
buf_append b src =
    let target = (length b.bytes + length src) % 2 ^ 64 in
    if ltb b.cap target
    then elim (double_until target target (if b.cap == 0 then 64 else b.cap * 2 % 2 ^ 64)) [
      | none ↦ none
      | some newcap ↦ some (record { cap = newcap; bytes = b.bytes ++ src })
    ]
    else some (record b { bytes = b.bytes ++ src })

-- The first loop of `u64_to_dec`: the digits from the last one on, and the index behind them.
unfoldable pub digits_loop : ℕ → ℕ → List ℕ → ℕ → Option (ℕ × List ℕ)
digits_loop zero v tmp i = none
digits_loop (suc k) v tmp i =
    let tmp' = set tmp i (48 + v % 10) in
    let rest = digits_loop k (v / 10) tmp' (i + 1) in
    if v / 10 == 0 then some (i + 1, tmp') else rest

-- The second: `rounds` swaps from `j` on.
unfoldable pub swap_loop : ℕ → ℕ → ℕ → List ℕ → List ℕ
swap_loop zero i j tmp = tmp
swap_loop (suc rounds) i j tmp =
    swap_loop rounds i (j + 1)
      (set (set tmp j (get_or tmp (i - 1 - j) 0)) (i - 1 - j) (get_or tmp j 0))

-- The length, and `tmp` with the digits. A number of 64 bits has at most 20.
unfoldable pub u64_to_dec : ℕ → List ℕ → Option (ℕ × List ℕ)
unfolding digits_loop swap_loop
u64_to_dec v tmp = elim (digits_loop 20 v tmp 0) [
  | none ↦ none
  | some (i, tmp') ↦ some (i, swap_loop (i / 2) i 0 tmp')
]

-- Writing from `tmp + 1` on when the number is negative. `v` is the two's complement of an `int64_t`, and
-- `-v`, which overflows for the least number, is taken to wrap round as `uint64_t` does.
unfoldable pub i64_to_dec : ℕ → List ℕ → Option (ℕ × List ℕ)
i64_to_dec v tmp =
    if ltb v (2 ^ 63)
    then u64_to_dec v tmp
    else elim (u64_to_dec ((2 ^ 64 - v) % 2 ^ 64) (drop 1 tmp)) [
      | none ↦ none
      | some (n, rest) ↦ some (1 + n, 45 ∷ rest)
    ]

abbrev pub hex_digit : ℕ → ℕ
hex_digit d = if ltb d 10 then 48 + d else 87 + d

-- The loop of `ptr_to_hex` over the shifts that are left, the highest first: `shifts` digits of `v` are to
-- come, and `started` says that one has been written.
unfoldable pub hex_loop : ℕ → ℕ → Bool → List ℕ
hex_loop zero v started = []
hex_loop (suc shift) v started =
    let d = hex_digit (v / 16 ^ shift % 16) in
    if not (d == 48) || started || (shift == 0)
    then d ∷ hex_loop shift v true
    else hex_loop shift v started

-- The bytes that are written, with "0x" before them; the length is theirs.
unfoldable pub ptr_to_hex : ℕ → List ℕ
ptr_to_hex v = 48 ∷ 120 ∷ hex_loop 16 v false
