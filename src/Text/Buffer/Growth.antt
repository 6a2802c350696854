-- ===== src/Text/Buffer/Growth.antt =====
-- `buf_append` of runtime/src/strings.c appends, and finds the room for it.
use picasso_lang.Base.{
  ℕ, zero, suc, ◌≡◌, refl, ◌⊎◌, inl, inr, ◌+◌, ◌*◌, ◌≤◌, ◌<◌, ◌%◌, ◌^◌, Bool-cases, some, List,
  ◌++◌, arith, ◌==◌, ltb, if◌then◌else◌, length, length-append,
}
use picasso_lang.Text.Buffer.{Buffer, double_until, buf_append}

double_until-some :
    (k target cap : ℕ)
    → 0 < cap
    → 0 < k
    → target < cap + k
    → target ≤ 2 ^ 63
    → (c : ℕ) × (double_until k target cap ≡ some c)
      × (target ≤ c)
      × (cap ≤ c)
      × ((c ≡ cap) ⊎ (c < 2 * target))
unfolding double_until
double_until-some zero target cap pos some_fuel l small = absurd (omega arith)
double_until-some (suc k) target cap pos some_fuel l small = elim (Bool-cases (ltb cap target)) [
  | inl more ↦
      let (c, e, enough, grows, bound) =
        double_until-some k target (cap * 2 % 2 ^ 64) (ground arith) (ground arith) (ground arith)
          small in
      (c, rw (more, double_until) e, enough, ground arith, inr (ground arith))
  | inr done ↦ (cap, rw (done, double_until) refl, ground arith, omega arith, inl refl)
]

-- Up to 2 ^ 63 bytes in all, `buf_append` returns with the bytes of `src` behind those of the buffer, which
-- has room for them: it keeps its capacity, or has one that is at least twice as large and is 64 or less than
-- twice the number of bytes.
pub buf_append-room :
    (b : Buffer) (src : List ℕ)
    → length b.bytes ≤ b.cap
    → length b.bytes + length src ≤ 2 ^ 63
    → (b' : Buffer) × (buf_append b src ≡ some b')
      × (b'.bytes ≡ b.bytes ++ src)
      × (length b'.bytes ≤ b'.cap)
      × ((b'.cap ≡ b.cap)
          ⊎ ((2 * b.cap ≤ b'.cap) × ((b'.cap ≡ 64) ⊎ (b'.cap < 2 * length b'.bytes))))
unfolding buf_append
buf_append-room b src room small =
    let target = (length b.bytes + length src) % 2 ^ 64 in
    let exact : target ≡ length b.bytes + length src = omega arith in
    let len = length-append b.bytes src in
    elim (Bool-cases (ltb b.cap target)) [
      | inl more ↦
          let start = (if b.cap == 0 then 64 else b.cap * 2 % 2 ^ 64) in
          let (c, e, enough, grows, bound) =
            double_until-some target target start (ground arith) (ground arith) (ground arith)
              (omega arith) in
          (
            record { cap = c; bytes = b.bytes ++ src },
            rw (more, buf_append) (rw e refl),
            refl,
            omega arith,
            inr (ground arith, ground arith),
          )
      | inr fits ↦ (
        record b { bytes = b.bytes ++ src },
        rw (fits, buf_append) refl,
        refl,
        ground arith,
        inl refl,
      )
    ]
