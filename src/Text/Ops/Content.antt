-- ===== src/Text/Ops/Content.antt =====
-- What the operations of runtime/src/strings.c do to the content of strings.
use picasso_lang.Base.{
  append-nil, ℕ, zero, false, suc, ◌≡◌, refl, sym, ap, ap₂, ◌∙◌, ◌+◌, ◌-◌, ◌≤◌, ◌<◌, none, some,
  List, [], ◌∷◌, ◌++◌, arith, ltb, length, take, drop, set, length-append, length-take, length-drop,
}
use picasso_lang.Base.Int.{pos}
use picasso_lang.Text.Ops.{Str, read_bytes, strings_append, strings_join, strings_substring}

abbrev pub content : Str → List ℕ
content s = take s.size s.bytes

-- The bytes of the string and one behind them have been written.
abbrev pub IsTerminated : Str → Type 0
IsTerminated s = s.size < length s.bytes

pub read_bytes-at :
    (n : ℕ) (bytes : List ℕ) → n ≤ length bytes → read_bytes n bytes ≡ some (take n bytes)
unfolding read_bytes
read_bytes-at n bytes l = ground arith

read_bytes-past : (n : ℕ) (bytes : List ℕ) → length bytes < n → read_bytes n bytes ≡ none
unfolding read_bytes
read_bytes-past n bytes l = ground arith

take-append : (xs ys : List ℕ) (m n : ℕ) → n ≡ length xs + m → take n (xs ++ ys) ≡ xs ++ take m ys
take-append [] ys m n e = ap (λ k. take k ys) (omega arith)
take-append (x ∷ xs) ys m zero e = absurd (omega arith)
take-append (x ∷ xs) ys m (suc n) e = ap (λ zs. x ∷ zs) (take-append xs ys m n (omega arith))

pub take-length : (xs ys : List ℕ) (n : ℕ) → n ≡ length xs → take n (xs ++ ys) ≡ xs
take-length xs ys n e = take-append xs ys 0 n (omega arith) ∙ append-nil xs

set-take :
    (n : ℕ) (xs : List ℕ) (ch : ℕ)
    → n < length xs
    → set (take (suc n) xs) n ch ≡ take n xs ++ (ch ∷ [])
set-take n [] ch l = absurd (omega arith)
set-take zero (x ∷ xs) ch l = refl
set-take (suc n) (x ∷ xs) ch l = ap (λ zs. x ∷ zs) (set-take n xs ch (omega arith))

take-drop-take :
    (k a n : ℕ) (xs : List ℕ) → a + k ≤ n → take k (drop a (take n xs)) ≡ take k (drop a xs)
take-drop-take zero a n xs l = refl
take-drop-take (suc k) a zero xs l = absurd (omega arith)
take-drop-take (suc k) a (suc n) [] l = refl
take-drop-take (suc k) zero (suc n) (x ∷ xs) l =
    ap (λ zs. x ∷ zs) (take-drop-take k zero n xs (omega arith))
take-drop-take (suc k) (suc a) (suc n) (x ∷ xs) l = take-drop-take (suc k) a n xs (omega arith)

abbrev appended : Str → ℕ → Str
appended s ch = record { bytes = (content s ++ (ch ∷ [])) ++ (0 ∷ []); size = s.size + 1 }

pub length-content : (s : Str) → s.size ≤ length s.bytes → length (content s) ≡ s.size
length-content s l = omega (arith, length-take s.size s.bytes)

strings_append-some :
    (s : Str) (ch : ℕ) → s.size < length s.bytes → strings_append s ch ≡ some (appended s ch)
unfolding strings_append
strings_append-some s ch l =
    let index : s.size + 1 - 1 ≡ s.size = omega arith in
    let next : s.size + 1 ≡ suc s.size = omega arith in
    let copied = ap (λ k. take k s.bytes) next in
    let result = ap₂ (λ (xs : List ℕ) i. set xs i ch) copied index ∙ set-take s.size s.bytes ch l in
    rw (read_bytes-at (s.size + 1) s.bytes (omega arith), strings_append)
      (ap (λ (xs : List ℕ). some (record { bytes = xs ++ (0 ∷ []); size = s.size + 1 })) result)

-- A character is added to a string that has a byte behind it, and the result has one again; if nothing was
-- written behind it, as behind a buffer that `strings_format` has filled, that byte is read all the same.
pub strings_append-content :
    (s : Str) (ch : ℕ)
    → s.size ≤ length s.bytes
    → (s.size < length s.bytes
        → (t : Str) × (strings_append s ch ≡ some t)
          × (content t ≡ content s ++ (ch ∷ []))
          × IsTerminated t)
      × (s.size ≡ length s.bytes → strings_append s ch ≡ none)
unfolding strings_append
strings_append-content s ch l =
    let whole = content s ++ (ch ∷ []) in
    let size : length whole ≡ s.size + 1 =
      omega (arith, length-append (content s) (ch ∷ []), length-content s l) in
    (
      λ more. (
        appended s ch,
        strings_append-some s ch more,
        take-length whole (0 ∷ []) (s.size + 1) (sym size),
        omega (arith, length-append whole (0 ∷ []), size),
      ),
      λ full. rw (read_bytes-past (s.size + 1) s.bytes (omega arith), strings_append) refl,
    )

-- The content of the join of two strings is the one content behind the other.
pub strings_join-content :
    (s t : Str)
    → s.size ≤ length s.bytes
    → t.size ≤ length t.bytes
    → (u : Str) × (strings_join s t ≡ some u)
      × (content u ≡ content s ++ content t)
      × IsTerminated u
unfolding strings_join
strings_join-content s t ls lt =
    let both = content s ++ content t in
    let size : length both ≡ s.size + t.size =
      omega
        (arith, length-append (content s) (content t), length-content s ls, length-content t lt) in
    (
      record { bytes = both ++ (0 ∷ []); size = s.size + t.size },
      rw (read_bytes-at s.size s.bytes ls, strings_join)
          (rw (read_bytes-at t.size t.bytes lt) refl),
      take-length both (0 ∷ []) (s.size + t.size) (sym size),
      omega (arith, length-append both (0 ∷ []), size),
    )

-- A substring within the string is the bytes from `start` to before `end`; one that ends past the string
-- is NULL.
pub strings_substring-content :
    (s : Str) (start end : ℕ)
    → s.size ≤ length s.bytes
    → start ≤ end
    → (end ≤ s.size
        → (u : Str) × (strings_substring s (pos start) (pos end) ≡ some (some u))
          × (content u ≡ take (end - start) (drop start (content s)))
          × IsTerminated u)
      × (s.size < end → strings_substring s (pos start) (pos end) ≡ some none)
unfolding strings_substring
strings_substring-content s start end l le = (
  λ inside.
      let n = end - start in
      let part = take n (drop start s.bytes) in
      let fits : n ≤ length (drop start s.bytes) = omega (arith, length-drop start s.bytes) in
      let size : length part ≡ n = omega (arith, length-take n (drop start s.bytes), fits) in
      let in_end : ltb s.size end ≡ false = ground arith in
      let ordered : ltb end start ≡ false = ground arith in
      (
        record { bytes = part ++ (0 ∷ []); size = n },
        simp (in_end, ordered, read_bytes-at n (drop start s.bytes) fits),
        take-length part (0 ∷ []) n (sym size)
            ∙ sym (take-drop-take n start s.size s.bytes (omega arith)),
        omega (arith, length-append part (0 ∷ []), size),
      ),
  λ past. ground arith,
)
