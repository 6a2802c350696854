-- ===== src/Disk/Loops/Read.antt =====
-- The loop over `pread` of runtime/src/diskio.c comes to an end, and what it has read by then.
use picasso_lang.Base.{
  ℕ, zero, suc, ◌≡◌, refl, sym, ap, ◌∙◌, inl, inr, ◌+◌, ◌-◌, ◌≤◌, ◌<◌, ◌^◌, min, true, false,
  Option, none, some, List, [], ◌∷◌, ◌++◌, ◌==◌, ltb, leb, ltb→lt, Bool-cases, arith, length,
  length-append, length-take, length-drop, take, drop, append_assoc, take-add, drop-add,
}
use picasso_lang.Base.Int.{pos}
use picasso_lang.Text.Ops.{to_int}
use picasso_lang.Disk.{Answer, moves, interrupted, fails, returned, write_bytes, read_loop}
use picasso_lang.Disk.Loops.{IsMoving, progress, Result, Result_later, Result_same}

take-length : (xs ys : List ℕ) → take (length xs) (xs ++ ys) ≡ xs
take-length [] ys = refl
take-length (x ∷ xs) ys = ap (λ ws. x ∷ ws) (take-length xs ys)

drop-length : (xs ys : List ℕ) (n k : ℕ) → length xs + k ≡ n → drop n (xs ++ ys) ≡ drop k ys
drop-length [] ys n k e = ap (λ i. drop i ys) (omega arith)
drop-length (x ∷ xs) ys zero k e = absurd (omega arith)
drop-length (x ∷ xs) ys (suc n) k e = drop-length xs ys n k (omega arith)

-- A write behind the bytes that have been read.
write_bytes-behind :
    (front back chunk : List ℕ)
    → length chunk ≤ length back
    → write_bytes (front ++ back) (length front) chunk
      ≡ some ((front ++ chunk) ++ drop (length chunk) back)
unfolding write_bytes
write_bytes-behind front back chunk h =
    let l = length-append front back in
    let t = take-length front back in
    let d = drop-length front back (length front + length chunk) (length chunk) refl in
    elim (Bool-cases (leb (length front + length chunk) (length (front ++ back)))) [
      | inr out ↦ absurd (ground arith)
      | inl fits ↦ rw (fits, write_bytes) (rw (t, d) refl)
    ]

-- `front` has been read into the array, up to the offset `at`; `back` is the rest of the array.
abbrev pub Reads : List Answer → List ℕ → ℕ → ℕ → List ℕ → List ℕ → Type 0
Reads answers file n at front back =
    (r : Option ℕ) × (j : ℕ) × (read_loop answers file n (length front) (pos at) (front ++ back)
      ≡ returned (r, front ++ (take j (drop at file) ++ drop j back)))
    × Result answers (min n (length front + (length file - at))) (length front + j) r

to_int_small : (n : ℕ) → n < 2 ^ 31 → to_int n ≡ pos n
to_int_small n h = ground arith

read_loop_end :
    (answers : List Answer) (file : List ℕ) (n at : ℕ) (front back : List ℕ)
    → length front ≡ n
    → Reads answers file n at front back
unfolding read_loop
read_loop_end [] file n at front back e =
    (some (length front), 0, ground arith, (omega arith, omega arith))
read_loop_end (a ∷ answers) file n at front back e =
    (some (length front), 0, ground arith, (omega arith, omega arith))

-- A call that moves something.
read_loop_more :
    (k : ℕ) (answers : List Answer) (file : List ℕ) (n at : ℕ) (front back : List ℕ)
    → ltb (length front) n ≡ true
    → n ≤ length front + length back
    → at + (n - length front) < 2 ^ 31
    → let w = min k (min (n - length front) (length file - at)) in
      (w == 0) ≡ false
      → Reads answers file n (at + w) (front ++ take w (drop at file)) (drop w back)
      → Reads (moves k ∷ answers) file n at front back
unfolding read_loop
read_loop_more k answers file n at front back more room small some_bytes (r, j, e, result) =
    let w = min k (min (n - length front) (length file - at)) in
    let chunk = take w (drop at file) in
    let t : length front < n = ltb→lt (length front) n more in
    let dl = length-drop at file in
    let cl : length chunk ≡ w = omega (arith, length-take w (drop at file)) in
    let fl : length (front ++ chunk) ≡ length front + w =
      omega (arith, length-append front chunk) in
    let behind : write_bytes (front ++ back) (length front) chunk
        ≡ some ((front ++ chunk) ++ drop w back) =
      rw (ap (λ i. some ((front ++ chunk) ++ drop i back)) (sym cl))
        (write_bytes-behind front back chunk (omega arith)) in
    let text : (front ++ chunk) ++ (take j (drop (at + w) file) ++ drop j (drop w back))
        ≡ front ++ (take (w + j) (drop at file) ++ drop (w + j) back) =
      rw
        (
          sym (drop-add at w (at + w) file refl),
          drop-add w j (w + j) back refl,
          sym (take-add w j (w + j) (drop at file) refl),
        )
        (append_assoc front chunk (take j (drop w (drop at file)) ++ drop (w + j) back)
          ∙ ap (λ bs. front ++ bs)
              (sym (append_assoc chunk (take j (drop w (drop at file))) (drop (w + j) back)))) in
    (
      r,
      w + j,
      rw (more, some_bytes, read_loop)
          (rw (behind, read_loop)
            (rw (to_int_small (at + w) (omega arith))
              (rw (sym fl) (e ∙ ap (λ bs. returned (r, bs)) text)))),
      Result_later (moves k) answers _ (min n (length front + (length file - at)))
          (length (front ++ chunk) + j) (length front + (w + j)) r (omega arith) (omega arith)
          (λ x. x) result,
    )

read_loop-Reads :
    (answers : List Answer) (file : List ℕ) (n at : ℕ) (front back : List ℕ)
    → length front ≤ n
    → n ≤ length front + length back
    → at + (n - length front) < 2 ^ 31
    → IsMoving answers
    → n - length front ≤ progress answers
    → Reads answers file n at front back
unfolding read_loop
read_loop-Reads [] file n at front back h room small m enough =
    read_loop_end [] file n at front back (omega arith)
read_loop-Reads (interrupted ∷ answers) file n at front back h room small m enough =
    elim (Bool-cases (ltb (length front) n)) [
      | inr done ↦ read_loop_end (interrupted ∷ answers) file n at front back (ground arith)
      | inl more ↦
          let (r, j, e, result) =
            read_loop-Reads answers file n at front back h room small m enough in
          (
            r,
            j,
            rw (more, read_loop) e,
            Result_later interrupted answers _ _ _ _ r refl refl (λ x. x) result,
          )
    ]
read_loop-Reads (fails ∷ answers) file n at front back h room small m enough =
    elim (Bool-cases (ltb (length front) n)) [
      | inr done ↦ read_loop_end (fails ∷ answers) file n at front back (ground arith)
      | inl more ↦ (none, 0, rw (more, read_loop) refl, (refl, omega arith))
    ]
read_loop-Reads (moves k ∷ answers) file n at front back h room small m enough =
    let w = min k (min (n - length front) (length file - at)) in
    let dl = length-drop at file in
    let lt = length-take w (drop at file) in
    let la = length-append front (take w (drop at file)) in
    let lb = length-drop w back in
    elim (Bool-cases (ltb (length front) n)) [
      | inr done ↦ read_loop_end (moves k ∷ answers) file n at front back (ground arith)
      | inl more ↦
          let t = ltb→lt (length front) n more in
          elim (Bool-cases (w == 0)) [
            | inl nothing ↦
                let moved : 0 < k = m.0 in
                let z : w ≡ 0 = ground arith in
                (
                  some (length front),
                  0,
                  rw (more, nothing, read_loop) refl,
                  (omega arith, omega arith),
                )
            | inr something ↦
                let positive : 0 < w = ground arith in
                read_loop_more k answers file n at front back more room small something (
                  read_loop-Reads answers file n (at + w) (front ++ take w (drop at file))
                    (drop w back) (omega arith) (omega arith) (omega arith) m.1 (omega arith))
          ]
    ]

pub read_loop-Result :
    (answers : List Answer) (file : List ℕ) (n at : ℕ) (buf : List ℕ)
    → n ≤ length buf
    → at + n < 2 ^ 31
    → IsMoving answers
    → n ≤ progress answers
    → (r : Option ℕ) × (j : ℕ) × (read_loop answers file n 0 (pos at) buf
        ≡ returned (r, take j (drop at file) ++ drop j buf))
      × Result answers (min n (length file - at)) j r
read_loop-Result answers file n at buf l small m enough =
    let (r, j, e, result) =
      read_loop-Reads answers file n at [] buf (omega arith) (omega arith) (omega arith) m
        (omega arith) in
    (r, j, e, Result_same answers _ _ (0 + j) j r (omega arith) (omega arith) result)
