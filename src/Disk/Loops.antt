-- ===== src/Disk/Loops.antt =====
-- The loop over `write` of runtime/src/diskio.c comes to an end, and what it has sent by then.
pub mod Read
use picasso_lang.Base.{
  ℕ, zero, suc, ◌≡◌, refl, sym, ap, ◌∙◌, ◌⊎◌, inl, inr, ◌+◌, ◌-◌, ◌≤◌, ◌<◌, ◌^◌, min, Bool, true,
  false, Option, none, some, List, [], ◌∷◌, ◌++◌, ◌==◌, ltb, ltb→lt, Bool-cases, arith, length,
  length-append, length-take, length-drop, take, drop, append_assoc, append-nil, take-add, drop-add,
  take_all,
}
use picasso_lang.Base.Int.{ℤ, pos, negsuc}
use picasso_lang.Text.Ops.{to_int, read_bytes}
use picasso_lang.Text.Ops.Content.{read_bytes-at}
use picasso_lang.Disk.{
  Answer, moves, interrupted, fails, Outcome, waits, faults, returned, write_loop, write_bytes,
  read_loop,
}

-- No call that returns moves nothing while there is something to move.
abbrev pub IsMoving : List Answer → Type 0
IsMoving [] = 0 ≤ 0
IsMoving (moves k ∷ answers) = (0 < k) × IsMoving answers
IsMoving (interrupted ∷ answers) = IsMoving answers
IsMoving (fails ∷ answers) = IsMoving answers

-- The answers that are not interruptions.
abbrev pub progress : List Answer → ℕ
progress [] = 0
progress (moves k ∷ answers) = suc (progress answers)
progress (interrupted ∷ answers) = progress answers
progress (fails ∷ answers) = suc (progress answers)

abbrev pub fails_in : List Answer → Bool
fails_in [] = false
fails_in (moves k ∷ answers) = fails_in answers
fails_in (interrupted ∷ answers) = fails_in answers
fails_in (fails ∷ answers) = true

-- The result of a loop that has moved `j` bytes: that number, and then it is the goal, or -1 after a failure.
abbrev pub Result : List Answer → ℕ → ℕ → Option ℕ → Type 0
Result answers goal j (some m) = (m ≡ goal) × (j ≡ goal)
Result answers goal j none = (fails_in answers ≡ true) × (j ≤ goal)

pub Result_later :
    (a : Answer) (answers : List Answer) (goal goal' j j' : ℕ) (r : Option ℕ)
    → goal ≡ goal'
    → j ≡ j'
    → (fails_in answers ≡ true → fails_in (a ∷ answers) ≡ true)
    → Result answers goal j r
    → Result (a ∷ answers) goal' j' r
Result_later a answers goal goal' j j' (some m) g e f (x, y) = (omega arith, omega arith)
Result_later a answers goal goal' j j' none g e f (x, y) = (f x, omega arith)

pub Result_same :
    (answers : List Answer) (goal goal' j j' : ℕ) (r : Option ℕ)
    → goal ≡ goal'
    → j ≡ j'
    → Result answers goal j r
    → Result answers goal' j' r
Result_same answers goal goal' j j' (some m) g e (x, y) = (omega arith, omega arith)
Result_same answers goal goal' j j' none g e (x, y) = (x, omega arith)

-- Where the memory has the bytes that are asked for.
abbrev pub Sends : List Answer → List ℕ → ℕ → ℕ → List ℕ → Type 0
Sends answers p n total sent =
    (r : Option ℕ) × (j : ℕ) × (write_loop answers p n total sent
      ≡ returned (r, sent ++ take j (drop total p)))
    × Result answers n (total + j) r

write_loop_full :
    (answers : List Answer) (p : List ℕ) (n total : ℕ) (sent : List ℕ)
    → total ≡ n
    → Sends answers p n total sent
unfolding write_loop
write_loop_full [] p n total sent e =
    let nil = append-nil sent in (some total, 0, ground arith, (e, omega arith))
write_loop_full (a ∷ answers) p n total sent e =
    let nil = append-nil sent in (some total, 0, ground arith, (e, omega arith))

write_loop-Sends :
    (answers : List Answer) (p : List ℕ) (n total : ℕ) (sent : List ℕ)
    → total ≤ n
    → n ≤ length p
    → IsMoving answers
    → n - total ≤ progress answers
    → Sends answers p n total sent
unfolding write_loop
write_loop-Sends [] p n total sent h l m enough = write_loop_full [] p n total sent (omega arith)
write_loop-Sends (interrupted ∷ answers) p n total sent h l m enough =
    elim (Bool-cases (ltb total n)) [
      | inr done ↦ write_loop_full (interrupted ∷ answers) p n total sent (ground arith)
      | inl more ↦
          let (r, j, e, result) = write_loop-Sends answers p n total sent h l m enough in
          (
            r,
            j,
            rw (more, write_loop) e,
            Result_later interrupted answers n n (total + j) (total + j) r refl refl (λ x. x)
                result,
          )
    ]
write_loop-Sends (fails ∷ answers) p n total sent h l m enough = elim (Bool-cases (ltb total n)) [
  | inr done ↦ write_loop_full (fails ∷ answers) p n total sent (ground arith)
  | inl more ↦ (
    none,
    0,
    rw (more, write_loop) (ap (λ bs. returned (none, bs)) (sym (append-nil sent))),
    (refl, omega arith),
  )
]
write_loop-Sends (moves k ∷ answers) p n total sent h l m enough = elim (Bool-cases (ltb total n)) [
  | inr done ↦ write_loop_full (moves k ∷ answers) p n total sent (ground arith)
  | inl more ↦
      let w = min k (n - total) in
      let t : total < n = ltb→lt total n more in
      let dl = length-drop total p in
      let (r, j, e, result) =
        write_loop-Sends answers p n (total + w) (sent ++ take w (drop total p)) (omega arith) l m.1
          (ground (arith, m.0)) in
      (
        r,
        w + j,
        rw (more, write_loop)
            (rw (read_bytes-at w (drop total p) (omega arith), write_loop)
              (e
                ∙ ap (λ bs. returned (r, bs))
                    (append_assoc sent (take w (drop total p)) (take j (drop (total + w) p))
                      ∙ ap (λ bs. sent ++ bs)
                          (ap (λ bs. take w (drop total p) ++ take j bs)
                              (sym (drop-add total w (total + w) p refl))
                            ∙ take-add w j (w + j) (drop total p) refl)))),
        Result_later (moves k) answers n n (total + w + j) (total + (w + j)) r refl (omega arith)
            (λ x. x) result,
      )
]

pub write_loop-Result :
    (answers : List Answer) (p : List ℕ) (n : ℕ)
    → n ≤ length p
    → IsMoving answers
    → n ≤ progress answers
    → (r : Option ℕ) × (j : ℕ) × (write_loop answers p n 0 [] ≡ returned (r, take j p))
      × Result answers n j r
write_loop-Result answers p n l m enough =
    let (r, j, e, result) = write_loop-Sends answers p n 0 [] (omega arith) l m (omega arith) in
    (r, j, e, Result_same answers n n (0 + j) j r refl (omega arith) result)
