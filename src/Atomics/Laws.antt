-- ===== src/Atomics/Laws.antt =====
-- What sequences of calls on one cell of runtime/src/atomics.c do.
use native.Mathlib.Nat.{mod-lt, mod-eq_of_lt, mod-add-mod, add-mod_right, one-le-pow}
use picasso_lang.Base.{
  ℕ, ◌≡◌, ◌≢◌, refl, sym, ap, ◌∙◌, ◌+◌, ◌-◌, ◌%◌, ◌^◌, ◌<◌, true, false, List, [], ◌∷◌, map, arith,
  ◌==◌,
}
use picasso_lang.Atomics.{
  Result, void, value, swapped, store, load, exchange, cas, Op, plain, add, sub, and_bits, or_bits,
  xor_bits, exec_plain, exec, exec_all,
}
use picasso_lang.Atomics.Bits.{bit_and_lt, bit_or_lt, bit_xor_lt}

-- The operands of a call fit in `w` bits.
abbrev pub Fits : ℕ → Op → Type 0
Fits w (plain (store val)) = val < 2 ^ w
Fits w (plain load) = Unit
Fits w (plain (exchange val)) = val < 2 ^ w
Fits w (plain (cas expected desired)) = (expected < 2 ^ w) × (desired < 2 ^ w)
Fits w (add val) = val < 2 ^ w
Fits w (sub val) = val < 2 ^ w
Fits w (and_bits val) = val < 2 ^ w
Fits w (or_bits val) = val < 2 ^ w
Fits w (xor_bits val) = val < 2 ^ w

abbrev pub AllFit : ℕ → List Op → Type 0
AllFit w [] = Unit
AllFit w (op ∷ ops) = Fits w op × AllFit w ops

-- A value that a call returns fits in `w` bits.
abbrev pub ResultFits : ℕ → Result → Type 0
ResultFits w void = Unit
ResultFits w (value v) = v < 2 ^ w
ResultFits w (swapped b) = Unit

abbrev pub AllResultsFit : ℕ → List Result → Type 0
AllResultsFit w [] = Unit
AllResultsFit w (r ∷ rs) = ResultFits w r × AllResultsFit w rs

mod_lt : (w a : ℕ) → a % 2 ^ w < 2 ^ w
mod_lt w a = mod-lt a (one-le-pow w 2 (omega arith))

exec-Fits :
    (w : ℕ) (op : Op) (cell : ℕ)
    → Fits w op
    → cell < 2 ^ w
    → ((exec w op cell).0 < 2 ^ w) × ResultFits w (exec w op cell).1
unfolding exec exec_plain
exec-Fits w (plain (store val)) cell fit l = (fit, tt)
exec-Fits w (plain load) cell fit l = (l, l)
exec-Fits w (plain (exchange val)) cell fit l = (fit, l)
exec-Fits w (plain (cas expected desired)) cell fit l = ground arith
exec-Fits w (add val) cell fit l = (mod_lt w (cell + val), l)
exec-Fits w (sub val) cell fit l = (mod_lt w (cell + (2 ^ w - val)), l)
exec-Fits w (and_bits val) cell fit l = (bit_and_lt w cell val l fit, l)
exec-Fits w (or_bits val) cell fit l = (bit_or_lt w cell val l fit, l)
exec-Fits w (xor_bits val) cell fit l = (bit_xor_lt w cell val l fit, l)

-- However many calls of whatever kind are made on a cell of `w` bits, if the cell and the operands fit in
-- `w` bits then so do the cell afterwards and all the values returned.
pub exec_all-Fits :
    (ops : List Op) (w cell : ℕ)
    → AllFit w ops
    → cell < 2 ^ w
    → ((exec_all w ops cell).0 < 2 ^ w) × AllResultsFit w (exec_all w ops cell).1
unfolding exec_all
exec_all-Fits [] w cell fit l = (l, tt)
exec_all-Fits (op ∷ ops) w cell fit l =
    let (l1, r) = exec-Fits w op cell fit.0 l in
    let (l2, rs) = exec_all-Fits ops w (exec w op cell).0 fit.1 l1 in (l2, (r, rs))

-- The calls of two tasks, each in its order, as one list.
pub data Merge : List ℕ → List ℕ → List ℕ → Type 0 where
  stop : Merge [] [] []
  from_left : {x : ℕ} {xs ys zs : List ℕ} → Merge xs ys zs → Merge (x ∷ xs) ys (x ∷ zs)
  from_right : {y : ℕ} {xs ys zs : List ℕ} → Merge xs ys zs → Merge xs (y ∷ ys) (y ∷ zs)

abbrev pub total : List ℕ → ℕ
total [] = 0
total (x ∷ xs) = x + total xs

total-Merge : {xs ys zs : List ℕ} → Merge xs ys zs → total zs ≡ total xs + total ys
total-Merge stop = refl
total-Merge (from_left m) = omega (arith, total-Merge m)
total-Merge (from_right m) = omega (arith, total-Merge m)

adds-total :
    (w : ℕ) (vs : List ℕ) (cell : ℕ)
    → cell < 2 ^ w
    → (exec_all w (map add vs) cell).0 ≡ (cell + total vs) % 2 ^ w
unfolding exec_all exec
adds-total w [] cell l =
    let none : cell + 0 ≡ cell = omega arith in sym (ap (λ c. c % 2 ^ w) none ∙ mod-eq_of_lt l)
adds-total w (v ∷ vs) cell l =
    adds-total w vs ((cell + v) % 2 ^ w) (mod_lt w (cell + v))
    ∙ mod-add-mod (cell + v) (2 ^ w) (total vs)
    ∙ ap (λ c. c % 2 ^ w) (omega arith)

-- However the additions of two tasks are interleaved, no addition is lost: the cell ends as the sum of its
-- first value and all the operands, modulo 2 ^ w.
pub adds-Merge :
    (w : ℕ) {xs ys zs : List ℕ} (cell : ℕ)
    → cell < 2 ^ w
    → Merge xs ys zs
    → (exec_all w (map add zs) cell).0 ≡ (cell + (total xs + total ys)) % 2 ^ w
adds-Merge w {zs = zs} cell l m =
    adds-total w zs cell l ∙ ap (λ t. (cell + t) % 2 ^ w) (total-Merge m)

-- A subtraction of the value just added, of less than 2 ^ w, restores the cell.
pub sub-add :
    (w val cell : ℕ)
    → val < 2 ^ w
    → cell < 2 ^ w
    → exec_all w (add val ∷ sub val ∷ []) cell
      ≡ (cell, value cell ∷ value ((cell + val) % 2 ^ w) ∷ [])
unfolding exec_all exec
sub-add w val cell lv lc =
    let back : cell + val + (2 ^ w - val) ≡ cell + 2 ^ w = omega arith in
    ap (λ c. (c, value cell ∷ value ((cell + val) % 2 ^ w) ∷ []))
      (mod-add-mod (cell + val) (2 ^ w) (2 ^ w - val)
        ∙ ap (λ c. c % 2 ^ w) back
        ∙ add-mod_right cell (2 ^ w)
        ∙ mod-eq_of_lt lc)

abbrev pub swaps : ℕ → List ℕ → List Op
swaps expected = map (λ desired. plain (cas expected desired))

swaps-fail :
    (w expected : ℕ) (ds : List ℕ) (cell : ℕ)
    → cell ≢ expected
    → exec_all w (swaps expected ds) cell ≡ (cell, map (λ d. swapped false) ds)
unfolding exec_all exec exec_plain
swaps-fail w expected [] cell ne = refl
swaps-fail w expected (d ∷ ds) cell ne =
    let miss : (cell == expected) ≡ false = ground arith in
    simp (miss, swaps-fail w expected ds cell ne)

-- Of any number of tasks that try to swap the same expected value for values of their own, the first that
-- gets to the cell succeeds, if the cell has that value and the task's own value is another, and no other
-- does: the cell ends with the first task's value.
pub swaps_race :
    (w expected first : ℕ) (ds : List ℕ)
    → first ≢ expected
    → exec_all w (swaps expected (first ∷ ds)) expected
      ≡ (first, swapped true ∷ map (λ d. swapped false) ds)
unfolding exec_all exec exec_plain
swaps_race w expected first ds ne =
    let hit : (expected == expected) ≡ true = ground arith in
    simp (hit, swaps-fail w expected ds first ne)
