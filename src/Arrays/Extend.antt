-- ===== src/Arrays/Extend.antt =====
-- `__public__extend_array` of runtime/src/array.c keeps the elements and finds room.
use picasso_lang.Base.{
  ℕ, zero, suc, ◌≡◌, refl, sym, ap, ◌∙◌, ◌⊎◌, inl, inr, ◌+◌, ◌-◌, ◌*◌, ◌≤◌, ◌<◌, false, some, List,
  [], ◌∷◌, ◌++◌, ◌==◌, ltb, leb, if◌then◌else◌, Bool-cases, arith, length, length-append,
  length-take, length-drop, take, drop,
}
use native.Mathlib.Nat.{mul-le-mul_right}
use picasso_lang.Text.Ops.Content.{read_bytes-at}
use picasso_lang.Arrays.{Header, extend_array}

-- The memory of the data is that of the capacity, and the elements are within it.
pub record IsRoomy (h : Header) (b : List ℕ) : Type 0 where
  pub within : h.length ≤ h.capacity
  pub memory : length b ≡ h.capacity * h.elem_size

take-take : (n : ℕ) (xs ys : List ℕ) → n ≤ length xs → take n (take n xs ++ ys) ≡ take n xs
take-take zero xs ys h = refl
take-take (suc n) [] ys h = absurd (omega arith)
take-take (suc n) (x ∷ xs) ys h = ap (λ ws. x ∷ ws) (take-take n xs ys (omega arith))

-- With memory for the capacity, elements that are not empty, and new memory of the size that is asked for,
-- `__public__extend_array` succeeds: the length is one more, the elements that there were are as they were, there is
-- again memory for the capacity and the length is within it; the capacity is kept where there is room, and otherwise
-- doubled (or 1).
pub extend_array-IsRoomy :
    (fresh : ℕ → List ℕ) (h : Header) (b : List ℕ)
    → ((n : ℕ) → length (fresh n) ≡ n)
    → 0 < h.elem_size
    → IsRoomy h b
    → (h' : Header) × (b' : List ℕ) × (extend_array fresh h b ≡ some (h', b'))
      × IsRoomy h' b'
      × (h'.length ≡ h.length + 1)
      × (take (h.length * h.elem_size) b' ≡ take (h.length * h.elem_size) b)
      × ((h'.capacity ≡ h.capacity)
          ⊎ ((h.length ≡ h.capacity)
              × (h'.capacity ≡ (if ltb 0 h.capacity then h.capacity * 2 else 1))))
unfolding extend_array
extend_array-IsRoomy fresh h b sized positive is =
    elim (Bool-cases (leb (h.length + 1) h.capacity)) [
      | inl room ↦ (
        record h { length = h.length + 1 },
        b,
        rw (room, extend_array) refl,
        record { within = ground arith; memory = is.memory },
        refl,
        refl,
        inl refl,
      )
      | inr full ↦
          let e = h.elem_size in
          let new_cap = if ltb 0 h.capacity then h.capacity * 2 else 1 in
          let at_end : h.length ≡ h.capacity = (let a = is.within in ground arith) in
          let grown : h.length + 1 ≤ new_cap = ground arith in
          let n = h.length * e in
          let n_memory : n ≡ length b = ap (λ x. x * e) at_end ∙ sym is.memory in
          let bound : n ≤ new_cap * e = mul-le-mul_right e (omega arith) in
          let one_more : 1 * e ≤ new_cap * e = mul-le-mul_right e (omega arith) in
          let some_memory : (new_cap * e == 0) ≡ false = ground arith in
          let same_n : (h.length + 1 - 1) * e ≡ n = ap (λ x. x * e) (omega arith) in
          let lt = length-take n b in
          let ld = length-drop n (fresh (new_cap * e)) in
          let la = length-append (take n b) (drop n (fresh (new_cap * e))) in
          let ls = sized (new_cap * e) in
          (
            record h { length = h.length + 1; capacity = new_cap },
            take n b ++ drop n (fresh (new_cap * e)),
            rw (full, extend_array)
                (rw (some_memory, extend_array)
                  (rw same_n
                    (rw (read_bytes-at n b (omega arith), extend_array) (rw same_n refl)))),
            record { within = grown; memory = omega arith },
            refl,
            take-take n b (drop n (fresh (new_cap * e))) (omega arith),
            inr (at_end, refl),
          )
    ]
