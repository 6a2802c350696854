-- ===== src/Base/Tasks.antt =====
-- Tasks or threads by their numbers, each at a point of the functions that it runs (as in runtime/src/sync.c and
-- runtime/src/gc.c): sums over the points, and what a step of one task does to them.
use picasso_lang.Base.{
  ℕ, zero, suc, ◌≡◌, ◌≢◌, refl, ap, ◌⊎◌, inl, inr, ◌+◌, ◌≤◌, some, List, [], ◌∷◌, arith, get_elem?,
  set, replicate, length, ◌<◌, ◌++◌, ◌==◌, if◌then◌else◌,
}

module _ {Pc : Type 0} where
  abbrev pub sum : (Pc → ℕ) → List Pc → ℕ
  sum f [] = 0
  sum f (pc ∷ pcs) = f pc + sum f pcs

  pub sum-set :
      (f : Pc → ℕ) (idle : Pc)
      → f idle ≡ 0
      → (pcs : List Pc) (i : ℕ) (pc pc' : Pc) → get_elem? pcs i ≡ some pc
      → (sum f pcs ≡ sum f (set pcs i idle) + f pc)
        × (sum f (set pcs i pc') ≡ sum f (set pcs i idle) + f pc')
  sum-set f idle z [] i pc pc' e = ground arith
  sum-set f idle z (p ∷ pcs) zero pc pc' e = ground arith
  sum-set f idle z (p ∷ pcs) (suc i) pc pc' e = ground (arith, sum-set f idle z pcs i pc pc' e)

  pub sum-idle : (f : Pc → ℕ) (idle : Pc) → f idle ≡ 0 → (n : ℕ) → sum f (replicate n idle) ≡ 0
  sum-idle f idle z zero = refl
  sum-idle f idle z (suc n) = omega (arith, sum-idle f idle z n)

  pub sum-le :
      (f : Pc → ℕ) (pcs : List Pc) (i : ℕ) (pc : Pc) → get_elem? pcs i ≡ some pc → f pc ≤ sum f pcs
  sum-le f [] i pc e = absurd (ground arith)
  sum-le f (p ∷ pcs) zero pc e = ground arith
  sum-le f (p ∷ pcs) (suc i) pc e = omega (arith, sum-le f pcs i pc e)

  pub sum-le₂ :
      (f : Pc → ℕ) (pcs : List Pc) (i j : ℕ) (p q : Pc)
      → i ≢ j
      → get_elem? pcs i ≡ some p
      → get_elem? pcs j ≡ some q
      → f p + f q ≤ sum f pcs
  sum-le₂ f [] i j p q ne e g = absurd (ground arith)
  sum-le₂ f (c ∷ pcs) zero zero p q ne e g = absurd (ne refl)
  sum-le₂ f (c ∷ pcs) zero (suc j) p q ne e g = ground (arith, sum-le f pcs j q g)
  sum-le₂ f (c ∷ pcs) (suc i) zero p q ne e g = ground (arith, sum-le f pcs i p e)
  sum-le₂ f (c ∷ pcs) (suc i) (suc j) p q ne e g =
      omega (arith, sum-le₂ f pcs i j p q (λ s. ne (ap suc s)) e g)

  -- The tasks after a step: the one that took it, and the others as they were.
  pub get_elem?-set_cases :
      (pcs : List Pc) (i j : ℕ) (pc' q : Pc)
      → get_elem? (set pcs i pc') j ≡ some q
      → ((j ≡ i) × (q ≡ pc')) ⊎ ((j ≢ i) × (get_elem? pcs j ≡ some q))
  get_elem?-set_cases [] i j pc' q e = absurd (ground arith)
  get_elem?-set_cases (p ∷ pcs) zero zero pc' q e = inl (refl, ground arith)
  get_elem?-set_cases (p ∷ pcs) zero (suc j) pc' q e = inr (omega arith, e)
  get_elem?-set_cases (p ∷ pcs) (suc i) zero pc' q e = inr (omega arith, e)
  get_elem?-set_cases (p ∷ pcs) (suc i) (suc j) pc' q e =
      ground (arith, get_elem?-set_cases pcs i j pc' q e)

  pub get_elem?-lt : (pcs : List Pc) (i : ℕ) (pc : Pc) → get_elem? pcs i ≡ some pc → i < length pcs
  get_elem?-lt [] i pc e = absurd (ground arith)
  get_elem?-lt (p ∷ pcs) zero pc e = omega arith
  get_elem?-lt (p ∷ pcs) (suc i) pc e = omega (arith, get_elem?-lt pcs i pc e)

-- How often a task is on a queue.
abbrev pub count : ℕ → List ℕ → ℕ
count i [] = 0
count i (j ∷ js) = (if i == j then 1 else 0) + count i js

pub count-append : (i : ℕ) (xs ys : List ℕ) → count i (xs ++ ys) ≡ count i xs + count i ys
count-append i [] ys = omega arith
count-append i (x ∷ xs) ys = omega (arith, count-append i xs ys)
