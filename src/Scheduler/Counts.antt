-- ===== src/Scheduler/Counts.antt =====
-- How many tasks of runtime/src/scheduler.c are still counted, and how many NULLs are on the queues.
use picasso_lang.Base.{
  ℕ, zero, suc, ◌≡◌, refl, ap, inl, inr, ◌+◌, ◌≤◌, ◌<◌, Option, none, some, List, [], ◌∷◌, ◌++◌,
  Option-cases, arith, length, get_elem?, set,
}
use picasso_lang.Base.Tasks.{sum, sum-set, get_elem?-set_cases}
use picasso_lang.Scheduler.{
  Stage, created, counted_off, destroyed, Task, Shared, queue_at, push, set_stage, create,
}
use picasso_lang.Scheduler.Places.{StageIs}

abbrev pub live : Stage → ℕ
live counted_off = 0
live destroyed = 0
live stage = 1

abbrev pub live_task : Task → ℕ
live_task task = live task.stage

-- The tasks that are still to be counted off.
abbrev pub total : Shared → ℕ
total s = sum live_task s.tasks

pub set_stage-total :
    (u : ℕ) (old new : Stage) (s : Shared)
    → StageIs u old s
    → total (set_stage u new s) + live old ≡ total s + live new
unfolding set_stage
set_stage-total u old new s (task, at, is) =
    let (a, b) =
      sum-set live_task (record { stage = destroyed; sched = 0 }) refl s.tasks u task
        (record task { stage = new }) at in
    let c : live task.stage ≡ live old = ap live is in rw (at, set_stage) (omega (arith, a, b, c))

sum-append : (f : Task → ℕ) (xs : List Task) (x : Task) → sum f (xs ++ (x ∷ [])) ≡ sum f xs + f x
sum-append f [] x = omega arith
sum-append f (y ∷ xs) x = omega (arith, sum-append f xs x)

pub create-total : (k : ℕ) (s : Shared) → total (create k s) ≡ total s + 1
unfolding create
create-total k s = sum-append live_task s.tasks (record { stage = created; sched = k })

pub stage-total : (u : ℕ) (stage : Stage) (s : Shared) → StageIs u stage s → live stage ≤ total s
stage-total u stage s is = let a = set_stage-total u stage destroyed s is in omega arith

-- Every task is of a thread that there is.
abbrev pub Scheds : Shared → Type 0
Scheds s = (t : ℕ) (task : Task) → get_elem? s.tasks t ≡ some task → task.sched < length s.queues

pub set_stage-Scheds :
    (u : ℕ) (stage : Stage) (s : Shared) → Scheds s → Scheds (set_stage u stage s)
unfolding set_stage
set_stage-Scheds u stage s is = elim (Option-cases (get_elem? s.tasks u)) [
  | inl n ↦ rw (n, set_stage) is
  | inr (old, e) ↦
      rw (e, set_stage)
        (λ t task at.
          elim (get_elem?-set_cases s.tasks u t (record old { stage = stage }) task at) [
            | inl (same, new) ↦ rw new (is u old e)
            | inr (ne, was) ↦ is t task was
          ])
]

abbrev pub nulls_in : List (Option ℕ) → ℕ
nulls_in [] = 0
nulls_in (none ∷ q) = suc (nulls_in q)
nulls_in (some t ∷ q) = nulls_in q

abbrev pub nulls : List (List (Option ℕ)) → ℕ
nulls [] = 0
nulls (q ∷ qs) = nulls_in q + nulls qs

pub nulls_in-append : (q r : List (Option ℕ)) → nulls_in (q ++ r) ≡ nulls_in q + nulls_in r
nulls_in-append [] r = omega arith
nulls_in-append (none ∷ q) r = omega (arith, nulls_in-append q r)
nulls_in-append (some t ∷ q) r = nulls_in-append q r

pub nulls-set :
    (qs : List (List (Option ℕ))) (k : ℕ) (q : List (Option ℕ))
    → k < length qs
    → nulls (set qs k q) + nulls_in (queue_at qs k) ≡ nulls qs + nulls_in q
nulls-set [] k q h = absurd (omega arith)
nulls-set (p ∷ qs) zero q h = omega arith
nulls-set (p ∷ qs) (suc k) q h = omega (arith, nulls-set qs k q (omega arith))

pub push-nulls :
    (k : ℕ) (o : Option ℕ) (s : Shared)
    → k < length s.queues
    → nulls (push k o s).queues ≡ nulls s.queues + nulls_in (o ∷ [])
unfolding push
push-nulls k o s h =
    let a = nulls-set s.queues k (queue_at s.queues k ++ (o ∷ [])) h in
    let b = nulls_in-append (queue_at s.queues k) (o ∷ []) in omega (arith, a, b)

pub pop-nulls :
    (k : ℕ) (o : Option ℕ) (rest : List (Option ℕ)) (qs : List (List (Option ℕ)))
    → k < length qs
    → queue_at qs k ≡ o ∷ rest
    → nulls qs ≡ nulls (set qs k rest) + nulls_in (o ∷ [])
pop-nulls k o rest qs h e =
    let a = nulls-set qs k rest h in
    let b = ap nulls_in e in let c = nulls_in-append (o ∷ []) rest in omega (arith, a, b, c)
