-- ===== src/Scheduler/Places.antt =====
-- Where the tasks of runtime/src/scheduler.c are: how often a task is on a queue or with a thread, by its stage.
use picasso_lang.Base.{
  ℕ, zero, suc, ◌≡◌, ◌≢◌, refl, sym, ap, ◌∙◌, inl, inr, ◌+◌, ◌≤◌, ◌<◌, true, false, Option, none,
  some, List, [], ◌∷◌, ◌++◌, ◌==◌, if◌then◌else◌, Option-cases, Bool-cases, arith, ℕ_discrete,
  length, get_elem?, set, get_elem?-set_self, get_elem?-set_ne,
}
use picasso_lang.Base.Tasks.{get_elem?-lt}
use picasso_lang.Scheduler.{
  Stage, created, queued, running, asleep, ended, counted_off, destroyed, Task, Pc, waiting, popped,
  runs, spawns, finished, destroys, delay, second_look, tells, gone, Shared, queue_at, push,
  set_stage, create,
}

abbrev pub stage_no : Stage → ℕ
stage_no created = 0
stage_no queued = 1
stage_no running = 2
stage_no asleep = 3
stage_no ended = 4
stage_no counted_off = 5
stage_no destroyed = 6

abbrev pub is_at : ℕ → Option Task → ℕ
is_at σ none = 0
is_at σ (some task) = if σ == stage_no task.stage then 1 else 0

abbrev pub both : ℕ → ℕ → ℕ → ℕ → ℕ
both σ k t u = if σ == k then (if t == u then 1 else 0) else 0

-- How often a thread has task t at the stage of number σ.
abbrev pub at_pc : ℕ → ℕ → Pc → ℕ
at_pc σ t waiting = 0
at_pc σ t (popped u) = both σ 1 t u
at_pc σ t (runs u) = both σ 2 t u
at_pc σ t (spawns u n) = both σ 2 t u + both σ 0 t n
at_pc σ t (finished u) = both σ 4 t u
at_pc σ t (destroys u last) = both σ 5 t u
at_pc σ t delay = 0
at_pc σ t second_look = 0
at_pc σ t (tells k) = 0
at_pc σ t gone = 0

abbrev pub count_queue : ℕ → List (Option ℕ) → ℕ
count_queue t [] = 0
count_queue t (none ∷ q) = count_queue t q
count_queue t (some u ∷ q) = (if t == u then 1 else 0) + count_queue t q

abbrev pub count_queues : ℕ → List (List (Option ℕ)) → ℕ
count_queues t [] = 0
count_queues t (q ∷ qs) = count_queue t q + count_queues t qs

abbrev pub in_queues : ℕ → ℕ → List (List (Option ℕ)) → ℕ
in_queues σ t qs = if σ == 1 then count_queues t qs else 0

count_queue-append :
    (t : ℕ) (q r : List (Option ℕ)) → count_queue t (q ++ r) ≡ count_queue t q + count_queue t r
count_queue-append t [] r = omega arith
count_queue-append t (none ∷ q) r = count_queue-append t q r
count_queue-append t (some u ∷ q) r = omega (arith, count_queue-append t q r)

pub count_queues-set :
    (t : ℕ) (qs : List (List (Option ℕ))) (k : ℕ) (q : List (Option ℕ))
    → k < length qs
    → count_queues t (set qs k q) + count_queue t (queue_at qs k)
      ≡ count_queues t qs + count_queue t q
count_queues-set t [] k q h = absurd (omega arith)
count_queues-set t (p ∷ qs) zero q h = omega arith
count_queues-set t (p ∷ qs) (suc k) q h = omega (arith, count_queues-set t qs k q (omega arith))

pub push-count :
    (t k : ℕ) (o : Option ℕ) (s : Shared)
    → k < length s.queues
    → count_queues t (push k o s).queues ≡ count_queues t s.queues + count_queue t (o ∷ [])
unfolding push
push-count t k o s h =
    let a = count_queues-set t s.queues k (queue_at s.queues k ++ (o ∷ [])) h in
    let b = count_queue-append t (queue_at s.queues k) (o ∷ []) in omega (arith, a, b)

-- The stage of a task changes.
pub set_stage-is_at :
    (σ t u : ℕ) (stage : Stage) (s : Shared) (task : Task)
    → get_elem? s.tasks u ≡ some task
    → is_at σ (get_elem? (set_stage u stage s).tasks t)
      ≡ (if t == u then (if σ == stage_no stage then 1 else 0) else is_at σ (get_elem? s.tasks t))
unfolding set_stage
set_stage-is_at σ t u stage s task at = elim (ℕ_discrete u t) [
  | yes same ↦
      let self =
        get_elem?-set_self s.tasks u (record task { stage = stage })
          (get_elem?-lt s.tasks u task at) in
      let eq : (t == u) ≡ true = ground arith in
      rw (at, set_stage) (rw eq (rw (sym same) (rw self refl)))
  | no ne ↦
      let other = get_elem?-set_ne s.tasks (record task { stage = stage }) ne in
      let eq : (t == u) ≡ false = ground arith in rw (at, set_stage) (rw eq (rw other refl))
]

pub set_stage-queues :
    (u : ℕ) (stage : Stage) (s : Shared)
    → ((set_stage u stage s).queues ≡ s.queues) × ((set_stage u stage s).task_count ≡ s.task_count)
unfolding set_stage
set_stage-queues u stage s = elim (Option-cases (get_elem? s.tasks u)) [
  | inl n ↦ rw (n, set_stage) (refl, refl)
  | inr (task, e) ↦ rw (e, set_stage) (refl, refl)
]

pub get_elem?-append :
    (ts : List Task) (x : Task) (t : ℕ)
    → get_elem? (ts ++ (x ∷ [])) t ≡ (if t == length ts then some x else get_elem? ts t)
get_elem?-append [] x zero = refl
get_elem?-append [] x (suc t) = ground arith
get_elem?-append (y ∷ ts) x zero = ground arith
get_elem?-append (y ∷ ts) x (suc t) = ground (arith, get_elem?-append ts x t)

get_elem?-none : (ts : List Task) (t : ℕ) → length ts ≤ t → get_elem? ts t ≡ none
get_elem?-none [] t h = refl
get_elem?-none (x ∷ ts) zero h = absurd (omega arith)
get_elem?-none (x ∷ ts) (suc t) h = get_elem?-none ts t (omega arith)

pub create-is_at :
    (σ t k : ℕ) (s : Shared)
    → is_at σ (get_elem? (create k s).tasks t)
      ≡ both σ 0 t (length s.tasks) + is_at σ (get_elem? s.tasks t)
unfolding create
create-is_at σ t k s =
    let a = get_elem?-append s.tasks (record { stage = created; sched = k }) t in
    elim (Bool-cases (t == length s.tasks)) [
      | inl new ↦
          let b = get_elem?-none s.tasks t (ground arith) in rw a (rw (new, b) (ground arith))
      | inr old ↦ rw a (rw old (ground arith))
    ]

-- The changes, as sums: of a stage, of the queues, and of a queue whose head is taken.
abbrev pub StageIs : ℕ → Stage → Shared → Type 0
StageIs u stage s = (task : Task) × (get_elem? s.tasks u ≡ some task) × (task.stage ≡ stage)

pub set_stage-shift :
    (σ t u : ℕ) (old new : Stage) (s : Shared)
    → StageIs u old s
    → is_at σ (get_elem? (set_stage u new s).tasks t) + both σ (stage_no old) t u
      ≡ is_at σ (get_elem? s.tasks t) + both σ (stage_no new) t u
set_stage-shift σ t u old new s (task, at, is) =
    let a = set_stage-is_at σ t u new s task at in
    elim (ℕ_discrete t u) [
      | yes same ↦
          let eq : (t == u) ≡ true = ground arith in
          let b : is_at σ (get_elem? s.tasks t) ≡ (if σ == stage_no old then 1 else 0) =
            ap (λ x. is_at σ (get_elem? s.tasks x)) same
            ∙ ap (is_at σ) at
            ∙ ap (λ x. if σ == stage_no x then 1 else 0) is in
          rw (a, b) (rw eq (ground arith))
      | no ne ↦ let eq : (t == u) ≡ false = ground arith in rw a (rw eq (ground arith))
    ]

pub push-shift :
    (σ t k u : ℕ) (s : Shared)
    → k < length s.queues
    → in_queues σ t (push k (some u) s).queues ≡ in_queues σ t s.queues + both σ 1 t u
push-shift σ t k u s h = let a = push-count t k (some u) s h in ground arith

pub push_null-shift :
    (σ t k : ℕ) (s : Shared)
    → k < length s.queues
    → in_queues σ t (push k none s).queues ≡ in_queues σ t s.queues
push_null-shift σ t k s h = let a = push-count t k none s h in ground arith

pub pop-shift :
    (σ t k : ℕ) (o : Option ℕ) (rest : List (Option ℕ)) (qs : List (List (Option ℕ)))
    → k < length qs
    → queue_at qs k ≡ o ∷ rest
    → in_queues σ t qs
      ≡ in_queues σ t (set qs k rest) + (if σ == 1 then count_queue t (o ∷ []) else 0)
pop-shift σ t k o rest qs h e =
    let a = count_queues-set t qs k rest h in
    let b = ap (count_queue t) e in let c = count_queue-append t (o ∷ []) rest in ground arith

pub both_not : (σ k t u : ℕ) → σ ≢ k → both σ k t u ≡ 0
both_not σ k t u ne = ground arith
