-- ===== src/Scheduler/Told.antt =====
-- The end of the threads of runtime/src/scheduler.c: which threads have been told to stop.
use mathlib.Core.Path.{subst}
use picasso_lang.Base.{
  ℕ, zero, suc, ◌≡◌, refl, sym, ap, ◌∙◌, ◌⊎◌, inl, inr, ◌+◌, ◌-◌, ◌≤◌, ◌<◌, true, false, Option,
  none, some, List, [], ◌∷◌, ◌++◌, ◌==◌, if◌then◌else◌, Option-cases, List-cases, Bool-cases, arith,
  ℕ_discrete, ltb, ltb→lt, length, get_elem?, set,
}
use picasso_lang.Scheduler.{
  Stage, queued, asleep, ended, running, counted_off, destroyed, Pc, waiting, popped, runs, spawns,
  finished, destroys, delay, second_look, tells, gone, Shared, Choice, go, spawn, pause, block,
  finish, queue_at, push, set_stage, queue_task, pop_wait, run_task, act, create,
}
use picasso_lang.Scheduler.Places.{set_stage-queues}
use picasso_lang.Scheduler.Counts.{nulls_in, nulls_in-append}

-- After an action of thread i that brings it to pc': no queue has lost its NULLs, but the one of thread i may where
-- the thread returns.
abbrev pub NullsKept : ℕ → Pc → Shared → Shared → Type 0
NullsKept i pc' s s' =
    (j : ℕ)
    → 0 < nulls_in (queue_at s.queues j)
    → (0 < nulls_in (queue_at s'.queues j)) ⊎ ((j ≡ i) × (pc' ≡ gone))

queue_at-set :
    (qs : List (List (Option ℕ))) (k j : ℕ) (q : List (Option ℕ))
    → k < length qs
    → queue_at (set qs k q) j ≡ (if j == k then q else queue_at qs j)
queue_at-set [] k j q h = absurd (omega arith)
queue_at-set (p ∷ qs) zero zero q h = refl
queue_at-set (p ∷ qs) zero (suc j) q h = ground arith
queue_at-set (p ∷ qs) (suc k) zero q h = ground arith
queue_at-set (p ∷ qs) (suc k) (suc j) q h = ground (arith, queue_at-set qs k j q (omega arith))

set-out :
    (qs : List (List (Option ℕ))) (k : ℕ) (q : List (Option ℕ)) → length qs ≤ k → set qs k q ≡ qs
set-out [] k q h = refl
set-out (p ∷ qs) zero q h = absurd (omega arith)
set-out (p ∷ qs) (suc k) q h = ap (λ x. p ∷ x) (set-out qs k q (omega arith))

pub push-queue_at :
    (k j : ℕ) (o : Option ℕ) (s : Shared)
    → k < length s.queues
    → nulls_in (queue_at (push k o s).queues j)
      ≡ nulls_in (queue_at s.queues j) + (if j == k then nulls_in (o ∷ []) else 0)
unfolding push
push-queue_at k j o s h =
    let a = ap nulls_in (queue_at-set s.queues k j (queue_at s.queues k ++ (o ∷ [])) h) in
    let b = nulls_in-append (queue_at s.queues k) (o ∷ []) in
    elim (ℕ_discrete j k) [
      | yes same ↦ let c = ap (λ x. nulls_in (queue_at s.queues x)) same in ground arith
      | no ne ↦ ground arith
    ]

module _ (i : ℕ) (pc' : Pc) (s : Shared) where
  push-NullsKept : (k : ℕ) (o : Option ℕ) → NullsKept i pc' s (push k o s)
  unfolding push
  push-NullsKept k o j one = elim (Bool-cases (ltb k (length s.queues))) [
    | inl there ↦
        let a = push-queue_at k j o s (ltb→lt k (length s.queues) there) in inl (omega arith)
    | inr out ↦
        let same = set-out s.queues k (queue_at s.queues k ++ (o ∷ [])) (ground arith) in
        inl (rw same one)
  ]

  set_stage-NullsKept :
      (u : ℕ) (stage : Stage) (s1 : Shared)
      → NullsKept i pc' s s1
      → NullsKept i pc' s (set_stage u stage s1)
  set_stage-NullsKept u stage s1 kept j one =
      let (a, b) = set_stage-queues u stage s1 in
      elim (kept j one) [ inl more ↦ inl (rw a more) | inr out ↦ inr out ]

  same-NullsKept : NullsKept i pc' s s
  same-NullsKept j one = inl one

  pub queue_task-NullsKept : (n : ℕ) → NullsKept i pc' s (queue_task n s)
  unfolding queue_task
  queue_task-NullsKept n j one = elim (Option-cases (get_elem? s.tasks n)) [
    | inl missing ↦ rw (missing, queue_task) (inl one)
    | inr (task, at) ↦
        rw (at, queue_task)
          (set_stage-NullsKept n queued (push task.sched (some n) s)
            (push-NullsKept task.sched (some n)) j one)
  ]

  run_task-NullsKept :
      (t : ℕ) (c : Choice) (s' : Shared) → run_task t c s ≡ some (pc', s') → NullsKept i pc' s s'
  unfolding run_task create
  run_task-NullsKept t go s' e = absurd (ground arith)
  run_task-NullsKept t (spawn k) s' e = elim (Bool-cases (ltb k (length s.queues))) [
    | inr out ↦ absurd (ground arith)
    | inl there ↦
        let eq : create k s ≡ s' = ground arith in subst (NullsKept i pc' s) eq same-NullsKept
  ]
  run_task-NullsKept t pause s' e =
      let eq : queue_task t s ≡ s' = ground arith in
      subst (NullsKept i pc' s) eq (queue_task-NullsKept t)
  run_task-NullsKept t block s' e =
      let eq : set_stage t asleep s ≡ s' = ground arith in
      subst (NullsKept i pc' s) eq (set_stage-NullsKept t asleep s same-NullsKept)
  run_task-NullsKept t finish s' e =
      let eq : set_stage t ended s ≡ s' = ground arith in
      subst (NullsKept i pc' s) eq (set_stage-NullsKept t ended s same-NullsKept)

  pop_wait-NullsKept :
      (s' : Shared) → i < length s.queues → pop_wait i s ≡ some (pc', s') → NullsKept i pc' s s'
  unfolding pop_wait
  pop_wait-NullsKept s' h e j one = elim (List-cases (queue_at s.queues i)) [
    | inl n ↦ absurd (ground arith)
    | inr (none, rest, q) ↦
        let back : gone ≡ pc' = ground arith in
        let eq : s'.queues ≡ set s.queues i rest = ground arith in
        elim (ℕ_discrete j i) [
          | yes same ↦ inr (same, sym back)
          | no ne ↦
              let a = ap nulls_in (queue_at-set s.queues i j rest h) in
              let b = ap (λ qs. nulls_in (queue_at qs j)) eq in inl (ground arith)
        ]
    | inr (some u, rest, q) ↦
        let eq : s'.queues ≡ set s.queues i rest = ground arith in
        let a = ap nulls_in (queue_at-set s.queues i j rest h) in
        let b = ap (λ qs. nulls_in (queue_at qs j)) eq in
        let d = ap nulls_in q in
        elim (ℕ_discrete j i) [
          | yes same ↦ let c = ap (λ x. nulls_in (queue_at s.queues x)) same in inl (ground arith)
          | no ne ↦ inl (ground arith)
        ]
  ]

  same_state :
      (pc1 : Pc) (s1 s' : Shared)
      → ◌≡◌ {A = Option (Pc × Shared)} (some (pc1, s1)) (some (pc', s'))
      → NullsKept i pc' s s1
      → NullsKept i pc' s s'
  same_state pc1 s1 s' e kept = let eq : s1 ≡ s' = ground arith in subst (NullsKept i pc' s) eq kept

  pub act-NullsKept :
      (pc : Pc) (c : Choice) (s' : Shared)
      → i < length s.queues
      → act i pc c s ≡ some (pc', s')
      → NullsKept i pc' s s'
  unfolding act
  act-NullsKept waiting c s' h e = pop_wait-NullsKept s' h e
  act-NullsKept (popped t) c s' h e =
      same_state (runs t) (set_stage t running s) s' e
        (set_stage-NullsKept t running s same-NullsKept)
  act-NullsKept (runs t) c s' h e = run_task-NullsKept t c s' e
  act-NullsKept (spawns t n) c s' h e =
      same_state (runs t) (queue_task n s) s' e (queue_task-NullsKept n)
  act-NullsKept (finished t) c s' h e =
      let s1 : Shared = record s { task_count = s.task_count - 1 } in
      same_state (destroys t (s.task_count - 1 == 0)) (set_stage t counted_off s1) s' e
        (set_stage-NullsKept t counted_off s1 same-NullsKept)
  act-NullsKept (destroys t last) c s' h e =
      same_state (if last then delay else waiting) (set_stage t destroyed s) s' e
        (set_stage-NullsKept t destroyed s same-NullsKept)
  act-NullsKept delay c s' h e = same_state second_look s s' e same-NullsKept
  act-NullsKept second_look c s' h e =
      same_state (if s.task_count == 0 then tells 0 else waiting) s s' e same-NullsKept
  act-NullsKept (tells k) c s' h e = elim (Bool-cases (ltb k (length s.queues))) [
    | inl there ↦
        same_state (tells (suc k)) (push k none s) s' (ground arith) (push-NullsKept k none)
    | inr over ↦ same_state gone s s' (ground arith) same-NullsKept
  ]
  act-NullsKept gone c s' h e = absurd (ground arith)

-- How many threads have been told by a thread that is bound to tell all.
abbrev pub told_by : Pc → Option ℕ
told_by waiting = none
told_by (popped t) = none
told_by (runs t) = none
told_by (spawns t n) = none
told_by (finished t) = none
told_by (destroys t last) = if last then some 0 else none
told_by delay = some 0
told_by second_look = some 0
told_by (tells k) = some k
told_by gone = none

-- Such a thread goes on, tells another, or has told all.
abbrev pub Advances : ℕ → Pc → Shared → Shared → Type 0
Advances k pc' s s' =
    (told_by pc' ≡ some k)
    ⊎ (((told_by pc' ≡ some (suc k)) × (0 < nulls_in (queue_at s'.queues k)))
        ⊎ (length s.queues ≤ k))

pub act-Advances :
    (i k : ℕ) (pc pc' : Pc) (c : Choice) (s s' : Shared)
    → s.task_count ≡ 0
    → told_by pc ≡ some k
    → act i pc c s ≡ some (pc', s')
    → Advances k pc' s s'
unfolding act
act-Advances i k waiting pc' c s s' z on e = absurd (ground arith)
act-Advances i k (popped t) pc' c s s' z on e = absurd (ground arith)
act-Advances i k (runs t) pc' c s s' z on e = absurd (ground arith)
act-Advances i k (spawns t n) pc' c s s' z on e = absurd (ground arith)
act-Advances i k (finished t) pc' c s s' z on e = absurd (ground arith)
act-Advances i k (destroys t true) pc' c s s' z on e =
    let eq : delay ≡ pc' = ground arith in inl (sym (ap told_by eq) ∙ on)
act-Advances i k (destroys t false) pc' c s s' z on e = absurd (ground arith)
act-Advances i k delay pc' c s s' z on e =
    let eq : second_look ≡ pc' = ground arith in inl (sym (ap told_by eq) ∙ on)
act-Advances i k second_look pc' c s s' z on e =
    let eq : tells 0 ≡ pc' = ground arith in inl (sym (ap told_by eq) ∙ on)
act-Advances i k (tells n) pc' c s s' z on e = elim (Bool-cases (ltb n (length s.queues))) [
  | inr over ↦ inr (inr (ground arith))
  | inl there ↦
      let same : n ≡ k = ground arith in
      let eq : tells (suc n) ≡ pc' = ground arith in
      let eq' : push n none s ≡ s' = ground arith in
      let a = push-queue_at n n none s (ltb→lt n (length s.queues) there) in
      let more : 0 < nulls_in (queue_at (push n none s).queues n) = ground arith in
      inr (
        inl (
          sym (ap told_by eq) ∙ ap (λ x. some (suc x)) same,
          subst (λ x. 0 < nulls_in (queue_at s'.queues x)) same
              (subst (λ x. 0 < nulls_in (queue_at x.queues n)) eq' more),
        ))
]
act-Advances i k gone pc' c s s' z on e = absurd (ground arith)
