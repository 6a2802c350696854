-- ===== src/Scheduler/Ending.antt =====
-- The end of the threads of runtime/src/scheduler.c: once no task is counted, each thread is told to stop.
use mathlib.Core.Path.{subst}
use picasso_lang.Base.{
  ℕ, suc, ◌≡◌, ◌≢◌, refl, sym, ap, ◌∙◌, ◌⊎◌, inl, inr, ◌-◌, ◌<◌, true, Option, none, some, List,
  ◌==◌, Option-cases, List-cases, Bool-cases, arith, ℕ_discrete, ltb, length, get_elem?, set,
  get_elem?-set_self, get_elem?-set_ne,
}
use picasso_lang.Base.Tasks.{get_elem?-lt}
use picasso_lang.Scheduler.{
  queued, asleep, ended, running, counted_off, destroyed, Pc, waiting, popped, runs, spawns,
  finished, destroys, delay, second_look, tells, gone, Shared, Choice, go, spawn, pause, block,
  finish, queue_at, push, queue_task, pop_wait, run_task, act, World, Event, create, thread, wakes,
  step, start, Reach, here, next,
}
use picasso_lang.Scheduler.Places.{set_stage-queues}
use picasso_lang.Scheduler.Counts.{nulls_in}
use picasso_lang.Scheduler.Sound.{push-length}
use picasso_lang.Scheduler.Placed.{IsPlaced, thread_step_cases, thread_step-IsKept}
use picasso_lang.Scheduler.Ends.{step-IsPlaced, start-IsPlaced, wake_step_cases}
use picasso_lang.Scheduler.Told.{queue_task-NullsKept, act-NullsKept, told_by, act-Advances}

-- Thread j has returned or has a NULL on its queue.
abbrev pub Told : World → ℕ → Type 0
Told w j = (get_elem? w.pcs j ≡ some gone) ⊎ (0 < nulls_in (queue_at w.shared.queues j))

-- Where no task is counted, all threads have been told, or a thread is on the way to tell them.
abbrev pub Ending : World → Type 0
Ending w =
    ((i : ℕ) × (pc : Pc) × (k : ℕ) × (get_elem? w.pcs i ≡ some pc)
      × (told_by pc ≡ some k)
      × ((j : ℕ) → j < k → Told w j))
    ⊎ ((j : ℕ) → j < length w.shared.queues → Told w j)

module _ (w : World) (i : ℕ) (pc pc' : Pc) (c : Choice) (s' : Shared)
    (at : get_elem? w.pcs i ≡ some pc) (h : i < length w.shared.queues)
    (e : act i pc c w.shared ≡ some (pc', s')) where
  step-Told : (j : ℕ) → Told w j → Told (record { pcs = set w.pcs i pc'; shared = s' }) j
  unfolding act
  step-Told j (inl back) = elim (ℕ_discrete i j) [
    | yes same ↦
        let eq : pc ≡ gone = let b = ap (get_elem? w.pcs) same in ground arith in
        let e' = subst (λ p. act i p c w.shared ≡ some (pc', s')) eq e in absurd (ground arith)
    | no ne ↦ inl (get_elem?-set_ne w.pcs pc' ne ∙ back)
  ]
  step-Told j (inr one) = elim (act-NullsKept i pc' w.shared pc c s' h e j one) [
    | inl more ↦ inr more
    | inr (same, back) ↦ inl (
        ap (get_elem? (set w.pcs i pc')) same
        ∙ get_elem?-set_self w.pcs i pc' (get_elem?-lt w.pcs i pc at)
        ∙ ap (λ x. some x) back)
  ]

push-count : (k : ℕ) (o : Option ℕ) (s : Shared) → (push k o s).task_count ≡ s.task_count
unfolding push
push-count k o s = refl

queue_task-count : (n : ℕ) (s : Shared) → (queue_task n s).task_count ≡ s.task_count
unfolding queue_task
queue_task-count n s = elim (Option-cases (get_elem? s.tasks n)) [
  | inl missing ↦ rw (missing, queue_task) refl
  | inr (task, at) ↦
      rw (at, queue_task)
        ((set_stage-queues n queued (push task.sched (some n) s)).1
          ∙ push-count task.sched (some n) s)
]

queue_task-length : (n : ℕ) (s : Shared) → length (queue_task n s).queues ≡ length s.queues
unfolding queue_task
queue_task-length n s = elim (Option-cases (get_elem? s.tasks n)) [
  | inl missing ↦ rw (missing, queue_task) refl
  | inr (task, at) ↦
      rw (at, queue_task)
        (ap (λ (qs : List (List (Option ℕ))). length qs)
            (set_stage-queues n queued (push task.sched (some n) s)).0
          ∙ push-length task.sched (some n) s)
]

-- The count reaches 0 where a task is counted off, and its thread is then on the way.
act-last :
    (i : ℕ) (pc pc' : Pc) (c : Choice) (s s' : Shared)
    → s.task_count ≢ 0
    → s'.task_count ≡ 0
    → act i pc c s ≡ some (pc', s')
    → told_by pc' ≡ some 0
unfolding act pop_wait run_task create
act-last i waiting pc' c s s' ne z e = elim (List-cases (queue_at s.queues i)) [
  | inl n ↦ absurd (ground arith)
  | inr (none, rest, q) ↦ absurd (ground arith)
  | inr (some u, rest, q) ↦ absurd (ground arith)
]
act-last i (popped t) pc' c s s' ne z e =
    let (a, b) = set_stage-queues t running s in absurd (ground arith)
act-last i (runs t) pc' go s s' ne z e = absurd (ground arith)
act-last i (runs t) pc' (spawn k) s s' ne z e = elim (Bool-cases (ltb k (length s.queues))) [
  | inl there ↦ absurd (ground arith)
  | inr out ↦ absurd (ground arith)
]
act-last i (runs t) pc' pause s s' ne z e = let a = queue_task-count t s in absurd (ground arith)
act-last i (runs t) pc' block s s' ne z e =
    let (a, b) = set_stage-queues t asleep s in absurd (ground arith)
act-last i (runs t) pc' finish s s' ne z e =
    let (a, b) = set_stage-queues t ended s in absurd (ground arith)
act-last i (spawns t n) pc' c s s' ne z e = let a = queue_task-count n s in absurd (ground arith)
act-last i (finished t) pc' c s s' ne z e =
    let (a, b) = set_stage-queues t counted_off (record s { task_count = s.task_count - 1 }) in
    let eq : destroys t (s.task_count - 1 == 0) ≡ pc' = ground arith in
    let last : (s.task_count - 1 == 0) ≡ true = ground arith in
    sym (ap told_by eq) ∙ ap (λ b. told_by (destroys t b)) last
act-last i (destroys t last) pc' c s s' ne z e =
    let (a, b) = set_stage-queues t destroyed s in absurd (ground arith)
act-last i delay pc' c s s' ne z e = absurd (ground arith)
act-last i second_look pc' c s s' ne z e = absurd (ground arith)
act-last i (tells k) pc' c s s' ne z e = elim (Bool-cases (ltb k (length s.queues))) [
  | inl there ↦ absurd (let a = push-count k none s in ground arith)
  | inr over ↦ absurd (ground arith)
]
act-last i gone pc' c s s' ne z e = absurd (ground arith)

abbrev pub IsEnding : World → Type 0
IsEnding w = w.shared.task_count ≡ 0 → Ending w

some_pc :
    (w : World) (i : ℕ) (p q : Pc) → get_elem? w.pcs i ≡ some p → get_elem? w.pcs i ≡ some q → p ≡ q
some_pc w i p q e g = ground arith

module _ (w : World) (i : ℕ) (pc pc' : Pc) (c : Choice) (s' : Shared)
    (at : get_elem? w.pcs i ≡ some pc) (h : i < length w.shared.queues)
    (e : act i pc c w.shared ≡ some (pc', s'))
    (threads : length s'.queues ≡ length w.shared.queues) where
  at_i : get_elem? (set w.pcs i pc') i ≡ some pc'
  at_i = get_elem?-set_self w.pcs i pc' (get_elem?-lt w.pcs i pc at)

  on_the_way :
      (k : ℕ)
      → w.shared.task_count ≡ 0
      → told_by pc ≡ some k
      → ((j : ℕ) → j < k → Told w j)
      → Ending (record { pcs = set w.pcs i pc'; shared = s' })
  on_the_way k z on told =
      let kept = λ (j : ℕ) (t : Told w j). step-Told w i pc pc' c s' at h e j t in
      elim (act-Advances i k pc pc' c w.shared s' z on e) [
        | inl same ↦ inl (i, pc', k, at_i, same, λ j less. kept j (told j less))
        | inr (inl (more, one)) ↦ inl (
          i,
          pc',
          suc k,
          at_i,
          more,
          λ j less. elim (ℕ_discrete j k) [
            | yes new ↦ inr (subst (λ x. 0 < nulls_in (queue_at s'.queues x)) (sym new) one)
            | no ne ↦ kept j (told j (omega arith))
          ],
        )
        | inr (inr over) ↦ inr (λ j less. kept j (told j (omega arith)))
      ]

  thread-IsEnding : IsEnding w → IsEnding (record { pcs = set w.pcs i pc'; shared = s' })
  thread-IsEnding is z' = elim (ℕ_discrete w.shared.task_count 0) [
    | no ne ↦
        inl
          (i, pc', 0, at_i, act-last i pc pc' c w.shared s' ne z' e, λ j less. absurd (omega arith))
    | yes z ↦ elim (is z) [
      | inr all ↦ inr (λ j less. step-Told w i pc pc' c s' at h e j (all j (omega arith)))
      | inl (a, pca, k, ata, on, told) ↦ elim (ℕ_discrete i a) [
        | yes same ↦
            let eq : pca ≡ pc = some_pc w i pca pc (ap (get_elem? w.pcs) same ∙ ata) at in
            on_the_way k z (sym (ap told_by eq) ∙ on) told
        | no ne ↦ inl (
          a,
          pca,
          k,
          get_elem?-set_ne w.pcs pc' ne ∙ ata,
          on,
          λ j less. step-Told w i pc pc' c s' at h e j (told j less),
        )
      ]
    ]
  ]

wakes-IsEnding :
    (t : ℕ) (w : World)
    → length (queue_task t w.shared).queues ≡ length w.shared.queues
    → IsEnding w
    → IsEnding (record w { shared = queue_task t w.shared })
wakes-IsEnding t w same is z' =
    let kept : (j : ℕ) → Told w j → Told (record w { shared = queue_task t w.shared }) j = λ j told.
      elim told [
        | inl back ↦ inl back
        | inr one ↦ elim (queue_task-NullsKept j waiting w.shared t j one) [
          | inl more ↦ inr more
          | inr (_, back) ↦ absurd (ground arith)
        ]
      ] in
    elim (is (sym (queue_task-count t w.shared) ∙ z')) [
      | inl (a, pca, k, ata, on, told) ↦ inl (a, pca, k, ata, on, λ j less. kept j (told j less))
      | inr all ↦ inr (λ j less. kept j (all j (omega arith)))
    ]

step-IsEnding : (e : Event) (w v : World) → IsPlaced w → IsEnding w → step e w ≡ some v → IsEnding v
unfolding step
step-IsEnding (thread i c) w v is ending e =
    let (pc, pc', s', at, a, eq) = thread_step_cases i c w v e in
    let (h, kept) = thread_step-IsKept i c pc pc' w s' is at a in
    subst IsEnding eq (thread-IsEnding w i pc pc' c s' at h a kept.threads ending)
step-IsEnding (wakes t) w v is ending e =
    let (own, eq) = wake_step_cases t w v e in
    subst IsEnding eq (wakes-IsEnding t w (queue_task-length t w.shared) ending)

pub Reach-IsEnding : (n k : ℕ) → k < n → (w : World) → Reach (start n k) w → IsPlaced w × IsEnding w
unfolding start
Reach-IsEnding n k h w here = (start-IsPlaced n k h, λ z. absurd (omega arith))
Reach-IsEnding n k h w (next {u} e r took) =
    let (is, ending) = Reach-IsEnding n k h u r in
    (step-IsPlaced e u w is took, step-IsEnding e u w is ending took)
