-- ===== src/Scheduler/Kept.antt =====
-- Each action of a thread of runtime/src/scheduler.c keeps the places and the count.
use mathlib.Core.Path.{subst}
use picasso_lang.Base.{
  ℕ, suc, ◌≡◌, ◌≢◌, refl, inl, inr, ◌+◌, ◌-◌, ◌<◌, Bool, true, false, Option, none, some, ◌==◌, ltb,
  ltb→lt, if◌then◌else◌, List-cases, Bool-cases, arith, length, set,
}
use picasso_lang.Scheduler.{
  Stage, created, queued, running, asleep, ended, counted_off, destroyed, Pc, waiting, popped, runs,
  spawns, finished, destroys, delay, second_look, tells, gone, Shared, Choice, go, spawn, pause,
  block, finish, queue_at, push, set_stage, create, queue_task, pop_wait, run_task, act,
}
use picasso_lang.Scheduler.Places.{stage_no, both, at_pc, StageIs, both_not}
use picasso_lang.Scheduler.Counts.{live, pop-nulls}
use picasso_lang.Scheduler.Sound.{stopping, Own, IsSound, IsKept}
use picasso_lang.Scheduler.Steps.{
  restage-IsKept, queue-IsKept, goes_on-IsKept, pop-IsKept, create-IsKept, count_off-IsKept,
  tells-IsKept,
}

-- The state and the point after an action.
same_move :
    (pc : Pc) (s : Shared) (pc1 pc' : Pc) (s1 s' : Shared)
    → ◌≡◌ {A = Option (Pc × Shared)} (some (pc1, s1)) (some (pc', s'))
    → IsKept pc pc1 s s1
    → IsKept pc pc' s s'
same_move pc s pc1 pc' s1 s' e kept =
    let a : pc1 ≡ pc' = ground arith in
    let b : s1 ≡ s' = ground arith in
    subst (λ p. IsKept pc p s s') a (subst (λ x. IsKept pc pc1 s x) b kept)

module _ (i : ℕ) (s : Shared) (h : i < length s.queues) (is : IsSound s) (pc' : Pc)
    (s' : Shared) where
  pop_wait-IsKept : pop_wait i s ≡ some (pc', s') → IsKept waiting pc' s s'
  unfolding pop_wait
  pop_wait-IsKept e = elim (List-cases (queue_at s.queues i)) [
    | inl n ↦ absurd (ground arith)
    | inr (none, rest, q) ↦
        same_move waiting s gone pc' (record s { queues = set s.queues i rest }) s' (ground arith)
          (pop-IsKept gone i none rest s h q is (λ σ t. ground arith)
            (λ _. is.quiet (let a = pop-nulls i none rest s.queues h q in omega arith)))
    | inr (some u, rest, q) ↦
        same_move waiting s (popped u) pc' (record s { queues = set s.queues i rest }) s'
          (ground arith)
          (pop-IsKept (popped u) i (some u) rest s h q is (λ σ t. ground arith)
            (λ x. absurd (ground arith)))
  ]

  queue_task-IsKept :
      (pc pc1 : Pc) (n : ℕ) (old : Stage)
      → StageIs n old s
      → live old ≡ 1
      → ((σ t : ℕ) → σ ≢ 3 → at_pc σ t pc1 + both σ (stage_no old) t n ≡ at_pc σ t pc)
      → (stopping pc1 ≡ true → s.task_count ≡ 0)
      → IsKept pc pc1 s (queue_task n s)
  unfolding queue_task
  queue_task-IsKept pc pc1 n old (task, at, stage) one moves stop =
      rw (at, queue_task)
        (queue-IsKept pc pc1 task.sched n old s (task, at, stage) one (is.scheds n task at) is moves
          stop)

  run_task-IsKept :
      (t : ℕ) (c : Choice)
      → StageIs t running s
      → run_task t c s ≡ some (pc', s')
      → IsKept (runs t) pc' s s'
  unfolding run_task
  run_task-IsKept t go own e = absurd (ground arith)
  run_task-IsKept t (spawn k) own e = elim (Bool-cases (ltb k (length s.queues))) [
    | inr out ↦ absurd (ground arith)
    | inl there ↦
        same_move (runs t) s (spawns t (length s.tasks)) pc' (create k s) s' (ground arith)
          (create-IsKept t k s own (ltb→lt k (length s.queues) there) is)
  ]
  run_task-IsKept t pause own e = same_move (runs t) s waiting pc' (queue_task t s) s' e (
      queue_task-IsKept (runs t) waiting t running own refl (λ σ u ne3. omega arith)
        (λ x. absurd (ground arith)))
  run_task-IsKept t block own e = same_move (runs t) s waiting pc' (set_stage t asleep s) s' e (
      restage-IsKept (runs t) waiting t running asleep s own refl is
        (λ σ u ne3 ne6. omega (arith, both_not σ 3 u t ne3)) (λ x. absurd (ground arith)))
  run_task-IsKept t finish own e =
      same_move (runs t) s (finished t) pc' (set_stage t ended s) s' e (
        restage-IsKept (runs t) (finished t) t running ended s own refl is
          (λ σ u ne3 ne6. omega arith) (λ x. absurd (ground arith)))

  destroys-IsKept :
      (t : ℕ) (last : Bool)
      → StageIs t counted_off s
      → (last ≡ true → s.task_count ≡ 0)
      → IsKept (destroys t last) (if last then delay else waiting) s (set_stage t destroyed s)
  destroys-IsKept t true own stop =
      restage-IsKept (destroys t true) delay t counted_off destroyed s own refl is
        (λ σ u ne3 ne6. omega (arith, both_not σ 6 u t ne6)) (λ x. stop refl)
  destroys-IsKept t false own stop =
      restage-IsKept (destroys t false) waiting t counted_off destroyed s own refl is
        (λ σ u ne3 ne6. omega (arith, both_not σ 6 u t ne6)) (λ x. absurd (ground arith))

  pub act-IsKept :
      (pc : Pc) (c : Choice)
      → Own pc s
      → (stopping pc ≡ true → s.task_count ≡ 0)
      → act i pc c s ≡ some (pc', s')
      → IsKept pc pc' s s'
  unfolding act
  act-IsKept waiting c own stop e = pop_wait-IsKept e
  act-IsKept (popped t) c own stop e =
      same_move (popped t) s (runs t) pc' (set_stage t running s) s' e (
        restage-IsKept (popped t) (runs t) t queued running s own refl is
          (λ σ u ne3 ne6. omega arith) (λ x. absurd (ground arith)))
  act-IsKept (runs t) c own stop e = run_task-IsKept t c own e
  act-IsKept (spawns t n) c own stop e =
      same_move (spawns t n) s (runs t) pc' (queue_task n s) s' e (
        queue_task-IsKept (spawns t n) (runs t) n created own.1 refl (λ σ u ne3. omega arith)
          (λ x. absurd (ground arith)))
  act-IsKept (finished t) c own stop e =
      same_move (finished t) s (destroys t (s.task_count - 1 == 0)) pc'
        (set_stage t counted_off (record s { task_count = s.task_count - 1 })) s' e
        (count_off-IsKept t s own is)
  act-IsKept (destroys t last) c own stop e =
      same_move (destroys t last) s (if last then delay else waiting) pc' (set_stage t destroyed s)
        s' e (destroys-IsKept t last own stop)
  act-IsKept delay c own stop e =
      same_move delay s second_look pc' s s' e
        (goes_on-IsKept delay second_look s is (λ σ t. refl) (λ x. stop refl))
  act-IsKept second_look c own stop e = elim (Bool-cases (s.task_count == 0)) [
    | inl zero_left ↦
        same_move second_look s (tells 0) pc' s s' (ground arith)
          (goes_on-IsKept second_look (tells 0) s is (λ σ t. refl) (λ x. stop refl))
    | inr more ↦
        same_move second_look s waiting pc' s s' (ground arith)
          (goes_on-IsKept second_look waiting s is (λ σ t. refl) (λ x. stop refl))
  ]
  act-IsKept (tells k) c own stop e = elim (Bool-cases (ltb k (length s.queues))) [
    | inl there ↦
        same_move (tells k) s (tells (suc k)) pc' (push k none s) s' (ground arith)
          (tells-IsKept k s (ltb→lt k (length s.queues) there) is (stop refl))
    | inr over ↦
        same_move (tells k) s gone pc' s s' (ground arith)
          (goes_on-IsKept (tells k) gone s is (λ σ t. refl) (λ x. stop refl))
  ]
  act-IsKept gone c own stop e = absurd (ground arith)
