-- ===== src/Scheduler/Ends.antt =====
-- The invariant of the threads of runtime/src/scheduler.c and what is left when one of them ends.
use mathlib.Core.Path.{subst}
use picasso_lang.Base.{
  ℕ, zero, suc, ◌≡◌, refl, sym, ap, ◌∙◌, inl, inr, ◌<◌, true, Option, none, some, List, [], ◌∷◌,
  Option-cases, arith, length, length-set, get_elem?, replicate, length-replicate,
}
use picasso_lang.Base.Tasks.{sum-idle, sum-le}
use picasso_lang.Scheduler.{
  Stage, created, queued, running, asleep, ended, counted_off, destroyed, Task, Pc, waiting,
  queue_at, queue_task, World, Event, thread, wakes, wake_step, step, start, Reach, here, next,
}
use picasso_lang.Scheduler.Places.{
  both_not, at_pc, count_queue, count_queues, count_queues-set, StageIs,
}
use picasso_lang.Scheduler.Counts.{live, live_task, nulls, nulls_in, nulls-set}
use picasso_lang.Scheduler.Sound.{stopping, IsKept}
use picasso_lang.Scheduler.Steps.{queue-IsKept}
use picasso_lang.Scheduler.Placed.{IsPlaced, thread_step-IsPlaced}

-- A task that somebody wakes goes from nowhere to a queue.
wakes-IsPlaced :
    (t : ℕ) (w : World)
    → IsPlaced w
    → StageIs t asleep w.shared
    → IsPlaced (record w { shared = queue_task t w.shared })
unfolding queue_task
wakes-IsPlaced t w is (task, at, stage) =
    let kept : IsKept waiting waiting w.shared (queue_task t w.shared) =
      rw (at, queue_task)
        (queue-IsKept waiting waiting task.sched t asleep w.shared (task, at, stage) refl
          (is.sound.scheds t task at) is.sound (λ σ u ne3. omega (arith, both_not σ 3 u t ne3))
          (λ x. absurd (ground arith))) in
    record {
      places = λ σ u ne3 ne6. omega (arith, is.places σ u ne3 ne6, kept.balance σ u ne3 ne6);
      sound = kept.sound;
      threads = is.threads ∙ sym kept.threads;
      quiet = λ j q at stop. kept.still_zero (is.quiet j q at stop);
    }

woken :
    (x v : World) (stage : Stage)
    → (elim stage [ asleep ↦ some x | _ ↦ none ]) ≡ some v
    → (stage ≡ asleep) × (x ≡ v)
woken x v created e = absurd (ground arith)
woken x v queued e = absurd (ground arith)
woken x v running e = absurd (ground arith)
woken x v asleep e = (refl, ground arith)
woken x v ended e = absurd (ground arith)
woken x v counted_off e = absurd (ground arith)
woken x v destroyed e = absurd (ground arith)

pub wake_step_cases :
    (t : ℕ) (w v : World)
    → wake_step t w ≡ some v
    → StageIs t asleep w.shared × (record w { shared = queue_task t w.shared } ≡ v)
unfolding wake_step
wake_step_cases t w v e = elim (Option-cases (get_elem? w.shared.tasks t)) [
  | inl n ↦ absurd (ground arith)
  | inr (task, at) ↦
      let x : World = record w { shared = queue_task t w.shared } in
      let e' : (elim task.stage [ asleep ↦ some x | _ ↦ none ]) ≡ some v =
        subst
          (λ o.
            (elim o [ none ↦ none | some task' ↦ elim task'.stage [ asleep ↦ some x | _ ↦ none ] ])
            ≡ some v)
          at e in
      let (stage, eq) = woken x v task.stage e' in ((task, at, stage), eq)
]

wake_step-IsPlaced : (t : ℕ) (w v : World) → IsPlaced w → wake_step t w ≡ some v → IsPlaced v
wake_step-IsPlaced t w v is e =
    let (own, eq) = wake_step_cases t w v e in subst IsPlaced eq (wakes-IsPlaced t w is own)

empty_queues :
    (t n k : ℕ)
    → (count_queues t (replicate n []) ≡ 0)
      × (nulls (replicate n []) ≡ 0)
      × (queue_at (replicate n []) k ≡ [])
empty_queues t zero k = (refl, refl, refl)
empty_queues t (suc n) zero = let (a, b, c) = empty_queues t n 0 in (omega arith, omega arith, refl)
empty_queues t (suc n) (suc k) = let (a, b, c) = empty_queues t n k in (omega arith, omega arith, c)

only_task :
    (x : Task) (t : ℕ) (task : Task) → get_elem? (x ∷ []) t ≡ some task → x.sched ≡ task.sched
only_task x zero task e = ground arith
only_task x (suc t) task e = absurd (ground arith)

all_wait : (n i : ℕ) (pc : Pc) → get_elem? (replicate n waiting) i ≡ some pc → waiting ≡ pc
all_wait zero i pc e = absurd (ground arith)
all_wait (suc n) zero pc e = ground arith
all_wait (suc n) (suc i) pc e = all_wait n i pc e

pub start-IsPlaced : (n k : ℕ) → k < n → IsPlaced (start n k)
unfolding start
start-IsPlaced n k h =
    let qs : List (List (Option ℕ)) = replicate n [] in
    let q : List (Option ℕ) = some 0 ∷ [] in
    let size : length qs ≡ n = length-replicate n [] in
    let there : k < length qs = omega arith in
    record {
      places = λ σ t ne3 ne6.
          let (a, b, c) = empty_queues t n k in
          let d = ap (count_queue t) c in
          ground (arith, sum-idle (at_pc σ t) waiting refl n, count_queues-set t qs k q there);
      sound = record {
        counts = refl;
        scheds = λ t task e.
            let same = only_task (record { stage = queued; sched = k }) t task e in
            let sizes = length-set qs k q in omega arith;
        quiet = λ e.
            let (a, b, c) = empty_queues 0 n k in
            let d = ap nulls_in c in absurd (omega (arith, nulls-set qs k q there));
      };
      threads = length-replicate n waiting ∙ sym size ∙ sym (length-set qs k q);
      quiet = λ i pc e stop. let idle = ap stopping (all_wait n i pc e) in absurd (ground arith);
    }

pub step-IsPlaced : (e : Event) (w v : World) → IsPlaced w → step e w ≡ some v → IsPlaced v
unfolding step
step-IsPlaced (thread i c) w v is e = thread_step-IsPlaced i c w v is e
step-IsPlaced (wakes t) w v is e = wake_step-IsPlaced t w v is e

pub Reach-IsPlaced : (w v : World) → IsPlaced w → Reach w v → IsPlaced v
Reach-IsPlaced w v is here = is
Reach-IsPlaced w v is (next {u} e r took) = step-IsPlaced e u v (Reach-IsPlaced w u is r) took

-- Let n threads be started with the first task on thread k, which is one of them, and let any steps follow: of the
-- threads in any order, of tasks that create others, give way, wait and are woken. Where a thread is in the delay
-- after the last task, in the second look, telling the threads to stop, or has returned, `task_count` is 0, and no
-- task is left: each that was created has finished and been counted off, or has been destroyed.
pub stops-nothing_left :
    (n k : ℕ)
    → k < n
    → (w : World) → Reach (start n k) w
    → (i : ℕ) (pc : Pc) → get_elem? w.pcs i ≡ some pc
    → stopping pc ≡ true
    → (t : ℕ) (task : Task) → get_elem? w.shared.tasks t ≡ some task
    → (w.shared.task_count ≡ 0) × (live task.stage ≡ 0)
stops-nothing_left n k h w r i pc at stop t task e =
    let is = Reach-IsPlaced (start n k) w (start-IsPlaced n k h) r in
    let none_left = is.quiet i pc at stop in
    let a = sum-le live_task w.shared.tasks t task e in
    let b = is.sound.counts in (none_left, omega arith)
