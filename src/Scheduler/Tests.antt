-- ===== src/Scheduler/Tests.antt =====
-- Runs of runtime/src/scheduler.c at concrete inputs.
use picasso_lang.Base.{◌⊎◌, true, ◌+◌, ℕ, ◌≡◌, refl, none, some, List, [], ◌∷◌, ◌++◌, arith}
use picasso_lang.Scheduler.{
  running, destroyed, waiting, runs, gone, second_look, tells, go, spawn, block, finish, World,
  Event, thread, wakes, step, run, start, Reach, here, next,
}
use picasso_lang.Scheduler.Counts.{live}
use picasso_lang.Scheduler.Ends.{stops-nothing_left}
use picasso_lang.Scheduler.Rest.{left, all_gone, run-left}

-- The first task creates another on thread 1, waits, and is woken; both end, and thread 1 tells all to stop.
abbrev first_part : List Event
first_part =
    thread 0 go
    ∷ thread 0 go
    ∷ thread 0 (spawn 1)
    ∷ thread 0 go
    ∷ thread 0 block
    ∷ wakes 0
    ∷ thread 1 go
    ∷ thread 1 go
    ∷ thread 0 go
    ∷ thread 0 go
    ∷ thread 0 finish
    ∷ thread 0 go
    ∷ thread 0 go
    ∷ []

abbrev second_part : List Event
second_part =
    thread 1 finish
    ∷ thread 1 go
    ∷ thread 1 go
    ∷ thread 1 go
    ∷ thread 1 go
    ∷ thread 1 go
    ∷ thread 1 go
    ∷ thread 1 go
    ∷ thread 0 go
    ∷ []

two_threads :
    run first_part (start 2 0)
    ≡ some (record {
      pcs = waiting ∷ runs 1 ∷ [];
      shared = record {
        task_count = 1;
        tasks =
            record { stage = destroyed; sched = 0 } ∷ record { stage = running; sched = 1 } ∷ [];
        queues = [] ∷ [] ∷ [];
      };
    })
unfolding run step start
two_threads = refl

both_return :
    run (first_part ++ second_part) (start 2 0)
    ≡ some (record {
      pcs = gone ∷ gone ∷ [];
      shared = record {
        task_count = 0;
        tasks =
            record { stage = destroyed; sched = 0 } ∷ record { stage = destroyed; sched = 1 } ∷ [];
        queues = [] ∷ (none ∷ []) ∷ [];
      };
    })
unfolding run step start
both_return = refl

-- One thread runs the first task to its end and looks again at the count.
abbrev left_one : World
left_one = record {
  pcs = second_look ∷ [];
  shared = record {
    task_count = 0;
    tasks = record { stage = destroyed; sched = 0 } ∷ [];
    queues = [] ∷ [];
  };
}

one_thread : Reach (start 1 0) left_one
unfolding step start
one_thread =
    next (thread 0 go)
      (next (thread 0 go)
        (next (thread 0 go)
          (next (thread 0 finish) (next (thread 0 go) (next (thread 0 go) here refl) refl) refl)
          refl)
        refl)
      refl

stops-nothing_left_example : (left_one.shared.task_count ≡ 0) × (live destroyed ≡ 0)
stops-nothing_left_example =
    stops-nothing_left 1 0 (omega arith) left_one one_thread 0 second_look refl refl 0
      (record { stage = destroyed; sched = 0 }) refl

-- From there it looks at the count, tells itself, and has one step left.
abbrev told_one : World
told_one = record {
  pcs = tells 1 ∷ [];
  shared = record {
    task_count = 0;
    tasks = record { stage = destroyed; sched = 0 } ∷ [];
    queues = (none ∷ []) ∷ [];
  };
}

run-left_example :
    (2 + left told_one ≡ left left_one)
    × ((all_gone told_one.pcs ≡ true)
        ⊎ ((i : ℕ) × (u : World) × (step (thread i go) told_one ≡ some u)))
unfolding run step
run-left_example =
    run-left 1 0 (omega arith) left_one one_thread refl (thread 0 go ∷ thread 0 go ∷ []) told_one
      refl
