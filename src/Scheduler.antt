-- ===== src/Scheduler.antt =====
-- The scheduler threads of runtime/src/scheduler.c with the creation of tasks in runtime/src/initutils.c, and the end
-- of the program. Each thread is at a point of `scheduler_run`, or of the task that it runs, and a step is its next
-- access to what the threads share. The counters of the collector are in Gc.World.
pub mod Places
pub mod Counts
pub mod Sound
pub mod Steps
pub mod Kept
pub mod Placed
pub mod Ends
pub mod Told
pub mod Ending
pub mod Rest
mod Tests
use picasso_lang.Base.{
  ℕ, zero, suc, ◌+◌, ◌-◌, ◌≡◌, Bool, true, false, Option, none, some, List, [], ◌∷◌, ◌++◌, ◌==◌,
  ltb, if◌then◌else◌, length, get_elem?, set, replicate,
}

-- A task: created and not on a queue yet, on the ready queue of its thread or taken from it, running, waiting for
-- somebody to put it there, finished (`TASK_FINISHED`) and still counted, no longer counted, or destroyed.
pub data Stage : Type 0 where
  created : Stage
  queued : Stage
  running : Stage
  asleep : Stage
  ended : Stage
  counted_off : Stage
  destroyed : Stage

pub record Task : Type 0 where
  pub stage : Stage
  pub sched : ℕ

-- Where a thread is: in `safe_q_pop_wait`; with a task that it popped; running one, which may be between the creation
-- and the queueing of another in `thread`; behind a task that has finished, before and after it is counted off,
-- with whether none remained; in the delay, before the second look, telling the k-th thread to stop; or it has
-- returned.
pub data Pc : Type 0 where
  waiting : Pc
  popped : ℕ → Pc
  runs : ℕ → Pc
  spawns : ℕ → ℕ → Pc
  finished : ℕ → Pc
  destroys : ℕ → Bool → Pc
  delay : Pc
  second_look : Pc
  tells : ℕ → Pc
  gone : Pc

-- `task_count`, the tasks, and the ready queue of each thread, in which `none` is NULL.
pub record Shared : Type 0 where
  pub task_count : ℕ
  pub tasks : List Task
  pub queues : List (List (Option ℕ))

-- What a running task does: it calls `thread`, which picks thread k; it gives way in `self_yield`; it waits for
-- somebody to wake it; it returns; or nothing of these (`go`).
pub data Choice : Type 0 where
  go : Choice
  spawn : ℕ → Choice
  pause : Choice
  block : Choice
  finish : Choice

abbrev pub queue_at : List (List (Option ℕ)) → ℕ → List (Option ℕ)
queue_at qs k = elim (get_elem? qs k) [ none ↦ [] | some q ↦ q ]

-- `safe_q_push`
unfoldable pub push : ℕ → Option ℕ → Shared → Shared
push k t s = record s { queues = set s.queues k (queue_at s.queues k ++ (t ∷ [])) }

unfoldable pub set_stage : ℕ → Stage → Shared → Shared
set_stage t stage s = elim (get_elem? s.tasks t) [
  | none ↦ s
  | some task ↦ record s { tasks = set s.tasks t (record task { stage = stage }) }
]

abbrev pub Moved : Type 0
Moved = Option (Pc × Shared)

-- `safe_q_pop_wait`: NULL ends the thread.
unfoldable pub pop_wait : ℕ → Shared → Moved
pop_wait i s = elim (queue_at s.queues i) [
  | [] ↦ none
  | none ∷ rest ↦ some (gone, record s { queues = set s.queues i rest })
  | some t ∷ rest ↦ some (popped t, record s { queues = set s.queues i rest })
]

-- `task_create` and the count in `thread`; the task of thread k has the next number.
unfoldable pub create : ℕ → Shared → Shared
create k s = record s {
  task_count = s.task_count + 1;
  tasks = s.tasks ++ (record { stage = created; sched = k } ∷ []);
}

-- A task goes to the queue of its thread.
unfoldable pub queue_task : ℕ → Shared → Shared
unfolding push set_stage
queue_task n s = elim (get_elem? s.tasks n) [
  | none ↦ s
  | some task ↦ set_stage n queued (push task.sched (some n) s)
]

-- The steps of task t; `task_yield` and the end of the task go back to `scheduler_run`.
unfoldable pub run_task : ℕ → Choice → Shared → Moved
unfolding queue_task set_stage create
run_task t go s = none
run_task t (spawn k) s =
    if ltb k (length s.queues) then some (spawns t (length s.tasks), create k s) else none
run_task t pause s = some (waiting, queue_task t s)
run_task t block s = some (waiting, set_stage t asleep s)
run_task t finish s = some (finished t, set_stage t ended s)

-- The next action of thread i.
unfoldable pub act : ℕ → Pc → Choice → Shared → Moved
unfolding pop_wait run_task queue_task push set_stage
act i waiting c s = pop_wait i s
act i (popped t) c s = some (runs t, set_stage t running s)
act i (runs t) c s = run_task t c s
act i (spawns t n) c s = some (runs t, queue_task n s)
act i (finished t) c s = some (
  destroys t (s.task_count - 1 == 0),
  set_stage t counted_off (record s { task_count = s.task_count - 1 }),
)
act i (destroys t last) c s = some (if last then delay else waiting, set_stage t destroyed s)
act i delay c s = some (second_look, s)
act i second_look c s = some (if s.task_count == 0 then tells 0 else waiting, s)
act i (tells k) c s =
    if ltb k (length s.queues) then some (tells (suc k), push k none s) else some (gone, s)
act i gone c s = none

pub record World : Type 0 where
  pub pcs : List Pc
  pub shared : Shared

-- A step of thread i, or of a lock or worker that puts a sleeping task on the ready queue of its thread.
pub data Event : Type 0 where
  thread : ℕ → Choice → Event
  wakes : ℕ → Event

unfoldable pub thread_step : ℕ → Choice → World → Option World
unfolding act
thread_step i c w = elim (get_elem? w.pcs i) [
  | none ↦ none
  | some pc ↦ elim (act i pc c w.shared) [
    | none ↦ none
    | some (pc', s) ↦ some (record { pcs = set w.pcs i pc'; shared = s })
  ]
]

unfoldable pub wake_step : ℕ → World → Option World
unfolding queue_task
wake_step t w = elim (get_elem? w.shared.tasks t) [
  | none ↦ none
  | some task ↦ elim task.stage [
    | asleep ↦ some (record w { shared = queue_task t w.shared })
    | _ ↦ none
  ]
]

unfoldable pub step : Event → World → Option World
unfolding thread_step wake_step
step (thread i c) w = thread_step i c w
step (wakes t) w = wake_step t w

unfoldable pub run : List Event → World → Option World
unfolding step
run [] w = some w
run (e ∷ es) w = elim (step e w) [ none ↦ none | some v ↦ run es v ]

-- `init_scheduler` with n threads, and the first task of `main` on thread k.
unfoldable pub start : ℕ → ℕ → World
start n k = record {
  pcs = replicate n waiting;
  shared = record {
    task_count = 1;
    tasks = record { stage = queued; sched = k } ∷ [];
    queues = set (replicate n []) k (some 0 ∷ []);
  };
}

pub data Reach (w : World) : World → Type 0 where
  here : Reach w w
  next : {u v : World} (e : Event) → Reach w u → step e u ≡ some v → Reach w v
