-- ===== src/Gc/World.antt =====
-- How the collector stops the mutators: `gc_stop_the_world` and `gc_resume_world` of runtime/src/gc.c, and
-- what scheduler threads do to the same counters in `scheduler_run` and `self_yield` of
-- runtime/src/scheduler.c. A step is the next access to what they share. A wait on a condition variable gives
-- the mutex up and may end at any time, as POSIX allows.
pub mod Locks
pub mod Race
mod Tests
use picasso_lang.Base.{
  ℕ, ◌≡◌, ◌+◌, ◌-◌, ◌==◌, ltb, if◌then◌else◌, Bool, true, false, Option, none, some, List, [], ◌∷◌,
  get_elem?, set, replicate,
}

-- Where a scheduler thread is: without a task (`out`), running one, or before the action that the name says.
-- `y_` is the part of `self_yield` for a stopped world.
pub data Mutator : Type 0 where
  out : Mutator
  join_add : Mutator
  join_unlock : Mutator
  running : Mutator
  y_lock : Mutator
  y_count : Mutator
  y_check : Mutator
  y_waiting : Mutator
  y_unlock : Mutator
  leave : Mutator

-- Where the collector is: `s_` is gc_stop_the_world, `r_` is gc_resume_world.
pub data Collector : Type 0 where
  resting : Collector
  s_set : Collector
  s_check : Collector
  s_waiting : Collector
  s_unlock : Collector
  s_add_lock : Collector
  collecting : Collector
  r_clear : Collector
  r_zero : Collector
  r_unlock : Collector
  r_add_unlock : Collector

-- `gc_state_t`, with whether its two mutexes are held.
pub record GcState : Type 0 where
  pub world_stopped : Bool
  pub stopped_count : ℕ
  pub total_threads : ℕ
  pub lock_held : Bool
  pub add_held : Bool

unfoldable pub gc_start : GcState
gc_start = record {
  world_stopped = false;
  stopped_count = 0;
  total_threads = 0;
  lock_held = false;
  add_held = false;
}

-- Whether a running task calls `self_yield`, or gives its thread back.
pub data Choice : Type 0 where
  yields : Choice
  returns : Choice

unfoldable pub mutator_act : Mutator → Choice → GcState → Option (Mutator × GcState)
mutator_act out c g = if g.add_held then none else some (join_add, record g { add_held = true })
mutator_act join_add c g = some (join_unlock, record g { total_threads = g.total_threads + 1 })
mutator_act join_unlock c g = some (running, record g { add_held = false })
mutator_act running yields g = some (if g.world_stopped then y_lock else running, g)
mutator_act running returns g = some (leave, g)
mutator_act y_lock c g = if g.lock_held then none else some (y_count, record g { lock_held = true })
mutator_act y_count c g = some (y_check, record g { stopped_count = g.stopped_count + 1 })
mutator_act y_check c g =
    some (if g.world_stopped then (y_waiting, record g { lock_held = false }) else (y_unlock, g))
mutator_act y_waiting c g =
    if g.lock_held then none else some (y_check, record g { lock_held = true })
mutator_act y_unlock c g = some (running, record g { lock_held = false })
mutator_act leave c g = some (out, record g { total_threads = g.total_threads - 1 })

unfoldable pub collector_act : Collector → GcState → Option (Collector × GcState)
collector_act resting g = if g.lock_held then none else some (s_set, record g { lock_held = true })
collector_act s_set g = some (s_check, record g { world_stopped = true })
collector_act s_check g = some (
    if ltb g.stopped_count g.total_threads
    then (s_waiting, record g { lock_held = false })
    else (s_unlock, g))
collector_act s_waiting g =
    if g.lock_held then none else some (s_check, record g { lock_held = true })
collector_act s_unlock g = some (s_add_lock, record g { lock_held = false })
collector_act s_add_lock g =
    if g.add_held then none else some (collecting, record g { add_held = true })
collector_act collecting g =
    if g.lock_held then none else some (r_clear, record g { lock_held = true })
collector_act r_clear g = some (r_zero, record g { world_stopped = false })
collector_act r_zero g = some (r_unlock, record g { stopped_count = 0 })
collector_act r_unlock g = some (r_add_unlock, record g { lock_held = false })
collector_act r_add_unlock g = some (resting, record g { add_held = false })

pub record World : Type 0 where
  pub mutators : List Mutator
  pub collector : Collector
  pub gc_state : GcState

abbrev pub threads_of : ℕ → World
threads_of n = record { mutators = replicate n out; collector = resting; gc_state = gc_start }

pub data Event : Type 0 where
  mutator : ℕ → Choice → Event
  collects : Event

unfoldable pub step : Event → World → Option World
unfolding mutator_act collector_act
step (mutator i c) w = elim (get_elem? w.mutators i) [
  | none ↦ none
  | some m ↦ elim (mutator_act m c w.gc_state) [
    | none ↦ none
    | some (m', g) ↦ some (record w { mutators = set w.mutators i m'; gc_state = g })
  ]
]
step collects w = elim (collector_act w.collector w.gc_state) [
  | none ↦ none
  | some (k, g) ↦ some (record w { collector = k; gc_state = g })
]

unfoldable pub run : List Event → World → Option World
unfolding step
run [] w = some w
run (e ∷ es) w = elim (step e w) [ none ↦ none | some v ↦ run es v ]

-- What can be reached from a world, in whatever order the threads take their steps.
pub data Reach (w : World) : World → Type 0 where
  here : Reach w w
  next : {u v : World} (e : Event) → Reach w u → step e u ≡ some v → Reach w v
