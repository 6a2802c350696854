-- ===== src/Sync/RwMutex.antt =====
-- The read-write mutex of runtime/src/sync.c. A task is at a point of one of the four functions, and a
-- step is its next access to what the tasks share: the atomic `state`, the mutex `lock`, or a queue.
-- `task_yield` returns when the task has been put on a ready queue since.
pub mod Steps
pub mod Listed
pub mod Counts
pub mod Exclusion
pub mod Stuck
mod Tests
use picasso_lang.Base.{
  ℕ, ◌≡◌, ◌+◌, ◌-◌, ◌%◌, Bool, true, false, Option, none, some, List, [], ◌∷◌, ◌++◌, ◌==◌,
  if◌then◌else◌, get_elem?, set, replicate,
}

abbrev pub writer_bit : ℕ
writer_bit = 1

abbrev pub reader_inc : ℕ
reader_inc = 2

-- Where a task is: out of the functions (`idle`), holding the lock, or before the action that the name
-- says. `r_`, `ru_`, `w_` and `wu_` are rlock, runlock, rwlock and rwunlock.
pub data Pc : Type 0 where
  idle : Pc
  r_load : Pc
  r_cas : ℕ → Pc
  r_lock : Pc
  r_check : Pc
  r_push : Pc
  r_unlock_sleep : Pc
  r_asleep : Pc
  r_unlock_retry : Pc
  reading : Pc
  ru_lock : Pc
  ru_pop : Pc
  ru_unlock : Pc
  w_load : Pc
  w_cas : ℕ → Pc
  w_lock : Pc
  w_check : Pc
  w_push : Pc
  w_unlock_sleep : Pc
  w_asleep : Pc
  w_unlock_retry : Pc
  w_drain : Pc
  w_drain_asleep : Pc
  writing : Pc
  wu_store : Pc
  wu_pop_writer : Pc
  wu_pop_reader : Pc
  wu_unlock : Pc

-- What the tasks share: `__public__rwmutex_t`, whether its `lock` is held, and the tasks that have been put
-- on a ready queue.
pub record Shared : Type 0 where
  pub state : ℕ
  pub held : Bool
  pub readers : List ℕ
  pub writers : List ℕ
  pub ready : List ℕ

unfoldable pub sync_rwmutex_create : Shared
sync_rwmutex_create = record { state = 0; held = false; readers = []; writers = []; ready = [] }

-- What the program or the machine chooses: which function an idle task calls, and whether a weak compare
-- and exchange fails for no reason.
pub data Choice : Type 0 where
  go : Choice
  call_rlock : Choice
  call_rwlock : Choice
  spurious : Choice

abbrev pub Move : Type 0
Move = Option (Pc × Shared)

-- `pthread_mutex_lock(&mux->lock)`, which waits while the mutex is held.
unfoldable pub lock_to : Pc → Shared → Move
lock_to pc s = if s.held then none else some (pc, record s { held = true })

unfoldable pub unlock_to : Pc → Shared → Move
unlock_to pc s = some (pc, record s { held = false })

abbrev pub drop_one : ℕ → List ℕ → Option (List ℕ)
drop_one i [] = none
drop_one i (j ∷ js) =
    if i == j then some js else elim (drop_one i js) [ none ↦ none | some ks ↦ some (j ∷ ks) ]

-- A task that sleeps goes on when it is found on a ready queue.
unfoldable pub wake_to : ℕ → Pc → Shared → Move
wake_to i pc s = elim (drop_one i s.ready) [
  | none ↦ none
  | some rest ↦ some (pc, record s { ready = rest })
]

unfoldable pub rlock_step : ℕ → Pc → Choice → Shared → Move
rlock_step i r_load c s = some (if s.state % 2 == writer_bit then r_lock else r_cas s.state, s)
rlock_step i (r_cas old) spurious s = some (r_load, s)
rlock_step i (r_cas old) c s =
    some (if s.state == old then (reading, record s { state = old + reader_inc }) else (r_load, s))
rlock_step i r_lock c s = lock_to r_check s
rlock_step i r_check c s = some (if s.state % 2 == writer_bit then r_push else r_unlock_retry, s)
rlock_step i r_push c s = some (r_unlock_sleep, record s { readers = s.readers ++ (i ∷ []) })
rlock_step i r_unlock_sleep c s = unlock_to r_asleep s
rlock_step i r_asleep c s = wake_to i r_load s
rlock_step i r_unlock_retry c s = unlock_to r_load s
rlock_step i pc c s = none

unfoldable pub runlock_step : Pc → Shared → Move
runlock_step reading s = some (
  if s.state - reader_inc == writer_bit then ru_lock else idle,
  record s { state = s.state - reader_inc },
)
runlock_step ru_lock s = lock_to ru_pop s
runlock_step ru_pop s = elim s.writers [
  | [] ↦ some (ru_unlock, s)
  | w ∷ ws ↦ some (ru_unlock, record s { writers = ws; ready = w ∷ s.ready })
]
runlock_step ru_unlock s = unlock_to idle s
runlock_step pc s = none

unfoldable pub rwlock_step : ℕ → Pc → Choice → Shared → Move
rwlock_step i w_load c s = some (if s.state % 2 == writer_bit then w_lock else w_cas s.state, s)
rwlock_step i (w_cas old) spurious s = some (w_load, s)
rwlock_step i (w_cas old) c s =
    some (if s.state == old then (w_drain, record s { state = old + writer_bit }) else (w_load, s))
rwlock_step i w_lock c s = lock_to w_check s
rwlock_step i w_check c s = some (if s.state % 2 == writer_bit then w_push else w_unlock_retry, s)
rwlock_step i w_push c s = some (w_unlock_sleep, record s { writers = s.writers ++ (i ∷ []) })
rwlock_step i w_unlock_sleep c s = unlock_to w_asleep s
rwlock_step i w_asleep c s = wake_to i w_load s
rwlock_step i w_unlock_retry c s = unlock_to w_load s
rwlock_step i w_drain c s = some (if s.state == writer_bit then writing else w_drain_asleep, s)
rwlock_step i w_drain_asleep c s = wake_to i w_drain s
rwlock_step i pc c s = none

unfoldable pub rwunlock_step : Pc → Shared → Move
rwunlock_step writing s = lock_to wu_store s
rwunlock_step wu_store s = some (wu_pop_writer, record s { state = 0 })
rwunlock_step wu_pop_writer s = elim s.writers [
  | [] ↦ some (wu_pop_reader, s)
  | w ∷ ws ↦ some (wu_unlock, record s { writers = ws; ready = w ∷ s.ready })
]
rwunlock_step wu_pop_reader s = elim s.readers [
  | [] ↦ some (wu_unlock, s)
  | r ∷ rs ↦ some (wu_pop_reader, record s { readers = rs; ready = r ∷ s.ready })
]
rwunlock_step wu_unlock s = unlock_to idle s
rwunlock_step pc s = none

infixr 4 ◌or_else◌
abbrev pub ◌or_else◌ : Move → Move → Move
none or_else m = m
some m or_else n = some m

-- The next action of a task; each point belongs to one function.
unfoldable pub act : ℕ → Pc → Choice → Shared → Move
unfolding rlock_step runlock_step rwlock_step rwunlock_step
act i idle call_rlock s = some (r_load, s)
act i idle call_rwlock s = some (w_load, s)
act i pc c s =
    rlock_step i pc c s
    or_else runlock_step pc s
    or_else rwlock_step i pc c s
    or_else rwunlock_step pc s

-- The tasks by their numbers.
pub record World : Type 0 where
  pub pcs : List Pc
  pub shared : Shared

abbrev pub tasks_of : ℕ → World
tasks_of n = record { pcs = replicate n idle; shared = sync_rwmutex_create }

-- One action of task `i`; `none` where it waits, or there is no such task.
unfoldable pub step : ℕ → Choice → World → Option World
step i c w = elim (get_elem? w.pcs i) [
  | none ↦ none
  | some pc ↦ elim (act i pc c w.shared) [
    | none ↦ none
    | some (pc', s) ↦ some (record { pcs = set w.pcs i pc'; shared = s })
  ]
]

-- What can be reached from a world, whatever the order in which the tasks take their steps.
pub data Reach (w : World) : World → Type 0 where
  here : Reach w w
  next : {u v : World} (i : ℕ) (c : Choice) → Reach w u → step i c u ≡ some v → Reach w v
