-- ===== src/Sync/Mutex.antt =====
-- The mutex of runtime/src/sync.c. A task is at a point of `sync_mutex_lock` (`l_`) or `sync_mutex_unlock`
-- (`u_`), and a step is its next access to what the tasks share: the atomic `state`, the inner mutex `lock`
-- that both functions take, or the queue of waiters.
pub mod Race
mod Tests
use picasso_lang.Base.{
  ℕ, ◌≡◌, Bool, true, false, Option, none, some, List, [], ◌∷◌, ◌++◌, ◌==◌, if◌then◌else◌,
}

-- Where a task is: out of the functions (`idle`), holding the mutex, or before the action that the name says.
pub data Pc : Type 0 where
  idle : Pc
  l_cas : Pc
  l_lock : Pc
  l_load : Pc
  l_store : Pc
  l_unlock : Pc
  l_push : Pc
  l_unlock_sleep : Pc
  l_asleep : Pc
  holding : Pc
  u_store : Pc
  u_pop : Pc
  u_unlock : Pc

-- `__public__mutex_t`, whether its `lock` is held, the tasks that have been put on a ready queue, and where
-- each task is.
pub record World : Type 0 where
  pub state : ℕ
  pub held : Bool
  pub waiters : List ℕ
  pub ready : List ℕ
  pub pcs : ℕ → Pc

unfoldable pub sync_mutex_create : World
sync_mutex_create = record { state = 0; held = false; waiters = []; ready = []; pcs = λ i. idle }

abbrev pub go_to : ℕ → Pc → World → World
go_to i pc w = record w { pcs = λ j. if j == i then pc else w.pcs j }

abbrev pub drop_one : ℕ → List ℕ → Option (List ℕ)
drop_one i [] = none
drop_one i (j ∷ js) =
    if i == j then some js else elim (drop_one i js) [ none ↦ none | some ks ↦ some (j ∷ ks) ]

-- The next action of task `i` at a point; `none` where it waits. An idle task calls `sync_mutex_lock`, and
-- one that holds the mutex calls `sync_mutex_unlock`, which takes the inner mutex first.
unfoldable pub act : ℕ → Pc → World → Option World
act i idle w = some (go_to i l_cas w)
act i l_cas w =
    some (if w.state == 0 then go_to i holding (record w { state = 1 }) else go_to i l_lock w)
act i l_lock w = if w.held then none else some (go_to i l_load (record w { held = true }))
act i l_load w = some (go_to i (if w.state == 0 then l_store else l_push) w)
act i l_store w = some (go_to i l_unlock (record w { state = 1 }))
act i l_unlock w = some (go_to i holding (record w { held = false }))
act i l_push w = some (go_to i l_unlock_sleep (record w { waiters = w.waiters ++ (i ∷ []) }))
act i l_unlock_sleep w = some (go_to i l_asleep (record w { held = false }))
act i l_asleep w = elim (drop_one i w.ready) [
  | none ↦ none
  | some rest ↦ some (go_to i l_lock (record w { ready = rest }))
]
act i holding w = if w.held then none else some (go_to i u_store (record w { held = true }))
act i u_store w = some (go_to i u_pop (record w { state = 0 }))
act i u_pop w = elim w.waiters [
  | [] ↦ some (go_to i u_unlock w)
  | t ∷ ts ↦ some (go_to i u_unlock (record w { waiters = ts; ready = t ∷ w.ready }))
]
act i u_unlock w = some (go_to i idle (record w { held = false }))

unfoldable pub step : ℕ → World → Option World
unfolding act
step i w = act i (w.pcs i) w

-- The tasks take their steps in this order.
unfoldable pub run : List ℕ → World → Option World
unfolding step
run [] w = some w
run (i ∷ is) w = elim (step i w) [ none ↦ none | some v ↦ run is v ]
