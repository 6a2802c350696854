-- ===== src/Sync/WaitGroup.antt =====
-- The wait group of runtime/src/sync.c. A task is at a point of `sync_waitgroup_add` (`a_`) or
-- `sync_waitgroup_wait` (`w_`), and a step is its next access to what the tasks share. A negative delta is
-- the constructor `minus`; `sync_waitgroup_done` is `minus 1`.
pub mod Wakes
mod Tests
use picasso_lang.Base.{
  ℕ, ◌≡◌, ◌+◌, ◌-◌, Bool, true, false, not, ◌&&◌, Option, none, some, List, [], ◌∷◌, ◌++◌, ◌==◌,
  ltb, if◌then◌else◌, get_elem?, set, replicate,
}

-- Where a task is: out of the functions (`idle`), or before the action that the name says.
pub data Pc : Type 0 where
  idle : Pc
  a_lock : Pc
  a_pop : Pc
  a_unlock : Pc
  w_load : Pc
  w_lock : Pc
  w_check : Pc
  w_unlock_return : Pc
  w_push : Pc
  w_unlock_sleep : Pc
  w_asleep : Pc

-- `__public__waitgroup_t`, whether its `lock` is held, and the tasks that have been put on a ready queue.
pub record Shared : Type 0 where
  pub count : ℕ
  pub held : Bool
  pub waiters : List ℕ
  pub ready : List ℕ

unfoldable pub sync_waitgroup_create : Shared
sync_waitgroup_create = record { count = 0; held = false; waiters = []; ready = [] }

-- What an idle task calls.
pub data Choice : Type 0 where
  plus : ℕ → Choice
  minus : ℕ → Choice
  wait : Choice

-- What comes of an action: the task waits, the program is stopped by an assertion, or the task is at its next
-- point.
pub data Move : Type 0 where
  waits : Move
  aborts : Move
  moved : Pc → Shared → Move

-- `sync_waitgroup_add` as far as its wake-up: the count is changed at once, and the program stops if that
-- takes it below zero.
unfoldable pub add_delta : Choice → Shared → Move
add_delta (plus n) s = moved idle (record s { count = s.count + n })
add_delta (minus n) s =
    if ltb s.count n
    then aborts
    else moved (if (s.count == n) && not (n == 0) then a_lock else idle)
        (record s { count = s.count - n })
add_delta wait s = moved w_load s

abbrev pub drop_one : ℕ → List ℕ → Option (List ℕ)
drop_one i [] = none
drop_one i (j ∷ js) =
    if i == j then some js else elim (drop_one i js) [ none ↦ none | some ks ↦ some (j ∷ ks) ]

-- The next action of task `i`, at a point.
unfoldable pub act : ℕ → Pc → Choice → Shared → Move
unfolding add_delta
act i idle c s = add_delta c s
act i a_lock c s = if s.held then waits else moved a_pop (record s { held = true })
act i a_pop c s = elim s.waiters [
  | [] ↦ moved a_unlock s
  | t ∷ ts ↦ moved a_pop (record s { waiters = ts; ready = t ∷ s.ready })
]
act i a_unlock c s = moved idle (record s { held = false })
act i w_load c s = moved (if s.count == 0 then idle else w_lock) s
act i w_lock c s = if s.held then waits else moved w_check (record s { held = true })
act i w_check c s = moved (if s.count == 0 then w_unlock_return else w_push) s
act i w_unlock_return c s = moved idle (record s { held = false })
act i w_push c s = moved w_unlock_sleep (record s { waiters = s.waiters ++ (i ∷ []) })
act i w_unlock_sleep c s = moved w_asleep (record s { held = false })
act i w_asleep c s = elim (drop_one i s.ready) [
  | none ↦ waits
  | some rest ↦ moved w_load (record s { ready = rest })
]

-- The tasks by their numbers.
pub record World : Type 0 where
  pub pcs : List Pc
  pub shared : Shared

abbrev pub tasks_of : ℕ → World
tasks_of n = record { pcs = replicate n idle; shared = sync_waitgroup_create }

-- One action of task `i`; `none` where it waits, the program stops, or there is no such task.
unfoldable pub step : ℕ → Choice → World → Option World
step i c w = elim (get_elem? w.pcs i) [
  | none ↦ none
  | some pc ↦ elim (act i pc c w.shared) [
    | waits ↦ none
    | aborts ↦ none
    | moved pc' s ↦ some (record { pcs = set w.pcs i pc'; shared = s })
  ]
]

-- What can be reached from a world, whatever the order in which the tasks take their steps.
pub data Reach (w : World) : World → Type 0 where
  here : Reach w w
  next : {u v : World} (i : ℕ) (c : Choice) → Reach w u → step i c u ≡ some v → Reach w v
