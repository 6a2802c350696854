-- ===== src/Sync/Mutex/Tests.antt =====
-- The mutex of runtime/src/sync.c at concrete inputs.
use picasso_lang.Base.{◌≡◌, refl, some, [], ◌∷◌, arith, ◌==◌, if◌then◌else◌, false}
use picasso_lang.Sync.Mutex.{idle, holding, World, run}
use picasso_lang.Sync.Mutex.Race.{race, mutex_race}

-- Task 1 holds the mutex, and task 2 waits.
abbrev taken : World
taken = record {
  state = 1;
  held = false;
  waiters = 2 ∷ [];
  ready = [];
  pcs = λ i. if i == 1 then holding else idle;
}

mutex_race_example :
    (v : World) × (run (race 0 1) taken ≡ some v) × (v.pcs 0 ≡ holding) × (v.pcs 1 ≡ holding)
mutex_race_example = mutex_race 0 1 taken (λ e. omega arith) refl refl refl refl
