-- ===== src/Sync/RwMutex/Tests.antt =====
-- The read-write mutex of runtime/src/sync.c at concrete inputs.
use picasso_lang.Base.{ℕ, false, ◌≡◌, ◌≢◌, refl, some, [], ◌∷◌, get_elem?, arith}
use picasso_lang.Sync.RwMutex.{
  idle, reading, writing, w_drain_asleep, go, call_rlock, call_rwlock, World, tasks_of, step, Reach,
  here, next, act, sync_rwmutex_create,
}
use picasso_lang.Sync.RwMutex.Exclusion.{rwmutex_excludes}
use picasso_lang.Sync.RwMutex.Stuck.{rwlock_sleeps_for_ever}

-- Task 0 locks for reading, and task 1 then for writing.
abbrev asleep : World
asleep = record {
  pcs = reading ∷ w_drain_asleep ∷ [];
  shared = record { state = 3; held = false; readers = []; writers = []; ready = [] };
}

abbrev held_for_writing : World
held_for_writing = record {
  pcs = idle ∷ writing ∷ [];
  shared = record { state = 1; held = false; readers = []; writers = []; ready = [] };
}

Reach-asleep : Reach (tasks_of 2) asleep
unfolding step act sync_rwmutex_create
Reach-asleep =
    next 1 go
      (next 1 go
        (next 1 go
          (next 1 call_rwlock (next 0 go (next 0 go (next 0 call_rlock here refl) refl) refl) refl)
          refl)
        refl)
      refl

Reach-writing : Reach (tasks_of 2) held_for_writing
unfolding step act sync_rwmutex_create
Reach-writing = next 1 go (next 1 go (next 1 go (next 1 call_rwlock here refl) refl) refl) refl

rwmutex_excludes_example : (idle ≢ writing) × (idle ≢ reading)
rwmutex_excludes_example = rwmutex_excludes 2 1 0 idle Reach-writing refl (λ e. omega arith) refl

rwlock_sleeps_for_ever_example :
    (get_elem? asleep.pcs 1 ≡ some w_drain_asleep)
    × ((j : ℕ) → get_elem? asleep.pcs j ≢ some writing)
    × ((j : ℕ) → get_elem? asleep.pcs j ≡ some reading → get_elem? asleep.pcs j ≡ some reading)
rwlock_sleeps_for_ever_example = rwlock_sleeps_for_ever 2 1 Reach-asleep refl here
