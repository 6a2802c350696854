-- ===== src/Sync/WaitGroup/Tests.antt =====
-- The wait group of runtime/src/sync.c at concrete inputs.
use picasso_lang.Base.{false, ◌≡◌, refl, [], ◌∷◌}
use picasso_lang.Base.Tasks.{sum}
use picasso_lang.Sync.WaitGroup.{
  idle, w_asleep, plus, minus, wait, World, tasks_of, step, Reach, here, next, act, add_delta,
  sync_waitgroup_create,
}
use picasso_lang.Sync.WaitGroup.Wakes.{pushes, waitgroup_cares}

-- Task 0 adds one, task 1 waits, and task 0 is done and has woken it.
abbrev woken : World
woken = record {
  pcs = idle ∷ w_asleep ∷ [];
  shared = record { count = 0; held = false; waiters = []; ready = 1 ∷ [] };
}

Reach-woken : Reach (tasks_of 2) woken
unfolding step act add_delta sync_waitgroup_create
Reach-woken =
    next 0 wait
      (next 0 wait
        (next 0 wait
          (next 0 wait
            (next 0 (minus 1)
              (next 1 wait
                (next 1 wait
                  (next 1 wait
                    (next 1 wait (next 1 wait (next 1 wait (next 0 (plus 1) here refl) refl) refl)
                      refl)
                    refl)
                  refl)
                refl)
              refl)
            refl)
          refl)
        refl)
      refl

waitgroup_cares_example : (woken.shared.waiters ≡ []) × (sum pushes woken.pcs ≡ 0)
waitgroup_cares_example = waitgroup_cares 2 Reach-woken refl refl
