-- ===== src/Gc/World/Tests.antt =====
-- The stopping of the world of runtime/src/gc.c at concrete inputs.
use picasso_lang.Base.{ℕ, ◌≡◌, refl, true, false, none, some, [], ◌∷◌, arith, get_elem?}
use picasso_lang.Base.Tasks.{sum}
use picasso_lang.Gc.World.{
  out, running, collecting, Choice, mutator, collects, World, threads_of, step, run, Reach, here,
  next, mutator_act, collector_act, gc_start,
}
use picasso_lang.Gc.World.Locks.{adds, counted, collecting_excludes-joining}
use picasso_lang.Gc.World.Race.{late_start, collecting_while_running}

-- The collector collects, and no thread has a task.
abbrev quiet : World
quiet = record {
  mutators = out ∷ [];
  collector = collecting;
  gc_state = record {
    world_stopped = true;
    stopped_count = 0;
    total_threads = 0;
    lock_held = false;
    add_held = true;
  };
}

Reach-quiet : Reach (threads_of 1) quiet
unfolding step mutator_act collector_act gc_start
Reach-quiet =
    next collects
      (next collects (next collects (next collects (next collects here refl) refl) refl) refl) refl

collecting_excludes-joining_example :
    (quiet.gc_state.total_threads ≡ sum counted quiet.mutators)
    × (quiet.collector ≡ collecting
        → (sum adds quiet.mutators ≡ 0)
          × ((i : ℕ) (c : Choice)
              → get_elem? quiet.mutators i ≡ some out
              → step (mutator i c) quiet ≡ none))
collecting_excludes-joining_example = collecting_excludes-joining 1 Reach-quiet

collecting_while_running_example :
    (v : World) × (run (late_start 0) (threads_of 2) ≡ some v)
    × (v.collector ≡ collecting)
    × (get_elem? v.mutators 0 ≡ some running)
unfolding gc_start
collecting_while_running_example =
    collecting_while_running (threads_of 2) 0 refl refl refl (omega arith) refl
