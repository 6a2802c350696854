-- ===== src/Gc/World/Race.antt =====
-- The collector gives one mutex up before it takes the other in `gc_stop_the_world` of runtime/src/gc.c.
use picasso_lang.Base.{
  ℕ, zero, suc, ◌≡◌, refl, ◌≤◌, ◌+◌, ltb, true, false, some, List, [], ◌∷◌, arith, get_elem?, set,
  length, get_elem?-set_self, length-set,
}
use picasso_lang.Gc.World.{
  Mutator, out, join_add, join_unlock, running, resting, collecting, yields, mutator_act,
  collector_act, World, Event, mutator, collects, step, run,
}

-- A thread begins to run a task between the last look at the counters and the locking of `add_lock`.
abbrev pub late_start : ℕ → List Event
late_start i =
    collects
    ∷ collects
    ∷ collects
    ∷ collects
    ∷ mutator i yields
    ∷ mutator i yields
    ∷ mutator i yields
    ∷ collects
    ∷ []

abbrev started : World → ℕ → World
started w i = record {
  mutators = set (set (set w.mutators i join_add) i join_unlock) i running;
  collector = collecting;
  gc_state = record w.gc_state {
    world_stopped = true;
    total_threads = w.gc_state.total_threads + 1;
    lock_held = false;
    add_held = true;
  };
}

in_range :
    (ms : List Mutator) (i : ℕ) (m : Mutator) → get_elem? ms i ≡ some m → ltb i (length ms) ≡ true
in_range [] i m e = absurd (ground arith)
in_range (x ∷ ms) zero m e = ground arith
in_range (x ∷ ms) (suc i) m e = ground (arith, in_range ms i m e)

-- Whenever the collector rests, the mutexes are free, and all the threads that are counted have stopped, there
-- is an order of steps after which the collector collects while a thread that was without a task runs one.
pub collecting_while_running :
    (w : World) (i : ℕ)
    → w.collector ≡ resting
    → w.gc_state.lock_held ≡ false
    → w.gc_state.add_held ≡ false
    → w.gc_state.total_threads ≤ w.gc_state.stopped_count
    → get_elem? w.mutators i ≡ some out
    → (v : World) × (run (late_start i) w ≡ some v)
      × (v.collector ≡ collecting)
      × (get_elem? v.mutators i ≡ some running)
unfolding run step mutator_act collector_act
collecting_while_running w i rests lock add stopped at =
    let inside = in_range w.mutators i out at in
    let l1 = length-set w.mutators i join_add in
    let l2 = length-set (set w.mutators i join_add) i join_unlock in
    let g1 = get_elem?-set_self w.mutators i join_add (ground arith) in
    let g2 = get_elem?-set_self (set w.mutators i join_add) i join_unlock (ground arith) in
    let g3 =
      get_elem?-set_self (set (set w.mutators i join_add) i join_unlock) i running (ground arith) in
    (started w i, ground arith, refl, g3)
