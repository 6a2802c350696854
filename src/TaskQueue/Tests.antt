-- ===== src/TaskQueue/Tests.antt =====
-- The queues of runtime/src/queue.c at concrete inputs.
use picasso_lang.Base.{◌≡◌, ◌≢◌, refl, inl, false, none, some, [], ◌∷◌, arith, ◌==◌, if◌then◌else◌}
use picasso_lang.Alloc.State.{Ptr, null}
use picasso_lang.TaskQueue.Fifo.{node, Nodes, SafeQueue, push, pop, run}
use picasso_lang.TaskQueue.Fifo.Cells.{IsQueue, Cells}
use picasso_lang.TaskQueue.Fifo.Refine.{fifo, run_refines}
use picasso_lang.TaskQueue.Ring.{
  Meta, Ring, SafeRing, done, deadlock, safe_gcq_push, safe_gcq_remove,
}
use picasso_lang.TaskQueue.Ring.Lock.{safe_gcq_remove_absent}

-- A queue with two tasks.
abbrev nodes : Nodes
nodes a = if a == 0x10 then some (node 7 0x20) else if a == 0x20 then some (node 8 null) else none

abbrev queue : SafeQueue
queue = record { size_limit = 4; head = 0x10; tail = 0x20 }

abbrev cells : Cells
cells = (0x10, 7) ∷ (0x20, 8) ∷ []

two_queued : IsQueue nodes queue cells
two_queued = record {
  chain = (λ e. omega arith, refl, refl, (λ e. omega arith, refl, refl, tt));
  head = refl;
  tail = refl;
  exact = λ a o. ground arith;
}

run_refines_example :
    run queue nodes (pop ∷ push 0x10 9 ∷ pop ∷ pop ∷ pop ∷ []) ≡ some (7 ∷ 8 ∷ 9 ∷ null ∷ [])
unfolding fifo
run_refines_example =
    run_refines (pop ∷ push 0x10 9 ∷ pop ∷ pop ∷ pop ∷ []) cells two_queued
      (λ e. omega arith, refl, tt)

-- A ring with the one node 0x10, of task 1.
abbrev alone : Meta
alone = record { fd = 0x10; bk = 0x10; t = 1 }

abbrev ring : Ring
ring = record {
  size_limit = 4;
  nodes = λ a. if a == 0x10 then some alone else none;
  slot = λ u. if u == 1 then 0x10 else null;
  head = 0x10;
}

abbrev safe_ring : SafeRing
safe_ring = record { ring = ring; held = false }

safe_gcq_remove_absent_example :
    (s' : SafeRing) × (safe_gcq_remove 2 safe_ring ≡ done (false, s'))
    × ((u : Ptr) → safe_gcq_remove u s' ≡ deadlock)
    × ((fresh u : Ptr) → fresh ≢ null → safe_gcq_push fresh u s' ≡ deadlock)
safe_gcq_remove_absent_example = safe_gcq_remove_absent 2 safe_ring refl (inl refl)
