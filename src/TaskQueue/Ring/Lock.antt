-- ===== src/TaskQueue/Ring/Lock.antt =====
-- What becomes of the mutex in `safe_gcq_remove` of runtime/src/queue.c.
use picasso_lang.Base.{◌≡◌, ◌≢◌, refl, ◌⊎◌, true, false, some, arith}
use picasso_lang.Alloc.State.{Ptr, null}
use picasso_lang.TaskQueue.Ring.{
  Meta, SafeRing, done, deadlock, bad_unlock, lock, unlock, unlink, safe_gcq_push, safe_gcq_remove,
}

-- On a free mutex, where a task has no node or the ring is empty, `safe_gcq_remove` returns 0 and keeps the mutex: every
-- later call on the queue, with any task and with any address but NULL for the node, waits for ever.
pub safe_gcq_remove_absent :
    (t : Ptr) (s : SafeRing)
    → s.held ≡ false
    → (s.ring.slot t ≡ null) ⊎ (s.ring.head ≡ null)
    → (s' : SafeRing) × (safe_gcq_remove t s ≡ done (false, s'))
      × ((u : Ptr) → safe_gcq_remove u s' ≡ deadlock)
      × ((fresh u : Ptr) → fresh ≢ null → safe_gcq_push fresh u s' ≡ deadlock)
unfolding safe_gcq_remove safe_gcq_push lock
safe_gcq_remove_absent t s free absent =
    (record s { held = true }, ground arith, λ u. refl, λ fresh u ne. ground arith)

-- On a free mutex, for a task whose node follows itself, in a ring that is not empty, `safe_gcq_remove` gives
-- the mutex back twice, which is undefined.
pub safe_gcq_remove_last :
    (t : Ptr) (s : SafeRing) (m : Meta)
    → s.held ≡ false
    → s.ring.slot t ≢ null
    → s.ring.head ≢ null
    → s.ring.nodes (s.ring.slot t) ≡ some m
    → m.fd ≡ s.ring.slot t
    → safe_gcq_remove t s ≡ bad_unlock
unfolding safe_gcq_remove lock unlock unlink
safe_gcq_remove_last t s m free has_node some_head at alone = ground arith
