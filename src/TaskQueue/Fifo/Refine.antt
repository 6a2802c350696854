-- ===== src/TaskQueue/Fifo/Refine.antt =====
-- The linked queue of runtime/src/queue.c behaves as a list of tasks, oldest first.
use picasso_lang.Base.{
  ◌⊎◌, inl, inr, ◌∙◌, ◌≡◌, ◌≢◌, refl, ap, false, some, List, [], ◌∷◌, ◌++◌, arith,
}
use picasso_lang.Alloc.State.{Ptr, null}
use picasso_lang.TaskQueue.Fifo.{
  Nodes, SafeQueue, take_head, safe_q_pop, safe_q_pop_wait, blocked, popped, Call, push, pop, run,
}
use picasso_lang.TaskQueue.Fifo.Cells.{Cells, has, IsQueue, snoc, push_cells, take_head_cells}

pop_empty :
    (nodes : Nodes) (q : SafeQueue) → q.head ≡ null → safe_q_pop q nodes ≡ some (null, q, nodes)
unfolding safe_q_pop
pop_empty nodes q e = ground arith

pop_full :
    (nodes : Nodes) (q : SafeQueue) (a : Ptr)
    → q.head ≡ a
    → a ≢ null
    → safe_q_pop q nodes ≡ take_head q nodes
unfolding safe_q_pop
pop_full nodes q a e ne = ground arith

-- On a queue with cells `safe_q_pop_wait` does what `safe_q_pop` does; on the empty queue it blocks, where
-- `safe_q_pop` returns NULL at once.
pub safe_q_pop_wait_cases :
    (nodes : Nodes) (q : SafeQueue) (cs : Cells)
    → IsQueue nodes q cs
    → ((cs ≡ [])
        × (safe_q_pop_wait q nodes ≡ blocked)
        × (safe_q_pop q nodes ≡ some (null, q, nodes)))
      ⊎ ((cs ≢ []) × (safe_q_pop_wait q nodes ≡ popped (safe_q_pop q nodes)))
unfolding safe_q_pop_wait safe_q_pop
safe_q_pop_wait_cases nodes q [] is = inl (refl, ground arith, ground arith)
safe_q_pop_wait_cases nodes q ((a, t) ∷ cs) is = inr (λ e. cc, ground arith)

-- The tasks of a queue, oldest first.
abbrev pub tasks : Cells → List Ptr
tasks [] = []
tasks ((a, t) ∷ cs) = t ∷ tasks cs

tasks-snoc : (a t : Ptr) (cs : Cells) → tasks (snoc cs a t) ≡ tasks cs ++ (t ∷ [])
tasks-snoc a t [] = refl
tasks-snoc a t ((b, u) ∷ cs) = ap (λ ts. u ∷ ts) (tasks-snoc a t cs)

-- What a first-in first-out queue of tasks returns for the same calls: NULL for a pop on the empty queue.
unfoldable pub fifo : List Ptr → List Call → List Ptr
fifo ts [] = []
fifo ts (push a t ∷ calls) = fifo (ts ++ (t ∷ [])) calls
fifo [] (pop ∷ calls) = null ∷ fifo [] calls
fifo (t ∷ ts) (pop ∷ calls) = t ∷ fifo ts calls

-- Every push gets an address that is not NULL and that no node in the queue has.
abbrev pub Supplied : Cells → List Call → Type 0
Supplied cs [] = Unit
Supplied cs (push a t ∷ calls) = (a ≢ null) × (has a cs ≡ false) × Supplied (snoc cs a t) calls
Supplied [] (pop ∷ calls) = Supplied [] calls
Supplied (c ∷ cs) (pop ∷ calls) = Supplied cs calls

-- A queue with the given cells answers any sequence of pushes and pops as the first-in first-out queue of
-- its tasks does, with no fault, if every push gets an address that no node in the queue has.
pub run_refines :
    (calls : List Call) (cs : Cells) {nodes : Nodes} {q : SafeQueue}
    → IsQueue nodes q cs
    → Supplied cs calls
    → run q nodes calls ≡ some (fifo (tasks cs) calls)
unfolding run fifo
run_refines [] cs is ok = refl
run_refines (push a t ∷ calls) cs {nodes} {q} is ok =
    let (q', nodes', e, is') = push_cells nodes q a t cs ok.0 ok.1 is in
    rw (e, run)
      (run_refines calls (snoc cs a t) is' ok.2
        ∙ ap (λ ts. some (fifo ts calls)) (tasks-snoc a t cs))
run_refines (pop ∷ calls) [] {nodes} {q} is ok =
    rw (pop_empty nodes q is.head, run) (rw (run_refines calls [] is ok) refl)
run_refines (pop ∷ calls) ((a, t) ∷ cs) {nodes} {q} is ok =
    let (q', nodes', e, is') = take_head_cells nodes q a t cs is in
    rw (pop_full nodes q a is.head is.chain.0 ∙ e, run) (rw (run_refines calls cs is' ok) refl)
