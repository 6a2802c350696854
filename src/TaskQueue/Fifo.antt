-- ===== src/TaskQueue/Fifo.antt =====
-- The thread-safe FIFO `safe_queue_t` of runtime/src/queue.c over a store of nodes. Each function holds
-- the queue's mutex round its body, so a call is one step. A node lives at the address that `allocate`
-- returned; addresses are arguments, and `none` is an access to an address that holds no node. What
-- `pthread_cond_signal` does is seen in `safe_q_pop_wait`, which blocks while the queue is empty.
pub mod Cells
pub mod Refine
use picasso_lang.Base.{ℕ, Option, none, some, List, [], ◌∷◌, ◌==◌, if◌then◌else◌}
use picasso_lang.Alloc.State.{Ptr, null}

-- `task_node_t`
pub record TaskNode : Type 0 where
  pub t : Ptr
  pub next : Ptr

abbrev pub node : Ptr → Ptr → TaskNode
node t next = record { t = t; next = next }

abbrev pub Nodes : Type 0
Nodes = Ptr → Option TaskNode

unfoldable pub write : Nodes → Ptr → Option TaskNode → Nodes
write nodes p c a = if a == p then c else nodes a

-- `safe_queue_t`, less its mutex and condition variable.
pub record SafeQueue : Type 0 where
  pub size_limit : ℕ
  pub head : Ptr
  pub tail : Ptr

unfoldable pub safe_q_init : ℕ → SafeQueue
safe_q_init size = record { size_limit = size; head = null; tail = null }

-- `fresh` is what `allocate` returns. The limit is not looked at.
unfoldable pub safe_q_push : Ptr → SafeQueue → Ptr → Nodes → Option (SafeQueue × Nodes)
unfolding write
safe_q_push fresh q t nodes =
    let nodes' = write nodes fresh (some (node t null)) in
    if fresh == null
    then none
    else if q.tail == null
    then some (record q { head = fresh; tail = fresh }, nodes')
    else elim (nodes' q.tail) [
      | none ↦ none
      | some last ↦
          some
            (record q { tail = fresh }, write nodes' q.tail (some (record last { next = fresh })))
    ]

-- The body that both pops share, on a queue that is not empty: unlink the head and release its node.
unfoldable pub take_head : SafeQueue → Nodes → Option (Ptr × SafeQueue × Nodes)
unfolding write
take_head q nodes = elim (nodes q.head) [
  | none ↦ none
  | some n ↦ some (
    n.t,
    record q { head = n.next; tail = if n.next == null then null else q.tail },
    write nodes q.head none,
  )
]

-- NULL for an empty queue.
unfoldable pub safe_q_pop : SafeQueue → Nodes → Option (Ptr × SafeQueue × Nodes)
safe_q_pop q nodes = if q.head == null then some (null, q, nodes) else take_head q nodes

pub data Wait : Type 0 where
  blocked : Wait
  popped : Option (Ptr × SafeQueue × Nodes) → Wait

-- The caller waits for a signal while the queue is empty, and then looks again.
unfoldable pub safe_q_pop_wait : SafeQueue → Nodes → Wait
safe_q_pop_wait q nodes = if q.head == null then blocked else popped (take_head q nodes)

-- The calls of a client: a push with the address of its node, and the two pops.
pub data Call : Type 0 where
  push : Ptr → Ptr → Call
  pop : Call

-- What the calls return, in order: the task of each pop.
unfoldable pub run : SafeQueue → Nodes → List Call → Option (List Ptr)
run q nodes [] = some []
run q nodes (push fresh t ∷ calls) = elim (safe_q_push fresh q t nodes) [
  | none ↦ none
  | some (q', nodes') ↦ run q' nodes' calls
]
run q nodes (pop ∷ calls) = elim (safe_q_pop q nodes) [
  | none ↦ none
  | some (t, q', nodes') ↦ elim (run q' nodes' calls) [ none ↦ none | some ts ↦ some (t ∷ ts) ]
]
