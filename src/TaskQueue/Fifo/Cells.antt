-- ===== src/TaskQueue/Fifo/Cells.antt =====
-- The linked queue of runtime/src/queue.c as a list of cells, and what a push and a pop do to them.
use mathlib.Core.Path.{subst}
use picasso_lang.Base.{
  ◌≡◌, ◌≢◌, refl, sym, Bool, false, ◌||◌, Option, none, some, List, [], ◌∷◌, ◌++◌, arith, ◌==◌,
}
use picasso_lang.Alloc.State.{Ptr, null}
use picasso_lang.TaskQueue.Fifo.{TaskNode, node, Nodes, write, SafeQueue, safe_q_push, take_head}

-- Where the nodes of a queue are, with their tasks, oldest first.
abbrev pub Cells : Type 0
Cells = List (Ptr × Ptr)

abbrev pub has : Ptr → Cells → Bool
has a [] = false
has a ((b, t) ∷ cs) = (a == b) || has a cs

abbrev pub first : Cells → Ptr
first [] = null
first ((a, t) ∷ cs) = a

abbrev pub last : Cells → Ptr
last [] = null
last ((a, t) ∷ []) = a
last ((a, t) ∷ c ∷ cs) = last (c ∷ cs)

-- Each node holds its task and the address of the next, and no two share an address.
abbrev pub Chain : Nodes → Cells → Type 0
Chain nodes [] = Unit
Chain nodes ((a, t) ∷ cs) =
    (a ≢ null) × (nodes a ≡ some (node t (first cs))) × (has a cs ≡ false) × Chain nodes cs

-- The store holds the nodes of the queue and no others.
pub record IsQueue (nodes : Nodes) (q : SafeQueue) (cs : Cells) : Type 0 where
  pub chain : Chain nodes cs
  pub head : q.head ≡ first cs
  pub tail : q.tail ≡ last cs
  pub exact : (a : Ptr) → has a cs ≡ false → nodes a ≡ none

abbrev pub snoc : Cells → Ptr → Ptr → Cells
snoc cs a t = cs ++ ((a, t) ∷ [])

has-snoc : (x a t : Ptr) (cs : Cells) → has x (snoc cs a t) ≡ (has x cs || (x == a))
has-snoc x a t [] = ground arith
has-snoc x a t ((b, u) ∷ cs) = ground (arith, has-snoc x a t cs)

not-snoc :
    (x a t : Ptr) (cs : Cells)
    → has x (snoc cs a t) ≡ false
    → (has x cs ≡ false) × ((x == a) ≡ false)
not-snoc x a t cs h = ground (arith, has-snoc x a t cs)

last-snoc : (a t : Ptr) (cs : Cells) → last (snoc cs a t) ≡ a
last-snoc a t [] = refl
last-snoc a t (c ∷ []) = refl
last-snoc a t (c ∷ d ∷ cs) = last-snoc a t (d ∷ cs)

-- An address that no cell has is not that of the last one.
not-last :
    (a : Ptr) (c : Ptr × Ptr) (cs : Cells) → has a (c ∷ cs) ≡ false → (a == last (c ∷ cs)) ≡ false
not-last a (b, t) [] h = ground arith
not-last a (b, t) (c ∷ cs) h = not-last a c cs (ground arith)

-- The nodes of a chain stay a chain when other addresses are written.
Chain-write :
    (nodes : Nodes) (p : Ptr) (c : Option TaskNode) (cs : Cells)
    → has p cs ≡ false
    → Chain nodes cs
    → Chain (write nodes p c) cs
unfolding write
Chain-write nodes p c [] h ch = tt
Chain-write nodes p c ((a, t) ∷ cs) h ch =
    (ch.0, ground arith, ch.2, Chain-write nodes p c cs (ground arith) ch.3)

module _ (nodes : Nodes) (fresh t : Ptr) (ne : fresh ≢ null) where
  -- Linking a new node behind the last one.
  Chain-snoc :
      (c : Ptr × Ptr) (cs : Cells)
      → Chain nodes (c ∷ cs)
      → has fresh (c ∷ cs) ≡ false
      → (u : Ptr) × (nodes (last (c ∷ cs)) ≡ some (node u null))
        × Chain
            (write (write nodes fresh (some (node t null))) (last (c ∷ cs)) (some (node u fresh)))
            (snoc (c ∷ cs) fresh t)
  unfolding write
  Chain-snoc (a, u) [] ch h =
      (u, ch.1, (ch.0, ground arith, ground arith, (ne, ground arith, refl, tt)))
  Chain-snoc (a, u) (c ∷ cs) ch h =
      let (v, e, rest) = Chain-snoc c cs ch.3 (ground arith) in
      (
        v,
        e,
        (ch.0, ground (arith, not-last a c cs), ground (arith, has-snoc a fresh t (c ∷ cs)), rest),
      )

last-ne-null :
    (nodes : Nodes) (c : Ptr × Ptr) (cs : Cells) → Chain nodes (c ∷ cs) → last (c ∷ cs) ≢ null
last-ne-null nodes c [] ch = ch.0
last-ne-null nodes c (d ∷ cs) ch = last-ne-null nodes d cs ch.3

-- The operations on the abstract queue.
module _ (nodes : Nodes) (q : SafeQueue) where
  linked_at :
      (fresh t end v : Ptr)
      → fresh ≢ null
      → end ≢ null
      → (fresh == end) ≡ false
      → q.tail ≡ end
      → nodes end ≡ some (node v null)
      → safe_q_push fresh q t nodes
        ≡ some (
          record q { tail = fresh },
          write (write nodes fresh (some (node t null))) end (some (node v fresh)),
        )
  unfolding safe_q_push
  linked_at fresh t end v ne some_end apart is_tail e = ground arith

  unused_after :
      (x fresh end : Ptr) (c d : Option TaskNode)
      → (x == fresh) ≡ false
      → (x == end) ≡ false
      → nodes x ≡ none
      → write (write nodes fresh c) end d x ≡ none
  unfolding write
  unused_after x fresh end c d p r e = ground arith

  -- A push of a task at an unused address appends it.
  pub push_cells :
      (fresh t : Ptr) (cs : Cells)
      → fresh ≢ null
      → has fresh cs ≡ false
      → IsQueue nodes q cs
      → (q' : SafeQueue) × (nodes' : Nodes) × (safe_q_push fresh q t nodes ≡ some (q', nodes'))
        × IsQueue nodes' q' (snoc cs fresh t)
  unfolding safe_q_push
  push_cells fresh t [] ne h is = (
    record q { head = fresh; tail = fresh },
    write nodes fresh (some (node t null)),
    ground arith,
    record {
      chain = (ne, ground arith, refl, tt);
      head = refl;
      tail = refl;
      exact = λ a o. ground (arith, is.exact a);
    },
  )
  push_cells fresh t ((b, u) ∷ cs) ne h is =
      let end = last ((b, u) ∷ cs) in
      let (v, e, linked) = Chain-snoc nodes fresh t ne (b, u) cs is.chain h in
      let apart = not-last fresh (b, u) cs h in
      let some_end = last-ne-null nodes (b, u) cs is.chain in
      (
        record q { tail = fresh },
        write (write nodes fresh (some (node t null))) end (some (node v fresh)),
        linked_at fresh t end v ne some_end apart is.tail e,
        record {
          chain = linked;
          head = is.head;
          tail = sym (last-snoc fresh t ((b, u) ∷ cs));
          exact = λ x o.
              let (old, new) = not-snoc x fresh t ((b, u) ∷ cs) o in
              unused_after x fresh end (some (node t null)) (some (node v fresh)) new
                (not-last x (b, u) cs old) (is.exact x old);
        },
      )

  -- A pop takes the oldest task, and its node is released.
  pub take_head_cells :
      (a t : Ptr) (cs : Cells)
      → IsQueue nodes q ((a, t) ∷ cs)
      → (q' : SafeQueue) × (nodes' : Nodes) × (take_head q nodes ≡ some (t, q', nodes'))
        × IsQueue nodes' q' cs
  unfolding take_head
  take_head_cells a t [] is = (
    record q { head = null; tail = null },
    write nodes q.head none,
    ground arith,
    record { chain = tt; head = refl; tail = refl; exact = λ x o. ground (arith, is.exact x) },
  )
  take_head_cells a t ((b, u) ∷ cs) is = (
    record q { head = b },
    write nodes q.head none,
    ground arith,
    record {
      chain =
          subst (λ p. Chain (write nodes p none) ((b, u) ∷ cs)) (sym is.head)
            (Chain-write nodes a none ((b, u) ∷ cs) is.chain.2 is.chain.3);
      head = refl;
      tail = is.tail;
      exact = λ x o. ground (arith, is.exact x);
    },
  )
