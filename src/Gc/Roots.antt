-- ===== src/Gc/Roots.antt =====
-- What runtime/src/gc.c registers: the arenas that it sweeps and the ring of the tasks whose stacks it reads.
use picasso_lang.Base.{
  ℕ, ◌+◌, ◌-◌, ◌^◌, ◌≡◌, ◌≢◌, refl, true, false, List, [], ◌∷◌, ◌++◌, Option, none, some, length,
  ltb, ◌==◌, if◌then◌else◌, arith,
}
use picasso_lang.Alloc.State.{Ptr, null, Arena}
use picasso_lang.TaskQueue.Ring.{
  Meta, Ring, SafeRing, Locked, done, bad_unlock, aborted, update, then_do, safe_gcq_init,
  safe_gcq_push, safe_gcq_remove, unsafe_ioq_push, lock, unlock, unlink,
}
use picasso_lang.TaskQueue.Ring.Unlink.{
  IsRing, pushed, removed, push-pushed, unlink-removed, nodes_back, head_old, fresh_head,
  fresh_back,
}

-- `MAX_ARENAS`
abbrev pub max_arenas : ℕ
max_arenas = 12

-- `arenas` with `arenas_count`, `global_arena` and `roots`, which is NULL at first.
pub record Registry : Type 0 where
  pub arenas : List Arena
  pub global_arena : Option Arena
  pub roots : Option SafeRing

-- The ring that `malloc` has room for is `blank`.
unfoldable pub gc_init : Ring → Registry → Registry
gc_init blank g = record g { roots = some (safe_gcq_init (2 ^ 31 - 1) blank) }

-- `created` is what `arena_create` returns.
unfoldable pub gc_create_global_arena : Arena → Registry → Registry
gc_create_global_arena created g = record g { global_arena = some created }

unfoldable pub gc_create_arena : Arena → Registry → Option Arena × Registry
gc_create_arena created g =
    if ltb max_arenas (length g.arenas + 1)
    then (none, g)
    else (some created, record g { arenas = g.arenas ++ (created ∷ []) })

-- The assertions end the program. `fresh` is the node that `allocate` returns.
unfoldable pub gc_register_root : Ptr → Ptr → Registry → Locked Registry
unfolding safe_gcq_push
gc_register_root fresh t g = elim g.roots [
  | none ↦ aborted
  | some q ↦
      if t == null
      then aborted
      else then_do (safe_gcq_push fresh t q) λ q'. done (record g { roots = some q' })
]

unfoldable pub gc_unregister_root : Ptr → Registry → Locked Registry
unfolding safe_gcq_remove
gc_unregister_root t g = elim g.roots [
  | none ↦ aborted
  | some q ↦
      if t == null
      then aborted
      else then_do (safe_gcq_remove t q) λ r. done (record g { roots = some r.1 })
]

self : (a : Ptr) → (a == a) ≡ true
self a = ground arith

-- Where the mutex of the roots is free and there is no root, the registration of a task, with a node and an address
-- that are not NULL, ends. If the task is then unregistered, the program gives back the mutex of the roots while it is
-- not held, which is undefined.
pub gc_unregister_root_lone :
    (fresh t : Ptr) (g : Registry) (q : SafeRing)
    → g.roots ≡ some q
    → q.held ≡ false
    → q.ring.head ≡ null
    → t ≢ null
    → fresh ≢ null
    → (g' : Registry) × (q' : SafeRing) × (gc_register_root fresh t g ≡ done g')
      × (g'.roots ≡ some q')
      × (q'.held ≡ false)
      × (q'.ring.head ≡ fresh)
      × (gc_unregister_root t g' ≡ bad_unlock)
unfolding gc_register_root gc_unregister_root safe_gcq_push safe_gcq_remove unsafe_ioq_push lock
    unlock unlink
gc_unregister_root_lone fresh t g q some_q free empty ne fresh_ne =
    let t_there : (t == null) ≡ false = ground arith in
    let node : (fresh == null) ≡ false = ground arith in
    let none_there : (q.ring.head == null) ≡ true = ground arith in
    let q' : SafeRing = record {
      ring = record q.ring {
        slot = update q.ring.slot t fresh;
        nodes = update q.ring.nodes fresh (some (record { fd = fresh; bk = fresh; t = t }));
        head = fresh;
      };
      held = false;
    } in
    (
      record g { roots = some q' },
      q',
      simp (gc_register_root, some_q, t_there, node, free, none_there),
      refl,
      refl,
      refl,
      simp (gc_unregister_root, t_there, node, self t, self fresh),
    )

module _ (g : Registry) (q : SafeRing) (h b : Meta) (fresh t : Ptr) (some_q : g.roots ≡ some q)
    (free : q.held ≡ false) (ring : IsRing q.ring h b) (ne : t ≢ null) (fresh_ne : fresh ≢ null)
    (unused : q.ring.nodes fresh ≡ none) where
  abbrev between : SafeRing
  between = record { ring = pushed q.ring h b fresh t ring fresh_ne unused; held = false }

  abbrev behind : SafeRing
  behind = record { ring = removed q.ring h b fresh t ring fresh_ne unused; held = false }

  safe_gcq_push-between : safe_gcq_push fresh t q ≡ done between
  unfolding safe_gcq_push lock unlock
  safe_gcq_push-between =
      let node : (fresh == null) ≡ false = ground arith in
      simp (node, free, push-pushed q.ring h b fresh t ring fresh_ne unused)

  safe_gcq_remove-behind : safe_gcq_remove t between ≡ done (true, behind)
  unfolding safe_gcq_remove lock unlock
  safe_gcq_remove-behind =
      let node : (fresh == null) ≡ false = ground arith in
      simp (
        self t,
        self fresh,
        node,
        head_old q.ring h b fresh t ring fresh_ne unused,
        fresh_head q.ring h b fresh t ring fresh_ne unused,
        fresh_back q.ring h b fresh t ring fresh_ne unused,
        unlink-removed q.ring h b fresh t ring fresh_ne unused,
      )

  -- Where there are roots, linked both ways at the head, and their mutex is free, a task that is registered with a node
  -- that none of them uses, and is then unregistered, leaves the roots as they were: every node, the head and the slots
  -- of the other tasks. Its own slot is NULL, the mutex is free, and the arenas are the same.
  pub gc_unregister_root-gc_register_root :
      (g' : Registry) × (q' : SafeRing) × (then_do
          (gc_register_root fresh t g)
          (gc_unregister_root t)
        ≡ done g')
      × (g'.roots ≡ some q')
      × (g'.arenas ≡ g.arenas)
      × (q'.held ≡ false)
      × ((a : Ptr) → q'.ring.nodes a ≡ q.ring.nodes a)
      × (q'.ring.head ≡ q.ring.head)
      × (q'.ring.slot t ≡ null)
      × ((u : Ptr) → u ≢ t → q'.ring.slot u ≡ q.ring.slot u)
  unfolding gc_register_root gc_unregister_root
  gc_unregister_root-gc_register_root =
      let t_there : (t == null) ≡ false = ground arith in
      (
        record g { roots = some behind },
        behind,
        simp (
          gc_register_root, gc_unregister_root, some_q, t_there, safe_gcq_push-between,
          safe_gcq_remove-behind,
        ),
        refl,
        refl,
        refl,
        nodes_back q.ring h b fresh t ring fresh_ne unused,
        refl,
        ground arith,
        λ u un. ground arith,
      )
