-- ===== src/Gc/Tests.antt =====
-- The mark phase and the sweep of runtime/src/gc.c at concrete inputs.
use picasso_lang.Base.{
  none, ◌-◌, ◌^◌, ℕ, suc, ◌+◌, ◌≤◌, ◌<◌, ◌≡◌, ◌≢◌, ◌⊎◌, ◌↔◌, inl, inr, refl, List, [], ◌∷◌, some,
  false, arith, ◌==◌, if◌then◌else◌,
}
use picasso_lang.Alloc.State.{Ptr, null, Mem, Span, Arena, done}
use picasso_lang.Alloc.Chunk.{size_at, size_bits}
use picasso_lang.Alloc.Create.{blank}
use picasso_lang.Alloc.Tiles.{IsChunk, Holds}
use picasso_lang.Gc.Mark.{find_chunk_in_heap, gc_mark, Root}
use picasso_lang.Gc.Mark.Find.{find_chunk_in_heap_iff}
use picasso_lang.Gc.Mark.Pointed.{IsHeader}
use picasso_lang.Gc.Mark.Marks.{MarksPointed, gc_mark-MarksPointed}
use picasso_lang.Gc.Mark.Exact.{Examined}
use picasso_lang.TaskQueue.Ring.{
  Meta, Ring, SafeRing, bad_unlock, then_do, safe_gcq_init, done as finished_with,
}
use picasso_lang.Gc.Roots.{
  Registry, gc_init, gc_register_root, gc_unregister_root, gc_unregister_root_lone,
  gc_unregister_root-gc_register_root,
}
use picasso_lang.Gc.Sweep.{sweep_from, heaps_of, gc_collect}
use picasso_lang.Gc.Sweep.Headers.{is_marked, Swept}
use picasso_lang.Gc.Sweep.Swept.{sweep_from-Swept}
use picasso_lang.Gc.Spans.{Each, Outside}
use picasso_lang.Gc.Sweep.Collected.{IsFilled, ChunksCollected, gc_collect-Collected}

-- A heap from 0x1000 to 0x1070 with two chunks in use, of 32 and 48 bytes. The first word of the first
-- chunk points into the second, and the only word of the stack at 0x800 points into the first.
abbrev mem : Mem
mem a =
    if a == 0x1008
    then 37
    else if a == 0x1038
    then 53
    else if a == 0x1010
    then 0x1040
    else if a == 0x800
    then 0x1010
    else 0

abbrev heap : Span
heap = record { start = 0x1000; end = 0x1070 }

abbrev task : Root
task = record {
  finished = false;
  ctx = record {
    stack_base = 0x800;
    stack_size = 8;
    stack_pointer = 0x800;
    regs = 0 ∷ [];
    pc = 0x400;
  };
}

find_chunk_in_heap_iff_example :
    (find_chunk_in_heap mem heap 0x1044 ≡ some 0x1030)
    ↔ (IsChunk 0x1000 (32 ∷ 48 ∷ []) 0x1030 × Holds mem 0x1030 0x1044)
find_chunk_in_heap_iff_example =
    find_chunk_in_heap_iff mem heap 0x1044 0x1030 (32 ∷ 48 ∷ []) (refl, (refl, refl))

abbrev sizes : Span → List ℕ
sizes h = if h.start == 0x1000 then 32 ∷ 48 ∷ [] else 32 ∷ []

stack_apart : IsHeader sizes (heap ∷ []) 0x800 → ⊥
stack_apart (inl (inl e)) = omega arith
stack_apart (inl (inr (inl e))) = omega arith
stack_apart (inl (inr (inr i))) = i
stack_apart (inr i) = i

gc_mark-MarksPointed_example :
    MarksPointed sizes
      (heap ∷ [])
      mem
      (Examined mem (task ∷ []))
      (gc_mark (heap ∷ []) (suc 0) (task ∷ []) mem)
gc_mark-MarksPointed_example =
    gc_mark-MarksPointed sizes (heap ∷ []) mem ((refl, (refl, refl)), tt) (tt, tt) 0 (task ∷ [])
      ((stack_apart, tt), tt)

-- The same heap, with a mark on the first chunk only.
abbrev marked_heap : Arena
marked_heap = blank (λ a. if a == 0x1000 then 1 else mem a) []

sweep_from-Swept_example :
    (after : Arena) × (sweep_from 112 0x1070 0x1000 marked_heap ≡ done tt after)
    × Swept marked_heap.mem after.mem 0x1000 (32 ∷ 48 ∷ [])
    × ((w : Ptr) → (w < 0x1000) ⊎ (0x1070 ≤ w) → after.mem w ≡ marked_heap.mem w)
sweep_from-Swept_example =
    sweep_from-Swept 112 marked_heap 0x1000 0x1070 (32 ∷ 48 ∷ []) (omega arith) (omega arith)
      (omega arith, (omega arith, omega arith)) (refl, (refl, refl))
      ((λ plain used. omega arith), ((λ plain used. omega arith), omega arith))

-- A second arena, with a heap of one chunk that is in use.
abbrev two_mem : Mem
two_mem a = if a == 0x2008 then 37 else mem a

abbrev heap2 : Span
heap2 = record { start = 0x2000; end = 0x2030 }

abbrev arenas : List Arena
arenas =
    record (blank two_mem []) { alloced_heaps = heap ∷ [] }
    ∷ record (blank two_mem []) { alloced_heaps = heap2 ∷ [] }
    ∷ []

two_apart : IsHeader sizes (heap ∷ heap2 ∷ []) 0x800 → ⊥
two_apart (inl (inl e)) = omega arith
two_apart (inl (inr (inl e))) = omega arith
two_apart (inl (inr (inr i))) = i
two_apart (inr (inl (inl e))) = omega arith
two_apart (inr (inl (inr i))) = i
two_apart (inr (inr i)) = i

heap_plain : (c : Ptr) → IsChunk 0x1000 (32 ∷ 48 ∷ []) c → is_marked two_mem c ≡ false
heap_plain c (inl e) = rw⁻¹ e refl
heap_plain c (inr (inl e)) = rw⁻¹ e refl
heap_plain c (inr (inr i)) = absurd i

heap_small : (c : Ptr) → IsChunk 0x1000 (32 ∷ 48 ∷ []) c → size_bits (two_mem (c + size_at)) ≤ 112
heap_small c (inl e) = rw⁻¹ e (omega arith)
heap_small c (inr (inl e)) = rw⁻¹ e (omega arith)
heap_small c (inr (inr i)) = absurd i

heap2_plain : (c : Ptr) → IsChunk 0x2000 (32 ∷ []) c → is_marked two_mem c ≡ false
heap2_plain c (inl e) = rw⁻¹ e refl
heap2_plain c (inr i) = absurd i

heap2_small : (c : Ptr) → IsChunk 0x2000 (32 ∷ []) c → size_bits (two_mem (c + size_at)) ≤ 112
heap2_small c (inl e) = rw⁻¹ e (omega arith)
heap2_small c (inr i) = absurd i

first-IsFilled : IsFilled sizes (heaps_of arenas) two_mem (task ∷ []) heap
first-IsFilled = record {
  placed = omega arith;
  room = (omega arith, (omega arith, omega arith));
  tiles = (refl, (refl, refl));
  plain = heap_plain;
  small = λ c i off used. heap_small c i;
}

second-IsFilled : IsFilled sizes (heaps_of arenas) two_mem (task ∷ []) heap2
second-IsFilled = record {
  placed = omega arith;
  room = (omega arith, omega arith);
  tiles = (refl, refl);
  plain = heap2_plain;
  small = λ c i off used. heap2_small c i;
}

-- The second chunk of the first heap is freed, though the first one, which is kept, points into it.
gc_collect-Collected_example :
    (ars' : List Arena) × (mem' : Mem) × (gc_collect (suc 0) (task ∷ []) arenas two_mem
      ≡ some (ars', mem'))
    × Each (ChunksCollected sizes (heaps_of arenas) two_mem (task ∷ []) mem') (heaps_of arenas)
    × ((w : Ptr) → Each (Outside w) (heaps_of arenas) → mem' w ≡ two_mem w)
gc_collect-Collected_example =
    gc_collect-Collected sizes 0 (task ∷ []) arenas two_mem ((inl (omega arith), tt), (tt, tt))
      (first-IsFilled, (second-IsFilled, tt)) ((two_apart, tt), tt)

-- No root yet, and the one root 1 with its node 0x10.
abbrev blank_ring : Ring
blank_ring = record { size_limit = 0; nodes = λ a. none; slot = λ u. null; head = null }

abbrev no_roots : Registry
no_roots = gc_init blank_ring (record { arenas = []; global_arena = none; roots = none })

gc_unregister_root_lone_example :
    (g' : Registry) × (q' : SafeRing) × (gc_register_root 0x20 2 no_roots ≡ finished_with g')
    × (g'.roots ≡ some q')
    × (q'.held ≡ false)
    × (q'.ring.head ≡ 0x20)
    × (gc_unregister_root 2 g' ≡ bad_unlock)
unfolding gc_init safe_gcq_init
gc_unregister_root_lone_example =
    gc_unregister_root_lone 0x20 2 no_roots (safe_gcq_init (2 ^ 31 - 1) blank_ring) refl refl refl
      (omega arith) (omega arith)

abbrev one_root : Meta
one_root = record { fd = 0x10; bk = 0x10; t = 1 }

abbrev root_ring : SafeRing
root_ring = record {
  ring = record {
    size_limit = 4;
    nodes = λ a. if a == 0x10 then some one_root else none;
    slot = λ u. if u == 1 then 0x10 else null;
    head = 0x10;
  };
  held = false;
}

gc_unregister_root-gc_register_root_example :
    (g' : Registry) × (q' : SafeRing) × (then_do
        (gc_register_root 0x20 2
          (record { arenas = []; global_arena = none; roots = some root_ring }))
        (gc_unregister_root 2)
      ≡ finished_with g')
    × (g'.roots ≡ some q')
    × (g'.arenas ≡ [])
    × (q'.held ≡ false)
    × ((a : Ptr) → q'.ring.nodes a ≡ root_ring.ring.nodes a)
    × (q'.ring.head ≡ 0x10)
    × (q'.ring.slot 2 ≡ null)
    × ((u : Ptr) → u ≢ 2 → q'.ring.slot u ≡ root_ring.ring.slot u)
gc_unregister_root-gc_register_root_example =
    gc_unregister_root-gc_register_root
      (record { arenas = []; global_arena = none; roots = some root_ring }) root_ring one_root
      one_root 0x20 2 refl refl
      (record { some_head = λ e. omega arith; at_head = refl; at_back = refl; linked = refl })
      (omega arith) (omega arith) refl
