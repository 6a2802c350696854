-- ===== src/Gc/Mark/Exact.antt =====
-- What the whole mark phase of runtime/src/gc.c marks: the targets of the values that it reads from the
-- stacks and registers of the registered tasks, and nothing that is reached through another chunk.
use picasso_lang.Base.{
  ap, ◌∙◌, ℕ, zero, suc, ◌+◌, ◌-◌, ◌/◌, ◌≡◌, ◌≢◌, refl, ◌⊎◌, inl, inr, not, Bool, true, false, ◌||◌,
  List, [], ◌∷◌, Option, some, ltb, Bool-cases, if◌then◌else◌,
}
use picasso_lang.Alloc.State.{Ptr, Mem, Span}
use picasso_lang.Gc.Mark.{
  try_mark_pointer, mark_words, gc_mark_mem_region, mark_values, gc_mark_registers, gc_mark_task,
  Ctx, Root, mark_roots, gc_mark,
}
use picasso_lang.Gc.Mark.Target.{
  target, MarksOnly, Marked, Marked-none, Marked-try, Marked-nonzero, Marked-bind, Marked-mono,
}

-- A word of `n` words from `p` on, if it is not zero.
abbrev pub InWords : Mem → ℕ → Ptr → ℕ → Type 0
InWords mem zero p v = ⊥
InWords mem (suc n) p v = ((v ≡ mem p) × (v ≢ 0)) ⊎ InWords mem n (p + 8) v

abbrev pub InValues : List ℕ → ℕ → Type 0
InValues [] v = ⊥
InValues (x ∷ xs) v = ((v ≡ x) × (v ≢ 0)) ⊎ InValues xs v

-- No word from `p` on is the header of a chunk that some value points into.
abbrev pub Quiet : List Span → Mem → ℕ → Ptr → Type 0
Quiet heaps mem zero p = Unit
Quiet heaps mem (suc n) p = ((v : ℕ) → target heaps mem v ≢ some p) × Quiet heaps mem n (p + 8)

-- A word that is no such header is as it was at the start.
abbrev Untouched : List Span → Mem → Mem → Type 0
Untouched heaps mem m = (p : Ptr) → ((v : ℕ) → target heaps mem v ≢ some p) → m p ≡ mem p

-- The values that the collector reads of a task: none, if its stack pointer is outside its stack.
abbrev pub stack_holds : Ctx → Bool
stack_holds c =
    not (ltb c.stack_pointer c.stack_base || ltb (c.stack_base + c.stack_size) c.stack_pointer)

abbrev pub stack_words : Ctx → ℕ
stack_words c = (c.stack_base + c.stack_size - c.stack_base) / 8

abbrev pub InTask : Mem → Ctx → ℕ → Type 0
InTask mem c v =
    (stack_holds c ≡ true)
    × (InWords mem (stack_words c) c.stack_base v
        ⊎ (InValues c.regs v ⊎ ((v ≡ c.stack_pointer) ⊎ (v ≡ c.pc))))

-- The values that a mark phase examines.
abbrev pub Examined : Mem → List Root → ℕ → Type 0
Examined mem [] v = ⊥
Examined mem (r ∷ rs) v = ((r.finished ≡ false) × InTask mem r.ctx v) ⊎ Examined mem rs v

-- The tasks' stacks hold no chunk header.
abbrev pub QuietStacks : List Span → Mem → List Root → Type 0
QuietStacks heaps mem [] = Unit
QuietStacks heaps mem (r ∷ rs) =
    Quiet heaps mem (stack_words r.ctx) r.ctx.stack_base × QuietStacks heaps mem rs

module _ {heaps : List Span} {mem : Mem} (k : ℕ) where
  Untouched-after :
      {Seen : ℕ → Type 0} {m : Mem} {r : Option Mem}
      → (first : Marked heaps mem Seen m r) → Untouched heaps mem m
      → Untouched heaps mem first.out
  Untouched-after first u p q = first.skips p (λ v s. q v) ∙ u p q

  mark_words-Marked :
      (n : ℕ) {m : Mem} (p : Ptr)
      → MarksOnly mem m
      → Quiet heaps mem n p
      → Untouched heaps mem m
      → Marked heaps mem (InWords mem n p) m (mark_words (try_mark_pointer heaps (suc k)) n m p)
  unfolding mark_words
  mark_words-Marked zero p only q u = Marked-none only
  mark_words-Marked (suc n) {m} p only q u =
      let first = Marked-nonzero {heaps = heaps} k (m p) only in
      Marked-mono
        (Marked-bind _ first (mark_words-Marked n (p + 8) first.only q.1 (Untouched-after first u)))
        (λ v. rw (u p q.0) ((λ s. s), λ s. s))

  mark_values-Marked :
      (vs : List ℕ) {m : Mem}
      → MarksOnly mem m
      → Marked heaps mem (InValues vs) m (mark_values (try_mark_pointer heaps (suc k)) vs m)
  unfolding mark_values
  mark_values-Marked [] only = Marked-none only
  mark_values-Marked (x ∷ xs) {m} only =
      let first = Marked-nonzero {heaps = heaps} k x only in
      Marked-bind _ first (mark_values-Marked xs first.only)

  gc_mark_registers-Marked :
      (c : Ctx) {m : Mem}
      → MarksOnly mem m
      → Marked heaps mem
          (λ v. InValues c.regs v ⊎ ((v ≡ c.stack_pointer) ⊎ (v ≡ c.pc)))
          m
          (gc_mark_registers (try_mark_pointer heaps (suc k)) c m)
  unfolding gc_mark_registers
  gc_mark_registers-Marked c only =
      let regs = mark_values-Marked c.regs only in
      let sp = Marked-try {heaps = heaps} k c.stack_pointer regs.only in
      Marked-bind _ regs (Marked-bind _ sp (Marked-try k c.pc sp.only))

  gc_mark_task-Marked :
      (c : Ctx) {m : Mem}
      → MarksOnly mem m
      → Quiet heaps mem (stack_words c) c.stack_base
      → Untouched heaps mem m
      → Marked heaps mem (InTask mem c) m (gc_mark_task (try_mark_pointer heaps (suc k)) c m)
  unfolding gc_mark_task gc_mark_mem_region
  gc_mark_task-Marked c {m} only q u =
      elim (Bool-cases
        (ltb c.stack_pointer c.stack_base || ltb (c.stack_base + c.stack_size) c.stack_pointer)) [
          | inl e ↦
              rw e
                (Marked-mono (Marked-none only) (λ v. ((λ s. absurd s), λ s. cc (s.0, ap not e))))
          | inr e ↦ rw e (
              let words = mark_words-Marked (stack_words c) c.stack_base only q u in
              Marked-mono (Marked-bind _ words (gc_mark_registers-Marked c words.only))
                (λ v. ((λ s. (ap not e, s)), λ s. s.1)))
        ]

  mark_roots-Marked :
      (roots : List Root) {m : Mem}
      → MarksOnly mem m
      → QuietStacks heaps mem roots
      → Untouched heaps mem m
      → Marked heaps mem
          (Examined mem roots)
          m
          (mark_roots (try_mark_pointer heaps (suc k)) roots m)
  unfolding mark_roots
  mark_roots-Marked [] only q u = Marked-none only
  mark_roots-Marked (r ∷ rs) {m} only q u =
      Marked-bind _ first (mark_roots-Marked rs first.only q.1 (Untouched-after first u))
    where
      first :
          Marked heaps mem
            (λ v. (r.finished ≡ false) × InTask mem r.ctx v)
            m
            (if r.finished then some m else gc_mark_task (try_mark_pointer heaps (suc k)) r.ctx m)
      first = elim (Bool-cases r.finished) [
        | inl e ↦ rw e (Marked-mono (Marked-none only) (λ v. ((λ s. absurd s), λ s. cc (s.0))))
        | inr e ↦
            rw e (
              Marked-mono (gc_mark_task-Marked r.ctx only q.0 u)
                (λ v. ((λ s. (refl, s)), λ s. s.1)))
      ]

-- With fuel for one call the mark phase ends. It sets marks only. A chunk in use that a value from the
-- stacks and registers of the unfinished tasks points into is marked. The word of any other chunk stays
-- as it was, also where a marked chunk points to it: nothing is traced from chunk to chunk. Hypothesis:
-- no word of a task's stack is the header of a chunk.
pub gc_mark-Marked :
    (heaps : List Span) (k : ℕ) (roots : List Root) (mem : Mem)
    → QuietStacks heaps mem roots
    → Marked heaps mem (Examined mem roots) mem (gc_mark heaps (suc k) roots mem)
unfolding gc_mark
gc_mark-Marked heaps k roots mem q = mark_roots-Marked k roots (λ a. inl refl) q (λ p h. refl)
