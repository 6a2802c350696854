-- ===== src/Gc/Sweep.antt =====
-- The sweep phase of runtime/src/gc.c and a whole collection, over the arenas that share a memory.
-- A collection runs with the mutators stopped (`gc_stop_the_world`), so it is one function here.
pub mod Headers
pub mod Swept
pub mod Heaps
pub mod Collected
use picasso_lang.Base.{
  ℕ, zero, suc, ◌+◌, ◌-◌, List, [], ◌∷◌, ◌++◌, Option, none, some, ltb, if◌then◌else◌, has_bit,
  unset_bit,
}
use picasso_lang.Alloc.State.{
  Ptr, Mem, poke, Span, Arena, M, done, aborted, out_of_fuel, pure, ◌>>=◌, ◌>>◌, get, modify,
}
use picasso_lang.Alloc.Sizes.{header_size}
use picasso_lang.Alloc.Chunk.{size_at, curr_in_use_flag, gc_mark_flag, size_bits}
use picasso_lang.Alloc.Api.{release}
use picasso_lang.Gc.Mark.{Root, gc_mark}

-- One chunk: a mark is cleared, an unmarked chunk in use is released.
unfoldable pub sweep_chunk : Ptr → M (Unit {0})
unfolding poke release
sweep_chunk chunk = do
  ar ← get
  if has_bit (ar.mem chunk) gc_mark_flag
      then modify (λ s. record s { mem = poke s.mem chunk (unset_bit (s.mem chunk) gc_mark_flag) })
      else if has_bit (ar.mem (chunk + size_at)) curr_in_use_flag
      then release (chunk + header_size)
      else pure tt

-- Each round moves on by the size that the chunk had before it was swept.
unfoldable pub sweep_from : ℕ → Ptr → Ptr → M (Unit {0})
unfolding sweep_chunk
sweep_from zero end scan = pure tt
sweep_from (suc k) end scan =
    let round = (do
      ar ← get
      sweep_chunk scan
      sweep_from k end (scan + header_size + size_bits (ar.mem (scan + size_at)))) in
    if ltb scan end then round else pure tt

unfoldable pub sweep_heaps : List Span → M (Unit {0})
unfolding sweep_from
sweep_heaps [] = pure tt
sweep_heaps (h ∷ hs) = do sweep_from (h.end - h.start) h.end h.start; sweep_heaps hs

-- `gc_sweep`: the arenas in turn, each over the memory that the one before has left.
unfoldable pub gc_sweep : List Arena → Mem → Option (List Arena × Mem)
unfolding sweep_heaps
gc_sweep [] mem = some ([], mem)
gc_sweep (ar ∷ ars) mem =
    let rest = λ (m : Mem). gc_sweep ars m in
    elim (sweep_heaps ar.alloced_heaps (record ar { mem = mem })) [
      | done _ ar' ↦ elim (rest ar'.mem) [
        | none ↦ none
        | some (ars', mem') ↦ some (ar' ∷ ars', mem')
      ]
      | aborted ↦ none
      | out_of_fuel ↦ none
    ]

abbrev pub heaps_of : List Arena → List Span
heaps_of [] = []
heaps_of (ar ∷ ars) = ar.alloced_heaps ++ heaps_of ars

unfoldable pub gc_collect : ℕ → List Root → List Arena → Mem → Option (List Arena × Mem)
unfolding gc_mark gc_sweep
gc_collect fuel roots arenas mem = elim (gc_mark (heaps_of arenas) fuel roots mem) [
  | none ↦ none
  | some mem' ↦ gc_sweep arenas mem'
]
