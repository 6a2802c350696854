-- ===== src/Gc/Sweep/Swept.antt =====
-- What the sweep of runtime/src/gc.c does to a heap that chunks fill.
use picasso_lang.Base.{
  ℕ, zero, suc, ◌+◌, ◌≤◌, ◌<◌, ◌≡◌, ◌≢◌, ◌⊎◌, inl, inr, refl, sym, ap, ◌∙◌, true, false, Bool,
  Bool-cases, List, [], ◌∷◌, ltb, if◌then◌else◌, arith, unset_bit,
}
use picasso_lang.Alloc.State.{Ptr, null, poke, Arena, M, done, pure, modify}
use picasso_lang.Alloc.Sizes.{header_size}
use picasso_lang.Alloc.Chunk.{size_at, gc_mark_flag, size_bits}
use picasso_lang.Alloc.Tiles.{Tiles, Tiles-le}
use picasso_lang.Alloc.Tiles.Fields.{HasRoom}
use picasso_lang.Alloc.Api.{release}
use picasso_lang.Alloc.Api.Fast.{fast_released, release_fast}
use picasso_lang.Gc.Sweep.{sweep_chunk, sweep_from}
use picasso_lang.Gc.Sweep.Headers.{
  is_marked, is_used, swept_first, swept_size, Swept, GarbageIsSmall, SameWords, Tiles-within,
  GarbageIsSmall-within, Swept-within,
}

-- The words below and above the chunk stay.
pub record OneSwept (s after : Arena) (a : Ptr) (n : ℕ) : Type 0 where
  pub first : after.mem a ≡ swept_first s.mem a
  pub size : after.mem (a + size_at) ≡ swept_size s.mem a
  pub below : (w : Ptr) → w < a → after.mem w ≡ s.mem w
  pub above : (w : Ptr) → a + header_size + n ≤ w → after.mem w ≡ s.mem w

abbrev clear_mark : Ptr → M (Unit {0})
clear_mark a = modify (λ t. record t { mem = poke t.mem a (unset_bit (t.mem a) gc_mark_flag) })

sweep_chunk-OneSwept :
    (s : Arena) (a : Ptr) (n : ℕ)
    → a ≢ null
    → size_bits (s.mem (a + size_at)) ≡ n
    → 32 ≤ n
    → (is_marked s.mem a ≡ false → is_used s.mem a ≡ true → n ≤ 112)
    → (after : Arena) × (sweep_chunk a s ≡ done tt after) × OneSwept s after a n
unfolding sweep_chunk poke
sweep_chunk-OneSwept s a n ne size room small = elim (Bool-cases (is_marked s.mem a)) [
  | inl marked ↦ (
    record s { mem = poke s.mem a (unset_bit (s.mem a) gc_mark_flag) },
    ap
        (λ (b : Bool).
          (if b
              then clear_mark a
              else if is_used s.mem a
              then release (a + header_size)
              else pure tt)
            s)
        marked,
    record {
      first = rw marked (ground arith);
      size = rw marked (ground arith);
      below = λ w l. ground arith;
      above = λ w l. ground arith;
    },
  )
  | inr plain ↦ elim (Bool-cases (is_used s.mem a)) [
    | inl used ↦ (
      fast_released a n s,
      ap
            (λ (b : Bool).
              (if b
                  then clear_mark a
                  else if is_used s.mem a
                  then release (a + header_size)
                  else pure tt)
                s)
            plain
          ∙ ap (λ (b : Bool). (if b then release (a + header_size) else pure tt) s) used
          ∙ release_fast a s n ne size room (small plain used),
      record {
        first = rw plain (ground arith);
        size = rw (plain, used) (ground arith);
        below = λ w l. ground arith;
        above = λ w l. ground arith;
      },
    )
    | inr free ↦ (
      s,
      rw (plain, free) refl,
      record {
        first = rw plain refl;
        size = rw (plain, free) refl;
        below = λ w l. refl;
        above = λ w l. refl;
      },
    )
  ]
]

-- Let chunks with room for their links fill a heap, and let each of those that are in use and have no mark be of at
-- most 112 bytes. With as many rounds as the heap has bytes the sweep ends: a chunk with a mark only loses it, a chunk
-- in use without one is no longer in use, every other header is as it was, and nothing outside the heap changes.
pub sweep_from-Swept :
    (k : ℕ) (s : Arena) (a e : Ptr) (ns : List ℕ)
    → a ≢ null
    → e ≤ a + k
    → HasRoom ns
    → Tiles s.mem a ns e
    → GarbageIsSmall s.mem a ns
    → (after : Arena) × (sweep_from k e a s ≡ done tt after)
      × Swept s.mem after.mem a ns
      × ((w : Ptr) → (w < a) ⊎ (e ≤ w) → after.mem w ≡ s.mem w)
unfolding sweep_from
sweep_from-Swept zero s a e [] ne fuel room t small = (s, refl, omega arith, λ w l. refl)
sweep_from-Swept zero s a e (n ∷ ns) ne fuel room t small =
    absurd (let far = Tiles-le s.mem (a + header_size + n) e ns t.1 in omega arith)
sweep_from-Swept (suc k) s a e [] ne fuel room t small =
    let ended : ltb a e ≡ false = ground arith in (s, rw ended refl, omega arith, λ w l. refl)
sweep_from-Swept (suc k) s a e (n ∷ ns) ne fuel room t small =
    let far = Tiles-le s.mem (a + header_size + n) e ns t.1 in
    let more : ltb a e ≡ true = ground arith in
    let (s1, run1, one) = sweep_chunk-OneSwept s a n ne t.0 room.0 small.0 in
    let next = a + header_size + n in
    let same : SameWords next e s.mem s1.mem = λ w l h. one.above w l in
    let (after, run2, rest, stays) =
      sweep_from-Swept k s1 next e ns (omega arith) (omega arith) room.1
        (Tiles-within s.mem s1.mem next e ns same t.1)
        (GarbageIsSmall-within s.mem s1.mem next e ns same t.1 small.1) in
    (
      after,
      rw more (rw (t.0) (rw run1 run2)),
      (
        stays a (inl (omega arith)) ∙ one.first,
        stays (a + size_at) (inl (omega arith)) ∙ one.size,
        Swept-within s1.mem s.mem after.mem after.mem next e ns (λ w l h. sym (one.above w l))
            (λ w l h. refl) (Tiles-within s.mem s1.mem next e ns same t.1) rest,
      ),
      λ w out. elim out [
        | inl l ↦ stays w (inl (omega arith)) ∙ one.below w l
        | inr l ↦ stays w (inr l) ∙ one.above w (omega arith)
      ],
    )
