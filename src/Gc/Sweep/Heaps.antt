-- ===== src/Gc/Sweep/Heaps.antt =====
-- The sweep of runtime/src/gc.c over the heaps of an arena and over the arenas.
use picasso_lang.Base.{ℕ, ◌-◌, ◌≡◌, ◌≢◌, refl, sym, ◌∙◌, List, [], ◌∷◌, ◌++◌, some, arith}
use picasso_lang.Alloc.State.{Ptr, null, Mem, Span, Arena, done}
use picasso_lang.Alloc.Tiles.{Tiles}
use picasso_lang.Alloc.Tiles.Fields.{HasRoom}
use picasso_lang.Gc.Sweep.{sweep_heaps, gc_sweep, heaps_of}
use picasso_lang.Gc.Sweep.Headers.{
  Swept, GarbageIsSmall, SameWords, Tiles-within, GarbageIsSmall-within, Swept-within,
}
use picasso_lang.Gc.Sweep.Swept.{sweep_from-Swept}
use picasso_lang.Gc.Spans.{
  Each, Each-map, Each-split, Each-join, Apart, Apart-sym, AreDisjoint, Outside, Outside-Each,
}

abbrev pub SameIn : Mem → Mem → Span → Type 0
SameIn mem mem1 h = SameWords h.start h.end mem mem1

-- Chunks with room for their links fill the heap, and what a sweep is to release has at most 112 bytes.
pub record IsSweepable (sizes : Span → List ℕ) (mem : Mem) (h : Span) : Type 0 where
  pub placed : h.start ≢ null
  pub room : HasRoom (sizes h)
  pub tiles : Tiles mem h.start (sizes h) h.end
  pub small : GarbageIsSmall mem h.start (sizes h)

abbrev pub IsSwept : (Span → List ℕ) → Mem → Mem → Span → Type 0
IsSwept sizes mem mem' h = Swept mem mem' h.start (sizes h)

-- The sweep of `hs` from `mem` to `mem'`: each heap is swept, and no word outside them changes.
pub record AreSwept (sizes : Span → List ℕ) (mem mem' : Mem) (hs : List Span) : Type 0 where
  pub each : Each (IsSwept sizes mem mem') hs
  pub others : (w : Ptr) → Each (Outside w) hs → mem' w ≡ mem w

module _ (sizes : Span → List ℕ) where
  IsSweepable-same :
      {mem mem1 : Mem} (h : Span)
      → SameIn mem mem1 h
      → IsSweepable sizes mem h
      → IsSweepable sizes mem1 h
  IsSweepable-same {mem} {mem1} h same ok = record {
    placed = ok.placed;
    room = ok.room;
    tiles = Tiles-within mem mem1 h.start h.end (sizes h) same ok.tiles;
    small = GarbageIsSmall-within mem mem1 h.start h.end (sizes h) same ok.tiles ok.small;
  }

  IsSweepable-after :
      (mem mem1 : Mem) (hs : List Span)
      → Each (SameIn mem mem1) hs
      → Each (IsSweepable sizes mem) hs
      → Each (IsSweepable sizes mem1) hs
  IsSweepable-after mem mem1 [] same ok = tt
  IsSweepable-after mem mem1 (h ∷ hs) same ok =
      (IsSweepable-same h same.0 ok.0, IsSweepable-after mem mem1 hs same.1 ok.1)

  -- What is swept stays swept, where the heaps that are swept later are apart.
  IsSwept-stays :
      (mem mem1 mem' : Mem) (hs hs' : List Span)
      → Each (IsSweepable sizes mem) hs
      → Each (λ h. Each (Apart h) hs') hs
      → ((w : Ptr) → Each (Outside w) hs' → mem' w ≡ mem1 w)
      → Each (IsSwept sizes mem mem1) hs
      → Each (IsSwept sizes mem mem') hs
  IsSwept-stays mem mem1 mem' [] hs' ok apart others swept = tt
  IsSwept-stays mem mem1 mem' (h ∷ hs) hs' ok apart others swept = (
    Swept-within mem mem mem1 mem' h.start h.end (sizes h) (λ w l u. refl)
        (λ w l u. others w (Outside-Each w h hs' l u apart.0)) ok.0.tiles swept.0,
    IsSwept-stays mem mem1 mem' hs hs' ok.1 apart.1 others swept.1,
  )

  IsSwept-before :
      (mem mem1 mem' : Mem) (hs : List Span)
      → Each (IsSweepable sizes mem) hs
      → Each (SameIn mem mem1) hs
      → Each (IsSwept sizes mem1 mem') hs
      → Each (IsSwept sizes mem mem') hs
  IsSwept-before mem mem1 mem' [] ok same swept = tt
  IsSwept-before mem mem1 mem' (h ∷ hs) ok same swept = (
    Swept-within mem1 mem mem' mem' h.start h.end (sizes h) (λ w l u. sym (same.0 w l u))
        (λ w l u. refl) (IsSweepable-same h same.0 ok.0).tiles swept.0,
    IsSwept-before mem mem1 mem' hs ok.1 same.1 swept.1,
  )

  -- The sweep of the heaps `hs` and then that of `hs'`.
  AreSwept-join :
      (mem mem1 mem' : Mem) (hs hs' : List Span)
      → Each (IsSweepable sizes mem) hs
      → Each (IsSweepable sizes mem) hs'
      → Each (λ h. Each (Apart h) hs') hs
      → Each (SameIn mem mem1) hs'
      → AreSwept sizes mem mem1 hs
      → AreSwept sizes mem1 mem' hs'
      → AreSwept sizes mem mem' (hs ++ hs')
  AreSwept-join mem mem1 mem' hs hs' ok ok' apart same one two = record {
    each =
        Each-join (IsSwept sizes mem mem') hs hs'
          (IsSwept-stays mem mem1 mem' hs hs' ok apart two.others one.each)
          (IsSwept-before mem mem1 mem' hs' ok' same two.each);
    others = λ w out.
        let (o, o') = Each-split (Outside w) hs hs' out in two.others w o' ∙ one.others w o;
  }

  -- Memories that agree but for `hs` agree on the heaps that are apart from them.
  same-Apart :
      (mem mem1 : Mem) (hs hs' : List Span)
      → Each (λ h. Each (Apart h) hs') hs
      → ((w : Ptr) → Each (Outside w) hs → mem1 w ≡ mem w)
      → Each (SameIn mem mem1) hs'
  same-Apart mem mem1 hs [] apart others = tt
  same-Apart mem mem1 hs (h' ∷ hs') apart others = (
    (λ w l u. others w (Outside-Each w h' hs l u (Each-map (λ h a. Apart-sym h h' a.0) hs apart))),
    same-Apart mem mem1 hs hs' (Each-map (λ h a. a.1) hs apart) others,
  )

  sweep_heaps-AreSwept :
      (hs : List Span) (s : Arena)
      → Each (IsSweepable sizes s.mem) hs
      → AreDisjoint hs
      → (after : Arena) × (sweep_heaps hs s ≡ done tt after) × AreSwept sizes s.mem after.mem hs
  unfolding sweep_heaps
  sweep_heaps-AreSwept [] s ok apart = (s, refl, record { each = tt; others = λ w o. refl })
  sweep_heaps-AreSwept (h ∷ hs) s ok apart =
      let (s1, run1, swept, stays) =
        sweep_from-Swept (h.end - h.start) s h.start h.end (sizes h) ok.0.placed (omega arith)
          ok.0.room ok.0.tiles ok.0.small in
      let one : AreSwept sizes s.mem s1.mem (h ∷ []) = record {
        each = (swept, tt);
        others = λ w o. stays w o.0;
      } in
      let same : Each (SameIn s.mem s1.mem) hs =
        same-Apart s.mem s1.mem (h ∷ []) hs (apart.0, tt) one.others in
      let (after, run2, two) =
        sweep_heaps-AreSwept hs s1 (IsSweepable-after s.mem s1.mem hs same ok.1) apart.1 in
      (
        after,
        rw run1 run2,
        AreSwept-join s.mem s1.mem after.mem (h ∷ []) hs (ok.0, tt) ok.1 (apart.0, tt) same one two,
      )

AreDisjoint-split :
    (hs hs' : List Span)
    → AreDisjoint (hs ++ hs')
    → AreDisjoint hs × AreDisjoint hs' × Each (λ h. Each (Apart h) hs') hs
AreDisjoint-split [] hs' d = (tt, d, tt)
AreDisjoint-split (h ∷ hs) hs' d =
    let (mine, others) = Each-split (Apart h) hs hs' d.0 in
    let (one, two, apart) = AreDisjoint-split hs hs' d.1 in ((mine, one), two, (others, apart))

gc_sweep-cons :
    (ar after : Arena) (ars ars' : List Arena) (m m' : Mem)
    → sweep_heaps ar.alloced_heaps (record ar { mem = m }) ≡ done tt after
    → gc_sweep ars after.mem ≡ some (ars', m')
    → gc_sweep (ar ∷ ars) m ≡ some (after ∷ ars', m')
unfolding gc_sweep
gc_sweep-cons ar after ars ars' m m' sweeps rest = rw (gc_sweep, sweeps) (rw rest refl)

-- Let the heaps of the arenas be disjoint and sweepable. Then the sweep of the arenas ends and sweeps each of them.
pub gc_sweep-AreSwept :
    (sizes : Span → List ℕ) (ars : List Arena) (m : Mem)
    → Each (IsSweepable sizes m) (heaps_of ars)
    → AreDisjoint (heaps_of ars)
    → (ars' : List Arena) × (m' : Mem) × (gc_sweep ars m ≡ some (ars', m'))
      × AreSwept sizes m m' (heaps_of ars)
unfolding gc_sweep
gc_sweep-AreSwept sizes [] m ok d = ([], m, refl, record { each = tt; others = λ w o. refl })
gc_sweep-AreSwept sizes (ar ∷ ars) m ok d =
    let hs = ar.alloced_heaps in
    let hs' = heaps_of ars in
    let (mine, theirs) = Each-split (IsSweepable sizes m) hs hs' ok in
    let (d1, d2, apart) = AreDisjoint-split hs hs' d in
    let (after, run1, one) = sweep_heaps-AreSwept sizes hs (record ar { mem = m }) mine d1 in
    let same = same-Apart sizes m after.mem hs hs' apart one.others in
    let (ars', m', run2, two) =
      gc_sweep-AreSwept sizes ars after.mem (IsSweepable-after sizes m after.mem hs' same theirs)
        d2 in
    (
      after ∷ ars',
      m',
      gc_sweep-cons ar after ars ars' m m' run1 run2,
      AreSwept-join sizes m after.mem m' hs hs' mine theirs apart same one two,
    )
