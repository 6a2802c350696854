-- ===== src/Gc/Spans.antt =====
-- The heaps of the arenas that runtime/src/gc.c goes through, as spans of addresses.
use picasso_lang.Base.{◌≤◌, ◌<◌, ◌⊎◌, inl, inr, List, [], ◌∷◌, ◌++◌, arith}
use picasso_lang.Alloc.State.{Ptr, Span}

abbrev pub Each : (Span → Type 0) → List Span → Type 0
Each P [] = Unit
Each P (h ∷ hs) = P h × Each P hs

pub Each-map :
    {P Q : Span → Type 0} → ((h : Span) → P h → Q h) → (hs : List Span) → Each P hs → Each Q hs
Each-map f [] ps = tt
Each-map f (h ∷ hs) ps = (f h ps.0, Each-map f hs ps.1)

pub Each-split :
    (P : Span → Type 0) (hs hs' : List Span) → Each P (hs ++ hs') → Each P hs × Each P hs'
Each-split P [] hs' ps = (tt, ps)
Each-split P (h ∷ hs) hs' ps = let (one, two) = Each-split P hs hs' ps.1 in ((ps.0, one), two)

pub Each-join :
    (P : Span → Type 0) (hs hs' : List Span) → Each P hs → Each P hs' → Each P (hs ++ hs')
Each-join P [] hs' ps qs = qs
Each-join P (h ∷ hs) hs' ps qs = (ps.0, Each-join P hs hs' ps.1 qs)

abbrev pub Apart : Span → Span → Type 0
Apart h h' = (h.end ≤ h'.start) ⊎ (h'.end ≤ h.start)

pub Apart-sym : (h h' : Span) → Apart h h' → Apart h' h
Apart-sym h h' (inl l) = inr l
Apart-sym h h' (inr l) = inl l

-- No two heaps share a word.
abbrev pub AreDisjoint : List Span → Type 0
AreDisjoint [] = Unit
AreDisjoint (h ∷ hs) = Each (Apart h) hs × AreDisjoint hs

abbrev pub Outside : Ptr → Span → Type 0
Outside w h = (w < h.start) ⊎ (h.end ≤ w)

pub Outside-Each :
    (w : Ptr) (h : Span) (hs : List Span)
    → h.start ≤ w
    → w < h.end
    → Each (Apart h) hs
    → Each (Outside w) hs
Outside-Each w h hs l u =
    Each-map (λ h' a. elim a [ inl x ↦ inl (omega arith) | inr x ↦ inr (omega arith) ]) hs
