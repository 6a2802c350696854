-- ===== src/Alloc/Tiles/Fields.antt =====
-- Which words of a heap of runtime/src/alloc.c are sizes, and where a link may point.
use picasso_lang.Base.{
  ℕ, ◌+◌, ◌≤◌, ◌<◌, ◌≡◌, ◌≢◌, ◌⊎◌, inl, inr, refl, sym, ap, ◌∙◌, true, false, ℕ_discrete, List, [],
  ◌∷◌, ◌++◌, ◌==◌, arith,
}
use picasso_lang.Alloc.State.{Ptr, Mem, poke}
use picasso_lang.Alloc.Sizes.{header_size}
use picasso_lang.Alloc.Chunk.{size_at, size_bits}
use picasso_lang.Alloc.Tiles.{Tiles, IsChunk}

-- Where chunks of the payload sizes `ns` end that begin at `a`.
abbrev pub span : Ptr → List ℕ → Ptr
span a [] = a
span a (n ∷ ns) = span (a + header_size + n) ns

-- Every payload has room for the four links.
abbrev pub HasRoom : List ℕ → Type 0
HasRoom [] = 0 ≤ 0
HasRoom (n ∷ ns) = (32 ≤ n) × HasRoom ns

-- The word at `w` is the size of none of the chunks.
abbrev pub NoSize : Ptr → List ℕ → Ptr → Type 0
NoSize a [] w = 0 ≤ 0
NoSize a (n ∷ ns) w = (w ≢ a + size_at) × NoSize (a + header_size + n) ns w

-- Where a link may point: to a chunk of this heap, or outside it as to the head of a bin.
abbrev pub IsTarget : Ptr → List ℕ → Ptr → Type 0
IsTarget a ns x = IsChunk a ns x ⊎ ((x + 48 ≤ a) ⊎ (span a ns ≤ x))

pub span-ge : (a : Ptr) (ns : List ℕ) → a ≤ span a ns
span-ge a [] = omega arith
span-ge a (n ∷ ns) = omega (arith, span-ge (a + header_size + n) ns)

pub span-append : (a : Ptr) (ns ms : List ℕ) → span a (ns ++ ms) ≡ span (span a ns) ms
span-append a [] ms = refl
span-append a (n ∷ ns) ms = span-append (a + header_size + n) ns ms

pub Tiles-span : (mem : Mem) (a e : Ptr) (ns : List ℕ) → Tiles mem a ns e → span a ns ≡ e
Tiles-span mem a e [] t = t
Tiles-span mem a e (n ∷ ns) t = Tiles-span mem (a + header_size + n) e ns t.1

pub NoSize-below : (a w : Ptr) (ns : List ℕ) → w < a + size_at → NoSize a ns w
NoSize-below a w [] h = omega arith
NoSize-below a w (n ∷ ns) h = (omega arith, NoSize-below (a + header_size + n) w ns (omega arith))

pub NoSize-above : (a w : Ptr) (ns : List ℕ) → span a ns ≤ w → NoSize a ns w
NoSize-above a w [] h = omega arith
NoSize-above a w (n ∷ ns) h =
    let far = span-ge (a + header_size + n) ns in
    (omega arith, NoSize-above (a + header_size + n) w ns h)

pub NoSize-append :
    (a w : Ptr) (ns ms : List ℕ) → NoSize a ns w → NoSize (span a ns) ms w → NoSize a (ns ++ ms) w
NoSize-append a w [] ms free free' = free'
NoSize-append a w (n ∷ ns) ms free free' =
    (free.0, NoSize-append (a + header_size + n) w ns ms free.1 free')

-- The first word behind a chunk, in which the next one keeps a size.
pub NoSize-behind :
    (a : Ptr) (ns : List ℕ) (n : ℕ) (ms : List ℕ)
    → NoSize a (ns ++ n ∷ ms) (span a ns + header_size + n + 0)
NoSize-behind a ns n ms =
    let w = span a ns + header_size + n + 0 in
    NoSize-append a w ns (n ∷ ms) (NoSize-above a w ns (omega arith))
      (omega arith, NoSize-below (span a ns + header_size + n) w ms (omega arith))

pub IsChunk-le :
    (a x : Ptr) (ns : List ℕ) → HasRoom ns → IsChunk a ns x → (a ≤ x) × (x + 48 ≤ span a ns)
IsChunk-le a x [] room i = absurd i
IsChunk-le a x (n ∷ ns) room (inl e) =
    let far = span-ge (a + header_size + n) ns in (omega arith, omega (arith, room.0))
IsChunk-le a x (n ∷ ns) room (inr i) =
    let (above, below) = IsChunk-le (a + header_size + n) x ns room.1 i in (omega arith, below)

IsChunk-NoSize :
    (a x k : Ptr) (ns : List ℕ)
    → HasRoom ns
    → IsChunk a ns x
    → 16 ≤ k
    → k < 48
    → NoSize a ns (x + k)
IsChunk-NoSize a x k [] room i lo hi = absurd i
IsChunk-NoSize a x k (n ∷ ns) room (inl e) lo hi =
    (omega arith, NoSize-below (a + header_size + n) (x + k) ns (omega (arith, room.0)))
IsChunk-NoSize a x k (n ∷ ns) room (inr i) lo hi =
    let (above, below) = IsChunk-le (a + header_size + n) x ns room.1 i in
    (omega arith, IsChunk-NoSize (a + header_size + n) x k ns room.1 i lo hi)

-- A link is never the size of a chunk.
pub IsTarget-NoSize :
    (a x k : Ptr) (ns : List ℕ)
    → HasRoom ns
    → IsTarget a ns x
    → 16 ≤ k
    → k < 48
    → NoSize a ns (x + k)
IsTarget-NoSize a x k ns room (inl i) lo hi = IsChunk-NoSize a x k ns room i lo hi
IsTarget-NoSize a x k ns room (inr (inl below)) lo hi = NoSize-below a (x + k) ns (omega arith)
IsTarget-NoSize a x k ns room (inr (inr above)) lo hi = NoSize-above a (x + k) ns (omega arith)

-- Two chunks are the same or do not overlap, in their headers and links.
pub IsChunk-apart :
    (a x y : Ptr) (ns : List ℕ)
    → HasRoom ns
    → IsChunk a ns x
    → IsTarget a ns y
    → (x ≡ y) ⊎ ((x + 48 ≤ y) ⊎ (y + 48 ≤ x))
IsChunk-apart a x y ns room i (inr (inl below)) =
    let (lo, hi) = IsChunk-le a x ns room i in inr (inr (omega arith))
IsChunk-apart a x y ns room i (inr (inr above)) =
    let (lo, hi) = IsChunk-le a x ns room i in inr (inl (omega arith))
IsChunk-apart a x y [] room i (inl j) = absurd i
IsChunk-apart a x y (n ∷ ns) room (inl e) (inl (inl e')) = inl (omega arith)
IsChunk-apart a x y (n ∷ ns) room (inl e) (inl (inr j)) =
    let (lo, hi) = IsChunk-le (a + header_size + n) y ns room.1 j in
    inr (inl (omega (arith, room.0)))
IsChunk-apart a x y (n ∷ ns) room (inr i) (inl (inl e')) =
    let (lo, hi) = IsChunk-le (a + header_size + n) x ns room.1 i in
    inr (inr (omega (arith, room.0)))
IsChunk-apart a x y (n ∷ ns) room (inr i) (inl (inr j)) =
    IsChunk-apart (a + header_size + n) x y ns room.1 i (inl j)

pub poke-Tiles :
    (mem : Mem) (a e w v : Ptr) (ns : List ℕ)
    → NoSize a ns w
    → Tiles mem a ns e
    → Tiles (poke mem w v) a ns e
unfolding poke
poke-Tiles mem a e w v [] free t = t
poke-Tiles mem a e w v (n ∷ ns) free t = (
  let other : (a + size_at == w) ≡ false = ground (arith, free.0) in rw other t.0,
  poke-Tiles mem (a + header_size + n) e w v ns free.1 t.1,
)

-- A write to a size that keeps the size bits.
pub poke_same-Tiles :
    (mem : Mem) (a e w v : Ptr) (ns : List ℕ)
    → size_bits v ≡ size_bits (mem w)
    → Tiles mem a ns e
    → Tiles (poke mem w v) a ns e
unfolding poke
poke_same-Tiles mem a e w v [] same t = t
poke_same-Tiles mem a e w v (n ∷ ns) same t = (
  elim (ℕ_discrete (a + size_at) w) [
    | yes at ↦
        let here : (a + size_at == w) ≡ true = ground arith in
        rw here (same ∙ ap (λ x. size_bits (mem x)) (sym at) ∙ t.0)
    | no ne ↦ let other : (a + size_at == w) ≡ false = ground arith in rw other t.0
  ],
  poke_same-Tiles mem (a + header_size + n) e w v ns same t.1,
)
