-- ===== src/Alloc/Tiles/Words.antt =====
-- The headers and links of the chunks of a heap of runtime/src/alloc.c, and a chunk that takes in the one behind it.
use mathlib.Core.Path.{subst}
use picasso_lang.Base.{
  ℕ, ◌+◌, ◌≤◌, ◌<◌, ◌≡◌, ◌≢◌, ◌⊎◌, inl, inr, refl, sym, ap, true, false, List, [], ◌∷◌, ◌++◌, ◌==◌,
  arith,
}
use picasso_lang.Alloc.State.{Ptr, Mem, poke}
use picasso_lang.Alloc.Sizes.{header_size}
use picasso_lang.Alloc.Chunk.{size_at, size_bits}
use picasso_lang.Alloc.Tiles.{Tiles, IsChunk}
use picasso_lang.Alloc.Tiles.Fields.{
  span, HasRoom, IsTarget, span-ge, NoSize-below, IsChunk-le, IsChunk-apart, poke-Tiles,
}

-- The chunk behind the chunks `ns` takes in the one behind it.
pub merge-Tiles :
    (mem : Mem) (a e v : Ptr) (ns : List ℕ) (n m : ℕ) (ms : List ℕ)
    → size_bits v ≡ n + header_size + m
    → Tiles mem a (ns ++ n ∷ m ∷ ms) e
    → Tiles (poke mem (span a ns + size_at) v) a (ns ++ (n + header_size + m) ∷ ms) e
unfolding poke
merge-Tiles mem a e v [] n m ms new t =
    let far : a + header_size + n + header_size + m ≡ a + header_size + (n + header_size + m) =
      omega arith in
    (
      let here : (a + size_at == a + size_at) ≡ true = ground arith in rw here new,
      subst (λ x. Tiles (poke mem (a + size_at) v) x ms e) far
          (poke-Tiles mem (a + header_size + n + header_size + m) e (a + size_at) v ms
            (NoSize-below (a + header_size + n + header_size + m) (a + size_at) ms (omega arith))
            t.1.1),
    )
merge-Tiles mem a e v (p ∷ ns) n m ms new t =
    let behind = span-ge (a + header_size + p) ns in
    let other : (a + size_at == span (a + header_size + p) ns + size_at) ≡ false = ground arith in
    (rw other t.0, merge-Tiles mem (a + header_size + p) e v ns n m ms new t.1)

-- Where a header stands: a chunk, or the end of the last.
abbrev pub IsSpot : Ptr → List ℕ → Ptr → Type 0
IsSpot a ns x = IsChunk a ns x ⊎ (x ≡ span a ns)

pub IsSpot-behind :
    (a : Ptr) (ns : List ℕ) (n : ℕ) (ms : List ℕ)
    → IsSpot a (ns ++ n ∷ ms) (span a ns + header_size + n)
IsSpot-behind a [] n [] = inr refl
IsSpot-behind a [] n (m ∷ ms) = inl (inr (inl refl))
IsSpot-behind a (p ∷ ns) n ms = elim (IsSpot-behind (a + header_size + p) ns n ms) [
  | inl i ↦ inl (inr i)
  | inr at ↦ inr at
]

-- The words of a header are no links.
pub header_apart :
    (a x y h k : Ptr) (ns : List ℕ)
    → HasRoom ns
    → IsSpot a ns x
    → IsTarget a ns y
    → h < 16
    → 16 ≤ k
    → k < 48
    → x + h ≢ y + k
header_apart a x y h k ns room (inl i) target small lo hi e =
    elim (IsChunk-apart a x y ns room i target) [
      | inl same ↦ omega arith
      | inr (inl below) ↦ omega arith
      | inr (inr above) ↦ omega arith
    ]
header_apart a x y h k ns room (inr at) (inl j) small lo hi e =
    let (above, below) = IsChunk-le a y ns room j in omega arith
header_apart a x y h k ns room (inr at) (inr (inl below)) small lo hi e =
    let far = span-ge a ns in omega arith
header_apart a x y h k ns room (inr at) (inr (inr above)) small lo hi e = omega arith

-- Two fields of chunks are different words.
pub fields_apart :
    (a x y h k : Ptr) (ns : List ℕ)
    → HasRoom ns
    → IsChunk a ns x
    → IsTarget a ns y
    → h < 48
    → k < 48
    → h ≢ k
    → x + h ≢ y + k
fields_apart a x y h k ns room i target lh lk ne e = elim (IsChunk-apart a x y ns room i target) [
  | inl same ↦ ne (omega arith)
  | inr (inl below) ↦ omega arith
  | inr (inr above) ↦ omega arith
]

-- The chunk behind the chunks `ns`.
pub IsChunk-span :
    (a : Ptr) (ns : List ℕ) (n : ℕ) (ms : List ℕ) → IsChunk a (ns ++ n ∷ ms) (span a ns)
IsChunk-span a [] n ms = inl refl
IsChunk-span a (p ∷ ns) n ms = inr (IsChunk-span (a + header_size + p) ns n ms)

pub Tiles-size :
    (mem : Mem) (a e : Ptr) (ns : List ℕ) (n : ℕ) (ms : List ℕ)
    → Tiles mem a (ns ++ n ∷ ms) e
    → size_bits (mem (span a ns + size_at)) ≡ n
Tiles-size mem a e [] n ms t = t.0
Tiles-size mem a e (p ∷ ns) n ms t = Tiles-size mem (a + header_size + p) e ns n ms t.1

pub HasRoom-size : (ns : List ℕ) (n : ℕ) (ms : List ℕ) → HasRoom (ns ++ n ∷ ms) → 32 ≤ n
HasRoom-size [] n ms room = room.0
HasRoom-size (p ∷ ns) n ms room = HasRoom-size ns n ms room.1

-- Room in the payloads is kept where a chunk takes in the one behind it.
pub HasRoom-merge :
    (ns : List ℕ) (n m : ℕ) (ms : List ℕ)
    → HasRoom (ns ++ n ∷ m ∷ ms)
    → HasRoom (ns ++ (n + header_size + m) ∷ ms)
HasRoom-merge [] n m ms room = (omega (arith, room.0), room.1.1)
HasRoom-merge (p ∷ ns) n m ms room = (room.0, HasRoom-merge ns n m ms room.1)

span-merge :
    (a : Ptr) (ns : List ℕ) (n m : ℕ) (ms : List ℕ)
    → span a (ns ++ (n + header_size + m) ∷ ms) ≡ span a (ns ++ n ∷ m ∷ ms)
span-merge a [] n m ms = ap (λ x. span x ms) (omega arith)
span-merge a (p ∷ ns) n m ms = span-merge (a + header_size + p) ns n m ms

IsChunk-merge :
    (a x : Ptr) (ns : List ℕ) (n m : ℕ) (ms : List ℕ)
    → IsChunk a (ns ++ n ∷ m ∷ ms) x
    → x ≢ span a ns + header_size + n
    → IsChunk a (ns ++ (n + header_size + m) ∷ ms) x
IsChunk-merge a x [] n m ms (inl e) ne = inl e
IsChunk-merge a x [] n m ms (inr (inl e)) ne = absurd (ne (sym e))
IsChunk-merge a x [] n m ms (inr (inr i)) ne = inr (subst (λ b. IsChunk b ms x) (omega arith) i)
IsChunk-merge a x (p ∷ ns) n m ms (inl e) ne = inl e
IsChunk-merge a x (p ∷ ns) n m ms (inr i) ne =
    inr (IsChunk-merge (a + header_size + p) x ns n m ms i ne)

-- A link stays good unless it points to the chunk that was taken in.
pub IsTarget-merge :
    (a x : Ptr) (ns : List ℕ) (n m : ℕ) (ms : List ℕ)
    → IsTarget a (ns ++ n ∷ m ∷ ms) x
    → x ≢ span a ns + header_size + n
    → IsTarget a (ns ++ (n + header_size + m) ∷ ms) x
IsTarget-merge a x ns n m ms (inl i) ne = inl (IsChunk-merge a x ns n m ms i ne)
IsTarget-merge a x ns n m ms (inr (inl below)) ne = inr (inl below)
IsTarget-merge a x ns n m ms (inr (inr above)) ne =
    let far = span-merge a ns n m ms in inr (inr (omega arith))
