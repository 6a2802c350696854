-- ===== src/Alloc/Tiles.antt =====
-- How chunks lie in a heap of runtime/src/alloc.c: end to end, each behind its header. The size bits of
-- a header say where the next chunk begins.
pub mod Fields
pub mod Words
pub mod Lists
pub mod Unlink
use picasso_lang.Base.{
  ◌++◌, ◌∙◌, ℕ, ◌+◌, ◌≤◌, ◌<◌, ◌≡◌, ◌⊎◌, inl, inr, true, List, [], ◌∷◌, has_bit, arith,
}
use picasso_lang.Alloc.State.{Ptr, Mem}
use picasso_lang.Alloc.Sizes.{header_size}
use picasso_lang.Alloc.Chunk.{size_at, curr_in_use_flag, size_bits}

-- Chunks with the payload sizes `ns` fill the addresses from `a` to `e`.
abbrev pub Tiles : Mem → Ptr → List ℕ → Ptr → Type 0
Tiles mem a [] e = a ≡ e
Tiles mem a (n ∷ ns) e = (size_bits (mem (a + size_at)) ≡ n) × Tiles mem (a + header_size + n) ns e

-- `c` is where one of the chunks begins.
abbrev pub IsChunk : Ptr → List ℕ → Ptr → Type 0
IsChunk a [] c = ⊥
IsChunk a (n ∷ ns) c = (a ≡ c) ⊎ IsChunk (a + header_size + n) ns c

-- The chunk at `c` is in use, and `p` is an address in its payload.
pub record Holds (mem : Mem) (c p : Ptr) : Type 0 where
  pub used : has_bit (mem (c + size_at)) curr_in_use_flag ≡ true
  pub above : c + header_size ≤ p
  pub below : p < c + header_size + size_bits (mem (c + size_at))

pub Tiles-le : (mem : Mem) (a e : Ptr) (ns : List ℕ) → Tiles mem a ns e → a ≤ e
Tiles-le mem a e [] t = omega arith
Tiles-le mem a e (n ∷ ns) t = omega (arith, Tiles-le mem (a + header_size + n) e ns t.1)

pub IsChunk-ge : (a c : Ptr) (ns : List ℕ) → IsChunk a ns c → a ≤ c
IsChunk-ge a c [] i = absurd i
IsChunk-ge a c (n ∷ ns) (inl e) = omega arith
IsChunk-ge a c (n ∷ ns) (inr i) = omega (arith, IsChunk-ge (a + header_size + n) c ns i)

pub Tiles-append :
    (mem : Mem) (a b e : Ptr) (ns ms : List ℕ)
    → Tiles mem a ns b
    → Tiles mem b ms e
    → Tiles mem a (ns ++ ms) e
Tiles-append mem a b e [] ms t u = rw t u
Tiles-append mem a b e (n ∷ ns) ms t u =
    (t.0, Tiles-append mem (a + header_size + n) b e ns ms t.1 u)

-- Only the words below the end matter.
pub Tiles-frame :
    (mem mem' : Mem) (a b : Ptr) (ns : List ℕ)
    → ((x : Ptr) → x < b → size_bits (mem' x) ≡ size_bits (mem x))
    → Tiles mem a ns b
    → Tiles mem' a ns b
Tiles-frame mem mem' a b [] same t = t
Tiles-frame mem mem' a b (n ∷ ns) same t = (
  same (a + size_at) (omega (arith, Tiles-le mem (a + header_size + n) b ns t.1)) ∙ t.0,
  Tiles-frame mem mem' (a + header_size + n) b ns same t.1,
)
