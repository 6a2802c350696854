-- ===== src/Alloc/Api/Both.antt =====
-- What the coalescing of runtime/src/alloc.c with both neighbours makes of the chunks of a heap.
use mathlib.Core.Path.{subst}
use picasso_lang.Base.{
  ℕ, ◌+◌, ◌≤◌, ◌≡◌, ◌≢◌, inl, inr, refl, sym, ap, ◌∙◌, Bool, true, false, Bool-cases, ◌&&◌, List,
  [], ◌∷◌, ◌++◌, append_assoc, ◌==◌, if◌then◌else◌, arith, has_bit,
}
use picasso_lang.Alloc.State.{Ptr, null, Mem, poke, Arena, Outcome, done}
use picasso_lang.Alloc.Sizes.{header_size}
use picasso_lang.Alloc.Chunk.{
  size_at, prev_size_at, size_bits, flag_bits, prev_in_use_flag, fd_at, bk_at, next_sizeptr_at,
  prev_sizeptr_at,
}
use picasso_lang.Alloc.Tiles.{Tiles, IsChunk}
use picasso_lang.Alloc.Tiles.Fields.{HasRoom, IsTarget, span, span-append}
use picasso_lang.Alloc.Tiles.Words.{
  IsChunk-span, Tiles-size, HasRoom-size, HasRoom-merge, IsTarget-merge,
}
use picasso_lang.Alloc.Tiles.Unlink.{
  IsLinked, unlinked, unlinked-Tiles, unlinked_header, unlinked_value,
}
use picasso_lang.Alloc.Api.{forward_coalesce, coalesce}
use picasso_lang.Alloc.Api.Coalesce.{resized, backward_stays, backward_merges}
use picasso_lang.Alloc.Api.Merged.{
  takes, resized-Tiles, joined, is_joined, is_top, next_size, next_there, forward-joined,
}

-- Whether the chunk at `c` is taken in by the one before it.
abbrev pub is_back : Mem → Ptr → Bool
is_back mem c = if has_bit (mem (c + size_at)) prev_in_use_flag then false else true

-- The links of a free chunk: each is good and does not point to the chunk at `c`, which is in use.
pub record IsFree (mem : Mem) (a : Ptr) (ns : List ℕ) (c y : Ptr) : Type 0 where
  pub fd : IsTarget a ns (mem (y + fd_at)) × (mem (y + fd_at) ≢ c)
  pub bk : IsTarget a ns (mem (y + bk_at)) × (mem (y + bk_at) ≢ c)
  pub next : IsTarget a ns (mem (y + next_sizeptr_at)) × (mem (y + next_sizeptr_at) ≢ c)
  pub prev : IsTarget a ns (mem (y + prev_sizeptr_at)) × (mem (y + prev_sizeptr_at) ≢ c)

IsFree-IsLinked :
    (mem : Mem) (a : Ptr) (ns : List ℕ) (c y : Ptr) → IsFree mem a ns c y → IsLinked mem a ns y
IsFree-IsLinked mem a ns c y f = record {
  fd = f.fd.0;
  bk = f.bk.0;
  next = f.next.0;
  prev = f.prev.0;
}

-- A word that is neither the size nor behind the chunk.
resized_other :
    (mem : Mem) (c size flags w : ℕ)
    → w ≢ c + size_at
    → w ≢ c + header_size + size + prev_size_at
    → resized mem c size flags w ≡ mem w
unfolding resized poke
resized_other mem c size flags w ne ne' = ground arith

-- The chunk that results stands behind the chunks `before`, with the payload `merged`.
abbrev pub before : Mem → List ℕ → ℕ → Ptr → List ℕ
before mem ns q c = if is_back mem c then ns else ns ++ q ∷ []

abbrev pub merged : Mem → ℕ → ℕ → Ptr → ℕ
merged mem q n c = if is_back mem c then q + header_size + n else n

-- What coalescing the chunk at `c`, of payload `n`, leaves of a heap from `a` to `e`: `x` is the chunk behind it.
pub record Coalesced (s : Arena) (a e : Ptr) (ns : List ℕ) (q n m : ℕ) (ms : List ℕ) (c x : Ptr)
    (r : Outcome Ptr) : Type 0 where
  pub after : Arena
  pub returns : r ≡ done (if is_top s x m then null else span a (before s.mem ns q c)) after
  pub tiles :
      Tiles after.mem a
        (before s.mem ns q c ++ joined (is_joined s.mem x m) (merged s.mem q n c) m ms)
        e
  pub next_top :
      after.top_chunk ≡ (if is_top s x m then span a (before s.mem ns q c) else s.top_chunk)

-- The chunk at `c` of payload `n`, between one of payload `q` at `p` and one of payload `m` at `x`.
module _ (s : Arena) (a e : Ptr) (ns : List ℕ) (q n m : ℕ) (ms : List ℕ) (high : 48 ≤ a)
    (room : HasRoom (ns ++ q ∷ n ∷ m ∷ ms)) (t : Tiles s.mem a (ns ++ q ∷ n ∷ m ∷ ms) e) where
  abbrev c : Ptr
  c = span a ns + header_size + q

  abbrev x : Ptr
  x = span a ns + header_size + q + header_size + n

  abbrev flags : ℕ
  flags =
      flag_bits (
        unlinked s.mem (span a ns) (span a ns + header_size + (q + header_size + n) + prev_size_at))

  abbrev s1 : Arena
  s1 = record s {
    mem = resized (unlinked s.mem (span a ns)) (span a ns) (q + header_size + n) flags;
  }

  x_there : IsChunk a (ns ++ q ∷ n ∷ m ∷ ms) x
  x_there =
      subst (λ y. IsChunk a (ns ++ q ∷ n ∷ m ∷ ms) (y + header_size + n))
        (span-append a ns (q ∷ []))
        (subst (λ l. IsChunk a l (span a (ns ++ q ∷ []) + header_size + n))
          (append_assoc ns (q ∷ []) (n ∷ m ∷ ms))
          (next_there s a e (ns ++ q ∷ []) n m ms high
            (rw (append_assoc ns (q ∷ []) (n ∷ m ∷ ms)) room)
            (rw (append_assoc ns (q ∷ []) (n ∷ m ∷ ms)) t)))

  c_there : IsChunk a (ns ++ q ∷ n ∷ m ∷ ms) c
  c_there = next_there s a e ns q n (m ∷ ms) high room t

  module _ (free : IsFree s.mem a (ns ++ q ∷ n ∷ m ∷ ms) c (span a ns)) where
    linked : IsLinked s.mem a (ns ++ q ∷ n ∷ m ∷ ms) (span a ns)
    linked = IsFree-IsLinked s.mem a (ns ++ q ∷ n ∷ m ∷ ms) c (span a ns) free

    back-Tiles : Tiles s1.mem a (ns ++ (q + header_size + n) ∷ m ∷ ms) e
    back-Tiles = resized-Tiles (unlinked s.mem (span a ns)) a e ns q n (m ∷ ms) flags (
        unlinked-Tiles a (ns ++ q ∷ n ∷ m ∷ ms) room s.mem (span a ns)
          (IsChunk-span a ns q (n ∷ m ∷ ms)) linked e t)

    -- The links of the chunk at `x` are still good.
    back_value :
        (k : ℕ)
        → 16 ≤ k
        → IsTarget a (ns ++ q ∷ n ∷ m ∷ ms) (s.mem (x + k)) × (s.mem (x + k) ≢ c)
        → IsTarget a (ns ++ (q + header_size + n) ∷ m ∷ ms) (s1.mem (x + k))
    back_value k lo good =
        let P = λ (v : Ptr). IsTarget a (ns ++ q ∷ n ∷ m ∷ ms) v × (v ≢ c) in
        let (target, ne) : P (unlinked s.mem (span a ns) (x + k)) =
          unlinked_value a (ns ++ q ∷ n ∷ m ∷ ms) room s.mem (span a ns)
            (IsChunk-span a ns q (n ∷ m ∷ ms)) linked P (inr (inl (omega arith)), omega arith)
            free.fd free.bk free.next free.prev (x + k) good in
        let same =
          resized_other (unlinked s.mem (span a ns)) (span a ns) (q + header_size + n) flags (x + k)
            (omega arith) (omega arith) in
        rw same (IsTarget-merge a (unlinked s.mem (span a ns) (x + k)) ns q n (m ∷ ms) target ne)

    next_header : s1.mem (x + size_at) ≡ s.mem (x + size_at)
    next_header =
        resized_other (unlinked s.mem (span a ns)) (span a ns) (q + header_size + n) flags
          (x + size_at) (omega arith) (omega arith)
        ∙ unlinked_header a (ns ++ q ∷ n ∷ m ∷ ms) room s.mem (span a ns)
            (IsChunk-span a ns q (n ∷ m ∷ ms)) linked x size_at (inl x_there) (omega arith)

  -- What follows from the chunk at `start`, with `word` for the size and flags of the next chunk.
  abbrev Joined : Outcome Ptr → List ℕ → ℕ → Ptr → ℕ → Type 0
  Joined r ks k y word =
      (after : Arena) × (r
        ≡ done (if takes word m && (y == s.top_chunk) then null else span a ks) after)
      × Tiles after.mem a (ks ++ joined (takes word m) k m ms) e
      × (after.top_chunk ≡ (if takes word m && (y == s.top_chunk) then span a ks else s.top_chunk))

  c_size : size_bits (s.mem (c + size_at)) ≡ n
  c_size = next_size s a e ns q n (m ∷ ms) high room t

  used-Joined :
      (is_joined s.mem x m ≡ true → x ≢ s.top_chunk → IsFree s.mem a (ns ++ q ∷ n ∷ m ∷ ms) c x)
      → Joined (forward_coalesce c s) (ns ++ q ∷ []) n x (s.mem (x + size_at))
  used-Joined next =
      let assoc = append_assoc ns (q ∷ []) (n ∷ m ∷ ms) in
      let at : span a (ns ++ q ∷ []) ≡ c = span-append a ns (q ∷ []) in
      subst
        (λ y.
          Joined (forward_coalesce y s) (ns ++ q ∷ []) n (y + header_size + n)
            (s.mem (y + header_size + n + size_at)))
        at
        (forward-joined s a e (ns ++ q ∷ []) n m ms high (rw assoc room) (rw assoc t) (
          subst
            (λ y.
              takes (s.mem (y + header_size + n + size_at)) m ≡ true
              → y + header_size + n ≢ s.top_chunk
              → IsLinked s.mem a ((ns ++ q ∷ []) ++ n ∷ m ∷ ms) (y + header_size + n))
            (sym at)
            (λ joins below.
              rw assoc (IsFree-IsLinked s.mem a (ns ++ q ∷ n ∷ m ∷ ms) c x (next joins below)))))

  unused-Joined :
      IsFree s.mem a (ns ++ q ∷ n ∷ m ∷ ms) c (span a ns)
      → (is_joined s.mem x m ≡ true → x ≢ s.top_chunk → IsFree s.mem a (ns ++ q ∷ n ∷ m ∷ ms) c x)
      → Joined (forward_coalesce (span a ns) s1) ns (q + header_size + n) x (s.mem (x + size_at))
  unused-Joined free next =
      let at : span a ns + header_size + (q + header_size + n) ≡ x = omega arith in
      let word = next_header free in
      let start = span a ns in
      subst (Joined (forward_coalesce start s1) ns (q + header_size + n) x) word (
        subst
          (λ y.
            Joined (forward_coalesce start s1) ns (q + header_size + n) y (s1.mem (y + size_at)))
          at
          (forward-joined s1 a e ns (q + header_size + n) m ms high
            (HasRoom-merge ns q n (m ∷ ms) room) (back-Tiles free)
            (subst
              (λ y.
                takes (s1.mem (y + size_at)) m ≡ true
                → y ≢ s.top_chunk
                → IsLinked s1.mem a (ns ++ (q + header_size + n) ∷ m ∷ ms) y)
              (sym at)
              (λ joins below.
                let f = next (ap (λ v. takes v m) (sym word) ∙ joins) below in
                record {
                  fd = back_value free fd_at (omega arith) f.fd;
                  bk = back_value free bk_at (omega arith) f.bk;
                  next = back_value free next_sizeptr_at (omega arith) f.next;
                  prev = back_value free prev_sizeptr_at (omega arith) f.prev;
                }))))

  coalesce-Joined :
      (is_back s.mem c ≡ true
        → (size_bits (s.mem (c + prev_size_at)) ≡ q)
          × IsFree s.mem a (ns ++ q ∷ n ∷ m ∷ ms) c (span a ns))
      → (is_joined s.mem x m ≡ true → x ≢ s.top_chunk → IsFree s.mem a (ns ++ q ∷ n ∷ m ∷ ms) c x)
      → Joined (coalesce c s) (before s.mem ns q c) (merged s.mem q n c) x (s.mem (x + size_at))
  unfolding coalesce
  coalesce-Joined back next =
      let p_size = Tiles-size s.mem a e ns q (n ∷ m ∷ ms) t in
      let p_there = IsChunk-span a ns q (n ∷ m ∷ ms) in
      let list = ns ++ q ∷ n ∷ m ∷ ms in
      elim (Bool-cases (has_bit (s.mem (c + size_at)) prev_in_use_flag)) [
        | inl used ↦ rw used (
            rw
              (backward_stays s a list room high (span a ns) q n p_size c_size p_there c_there used)
              (used-Joined next))
        | inr unused ↦
            let (footer, free) = back (rw unused refl) in
            rw unused (
              rw
                (backward_merges s a list room high (span a ns) q n p_size c_size p_there c_there
                  (linked free) unused footer
                  (let r = HasRoom-size ns q (n ∷ m ∷ ms) room in omega arith))
                (unused-Joined free next))
      ]

  -- Let chunks with room for their links fill a heap from end to end, and let the chunk at `c` have one before it and
  -- one, at `x`, behind it. Where `c` is flagged so that the one before is free, the word at `c` is its payload, and
  -- the links of a neighbour that is taken in are good: to chunks of the heap other than `c`, to the outside, or
  -- NULL. Then coalescing ends and the heap is still filled: the chunk before is taken in if it is flagged as free,
  -- and the one behind if it is not in use and of more than 112 bytes; the others stay as they are. If that one was
  -- the top chunk, the result is the top chunk and NULL is returned; otherwise the result is returned.
  pub coalesce-Coalesced :
      (is_back s.mem c ≡ true
        → (size_bits (s.mem (c + prev_size_at)) ≡ q)
          × IsFree s.mem a (ns ++ q ∷ n ∷ m ∷ ms) c (span a ns))
      → (is_joined s.mem x m ≡ true → x ≢ s.top_chunk → IsFree s.mem a (ns ++ q ∷ n ∷ m ∷ ms) c x)
      → Coalesced s a e ns q n m ms c x (coalesce c s)
  coalesce-Coalesced back next =
      let (after, returns, tiles, top) = coalesce-Joined back next in
      record { after = after; returns = returns; tiles = tiles; next_top = top }
