-- ===== src/Alloc/Api/Merged.antt =====
-- What the coalescing of runtime/src/alloc.c makes of the chunks of a heap.
use mathlib.Core.Path.{subst}
use picasso_lang.Base.{
  ℕ, ◌+◌, ◌≤◌, ◌<◌, ◌≡◌, ◌≢◌, inl, inr, refl, sym, ap, ◌∙◌, Bool, true, false, Bool-cases, ◌||◌,
  ◌&&◌, List, [], ◌∷◌, ◌++◌, append_assoc, ◌==◌, leb, if◌then◌else◌, arith, has_bit, or_low,
}
use picasso_lang.Alloc.State.{Ptr, null, Mem, Arena, done}
use picasso_lang.Alloc.Sizes.{header_size}
use picasso_lang.Alloc.Chunk.{size_at, prev_size_at, size_bits, flag_bits, curr_in_use_flag}
use picasso_lang.Alloc.Tiles.{Tiles, IsChunk}
use picasso_lang.Alloc.Tiles.Fields.{HasRoom, span, span-append, poke-Tiles, NoSize-behind}
use picasso_lang.Alloc.Tiles.Words.{merge-Tiles, IsChunk-span, Tiles-size}
use picasso_lang.Alloc.Tiles.Unlink.{IsLinked, unlinked, unlinked-Tiles}
use picasso_lang.Alloc.Search.Carve.{size_bits-or_low}
use picasso_lang.Alloc.Api.{forward_coalesce}
use picasso_lang.Alloc.Api.Coalesce.{resized, forward_merges, forward_top, forward_stays}

pub resized-Tiles :
    (mem : Mem) (a e : Ptr) (ns : List ℕ) (n m : ℕ) (ms : List ℕ) (flags : ℕ)
    → Tiles mem a (ns ++ n ∷ m ∷ ms) e
    → Tiles
        (resized mem (span a ns) (n + header_size + m) flags)
        a
        (ns ++ (n + header_size + m) ∷ ms)
        e
unfolding resized
resized-Tiles mem a e ns n m ms flags t =
    let first = Tiles-size mem a e ns n (m ∷ ms) t in
    let second =
      Tiles-size mem a e (ns ++ n ∷ []) m ms (rw (append_assoc ns (n ∷ []) (m ∷ ms)) t) in
    let word = or_low (n + header_size + m) (flag_bits (mem (span a ns + size_at))) in
    let new : size_bits word ≡ n + header_size + m =
      size_bits-or_low (n + header_size + m) (flag_bits (mem (span a ns + size_at))) (omega arith)
        (omega arith) in
    let kept = merge-Tiles mem a e word ns n m ms new t in
    let spot = NoSize-behind a ns (n + header_size + m) ms in
    poke-Tiles _ a e (span a ns + header_size + (n + header_size + m) + prev_size_at) _ _ spot kept

-- The chunks of a heap from one of payload `n` on, with one of payload `m` behind it, which it may take in.
abbrev pub joined : Bool → ℕ → ℕ → List ℕ → List ℕ
joined fwd n m ms = if fwd then (n + header_size + m) ∷ ms else n ∷ m ∷ ms

-- Whether a chunk of payload `m`, with `word` for its size and flags, is taken in by the one before it.
abbrev pub takes : ℕ → ℕ → Bool
takes word m = if has_bit word curr_in_use_flag || leb m 112 then false else true

abbrev pub is_joined : Mem → Ptr → ℕ → Bool
is_joined mem x m = takes (mem (x + size_at)) m

-- Whether that chunk is the top chunk.
abbrev pub is_top : Arena → Ptr → ℕ → Bool
is_top s x m = is_joined s.mem x m && (x == s.top_chunk)

module _ (s : Arena) (a e : Ptr) (ns : List ℕ) (n m : ℕ) (ms : List ℕ) (high : 48 ≤ a)
    (room : HasRoom (ns ++ n ∷ m ∷ ms)) (t : Tiles s.mem a (ns ++ n ∷ m ∷ ms) e) where
  pub next_size : size_bits (s.mem (span a ns + header_size + n + size_at)) ≡ m
  next_size =
      ap (λ x. size_bits (s.mem (x + size_at))) (sym (span-append a ns (n ∷ [])))
      ∙ Tiles-size s.mem a e (ns ++ n ∷ []) m ms (rw (append_assoc ns (n ∷ []) (m ∷ ms)) t)

  pub next_there : IsChunk a (ns ++ n ∷ m ∷ ms) (span a ns + header_size + n)
  next_there =
      subst (λ x. IsChunk a (ns ++ n ∷ m ∷ ms) x) (span-append a ns (n ∷ []))
        (subst (λ l. IsChunk a l (span a (ns ++ n ∷ []))) (append_assoc ns (n ∷ []) (m ∷ ms))
          (IsChunk-span a (ns ++ n ∷ []) m ms))

  pub forward-joined :
      (is_joined s.mem (span a ns + header_size + n) m ≡ true
        → span a ns + header_size + n ≢ s.top_chunk
        → IsLinked s.mem a (ns ++ n ∷ m ∷ ms) (span a ns + header_size + n))
      → (after : Arena) × (forward_coalesce (span a ns) s
          ≡ done (if is_top s (span a ns + header_size + n) m then null else span a ns) after)
        × Tiles after.mem a
            (ns ++ joined (is_joined s.mem (span a ns + header_size + n) m) n m ms)
            e
        × (after.top_chunk
            ≡ (if is_top s (span a ns + header_size + n) m then span a ns else s.top_chunk))
  forward-joined links =
      let c = span a ns in
      let size = Tiles-size s.mem a e ns n (m ∷ ms) t in
      let here = IsChunk-span a ns n (m ∷ ms) in
      elim (Bool-cases
        (has_bit (s.mem (c + header_size + n + size_at)) curr_in_use_flag || leb m 112)) [
          | inl stays ↦ rw stays (
            s,
            forward_stays s a (ns ++ n ∷ m ∷ ms) room high c n m size next_size here next_there
                stays,
            t,
            refl,
          )
          | inr joins ↦
              let unused : has_bit (s.mem (c + header_size + n + size_at)) curr_in_use_flag
                  ≡ false =
                ground arith in
              let large : 112 < m = ground arith in
              elim (Bool-cases (c + header_size + n == s.top_chunk)) [
                | inl top ↦
                    rw (joins, top)
                      (
                        record s { mem = resized s.mem c (n + header_size + m) 0; top_chunk = c },
                        forward_top s a (ns ++ n ∷ m ∷ ms) room high c n m size next_size here
                            next_there unused large (ground arith),
                        resized-Tiles s.mem a e ns n m ms 0 t,
                        refl,
                      )
                | inr below ↦
                    let x = c + header_size + n in
                    let linked = links (rw joins refl) (ground arith) in
                    rw (joins, below)
                      (
                        record s {
                          mem = resized (unlinked s.mem x) c (n + header_size + m) (
                              flag_bits (
                                unlinked s.mem x
                                  (c + header_size + (n + header_size + m) + prev_size_at)));
                        },
                        forward_merges s a (ns ++ n ∷ m ∷ ms) room high c n m size next_size here
                            next_there linked unused large (ground arith),
                        resized-Tiles (unlinked s.mem x) a e ns n m ms
                            (flag_bits (
                              unlinked s.mem x
                                (c + header_size + (n + header_size + m) + prev_size_at)))
                            (unlinked-Tiles a (ns ++ n ∷ m ∷ ms) room s.mem x next_there linked e
                              t),
                        refl,
                      )
              ]
        ]
