-- ===== src/Alloc/Search/Carve.antt =====
-- `carve_from_top_chunk` of runtime/src/alloc.c on a heap that chunks fill from end to end.
use mathlib.Core.Path.{subst}
use picasso_lang.Base.{
  ap, ◌∙◌, Bool-cases, ℕ, ◌+◌, ◌-◌, ◌%◌, ◌≤◌, ◌<◌, ◌≡◌, ◌≢◌, inl, inr, refl, true, false, List, [],
  ◌∷◌, ◌++◌, ltb, leb, ◌==◌, arith, if◌then◌else◌, has_bit, set_bit, or_low, or_low-multiple,
}
use picasso_lang.Alloc.State.{Ptr, null, Mem, poke, Arena, Outcome, done}
use picasso_lang.Alloc.Sizes.{header_size, min_payload_size}
use picasso_lang.Alloc.Chunk.{size_at, size_bits, flag_bits, curr_in_use_flag, prev_in_use_flag}
use picasso_lang.Alloc.Tiles.{Tiles, Tiles-append, Tiles-frame}
use picasso_lang.Alloc.Search.{carve, carve_from_top_chunk}

pub size_bits-or_low : (a b : ℕ) → a % 8 ≡ 0 → b < 8 → size_bits (or_low a b) ≡ a
size_bits-or_low a b m l = omega (arith, or_low-multiple a b m l)

size_bits-set_bit : (w : ℕ) → size_bits (set_bit w 4) ≡ size_bits w
size_bits-set_bit w = ground arith

-- The memory after `n` bytes of the chunk at `curr` have become a chunk in use, with the rest behind it.
abbrev split_mem : Mem → Ptr → ℕ → ℕ → Mem
split_mem mem curr n rest =
    let remainder = curr + header_size + n in
    let m1 = poke mem (remainder + size_at) (or_low rest prev_in_use_flag) in
    let m2 = poke m1 (remainder + header_size + rest + 0) (or_low rest 0) in
    let m3 = poke m2 (curr + size_at) (or_low n (flag_bits (mem (curr + size_at)))) in
    poke m3 (curr + size_at)
      (set_bit (or_low n (flag_bits (mem (curr + size_at)))) curr_in_use_flag)

module _ (curr : Ptr) (s : Arena) (n t : ℕ) (ne : curr ≢ null)
    (top : size_bits (s.mem (curr + size_at)) ≡ t) (aligned : n % 8 ≡ 0) (room : n + 48 ≤ t) where
  abbrev rest : ℕ
  rest = t - n - 16

  carve_split :
      carve curr n s
      ≡ done curr
          (record s { mem = split_mem s.mem curr n rest; top_chunk = curr + header_size + n })
  unfolding carve poke
  carve_split = simp (
    not_null, not_null', not_null'', top, fits, large, self, self', rest_size, apart, apart',
    apart'',
  )
    where
      not_null : (curr == null) ≡ false
      not_null = ground arith

      not_null' : (curr + header_size + n == null) ≡ false
      not_null' = ground arith

      not_null'' : (curr + header_size + n + header_size + (t - n - 16) == null) ≡ false
      not_null'' = ground arith

      fits : ltb t n ≡ false
      fits = ground arith

      large : leb (min_payload_size + header_size) (t - n) ≡ true
      large = ground arith

      apart : (curr + size_at == curr + header_size + n + header_size + (t - n - 16) + 0) ≡ false
      apart = ground arith

      apart' : (curr + size_at == curr + header_size + n + size_at) ≡ false
      apart' = ground arith

      apart'' : (t - n - 16 == 0) ≡ false
      apart'' = ground arith

      self : (curr + header_size + n + size_at == curr + header_size + n + size_at) ≡ true
      self = ground arith

      self' : (curr + size_at == curr + size_at) ≡ true
      self' = ground arith

      rest_size : size_bits (or_low (t - n - 16) prev_in_use_flag) ≡ t - n - 16
      rest_size = size_bits-or_low (t - n - 16) 1 (omega arith) (omega arith)

-- The memory after the whole chunk at `curr`, of payload `t`, has been given away.
abbrev whole_mem : Mem → Ptr → ℕ → Mem
whole_mem mem curr t =
    poke (poke mem (curr + size_at) (set_bit (mem (curr + size_at)) curr_in_use_flag))
      (curr + header_size + t + size_at)
      (set_bit (mem (curr + header_size + t + size_at)) prev_in_use_flag)

module _ (curr : Ptr) (s : Arena) (n t : ℕ) (ne : curr ≢ null)
    (top : size_bits (s.mem (curr + size_at)) ≡ t) (fits : n ≤ t) (small : t < n + 48) where
  carve_whole :
      carve curr n s ≡ done curr (record s { mem = whole_mem s.mem curr t; top_chunk = null })
  unfolding carve poke
  carve_whole = simp (not_null, next_not_null, top, enough, no_rest, self, same_size, apart)
    where
      not_null : (curr == null) ≡ false
      not_null = ground arith

      next_not_null : (curr + header_size + t == null) ≡ false
      next_not_null = ground arith

      enough : ltb t n ≡ false
      enough = ground arith

      no_rest : leb (min_payload_size + header_size) (t - n) ≡ false
      no_rest = ground arith

      self : (curr + size_at == curr + size_at) ≡ true
      self = ground arith

      same_size : size_bits (set_bit (s.mem (curr + size_at)) curr_in_use_flag) ≡ t
      same_size = size_bits-set_bit (s.mem (curr + size_at)) ∙ top

      apart : (curr + header_size + t + size_at == curr + size_at) ≡ false
      apart = ground arith

split-Tiles :
    (mem : Mem) (curr : Ptr) (n t : ℕ)
    → n % 8 ≡ 0
    → n + 48 ≤ t
    → size_bits (mem (curr + size_at)) ≡ t
    → Tiles
        (split_mem mem curr n (t - n - 16))
        curr
        (n ∷ (t - n - 16) ∷ [])
        (curr + header_size + t)
unfolding poke
split-Tiles mem curr n t aligned room top = (
  ground (arith, or_low-multiple n (flag_bits (mem (curr + size_at)))),
  (ground (arith, or_low-multiple (t - n - 16) prev_in_use_flag), omega arith),
)

split_used :
    (mem : Mem) (curr : Ptr) (n rest : ℕ)
    → has_bit (split_mem mem curr n rest (curr + size_at)) curr_in_use_flag ≡ true
unfolding poke
split_used mem curr n rest = ground arith

split_below :
    (mem : Mem) (curr : Ptr) (n rest x : ℕ) → x < curr → split_mem mem curr n rest x ≡ mem x
unfolding poke
split_below mem curr n rest x h = ground arith

whole-Tiles :
    (mem : Mem) (curr : Ptr) (t : ℕ)
    → size_bits (mem (curr + size_at)) ≡ t
    → Tiles (whole_mem mem curr t) curr (t ∷ []) (curr + header_size + t)
unfolding poke
whole-Tiles mem curr t top = (ground (arith, size_bits-set_bit (mem (curr + size_at))), refl)

whole_used :
    (mem : Mem) (curr : Ptr) (t : ℕ)
    → has_bit (whole_mem mem curr t (curr + size_at)) curr_in_use_flag ≡ true
unfolding poke
whole_used mem curr t = ground arith

whole_below : (mem : Mem) (curr : Ptr) (t x : ℕ) → x < curr → whole_mem mem curr t x ≡ mem x
unfolding poke
whole_below mem curr t x h = ground arith

-- The chunks that a top chunk of payload `t` becomes when `n` bytes are carved from it.
abbrev pub carved : ℕ → ℕ → List ℕ
carved n t = if leb (n + 48) t then n ∷ (t - n - 16) ∷ [] else t ∷ []

-- What carving `n` bytes from the top chunk, behind the chunks `ns` of a heap from `a` to `e`, leaves.
pub record Carved (s : Arena) (a e : Ptr) (ns : List ℕ) (n t : ℕ) (r : Outcome Ptr) : Type 0 where
  pub after : Arena
  pub returns : r ≡ done s.top_chunk after
  pub tiles : Tiles after.mem a (ns ++ carved n t) e
  pub used : has_bit (after.mem (s.top_chunk + size_at)) curr_in_use_flag ≡ true
  pub next_top : after.top_chunk ≡ (if leb (n + 48) t then s.top_chunk + header_size + n else null)
  pub below : (x : Ptr) → x < s.top_chunk → after.mem x ≡ s.mem x

-- Carving `n` bytes from a top chunk that has them returns the top chunk, in use. The heap is still
-- filled from end to end: by the same chunks, then one of `n` bytes, then the new top chunk, if the rest
-- has room for a header and 32 bytes; otherwise the whole top chunk is given away and none is left.
-- Nothing below the top chunk changes.
pub carve-Carved :
    (s : Arena) (a e : Ptr) (ns : List ℕ) (n t : ℕ)
    → s.top_chunk ≢ null
    → n % 8 ≡ 0
    → n ≤ t
    → Tiles s.mem a ns s.top_chunk
    → Tiles s.mem s.top_chunk (t ∷ []) e
    → Carved s a e ns n t (carve_from_top_chunk n s)
unfolding carve_from_top_chunk
carve-Carved s a e ns n t ne aligned fits before top = elim (Bool-cases (leb (n + 48) t)) [
  | inl room ↦ record {
    after = record s {
      mem = split_mem s.mem s.top_chunk n (t - n - 16);
      top_chunk = s.top_chunk + header_size + n;
    };
    returns = simp (not_null, carve_split s.top_chunk s n t ne top.0 aligned (ground arith));
    tiles = rw room (
        Tiles-append (split_mem s.mem s.top_chunk n (t - n - 16)) a s.top_chunk e ns
          (n ∷ (t - n - 16) ∷ [])
          (Tiles-frame s.mem _ a s.top_chunk ns
            (λ x h. ap size_bits (split_below s.mem s.top_chunk n (t - n - 16) x h)) before)
          (subst
            (λ x.
              Tiles (split_mem s.mem s.top_chunk n (t - n - 16)) s.top_chunk (n ∷ (t - n - 16) ∷ [])
                x)
            top.1 (split-Tiles s.mem s.top_chunk n t aligned (ground arith) top.0)));
    used = split_used s.mem s.top_chunk n (t - n - 16);
    next_top = rw room refl;
    below = split_below s.mem s.top_chunk n (t - n - 16);
  }
  | inr small ↦ record {
    after = record s { mem = whole_mem s.mem s.top_chunk t; top_chunk = null };
    returns = simp (not_null, carve_whole s.top_chunk s n t ne top.0 fits (ground arith));
    tiles = rw small (
        Tiles-append (whole_mem s.mem s.top_chunk t) a s.top_chunk e ns (t ∷ [])
          (Tiles-frame s.mem _ a s.top_chunk ns
            (λ x h. ap size_bits (whole_below s.mem s.top_chunk t x h)) before)
          (subst (λ x. Tiles (whole_mem s.mem s.top_chunk t) s.top_chunk (t ∷ []) x) top.1
            (whole-Tiles s.mem s.top_chunk t top.0)));
    used = whole_used s.mem s.top_chunk t;
    next_top = rw small refl;
    below = whole_below s.mem s.top_chunk t;
  }
]
  where
    not_null : (s.top_chunk == null) ≡ false
    not_null = ground arith
