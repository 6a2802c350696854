-- ===== src/Alloc/State.antt =====
-- The state of runtime/src/alloc.c: the words of memory and the fields of `arena_t`
-- (runtime/headers/alloc.h), and the monad of its functions. Every access of the allocator is to an
-- aligned word, so memory maps the address of a word to its value. `mmap` and `munmap` belong to the
-- operating system: the addresses that `mmap` will return are a list, and calls of `munmap` are kept.
use picasso_lang.Base.{ℕ, ◌+◌, Bool, ◌&&◌, List, [], ◌∷◌, ◌==◌, ltb, leb, if◌then◌else◌}

abbrev pub Ptr : Type 0
Ptr = ℕ

abbrev pub null : Ptr
null = 0

abbrev pub Mem : Type 0
Mem = Ptr → ℕ

unfoldable pub poke : Mem → Ptr → ℕ → Mem
poke m a v b = if b == a then v else m b

-- `alloced_heap_t`
pub record Span : Type 0 where
  pub start : Ptr
  pub end : Ptr

-- `arena_t`. `alloced_heap_count` is the length of `alloced_heaps`, which holds the oldest first.
-- `smallbinmap` and `largebinmap` are never used, and the mutex serialises whole calls.
pub record Arena : Type 0 where
  pub mem : Mem
  pub fastbins : ℕ → Ptr
  pub top_chunk : Ptr
  pub unsortedbin : Ptr
  pub smallbins : ℕ → Ptr
  pub largebins : ℕ → Ptr
  pub heap_expo_growth_iters : ℕ
  pub heap_constant_growth_iters : ℕ
  pub alloced_heaps : List Span
  pub mmaps : List Ptr
  pub unmapped : List (Ptr × ℕ)

-- `aborted`: a failed assertion, or an access through NULL or past an array.
pub data Outcome (A : Type 0) : Type 0 where
  done : A → Arena → Outcome A
  aborted : Outcome A
  out_of_fuel : Outcome A

abbrev pub M : Type 0 → Type 0
M A = Arena → Outcome A

abbrev pub pure : {A : Type 0} → A → M A
pure = done

abbrev pub abort : {A : Type 0} → M A
abort _ = aborted

abbrev pub and_then : {A B : Type 0} → Outcome A → (A → M B) → Outcome B
and_then (done a s) k = k a s
and_then aborted k = aborted
and_then out_of_fuel k = out_of_fuel

infixl 5 ◌>>=◌ ◌>>◌
abbrev pub ◌>>=◌ : {A B : Type 0} → M A → (A → M B) → M B
◌>>=◌ m k s = and_then (m s) k

abbrev pub ◌>>◌ : {B : Type 0} → M (Unit {0}) → M B → M B
m >> k = m >>= λ _. k

abbrev pub get : M Arena
get s = done s s

abbrev pub modify : (Arena → Arena) → M (Unit {0})
modify f s = done tt (f s)

-- A field of the chunk at `p`, at its byte offset.
abbrev pub load : Ptr → ℕ → M ℕ
load p field s = if p == null then aborted else done (s.mem (p + field)) s

abbrev pub store : Ptr → ℕ → ℕ → M (Unit {0})
store p field v s =
    if p == null then aborted else done tt (record s { mem = poke s.mem (p + field) v })

abbrev pub check : Bool → M (Unit {0})
check b s = if b then done tt s else aborted

-- `a[i] = v` for an array of pointers
abbrev pub put : (ℕ → Ptr) → ℕ → Ptr → ℕ → Ptr
put f i v j = if j == i then v else f j

-- `alloc_memory`: zeroed pages at the address that `mmap` returns, or NULL.
unfoldable pub alloc_memory : ℕ → M Ptr
alloc_memory size s = take_map s.mmaps
  where
    zeroed : Ptr → Mem
    zeroed p a = if leb p a && ltb a (p + size) then 0 else s.mem a

    take_map : List Ptr → Outcome Ptr
    take_map [] = done null s
    take_map (p ∷ ps) =
        if p == null
        then done null (record s { mmaps = ps })
        else done p (record s { mem = zeroed p; mmaps = ps })

unfoldable pub munmap : Ptr → ℕ → M (Unit {0})
munmap p size s = done tt (record s { unmapped = (p, size) ∷ s.unmapped })
