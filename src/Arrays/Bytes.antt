-- ===== src/Arrays/Bytes.antt =====
-- The bytes of a string as an array and back, in runtime/src/strings.c.
use picasso_lang.Base.{
  ℕ, ◌≤◌, ◌≡◌, Option, none, some, List, [], ◌∷◌, ◌++◌, length, length-append, take, length-take,
  arith, sym, refl, ap, ap₂, ◌∙◌,
}
use picasso_lang.Text.Ops.{Str, read_bytes}
use picasso_lang.Text.Ops.Content.{content, IsTerminated, read_bytes-at, take-length}
use picasso_lang.Arrays.{Header, Array, array, bytes}

-- The array has the bytes of the string itself, of which it is not a copy. Its shape is what stands behind them, and
-- the capacity and the size of the elements are what the memory held, all in `fresh`.
unfoldable pub strings_get_bytes : Header → Str → Array
strings_get_bytes fresh fmt = array (record fresh { length = fmt.size; rank = 1 }) (bytes fmt.bytes)

-- From the header of an array and its bytes.
unfoldable pub strings_alloc_from_arr : Header → List ℕ → Option Str
unfolding read_bytes
strings_alloc_from_arr fmt held = elim (read_bytes fmt.length held) [
  | none ↦ none
  | some copied ↦ some (record { bytes = copied ++ (0 ∷ []); size = fmt.length })
]

-- The bytes of a string, as an array of as many elements, give a string of the same content again, with a NUL.
pub strings_get_bytes-alloc_from_arr :
    (fresh : Header) (s : Str)
    → s.size ≤ length s.bytes
    → (h : Header) (held : List ℕ) → strings_get_bytes fresh s ≡ array h (bytes held)
    → (h.length ≡ s.size)
      × ((u : Str) × (strings_alloc_from_arr h held ≡ some u)
          × (content u ≡ content s)
          × IsTerminated u)
unfolding strings_get_bytes strings_alloc_from_arr
strings_get_bytes-alloc_from_arr fresh s l h held e =
    let same : s.bytes ≡ held = ground arith in
    let size : h.length ≡ s.size = ground arith in
    let there : h.length ≤ length held =
      let a = ap (λ (xs : List ℕ). length xs) same in omega arith in
    let copied = take h.length held in
    let long : length copied ≡ h.length = omega (arith, length-take h.length held) in
    (
      size,
      (
        record { bytes = copied ++ (0 ∷ []); size = h.length },
        rw (read_bytes-at h.length held there, strings_alloc_from_arr) refl,
        take-length copied (0 ∷ []) h.length (sym long)
            ∙ ap₂ (λ n (xs : List ℕ). take n xs) size (sym same),
        omega (arith, length-append copied (0 ∷ []), long),
      ),
    )
