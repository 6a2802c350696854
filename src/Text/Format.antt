-- ===== src/Text/Format.antt =====
-- `strings_format` of runtime/src/strings.c. The arguments are a list, each of the type it was passed as;
-- `none` is a specifier that reads an argument of another type, or one that is not there. How a floating
-- number is printed (`f64_to_dec`) is a parameter, since its arithmetic is not modelled.
pub mod Digits
pub mod Iteration
pub mod Prints
pub mod Refine
pub mod Spec
use picasso_lang.Base.{
  ℕ, zero, suc, ◌+◌, ◌-◌, ◌%◌, ◌^◌, ◌==◌, ltb, if◌then◌else◌, Bool, true, false, Option, none, some,
  List, [], ◌∷◌, ◌++◌, length, take, replicate,
}
use picasso_lang.Text.Ops.{Str, read_bytes}
use picasso_lang.Text.Buffer.{Buffer, buf_append, u64_to_dec, i64_to_dec, ptr_to_hex}

-- The integers are given by their bits: 32 for `int` and `unsigned int`, 64 for `long` and `unsigned long`.
pub data Arg (F : Type 0) : Type 0 where
  string : Option Str → Arg F
  int32 : ℕ → Arg F
  uint32 : ℕ → Arg F
  long : ℕ → Arg F
  ulong : ℕ → Arg F
  address : ℕ → Arg F
  double : F → Arg F

-- `(int64_t)va_arg(ap, int)`
abbrev pub sign_extend : ℕ → ℕ
sign_extend v = if ltb v (2 ^ 31) then v else v + (2 ^ 64 - 2 ^ 32)

-- The first `n` bytes of `tmp`.
abbrev pub printed : Option (ℕ × List ℕ) → Option (List ℕ)
printed none = none
printed (some (n, tmp)) = read_bytes n tmp

abbrev pub blank : List ℕ
blank = replicate 32 0

-- Whether a `u` comes next.
abbrev pub next_is_u : List ℕ → Bool
next_is_u [] = false
next_is_u (c ∷ cs) = c == 117

abbrev pub skip_bytes : ℕ → List ℕ → List ℕ
skip_bytes zero cs = cs
skip_bytes (suc n) [] = []
skip_bytes (suc n) (c ∷ cs) = skip_bytes n cs

unfoldable pub append_all : Buffer → List (List ℕ) → Option Buffer
append_all out [] = some out
append_all out (p ∷ ps) = elim (buf_append out p) [ none ↦ none | some out' ↦ append_all out' ps ]

-- What an iteration does: the pieces that it appends, one after the other, the arguments that are left,
-- and how many bytes of the format behind the specifier it has read too.
abbrev pub Piece : Type 0 → Type 0
Piece F = Option (List (List ℕ) × List (Arg F) × ℕ)

module _ {F : Type 0} where
  abbrev pub piece : Option (List ℕ) → List (Arg F) → ℕ → Piece F
  piece none args skip = none
  piece (some text) args skip = some (text ∷ [], args, skip)

module _ {F : Type 0} (f64_to_dec : F → List ℕ) where
  unfoldable pub format_string : List (Arg F) → Piece F
  format_string (string none ∷ args) = some ([], args, 0)
  format_string (string (some s) ∷ args) =
      if s.size == 0 then some ([], args, 0) else piece (read_bytes s.size s.bytes) args 0
  format_string args = none

  unfoldable pub format_signed : List (Arg F) → Piece F
  format_signed (int32 v ∷ args) = piece (printed (i64_to_dec (sign_extend v) blank)) args 0
  format_signed args = none

  unfoldable pub format_unsigned : List (Arg F) → Piece F
  format_unsigned (uint32 v ∷ args) = piece (printed (u64_to_dec v blank)) args 0
  format_unsigned args = none

  unfoldable pub format_long : List (Arg F) → Piece F
  format_long (long v ∷ args) = piece (printed (i64_to_dec v blank)) args 0
  format_long args = none

  unfoldable pub format_ulong : List (Arg F) → Piece F
  format_ulong (ulong v ∷ args) = piece (printed (u64_to_dec v blank)) args 1
  format_ulong args = none

  unfoldable pub format_pointer : List (Arg F) → Piece F
  format_pointer (address v ∷ args) = piece (some (ptr_to_hex v)) args 0
  format_pointer args = none

  unfoldable pub format_float : List (Arg F) → Piece F
  format_float (double v ∷ args) = piece (some (f64_to_dec v)) args 0
  format_float args = none

  -- The cases of the `switch`: % s d u l p f, and any other, which is written with its %.
  unfoldable pub format_specifier : ℕ → List ℕ → List (Arg F) → Piece F
  format_specifier spec rest args =
      if spec == 37
      then some ((37 ∷ []) ∷ [], args, 0)
      else if spec == 115
      then format_string args
      else if spec == 100
      then format_signed args
      else if spec == 117
      then format_unsigned args
      else if spec == 108
      then (if next_is_u rest then format_ulong args else format_long args)
      else if spec == 112
      then format_pointer args
      else if spec == 102
      then format_float args
      else some ((37 ∷ []) ∷ (spec ∷ []) ∷ [], args, 0)

-- The loop is the same in each function that has a format, and so is its `switch` but for one case.
module _ {F : Type 0} (specifier : ℕ → List ℕ → List (Arg F) → Piece F) where
  -- One iteration on the format from its first byte `c` on: the pieces, and the arguments and the format that
  -- are left. A % at the end is dropped.
  unfoldable pub format_step :
      ℕ → List ℕ → List (Arg F) → Option (List (List ℕ) × List (Arg F) × List ℕ)
  format_step c rest args =
      if c == 37
      then elim rest [
        | [] ↦ some ([], args, [])
        | spec ∷ after ↦ elim (specifier spec after args) [
          | none ↦ none
          | some (pieces, args', skip) ↦ some (pieces, args', skip_bytes skip after)
        ]
      ]
      else some ((c ∷ []) ∷ [], args, rest)

  -- An iteration reads a byte at least, so the length of the format is enough fuel.
  unfoldable pub format_loop : ℕ → List ℕ → List (Arg F) → Buffer → Option Buffer
  format_loop k [] args out = some out
  format_loop zero (c ∷ rest) args out = none
  format_loop (suc k) (c ∷ rest) args out = elim (format_step c rest args) [
    | none ↦ none
    | some (pieces, args', rest') ↦ elim (append_all out pieces) [
      | none ↦ none
      | some out' ↦ format_loop k rest' args' out'
    ]
  ]

module _ {F : Type 0} (f64_to_dec : F → List ℕ) where
  -- NULL for a NULL format; the string has the buffer as it is, with no NUL behind its bytes.
  unfoldable pub strings_format : Option Str → List (Arg F) → Option (Option Str)
  strings_format none args = some none
  strings_format (some fmt) args = elim (read_bytes fmt.size fmt.bytes) [
    | none ↦ none
    | some bytes ↦
        elim (format_loop (format_specifier f64_to_dec) (length bytes) bytes args
          (record { cap = 0; bytes = [] })) [
            | none ↦ none
            | some out ↦ some (some (record { bytes = out.bytes; size = length out.bytes }))
          ]
  ]
