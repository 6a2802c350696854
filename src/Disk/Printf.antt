-- ===== src/Disk/Printf.antt =====
-- The functions of runtime/src/diskio.c that print to the standard output.
use picasso_lang.Base.{ℕ, Bool, Option, none, some, List, [], ◌∷◌, ◌==◌, if◌then◌else◌, length}
use picasso_lang.Text.Ops.{Str, read_bytes}
use picasso_lang.Text.Format.{
  Arg, Piece, format_specifier, format_ulong, format_long, format_loop, next_is_u,
}
use picasso_lang.Disk.{Answer, Outcome, faults, returned, write_loop}

-- Whether a `d` comes next.
abbrev pub next_is_d : List ℕ → Bool
next_is_d [] = Bool.false
next_is_d (c ∷ cs) = c == 100

module _ {F : Type 0} (f64_to_dec : F → List ℕ) where
  -- As in `__public__strings_format`, but that a `d` behind `%l` is read too.
  unfoldable pub printf_long : List ℕ → List (Arg F) → Piece F
  unfolding format_long
  printf_long rest args = elim (format_long f64_to_dec args) [
    | none ↦ none
    | some (pieces, args', _) ↦ some (pieces, args', if next_is_d rest then 1 else 0)
  ]

  -- The cases of the `switch`.
  unfoldable pub printf_specifier : ℕ → List ℕ → List (Arg F) → Piece F
  printf_specifier spec rest args =
      if spec == 108
      then (if next_is_u rest then format_ulong f64_to_dec args else printf_long rest args)
      else format_specifier f64_to_dec spec rest args

  -- The text of a format, as `__public__syncio_printf` and `__public__asyncio_printf` build it.
  unfoldable pub printf_text : Str → List (Arg F) → Option (List ℕ)
  printf_text fmt args = elim (read_bytes fmt.size fmt.bytes) [
    | none ↦ none
    | some bytes ↦
        elim (format_loop printf_specifier (length bytes) bytes args
          (record { cap = 0; bytes = [] })) [ none ↦ none | some out ↦ some out.bytes ]
  ]

  -- NULL is a format with no text; an empty text is not written.
  unfoldable pub syncio_printf :
      List Answer → Option Str → List (Arg F) → Outcome (Option ℕ × List ℕ)
  syncio_printf answers none args = returned (some 0, [])
  syncio_printf answers (some fmt) args = elim (printf_text fmt args) [
    | none ↦ faults
    | some text ↦
        if length text == 0
        then returned (some 0, [])
        else write_loop answers text (length text) 0 []
  ]
