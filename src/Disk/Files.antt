-- ===== src/Disk/Files.antt =====
-- What `__public__syncio_fread`, `__public__syncio_fwrite` and `__public__syncio_printf` of
-- runtime/src/diskio.c return, and what they have moved.
use picasso_lang.Base.{
  if◌then◌else◌, ◌==◌, Bool-cases, inl, inr, true, ℕ, ◌≡◌, refl, ap, ◌∙◌, ◌+◌, ◌-◌, ◌≤◌, ◌<◌, ◌^◌,
  min, false, Option, none, some, List, [], ◌∷◌, ◌++◌, arith, length, length-take, take, drop,
  take_all, length-drop,
}
use picasso_lang.Base.Int.{pos, ltb_ℤ}
use picasso_lang.Text.Ops.{Str}
use picasso_lang.Text.Ops.Content.{content, read_bytes-at}
use picasso_lang.Text.Format.{Arg, skip_bytes, format_long, format_ulong}
use picasso_lang.Text.Format.Spec.{Typed, Prints, longest, behind_d}
use picasso_lang.Text.Format.Prints.{format_text-Prints}
use picasso_lang.Text.Format.Iteration.{IsLike}
use picasso_lang.Text.Format.Refine.{format_text, format_loop_whole}
use picasso_lang.Disk.{
  Answer, Outcome, returned, File, write_loop, check_arguments, syncio_fread, syncio_fwrite,
}
use picasso_lang.Disk.Printf.{printf_specifier, printf_long, next_is_d, printf_text, syncio_printf}
use picasso_lang.Disk.Loops.{IsMoving, progress, fails_in, Result, write_loop-Result}
use picasso_lang.Disk.Loops.Read.{read_loop-Result}

check_arguments_pass :
    (f : File) (buf : List ℕ) (n offset : ℕ)
    → 0 < n
    → ltb_ℤ f.fileno (pos 0) ≡ false
    → check_arguments (some (some f)) (some buf) (pos n) (pos offset) ≡ some (buf, n, offset)
unfolding check_arguments
check_arguments_pass f buf n offset h e = ground arith

-- Where the file is open, the array has room for n > 0 bytes and the offset stays an `int`, `__public__syncio_fread`
-- returns, however the system splits the reads and interrupts them, once it has answered n times otherwise and
-- has moved something each time that there was something. If no call fails, the result is the
-- number of bytes that the file has from the offset on, n at most; those bytes are at the beginning of the
-- array, and the rest of the array is as it was. If one fails the result is -1, and a part may have been read.
pub syncio_fread-Result :
    (answers : List Answer) (file : List ℕ) (f : File) (buf : List ℕ) (n offset : ℕ)
    → 0 < n
    → ltb_ℤ f.fileno (pos 0) ≡ false
    → n ≤ length buf
    → offset + n < 2 ^ 31
    → IsMoving answers
    → n ≤ progress answers
    → (r : Option ℕ) × (j : ℕ) × (syncio_fread answers file
          (some (some f))
          (some buf)
          (pos n)
          (pos offset)
        ≡ returned (r, take j (drop offset file) ++ drop j buf))
      × Result answers (min n (length file - offset)) j r
unfolding syncio_fread
syncio_fread-Result answers file f buf n offset h opened l small m enough =
    let (r, j, e, result) = read_loop-Result answers file n offset buf l small m enough in
    (r, j, rw (check_arguments_pass f buf n offset h opened, syncio_fread) e, result)

-- The offset of `__public__syncio_fwrite` is one into the array: with n > 0 bytes behind it there and an open file,
-- the function returns once the system has answered n times without an interruption, having moved something
-- each time; it has sent the n bytes of the array from the offset on, to wherever the file is, and returns n, or
-- it returns -1 after a failure, with a beginning of them sent.
pub syncio_fwrite-Result :
    (answers : List Answer) (f : File) (buf : List ℕ) (n offset : ℕ)
    → 0 < n
    → ltb_ℤ f.fileno (pos 0) ≡ false
    → offset + n ≤ length buf
    → IsMoving answers
    → n ≤ progress answers
    → (r : Option ℕ) × (j : ℕ) × (syncio_fwrite answers
          (some (some f))
          (some buf)
          (pos n)
          (pos offset)
        ≡ returned (r, take j (drop offset buf)))
      × Result answers n j r
unfolding syncio_fwrite
syncio_fwrite-Result answers f buf n offset h opened l m enough =
    let dl = length-drop offset buf in
    let (r, j, e, result) = write_loop-Result answers (drop offset buf) n (omega arith) m enough in
    (r, j, rw (check_arguments_pass f buf n offset h opened, syncio_fwrite) e, result)

write_loop_whole :
    (answers : List Answer) (text : List ℕ)
    → fails_in answers ≡ false
    → IsMoving answers
    → length text ≤ progress answers
    → write_loop answers text (length text) 0 [] ≡ returned (some (length text), text)
write_loop_whole answers text up m enough =
    let (r, j, e, result) = write_loop-Result answers text (length text) (omega arith) m enough in
    e ∙ whole r j result
  where
    whole :
        (r : Option ℕ) (j : ℕ)
        → Result answers (length text) j r
        → ◌≡◌ {A = Outcome (Option ℕ × List ℕ)}
            (returned (r, take j text))
            (returned (some (length text), text))
    whole (some m) j (g, d) = rw (g, d, take_all text (length text) (omega arith)) refl
    whole none j (failed, d) = absurd (ground arith)

behind_long :
    (rest : List ℕ) → skip_bytes (if next_is_d rest then 1 else 0) rest ≡ behind_d true rest
behind_long [] = refl
behind_long (c ∷ cs) = elim (Bool-cases (c == 100)) [ inl e ↦ rw e refl | inr e ↦ rw e refl ]

module _ {F : Type 0} (f64_to_dec : F → List ℕ) where
  printf_text-text :
      (fmt : Str) (args : List (Arg F)) (k : ℕ) (text : List ℕ)
      → fmt.size ≤ length fmt.bytes
      → fmt.size ≤ k
      → format_text (printf_specifier f64_to_dec) k (content fmt) args ≡ some text
      → length text ≤ 2 ^ 63
      → printf_text f64_to_dec fmt args ≡ some text
  unfolding printf_text
  printf_text-text fmt args k text l enough e small =
      let size : length (content fmt) ≡ fmt.size = omega (arith, length-take fmt.size fmt.bytes) in
      let (out, f, bytes) =
        format_loop_whole (printf_specifier f64_to_dec) k (content fmt) args text (omega arith) e
          small in
      rw (read_bytes-at fmt.size fmt.bytes l, printf_text) (rw f (ap some bytes))

  syncio_printf-format_text :
      (answers : List Answer) (fmt : Str) (args : List (Arg F)) (k : ℕ) (text : List ℕ)
      → fmt.size ≤ length fmt.bytes
      → fmt.size ≤ k
      → format_text (printf_specifier f64_to_dec) k (content fmt) args ≡ some text
      → length text ≤ 2 ^ 63
      → fails_in answers ≡ false
      → IsMoving answers
      → length text ≤ progress answers
      → syncio_printf f64_to_dec answers (some fmt) args ≡ returned (some (length text), text)
  unfolding syncio_printf
  syncio_printf-format_text answers fmt args k [] l enough e small up m n =
      rw (printf_text-text fmt args k [] l enough e small, syncio_printf) refl
  syncio_printf-format_text answers fmt args k (c ∷ text) l enough e small up m n =
      let whole = write_loop_whole answers (c ∷ text) up m n in
      rw (printf_text-text fmt args k (c ∷ text) l enough e small, syncio_printf) (ground arith)

  printf_specifier-IsLike : IsLike f64_to_dec true (printf_specifier f64_to_dec)
  unfolding printf_specifier printf_long format_long format_ulong
  printf_specifier-IsLike = record {
    others = λ c rest args n. ground arith;
    ulongs = λ v rest args. refl;
    longs = λ v rest args n. (if next_is_d rest then 1 else 0, ground arith, behind_long rest);
  }

  -- Where every specifier of the format has an argument of its type and no call fails, `__public__syncio_printf`
  -- writes exactly a text that is what the format says, and returns its length: each byte that is not a % as it is,
  -- %% as a %, a string's bytes for %s (none for NULL), the decimal digits for %d %u %l %ld %lu, with a minus
  -- sign where the signed number is negative, 0x and hexadecimal digits that read back as the address for %p,
  -- f64_to_dec's text for %f, any other specifier with its %, and nothing for a % at the end. The longest text
  -- that the format can give, with 21 bytes for a number, has 2 ^ 63 bytes at most, and there are as many
  -- answers without an interruption, each of which moves something.
  pub syncio_printf-text :
      (answers : List Answer) (fmt : Str) (args : List (Arg F)) (d : Typed true (content fmt) args)
      → fmt.size ≤ length fmt.bytes
      → longest f64_to_dec d ≤ 2 ^ 63
      → fails_in answers ≡ false
      → IsMoving answers
      → longest f64_to_dec d ≤ progress answers
      → (text : List ℕ) × Prints f64_to_dec d text
        × (syncio_printf f64_to_dec answers (some fmt) args ≡ returned (some (length text), text))
  syncio_printf-text answers fmt args d l small up m n =
      let (text, p, fits, t) =
        format_text-Prints f64_to_dec true (printf_specifier f64_to_dec) printf_specifier-IsLike
          d in
      let size = length-take fmt.size fmt.bytes in
      (
        text,
        p,
        syncio_printf-format_text answers fmt args fmt.size text l (omega arith)
            (t fmt.size (omega arith)) (omega arith) up m (omega arith),
      )
