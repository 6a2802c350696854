-- ===== src/Text/Format/Prints.antt =====
-- The loop over the format writes what the format and its arguments stand for: `__public__strings_format` of
-- runtime/src/strings.c, with what its siblings in diskio.c share.
use picasso_lang.Base.{
  ℕ, ◌≡◌, refl, sym, ap, ◌∙◌, ◌+◌, ◌≤◌, ◌^◌, ◌==◌, Bool, false, Bool-cases, inl, inr, none, some,
  List, [], ◌∷◌, arith, length, length-take, take,
}
use picasso_lang.Text.Ops.{Str}
use picasso_lang.Text.Ops.Content.{content, read_bytes-at}
use picasso_lang.Text.Buffer.{u64_to_dec, i64_to_dec, ptr_to_hex}
use picasso_lang.Text.Format.{
  Arg, string, int32, uint32, long, ulong, address, double, Piece, printed, blank, sign_extend,
  format_specifier, format_step, format_string, format_signed, format_unsigned, format_pointer,
  format_float, format_long, format_ulong, strings_format,
}
use picasso_lang.Text.Format.Refine.{format_text, strings_format-format_text}
use picasso_lang.Text.Format.Digits.{
  IsDecimal, IsSigned, IsAddress, printed-u64_to_dec, printed-i64_to_dec, printed_int,
  ptr_to_hex-IsAddress, ptr_to_hex-short, IsSigned-short,
}
use picasso_lang.Text.Format.Spec.{
  Typed, ends, lone_percent, plain, percent, no_text, text_of, int_of, uint_of, long_of, ulong_of,
  address_of, double_of, other, Prints, longest, Begins, IsOther, behind_d,
}
use picasso_lang.Text.Format.Iteration.{
  IsLike, Whole, step_text, goes_on, at_percent, at_plain, writes,
}

module _ {F : Type 0} (f64_to_dec : F → List ℕ) (ld : Bool)
    (specifier : ℕ → List ℕ → List (Arg F) → Piece F) (like : IsLike f64_to_dec ld specifier) where
  at_string :
      (s : Str) (rest : List ℕ) (args : List (Arg F)) (Q : List ℕ → Type 0) (m : ℕ)
      → s.size ≤ length s.bytes
      → Whole specifier rest args Q m
      → Whole specifier
          (37 ∷ 115 ∷ rest)
          (string (some s) ∷ args)
          (Begins (λ now. now ≡ take s.size s.bytes) Q)
          (s.size + m)
  unfolding format_specifier format_string
  at_string s rest args Q m l w =
      let is = like.others 115 rest (string (some s) ∷ args) (ground arith) in
      let len = length-take s.size s.bytes in
      elim (Bool-cases (s.size == 0)) [
        | inl e ↦
            let zero_long : s.size ≡ 0 = ground arith in
            let empty : [] ≡ take s.size s.bytes = ap (λ n. take n s.bytes) (sym zero_long) in
            goes_on specifier 37 (115 ∷ rest) (string (some s) ∷ args) (take s.size s.bytes) args
              rest (λ now. now ≡ take s.size s.bytes) Q s.size m []
              (at_percent specifier 115 rest (string (some s) ∷ args) [] args 0 (is ∙ rw e refl))
              empty refl (omega arith) w
        | inr e ↦
            writes specifier 115 rest (string (some s) ∷ args) (some (take s.size s.bytes))
              (take s.size s.bytes) args 0 (λ now. now ≡ take s.size s.bytes) Q s.size m
              (is ∙ rw e (rw (read_bytes-at s.size s.bytes l) refl)) refl refl (omega arith) w
      ]

  at_other :
      (c : ℕ) (rest : List ℕ) (args : List (Arg F)) (Q : List ℕ → Type 0) (m : ℕ)
      → IsOther c
      → Whole specifier rest args Q m
      → Whole specifier (37 ∷ c ∷ rest) args (Begins (λ now. now ≡ 37 ∷ c ∷ []) Q) (2 + m)
  unfolding format_specifier
  at_other c rest args Q m o w =
      let n1 = o.no_percent in
      let n2 = o.no_s in
      let n3 = o.no_d in
      let n4 = o.no_u in
      let n5 = o.no_l in
      let n6 = o.no_p in
      let n7 = o.no_f in
      let falls : format_specifier f64_to_dec c rest args
          ≡ some ((37 ∷ []) ∷ (c ∷ []) ∷ [], args, 0) =
        ground arith in
      goes_on specifier 37 (c ∷ rest) args (37 ∷ c ∷ []) args rest (λ now. now ≡ 37 ∷ c ∷ []) Q 2 m
        ((37 ∷ []) ∷ (c ∷ []) ∷ [])
        (at_percent specifier c rest args ((37 ∷ []) ∷ (c ∷ []) ∷ []) args 0
          (like.others c rest args n5 ∙ falls))
        refl refl (omega arith) w

  pub format_text-Prints :
      {fmt : List ℕ} {args : List (Arg F)} (d : Typed ld fmt args)
      → Whole specifier fmt args (Prints f64_to_dec d) (longest f64_to_dec d)
  unfolding format_text format_step format_specifier format_string format_signed format_unsigned
      format_pointer format_float
  format_text-Prints (ends args) = ([], refl, omega arith, λ k l. refl)
  format_text-Prints (lone_percent args) =
      ([], refl, omega arith, step_text specifier 37 [] args [] args [] [] refl (λ k l. refl))
  format_text-Prints (plain c rest args n d) =
      goes_on specifier c rest args (c ∷ []) args rest (λ now. now ≡ c ∷ []) (Prints f64_to_dec d) 1
        (longest f64_to_dec d) ((c ∷ []) ∷ []) (at_plain specifier c rest args n) refl refl
        (omega arith) (format_text-Prints d)
  format_text-Prints (percent rest args d) =
      writes specifier 37 rest args (some (37 ∷ [])) (37 ∷ []) args 0 (λ now. now ≡ 37 ∷ [])
        (Prints f64_to_dec d) 1 (longest f64_to_dec d) (like.others 37 rest args (ground arith))
        refl refl (omega arith) (format_text-Prints d)
  format_text-Prints (no_text rest args d) =
      let (text, p, fits, t) = format_text-Prints d in
      (
        text,
        p,
        fits,
        step_text specifier 37 (115 ∷ rest) (string none ∷ args) [] args rest text
            (at_percent specifier 115 rest (string none ∷ args) [] args 0
              (like.others 115 rest (string none ∷ args) (ground arith)))
            t,
      )
  format_text-Prints (text_of s rest args l d) =
      at_string s rest args (Prints f64_to_dec d) (longest f64_to_dec d) l (format_text-Prints d)
  format_text-Prints (int_of v rest args l d) =
      let (ds, e, is) = printed_int v l in
      writes specifier 100 rest (int32 v ∷ args) (printed (i64_to_dec (sign_extend v) blank)) ds
        args 0 (IsSigned (2 ^ 31) v) (Prints f64_to_dec d) 21 (longest f64_to_dec d)
        (like.others 100 rest (int32 v ∷ args) (ground arith)) e is
        (IsSigned-short (2 ^ 31) v ds is) (format_text-Prints d)
  format_text-Prints (uint_of v rest args l d) =
      let (ds, e, is) = printed-u64_to_dec v (omega arith) in
      writes specifier 117 rest (uint32 v ∷ args) (printed (u64_to_dec v blank)) ds args 0
        (IsDecimal v) (Prints f64_to_dec d) 21 (longest f64_to_dec d)
        (like.others 117 rest (uint32 v ∷ args) (ground arith)) e is (omega (arith, is.short))
        (format_text-Prints d)
  format_text-Prints (long_of v rest args l n d) =
      let (ds, e, is) = printed-i64_to_dec v l in
      let (skip, s, left) = like.longs v rest args n in
      writes specifier 108 rest (long v ∷ args) (printed (i64_to_dec v blank)) ds args skip
        (IsSigned (2 ^ 63) v) (Prints f64_to_dec d) 21 (longest f64_to_dec d) s e is
        (IsSigned-short (2 ^ 63) v ds is) (rw left (format_text-Prints d))
  format_text-Prints (ulong_of v rest args l d) =
      let (ds, e, is) = printed-u64_to_dec v l in
      writes specifier 108 (117 ∷ rest) (ulong v ∷ args) (printed (u64_to_dec v blank)) ds args 1
        (IsDecimal v) (Prints f64_to_dec d) 21 (longest f64_to_dec d) (like.ulongs v rest args) e is
        (omega (arith, is.short)) (format_text-Prints d)
  format_text-Prints (address_of v rest args l d) =
      writes specifier 112 rest (address v ∷ args) (some (ptr_to_hex v)) (ptr_to_hex v) args 0
        (IsAddress v) (Prints f64_to_dec d) 21 (longest f64_to_dec d)
        (like.others 112 rest (address v ∷ args) (ground arith)) refl (ptr_to_hex-IsAddress v l)
        (omega (arith, ptr_to_hex-short v)) (format_text-Prints d)
  format_text-Prints (double_of v rest args d) =
      writes specifier 102 rest (double v ∷ args) (some (f64_to_dec v)) (f64_to_dec v) args 0
        (λ now. now ≡ f64_to_dec v) (Prints f64_to_dec d) (length (f64_to_dec v))
        (longest f64_to_dec d) (like.others 102 rest (double v ∷ args) (ground arith)) refl refl
        (omega arith) (format_text-Prints d)
  format_text-Prints (other c rest args o d) =
      at_other c rest args (Prints f64_to_dec d) (longest f64_to_dec d) o (format_text-Prints d)

nothing_behind : (rest : List ℕ) → rest ≡ behind_d false rest
nothing_behind [] = refl
nothing_behind (c ∷ cs) = refl

module _ {F : Type 0} (f64_to_dec : F → List ℕ) where
  format_specifier-IsLike : IsLike f64_to_dec false (format_specifier f64_to_dec)
  unfolding format_specifier format_long format_ulong
  format_specifier-IsLike = record {
    others = λ c rest args n. refl;
    ulongs = λ v rest args. refl;
    longs = λ v rest args n. (0, rw n refl, nothing_behind rest);
  }

  -- Where every specifier of the format has an argument of its type, `__public__strings_format` returns a string
  -- that is printed as the format says: each byte that is not a % as it is, %% as a %, a string's bytes for %s
  -- (none for NULL), the decimal digits for %d %u %l %lu, with a minus sign where the signed number is negative,
  -- 0x and hexadecimal digits that read back as the address for %p, f64_to_dec's text for %f, any other
  -- specifier with its %, and nothing for a % at the end. The condition is that the longest text that the format
  -- can give, with 21 bytes for a number, has 2 ^ 63 bytes at most.
  pub strings_format-text :
      (fmt : Str) (args : List (Arg F)) (d : Typed false (content fmt) args)
      → fmt.size ≤ length fmt.bytes
      → longest f64_to_dec d ≤ 2 ^ 63
      → (text : List ℕ) × Prints f64_to_dec d text
        × (strings_format f64_to_dec (some fmt) args
            ≡ some (some (record { bytes = text; size = length text })))
  strings_format-text fmt args d l small =
      let (text, p, fits, t) =
        format_text-Prints f64_to_dec false (format_specifier f64_to_dec) format_specifier-IsLike
          d in
      let size = length-take fmt.size fmt.bytes in
      (
        text,
        p,
        strings_format-format_text f64_to_dec fmt args fmt.size text l (omega arith)
            (t fmt.size (omega arith)) (omega arith),
      )
