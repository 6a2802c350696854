-- ===== src/Text/Format/Refine.antt =====
-- The buffer of `strings_format` in runtime/src/strings.c holds the text of the pieces.
use picasso_lang.Base.{
  append_assoc, append-nil, ℕ, zero, suc, ◌≡◌, refl, sym, ap, ◌∙◌, inl, inr, ◌+◌, ◌≤◌, ◌^◌,
  Option-cases, Option, none, some, List, [], ◌∷◌, ◌++◌, arith, length, length-append, length-take,
}
use picasso_lang.Text.Ops.{Str}
use picasso_lang.Text.Ops.Content.{content, read_bytes-at}
use picasso_lang.Text.Buffer.{Buffer}
use picasso_lang.Text.Buffer.Growth.{buf_append-room}
use picasso_lang.Text.Format.{
  Arg, Piece, format_specifier, format_step, skip_bytes, append_all, format_loop, strings_format,
}

abbrev pub concat : List (List ℕ) → List ℕ
concat [] = []
concat (p ∷ ps) = p ++ concat ps

append_all-concat :
    (ps : List (List ℕ)) (out : Buffer)
    → length out.bytes ≤ out.cap
    → length out.bytes + length (concat ps) ≤ 2 ^ 63
    → (out' : Buffer) × (append_all out ps ≡ some out')
      × (out'.bytes ≡ out.bytes ++ concat ps)
      × (length out'.bytes ≤ out'.cap)
unfolding append_all
append_all-concat [] out room small = (out, refl, sym (append-nil out.bytes), room)
append_all-concat (p ∷ ps) out room small =
    let len = length-append p (concat ps) in
    let (mid, e, text, fits, grown) = buf_append-room out p room (omega arith) in
    let mid_len : length mid.bytes ≡ length out.bytes + length p =
      ap length text ∙ length-append out.bytes p in
    let (out', e', text', fits') = append_all-concat ps mid fits (omega arith) in
    (
      out',
      rw (e, append_all) e',
      text' ∙ ap (λ ws. ws ++ concat ps) text ∙ append_assoc out.bytes p (concat ps),
      fits',
    )

skip_bytes-shorter : (n : ℕ) (cs : List ℕ) → length (skip_bytes n cs) ≤ length cs
skip_bytes-shorter zero cs = omega arith
skip_bytes-shorter (suc n) [] = omega arith
skip_bytes-shorter (suc n) (c ∷ cs) = omega (arith, skip_bytes-shorter n cs)

module _ {F : Type 0} (specifier : ℕ → List ℕ → List (Arg F) → Piece F) where
  -- The text that a format and arguments stand for: the pieces of the iterations, one behind the other.
  unfoldable pub format_text : ℕ → List ℕ → List (Arg F) → Option (List ℕ)
  format_text k [] args = some []
  format_text zero (c ∷ rest) args = none
  format_text (suc k) (c ∷ rest) args = elim (format_step specifier c rest args) [
    | none ↦ none
    | some (pieces, args', rest') ↦ elim (format_text k rest' args') [
      | none ↦ none
      | some text ↦ some (concat pieces ++ text)
    ]
  ]

  format_loop-text :
      (k : ℕ) (fmt : List ℕ) (args : List (Arg F)) (text : List ℕ) (out : Buffer)
      → format_text k fmt args ≡ some text
      → length out.bytes ≤ out.cap
      → length out.bytes + length text ≤ 2 ^ 63
      → (out' : Buffer) × (format_loop specifier k fmt args out ≡ some out')
        × (out'.bytes ≡ out.bytes ++ text)
  unfolding format_text format_loop
  format_loop-text k [] args text out e room small =
      let none_left : [] ≡ text = ground arith in
      (out, refl, sym (append-nil out.bytes) ∙ ap (λ ws. out.bytes ++ ws) none_left)
  format_loop-text zero (c ∷ rest) args text out e room small = absurd (ground arith)
  format_loop-text (suc k) (c ∷ rest) args text out e room small =
      elim (Option-cases (format_step specifier c rest args)) [
        | inl s ↦ absurd (ground arith)
        | inr ((pieces, args', rest'), s) ↦ elim (Option-cases (format_text k rest' args')) [
          | inl t ↦ absurd (ground arith)
          | inr (more, t) ↦
              let whole : concat pieces ++ more ≡ text = ground arith in
              let len : length text ≡ length (concat pieces) + length more =
                ap length (sym whole) ∙ length-append (concat pieces) more in
              let (mid, a, bytes, fits) = append_all-concat pieces out room (omega arith) in
              let mid_len : length mid.bytes ≡ length out.bytes + length (concat pieces) =
                ap length bytes ∙ length-append out.bytes (concat pieces) in
              let (out', l, bytes') =
                format_loop-text k rest' args' more mid t fits (omega arith) in
              (
                out',
                rw (s, format_loop) (rw a l),
                bytes'
                    ∙ ap (λ ws. ws ++ more) bytes
                    ∙ append_assoc out.bytes (concat pieces) more
                    ∙ ap (λ ws. out.bytes ++ ws) whole,
              )
        ]
      ]

  -- An iteration leaves no more of the format than there is behind its first byte.
  pub format_step-shorter :
      (c : ℕ) (rest : List ℕ) (args : List (Arg F)) (ps : List (List ℕ)) (args' : List (Arg F))
      (rest' : List ℕ)
      → format_step specifier c rest args ≡ some (ps, args', rest')
      → length rest' ≤ length rest
  unfolding format_step
  format_step-shorter c [] args ps args' rest' e = ground arith
  format_step-shorter c (spec ∷ after) args ps args' rest' e =
      elim (Option-cases (specifier spec after args)) [
        | inl s ↦ ground arith
        | inr ((pieces, more, skip), s) ↦
            let shorter = skip_bytes-shorter skip after in
            ground (arith, ap (λ (xs : List ℕ). length xs))
      ]

  -- More fuel than the length of the format changes nothing.
  format_text-fuel :
      (k j : ℕ) (fmt : List ℕ) (args : List (Arg F))
      → length fmt ≤ k
      → length fmt ≤ j
      → format_text k fmt args ≡ format_text j fmt args
  unfolding format_text
  format_text-fuel zero zero [] args lk lj = refl
  format_text-fuel zero (suc j) [] args lk lj = refl
  format_text-fuel (suc k) zero [] args lk lj = refl
  format_text-fuel (suc k) (suc j) [] args lk lj = refl
  format_text-fuel zero j (c ∷ rest) args lk lj = absurd (omega arith)
  format_text-fuel (suc k) zero (c ∷ rest) args lk lj = absurd (omega arith)
  format_text-fuel (suc k) (suc j) (c ∷ rest) args lk lj =
      elim (Option-cases (format_step specifier c rest args)) [
        | inl s ↦ rw (s, format_text) refl
        | inr ((pieces, args', rest'), s) ↦
            let shorter = format_step-shorter c rest args pieces args' rest' s in
            let same = format_text-fuel k j rest' args' (omega arith) (omega arith) in
            rw (s, format_text) (rw same refl)
      ]

  pub format_loop_whole :
      (k : ℕ) (fmt : List ℕ) (args : List (Arg F)) (text : List ℕ)
      → length fmt ≤ k
      → format_text k fmt args ≡ some text
      → length text ≤ 2 ^ 63
      → (out : Buffer) × (format_loop specifier
            (length fmt)
            fmt
            args
            (record { cap = 0; bytes = [] })
          ≡ some out)
        × (out.bytes ≡ text)
  format_loop_whole k fmt args text enough e small =
      let e' = format_text-fuel (length fmt) k fmt args (omega arith) (omega arith) ∙ e in
      format_loop-text (length fmt) fmt args text (record { cap = 0; bytes = [] }) e' (omega arith)
        (omega arith)

module _ {F : Type 0} (f64_to_dec : F → List ℕ) where
  -- Where every specifier has an argument of its type, `strings_format` returns, and the string that it returns
  -- has exactly the bytes of the pieces that the format and the arguments stand for, if they are 2 ^ 63 at most.
  pub strings_format-format_text :
      (fmt : Str) (args : List (Arg F)) (k : ℕ) (text : List ℕ)
      → fmt.size ≤ length fmt.bytes
      → fmt.size ≤ k
      → format_text (format_specifier f64_to_dec) k (content fmt) args ≡ some text
      → length text ≤ 2 ^ 63
      → strings_format f64_to_dec (some fmt) args
        ≡ some (some (record { bytes = text; size = length text }))
  unfolding strings_format
  strings_format-format_text fmt args k text l enough e small =
      let size : length (content fmt) ≡ fmt.size = omega (arith, length-take fmt.size fmt.bytes) in
      let (out, f, bytes) =
        format_loop_whole (format_specifier f64_to_dec) k (content fmt) args text (omega arith) e
          small in
      rw (read_bytes-at fmt.size fmt.bytes l, strings_format)
        (rw f (ap (λ bs. some (some (record { bytes = bs; size = length bs }))) bytes))
