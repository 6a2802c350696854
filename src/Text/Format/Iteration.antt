-- ===== src/Text/Format/Iteration.antt =====
-- One iteration of the loop over a format, in `__public__strings_format` of runtime/src/strings.c and its siblings
-- in diskio.c, and the text of the rest.
use picasso_lang.Base.{
  ℕ, zero, suc, ◌≡◌, ◌≢◌, refl, ap, ◌∙◌, ◌+◌, ◌≤◌, Bool, false, Option, some, List, [], ◌∷◌, ◌++◌,
  arith, length, length-append, append-nil,
}
use picasso_lang.Text.Buffer.{u64_to_dec, i64_to_dec}
use picasso_lang.Text.Format.{
  Arg, long, ulong, Piece, piece, printed, blank, next_is_u, skip_bytes, format_specifier,
  format_step,
}
use picasso_lang.Text.Format.Refine.{format_text, concat, format_step-shorter}
use picasso_lang.Text.Format.Spec.{Begins, behind_d}

-- How the `switch` of a function compares to the one of `__public__strings_format`.
pub record IsLike {F : Type 0} (f64_to_dec : F → List ℕ) (ld : Bool)
    (specifier : ℕ → List ℕ → List (Arg F) → Piece F) : Type 0 where
  pub others :
      (c : ℕ) (rest : List ℕ) (args : List (Arg F))
      → c ≢ 108
      → specifier c rest args ≡ format_specifier f64_to_dec c rest args
  pub ulongs :
      (v : ℕ) (rest : List ℕ) (args : List (Arg F))
      → specifier 108 (117 ∷ rest) (ulong v ∷ args) ≡ piece (printed (u64_to_dec v blank)) args 1
  pub longs :
      (v : ℕ) (rest : List ℕ) (args : List (Arg F))
      → next_is_u rest ≡ false
      → (skip : ℕ) × (specifier 108 rest (long v ∷ args)
          ≡ piece (printed (i64_to_dec v blank)) args skip)
        × (skip_bytes skip rest ≡ behind_d ld rest)

module _ {F : Type 0} (specifier : ℕ → List ℕ → List (Arg F) → Piece F) where
  -- The loop finds a text of `Q`, of `m` bytes at most.
  abbrev pub Whole : List ℕ → List (Arg F) → (List ℕ → Type 0) → ℕ → Type 0
  Whole fmt args Q m =
      (text : List ℕ) × Q text
      × (length text ≤ m)
      × ((k : ℕ) → length fmt ≤ k → format_text specifier k fmt args ≡ some text)

  -- One iteration, and the rest of the loop.
  pub step_text :
      (c : ℕ) (rest : List ℕ) (args : List (Arg F)) (ps : List (List ℕ)) (args' : List (Arg F))
      (rest' more : List ℕ)
      → format_step specifier c rest args ≡ some (ps, args', rest')
      → ((k : ℕ) → length rest' ≤ k → format_text specifier k rest' args' ≡ some more)
      → (k : ℕ) → length (c ∷ rest) ≤ k
      → format_text specifier k (c ∷ rest) args ≡ some (concat ps ++ more)
  unfolding format_text
  step_text c rest args ps args' rest' more s t zero l = absurd (omega arith)
  step_text c rest args ps args' rest' more s t (suc k) l =
      let shorter = format_step-shorter specifier c rest args ps args' rest' s in
      let rest_of = t k (omega arith) in rw (s, format_text) (rw rest_of refl)

  pub goes_on :
      (c : ℕ) (rest : List ℕ) (args : List (Arg F)) (now : List ℕ) (args' : List (Arg F))
      (rest' : List ℕ) (P Q : List ℕ → Type 0) (n m : ℕ) (ps : List (List ℕ))
      → format_step specifier c rest args ≡ some (ps, args', rest')
      → concat ps ≡ now
      → P now
      → length now ≤ n
      → Whole rest' args' Q m
      → Whole (c ∷ rest) args (Begins P Q) (n + m)
  goes_on c rest args now args' rest' P Q n m ps s whole p short (more, q, fits, t) =
      let len = length-append now more in
      (
        now ++ more,
        (now, more, refl, p, q),
        omega arith,
        λ k l.
            step_text c rest args ps args' rest' more s t k l ∙ ap (λ ws. some (ws ++ more)) whole,
      )

  -- The iteration at a specifier.
  pub at_percent :
      (spec : ℕ) (after : List ℕ) (args : List (Arg F)) (ps : List (List ℕ)) (args' : List (Arg F))
      (skip : ℕ)
      → specifier spec after args ≡ some (ps, args', skip)
      → format_step specifier 37 (spec ∷ after) args ≡ some (ps, args', skip_bytes skip after)
  unfolding format_step
  at_percent spec after args ps args' skip e = rw e refl

  pub at_plain :
      (c : ℕ) (rest : List ℕ) (args : List (Arg F))
      → c ≢ 37
      → format_step specifier c rest args ≡ some ((c ∷ []) ∷ [], args, rest)
  unfolding format_step
  at_plain c rest args n = ground arith

  -- The iteration at a specifier that writes one piece, `printed` in one way or another.
  pub writes :
      (spec : ℕ) (after : List ℕ) (args : List (Arg F)) (out : Option (List ℕ)) (now : List ℕ)
      (args' : List (Arg F)) (skip : ℕ) (P Q : List ℕ → Type 0) (n m : ℕ)
      → specifier spec after args ≡ piece out args' skip
      → out ≡ some now
      → P now
      → length now ≤ n
      → Whole (skip_bytes skip after) args' Q m
      → Whole (37 ∷ spec ∷ after) args (Begins P Q) (n + m)
  writes spec after args out now args' skip P Q n m e o p short w =
      goes_on 37 (spec ∷ after) args now args' (skip_bytes skip after) P Q n m (now ∷ [])
        (at_percent spec after args (now ∷ []) args' skip (e ∙ ap (λ x. piece x args' skip) o))
        (append-nil now) p short w
