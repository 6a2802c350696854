-- ===== src/Text/Format/Spec.antt =====
-- The text that a format and its arguments stand for, by what each byte and each specifier of it means, apart
-- from the code of `__public__strings_format` and `__public__syncio_printf` in runtime/src.
use picasso_lang.Base.{
  ℕ, ◌≡◌, ◌≢◌, ◌+◌, ◌≤◌, ◌<◌, ◌^◌, ◌==◌, ◌&&◌, if◌then◌else◌, Bool, false, none, some, List, [],
  ◌∷◌, ◌++◌, length, take,
}
use picasso_lang.Text.Ops.{Str}
use picasso_lang.Text.Format.{Arg, string, int32, uint32, long, ulong, address, double, next_is_u}
use picasso_lang.Text.Format.Digits.{IsDecimal, IsSigned, IsAddress}

-- The format behind %l: with `ld` a `d` there belongs to the specifier.
abbrev pub behind_d : Bool → List ℕ → List ℕ
behind_d ld [] = []
behind_d ld (c ∷ cs) = if ld && (c == 100) then cs else c ∷ cs

-- None of % s d u l p f.
pub record IsOther (c : ℕ) : Type 0 where
  pub no_percent : c ≢ 37
  pub no_s : c ≢ 115
  pub no_d : c ≢ 100
  pub no_u : c ≢ 117
  pub no_l : c ≢ 108
  pub no_p : c ≢ 112
  pub no_f : c ≢ 102

-- The format has an argument of the right type for every specifier.
pub data Typed {F : Type 0} (ld : Bool) : List ℕ → List (Arg F) → Type 0 where
  ends : (args : List (Arg F)) → Typed ld [] args
  lone_percent : (args : List (Arg F)) → Typed ld (37 ∷ []) args
  plain :
      (c : ℕ) (rest : List ℕ) (args : List (Arg F))
      → c ≢ 37
      → Typed ld rest args
      → Typed ld (c ∷ rest) args
  percent :
      (rest : List ℕ) (args : List (Arg F)) → Typed ld rest args → Typed ld (37 ∷ 37 ∷ rest) args
  no_text :
      (rest : List ℕ) (args : List (Arg F))
      → Typed ld rest args
      → Typed ld (37 ∷ 115 ∷ rest) (string none ∷ args)
  text_of :
      (s : Str) (rest : List ℕ) (args : List (Arg F))
      → s.size ≤ length s.bytes
      → Typed ld rest args
      → Typed ld (37 ∷ 115 ∷ rest) (string (some s) ∷ args)
  int_of :
      (v : ℕ) (rest : List ℕ) (args : List (Arg F))
      → v < 2 ^ 32
      → Typed ld rest args
      → Typed ld (37 ∷ 100 ∷ rest) (int32 v ∷ args)
  uint_of :
      (v : ℕ) (rest : List ℕ) (args : List (Arg F))
      → v < 2 ^ 32
      → Typed ld rest args
      → Typed ld (37 ∷ 117 ∷ rest) (uint32 v ∷ args)
  long_of :
      (v : ℕ) (rest : List ℕ) (args : List (Arg F))
      → v < 2 ^ 64
      → next_is_u rest ≡ false
      → Typed ld (behind_d ld rest) args
      → Typed ld (37 ∷ 108 ∷ rest) (long v ∷ args)
  ulong_of :
      (v : ℕ) (rest : List ℕ) (args : List (Arg F))
      → v < 2 ^ 64
      → Typed ld rest args
      → Typed ld (37 ∷ 108 ∷ 117 ∷ rest) (ulong v ∷ args)
  address_of :
      (v : ℕ) (rest : List ℕ) (args : List (Arg F))
      → v < 2 ^ 64
      → Typed ld rest args
      → Typed ld (37 ∷ 112 ∷ rest) (address v ∷ args)
  double_of :
      (v : F) (rest : List ℕ) (args : List (Arg F))
      → Typed ld rest args
      → Typed ld (37 ∷ 102 ∷ rest) (double v ∷ args)
  other :
      (c : ℕ) (rest : List ℕ) (args : List (Arg F))
      → IsOther c
      → Typed ld rest args
      → Typed ld (37 ∷ c ∷ rest) args

-- The text is a piece of which `P` holds, and more.
abbrev pub Begins : (List ℕ → Type 0) → (List ℕ → Type 0) → List ℕ → Type 0
Begins P Q text = (now : List ℕ) × (more : List ℕ) × (text ≡ now ++ more) × P now × Q more

module _ {F : Type 0} (f64_to_dec : F → List ℕ) {ld : Bool} where
  -- What the text is.
  abbrev pub Prints : {fmt : List ℕ} → {args : List (Arg F)} → Typed ld fmt args → List ℕ → Type 0
  Prints (ends args) text = text ≡ []
  Prints (lone_percent args) text = text ≡ []
  Prints (plain c rest args n d) text = Begins (λ now. now ≡ c ∷ []) (Prints d) text
  Prints (percent rest args d) text = Begins (λ now. now ≡ 37 ∷ []) (Prints d) text
  Prints (no_text rest args d) text = Prints d text
  Prints (text_of s rest args l d) text = Begins (λ now. now ≡ take s.size s.bytes) (Prints d) text
  Prints (int_of v rest args l d) text = Begins (IsSigned (2 ^ 31) v) (Prints d) text
  Prints (uint_of v rest args l d) text = Begins (IsDecimal v) (Prints d) text
  Prints (long_of v rest args l n d) text = Begins (IsSigned (2 ^ 63) v) (Prints d) text
  Prints (ulong_of v rest args l d) text = Begins (IsDecimal v) (Prints d) text
  Prints (address_of v rest args l d) text = Begins (IsAddress v) (Prints d) text
  Prints (double_of v rest args d) text = Begins (λ now. now ≡ f64_to_dec v) (Prints d) text
  Prints (other c rest args o d) text = Begins (λ now. now ≡ 37 ∷ c ∷ []) (Prints d) text

  -- How long the text is at most: 21 bytes for a number.
  abbrev pub longest : {fmt : List ℕ} → {args : List (Arg F)} → Typed ld fmt args → ℕ
  longest (ends args) = 0
  longest (lone_percent args) = 0
  longest (plain c rest args n d) = 1 + longest d
  longest (percent rest args d) = 1 + longest d
  longest (no_text rest args d) = longest d
  longest (text_of s rest args l d) = s.size + longest d
  longest (int_of v rest args l d) = 21 + longest d
  longest (uint_of v rest args l d) = 21 + longest d
  longest (long_of v rest args l n d) = 21 + longest d
  longest (ulong_of v rest args l d) = 21 + longest d
  longest (address_of v rest args l d) = 21 + longest d
  longest (double_of v rest args d) = length (f64_to_dec v) + longest d
  longest (other c rest args o d) = 2 + longest d
