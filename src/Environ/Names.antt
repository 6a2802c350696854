-- ===== src/Environ/Names.antt =====
-- Which strings of the environment of runtime/src/platform/linux/os.c are entries of a key.
use picasso_lang.Base.{
  ℕ, zero, suc, ◌+◌, ◌≤◌, ◌≡◌, ◌≢◌, refl, sym, ap, ap₂, ◌∙◌, inl, inr, Bool, true, false,
  Bool-cases, Option, none, some, List, [], ◌∷◌, ◌++◌, ◌==◌, if◌then◌else◌, length, get_elem?, take,
  drop, arith, ℕ_discrete,
}
use picasso_lang.Text.Ops.{Str}
use picasso_lang.Environ.{strncmp_same, is_entry_of, equals_sign}

-- The first `n` bytes are there, and none of them is NUL or `=`.
abbrev pub NameAt : ℕ → List ℕ → Type 0
NameAt zero ys = 0 ≤ 0
NameAt (suc n) [] = ⊥
NameAt (suc n) (y ∷ ys) = (y ≢ 0) × (y ≢ equals_sign) × NameAt n ys

abbrev pub IsName : Str → Type 0
IsName key = NameAt key.size key.bytes

abbrev pub name : Str → List ℕ
name key = take key.size key.bytes

-- The test as one recursion.
abbrev pub names : ℕ → List ℕ → List ℕ → Option Bool
names zero [] ys = none
names zero (x ∷ xs) ys = some (x == equals_sign)
names (suc n) (x ∷ xs) (y ∷ ys) = let rest = names n xs ys in if x == y then rest else some false
names (suc n) xs ys = none

-- What `is_entry_of` makes of the comparison.
abbrev after_compare : ℕ → List ℕ → Option Bool → Option Bool
after_compare n xs r = elim r [
  | none ↦ none
  | some false ↦ some false
  | some true ↦ elim (get_elem? xs n) [ none ↦ none | some ch ↦ some (ch == equals_sign) ]
]

compare-names :
    (n : ℕ) (xs ys : List ℕ)
    → NameAt n ys
    → after_compare n xs (strncmp_same n xs ys) ≡ names n xs ys
unfolding strncmp_same
compare-names zero [] ys is = refl
compare-names zero (x ∷ xs) ys is = refl
compare-names (suc n) [] ys is = refl
compare-names (suc n) (x ∷ xs) [] is = refl
compare-names (suc n) (x ∷ xs) (y ∷ ys) is = elim (Bool-cases (x == y)) [
  | inl same ↦
      let not_nul : (x == 0) ≡ false = ground (arith, is.0) in
      rw (same, not_nul) (compare-names n xs ys is.2)
  | inr other ↦ rw other refl
]

pub is_entry_of-names :
    (key : Str) (text : List ℕ) → IsName key → is_entry_of key text ≡ names key.size text key.bytes
unfolding is_entry_of
is_entry_of-names key text is = compare-names key.size text key.bytes is

names_self :
    (n : ℕ) (ys r : List ℕ) → NameAt n ys → names n (take n ys ++ equals_sign ∷ r) ys ≡ some true
names_self zero ys r is = refl
names_self (suc n) [] r is = absurd is
names_self (suc n) (y ∷ ys) r is =
    let same : (y == y) ≡ true = ground arith in rw same (names_self n ys r is.2)

names_text :
    (n : ℕ) (xs ys : List ℕ)
    → names n xs ys ≡ some true
    → xs ≡ take n ys ++ equals_sign ∷ drop (suc n) xs
names_text zero [] ys e = absurd (ground arith)
names_text zero (x ∷ xs) ys e = let a : x ≡ equals_sign = ground arith in ap (λ z. z ∷ xs) a
names_text (suc n) [] ys e = absurd (ground arith)
names_text (suc n) (x ∷ xs) [] e = absurd (ground arith)
names_text (suc n) (x ∷ xs) (y ∷ ys) e = elim (ℕ_discrete x y) [
  | yes same ↦ let rest = names_text n xs ys (ground arith) in ap₂ (λ (z : ℕ) zs. z ∷ zs) same rest
  | no ne ↦ absurd (ground arith)
]

names_other :
    (n m : ℕ) (ys zs r : List ℕ)
    → NameAt n ys
    → NameAt m zs
    → take n ys ≢ take m zs
    → names m (take n ys ++ equals_sign ∷ r) zs ≡ some false
names_other zero zero ys zs r is iz ne = absurd (ne refl)
names_other zero (suc m) ys [] r is iz ne = absurd iz
names_other zero (suc m) ys (z ∷ zs) r is iz ne =
    let other : (equals_sign == z) ≡ false = ground (arith, iz.1) in rw other refl
names_other (suc n) m [] zs r is iz ne = absurd is
names_other (suc n) zero (y ∷ ys) zs r is iz ne =
    let other : (y == equals_sign) ≡ false = ground (arith, is.1) in rw other refl
names_other (suc n) (suc m) (y ∷ ys) [] r is iz ne = absurd iz
names_other (suc n) (suc m) (y ∷ ys) (z ∷ zs) r is iz ne = elim (ℕ_discrete y z) [
  | yes same ↦
      let eq : (y == z) ≡ true = ground arith in
      rw eq (names_other n m ys zs r is.2 iz.2 (λ e. ne (ap₂ (λ (a : ℕ) b. a ∷ b) same e)))
  | no diff ↦ let other : (y == z) ≡ false = ground arith in rw other refl
]

-- An entry `KEY=…` is one of the key and of no other.
pub is_entry_of_self :
    (key : Str) (r : List ℕ)
    → IsName key
    → is_entry_of key (name key ++ equals_sign ∷ r) ≡ some true
is_entry_of_self key r is =
    is_entry_of-names key (name key ++ equals_sign ∷ r) is ∙ names_self key.size key.bytes r is

pub is_entry_of_text :
    (key : Str) (text : List ℕ)
    → IsName key
    → is_entry_of key text ≡ some true
    → text ≡ name key ++ equals_sign ∷ drop (suc key.size) text
is_entry_of_text key text is e =
    names_text key.size text key.bytes (sym (is_entry_of-names key text is) ∙ e)

pub is_entry_of_other :
    (key other : Str) (r : List ℕ)
    → IsName key
    → IsName other
    → name key ≢ name other
    → is_entry_of other (name key ++ equals_sign ∷ r) ≡ some false
is_entry_of_other key other r is io ne =
    is_entry_of-names other (name key ++ equals_sign ∷ r) io
    ∙ names_other key.size other.size key.bytes other.bytes r is io ne

pub NameAt-length : (n : ℕ) (ys : List ℕ) → NameAt n ys → n ≤ length ys
NameAt-length zero ys is = omega arith
NameAt-length (suc n) [] is = absurd is
NameAt-length (suc n) (y ∷ ys) is = let rest = NameAt-length n ys is.2 in omega arith

-- What stands behind the `=`.
drop_name : (n : ℕ) (ys r : List ℕ) → NameAt n ys → drop (suc n) (take n ys ++ equals_sign ∷ r) ≡ r
drop_name zero ys r is = refl
drop_name (suc n) [] r is = absurd is
drop_name (suc n) (y ∷ ys) r is = drop_name n ys r is.2

pub name_value :
    (key : Str) (r : List ℕ) → IsName key → drop (key.size + 1) (name key ++ equals_sign ∷ r) ≡ r
name_value key r is =
    let eq : key.size + 1 ≡ suc key.size = omega arith in
    ap (λ n. drop n (name key ++ equals_sign ∷ r)) eq ∙ drop_name key.size key.bytes r is
