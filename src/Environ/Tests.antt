-- ===== src/Environ/Tests.antt =====
-- The environment of runtime/src/platform/linux/os.c at concrete inputs.
use picasso_lang.Base.{◌≡◌, refl, inr, true, false, none, some, [], ◌∷◌, arith}
use picasso_lang.Text.Ops.{Str}
use picasso_lang.Environ.{Entry, Env, os_getenv, os_setenv, os_unsetenv, is_entry_of}
use picasso_lang.Environ.Get.{os_setenv-os_getenv, os_unsetenv-first}

-- `A=1` of the system, and the strings `A`, `B` and `2`.
abbrev a_is_1 : Entry
a_is_1 = record { text = 65 ∷ 61 ∷ 49 ∷ 0 ∷ []; owned = false }

abbrev key_a : Str
key_a = record { bytes = 65 ∷ 0 ∷ []; size = 1 }

abbrev key_b : Str
key_b = record { bytes = 66 ∷ 0 ∷ []; size = 1 }

abbrev two_text : Str
two_text = record { bytes = 50 ∷ 0 ∷ []; size = 1 }

abbrev inherited : Env
inherited = record { entries = a_is_1 ∷ []; vector_owned = false }

abbrev grown : Env
grown = record inherited { vector_owned = true }

-- A new variable in the vector of the system.
new_in_inherited : os_setenv true true key_b two_text true inherited ≡ none
unfolding os_setenv
new_in_inherited = refl

abbrev with_b : Env
with_b = record grown {
  entries = a_is_1 ∷ record { text = 66 ∷ 61 ∷ 50 ∷ 0 ∷ []; owned = true } ∷ [];
}

os_setenv-os_getenv_example :
    (os_getenv key_b with_b.entries ≡ some (some (50 ∷ 0 ∷ [])))
    × (os_getenv key_a with_b.entries ≡ os_getenv key_a grown.entries)
unfolding os_setenv os_getenv
os_setenv-os_getenv_example =
    os_setenv-os_getenv true true key_b key_a two_text false grown with_b
      (λ e. omega arith, λ e. omega arith, omega arith)
      (λ e. omega arith, λ e. omega arith, omega arith) (λ e. ground arith) (omega arith) (inr refl)
      refl

os_unsetenv-first_example : os_unsetenv key_a inherited ≡ none
unfolding is_entry_of
os_unsetenv-first_example = os_unsetenv-first key_a inherited [] a_is_1 [] refl (omega arith) refl
