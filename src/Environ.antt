-- ===== src/Environ.antt =====
-- The environment of the process in runtime/src/platform/linux/os.c. A string of C is its bytes with the NUL; a
-- result `none` is a read behind the bytes, or a `free` or `realloc` of memory that is not from `malloc`.
-- The vector `environ` and the strings in it belong to the system at first.
pub mod Names
pub mod Entries
pub mod Get
mod Tests
use picasso_lang.Base.{
  ℕ, zero, suc, ◌+◌, Bool, true, false, not, ◌&&◌, Option, none, some, List, [], ◌∷◌, ◌++◌, ◌==◌,
  if◌then◌else◌, length, get_elem?, take, drop,
}
use picasso_lang.Base.Int.{ℤ, pos, negsuc}
use picasso_lang.Text.Ops.{Str, read_bytes}

-- A string of the environment, and whether it is from `malloc`.
pub record Entry : Type 0 where
  pub text : List ℕ
  pub owned : Bool

pub record Env : Type 0 where
  pub entries : List Entry
  pub vector_owned : Bool

abbrev pub equals_sign : ℕ
equals_sign = 61

-- `!strncmp(xs, ys, n)`
unfoldable pub strncmp_same : ℕ → List ℕ → List ℕ → Option Bool
strncmp_same zero xs ys = some true
strncmp_same (suc n) (x ∷ xs) (y ∷ ys) =
    let rest = strncmp_same n xs ys in
    if x == y then (if x == 0 then some true else rest) else some false
strncmp_same (suc n) xs ys = none

-- `!strncmp(*e, k, klen) && (*e)[klen] == '='`
unfoldable pub is_entry_of : Str → List ℕ → Option Bool
unfolding strncmp_same
is_entry_of key text = elim (strncmp_same key.size text key.bytes) [
  | none ↦ none
  | some false ↦ some false
  | some true ↦ elim (get_elem? text key.size) [ none ↦ none | some ch ↦ some (ch == equals_sign) ]
]

-- The outer `none` is a read behind the bytes, the inner one NULL.
unfoldable pub os_getenv : Str → List Entry → Option (Option (List ℕ))
unfolding is_entry_of
os_getenv key [] = some none
os_getenv key (e ∷ es) =
    let rest = os_getenv key es in
    elim (is_entry_of key e.text) [
      | none ↦ none
      | some found ↦ if found then some (some (drop (key.size + 1) e.text)) else rest
    ]

-- `KEY=value` with the NUL of the value, in new memory: one byte more than the value has is copied.
unfoldable pub new_entry : Str → Str → Option Entry
unfolding read_bytes
new_entry key value = elim (read_bytes key.size key.bytes) [
  | none ↦ none
  | some k ↦ elim (read_bytes (value.size + 1) value.bytes) [
    | none ↦ none
    | some v ↦ some (record { text = k ++ equals_sign ∷ v; owned = true })
  ]
]

-- The first loop of `setenv`: the entries with the one of the key replaced, or the inner `none` where there is none.
unfoldable pub replace_entry : Str → Entry → List Entry → Option (Option (List Entry))
unfolding is_entry_of
replace_entry key buf [] = some none
replace_entry key buf (e ∷ es) =
    let rest = replace_entry key buf es in
    elim (is_entry_of key e.text) [
      | none ↦ none
      | some true ↦ some (some (buf ∷ es))
      | some false ↦ elim rest [
        | none ↦ none
        | some none ↦ some none
        | some (some es') ↦ some (some (e ∷ es'))
      ]
    ]

-- `realloc` of a vector that is the system's is undefined.
unfoldable pub append_entry : Bool → Entry → Env → Option (ℤ × Env)
append_entry reallocs buf env =
    if not env.vector_owned
    then none
    else if reallocs
    then some (pos 0, record { entries = env.entries ++ (buf ∷ []); vector_owned = true })
    else some (negsuc 0, env)

-- What `setenv` does once it is to write.
unfoldable pub put_entry : Bool → Bool → Str → Str → Env → Option (ℤ × Env)
unfolding new_entry replace_entry append_entry
put_entry mallocs reallocs key value env =
    if mallocs
    then elim (new_entry key value) [
      | none ↦ none
      | some buf ↦ elim (replace_entry key buf env.entries) [
        | none ↦ none
        | some (some es) ↦ some (pos 0, record env { entries = es })
        | some none ↦ append_entry reallocs buf env
      ]
    ]
    else some (negsuc 0, env)

-- With what `malloc` and `realloc` answer.
unfoldable pub os_setenv : Bool → Bool → Str → Str → Bool → Env → Option (ℤ × Env)
unfolding os_getenv put_entry
os_setenv mallocs reallocs key value overwrite env =
    if overwrite
    then put_entry mallocs reallocs key value env
    else elim (os_getenv key env.entries) [
      | none ↦ none
      | some (some found) ↦ some (pos 0, env)
      | some none ↦ put_entry mallocs reallocs key value env
    ]

-- The loop of `unsetenv`: the first entry of the key is freed and taken out.
unfoldable pub remove_entry : Str → List Entry → Option (List Entry)
unfolding is_entry_of
remove_entry key [] = some []
remove_entry key (e ∷ es) =
    let rest = remove_entry key es in
    elim (is_entry_of key e.text) [
      | none ↦ none
      | some true ↦ if e.owned then some es else none
      | some false ↦ elim rest [ none ↦ none | some es' ↦ some (e ∷ es') ]
    ]

unfoldable pub os_unsetenv : Str → Env → Option (ℤ × Env)
unfolding remove_entry
os_unsetenv key env = elim (remove_entry key env.entries) [
  | none ↦ none
  | some es ↦ some (pos 0, record env { entries = es })
]
