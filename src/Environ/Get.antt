-- ===== src/Environ/Get.antt =====
-- What `setenv` and `unsetenv` of runtime/src/platform/linux/os.c do to what `getenv` finds.
use picasso_lang.Base.{
  ◌+◌, ◌≤◌, ◌<◌, ◌≡◌, ◌≢◌, refl, sym, ap, ◌∙◌, ◌⊎◌, inl, inr, Bool, true, false, Bool-cases, none,
  some, List, [], ◌∷◌, ◌++◌, if◌then◌else◌, length, take, arith,
}
use picasso_lang.Base.Int.{pos}
use picasso_lang.Text.Ops.{Str}
use picasso_lang.Environ.{
  Entry, Env, equals_sign, is_entry_of, os_getenv, new_entry, put_entry, os_setenv, remove_entry,
  os_unsetenv,
}
use picasso_lang.Environ.Names.{IsName, name, NameAt-length, name_value}
use picasso_lang.Text.Ops.Content.{read_bytes-at}
use picasso_lang.Environ.Entries.{put-getenv}

new_entry-text :
    (key value : Str)
    → IsName key
    → value.size < length value.bytes
    → new_entry key value
      ≡ some (record {
        text = name key ++ equals_sign ∷ take (value.size + 1) value.bytes;
        owned = true;
      })
unfolding new_entry
new_entry-text key value is l =
    rw (read_bytes-at key.size key.bytes (NameAt-length key.size key.bytes is), new_entry)
      (rw (read_bytes-at (value.size + 1) value.bytes (omega arith)) refl)

setenv-put :
    (mallocs reallocs : Bool) (key value : Str) (overwrite : Bool) (env env' : Env)
    → (overwrite ≡ true) ⊎ (os_getenv key env.entries ≡ some none)
    → os_setenv mallocs reallocs key value overwrite env ≡ some (pos 0, env')
    → put_entry true reallocs key value env ≡ some (pos 0, env')
unfolding os_setenv
setenv-put true reallocs key value true env env' writes e = e
setenv-put true reallocs key value false env env' (inl writes) e = absurd (ground arith)
setenv-put true reallocs key value false env env' (inr missing) e =
    let a : os_setenv true reallocs key value false env ≡ put_entry true reallocs key value env =
      rw (missing, os_setenv) refl in
    sym a ∙ e
setenv-put false reallocs key value true env env' writes e = absurd (ground arith)
setenv-put false reallocs key value false env env' (inl writes) e = absurd (ground arith)
setenv-put false reallocs key value false env env' (inr missing) e = absurd (ground arith)

-- Let keys have no NUL and no `=`, and let the value have a byte behind it, as its NUL. Where `setenv` is to write,
-- since it may overwrite or the key has no value, and returns 0, `getenv` of the key finds the value with that byte
-- afterwards, and finds for every other key what it found before.
pub os_setenv-os_getenv :
    (mallocs reallocs : Bool) (key other value : Str) (overwrite : Bool) (env env' : Env)
    → IsName key
    → IsName other
    → name key ≢ name other
    → value.size < length value.bytes
    → (overwrite ≡ true) ⊎ (os_getenv key env.entries ≡ some none)
    → os_setenv mallocs reallocs key value overwrite env ≡ some (pos 0, env')
    → (os_getenv key env'.entries ≡ some (some (take (value.size + 1) value.bytes)))
      × (os_getenv other env'.entries ≡ os_getenv other env.entries)
os_setenv-os_getenv mallocs reallocs key other value overwrite env env' is io ne l writes e =
    let v = take (value.size + 1) value.bytes in
    let buf : Entry = record { text = name key ++ equals_sign ∷ v; owned = true } in
    let (found, same) =
      put-getenv key other is io ne buf v refl reallocs value env env'
        (new_entry-text key value is l)
        (setenv-put mallocs reallocs key value overwrite env env' writes e) in
    (found ∙ ap (λ x. some (some x)) (name_value key v is), same)

-- Entries of other keys.
abbrev pub AllOther : Str → List Entry → Type 0
AllOther key [] = 0 ≤ 0
AllOther key (e ∷ es) = (is_entry_of key e.text ≡ some false) × AllOther key es

remove-first :
    (key : Str) (es : List Entry) (e : Entry) (fs : List Entry)
    → AllOther key es
    → is_entry_of key e.text ≡ some true
    → remove_entry key (es ++ e ∷ fs) ≡ (if e.owned then some (es ++ fs) else none)
unfolding remove_entry
remove-first key [] e fs others hit = rw (hit, remove_entry) refl
remove-first key (x ∷ es) e fs others hit =
    let rest = remove-first key es e fs others.1 hit in
    elim (Bool-cases e.owned) [
      | inl owned ↦ rw (others.0, remove_entry) (rw (rest, owned) refl)
      | inr foreign ↦ rw (others.0, remove_entry) (rw (rest, foreign) refl)
    ]

-- Let the first entry of a key stand behind entries that are not of it. If it is from `malloc`, `unsetenv` takes it
-- out and leaves the others; if it is the system's, memory that is not from `malloc` is freed.
pub os_unsetenv-first :
    (key : Str) (env : Env) (es : List Entry) (e : Entry) (fs : List Entry)
    → env.entries ≡ es ++ e ∷ fs
    → AllOther key es
    → is_entry_of key e.text ≡ some true
    → os_unsetenv key env
      ≡ (if e.owned then some (pos 0, record env { entries = es ++ fs }) else none)
unfolding os_unsetenv
os_unsetenv-first key env es e fs at others hit =
    let removed = ap (remove_entry key) at ∙ remove-first key es e fs others hit in
    elim (Bool-cases e.owned) [
      | inl owned ↦
          let gone : remove_entry key env.entries ≡ some (es ++ fs) =
            removed ∙ ap (λ b. if b then some (es ++ fs) else none) owned in
          rw owned (rw (gone, os_unsetenv) refl)
      | inr foreign ↦
          let fault : remove_entry key env.entries ≡ none =
            removed ∙ ap (λ b. if b then some (es ++ fs) else none) foreign in
          rw foreign (rw (fault, os_unsetenv) refl)
    ]
