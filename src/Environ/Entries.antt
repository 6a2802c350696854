-- ===== src/Environ/Entries.antt =====
-- What runtime/src/platform/linux/os.c finds among the entries of an environment, before and after an entry is put in.
use mathlib.Core.Path.{subst}
use picasso_lang.Base.{
  ℕ, suc, ◌+◌, ◌≡◌, ◌≢◌, refl, sym, ap, ◌∙◌, ◌⊎◌, inl, inr, Bool, true, false, Bool-cases,
  Option-cases, none, some, List, [], ◌∷◌, ◌++◌, if◌then◌else◌, drop, arith,
}
use picasso_lang.Base.Int.{pos}
use picasso_lang.Text.Ops.{Str}
use picasso_lang.Environ.{
  Entry, Env, equals_sign, is_entry_of, os_getenv, new_entry, replace_entry, append_entry,
  put_entry,
}
use picasso_lang.Environ.Names.{IsName, name, is_entry_of_self, is_entry_of_text, is_entry_of_other}

-- An entry of a key is found at the head, and one of another key is passed over.
getenv_at :
    (key : Str) (e : Entry) (es : List Entry)
    → is_entry_of key e.text ≡ some true
    → os_getenv key (e ∷ es) ≡ some (some (drop (key.size + 1) e.text))
unfolding os_getenv
getenv_at key e es is = rw (is, os_getenv) refl

getenv_past :
    (key : Str) (e : Entry) (es : List Entry)
    → is_entry_of key e.text ≡ some false
    → os_getenv key (e ∷ es) ≡ os_getenv key es
unfolding os_getenv
getenv_past key e es is = rw (is, os_getenv) refl

getenv_tail :
    (key : Str) (x : Entry) (es fs : List Entry)
    → os_getenv key fs ≡ os_getenv key es
    → os_getenv key (x ∷ fs) ≡ os_getenv key (x ∷ es)
unfolding os_getenv
getenv_tail key x es fs e =
    ap
      (λ rest. elim (is_entry_of key x.text) [
        | none ↦ none
        | some found ↦ if found then some (some (drop (key.size + 1) x.text)) else rest
      ])
      e

-- The three ways in which the test of an entry ends.
is_entry_of_cases :
    (key : Str) (text : List ℕ)
    → (is_entry_of key text ≡ none)
      ⊎ ((is_entry_of key text ≡ some true) ⊎ (is_entry_of key text ≡ some false))
is_entry_of_cases key text = elim (Option-cases (is_entry_of key text)) [
  | inl n ↦ inl n
  | inr (true, e) ↦ inr (inl e)
  | inr (false, e) ↦ inr (inr e)
]

append_entry-entries :
    (reallocs : Bool) (buf : Entry) (env env' : Env)
    → append_entry reallocs buf env ≡ some (pos 0, env')
    → env.entries ++ (buf ∷ []) ≡ env'.entries
unfolding append_entry
append_entry-entries reallocs buf env env' e = elim (Bool-cases env.vector_owned) [
  | inr foreign ↦ absurd (ground arith)
  | inl owned ↦ elim (Bool-cases reallocs) [
    | inl more ↦ ground arith
    | inr failed ↦ absurd (ground arith)
  ]
]

module _ (key other : Str) (is : IsName key) (io : IsName other) (ne : name key ≢ name other)
    (buf : Entry) (r : List ℕ) (new : buf.text ≡ name key ++ equals_sign ∷ r) where
  buf_self : is_entry_of key buf.text ≡ some true
  buf_self = ap (is_entry_of key) new ∙ is_entry_of_self key r is

  buf_other : is_entry_of other buf.text ≡ some false
  buf_other = ap (is_entry_of other) new ∙ is_entry_of_other key other r is io ne

  old_other :
      (text : List ℕ) → is_entry_of key text ≡ some true → is_entry_of other text ≡ some false
  old_other text e =
      ap (is_entry_of other) (is_entry_of_text key text is e)
      ∙ is_entry_of_other key other (drop (suc key.size) text) is io ne

  -- The entry of the key is replaced: it is found, and nothing changes for another key.
  replace-getenv :
      (es fs : List Entry)
      → replace_entry key buf es ≡ some (some fs)
      → (os_getenv key fs ≡ some (some (drop (key.size + 1) buf.text)))
        × (os_getenv other fs ≡ os_getenv other es)
  unfolding replace_entry
  replace-getenv [] fs e = absurd (ground arith)
  replace-getenv (x ∷ es) fs e = elim (is_entry_of_cases key x.text) [
    | inl n ↦ absurd (ground arith)
    | inr (inl hit) ↦
        let eq : buf ∷ es ≡ fs = ground arith in
        subst
          (λ (l : List Entry).
            (os_getenv key l ≡ some (some (drop (key.size + 1) buf.text)))
            × (os_getenv other l ≡ os_getenv other (x ∷ es)))
          eq
          (
            getenv_at key buf es buf_self,
            getenv_past other buf es buf_other
                ∙ sym (getenv_past other x es (old_other x.text hit)),
          )
    | inr (inr miss) ↦ elim (Option-cases (replace_entry key buf es)) [
      | inl n ↦ absurd (ground arith)
      | inr (none, f) ↦ absurd (ground arith)
      | inr (some gs, f) ↦
          let eq : x ∷ gs ≡ fs = ground arith in
          let (found, same) = replace-getenv es gs f in
          subst
            (λ (l : List Entry).
              (os_getenv key l ≡ some (some (drop (key.size + 1) buf.text)))
              × (os_getenv other l ≡ os_getenv other (x ∷ es)))
            eq (getenv_past key x gs miss ∙ found, getenv_tail other x es gs same)
    ]
  ]

  append-getenv :
      (es : List Entry)
      → replace_entry key buf es ≡ some none
      → (os_getenv key (es ++ (buf ∷ [])) ≡ some (some (drop (key.size + 1) buf.text)))
        × (os_getenv other (es ++ (buf ∷ [])) ≡ os_getenv other es)
  unfolding replace_entry
  append-getenv [] e = (getenv_at key buf [] buf_self, getenv_past other buf [] buf_other)
  append-getenv (x ∷ es) e = elim (is_entry_of_cases key x.text) [
    | inl n ↦ absurd (ground arith)
    | inr (inl hit) ↦ absurd (ground arith)
    | inr (inr miss) ↦
        let rest : replace_entry key buf es ≡ some none =
          elim (Option-cases (replace_entry key buf es)) [
            | inl n ↦ absurd (ground arith)
            | inr (none, f) ↦ f
            | inr (some gs, f) ↦ absurd (ground arith)
          ] in
        let (found, same) = append-getenv es rest in
        (
          getenv_past key x (es ++ (buf ∷ [])) miss ∙ found,
          getenv_tail other x es (es ++ (buf ∷ [])) same,
        )
  ]

  pub put-getenv :
      (reallocs : Bool) (value : Str) (env env' : Env)
      → new_entry key value ≡ some buf
      → put_entry true reallocs key value env ≡ some (pos 0, env')
      → (os_getenv key env'.entries ≡ some (some (drop (key.size + 1) buf.text)))
        × (os_getenv other env'.entries ≡ os_getenv other env.entries)
  unfolding put_entry append_entry
  put-getenv reallocs value env env' made e =
      elim (Option-cases (replace_entry key buf env.entries)) [
        | inl n ↦ absurd (ground arith)
        | inr (some fs, f) ↦
            let eq : fs ≡ env'.entries = ground arith in
            subst
              (λ (l : List Entry).
                (os_getenv key l ≡ some (some (drop (key.size + 1) buf.text)))
                × (os_getenv other l ≡ os_getenv other env.entries))
              eq (replace-getenv env.entries fs f)
        | inr (none, f) ↦
            let eq : env.entries ++ (buf ∷ []) ≡ env'.entries =
              append_entry-entries reallocs buf env env' (ground arith) in
            subst
              (λ (l : List Entry).
                (os_getenv key l ≡ some (some (drop (key.size + 1) buf.text)))
                × (os_getenv other l ≡ os_getenv other env.entries))
              eq (append-getenv env.entries f)
      ]
