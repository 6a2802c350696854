-- ===== src/Net/Sockets/Leaks.antt =====
-- No descriptor is lost in `__public__net_listen` and `__public__net_dial` of runtime/src/netio.c.
use mathlib.Core.Path.{subst}
use picasso_lang.Base.{
  ℕ, ◌≡◌, refl, ap, ◌∙◌, inl, inr, ◌+◌, Bool, true, false, ◌&&◌, Option, none, some, List, [], ◌∷◌,
  ◌++◌, ◌==◌, if◌then◌else◌, Option-cases, Bool-cases, arith,
}
use picasso_lang.Base.Int.{ℤ}
use picasso_lang.Text.Ops.{Str}
use picasso_lang.Net.Sockets.{
  SockOpt, Call, opened, closed, option, bound, listening, Address, Options, set_options,
  before_bind, after_bind, bind_socket, bind_loop, host_of, start_listening, net_listen, dial_loop,
  net_dial, connects, backlog_of,
}

-- How often a descriptor was opened, and closed.
abbrev pub opens : ℕ → List Call → ℕ
opens fd [] = 0
opens fd (opened fd' ∷ cs) = (if fd == fd' then 1 else 0) + opens fd cs
opens fd (c ∷ cs) = opens fd cs

abbrev pub closes : ℕ → List Call → ℕ
closes fd [] = 0
closes fd (closed fd' ∷ cs) = (if fd == fd' then 1 else 0) + closes fd cs
closes fd (c ∷ cs) = closes fd cs

abbrev pub kept : ℕ → Option ℕ → ℕ
kept fd none = 0
kept fd (some fd') = if fd == fd' then 1 else 0

module _ (fd : ℕ) where
  opens-append : (xs ys : List Call) → opens fd (xs ++ ys) ≡ opens fd xs + opens fd ys
  opens-append [] ys = omega arith
  opens-append (opened fd' ∷ xs) ys = omega (arith, opens-append xs ys)
  opens-append (closed fd' ∷ xs) ys = opens-append xs ys
  opens-append (option fd' o ∷ xs) ys = opens-append xs ys
  opens-append (bound fd' ∷ xs) ys = opens-append xs ys
  opens-append (listening fd' n ∷ xs) ys = opens-append xs ys

  closes-append : (xs ys : List Call) → closes fd (xs ++ ys) ≡ closes fd xs + closes fd ys
  closes-append [] ys = omega arith
  closes-append (opened fd' ∷ xs) ys = closes-append xs ys
  closes-append (closed fd' ∷ xs) ys = omega (arith, closes-append xs ys)
  closes-append (option fd' o ∷ xs) ys = closes-append xs ys
  closes-append (bound fd' ∷ xs) ys = closes-append xs ys
  closes-append (listening fd' n ∷ xs) ys = closes-append xs ys

  -- Calls that open and close nothing.
  abbrev Plain : List Call → Type 0
  Plain cs = (opens fd cs ≡ 0) × (closes fd cs ≡ 0)

  set_options-Plain : (fd' : ℕ) (os : List (Bool × SockOpt)) → Plain (set_options fd' os)
  unfolding set_options
  set_options-Plain fd' [] = (refl, refl)
  set_options-Plain fd' ((true, o) ∷ os) = set_options-Plain fd' os
  set_options-Plain fd' ((false, o) ∷ os) = set_options-Plain fd' os

  bind_socket-closes :
      (fd' : ℕ) (o : Options) (ai : Address)
      → (opens fd (bind_socket fd' o ai).1 ≡ 0)
        × (closes fd (bind_socket fd' o ai).1
            ≡ (if (bind_socket fd' o ai).0 then 0 else if fd == fd' then 1 else 0))
  unfolding bind_socket
  bind_socket-closes fd' o ai =
      let (a, b) = set_options-Plain fd' (before_bind o ai) in
      ground (
        arith,
        opens-append (set_options fd' (before_bind o ai)) (bound fd' ∷ []),
        closes-append (set_options fd' (before_bind o ai)) (bound fd' ∷ []),
        opens-append (set_options fd' (before_bind o ai)) (closed fd' ∷ []),
        closes-append (set_options fd' (before_bind o ai)) (closed fd' ∷ []),
      )

  -- What was opened is closed, but for the descriptor that is returned.
  abbrev pub Balanced : Option ℕ → List Call → Type 0
  Balanced r cs = opens fd cs ≡ closes fd cs + kept fd r

  bind_loop-Balanced :
      (addresses : List Address) (o : Options)
      → Balanced (bind_loop addresses o).0 (bind_loop addresses o).1
  unfolding bind_loop
  bind_loop-Balanced [] o = refl
  bind_loop-Balanced (ai ∷ more) o = elim (Option-cases ai.socket) [
    | inl n ↦ rw (n, bind_loop) (bind_loop-Balanced more o)
    | inr (fd', s) ↦
        let (a, b) = bind_socket-closes fd' o ai in
        let ih = bind_loop-Balanced more o in
        elim (Bool-cases (bind_socket fd' o ai).0) [
          | inl did ↦ rw (s, bind_loop) (rw (did, bind_loop) (ground arith))
          | inr failed ↦
              let l = opens-append (opened fd' ∷ (bind_socket fd' o ai).1) (bind_loop more o).1 in
              let r = closes-append (opened fd' ∷ (bind_socket fd' o ai).1) (bind_loop more o).1 in
              rw (s, bind_loop) (rw (failed, bind_loop) (ground arith))
        ]
  ]

  dial_loop-Balanced :
      (addresses : List Address) → Balanced (dial_loop addresses).0 (dial_loop addresses).1
  unfolding dial_loop
  dial_loop-Balanced [] = refl
  dial_loop-Balanced (ai ∷ more) = elim (Option-cases ai.socket) [
    | inl n ↦ rw (n, dial_loop) (dial_loop-Balanced more)
    | inr (fd', s) ↦
        let ih = dial_loop-Balanced more in
        elim (Bool-cases (ai.f_getfl && ai.f_setfl && ai.f_setfd && connects ai.connect)) [
          | inl did ↦ rw (s, dial_loop) (rw (did, dial_loop) (ground arith))
          | inr failed ↦ rw (s, dial_loop) (rw (failed, dial_loop) (ground arith))
        ]
  ]

start_listening-Balanced :
    (fd : ℕ) (listens : Bool) (fd' : ℕ) (backlog : ℤ) (o : Options) (before : List Call)
    → Balanced fd (some fd') before
    → Balanced fd
        (start_listening listens fd' backlog o before).0
        (start_listening listens fd' backlog o before).1
unfolding start_listening
start_listening-Balanced fd listens fd' backlog o before balanced =
    let os = set_options fd' (after_bind o) in
    let listened = listening fd' (backlog_of backlog) ∷ [] in
    ground (
      arith,
      set_options-Plain fd fd' (after_bind o),
      opens-append fd before os,
      closes-append fd before os,
      opens-append fd (before ++ os) listened,
      closes-append fd (before ++ os) listened,
      opens-append fd (before ++ os) (closed fd' ∷ []),
      closes-append fd (before ++ os) (closed fd' ∷ []),
    )

-- Whatever the system answers, for every address that is tried, `__public__net_listen` has closed each descriptor as
-- often as it has opened it when it returns, but for the one that it returns, which is open once more.
pub net_listen-Balanced :
    (getaddrinfo : List ℕ → ℕ → Option (List Address)) (listens : Bool) (addr : Option Str)
    (port : ℕ) (backlog : ℤ) (o : Options) (r : Option ℕ) (calls : List Call)
    → net_listen getaddrinfo listens addr port backlog o ≡ some (r, calls)
    → (fd : ℕ) → Balanced fd r calls
unfolding net_listen
net_listen-Balanced getaddrinfo listens addr port backlog o r calls e fd =
    elim (Option-cases (host_of addr)) [
      | inl n ↦ absurd (ground arith)
      | inr (host, h) ↦ elim (Option-cases (getaddrinfo host port)) [
        | inl n ↦ ground arith
        | inr (addresses, g) ↦
            let loop = bind_loop-Balanced fd addresses o in
            let calls1 = (bind_loop addresses o).1 in
            elim (Option-cases (bind_loop addresses o).0) [
              | inl n ↦ ground arith
              | inr (fd', b) ↦
                  let pair : start_listening listens fd' backlog o calls1 ≡ (r, calls) =
                    ground arith in
                  subst (λ rc. Balanced fd rc.0 rc.1) pair
                    (start_listening-Balanced fd listens fd' backlog o calls1
                      (loop ∙ ap (λ x. closes fd calls1 + kept fd x) b))
            ]
      ]
    ]

-- The same of `__public__net_dial`.
pub net_dial-Balanced :
    (getaddrinfo : List ℕ → ℕ → Option (List Address)) (addr : Str) (port fd : ℕ)
    → Balanced fd (net_dial getaddrinfo addr port).0 (net_dial getaddrinfo addr port).1
unfolding net_dial
net_dial-Balanced getaddrinfo addr port fd = elim (Option-cases (getaddrinfo addr.bytes port)) [
  | inl n ↦ rw (n, net_dial) refl
  | inr (addresses, g) ↦ rw (g, net_dial) (dial_loop-Balanced fd addresses)
]
