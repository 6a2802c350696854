-- ===== src/Net/Armed.antt =====
-- Registrations of runtime/src/platform/linux/epoll.c that bring a task no event.
use picasso_lang.Base.{
  ℕ, ◌≡◌, ◌≢◌, refl, ◌∙◌, ◌≤◌, inl, inr, Bool, true, false, Option, none, some, List, [], ◌∷◌, ◌++◌,
  ◌==◌, Option-cases, Bool-cases, arith, get_elem?,
}
use picasso_lang.Net.{
  Interest, Poller, register, netpoll_add, netpoll_mod, netpoll_del, arm, Verdict, rearm, done,
  skip, Handled, settle, Task, World,
}

-- No event can come for the task.
abbrev pub Unarmed : ℕ → Poller → Type 0
Unarmed j p = (fd : ℕ) (it : Interest) → p fd ≡ some it → it.task ≡ j → it.armed ≡ false

abbrev pub Unready : ℕ → List ℕ → Type 0
Unready j [] = 0 ≤ 0
Unready j (i ∷ is) = (i ≢ j) × Unready j is

pub record IsLost (j : ℕ) (w : World) : Type 0 where
  pub asleep : (t : Task) × (get_elem? w.tasks j ≡ some t) × (t.asleep ≡ true)
  pub unarmed : Unarmed j w.poller
  pub unready : Unready j w.ready

-- A registration, whether the descriptor has one or not.
pub arm-register :
    (p : Poller) (fd : ℕ) (output : Bool) (i : ℕ)
    → arm p fd output i ≡ register p fd (some (record { output = output; task = i; armed = true }))
unfolding arm netpoll_add netpoll_mod
arm-register p fd output i = elim (Option-cases (p fd)) [
  | inl n ↦ rw (n, arm) refl
  | inr (it, e) ↦ rw (e, arm) (rw (e, netpoll_mod) refl)
]

module _ (j : ℕ) where
  pub register-Unarmed :
      (p : Poller) (fd : ℕ) (o : Option Interest)
      → Unarmed j p
      → ((it : Interest) → o ≡ some it → it.task ≡ j → it.armed ≡ false)
      → Unarmed j (register p fd o)
  unfolding register
  register-Unarmed p fd o u new fd' it e same = elim (Bool-cases (fd' == fd)) [
    | inl yes_fd ↦ new it (ground arith) same
    | inr no_fd ↦ u fd' it (ground arith) same
  ]

  -- A registration for another task.
  other-Unarmed :
      (p : Poller) (fd i : ℕ) (output : Bool)
      → i ≢ j
      → Unarmed j p
      → Unarmed j (register p fd (some (record { output = output; task = i; armed = true })))
  other-Unarmed p fd i output ne u =
      register-Unarmed p fd (some (record { output = output; task = i; armed = true })) u
        λ it e same. absurd (ne (let q : i ≡ it.task = ground arith in q ∙ same))

  netpoll_mod-Unarmed :
      (p : Poller) (fd i : ℕ) (output : Bool)
      → i ≢ j
      → Unarmed j p
      → Unarmed j (netpoll_mod p fd output i)
  unfolding netpoll_mod
  netpoll_mod-Unarmed p fd i output ne u = elim (Option-cases (p fd)) [
    | inl n ↦ rw (n, netpoll_mod) u
    | inr (it, e) ↦ rw (e, netpoll_mod) (other-Unarmed p fd i output ne u)
  ]

  pub arm-Unarmed :
      (p : Poller) (fd i : ℕ) (output : Bool) → i ≢ j → Unarmed j p → Unarmed j (arm p fd output i)
  arm-Unarmed p fd i output ne u =
      rw (arm-register p fd output i) (other-Unarmed p fd i output ne u)

  append-Unready : (is : List ℕ) (i : ℕ) → i ≢ j → Unready j is → Unready j (is ++ (i ∷ []))
  append-Unready [] i ne u = (ne, omega arith)
  append-Unready (k ∷ is) i ne (a, u) = (a, append-Unready is i ne u)

  pub settle-Unarmed :
      (i : ℕ) (h : Handled) (p : Poller) (is : List ℕ)
      → i ≢ j
      → Unarmed j p
      → Unready j is
      → Unarmed j (settle i h p is).0 × Unready j (settle i h p is).1
  unfolding settle netpoll_del
  settle-Unarmed i h p is ne u r = go h.verdict refl
    where
      go :
          (v : Verdict)
          → h.verdict ≡ v
          → Unarmed j (settle i h p is).0 × Unready j (settle i h p is).1
      go (rearm output) e = rw (e, settle) (netpoll_mod-Unarmed p h.io.fd i output ne u, r)
      go (done true) e =
          rw (e, settle)
            (
              register-Unarmed p h.io.fd none u (λ it f. absurd (ground arith)),
              append-Unready is i ne r,
            )
      go (done false) e = rw (e, settle) (u, append-Unready is i ne r)
      go skip e = rw (e, settle) (u, r)
