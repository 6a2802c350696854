-- ===== src/Sync/WaitGroup/Wakes.antt =====
-- Whether a task can be left waiting in `sync_waitgroup_wait` of runtime/src/sync.c.
use mathlib.Core.Path.{subst}
use picasso_lang.Base.{
  ℕ, ◌≡◌, refl, sym, ◌⊎◌, inl, inr, Option-cases, ◌+◌, ◌≤◌, ◌<◌, some, List, [], ◌∷◌, arith,
  if◌then◌else◌, get_elem?, set, length, length-append,
}
use picasso_lang.Base.Tasks.{sum, sum-set, sum-idle}
use picasso_lang.Sync.WaitGroup.{
  Pc, idle, Move, waits, aborts, moved, a_lock, a_pop, a_unlock, w_load, w_lock, w_check,
  w_unlock_return, w_push, w_unlock_sleep, w_asleep, Shared, sync_waitgroup_create, Choice, plus,
  minus, wait, add_delta, act, World, tasks_of, step, Reach, here, next,
}

-- The task has the mutex `lock`.
abbrev pub locks : Pc → ℕ
locks a_pop = 1
locks a_unlock = 1
locks w_check = 1
locks w_unlock_return = 1
locks w_push = 1
locks w_unlock_sleep = 1
locks pc = 0

-- The task is about to wait.
abbrev pub pushes : Pc → ℕ
pushes w_push = 1
pushes pc = 0

-- The task is about to wake the waiters, all of them.
abbrev pub wakes : Pc → ℕ
wakes a_lock = 1
wakes a_pop = 1
wakes pc = 0

-- The mutex is held by one task or none; and if somebody waits or is about to, then the count is not zero or
-- somebody is about to wake them.
pub record Cared (s : Shared) (l p k : ℕ) : Type 0 where
  pub one_lock : l ≡ (if s.held then 1 else 0)
  pub cared : (length s.waiters + p ≡ 0) ⊎ (0 < s.count + k)

module _ (i l p k : ℕ) (le : p ≤ l) (s s' : Shared) (pc' : Pc) where
  act-Cared :
      (pc : Pc) (c : Choice)
      → act i pc c s ≡ moved pc' s'
      → Cared s (l + locks pc) (p + pushes pc) (k + wakes pc)
      → Cared s' (l + locks pc') (p + pushes pc') (k + wakes pc')
  unfolding act add_delta
  act-Cared idle (plus n) e is = ground arith
  act-Cared idle (minus n) e is = ground arith
  act-Cared idle wait e is = ground arith
  act-Cared a_lock c e is = ground arith
  act-Cared a_pop c e is = ground arith
  act-Cared a_unlock c e is = ground arith
  act-Cared w_load c e is = ground arith
  act-Cared w_lock c e is = ground arith
  act-Cared w_check c e is = ground arith
  act-Cared w_unlock_return c e is = ground arith
  act-Cared w_push c e is = ground (arith, length-append s.waiters (i ∷ []))
  act-Cared w_unlock_sleep c e is = ground arith
  act-Cared w_asleep c e is = ground arith

Move-cases :
    (m : Move) → (m ≡ waits) ⊎ ((m ≡ aborts) ⊎ ((pc : Pc) × (s : Shared) × (m ≡ moved pc s)))
Move-cases waits = inl refl
Move-cases aborts = inr (inl refl)
Move-cases (moved pc s) = inr (inr (pc, s, refl))

step-act :
    (w v : World) (i : ℕ) (c : Choice)
    → step i c w ≡ some v
    → (pc pc' : Pc) × (s : Shared) × (get_elem? w.pcs i ≡ some pc)
      × (act i pc c w.shared ≡ moved pc' s)
      × (v ≡ record { pcs = set w.pcs i pc'; shared = s })
unfolding step
step-act w v i c e = elim (Option-cases (get_elem? w.pcs i)) [
  | inl o ↦ absurd (ground arith)
  | inr (pc, o) ↦ elim (Move-cases (act i pc c w.shared)) [
    | inl m ↦ absurd (ground arith)
    | inr (inl m) ↦ absurd (ground arith)
    | inr (inr (pc', s, m)) ↦ (pc, pc', s, o, m, ground arith)
  ]
]

pushes-le-locks_pc : (pc : Pc) → pushes pc ≤ locks pc
pushes-le-locks_pc idle = omega arith
pushes-le-locks_pc a_lock = omega arith
pushes-le-locks_pc a_pop = omega arith
pushes-le-locks_pc a_unlock = omega arith
pushes-le-locks_pc w_load = omega arith
pushes-le-locks_pc w_lock = omega arith
pushes-le-locks_pc w_check = omega arith
pushes-le-locks_pc w_unlock_return = omega arith
pushes-le-locks_pc w_push = omega arith
pushes-le-locks_pc w_unlock_sleep = omega arith
pushes-le-locks_pc w_asleep = omega arith

pushes-le-locks : (pcs : List Pc) → sum pushes pcs ≤ sum locks pcs
pushes-le-locks [] = omega arith
pushes-le-locks (pc ∷ pcs) = omega (arith, pushes-le-locks pcs, pushes-le-locks_pc pc)

abbrev pub IsCared : World → Type 0
IsCared w = Cared w.shared (sum locks w.pcs) (sum pushes w.pcs) (sum wakes w.pcs)

step-IsCared : (w v : World) (i : ℕ) (c : Choice) → step i c w ≡ some v → IsCared w → IsCared v
step-IsCared w v i c e is =
    let (pc, pc', s, at, m, eq) = step-act w v i c e in
    let l = sum-set locks idle refl w.pcs i pc pc' at in
    let p = sum-set pushes idle refl w.pcs i pc pc' at in
    let k = sum-set wakes idle refl w.pcs i pc pc' at in
    let rest = λ (f : Pc → ℕ). sum f (set w.pcs i idle) in
    let before : Cared w.shared (rest locks + locks pc) (rest pushes + pushes pc)
        (rest wakes + wakes pc) =
      record { one_lock = ground (arith, is.one_lock); cared = ground (arith, is.cared) } in
    let after =
      act-Cared i (rest locks) (rest pushes) (rest wakes) (pushes-le-locks (set w.pcs i idle))
        w.shared s pc' pc c m before in
    subst IsCared (sym eq)
      (record { one_lock = ground (arith, after.one_lock); cared = ground (arith, after.cared) })

Reach-IsCared : {w v : World} → Reach w v → IsCared w → IsCared v
Reach-IsCared here is = is
Reach-IsCared (next {u} {v} i c r e) is = step-IsCared u v i c e (Reach-IsCared r is)

tasks_of-IsCared : (n : ℕ) → IsCared (tasks_of n)
unfolding sync_waitgroup_create
tasks_of-IsCared n =
    let l = sum-idle locks idle refl n in
    let p = sum-idle pushes idle refl n in record { one_lock = l; cared = inl (omega arith) }

length-zero : (is : List ℕ) → length is ≡ 0 → is ≡ []
length-zero [] e = refl
length-zero (i ∷ is) e = absurd (ground arith)

-- In whatever order any number of tasks call the functions of a new wait group and take their steps: when the
-- count is zero and no task is about to wake the waiters, the queue of waiters is empty and no task is about
-- to put itself there.
pub waitgroup_cares :
    (n : ℕ) {w : World}
    → Reach (tasks_of n) w
    → w.shared.count ≡ 0
    → sum wakes w.pcs ≡ 0
    → (w.shared.waiters ≡ []) × (sum pushes w.pcs ≡ 0)
waitgroup_cares n {w} r z quiet =
    let is = Reach-IsCared r (tasks_of-IsCared n) in
    let nobody : length w.shared.waiters + sum pushes w.pcs ≡ 0 = ground (arith, is.cared) in
    (length-zero w.shared.waiters (omega arith), omega arith)
