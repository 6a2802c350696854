-- ===== src/Sync/RwMutex/Listed.antt =====
-- Which tasks the queues of the read-write mutex of runtime/src/sync.c hold.
use mathlib.Core.Path.{subst}
use picasso_lang.Base.{
  ℕ, zero, suc, ◌≡◌, sym, ap, ◌∙◌, inl, inr, Option-cases, ◌+◌, true, false, none, some, List, [],
  ◌∷◌, ◌++◌, arith, ◌==◌, if◌then◌else◌, get_elem?, replicate,
}
use picasso_lang.Sync.RwMutex.Steps.{step-act}
use picasso_lang.Base.Tasks.{get_elem?-set_cases}
use picasso_lang.Sync.RwMutex.{
  Pc, idle, r_load, r_cas, r_lock, r_check, r_push, r_unlock_sleep, r_asleep, r_unlock_retry,
  reading, ru_lock, ru_pop, ru_unlock, w_load, w_cas, w_lock, w_check, w_push, w_unlock_sleep,
  w_asleep, w_unlock_retry, w_drain, w_drain_asleep, writing, wu_store, wu_pop_writer,
  wu_pop_reader, wu_unlock, Shared, Choice, go, call_rlock, call_rwlock, spurious, lock_to,
  unlock_to, wake_to, drop_one, act, ◌or_else◌, World, tasks_of, step, Reach, here, next,
  sync_rwmutex_create,
}

abbrev pub hit : ℕ → ℕ → ℕ
hit j i = if j == i then 1 else 0

abbrev pub occurs : ℕ → List ℕ → ℕ
occurs j [] = 0
occurs j (i ∷ is) = hit j i + occurs j is

-- How often a task is in the queues of the lock and, woken, on a ready queue.
abbrev pub listed : ℕ → Shared → ℕ
listed j s = occurs j s.readers + occurs j s.writers + occurs j s.ready

-- Whether a task at this point has put itself on a queue and not gone on since.
abbrev pub queued : Pc → ℕ
queued r_unlock_sleep = 1
queued r_asleep = 1
queued w_unlock_sleep = 1
queued w_asleep = 1
queued pc = 0

abbrev own : ℕ → ℕ → Pc → ℕ
own j i pc = if j == i then queued pc else 0

occurs-snoc : (j i : ℕ) (is : List ℕ) → occurs j (is ++ (i ∷ [])) ≡ occurs j is + hit j i
occurs-snoc j i [] = ground arith
occurs-snoc j i (k ∷ is) = omega (arith, occurs-snoc j i is)

occurs-drop_one :
    (j i : ℕ) (is ks : List ℕ) → drop_one i is ≡ some ks → occurs j is ≡ hit j i + occurs j ks
occurs-drop_one j i [] ks e = absurd (ground arith)
occurs-drop_one j i (k ∷ is) ks e = elim (Option-cases (drop_one i is)) [
  | inl o ↦ ground arith
  | inr (rest, o) ↦ ground (arith, occurs-drop_one j i is rest o)
]

pub wake_to-listed :
    (i j : ℕ) (pc pc' : Pc) (s s' : Shared)
    → (wake_to i pc s or_else none) ≡ some (pc', s')
    → (pc' ≡ pc) × (listed j s ≡ hit j i + listed j s')
unfolding wake_to
wake_to-listed i j pc pc' s s' e = elim (Option-cases (drop_one i s.ready)) [
  | inl o ↦ absurd (ground arith)
  | inr (rest, o) ↦ let less = occurs-drop_one j i s.ready rest o in (ground arith, ground arith)
]

module _ (i j : ℕ) (s s' : Shared) (pc' : Pc) where
  act-listed :
      (pc : Pc) (c : Choice)
      → listed i s ≡ queued pc
      → act i pc c s ≡ some (pc', s')
      → listed j s' + own j i pc ≡ listed j s + own j i pc'
  unfolding act lock_to unlock_to
  act-listed idle go at e = ground arith
  act-listed idle call_rlock at e = ground arith
  act-listed idle call_rwlock at e = ground arith
  act-listed idle spurious at e = ground arith
  act-listed r_load c at e = ground arith
  act-listed (r_cas old) go at e = ground arith
  act-listed (r_cas old) call_rlock at e = ground arith
  act-listed (r_cas old) call_rwlock at e = ground arith
  act-listed (r_cas old) spurious at e = ground arith
  act-listed r_lock c at e = ground arith
  act-listed r_check c at e = ground arith
  act-listed r_push c at e = ground (arith, occurs-snoc j i s.readers)
  act-listed r_unlock_sleep c at e = ground arith
  act-listed r_asleep c at e = let woken = wake_to-listed i j r_load pc' s s' e in ground arith
  act-listed r_unlock_retry c at e = ground arith
  act-listed reading c at e = ground arith
  act-listed ru_lock c at e = ground arith
  act-listed ru_pop c at e = ground arith
  act-listed ru_unlock c at e = ground arith
  act-listed w_load c at e = ground arith
  act-listed (w_cas old) go at e = ground arith
  act-listed (w_cas old) call_rlock at e = ground arith
  act-listed (w_cas old) call_rwlock at e = ground arith
  act-listed (w_cas old) spurious at e = ground arith
  act-listed w_lock c at e = ground arith
  act-listed w_check c at e = ground arith
  act-listed w_push c at e = ground (arith, occurs-snoc j i s.writers)
  act-listed w_unlock_sleep c at e = ground arith
  act-listed w_asleep c at e = let woken = wake_to-listed i j w_load pc' s s' e in ground arith
  act-listed w_unlock_retry c at e = ground arith
  act-listed w_drain c at e = ground arith
  act-listed w_drain_asleep c at e =
      let woken = wake_to-listed i i w_drain pc' s s' e in
      let self : (i == i) ≡ true = ground arith in absurd (ground arith)
  act-listed writing c at e = ground arith
  act-listed wu_store c at e = ground arith
  act-listed wu_pop_writer c at e = ground arith
  act-listed wu_pop_reader c at e = ground arith
  act-listed wu_unlock c at e = ground arith

-- Each task is in the queues as often as the point it is at says.
abbrev pub IsListed : World → Type 0
IsListed w = (j : ℕ) (pc : Pc) → get_elem? w.pcs j ≡ some pc → listed j w.shared ≡ queued pc

step-IsListed : (w v : World) (i : ℕ) (c : Choice) → step i c w ≡ some v → IsListed w → IsListed v
step-IsListed w v i c e is =
    let (pc, pc', s, at, m, eq) = step-act w v i c e in
    subst IsListed (sym eq) λ j q new.
      let change = act-listed i j w.shared s pc' pc c (is i pc at) m in
      elim (get_elem?-set_cases w.pcs i j pc' q new) [
        | inl (same, it) ↦
            let was = is j pc (ap (get_elem? w.pcs) same ∙ at) in
            let hits : (j == i) ≡ true = ground arith in
            let self : queued q ≡ queued pc' = ap queued it in ground arith
        | inr (other, old) ↦
            let was = is j q old in let misses : (j == i) ≡ false = ground arith in ground arith
      ]

pub Reach-IsListed : {w v : World} → Reach w v → IsListed w → IsListed v
Reach-IsListed here is = is
Reach-IsListed (next {u} {v} i c r e) is = step-IsListed u v i c e (Reach-IsListed r is)

queued_idle : (n j : ℕ) (pc : Pc) → get_elem? (replicate n idle) j ≡ some pc → 0 ≡ queued pc
queued_idle zero j pc e = absurd (ground arith)
queued_idle (suc n) zero pc e = ground arith
queued_idle (suc n) (suc j) pc e = queued_idle n j pc e

pub tasks_of-IsListed : (n : ℕ) → IsListed (tasks_of n)
unfolding sync_rwmutex_create
tasks_of-IsListed n j pc e = queued_idle n j pc e
