-- ===== src/Sync/RwMutex/Counts.antt =====
-- What the state of the read-write mutex of runtime/src/sync.c counts, kept by every step.
use picasso_lang.Base.{
  ℕ, zero, suc, ◌≡◌, refl, sym, ◌⊎◌, inl, inr, ◌+◌, ◌*◌, ◌%◌, ◌≤◌, some, List, [], ◌∷◌, arith,
  get_elem?, set, replicate,
}
use mathlib.Core.Path.{subst}
use picasso_lang.Sync.RwMutex.Steps.{step-act}
use picasso_lang.Base.Tasks.{sum, sum-set, sum-idle, get_elem?-set_cases}
use picasso_lang.Sync.RwMutex.{
  Pc, idle, r_load, r_cas, r_lock, r_check, r_push, r_unlock_sleep, r_asleep, r_unlock_retry,
  reading, ru_lock, ru_pop, ru_unlock, w_load, w_cas, w_lock, w_check, w_push, w_unlock_sleep,
  w_asleep, w_unlock_retry, w_drain, w_drain_asleep, writing, wu_store, wu_pop_writer,
  wu_pop_reader, wu_unlock, Shared, Choice, go, call_rlock, call_rwlock, spurious, lock_to,
  unlock_to, wake_to, act, World, tasks_of, step, Reach, here, next, sync_rwmutex_create,
}

abbrev pub reads : Pc → ℕ
reads reading = 1
reads pc = 0

-- The task has set the writer bit and not cleared it.
abbrev pub owns : Pc → ℕ
owns w_drain = 1
owns w_drain_asleep = 1
owns writing = 1
owns wu_store = 1
owns pc = 0

-- The task has seen the readers gone.
abbrev pub alone : Pc → ℕ
alone writing = 1
alone wu_store = 1
alone pc = 0

-- The state is two for each reader and one for a writer.
pub record Counts (state r o a : ℕ) : Type 0 where
  pub counted : state ≡ 2 * r + o
  pub one_owner : o ≤ 1
  pub drained : (a ≡ 0) ⊎ (r ≡ 0)

-- A compare and exchange is tried from a state without the writer bit only.
abbrev pub Even : Pc → Type 0
Even (r_cas old) = old % 2 ≡ 0
Even (w_cas old) = old % 2 ≡ 0
Even pc = Unit

abbrev Keeps : ℕ → ℕ → ℕ → Pc → Shared → Type 0
Keeps r o a pc s = Counts s.state (r + reads pc) (o + owns pc) (a + alone pc) × Even pc

module _ (i r o a : ℕ) (le : a ≤ o) (s s' : Shared) (pc' : Pc) where
  act-Keeps :
      (pc : Pc) (c : Choice) → act i pc c s ≡ some (pc', s') → Keeps r o a pc s → Keeps r o a pc' s'
  unfolding act lock_to unlock_to wake_to
  act-Keeps idle go e k = ground arith
  act-Keeps idle call_rlock e k = ground arith
  act-Keeps idle call_rwlock e k = ground arith
  act-Keeps idle spurious e k = ground arith
  act-Keeps r_load c e k = ground arith
  act-Keeps (r_cas old) go e k = ground arith
  act-Keeps (r_cas old) call_rlock e k = ground arith
  act-Keeps (r_cas old) call_rwlock e k = ground arith
  act-Keeps (r_cas old) spurious e k = ground arith
  act-Keeps r_lock c e k = ground arith
  act-Keeps r_check c e k = ground arith
  act-Keeps r_push c e k = ground arith
  act-Keeps r_unlock_sleep c e k = ground arith
  act-Keeps r_asleep c e k = ground arith
  act-Keeps r_unlock_retry c e k = ground arith
  act-Keeps reading c e k = ground arith
  act-Keeps ru_lock c e k = ground arith
  act-Keeps ru_pop c e k = ground arith
  act-Keeps ru_unlock c e k = ground arith
  act-Keeps w_load c e k = ground arith
  act-Keeps (w_cas old) go e k = ground arith
  act-Keeps (w_cas old) call_rlock e k = ground arith
  act-Keeps (w_cas old) call_rwlock e k = ground arith
  act-Keeps (w_cas old) spurious e k = ground arith
  act-Keeps w_lock c e k = ground arith
  act-Keeps w_check c e k = ground arith
  act-Keeps w_push c e k = ground arith
  act-Keeps w_unlock_sleep c e k = ground arith
  act-Keeps w_asleep c e k = ground arith
  act-Keeps w_unlock_retry c e k = ground arith
  act-Keeps w_drain c e k = ground arith
  act-Keeps w_drain_asleep c e k = ground arith
  act-Keeps writing c e k = ground arith
  act-Keeps wu_store c e k = ground arith
  act-Keeps wu_pop_writer c e k = ground arith
  act-Keeps wu_pop_reader c e k = ground arith
  act-Keeps wu_unlock c e k = ground arith

alone-le-owns_pc : (pc : Pc) → alone pc ≤ owns pc
alone-le-owns_pc idle = omega arith
alone-le-owns_pc r_load = omega arith
alone-le-owns_pc (r_cas old) = omega arith
alone-le-owns_pc r_lock = omega arith
alone-le-owns_pc r_check = omega arith
alone-le-owns_pc r_push = omega arith
alone-le-owns_pc r_unlock_sleep = omega arith
alone-le-owns_pc r_asleep = omega arith
alone-le-owns_pc r_unlock_retry = omega arith
alone-le-owns_pc reading = omega arith
alone-le-owns_pc ru_lock = omega arith
alone-le-owns_pc ru_pop = omega arith
alone-le-owns_pc ru_unlock = omega arith
alone-le-owns_pc w_load = omega arith
alone-le-owns_pc (w_cas old) = omega arith
alone-le-owns_pc w_lock = omega arith
alone-le-owns_pc w_check = omega arith
alone-le-owns_pc w_push = omega arith
alone-le-owns_pc w_unlock_sleep = omega arith
alone-le-owns_pc w_asleep = omega arith
alone-le-owns_pc w_unlock_retry = omega arith
alone-le-owns_pc w_drain = omega arith
alone-le-owns_pc w_drain_asleep = omega arith
alone-le-owns_pc writing = omega arith
alone-le-owns_pc wu_store = omega arith
alone-le-owns_pc wu_pop_writer = omega arith
alone-le-owns_pc wu_pop_reader = omega arith
alone-le-owns_pc wu_unlock = omega arith

pub alone-le-owns : (pcs : List Pc) → sum alone pcs ≤ sum owns pcs
alone-le-owns [] = omega arith
alone-le-owns (pc ∷ pcs) = omega (arith, alone-le-owns pcs, alone-le-owns_pc pc)

-- The numbers of readers, of owners of the writer bit, and of tasks that hold the lock for writing.
pub record IsCounted (w : World) : Type 0 where
  pub counts : Counts w.shared.state (sum reads w.pcs) (sum owns w.pcs) (sum alone w.pcs)
  pub even : (i : ℕ) (pc : Pc) → get_elem? w.pcs i ≡ some pc → Even pc

module _ (w : World) (i : ℕ) where
  abbrev rest : (Pc → ℕ) → ℕ
  rest f = sum f (set w.pcs i idle)

module _ (w : World) (i : ℕ) (pc pc' : Pc) (s : Shared) (at : get_elem? w.pcs i ≡ some pc)
    (is : IsCounted w) where
  before : Keeps (rest w i reads) (rest w i owns) (rest w i alone) pc w.shared
  before =
      let r = sum-set reads idle refl w.pcs i pc pc' at in
      let o = sum-set owns idle refl w.pcs i pc pc' at in
      let a = sum-set alone idle refl w.pcs i pc pc' at in
      (
        record {
          counted = omega (arith, is.counts.counted);
          one_owner = omega (arith, is.counts.one_owner);
          drained = ground (arith, is.counts.drained);
        },
        is.even i pc at,
      )

  abbrev after : World
  after = record { pcs = set w.pcs i pc'; shared = s }

  after-Even : Even pc' → (j : ℕ) (q : Pc) → get_elem? after.pcs j ≡ some q → Even q
  after-Even ev j q e = elim (get_elem?-set_cases w.pcs i j pc' q e) [
    | inl (same, eq) ↦ subst Even (sym eq) ev
    | inr (other, old) ↦ is.even j q old
  ]

  after-IsCounted : Keeps (rest w i reads) (rest w i owns) (rest w i alone) pc' s → IsCounted after
  after-IsCounted (k, ev) =
      let r = sum-set reads idle refl w.pcs i pc pc' at in
      let o = sum-set owns idle refl w.pcs i pc pc' at in
      let a = sum-set alone idle refl w.pcs i pc pc' at in
      record {
        counts = record {
          counted = omega (arith, k.counted);
          one_owner = omega (arith, k.one_owner);
          drained = ground (arith, k.drained);
        };
        even = after-Even ev;
      }

step-IsCounted :
    (w v : World) (i : ℕ) (c : Choice) → step i c w ≡ some v → IsCounted w → IsCounted v
step-IsCounted w v i c e is =
    let (pc, pc', s, at, m, eq) = step-act w v i c e in
    subst IsCounted (sym eq) (
      after-IsCounted w i pc pc' s at is (
        act-Keeps i (rest w i reads) (rest w i owns) (rest w i alone)
          (alone-le-owns (set w.pcs i idle)) w.shared s pc' pc c m (before w i pc pc' s at is)))

pub Reach-IsCounted : {w v : World} → Reach w v → IsCounted w → IsCounted v
Reach-IsCounted here is = is
Reach-IsCounted (next {u} {v} i c r e) is = step-IsCounted u v i c e (Reach-IsCounted r is)

Even-idle : (n i : ℕ) (pc : Pc) → get_elem? (replicate n idle) i ≡ some pc → Even pc
Even-idle zero i pc e = absurd (ground arith)
Even-idle (suc n) zero pc e = let same : idle ≡ pc = ground arith in subst Even same tt
Even-idle (suc n) (suc i) pc e = Even-idle n i pc e

pub tasks_of-IsCounted : (n : ℕ) → IsCounted (tasks_of n)
unfolding sync_rwmutex_create
tasks_of-IsCounted n =
    let r = sum-idle reads idle refl n in
    let o = sum-idle owns idle refl n in
    let a = sum-idle alone idle refl n in
    record {
      counts = record { counted = omega arith; one_owner = omega arith; drained = inl a };
      even = Even-idle n;
    }
