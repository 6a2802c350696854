-- ===== src/Sync/Mutex/Race.antt =====
-- The slow path of `sync_mutex_lock` in runtime/src/sync.c looks at the state and then stores it, and the
-- fast path does not take the inner mutex.
use picasso_lang.Base.{
  ℕ, ◌≡◌, ◌≢◌, refl, true, false, some, List, [], ◌∷◌, ◌==◌, if◌then◌else◌, arith,
}
use picasso_lang.Sync.Mutex.{
  Pc, idle, l_cas, l_lock, l_load, l_store, l_unlock, holding, u_store, u_pop, u_unlock, World, act,
  step, run,
}

-- `j` unlocks between the failed fast path of `i` and its slow path, and takes the mutex again between the
-- load and the store of `i`.
abbrev pub race : ℕ → ℕ → List ℕ
race i j = i ∷ i ∷ j ∷ j ∷ j ∷ j ∷ i ∷ i ∷ j ∷ j ∷ i ∷ i ∷ []

abbrev put : ℕ → Pc → (ℕ → Pc) → ℕ → Pc
put i pc pcs k = if k == i then pc else pcs k

-- Where the tasks are at the end of it.
abbrev moved : ℕ → ℕ → (ℕ → Pc) → ℕ → Pc
moved i j pcs = put i holding (
    put i l_unlock (
      put j holding (
        put j l_cas (
          put i l_store (
            put i l_load (
              put j idle (
                put j u_unlock (put j u_pop (put j u_store (put i l_lock (put i l_cas pcs)))))))))))

-- With the tasks that are left waiting and those that are woken.
abbrev raced : ℕ → ℕ → World → List ℕ → List ℕ → World
raced i j w waiters ready = record {
  state = 1;
  held = false;
  waiters = waiters;
  ready = ready;
  pcs = moved i j w.pcs;
}

module _ (i j : ℕ) (w : World) (ne : i ≢ j) (at_i : w.pcs i ≡ idle) (at_j : w.pcs j ≡ holding)
    (taken : w.state ≡ 1) (free : w.held ≡ false) where
  i_self : (i == i) ≡ true
  i_self = ground arith

  j_self : (j == j) ≡ true
  j_self = ground arith

  i_not_j : (i == j) ≡ false
  i_not_j = ground arith

  j_not_i : (j == i) ≡ false
  j_not_i = ground arith

  run-race :
      (ws : List ℕ)
      → w.waiters ≡ ws
      → (v : World) × (run (race i j) w ≡ some v) × (v.pcs i ≡ holding) × (v.pcs j ≡ holding)
  unfolding run step act
  run-race [] e = (
    raced i j w [] w.ready,
    ground (arith, i_self, j_self, i_not_j, j_not_i),
    simp (i_self, i_not_j),
    simp (j_self, j_not_i),
  )
  run-race (t ∷ ts) e = (
    raced i j w ts (t ∷ w.ready),
    ground (arith, i_self, j_self, i_not_j, j_not_i),
    simp (i_self, i_not_j),
    simp (j_self, j_not_i),
  )

-- Whenever a task holds the mutex, with its inner mutex free, any other task that is not in the functions
-- can get it too, while the first has it: there is an order of steps of the two after which both hold it.
pub mutex_race :
    (i j : ℕ) (w : World)
    → i ≢ j
    → w.pcs i ≡ idle
    → w.pcs j ≡ holding
    → w.state ≡ 1
    → w.held ≡ false
    → (v : World) × (run (race i j) w ≡ some v) × (v.pcs i ≡ holding) × (v.pcs j ≡ holding)
mutex_race i j w ne at_i at_j taken free = run-race i j w ne at_i at_j taken free w.waiters refl
