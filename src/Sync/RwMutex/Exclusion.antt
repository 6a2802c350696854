-- ===== src/Sync/RwMutex/Exclusion.antt =====
-- Who can hold the read-write mutex of runtime/src/sync.c at the same time.
use picasso_lang.Base.{ℕ, ◌≡◌, ◌≢◌, sym, ◌+◌, ◌*◌, ◌≤◌, some, arith, get_elem?}
use picasso_lang.Sync.RwMutex.Counts.{reads, owns, alone, Reach-IsCounted, tasks_of-IsCounted}
use picasso_lang.Base.Tasks.{sum, sum-le, sum-le₂}
use picasso_lang.Sync.RwMutex.{Pc, reading, writing, World, tasks_of, Reach}

-- In whatever order any number of tasks call the four functions and take their steps, from a new lock, at
-- most one task holds it for writing, and while one does no task holds it for reading.
pub rwmutex_excludes :
    (n : ℕ) {w : World} (i j : ℕ) (pc : Pc)
    → Reach (tasks_of n) w
    → get_elem? w.pcs i ≡ some writing
    → j ≢ i
    → get_elem? w.pcs j ≡ some pc
    → (pc ≢ writing) × (pc ≢ reading)
rwmutex_excludes n {w} i j pc r at ne other =
    let is = Reach-IsCounted r (tasks_of-IsCounted n) in
    let one = is.counts.one_owner in
    let le = sum-le alone w.pcs i writing at in
    let both = sum-le₂ owns w.pcs i j writing pc (λ e. ne (sym e)) at other in
    let more = sum-le reads w.pcs j pc other in
    (λ e. ground arith, λ e. ground (arith, is.counts.drained))

-- The state of the lock is at all times two for each task that holds it for reading, and one more while a
-- task has set the writer bit; at most one has.
pub rwmutex_counts :
    (n : ℕ) {w : World}
    → Reach (tasks_of n) w
    → (w.shared.state ≡ 2 * sum reads w.pcs + sum owns w.pcs) × (sum owns w.pcs ≤ 1)
rwmutex_counts n r =
    let is = Reach-IsCounted r (tasks_of-IsCounted n) in (is.counts.counted, is.counts.one_owner)
