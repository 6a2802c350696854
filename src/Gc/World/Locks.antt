-- ===== src/Gc/World/Locks.antt =====
-- Who holds the two mutexes of `gc_state_t` in runtime/src/gc.c, and what `total_threads` counts.
use mathlib.Core.Path.{subst}
use picasso_lang.Base.{
  ℕ, ◌≡◌, refl, sym, ap, inl, inr, Option-cases, ◌+◌, true, none, some, arith, if◌then◌else◌,
  get_elem?, set,
}
use picasso_lang.Base.Tasks.{sum, sum-set, sum-idle}
use picasso_lang.Gc.World.{
  Mutator, out, join_add, join_unlock, running, y_lock, y_count, y_check, y_waiting, y_unlock,
  leave, Collector, resting, s_set, s_check, s_waiting, s_unlock, s_add_lock, collecting, r_clear,
  r_zero, r_unlock, r_add_unlock, GcState, gc_start, Choice, yields, returns, mutator_act,
  collector_act, World, threads_of, mutator, collects, step, Reach, here, next,
}

-- The thread has `add_lock`.
abbrev pub adds : Mutator → ℕ
adds join_add = 1
adds join_unlock = 1
adds m = 0

-- The thread has `lock`.
abbrev pub locks : Mutator → ℕ
locks y_count = 1
locks y_check = 1
locks y_unlock = 1
locks m = 0

-- The thread has a task.
abbrev pub counted : Mutator → ℕ
counted out = 0
counted join_add = 0
counted m = 1

abbrev pub collector_adds : Collector → ℕ
collector_adds collecting = 1
collector_adds r_clear = 1
collector_adds r_zero = 1
collector_adds r_unlock = 1
collector_adds r_add_unlock = 1
collector_adds k = 0

abbrev pub collector_locks : Collector → ℕ
collector_locks s_set = 1
collector_locks s_check = 1
collector_locks s_unlock = 1
collector_locks r_clear = 1
collector_locks r_zero = 1
collector_locks r_unlock = 1
collector_locks k = 0

pub record Owned (g : GcState) (k : Collector) (a l t : ℕ) : Type 0 where
  pub add_owner : a + collector_adds k ≡ (if g.add_held then 1 else 0)
  pub lock_owner : l + collector_locks k ≡ (if g.lock_held then 1 else 0)
  pub total : g.total_threads ≡ t

module _ (a l t : ℕ) (k : Collector) (g g' : GcState) (m' : Mutator) where
  mutator_act-Owned :
      (m : Mutator) (c : Choice)
      → mutator_act m c g ≡ some (m', g')
      → Owned g k (a + adds m) (l + locks m) (t + counted m)
      → Owned g' k (a + adds m') (l + locks m') (t + counted m')
  unfolding mutator_act
  mutator_act-Owned out c e is = ground arith
  mutator_act-Owned join_add c e is = ground arith
  mutator_act-Owned join_unlock c e is = ground arith
  mutator_act-Owned running yields e is = ground arith
  mutator_act-Owned running returns e is = ground arith
  mutator_act-Owned y_lock c e is = ground arith
  mutator_act-Owned y_count c e is = ground arith
  mutator_act-Owned y_check c e is = ground arith
  mutator_act-Owned y_waiting c e is = ground arith
  mutator_act-Owned y_unlock c e is = ground arith
  mutator_act-Owned leave c e is = ground arith

module _ (a l t : ℕ) (g g' : GcState) (k' : Collector) where
  collector_act-Owned :
      (k : Collector) → collector_act k g ≡ some (k', g') → Owned g k a l t → Owned g' k' a l t
  unfolding collector_act
  collector_act-Owned resting e is = ground arith
  collector_act-Owned s_set e is = ground arith
  collector_act-Owned s_check e is = ground arith
  collector_act-Owned s_waiting e is = ground arith
  collector_act-Owned s_unlock e is = ground arith
  collector_act-Owned s_add_lock e is = ground arith
  collector_act-Owned collecting e is = ground arith
  collector_act-Owned r_clear e is = ground arith
  collector_act-Owned r_zero e is = ground arith
  collector_act-Owned r_unlock e is = ground arith
  collector_act-Owned r_add_unlock e is = ground arith

abbrev pub IsOwned : World → Type 0
IsOwned w =
    Owned w.gc_state w.collector (sum adds w.mutators) (sum locks w.mutators)
      (sum counted w.mutators)

mutator-IsOwned :
    (w v : World) (i : ℕ) (c : Choice) → step (mutator i c) w ≡ some v → IsOwned w → IsOwned v
unfolding step
mutator-IsOwned w v i c e is = elim (Option-cases (get_elem? w.mutators i)) [
  | inl o ↦ absurd (ground arith)
  | inr (m, at) ↦ elim (Option-cases (mutator_act m c w.gc_state)) [
    | inl o ↦ absurd (ground arith)
    | inr ((m', g), s) ↦
        let a = sum-set adds out refl w.mutators i m m' at in
        let l = sum-set locks out refl w.mutators i m m' at in
        let t = sum-set counted out refl w.mutators i m m' at in
        let rest = λ (f : Mutator → ℕ). sum f (set w.mutators i out) in
        let before : Owned w.gc_state w.collector (rest adds + adds m) (rest locks + locks m)
            (rest counted + counted m) =
          record {
            add_owner = ground (arith, is.add_owner);
            lock_owner = ground (arith, is.lock_owner);
            total = ground (arith, is.total);
          } in
        let after =
          mutator_act-Owned (rest adds) (rest locks) (rest counted) w.collector w.gc_state g m' m c
            s before in
        let result : IsOwned (record w { mutators = set w.mutators i m'; gc_state = g }) = record {
          add_owner = ground (arith, after.add_owner);
          lock_owner = ground (arith, after.lock_owner);
          total = ground (arith, after.total);
        } in
        let same : record w { mutators = set w.mutators i m'; gc_state = g } ≡ v = ground arith in
        subst IsOwned same result
  ]
]

collector-IsOwned : (w v : World) → step collects w ≡ some v → IsOwned w → IsOwned v
unfolding step
collector-IsOwned w v e is = elim (Option-cases (collector_act w.collector w.gc_state)) [
  | inl o ↦ absurd (ground arith)
  | inr ((k, g), s) ↦
      let after =
        collector_act-Owned (sum adds w.mutators) (sum locks w.mutators) (sum counted w.mutators)
          w.gc_state g k w.collector s is in
      let same : record w { collector = k; gc_state = g } ≡ v = ground arith in
      subst IsOwned same after
]

Reach-IsOwned : {w v : World} → Reach w v → IsOwned w → IsOwned v
Reach-IsOwned here is = is
Reach-IsOwned (next {u} {v} (mutator i c) r e) is = mutator-IsOwned u v i c e (Reach-IsOwned r is)
Reach-IsOwned (next {u} {v} collects r e) is = collector-IsOwned u v e (Reach-IsOwned r is)

threads_of-IsOwned : (n : ℕ) → IsOwned (threads_of n)
unfolding gc_start
threads_of-IsOwned n =
    let a = sum-idle adds out refl n in
    let l = sum-idle locks out refl n in
    let t = sum-idle counted out refl n in
    record { add_owner = omega arith; lock_owner = omega arith; total = sym t }

-- In whatever order any number of scheduler threads and the collector take their steps, `total_threads` is the
-- number of threads that have a task; and while the collector collects, no thread is between locking `add_lock`
-- and giving it back, and none that is without a task can take a step.
pub collecting_excludes-joining :
    (n : ℕ) {w : World}
    → Reach (threads_of n) w
    → (w.gc_state.total_threads ≡ sum counted w.mutators)
      × (w.collector ≡ collecting
          → (sum adds w.mutators ≡ 0)
            × ((i : ℕ) (c : Choice)
                → get_elem? w.mutators i ≡ some out
                → step (mutator i c) w ≡ none))
unfolding step mutator_act
collecting_excludes-joining n {w} r =
    let is = Reach-IsOwned r (threads_of-IsOwned n) in
    (
      is.total,
      λ k.
          let one : collector_adds w.collector ≡ 1 = ap collector_adds k in
          let held : w.gc_state.add_held ≡ true = ground (arith, is.add_owner) in
          (ground (arith, is.add_owner), λ i c at. ground arith),
    )
