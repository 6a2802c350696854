-- ===== src/Sync/RwMutex/Stuck.antt =====
-- A writer that waits for the readers in `rwlock` of runtime/src/sync.c yields without being on any queue.
use picasso_lang.Base.{
  ℕ, ◌≡◌, ◌≢◌, sym, ap, ◌∙◌, inl, inr, ◌%◌, true, some, arith, ◌==◌, get_elem?, get_elem?-set_ne,
  ℕ_discrete,
}
use mathlib.Core.Path.{subst}
use picasso_lang.Sync.RwMutex.Steps.{step-act}
use picasso_lang.Sync.RwMutex.Listed.{listed, wake_to-listed, Reach-IsListed, tasks_of-IsListed}
use picasso_lang.Sync.RwMutex.Counts.{owns, Even, IsCounted, Reach-IsCounted, tasks_of-IsCounted}
use picasso_lang.Base.Tasks.{sum-le, sum-le₂, get_elem?-set_cases}
use picasso_lang.Sync.RwMutex.{
  Pc, idle, r_load, r_cas, r_lock, r_check, r_push, r_unlock_sleep, r_asleep, r_unlock_retry,
  reading, ru_lock, ru_pop, ru_unlock, w_load, w_cas, w_lock, w_check, w_push, w_unlock_sleep,
  w_asleep, w_unlock_retry, w_drain, w_drain_asleep, writing, wu_store, wu_pop_writer,
  wu_pop_reader, wu_unlock, Shared, Choice, go, call_rlock, call_rwlock, spurious, lock_to,
  unlock_to, wake_to, act, World, tasks_of, step, Reach, here, next,
}

module _ (i : ℕ) (s s' : Shared) where
  -- While the writer bit is set no task begins to read.
  act_no-reading :
      (pc : Pc) (c : Choice) → s.state % 2 ≡ 1 → Even pc → act i pc c s ≢ some (reading, s')
  unfolding act lock_to unlock_to wake_to
  act_no-reading idle go odd even e = ground arith
  act_no-reading idle call_rlock odd even e = ground arith
  act_no-reading idle call_rwlock odd even e = ground arith
  act_no-reading idle spurious odd even e = ground arith
  act_no-reading r_load c odd even e = ground arith
  act_no-reading (r_cas old) go odd even e = ground arith
  act_no-reading (r_cas old) call_rlock odd even e = ground arith
  act_no-reading (r_cas old) call_rwlock odd even e = ground arith
  act_no-reading (r_cas old) spurious odd even e = ground arith
  act_no-reading r_lock c odd even e = ground arith
  act_no-reading r_check c odd even e = ground arith
  act_no-reading r_push c odd even e = ground arith
  act_no-reading r_unlock_sleep c odd even e = ground arith
  act_no-reading r_asleep c odd even e = ground arith
  act_no-reading r_unlock_retry c odd even e = ground arith
  act_no-reading reading c odd even e = ground arith
  act_no-reading ru_lock c odd even e = ground arith
  act_no-reading ru_pop c odd even e = ground arith
  act_no-reading ru_unlock c odd even e = ground arith
  act_no-reading w_load c odd even e = ground arith
  act_no-reading (w_cas old) go odd even e = ground arith
  act_no-reading (w_cas old) call_rlock odd even e = ground arith
  act_no-reading (w_cas old) call_rwlock odd even e = ground arith
  act_no-reading (w_cas old) spurious odd even e = ground arith
  act_no-reading w_lock c odd even e = ground arith
  act_no-reading w_check c odd even e = ground arith
  act_no-reading w_push c odd even e = ground arith
  act_no-reading w_unlock_sleep c odd even e = ground arith
  act_no-reading w_asleep c odd even e = ground arith
  act_no-reading w_unlock_retry c odd even e = ground arith
  act_no-reading w_drain c odd even e = ground arith
  act_no-reading w_drain_asleep c odd even e = ground arith
  act_no-reading writing c odd even e = ground arith
  act_no-reading wu_store c odd even e = ground arith
  act_no-reading wu_pop_writer c odd even e = ground arith
  act_no-reading wu_pop_reader c odd even e = ground arith
  act_no-reading wu_unlock c odd even e = ground arith

act-asleep :
    (i : ℕ) (c : Choice) (s s' : Shared) (pc' : Pc)
    → listed i s ≡ 0
    → act i w_drain_asleep c s ≢ some (pc', s')
unfolding act
act-asleep i c s s' pc' none_listed e =
    let woken = wake_to-listed i i w_drain pc' s s' e in
    let self : (i == i) ≡ true = ground arith in ground arith

-- A writer that sleeps so, in a world that a new lock can get to.
record IsAsleep (n w : ℕ) (u : World) : Type 0 where
  pub reached : Reach (tasks_of n) u
  pub asleep : get_elem? u.pcs w ≡ some w_drain_asleep

module _ (n w : ℕ) (u : World) (is : IsAsleep n w u) where
  counted : IsCounted u
  counted = Reach-IsCounted is.reached (tasks_of-IsCounted n)

  listed-zero : listed w u.shared ≡ 0
  listed-zero = Reach-IsListed is.reached (tasks_of-IsListed n) w w_drain_asleep is.asleep

  state-odd : u.shared.state % 2 ≡ 1
  state-odd =
      let count = counted.counts in
      let one = sum-le owns u.pcs w w_drain_asleep is.asleep in
      omega (arith, count.counted, count.one_owner)

  nobody-writing : (j : ℕ) → get_elem? u.pcs j ≢ some writing
  nobody-writing j e =
      let count = counted.counts in
      elim (ℕ_discrete w j) [
        | yes same ↦
            let both : some w_drain_asleep ≡ some writing =
              sym is.asleep ∙ ap (get_elem? u.pcs) same ∙ e in
            ground (arith, both)
        | no other ↦
            let two = sum-le₂ owns u.pcs w j w_drain_asleep writing other is.asleep e in
            ground (arith, count.one_owner)
      ]

  module _ (v : World) (i : ℕ) (c : Choice) (e : step i c u ≡ some v) where
    step-IsAsleep : IsAsleep n w v
    step-IsAsleep =
        let (pc, pc', s, at, m, eq) = step-act u v i c e in
        record {
          reached = next i c is.reached e;
          asleep = elim (ℕ_discrete i w) [
            | yes same ↦
                let it : some pc ≡ some w_drain_asleep =
                  sym at ∙ ap (get_elem? u.pcs) same ∙ is.asleep in
                let it' : pc ≡ w_drain_asleep = ground (arith, it) in
                absurd (
                  act-asleep i c u.shared s pc'
                    (subst (λ x. listed x u.shared ≡ 0) (sym same) listed-zero)
                    (subst (λ q. act i q c u.shared ≡ some (pc', s)) it' m))
            | no other ↦
                ap (λ x. get_elem? x.pcs w) eq ∙ get_elem?-set_ne u.pcs pc' other ∙ is.asleep
          ];
        }

    nobody_begins : (j : ℕ) → get_elem? v.pcs j ≡ some reading → get_elem? u.pcs j ≡ some reading
    nobody_begins j r =
        let (pc, pc', s, at, m, eq) = step-act u v i c e in
        elim (get_elem?-set_cases u.pcs i j pc' reading
          (subst (λ x. get_elem? x.pcs j ≡ some reading) eq r)) [
            | inl (same, it) ↦ absurd (
                act_no-reading i u.shared s pc c state-odd (counted.even i pc at)
                  (subst (λ q. act i pc c u.shared ≡ some (q, s)) (sym it) m))
            | inr (other, old) ↦ old
          ]

Reach-IsAsleep : (n w : ℕ) {u v : World} → IsAsleep n w u → Reach u v → IsAsleep n w v
Reach-IsAsleep n w is here = is
Reach-IsAsleep n w is (next i c r e) = step-IsAsleep n w _ (Reach-IsAsleep n w is r) _ i c e

Reach-nobody_begins :
    (n w : ℕ) {u v : World}
    → IsAsleep n w u
    → Reach u v
    → (j : ℕ) → get_elem? v.pcs j ≡ some reading
    → get_elem? u.pcs j ≡ some reading
Reach-nobody_begins n w is here j e = e
Reach-nobody_begins n w is (next i c r e) j q =
    Reach-nobody_begins n w is r j (nobody_begins n w _ (Reach-IsAsleep n w is r) _ i c e j q)

-- A task that has set the writer bit in `rwlock` and yields because there are readers never runs again,
-- whatever the other tasks do: from then on no task gets the lock for writing, and none gets it for reading
-- that did not have it.
pub rwlock_sleeps_for_ever :
    (n w : ℕ) {u v : World}
    → Reach (tasks_of n) u
    → get_elem? u.pcs w ≡ some w_drain_asleep
    → Reach u v
    → (get_elem? v.pcs w ≡ some w_drain_asleep)
      × ((j : ℕ) → get_elem? v.pcs j ≢ some writing)
      × ((j : ℕ) → get_elem? v.pcs j ≡ some reading → get_elem? u.pcs j ≡ some reading)
rwlock_sleeps_for_ever n w reached asleep r =
    let is = Reach-IsAsleep n w (record { reached = reached; asleep = asleep }) r in
    (
      is.asleep,
      nobody-writing n w _ is,
      Reach-nobody_begins n w (record { reached = reached; asleep = asleep }) r,
    )
