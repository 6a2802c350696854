-- ===== src/Scheduler/Rest.antt =====
-- The end of the threads of runtime/src/scheduler.c: the steps that are left once no task is counted.
use mathlib.Core.Path.{subst}
use picasso_lang.Base.{
  ℕ, suc, ◌≡◌, ◌≢◌, refl, ap, ◌⊎◌, inl, inr, ◌+◌, ◌-◌, ◌<◌, Bool, true, false, Option, none, some,
  List, [], ◌∷◌, if◌then◌else◌, Option-cases, List-cases, Bool-cases, arith, ltb, length, get_elem?,
  set,
}
use picasso_lang.Base.Tasks.{sum, sum-set, get_elem?-lt}
use picasso_lang.Scheduler.{
  Stage, queued, asleep, ended, running, Pc, waiting, popped, runs, spawns, finished, destroys,
  delay, second_look, tells, gone, Shared, Choice, go, queue_at, push, pop_wait, act, World, Event,
  thread, wakes, thread_step, step, run, start, Reach, next,
}
use picasso_lang.Scheduler.Places.{StageIs, pop-shift}
use picasso_lang.Scheduler.Counts.{live, stage-total, nulls_in}
use picasso_lang.Scheduler.Told.{told_by}
use picasso_lang.Scheduler.Placed.{
  IsPlaced, is_at-StageIs, owns, thread_step_cases, thread_step-IsKept,
}
use picasso_lang.Scheduler.Ends.{wake_step_cases}
use picasso_lang.Scheduler.Ending.{IsEnding, Reach-IsEnding}

-- The steps that a thread has left where no task is counted and there are n threads; none of them has a task then
-- that is not counted off.
abbrev pub steps_left : ℕ → Pc → ℕ
steps_left n waiting = 1
steps_left n (popped t) = 0
steps_left n (runs t) = 0
steps_left n (spawns t m) = 0
steps_left n (finished t) = 0
steps_left n (destroys t last) = if last then n + 4 else 2
steps_left n delay = n + 3
steps_left n second_look = n + 2
steps_left n (tells k) = suc (n - k)
steps_left n gone = 0

abbrev pub left : World → ℕ
left w = sum (steps_left (length w.shared.queues)) w.pcs

module _ (w : World) (is : IsPlaced w) (z : w.shared.task_count ≡ 0) where
  no_stage : (u : ℕ) (stage : Stage) → live stage ≡ 1 → ¬ StageIs u stage w.shared
  no_stage u stage one own =
      let a = stage-total u stage w.shared own in let b = is.sound.counts in omega arith

  no_task_queued :
      (i u : ℕ) (rest : List (Option ℕ))
      → i < length w.shared.queues
      → ¬ (queue_at w.shared.queues i ≡ some u ∷ rest)
  no_task_queued i u rest h q =
      let a = pop-shift 1 u i (some u) rest w.shared.queues h q in
      let b = is.places 1 u (omega arith) (omega arith) in
      no_stage u queued refl (is_at-StageIs u queued w.shared (ground arith))

  act-left :
      (i : ℕ) (pc pc' : Pc) (c : Choice) (s' : Shared)
      → get_elem? w.pcs i ≡ some pc
      → i < length w.shared.queues
      → act i pc c w.shared ≡ some (pc', s')
      → steps_left (length w.shared.queues) pc ≡ suc (steps_left (length w.shared.queues) pc')
  unfolding act pop_wait
  act-left i waiting pc' c s' at h e = elim (List-cases (queue_at w.shared.queues i)) [
    | inl n ↦ absurd (ground arith)
    | inr (some u, rest, q) ↦ absurd (no_task_queued i u rest h q)
    | inr (none, rest, q) ↦
        let eq : gone ≡ pc' = ground arith in
        ap (λ p. suc (steps_left (length w.shared.queues) p)) eq
  ]
  act-left i (popped t) pc' c s' at h e =
      absurd (no_stage t queued refl (owns w is i (popped t) at))
  act-left i (runs t) pc' c s' at h e = absurd (no_stage t running refl (owns w is i (runs t) at))
  act-left i (spawns t m) pc' c s' at h e =
      absurd (no_stage t running refl (owns w is i (spawns t m) at).0)
  act-left i (finished t) pc' c s' at h e =
      absurd (no_stage t ended refl (owns w is i (finished t) at))
  act-left i (destroys t true) pc' c s' at h e =
      let eq : delay ≡ pc' = ground arith in
      let a = ap (steps_left (length w.shared.queues)) eq in omega arith
  act-left i (destroys t false) pc' c s' at h e =
      let eq : waiting ≡ pc' = ground arith in
      let a = ap (steps_left (length w.shared.queues)) eq in omega arith
  act-left i delay pc' c s' at h e =
      let eq : second_look ≡ pc' = ground arith in
      let a = ap (steps_left (length w.shared.queues)) eq in omega arith
  act-left i second_look pc' c s' at h e =
      let eq : tells 0 ≡ pc' = ground arith in
      let a = ap (steps_left (length w.shared.queues)) eq in omega arith
  act-left i (tells k) pc' c s' at h e = elim (Bool-cases (ltb k (length w.shared.queues))) [
    | inl there ↦
        let eq : tells (suc k) ≡ pc' = ground arith in
        let a = ap (steps_left (length w.shared.queues)) eq in ground arith
    | inr over ↦
        let eq : gone ≡ pc' = ground arith in
        let a = ap (steps_left (length w.shared.queues)) eq in ground arith
  ]
  act-left i gone pc' c s' at h e = absurd (ground arith)

  thread_step-left :
      (i : ℕ) (c : Choice) (v : World)
      → thread_step i c w ≡ some v
      → (v.shared.task_count ≡ 0) × (left w ≡ suc (left v))
  thread_step-left i c v e =
      let (pc, pc', s', at, a, eq) = thread_step_cases i c w v e in
      let (h, kept) = thread_step-IsKept i c pc pc' w s' is at a in
      let n = length w.shared.queues in
      let (b, d) = sum-set (steps_left n) gone refl w.pcs i pc pc' at in
      let one = act-left i pc pc' c s' at h a in
      let same = ap (λ m. sum (steps_left m) (set w.pcs i pc')) kept.threads in
      subst (λ (x : World). (x.shared.task_count ≡ 0) × (left w ≡ suc (left x))) eq
        (kept.still_zero z, omega arith)

  step-left :
      (e : Event) (v : World)
      → step e w ≡ some v
      → (v.shared.task_count ≡ 0) × (left w ≡ suc (left v))
  unfolding step
  step-left (thread i c) v e = thread_step-left i c v e
  step-left (wakes t) v e =
      let (own, eq) = wake_step_cases t w v e in absurd (no_stage t asleep refl own)

  -- A thread that has been told to stop, or is on the way to tell others, can go on.
  act-goes :
      (i : ℕ) (pc : Pc)
      → get_elem? w.pcs i ≡ some pc
      → pc ≢ gone
      → (0 < nulls_in (queue_at w.shared.queues i)) ⊎ ((k : ℕ) × (told_by pc ≡ some k))
      → (m : Pc × Shared) × (act i pc go w.shared ≡ some m)
  unfolding act pop_wait
  act-goes i waiting at ne (inr (k, on)) = absurd (ground arith)
  act-goes i waiting at ne (inl one) = elim (List-cases (queue_at w.shared.queues i)) [
    | inl n ↦ absurd (let a = ap nulls_in n in omega arith)
    | inr (none, rest, q) ↦
        let m : Pc × Shared = (gone, record w.shared { queues = set w.shared.queues i rest }) in
        let a : pop_wait i w.shared ≡ some m = ground arith in (m, a)
    | inr (some u, rest, q) ↦
        let m : Pc × Shared = (popped u, record w.shared { queues = set w.shared.queues i rest }) in
        let a : pop_wait i w.shared ≡ some m = ground arith in (m, a)
  ]
  act-goes i (popped t) at ne told = (_, refl)
  act-goes i (runs t) at ne told = absurd (no_stage t running refl (owns w is i (runs t) at))
  act-goes i (spawns t m) at ne told = (_, refl)
  act-goes i (finished t) at ne told = (_, refl)
  act-goes i (destroys t last) at ne told = (_, refl)
  act-goes i delay at ne told = (_, refl)
  act-goes i second_look at ne told = (_, refl)
  act-goes i (tells k) at ne told = elim (Bool-cases (ltb k (length w.shared.queues))) [
    | inl there ↦ ((tells (suc k), push k none w.shared), rw there refl)
    | inr over ↦ ((gone, w.shared), rw over refl)
  ]
  act-goes i gone at ne told = absurd (ne refl)

  step-goes :
      (i : ℕ) (pc : Pc)
      → get_elem? w.pcs i ≡ some pc
      → pc ≢ gone
      → (0 < nulls_in (queue_at w.shared.queues i)) ⊎ ((k : ℕ) × (told_by pc ≡ some k))
      → (j : ℕ) × (v : World) × (step (thread j go) w ≡ some v)
  unfolding step thread_step
  step-goes i pc at ne told =
      let ((pc', s'), a) = act-goes i pc at ne told in
      let v : World = record { pcs = set w.pcs i pc'; shared = s' } in
      let b : thread_step i go w ≡ some v = ground arith in (i, v, b)

abbrev pub is_gone : Pc → Bool
is_gone waiting = false
is_gone (popped t) = false
is_gone (runs t) = false
is_gone (spawns t n) = false
is_gone (finished t) = false
is_gone (destroys t last) = false
is_gone delay = false
is_gone second_look = false
is_gone (tells k) = false
is_gone gone = true

abbrev pub all_gone : List Pc → Bool
all_gone [] = true
all_gone (pc ∷ pcs) = if is_gone pc then all_gone pcs else false

all_gone-not :
    (pcs : List Pc)
    → all_gone pcs ≡ false
    → (i : ℕ) × (pc : Pc) × (get_elem? pcs i ≡ some pc) × (is_gone pc ≡ false)
all_gone-not [] e = absurd (ground arith)
all_gone-not (p ∷ pcs) e = elim (Bool-cases (is_gone p)) [
  | inr ne ↦ (0, p, refl, ne)
  | inl back ↦ let (i, pc, at, ne) = all_gone-not pcs (ground arith) in (suc i, pc, at, ne)
]

is_gone-not : (pc : Pc) → is_gone pc ≡ false → pc ≢ gone
is_gone-not pc e back = let a = ap is_gone back in ground arith

told-not_gone : (k : ℕ) (pc : Pc) → told_by pc ≡ some k → pc ≢ gone
told-not_gone k pc on back = let a = ap told_by back in ground arith

goes_on :
    (w : World)
    → IsPlaced w
    → IsEnding w
    → w.shared.task_count ≡ 0
    → (all_gone w.pcs ≡ true) ⊎ ((i : ℕ) × (v : World) × (step (thread i go) w ≡ some v))
goes_on w is ending z = elim (ending z) [
  | inl (i, pc, k, at, on, _) ↦ inr (step-goes w is z i pc at (told-not_gone k pc on) (inr (k, on)))
  | inr all ↦ elim (Bool-cases (all_gone w.pcs)) [
    | inl back ↦ inl back
    | inr left_over ↦
        let (i, pc, at, stays) = all_gone-not w.pcs left_over in
        let ne = is_gone-not pc stays in
        let there : i < length w.shared.queues =
          let a = get_elem?-lt w.pcs i pc at in let b = is.threads in omega arith in
        elim (all i there) [
          | inl back ↦ absurd (let same : pc ≡ gone = ground arith in ne same)
          | inr one ↦ inr (step-goes w is z i pc at ne (inl one))
        ]
  ]
]

-- Let n threads be started with the first task on thread k, which is one of them, and let any steps follow that bring
-- `task_count` to 0. From there the program comes to its end, whatever the threads do: a run takes as many steps as
-- it brings the number of steps left down, and where it stops all threads have returned or one of them can go on.
pub run-left :
    (n k : ℕ)
    → k < n
    → (w : World) → Reach (start n k) w
    → w.shared.task_count ≡ 0
    → (es : List Event) (v : World) → run es w ≡ some v
    → (length es + left v ≡ left w)
      × ((all_gone v.pcs ≡ true) ⊎ ((i : ℕ) × (u : World) × (step (thread i go) v ≡ some u)))
unfolding run
run-left n k h w r z [] v e =
    let (is, ending) = Reach-IsEnding n k h w r in
    let eq : w ≡ v = ground arith in
    (
      let a = ap left eq in omega arith,
      subst
          (λ (x : World).
            (all_gone x.pcs ≡ true) ⊎ ((i : ℕ) × (u : World) × (step (thread i go) x ≡ some u)))
          eq (goes_on w is ending z),
    )
run-left n k h w r z (a ∷ es) v e = elim (Option-cases (step a w)) [
  | inl none_there ↦ absurd (ground arith)
  | inr (u, took) ↦
      let (z', one) = step-left w (Reach-IsEnding n k h w r).0 z a u took in
      let (all, ends) = run-left n k h u (next a r took) z' es v (ground arith) in
      (omega arith, ends)
]
