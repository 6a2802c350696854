-- ===== src/Scheduler/Placed.antt =====
-- Where the threads of runtime/src/scheduler.c are, and that a step of a thread keeps it.
use mathlib.Core.Path.{subst}
use picasso_lang.Base.{
  ℕ, zero, suc, ◌≡◌, ◌≢◌, refl, sym, ap, ◌∙◌, inl, inr, ◌+◌, ◌≤◌, ◌<◌, true, some, Option-cases,
  arith, length, length-set, get_elem?, set,
}
use picasso_lang.Base.Tasks.{sum, sum-set, sum-le, get_elem?-set_cases, get_elem?-lt}
use picasso_lang.Scheduler.{
  Stage, created, queued, running, asleep, ended, counted_off, destroyed, Pc, waiting, popped, runs,
  spawns, finished, destroys, delay, second_look, tells, gone, Shared, Choice, act, World,
  thread_step,
}
use picasso_lang.Scheduler.Places.{stage_no, is_at, at_pc, in_queues, StageIs}
use picasso_lang.Scheduler.Sound.{stopping, Own, IsSound, IsKept}
use picasso_lang.Scheduler.Kept.{act-IsKept}

-- A task is on a queue or with a thread as its stage says; stages 3 and 6, asleep and destroyed, are nowhere.
pub record IsPlaced (w : World) : Type 0 where
  pub places :
      (σ t : ℕ)
      → σ ≢ 3
      → σ ≢ 6
      → sum (at_pc σ t) w.pcs + in_queues σ t w.shared.queues ≡ is_at σ (get_elem? w.shared.tasks t)
  pub sound : IsSound w.shared
  pub threads : length w.pcs ≡ length w.shared.queues
  pub quiet :
      (i : ℕ) (pc : Pc) → get_elem? w.pcs i ≡ some pc → stopping pc ≡ true → w.shared.task_count ≡ 0

stage_of : ℕ → Stage
stage_of zero = created
stage_of (suc zero) = queued
stage_of (suc (suc zero)) = running
stage_of (suc (suc (suc zero))) = asleep
stage_of (suc (suc (suc (suc zero)))) = ended
stage_of (suc (suc (suc (suc (suc zero))))) = counted_off
stage_of (suc (suc (suc (suc (suc (suc n)))))) = destroyed

stage_of-stage_no : (stage : Stage) → stage_of (stage_no stage) ≡ stage
unfolding stage_of
stage_of-stage_no created = refl
stage_of-stage_no queued = refl
stage_of-stage_no running = refl
stage_of-stage_no asleep = refl
stage_of-stage_no ended = refl
stage_of-stage_no counted_off = refl
stage_of-stage_no destroyed = refl

pub is_at-StageIs :
    (t : ℕ) (stage : Stage) (s : Shared)
    → 1 ≤ is_at (stage_no stage) (get_elem? s.tasks t)
    → StageIs t stage s
is_at-StageIs t stage s h = elim (Option-cases (get_elem? s.tasks t)) [
  | inl n ↦ absurd (let a = ap (is_at (stage_no stage)) n in omega arith)
  | inr (task, e) ↦
      let a = ap (is_at (stage_no stage)) e in
      let same : stage_no task.stage ≡ stage_no stage = ground arith in
      (task, e, sym (stage_of-stage_no task.stage) ∙ ap stage_of same ∙ stage_of-stage_no stage)
]

module _ (w : World) (is : IsPlaced w) (i : ℕ) where
  -- What a thread has is at the stage of its point.
  has :
      (pc : Pc) (stage : Stage) (t : ℕ)
      → get_elem? w.pcs i ≡ some pc
      → stage_no stage ≢ 3
      → stage_no stage ≢ 6
      → 1 ≤ at_pc (stage_no stage) t pc
      → StageIs t stage w.shared
  has pc stage t e ne3 ne6 one =
      let a = sum-le (at_pc (stage_no stage) t) w.pcs i pc e in
      let b = is.places (stage_no stage) t ne3 ne6 in is_at-StageIs t stage w.shared (omega arith)

  pub owns : (pc : Pc) → get_elem? w.pcs i ≡ some pc → Own pc w.shared
  owns waiting e = omega arith
  owns (popped t) e = has (popped t) queued t e (omega arith) (omega arith) (ground arith)
  owns (runs t) e = has (runs t) running t e (omega arith) (omega arith) (ground arith)
  owns (spawns t n) e = (
    has (spawns t n) running t e (omega arith) (omega arith) (ground arith),
    has (spawns t n) created n e (omega arith) (omega arith) (ground arith),
  )
  owns (finished t) e = has (finished t) ended t e (omega arith) (omega arith) (ground arith)
  owns (destroys t last) e =
      has (destroys t last) counted_off t e (omega arith) (omega arith) (ground arith)
  owns delay e = omega arith
  owns second_look e = omega arith
  owns (tells k) e = omega arith
  owns gone e = omega arith

  moved :
      (pc pc' : Pc) (s' : Shared)
      → get_elem? w.pcs i ≡ some pc
      → IsKept pc pc' w.shared s'
      → IsPlaced (record { pcs = set w.pcs i pc'; shared = s' })
  moved pc pc' s' e kept = record {
    places = λ σ t ne3 ne6.
        let (a, b) = sum-set (at_pc σ t) waiting refl w.pcs i pc pc' e in
        omega (arith, a, b, is.places σ t ne3 ne6, kept.balance σ t ne3 ne6);
    sound = kept.sound;
    threads = length-set w.pcs i pc' ∙ is.threads ∙ sym kept.threads;
    quiet = λ j q at stop. elim (get_elem?-set_cases w.pcs i j pc' q at) [
      | inl (same, new) ↦ kept.stops (ap stopping (sym new) ∙ stop)
      | inr (ne, was) ↦ kept.still_zero (is.quiet j q was stop)
    ];
  }

pub thread_step_cases :
    (i : ℕ) (c : Choice) (w v : World)
    → thread_step i c w ≡ some v
    → (pc : Pc) × (pc' : Pc) × (s' : Shared) × (get_elem? w.pcs i ≡ some pc)
      × (act i pc c w.shared ≡ some (pc', s'))
      × (record { pcs = set w.pcs i pc'; shared = s' } ≡ v)
unfolding thread_step
thread_step_cases i c w v e = elim (Option-cases (get_elem? w.pcs i)) [
  | inl n ↦ absurd (ground arith)
  | inr (pc, at) ↦ elim (Option-cases (act i pc c w.shared)) [
    | inl n ↦ absurd (ground arith)
    | inr ((pc', s'), a) ↦
        let eq : record { pcs = set w.pcs i pc'; shared = s' } ≡ v = ground arith in
        (pc, pc', s', at, a, eq)
  ]
]

pub thread_step-IsKept :
    (i : ℕ) (c : Choice) (pc pc' : Pc) (w : World) (s' : Shared)
    → IsPlaced w
    → get_elem? w.pcs i ≡ some pc
    → act i pc c w.shared ≡ some (pc', s')
    → (i < length w.shared.queues) × IsKept pc pc' w.shared s'
thread_step-IsKept i c pc pc' w s' is at a =
    let there : i < length w.shared.queues =
      let b = get_elem?-lt w.pcs i pc at in let c = is.threads in omega arith in
    (
      there,
      act-IsKept i w.shared there is.sound pc' s' pc c (owns w is i pc at) (is.quiet i pc at) a,
    )

pub thread_step-IsPlaced :
    (i : ℕ) (c : Choice) (w v : World) → IsPlaced w → thread_step i c w ≡ some v → IsPlaced v
thread_step-IsPlaced i c w v is e =
    let (pc, pc', s', at, a, eq) = thread_step_cases i c w v e in
    subst IsPlaced eq (moved w is i pc pc' s' at (thread_step-IsKept i c pc pc' w s' is at a).1)
