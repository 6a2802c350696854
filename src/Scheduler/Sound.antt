-- ===== src/Scheduler/Sound.antt =====
-- What the actions of a thread of runtime/src/scheduler.c have to keep: the stages of the tasks, the queues and the count.
use picasso_lang.Base.{
  ℕ, ◌≡◌, ◌≢◌, sym, ◌∙◌, ◌+◌, ◌≤◌, ◌<◌, Bool, true, false, Option, some, [], ◌∷◌, ◌++◌, arith,
  length, length-set, get_elem?,
}
use picasso_lang.Scheduler.{
  Stage, created, queued, running, ended, counted_off, Pc, waiting, popped, runs, spawns, finished,
  destroys, delay, second_look, tells, gone, Shared, queue_at, push, set_stage,
}
use picasso_lang.Scheduler.Places.{is_at, at_pc, in_queues, StageIs, set_stage-queues}
use picasso_lang.Scheduler.Counts.{
  live, total, set_stage-total, Scheds, set_stage-Scheds, nulls, push-nulls,
}

-- The points behind a count of 0.
abbrev pub stopping : Pc → Bool
stopping waiting = false
stopping (popped t) = false
stopping (runs t) = false
stopping (spawns t n) = false
stopping (finished t) = false
stopping (destroys t last) = last
stopping delay = true
stopping second_look = true
stopping (tells k) = true
stopping gone = true

-- The stages of the tasks that a thread has.
abbrev pub Own : Pc → Shared → Type 0
Own waiting s = 0 ≤ 0
Own (popped t) s = StageIs t queued s
Own (runs t) s = StageIs t running s
Own (spawns t n) s = StageIs t running s × StageIs n created s
Own (finished t) s = StageIs t ended s
Own (destroys t last) s = StageIs t counted_off s
Own delay s = 0 ≤ 0
Own second_look s = 0 ≤ 0
Own (tells k) s = 0 ≤ 0
Own gone s = 0 ≤ 0

-- A shared state: the count is right, and a NULL is on a queue only where it is 0.
pub record IsSound (s : Shared) : Type 0 where
  pub counts : total s ≡ s.task_count
  pub scheds : Scheds s
  pub quiet : 0 < nulls s.queues → s.task_count ≡ 0

-- The places and the stages change together.
abbrev pub Balance : Pc → Pc → Shared → Shared → Type 0
Balance pc pc' s s' =
    (σ t : ℕ)
    → σ ≢ 3
    → σ ≢ 6
    → at_pc σ t pc' + in_queues σ t s'.queues + is_at σ (get_elem? s.tasks t)
      ≡ at_pc σ t pc + in_queues σ t s.queues + is_at σ (get_elem? s'.tasks t)

pub record IsKept (pc pc' : Pc) (s s' : Shared) : Type 0 where
  pub balance : Balance pc pc' s s'
  pub sound : IsSound s'
  pub threads : length s'.queues ≡ length s.queues
  pub still_zero : s.task_count ≡ 0 → s'.task_count ≡ 0
  pub stops : stopping pc' ≡ true → s'.task_count ≡ 0

-- A change of stage between two stages that count.
pub restage :
    (u : ℕ) (old new : Stage) (s : Shared)
    → StageIs u old s
    → live old ≡ live new
    → IsSound s
    → IsSound (set_stage u new s)
restage u old new s own same is =
    let (a, b) = set_stage-queues u new s in
    record {
      counts = omega (arith, set_stage-total u old new s own, is.counts, b, same);
      scheds = set_stage-Scheds u new s is.scheds;
      quiet = λ h. b ∙ is.quiet (rw (sym a) h);
    }

pub push_task :
    (k u : ℕ) (s : Shared) → k < length s.queues → IsSound s → IsSound (push k (some u) s)
unfolding push
push_task k u s h is = record {
  counts = is.counts;
  scheds = λ t task e.
      rw (length-set s.queues k (queue_at s.queues k ++ (some u ∷ []))) (is.scheds t task e);
  quiet = λ n. is.quiet (let a = push-nulls k (some u) s h in omega arith);
}

pub push-length : (k : ℕ) (o : Option ℕ) (s : Shared) → length (push k o s).queues ≡ length s.queues
unfolding push
push-length k o s = length-set s.queues k _

-- A step that changes the stage of one task only.
