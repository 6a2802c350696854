-- ===== src/Scheduler/Steps.antt =====
-- What the steps of runtime/src/scheduler.c keep.
use picasso_lang.Base.{
  ℕ, suc, ◌≡◌, ◌≢◌, refl, sym, ap, ◌∙◌, inl, inr, ◌+◌, ◌-◌, ◌≤◌, ◌<◌, true, Option, none, some,
  List, [], ◌∷◌, ◌++◌, ◌==◌, if◌then◌else◌, Bool-cases, arith, length, length-set, get_elem?, set,
}
use picasso_lang.Scheduler.{
  Stage, created, queued, running, ended, counted_off, Pc, waiting, runs, spawns, finished,
  destroys, tells, Shared, queue_at, push, set_stage, create,
}
use picasso_lang.Scheduler.Places.{
  stage_no, both, at_pc, count_queue, in_queues, StageIs, set_stage-queues, set_stage-shift,
  push-shift, push_null-shift, pop-shift, create-is_at, get_elem?-append,
}
use picasso_lang.Scheduler.Counts.{
  live, set_stage-total, create-total, stage-total, Scheds, set_stage-Scheds, pop-nulls,
}
use picasso_lang.Scheduler.Sound.{stopping, IsSound, IsKept, restage, push_task, push-length}

pub restage-IsKept :
    (pc pc' : Pc) (u : ℕ) (old new : Stage) (s : Shared)
    → StageIs u old s
    → live old ≡ live new
    → IsSound s
    → ((σ t : ℕ)
        → σ ≢ 3
        → σ ≢ 6
        → at_pc σ t pc' + both σ (stage_no old) t u ≡ at_pc σ t pc + both σ (stage_no new) t u)
    → (stopping pc' ≡ true → s.task_count ≡ 0)
    → IsKept pc pc' s (set_stage u new s)
restage-IsKept pc pc' u old new s own same is moves stop =
    let (a, b) = set_stage-queues u new s in
    record {
      balance = λ σ t ne3 ne6.
          let c = ap (in_queues σ t) a in
          omega (arith, set_stage-shift σ t u old new s own, moves σ t ne3 ne6, c);
      sound = restage u old new s own same is;
      threads = ap (λ (qs : List (List (Option ℕ))). length qs) a;
      still_zero = λ z. b ∙ z;
      stops = λ h. b ∙ stop h;
    }

-- A task goes from a thread to a queue.
pub queue-IsKept :
    (pc pc' : Pc) (k u : ℕ) (old : Stage) (s : Shared)
    → StageIs u old s
    → live old ≡ 1
    → k < length s.queues
    → IsSound s
    → ((σ t : ℕ) → σ ≢ 3 → at_pc σ t pc' + both σ (stage_no old) t u ≡ at_pc σ t pc)
    → (stopping pc' ≡ true → s.task_count ≡ 0)
    → IsKept pc pc' s (set_stage u queued (push k (some u) s))
unfolding push
queue-IsKept pc pc' k u old s own one h is moves stop =
    let s1 = push k (some u) s in
    let (a, b) = set_stage-queues u queued s1 in
    record {
      balance = λ σ t ne3 ne6.
          let c = ap (in_queues σ t) a in
          omega (
            arith,
            set_stage-shift σ t u old queued s1 own,
            push-shift σ t k u s h,
            moves σ t ne3,
            c,
          );
      sound = restage u old queued s1 own one (push_task k u s h is);
      threads = ap (λ (qs : List (List (Option ℕ))). length qs) a ∙ push-length k (some u) s;
      still_zero = λ z. b ∙ z;
      stops = λ e. b ∙ stop e;
    }

-- A thread goes on with nothing else changed.
pub goes_on-IsKept :
    (pc pc' : Pc) (s : Shared)
    → IsSound s
    → ((σ t : ℕ) → at_pc σ t pc' ≡ at_pc σ t pc)
    → (stopping pc' ≡ true → s.task_count ≡ 0)
    → IsKept pc pc' s s
goes_on-IsKept pc pc' s is same stop = record {
  balance = λ σ t ne3 ne6. omega (arith, same σ t);
  sound = is;
  threads = refl;
  still_zero = λ z. z;
  stops = stop;
}

-- The head of the queue of a thread is taken.
pub pop-IsKept :
    (pc' : Pc) (i : ℕ) (o : Option ℕ) (rest : List (Option ℕ)) (s : Shared)
    → i < length s.queues
    → queue_at s.queues i ≡ o ∷ rest
    → IsSound s
    → ((σ t : ℕ) → at_pc σ t pc' ≡ (if σ == 1 then count_queue t (o ∷ []) else 0))
    → (stopping pc' ≡ true → s.task_count ≡ 0)
    → IsKept waiting pc' s (record s { queues = set s.queues i rest })
pop-IsKept pc' i o rest s h e is same stop = record {
  balance = λ σ t ne3 ne6. omega (arith, pop-shift σ t i o rest s.queues h e, same σ t);
  sound = record {
    counts = is.counts;
    scheds = λ t task at. rw (length-set s.queues i rest) (is.scheds t task at);
    quiet = λ n. is.quiet (let a = pop-nulls i o rest s.queues h e in omega arith);
  };
  threads = length-set s.queues i rest;
  still_zero = λ z. z;
  stops = stop;
}

create-Scheds : (k : ℕ) (s : Shared) → k < length s.queues → Scheds s → Scheds (create k s)
unfolding create
create-Scheds k s h is t task e =
    let a = get_elem?-append s.tasks (record { stage = created; sched = k }) t in
    elim (Bool-cases (t == length s.tasks)) [
      | inl new ↦
          let q : some (record { stage = created; sched = k }) ≡ some task =
            sym (
              ap
                (λ b.
                  if b then some (record { stage = created; sched = k }) else get_elem? s.tasks t)
                new)
            ∙ sym a
            ∙ e in
          let r : k ≡ task.sched = ground arith in rw (sym r) h
      | inr old ↦ is t task (
          sym (
            ap
              (λ b. if b then some (record { stage = created; sched = k }) else get_elem? s.tasks t)
              old)
          ∙ sym a
          ∙ e)
    ]

pub create-IsKept :
    (t k : ℕ) (s : Shared)
    → StageIs t running s
    → k < length s.queues
    → IsSound s
    → IsKept (runs t) (spawns t (length s.tasks)) s (create k s)
unfolding create
create-IsKept t k s own h is =
    let busy : 1 ≤ s.task_count = omega (arith, stage-total t running s own, is.counts) in
    record {
      balance = λ σ u ne3 ne6. omega (arith, create-is_at σ u k s);
      sound = record {
        counts = omega (arith, create-total k s, is.counts);
        scheds = create-Scheds k s h is.scheds;
        quiet = λ n. absurd (let z = is.quiet n in omega arith);
      };
      threads = refl;
      still_zero = λ z. absurd (omega arith);
      stops = λ e. absurd (ground arith);
    }

-- The count of a task that has finished.
pub count_off-IsKept :
    (t : ℕ) (s : Shared)
    → StageIs t ended s
    → IsSound s
    → IsKept
        (finished t)
        (destroys t (s.task_count - 1 == 0))
        s
        (set_stage t counted_off (record s { task_count = s.task_count - 1 }))
count_off-IsKept t s own is =
    let s1 : Shared = record s { task_count = s.task_count - 1 } in
    let (a, b) = set_stage-queues t counted_off s1 in
    record {
      balance = λ σ u ne3 ne6.
          let c = ap (in_queues σ u) a in
          omega (arith, set_stage-shift σ u t ended counted_off s1 own, c);
      sound = record {
        counts = omega (arith, set_stage-total t ended counted_off s1 own, is.counts, b);
        scheds = set_stage-Scheds t counted_off s1 is.scheds;
        quiet = λ n. let z = is.quiet (rw (sym a) n) in omega arith;
      };
      threads = ap (λ (qs : List (List (Option ℕ))). length qs) a;
      still_zero = λ z. omega arith;
      stops = λ e. let z : s.task_count - 1 ≡ 0 = ground arith in b ∙ z;
    }

pub tells-IsKept :
    (k : ℕ) (s : Shared)
    → k < length s.queues
    → IsSound s
    → s.task_count ≡ 0
    → IsKept (tells k) (tells (suc k)) s (push k none s)
unfolding push
tells-IsKept k s h is z = record {
  balance = λ σ t ne3 ne6. omega (arith, push_null-shift σ t k s h);
  sound = record {
    counts = is.counts;
    scheds = λ t task e.
        rw (length-set s.queues k (queue_at s.queues k ++ (none ∷ []))) (is.scheds t task e);
    quiet = λ n. z;
  };
  threads = push-length k none s;
  still_zero = λ y. y;
  stops = λ e. z;
}
