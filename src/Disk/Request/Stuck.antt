-- ===== src/Disk/Request/Stuck.antt =====
-- A task of runtime/src/diskio.c that yields because there is no submission queue entry, with nobody to resume it.
use mathlib.Core.Path.{subst}
use picasso_lang.Base.{
  ℕ, ◌≡◌, ◌≢◌, refl, sym, ap, ◌∙◌, ◌⊎◌, inl, inr, ◌+◌, Bool, false, Option, none, some, List, [],
  ◌∷◌, ◌++◌, ◌==◌, Option-cases, List-cases, arith, get_elem?, set, get_elem?-set_self,
  get_elem?-set_ne,
}
use picasso_lang.Base.Int.{ℤ}
use picasso_lang.Base.Tasks.{count, count-append, get_elem?-lt}
use picasso_lang.Disk.Request.{
  Op, stdin_read, stdout_write, file_read, file_write, Io, Sqe, Pc, fresh, idle, paused, finished,
  get_sqe, no_sqe, push, submit, yielding, asleep, ending, Shared, Choice, go, request, pause,
  finish, full, refuse, act, act_idle, act_submit, act_get_sqe, prepare, wake, remove_one, pick_sqe,
  complete_io, Task, World, Event, runs, schedule, complete, step, run_task, resume_task,
  complete_sqe, Reach, here, next,
}
use picasso_lang.Disk.Request.Counts.{count_ring, pick_sqe-count}

-- How often a task is on the ready queue, among the submitted entries, or among those that are not submitted yet.
abbrev pub mentions : ℕ → Shared → ℕ
mentions i s = count i s.ready + count_ring i s.ring + count_ring i s.queued

abbrev pub pc_at : Option Task → Option Pc
pc_at none = none
pc_at (some t) = some t.pc

abbrev pub runs_now : ℕ → Option ℕ → Bool
runs_now i none = false
runs_now i (some j) = i == j

-- Task i waits for an entry, does not run, and nothing mentions it.
pub record IsForsaken (i : ℕ) (op : Op) (w : World) : Type 0 where
  pub waits : pc_at (get_elem? w.tasks i) ≡ some (no_sqe op)
  pub unmentioned : mentions i w.shared ≡ 0
  pub stands : runs_now i w.shared.running ≡ false

count_ring-append :
    (i : ℕ) (es fs : List Sqe) → count_ring i (es ++ fs) ≡ count_ring i es + count_ring i fs
count_ring-append i [] fs = omega arith
count_ring-append i (e ∷ es) fs = omega (arith, count_ring-append i es fs)

-- What an action of task j leaves for another task.
abbrev Leaves : ℕ → Shared → Shared → Type 0
Leaves i s s' = (mentions i s' ≡ mentions i s) × ((s'.running ≡ s.running) ⊎ (s'.running ≡ none))

module _ (i j : ℕ) (ne : i ≢ j) (pc' : Pc) (io io' : Io) (s s' : Shared) where
  act_idle-Leaves : (c : Choice) → act_idle j io c s ≡ some (pc', io', s') → Leaves i s s'
  unfolding act_idle
  act_idle-Leaves go e = absurd (ground arith)
  act_idle-Leaves (request op io'') e = ground arith
  act_idle-Leaves pause e = ground (arith, count-append i s.ready (j ∷ []))
  act_idle-Leaves finish e = ground arith
  act_idle-Leaves full e = absurd (ground arith)
  act_idle-Leaves (refuse n) e = absurd (ground arith)

  act_get_sqe-Leaves :
      (op : Op) (c : Choice) → act_get_sqe op io c s ≡ some (pc', io', s') → Leaves i s s'
  unfolding act_get_sqe
  act_get_sqe-Leaves op go e = ground arith
  act_get_sqe-Leaves op (request op' io'') e = absurd (ground arith)
  act_get_sqe-Leaves op pause e = absurd (ground arith)
  act_get_sqe-Leaves op finish e = absurd (ground arith)
  act_get_sqe-Leaves op full e = ground arith
  act_get_sqe-Leaves op (refuse n) e = absurd (ground arith)

  prepare-task : (op : Op) → (prepare op j io).task ≡ j
  unfolding prepare
  prepare-task stdin_read = refl
  prepare-task stdout_write = refl
  prepare-task file_read = refl
  prepare-task file_write = refl

  act_submit-Leaves :
      (op : Op) (c : Choice) → act_submit j op io c s ≡ some (pc', io', s') → Leaves i s s'
  unfolding act_submit
  act_submit-Leaves op go e = ground (arith, prepare-task op, count_ring-append i s.queued s.ring)
  act_submit-Leaves op (refuse n) e = ground (arith, prepare-task op)
  act_submit-Leaves op (request op' io'') e = absurd (ground arith)
  act_submit-Leaves op pause e = absurd (ground arith)
  act_submit-Leaves op finish e = absurd (ground arith)
  act_submit-Leaves op full e = absurd (ground arith)

  act-Leaves : (pc : Pc) (c : Choice) → act j pc io c s ≡ some (pc', io', s') → Leaves i s s'
  unfolding act
  act-Leaves idle c e = act_idle-Leaves c e
  act-Leaves (get_sqe op) c e = act_get_sqe-Leaves op c e
  act-Leaves (submit op) c e = act_submit-Leaves op c e
  act-Leaves (push op) c e = ground arith
  act-Leaves (yielding op accepted) c e = ground arith
  act-Leaves (ending op) c e = ground arith
  act-Leaves fresh c e = absurd (ground arith)
  act-Leaves paused c e = absurd (ground arith)
  act-Leaves finished c e = absurd (ground arith)
  act-Leaves (no_sqe op) c e = absurd (ground arith)
  act-Leaves (asleep op accepted) c e = absurd (ground arith)

module _ (i : ℕ) (op : Op) (w v : World) (is : IsForsaken i op w) where
  -- Another task changes.
  set-IsForsaken :
      (j : ℕ) (t' : Task) (s' : Shared)
      → i ≢ j
      → mentions i s' ≡ 0
      → runs_now i s'.running ≡ false
      → IsForsaken i op (record { tasks = set w.tasks j t'; shared = s' })
  set-IsForsaken j t' s' ne none_there out = record {
    waits = rw (get_elem?-set_ne w.tasks t' (λ q. ne (sym q))) is.waits;
    unmentioned = none_there;
    stands = out;
  }

  run_task-IsForsaken :
      (j : ℕ) (c : Choice) → w.shared.running ≡ some j → run_task j c w ≡ some v → IsForsaken i op v
  unfolding run_task
  run_task-IsForsaken j c running e = elim (Option-cases (get_elem? w.tasks j)) [
    | inl n ↦ absurd (ground arith)
    | inr (t, at) ↦ elim (Option-cases (act j t.pc t.io c w.shared)) [
      | inl n ↦ absurd (ground arith)
      | inr ((pc', io', s'), a) ↦
          let ne : i ≢ j = λ q. (let st = is.stands in ground arith) in
          let (same, r) = act-Leaves i j ne pc' t.io io' w.shared s' t.pc c a in
          let eq : record { tasks = set w.tasks j (record { pc = pc'; io = io' }); shared = s' }
              ≡ v =
            ground arith in
          subst (IsForsaken i op) eq (
            set-IsForsaken j (record { pc = pc'; io = io' }) s' ne (same ∙ is.unmentioned)
              (elim r [ inl q ↦ ap (runs_now i) q ∙ is.stands | inr q ↦ ap (runs_now i) q ]))
    ]
  ]

  resume_task-IsForsaken :
      (j : ℕ) (rest : List ℕ)
      → w.shared.ready ≡ j ∷ rest
      → resume_task j rest w ≡ some v
      → IsForsaken i op v
  unfolding resume_task
  resume_task-IsForsaken j rest ready e = elim (Option-cases (get_elem? w.tasks j)) [
    | inl n ↦ absurd (ground arith)
    | inr (t, at) ↦ elim (Option-cases (wake t.pc)) [
      | inl n ↦ absurd (ground arith)
      | inr (pc', a) ↦
          let split = ap (count i) ready in
          let none_there = is.unmentioned in
          let ne : i ≢ j = λ q. (ground arith) in
          let s' : Shared = record w.shared {
            running = some j;
            ready = rest;
            wait_q = remove_one j w.shared.wait_q;
          } in
          let eq : record { tasks = set w.tasks j (record { pc = pc'; io = t.io }); shared = s' }
              ≡ v =
            ground arith in
          subst (IsForsaken i op) eq
            (set-IsForsaken j (record { pc = pc'; io = t.io }) s' ne (ground arith) (ground arith))
    ]
  ]

  complete_sqe-IsForsaken :
      (res : ℤ) (entry : Sqe) (rest : List Sqe) (k : ℕ)
      → pick_sqe k w.shared.ring ≡ some (entry, rest)
      → complete_sqe res entry rest w ≡ some v
      → IsForsaken i op v
  unfolding complete_sqe
  complete_sqe-IsForsaken res entry rest k picked e =
      elim (Option-cases (get_elem? w.tasks entry.task)) [
        | inl n ↦ absurd (ground arith)
        | inr (t, at) ↦
            let j = entry.task in
            let s' : Shared = record w.shared { ring = rest; ready = w.shared.ready ++ (j ∷ []) } in
            let t' : Task = record { pc = t.pc; io = complete_io res t.io } in
            let eq : record { tasks = set w.tasks j t'; shared = s' } ≡ v = ground arith in
            let q = pick_sqe-count i k w.shared.ring rest entry picked in
            let r = count-append i w.shared.ready (j ∷ []) in
            let none_there = is.unmentioned in
            let ne : i ≢ j = λ x. (ground arith) in
            subst (IsForsaken i op) eq (set-IsForsaken j t' s' ne (ground arith) is.stands)
      ]

  step-IsForsaken : (e : Event) → step e w ≡ some v → IsForsaken i op v
  unfolding step
  step-IsForsaken (runs c) e = elim (Option-cases w.shared.running) [
    | inl n ↦ absurd (ground arith)
    | inr (j, r) ↦ run_task-IsForsaken j c r (ground arith)
  ]
  step-IsForsaken schedule e = elim (Option-cases w.shared.running) [
    | inr (j, r) ↦ absurd (ground arith)
    | inl n ↦ elim (List-cases w.shared.ready) [
      | inl q ↦ absurd (ground arith)
      | inr (j, rest, q) ↦ resume_task-IsForsaken j rest q (ground arith)
    ]
  ]
  step-IsForsaken (complete k res) e = elim (Option-cases (pick_sqe k w.shared.ring)) [
    | inl n ↦ absurd (ground arith)
    | inr ((entry, rest), p) ↦ complete_sqe-IsForsaken res entry rest k p (ground arith)
  ]

Reach-IsForsaken :
    (i : ℕ) (op : Op) {u v : World} → Reach u v → IsForsaken i op u → IsForsaken i op v
Reach-IsForsaken i op here is = is
Reach-IsForsaken i op (next e r q) is = step-IsForsaken i op _ _ (Reach-IsForsaken i op r is) e q

-- Let a task run that looks for a submission queue entry in one of the four functions, be on no ready queue, and have
-- no entry, submitted or not. If there is no entry to be had, the task yields, and afterwards it waits for ever,
-- whatever the other tasks, the scheduler and the worker do and whether submissions fail: no queue and no entry mentions
-- it, it never runs, and its function never returns.
pub request_sleeps_for_ever :
    (i : ℕ) (op : Op) (io : Io) (u : World) {v w : World}
    → u.shared.running ≡ some i
    → get_elem? u.tasks i ≡ some (record { pc = get_sqe op; io = io })
    → mentions i u.shared ≡ 0
    → step (runs full) u ≡ some v
    → Reach v w
    → IsForsaken i op w
unfolding step run_task act act_get_sqe
request_sleeps_for_ever i op io u {v = v} running at none_there e r =
    let after : World = record {
      tasks = set u.tasks i (record { pc = no_sqe op; io = io });
      shared = record u.shared { running = none };
    } in
    let eq : after ≡ v = ground arith in
    Reach-IsForsaken i op r (
      subst (IsForsaken i op) eq (record {
        waits =
            rw
              (get_elem?-set_self u.tasks i (record { pc = no_sqe op; io = io })
                (get_elem?-lt u.tasks i _ at))
              refl;
        unmentioned = none_there;
        stands = refl;
      }))
