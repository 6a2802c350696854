-- ===== src/Disk/Request/Owed.antt =====
-- In every interleaving of the tasks of a thread, its scheduler and `diskio_worker` (runtime/src/diskio.c), a
-- completion that is owed to a task is in one place, and the scheduler can resume what it finds.
use picasso_lang.Base.{
  ℕ, zero, suc, ◌≡◌, refl, sym, ap, ◌∙◌, inl, inr, true, false, none, some, List, [], ◌∷◌, ◌++◌,
  ◌==◌, if◌then◌else◌, Option-cases, arith, List-cases, ltb, replicate, get_elem?, set,
}
use mathlib.Core.Path.{subst}
use picasso_lang.Base.Int.{ℤ}
use picasso_lang.Base.Tasks.{count, count-append}
use picasso_lang.Disk.Request.{
  Io, Sqe, Pc, fresh, Shared, Choice, go, request, pause, finish, full, refuse, act, wake,
  remove_one, pick_sqe, complete_io, Task, World, Event, runs, schedule, complete, step, run_task,
  resume_task, complete_sqe, thread_of, blank_io, up_to, Reach, here, next, Accepts, Accepted,
}
use picasso_lang.Disk.Request.Counts.{
  listed, owed, awake, owed_at, awake_at, is_running, IsOwed, IsAccepted, pick_sqe-count, act-Acts,
  set-IsOwed, wake-owed, still_self, still_others,
}

choice_taken : (c : Choice) → Accepts (runs c) → IsAccepted c
choice_taken go ok = tt
choice_taken (request op io) ok = tt
choice_taken pause ok = tt
choice_taken finish ok = tt
choice_taken full ok = tt
choice_taken (refuse e) ok = ok

module _ (w v : World) (is : IsOwed w) where
  run_task-IsOwed :
      (i : ℕ) (c : Choice)
      → IsAccepted c
      → w.shared.running ≡ some i
      → run_task i c w ≡ some v
      → IsOwed v
  unfolding run_task
  run_task-IsOwed i c ok running e = elim (Option-cases (get_elem? w.tasks i)) [
    | inl n ↦ absurd (ground arith)
    | inr (t, at) ↦ elim (Option-cases (act i t.pc t.io c w.shared)) [
      | inl n ↦ absurd (ground arith)
      | inr ((pc', io', s'), a) ↦
          let acts = λ (j : ℕ). act-Acts i j pc' t.io io' w.shared s' is.none_queued t.pc c ok a in
          let eq : record { tasks = set w.tasks i (record { pc = pc'; io = io' }); shared = s' }
              ≡ v =
            ground arith in
          let alone = (acts i).3 in
          let mine : listed i w.shared ≡ owed t.pc = is.owes i ∙ ap owed_at at in
          subst IsOwed eq (
            set-IsOwed w.tasks i t (record { pc = pc'; io = io' }) w.shared s' at is
              (let b = (acts i).1 in omega arith) (λ j ne. (acts j).2 ne)
              (still_self i (awake pc') s'.running
                (alone ∙ ap (λ r. if awake pc' then r else none) running))
              (λ j ne.
                still_others i j (awake pc') s'.running
                  (alone ∙ ap (λ r. if awake pc' then r else none) running) ne
                ∙ ap (is_running j) (sym running))
              (acts i).0)
    ]
  ]

  resume_task-IsOwed :
      (i : ℕ) (rest : List ℕ)
      → w.shared.running ≡ none
      → w.shared.ready ≡ i ∷ rest
      → resume_task i rest w ≡ some v
      → IsOwed v
  unfolding resume_task
  resume_task-IsOwed i rest running ready e = elim (Option-cases (get_elem? w.tasks i)) [
    | inl n ↦ absurd (ground arith)
    | inr (t, at) ↦ elim (Option-cases (wake t.pc)) [
      | inl n ↦ absurd (ground arith)
      | inr (pc', a) ↦
          let mine : listed i w.shared ≡ owed t.pc = is.owes i ∙ ap owed_at at in
          let split = λ (j : ℕ). ap (count j) ready in
          let self : (i == i) ≡ true = ground arith in
          let (one, zero_left, up) = wake-owed t.pc pc' a (let q = split i in ground arith) in
          let s' : Shared = record w.shared {
            running = some i;
            ready = rest;
            wait_q = remove_one i w.shared.wait_q;
          } in
          let eq : record { tasks = set w.tasks i (record { pc = pc'; io = t.io }); shared = s' }
              ≡ v =
            ground arith in
          subst IsOwed eq (
            set-IsOwed w.tasks i t (record { pc = pc'; io = t.io }) w.shared s' at is
              (let q = split i in ground arith) (λ j ne. let q = split j in ground arith)
              (ground arith)
              (λ j ne. sym (still_others i j false none refl ne) ∙ ap (is_running j) (sym running))
              is.none_queued)
    ]
  ]

  complete_sqe-IsOwed :
      (res : ℤ) (entry : Sqe) (rest : List Sqe) (k : ℕ)
      → pick_sqe k w.shared.ring ≡ some (entry, rest)
      → complete_sqe res entry rest w ≡ some v
      → IsOwed v
  unfolding complete_sqe
  complete_sqe-IsOwed res entry rest k picked e =
      elim (Option-cases (get_elem? w.tasks entry.task)) [
        | inl n ↦ absurd (ground arith)
        | inr (t, at) ↦
            let i = entry.task in
            let s' : Shared = record w.shared { ring = rest; ready = w.shared.ready ++ (i ∷ []) } in
            let t' : Task = record { pc = t.pc; io = complete_io res t.io } in
            let eq : record { tasks = set w.tasks i t'; shared = s' } ≡ v = ground arith in
            let same : (j : ℕ) → listed j s' ≡ listed j w.shared = λ j.
              let q = pick_sqe-count j k w.shared.ring rest entry picked in
              let r = count-append j w.shared.ready (i ∷ []) in omega (arith, q, r) in
            subst IsOwed eq (
              set-IsOwed w.tasks i t t' w.shared s' at is (same i ∙ is.owes i ∙ ap owed_at at)
                (λ j ne. same j) (sym (ap awake_at at) ∙ is.alone i) (λ j ne. refl) is.none_queued)
      ]

  step-IsOwed : (e : Event) → Accepts e → step e w ≡ some v → IsOwed v
  unfolding step
  step-IsOwed (runs c) ok e = elim (Option-cases w.shared.running) [
    | inl n ↦ absurd (ground arith)
    | inr (i, r) ↦ run_task-IsOwed i c (choice_taken c ok) r (ground arith)
  ]
  step-IsOwed schedule ok e = elim (Option-cases w.shared.running) [
    | inr (i, r) ↦ absurd (ground arith)
    | inl n ↦ elim (List-cases w.shared.ready) [
      | inl q ↦ absurd (ground arith)
      | inr (i, rest, q) ↦ resume_task-IsOwed i rest n q (ground arith)
    ]
  ]
  step-IsOwed (complete k res) ok e = elim (Option-cases (pick_sqe k w.shared.ring)) [
    | inl n ↦ absurd (ground arith)
    | inr ((entry, rest), p) ↦ complete_sqe-IsOwed res entry rest k p (ground arith)
  ]

pub Reach-IsOwed : {w v : World} (r : Reach w v) → Accepted r → IsOwed w → IsOwed v
Reach-IsOwed here ok is = is
Reach-IsOwed (next e r q) ok is = step-IsOwed _ _ (Reach-IsOwed r ok.1 is) e ok.0 q

up_to-count : (n i : ℕ) → count i (up_to n) ≡ (if ltb i n then 1 else 0)
up_to-count zero i = ground arith
up_to-count (suc n) i = ground (arith, up_to-count n i)

replicate-get :
    (n i : ℕ) (t : Task) → get_elem? (replicate n t) i ≡ (if ltb i n then some t else none)
replicate-get zero i t = ground arith
replicate-get (suc n) zero t = ground arith
replicate-get (suc n) (suc i) t = ground (arith, replicate-get n i t)

pub thread_of-IsOwed : (n : ℕ) → IsOwed (thread_of n)
unfolding thread_of
thread_of-IsOwed n = record {
  owes = λ i.
      rw (replicate-get n i (record { pc = fresh; io = blank_io }), up_to-count n i) (ground arith);
  alone = λ i. rw (replicate-get n i (record { pc = fresh; io = blank_io })) (ground arith);
  none_queued = refl;
}

abbrev resumed : ℕ → List ℕ → Pc → Io → World → World
resumed i rest pc io w = record {
  tasks = set w.tasks i (record { pc = pc; io = io });
  shared = record w.shared {
    running = some i;
    ready = rest;
    wait_q = remove_one i w.shared.wait_q;
  };
}
