-- ===== src/Disk/Request/Counts.antt =====
-- What the requests of runtime/src/diskio.c owe to a task, and how the actions of a task change it.
use picasso_lang.Base.{
  ℕ, zero, suc, ◌≡◌, ◌≢◌, refl, sym, ◌∙◌, inl, inr, ◌+◌, ◌≤◌, Bool, true, false, Option, none, some,
  List, [], ◌∷◌, ◌==◌, if◌then◌else◌, Option-cases, arith, ℕ_discrete, get_elem?, set,
  get_elem?-set_self, get_elem?-set_ne,
}
use picasso_lang.Base.Tasks.{count, count-append, get_elem?-lt}
use picasso_lang.Disk.Request.{
  Op, stdin_read, stdout_write, file_read, file_write, Io, Sqe, Pc, fresh, idle, paused, finished,
  get_sqe, no_sqe, push, submit, yielding, asleep, ending, Shared, Choice, go, request, pause,
  finish, full, refuse, act, act_idle, act_submit, act_get_sqe, prepare, wake, pick_sqe, Task,
  World,
}

abbrev pub count_ring : ℕ → List Sqe → ℕ
count_ring i [] = 0
count_ring i (e ∷ es) = (if i == e.task then 1 else 0) + count_ring i es

-- How often a task is on the ready queue or among the entries that are to complete.
abbrev pub listed : ℕ → Shared → ℕ
listed i s = count i s.ready + count_ring i s.ring

-- How often that should be.
abbrev pub owed : Pc → ℕ
owed fresh = 1
owed paused = 1
owed (yielding op accepted) = if accepted then 1 else 0
owed (asleep op accepted) = if accepted then 1 else 0
owed pc = 0

abbrev pub awake : Pc → Bool
awake fresh = false
awake paused = false
awake finished = false
awake (no_sqe op) = false
awake (asleep op accepted) = false
awake pc = true

abbrev pub owed_at : Option Task → ℕ
owed_at none = 0
owed_at (some t) = owed t.pc

abbrev pub awake_at : Option Task → Bool
awake_at none = false
awake_at (some t) = awake t.pc

abbrev pub is_running : ℕ → Option ℕ → Bool
is_running i none = false
is_running i (some j) = i == j

pub record IsOwed (w : World) : Type 0 where
  pub owes : (i : ℕ) → listed i w.shared ≡ owed_at (get_elem? w.tasks i)
  pub alone : (i : ℕ) → awake_at (get_elem? w.tasks i) ≡ is_running i w.shared.running
  pub none_queued : w.shared.queued ≡ []

pub pick_sqe-count :
    (i k : ℕ) (es rest : List Sqe) (e : Sqe)
    → pick_sqe k es ≡ some (e, rest)
    → count_ring i es ≡ (if i == e.task then 1 else 0) + count_ring i rest
unfolding pick_sqe
pick_sqe-count i k [] rest e p = absurd (ground arith)
pick_sqe-count i zero (x ∷ xs) rest e p = ground arith
pick_sqe-count i (suc k) (x ∷ xs) rest e p = elim (Option-cases (pick_sqe k xs)) [
  | inl n ↦ absurd (ground arith)
  | inr ((y, more), q) ↦ ground (arith, pick_sqe-count i k xs more y q)
]

-- An action of the running task changes what is owed to that task only, and how often it is listed accordingly;
-- it goes on to run or no task runs.
abbrev Acts : ℕ → ℕ → Pc → Pc → Shared → Shared → Type 0
Acts i j pc pc' s s' =
    (s'.queued ≡ [])
    × (listed i s' + owed pc ≡ listed i s + owed pc')
    × (j ≢ i → listed j s' ≡ listed j s)
    × (s'.running ≡ (if awake pc' then s.running else none))

-- Whether the choice is another than the failure of a submission.
abbrev pub IsAccepted : Choice → Type 0
IsAccepted (refuse e) = ⊥
IsAccepted c = Unit

module _ (i j : ℕ) (pc' : Pc) (io io' : Io) (s s' : Shared) (none_queued : s.queued ≡ []) where
  act_idle-Acts : (c : Choice) → act_idle i io c s ≡ some (pc', io', s') → Acts i j idle pc' s s'
  unfolding act_idle
  act_idle-Acts go e = absurd (ground arith)
  act_idle-Acts (request op io'') e = ground arith
  act_idle-Acts pause e =
      ground (arith, count-append i s.ready (i ∷ []), count-append j s.ready (i ∷ []))
  act_idle-Acts finish e = ground arith
  act_idle-Acts full e = absurd (ground arith)
  act_idle-Acts (refuse n) e = absurd (ground arith)

  act_get_sqe-Acts :
      (op : Op) (c : Choice)
      → act_get_sqe op io c s ≡ some (pc', io', s')
      → Acts i j (get_sqe op) pc' s s'
  unfolding act_get_sqe
  act_get_sqe-Acts op go e = ground arith
  act_get_sqe-Acts op (request op' io'') e = absurd (ground arith)
  act_get_sqe-Acts op pause e = absurd (ground arith)
  act_get_sqe-Acts op finish e = absurd (ground arith)
  act_get_sqe-Acts op full e = ground arith
  act_get_sqe-Acts op (refuse n) e = absurd (ground arith)

  act_submit-Acts :
      (op : Op) (c : Choice)
      → IsAccepted c
      → act_submit i op io c s ≡ some (pc', io', s')
      → Acts i j (submit op) pc' s s'
  unfolding act_submit prepare
  act_submit-Acts op (refuse n) ok e = absurd ok
  act_submit-Acts stdin_read go ok e = ground arith
  act_submit-Acts stdout_write go ok e = ground arith
  act_submit-Acts file_read go ok e = ground arith
  act_submit-Acts file_write go ok e = ground arith
  act_submit-Acts op (request op' io'') ok e = absurd (ground arith)
  act_submit-Acts op pause ok e = absurd (ground arith)
  act_submit-Acts op finish ok e = absurd (ground arith)
  act_submit-Acts op full ok e = absurd (ground arith)

  pub act-Acts :
      (pc : Pc) (c : Choice)
      → IsAccepted c
      → act i pc io c s ≡ some (pc', io', s')
      → Acts i j pc pc' s s'
  unfolding act
  act-Acts idle c ok e = act_idle-Acts c e
  act-Acts (get_sqe op) c ok e = act_get_sqe-Acts op c e
  act-Acts (submit op) c ok e = act_submit-Acts op c ok e
  act-Acts (push op) c ok e = ground arith
  act-Acts (yielding op accepted) c ok e = ground arith
  act-Acts (ending op) c ok e = ground arith
  act-Acts fresh c ok e = absurd (ground arith)
  act-Acts paused c ok e = absurd (ground arith)
  act-Acts finished c ok e = absurd (ground arith)
  act-Acts (no_sqe op) c ok e = absurd (ground arith)
  act-Acts (asleep op accepted) c ok e = absurd (ground arith)

-- A task changes, and with it what is listed.
module _ (ts : List Task) (i : ℕ) (t t' : Task) (s s' : Shared) (at : get_elem? ts i ≡ some t)
    (is : IsOwed (record { tasks = ts; shared = s })) (self : listed i s' ≡ owed t'.pc)
    (others : (j : ℕ) → j ≢ i → listed j s' ≡ listed j s)
    (runs_self : awake t'.pc ≡ is_running i s'.running)
    (runs_others : (j : ℕ) → j ≢ i → is_running j s'.running ≡ is_running j s.running)
    (quiet : s'.queued ≡ []) where
  pub set-IsOwed : IsOwed (record { tasks = set ts i t'; shared = s' })
  set-IsOwed = record {
    owes = λ j. elim (ℕ_discrete i j) [
      | yes same ↦ rw (sym same, get_elem?-set_self ts i t' (get_elem?-lt ts i t at)) self
      | no other ↦ rw (get_elem?-set_ne ts t' other) (others j (λ q. other (sym q)) ∙ is.owes j)
    ];
    alone = λ j. elim (ℕ_discrete i j) [
      | yes same ↦ rw (sym same, get_elem?-set_self ts i t' (get_elem?-lt ts i t at)) runs_self
      | no other ↦
          rw (get_elem?-set_ne ts t' other) (is.alone j ∙ sym (runs_others j (λ q. other (sym q))))
    ];
    none_queued = quiet;
  }

pub wake-owed :
    (pc pc' : Pc)
    → wake pc ≡ some pc'
    → 1 ≤ owed pc
    → (owed pc ≡ 1) × (owed pc' ≡ 0) × (awake pc' ≡ true)
unfolding wake
wake-owed fresh pc' e h = ground arith
wake-owed idle pc' e h = ground arith
wake-owed paused pc' e h = ground arith
wake-owed finished pc' e h = ground arith
wake-owed (get_sqe op) pc' e h = ground arith
wake-owed (no_sqe op) pc' e h = ground arith
wake-owed (push op) pc' e h = ground arith
wake-owed (submit op) pc' e h = ground arith
wake-owed (yielding op accepted) pc' e h = ground arith
wake-owed (asleep op accepted) pc' e h = ground arith
wake-owed (ending op) pc' e h = ground arith

-- A waiting task that is owed something can be resumed.
pub wake-some : (pc : Pc) → 1 ≤ owed pc → awake pc ≡ false → (pc' : Pc) × (wake pc ≡ some pc')
unfolding wake
wake-some fresh h a = (idle, refl)
wake-some idle h a = absurd (ground arith)
wake-some paused h a = (idle, refl)
wake-some finished h a = absurd (ground arith)
wake-some (get_sqe op) h a = absurd (ground arith)
wake-some (no_sqe op) h a = (get_sqe op, refl)
wake-some (push op) h a = absurd (ground arith)
wake-some (submit op) h a = absurd (ground arith)
wake-some (yielding op accepted) h a = absurd (ground arith)
wake-some (asleep op accepted) h a = (ending op, refl)
wake-some (ending op) h a = absurd (ground arith)

-- The running task goes on to run, or no task runs.
pub still_self :
    (i : ℕ) (b : Bool) (r : Option ℕ) → r ≡ (if b then some i else none) → b ≡ is_running i r
still_self i true r e = rw e (ground arith)
still_self i false r e = rw e refl

pub still_others :
    (i j : ℕ) (b : Bool) (r : Option ℕ)
    → r ≡ (if b then some i else none)
    → j ≢ i
    → is_running j r ≡ is_running j (some i)
still_others i j true r e ne = rw e refl
still_others i j false r e ne = rw e (ground arith)
