-- ===== src/Disk/Request.antt =====
-- The requests to io_uring of runtime/src/diskio.c on one scheduler thread, with the tasks of the thread, the
-- part of `scheduler_run` (runtime/src/scheduler.c) that resumes them, and `diskio_worker`. One task of a thread
-- runs at a time, between two yields; the worker takes its steps at any time.
pub mod Counts
pub mod Owed
pub mod Stuck
mod Tests
use picasso_lang.Base.{
  ℕ, zero, suc, ◌≡◌, Bool, true, false, Option, none, some, List, [], ◌∷◌, ◌++◌, ◌==◌,
  if◌then◌else◌, get_elem?, set, replicate,
}
use picasso_lang.Base.Int.{ℤ, pos, negsuc}
use picasso_lang.Alloc.State.{Ptr}
use picasso_lang.Disk.{Handle}

-- The function that makes the request: `async_stdin_read`, `async_stdout_write`, `async_file_read` or
-- `async_file_write`.
pub data Op : Type 0 where
  stdin_read : Op
  stdout_write : Op
  file_read : Op
  file_write : Op

-- `io_metadata_t`, as far as these functions use it.
pub record Io : Type 0 where
  pub fd : ℕ
  pub buf : Ptr
  pub req_n : ℕ
  pub offset : ℕ
  pub done_n : ℤ
  pub io_err : ℕ
  pub io_done : Bool

abbrev pub blank_io : Io
blank_io = record {
  fd = 0;
  buf = 0;
  req_n = 0;
  offset = 0;
  done_n = pos 0;
  io_err = 0;
  io_done = false;
}

-- An entry of the submission queue, with the task in its user data.
pub record Sqe : Type 0 where
  pub op : Op
  pub fd : ℕ
  pub buf : Ptr
  pub n : ℕ
  pub offset : ℕ
  pub task : ℕ

-- What the entry asks for: the standard streams have their descriptors and offset 0.
unfoldable pub prepare : Op → ℕ → Io → Sqe
prepare stdin_read i io = record {
  op = stdin_read;
  fd = 0;
  buf = io.buf;
  n = io.req_n;
  offset = 0;
  task = i;
}
prepare stdout_write i io = record {
  op = stdout_write;
  fd = 1;
  buf = io.buf;
  n = io.req_n;
  offset = 0;
  task = i;
}
prepare file_read i io = record {
  op = file_read;
  fd = io.fd;
  buf = io.buf;
  n = io.req_n;
  offset = io.offset;
  task = i;
}
prepare file_write i io = record {
  op = file_write;
  fd = io.fd;
  buf = io.buf;
  n = io.req_n;
  offset = io.offset;
  task = i;
}

-- Where a task is. `fresh` has not begun, `paused` has given way in `self_yield`, `no_sqe` has yielded because
-- there was no entry. A task that yields after the submission notes whether that was accepted.
pub data Pc : Type 0 where
  fresh : Pc
  idle : Pc
  paused : Pc
  finished : Pc
  get_sqe : Op → Pc
  no_sqe : Op → Pc
  push : Op → Pc
  submit : Op → Pc
  yielding : Op → Bool → Pc
  asleep : Op → Bool → Pc
  ending : Op → Pc

-- The task that runs, the ready queue, the tasks in `wait_q`, the submitted entries that are not complete, and the
-- entries that are prepared and not submitted: they stay in the submission queue of the thread.
pub record Shared : Type 0 where
  pub running : Option ℕ
  pub ready : List ℕ
  pub wait_q : List ℕ
  pub ring : List Sqe
  pub queued : List Sqe

-- What the running task or the library decides: an idle task makes a request with the state that the calling
-- function sets up, gives way, or ends; there is no entry; a submission is refused with an error.
pub data Choice : Type 0 where
  go : Choice
  request : Op → Io → Choice
  pause : Choice
  finish : Choice
  full : Choice
  refuse : ℕ → Choice

-- `async_file_read` goes on to yield after an error, and the other three return.
unfoldable pub after_refusal : Op → Pc
after_refusal stdin_read = ending stdin_read
after_refusal stdout_write = ending stdout_write
after_refusal file_read = yielding file_read false
after_refusal file_write = ending file_write

unfoldable pub submit_failed : ℕ → Io → Io
submit_failed e io = record io { io_err = e; done_n = negsuc 0; io_done = true }

abbrev pub Moved : Type 0
Moved = Option (Pc × Io × Shared)

unfoldable pub act_idle : ℕ → Io → Choice → Shared → Moved
act_idle i io (request op io') s = some (get_sqe op, io', s)
act_idle i io pause s = some (paused, io, record s { running = none; ready = s.ready ++ (i ∷ []) })
act_idle i io finish s = some (finished, io, record s { running = none })
act_idle i io c s = none

-- `io_uring_submit` hands over every entry of the submission queue, or fails and leaves them there.
unfoldable pub act_submit : ℕ → Op → Io → Choice → Shared → Moved
unfolding prepare after_refusal submit_failed
act_submit i op io (refuse e) s =
    some (after_refusal op, submit_failed e io, record s { queued = prepare op i io ∷ s.queued })
act_submit i op io go s =
    some (
      yielding op true,
      io,
      record s { ring = prepare op i io ∷ (s.queued ++ s.ring); queued = [] },
    )
act_submit i op io c s = none

unfoldable pub act_get_sqe : Op → Io → Choice → Shared → Moved
act_get_sqe op io full s = some (no_sqe op, io, record s { running = none })
act_get_sqe op io go s = some (push op, io, s)
act_get_sqe op io c s = none

-- The next action of the running task `i`.
unfoldable pub act : ℕ → Pc → Io → Choice → Shared → Moved
unfolding act_idle act_submit act_get_sqe
act i idle io c s = act_idle i io c s
act i (get_sqe op) io c s = act_get_sqe op io c s
act i (push op) io c s = some (submit op, io, record s { wait_q = i ∷ s.wait_q })
act i (submit op) io c s = act_submit i op io c s
act i (yielding op accepted) io c s = some (asleep op accepted, io, record s { running = none })
act i (ending op) io c s = some (idle, io, s)
act i pc io c s = none

-- Where a task goes on when it is resumed; `none` for one that is not waiting to be, of which the machine says nothing
-- more.
unfoldable pub wake : Pc → Option Pc
wake fresh = some idle
wake paused = some idle
wake (no_sqe op) = some (get_sqe op)
wake (asleep op accepted) = some (ending op)
wake pc = none

-- `unsafe_ioq_remove`: the task's entry, where it has one.
unfoldable pub remove_one : ℕ → List ℕ → List ℕ
remove_one i [] = []
remove_one i (j ∷ js) = if i == j then js else j ∷ remove_one i js

-- The k-th entry, and the others.
unfoldable pub pick_sqe : ℕ → List Sqe → Option (Sqe × List Sqe)
pick_sqe k [] = none
pick_sqe zero (e ∷ es) = some (e, es)
pick_sqe (suc k) (e ∷ es) = elim (pick_sqe k es) [
  | none ↦ none
  | some (e', rest) ↦ some (e', e ∷ rest)
]

-- What `diskio_worker` writes for a result of io_uring: -1 with the error, or the number of bytes.
unfoldable pub complete_io : ℤ → Io → Io
complete_io (negsuc n) io = record io { io_err = suc n; done_n = negsuc 0; io_done = true }
complete_io (pos n) io = record io { done_n = pos n; io_err = 0; io_done = true }

-- What the calling function returns; for `__public__ascan`, whether it is NULL (-1) or how much there is.
unfoldable pub result_of : Op → Io → ℤ
result_of stdout_write io = elim io.done_n [ negsuc _ ↦ pos 0 | pos n ↦ pos n ]
result_of op io = elim io.done_n [ negsuc _ ↦ negsuc 0 | pos n ↦ pos n ]

-- The state that the calling functions set up, `none` where they return an error at once: for `__public__ascan` with
-- the address of its array, `__public__asyncio_printf` with the text and its length, and for
-- `__public__asyncio_fread` and `__public__asyncio_fwrite`.
unfoldable pub ascan_io : Ptr → ℤ → Option Io
ascan_io buf (negsuc _) = none
ascan_io buf (pos n) = if n == 0 then none else some (record blank_io { buf = buf; req_n = n })

unfoldable pub asyncio_printf_io : Ptr → ℕ → Io
asyncio_printf_io out len = record blank_io { fd = 1; buf = out; req_n = len }

unfoldable pub asyncio_file_io : Handle → Option Ptr → ℤ → ℤ → Option Io
asyncio_file_io (some (some f)) (some buf) (pos n) (pos offset) = elim f.fileno [
  | negsuc _ ↦ none
  | pos fd ↦
      if n == 0
      then none
      else some (record blank_io { fd = fd; buf = buf; req_n = n; offset = offset })
]
asyncio_file_io f buf n offset = none

pub record Task : Type 0 where
  pub pc : Pc
  pub io : Io

pub record World : Type 0 where
  pub tasks : List Task
  pub shared : Shared

-- A step of the running task, the resumption of the head of the ready queue, or the completion of the k-th entry.
pub data Event : Type 0 where
  runs : Choice → Event
  schedule : Event
  complete : ℕ → ℤ → Event

unfoldable pub run_task : ℕ → Choice → World → Option World
unfolding act
run_task i c w = elim (get_elem? w.tasks i) [
  | none ↦ none
  | some t ↦ elim (act i t.pc t.io c w.shared) [
    | none ↦ none
    | some (pc, io, s) ↦
        some (record { tasks = set w.tasks i (record { pc = pc; io = io }); shared = s })
  ]
]

unfoldable pub resume_task : ℕ → List ℕ → World → Option World
unfolding wake remove_one
resume_task i rest w = elim (get_elem? w.tasks i) [
  | none ↦ none
  | some t ↦ elim (wake t.pc) [
    | none ↦ none
    | some pc ↦ some (record {
      tasks = set w.tasks i (record { pc = pc; io = t.io });
      shared = record w.shared {
        running = some i;
        ready = rest;
        wait_q = remove_one i w.shared.wait_q;
      };
    })
  ]
]

unfoldable pub complete_sqe : ℤ → Sqe → List Sqe → World → Option World
unfolding complete_io
complete_sqe res e rest w = elim (get_elem? w.tasks e.task) [
  | none ↦ none
  | some t ↦ some (record {
    tasks = set w.tasks e.task (record { pc = t.pc; io = complete_io res t.io });
    shared = record w.shared { ring = rest; ready = w.shared.ready ++ (e.task ∷ []) };
  })
]

unfoldable pub step : Event → World → Option World
unfolding run_task resume_task complete_sqe pick_sqe
step (runs c) w = elim w.shared.running [ none ↦ none | some i ↦ run_task i c w ]
step schedule w = elim w.shared.running [
  | some _ ↦ none
  | none ↦ elim w.shared.ready [ [] ↦ none | i ∷ rest ↦ resume_task i rest w ]
]
step (complete k res) w = elim (pick_sqe k w.shared.ring) [
  | none ↦ none
  | some (e, rest) ↦ complete_sqe res e rest w
]

abbrev pub up_to : ℕ → List ℕ
up_to zero = []
up_to (suc n) = n ∷ up_to n

-- A thread with n new tasks.
unfoldable pub thread_of : ℕ → World
thread_of n = record {
  tasks = replicate n (record { pc = fresh; io = blank_io });
  shared = record { running = none; ready = up_to n; wait_q = []; ring = []; queued = [] };
}

pub data Reach (w : World) : World → Type 0 where
  here : Reach w w
  next : {u v : World} (e : Event) → Reach w u → step e u ≡ some v → Reach w v

-- Whether the event is another than the failure of `io_uring_submit`, and whether all events of a run are.
abbrev pub Accepts : Event → Type 0
Accepts (runs (refuse e)) = ⊥
Accepts e = Unit

abbrev pub Accepted : {w v : World} → Reach w v → Type 0
Accepted here = Unit
Accepted (next e r q) = Accepts e × Accepted r
