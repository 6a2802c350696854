-- ===== src/Disk/Request/Tests.antt =====
-- The requests of runtime/src/diskio.c at concrete inputs.
use picasso_lang.Base.{◌≡◌, refl, true, false, none, some, [], ◌∷◌}
use picasso_lang.Base.Int.{pos}
use picasso_lang.Disk.Request.{
  file_read, file_write, Io, fresh, idle, asleep, yielding, get_sqe, no_sqe, prepare, full, go,
  request, refuse, World, runs, schedule, complete, step, blank_io, thread_of, Reach, here, next,
  act,
}
use picasso_lang.Disk.Request.Stuck.{IsForsaken, request_sleeps_for_ever}

abbrev eight_bytes : Io
eight_bytes = record {
  fd = 3;
  buf = 4096;
  req_n = 8;
  offset = 16;
  done_n = pos 0;
  io_err = 0;
  io_done = false;
}

-- Two tasks; the first to run, task 1, asks for a read, for which there is to be no entry.
abbrev asking : World
asking = record {
  tasks =
      record { pc = fresh; io = blank_io }
      ∷ record { pc = get_sqe file_read; io = eight_bytes }
      ∷ [];
  shared = record { running = some 1; ready = 0 ∷ []; wait_q = []; ring = []; queued = [] };
}

asking_reached : Reach (thread_of 2) asking
unfolding step act thread_of
asking_reached = next (runs (request file_read eight_bytes)) (next schedule here refl) refl

abbrev waiting : World
waiting = record {
  tasks =
      record { pc = fresh; io = blank_io }
      ∷ record { pc = no_sqe file_read; io = eight_bytes }
      ∷ [];
  shared = record { running = none; ready = 0 ∷ []; wait_q = []; ring = []; queued = [] };
}

asks_in_vain : step (runs full) asking ≡ some waiting
unfolding step act
asks_in_vain = refl

-- Task 0 goes on, and so does nobody else.
abbrev later : World
later = record {
  tasks =
      record { pc = idle; io = blank_io } ∷ record { pc = no_sqe file_read; io = eight_bytes } ∷ [];
  shared = record { running = some 0; ready = []; wait_q = []; ring = []; queued = [] };
}

later_reached : Reach waiting later
unfolding step
later_reached = next schedule here refl

-- A write whose submission fails; that of the next request of the same task takes its entry along.
abbrev refused : World
refused = record {
  tasks = record { pc = yielding file_write true; io = eight_bytes } ∷ [];
  shared = record {
    running = some 0;
    ready = [];
    wait_q = 0 ∷ 0 ∷ [];
    ring = prepare file_write 0 eight_bytes ∷ prepare file_write 0 eight_bytes ∷ [];
    queued = [];
  };
}

refused_reached : Reach (thread_of 1) refused
unfolding step act thread_of prepare
refused_reached =
    next (runs go)
      (next (runs go)
        (next (runs go)
          (next (runs (request file_write eight_bytes))
            (next (runs go)
              (next (runs (refuse 11))
                (next (runs go)
                  (next (runs go)
                    (next (runs (request file_write eight_bytes)) (next schedule here refl) refl)
                    refl)
                  refl)
                refl)
              refl)
            refl)
          refl)
        refl)
      refl

-- A write that is accepted and completes.
abbrev completed : World
completed = record {
  tasks =
      record {
        pc = asleep file_write true;
        io = record eight_bytes { done_n = pos 8; io_done = true };
      }
      ∷ [];
  shared = record { running = none; ready = 0 ∷ []; wait_q = 0 ∷ []; ring = []; queued = [] };
}

completed_reached : Reach (thread_of 1) completed
unfolding step act thread_of
completed_reached =
    next (complete 0 (pos 8))
      (next (runs go)
        (next (runs go)
          (next (runs go)
            (next (runs go)
              (next (runs (request file_write eight_bytes)) (next schedule here refl) refl) refl)
            refl)
          refl)
        refl)
      refl

request_sleeps_for_ever_example : IsForsaken 1 file_read later
request_sleeps_for_ever_example =
    request_sleeps_for_ever 1 file_read eight_bytes asking refl refl refl asks_in_vain later_reached
