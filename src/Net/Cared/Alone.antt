-- ===== src/Net/Cared/Alone.antt =====
-- Runs of the tasks of runtime/src/netio.c in which none makes a request on a descriptor that another waits for.
use picasso_lang.Base.{
  ℕ, zero, suc, replicate, ◌≡◌, ap, ◌≤◌, true, false, none, some, [], arith, get_elem?,
}
use picasso_lang.Base.Int.{pos}
use picasso_lang.Base.Tasks.{count}
use picasso_lang.Net.{
  io_read, Io, Interest, Stream, Task, World, Event, request, polled, resumes, arrives, step,
}
use picasso_lang.Net.Cared.Steps.{
  net_request-IsCared, netio_event-IsCared, resume-IsCared, arrives-IsCared,
}
use picasso_lang.Net.Cared.{is_listen, asleep_at, Cared, IsCared}

-- Tasks make no request on a descriptor that another task waits for an event of, and `io_listen` is none.
abbrev pub Fits : World → Event → Type 0
Fits w (request i op fd buf len) =
    (is_listen op ≡ false) × ((it : Interest) → w.poller fd ≡ some it → it.armed ≡ false)
Fits w e = 0 ≤ 0

pub step-IsCared : (w v : World) (e : Event) → IsCared w → Fits w e → step e w ≡ some v → IsCared v
unfolding step
step-IsCared w v (request i op fd buf len) is (l, alone) e =
    net_request-IsCared w v is i op fd buf len l alone e
step-IsCared w v (polled fd a) is fits e = netio_event-IsCared w v is fd a e
step-IsCared w v resumes is fits e = resume-IsCared w v is e
step-IsCared w v (arrives fd more) is fits e = arrives-IsCared w v is fd more e

-- What can be reached by such requests.
pub data ReachAlone (w : World) : World → Type 0 where
  begins : ReachAlone w w
  goes_on :
      {u v : World} (e : Event) → ReachAlone w u → Fits u e → step e u ≡ some v → ReachAlone w v

pub ReachAlone-IsCared : {w v : World} → IsCared w → ReachAlone w v → IsCared v
ReachAlone-IsCared is begins = is
ReachAlone-IsCared is (goes_on e r fits s) = step-IsCared _ _ e (ReachAlone-IsCared is r) fits s

-- n tasks that run, and no descriptors.
abbrev pub idle_io : Io
idle_io = record {
  fd = 0;
  buf = [];
  req_n = 0;
  done_n = pos 0;
  offset = 0;
  io_err = 0;
  io_done = false;
  op = io_read;
}

unfoldable pub tasks_of : ℕ → (ℕ → Stream) → World
tasks_of n streams = record {
  tasks = replicate n (record { asleep = false; io = idle_io });
  poller = λ fd. none;
  streams = streams;
  ready = [];
}

pub tasks_of-IsCared : (n : ℕ) (streams : ℕ → Stream) → IsCared (tasks_of n streams)
unfolding tasks_of
tasks_of-IsCared n streams = record {
  armed = λ fd it p on. absurd (ground arith);
  readied = λ j. omega arith;
  cared = λ j t at down. absurd (let a = replicate-awake n j t at in ground arith);
}
  where
    replicate-awake :
        (n j : ℕ) (t : Task)
        → get_elem? (replicate n (record { asleep = false; io = idle_io })) j ≡ some t
        → t.asleep ≡ false
    replicate-awake zero j t e = absurd (ground arith)
    replicate-awake (suc n) zero t e = ground arith
    replicate-awake (suc n) (suc j) t e = replicate-awake n j t e

-- Where tasks make no request on a descriptor that another task waits for an event of, whatever the order of requests,
-- events and resumptions: a task that sleeps in a request is on the ready queue once, or its descriptor is armed
-- for it, and a task that runs is not on the ready queue. No request is lost, and none is answered twice.
pub no_request_lost :
    (n : ℕ) (streams : ℕ → Stream) (w : World)
    → ReachAlone (tasks_of n streams) w
    → (j : ℕ) (t : Task) → get_elem? w.tasks j ≡ some t
    → (t.asleep ≡ true → Cared w j t) × (t.asleep ≡ false → count j w.ready ≡ 0)
no_request_lost n streams w r j t at =
    let is = ReachAlone-IsCared (tasks_of-IsCared n streams) r in
    (is.cared j t at, λ up. let a = is.readied j in let b = ap asleep_at at in ground arith)
