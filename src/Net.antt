-- ===== src/Net.antt =====
-- The requests of runtime/src/netio.c, `netio_worker`, and the poller of runtime/src/platform/linux/epoll.c. The
-- registrations are one-shot: an event takes the arm off, and the worker puts it on again or is done.
pub mod Write
pub mod Armed
pub mod Lost
pub mod Cared
pub mod Sockets
mod Tests
use picasso_lang.Base.{
  ℕ, ◌+◌, ◌-◌, ◌≡◌, min, Bool, true, false, not, Option, none, some, List, [], ◌∷◌, ◌++◌, ◌==◌, ltb,
  if◌then◌else◌, length, take, drop, get_elem?, set,
}
use picasso_lang.Base.Int.{ℤ, pos, negsuc}
use picasso_lang.Text.Ops.{read_bytes}
use picasso_lang.Disk.{write_bytes}

-- `netio_op_t`
pub data Op : Type 0 where
  io_listen : Op
  io_accept : Op
  io_read : Op
  io_write : Op
  io_connect : Op

-- `io_metadata_t`, with the bytes of the array in the place of their address.
pub record Io : Type 0 where
  pub fd : ℕ
  pub buf : List ℕ
  pub req_n : ℕ
  pub done_n : ℤ
  pub offset : ℕ
  pub io_err : ℕ
  pub io_done : Bool
  pub op : Op

-- What a descriptor is registered for, input or output, the task, and whether an event can come.
pub record Interest : Type 0 where
  pub output : Bool
  pub task : ℕ
  pub armed : Bool

abbrev pub Poller : Type 0
Poller = ℕ → Option Interest

unfoldable pub register : Poller → ℕ → Option Interest → Poller
register p fd it fd' = if fd' == fd then it else p fd'

-- `none` is -1 with EEXIST.
unfoldable pub netpoll_add : Poller → ℕ → Bool → ℕ → Option Poller
netpoll_add p fd output t = elim (p fd) [
  | some _ ↦ none
  | none ↦ some (register p fd (some (record { output = output; task = t; armed = true })))
]

-- The callers do not look at the result; a descriptor that is not registered is left so.
unfoldable pub netpoll_mod : Poller → ℕ → Bool → ℕ → Poller
netpoll_mod p fd output t = elim (p fd) [
  | none ↦ p
  | some _ ↦ register p fd (some (record { output = output; task = t; armed = true }))
]

unfoldable pub netpoll_del : Poller → ℕ → Poller
netpoll_del p fd = register p fd none

-- The two ends of a connection as the runtime sees them: what has come in and is not read, and what was sent.
pub record Stream : Type 0 where
  pub incoming : List ℕ
  pub sent : List ℕ

-- What the system answers to the worker's call: so much, but no more than there is and is asked for, or for `accept`
-- a descriptor, or for `getsockopt` the error of the socket; EAGAIN; or another error.
pub data Answer : Type 0 where
  gives : ℕ → Answer
  again : Answer
  fails : ℕ → Answer

-- What the worker does then: it arms the descriptor again, or makes the task ready, perhaps after it has removed
-- the descriptor from the poller; a `io_listen` is passed over.
pub data Verdict : Type 0 where
  rearm : Bool → Verdict
  done : Bool → Verdict
  skip : Verdict

pub record Handled : Type 0 where
  pub io : Io
  pub stream : Stream
  pub verdict : Verdict

unfoldable pub failed_io : ℕ → Io → Io
failed_io e io = record io { io_err = e; done_n = negsuc 0; io_done = true }

unfoldable pub handle_connect : Answer → Io → Stream → Option Handled
unfolding failed_io
handle_connect (fails e) io s =
    some (record { io = failed_io e io; stream = s; verdict = done true })
handle_connect again io s = none
handle_connect (gives e) io s =
    if e == 0
    then some (record {
      io = record io { done_n = pos io.fd; io_done = true };
      stream = s;
      verdict = done false;
    })
    else some (record { io = failed_io e io; stream = s; verdict = done true })

unfoldable pub handle_accept : Answer → Io → Stream → Option Handled
unfolding failed_io
handle_accept (gives cfd) io s = some (record {
  io = record io { done_n = pos cfd; io_done = true };
  stream = s;
  verdict = done false;
})
handle_accept again io s = some (record { io = io; stream = s; verdict = rearm false })
handle_accept (fails e) io s =
    some (record { io = failed_io e io; stream = s; verdict = done false })

-- Nothing read is the end of the connection; `none` where the array is too short.
unfoldable pub handle_read : Answer → Io → Stream → Option Handled
unfolding failed_io
handle_read (gives k) io s =
    let r = min k (min (io.req_n - io.offset) (length s.incoming)) in
    if r == 0
    then some (record {
      io = record io { done_n = pos io.offset; io_done = true };
      stream = s;
      verdict = done true;
    })
    else elim (write_bytes io.buf io.offset (take r s.incoming)) [
      | none ↦ none
      | some buf ↦ some (record {
        io = record io {
          buf = buf;
          offset = io.offset + r;
          done_n = pos (io.offset + r);
          io_done = true;
        };
        stream = record s { incoming = drop r s.incoming };
        verdict = done false;
      })
    ]
handle_read again io s = some (record { io = io; stream = s; verdict = rearm false })
handle_read (fails e) io s = some (record { io = failed_io e io; stream = s; verdict = done true })

unfoldable pub handle_write : Answer → Io → Stream → Option Handled
unfolding failed_io
handle_write (gives k) io s =
    let w = min k (io.req_n - io.offset) in
    elim (read_bytes w (drop io.offset io.buf)) [
      | none ↦ none
      | some chunk ↦
          let io' = record io { offset = io.offset + w; done_n = pos (io.offset + w) } in
          let s' = record s { sent = s.sent ++ chunk } in
          if ltb (io.offset + w) io.req_n
          then some (record { io = io'; stream = s'; verdict = rearm true })
          else some
              (record { io = record io' { io_done = true }; stream = s'; verdict = done false })
    ]
handle_write again io s = some (record { io = io; stream = s; verdict = rearm true })
handle_write (fails e) io s = some (record { io = failed_io e io; stream = s; verdict = done true })

unfoldable pub handle : Op → Answer → Io → Stream → Option Handled
unfolding handle_connect handle_accept handle_read handle_write
handle io_listen a io s = some (record { io = io; stream = s; verdict = skip })
handle io_connect a io s = handle_connect a io s
handle io_accept a io s = handle_accept a io s
handle io_read a io s = handle_read a io s
handle io_write a io s = handle_write a io s

pub record Task : Type 0 where
  pub asleep : Bool
  pub io : Io

pub record World : Type 0 where
  pub tasks : List Task
  pub poller : Poller
  pub streams : ℕ → Stream
  pub ready : List ℕ

abbrev pub wants_output : Op → Bool
wants_output io_write = true
wants_output io_connect = true
wants_output op = false

unfoldable pub set_stream : (ℕ → Stream) → ℕ → Stream → ℕ → Stream
set_stream ss fd s fd' = if fd' == fd then s else ss fd'

-- `netpoll_add`, and `netpoll_mod` where it says EEXIST.
unfoldable pub arm : Poller → ℕ → Bool → ℕ → Poller
unfolding netpoll_add netpoll_mod
arm p fd output t = elim (netpoll_add p fd output t) [
  | some p' ↦ p'
  | none ↦ netpoll_mod p fd output t
]

-- `__public__net_accept`, `__public__net_read`, `__public__net_write`, and the connection of `__public__net_dial`: task
-- i registers and yields. (Where the registration is refused the function returns -1 and nothing has changed but
-- the task's own state.) `none` where there is no such task, or it sleeps.
unfoldable pub net_request : ℕ → Op → ℕ → List ℕ → ℕ → World → Option World
unfolding arm
net_request i op fd buf len w = elim (get_elem? w.tasks i) [
  | none ↦ none
  | some t ↦
      let io : Io = record {
        fd = fd;
        buf = buf;
        req_n = len;
        done_n = pos 0;
        offset = 0;
        io_err = 0;
        io_done = false;
        op = op;
      } in
      if t.asleep
      then none
      else some (record w {
        tasks = set w.tasks i (record { asleep = true; io = io });
        poller = arm w.poller fd (wants_output op) i;
      })
]

-- What the verdict does to the poller and the ready queue; the descriptor is the one in the task's state.
unfoldable pub settle : ℕ → Handled → Poller → List ℕ → Poller × List ℕ
unfolding netpoll_mod netpoll_del
settle t h p ready = elim h.verdict [
  | rearm output ↦ (netpoll_mod p h.io.fd output t, ready)
  | done deleted ↦ (if deleted then netpoll_del p h.io.fd else p, ready ++ (t ∷ []))
  | skip ↦ (p, ready)
]

-- One event of the worker's loop. `none` where the descriptor is not armed, or the handler goes wrong.
unfoldable pub netio_event : ℕ → Answer → World → Option World
unfolding register handle settle set_stream
netio_event fd a w = elim (w.poller fd) [
  | none ↦ none
  | some it ↦ elim (get_elem? w.tasks it.task) [
    | none ↦ none
    | some t ↦
        let io = record t.io { io_err = 0 } in
        elim (handle io.op a io (w.streams io.fd)) [
          | none ↦ none
          | some h ↦
              let disarmed = register w.poller fd (some (record it { armed = false })) in
              let after = settle it.task h disarmed w.ready in
              if it.armed
              then some (record {
                tasks = set w.tasks it.task (record { asleep = t.asleep; io = h.io });
                poller = after.0;
                streams = set_stream w.streams io.fd h.stream;
                ready = after.1;
              })
              else none
        ]
  ]
]

-- The scheduler resumes the first task of the ready queue.
unfoldable pub resume : World → Option World
resume w = elim w.ready [
  | [] ↦ none
  | i ∷ rest ↦ elim (get_elem? w.tasks i) [
    | none ↦ none
    | some t ↦
        if t.asleep
        then some (record w {
          tasks = set w.tasks i (record { asleep = false; io = t.io });
          ready = rest;
        })
        else none
  ]
]

-- A task makes a request, an event comes, a task is resumed, or bytes come in.
pub data Event : Type 0 where
  request : ℕ → Op → ℕ → List ℕ → ℕ → Event
  polled : ℕ → Answer → Event
  resumes : Event
  arrives : ℕ → List ℕ → Event

unfoldable pub step : Event → World → Option World
unfolding net_request netio_event resume set_stream
step (request i op fd buf len) w = net_request i op fd buf len w
step (polled fd a) w = netio_event fd a w
step resumes w = resume w
step (arrives fd more) w =
    let s = w.streams fd in
    some
      (record w { streams = set_stream w.streams fd (record s { incoming = s.incoming ++ more }) })

pub data Reach (w : World) : World → Type 0 where
  here : Reach w w
  next : {u v : World} (e : Event) → Reach w u → step e u ≡ some v → Reach w v
