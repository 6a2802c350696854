-- ===== src/Net/Tests.antt =====
-- The requests of runtime/src/netio.c at concrete inputs.
use picasso_lang.Base.{
  ℕ, ◌≡◌, refl, ◌++◌, true, false, Option, none, some, List, [], ◌∷◌, ◌==◌, if◌then◌else◌, take,
  arith,
}
use picasso_lang.Base.Int.{pos}
use picasso_lang.Base.Tasks.{count}
use picasso_lang.Text.Ops.{read_bytes}
use picasso_lang.Net.{
  io_read, io_write, Io, Interest, register, Answer, gives, again, Stream, World, request, polled,
  set_stream, step, net_request, here,
}
use picasso_lang.Net.Cared.{Cared}
use picasso_lang.Net.Cared.Alone.{ReachAlone, begins, goes_on, tasks_of, no_request_lost}
use picasso_lang.Net.Write.{ready, write_events, write_events-whole}
use picasso_lang.Net.Armed.{IsLost}
use picasso_lang.Net.Lost.{second_request_displaces}
use picasso_lang.Net.Sockets.{
  Address, host_of, bind_loop, Options, Call, at_once, in_progress, net_listen, opened, closed,
  listening, bound,
}
use picasso_lang.Net.Sockets.Leaks.{Balanced, net_listen-Balanced}

abbrev three : List ℕ
three = 10 ∷ 20 ∷ 30 ∷ []

abbrev to_write : Io
to_write = record {
  fd = 5;
  buf = three;
  req_n = 3;
  done_n = pos 0;
  offset = 0;
  io_err = 0;
  io_done = false;
  op = io_write;
}

abbrev quiet : Stream
quiet = record { incoming = []; sent = 7 ∷ [] }

abbrev bit_by_bit : List Answer
bit_by_bit = again ∷ gives 1 ∷ again ∷ gives 9 ∷ gives 9 ∷ []

write_events-whole_example :
    (io' : Io) × (write_events bit_by_bit to_write quiet
      ≡ ready io' (record quiet { sent = quiet.sent ++ take 3 three }))
    × (io'.done_n ≡ pos 3)
    × (io'.io_done ≡ true)
write_events-whole_example =
    write_events-whole bit_by_bit to_write quiet refl (omega arith) (omega arith) (omega arith)
      (omega arith)

-- Task 0 reads from descriptor 5, and task 1 writes to it.
abbrev to_read : Io
to_read = record to_write { op = io_read }

abbrev reading : World
reading = record {
  tasks = record { asleep = true; io = to_read } ∷ record { asleep = false; io = to_read } ∷ [];
  poller = λ fd. if fd == 5 then some (record { output = false; task = 0; armed = true }) else none;
  streams = λ fd. quiet;
  ready = [];
}

abbrev displaced : World
displaced = record reading {
  tasks = record { asleep = true; io = to_read } ∷ record { asleep = true; io = to_write } ∷ [];
  poller = register reading.poller 5 (some (record { output = true; task = 1; armed = true }));
}

second_request : step (request 1 io_write 5 three 3) reading ≡ some displaced
unfolding step net_request
second_request = refl

reading_only :
    (fd : ℕ) (it : Interest) → reading.poller fd ≡ some it → it.task ≡ 0 → it.armed ≡ true → fd ≡ 5
reading_only fd it e t a = ground arith

second_request_displaces_example : IsLost 0 displaced
second_request_displaces_example =
    second_request_displaces 0 1 5 io_write three 3 reading displaced displaced
      (record { asleep = true; io = to_read }, refl, refl) (omega arith) reading_only second_request
      here

-- Two addresses; the first cannot be bound, and does not connect.
abbrev taken : Address
taken = record {
  socket = some 3;
  is_inet6 = false;
  f_getfl = true;
  f_setfl = true;
  f_getfd = true;
  f_setfd = true;
  bind = false;
  connect = in_progress true false;
}

abbrev free : Address
free = record taken { socket = some 4; bind = true; connect = at_once }

abbrev plain : Options
plain = record {
  close_on_exec = true;
  reuse_addr = false;
  reuse_port = false;
  nodelay = false;
  defer_accept = pos 0;
  fastopen = pos 0;
  keepalive = false;
  rcvbuf = pos 0;
  sndbuf = pos 0;
  ipv6_only = false;
}

abbrev found : List ℕ → ℕ → Option (List Address)
found host port = some (taken ∷ free ∷ [])

abbrev listen_calls : List Call
listen_calls = opened 3 ∷ closed 3 ∷ opened 4 ∷ bound 4 ∷ listening 4 16 ∷ []

listens_on_4 : net_listen found true none 80 (pos 16) plain ≡ some (some 4, listen_calls)
unfolding net_listen host_of bind_loop
listens_on_4 = refl

net_listen-Balanced_example : Balanced 3 (some 4) listen_calls
net_listen-Balanced_example =
    net_listen-Balanced found true none 80 (pos 16) plain (some 4) listen_calls listens_on_4 3

-- A task writes; its descriptor sends a part, and is armed again.
abbrev partly_written : World
partly_written = record {
  tasks = record { asleep = true; io = record to_write { offset = 2; done_n = pos 2 } } ∷ [];
  poller =
      register
        (register
          (register (λ fd. none) 5 (some (record { output = true; task = 0; armed = true }))) 5
          (some (record { output = true; task = 0; armed = false })))
        5 (some (record { output = true; task = 0; armed = true }));
  streams = set_stream (λ fd. quiet) 5 (record { incoming = []; sent = 7 ∷ 10 ∷ 20 ∷ [] });
  ready = [];
}

ReachAlone-partly_written : ReachAlone (tasks_of 1 (λ fd. quiet)) partly_written
unfolding step tasks_of read_bytes
ReachAlone-partly_written =
    goes_on (polled 5 (gives 2))
      (goes_on (request 0 io_write 5 three 3) begins (refl, λ it e. absurd (ground arith)) refl)
      (omega arith) refl

no_request_lost_example :
    (true ≡ true
      → Cared partly_written 0
          (record { asleep = true; io = record to_write { offset = 2; done_n = pos 2 } }))
    × (true ≡ false → count 0 [] ≡ 0)
no_request_lost_example =
    no_request_lost 1 (λ fd. quiet) partly_written ReachAlone-partly_written 0
      (record { asleep = true; io = record to_write { offset = 2; done_n = pos 2 } }) refl
