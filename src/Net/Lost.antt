-- ===== src/Net/Lost.antt =====
-- Two tasks that use one descriptor in runtime/src/netio.c: the second registration takes the place of the first.
use mathlib.Core.Path.{subst}
use picasso_lang.Base.{
  ℕ, ◌≡◌, ◌≢◌, sym, ap, ◌∙◌, inl, inr, Bool, true, false, some, List, ◌∷◌, ◌==◌, Option-cases,
  List-cases, Bool-cases, arith, get_elem?, set, get_elem?-set_ne,
}
use picasso_lang.Base.Int.{pos}
use picasso_lang.Net.{
  Op, Io, Interest, Poller, register, arm, Answer, handle, settle, set_stream, wants_output, Task,
  World, net_request, netio_event, resume, Event, request, polled, resumes, arrives, step, Reach,
  here, next,
}
use picasso_lang.Net.Armed.{
  Unarmed, Unready, IsLost, arm-register, register-Unarmed, arm-Unarmed, settle-Unarmed,
}

module _ (j : ℕ) (w v : World) (is : IsLost j w) where
  -- Another task changes.
  still_asleep :
      (i : ℕ) (t : Task)
      → i ≢ j
      → (t' : Task) × (get_elem? (set w.tasks i t) j ≡ some t') × (t'.asleep ≡ true)
  still_asleep i t ne =
      let (t', at, down) = is.asleep in (t', get_elem?-set_ne w.tasks t ne ∙ at, down)

  not_self : (i : ℕ) (t : Task) → get_elem? w.tasks i ≡ some t → t.asleep ≡ false → i ≢ j
  not_self i t at up same =
      let (t', at', down) = is.asleep in
      let q : some t ≡ some t' = sym at ∙ ap (get_elem? w.tasks) same ∙ at' in
      let a : t.asleep ≡ t'.asleep = ground arith in ground arith

  net_request-IsLost :
      (i : ℕ) (op : Op) (fd : ℕ) (buf : List ℕ) (len : ℕ)
      → net_request i op fd buf len w ≡ some v
      → IsLost j v
  unfolding net_request
  net_request-IsLost i op fd buf len e = elim (Option-cases (get_elem? w.tasks i)) [
    | inl n ↦ absurd (ground arith)
    | inr (t, at) ↦ elim (Bool-cases t.asleep) [
      | inl down ↦ absurd (ground arith)
      | inr up ↦
          let ne = not_self i t at up in
          let io : Io = record {
            fd = fd;
            buf = buf;
            req_n = len;
            done_n = pos 0;
            offset = 0;
            io_err = 0;
            io_done = false;
            op = op;
          } in
          let v' : World = record w {
            tasks = set w.tasks i (record { asleep = true; io = io });
            poller = arm w.poller fd (wants_output op) i;
          } in
          let eq : v' ≡ v = ground arith in
          subst (IsLost j) eq (record {
            asleep = still_asleep i (record { asleep = true; io = io }) ne;
            unarmed = arm-Unarmed j w.poller fd i (wants_output op) ne is.unarmed;
            unready = is.unready;
          })
    ]
  ]

  resume-IsLost : resume w ≡ some v → IsLost j v
  unfolding resume
  resume-IsLost e = elim (List-cases w.ready) [
    | inl n ↦ absurd (ground arith)
    | inr (i, rest, q) ↦ elim (Option-cases (get_elem? w.tasks i)) [
      | inl n ↦ absurd (ground arith)
      | inr (t, at) ↦ elim (Bool-cases t.asleep) [
        | inr up ↦ absurd (ground arith)
        | inl down ↦
            let u : Unready j (i ∷ rest) = subst (Unready j) q is.unready in
            let v' : World = record w {
              tasks = set w.tasks i (record { asleep = false; io = t.io });
              ready = rest;
            } in
            let eq : v' ≡ v = ground arith in
            subst (IsLost j) eq (record {
              asleep = still_asleep i (record { asleep = false; io = t.io }) u.0;
              unarmed = is.unarmed;
              unready = u.1;
            })
      ]
    ]
  ]

  netio_event-IsLost : (fd : ℕ) (a : Answer) → netio_event fd a w ≡ some v → IsLost j v
  unfolding netio_event
  netio_event-IsLost fd a e = elim (Option-cases (w.poller fd)) [
    | inl n ↦ absurd (ground arith)
    | inr (it, p) ↦ elim (Option-cases (get_elem? w.tasks it.task)) [
      | inl n ↦ absurd (ground arith)
      | inr (t, at) ↦
          let io : Io = record t.io { io_err = 0 } in
          elim (Option-cases (handle io.op a io (w.streams io.fd))) [
            | inl n ↦ absurd (ground arith)
            | inr (h, q) ↦ elim (Bool-cases it.armed) [
              | inr off ↦ absurd (ground arith)
              | inl on ↦
                  let ne : it.task ≢ j =
                    λ same. let off = is.unarmed fd it p same in ground arith in
                  let disarmed = register w.poller fd (some (record it { armed = false })) in
                  let after = settle it.task h disarmed w.ready in
                  let (u, r) =
                    settle-Unarmed j it.task h disarmed w.ready ne
                      (register-Unarmed j w.poller fd (some (record it { armed = false }))
                        is.unarmed (λ it' f same. ground arith))
                      is.unready in
                  let v' : World = record {
                    tasks = set w.tasks it.task (record { asleep = t.asleep; io = h.io });
                    poller = after.0;
                    streams = set_stream w.streams io.fd h.stream;
                    ready = after.1;
                  } in
                  let eq : v' ≡ v = ground arith in
                  subst (IsLost j) eq (record {
                    asleep = still_asleep it.task (record { asleep = t.asleep; io = h.io }) ne;
                    unarmed = u;
                    unready = r;
                  })
            ]
          ]
    ]
  ]

  step-IsLost : (e : Event) → step e w ≡ some v → IsLost j v
  unfolding step
  step-IsLost (request i op fd buf len) e = net_request-IsLost i op fd buf len e
  step-IsLost (polled fd a) e = netio_event-IsLost fd a e
  step-IsLost resumes e = resume-IsLost e
  step-IsLost (arrives fd more) e =
      let tasks : w.tasks ≡ v.tasks = ground arith in
      let poller : w.poller ≡ v.poller = ground arith in
      let ready : w.ready ≡ v.ready = ground arith in
      record {
        asleep =
            subst (λ ts. (t : Task) × (get_elem? ts j ≡ some t) × (t.asleep ≡ true)) tasks
              is.asleep;
        unarmed = subst (Unarmed j) poller is.unarmed;
        unready = subst (Unready j) ready is.unready;
      }

Reach-IsLost : (j : ℕ) {v w : World} → Reach v w → IsLost j v → IsLost j w
Reach-IsLost j here is = is
Reach-IsLost j (next e r q) is = step-IsLost j _ _ (Reach-IsLost j r is) e q

-- A registration in the place of the only one that there is for the task.
register-displaces :
    (j i fd : ℕ) (output : Bool) (p : Poller)
    → i ≢ j
    → ((fd' : ℕ) (it : Interest) → p fd' ≡ some it → it.task ≡ j → it.armed ≡ true → fd' ≡ fd)
    → Unarmed j (register p fd (some (record { output = output; task = i; armed = true })))
unfolding register
register-displaces j i fd output p ne only fd' it e same = elim (Bool-cases it.armed) [
  | inr off ↦ off
  | inl on ↦ elim (Bool-cases (fd' == fd)) [
    | inl here_fd ↦ absurd (ne ((let q : i ≡ it.task = ground arith in q) ∙ same))
    | inr other ↦
        let old : p fd' ≡ some it = ground arith in
        absurd (let q : fd' ≡ fd = only fd' it old same on in ground arith)
  ]
]

-- Where task j sleeps behind a registration of one descriptor, armed for it alone, and is not on the ready queue,
-- and another task makes a request on that descriptor, j sleeps for ever: no event, request or resumption
-- afterwards, in any order, wakes it or puts it on the ready queue. So it goes for two tasks of which one reads from
-- a connection while the other writes to it.
pub second_request_displaces :
    (j i fd : ℕ) (op : Op) (buf : List ℕ) (len : ℕ) (u v w : World)
    → ((t : Task) × (get_elem? u.tasks j ≡ some t) × (t.asleep ≡ true))
    → Unready j u.ready
    → ((fd' : ℕ) (it : Interest)
        → u.poller fd' ≡ some it
        → it.task ≡ j
        → it.armed ≡ true
        → fd' ≡ fd)
    → step (request i op fd buf len) u ≡ some v
    → Reach v w
    → IsLost j w
unfolding step net_request
second_request_displaces j i fd op buf len u v w (t, at, down) unready only e r =
    elim (Option-cases (get_elem? u.tasks i)) [
      | inl n ↦ absurd (ground arith)
      | inr (t', at') ↦ elim (Bool-cases t'.asleep) [
        | inl asleep ↦ absurd (ground arith)
        | inr up ↦
            let ne : i ≢ j = λ same.
              let q : some t' ≡ some t = sym at' ∙ ap (get_elem? u.tasks) same ∙ at in
              let a : t'.asleep ≡ t.asleep = ground arith in ground arith in
            let task : Task = record {
              asleep = true;
              io = record {
                fd = fd;
                buf = buf;
                req_n = len;
                done_n = pos 0;
                offset = 0;
                io_err = 0;
                io_done = false;
                op = op;
              };
            } in
            let v' : World = record u {
              tasks = set u.tasks i task;
              poller = arm u.poller fd (wants_output op) i;
            } in
            let eq : v' ≡ v = ground arith in
            Reach-IsLost j r (
              subst (IsLost j) eq (record {
                asleep = (t, get_elem?-set_ne u.tasks task ne ∙ at, down);
                unarmed =
                    rw (arm-register u.poller fd (wants_output op) i)
                      (register-displaces j i fd (wants_output op) u.poller ne only);
                unready = unready;
              }))
      ]
    ]
