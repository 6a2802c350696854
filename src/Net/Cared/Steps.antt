-- ===== src/Net/Cared/Steps.antt =====
-- The steps of runtime/src/netio.c keep every request in someone's care.
use mathlib.Core.Path.{subst}
use picasso_lang.Base.{
  ℕ, ◌≡◌, ◌≢◌, refl, sym, ap, ◌∙◌, inl, inr, Bool, true, false, Option, none, some, List, ◌++◌,
  Option-cases, List-cases, Bool-cases, arith, ℕ_discrete, get_elem?, set, get_elem?-set_self,
  get_elem?-set_ne,
}
use picasso_lang.Base.Int.{pos}
use picasso_lang.Base.Tasks.{count, get_elem?-lt}
use picasso_lang.Net.{
  Op, io_listen, io_accept, io_read, io_write, io_connect, Io, Interest, Poller, Stream, register,
  netpoll_mod, netpoll_del, arm, Answer, gives, again, fails, Verdict, rearm, done, skip, Handled,
  failed_io, handle, handle_connect, handle_accept, handle_read, handle_write, settle, set_stream,
  wants_output, Task, World, net_request, netio_event, resume, arrives, step,
}
use picasso_lang.Net.Armed.{arm-register}
use picasso_lang.Net.Cared.{is_listen, asleep_at, IsCared, armed-IsCared, readied-IsCared}

abbrev Keeps : Op → Io → Handled → Type 0
Keeps op io h = (h.io.fd ≡ io.fd) × (h.io.op ≡ io.op) × (is_listen op ≡ false → h.verdict ≢ skip)

handle-Keeps :
    (op : Op) (a : Answer) (io : Io) (s : Stream) (h : Handled)
    → handle op a io s ≡ some h
    → Keeps op io h
unfolding handle handle_connect handle_accept handle_read handle_write failed_io
handle-Keeps io_listen a io s h e = ground arith
handle-Keeps io_accept (gives k) io s h e = ground arith
handle-Keeps io_accept again io s h e = ground arith
handle-Keeps io_accept (fails n) io s h e = ground arith
handle-Keeps io_connect (gives k) io s h e = ground arith
handle-Keeps io_connect again io s h e = ground arith
handle-Keeps io_connect (fails n) io s h e = ground arith
handle-Keeps io_read (gives k) io s h e = ground arith
handle-Keeps io_read again io s h e = ground arith
handle-Keeps io_read (fails n) io s h e = ground arith
handle-Keeps io_write (gives k) io s h e = ground arith
handle-Keeps io_write again io s h e = ground arith
handle-Keeps io_write (fails n) io s h e = ground arith

register_self : (p : Poller) (fd : ℕ) (o : Option Interest) → register p fd o fd ≡ o
unfolding register
register_self p fd o = ground arith

register_other :
    (p : Poller) (fd fd' : ℕ) (o : Option Interest) → fd' ≢ fd → register p fd o fd' ≡ p fd'
unfolding register
register_other p fd fd' o ne = ground arith

module _ (w v : World) (is : IsCared w) where
  pub net_request-IsCared :
      (i : ℕ) (op : Op) (fd : ℕ) (buf : List ℕ) (len : ℕ)
      → is_listen op ≡ false
      → ((it : Interest) → w.poller fd ≡ some it → it.armed ≡ false)
      → net_request i op fd buf len w ≡ some v
      → IsCared v
  unfolding net_request
  net_request-IsCared i op fd buf len listens alone e = elim (Option-cases (get_elem? w.tasks i)) [
    | inl n ↦ absurd (ground arith)
    | inr (t, at) ↦ elim (Bool-cases t.asleep) [
      | inl down ↦ absurd (ground arith)
      | inr up ↦
          let t' : Task = record {
            asleep = true;
            io = record {
              fd = fd;
              buf = buf;
              req_n = len;
              done_n = pos 0;
              offset = 0;
              io_err = 0;
              io_done = false;
              op = op;
            };
          } in
          let new : Interest = record { output = wants_output op; task = i; armed = true } in
          let v' : World = record w {
            tasks = set w.tasks i t';
            poller = arm w.poller fd (wants_output op) i;
          } in
          let eq : v' ≡ v = ground arith in
          let reg = arm-register w.poller fd (wants_output op) i in
          let zero_ready : count i w.ready ≡ 0 =
            (let a = is.readied i in let b = ap asleep_at at in ground arith) in
          subst IsCared eq (
            armed-IsCared w v' is i fd t t' at refl refl refl listens
              (λ fd' ne. rw reg (register_other w.poller fd fd' (some new) ne))
              (λ fd' it p on me. absurd (
                let was = is.armed fd' it p on in
                let q : some was.task ≡ some t = sym was.at ∙ ap (get_elem? w.tasks) me ∙ at in
                let r : was.task.asleep ≡ t.asleep = ground arith in
                let d = was.asleep in ground arith))
              (λ it p on. absurd (let off = alone it p in ground arith)) new
              (rw reg (register_self w.poller fd (some new))) refl refl refl zero_ready)
    ]
  ]

  pub resume-IsCared : resume w ≡ some v → IsCared v
  unfolding resume
  resume-IsCared e = elim (List-cases w.ready) [
    | inl n ↦ absurd (ground arith)
    | inr (i, rest, q) ↦ elim (Option-cases (get_elem? w.tasks i)) [
      | inl n ↦ absurd (ground arith)
      | inr (t, at) ↦ elim (Bool-cases t.asleep) [
        | inr up ↦ absurd (ground arith)
        | inl down ↦
            let t' : Task = record { asleep = false; io = t.io } in
            let v' : World = record w { tasks = set w.tasks i t'; ready = rest } in
            let eq : v' ≡ v = ground arith in
            let self = get_elem?-set_self w.tasks i t' (get_elem?-lt w.tasks i t at) in
            let split = λ (j : ℕ). ap (count j) q in
            subst IsCared eq (record {
              armed = λ fd it p on.
                  let was = is.armed fd it p on in
                  let ne : i ≢ it.task =
                    λ same. let a = split it.task in let b = was.unready in ground arith in
                  record {
                    task = was.task;
                    at = get_elem?-set_ne w.tasks t' ne ∙ was.at;
                    asleep = was.asleep;
                    fd_of = was.fd_of;
                    listens = was.listens;
                    unready = (let a = split it.task in let b = was.unready in ground arith);
                  };
              readied = λ j. elim (ℕ_discrete i j) [
                | yes me ↦
                    let a = split i in
                    let b = is.readied i in
                    let c = ap asleep_at at in
                    let none_left : count i rest ≡ 0 = ground arith in
                    let z : count j rest ≡ 0 = ap (λ k. count k rest) (sym me) ∙ none_left in
                    omega arith
                | no ne ↦
                    let a = split j in
                    let b = is.readied j in
                    let c = ap asleep_at (get_elem?-set_ne w.tasks t' ne) in ground arith
              ];
              cared = λ j s p asleep. elim (ℕ_discrete i j) [
                | yes me ↦
                    let r : some t' ≡ some s =
                      sym self ∙ ap (get_elem? (set w.tasks i t')) me ∙ p in
                    absurd (ground arith)
                | no ne ↦ elim (is.cared j s (sym (get_elem?-set_ne w.tasks t' ne) ∙ p) asleep) [
                  | inl one ↦ inl (let a = split j in ground arith)
                  | inr there ↦ inr there
                ]
              ];
            })
      ]
    ]
  ]

  pub arrives-IsCared : (fd : ℕ) (more : List ℕ) → step (arrives fd more) w ≡ some v → IsCared v
  unfolding step
  arrives-IsCared fd more e =
      let s = w.streams fd in
      let v' : World = record w {
        streams = set_stream w.streams fd (record s { incoming = s.incoming ++ more });
      } in
      let eq : v' ≡ v = ground arith in
      subst IsCared eq (record {
        armed = λ fd' it p on.
            let was = is.armed fd' it p on in
            record {
              task = was.task;
              at = was.at;
              asleep = was.asleep;
              fd_of = was.fd_of;
              listens = was.listens;
              unready = was.unready;
            };
        readied = is.readied;
        cared = is.cared;
      })

  -- What becomes of the descriptor of an event, once the task has been handled.
  module _ (fd : ℕ) (it : Interest) (t : Task) (h : Handled) (p : w.poller fd ≡ some it)
      (on : it.armed ≡ true) (at : get_elem? w.tasks it.task ≡ some t) (fd_of : t.io.fd ≡ fd)
      (h_fd : h.io.fd ≡ fd) (h_listens : is_listen h.io.op ≡ false) (down : t.asleep ≡ true)
      (unready : count it.task w.ready ≡ 0) (not_skip : h.verdict ≢ skip) where
    disarmed : Poller
    disarmed = register w.poller fd (some (record it { armed = false }))

    after : Verdict → Poller × List ℕ
    after v = settle it.task (record h { verdict = v }) disarmed w.ready

    settled : Verdict → World
    settled v = record {
      tasks = set w.tasks it.task (record { asleep = t.asleep; io = h.io });
      poller = (after v).0;
      streams = set_stream w.streams t.io.fd h.stream;
      ready = (after v).1;
    }

    mine :
        (fd' : ℕ) (it' : Interest)
        → w.poller fd' ≡ some it'
        → it'.armed ≡ true
        → it'.task ≡ it.task
        → fd' ≡ fd
    mine fd' it' q on' same =
        let was = is.armed fd' it' q on' in
        let r : some was.task ≡ some t = sym was.at ∙ ap (get_elem? w.tasks) same ∙ at in
        let s : was.task ≡ t = ground arith in sym was.fd_of ∙ ap (λ (x : Task). x.io.fd) s ∙ fd_of

    free : (it' : Interest) → w.poller fd ≡ some it' → it'.armed ≡ true → it'.task ≡ it.task
    free it' q on' = let r : some it' ≡ some it = sym q ∙ p in ground arith

    disarmed_off : (fd' : ℕ) → fd' ≢ fd → disarmed fd' ≡ w.poller fd'
    unfolding disarmed
    disarmed_off fd' ne = register_other w.poller fd fd' (some (record it { armed = false })) ne

    disarmed_self : disarmed fd ≡ some (record it { armed = false })
    unfolding disarmed
    disarmed_self = register_self w.poller fd (some (record it { armed = false }))

    rearm-IsCared : (output : Bool) → IsCared (settled (rearm output))
    unfolding settled after settle netpoll_mod
    rearm-IsCared output =
        let new : Interest = record { output = output; task = it.task; armed = true } in
        let mod_is : netpoll_mod disarmed h.io.fd output it.task ≡ register disarmed fd (some new) =
          rw h_fd (rw (disarmed_self, netpoll_mod) refl) in
        armed-IsCared w (settled (rearm output)) is it.task fd t
          (record { asleep = t.asleep; io = h.io }) at refl down h_fd h_listens
          (λ fd' ne.
            ap (λ (q : Poller). q fd') mod_is
            ∙ register_other disarmed fd fd' (some new) ne
            ∙ disarmed_off fd' ne)
          mine free new (ap (λ (q : Poller). q fd) mod_is ∙ register_self disarmed fd (some new))
          refl refl refl unready

    done-IsCared : (deleted : Bool) → IsCared (settled (done deleted))
    unfolding settled after settle netpoll_del
    done-IsCared true =
        let del_is : netpoll_del disarmed h.io.fd ≡ register disarmed fd none =
          ap (λ x. register disarmed x none) h_fd in
        readied-IsCared w (settled (done true)) is it.task fd t
          (record { asleep = t.asleep; io = h.io }) at refl down h_fd h_listens
          (λ fd' ne.
            ap (λ (q : Poller). q fd') del_is
            ∙ register_other disarmed fd fd' none ne
            ∙ disarmed_off fd' ne)
          mine free
          (λ it' q. absurd (
            let r : none ≡ some it' =
              sym (register_self disarmed fd none) ∙ sym (ap (λ (x : Poller). x fd) del_is) ∙ q in
            ground arith))
          refl unready
    done-IsCared false =
        readied-IsCared w (settled (done false)) is it.task fd t
          (record { asleep = t.asleep; io = h.io }) at refl down h_fd h_listens disarmed_off mine
          free
          (λ it' q.
            let r : some (record it { armed = false }) ≡ some it' = sym disarmed_self ∙ q in
            ground arith)
          refl unready

    settled-IsCared : (verdict : Verdict) → h.verdict ≡ verdict → IsCared (settled verdict)
    settled-IsCared (rearm output) e = rearm-IsCared output
    settled-IsCared (done deleted) e = done-IsCared deleted
    settled-IsCared skip e = absurd (not_skip e)

  pub netio_event-IsCared : (fd : ℕ) (a : Answer) → netio_event fd a w ≡ some v → IsCared v
  unfolding netio_event settled after disarmed
  netio_event-IsCared fd a e = elim (Option-cases (w.poller fd)) [
    | inl n ↦ absurd (ground arith)
    | inr (it, p) ↦ elim (Option-cases (get_elem? w.tasks it.task)) [
      | inl n ↦ absurd (ground arith)
      | inr (t, at) ↦
          let io : Io = record t.io { io_err = 0 } in
          elim (Option-cases (handle io.op a io (w.streams io.fd))) [
            | inl n ↦ absurd (ground arith)
            | inr (h, q) ↦ elim (Bool-cases it.armed) [
              | inr off ↦ absurd (ground arith)
              | inl on ↦
                  let was = is.armed fd it p on in
                  let r : some was.task ≡ some t = sym was.at ∙ at in
                  let same : was.task ≡ t = ground arith in
                  let (keeps_fd, keeps_op, no_skip) =
                    handle-Keeps io.op a io (w.streams io.fd) h q in
                  let fd_of : t.io.fd ≡ fd = ap (λ (x : Task). x.io.fd) (sym same) ∙ was.fd_of in
                  let listens : is_listen t.io.op ≡ false =
                    ap (λ (x : Task). is_listen x.io.op) (sym same) ∙ was.listens in
                  let down : t.asleep ≡ true =
                    ap (λ (x : Task). x.asleep) (sym same) ∙ was.asleep in
                  let cared =
                    settled-IsCared fd it t h p on at fd_of (keeps_fd ∙ fd_of)
                      (ap is_listen keeps_op ∙ listens) down was.unready (no_skip listens) h.verdict
                      refl in
                  subst IsCared (ground arith) cared
            ]
          ]
    ]
  ]
