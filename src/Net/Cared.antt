-- ===== src/Net/Cared.antt =====
-- Tasks that do not use one descriptor at the same time: none of their requests in runtime/src/netio.c is lost.
pub mod Steps
pub mod Alone
use picasso_lang.Base.{
  ℕ, ◌≡◌, ◌≢◌, refl, sym, ap, ◌∙◌, ◌⊎◌, inl, inr, ◌≤◌, Bool, true, false, Option, none, some, List,
  [], ◌∷◌, ◌++◌, ◌==◌, if◌then◌else◌, Option-cases, Bool-cases, arith, ℕ_discrete, get_elem?, set,
  get_elem?-set_self, get_elem?-set_ne,
}
use picasso_lang.Base.Tasks.{count, count-append, get_elem?-lt}
use picasso_lang.Net.{Op, io_listen, Io, Interest, Poller, Stream, Task, World}

abbrev pub is_listen : Op → Bool
is_listen io_listen = true
is_listen op = false

abbrev pub asleep_at : Option Task → ℕ
asleep_at none = 0
asleep_at (some t) = if t.asleep then 1 else 0

-- The task of an armed registration sleeps in a request on that descriptor, and is not ready.
pub record Armed (w : World) (fd : ℕ) (it : Interest) : Type 0 where
  pub task : Task
  pub at : get_elem? w.tasks it.task ≡ some task
  pub asleep : task.asleep ≡ true
  pub fd_of : task.io.fd ≡ fd
  pub listens : is_listen task.io.op ≡ false
  pub unready : count it.task w.ready ≡ 0

-- Task j is on the ready queue, or an event can come for it on the descriptor of its request.
abbrev pub Cared : World → ℕ → Task → Type 0
Cared w j t =
    (count j w.ready ≡ 1)
    ⊎ ((it : Interest) × (w.poller t.io.fd ≡ some it) × (it.armed ≡ true) × (it.task ≡ j))

pub record IsCared (w : World) : Type 0 where
  pub armed : (fd : ℕ) (it : Interest) → w.poller fd ≡ some it → it.armed ≡ true → Armed w fd it
  pub readied : (j : ℕ) → count j w.ready ≤ asleep_at (get_elem? w.tasks j)
  pub cared : (j : ℕ) (t : Task) → get_elem? w.tasks j ≡ some t → t.asleep ≡ true → Cared w j t

-- A step that concerns one task and one descriptor: the task sleeps afterwards, in a request on that descriptor.
module _ (w v : World) (is : IsCared w) (i fd : ℕ) (t t' : Task) (at : get_elem? w.tasks i ≡ some t)
    (tasks : v.tasks ≡ set w.tasks i t') (sleeps : t'.asleep ≡ true) (fd_of : t'.io.fd ≡ fd)
    (listens : is_listen t'.io.op ≡ false)
    (off : (fd' : ℕ) → fd' ≢ fd → v.poller fd' ≡ w.poller fd')
    (mine : (fd' : ℕ) (it : Interest)
      → w.poller fd' ≡ some it
      → it.armed ≡ true
      → it.task ≡ i
      → fd' ≡ fd)
    (free : (it : Interest) → w.poller fd ≡ some it → it.armed ≡ true → it.task ≡ i) where
  task_self : get_elem? v.tasks i ≡ some t'
  task_self =
      ap (λ ts. get_elem? ts i) tasks
      ∙ get_elem?-set_self w.tasks i t' (get_elem?-lt w.tasks i t at)

  task_other : (j : ℕ) → i ≢ j → get_elem? v.tasks j ≡ get_elem? w.tasks j
  task_other j ne = ap (λ ts. get_elem? ts j) tasks ∙ get_elem?-set_ne w.tasks t' ne

  -- The registrations of the other descriptors.
  Armed-off :
      ((j : ℕ) → i ≢ j → count j v.ready ≡ count j w.ready)
      → (fd' : ℕ) (it : Interest) → fd' ≢ fd
      → v.poller fd' ≡ some it
      → it.armed ≡ true
      → Armed v fd' it
  Armed-off ready fd' it ne e on =
      let old : w.poller fd' ≡ some it = sym (off fd' ne) ∙ e in
      let was = is.armed fd' it old on in
      let other : i ≢ it.task = λ same. ne (mine fd' it old on (sym same)) in
      record {
        task = was.task;
        at = task_other it.task other ∙ was.at;
        asleep = was.asleep;
        fd_of = was.fd_of;
        listens = was.listens;
        unready = ready it.task other ∙ was.unready;
      }

  Cared-off :
      ((j : ℕ) → i ≢ j → count j v.ready ≡ count j w.ready)
      → (j : ℕ) (s : Task) → i ≢ j
      → get_elem? v.tasks j ≡ some s
      → s.asleep ≡ true
      → Cared v j s
  Cared-off ready j s ne e down = elim (is.cared j s (sym (task_other j ne) ∙ e) down) [
    | inl q ↦ inl (ready j ne ∙ q)
    | inr (it, p, on, it_is) ↦
        let elsewhere : s.io.fd ≢ fd =
          λ same. ne (sym (free it (ap w.poller (sym same) ∙ p) on) ∙ it_is) in
        inr (it, off s.io.fd elsewhere ∙ p, on, it_is)
  ]

  readied_off :
      ((j : ℕ) → i ≢ j → count j v.ready ≡ count j w.ready)
      → (j : ℕ) → i ≢ j
      → count j v.ready ≤ asleep_at (get_elem? v.tasks j)
  readied_off ready j ne =
      let a = is.readied j in
      let b = ready j ne in let c = ap asleep_at (task_other j ne) in omega arith

  -- The descriptor is armed for the task.
  armed-IsCared :
      (new : Interest)
      → v.poller fd ≡ some new
      → new.armed ≡ true
      → new.task ≡ i
      → v.ready ≡ w.ready
      → count i w.ready ≡ 0
      → IsCared v
  armed-IsCared new at_fd on it_is ready unready =
      let same : (j : ℕ) → i ≢ j → count j v.ready ≡ count j w.ready = λ j ne. ap (count j) ready in
      record {
        armed = λ fd' it e on'. elim (ℕ_discrete fd' fd) [
          | no ne ↦ Armed-off same fd' it ne e on'
          | yes here_fd ↦
              let q : some it ≡ some new = sym e ∙ ap v.poller here_fd ∙ at_fd in
              let r : it ≡ new = ground arith in
              let me : it.task ≡ i = ap (λ (x : Interest). x.task) r ∙ it_is in
              record {
                task = t';
                at = ap (get_elem? v.tasks) me ∙ task_self;
                asleep = sleeps;
                fd_of = fd_of ∙ sym here_fd;
                listens = listens;
                unready = ap (λ j. count j v.ready) me ∙ ap (count i) ready ∙ unready;
              }
        ];
        readied = λ j. elim (ℕ_discrete i j) [
          | no ne ↦ readied_off same j ne
          | yes me ↦
              let z : count j v.ready ≡ 0 =
                ap (count j) ready ∙ ap (λ k. count k w.ready) (sym me) ∙ unready in
              omega arith
        ];
        cared = λ j s e down. elim (ℕ_discrete i j) [
          | no ne ↦ Cared-off same j s ne e down
          | yes me ↦
              let q : some s ≡ some t' = sym e ∙ ap (get_elem? v.tasks) (sym me) ∙ task_self in
              let r : s ≡ t' = ground arith in
              let f : s.io.fd ≡ fd = ap (λ (x : Task). x.io.fd) r ∙ fd_of in
              inr (new, ap v.poller f ∙ at_fd, on, it_is ∙ me)
        ];
      }

  -- The descriptor is no longer armed, and the task is put on the ready queue.
  readied-IsCared :
      ((it : Interest) → v.poller fd ≡ some it → it.armed ≡ false)
      → v.ready ≡ w.ready ++ (i ∷ [])
      → count i w.ready ≡ 0
      → IsCared v
  readied-IsCared unarmed ready unready =
      let total : (j : ℕ) → count j v.ready ≡ count j (w.ready ++ (i ∷ [])) =
        λ j. ap (count j) ready in
      let same : (j : ℕ) → i ≢ j → count j v.ready ≡ count j w.ready =
        λ j ne. let a = total j in let b = count-append j w.ready (i ∷ []) in ground arith in
      let one : count i v.ready ≡ 1 =
        (let a = total i in let b = count-append i w.ready (i ∷ []) in ground arith) in
      record {
        armed = λ fd' it e on. elim (ℕ_discrete fd' fd) [
          | no ne ↦ Armed-off same fd' it ne e on
          | yes here_fd ↦ absurd (
              let q : v.poller fd ≡ some it = ap v.poller (sym here_fd) ∙ e in
              let u = unarmed it q in ground arith)
        ];
        readied = λ j. elim (ℕ_discrete i j) [
          | no ne ↦ readied_off same j ne
          | yes me ↦
              let a : count j v.ready ≡ 1 = ap (λ k. count k v.ready) (sym me) ∙ one in
              let b = ap asleep_at (ap (get_elem? v.tasks) (sym me) ∙ task_self) in ground arith
        ];
        cared = λ j s e down. elim (ℕ_discrete i j) [
          | no ne ↦ Cared-off same j s ne e down
          | yes me ↦ inl (ap (λ k. count k v.ready) (sym me) ∙ one)
        ];
      }
