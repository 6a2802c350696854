-- ===== src/TaskQueue/Ring.antt =====
-- The rings of waiting tasks of runtime/src/queue.c: circular doubly linked lists of `wait_q_metadata_t`,
-- each task holding the address of its own node. `unsafe_ioq_*` take no lock; `safe_gcq_*` do the same
-- under the mutex of the queue, whose state is modelled, since not every path gives it back.
pub mod Unlink
pub mod Lock
use picasso_lang.Base.{ℕ, Bool, true, false, ◌||◌, Option, none, some, ◌==◌, if◌then◌else◌}
use picasso_lang.Alloc.State.{Ptr, null}

-- `wait_q_metadata_t`
pub record Meta : Type 0 where
  pub fd : Ptr
  pub bk : Ptr
  pub t : Ptr

-- A queue with the nodes in reach, and for each task its `wq` (or `gcq`) field.
pub record Ring : Type 0 where
  pub size_limit : ℕ
  pub nodes : Ptr → Option Meta
  pub slot : Ptr → Ptr
  pub head : Ptr

abbrev pub update {ℓ} : {A : Type ℓ} → (Ptr → A) → Ptr → A → Ptr → A
update f p v a = if a == p then v else f a

unfoldable pub unsafe_ioq_init : ℕ → Ring → Ring
unsafe_ioq_init size r = record r { size_limit = size; head = null }

-- `p->fd = v` and `p->bk = v`; `none` where `p` holds no node.
unfoldable pub set_fd : Ptr → Ptr → Ring → Option Ring
set_fd p v r = elim (r.nodes p) [
  | none ↦ none
  | some m ↦ some (record r { nodes = update r.nodes p (some (record m { fd = v })) })
]

unfoldable pub set_bk : Ptr → Ptr → Ring → Option Ring
set_bk p v r = elim (r.nodes p) [
  | none ↦ none
  | some m ↦ some (record r { nodes = update r.nodes p (some (record m { bk = v })) })
]

infixl 5 ◌>>=◌
abbrev pub ◌>>=◌ {ℓ κ} : {A : Type ℓ} {B : Type κ} → Option A → (A → Option B) → Option B
none >>= k = none
some a >>= k = k a

-- `fresh` is what `allocate` returns; NULL aborts. The new node becomes the head.
unfoldable pub unsafe_ioq_push : Ptr → Ptr → Ring → Option Ring
unsafe_ioq_push fresh t r =
    let r' = record r { slot = update r.slot t fresh } in
    if fresh == null
    then none
    else if r.head == null
    then some (record r' {
      nodes = update r.nodes fresh (some (record { fd = fresh; bk = fresh; t = t }));
      head = fresh;
    })
    else (do
      h ← r.nodes r.head
      let r1 = record r' {
        nodes = update r.nodes fresh (some (record { fd = r.head; bk = h.bk; t = t }));
      }
      h1 ← r1.nodes r.head
      r2 ← set_fd h1.bk fresh r1
      r3 ← set_bk r.head fresh r2
      some (record r3 { head = fresh }))

-- Take the node at `wq` out of the ring and release it.
unfoldable pub unlink : Ptr → Ptr → Ring → Option Ring
unlink t wq r = do
  m ← r.nodes wq
  r' ←
      (if m.fd == wq then some (record r { head = null }) else do
        r1 ← set_bk m.fd m.bk r
        m1 ← r1.nodes wq
        r2 ← set_fd m1.bk m1.fd r1
        m2 ← r2.nodes wq
        some (record r2 { head = if r2.head == wq then m2.fd else r2.head }))
  some (record r' { nodes = update r'.nodes wq none; slot = update r'.slot t null })

-- Whether the task was removed, and the ring.
unfoldable pub unsafe_ioq_remove : Ptr → Ring → Option (Bool × Ring)
unsafe_ioq_remove t r =
    let wq = r.slot t in
    if (wq == null) || (r.head == null)
    then some (false, r)
    else do r' ← unlink t wq r; some (true, r')

-- `safe_gcqueue_t`: the ring and whether its mutex is held.
pub record SafeRing : Type 0 where
  pub ring : Ring
  pub held : Bool

-- `bad_unlock`: an unlock of a mutex that is not held, which is undefined. `bad_address`: an access where there is no
-- node. `aborted`: `abort` or an assertion.
pub data Locked (A : Type 0) : Type 0 where
  done : A → Locked A
  deadlock : Locked A
  bad_unlock : Locked A
  bad_address : Locked A
  aborted : Locked A

abbrev pub then_do : {A B : Type 0} → Locked A → (A → Locked B) → Locked B
then_do (done a) k = k a
then_do deadlock k = deadlock
then_do bad_unlock k = bad_unlock
then_do bad_address k = bad_address
then_do aborted k = aborted

abbrev pub defined : {A : Type 0} → Option A → Locked A
defined none = bad_address
defined (some a) = done a

-- A thread that locks a mutex which is held, and which nobody gives back, waits for ever.
unfoldable pub lock : SafeRing → Locked SafeRing
lock s = if s.held then deadlock else done (record s { held = true })

unfoldable pub unlock : SafeRing → Locked SafeRing
unlock s = if s.held then done (record s { held = false }) else bad_unlock

unfoldable pub safe_gcq_init : ℕ → Ring → SafeRing
safe_gcq_init size r = record { ring = record r { size_limit = size; head = null }; held = false }

unfoldable pub safe_gcq_push : Ptr → Ptr → SafeRing → Locked SafeRing
safe_gcq_push fresh t s =
    if fresh == null
    then aborted
    else then_do (lock s) λ s1.
      then_do (defined (unsafe_ioq_push fresh t s1.ring)) λ r. unlock (record s1 { ring = r })

-- The early return keeps the mutex; the branch of the last node gives it back before the common path
-- gives it back again.
unfoldable pub safe_gcq_remove : Ptr → SafeRing → Locked (Bool × SafeRing)
safe_gcq_remove t s = then_do (lock s) λ s1.
    let gcq = s1.ring.slot t in
    if (gcq == null) || (s1.ring.head == null)
    then done (false, s1)
    else then_do (defined (s1.ring.nodes gcq)) λ m.
      then_do (if m.fd == gcq then unlock s1 else done s1) λ s2.
        then_do (defined (unlink t gcq s2.ring))
          λ r. then_do (unlock (record s2 { ring = r })) λ s3. done (true, s3)
