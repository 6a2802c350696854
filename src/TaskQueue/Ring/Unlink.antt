-- ===== src/TaskQueue/Ring/Unlink.antt =====
-- A push into a ring of runtime/src/queue.c and the removal of what was pushed.
use picasso_lang.Base.{◌≡◌, ◌≢◌, refl, ap, true, false, none, some, arith, ◌==◌, if◌then◌else◌}
use picasso_lang.Alloc.State.{Ptr, null}
use picasso_lang.TaskQueue.Ring.{
  Meta, Ring, update, set_fd, set_bk, unsafe_ioq_push, unlink, unsafe_ioq_remove,
}

-- The head of a ring and the node before it, linked both ways.
pub record IsRing (r : Ring) (h b : Meta) : Type 0 where
  pub some_head : r.head ≢ null
  pub at_head : r.nodes r.head ≡ some h
  pub at_back : r.nodes h.bk ≡ some b
  pub linked : b.fd ≡ r.head

set_fd-at :
    (p v : Ptr) (r : Ring) (m : Meta)
    → r.nodes p ≡ some m
    → set_fd p v r ≡ some (record r { nodes = update r.nodes p (some (record m { fd = v })) })
unfolding set_fd
set_fd-at p v r m e = rw (e, set_fd)

set_bk-at :
    (p v : Ptr) (r : Ring) (m : Meta)
    → r.nodes p ≡ some m
    → set_bk p v r ≡ some (record r { nodes = update r.nodes p (some (record m { bk = v })) })
unfolding set_bk
set_bk-at p v r m e = rw (e, set_bk)

abbrev new_node : Ring → Meta → Ptr → Meta
new_node r h t = record { fd = r.head; bk = h.bk; t = t }

module _ (r : Ring) (h b : Meta) (fresh t : Ptr) (ring : IsRing r h b) (ne : fresh ≢ null)
    (unused : r.nodes fresh ≡ none) where
  not_null : (fresh == null) ≡ false
  not_null = ground arith

  some_head : (r.head == null) ≡ false
  some_head = ground (arith, ring.some_head)

  pub head_old : (r.head == fresh) ≡ false
  head_old = ground (arith, ring.at_head, ap r.nodes)

  back_old : (h.bk == fresh) ≡ false
  back_old = ground (arith, ring.at_back, ap r.nodes)

  pub fresh_head : (fresh == r.head) ≡ false
  fresh_head = ground (arith, head_old)

  pub fresh_back : (fresh == h.bk) ≡ false
  fresh_back = ground (arith, back_old)

  self : (p : Ptr) → (p == p) ≡ true
  self p = ground arith

  abbrev linked : Ring
  linked = record r {
    slot = update r.slot t fresh;
    nodes = update r.nodes fresh (some (new_node r h t));
  }

  -- The node behind the head, as it is when its `fd` has been set.
  abbrev back_set : Ring
  back_set = record linked { nodes = update linked.nodes h.bk (some (record b { fd = fresh })) }

  abbrev head_before : Meta
  head_before = if r.head == h.bk then record b { fd = fresh } else h

  abbrev head_after : Meta
  head_after = record head_before { bk = fresh }

  abbrev pub pushed : Ring
  pushed = record back_set { nodes = update back_set.nodes r.head (some head_after); head = fresh }

  head_node : back_set.nodes r.head ≡ some head_before
  head_node = ground (arith, head_old, ring.at_head)

  pub push-pushed : unsafe_ioq_push fresh t r ≡ some pushed
  unfolding unsafe_ioq_push
  push-pushed = simp (
    not_null,
    some_head,
    ring.at_head,
    head_old,
    set_fd-at h.bk fresh linked b (ground (arith, back_old, ring.at_back)),
    set_bk-at r.head fresh back_set head_before head_node,
  )

  abbrev bk_back : Ring
  bk_back = record pushed {
    nodes = update pushed.nodes r.head (some (record head_after { bk = h.bk }));
  }

  abbrev back_after : Meta
  back_after = if h.bk == r.head then record head_after { bk = h.bk } else record b { fd = fresh }

  abbrev fd_back : Ring
  fd_back = record bk_back {
    nodes = update bk_back.nodes h.bk (some (record back_after { fd = r.head }));
  }

  abbrev pub removed : Ring
  removed = record fd_back {
    head = r.head;
    nodes = update fd_back.nodes fresh none;
    slot = update fd_back.slot t null;
  }

  pub unlink-removed : unlink t fresh pushed ≡ some removed
  unfolding unlink
  unlink-removed =
      simp
        (
          self fresh,
          head_old,
          fresh_head,
          fresh_back,
          set_bk-at r.head h.bk pushed head_after (ground arith),
          set_fd-at h.bk r.head bk_back back_after (ground (arith, back_old)),
        )
        refl

  remove-removed : unsafe_ioq_remove t pushed ≡ some (true, removed)
  unfolding unsafe_ioq_remove
  remove-removed = simp (self t, not_null, unlink-removed)

  pub nodes_back : (a : Ptr) → removed.nodes a ≡ r.nodes a
  nodes_back a = ground (arith, ring.at_head, ring.at_back, ring.linked, unused, ap r.nodes)

  -- A task that is pushed into a ring that is not empty and removed again leaves every node, the head and
  -- the slots of the other tasks as they were, and its own slot NULL; both calls return.
  pub push-remove :
      (r1 r2 : Ring) × (unsafe_ioq_push fresh t r ≡ some r1)
      × (unsafe_ioq_remove t r1 ≡ some (true, r2))
      × ((a : Ptr) → r2.nodes a ≡ r.nodes a)
      × (r2.head ≡ r.head)
      × (r2.slot t ≡ null)
      × ((u : Ptr) → u ≢ t → r2.slot u ≡ r.slot u)
  push-remove = (
    pushed,
    removed,
    push-pushed,
    remove-removed,
    nodes_back,
    refl,
    ground arith,
    λ u ne. ground arith,
  )
