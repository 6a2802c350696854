-- ===== src/Net/Write.antt =====
-- A request of `__public__net_write` (runtime/src/netio.c) over the events that come for it.
use picasso_lang.Base.{
  ℕ, suc, ◌≡◌, refl, sym, ap, ◌∙◌, inl, inr, ◌+◌, ◌-◌, ◌≤◌, ◌<◌, min, true, none, some, List, [],
  ◌∷◌, ◌++◌, ltb, ltb→lt, Bool-cases, arith, length, length-drop, take, drop, append_assoc,
  take-add, drop-add,
}
use picasso_lang.Base.Int.{pos}
use picasso_lang.Text.Ops.Content.{read_bytes-at}
use picasso_lang.Net.{Answer, gives, again, fails, Io, Stream, rearm, done, skip, handle_write}

-- The request after events that are answered so, one after the other, until the task is made ready.
pub data Progress : Type 0 where
  pending : Io → Stream → Progress
  ready : Io → Stream → Progress
  wrong : Progress

unfoldable pub write_events : List Answer → Io → Stream → Progress
write_events [] io s = pending io s
write_events (a ∷ answers) io s = elim (handle_write a io s) [
  | none ↦ wrong
  | some h ↦ elim h.verdict [
    | rearm output ↦ write_events answers h.io h.stream
    | done deleted ↦ ready h.io h.stream
    | skip ↦ wrong
  ]
]

-- No answer is an error, and none sends nothing.
abbrev pub IsSending : List Answer → Type 0
IsSending [] = 0 ≤ 0
IsSending (gives k ∷ answers) = (0 < k) × IsSending answers
IsSending (again ∷ answers) = IsSending answers
IsSending (fails e ∷ answers) = 1 ≤ 0

abbrev pub sends : List Answer → ℕ
sends [] = 0
sends (gives k ∷ answers) = suc (sends answers)
sends (again ∷ answers) = sends answers
sends (fails e ∷ answers) = sends answers

-- What is left of the request has been sent, and the task is ready.
abbrev Sent : List Answer → Io → Stream → Type 0
Sent answers io s =
    (io' : Io) × (write_events answers io s
      ≡ ready io'
          (record s { sent = s.sent ++ take (io.req_n - io.offset) (drop io.offset io.buf) }))
    × (io'.done_n ≡ pos io.req_n)
    × (io'.io_done ≡ true)

write_events-Sent :
    (answers : List Answer) (io : Io) (s : Stream)
    → io.offset < io.req_n
    → io.req_n ≤ length io.buf
    → IsSending answers
    → io.req_n - io.offset ≤ sends answers
    → Sent answers io s
unfolding write_events handle_write
write_events-Sent [] io s h l m enough = absurd (omega arith)
write_events-Sent (fails e ∷ answers) io s h l m enough = absurd (omega arith)
write_events-Sent (again ∷ answers) io s h l m enough = write_events-Sent answers io s h l m enough
write_events-Sent (gives k ∷ answers) io s h l m enough =
    let n = io.req_n - io.offset in
    let w = min k n in
    let dl = length-drop io.offset io.buf in
    let positive : 0 < k = m.0 in
    let chunk = take w (drop io.offset io.buf) in
    elim (Bool-cases (ltb (io.offset + w) io.req_n)) [
      | inr last ↦
          let all : w ≡ n = ground arith in
          (
            record io { offset = io.offset + w; done_n = pos (io.offset + w); io_done = true },
            rw (read_bytes-at w (drop io.offset io.buf) (omega arith), write_events)
                (rw (last, write_events) (rw all refl)),
            ap pos (omega arith),
            refl,
          )
      | inl more ↦
          let io1 : Io = record io { offset = io.offset + w; done_n = pos (io.offset + w) } in
          let s1 : Stream = record s { sent = s.sent ++ chunk } in
          let t = ltb→lt (io.offset + w) io.req_n more in
          let (io', e, d, f) = write_events-Sent answers io1 s1 t l m.1 (omega arith) in
          let text : (s.sent ++ chunk)
                ++ take (io.req_n - (io.offset + w)) (drop (io.offset + w) io.buf)
              ≡ s.sent ++ take n (drop io.offset io.buf) =
            rw (sym (drop-add io.offset w (io.offset + w) io.buf refl)) (
              append_assoc s.sent chunk _
              ∙ ap (λ bs. s.sent ++ bs)
                  (take-add w (io.req_n - (io.offset + w)) n (drop io.offset io.buf)
                    (omega arith))) in
          (
            io',
            rw (read_bytes-at w (drop io.offset io.buf) (omega arith), write_events)
                (rw (more, write_events) (e ∙ ap (λ bs. ready io' (record s { sent = bs })) text)),
            d,
            f,
          )
    ]

-- A request to write n > 0 bytes of an array that has them, with events that are answered by EAGAIN or send
-- something, n of the latter at least: the worker sends exactly the n bytes in order, however they are split,
-- makes the task ready only then, and its result is n.
pub write_events-whole :
    (answers : List Answer) (io : Io) (s : Stream)
    → io.offset ≡ 0
    → 0 < io.req_n
    → io.req_n ≤ length io.buf
    → IsSending answers
    → io.req_n ≤ sends answers
    → (io' : Io) × (write_events answers io s
        ≡ ready io' (record s { sent = s.sent ++ take io.req_n io.buf }))
      × (io'.done_n ≡ pos io.req_n)
      × (io'.io_done ≡ true)
write_events-whole answers io s start h l m enough =
    let (io', e, d, f) = write_events-Sent answers io s (omega arith) l m (omega arith) in
    (
      io',
      e
          ∙ ap (λ bs. ready io' (record s { sent = s.sent ++ bs }))
              (rw start (ap (λ n. take n io.buf) (omega arith))),
      d,
      f,
    )
