-- ===== src/Send/Keep.antt =====
-- The calls of the sending side (v4/webserver.cpp) as a byte stream: what each accepts, sends and keeps.
use tcp_server_client_cpp.Base.{
  ℕ, suc, ◌+◌, ◌-◌, ◌^◌, ◌<◌, ◌≡◌, refl, sym, ap₂, subst, ◌∙◌, inl, inr, Bool, true, false, not,
  ◌&&◌, ◌||◌, List, [], ◌∷◌, append-nil, arith, ltb, leb, if◌then◌else◌, Bool-cases, length, take,
  flatten, length-append, take_all,
}
use tcp_server_client_cpp.Conn.{Connection}
use tcp_server_client_cpp.Wire.{WriteResult, is_nil, is_fatal, attempt_write}
use tcp_server_client_cpp.Wire.Loop.{IsSending, attempt_write-Sends}
use tcp_server_client_cpp.Send.{
  enqueue, pause_if_high, wanted_events, write_and_arm, batch_flush_threshold, send_pre_encoded,
  handle_write, flush_conn, BroadcastEvent, excludes, Pushed, push_events, deliver, broadcast_to,
  max_outgoing_queue_size,
}
use tcp_server_client_cpp.Send.Update.{
  with_flags-SameQueue, pause-flags, settle-flags, rearm-flags, arm-flags, update-events,
  enqueue-unsent, enqueue-IsSending,
}
use tcp_server_client_cpp.Send.Stream.{
  Keeps-flags, Keeps-then, Keeps, Keeps-refl, Keeps-trans, flagged,
}

write-Keeps :
    (c : Connection) (answers : List WriteResult)
    → IsSending c
    → Keeps c [] (attempt_write c answers).wire (attempt_write c answers).conn
write-Keeps c answers v =
    let s = attempt_write-Sends c answers v in
    record {
      stream = s.stream ∙ sym (append-nil _);
      sending = s.sending;
      fd = s.same.fd;
      closed = s.same.closed;
      in_buf = s.same.in_buf;
    }

enqueue-Keeps :
    {c : Connection} (payload : List ℕ)
    → IsSending c
    → c.pending_bytes + length payload < 2 ^ 63
    → Keeps c payload [] (enqueue c payload)
enqueue-Keeps {c} payload v h = record {
  stream = enqueue-unsent c payload;
  sending = enqueue-IsSending payload v h;
  fd = unfold enqueue in refl;
  closed = unfold enqueue in refl;
  in_buf = unfold enqueue in refl;
}

pause-Keeps : {c : Connection} → IsSending c → Keeps c [] [] (pause_if_high c)
pause-Keeps {c} v = flagged _ _ _ _ (Keeps-refl v) (pause-flags c)

write_and_arm-Keeps :
    (c : Connection) (answers : List WriteResult)
    → IsSending c
    → Keeps c [] (write_and_arm c answers).wire (write_and_arm c answers).conn
unfolding write_and_arm
write_and_arm-Keeps c answers v =
    flagged _ _ _ _ (write-Keeps c answers v) (rearm-flags (attempt_write c answers).conn)

-- `SendPreEncoded` on an open connection accepts the packet whole, behind what is queued.
pub send_pre_encoded-Keeps :
    {c : Connection} (packet : List ℕ) (answers : List WriteResult)
    → IsSending c
    → c.closed ≡ false
    → c.pending_bytes + length packet < 2 ^ 63
    → let a = send_pre_encoded c packet answers in Keeps c packet a.wire a.conn
unfolding send_pre_encoded
send_pre_encoded-Keeps {c} packet answers v open_ h =
    simp open_
      (elim (Bool-cases
        (ltb batch_flush_threshold d.pending_bytes || d.is_write_armed || was_empty)) [
          | inl e ↦ rw e (
              flagged _ _ _ _ (Keeps-then queued (write_and_arm-Keeps d answers queued.sending))
                (settle-flags (write_and_arm d answers).conn))
          | inr e ↦ rw e (flagged _ _ _ _ queued (settle-flags d))
        ])
  where
    was_empty : Bool
    was_empty = is_nil c.outgoing_queue && not c.is_write_armed

    d : Connection
    d = pause_if_high (enqueue c packet)

    queued : Keeps c packet [] d
    queued = flagged _ _ _ _ (enqueue-Keeps packet v h) (pause-flags (enqueue c packet))

-- `handle_write` accepts nothing.
pub handle_write-Keeps :
    (c : Connection) (answers : List WriteResult)
    → IsSending c
    → let a = (handle_write c answers).0 in Keeps c [] a.wire a.conn
unfolding handle_write
handle_write-Keeps c answers v = elim (Bool-cases (is_fatal (attempt_write c answers).exit)) [
  | inl e ↦ rw e (Keeps-flags (write-Keeps c answers v) (with_flags-SameQueue _ _ _ _ _))
  | inr e ↦ rw e (
      flagged _ _ _ _ (write-Keeps c answers v)
        (update-events _ (wanted_events (attempt_write c answers).conn)))
]

-- `flush_all_queues` accepts nothing.
pub flush_conn-Keeps :
    (c : Connection) (owns_lock : Bool) (answers : List WriteResult)
    → IsSending c
    → let a = flush_conn c owns_lock answers in Keeps c [] a.wire a.conn
unfolding flush_conn
flush_conn-Keeps c owns_lock answers v =
    elim (Bool-cases (c.closed || not owns_lock || is_nil c.outgoing_queue)) [
      | inl e ↦ rw e (Keeps-refl v)
      | inr e ↦
          rw e
            (flagged _ _ _ _ (write-Keeps c answers v) (arm-flags (attempt_write c answers).conn))
    ]

-- The payloads that a connection is to get: those that do not leave it out, as long as the queue has room.
abbrev pub addressed : ℕ → List BroadcastEvent → List (List ℕ)
addressed fd [] = []
addressed fd (e ∷ es) = if excludes e fd then addressed fd es else e.payload ∷ addressed fd es

abbrev pub admitted : Connection → List BroadcastEvent → List (List ℕ)
admitted c events = take (max_outgoing_queue_size - length c.outgoing_queue) (addressed c.fd events)

fd-enqueue : (c : Connection) (payload : List ℕ) → (enqueue c payload).fd ≡ c.fd
unfolding enqueue
fd-enqueue c payload = refl

length-enqueue :
    (c : Connection) (payload : List ℕ)
    → length (enqueue c payload).outgoing_queue ≡ length c.outgoing_queue + 1
unfolding enqueue
length-enqueue c payload = length-append c.outgoing_queue _

pending-enqueue :
    (c : Connection) (payload : List ℕ)
    → c.pending_bytes + length payload < 2 ^ 63
    → (enqueue c payload).pending_bytes ≡ c.pending_bytes + length payload
unfolding enqueue
pending-enqueue c payload h = omega arith

-- Behind a queued packet there is room for one fewer.
rest-admitted :
    (c : Connection) (payload : List ℕ) (es : List BroadcastEvent) {d : Connection}
    → Keeps (enqueue c payload) (flatten (admitted (enqueue c payload) es)) [] d
    → Keeps
        (enqueue c payload)
        (flatten
          (take (max_outgoing_queue_size - (length c.outgoing_queue + 1)) (addressed c.fd es)))
        []
        d
rest-admitted c payload es {d} k =
    subst (λ t. Keeps (enqueue c payload) (flatten t) [] d)
      (ap₂ (λ n fd. take (max_outgoing_queue_size - n) (addressed fd es)) (length-enqueue c payload)
        (fd-enqueue c payload))
      k

pub push-Keeps :
    {c : Connection} (events : List BroadcastEvent)
    → IsSending c
    → c.pending_bytes + length (flatten (addressed c.fd events)) < 2 ^ 63
    → Keeps c (flatten (admitted c events)) [] (push_events c events).conn
unfolding push_events
push-Keeps {c} [] v h =
    rw (take_all {A = List ℕ} (max_outgoing_queue_size - length c.outgoing_queue) [] (omega arith))
      (Keeps-refl v)
push-Keeps {c} (e ∷ es) v h = elim (Bool-cases (excludes e c.fd)) [
  | inl left_out ↦ rw left_out (push-Keeps {c = c} es v (simp left_out at h))
  | inr meant ↦
      let room : c.pending_bytes + length (flatten (e.payload ∷ addressed c.fd es)) < 2 ^ 63 =
        simp meant at h in
      let parts = length-append e.payload (flatten (addressed c.fd es)) in
      elim (Bool-cases (leb max_outgoing_queue_size (length c.outgoing_queue))) [
        | inl at_limit ↦
            let none_left : max_outgoing_queue_size - length c.outgoing_queue ≡ 0 = ground arith in
            rw (meant, at_limit, none_left) (Keeps-refl v)
        | inr below ↦
            let one_less : max_outgoing_queue_size - length c.outgoing_queue
                ≡ suc (max_outgoing_queue_size - (length c.outgoing_queue + 1)) =
              ground arith in
            let k = enqueue-Keeps e.payload v (omega (arith, room, parts)) in
            rw (meant, below, one_less)
              (Keeps-trans k (
                rest-admitted c e.payload es (
                  push-Keeps {c = enqueue c e.payload} es k.sending (
                    rw
                      (
                        fd-enqueue c e.payload,
                        pending-enqueue c e.payload (omega (arith, room, parts)),
                      )
                      (omega (arith, room, parts))))))
      ]
]

deliver-Keeps :
    {c : Connection} (events : List BroadcastEvent) (answers : List WriteResult)
    → IsSending c
    → c.pending_bytes + length (flatten (addressed c.fd events)) < 2 ^ 63
    → let a = deliver c events answers in Keeps c (flatten (admitted c events)) a.wire a.conn
unfolding deliver
deliver-Keeps {c} events answers v h = elim (Bool-cases p.added_any) [
  | inl e ↦ rw e (
      flagged _ _ _ _
        (Keeps-then (flagged _ _ _ _ pushed (pause-flags p.conn)) (
          write-Keeps (pause_if_high p.conn) answers
            (flagged _ _ _ _ pushed (pause-flags p.conn)).sending))
        (arm-flags (attempt_write (pause_if_high p.conn) answers).conn))
  | inr e ↦ rw e pushed
]
  where
    coded : Connection
    coded = record c { has_codec = true }

    p : Pushed
    p = push_events coded events

    coded_IsSending : IsSending coded
    coded_IsSending = record { queue = v.queue; pending = v.pending; small = v.small }

    from_coded :
        {accepted wire : List ℕ} {d : Connection}
        → Keeps coded accepted wire d
        → Keeps c accepted wire d
    from_coded k = record {
      stream = k.stream;
      sending = k.sending;
      fd = k.fd;
      closed = k.closed;
      in_buf = k.in_buf;
    }

    pushed : Keeps c (flatten (admitted c events)) [] p.conn
    pushed = from_coded (push-Keeps {c = coded} events coded_IsSending h)

-- On an open connection whose send queue and byte count agree, with less than 2^63 bytes pending and
-- addressed: a broadcast task queues exactly the payloads addressed to the connection, in order, up to the
-- queue's limit; the bytes handed to the kernel and then those queued are the old queue's and then theirs, and
-- the byte count stays exact.
pub broadcast_to-Keeps :
    {c : Connection} (events : List BroadcastEvent) (answers : List WriteResult)
    → IsSending c
    → c.closed ≡ false
    → c.pending_bytes + length (flatten (addressed c.fd events)) < 2 ^ 63
    → let a = broadcast_to c events answers in Keeps c (flatten (admitted c events)) a.wire a.conn
unfolding broadcast_to
broadcast_to-Keeps {c} events answers v open_ h = simp open_ (deliver-Keeps events answers v h)
