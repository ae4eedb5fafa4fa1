-- ===== src/Wire/Loop.antt =====
-- `WebServer::attempt_write` (v4/webserver.cpp) as a stream: what it hands to the kernel and what it keeps.
use tcp_server_client_cpp.Base.{
  ℕ, zero, suc, ◌^◌, ◌≤◌, ◌<◌, ◌≡◌, refl, sym, ap, ap₂, ◌∙◌, inl, inr, Bool, true, false, ◌&&◌,
  List, [], ◌∷◌, ◌++◌, append_assoc, arith, leb, Bool-cases, length, drop, length-drop,
  take-append-drop,
}
use tcp_server_client_cpp.Conn.{Connection, OutgoingPacket}
use tcp_server_client_cpp.Wire.{
  WriteResult, wrote, would_block, failed, Exit, drained, blocked, errored, unanswered, Sent, taken,
  returned, stop, behind, account, advance, low_water_mark, pop_sent, resume_reading, write_loop,
  attempt_write,
}
use tcp_server_client_cpp.Wire.Advance.{
  unsent, IsQueue, advance-unsent, advance-IsQueue, pop_sent-unsent, pop_sent-IsQueue, taken-take,
  length-taken, is_nil-cases,
}

-- The queue is well formed, and `pending_bytes` counts the bytes still to be sent.
pub record IsSending (c : Connection) : Type 0 where
  pub queue : IsQueue c.outgoing_queue
  pub pending : c.pending_bytes ≡ length (unsent c.outgoing_queue)
  pub small : c.pending_bytes < 2 ^ 63

-- `attempt_write` leaves these fields alone.
pub record SameSocket (c d : Connection) : Type 0 where
  pub fd : d.fd ≡ c.fd
  pub has_codec : d.has_codec ≡ c.has_codec
  pub in_buf : d.in_buf ≡ c.in_buf
  pub closed : d.closed ≡ c.closed
  pub events : d.current_epoll_events ≡ c.current_epoll_events
  pub armed : d.is_write_armed ≡ c.is_write_armed
  pub activity : d.last_activity ≡ c.last_activity

-- The bytes that the kernel took, then the bytes kept, are the bytes that were to be sent.
pub record Sends (c : Connection) (s : Sent) : Type 0 where
  pub stream : s.wire ++ unsent s.conn.outgoing_queue ≡ unsent c.outgoing_queue
  pub sending : IsSending s.conn
  pub same : SameSocket c s.conn

pub SameSocket-refl : (c : Connection) → SameSocket c c
SameSocket-refl c = record {
  fd = refl;
  has_codec = refl;
  in_buf = refl;
  closed = refl;
  events = refl;
  armed = refl;
  activity = refl;
}

pub SameSocket-trans : {c d e : Connection} → SameSocket c d → SameSocket d e → SameSocket c e
SameSocket-trans p q = record {
  fd = q.fd ∙ p.fd;
  has_codec = q.has_codec ∙ p.has_codec;
  in_buf = q.in_buf ∙ p.in_buf;
  closed = q.closed ∙ p.closed;
  events = q.events ∙ p.events;
  armed = q.armed ∙ p.armed;
  activity = q.activity ∙ p.activity;
}

-- One round: the packets that are sent go, and `n` bytes go out.
abbrev pub trim : Connection → Connection
trim c = record c { outgoing_queue = pop_sent c.outgoing_queue }

pub trim-IsSending : {c : Connection} → IsSending c → IsSending (trim c)
trim-IsSending {c} v = record {
  queue = pop_sent-IsQueue c.outgoing_queue v.queue;
  pending = v.pending ∙ ap length (sym (pop_sent-unsent c.outgoing_queue));
  small = v.small;
}

pub account-IsSending :
    {c : Connection} (n : ℕ) → IsSending c → IsSending (account c (returned c.outgoing_queue n))
unfolding account
account-IsSending {c} n v =
    let k : ℕ = returned c.outgoing_queue n in
    let le : k ≤ length (unsent c.outgoing_queue) = length-taken c.outgoing_queue n in
    let left : unsent (advance k c.outgoing_queue).1 ≡ drop k (unsent c.outgoing_queue) =
      advance-unsent k c.outgoing_queue v.queue (omega (arith, v.pending, v.small)) in
    let counted : leb k c.pending_bytes ≡ true = ground (arith, v.pending) in
    rw counted (record {
      queue = advance-IsQueue k c.outgoing_queue v.queue;
      pending = omega (arith, ap length left, length-drop k (unsent c.outgoing_queue), v.pending);
      small = omega (arith, v.small);
    })

pub account-stream :
    {c : Connection} (n : ℕ)
    → IsSending c
    → taken c.outgoing_queue n ++ unsent (account c (returned c.outgoing_queue n)).outgoing_queue
      ≡ unsent c.outgoing_queue
unfolding account
account-stream {c} n v =
    let k : ℕ = returned c.outgoing_queue n in
    let le : k ≤ length (unsent c.outgoing_queue) = length-taken c.outgoing_queue n in
    ap₂ ◌++◌ (taken-take c.outgoing_queue n)
      (advance-unsent k c.outgoing_queue v.queue (omega (arith, v.pending, v.small)))
    ∙ take-append-drop k (unsent c.outgoing_queue)

-- A connection that differs in the queue, the count and the pause flag.
pub touched-same :
    (c : Connection) (q : List OutgoingPacket) (n : ℕ) (b : Bool)
    → SameSocket c (record c { outgoing_queue = q; pending_bytes = n; is_reading_paused = b })
touched-same c q n b = record {
  fd = refl;
  has_codec = refl;
  in_buf = refl;
  closed = refl;
  events = refl;
  armed = refl;
  activity = refl;
}

-- The loop stops before a round.
stop-Sends : {c : Connection} (e : Exit) → IsSending c → Sends c (stop (trim c) e)
stop-Sends {c} e v = record {
  stream = pop_sent-unsent c.outgoing_queue;
  sending = trim-IsSending v;
  same = touched-same c (pop_sent c.outgoing_queue) c.pending_bytes c.is_reading_paused;
}

resume-Sends : {c : Connection} → IsSending c → Sends c (stop (resume_reading (trim c)) drained)
unfolding resume_reading
resume-Sends {c} v = elim (Bool-cases (c.is_reading_paused && leb c.pending_bytes low_water_mark)) [
  | inl e ↦ rw e (record {
    stream = pop_sent-unsent c.outgoing_queue;
    sending = record {
      queue = (trim-IsSending v).queue;
      pending = (trim-IsSending v).pending;
      small = v.small;
    };
    same = touched-same c (pop_sent c.outgoing_queue) c.pending_bytes false;
  })
  | inr e ↦ rw e (stop-Sends drained v)
]

-- A round, then the rest.
behind-Sends :
    {c : Connection} (n packets : ℕ) (s : Sent)
    → IsSending c
    → Sends (account (trim c) (returned (pop_sent c.outgoing_queue) n)) s
    → Sends c (behind (taken (pop_sent c.outgoing_queue) n) packets s)
unfolding account
behind-Sends {c} n packets s v h = record {
  stream =
      append_assoc (taken q n) s.wire (unsent s.conn.outgoing_queue)
      ∙ ap (λ t. taken q n ++ t) h.stream
      ∙ account-stream n (trim-IsSending v)
      ∙ pop_sent-unsent c.outgoing_queue;
  sending = h.sending;
  same = SameSocket-trans (touched-same c _ _ c.is_reading_paused) h.same;
}
  where
    q : List OutgoingPacket
    q = pop_sent c.outgoing_queue

write_loop-Sends :
    (c : Connection) (answers : List WriteResult) → IsSending c → Sends c (write_loop c answers)
unfolding write_loop
write_loop-Sends c [] v = elim (is_nil-cases (pop_sent c.outgoing_queue)) [
  | inl (e, _) ↦ rw e (resume-Sends v)
  | inr e ↦ rw e (stop-Sends unanswered v)
]
write_loop-Sends c (wrote zero ∷ answers) v = elim (is_nil-cases (pop_sent c.outgoing_queue)) [
  | inl (e, _) ↦ rw e (resume-Sends v)
  | inr e ↦
      let later = write_loop-Sends (trim c) answers (trim-IsSending v) in
      rw e (record {
        stream = later.stream ∙ pop_sent-unsent c.outgoing_queue;
        sending = later.sending;
        same =
            SameSocket-trans
              (touched-same c (pop_sent c.outgoing_queue) c.pending_bytes c.is_reading_paused)
              later.same;
      })
]
write_loop-Sends c (wrote (suc n) ∷ answers) v = elim (is_nil-cases (pop_sent c.outgoing_queue)) [
  | inl (e, _) ↦ rw e (resume-Sends v)
  | inr e ↦ rw e (
      behind-Sends (suc n) _ _ v (
        write_loop-Sends (account (trim c) (returned (pop_sent c.outgoing_queue) (suc n))) answers
          (account-IsSending (suc n) (trim-IsSending v))))
]
write_loop-Sends c (would_block ∷ answers) v = elim (is_nil-cases (pop_sent c.outgoing_queue)) [
  | inl (e, _) ↦ rw e (resume-Sends v)
  | inr e ↦ rw e (stop-Sends blocked v)
]
write_loop-Sends c (failed ∷ answers) v = elim (is_nil-cases (pop_sent c.outgoing_queue)) [
  | inl (e, _) ↦ rw e (resume-Sends v)
  | inr e ↦ rw e (stop-Sends errored v)
]

-- If the send queue and the byte count agree, then for any answers of the kernel the bytes that
-- `attempt_write` hands over and then those still queued are those that were queued, in order; `pending_bytes`
-- counts those still queued, and the descriptor, the closed flag, the input ring, the armed flag and the event
-- mask stay as they are.
pub attempt_write-Sends :
    (c : Connection) (answers : List WriteResult) → IsSending c → Sends c (attempt_write c answers)
unfolding attempt_write
attempt_write-Sends c answers v = elim (is_nil-cases c.outgoing_queue) [
  | inl (e, _) ↦ rw e (record { stream = refl; sending = v; same = SameSocket-refl c })
  | inr e ↦ rw e (write_loop-Sends c answers v)
]
