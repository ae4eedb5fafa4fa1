-- ===== src/Reactor/Identity.antt =====
-- What the handlers of v4/webserver.cpp leave alone in a connection: the descriptor and the closed flag, and its time
-- of activity unless they read.
use tcp_server_client_cpp.Base.{
  ℕ, ◌≤◌, ◌≡◌, refl, ap, ◌∙◌, inl, inr, Bool, true, false, not, ◌||◌, List, [], ◌∷◌, arith, leb,
  if◌then◌else◌, Bool-cases, length, drop,
}
use tcp_server_client_cpp.Ring.{get_writeable_iovecs}
use tcp_server_client_cpp.Ring.Scatter.{Readv}
use tcp_server_client_cpp.Conn.{Connection, update_activity}
use tcp_server_client_cpp.Wire.{WriteResult, is_nil, attempt_write, is_fatal}
use tcp_server_client_cpp.Wire.Frame.{attempt_write-frame}
use tcp_server_client_cpp.Send.{
  Acted, enqueue, pause_if_high, write_and_arm, settle, send_pre_encoded, handle_write,
  arm_if_queued, flush_conn, BroadcastEvent, push_events, deliver, broadcast_to, excludes,
  max_outgoing_queue_size, wanted_events,
}
use tcp_server_client_cpp.Send.Update.{
  pause-flags, settle-flags, rearm-flags, arm-flags, update-events,
}
use tcp_server_client_cpp.Receive.{ReadAnswer, ready, no_data, take_in, readable, handle_read}

-- The descriptor, the closed flag and the time of activity.
abbrev pub identity : Connection → ℕ × Bool × ℕ
identity c = (c.fd, c.closed, c.last_activity)

if-identity :
    (c : Connection) (b : Bool) (x y : Acted)
    → identity x.conn ≡ identity c
    → identity y.conn ≡ identity c
    → identity (if b then x else y).conn ≡ identity c
if-identity c true x y h k = h
if-identity c false x y h k = k

attempt_write-identity :
    (c : Connection) (answers : List WriteResult)
    → identity (attempt_write c answers).conn ≡ identity c
attempt_write-identity c answers = ap identity (attempt_write-frame c answers)

enqueue-identity : (c : Connection) (payload : List ℕ) → identity (enqueue c payload) ≡ identity c
unfolding enqueue
enqueue-identity c payload = refl

pause-identity : (c : Connection) → identity (pause_if_high c) ≡ identity c
pause-identity c = ap identity (pause-flags c)

settle-identity : (c : Connection) → identity (settle c).0 ≡ identity c
settle-identity c = ap identity (settle-flags c)

arm-identity : (c : Connection) → identity (arm_if_queued c).0 ≡ identity c
arm-identity c = ap identity (arm-flags c)

write_and_arm-identity :
    (c : Connection) (answers : List WriteResult)
    → identity (write_and_arm c answers).conn ≡ identity c
unfolding write_and_arm
write_and_arm-identity c answers =
    ap identity (rearm-flags (attempt_write c answers).conn) ∙ attempt_write-identity c answers

pub send_pre_encoded-identity :
    (c : Connection) (packet : List ℕ) (answers : List WriteResult)
    → identity (send_pre_encoded c packet answers).conn ≡ identity c
unfolding send_pre_encoded
send_pre_encoded-identity c packet answers =
    let d = pause_if_high (enqueue c packet) in
    let same : identity d ≡ identity c =
      pause-identity (enqueue c packet) ∙ enqueue-identity c packet in
    if-identity c c.closed _ _ refl
      (settle-identity _ ∙ if-identity c _ _ _ (write_and_arm-identity d answers ∙ same) same)

pub handle_write-identity :
    (c : Connection) (answers : List WriteResult)
    → identity (handle_write c answers).0.conn ≡ identity c
unfolding handle_write
handle_write-identity c answers = elim (Bool-cases (is_fatal (attempt_write c answers).exit)) [
  | inl e ↦ rw e (attempt_write-identity c answers)
  | inr e ↦ rw e (
      ap identity (update-events _ (wanted_events (attempt_write c answers).conn))
      ∙ attempt_write-identity c answers)
]

pub flush_conn-identity :
    (c : Connection) (owns_lock : Bool) (answers : List WriteResult)
    → identity (flush_conn c owns_lock answers).conn ≡ identity c
unfolding flush_conn
flush_conn-identity c owns_lock answers =
    elim (Bool-cases (c.closed || not owns_lock || is_nil c.outgoing_queue)) [
      | inl e ↦ rw e refl
      | inr e ↦ rw e (arm-identity _ ∙ attempt_write-identity c answers)
    ]

push-identity :
    (c : Connection) (events : List BroadcastEvent)
    → identity (push_events c events).conn ≡ identity c
unfolding push_events
push-identity c [] = refl
push-identity c (e ∷ es) = elim (Bool-cases (excludes e c.fd)) [
  | inl f ↦ rw f (push-identity c es)
  | inr f ↦ elim (Bool-cases (leb max_outgoing_queue_size (length c.outgoing_queue))) [
    | inl g ↦ rw (f, g) refl
    | inr g ↦ rw (f, g) (push-identity (enqueue c e.payload) es ∙ enqueue-identity c e.payload)
  ]
]

pub broadcast_to-identity :
    (c : Connection) (events : List BroadcastEvent) (answers : List WriteResult)
    → identity (broadcast_to c events answers).conn ≡ identity c
unfolding broadcast_to deliver
broadcast_to-identity c events answers =
    let p = push_events (record c { has_codec = true }) events in
    let pushed : identity p.conn ≡ identity c =
      push-identity (record c { has_codec = true }) events in
    if-identity c c.closed _ _ refl (
      if-identity c p.added_any _ _
        (arm-identity _
          ∙ attempt_write-identity (pause_if_high p.conn) answers
          ∙ pause-identity p.conn
          ∙ pushed)
        pushed)

-- No read is earlier than `start`.
abbrev pub ReadsSince : ℕ → List ReadAnswer → Type 0
ReadsSince start [] = Unit {0}
ReadsSince start (ready k now ∷ answers) = (start ≤ now) × ReadsSince start answers
ReadsSince start (_ ∷ answers) = ReadsSince start answers

-- A later state of the same connection.
pub record Later (c d : Connection) : Type 0 where
  pub fd : d.fd ≡ c.fd
  pub closed : d.closed ≡ c.closed
  pub activity : c.last_activity ≤ d.last_activity

pub identity-Later : (c d : Connection) → identity d ≡ identity c → Later c d
identity-Later c d e = record {
  fd = ap (λ (x : ℕ × Bool × ℕ). x.0) e;
  closed = ap (λ (x : ℕ × Bool × ℕ). x.1) e;
  activity =
      let a : d.last_activity ≡ c.last_activity = ap (λ (x : ℕ × Bool × ℕ). x.2) e in omega arith;
}

module _ (sys : Readv) where
  take_in-later :
      (c : Connection) (bytes : List ℕ) (now : ℕ)
      → let d = (take_in sys c bytes now).1 in
        (d.fd ≡ c.fd) × (d.closed ≡ c.closed) × (d.last_activity ≡ now)
  unfolding take_in update_activity
  take_in-later c bytes now = (refl, refl, refl)

  -- Whatever the reads do, it is the same connection, and its time of activity does not go back.
  pub handle_read-Later :
      (start : ℕ) (c : Connection) (kernel : List ℕ) (answers : List ReadAnswer)
      → ReadsSince start answers
      → start ≤ c.last_activity
      → let d = (handle_read sys c kernel answers).conn in
        (d.fd ≡ c.fd) × (d.closed ≡ c.closed) × (start ≤ d.last_activity)
  unfolding handle_read
  handle_read-Later start c kernel [] r h =
      elim (Bool-cases (is_nil (get_writeable_iovecs c.in_buf))) [
        | inl e ↦ rw e (refl, refl, h)
        | inr e ↦ rw e (refl, refl, h)
      ]
  handle_read-Later start c kernel (ready k now ∷ answers) r h =
      let bytes = readable c kernel k in
      let d = (take_in sys c bytes now).1 in
      let same = take_in-later c bytes now in
      let later =
        handle_read-Later start d (drop (length bytes) kernel) answers r.1
          (omega (arith, same.2, r.0)) in
      elim (Bool-cases (is_nil (get_writeable_iovecs c.in_buf) || is_nil bytes)) [
        | inl e ↦ rw e (refl, refl, h)
        | inr e ↦ rw e (later.0 ∙ same.0, later.1 ∙ same.1, later.2)
      ]
  handle_read-Later start c kernel (no_data ∷ answers) r h = (refl, refl, h)
  handle_read-Later start c kernel (ReadAnswer.failed ∷ answers) r h = (refl, refl, h)
