-- ===== src/Send/Armed.antt =====
-- The flag and the mask that a connection keeps (v4/webserver.cpp): where a packet waits, the flag is set and the mask
-- has EPOLLOUT.
use tcp_server_client_cpp.Base.{
  ℕ, ◌+◌, ◌^◌, ◌<◌, ◌≡◌, refl, sym, ap, ◌∙◌, ◌≢◌, inl, inr, Bool, true, false, not, ◌||◌, List, [],
  ◌∷◌, arith, leb, Bool-cases, length, flatten,
}
use tcp_server_client_cpp.Conn.{Connection, Events}
use tcp_server_client_cpp.Wire.{WriteResult, is_nil, is_fatal, attempt_write}
use tcp_server_client_cpp.Wire.Loop.{IsSending, attempt_write-Sends}
use tcp_server_client_cpp.Send.{
  enqueue, pause_if_high, arm_if_queued, settle, wanted_events, send_pre_encoded, handle_write,
  flush_conn, BroadcastEvent, Pushed, push_events, deliver, broadcast_to, excludes,
  max_outgoing_queue_size,
}
use tcp_server_client_cpp.Send.Update.{
  with_flags, pause-flags, settle-flags, arm-flags, update-events,
}
use tcp_server_client_cpp.Send.Keep.{push-Keeps, addressed, admitted}
use tcp_server_client_cpp.Send.Stream.{Keeps, flagged}

-- `is_write_armed` is true only if the mask has EPOLLOUT.
abbrev pub IsArmedRight : Connection → Type 0
IsArmedRight c = c.is_write_armed ≡ true → c.current_epoll_events.epollout ≡ true

-- And it is true wherever a packet waits.
pub record IsArmed (c : Connection) : Type 0 where
  pub waits : c.outgoing_queue ≢ [] → c.is_write_armed ≡ true
  pub armed : IsArmedRight c

not-is_nil {ℓ} : {A : Type ℓ} (xs : List A) → xs ≢ [] → not (is_nil xs) ≡ true
unfolding is_nil
not-is_nil [] h = absurd (h refl)
not-is_nil (x ∷ xs) h = refl

-- The flags as `settle` sets them.
settled-IsArmed :
    (c : Connection) (e : Events) (paused codec : Bool)
    → e.epollout ≡ not (is_nil c.outgoing_queue)
    → IsArmed (with_flags c e (not (is_nil c.outgoing_queue)) paused codec)
settled-IsArmed c e paused codec h = record {
  waits = λ n. not-is_nil c.outgoing_queue n;
  armed = λ a. h ∙ a;
}

settle-IsArmed : (c : Connection) → IsArmed (settle c).0
settle-IsArmed c = rw (settle-flags c) (
    settled-IsArmed c (wanted_events c) c.is_reading_paused c.has_codec
      (unfold wanted_events in refl))

arm-IsArmed : (c : Connection) → IsArmedRight c → IsArmed (arm_if_queued c).0
arm-IsArmed c h = rw (arm-flags c) (record {
  waits = λ n. or_right c.is_write_armed (not-is_nil c.outgoing_queue n);
  armed = λ a. ground arith;
})
  where
    or_right : (a : Bool) {b : Bool} → b ≡ true → (a || b) ≡ true
    or_right true e = refl
    or_right false e = e

write-IsArmedRight :
    (c : Connection) (answers : List WriteResult)
    → IsSending c
    → IsArmedRight c
    → IsArmedRight (attempt_write c answers).conn
write-IsArmedRight c answers v h =
    let s = (attempt_write-Sends c answers v).same in rw (s.armed, s.events) h

pub send_pre_encoded-IsArmed :
    (c : Connection) (packet : List ℕ) (answers : List WriteResult)
    → IsArmed c
    → IsArmed (send_pre_encoded c packet answers).conn
unfolding send_pre_encoded
send_pre_encoded-IsArmed c packet answers w = elim (Bool-cases c.closed) [
  | inl e ↦ simp e w
  | inr e ↦ simp e (settle-IsArmed _)
]

pub handle_write-IsArmed :
    (c : Connection) (answers : List WriteResult)
    → (handle_write c answers).1 ≡ false
    → IsArmed (handle_write c answers).0.conn
unfolding handle_write
handle_write-IsArmed c answers h = elim (Bool-cases (is_fatal (attempt_write c answers).exit)) [
  | inl e ↦ cc (rw (e, handle_write) at h)
  | inr e ↦
      rw (e, update-events _ (wanted_events (attempt_write c answers).conn))
        (settled-IsArmed (attempt_write c answers).conn
          (wanted_events (attempt_write c answers).conn) _ _ (unfold wanted_events in refl))
]

pub flush_conn-IsArmed :
    (c : Connection) (owns_lock : Bool) (answers : List WriteResult)
    → IsSending c
    → IsArmed c
    → IsArmed (flush_conn c owns_lock answers).conn
unfolding flush_conn
flush_conn-IsArmed c owns_lock answers v w =
    elim (Bool-cases (c.closed || not owns_lock || is_nil c.outgoing_queue)) [
      | inl e ↦ rw e w
      | inr e ↦ rw e (arm-IsArmed _ (write-IsArmedRight c answers v w.armed))
    ]

-- Pushing packets leaves the flags alone, and without a packet the queue too.
record Pushes (c : Connection) (p : Pushed) : Type 0 where
  armed : p.conn.is_write_armed ≡ c.is_write_armed
  events : p.conn.current_epoll_events ≡ c.current_epoll_events
  unmoved : p.added_any ≡ false → p.conn.outgoing_queue ≡ c.outgoing_queue

push-Pushes : (c : Connection) (es : List BroadcastEvent) → Pushes c (push_events c es)
unfolding push_events
push-Pushes c [] = record { armed = refl; events = refl; unmoved = λ h. refl }
push-Pushes c (e ∷ es) = elim (Bool-cases (excludes e c.fd)) [
  | inl left_out ↦ rw left_out (push-Pushes c es)
  | inr meant ↦ elim (Bool-cases (leb max_outgoing_queue_size (length c.outgoing_queue))) [
    | inl at_limit ↦
        rw (meant, at_limit) (record { armed = refl; events = refl; unmoved = λ h. refl })
    | inr below ↦
        let later = push-Pushes (enqueue c e.payload) es in
        rw (meant, below)
          (record {
            armed = later.armed ∙ armed_enqueue c e.payload;
            events = later.events ∙ events_enqueue c e.payload;
            unmoved = λ h. cc;
          })
  ]
]
  where
    armed_enqueue : (d : Connection) (x : List ℕ) → (enqueue d x).is_write_armed ≡ d.is_write_armed
    armed_enqueue d x = unfold enqueue in refl

    events_enqueue :
        (d : Connection) (x : List ℕ) → (enqueue d x).current_epoll_events ≡ d.current_epoll_events
    events_enqueue d x = unfold enqueue in refl

deliver-IsArmed :
    (c : Connection) (events : List BroadcastEvent) (answers : List WriteResult)
    → IsSending c
    → c.pending_bytes + length (flatten (addressed c.fd events)) < 2 ^ 63
    → IsArmed c
    → IsArmed (deliver c events answers).conn
unfolding deliver
deliver-IsArmed c events answers v h w = elim (Bool-cases p.added_any) [
  | inl e ↦ rw e (
      arm-IsArmed _ (write-IsArmedRight (pause_if_high p.conn) answers paused.sending paused_right))
  | inr e ↦ rw e (record {
    waits = λ n. pushes.armed ∙ w.waits (rw (pushes.unmoved e) at n);
    armed = λ a. ap (λ ev. ev.epollout) pushes.events ∙ w.armed (sym pushes.armed ∙ a);
  })
]
  where
    coded : Connection
    coded = record c { has_codec = true }

    p : Pushed
    p = push_events coded events

    pushes : Pushes coded p
    pushes = push-Pushes coded events

    pushed : Keeps coded (flatten (admitted coded events)) [] p.conn
    pushed =
        push-Keeps {c = coded} events
          (record { queue = v.queue; pending = v.pending; small = v.small }) h

    paused : Keeps coded (flatten (admitted coded events)) [] (pause_if_high p.conn)
    paused = flagged _ _ _ _ pushed (pause-flags p.conn)

    paused_right : IsArmedRight (pause_if_high p.conn)
    paused_right =
        rw (pause-flags p.conn)
          (λ a. ap (λ ev. ev.epollout) pushes.events ∙ w.armed (sym pushes.armed ∙ a))

pub broadcast_to-IsArmed :
    (c : Connection) (events : List BroadcastEvent) (answers : List WriteResult)
    → IsSending c
    → c.pending_bytes + length (flatten (addressed c.fd events)) < 2 ^ 63
    → IsArmed c
    → IsArmed (broadcast_to c events answers).conn
unfolding broadcast_to
broadcast_to-IsArmed c events answers v h w = elim (Bool-cases c.closed) [
  | inl e ↦ simp e w
  | inr e ↦ simp e (deliver-IsArmed c events answers v h w)
]
