-- ===== src/Send/Update.antt =====
-- Lemmas on the small steps of the sending side (v4/webserver.cpp): changing the epoll mask, queueing a packet,
-- and the flags.
use tcp_server_client_cpp.Base.{
  ℕ, ◌+◌, ◌^◌, ◌<◌, ◌≡◌, refl, sym, ap, ◌∙◌, inl, inr, Bool, true, false, not, ◌&&◌, ◌||◌, List, [],
  ◌∷◌, ◌++◌, append-nil, append_assoc, arith, leb, if◌then◌else◌, Bool-cases, length, drop,
  length-append, add_size,
}
use tcp_server_client_cpp.Conn.{Connection, OutgoingPacket, Events}
use tcp_server_client_cpp.Wire.{is_nil}
use tcp_server_client_cpp.Wire.Advance.{unsent, IsQueue}
use tcp_server_client_cpp.Wire.Loop.{IsSending}
use tcp_server_client_cpp.Send.{
  mods, same_events, update_epoll_events, enqueue, pause_if_high, rearm, arm_if_queued, settle,
  wanted_events, high_water_mark,
}

pub same_events-eq : (a b : Events) → same_events a b ≡ true → a ≡ b
unfolding same_events
same_events-eq a b h = ground arith

-- Whether or not `epoll_ctl` is called, the connection has the new mask.
pub update-events :
    (c : Connection) (e : Events)
    → (update_epoll_events c e).0 ≡ record c { current_epoll_events = e }
unfolding update_epoll_events
update-events c e = elim (Bool-cases (same_events c.current_epoll_events e)) [
  | inl same ↦ rw (same, ← same_events-eq c.current_epoll_events e same)
  | inr new ↦ rw new
]

-- `epoll_ctl` is called exactly when the mask changes.
pub update-ctl :
    (c : Connection) (e : Events)
    → (update_epoll_events c e).1
      ≡ (if same_events c.current_epoll_events e then [] else mods c.fd e ∷ [])
unfolding update_epoll_events
update-ctl c e = ground arith

-- A connection that differs in flags only.
pub record SameQueue (c d : Connection) : Type 0 where
  pub outgoing : d.outgoing_queue ≡ c.outgoing_queue
  pub pending : d.pending_bytes ≡ c.pending_bytes
  pub fd : d.fd ≡ c.fd
  pub closed : d.closed ≡ c.closed
  pub in_buf : d.in_buf ≡ c.in_buf

-- The flags given anew.
abbrev pub with_flags : Connection → Events → Bool → Bool → Bool → Connection
with_flags c e armed paused codec = record c {
  current_epoll_events = e;
  is_write_armed = armed;
  is_reading_paused = paused;
  has_codec = codec;
}

pub with_flags-SameQueue :
    (c : Connection) (e : Events) (armed paused codec : Bool)
    → SameQueue c (with_flags c e armed paused codec)
with_flags-SameQueue c e armed paused codec = record {
  outgoing = refl;
  pending = refl;
  fd = refl;
  closed = refl;
  in_buf = refl;
}

pub pause-flags :
    (c : Connection)
    → pause_if_high c
      ≡ with_flags c c.current_epoll_events c.is_write_armed
          (c.is_reading_paused || leb high_water_mark c.pending_bytes)
          c.has_codec
unfolding pause_if_high
pause-flags c = ground arith

pub settle-flags :
    (c : Connection)
    → (settle c).0
      ≡ with_flags c
          (wanted_events c)
          (not (is_nil c.outgoing_queue))
          c.is_reading_paused
          c.has_codec
unfolding settle
settle-flags c = update-events _ (wanted_events c)

pub rearm-flags :
    (c : Connection)
    → let (d, e) = rearm c in
      (update_epoll_events d e).0
      ≡ with_flags c
          (record (c.current_epoll_events) {
            epollout =
                if is_nil c.outgoing_queue
                then c.current_epoll_events.epollout && not c.is_write_armed
                else (c.current_epoll_events.epollout || not c.is_write_armed);
          })
          (not (is_nil c.outgoing_queue))
          c.is_reading_paused
          c.has_codec
unfolding rearm
rearm-flags c = ground (
  arith,
  update-events c c.current_epoll_events,
  update-events (record c { is_write_armed = false })
      (record (c.current_epoll_events) { epollout = false }),
  update-events (record c { is_write_armed = true })
      (record (c.current_epoll_events) { epollout = true }),
)

pub arm-flags :
    (c : Connection)
    → (arm_if_queued c).0
      ≡ with_flags c
          (record (c.current_epoll_events) {
            epollout =
                c.current_epoll_events.epollout
                || (not (is_nil c.outgoing_queue) && not c.is_write_armed);
          })
          (c.is_write_armed || not (is_nil c.outgoing_queue))
          c.is_reading_paused
          c.has_codec
unfolding arm_if_queued
arm-flags c = ground (arith, update-events c (record (c.current_epoll_events) { epollout = true }))

pub unsent-append : (q r : List OutgoingPacket) → unsent (q ++ r) ≡ unsent q ++ unsent r
unsent-append [] r = refl
unsent-append (p ∷ q) r =
    ap (λ t. drop p.sent_offset p.payload ++ t) (unsent-append q r)
    ∙ sym (append_assoc (drop p.sent_offset p.payload) (unsent q) (unsent r))

IsQueue-append : (q r : List OutgoingPacket) → IsQueue q → IsQueue r → IsQueue (q ++ r)
IsQueue-append [] r v w = w
IsQueue-append (p ∷ q) r v w = (v.0, v.1, IsQueue-append q r v.2 w)

-- Queueing a packet that the counter has room for.
pub enqueue-unsent :
    (c : Connection) (payload : List ℕ)
    → unsent (enqueue c payload).outgoing_queue ≡ unsent c.outgoing_queue ++ payload
unfolding enqueue
enqueue-unsent c payload =
    unsent-append c.outgoing_queue (record { payload = payload; sent_offset = 0 } ∷ [])
    ∙ ap (λ t. unsent c.outgoing_queue ++ t) (append-nil payload)

pub enqueue-IsSending :
    {c : Connection} (payload : List ℕ)
    → IsSending c
    → c.pending_bytes + length payload < 2 ^ 63
    → IsSending (enqueue c payload)
enqueue-IsSending {c} payload v h =
    let count : add_size c.pending_bytes (length payload) ≡ c.pending_bytes + length payload =
      omega arith in
    record {
      queue = queue_of;
      pending =
          count_of
          ∙ omega (
            arith,
            ap length (enqueue-unsent c payload),
            length-append (unsent c.outgoing_queue) payload,
            v.pending,
          );
      small = omega (arith, count_of);
    }
  where
    count_of : (enqueue c payload).pending_bytes ≡ c.pending_bytes + length payload
    count_of = unfold enqueue in omega arith

    queue_of : IsQueue (enqueue c payload).outgoing_queue
    queue_of =
        unfold enqueue in
        IsQueue-append c.outgoing_queue (record { payload = payload; sent_offset = 0 } ∷ []) v.queue
          (omega arith, omega arith, tt)
