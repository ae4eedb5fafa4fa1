-- ===== src/Send/Wakeup.antt =====
-- Registration for EPOLLOUT (v4/webserver.cpp): no call leaves packets queued on a connection that epoll has not been
-- asked to report as writable.
use tcp_server_client_cpp.Base.{
  ℕ, ◌+◌, ◌^◌, ◌<◌, ◌≡◌, refl, sym, ap, subst, ◌∙◌, ◌≢◌, Bool, true, false, not, ◌&&◌, List, [],
  ◌∷◌, ◌++◌, arith, length, flatten,
}
use tcp_server_client_cpp.Conn.{Connection, Events}
use tcp_server_client_cpp.Wire.{WriteResult}
use tcp_server_client_cpp.Wire.Loop.{IsSending}
use tcp_server_client_cpp.Send.{
  EpollCtl, send_pre_encoded, handle_write, flush_conn, BroadcastEvent, broadcast_to,
}
use tcp_server_client_cpp.Send.Keep.{addressed}
use tcp_server_client_cpp.Send.Registration.{
  last_mask, last_mask-append, Registers, send_pre_encoded-Registers, handle_write-Registers,
  flush_conn-Registers, broadcast_to-Registers,
}
use tcp_server_client_cpp.Send.Armed.{
  IsArmed, send_pre_encoded-IsArmed, handle_write-IsArmed, flush_conn-IsArmed, broadcast_to-IsArmed,
}
use tcp_server_client_cpp.Send.History.{
  Call, sends, writable, flushes, broadcasts, step, run, offered, addressed-le, step-Keeps,
  offered-step,
}

-- The mask that epoll holds is the one that the connection keeps, and it has EPOLLOUT wherever a packet waits.
pub record IsAwake (mask : Events) (c : Connection) : Type 0 where
  pub registered : mask ≡ c.current_epoll_events
  pub waits : c.outgoing_queue ≢ [] → (c.is_write_armed ≡ true) × (mask.epollout ≡ true)
  pub armed : c.is_write_armed ≡ true → mask.epollout ≡ true

IsAwake-IsArmed : {mask : Events} {c : Connection} → IsAwake mask c → IsArmed c
IsAwake-IsArmed w = record {
  waits = λ n. (w.waits n).0;
  armed = λ a. ap (λ (e : Events). e.epollout) (sym w.registered) ∙ w.armed a;
}

Registers-IsAwake :
    {mask : Events} {c d : Connection} {ctl : List EpollCtl}
    → mask ≡ c.current_epoll_events
    → Registers c d ctl
    → IsArmed d
    → IsAwake (last_mask c.fd mask ctl) d
Registers-IsAwake {mask} {c} {d} {ctl} e r h =
    let now : last_mask c.fd mask ctl ≡ d.current_epoll_events =
      ap (λ m. last_mask c.fd m ctl) e ∙ r.mask in
    let out : d.is_write_armed ≡ true → (last_mask c.fd mask ctl).epollout ≡ true =
      λ a. ap (λ (x : Events). x.epollout) now ∙ h.armed a in
    record { registered = now; waits = λ n. (h.waits n, out (h.waits n)); armed = out }

-- If the mask that epoll holds for the connection is the one that it keeps, packets wait only while the armed
-- flag is set, and the flag is set only while that mask has EPOLLOUT, then after `SendPreEncoded`, with the
-- calls of `epoll_ctl` that it makes this still holds.
pub send_pre_encoded-IsAwake :
    (mask : Events) (c : Connection) (packet : List ℕ) (answers : List WriteResult)
    → IsAwake mask c
    → let a = send_pre_encoded c packet answers in IsAwake (last_mask c.fd mask a.ctl) a.conn
send_pre_encoded-IsAwake mask c packet answers w =
    Registers-IsAwake w.registered (send_pre_encoded-Registers c packet answers)
      (send_pre_encoded-IsArmed c packet answers (IsAwake-IsArmed w))

handle_write-IsAwake :
    (mask : Events) (c : Connection) (answers : List WriteResult)
    → (handle_write c answers).1 ≡ false
    → mask ≡ c.current_epoll_events
    → let a = (handle_write c answers).0 in IsAwake (last_mask c.fd mask a.ctl) a.conn
handle_write-IsAwake mask c answers h e =
    Registers-IsAwake e (handle_write-Registers c answers h) (handle_write-IsArmed c answers h)

-- If the mask that epoll holds for the connection is the one that it keeps, packets wait only while the armed
-- flag is set, and the flag is set only while that mask has EPOLLOUT, and the send queue and the byte count
-- agree, then after `flush_all_queues` has passed the connection, with the calls of `epoll_ctl` that it makes
-- this still holds.
pub flush_conn-IsAwake :
    (mask : Events) (c : Connection) (owns_lock : Bool) (answers : List WriteResult)
    → IsSending c
    → IsAwake mask c
    → let a = flush_conn c owns_lock answers in IsAwake (last_mask c.fd mask a.ctl) a.conn
flush_conn-IsAwake mask c owns_lock answers v w =
    Registers-IsAwake w.registered (flush_conn-Registers c owns_lock answers)
      (flush_conn-IsArmed c owns_lock answers v (IsAwake-IsArmed w))

-- If the mask that epoll holds for the connection is the one that it keeps, packets wait only while the armed
-- flag is set, and the flag is set only while that mask has EPOLLOUT, the send queue and the byte count agree,
-- and what is pending and addressed stays below 2^63 bytes, then after a broadcast task, with the calls of
-- `epoll_ctl` that it makes this still holds.
pub broadcast_to-IsAwake :
    (mask : Events) (c : Connection) (events : List BroadcastEvent) (answers : List WriteResult)
    → IsSending c
    → c.pending_bytes + length (flatten (addressed c.fd events)) < 2 ^ 63
    → IsAwake mask c
    → let a = broadcast_to c events answers in IsAwake (last_mask c.fd mask a.ctl) a.conn
broadcast_to-IsAwake mask c events answers v h w =
    Registers-IsAwake w.registered (broadcast_to-Registers c events answers)
      (broadcast_to-IsArmed c events answers v h (IsAwake-IsArmed w))

-- A call does not ask to close the connection.
abbrev survives : Connection → Call → Bool
survives c (sends packet answers) = true
survives c (writable answers) = not (handle_write c answers).1
survives c (flushes owns_lock answers) = true
survives c (broadcasts events answers) = true

unfoldable pub all_survive : Connection → List Call → Bool
all_survive c [] = true
all_survive c (call ∷ calls) = survives c call && all_survive (step c call).conn calls

-- The calls of `epoll_ctl` over the whole history.
unfoldable pub all_ctl : Connection → List Call → List EpollCtl
all_ctl c [] = []
all_ctl c (call ∷ calls) = (step c call).ctl ++ all_ctl (step c call).conn calls

step-IsAwake :
    (mask : Events) (c : Connection) (call : Call) (calls : List Call)
    → IsSending c
    → c.pending_bytes + offered (call ∷ calls) < 2 ^ 63
    → survives c call ≡ true
    → IsAwake mask c
    → IsAwake (last_mask c.fd mask (step c call).ctl) (step c call).conn
unfolding step offered
step-IsAwake mask c (sends packet answers) calls v h s w =
    send_pre_encoded-IsAwake mask c packet answers w
step-IsAwake mask c (writable answers) calls v h s w =
    handle_write-IsAwake mask c answers (ground arith) w.registered
step-IsAwake mask c (flushes owns_lock answers) calls v h s w =
    flush_conn-IsAwake mask c owns_lock answers v w
step-IsAwake mask c (broadcasts events answers) calls v h s w =
    broadcast_to-IsAwake mask c events answers v (omega (arith, addressed-le c.fd events)) w

and_left : (b c : Bool) → b && c ≡ true → b ≡ true
and_left true c h = refl
and_left false c h = h

and_right : (b c : Bool) → b && c ≡ true → c ≡ true
and_right true c h = h
and_right false c h = cc h

-- On an open connection whose send queue and byte count agree, with less than 2^63 bytes pending and offered:
-- if the mask that epoll holds for the connection is the one that it keeps, packets wait only while the armed
-- flag is set, and the flag is set only while that mask has EPOLLOUT, then this holds after any sequence of
-- `SendPreEncoded`, `handle_write`, `flush_all_queues` and broadcast tasks of which none asks to close the
-- connection, for the mask that all their calls of `epoll_ctl` leave with epoll.
pub run-IsAwake :
    (mask : Events) (c : Connection) (calls : List Call)
    → IsSending c
    → c.closed ≡ false
    → c.pending_bytes + offered calls < 2 ^ 63
    → all_survive c calls ≡ true
    → IsAwake mask c
    → IsAwake (last_mask c.fd mask (all_ctl c calls)) (run c calls).1
unfolding run all_ctl all_survive
run-IsAwake mask c [] v o h s w = unfold last_mask in w
run-IsAwake mask c (call ∷ calls) v o h s w =
    let a = step c call in
    let k = step-Keeps call calls v o h in
    let now = step-IsAwake mask c call calls v h (and_left _ _ s) w in
    let later =
      run-IsAwake (last_mask c.fd mask a.ctl) a.conn calls k.sending (k.closed ∙ o)
        (offered-step call calls v o h) (and_right _ _ s) now in
    subst (λ m. IsAwake m (run a.conn calls).1)
      (ap (λ f. last_mask f (last_mask c.fd mask a.ctl) (all_ctl a.conn calls)) k.fd
        ∙ sym (last_mask-append c.fd mask a.ctl (all_ctl a.conn calls)))
      later
