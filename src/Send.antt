-- ===== src/Send.antt =====
-- The sending side of v4/webserver.cpp on one connection: `SendPreEncoded`, `handle_write`, and what
-- `flush_all_queues` and a task of `process_global_queue` do to a connection. Each body runs under the
-- connection's mutex, so it is one step. The calls of `epoll_ctl` are listed in order.
pub mod Update
pub mod Stream
pub mod Keep
pub mod Registration
pub mod Armed
pub mod Wakeup
pub mod History
pub mod Tests
use tcp_server_client_cpp.Base.{
  ℕ, zero, suc, ◌+◌, ◌-◌, ◌*◌, ◌/◌, ◌%◌, ◌^◌, ◌≤◌, ◌<◌, min, max, String, ◌≡◌, refl, sym, ap, ap₂,
  subst, ◌∙◌, ◌≡⟨◌⟩◌, ◌∎, ◌≢◌, ◌↔◌, ◌⊎◌, inl, inr, Bool, true, false, not, ◌&&◌, ◌||◌, Option, none,
  some, List, [], ◌∷◌, ◌++◌, map, append-nil, append_assoc, arith, ltb, leb, ◌==◌, if◌then◌else◌,
  lt→ltb, le→ltb, ltb→lt, ltb→le, ==_iff, ==_refl, ==_ne, Bool-cases, Option-cases, length, get_or,
  take, drop, replicate, flatten, flatten-append, length-append, length-take, length-drop,
  length-replicate, take-append-drop, take_all, drop_all, take-append_left, drop-append_left,
  drop-append_right, drop-drop, take-append, drop-append, get_or-append, get_or-append_left,
  get_or-take, get_or-drop, take-take, drop-take, take-min, drop-min, drop-min_le, eq-nil, list_ext,
  size_mod, u32_mod, add_size, sub_size, add_u32, sub_size_lem, add_size_lem,
}
use tcp_server_client_cpp.Ring.{full}
use tcp_server_client_cpp.Conn.{Connection, OutgoingPacket, Events}
use tcp_server_client_cpp.Wire.{WriteResult, Sent, Exit, attempt_write, is_nil, is_fatal}

-- A call of `epoll_ctl`; each event mask also has EPOLLET.
pub data EpollCtl : Type 0 where
  adds mods : ℕ → Events → EpollCtl
  dels : ℕ → EpollCtl

-- What a call leaves: the connection, the bytes that the kernel took (`on_bytes_sent` counts them), the packets
-- sent to their end (`on_message_sent_count`) and the calls of `epoll_ctl`.
pub record Acted : Type 0 where
  pub conn : Connection
  pub wire : List ℕ
  pub done : ℕ
  pub ctl : List EpollCtl

-- `HIGH_WATER_MARK`, `BATCH_FLUSH_THRESHOLD` and `MAX_OUTGOING_QUEUE_SIZE`.
abbrev pub high_water_mark : ℕ
high_water_mark = 256 * 1024

abbrev pub batch_flush_threshold : ℕ
batch_flush_threshold = 4096

abbrev pub max_outgoing_queue_size : ℕ
max_outgoing_queue_size = 5000

abbrev pub same_bit : Bool → Bool → Bool
same_bit true b = b
same_bit false b = not b

unfoldable pub same_events : Events → Events → Bool
same_events a b = same_bit a.epollin b.epollin && same_bit a.epollout b.epollout

-- `add_fd_to_epoll` and `mod_fd_epoll`.
unfoldable pub add_fd_to_epoll : ℕ → Events → List EpollCtl
add_fd_to_epoll fd events = adds fd events ∷ []

unfoldable pub mod_fd_epoll : ℕ → Events → List EpollCtl
mod_fd_epoll fd events = mods fd events ∷ []

unfoldable pub update_epoll_events : Connection → Events → Connection × List EpollCtl
unfolding mod_fd_epoll
update_epoll_events c new_events =
    if same_events c.current_epoll_events new_events
    then (c, [])
    else (record c { current_epoll_events = new_events }, mod_fd_epoll c.fd new_events)

-- `OutgoingPacket pkt; pkt.payload = packet; outgoing_queue.push_back(pkt); pending_bytes += …`
unfoldable pub enqueue : Connection → List ℕ → Connection
enqueue c payload = record c {
  outgoing_queue = c.outgoing_queue ++ (record { payload = payload; sent_offset = 0 } ∷ []);
  pending_bytes = add_size c.pending_bytes (length payload);
}

-- The high water mark.
unfoldable pub pause_if_high : Connection → Connection
pause_if_high c =
    if not c.is_reading_paused && leb high_water_mark c.pending_bytes
    then record c { is_reading_paused = true }
    else c

-- The `if` on the queue after the write: arm or disarm EPOLLOUT.
unfoldable pub rearm : Connection → Connection × Events
rearm d =
    if is_nil d.outgoing_queue && d.is_write_armed
    then (record d { is_write_armed = false }, record (d.current_epoll_events) { epollout = false })
    else if not (is_nil d.outgoing_queue) && not d.is_write_armed
    then (record d { is_write_armed = true }, record (d.current_epoll_events) { epollout = true })
    else (d, d.current_epoll_events)

-- The inner block of `SendPreEncoded`.
unfoldable pub write_and_arm : Connection → List WriteResult → Acted
write_and_arm c answers =
    let s = attempt_write c answers in
    let (d, events) = rearm s.conn in
    let (e, ctl) = update_epoll_events d events in
    record { conn = e; wire = s.wire; done = s.packets_done; ctl = ctl }

-- Nothing is written.
abbrev pub idle : Connection → Acted
idle c = record { conn = c; wire = []; done = 0; ctl = [] }

-- The mask that `SendPreEncoded` and `handle_write` end with, from scratch.
unfoldable pub wanted_events : Connection → Events
wanted_events c = record {
  epollin = not c.is_reading_paused && not (full c.in_buf);
  epollout = not (is_nil c.outgoing_queue);
}

-- The end of `SendPreEncoded`.
unfoldable pub settle : Connection → Connection × List EpollCtl
settle c =
    update_epoll_events (record c { is_write_armed = not (is_nil c.outgoing_queue) })
      (wanted_events c)

unfoldable pub send_pre_encoded : Connection → List ℕ → List WriteResult → Acted
send_pre_encoded c packet answers =
    let was_empty = is_nil c.outgoing_queue && not c.is_write_armed in
    let d = pause_if_high (enqueue c packet) in
    let a =
      if ltb batch_flush_threshold d.pending_bytes || d.is_write_armed || was_empty
      then write_and_arm d answers
      else idle d in
    let (e, ctl) = settle a.conn in
    if c.closed
    then idle c
    else record { conn = e; wire = a.wire; done = a.done; ctl = a.ctl ++ ctl }

-- `handle_write`, with the answer whether the connection has to be closed.
unfoldable pub handle_write : Connection → List WriteResult → Acted × Bool
handle_write c answers =
    let s = attempt_write c answers in
    let should_close = is_fatal s.exit in
    let d = record (s.conn) { is_write_armed = not (is_nil (s.conn).outgoing_queue) } in
    let (e, ctl) = update_epoll_events d (wanted_events s.conn) in
    if should_close
    then (record { conn = d; wire = s.wire; done = s.packets_done; ctl = [] }, true)
    else (record { conn = e; wire = s.wire; done = s.packets_done; ctl = ctl }, false)

-- `if(!outgoing_queue.empty() && !is_write_armed)`: register EPOLLOUT.
unfoldable pub arm_if_queued : Connection → Connection × List EpollCtl
arm_if_queued c =
    let (d, ctl) = update_epoll_events c (record (c.current_epoll_events) { epollout = true }) in
    if not (is_nil c.outgoing_queue) && not c.is_write_armed
    then (record d { is_write_armed = true }, ctl)
    else (c, [])

-- `flush_all_queues` on a connection of its list; `owns_lock` is what `try_to_lock` gave.
unfoldable pub flush_conn : Connection → Bool → List WriteResult → Acted
flush_conn c owns_lock answers =
    let s = attempt_write c answers in
    let (d, ctl) = arm_if_queued s.conn in
    if c.closed || not owns_lock || is_nil c.outgoing_queue
    then idle c
    else record { conn = d; wire = s.wire; done = s.packets_done; ctl = ctl }

-- A broadcast and the descriptor that it leaves out; `none` is the -1 of "nobody".
pub record BroadcastEvent : Type 0 where
  pub sender_fd : Option ℕ
  pub payload : List ℕ

abbrev pub excludes : BroadcastEvent → ℕ → Bool
excludes e fd = elim (e.sender_fd) [ none ↦ false | some sender ↦ fd == sender ]

-- The `for` loop over the events: the connection, whether a packet was added, and whether the rest was dropped
-- (counted when the queue is exactly at its limit).
pub record Pushed : Type 0 where
  pub conn : Connection
  pub added_any : Bool
  pub dropped : Bool

unfoldable pub push_events : Connection → List BroadcastEvent → Pushed
push_events c [] = record { conn = c; added_any = false; dropped = false }
push_events c (e ∷ es) =
    let skip = push_events c es in
    let later = push_events (enqueue c e.payload) es in
    if excludes e c.fd
    then skip
    else if leb max_outgoing_queue_size (length c.outgoing_queue)
    then record {
      conn = c;
      added_any = false;
      dropped = length c.outgoing_queue == max_outgoing_queue_size;
    }
    else record later { added_any = true }

-- The body of a task of `process_global_queue` for one connection, after the check of `closed`.
unfoldable pub deliver : Connection → List BroadcastEvent → List WriteResult → Acted
deliver c events answers =
    let p = push_events (record c { has_codec = true }) events in
    let s = attempt_write (pause_if_high p.conn) answers in
    let (d, ctl) = arm_if_queued s.conn in
    if p.added_any
    then record { conn = d; wire = s.wire; done = s.packets_done; ctl = ctl }
    else idle p.conn

-- A task of `process_global_queue` on a connection of its shard.
unfoldable pub broadcast_to : Connection → List BroadcastEvent → List WriteResult → Acted
broadcast_to c events answers = let a = deliver c events answers in if c.closed then idle c else a
