-- ===== src/Server.antt =====
-- The table of connections of v4/webserver.cpp: `accept_loop` for one client, `close_conn` and `Close`. A
-- connection is named by a number, the order of its acceptance, since its descriptor may be used again.
pub mod Announce
pub mod Sweep
pub mod Tests
use tcp_server_client_cpp.Base.{
  put, ℕ, zero, suc, ◌+◌, ◌-◌, ◌*◌, ◌/◌, ◌%◌, ◌^◌, ◌≤◌, ◌<◌, min, max, String, ◌≡◌, refl, sym, ap,
  ap₂, subst, ◌∙◌, ◌≡⟨◌⟩◌, ◌∎, ◌≢◌, ◌↔◌, ◌⊎◌, inl, inr, Bool, true, false, not, ◌&&◌, ◌||◌, Option,
  none, some, List, [], ◌∷◌, ◌++◌, map, append-nil, append_assoc, arith, ltb, leb, ◌==◌,
  if◌then◌else◌, lt→ltb, le→ltb, ltb→lt, ltb→le, ==_iff, ==_refl, ==_ne, Bool-cases, Option-cases,
  length, get_or, take, drop, replicate, flatten, flatten-append, length-append, length-take,
  length-drop, length-replicate, take-append-drop, take_all, drop_all, take-append_left,
  drop-append_left, drop-append_right, drop-drop, take-append, drop-append, get_or-append,
  get_or-append_left, get_or-take, get_or-drop, take-take, drop-take, take-min, drop-min,
  drop-min_le, eq-nil, list_ext, size_mod, u32_mod, add_size, sub_size, add_u32, sub_size_lem,
  add_size_lem,
}
use tcp_server_client_cpp.Conn.{Connection, Events, connect}
use tcp_server_client_cpp.Send.{EpollCtl, dels, add_fd_to_epoll}
use tcp_server_client_cpp.Chat.{NetworkEvent, connect_event, disconnect_event}

-- `TimerEvent`.
pub record TimerEvent : Type 0 where
  pub expires_at : ℕ
  pub fd : ℕ

-- `Shard`; the heap is the list of its entries.
pub record Shard : Type 0 where
  pub connections : ℕ → Option ℕ
  pub timer_heap : List TimerEvent

-- The connections made so far, the shards, `event_queue_` as far as `CONNECT` and `DISCONNECT` go into it, and the
-- calls of `epoll_ctl`; `erasing` are the connections that a thread other than the reactor's has marked closed in
-- `close_conn` and has not yet erased from the table.
pub record Server : Type 0 where
  pub conns : ℕ → Connection
  pub accepted : ℕ
  pub shards : ℕ → Shard
  pub event_queue : List NetworkEvent
  pub ctl : List EpollCtl
  pub erasing : ℕ → Bool

-- `NUM_SHARDS`, and `CONNECTION_TIMEOUT_SEC` in nanoseconds.
abbrev pub num_shards : ℕ
num_shards = 16

abbrev pub connection_timeout : ℕ
connection_timeout = 600 * 1000000000

unfoldable pub get_shard_idx : ℕ → ℕ
get_shard_idx fd = fd % num_shards

abbrev pub epollin_only : Events
epollin_only = record { epollin = true; epollout = false }

unfoldable pub new_server : Server
new_server = record {
  conns = λ conn. connect 0 0;
  accepted = 0;
  shards = λ i. record { connections = λ fd. none; timer_heap = [] };
  event_queue = [];
  ctl = [];
  erasing = λ conn. false;
}

-- The body of `accept_loop` for a client with the descriptor `client_fd`, at the time `now`.
unfoldable pub accept_client : Server → ℕ → ℕ → Server
unfolding put
accept_client s client_fd now =
    let conn = s.accepted in
    let shard_idx = get_shard_idx client_fd in
    let shard = s.shards shard_idx in
    let timer : TimerEvent = record { expires_at = now + connection_timeout; fd = client_fd } in
    let added : Shard = record {
      connections = put ◌==◌ shard.connections client_fd (some conn);
      timer_heap = timer ∷ shard.timer_heap;
    } in
    record {
      conns =
          put ◌==◌ s.conns conn
            (record (connect client_fd now) { current_epoll_events = epollin_only });
      accepted = suc conn;
      shards = put ◌==◌ s.shards shard_idx added;
      event_queue = s.event_queue ++ (connect_event conn ∷ []);
      ctl = s.ctl ++ add_fd_to_epoll client_fd epollin_only;
      erasing = s.erasing;
    }

-- What `close_conn` does where `closed.exchange(true)` was false, but for the table.
unfoldable pub mark_closed : Server → ℕ → Server
unfolding put
mark_closed s conn =
    let c = s.conns conn in
    record s {
      conns = put ◌==◌ s.conns conn (record c { closed = true });
      event_queue = s.event_queue ++ (disconnect_event conn ∷ []);
      ctl = s.ctl ++ (dels c.fd ∷ []);
    }

-- The table's entry is erased, under the lock of its shard.
unfoldable pub erase_entry : Server → ℕ → Server
unfolding put
erase_entry s fd =
    let shard_idx = get_shard_idx fd in
    let shard = s.shards shard_idx in
    let erased : Shard = record shard { connections = put ◌==◌ shard.connections fd none } in
    record s { shards = put ◌==◌ s.shards shard_idx erased }

-- The whole of `close_conn`, on the reactor's thread.
unfoldable pub close_conn : Server → ℕ → Server
close_conn s conn =
    if (s.conns conn).closed then s else erase_entry (mark_closed s conn) (s.conns conn).fd

-- The call on another thread, cut between the exchange and the lock: its first half, which leaves the connection to be
-- erased, and its second half.
unfoldable pub start_close : Server → ℕ → Server
unfolding put
start_close s conn =
    if (s.conns conn).closed
    then s
    else record (mark_closed s conn) { erasing = put ◌==◌ s.erasing conn true }

unfoldable pub finish_close : Server → ℕ → Server
unfolding put
finish_close s conn = record (erase_entry s (s.conns conn).fd) {
  erasing = put ◌==◌ s.erasing conn false;
}
