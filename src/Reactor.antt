-- ===== src/Reactor.antt =====
-- The reactor of v4/webserver.cpp: what `Run` does with the events that `epoll_wait` reports, the loops over the
-- shards, and the broadcasts that wait for the thread pool.
pub mod Identity
pub mod Table
pub mod Close
pub mod Accept
pub mod Timeouts
pub mod Handlers
pub mod Steps
pub mod Batch
pub mod Stop
pub mod Tests
use tcp_server_client_cpp.Base.{
  ℕ, zero, suc, ◌+◌, ◌-◌, ◌*◌, ◌/◌, ◌%◌, ◌^◌, ◌≤◌, ◌<◌, min, max, String, ◌≡◌, refl, sym, ap, ap₂,
  subst, ◌∙◌, ◌≡⟨◌⟩◌, ◌∎, ◌≢◌, ◌↔◌, ◌⊎◌, inl, inr, Bool, true, false, not, ◌&&◌, ◌||◌, Option, none,
  some, List, [], ◌∷◌, ◌++◌, map, append-nil, append_assoc, arith, ltb, leb, ◌==◌, if◌then◌else◌,
  lt→ltb, le→ltb, ltb→lt, ltb→le, ==_iff, ==_refl, ==_ne, Bool-cases, Option-cases, length, get_or,
  take, drop, replicate, flatten, flatten-append, length-append, length-take, length-drop,
  length-replicate, take-append-drop, take_all, drop_all, take-append_left, drop-append_left,
  drop-append_right, drop-drop, take-append, drop-append, get_or-append, get_or-append_left,
  get_or-take, get_or-drop, take-take, drop-take, take-min, drop-min, drop-min_le, eq-nil, list_ext,
  size_mod, u32_mod, add_size, sub_size, add_u32, sub_size_lem, add_size_lem, put, put-cases,
}
use tcp_server_client_cpp.Ring.Scatter.{Readv}
use tcp_server_client_cpp.Conn.{Connection}
use tcp_server_client_cpp.Wire.{WriteResult}
use tcp_server_client_cpp.Send.{
  EpollCtl, Acted, BroadcastEvent, send_pre_encoded, handle_write, flush_conn, broadcast_to,
}
use tcp_server_client_cpp.Receive.{ReadAnswer, handle_read}
use tcp_server_client_cpp.Chat.{NetworkEvent, message_event}
use tcp_server_client_cpp.Server.{
  Server, Shard, num_shards, get_shard_idx, accept_client, close_conn,
}
use tcp_server_client_cpp.Server.Sweep.{check_timeouts}

-- A task of the thread pool: the events of a batch, for one shard.
pub record Task : Type 0 where
  pub shard : ℕ
  pub events : List BroadcastEvent

-- The server, `global_queue_`, the tasks that the thread pool has been given, `running_` and
-- `stats_timer_accumulator`.
pub record Reactor : Type 0 where
  pub server : Server
  pub global_queue : List BroadcastEvent
  pub tasks : List Task
  pub running : Bool
  pub stats_timer_accumulator : ℕ

-- What the kernel and the other threads do during one handler: the time, the bytes that `readv` has for each
-- connection and its answers, the answers of `writev`, and whether `try_to_lock` gets a connection's mutex.
pub record World : Type 0 where
  pub now : ℕ
  pub bytes : ℕ → List ℕ
  pub reads : ℕ → List ReadAnswer
  pub writes : ℕ → List WriteResult
  pub owns_lock : ℕ → Bool

-- What a call leaves of a connection, put back into the server.
unfoldable pub store : Server → ℕ → Acted → Server
unfolding put
store s conn a = record s { conns = put ◌==◌ s.conns conn a.conn; ctl = s.ctl ++ a.ctl }

-- The loop of `accept_loop` over the descriptors that `accept` returns before it fails.
unfoldable pub accept_loop : Server → List ℕ → ℕ → Server
accept_loop s [] now = s
accept_loop s (client_fd ∷ fds) now = accept_loop (accept_client s client_fd now) fds now

abbrev pub message_events : ℕ → List (List ℕ) → List NetworkEvent
message_events conn [] = []
message_events conn (m ∷ ms) = message_event conn (some m) ∷ message_events conn ms

module _ (sys : Readv) where
  -- `handle_read` with its events and the close behind it.
  unfoldable pub server_read : Server → ℕ → World → Server
  unfolding put
  server_read s conn w =
      let done = handle_read sys (s.conns conn) (w.bytes conn) (w.reads conn) in
      let t = record s {
        conns = put ◌==◌ s.conns conn done.conn;
        event_queue = s.event_queue ++ message_events conn done.messages;
      } in
      elim (done.should_close) [
        | none ↦ t
        | some should_close ↦ if should_close then close_conn t conn else t
      ]

-- `handle_write` with the close behind it.
unfoldable pub server_write : Server → ℕ → World → Server
server_write s conn w =
    let (a, should_close) = handle_write (s.conns conn) (w.writes conn) in
    let t = store s conn a in if should_close then close_conn t conn else t

-- Whether the shard's table has the connection.
unfoldable pub is_listed : Server → ℕ → ℕ → Bool
is_listed s i conn = elim ((s.shards i).connections (s.conns conn).fd) [
  | none ↦ false
  | some d ↦ d == conn
]

-- A call on each connection of a shard, among the first `n`. A snapshot of the table is taken first; its order is
-- not said by the source.
unfoldable pub each_listed : Server → ℕ → (ℕ → Connection → Acted) → ℕ → Server
each_listed s i act zero = s
each_listed s i act (suc n) =
    let t = each_listed s i act n in if is_listed s i n then store t n (act n (t.conns n)) else t

-- The loop of `flush_all_queues` over the first `n` shards.
unfoldable pub flush_shards : Server → World → ℕ → Server
flush_shards s w zero = s
flush_shards s w (suc i) =
    let t = flush_shards s w i in
    each_listed t i (λ conn c. flush_conn c (w.owns_lock conn) (w.writes conn)) t.accepted

unfoldable pub flush_all_queues : Server → World → Server
flush_all_queues s w = flush_shards s w num_shards

-- `Broadcast`: one more event, whose descriptor is what the caller excludes.
unfoldable pub broadcast : Reactor → BroadcastEvent → Reactor
broadcast r e = record r { global_queue = r.global_queue ++ (e ∷ []) }

-- The tasks of one batch.
unfoldable pub batch_tasks : List BroadcastEvent → ℕ → List Task
batch_tasks events zero = []
batch_tasks events (suc i) = batch_tasks events i ++ (record { shard = i; events = events } ∷ [])

abbrev pub has_events : List BroadcastEvent → Bool
has_events [] = false
has_events (e ∷ es) = true

-- `process_global_queue`, with `push_batch` of the thread pool.
unfoldable pub process_global_queue : Reactor → Reactor
process_global_queue r =
    if has_events r.global_queue
    then record r { global_queue = []; tasks = r.tasks ++ batch_tasks r.global_queue num_shards }
    else r

-- What a worker does with a task.
unfoldable pub run_task : Server → Task → World → Server
run_task s t w =
    each_listed s t.shard (λ conn c. broadcast_to c t.events (w.writes conn)) s.accepted

-- A descriptor that `epoll_wait` reports. For the listening one, the descriptors that `accept` then returns; for a
-- client's, whether EPOLLERR or EPOLLHUP, EPOLLIN and EPOLLOUT are set.
pub data Ready : Type 0 where
  listen_ready : List ℕ → Ready
  timer_ready : ℕ → Ready
  signal_ready notify_ready : Ready
  client_ready : ℕ → Bool → Bool → Bool → Ready

-- The `if` on the timer.
unfoldable pub tick : Reactor → ℕ → World → Reactor
tick r expirations w =
    let s = flush_all_queues r.server w in
    let total = add_size r.stats_timer_accumulator expirations in
    if leb 6000 total
    then record r { server = check_timeouts s w.now; stats_timer_accumulator = 0 }
    else record r { server = s; stats_timer_accumulator = total }

module _ (sys : Readv) where
  -- The branch for a client's descriptor.
  unfoldable pub client_event : Server → ℕ → Bool → Bool → Bool → World → Server
  client_event s fd hung_up readable writable w =
      elim ((s.shards (get_shard_idx fd)).connections fd) [
        | none ↦ s
        | some conn ↦
            let t = if readable then server_read sys s conn w else s in
            if hung_up then close_conn s conn else if writable then server_write t conn w else t
      ]

  unfoldable pub handle_event : Reactor → Ready → World → Reactor
  handle_event r (listen_ready fds) w = record r { server = accept_loop r.server fds w.now }
  handle_event r (timer_ready expirations) w = tick r expirations w
  handle_event r signal_ready w = record r { running = false }
  handle_event r notify_ready w = r
  handle_event r (client_ready fd hung_up readable writable) w = record r {
    server = client_event r.server fd hung_up readable writable w;
  }

  -- The `for` over the reported events; a signal ends it.
  unfoldable pub handle_events : Reactor → List (Ready × World) → Reactor
  handle_events r [] = r
  handle_events r ((signal_ready, w) ∷ events) = handle_event r signal_ready w
  handle_events r ((listen_ready fds, w) ∷ events) =
      handle_events (handle_event r (listen_ready fds) w) events
  handle_events r ((timer_ready n, w) ∷ events) =
      handle_events (handle_event r (timer_ready n) w) events
  handle_events r ((notify_ready, w) ∷ events) =
      handle_events (handle_event r notify_ready w) events
  handle_events r ((client_ready fd h i o, w) ∷ events) =
      handle_events (handle_event r (client_ready fd h i o) w) events

  -- `pending_broadcast` behind that loop.
  unfoldable pub pending_broadcast : List (Ready × World) → Bool
  pending_broadcast [] = false
  pending_broadcast ((signal_ready, w) ∷ events) = false
  pending_broadcast ((notify_ready, w) ∷ events) = true
  pending_broadcast ((listen_ready fds, w) ∷ events) = pending_broadcast events
  pending_broadcast ((timer_ready n, w) ∷ events) = pending_broadcast events
  pending_broadcast ((client_ready fd h i o, w) ∷ events) = pending_broadcast events

  -- One turn of the `while` in `Run`, for the events that `epoll_wait` reports.
  unfoldable pub turn : Reactor → List (Ready × World) → Reactor
  turn r events =
      let t = handle_events r events in
      if pending_broadcast events then process_global_queue t else t

-- What `epoll_wait` comes to: EINTR, another error, or events.
pub data Poll : Type 0 where
  interrupted poll_failed : Poll
  reported : List (Ready × World) → Poll

-- What the joins inside `threadpool_->shutdown()` come to: they block for ever, or every worker returns, and these
-- are the answers for the waiting tasks that the workers have run until then.
pub data Joined : Type 0 where
  blocks : Joined
  joins : List World → Joined

-- The workers run tasks from the front of the queue, one for each of the worlds. What is left of the queue stays.
unfoldable pub work_off : Server → List Task → List World → Server × List Task
work_off s tasks [] = (s, tasks)
work_off s [] (w ∷ ws) = (s, [])
work_off s (task ∷ tasks) (w ∷ ws) = work_off (run_task s task w) tasks ws

-- The loop of `Stop` over the shards.
unfoldable pub clear_tables : Server → Server
clear_tables s = record s { shards = λ i. record (s.shards i) { connections = λ fd. none } }

-- `Stop`; it does not return where the joins block. The descriptors that it closes are not kept.
unfoldable pub stop_server : Reactor → Joined → Option Reactor
stop_server r blocks = none
stop_server r (joins ws) =
    let (s, tasks) = work_off r.server r.tasks ws in
    some (record r { running = false; server = clear_tables s; tasks = tasks })

module _ (sys : Readv) where
  -- `Run`, for the given answers of `epoll_wait` and what the joins come to. With no answer left it is where it stands.
  unfoldable pub run_server : Reactor → List Poll → Joined → Option Reactor
  run_server r [] j = if r.running then some r else stop_server r j
  run_server r (interrupted ∷ polls) j =
      let again = run_server r polls j in if r.running then again else stop_server r j
  run_server r (poll_failed ∷ polls) j = stop_server r j
  run_server r (reported events ∷ polls) j =
      let again = run_server (turn sys r events) polls j in
      if r.running then again else stop_server r j
