-- ===== src/Reactor/Handlers.antt =====
-- The table of connections (v4/webserver.cpp) over each handler of the reactor and each call on a connection.
use tcp_server_client_cpp.Base.{
  ℕ, zero, suc, ◌<◌, ◌≡◌, refl, inl, inr, Bool, true, false, some, List, [], ◌∷◌, ◌++◌, arith, leb,
  ◌==◌, if◌then◌else◌, Bool-cases, Option-cases, add_size, put,
}
use tcp_server_client_cpp.Ring.Scatter.{Readv}
use tcp_server_client_cpp.Conn.{Connection}
use tcp_server_client_cpp.Send.{Acted, handle_write}
use tcp_server_client_cpp.Receive.{handle_read}
use tcp_server_client_cpp.Server.{Server, get_shard_idx, close_conn, num_shards}
use tcp_server_client_cpp.Reactor.{
  Task, Reactor, World, store, accept_loop, message_events, server_read, server_write, is_listed,
  each_listed, flush_shards, flush_all_queues, run_task, Ready, listen_ready, timer_ready,
  signal_ready, notify_ready, client_ready, tick, client_event, handle_event,
}
use tcp_server_client_cpp.Reactor.Identity.{
  identity, identity-Later, ReadsSince, handle_read-Later, handle_write-identity,
  flush_conn-identity, broadcast_to-identity,
}
use tcp_server_client_cpp.Reactor.Table.{entry, IsTable, put-Moves, Moves-IsTable, late-weaken}
use tcp_server_client_cpp.Reactor.Close.{close-accepted, close-IsTable}
use tcp_server_client_cpp.Reactor.Timeouts.{check_timeouts-IsTable}
use tcp_server_client_cpp.Reactor.Accept.{IsUnused, accept_client-IsTable}

pub close_conn-IsTable :
    {s : Server} (conn : ℕ) → conn < s.accepted → IsTable [] s → IsTable [] (close_conn s conn)
close_conn-IsTable conn l h = close-IsTable conn l (late-weaken conn h)

pub store-IsTable :
    (s : Server) (conn : ℕ) (a : Acted)
    → identity a.conn ≡ identity (s.conns conn)
    → IsTable [] s
    → IsTable [] (store s conn a)
unfolding store
store-IsTable s conn a e h =
    Moves-IsTable
      (put-Moves s (store s conn a) conn a.conn refl refl refl (unfold put in refl)
        (identity-Later (s.conns conn) a.conn e))
      h

store-accepted : (s : Server) (conn : ℕ) (a : Acted) → (store s conn a).accepted ≡ s.accepted
unfolding store
store-accepted s conn a = refl

close_if-IsTable :
    {s : Server} (conn : ℕ) (b : Bool)
    → conn < s.accepted
    → IsTable [] s
    → IsTable [] (if b then close_conn s conn else s)
close_if-IsTable conn true l h = close_conn-IsTable conn l h
close_if-IsTable conn false l h = h

module _ (sys : Readv) where
  server_read-IsTable :
      (s : Server) (conn : ℕ) (w : World)
      → conn < s.accepted
      → ReadsSince (s.conns conn).last_activity (w.reads conn)
      → IsTable [] s
      → IsTable [] (server_read sys s conn w) × ((server_read sys s conn w).accepted ≡ s.accepted)
  unfolding server_read
  server_read-IsTable s conn w l r h =
      let start = (s.conns conn).last_activity in
      let done = handle_read sys (s.conns conn) (w.bytes conn) (w.reads conn) in
      let same =
        handle_read-Later sys start (s.conns conn) (w.bytes conn) (w.reads conn) r (omega arith) in
      let t : Server = record s {
        conns = put ◌==◌ s.conns conn done.conn;
        event_queue = s.event_queue ++ message_events conn done.messages;
      } in
      let kept : IsTable [] t =
        Moves-IsTable
          (put-Moves s t conn done.conn refl refl refl refl
            (record { fd = same.0; closed = same.1; activity = same.2 }))
          h in
      elim (Option-cases done.should_close) [
        | inl e ↦ rw (e, server_read) (kept, refl)
        | inr (true, e) ↦
            rw (e, server_read) (close_conn-IsTable conn l kept, close-accepted t conn)
        | inr (false, e) ↦ rw (e, server_read) (kept, refl)
      ]

server_write-IsTable :
    (s : Server) (conn : ℕ) (w : World)
    → conn < s.accepted
    → IsTable [] s
    → IsTable [] (server_write s conn w)
unfolding server_write
server_write-IsTable s conn w l h =
    close_if-IsTable conn (handle_write (s.conns conn) (w.writes conn)).1
      (rw (store-accepted s conn _) l)
      (store-IsTable s conn _ (handle_write-identity (s.conns conn) (w.writes conn)) h)

each_listed-IsTable :
    (s : Server) (i : ℕ) (act : ℕ → Connection → Acted) (n : ℕ)
    → ((conn : ℕ) (c : Connection) → identity (act conn c).conn ≡ identity c)
    → IsTable [] s
    → IsTable [] (each_listed s i act n)
unfolding each_listed
each_listed-IsTable s i act zero same h = h
each_listed-IsTable s i act (suc n) same h =
    let t = each_listed s i act n in
    let ih = each_listed-IsTable s i act n same h in
    elim (Bool-cases (is_listed s i n)) [
      | inl e ↦ rw e (store-IsTable t n (act n (t.conns n)) (same n (t.conns n)) ih)
      | inr e ↦ rw e ih
    ]

flush_shards-IsTable :
    (s : Server) (w : World) (n : ℕ) → IsTable [] s → IsTable [] (flush_shards s w n)
unfolding flush_shards
flush_shards-IsTable s w zero h = h
flush_shards-IsTable s w (suc i) h =
    each_listed-IsTable (flush_shards s w i) i _ _
      (λ conn c. flush_conn-identity c (w.owns_lock conn) (w.writes conn))
      (flush_shards-IsTable s w i h)

pub run_task-IsTable :
    (s : Server) (t : Task) (w : World) → IsTable [] s → IsTable [] (run_task s t w)
unfolding run_task
run_task-IsTable s t w h =
    each_listed-IsTable s t.shard _ _ (λ conn c. broadcast_to-identity c t.events (w.writes conn)) h

tick-IsTable :
    (r : Reactor) (expirations : ℕ) (w : World)
    → IsTable [] r.server
    → IsTable [] (tick r expirations w).server
unfolding tick flush_all_queues
tick-IsTable r expirations w h =
    let t = flush_shards-IsTable r.server w num_shards h in
    elim (Bool-cases (leb 6000 (add_size r.stats_timer_accumulator expirations))) [
      | inl e ↦ rw e (check_timeouts-IsTable w.now t)
      | inr e ↦ rw e t
    ]

-- The descriptors that `accept` returns are not in use.
unfoldable pub AllUnused : Server → List ℕ → ℕ → Type 0
AllUnused s [] now = Unit {0}
AllUnused s (fd ∷ fds) now = IsUnused s fd × AllUnused (accept_loop s (fd ∷ []) now) fds now

accept_loop-IsTable :
    (s : Server) (fds : List ℕ) (now : ℕ)
    → AllUnused s fds now
    → IsTable [] s
    → IsTable [] (accept_loop s fds now)
unfolding accept_loop AllUnused
accept_loop-IsTable s [] now u h = h
accept_loop-IsTable s (fd ∷ fds) now u h =
    accept_loop-IsTable (accept_loop s (fd ∷ []) now) fds now u.1
      (accept_client-IsTable s fd now u.0 h)

-- What an event needs of the kernel: descriptors that are not in use, and a clock that does not go back.
unfoldable pub Fits : Server → Ready → World → Type 0
Fits s (listen_ready fds) w = AllUnused s fds w.now
Fits s (client_ready fd hung_up readable writable) w =
    (conn : ℕ)
    → entry s (get_shard_idx fd) fd ≡ some conn
    → ReadsSince (s.conns conn).last_activity (w.reads conn)
Fits s _ w = Unit {0}

module _ (sys : Readv) where
  client_known :
      (s : Server) (conn : ℕ) (hung_up readable writable : Bool) (w : World)
      → conn < s.accepted
      → ReadsSince (s.conns conn).last_activity (w.reads conn)
      → IsTable [] s
      → IsTable [] (
          let t = if readable then server_read sys s conn w else s in
          if hung_up then close_conn s conn else if writable then server_write t conn w else t)
  client_known s conn true readable writable w l r h = close_conn-IsTable conn l h
  client_known s conn false true true w l r h =
      let t = server_read-IsTable sys s conn w l r h in
      server_write-IsTable (server_read sys s conn w) conn w (rw t.1 l) t.0
  client_known s conn false true false w l r h = (server_read-IsTable sys s conn w l r h).0
  client_known s conn false false true w l r h = server_write-IsTable s conn w l h
  client_known s conn false false false w l r h = h

  client_event-IsTable :
      (s : Server) (fd : ℕ) (hung_up readable writable : Bool) (w : World)
      → Fits s (client_ready fd hung_up readable writable) w
      → IsTable [] s
      → IsTable [] (client_event sys s fd hung_up readable writable w)
  unfolding client_event Fits
  client_event-IsTable s fd hung_up readable writable w f h =
      elim (Option-cases (entry s (get_shard_idx fd) fd)) [
        | inl e ↦ rw (e, client_event) h
        | inr (conn, e) ↦
            let l = (h.owns (get_shard_idx fd) fd conn e).accepted in
            rw (e, client_event) (client_known s conn hung_up readable writable w l (f conn e) h)
      ]

  pub handle_event-IsTable :
      (r : Reactor) (e : Ready) (w : World)
      → Fits r.server e w
      → IsTable [] r.server
      → IsTable [] (handle_event sys r e w).server
  unfolding handle_event
  handle_event-IsTable r (listen_ready fds) w f h =
      accept_loop-IsTable r.server fds w.now (unfold Fits in f) h
  handle_event-IsTable r (timer_ready n) w f h = tick-IsTable r n w h
  handle_event-IsTable r signal_ready w f h = h
  handle_event-IsTable r notify_ready w f h = h
  handle_event-IsTable r (client_ready fd hung_up readable writable) w f h =
      client_event-IsTable r.server fd hung_up readable writable w f h
