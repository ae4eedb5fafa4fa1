-- ===== src/Reactor/Steps.antt =====
-- The table of connections (v4/webserver.cpp) over any sequence of the reactor's steps and the calls of other threads.
use tcp_server_client_cpp.Base.{ℕ, ◌<◌, ◌≡◌, refl, inl, inr, true, List, [], ◌∷◌, arith, Bool-cases}
use tcp_server_client_cpp.Ring.Scatter.{Readv}
use tcp_server_client_cpp.Send.{BroadcastEvent, send_pre_encoded}
use tcp_server_client_cpp.Server.{
  Server, new_server, get_shard_idx, start_close, finish_close, num_shards,
}
use tcp_server_client_cpp.Reactor.{
  Task, Reactor, World, store, broadcast, process_global_queue, has_events, run_task, Ready,
  handle_event,
}
use tcp_server_client_cpp.Reactor.Identity.{send_pre_encoded-identity}
use tcp_server_client_cpp.Reactor.Table.{IsTable, late-weaken}
use tcp_server_client_cpp.Reactor.Close.{start_close-IsTable, finish_close-IsTable}
use tcp_server_client_cpp.Reactor.Handlers.{
  store-IsTable, handle_event-IsTable, run_task-IsTable, Fits,
}

process-server : (r : Reactor) → (process_global_queue r).server ≡ r.server
unfolding process_global_queue
process-server r = elim (Bool-cases (has_events r.global_queue)) [
  | inl e ↦ rw e refl
  | inr e ↦ rw e refl
]

-- A step: the reactor's thread handles an event or hands over the broadcasts, a worker runs a task, or the
-- application broadcasts, sends, or does one half of a close.
pub data Step (sys : Readv) : Reactor → Reactor → Type 0 where
  handles :
      {r : Reactor} (e : Ready) (w : World)
      → Fits r.server e w
      → Step sys r (handle_event sys r e w)
  hands_over : {r : Reactor} → Step sys r (process_global_queue r)
  works :
      {r : Reactor} (t : Task) (ts : List Task) (w : World)
      → r.tasks ≡ t ∷ ts
      → Step sys r (record r { tasks = ts; server = run_task r.server t w })
  broadcasts : {r : Reactor} (e : BroadcastEvent) → Step sys r (broadcast r e)
  sends :
      {r : Reactor} (conn : ℕ) (packet : List ℕ) (w : World)
      → conn < r.server.accepted
      → Step sys r (record r {
        server =
            store r.server conn (send_pre_encoded (r.server.conns conn) packet (w.writes conn));
      })
  starts_close :
      {r : Reactor} (conn : ℕ)
      → conn < r.server.accepted
      → Step sys r (record r { server = start_close r.server conn })
  finishes_close :
      {r : Reactor} (conn : ℕ)
      → r.server.erasing conn ≡ true
      → Step sys r (record r { server = finish_close r.server conn })

unfoldable pub new_reactor : Reactor
new_reactor = record {
  server = new_server;
  global_queue = [];
  tasks = [];
  running = true;
  stats_timer_accumulator = 0;
}

pub data Reach (sys : Readv) : Reactor → Type 0 where
  begins : Reach sys new_reactor
  next : {r t : Reactor} → Reach sys r → Step sys r t → Reach sys t

Step-IsTable :
    {sys : Readv} {r t : Reactor} → Step sys r t → IsTable [] r.server → IsTable [] t.server
Step-IsTable {sys} (handles {r} e w f) h = handle_event-IsTable sys r e w f h
Step-IsTable (hands_over {r}) h = rw (process-server r) h
Step-IsTable (works {r} t ts w e) h = run_task-IsTable r.server t w h
Step-IsTable (broadcasts e) h = unfold broadcast in h
Step-IsTable (sends {r} conn packet w l) h =
    store-IsTable r.server conn _
      (send_pre_encoded-identity (r.server.conns conn) packet (w.writes conn)) h
Step-IsTable (starts_close conn l) h = start_close-IsTable conn l (late-weaken conn h)
Step-IsTable (finishes_close conn e) h = finish_close-IsTable conn e h

new_server-IsTable : IsTable [] new_server
unfolding new_server
new_server-IsTable = record {
  listed = λ conn l o. absurd (omega arith);
  owns = λ i fd conn e. cc e;
  timed = λ i fd conn e o n. cc e;
  erased = λ conn b. cc b;
}

pub Reach-IsTable : {sys : Readv} {r : Reactor} → Reach sys r → IsTable [] r.server
unfolding new_reactor
Reach-IsTable begins = new_server-IsTable
Reach-IsTable (next reach step) = Step-IsTable step (Reach-IsTable reach)

pub idx-lt : (fd : ℕ) → get_shard_idx fd < num_shards
unfolding get_shard_idx
idx-lt fd = omega arith
