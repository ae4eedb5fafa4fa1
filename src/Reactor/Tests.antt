-- ===== src/Reactor/Tests.antt =====
-- Small runs of the reactor (v4/webserver.cpp).
use tcp_server_client_cpp.Base.{
  ℕ, ◌<◌, ◌≡◌, refl, true, false, none, some, List, [], ◌∷◌, ◌++◌, arith, put,
}
use tcp_server_client_cpp.Ring.Tests.{posix}
use tcp_server_client_cpp.Conn.{connect}
use tcp_server_client_cpp.Wire.{wrote}
use tcp_server_client_cpp.Send.{BroadcastEvent, broadcast_to}
use tcp_server_client_cpp.Server.{new_server, accept_client, start_close}
use tcp_server_client_cpp.Reactor.{
  Reactor, World, Ready, listen_ready, signal_ready, notify_ready, handle_event, accept_loop,
  broadcast, has_events, process_global_queue, turn, interrupted, reported, run_server, blocks,
  joins, work_off, clear_tables,
}
use tcp_server_client_cpp.Reactor.Accept.{IsUnused}
use tcp_server_client_cpp.Reactor.Steps.{handles, broadcasts, new_reactor, Reach, begins, next}
use tcp_server_client_cpp.Reactor.Handlers.{AllUnused, Fits}
use tcp_server_client_cpp.Reactor.Batch.{run_tasks, process_global_queue-delivers}
use tcp_server_client_cpp.Reactor.Stop.{has_signal, run_server-stops}

abbrev world : World
world = record {
  now = 3;
  bytes = λ conn. [];
  reads = λ conn. [];
  writes = λ conn. wrote 100 ∷ [];
  owns_lock = λ conn. true;
}

-- A client has connected.
abbrev serving : Reactor
serving = handle_event posix new_reactor (listen_ready (7 ∷ [])) world

none_before : (conn : ℕ) → conn < new_reactor.server.accepted → ⊥
unfolding new_reactor new_server
none_before conn l = omega arith

serving-Fits : Fits new_reactor.server (listen_ready (7 ∷ [])) world
unfolding Fits AllUnused IsUnused
serving-Fits = (λ conn l. absurd (none_before conn l), tt)

serving-Reach : Reach posix serving
serving-Reach = next begins (handles (listen_ready (7 ∷ [])) world serving-Fits)

serving-open : (0 < serving.server.accepted) × ((serving.server.conns 0).closed ≡ false)
unfolding handle_event accept_loop accept_client put connect new_reactor new_server
serving-open = (omega arith, refl)

-- Another thread has begun to close the connection, and has still to erase its entry.
abbrev halfway : Reactor
halfway = record serving { server = start_close serving.server 0 }

-- And there is something to be said to it.
abbrev news : BroadcastEvent
news = record { sender_fd = none; payload = 1 ∷ 2 ∷ [] }

abbrev busy : Reactor
busy = broadcast serving news

busy-Reach : Reach posix busy
busy-Reach = next serving-Reach (broadcasts news)

busy-lem : (busy.tasks ≡ []) × (has_events busy.global_queue ≡ true)
unfolding broadcast handle_event new_reactor
busy-lem = (refl, refl)

busy-open : (0 < busy.server.accepted) × ((busy.server.conns 0).closed ≡ false)
unfolding broadcast
busy-open = serving-open

process_global_queue-delivers_example :
    ((process_global_queue busy).global_queue ≡ [])
    × ((run_tasks (process_global_queue busy).server (process_global_queue busy).tasks world).conns
          0
        ≡ (broadcast_to (busy.server.conns 0) busy.global_queue (world.writes 0)).conn)
process_global_queue-delivers_example =
    process_global_queue-delivers world 0 busy-Reach busy-lem.0 busy-lem.1 busy-open.0 busy-open.1

abbrev early : List (Ready × World)
early = (notify_ready, world) ∷ []

abbrev late_events : List (Ready × World)
late_events = (listen_ready (9 ∷ []), world) ∷ []

abbrev stopped : Reactor
stopped =
    let t = turn posix new_reactor early in
    let left = work_off t.server t.tasks (world ∷ []) in
    record t { running = false; server = clear_tables left.0; tasks = left.1 }

run_server-stops_example :
    let polled = reported (early ++ ((signal_ready, world) ∷ late_events)) ∷ interrupted ∷ [] in
    (run_server posix new_reactor polled (joins (world ∷ [])) ≡ some stopped)
    × ((stopped.server.shards 1).connections 7 ≡ none)
    × (run_server posix new_reactor polled blocks ≡ none)
run_server-stops_example =
    run_server-stops posix new_reactor early late_events world (interrupted ∷ []) (world ∷ []) 1 7
      (unfold new_reactor in refl) (unfold has_signal in refl)
