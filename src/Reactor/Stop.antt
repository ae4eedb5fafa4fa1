-- ===== src/Reactor/Stop.antt =====
-- How `Run` of v4/webserver.cpp ends.
use tcp_server_client_cpp.Base.{
  ℕ, ◌≡◌, refl, ap, ◌∙◌, inl, inr, Bool, true, false, none, some, List, [], ◌∷◌, ◌++◌, Bool-cases,
  if_true,
}
use tcp_server_client_cpp.Ring.Scatter.{Readv}
use tcp_server_client_cpp.Reactor.{
  Reactor, World, Ready, listen_ready, timer_ready, signal_ready, notify_ready, client_ready,
  handle_event, handle_events, pending_broadcast, process_global_queue, has_events, turn, Poll,
  interrupted, poll_failed, reported, run_server, Joined, blocks, joins, work_off, stop_server,
  clear_tables,
}

-- Whether the signal's descriptor is among those reported.
unfoldable pub has_signal : List (Ready × World) → Bool
has_signal [] = false
has_signal ((signal_ready, w) ∷ events) = true
has_signal ((listen_ready fds, w) ∷ events) = has_signal events
has_signal ((timer_ready n, w) ∷ events) = has_signal events
has_signal ((notify_ready, w) ∷ events) = has_signal events
has_signal ((client_ready fd h i o, w) ∷ events) = has_signal events

-- The reactor behind the signal.
abbrev halted : Reactor → Reactor
halted r = record r { running = false }

module _ (sys : Readv) where
  handle_events-signal :
      (r : Reactor) (before after : List (Ready × World)) (w : World)
      → has_signal before ≡ false
      → handle_events sys r (before ++ ((signal_ready, w) ∷ after))
        ≡ halted (handle_events sys r before)
  unfolding handle_events has_signal
  handle_events-signal r [] after w h = unfold handle_event in refl
  handle_events-signal r ((signal_ready, v) ∷ events) after w h = cc h
  handle_events-signal r ((listen_ready fds, v) ∷ events) after w h =
      handle_events-signal (handle_event sys r (listen_ready fds) v) events after w h
  handle_events-signal r ((timer_ready n, v) ∷ events) after w h =
      handle_events-signal (handle_event sys r (timer_ready n) v) events after w h
  handle_events-signal r ((notify_ready, v) ∷ events) after w h =
      handle_events-signal (handle_event sys r notify_ready v) events after w h
  handle_events-signal r ((client_ready fd a b c, v) ∷ events) after w h =
      handle_events-signal (handle_event sys r (client_ready fd a b c) v) events after w h

  pending_broadcast-signal :
      (before after : List (Ready × World)) (w : World)
      → pending_broadcast sys (before ++ ((signal_ready, w) ∷ after)) ≡ pending_broadcast sys before
  unfolding pending_broadcast
  pending_broadcast-signal [] after w = refl
  pending_broadcast-signal ((signal_ready, v) ∷ events) after w = refl
  pending_broadcast-signal ((listen_ready fds, v) ∷ events) after w =
      pending_broadcast-signal events after w
  pending_broadcast-signal ((timer_ready n, v) ∷ events) after w =
      pending_broadcast-signal events after w
  pending_broadcast-signal ((notify_ready, v) ∷ events) after w = refl
  pending_broadcast-signal ((client_ready fd a b c, v) ∷ events) after w =
      pending_broadcast-signal events after w

  process-halted : (r : Reactor) → process_global_queue (halted r) ≡ halted (process_global_queue r)
  unfolding process_global_queue
  process-halted r = elim (Bool-cases (has_events r.global_queue)) [
    | inl e ↦ rw e refl
    | inr e ↦ rw e refl
  ]

  turn-signal :
      (r : Reactor) (before after : List (Ready × World)) (w : World)
      → has_signal before ≡ false
      → turn sys r (before ++ ((signal_ready, w) ∷ after)) ≡ halted (turn sys r before)
  unfolding turn
  turn-signal r before after w h =
      rw (handle_events-signal r before after w h, pending_broadcast-signal before after w)
        (elim (Bool-cases (pending_broadcast sys before)) [
          | inl e ↦ rw e (process-halted (handle_events sys r before))
          | inr e ↦ rw e refl
        ])

  run_server-ended :
      (r : Reactor) (polls : List Poll) (j : Joined)
      → r.running ≡ false
      → run_server sys r polls j ≡ stop_server r j
  unfolding run_server
  run_server-ended r [] j h = rw h refl
  run_server-ended r (interrupted ∷ polls) j h = rw h refl
  run_server-ended r (poll_failed ∷ polls) j h = refl
  run_server-ended r (reported events ∷ polls) j h = rw h refl

  run_server-goes_on :
      (r : Reactor) (events : List (Ready × World)) (polls : List Poll) (j : Joined)
      → r.running ≡ true
      → run_server sys r (reported events ∷ polls) j ≡ run_server sys (turn sys r events) polls j
  unfolding run_server
  run_server-goes_on r events polls j running = if_true r.running _ _ running

  stop_server-halted : (r : Reactor) (j : Joined) → stop_server (halted r) j ≡ stop_server r j
  unfolding stop_server
  stop_server-halted r blocks = refl
  stop_server-halted r (joins ws) = refl

  run_server-signal :
      (r : Reactor) (before after : List (Ready × World)) (w : World) (polls : List Poll)
      (j : Joined)
      → r.running ≡ true
      → has_signal before ≡ false
      → run_server sys r (reported (before ++ ((signal_ready, w) ∷ after)) ∷ polls) j
        ≡ stop_server (turn sys r before) j
  run_server-signal r before after w polls j running h =
      let t = turn-signal r before after w h in
      run_server-goes_on r (before ++ ((signal_ready, w) ∷ after)) polls j running
      ∙ ap (λ (u : Reactor). run_server sys u polls j) t
      ∙ run_server-ended (halted (turn sys r before)) polls j refl
      ∙ stop_server-halted (turn sys r before) j

  -- If the server runs and `epoll_wait` reports a signal, `Run` handles the events before the first signal,
  -- and hands over the broadcasts if one of those asked for it, but none of the events behind it and nothing
  -- that `epoll_wait` would report later. If the joins in `Stop` return, after the workers have run some of
  -- the waiting tasks, `Run` returns with the server not running and every table empty; if they block, it does
  -- not return.
  pub run_server-stops :
      (r : Reactor) (before after : List (Ready × World)) (w : World) (polls : List Poll)
      (ws : List World) (i fd : ℕ)
      → r.running ≡ true
      → has_signal before ≡ false
      → let polled = reported (before ++ ((signal_ready, w) ∷ after)) ∷ polls in
        let t = turn sys r before in
        let left = work_off t.server t.tasks ws in
        let u : Reactor = record t {
          running = false;
          server = clear_tables left.0;
          tasks = left.1;
        } in
        (run_server sys r polled (joins ws) ≡ some u)
        × ((u.server.shards i).connections fd ≡ none)
        × (run_server sys r polled blocks ≡ none)
  run_server-stops r before after w polls ws i fd running h = (
    run_server-signal r before after w polls (joins ws) running h ∙ (unfold stop_server in refl),
    unfold clear_tables in refl,
    run_server-signal r before after w polls blocks running h ∙ (unfold stop_server in refl),
  )
