-- ===== src/Send/Tests.antt =====
-- The theorems on the sending side (v4/webserver.cpp) at a connection with two queued packets.
use tcp_server_client_cpp.Base.{◌≡◌, refl, true, none, some, List, [], ◌∷◌, arith, flatten}
use tcp_server_client_cpp.Wire.{
  WriteResult, wrote, would_block, attempt_write, write_loop, is_nil, is_fatal, pop_sent, gather,
  account, advance, taken,
}
use tcp_server_client_cpp.Wire.Tests.{two_queued, two_queued-IsSending}
use tcp_server_client_cpp.Send.{
  send_pre_encoded, handle_write, flush_conn, BroadcastEvent, broadcast_to, settle,
  update_epoll_events, same_events, pause_if_high, enqueue, write_and_arm, rearm, wanted_events,
  deliver, push_events, arm_if_queued,
}
use tcp_server_client_cpp.Send.Keep.{admitted, broadcast_to-Keeps}
use tcp_server_client_cpp.Send.Stream.{Keeps}
use tcp_server_client_cpp.Send.Wakeup.{
  IsAwake, send_pre_encoded-IsAwake, flush_conn-IsAwake, broadcast_to-IsAwake, all_ctl, all_survive,
  run-IsAwake,
}
use tcp_server_client_cpp.Send.Registration.{last_mask}
use tcp_server_client_cpp.Send.History.{
  Call, sends, writable, flushes, broadcasts, run, offered, step, all_accepted, run-Keeps,
}

two_queued-IsAwake : IsAwake two_queued.current_epoll_events two_queued
two_queued-IsAwake = record { registered = refl; waits = λ n. (refl, refl); armed = λ a. refl }

abbrev news : List BroadcastEvent
news =
    record { sender_fd = none; payload = 8 ∷ 9 ∷ [] }
    ∷ record { sender_fd = some 7; payload = 6 ∷ [] }
    ∷ []

abbrev busy : List WriteResult
busy = wrote 2 ∷ would_block ∷ []

abbrev history : List Call
history = sends (6 ∷ 6 ∷ []) busy ∷ broadcasts news busy ∷ flushes true busy ∷ writable busy ∷ []

run-Keeps_example :
    Keeps two_queued
      (all_accepted two_queued history)
      (run two_queued history).0
      (run two_queued history).1
run-Keeps_example =
    run-Keeps two_queued history two_queued-IsSending refl (unfold offered in omega arith)

broadcast_to-Keeps_example :
    let a = broadcast_to two_queued news busy in
    Keeps two_queued (flatten (admitted two_queued news)) a.wire a.conn
broadcast_to-Keeps_example = broadcast_to-Keeps news busy two_queued-IsSending refl (omega arith)

send_pre_encoded-IsAwake_example :
    let a = send_pre_encoded two_queued (6 ∷ []) busy in
    IsAwake (last_mask two_queued.fd two_queued.current_epoll_events a.ctl) a.conn
send_pre_encoded-IsAwake_example =
    send_pre_encoded-IsAwake _ two_queued (6 ∷ []) busy two_queued-IsAwake

flush_conn-IsAwake_example :
    let a = flush_conn two_queued true busy in
    IsAwake (last_mask two_queued.fd two_queued.current_epoll_events a.ctl) a.conn
flush_conn-IsAwake_example =
    flush_conn-IsAwake _ two_queued true busy two_queued-IsSending two_queued-IsAwake

broadcast_to-IsAwake_example :
    let a = broadcast_to two_queued news busy in
    IsAwake (last_mask two_queued.fd two_queued.current_epoll_events a.ctl) a.conn
broadcast_to-IsAwake_example =
    broadcast_to-IsAwake _ two_queued news busy two_queued-IsSending (omega arith)
      two_queued-IsAwake

history-survives : all_survive two_queued history ≡ true
unfolding all_survive step handle_write attempt_write write_loop is_nil is_fatal pop_sent gather
    account advance taken send_pre_encoded flush_conn broadcast_to settle update_epoll_events
    same_events pause_if_high enqueue write_and_arm rearm wanted_events deliver push_events
    arm_if_queued
history-survives = refl

run-IsAwake_example :
    IsAwake
      (last_mask two_queued.fd two_queued.current_epoll_events (all_ctl two_queued history))
      (run two_queued history).1
run-IsAwake_example =
    run-IsAwake _ two_queued history two_queued-IsSending refl (unfold offered in omega arith)
      history-survives two_queued-IsAwake
