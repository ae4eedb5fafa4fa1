-- ===== src/Wire/Tests.antt =====
-- The theorems on `attempt_write` (v4/webserver.cpp) at a connection with two queued packets.
use tcp_server_client_cpp.Base.{refl, ◌≢◌, true, false, List, [], ◌∷◌, arith}
use tcp_server_client_cpp.Conn.{Connection}
use tcp_server_client_cpp.Wire.{WriteResult, wrote, would_block, unanswered, attempt_write}
use tcp_server_client_cpp.Wire.Loop.{IsSending, Sends, attempt_write-Sends}
use tcp_server_client_cpp.Wire.Outcome.{Ends, attempt_write-Ends, attempt_write-returns}

-- Two bytes of the first packet are sent.
abbrev pub two_queued : Connection
two_queued = record {
  fd = 7;
  has_codec = true;
  in_buf = record { buf = 0 ∷ 0 ∷ []; read_pos = 0; write_pos = 0; count = 0 };
  outgoing_queue =
      record { payload = 1 ∷ 2 ∷ 3 ∷ []; sent_offset = 2 }
      ∷ record { payload = 4 ∷ 5 ∷ []; sent_offset = 0 }
      ∷ [];
  pending_bytes = 3;
  closed = false;
  current_epoll_events = record { epollin = true; epollout = true };
  is_write_armed = true;
  is_reading_paused = true;
  last_activity = 0;
}

pub two_queued-IsSending : IsSending two_queued
two_queued-IsSending = record { queue = omega arith; pending = refl; small = omega arith }

abbrev answers : List WriteResult
answers = wrote 2 ∷ would_block ∷ []

attempt_write-Sends_example : Sends two_queued (attempt_write two_queued answers)
attempt_write-Sends_example = attempt_write-Sends two_queued answers two_queued-IsSending

attempt_write-Ends_example :
    Ends true (attempt_write two_queued answers).exit (attempt_write two_queued answers).conn
attempt_write-Ends_example = attempt_write-Ends two_queued answers two_queued-IsSending (λ e. cc)

attempt_write-returns_example :
    (attempt_write two_queued (wrote 1 ∷ wrote 1 ∷ would_block ∷ [])).exit ≢ unanswered
attempt_write-returns_example =
    attempt_write-returns two_queued (wrote 1 ∷ wrote 1 ∷ would_block ∷ []) two_queued-IsSending tt
      (omega arith)
