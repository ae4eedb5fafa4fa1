-- ===== src/Conn.antt =====
-- v4/connection.h: a client connection, its queue of outgoing packets and its flags. `user_data`, which only the
-- chat application reads, is kept by the model of v4/chatapp.h, and the mutex by the atomicity of the calls.
use tcp_server_client_cpp.Base.{ℕ, Bool, false, List, []}
use tcp_server_client_cpp.Ring.{Ring, make}

-- A queued packet and how much of it has been sent.
pub record OutgoingPacket : Type 0 where
  pub payload : List ℕ
  pub sent_offset : ℕ

-- An epoll mask, of which the program sets two bits.
pub record Events : Type 0 where
  pub epollin : Bool
  pub epollout : Bool

abbrev pub no_events : Events
no_events = record { epollin = false; epollout = false }

pub record Connection : Type 0 where
  pub fd : ℕ
  pub has_codec : Bool
  pub in_buf : Ring
  pub outgoing_queue : List OutgoingPacket
  pub pending_bytes : ℕ
  pub closed : Bool
  pub current_epoll_events : Events
  pub is_write_armed : Bool
  pub is_reading_paused : Bool
  pub last_activity : ℕ

-- `RingBuffer in_buf{8192}`.
abbrev pub in_buf_size : ℕ
in_buf_size = 8192

-- The constructor, at the time `now`.
unfoldable pub connect : ℕ → ℕ → Connection
connect fd now = record {
  fd = fd;
  has_codec = false;
  in_buf = make in_buf_size;
  outgoing_queue = [];
  pending_bytes = 0;
  closed = false;
  current_epoll_events = no_events;
  is_write_armed = false;
  is_reading_paused = false;
  last_activity = now;
}

unfoldable pub update_activity : Connection → ℕ → Connection
update_activity c now = record c { last_activity = now }
