-- ===== src/Receive.antt =====
-- `WebServer::handle_read` of v4/webserver.cpp on one connection, under its mutex. The kernel holds the bytes that
-- the peer has sent and that are not read yet; its answers are a list, one for each call of `readv`.
pub mod Drain
pub mod Reassembly
pub mod Oversize
pub mod Tests
use tcp_server_client_cpp.Base.{
  ℕ, zero, suc, ◌+◌, ◌-◌, ◌*◌, ◌/◌, ◌%◌, ◌^◌, ◌≤◌, ◌<◌, min, max, String, ◌≡◌, refl, sym, ap, ap₂,
  subst, ◌∙◌, ◌≡⟨◌⟩◌, ◌∎, ◌≢◌, ◌↔◌, ◌⊎◌, inl, inr, Bool, true, false, not, ◌&&◌, ◌||◌, Option, none,
  some, List, [], ◌∷◌, ◌++◌, map, append-nil, append_assoc, arith, ltb, leb, ◌==◌, if◌then◌else◌,
  lt→ltb, le→ltb, ltb→lt, ltb→le, ==_iff, ==_refl, ==_ne, Bool-cases, Option-cases, length, get_or,
  take, drop, replicate, flatten, flatten-append, length-append, length-take, length-drop,
  length-replicate, take-append-drop, take_all, drop_all, take-append_left, drop-append_left,
  drop-append_right, drop-drop, take-append, drop-append, get_or-append, get_or-append_left,
  get_or-take, get_or-drop, take-take, drop-take, take-min, drop-min, drop-min_le, eq-nil, list_ext,
  size_mod, u32_mod, add_size, sub_size, add_u32, sub_size_lem, add_size_lem,
}
use tcp_server_client_cpp.Ring.{Ring, size, get_writeable_iovecs}
use tcp_server_client_cpp.Ring.Scatter.{Readv, receive, total_len}
use tcp_server_client_cpp.Codec.{decode}
use tcp_server_client_cpp.Conn.{Connection, update_activity}
use tcp_server_client_cpp.Wire.{is_nil}

-- What `readv` does: with `suc k` bytes at hand it reads as many, or what the regions hold if that is less (0 means
-- that the peer has closed); or it returns -1 with EAGAIN or EWOULDBLOCK, or -1 with another error. The number
-- beside `k` is the time.
pub data ReadAnswer : Type 0 where
  ready : ℕ → ℕ → ReadAnswer
  no_data failed : ReadAnswer

-- The `while(true)` over `decode`: the payloads in order, and the ring behind them. A packet takes four bytes at
-- least, so `suc (size r)` rounds are enough.
unfoldable pub decode_all : ℕ → Ring → List (List ℕ) × Ring
decode_all zero r = ([], r)
decode_all (suc fuel) r =
    let (o, s) = decode r in
    elim o [
      | none ↦ ([], s)
      | some payload ↦ (let (more, t) = decode_all fuel s in (payload ∷ more, t))
    ]

-- What the call leaves: the connection, the payloads of the MESSAGE events in order, the bytes that the kernel
-- still holds, and whether the connection is to be closed (`none` while a call of `readv` is unanswered).
pub record ReadDone : Type 0 where
  pub conn : Connection
  pub messages : List (List ℕ)
  pub kernel : List ℕ
  pub should_close : Option Bool

-- The bytes that the next `readv` reads.
unfoldable pub readable : Connection → List ℕ → ℕ → List ℕ
readable c kernel k = take (min (suc k) (total_len (get_writeable_iovecs c.in_buf))) kernel

module _ (sys : Readv) where
  -- A successful read: commit, note the time, set the default codec and decode.
  unfoldable pub take_in : Connection → List ℕ → ℕ → List (List ℕ) × Connection
  unfolding update_activity
  take_in c bytes now =
      let r = receive sys c.in_buf bytes in
      let (messages, s) = decode_all (suc (size r)) r in
      (messages, record (update_activity c now) { in_buf = s; has_codec = true })

  unfoldable pub handle_read : Connection → List ℕ → List ReadAnswer → ReadDone
  handle_read c kernel [] =
      if is_nil (get_writeable_iovecs c.in_buf)
      then record { conn = c; messages = []; kernel = kernel; should_close = some true }
      else record { conn = c; messages = []; kernel = kernel; should_close = none }
  handle_read c kernel (ready k now ∷ answers) =
      let bytes = readable c kernel k in
      let (messages, d) = take_in c bytes now in
      let later = handle_read d (drop (length bytes) kernel) answers in
      if is_nil (get_writeable_iovecs c.in_buf) || is_nil bytes
      then record { conn = c; messages = []; kernel = kernel; should_close = some true }
      else record later { messages = messages ++ later.messages }
  handle_read c kernel (no_data ∷ answers) =
      let full = is_nil (get_writeable_iovecs c.in_buf) in
      record { conn = c; messages = []; kernel = kernel; should_close = some full }
  handle_read c kernel (failed ∷ answers) = record {
    conn = c;
    messages = [];
    kernel = kernel;
    should_close = some true;
  }
