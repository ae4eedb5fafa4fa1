-- ===== src/Wire.antt =====
-- `WebServer::attempt_write` of v4/webserver.cpp: sending the queued packets with `writev`. The kernel's answers
-- are a list, one for each call of `writev`; what it takes is a front part of the bytes that it is offered.
pub mod Advance
pub mod Loop
pub mod Outcome
pub mod Frame
pub mod Tests
use tcp_server_client_cpp.Base.{
  ℕ, zero, suc, ◌+◌, ◌-◌, ◌*◌, ◌/◌, ◌%◌, ◌^◌, ◌≤◌, ◌<◌, min, max, String, ◌≡◌, refl, sym, ap, ap₂,
  subst, ◌∙◌, ◌≡⟨◌⟩◌, ◌∎, ◌≢◌, ◌↔◌, ◌⊎◌, inl, inr, Bool, true, false, not, ◌&&◌, ◌||◌, Option, none,
  some, List, [], ◌∷◌, ◌++◌, map, append-nil, append_assoc, arith, ltb, leb, ◌==◌, if◌then◌else◌,
  lt→ltb, le→ltb, ltb→lt, ltb→le, ==_iff, ==_refl, ==_ne, Bool-cases, Option-cases, length, get_or,
  take, drop, replicate, flatten, flatten-append, length-append, length-take, length-drop,
  length-replicate, take-append-drop, take_all, drop_all, take-append_left, drop-append_left,
  drop-append_right, drop-drop, take-append, drop-append, get_or-append, get_or-append_left,
  get_or-take, get_or-drop, take-take, drop-take, take-min, drop-min, drop-min_le, eq-nil, list_ext,
  size_mod, u32_mod, add_size, sub_size, add_u32, sub_size_lem, add_size_lem,
}
use tcp_server_client_cpp.Conn.{Connection, OutgoingPacket}

-- What `writev` does: it takes as many bytes, or all that it is offered if those are fewer, and returns their
-- number; or it returns -1 with EAGAIN or EWOULDBLOCK, or -1 with another error.
pub data WriteResult : Type 0 where
  wrote : ℕ → WriteResult
  would_block failed : WriteResult

-- `LOW_WATER_MARK`.
abbrev pub low_water_mark : ℕ
low_water_mark = 128 * 1024

-- `IOV_LIMIT`.
abbrev pub iov_limit : ℕ
iov_limit = 64

-- The rest of a packet, as an `iovec` describes it.
abbrev pub rest_of : OutgoingPacket → List ℕ
rest_of p = drop p.sent_offset p.payload

-- The `for` loop that fills `iov`: the rests of the first packets that have one, `limit` at most.
unfoldable pub gather : ℕ → List OutgoingPacket → List (List ℕ)
gather limit [] = []
gather zero (p ∷ q) = []
gather (suc limit) (p ∷ q) =
    let here = rest_of p ∷ gather limit q in
    let later = gather (suc limit) q in if ltb p.sent_offset (length p.payload) then here else later

unfoldable pub is_nil {ℓ} : {A : Type ℓ} → List A → Bool
is_nil [] = true
is_nil (x ∷ xs) = false

-- The rounds with `iov_count == 0`: each removes the front packet and goes round again.
unfoldable pub pop_sent : List OutgoingPacket → List OutgoingPacket
pop_sent [] = []
pop_sent (p ∷ q) = if is_nil (gather iov_limit (p ∷ q)) then pop_sent q else p ∷ q

-- The inner `while`: `bytes_left` bytes were sent. The first result counts the packets that are done.
unfoldable pub advance : ℕ → List OutgoingPacket → ℕ × List OutgoingPacket
advance bytes_left [] = (0, [])
advance bytes_left (p ∷ q) =
    let remaining_in_pkt = sub_size (length p.payload) p.sent_offset in
    let (n, q') = advance (sub_size bytes_left remaining_in_pkt) q in
    if ltb 0 bytes_left
    then if leb remaining_in_pkt bytes_left
      then (suc n, q')
      else (0, record p { sent_offset = add_size p.sent_offset bytes_left } ∷ q)
    else (0, p ∷ q)

-- Where the call stands: the queue is empty, EAGAIN, another error, or it waits for the kernel's next answer.
pub data Exit : Type 0 where
  drained blocked errored unanswered : Exit

-- The connection, the bytes that the kernel took, and the counts for the metrics.
pub record Sent : Type 0 where
  pub conn : Connection
  pub wire : List ℕ
  pub packets_done : ℕ
  pub exit : Exit

-- `n > 0` bytes went out.
unfoldable pub account : Connection → ℕ → Connection
account c n = record c {
  pending_bytes = if leb n c.pending_bytes then c.pending_bytes - n else 0;
  outgoing_queue = (advance n c.outgoing_queue).1;
}

-- What the kernel takes of what it is offered, and its number.
unfoldable pub taken : List OutgoingPacket → ℕ → List ℕ
taken q n = take n (flatten (gather iov_limit q))

abbrev pub returned : List OutgoingPacket → ℕ → ℕ
returned q n = length (taken q n)

-- The code after the loop.
unfoldable pub resume_reading : Connection → Connection
resume_reading c =
    if c.is_reading_paused && leb c.pending_bytes low_water_mark
    then record c { is_reading_paused = false }
    else c

abbrev pub stop : Connection → Exit → Sent
stop c e = record { conn = c; wire = []; packets_done = 0; exit = e }

-- A later round's outcome behind a round that sent `out` and finished `n` packets.
abbrev pub behind : List ℕ → ℕ → Sent → Sent
behind out n s = record s { wire = out ++ s.wire; packets_done = n + s.packets_done }

-- The outer `while`. A result of 0 changes nothing, and the loop goes round again.
unfoldable pub write_loop : Connection → List WriteResult → Sent
write_loop c [] =
    let c1 = record c { outgoing_queue = pop_sent c.outgoing_queue } in
    if is_nil c1.outgoing_queue then stop (resume_reading c1) drained else stop c1 unanswered
write_loop c (wrote zero ∷ answers) =
    let c1 = record c { outgoing_queue = pop_sent c.outgoing_queue } in
    let again = write_loop c1 answers in
    if is_nil c1.outgoing_queue then stop (resume_reading c1) drained else again
write_loop c (wrote (suc n) ∷ answers) =
    let c1 = record c { outgoing_queue = pop_sent c.outgoing_queue } in
    let q = c1.outgoing_queue in
    let n_sent = returned q (suc n) in
    let again =
      behind (taken q (suc n)) (advance n_sent q).0 (write_loop (account c1 n_sent) answers) in
    if is_nil q then stop (resume_reading c1) drained else again
write_loop c (would_block ∷ answers) =
    let c1 = record c { outgoing_queue = pop_sent c.outgoing_queue } in
    if is_nil c1.outgoing_queue then stop (resume_reading c1) drained else stop c1 blocked
write_loop c (failed ∷ answers) =
    let c1 = record c { outgoing_queue = pop_sent c.outgoing_queue } in
    if is_nil c1.outgoing_queue then stop (resume_reading c1) drained else stop c1 errored

-- `attempt_write`. An empty queue returns before the loop.
unfoldable pub attempt_write : Connection → List WriteResult → Sent
attempt_write c answers = if is_nil c.outgoing_queue then stop c drained else write_loop c answers

-- The `bool` that it returns: true on a fatal error.
unfoldable pub is_fatal : Exit → Bool
is_fatal errored = true
is_fatal _ = false
