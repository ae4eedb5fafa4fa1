-- ===== src/Send/History.antt =====
-- Any sequence of calls on one connection (v4/webserver.cpp), from whatever threads: the connection's mutex makes
-- the calls one after another.
use tcp_server_client_cpp.Base.{
  ℕ, zero, suc, ◌+◌, ◌-◌, ◌^◌, ◌≤◌, ◌<◌, ◌≡◌, ap, ◌∙◌, inl, inr, Bool, false, List, [], ◌∷◌, ◌++◌,
  arith, Bool-cases, length, take, flatten, length-append,
}
use tcp_server_client_cpp.Conn.{Connection}
use tcp_server_client_cpp.Wire.{WriteResult}
use tcp_server_client_cpp.Wire.Advance.{unsent}
use tcp_server_client_cpp.Wire.Loop.{IsSending}
use tcp_server_client_cpp.Send.{
  Acted, send_pre_encoded, handle_write, flush_conn, BroadcastEvent, excludes, broadcast_to,
  max_outgoing_queue_size,
}
use tcp_server_client_cpp.Send.Keep.{
  addressed, admitted, send_pre_encoded-Keeps, handle_write-Keeps, flush_conn-Keeps,
  broadcast_to-Keeps,
}
use tcp_server_client_cpp.Send.Stream.{Keeps, Keeps-refl, Keeps-trans}

pub data Call : Type 0 where
  sends : List ℕ → List WriteResult → Call
  writable : List WriteResult → Call
  flushes : Bool → List WriteResult → Call
  broadcasts : List BroadcastEvent → List WriteResult → Call

unfoldable pub step : Connection → Call → Acted
step c (sends packet answers) = send_pre_encoded c packet answers
step c (writable answers) = (handle_write c answers).0
step c (flushes owns_lock answers) = flush_conn c owns_lock answers
step c (broadcasts events answers) = broadcast_to c events answers

-- What the kernel has taken over the whole history, and the connection at its end.
unfoldable pub run : Connection → List Call → List ℕ × Connection
run c [] = ([], c)
run c (call ∷ calls) =
    let a = step c call in let (wire, d) = run a.conn calls in (a.wire ++ wire, d)

-- The bytes that a call hands over: those of a packet, or of the broadcasts addressed to the connection that fit
-- its queue.
unfoldable pub accepted : Connection → Call → List ℕ
accepted c (sends packet answers) = packet
accepted c (writable answers) = []
accepted c (flushes owns_lock answers) = []
accepted c (broadcasts events answers) = flatten (admitted c events)

unfoldable pub all_accepted : Connection → List Call → List ℕ
all_accepted c [] = []
all_accepted c (call ∷ calls) = accepted c call ++ all_accepted (step c call).conn calls

-- At most so many bytes are offered.
abbrev payloads : List BroadcastEvent → ℕ
payloads [] = 0
payloads (e ∷ es) = length e.payload + payloads es

unfoldable pub offered : List Call → ℕ
offered [] = 0
offered (sends packet answers ∷ calls) = length packet + offered calls
offered (writable answers ∷ calls) = offered calls
offered (flushes owns_lock answers ∷ calls) = offered calls
offered (broadcasts events answers ∷ calls) = payloads events + offered calls

pub addressed-le :
    (fd : ℕ) (es : List BroadcastEvent) → length (flatten (addressed fd es)) ≤ payloads es
addressed-le fd [] = omega arith
addressed-le fd (e ∷ es) = elim (Bool-cases (excludes e fd)) [
  | inl left_out ↦ rw left_out (omega (arith, addressed-le fd es))
  | inr meant ↦
      rw meant
        (omega (arith, addressed-le fd es, length-append e.payload (flatten (addressed fd es))))
]

length-flatten-take :
    (n : ℕ) (xss : List (List ℕ)) → length (flatten (take n xss)) ≤ length (flatten xss)
length-flatten-take zero xss = omega arith
length-flatten-take (suc n) [] = omega arith
length-flatten-take (suc n) (xs ∷ xss) = omega (
  arith,
  length-flatten-take n xss,
  length-append xs (flatten xss),
  length-append xs (flatten (take n xss)),
)

accepted-le :
    (c : Connection) (call : Call) (calls : List Call)
    → length (accepted c call) + offered calls ≤ offered (call ∷ calls)
unfolding accepted offered
accepted-le c (sends packet answers) calls = omega arith
accepted-le c (writable answers) calls = omega arith
accepted-le c (flushes owns_lock answers) calls = omega arith
accepted-le c (broadcasts events answers) calls = omega (
  arith,
  addressed-le c.fd events,
  length-flatten-take (max_outgoing_queue_size - length c.outgoing_queue) (addressed c.fd events),
)

pub step-Keeps :
    {c : Connection} (call : Call) (calls : List Call)
    → IsSending c
    → c.closed ≡ false
    → c.pending_bytes + offered (call ∷ calls) < 2 ^ 63
    → Keeps c (accepted c call) (step c call).wire (step c call).conn
unfolding step accepted offered
step-Keeps (sends packet answers) calls v o h =
    send_pre_encoded-Keeps packet answers v o (omega arith)
step-Keeps {c} (writable answers) calls v o h = handle_write-Keeps c answers v
step-Keeps {c} (flushes owns_lock answers) calls v o h = flush_conn-Keeps c owns_lock answers v
step-Keeps {c} (broadcasts events answers) calls v o h =
    broadcast_to-Keeps events answers v o (omega (arith, addressed-le c.fd events))

-- What is pending and offered is no more behind a call.
pub offered-step :
    {c : Connection} (call : Call) (calls : List Call)
    → IsSending c
    → c.closed ≡ false
    → c.pending_bytes + offered (call ∷ calls) < 2 ^ 63
    → (step c call).conn.pending_bytes + offered calls < 2 ^ 63
offered-step {c} call calls v o h =
    let k = step-Keeps call calls v o h in
    omega (
      arith,
      h,
      accepted-le c call calls,
      k.sending.pending,
      v.pending,
      ap length k.stream,
      length-append (step c call).wire (unsent (step c call).conn.outgoing_queue),
      length-append (unsent c.outgoing_queue) (accepted c call),
    )

-- Over any sequence of sends, writable events, flushes and broadcasts on an open connection whose send queue
-- and byte count agree, with less than 2^63 bytes pending and offered in all: the bytes that the kernel took
-- and then those still queued are those that were queued at the start and then those of each accepted packet,
-- in order; `pending_bytes` still counts the queued bytes.
pub run-Keeps :
    (c : Connection) (calls : List Call)
    → IsSending c
    → c.closed ≡ false
    → c.pending_bytes + offered calls < 2 ^ 63
    → Keeps c (all_accepted c calls) (run c calls).0 (run c calls).1
unfolding run all_accepted
run-Keeps c [] v o h = Keeps-refl v
run-Keeps c (call ∷ calls) v o h =
    let k = step-Keeps call calls v o h in
    Keeps-trans k
      (run-Keeps (step c call).conn calls k.sending (k.closed ∙ o) (offered-step call calls v o h))
