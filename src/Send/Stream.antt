-- ===== src/Send/Stream.antt =====
-- The sending side of a connection (v4/webserver.cpp) as a byte stream, from one state to the next.
use tcp_server_client_cpp.Base.{
  ℕ, ◌≡◌, refl, sym, ap, subst, ◌∙◌, Bool, List, [], ◌++◌, append-nil, append_assoc,
}
use tcp_server_client_cpp.Conn.{Connection, Events}
use tcp_server_client_cpp.Wire.Advance.{unsent}
use tcp_server_client_cpp.Wire.Loop.{IsSending}
use tcp_server_client_cpp.Send.Update.{SameQueue, with_flags, with_flags-SameQueue}

-- From `c` to `d`: the bytes sent and those kept are those that were queued and then those accepted. The counter
-- stays exact, and the descriptor, the closed flag and the input are left alone.
pub record Keeps (c : Connection) (accepted wire : List ℕ) (d : Connection) : Type 0 where
  pub stream : wire ++ unsent d.outgoing_queue ≡ unsent c.outgoing_queue ++ accepted
  pub sending : IsSending d
  pub fd : d.fd ≡ c.fd
  pub closed : d.closed ≡ c.closed
  pub in_buf : d.in_buf ≡ c.in_buf

pub Keeps-refl : {c : Connection} → IsSending c → Keeps c [] [] c
Keeps-refl {c} v = record {
  stream = sym (append-nil _);
  sending = v;
  fd = refl;
  closed = refl;
  in_buf = refl;
}

pub Keeps-flags :
    {c d e : Connection} {accepted wire : List ℕ}
    → Keeps c accepted wire d
    → SameQueue d e
    → Keeps c accepted wire e
Keeps-flags k s = record {
  stream = rw s.outgoing k.stream;
  sending = record {
    queue = rw s.outgoing k.sending.queue;
    pending = rw (s.outgoing, s.pending) k.sending.pending;
    small = rw s.pending k.sending.small;
  };
  fd = s.fd ∙ k.fd;
  closed = s.closed ∙ k.closed;
  in_buf = s.in_buf ∙ k.in_buf;
}

-- Acceptance first, then sending.
pub Keeps-trans :
    {c d e : Connection} {accepted more wire out : List ℕ}
    → Keeps c accepted wire d
    → Keeps d more out e
    → Keeps c (accepted ++ more) (wire ++ out) e
Keeps-trans {c} {d} {e} {accepted} {more} {wire} {out} k l = record {
  stream =
      append_assoc wire out (unsent e.outgoing_queue)
      ∙ ap (λ t. wire ++ t) l.stream
      ∙ sym (append_assoc wire (unsent d.outgoing_queue) more)
      ∙ ap (λ t. t ++ more) k.stream
      ∙ append_assoc (unsent c.outgoing_queue) accepted more;
  sending = l.sending;
  fd = l.fd ∙ k.fd;
  closed = l.closed ∙ k.closed;
  in_buf = l.in_buf ∙ k.in_buf;
}

-- Sending alone, after that.
pub Keeps-then :
    {c d e : Connection} {accepted wire out : List ℕ}
    → Keeps c accepted wire d
    → Keeps d [] out e
    → Keeps c accepted (wire ++ out) e
Keeps-then {c} {d} {e} {accepted} {wire} {out} k l =
    subst (λ t. Keeps c t (wire ++ out) e) (append-nil accepted) (Keeps-trans k l)

-- A change of flags that is known as an equation.
pub flagged :
    {c d e : Connection} {accepted wire : List ℕ} (events : Events) (armed paused codec : Bool)
    → Keeps c accepted wire d
    → e ≡ with_flags d events armed paused codec
    → Keeps c accepted wire e
flagged {d = d} events armed paused codec k h =
    rw h (Keeps-flags k (with_flags-SameQueue d events armed paused codec))
