-- ===== src/Server/Announce.antt =====
-- The events that the table of connections (v4/webserver.cpp) announces, over any sequence of accepts and closes.
use tcp_server_client_cpp.Base.{
  put, ℕ, suc, ◌+◌, ◌≤◌, ◌<◌, ◌≡◌, refl, sym, ap, subst, ◌∙◌, inl, inr, Bool, true, false, ◌||◌,
  List, [], ◌∷◌, ◌++◌, arith, ltb, ◌==◌, if◌then◌else◌, ==_iff, Bool-cases,
}
use tcp_server_client_cpp.Conn.{connect}
use tcp_server_client_cpp.Chat.{NetworkEvent, connect_event, disconnect_event, message_event}
use tcp_server_client_cpp.Server.{
  Server, new_server, accept_client, close_conn, erase_entry, mark_closed,
}

pub data Call : Type 0 where
  accepts : ℕ → ℕ → Call
  closes : ℕ → Call

unfoldable pub step : Server → Call → Server
step s (accepts client_fd now) = accept_client s client_fd now
step s (closes conn) = close_conn s conn

unfoldable pub run : Server → List Call → Server
run s [] = s
run s (call ∷ calls) = run (step s call) calls

-- Only connections that exist are closed.
abbrev pub IsReal : ℕ → List Call → Type 0
IsReal accepted [] = Unit {0}
IsReal accepted (accepts client_fd now ∷ calls) = IsReal (suc accepted) calls
IsReal accepted (closes conn ∷ calls) = (conn < accepted) × IsReal accepted calls

abbrev pub one_if : Bool → ℕ
one_if b = if b then 1 else 0

-- How many CONNECT events, and how many DISCONNECT events, there are of a connection.
unfoldable pub connects : ℕ → List NetworkEvent → ℕ
connects conn [] = 0
connects conn (connect_event c ∷ es) = one_if (c == conn) + connects conn es
connects conn (disconnect_event c ∷ es) = connects conn es
connects conn (message_event c payload ∷ es) = connects conn es

unfoldable pub disconnects : ℕ → List NetworkEvent → ℕ
disconnects conn [] = 0
disconnects conn (connect_event c ∷ es) = disconnects conn es
disconnects conn (disconnect_event c ∷ es) = one_if (c == conn) + disconnects conn es
disconnects conn (message_event c payload ∷ es) = disconnects conn es

connects-append :
    (conn : ℕ) (xs ys : List NetworkEvent)
    → connects conn (xs ++ ys) ≡ connects conn xs + connects conn ys
unfolding connects
connects-append conn [] ys = omega arith
connects-append conn (connect_event c ∷ xs) ys = omega (arith, connects-append conn xs ys)
connects-append conn (disconnect_event c ∷ xs) ys = connects-append conn xs ys
connects-append conn (message_event c payload ∷ xs) ys = connects-append conn xs ys

disconnects-append :
    (conn : ℕ) (xs ys : List NetworkEvent)
    → disconnects conn (xs ++ ys) ≡ disconnects conn xs + disconnects conn ys
unfolding disconnects
disconnects-append conn [] ys = omega arith
disconnects-append conn (connect_event c ∷ xs) ys = disconnects-append conn xs ys
disconnects-append conn (disconnect_event c ∷ xs) ys = omega (arith, disconnects-append conn xs ys)
disconnects-append conn (message_event c payload ∷ xs) ys = disconnects-append conn xs ys

-- Each accepted connection is announced once, and its end once it is closed; others not at all.
pub record IsAnnounced (s : Server) (conn : ℕ) : Type 0 where
  pub begun : connects conn s.event_queue ≡ one_if (ltb conn s.accepted)
  pub ended : disconnects conn s.event_queue ≡ one_if (s.conns conn).closed
  pub fresh : s.accepted ≤ conn → (s.conns conn).closed ≡ false

accept_client-closed :
    (s : Server) (client_fd now conn : ℕ)
    → ((accept_client s client_fd now).conns conn).closed
      ≡ (if conn == s.accepted then false else (s.conns conn).closed)
unfolding accept_client put connect
accept_client-closed s client_fd now conn = elim (Bool-cases (conn == s.accepted)) [
  | inl e ↦ rw e refl
  | inr e ↦ rw e refl
]

pub accept_client-events :
    (s : Server) (client_fd now : ℕ)
    → ((accept_client s client_fd now).event_queue
        ≡ s.event_queue ++ (connect_event s.accepted ∷ []))
      × ((accept_client s client_fd now).accepted ≡ suc s.accepted)
unfolding accept_client
accept_client-events s client_fd now = (refl, refl)

accept_client-IsAnnounced :
    (s : Server) (client_fd now conn : ℕ)
    → IsAnnounced s conn
    → IsAnnounced (accept_client s client_fd now) conn
unfolding connects disconnects
accept_client-IsAnnounced s client_fd now conn h =
    let (queue, counted) = accept_client-events s client_fd now in
    let flag = accept_client-closed s client_fd now conn in
    let c =
      ap (connects conn) queue
      ∙ connects-append conn s.event_queue (connect_event s.accepted ∷ []) in
    let d =
      ap (disconnects conn) queue
      ∙ disconnects-append conn s.event_queue (connect_event s.accepted ∷ []) in
    record {
      begun = rw (c, counted, h.begun) (ground arith);
      ended = rw (d, flag, h.ended) (ground (arith, h.fresh));
      fresh = λ l. rw flag (ground (arith, h.fresh, rw counted at l));
    }

pub close_conn-closed :
    (s : Server) (closing conn : ℕ)
    → ((close_conn s closing).conns conn).closed ≡ (conn == closing) || (s.conns conn).closed
unfolding close_conn put erase_entry mark_closed
close_conn-closed s closing conn = elim (Bool-cases (conn == closing)) [
  | inl e ↦ elim (Bool-cases (s.conns closing).closed) [
    | inl f ↦ rw (f, e) (ap (λ c. (s.conns c).closed) ((==_iff conn closing).0 e) ∙ f)
    | inr f ↦ rw (f, e) refl
  ]
  | inr e ↦ elim (Bool-cases (s.conns closing).closed) [
    | inl f ↦ rw (f, e) refl
    | inr f ↦ rw (f, e) refl
  ]
]

pub close_conn-events :
    (s : Server) (closing : ℕ)
    → ((close_conn s closing).event_queue ≡ (
        if (s.conns closing).closed
        then s.event_queue
        else s.event_queue ++ (disconnect_event closing ∷ [])))
      × ((close_conn s closing).accepted ≡ s.accepted)
unfolding close_conn erase_entry mark_closed
close_conn-events s closing = elim (Bool-cases (s.conns closing).closed) [
  | inl e ↦ rw e (refl, refl)
  | inr e ↦ rw e (refl, refl)
]

closed_already :
    (s : Server) (closing conn : ℕ)
    → (s.conns closing).closed ≡ true
    → (s.conns conn).closed ≡ (conn == closing) || (s.conns conn).closed
closed_already s closing conn f = elim (Bool-cases (conn == closing)) [
  | inl e ↦ rw e (ap (λ c. (s.conns c).closed) ((==_iff conn closing).0 e) ∙ f)
  | inr e ↦ rw e refl
]

closed_now :
    (s : Server) (closing conn : ℕ)
    → (s.conns closing).closed ≡ false
    → one_if (s.conns conn).closed + (one_if (closing == conn) + 0)
      ≡ one_if ((conn == closing) || (s.conns conn).closed)
closed_now s closing conn f = elim (Bool-cases (conn == closing)) [
  | inl e ↦
      let same = (==_iff conn closing).0 e in
      rw (ap (λ c. (s.conns c).closed) same ∙ f) (ground (arith, same))
  | inr e ↦ ground arith
]

close_conn-IsAnnounced :
    (s : Server) (closing conn : ℕ)
    → closing < s.accepted
    → IsAnnounced s conn
    → IsAnnounced (close_conn s closing) conn
unfolding connects disconnects
close_conn-IsAnnounced s closing conn l h =
    let (queue, counted) = close_conn-events s closing in
    let flag = close_conn-closed s closing conn in
    let more = disconnect_event closing ∷ [] in
    let late : s.accepted ≤ conn → ((close_conn s closing).conns conn).closed ≡ false =
      λ k. flag ∙ ground (arith, h.fresh k) in
    elim (Bool-cases (s.conns closing).closed) [
      | inl f ↦
          let same = rw f at queue in
          record {
            begun = rw (same, counted) h.begun;
            ended = rw (same, flag) (h.ended ∙ ap one_if (closed_already s closing conn f));
            fresh = λ k. late (rw counted at k);
          }
      | inr f ↦
          let longer = rw f at queue in
          record {
            begun =
                rw (longer, counted)
                  (connects-append conn s.event_queue more ∙ omega (arith, h.begun));
            ended =
                rw (longer, flag)
                  (disconnects-append conn s.event_queue more
                    ∙ rw h.ended (closed_now s closing conn f));
            fresh = λ k. late (rw counted at k);
          }
    ]

run-IsAnnounced :
    (s : Server) (calls : List Call) (conn : ℕ)
    → IsReal s.accepted calls
    → IsAnnounced s conn
    → IsAnnounced (run s calls) conn
unfolding run step
run-IsAnnounced s [] conn r h = h
run-IsAnnounced s (accepts client_fd now ∷ calls) conn r h =
    run-IsAnnounced (accept_client s client_fd now) calls conn
      (subst (λ n. IsReal n calls) (sym (accept_client-events s client_fd now).1) r)
      (accept_client-IsAnnounced s client_fd now conn h)
run-IsAnnounced s (closes closing ∷ calls) conn r h =
    run-IsAnnounced (close_conn s closing) calls conn
      (subst (λ n. IsReal n calls) (sym (close_conn-events s closing).1) r.1)
      (close_conn-IsAnnounced s closing conn r.0 h)

-- Over any sequence of accepted clients and closes of accepted connections, on a new server: a connection's
-- CONNECT is put into the event queue once if it was accepted and not otherwise, and its DISCONNECT once if it
-- is closed and not otherwise, however often it is closed and whatever descriptors are used again.
pub run-announces :
    (calls : List Call) (conn : ℕ)
    → IsReal 0 calls
    → let s = run new_server calls in
      (connects conn s.event_queue ≡ one_if (ltb conn s.accepted))
      × (disconnects conn s.event_queue ≡ one_if (s.conns conn).closed)
unfolding new_server connects disconnects connect
run-announces calls conn r =
    let h =
      run-IsAnnounced new_server calls conn r
        (record { begun = ground arith; ended = refl; fresh = λ l. refl }) in
    (h.begun, h.ended)
