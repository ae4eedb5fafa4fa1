-- ===== src/Chat/Events.antt =====
-- `ChatApp::ProcessEvent` (v4/chatapp.h) over any sequence of the network's events.
use tcp_server_client_cpp.Base.{
  put, ℕ, String, ◌≡◌, refl, ap, ◌∙◌, ◌≢◌, inl, inr, Bool, true, false, Option, none, some, List,
  ◌==◌, Bool-cases,
}
use text.Mathlib.Text.{◌==◌ as str_eq}
use tcp_server_client_cpp.Chat.{
  ChatSession, ChatApp, ClientMessage, new_app, is_online, is_empty, handle_login,
  handle_disconnect, disconnect_session, leave_room, connect_event, disconnect_event, message_event,
  process_event,
}
use tcp_server_client_cpp.Chat.Names.{IsRegistered, set_session-sessions}
use tcp_server_client_cpp.Chat.Unique.{
  handle_message-IsRegistered, handle_connect-IsRegistered, handle_disconnect-IsRegistered,
  owner_unique, put-other, put-live,
}

-- The states that the events lead to, and the connections that are live: those whose CONNECT has been processed and
-- whose DISCONNECT has not. A connection is announced once, before it has a session, and leaves once. `closed` is
-- its flag when the event is processed, which other threads set.
pub data Reach (parse : List ℕ → Option ClientMessage) : (ℕ → Bool) → ChatApp → Type 0 where
  start : Reach parse (λ conn. false) new_app
  connects :
      {live : ℕ → Bool} {a : ChatApp} (conn : ℕ) (closed : Bool) (now clock : ℕ)
      → Reach parse live a
      → a.sessions conn ≡ none
      → Reach parse
          (put ◌==◌ live conn true)
          (process_event parse a (connect_event conn) closed now clock).0
  messages :
      {live : ℕ → Bool} {a : ChatApp} (conn : ℕ) (payload : Option (List ℕ)) (closed : Bool)
      (now clock : ℕ)
      → Reach parse live a
      → Reach parse live (process_event parse a (message_event conn payload) closed now clock).0
  disconnects :
      {live : ℕ → Bool} {a : ChatApp} (conn : ℕ) (closed : Bool) (now clock : ℕ)
      → Reach parse live a
      → live conn ≡ true
      → Reach parse
          (put ◌==◌ live conn false)
          (process_event parse a (disconnect_event conn) closed now clock).0

without_session-IsRegistered :
    {live : ℕ → Bool} {a : ChatApp} (conn : ℕ)
    → a.sessions conn ≡ none
    → IsRegistered live a
    → IsRegistered (put ◌==◌ live conn true) a
without_session-IsRegistered {live} {a} conn e h = record {
  owns = λ d t l at i. elim (put-live live conn true d l) [
    | inl (same, _) ↦ cc (e, at, ap a.sessions same)
    | inr (_, was) ↦ h.owns d t was at i
  ];
}

Reach-IsRegistered :
    {parse : List ℕ → Option ClientMessage} {live : ℕ → Bool} {a : ChatApp}
    → Reach parse live a
    → IsRegistered live a
unfolding process_event new_app
Reach-IsRegistered start = record { owns = λ d t l. cc l }
Reach-IsRegistered (connects conn true now clock r e) =
    without_session-IsRegistered conn e (Reach-IsRegistered r)
Reach-IsRegistered (connects {a} conn false now clock r e) =
    handle_connect-IsRegistered a conn now (Reach-IsRegistered r)
Reach-IsRegistered (messages conn none closed now clock r) = Reach-IsRegistered r
Reach-IsRegistered (messages conn (some raw_data) true now clock r) = Reach-IsRegistered r
Reach-IsRegistered {parse} (messages {a} conn (some raw_data) false now clock r) =
    handle_message-IsRegistered parse a conn raw_data now clock (Reach-IsRegistered r)
Reach-IsRegistered (disconnects {a} conn closed now clock r l) =
    handle_disconnect-IsRegistered a conn l (Reach-IsRegistered r)

-- After any sequence of network events processed by `ChatApp` from its start, where a connection is announced
-- once, before it has a session, and leaves once: if two live connections are logged in under the same name,
-- they are the same connection, and `online_users_` leads from the name to it.
pub Reach-unique :
    {parse : List ℕ → Option ClientMessage} {live : ℕ → Bool} {a : ChatApp} (c d : ℕ)
    (s t : ChatSession)
    → Reach parse live a
    → live c ≡ true
    → live d ≡ true
    → a.sessions c ≡ some s
    → a.sessions d ≡ some t
    → s.is_logged_in ≡ true
    → t.is_logged_in ≡ true
    → s.username ≡ t.username
    → (a.online_users s.username ≡ some c) × (c ≡ d)
Reach-unique c d s t r lc ld ec ed ic id e =
    let h = Reach-IsRegistered r in
    (h.owns c s lc ec ic, owner_unique c d s t h lc ld ec ed ic id e)

-- The effect of a login that is accepted.
login-accepted :
    (a : ChatApp) (conn : ℕ) (s : ChatSession) (name : String)
    → is_online a name ≡ false
    → is_empty name ≡ false
    → let b = (handle_login a conn s name).0 in
      (b.online_users ≡ put str_eq a.online_users name (some conn))
      × (b.sessions conn ≡ some (record s { username = name; is_logged_in = true }))
unfolding handle_login
login-accepted a conn s name off full =
    rw (off, full)
      (
        refl,
        elim (set_session-sessions a conn (record s { username = name; is_logged_in = true })
            conn) [ inl (_, e) ↦ e | inr (n, _) ↦ absurd (n refl) ],
      )

disconnect-online :
    (a : ChatApp) (conn : ℕ) (s : ChatSession)
    → a.sessions conn ≡ some s
    → s.is_logged_in ≡ true
    → is_empty s.username ≡ false
    → (handle_disconnect a conn).0.online_users ≡ put str_eq a.online_users s.username none
unfolding handle_disconnect disconnect_session leave_room
disconnect-online a conn s at logged full = elim (Bool-cases (is_empty s.current_room)) [
  | inl e ↦ rw (at, handle_disconnect, disconnect_session, logged, full, e) refl
  | inr e ↦ rw (at, handle_disconnect, disconnect_session, logged, full, e) refl
]

-- If a name is registered for a connection whose session bears it, and a login under a second, free and not
-- empty name is accepted on it, the first name is still registered for that connection after it has
-- disconnected.
pub handle_login-stale :
    (a : ChatApp) (conn : ℕ) (s : ChatSession) (name : String)
    → a.online_users s.username ≡ some conn
    → s.username ≢ name
    → is_online a name ≡ false
    → is_empty name ≡ false
    → let b = (handle_login a conn s name).0 in
      (handle_disconnect b conn).0.online_users s.username ≡ some conn
handle_login-stale a conn s name owned other off full =
    let b = (handle_login a conn s name).0 in
    let (online, at) = login-accepted a conn s name off full in
    ap (λ f. f s.username)
      (disconnect-online b conn (record s { username = name; is_logged_in = true }) at refl full)
    ∙ put-other b.online_users name none s.username other
    ∙ ap (λ f. f s.username) online
    ∙ put-other a.online_users name (some conn) s.username other
    ∙ owned
