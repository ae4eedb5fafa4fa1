-- ===== src/Chat3.antt =====
-- The chat application of v3/chatapp.h. Its three hooks run on several threads: `on_client_connect` and
-- `on_client_disconnect` on the reactor's, and the message hook on a worker of the thread pool, which holds the
-- connection's mutex. The hook takes `app_mtx_` only for `usernames_`, so that other threads run between its parts:
-- `take_message` is the part before the login or the chat, and `go_on` each part behind it.
pub mod Names
pub mod Change
pub mod Unique
pub mod Leak
pub mod Tests
use tcp_server_client_cpp.Base.{
  ℕ, zero, suc, ◌+◌, ◌-◌, ◌*◌, ◌/◌, ◌%◌, ◌^◌, ◌≤◌, ◌<◌, min, max, String, ◌≡◌, refl, sym, ap, ap₂,
  subst, ◌∙◌, ◌≡⟨◌⟩◌, ◌∎, ◌≢◌, ◌↔◌, ◌⊎◌, inl, inr, Bool, true, false, not, ◌&&◌, ◌||◌, Option, none,
  some, List, [], ◌∷◌, ◌++◌, map, append-nil, append_assoc, arith, ltb, leb, ◌==◌, if◌then◌else◌,
  lt→ltb, le→ltb, ltb→lt, ltb→le, ==_iff, ==_refl, ==_ne, Bool-cases, Option-cases, length, get_or,
  take, drop, replicate, flatten, flatten-append, length-append, length-take, length-drop,
  length-replicate, take-append-drop, take_all, drop_all, take-append_left, drop-append_left,
  drop-append_right, drop-drop, take-append, drop-append, get_or-append, get_or-append_left,
  get_or-take, get_or-drop, take-take, drop-take, take-min, drop-min, drop-min_le, eq-nil, list_ext,
  size_mod, u32_mod, add_size, sub_size, add_u32, sub_size_lem, add_size_lem, put, put-cases,
}
use Prim.Native.String.{◌++◌ as str_append}
use tcp_server_client_cpp.Chat.{is_empty, remove, contains, one_token, max_tokens}

pub data ConnState : Type 0 where
  awaiting_username active : ConnState

-- The fields of `Connection` (v3/connection.h) that the hooks use.
pub record Conn : Type 0 where
  pub username : String
  pub state : ConnState
  pub is_broadcast_recipient : Bool
  pub closed : Bool
  pub has_codec : Bool
  pub tokens : ℕ
  pub last_refill_time : ℕ

-- Where the worker that holds a connection's mutex stands: nowhere, behind the rate limit with a text, or with a name
-- put into `usernames_` and not yet into the connection.
pub data Worker : Type 0 where
  idle : Worker
  checked claimed : String → Worker

-- Calls of the server: `SendFast` behind its test, and `Broadcast`, to all but one connection.
pub data Call : Type 0 where
  send_fast : ℕ → String → Call
  broadcast_text : String → Option ℕ → Call

pub record App : Type 0 where
  pub conns : ℕ → Conn
  pub workers : ℕ → Worker
  pub usernames : List String
  pub calls : List Call

-- A connection made at the time given.
unfoldable pub new_conn : ℕ → Conn
new_conn now = record {
  username = "";
  state = awaiting_username;
  is_broadcast_recipient = false;
  closed = false;
  has_codec = false;
  tokens = max_tokens;
  last_refill_time = now;
}

-- The connections are those that will be accepted, each with its time.
unfoldable pub start_app : (ℕ → ℕ) → App
start_app born = record {
  conns = λ conn. new_conn (born conn);
  workers = λ conn. idle;
  usernames = [];
  calls = [];
}

abbrev pub set_conn : App → ℕ → Conn → App
set_conn a conn c = record a { conns = put ◌==◌ a.conns conn c }

abbrev pub set_worker : App → ℕ → Worker → App
set_worker a conn w = record a { workers = put ◌==◌ a.workers conn w }

-- `SendFast`.
unfoldable pub send : App → ℕ → String → App
send a conn text =
    if (a.conns conn).has_codec
    then record a { calls = a.calls ++ (send_fast conn text ∷ []) }
    else a

-- `OnClientConnect`.
unfoldable pub on_client_connect : App → ℕ → App
unfolding put
on_client_connect a conn =
    send (set_conn a conn (record (a.conns conn) { has_codec = true })) conn
      "[Server]: Welcome! Please enter your username: "

-- `OnClientDisconnect`.
unfoldable pub on_client_disconnect : App → ℕ → App
on_client_disconnect a conn =
    let left_user = (a.conns conn).username in
    if is_empty left_user then a else record a {
      usernames = remove left_user a.usernames;
      calls =
          a.calls
          ++ (broadcast_text
                (str_append "[Server]: " (str_append left_user " has left the chat.\n")) none
              ∷ []);
    }

-- `WebServer::close_conn` of v3/webserver.cpp, as far as the application sees it.
unfoldable pub close_client : App → ℕ → App
unfolding put
close_client a conn =
    if (a.conns conn).closed
    then a
    else on_client_disconnect (set_conn a conn (record (a.conns conn) { closed = true })) conn

-- The refill_tokens of the tokens, at one token for each second.
unfoldable pub refill_tokens : Conn → ℕ → Conn
refill_tokens c now = record c {
  tokens = min (c.tokens + (now - c.last_refill_time)) max_tokens;
  last_refill_time = now;
}

abbrev pub is_idle : Worker → Bool
is_idle idle = true
is_idle (checked text) = false
is_idle (claimed text) = false

-- The message hook up to the rate limit; a worker that does not get the mutex waits.
unfoldable pub take_message : App → ℕ → String → ℕ → App
unfolding put
take_message a conn text now =
    let c = refill_tokens (a.conns conn) now in
    if not (is_idle (a.workers conn)) || (a.conns conn).closed
    then a
    else if ltb c.tokens one_token
    then close_client
        (send (set_conn a conn c) conn
          "[Server]: You are sending messages too quickly, upgrade to premium! Disconnecting...\n")
        conn
    else set_worker (set_conn a conn (record c { tokens = c.tokens - one_token })) conn
        (checked text)

-- The part under `app_mtx_`: the name is put into the set if it is free.
unfoldable pub claim_name : App → ℕ → String → App
unfolding put
claim_name a conn text =
    if contains text a.usernames || is_empty text
    then send (set_worker a conn idle) conn "[Server]: Invalid or taken. Try again: "
    else set_worker (record a { usernames = text ∷ a.usernames }) conn (claimed text)

-- The part behind it, for a name that was free.
unfoldable pub accept_name : App → ℕ → String → App
unfolding put
accept_name a conn text =
    let c = record (a.conns conn) {
      username = text;
      state = active;
      is_broadcast_recipient = true;
    } in
    let b =
      send (set_worker (set_conn a conn c) conn idle) conn "[Server]: Username accepted! :)\n" in
    record b {
      calls =
          b.calls
          ++ (broadcast_text (str_append "[Server]: " (str_append text " joined!\n")) (some conn)
              ∷ []);
    }

-- The `else`: a message of the chat.
unfoldable pub normal_chat : App → ℕ → String → App
unfolding put
normal_chat a conn text =
    let chat =
      str_append "["
        (str_append (a.conns conn).username (str_append "]: " (str_append text "\n"))) in
    record a {
      workers = put ◌==◌ a.workers conn idle;
      calls = a.calls ++ (broadcast_text chat (some conn) ∷ []);
    }

-- One part of the hook by the worker that holds the connection's mutex.
unfoldable pub go_on : App → ℕ → App
go_on a conn = elim (a.workers conn) [
  | idle ↦ a
  | checked text ↦ elim ((a.conns conn).state) [
    | awaiting_username ↦ claim_name a conn text
    | active ↦ normal_chat a conn text
  ]
  | claimed text ↦ accept_name a conn text
]

-- What may happen next, on any thread.
pub data Event : Type 0 where
  connects : ℕ → Event
  arrives : ℕ → String → ℕ → Event
  proceeds : ℕ → Event
  closes : ℕ → Event

unfoldable pub act : App → Event → App
act a (connects conn) = on_client_connect a conn
act a (arrives conn text now) = take_message a conn text now
act a (proceeds conn) = go_on a conn
act a (closes conn) = close_client a conn

abbrev pub run : App → List Event → App
run a [] = a
run a (e ∷ es) = run (act a e) es
