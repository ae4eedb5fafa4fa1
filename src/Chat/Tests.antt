-- ===== src/Chat/Tests.antt =====
-- The theorems on `ChatApp` (v4/chatapp.h) at small runs.
use tcp_server_client_cpp.Base.{
  put, ℕ, ◌+◌, ◌*◌, ◌≤◌, ◌≡◌, refl, true, false, Option, none, some, List, [], ◌∷◌, arith, ◌==◌,
}
use text.Mathlib.TextEquality.{eq_iff}
use tcp_server_client_cpp.Chat.{
  ChatSession, ChatApp, ClientMessage, login, new_app, new_session, one_token, max_tokens,
  set_session, is_online, dispatch, handle_connect, handle_parsed, handle_message, handle_login,
  handle_disconnect, rate_limit, refill, spend, connect_event, message_event, process_event,
}
use tcp_server_client_cpp.Chat.Limit.{let_through, let_through-bound}
use tcp_server_client_cpp.Chat.Events.{
  Reach, start, connects, messages, Reach-unique, handle_login-stale,
}

let_through-bound_example :
    let (n, t) = let_through (new_session 5) (6 ∷ 7 ∷ 7 ∷ []) in
    n * one_token + 5 ≤ max_tokens + t.last_refill
let_through-bound_example =
    let_through-bound 5 (6 ∷ 7 ∷ 7 ∷ []) (omega arith, (omega arith, (omega arith, tt)))

-- A parser that knows one message.
abbrev parse : List ℕ → Option ClientMessage
parse [] = none
parse (x ∷ xs) = some (login "ann")

abbrev conn_ann : ℕ
conn_ann = 1

-- A connection that logs in as "ann".
abbrev greeted : ChatApp
greeted = (process_event parse new_app (connect_event 1) false 0 0).0

abbrev named : ChatApp
named = (process_event parse greeted (message_event 1 (some (1 ∷ []))) false 0 0).0

abbrev ann : ChatSession
ann = record (new_session 0) { username = "ann"; is_logged_in = true; tokens = 59 * one_token }

named-Reach : Reach parse (put ◌==◌ (λ conn. false) 1 true) named
named-Reach =
    messages 1 (some (1 ∷ [])) false 0 0 (connects 1 false 0 0 start (unfold new_app in refl))

named-ann : named.sessions 1 ≡ some ann
unfolding process_event handle_message handle_parsed rate_limit refill spend dispatch handle_login
    handle_connect set_session put is_online new_app new_session
named-ann = refl

Reach-unique_example : (named.online_users "ann" ≡ some conn_ann) × (conn_ann ≡ conn_ann)
Reach-unique_example =
    Reach-unique 1 1 ann ann named-Reach (unfold put in refl) (unfold put in refl) named-ann
      named-ann refl refl refl

named-online : named.online_users "ann" ≡ some 1
unfolding process_event handle_message handle_parsed rate_limit refill spend dispatch handle_login
    handle_connect set_session put is_online new_app new_session
named-online = refl

named-bob : is_online named "bob" ≡ false
unfolding process_event handle_message handle_parsed rate_limit refill spend dispatch handle_login
    handle_connect set_session put is_online new_app new_session
named-bob = refl

handle_login-stale_example :
    (handle_disconnect (handle_login named 1 ann "bob").0 1).0.online_users "ann" ≡ some 1
handle_login-stale_example =
    handle_login-stale named 1 ann "bob" named-online (λ e. cc ((eq_iff "ann" "bob").1 e)) named-bob
      refl
