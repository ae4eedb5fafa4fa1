-- ===== src/Client/Tests.antt =====
-- The theorems on the client (v4/client.cpp) at small inputs.
use tcp_server_client_cpp.Base.{
  ℕ, zero, suc, ◌≡◌, refl, ap₂, true, Option, none, some, List, [], ◌∷◌, ◌++◌, arith, length, take,
  drop, take-append, drop-append,
}
use tcp_server_client_cpp.Ring.Tests.{posix}
use tcp_server_client_cpp.Codec.{Protobuf}
use tcp_server_client_cpp.Chat.{login_response, chat_broadcast}
use tcp_server_client_cpp.Client.{
  Request, login, join_room, private_chat, room_chat, global_chat, Client, prompt_for, input_loop,
}
use tcp_server_client_cpp.Client.Rooms.{shown_room, Follows, IsPrompted, input_loop-Follows}
use tcp_server_client_cpp.Client.Typing.{line_for, input_loop-line_for}
use tcp_server_client_cpp.Client.Inbox.{
  Incoming, start, PollAnswer, nothing_yet, hung_up, readv_ready, receive_loop, log_in,
}
use tcp_server_client_cpp.Client.Inbox.Delivery.{Shows}
use tcp_server_client_cpp.Client.Inbox.Login.{Welcomed, packets_of, log_in-Shows}

-- "al" in the room "r".
abbrev al : Client
al = record {
  username = 97 ∷ 108 ∷ [];
  current_room = 114 ∷ [];
  prompt = prompt_for (97 ∷ 108 ∷ []) (114 ∷ []);
  current_line = [];
  running = true;
}

al-IsPrompted : IsPrompted al
al-IsPrompted = unfold shown_room in refl

-- "hi", Enter, "/leave", Enter, "yo", Enter.
abbrev keys : List ℕ
keys = 104 ∷ 105 ∷ 10 ∷ 47 ∷ 108 ∷ 101 ∷ 97 ∷ 118 ∷ 101 ∷ 10 ∷ 121 ∷ 111 ∷ 10 ∷ []

input_loop-Follows_example :
    let (d, ms) = input_loop al keys in Follows al.current_room ms d.current_room × IsPrompted d
input_loop-Follows_example = input_loop-Follows al keys al-IsPrompted

input_loop-line_for_example :
    (input_loop al (line_for (private_chat (98 ∷ []) (104 ∷ 105 ∷ [])) ++ (10 ∷ []))).1
    ≡ private_chat (98 ∷ []) (104 ∷ 105 ∷ []) ∷ []
input_loop-line_for_example =
    input_loop-line_for al (private_chat (98 ∷ []) (104 ∷ 105 ∷ [])) refl refl
      ((refl, refl, tt), (λ e. cc e), (refl, (refl, tt)), (λ e. cc e))

-- Requests as bytes: the kind, and the texts, the length of the first before two.
abbrev two : List ℕ → List ℕ → List ℕ
two a b = length a ∷ (a ++ b)

abbrev request_bytes : Request → List ℕ
request_bytes (login name) = 0 ∷ name
request_bytes (join_room room) = 1 ∷ room
request_bytes (private_chat target text) = 2 ∷ two target text
request_bytes (room_chat room text) = 3 ∷ two room text
request_bytes (global_chat text) = 4 ∷ text

abbrev request_of : List ℕ → Option Request
request_of [] = none
request_of (zero ∷ bs) = some (login bs)
request_of (suc zero ∷ bs) = some (join_room bs)
request_of (suc (suc zero) ∷ []) = none
request_of (suc (suc zero) ∷ n ∷ bs) = some (private_chat (take n bs) (drop n bs))
request_of (suc (suc (suc zero)) ∷ []) = none
request_of (suc (suc (suc zero)) ∷ n ∷ bs) = some (room_chat (take n bs) (drop n bs))
request_of (suc (suc (suc (suc k))) ∷ bs) = some (global_chat bs)

request_of-bytes : (m : Request) → request_of (request_bytes m) ≡ some m
request_of-bytes (login name) = refl
request_of-bytes (join_room room) = refl
request_of-bytes (private_chat a b) =
    ap₂ (λ x y. some (private_chat x y)) (take-append a b) (drop-append a b)
request_of-bytes (room_chat a b) =
    ap₂ (λ x y. some (room_chat x y)) (take-append a b) (drop-append a b)
request_of-bytes (global_chat text) = refl

abbrev requests_raw : Protobuf Request
requests_raw = record {
  serialize = request_bytes;
  parse = request_of;
  parse-serialize = request_of-bytes;
}

-- Answers as bytes: the empty message accepts the login, others are news from the server.
abbrev answers_raw : Protobuf (List ℕ)
answers_raw = record { serialize = λ m. m; parse = λ m. some m; parse-serialize = λ m. refl }

abbrev view : List ℕ → Incoming
view [] = some (login_response true "Login successful.")
view (c ∷ cs) = some (chat_broadcast "Server" "news" "" 0)

abbrev polls : List PollAnswer
polls = readv_ready 2 ∷ nothing_yet ∷ readv_ready 50 ∷ hung_up ∷ []

log_in-Shows_example :
    let bytes = packets_of answers_raw ([] ∷ (7 ∷ 8 ∷ []) ∷ (9 ∷ []) ∷ []) in
    let d = log_in requests_raw view answers_raw al (98 ∷ []) true bytes in
    Welcomed requests_raw (98 ∷ []) (packets_of answers_raw ((7 ∷ 8 ∷ []) ∷ (9 ∷ []) ∷ [])) d
    × Shows view answers_raw
        ((7 ∷ 8 ∷ []) ∷ (9 ∷ []) ∷ [])
        (start d.unread)
        (receive_loop view answers_raw posix (start d.unread) polls)
log_in-Shows_example =
    log_in-Shows requests_raw view answers_raw posix al (98 ∷ []) [] ((7 ∷ 8 ∷ []) ∷ (9 ∷ []) ∷ [])
      polls refl (omega arith) refl (omega arith, (omega arith, tt))
