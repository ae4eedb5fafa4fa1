-- ===== src/Chat.antt =====
-- `ChatApp` of v4/chatapp.h, with the messages of v4/chat.proto. Connections are numbers. A handler returns the new
-- state and the calls of the server in order; `SendProto` and `BroadcastProto` also encode the message (Codec).
-- Amounts of tokens are counted in 10^-9, as the clock counts nanoseconds: the rounding of `double` is left out.
pub mod Limit
pub mod Names
pub mod Unique
pub mod Events
pub mod Tests
use tcp_server_client_cpp.Base.{
  put, ℕ, zero, suc, ◌+◌, ◌-◌, ◌*◌, ◌/◌, ◌%◌, ◌^◌, ◌≤◌, ◌<◌, min, max, String, ◌≡◌, refl, sym, ap,
  ap₂, subst, ◌∙◌, ◌≡⟨◌⟩◌, ◌∎, ◌≢◌, ◌↔◌, ◌⊎◌, inl, inr, Bool, true, false, not, ◌&&◌, ◌||◌, Option,
  none, some, List, [], ◌∷◌, ◌++◌, map, append-nil, append_assoc, arith, ltb, leb, ◌==◌,
  if◌then◌else◌, lt→ltb, le→ltb, ltb→lt, ltb→le, ==_iff, ==_refl, ==_ne, Bool-cases, Option-cases,
  length, get_or, take, drop, replicate, flatten, flatten-append, length-append, length-take,
  length-drop, length-replicate, take-append-drop, take_all, drop_all, take-append_left,
  drop-append_left, drop-append_right, drop-drop, take-append, drop-append, get_or-append,
  get_or-append_left, get_or-take, get_or-drop, take-take, drop-take, take-min, drop-min,
  drop-min_le, eq-nil, list_ext, size_mod, u32_mod, add_size, sub_size, add_u32, sub_size_lem,
  add_size_lem,
}
use Prim.Native.String.{◌++◌ as str_append}
use text.Mathlib.Text.{◌==◌ as str_eq}
use tcp_server_client_cpp.Wire.{is_nil}

-- `ChatSession`.
pub record ChatSession : Type 0 where
  pub username : String
  pub is_logged_in : Bool
  pub current_room : String
  pub tokens : ℕ
  pub last_refill : ℕ

-- 1.0 and 60.0 tokens.
abbrev pub one_token : ℕ
one_token = 1000000000

abbrev pub max_tokens : ℕ
max_tokens = 60 * one_token

unfoldable pub new_session : ℕ → ChatSession
new_session now = record {
  username = "";
  is_logged_in = false;
  current_room = "";
  tokens = max_tokens;
  last_refill = now;
}

-- `chat::ClientMessage`; `not_set` is a message without a payload.
pub data ClientMessage : Type 0 where
  login : String → ClientMessage
  global_chat : String → ClientMessage
  private_chat room_chat : String → String → ClientMessage
  join_room : String → ClientMessage
  not_set : ClientMessage

-- `chat::ServerMessage`. A field that is not set reads as empty or 0.
pub data ServerMessage : Type 0 where
  login_response : Bool → String → ServerMessage
  chat_broadcast : String → String → String → ℕ → ServerMessage
  private_incoming : String → String → ℕ → ServerMessage
  error : String → ServerMessage

-- The calls of the server: `SendPreEncoded`, `Broadcast` and `Close`.
pub data ServerCall : Type 0 where
  send_proto : ℕ → ServerMessage → ServerCall
  broadcast_proto : ServerMessage → ServerCall
  close : ℕ → ServerCall

-- The `user_data` of the connections, `online_users_` and `rooms_`.
pub record ChatApp : Type 0 where
  pub sessions : ℕ → Option ChatSession
  pub online_users : String → Option ℕ
  pub rooms : String → Option (List String)

-- The application at its start.
unfoldable pub new_app : ChatApp
new_app = record { sessions = λ conn. none; online_users = λ name. none; rooms = λ room. none }

abbrev pub is_empty : String → Bool
is_empty s = str_eq s ""

unfoldable pub set_session : ChatApp → ℕ → ChatSession → ChatApp
unfolding put
set_session a conn s = record a { sessions = put ◌==◌ a.sessions conn (some s) }

-- `rooms_[room]`: a room that is missing is made, without members.
unfoldable pub members_of : ChatApp → String → List String
members_of a room = elim (a.rooms room) [ none ↦ [] | some members ↦ members ]

-- Erasing from a set of names, and inserting.
unfoldable pub remove : String → List String → List String
remove name [] = []
remove name (m ∷ ms) = if str_eq m name then remove name ms else m ∷ remove name ms

unfoldable pub contains : String → List String → Bool
contains name [] = false
contains name (m ∷ ms) = str_eq m name || contains name ms

unfoldable pub insert : String → List String → List String
insert name ms = if contains name ms then ms else ms ++ (name ∷ [])

-- `if(online_users_.count(member)) SendProto(online_users_[member], msg)` for each member but `left_out`.
unfoldable pub send_members :
    ChatApp → (String → Bool) → List String → ServerMessage → List ServerCall
send_members a left_out [] msg = []
send_members a left_out (m ∷ ms) msg =
    let rest = send_members a left_out ms msg in
    if left_out m
    then rest
    else elim (a.online_users m) [ none ↦ rest | some conn ↦ send_proto conn msg ∷ rest ]

-- Leaving a room: the members that remain are told, and an empty room is deleted.
unfoldable pub leave_room : ChatApp → String → String → String → ChatApp × List ServerCall
unfolding put
leave_room a name room text =
    let members = remove name (members_of a room) in
    let leave_msg = chat_broadcast "Server" (str_append name text) room 0 in
    (
      record a { rooms = put str_eq a.rooms room (if is_nil members then none else some members) },
      send_members a (λ m. false) members leave_msg,
    )

unfoldable pub handle_connect : ChatApp → ℕ → ℕ → ChatApp
handle_connect a conn now = set_session a conn (new_session now)

unfoldable pub disconnect_session : ChatApp → ChatSession → ChatApp × List ServerCall
unfolding put
disconnect_session a s =
    let b = record a { online_users = put str_eq a.online_users s.username none } in
    if s.is_logged_in && not (is_empty s.username)
    then (if is_empty s.current_room
        then (b, [])
        else leave_room b s.username s.current_room " has left the room.\n")
    else (a, [])

unfoldable pub handle_disconnect : ChatApp → ℕ → ChatApp × List ServerCall
handle_disconnect a conn = elim (a.sessions conn) [
  | none ↦ (a, [])
  | some s ↦ disconnect_session a s
]

-- `online_users_.count(name)`.
unfoldable pub is_online : ChatApp → String → Bool
is_online a name = elim (a.online_users name) [ none ↦ false | some conn ↦ true ]

-- The other handlers are given the session of `conn`.
unfoldable pub handle_login : ChatApp → ℕ → ChatSession → String → ChatApp × List ServerCall
unfolding put
handle_login a conn s name =
    let b = set_session a conn (record s { username = name; is_logged_in = true }) in
    if is_online a name || is_empty name
    then (a, send_proto conn (login_response false "Invalid username or already taken.") ∷ [])
    else (
      record b { online_users = put str_eq a.online_users name (some conn) },
      send_proto conn (login_response true "Login successful.") ∷ [],
    )

-- `clock` is `std::time(nullptr)`.
unfoldable pub handle_global_chat :
    ChatApp → ℕ → ChatSession → String → ℕ → ChatApp × List ServerCall
handle_global_chat a conn s text clock =
    if s.is_logged_in
    then (a, broadcast_proto (chat_broadcast s.username text "" clock) ∷ [])
    else (a, [])

unfoldable pub handle_private_chat :
    ChatApp → ℕ → ChatSession → String → String → ℕ → ChatApp × List ServerCall
handle_private_chat a conn s target text clock =
    let confirm = str_append (str_append "Message sent to [" target) (str_append "]: " text) in
    let missing = str_append (str_append "User " target) " not found." in
    if s.is_logged_in
    then elim (a.online_users target) [
      | none ↦ (a, send_proto conn (error missing) ∷ [])
      | some receiver ↦ (
        a,
        send_proto receiver (private_incoming s.username text clock)
            ∷ send_proto conn (chat_broadcast "Server" confirm "" 0)
            ∷ [],
      )
    ]
    else (a, [])

-- The block for a new room.
unfoldable pub enter_room : ChatApp → String → String → ChatApp × List ServerCall
unfolding put
enter_room a name room =
    let members = insert name (members_of a room) in
    let join_msg = chat_broadcast "Server" (str_append name " has joined the room. ") room 0 in
    (
      record a { rooms = put str_eq a.rooms room (some members) },
      send_members a (λ m. str_eq m name) members join_msg,
    )

unfoldable pub handle_join_room : ChatApp → ℕ → ChatSession → String → ChatApp × List ServerCall
handle_join_room a conn s new_room =
    let old_room = s.current_room in
    let (b, left) =
      if is_empty old_room
      then (a, [])
      else leave_room a s.username old_room " has left the room." in
    let c = set_session b conn (record s { current_room = new_room }) in
    let (d, joined) = if is_empty new_room then (c, []) else enter_room c s.username new_room in
    let resp =
      if is_empty new_room
      then chat_broadcast "Server" "You have entered the global room!" "" 0
      else chat_broadcast "Server" (str_append (str_append "You have joined room: " new_room) " !!")
          new_room 0 in
    if s.is_logged_in then (d, left ++ joined ++ (send_proto conn resp ∷ [])) else (a, [])

abbrev pub room_error : ServerMessage
room_error = error "You must be logged in and in a room to send room chat messages."

-- `rooms_[s->current_room]` makes the room if it is missing.
unfoldable pub handle_room_chat :
    ChatApp → ℕ → ChatSession → String → String → ChatApp × List ServerCall
unfolding put
handle_room_chat a conn s room_name text =
    let members = members_of a s.current_room in
    let resp = chat_broadcast s.username text s.current_room 0 in
    let b = record a { rooms = put str_eq a.rooms s.current_room (some members) } in
    if not s.is_logged_in || is_empty s.current_room
    then (a, send_proto conn room_error ∷ [])
    else if str_eq s.current_room room_name
    then (b, send_members a (λ m. false) members resp)
    else (a, [])

-- The refill, at the time `now`.
unfoldable pub refill : ChatSession → ℕ → ChatSession
refill s now = record s {
  tokens = min (s.tokens + (now - s.last_refill)) max_tokens;
  last_refill = now;
}

unfoldable pub spend : ChatSession → ChatSession
spend s = record s { tokens = s.tokens - one_token }

abbrev pub too_fast : ServerMessage
too_fast = error "You are sending messages too quickly, upgrade to premium! Bye :)"

-- The `switch` over the payload.
unfoldable pub dispatch : ChatApp → ℕ → ChatSession → ClientMessage → ℕ → ChatApp × List ServerCall
dispatch a conn s (login name) clock = handle_login a conn s name
dispatch a conn s (global_chat text) clock = handle_global_chat a conn s text clock
dispatch a conn s (private_chat target text) clock = handle_private_chat a conn s target text clock
dispatch a conn s (join_room room) clock = handle_join_room a conn s room
dispatch a conn s (room_chat room text) clock = handle_room_chat a conn s room text
dispatch a conn s not_set clock = (a, [])

-- Whether the message is let through, and the session after the rate limit.
unfoldable pub rate_limit : ChatSession → ℕ → Bool × ChatSession
rate_limit s now =
    let r = refill s now in if ltb r.tokens one_token then (false, r) else (true, spend r)

-- `HandleMessage` behind the parsing.
unfoldable pub handle_parsed :
    ChatApp → ℕ → ChatSession → ClientMessage → ℕ → ℕ → ChatApp × List ServerCall
handle_parsed a conn s msg now clock =
    let (passes, t) = rate_limit s now in
    let b = set_session a conn t in
    if passes then dispatch b conn t msg clock else (b, send_proto conn too_fast ∷ close conn ∷ [])

-- `codec_->decode<chat::ClientMessage>`, by the protobuf library's `ParseFromArray`, is a parameter.
module _ (parse : List ℕ → Option ClientMessage) where
  unfoldable pub handle_message : ChatApp → ℕ → List ℕ → ℕ → ℕ → ChatApp × List ServerCall
  handle_message a conn raw_data now clock = elim (a.sessions conn) [
    | none ↦ (a, [])
    | some s ↦ elim (parse raw_data) [
      | none ↦ (a, [])
      | some msg ↦ handle_parsed a conn s msg now clock
    ]
  ]

-- `NetworkEvent`.
pub data NetworkEvent : Type 0 where
  connect_event disconnect_event : ℕ → NetworkEvent
  message_event : ℕ → Option (List ℕ) → NetworkEvent

module _ (parse : List ℕ → Option ClientMessage) where
  -- `ProcessEvent`; `closed` is the connection's flag, `now` and `clock` the times.
  unfoldable pub process_event : ChatApp → NetworkEvent → Bool → ℕ → ℕ → ChatApp × List ServerCall
  process_event a (connect_event conn) closed now clock =
      if closed then (a, []) else (handle_connect a conn now, [])
  process_event a (disconnect_event conn) closed now clock = handle_disconnect a conn
  process_event a (message_event conn none) closed now clock = (a, [])
  process_event a (message_event conn (some raw_data)) closed now clock =
      if closed then (a, []) else handle_message parse a conn raw_data now clock
