-- ===== src/Client/Inbox.antt =====
-- What the client of v4/client.cpp receives: the login, which reads its answer from the socket itself, and the loop
-- that reads the socket through the ring, decodes, and pushes texts for the printer thread. The kernel holds the bytes
-- that the server has sent and that are not read yet. The class that protobuf generates for `chat::ServerMessage` is a
-- parameter `M`, and its accessors are `view`: the payload that is set, or `none`.
pub mod Decoding
pub mod Delivery
pub mod Login
use tcp_server_client_cpp.Base.{
  ℕ, zero, suc, ◌+◌, ◌-◌, ◌*◌, ◌/◌, ◌%◌, ◌^◌, ◌≤◌, ◌<◌, min, max, String, ◌≡◌, refl, sym, ap, ap₂,
  subst, ◌∙◌, ◌≡⟨◌⟩◌, ◌∎, ◌≢◌, ◌↔◌, ◌⊎◌, inl, inr, Bool, true, false, not, ◌&&◌, ◌||◌, Option, none,
  some, List, [], ◌∷◌, ◌++◌, map, append-nil, append_assoc, arith, ltb, leb, ◌==◌, if◌then◌else◌,
  lt→ltb, le→ltb, ltb→lt, ltb→le, ==_iff, ==_refl, ==_ne, Bool-cases, Option-cases, length, get_or,
  take, drop, replicate, flatten, flatten-append, length-append, length-take, length-drop,
  length-replicate, take-append-drop, take_all, drop_all, take-append_left, drop-append_left,
  drop-append_right, drop-drop, take-append, drop-append, get_or-append, get_or-append_left,
  get_or-take, get_or-drop, take-take, drop-take, take-min, drop-min, drop-min_le, eq-nil, list_ext,
  size_mod, u32_mod, add_size, sub_size, add_u32, sub_size_lem, add_size_lem, put, put-cases,
}
use tcp_server_client_cpp.Ring.{Ring, size, get_writeable_iovecs, consume, make}
use tcp_server_client_cpp.Ring.Scatter.{Readv, receive, total_len}
use tcp_server_client_cpp.Wire.{is_nil}
use tcp_server_client_cpp.Codec.{Protobuf, decode_message, encode, ntohl_bytes}
use tcp_server_client_cpp.Chat.{
  ServerMessage, login_response, chat_broadcast, private_incoming, error,
}
use Prim.Native.String.{◌++◌ as str_append}
use text.Mathlib.Text.{◌==◌ as str_eq}
use tcp_server_client_cpp.Chat
use tcp_server_client_cpp.Client.{Request, login, Client, is_empty, prompt_for, lobby}

abbrev pub Incoming : Type 0
Incoming = Option ServerMessage

abbrev pub between : String → String → String → String → String → String
between a b c d e = str_append a (str_append b (str_append c (str_append d e)))

-- `handle_server_message`: the texts pushed.
unfoldable pub handle_server_message : Incoming → List String
handle_server_message none = []
handle_server_message (some (login_response success text)) = str_append "[Server]: " text ∷ []
handle_server_message (some (chat_broadcast sender text room time)) =
    let shown_room = if Chat.is_empty room then "Lobby" else room in
    (if str_eq sender "Server"
      then str_append "[Server]: " text
      else between "[" sender "@" shown_room (str_append "]: " text))
    ∷ []
handle_server_message (some (private_incoming sender text time)) =
    between "[DM from " sender "]: " text "" ∷ []
handle_server_message (some (error reason)) = str_append "[Error]: " reason ∷ []

abbrev pub texts_of : {M : Type 0} → (M → Incoming) → List M → List String
texts_of view [] = []
texts_of view (m ∷ ms) = handle_server_message (view m) ++ texts_of view ms

abbrev pub lost : String
lost = "Server connection lost."

-- What `poll` and the `readv` behind it come to. With `suc k` bytes at hand `readv` reads as many, or what the regions
-- hold if that is less.
pub data PollAnswer : Type 0 where
  nothing_yet poll_failed hung_up : PollAnswer
  readv_ready : ℕ → PollAnswer
  readv_ends : PollAnswer

-- `in_buf_` and `running_`, the texts pushed to `message_queue_` and the bytes in the kernel.
pub record Receiver : Type 0 where
  pub in_buf : Ring
  pub kernel : List ℕ
  pub running : Bool
  pub pushed : List String

-- `RingBuffer in_buf_{8192}`.
unfoldable pub start : List ℕ → Receiver
start kernel = record { in_buf = make 8192; kernel = kernel; running = true; pushed = [] }

-- The bytes that `readv` reads with `suc k` at hand.
unfoldable pub bytes_read : Receiver → ℕ → List ℕ
bytes_read c k = take (min (suc k) (total_len (get_writeable_iovecs c.in_buf))) c.kernel

module _ {M : Type 0} (view : M → Incoming) (p : Protobuf M) where
  -- The `while(true)` over `decode`: the messages in order, and the ring behind them.
  unfoldable pub decode_messages : ℕ → Ring → List M × Ring
  decode_messages zero r = ([], r)
  decode_messages (suc fuel) r =
      let (o, s) = decode_message p r in
      let (more, t) = decode_messages fuel s in elim o [ none ↦ ([], s) | some m ↦ (m ∷ more, t) ]

  -- The branch for POLLIN when a region is free or none is.
  unfoldable pub read_socket : Readv → Receiver → ℕ → Receiver
  read_socket sys c k =
      let bytes = bytes_read c k in
      let r = receive sys c.in_buf bytes in
      let (messages, s) = decode_messages (suc (size r)) r in
      if is_nil (get_writeable_iovecs c.in_buf)
      then record c { in_buf = consume c.in_buf (size c.in_buf) }
      else record c {
        in_buf = s;
        kernel = drop (length bytes) c.kernel;
        pushed = c.pushed ++ texts_of view messages;
      }

  -- `receive_loop` over the answers.
  unfoldable pub receive_loop : Readv → Receiver → List PollAnswer → Receiver
  receive_loop sys c [] = c
  receive_loop sys c (nothing_yet ∷ answers) = receive_loop sys c answers
  receive_loop sys c (poll_failed ∷ answers) = c
  receive_loop sys c (hung_up ∷ answers) = record c {
    running = false;
    pushed = c.pushed ++ (lost ∷ []);
  }
  receive_loop sys c (readv_ready k ∷ answers) =
      let on = receive_loop sys (read_socket sys c k) answers in
      if not (is_nil (get_writeable_iovecs c.in_buf)) && is_nil (bytes_read c k) then c else on
  receive_loop sys c (readv_ends ∷ answers) = c

-- What `login` leaves: the client, the packet sent, what is returned, and the bytes that the socket still holds.
pub record LoginDone : Type 0 where
  pub client : Client
  pub packet : List ℕ
  pub logged_in : Bool
  pub unread : List ℕ

-- `resp.has_login_response() && resp.login_response().success()`.
abbrev pub welcomes : Incoming → Bool
welcomes none = false
welcomes (some (login_response success text)) = success
welcomes (some (chat_broadcast sender text room time)) = false
welcomes (some (private_incoming sender text time)) = false
welcomes (some (error reason)) = false

abbrev pub parsed_welcome : {M : Type 0} → (M → Incoming) → Option M → Bool
parsed_welcome view none = false
parsed_welcome view (some m) = welcomes (view m)

module _ {M : Type 0} (q : Protobuf Request) (view : M → Incoming) (p : Protobuf M) where
  -- Behind the request: a header, and as many bytes as it says. `stream` is all that the server sends before it
  -- closes: `recv` with MSG_WAITALL returns less than it is asked for only at its end.
  unfoldable pub read_answer : Client → List ℕ → List ℕ → LoginDone
  read_answer c packet stream =
      let header = take 4 stream in
      let len = ntohl_bytes header in
      let body = take len (drop 4 stream) in
      let unread = drop len (drop 4 stream) in
      let short : LoginDone = record {
        client = c;
        packet = packet;
        logged_in = false;
        unread = [];
      } in
      let refused : LoginDone = record {
        client = c;
        packet = packet;
        logged_in = false;
        unread = unread;
      } in
      if not (length header == 4)
      then short
      else if not (length body == len)
      then short
      else if parsed_welcome view (p.parse body)
      then record {
        client = record c { prompt = prompt_for c.username lobby };
        packet = packet;
        logged_in = true;
        unread = unread;
      }
      else refused

  -- `login` with the name that was typed; `sent` is whether `send` succeeds.
  unfoldable pub log_in : Client → List ℕ → Bool → List ℕ → LoginDone
  log_in c name sent stream =
      let named = record c { username = name } in
      let packet = encode q (login name) in
      if is_empty name
      then record { client = c; packet = []; logged_in = false; unread = stream }
      else if not sent
      then record { client = named; packet = []; logged_in = false; unread = stream }
      else read_answer named packet stream
