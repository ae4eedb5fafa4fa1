-- ===== src/Client.antt =====
-- The terminal client of v4/client.cpp: the line that is typed and what a line sends. Texts are lists of bytes. What
-- the terminal shows is not kept, but for the prompt.
pub mod Words
pub mod Commands
pub mod Typing
pub mod Rooms
pub mod Inbox
pub mod Tests
use tcp_server_client_cpp.Base.{
  ℕ, zero, suc, ◌+◌, ◌-◌, ◌*◌, ◌/◌, ◌%◌, ◌^◌, ◌≤◌, ◌<◌, min, max, String, ◌≡◌, refl, sym, ap, ap₂,
  subst, ◌∙◌, ◌≡⟨◌⟩◌, ◌∎, ◌≢◌, ◌↔◌, ◌⊎◌, inl, inr, Bool, true, false, not, ◌&&◌, ◌||◌, Option, none,
  some, List, [], ◌∷◌, ◌++◌, map, append-nil, append_assoc, arith, ltb, leb, ◌==◌, if◌then◌else◌,
  lt→ltb, le→ltb, ltb→lt, ltb→le, ==_iff, ==_refl, ==_ne, Bool-cases, Option-cases, length, get_or,
  take, drop, replicate, flatten, flatten-append, length-append, length-take, length-drop,
  length-replicate, take-append-drop, take_all, drop_all, take-append_left, drop-append_left,
  drop-append_right, drop-drop, take-append, drop-append, get_or-append, get_or-append_left,
  get_or-take, get_or-drop, take-take, drop-take, take-min, drop-min, drop-min_le, eq-nil, list_ext,
  size_mod, u32_mod, add_size, sub_size, add_u32, sub_size_lem, add_size_lem, put, put-cases,
}

-- `chat::ClientMessage` as the client fills it.
pub data Request : Type 0 where
  login : List ℕ → Request
  join_room : List ℕ → Request
  private_chat room_chat : List ℕ → List ℕ → Request
  global_chat : List ℕ → Request

-- `username_`, `current_room_`, `prompt_`, `current_line_` and `running_`.
pub record Client : Type 0 where
  pub username : List ℕ
  pub current_room : List ℕ
  pub prompt : List ℕ
  pub current_line : List ℕ
  pub running : Bool

unfoldable pub same_bytes : List ℕ → List ℕ → Bool
same_bytes [] [] = true
same_bytes [] (y ∷ ys) = false
same_bytes (x ∷ xs) [] = false
same_bytes (x ∷ xs) (y ∷ ys) = x == y && same_bytes xs ys

abbrev pub is_empty : List ℕ → Bool
is_empty [] = true
is_empty (c ∷ cs) = false

-- `isspace` and `isprint` in the C locale.
abbrev pub is_space : ℕ → Bool
is_space c = c == 32 || (leb 9 c && leb c 13)

abbrev pub is_print : ℕ → Bool
is_print c = leb 32 c && leb c 126

abbrev pub space : ℕ
space = 32

-- `ss >> word`: leading white space goes, then the bytes before the next one are the word.
unfoldable pub skip_space : List ℕ → List ℕ
skip_space [] = []
skip_space (c ∷ cs) = if is_space c then skip_space cs else c ∷ cs

unfoldable pub span_word : List ℕ → List ℕ × List ℕ
span_word [] = ([], [])
span_word (c ∷ cs) =
    let (word, rest) = span_word cs in if is_space c then ([], c ∷ cs) else (c ∷ word, rest)

unfoldable pub next_word : List ℕ → List ℕ × List ℕ
next_word cs = span_word (skip_space cs)

-- `std::getline(ss, text)`.
unfoldable pub rest_of_line : List ℕ → List ℕ
rest_of_line [] = []
rest_of_line (c ∷ cs) = if c == 10 then [] else c ∷ rest_of_line cs

-- The texts "/join", "/leave", "/msg", "/exit", "/quit", "exit" and "Lobby".
abbrev pub slash : ℕ
slash = 47

abbrev pub join_text : List ℕ
join_text = 47 ∷ 106 ∷ 111 ∷ 105 ∷ 110 ∷ []

abbrev pub leave_text : List ℕ
leave_text = 47 ∷ 108 ∷ 101 ∷ 97 ∷ 118 ∷ 101 ∷ []

abbrev pub msg_text : List ℕ
msg_text = 47 ∷ 109 ∷ 115 ∷ 103 ∷ []

abbrev pub exit_command : List ℕ
exit_command = 47 ∷ 101 ∷ 120 ∷ 105 ∷ 116 ∷ []

abbrev pub quit_command : List ℕ
quit_command = 47 ∷ 113 ∷ 117 ∷ 105 ∷ 116 ∷ []

abbrev pub exit_text : List ℕ
exit_text = 101 ∷ 120 ∷ 105 ∷ 116 ∷ []

abbrev pub lobby : List ℕ
lobby = 76 ∷ 111 ∷ 98 ∷ 98 ∷ 121 ∷ []

-- `"[" + name + "@" + room + "]: "`.
unfoldable pub prompt_for : List ℕ → List ℕ → List ℕ
prompt_for name room = 91 ∷ (name ++ (64 ∷ (room ++ (93 ∷ 58 ∷ 32 ∷ []))))

-- What a line comes to: `stop()`, or the client and the message that is sent, if one is valid.
pub data Entered : Type 0 where
  stops : Entered
  goes_on : Client → Option Request → Entered

-- The branch for a line that starts with a slash: its first word, its second, and the text behind them.
unfoldable pub run_command : Client → List ℕ → List ℕ → List ℕ → Entered
run_command c cmd word text =
    if same_bytes cmd join_text
    then (if is_empty word
        then goes_on c none
        else goes_on (record c { current_room = word; prompt = prompt_for c.username word })
            (some (join_room word)))
    else if same_bytes cmd leave_text
    then goes_on (record c { current_room = []; prompt = prompt_for c.username lobby })
        (some (join_room []))
    else if same_bytes cmd msg_text
    then (if not (is_empty word) && ltb 1 (length text)
        then goes_on c (some (private_chat word (drop 1 text)))
        else goes_on c none)
    else if same_bytes cmd exit_command || same_bytes cmd quit_command
    then stops
    else goes_on c none

unfoldable pub command : Client → Entered
command c =
    let (cmd, args) = next_word c.current_line in
    let (word, more) = next_word args in run_command c cmd word (rest_of_line more)

-- The branch for other lines.
unfoldable pub chat_line : Client → Entered
chat_line c =
    if is_empty c.current_room
    then goes_on c (some (global_chat c.current_line))
    else goes_on c (some (room_chat c.current_room c.current_line))

abbrev pub starts_with_slash : List ℕ → Bool
starts_with_slash [] = false
starts_with_slash (c ∷ cs) = c == slash

abbrev pub requests : Option Request → List Request
requests none = []
requests (some m) = m ∷ []

-- Behind a line: it is cleared.
unfoldable pub after_line : Client → Entered → Client × List Request
after_line c stops = (record c { running = false }, [])
after_line c (goes_on d m) = (record d { current_line = [] }, requests m)

-- The branch for '\n' and '\r'.
unfoldable pub enter : Client → Client × List Request
enter c =
    if same_bytes c.current_line exit_text
    then (record c { running = false }, [])
    else if is_empty c.current_line
    then (c, [])
    else after_line c (if starts_with_slash c.current_line then command c else chat_line c)

-- `current_line_.pop_back()`.
unfoldable pub pop_back : List ℕ → List ℕ
pop_back [] = []
pop_back (c ∷ cs) = if is_empty cs then [] else c ∷ pop_back cs

-- What one byte from the terminal does, and the messages sent.
unfoldable pub press : Client → ℕ → Client × List Request
press c key =
    if key == 10 || key == 13
    then enter c
    else if key == 127 || key == 8
    then (record c { current_line = pop_back c.current_line }, [])
    else if is_print key
    then (record c { current_line = c.current_line ++ (key ∷ []) }, [])
    else (c, [])

-- `input_loop` over the bytes typed; it ends once `running_` is false.
unfoldable pub input_loop : Client → List ℕ → Client × List Request
input_loop c [] = (c, [])
input_loop c (key ∷ keys) =
    let (d, now) = press c key in
    let (e, later) = input_loop d keys in if c.running then (e, now ++ later) else (c, [])
