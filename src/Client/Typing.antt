-- ===== src/Client/Typing.antt =====
-- Typing a message (v4/client.cpp): the line that stands for it is sent as that message.
use tcp_server_client_cpp.Base.{
  ℕ, ◌≡◌, refl, sym, ap, ap₂, subst, ◌∙◌, ◌≢◌, true, false, ◌||◌, some, List, [], ◌∷◌, ◌++◌,
  append-nil, append_assoc, arith, ◌==◌, if◌then◌else◌, if_true, if_false,
}
use tcp_server_client_cpp.Client.{
  Request, login, join_room, private_chat, room_chat, global_chat, Client, same_bytes, is_empty,
  is_print, space, lobby, Entered, goes_on, command, chat_line, after_line, enter, press,
  input_loop, starts_with_slash, join_text, leave_text, msg_text, exit_text,
}
use tcp_server_client_cpp.Client.Words.{IsWord, IsText, IsWord-IsText, IsText-append}
use tcp_server_client_cpp.Client.Commands.{
  command-join, command-leave, command-msg, in_room, join-IsWord, leave-IsWord, msg-IsWord,
}

-- The line for a message.
unfoldable pub line_for : Request → List ℕ
line_for (login name) = []
line_for (join_room []) = leave_text
line_for (join_room (c ∷ cs)) = join_text ++ (space ∷ (c ∷ cs))
line_for (private_chat target text) = msg_text ++ (space ∷ (target ++ (space ∷ text)))
line_for (room_chat room text) = text
line_for (global_chat text) = text

-- A text that is no command.
pub record IsPlain (text : List ℕ) : Type 0 where
  pub printable : IsText text
  pub some_text : is_empty text ≡ false
  pub no_command : starts_with_slash text ≡ false
  pub no_exit : same_bytes text exit_text ≡ false

-- The messages that the client can send where it is.
abbrev pub IsSendable : Client → Request → Type 0
IsSendable c (login name) = ⊥
IsSendable c (join_room room) = IsWord room
IsSendable c (private_chat target text) = IsWord target × (target ≢ []) × IsText text × (text ≢ [])
IsSendable c (room_chat room text) =
    (room ≡ c.current_room) × (is_empty room ≡ false) × IsPlain text
IsSendable c (global_chat text) = (is_empty c.current_room ≡ true) × IsPlain text

abbrev with_line : Client → List ℕ → Client
with_line c line = record c { current_line = line }

press-printable :
    (c : Client) (key : ℕ)
    → is_print key ≡ true
    → press c key ≡ (with_line c (c.current_line ++ (key ∷ [])), [])
unfolding press
press-printable c key h =
    if_false (key == 10 || key == 13) _ _ (ground arith)
    ∙ if_false (key == 127 || key == 8) _ _ (ground arith)
    ∙ if_true (is_print key) _ _ h

input_loop-step :
    (c d : Client) (key : ℕ) (keys : List ℕ) (ms : List Request)
    → c.running ≡ true
    → press c key ≡ (d, ms)
    → input_loop c (key ∷ keys) ≡ ((input_loop d keys).0, ms ++ (input_loop d keys).1)
unfolding input_loop
input_loop-step c d key keys ms r p =
    if_true c.running _ _ r
    ∙ ap (λ (x : Client × List Request). ((input_loop x.0 keys).0, x.1 ++ (input_loop x.0 keys).1))
        p

-- A printable text is put behind the line, and nothing is sent.
typing-text :
    (c : Client) (text keys : List ℕ)
    → c.running ≡ true
    → IsText text
    → input_loop c (text ++ keys) ≡ input_loop (with_line c (c.current_line ++ text)) keys
typing-text c [] keys r h =
    ap (λ t. input_loop (with_line c t) keys) (sym (append-nil c.current_line))
typing-text c (k ∷ ks) keys r h =
    input_loop-step c (with_line c (c.current_line ++ (k ∷ []))) k (ks ++ keys) [] r
      (press-printable c k h.0)
    ∙ typing-text (with_line c (c.current_line ++ (k ∷ []))) ks keys r h.1
    ∙ ap (λ t. input_loop (with_line c t) keys) (append_assoc c.current_line (k ∷ []) ks)

typing-line :
    (c : Client) (line : List ℕ)
    → c.running ≡ true
    → c.current_line ≡ []
    → IsText line
    → (input_loop c (line ++ (10 ∷ []))).1 ≡ (enter (with_line c line)).1
unfolding press input_loop
typing-line c line r e h =
    let d = with_line c line in
    ap (λ (x : Client × List Request). x.1)
      (typing-text c line (10 ∷ []) r h
        ∙ ap (λ t. input_loop (with_line c (t ++ line)) (10 ∷ [])) e
        ∙ input_loop-step d (enter d).0 10 [] (enter d).1 r refl)
    ∙ append-nil (enter d).1

enter-line :
    (c : Client)
    → same_bytes c.current_line exit_text ≡ false
    → is_empty c.current_line ≡ false
    → enter c ≡ after_line c (if starts_with_slash c.current_line then command c else chat_line c)
unfolding enter
enter-line c x e =
    if_false (same_bytes c.current_line exit_text) _ _ x ∙ if_false (is_empty c.current_line) _ _ e

after-on :
    (c d : Client) (x : Entered) (m : Request)
    → x ≡ goes_on d (some m)
    → (after_line c x).1 ≡ m ∷ []
unfolding after_line
after-on c d x m e = ap (λ y. (after_line c y).1) e

enter-plain :
    (c d : Client) (m : Request)
    → IsPlain c.current_line
    → chat_line c ≡ goes_on d (some m)
    → (enter c).1 ≡ m ∷ []
enter-plain c d m p e =
    ap (λ (x : Client × List Request). x.1) (enter-line c p.no_exit p.some_text)
    ∙ after-on c d _ m (if_false (starts_with_slash c.current_line) _ _ p.no_command ∙ e)

enter-command :
    (c d : Client) (m : Request) (rest : List ℕ)
    → c.current_line ≡ 47 ∷ rest
    → command c ≡ goes_on d (some m)
    → (enter c).1 ≡ m ∷ []
unfolding same_bytes
enter-command c d m rest l e =
    ap (λ (x : Client × List Request). x.1)
      (enter-line c (ap (λ t. same_bytes t exit_text) l) (ap is_empty l))
    ∙ after-on c d _ m (if_true (starts_with_slash c.current_line) _ _ (ap starts_with_slash l) ∙ e)

-- The line of every message is a text, and Enter sends the message.
line_for-IsText : (c : Client) (m : Request) → IsSendable c m → IsText (line_for m)
unfolding line_for
line_for-IsText c (login name) h = absurd h
line_for-IsText c (join_room []) h = IsWord-IsText leave_text leave-IsWord
line_for-IsText c (join_room (k ∷ ks)) h =
    IsText-append join_text (space ∷ (k ∷ ks)) (IsWord-IsText join_text join-IsWord)
      (refl, IsWord-IsText (k ∷ ks) h)
line_for-IsText c (private_chat target text) h =
    IsText-append msg_text (space ∷ (target ++ (space ∷ text))) (IsWord-IsText msg_text msg-IsWord)
      (refl, IsText-append target (space ∷ text) (IsWord-IsText target h.0) (refl, h.2))
line_for-IsText c (room_chat room text) h = h.2.printable
line_for-IsText c (global_chat text) h = h.1.printable

enter-sends :
    (c : Client) (m : Request) → c.current_line ≡ line_for m → IsSendable c m → (enter c).1 ≡ m ∷ []
unfolding line_for chat_line
enter-sends c (login name) l h = absurd h
enter-sends c (join_room []) l h =
    enter-command c (in_room c [] lobby) (join_room []) _ l (command-leave c l)
enter-sends c (join_room (k ∷ ks)) l h =
    enter-command c (in_room c (k ∷ ks) (k ∷ ks)) (join_room (k ∷ ks)) _ l (command-join c k ks h l)
enter-sends c (private_chat target []) l h = absurd (h.3 refl)
enter-sends c (private_chat target (t ∷ ts)) l h =
    enter-command c c (private_chat target (t ∷ ts)) _ l (command-msg c target t ts h.0 h.1 h.2 l)
enter-sends c (room_chat room text) l h =
    enter-plain c c (room_chat room text) (subst IsPlain (sym l) h.2) (
      if_false (is_empty c.current_room) _ _ (ap is_empty (sym h.0) ∙ h.1)
      ∙ ap₂ (λ r t. goes_on c (some (room_chat r t))) (sym h.0) l)
enter-sends c (global_chat text) l h =
    enter-plain c c (global_chat text) (subst IsPlain (sym l) h.1)
      (if_true (is_empty c.current_room) _ _ h.0 ∙ ap (λ t. goes_on c (some (global_chat t))) l)

IsSendable-line :
    (c : Client) (line : List ℕ) (m : Request) → IsSendable c m → IsSendable (with_line c line) m
IsSendable-line c line (login name) h = h
IsSendable-line c line (join_room room) h = h
IsSendable-line c line (private_chat target text) h = h
IsSendable-line c line (room_chat room text) h = h
IsSendable-line c line (global_chat text) h = h

-- For a running client with an empty line and a message that it can send where it is (a join of a room or the
-- lobby, a private message to a word, or a printable text that is no command), typing the line of that message
-- and Enter sends exactly that message.
pub input_loop-line_for :
    (c : Client) (m : Request)
    → c.running ≡ true
    → c.current_line ≡ []
    → IsSendable c m
    → (input_loop c (line_for m ++ (10 ∷ []))).1 ≡ m ∷ []
input_loop-line_for c m r e h =
    typing-line c (line_for m) r e (line_for-IsText c m h)
    ∙ enter-sends (with_line c (line_for m)) m refl (IsSendable-line c (line_for m) m h)
