-- ===== src/Client/Rooms.antt =====
-- The room that the client (v4/client.cpp) believes to be in, over any bytes typed.
use tcp_server_client_cpp.Base.{
  ℕ, ◌≡◌, refl, sym, ap, ◌≢◌, Bool, true, false, not, ◌&&◌, ◌||◌, Option, none, some, List, [], ◌∷◌,
  ◌++◌, ltb, ◌==◌, if◌then◌else◌, length, drop,
}
use tcp_server_client_cpp.Client.{
  Request, login, join_room, private_chat, room_chat, global_chat, Client, same_bytes, is_empty,
  next_word, rest_of_line, prompt_for, lobby, Entered, stops, goes_on, run_command, command,
  chat_line, requests, after_line, enter, press, input_loop, starts_with_slash, is_print, pop_back,
  join_text, leave_text, msg_text, exit_command, quit_command, exit_text,
}

-- From one room to another by messages: a join leads on, a message to a room is to the room at that time, and one to
-- everyone is sent outside of rooms.
abbrev pub Follows : List ℕ → List Request → List ℕ → Type 0
Follows room [] last = room ≡ last
Follows room (login name ∷ ms) last = ⊥
Follows room (join_room next ∷ ms) last = Follows next ms last
Follows room (private_chat target text ∷ ms) last = Follows room ms last
Follows room (room_chat to text ∷ ms) last = (to ≡ room) × (room ≢ []) × Follows room ms last
Follows room (global_chat text ∷ ms) last = (room ≡ []) × Follows room ms last

pub Follows-append :
    (room : List ℕ) (ms : List Request) (mid : List ℕ) (ns : List Request) (last : List ℕ)
    → Follows room ms mid
    → Follows mid ns last
    → Follows room (ms ++ ns) last
Follows-append room [] mid ns last h k = rw h k
Follows-append room (login name ∷ ms) mid ns last h k = elim h [ ]
Follows-append room (join_room next ∷ ms) mid ns last h k = Follows-append next ms mid ns last h k
Follows-append room (private_chat target text ∷ ms) mid ns last h k =
    Follows-append room ms mid ns last h k
Follows-append room (room_chat to text ∷ ms) mid ns last h k =
    (h.0, h.1, Follows-append room ms mid ns last h.2 k)
Follows-append room (global_chat text ∷ ms) mid ns last h k =
    (h.0, Follows-append room ms mid ns last h.1 k)

-- The prompt shows the room.
unfoldable pub shown_room : List ℕ → List ℕ
shown_room room = if is_empty room then lobby else room

abbrev pub IsPrompted : Client → Type 0
IsPrompted c = c.prompt ≡ prompt_for c.username (shown_room c.current_room)

-- What a call has to show, from a client to the next and the messages sent.
record Moved (c : Client) (out : Client × List Request) : Type 0 where
  follows : Follows c.current_room out.1 out.0.current_room
  prompted : IsPrompted c → IsPrompted out.0

data EnteredWell (c : Client) : Entered → Type 0 where
  well_stopped : EnteredWell c stops
  well_on :
      (d : Client) (m : Option Request) → Moved c (d, requests m) → EnteredWell c (goes_on d m)

stays :
    (c d : Client)
    → c.current_room ≡ d.current_room
    → (IsPrompted c → IsPrompted d)
    → Moved c (d, [])
stays c d e p = record { follows = e; prompted = p }

EnteredWell-if :
    (c : Client) (b : Bool) (x y : Entered)
    → (b ≡ true → EnteredWell c x)
    → (b ≡ false → EnteredWell c y)
    → EnteredWell c (if b then x else y)
EnteredWell-if c true x y h k = h refl
EnteredWell-if c false x y h k = k refl

shown-nobody : shown_room [] ≡ lobby
unfolding shown_room
shown-nobody = refl

shown-word : (word : List ℕ) → is_empty word ≡ false → shown_room word ≡ word
unfolding shown_room
shown-word word h = rw h refl

command-EnteredWell : (c : Client) → EnteredWell c (command c)
unfolding command run_command
command-EnteredWell c =
    let cmd = (next_word c.current_line).0 in
    let args = (next_word c.current_line).1 in
    let word = (next_word args).0 in
    let text = rest_of_line (next_word args).1 in
    let in_room = record c { current_room = word; prompt = prompt_for c.username word } in
    let outside = record c { current_room = []; prompt = prompt_for c.username lobby } in
    let nothing = goes_on c none in
    let fine : EnteredWell c nothing = well_on c none (stays c c refl (λ p. p)) in
    let joined = goes_on in_room (some (join_room word)) in
    let left_room = goes_on outside (some (join_room [])) in
    let told = goes_on c (some (private_chat word (drop 1 text))) in
    let ended : Entered =
      if same_bytes cmd exit_command || same_bytes cmd quit_command then stops else nothing in
    let whispered : Entered =
      if not (is_empty word) && ltb 1 (length text) then told else nothing in
    let not_msg : Entered = if same_bytes cmd msg_text then whispered else ended in
    let not_join : Entered = if same_bytes cmd leave_text then left_room else not_msg in
    EnteredWell-if c (same_bytes cmd join_text) (if is_empty word then nothing else joined) not_join
      (λ j.
        EnteredWell-if c (is_empty word) nothing joined (λ e. fine)
          (λ e. well_on in_room (some (join_room word)) (record {
            follows = refl;
            prompted = λ p. ap (prompt_for c.username) (sym (shown-word word e));
          })))
      (λ j.
        EnteredWell-if c (same_bytes cmd leave_text) left_room not_msg
          (λ l. well_on outside (some (join_room [])) (record {
            follows = refl;
            prompted = λ p. ap (prompt_for c.username) (sym shown-nobody);
          }))
          (λ l.
            EnteredWell-if c (same_bytes cmd msg_text) whispered ended
              (λ m.
                EnteredWell-if c (not (is_empty word) && ltb 1 (length text)) told nothing
                  (λ v.
                    well_on c (some (private_chat word (drop 1 text)))
                      (record { follows = refl; prompted = λ p. p }))
                  (λ v. fine))
              (λ m.
                EnteredWell-if c (same_bytes cmd exit_command || same_bytes cmd quit_command) stops
                  nothing (λ q. well_stopped) (λ q. fine))))

is_empty-eq : (xs : List ℕ) → is_empty xs ≡ true → xs ≡ []
is_empty-eq [] h = refl
is_empty-eq (x ∷ xs) h = cc h

not_empty : (xs : List ℕ) → is_empty xs ≡ false → xs ≢ []
not_empty [] h e = cc h
not_empty (x ∷ xs) h e = cc e

chat_line-EnteredWell : (c : Client) → EnteredWell c (chat_line c)
unfolding chat_line
chat_line-EnteredWell c =
    EnteredWell-if c (is_empty c.current_room) (goes_on c (some (global_chat c.current_line)))
      (goes_on c (some (room_chat c.current_room c.current_line)))
      (λ e.
        well_on c (some (global_chat c.current_line))
          (record { follows = (is_empty-eq c.current_room e, refl); prompted = λ p. p }))
      (λ e.
        well_on c (some (room_chat c.current_room c.current_line))
          (record { follows = (refl, not_empty c.current_room e, refl); prompted = λ p. p }))

after_line-Moved : (c : Client) (e : Entered) → EnteredWell c e → Moved c (after_line c e)
unfolding after_line
after_line-Moved c stops well_stopped = stays c _ refl (λ p. p)
after_line-Moved c (goes_on d m) (well_on _ _ h) = record {
  follows = h.follows;
  prompted = h.prompted;
}

Moved-if :
    (c : Client) (b : Bool) (x y : Client × List Request)
    → Moved c x
    → Moved c y
    → Moved c (if b then x else y)
Moved-if c true x y h k = h
Moved-if c false x y h k = k

enter-Moved : (c : Client) → Moved c (enter c)
unfolding enter
enter-Moved c =
    let shut : Client × List Request = (record c { running = false }, []) in
    let line = c.current_line in
    let sent = after_line c (if starts_with_slash line then command c else chat_line c) in
    Moved-if c (same_bytes line exit_text) shut (if is_empty line then (c, []) else sent)
      (stays c (record c { running = false }) refl (λ p. p))
      (Moved-if c (is_empty line) (c, []) sent (stays c c refl (λ p. p))
        (after_line-Moved c _ (
          EnteredWell-if c (starts_with_slash line) (command c) (chat_line c)
            (λ s. command-EnteredWell c) (λ s. chat_line-EnteredWell c))))

press-Moved : (c : Client) (key : ℕ) → Moved c (press c key)
unfolding press
press-Moved c key =
    let back = record c { current_line = pop_back c.current_line } in
    let on = record c { current_line = c.current_line ++ (key ∷ []) } in
    let typed : Client × List Request = if is_print key then (on, []) else (c, []) in
    Moved-if c (key == 10 || key == 13) (enter c)
      (if key == 127 || key == 8 then (back, []) else typed) (enter-Moved c)
      (Moved-if c (key == 127 || key == 8) (back, []) typed (stays c back refl (λ p. p))
        (Moved-if c (is_print key) (on, []) (c, []) (stays c on refl (λ p. p))
          (stays c c refl (λ p. p))))

loop-Moved : (c : Client) (keys : List ℕ) → Moved c (input_loop c keys)
unfolding input_loop
loop-Moved c [] = stays c c refl (λ p. p)
loop-Moved c (key ∷ keys) =
    let d = (press c key).0 in
    let now = press-Moved c key in
    let later = loop-Moved d keys in
    Moved-if c c.running _ _
      (record {
        follows =
            Follows-append c.current_room (press c key).1 d.current_room (input_loop d keys).1
              (input_loop d keys).0.current_room now.follows later.follows;
        prompted = λ p. later.prompted (now.prompted p);
      })
      (stays c c refl (λ p. p))

-- If the prompt shows the room of the client, then after any bytes typed it shows the room of the client, and
-- the messages sent lead from the first room to the last: a message to a room goes to the room joined last,
-- one to everyone is sent only outside of rooms, and no login is sent.
pub input_loop-Follows :
    (c : Client) (keys : List ℕ)
    → IsPrompted c
    → let (d, ms) = input_loop c keys in Follows c.current_room ms d.current_room × IsPrompted d
input_loop-Follows c keys p = let m = loop-Moved c keys in (m.follows, m.prompted p)
