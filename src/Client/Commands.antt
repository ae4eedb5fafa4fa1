-- ===== src/Client/Commands.antt =====
-- The commands of v4/client.cpp, each on the line that stands for it.
use tcp_server_client_cpp.Base.{
  ℕ, ◌≡◌, refl, ap, ap₂, ◌∙◌, ◌≢◌, false, not, ◌&&◌, some, List, [], ◌∷◌, ◌++◌, arith, ltb, lt→ltb,
  length, if_true,
}
use tcp_server_client_cpp.Client.{
  join_room, private_chat, Client, same_bytes, is_empty, space, next_word, rest_of_line, prompt_for,
  lobby, goes_on, run_command, command, join_text, leave_text, msg_text,
}
use tcp_server_client_cpp.Client.Words.{
  IsWord, IsText, next_word-space, next_word-end, next_word-skip, rest_of_line-text,
}

-- The commands.
command-words :
    (c : Client) (cmd args word more text : List ℕ)
    → next_word c.current_line ≡ (cmd, args)
    → next_word args ≡ (word, more)
    → rest_of_line more ≡ text
    → command c ≡ run_command c cmd word text
unfolding command
command-words c cmd args word more text first second behind =
    ap
      (λ (x : List ℕ × List ℕ).
        run_command c x.0 (next_word x.1).0 (rest_of_line (next_word x.1).1))
      first
    ∙ ap (λ (x : List ℕ × List ℕ). run_command c cmd x.0 (rest_of_line x.1)) second
    ∙ ap (run_command c cmd word) behind

pub join-IsWord : IsWord join_text
join-IsWord = (refl, refl, (refl, refl, (refl, refl, (refl, refl, (refl, refl, tt)))))

pub leave-IsWord : IsWord leave_text
leave-IsWord =
    (refl, refl, (refl, refl, (refl, refl, (refl, refl, (refl, refl, (refl, refl, tt))))))

pub msg-IsWord : IsWord msg_text
msg-IsWord = (refl, refl, (refl, refl, (refl, refl, (refl, refl, tt))))

cons-ne : (x : ℕ) (xs : List ℕ) → x ∷ xs ≢ []
cons-ne x xs e = cc e

abbrev pub in_room : Client → List ℕ → List ℕ → Client
in_room c room shown = record c { current_room = room; prompt = prompt_for c.username shown }

pub command-join :
    (c : Client) (k : ℕ) (ks : List ℕ)
    → IsWord (k ∷ ks)
    → c.current_line ≡ join_text ++ (space ∷ (k ∷ ks))
    → command c ≡ goes_on (in_room c (k ∷ ks) (k ∷ ks)) (some (join_room (k ∷ ks)))
unfolding run_command same_bytes
command-join c k ks h l =
    command-words c join_text (space ∷ (k ∷ ks)) (k ∷ ks) [] []
      (ap next_word l ∙ next_word-space join_text (k ∷ ks) join-IsWord (cons-ne _ _))
      (next_word-skip (k ∷ ks) ∙ next_word-end (k ∷ ks) h) (unfold rest_of_line in refl)

pub command-leave :
    (c : Client)
    → c.current_line ≡ leave_text
    → command c ≡ goes_on (in_room c [] lobby) (some (join_room []))
unfolding run_command same_bytes
command-leave c l =
    command-words c leave_text [] [] [] [] (ap next_word l ∙ next_word-end leave_text leave-IsWord)
      (next_word-end [] tt) (unfold rest_of_line in refl)

run-msg :
    (c : Client) (word : List ℕ) (t : ℕ) (ts : List ℕ)
    → is_empty word ≡ false
    → run_command c msg_text word (space ∷ (t ∷ ts)) ≡ goes_on c (some (private_chat word (t ∷ ts)))
unfolding run_command same_bytes
run-msg c word t ts h =
    if_true (not (is_empty word) && ltb 1 (length (space ∷ (t ∷ ts)))) _ _
      (ap₂ (λ x y. not x && y) h (lt→ltb 1 (length (space ∷ (t ∷ ts))) (omega arith)))

not_empty : (word : List ℕ) → word ≢ [] → is_empty word ≡ false
not_empty [] h = absurd (h refl)
not_empty (c ∷ cs) h = refl

pub command-msg :
    (c : Client) (target : List ℕ) (t : ℕ) (ts : List ℕ)
    → IsWord target
    → target ≢ []
    → IsText (t ∷ ts)
    → c.current_line ≡ msg_text ++ (space ∷ (target ++ (space ∷ (t ∷ ts))))
    → command c ≡ goes_on c (some (private_chat target (t ∷ ts)))
command-msg c target t ts w n h l =
    command-words c msg_text (space ∷ (target ++ (space ∷ (t ∷ ts)))) target (space ∷ (t ∷ ts))
      (space ∷ (t ∷ ts)) (ap next_word l ∙ next_word-space msg_text _ msg-IsWord (cons-ne _ _))
      (next_word-skip (target ++ (space ∷ (t ∷ ts))) ∙ next_word-space target (t ∷ ts) w n)
      (rest_of_line-text (space ∷ (t ∷ ts)) (refl, h))
    ∙ run-msg c target t ts (not_empty target n)
