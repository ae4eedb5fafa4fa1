-- ===== src/Chat/Unique.antt =====
-- Names over any sequence of events of `ChatApp` (v4/chatapp.h).
use tcp_server_client_cpp.Base.{
  put, ℕ, String, ◌≡◌, refl, sym, ap, ◌∙◌, ◌≢◌, ◌⊎◌, inl, inr, Bool, true, false, not, ◌&&◌, ◌||◌,
  Option, none, some, List, arith, ◌==◌, ==_iff, Bool-cases, Option-cases,
}
use text.Mathlib.Text.{◌==◌ as str_eq}
use text.Mathlib.TextEquality.{eq_iff}
use text.Mathlib.TextPositions.{eq_refl}
use tcp_server_client_cpp.Chat.{
  ChatSession, ChatApp, ClientMessage, login, global_chat, private_chat, join_room, room_chat,
  not_set, set_session, new_session, is_online, is_empty, rate_limit, refill, spend, dispatch,
  handle_connect, handle_disconnect, disconnect_session, handle_login, handle_parsed,
  handle_message,
}
use tcp_server_client_cpp.Chat.Names.{
  IsRegistered, SameNames-IsRegistered, set_session-sessions, some_inj, leave_room-SameNames,
  set_session-SameNames, handle_join_room-SameNames, handle_room_chat-SameNames,
  handle_global_chat-SameNames, handle_private_chat-SameNames,
}

-- Two owners of a name are one.
pub owner_unique :
    {live : ℕ → Bool} {a : ChatApp} (c d : ℕ) (s t : ChatSession)
    → IsRegistered live a
    → live c ≡ true
    → live d ≡ true
    → a.sessions c ≡ some s
    → a.sessions d ≡ some t
    → s.is_logged_in ≡ true
    → t.is_logged_in ≡ true
    → s.username ≡ t.username
    → c ≡ d
owner_unique {a = a} c d s t h lc ld ec ed ic id e =
    some_inj (sym (h.owns c s lc ec ic) ∙ ap a.online_users e ∙ h.owns d t ld ed id)

or_left : (b c : Bool) → b || c ≡ false → b ≡ false
or_left false c h = refl
or_left true c h = h

and_left : (b c : Bool) → b && c ≡ true → b ≡ true
and_left true c h = refl
and_left false c h = h

not_online : (a : ChatApp) (name : String) → is_online a name ≡ false → a.online_users name ≡ none
unfolding is_online
not_online a name h = elim (Option-cases (a.online_users name)) [
  | inl e ↦ e
  | inr (c, e) ↦ cc (rw (e, is_online) at h)
]

-- Reading `online_users` after an assignment.
pub put-name : (f : String → Option ℕ) (name : String) (v : Option ℕ) → put str_eq f name v name ≡ v
unfolding put
put-name f name v = rw (eq_refl name) refl

pub put-other :
    (f : String → Option ℕ) (name : String) (v : Option ℕ) (other : String)
    → other ≢ name
    → put str_eq f name v other ≡ f other
unfolding put
put-other f name v other h = elim (Bool-cases (str_eq other name)) [
  | inl e ↦ absurd (h ((eq_iff other name).0 e))
  | inr e ↦ rw e refl
]

handle_login-IsRegistered :
    {live : ℕ → Bool} (a : ChatApp) (conn : ℕ) (s : ChatSession) (name : String)
    → IsRegistered live a
    → IsRegistered live (handle_login a conn s name).0
unfolding handle_login
handle_login-IsRegistered {live} a conn s name h =
    elim (Bool-cases (is_online a name || is_empty name)) [
      | inl e ↦ rw e h
      | inr e ↦ rw e (record {
        owns = λ d t l at i.
            elim (set_session-sessions a conn (record s { username = name; is_logged_in = true })
              d) [
                | inl (same, here) ↦
                    let name_is : t.username ≡ name =
                      ap (λ x. x.username) (some_inj (sym at ∙ here)) in
                    rw name_is (put-name a.online_users name (some conn)) ∙ ap some (sym same)
                | inr (other, there) ↦
                    let owned = h.owns d t l (sym there ∙ at) i in
                    put-other a.online_users name (some conn) t.username (λ same. cc (
                      not_online a name (or_left (is_online a name) (is_empty name) e),
                      ap a.online_users same,
                      owned,
                    ))
                    ∙ owned
              ];
      })
    ]

dispatch-IsRegistered :
    {live : ℕ → Bool} (a : ChatApp) (conn : ℕ) (s : ChatSession) (msg : ClientMessage) (clock : ℕ)
    → a.sessions conn ≡ some s
    → IsRegistered live a
    → IsRegistered live (dispatch a conn s msg clock).0
unfolding dispatch
dispatch-IsRegistered a conn s (login name) clock at h = handle_login-IsRegistered a conn s name h
dispatch-IsRegistered a conn s (global_chat text) clock at h =
    SameNames-IsRegistered (handle_global_chat-SameNames a conn s text clock) h
dispatch-IsRegistered a conn s (private_chat target text) clock at h =
    SameNames-IsRegistered (handle_private_chat-SameNames a conn s target text clock) h
dispatch-IsRegistered a conn s (join_room room) clock at h =
    SameNames-IsRegistered (handle_join_room-SameNames a conn s room at) h
dispatch-IsRegistered a conn s (room_chat room text) clock at h =
    SameNames-IsRegistered (handle_room_chat-SameNames a conn s room text) h
dispatch-IsRegistered a conn s not_set clock at h = h

rate_limit-names :
    (s : ChatSession) (now : ℕ)
    → ((rate_limit s now).1.username ≡ s.username)
      × ((rate_limit s now).1.is_logged_in ≡ s.is_logged_in)
unfolding rate_limit refill spend
rate_limit-names s now = ground arith

handle_parsed-IsRegistered :
    {live : ℕ → Bool} (a : ChatApp) (conn : ℕ) (s : ChatSession) (msg : ClientMessage)
    (now clock : ℕ)
    → a.sessions conn ≡ some s
    → IsRegistered live a
    → IsRegistered live (handle_parsed a conn s msg now clock).0
unfolding handle_parsed
handle_parsed-IsRegistered {live} a conn s msg now clock at h =
    let t = (rate_limit s now).1 in
    let b : IsRegistered live (set_session a conn t) =
      SameNames-IsRegistered
        (set_session-SameNames conn t at (rate_limit-names s now).0 (rate_limit-names s now).1) h in
    let here : (set_session a conn t).sessions conn ≡ some t =
      elim (set_session-sessions a conn t conn) [ inl (_, e) ↦ e | inr (n, _) ↦ absurd (n refl) ] in
    elim (Bool-cases (rate_limit s now).0) [
      | inl e ↦ rw e (dispatch-IsRegistered (set_session a conn t) conn t msg clock here b)
      | inr e ↦ rw e b
    ]

pub handle_message-IsRegistered :
    {live : ℕ → Bool} (parse : List ℕ → Option ClientMessage) (a : ChatApp) (conn : ℕ)
    (raw_data : List ℕ) (now clock : ℕ)
    → IsRegistered live a
    → IsRegistered live (handle_message parse a conn raw_data now clock).0
unfolding handle_message
handle_message-IsRegistered {live} parse a conn raw_data now clock h =
    elim (Option-cases (a.sessions conn)) [
      | inl e ↦ rw (e, handle_message) h
      | inr (s, e) ↦ elim (Option-cases (parse raw_data)) [
        | inl f ↦ rw (e, handle_message, f) h
        | inr (msg, f) ↦
            rw (e, handle_message, f) (handle_parsed-IsRegistered a conn s msg now clock e h)
      ]
    ]

-- Who is live after a change at one connection.
pub put-live :
    (live : ℕ → Bool) (conn : ℕ) (b : Bool) (d : ℕ)
    → put ◌==◌ live conn b d ≡ true
    → ((d ≡ conn) × (b ≡ true)) ⊎ ((d ≢ conn) × (live d ≡ true))
unfolding put
put-live live conn b d h = elim (Bool-cases (d == conn)) [
  | inl e ↦ inl ((==_iff d conn).0 e, rw e at h)
  | inr e ↦ inr (ground arith, rw e at h)
]

pub handle_connect-IsRegistered :
    {live : ℕ → Bool} (a : ChatApp) (conn now : ℕ)
    → IsRegistered live a
    → IsRegistered (put ◌==◌ live conn true) (handle_connect a conn now)
unfolding handle_connect
handle_connect-IsRegistered {live} a conn now h = record {
  owns = λ d t l at i. elim (set_session-sessions a conn (new_session now) d) [
    | inl (same, here) ↦
        let out : false ≡ t.is_logged_in =
          unfold new_session in ap (λ x. x.is_logged_in) (some_inj (sym here ∙ at)) in
        cc (out, i)
    | inr (other, there) ↦ elim (put-live live conn true d l) [
      | inl (same, _) ↦ absurd (other same)
      | inr (_, was) ↦ unfold set_session in h.owns d t was (sym there ∙ at) i
    ]
  ];
}

narrow-IsRegistered :
    {live : ℕ → Bool} {a : ChatApp} (conn : ℕ)
    → IsRegistered live a
    → IsRegistered (put ◌==◌ live conn false) a
narrow-IsRegistered {live} conn h = record {
  owns = λ d t l at i. elim (put-live live conn false d l) [
    | inl (_, e) ↦ cc e
    | inr (_, was) ↦ h.owns d t was at i
  ];
}

-- A connection that leaves takes its own name out, and no other's.
erase-IsRegistered :
    {live : ℕ → Bool} (a : ChatApp) (conn : ℕ) (s : ChatSession)
    → a.sessions conn ≡ some s
    → s.is_logged_in ≡ true
    → live conn ≡ true
    → IsRegistered live a
    → IsRegistered
        (put ◌==◌ live conn false)
        (record a { online_users = put str_eq a.online_users s.username none })
erase-IsRegistered {live} a conn s here logged l h = record {
  owns = λ d t live_d at i. elim (put-live live conn false d live_d) [
    | inl (_, e) ↦ cc e
    | inr (other, was) ↦
        let owned = h.owns d t was at i in
        put-other a.online_users s.username none t.username
          (λ same. other (owner_unique d conn t s h was l at here i logged same))
        ∙ owned
  ];
}

disconnect_session-IsRegistered :
    {live : ℕ → Bool} (a : ChatApp) (conn : ℕ) (s : ChatSession)
    → a.sessions conn ≡ some s
    → live conn ≡ true
    → IsRegistered live a
    → IsRegistered (put ◌==◌ live conn false) (disconnect_session a s).0
unfolding disconnect_session
disconnect_session-IsRegistered {live} a conn s here l h =
    elim (Bool-cases (s.is_logged_in && not (is_empty s.username))) [
      | inr e ↦ rw e (narrow-IsRegistered conn h)
      | inl e ↦
          let b = erase-IsRegistered a conn s here (and_left s.is_logged_in _ e) l h in
          elim (Bool-cases (is_empty s.current_room)) [
            | inl f ↦ rw (e, f) b
            | inr f ↦
                rw (e, f)
                  (SameNames-IsRegistered
                    (leave_room-SameNames _ s.username s.current_room " has left the room.\n") b)
          ]
    ]

pub handle_disconnect-IsRegistered :
    {live : ℕ → Bool} (a : ChatApp) (conn : ℕ)
    → live conn ≡ true
    → IsRegistered live a
    → IsRegistered (put ◌==◌ live conn false) (handle_disconnect a conn).0
unfolding handle_disconnect
handle_disconnect-IsRegistered {live} a conn l h = elim (Option-cases (a.sessions conn)) [
  | inl e ↦ rw (e, handle_disconnect) (narrow-IsRegistered conn h)
  | inr (s, e) ↦ rw (e, handle_disconnect) (disconnect_session-IsRegistered a conn s e l h)
]
