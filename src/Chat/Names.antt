-- ===== src/Chat/Names.antt =====
-- Who owns a name in `ChatApp` (v4/chatapp.h).
use tcp_server_client_cpp.Base.{
  put, ℕ, String, ◌≡◌, refl, sym, ap, ◌∙◌, ◌≢◌, ◌⊎◌, inl, inr, Bool, true, false, not, ◌||◌, Option,
  none, some, List, [], arith, ◌==◌, if◌then◌else◌, ==_iff, Bool-cases, Option-cases,
}
use text.Mathlib.Text.{◌==◌ as str_eq}
use tcp_server_client_cpp.Chat.{
  ChatSession, ChatApp, ServerCall, set_session, leave_room, enter_room, is_empty,
  handle_global_chat, handle_private_chat, handle_join_room, handle_room_chat,
}

-- Each live session that is logged in owns its name.
pub record IsRegistered (live : ℕ → Bool) (a : ChatApp) : Type 0 where
  pub owns :
      (conn : ℕ) (s : ChatSession)
      → live conn ≡ true
      → a.sessions conn ≡ some s
      → s.is_logged_in ≡ true
      → a.online_users s.username ≡ some conn

-- A change that leaves the names alone.
pub record SameNames (a b : ChatApp) : Type 0 where
  pub online : b.online_users ≡ a.online_users
  pub sessions :
      (conn : ℕ) (t : ChatSession)
      → b.sessions conn ≡ some t
      → (s : ChatSession) × (a.sessions conn ≡ some s)
        × (t.username ≡ s.username)
        × (t.is_logged_in ≡ s.is_logged_in)

pub SameNames-refl : {a : ChatApp} → SameNames a a
SameNames-refl = record { online = refl; sessions = λ conn t e. (t, e, refl, refl) }

SameNames-trans : {a b c : ChatApp} → SameNames a b → SameNames b c → SameNames a c
SameNames-trans h k = record {
  online = k.online ∙ h.online;
  sessions = λ conn u e.
      let (t, at_t, name_t, logged_t) = k.sessions conn u e in
      let (s, at_s, name_s, logged_s) = h.sessions conn t at_t in
      (s, at_s, name_t ∙ name_s, logged_t ∙ logged_s);
}

pub SameNames-IsRegistered :
    {live : ℕ → Bool} {a b : ChatApp} → SameNames a b → IsRegistered live a → IsRegistered live b
SameNames-IsRegistered same h = record {
  owns = λ conn t l e i.
      let (s, at, name, logged) = same.sessions conn t e in
      ap (λ f. f t.username) same.online ∙ rw name (h.owns conn s l at (sym logged ∙ i));
}

pub some_inj {ℓ} : {A : Type ℓ} {x y : A} → some x ≡ some y → x ≡ y
some_inj {x = x} = ap (λ o. elim o [ none ↦ x | some z ↦ z ])

-- Reading the sessions after an assignment.
pub set_session-sessions :
    (a : ChatApp) (conn : ℕ) (t : ChatSession) (j : ℕ)
    → ((j ≡ conn) × ((set_session a conn t).sessions j ≡ some t))
      ⊎ ((j ≢ conn) × ((set_session a conn t).sessions j ≡ a.sessions j))
unfolding set_session put
set_session-sessions a conn t j = elim (Bool-cases (j == conn)) [
  | inl e ↦ inl ((==_iff j conn).0 e, rw e refl)
  | inr e ↦ inr (ground arith, rw e refl)
]

pub set_session-SameNames :
    {a : ChatApp} (conn : ℕ) {s : ChatSession} (t : ChatSession)
    → a.sessions conn ≡ some s
    → t.username ≡ s.username
    → t.is_logged_in ≡ s.is_logged_in
    → SameNames a (set_session a conn t)
set_session-SameNames {a} conn {s} t at name logged = record {
  online = unfold set_session in refl;
  sessions = λ j u e. elim (set_session-sessions a conn t j) [
    | inl (same, here) ↦
        let u_is : t ≡ u = some_inj (sym here ∙ e) in
        (
          s,
          ap a.sessions same ∙ at,
          sym (ap (λ x. x.username) u_is) ∙ name,
          sym (ap (λ x. x.is_logged_in) u_is) ∙ logged,
        )
    | inr (other, there) ↦ (u, sym there ∙ e, refl, refl)
  ];
}

-- A change of the rooms alone.
rooms-SameNames :
    {a : ChatApp} (rooms : String → Option (List String)) → SameNames a (record a { rooms = rooms })
rooms-SameNames rooms = record { online = refl; sessions = λ conn t e. (t, e, refl, refl) }

pub leave_room-SameNames :
    (a : ChatApp) (name room text : String) → SameNames a (leave_room a name room text).0
unfolding leave_room
leave_room-SameNames a name room text = rooms-SameNames _

enter_room-SameNames : (a : ChatApp) (name room : String) → SameNames a (enter_room a name room).0
unfolding enter_room
enter_room-SameNames a name room = rooms-SameNames _

if-SameNames :
    {a : ChatApp} (b : Bool) (x y : ChatApp × List ServerCall)
    → SameNames a x.0
    → SameNames a y.0
    → SameNames a (if b then x else y).0
if-SameNames true x y h k = h
if-SameNames false x y h k = k

leave_if-SameNames :
    (a : ChatApp) (b : Bool) (name room text : String)
    → SameNames a (if b then (a, []) else leave_room a name room text).0
leave_if-SameNames a b name room text =
    if-SameNames b _ _ SameNames-refl (leave_room-SameNames a name room text)

enter_if-SameNames :
    (a : ChatApp) (b : Bool) (name room : String)
    → SameNames a (if b then (a, []) else enter_room a name room).0
enter_if-SameNames a b name room =
    if-SameNames b _ _ SameNames-refl (enter_room-SameNames a name room)

leave_if-sessions :
    (a : ChatApp) (b : Bool) (name room text : String)
    → (if b then (a, []) else leave_room a name room text).0.sessions ≡ a.sessions
unfolding leave_room
leave_if-sessions a true name room text = refl
leave_if-sessions a false name room text = refl

pub handle_join_room-SameNames :
    (a : ChatApp) (conn : ℕ) (s : ChatSession) (room : String)
    → a.sessions conn ≡ some s
    → SameNames a (handle_join_room a conn s room).0
unfolding handle_join_room
handle_join_room-SameNames a conn s room at =
    if-SameNames s.is_logged_in _ _
      (SameNames-trans
        (leave_if-SameNames a (is_empty s.current_room) s.username s.current_room
          " has left the room.")
        (SameNames-trans
          (set_session-SameNames conn (record s { current_room = room })
            (ap (λ f. f conn)
                (leave_if-sessions a (is_empty s.current_room) s.username s.current_room
                  " has left the room.")
              ∙ at)
            refl refl)
          (enter_if-SameNames _ (is_empty room) s.username room)))
      SameNames-refl

pub handle_room_chat-SameNames :
    (a : ChatApp) (conn : ℕ) (s : ChatSession) (room_name text : String)
    → SameNames a (handle_room_chat a conn s room_name text).0
unfolding handle_room_chat
handle_room_chat-SameNames a conn s room_name text =
    elim (Bool-cases (not s.is_logged_in || is_empty s.current_room)) [
      | inl e ↦ rw e SameNames-refl
      | inr e ↦ elim (Bool-cases (str_eq s.current_room room_name)) [
        | inl f ↦ rw (e, f) (rooms-SameNames _)
        | inr f ↦ rw (e, f) SameNames-refl
      ]
    ]

pub handle_global_chat-SameNames :
    (a : ChatApp) (conn : ℕ) (s : ChatSession) (text : String) (clock : ℕ)
    → SameNames a (handle_global_chat a conn s text clock).0
unfolding handle_global_chat
handle_global_chat-SameNames a conn s text clock = elim (Bool-cases s.is_logged_in) [
  | inl e ↦ rw e SameNames-refl
  | inr e ↦ rw e SameNames-refl
]

pub handle_private_chat-SameNames :
    (a : ChatApp) (conn : ℕ) (s : ChatSession) (target text : String) (clock : ℕ)
    → SameNames a (handle_private_chat a conn s target text clock).0
unfolding handle_private_chat
handle_private_chat-SameNames a conn s target text clock = elim (Bool-cases s.is_logged_in) [
  | inl e ↦ elim (Option-cases (a.online_users target)) [
    | inl f ↦ rw (e, f) SameNames-refl
    | inr (receiver, f) ↦ rw (e, f) SameNames-refl
  ]
  | inr e ↦ rw e SameNames-refl
]
