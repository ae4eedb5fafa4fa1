-- ===== src/Chat3/Change.antt =====
-- The changes that the hooks of v3/chatapp.h make to names, connections and workers.
use tcp_server_client_cpp.Base.{
  ℕ, ◌-◌, String, ◌≡◌, refl, sym, ap, ◌∙◌, inl, inr, Bool, true, false, not, ◌||◌, List, ◌∷◌, arith,
  ltb, ◌==◌, if◌then◌else◌, put, put-cases,
}
use tcp_server_client_cpp.Chat.{is_empty, remove, contains, one_token}
use tcp_server_client_cpp.Chat3.{
  ConnState, awaiting_username, active, Conn, Worker, idle, checked, claimed, App, set_conn,
  set_worker, on_client_connect, on_client_disconnect, close_client, refill_tokens, is_idle,
  take_message, claim_name, accept_name, normal_chat, go_on, Event, connects, arrives, proceeds,
  closes, act,
}
use tcp_server_client_cpp.Chat3.Names.{
  Quiet, Quiet-refl, Quiet-trans, set_conn-Quiet, set_worker-Quiet, send-Quiet, calls-Quiet,
}

-- The claim of a free name.
abbrev pub claimed_by : App → ℕ → String → App
claimed_by a conn text =
    set_worker (record a { usernames = text ∷ a.usernames }) conn (claimed text)

-- A name that goes to its connection.
abbrev pub named_by : App → ℕ → String → App
named_by a conn text =
    set_worker
      (set_conn a conn
        (record (a.conns conn) { username = text; state = active; is_broadcast_recipient = true }))
      conn idle

-- A connection that closes, with the names that are left.
abbrev pub closed_by : App → ℕ → List String → App
closed_by a conn names = record (set_conn a conn (record (a.conns conn) { closed = true })) {
  usernames = names;
}

-- What a step may do.
pub data Change : App → App → Type 0 where
  quietly : {a b : App} → Quiet a b → Change a b
  claims :
      {a : App} (conn : ℕ) (text : String)
      → contains text a.usernames ≡ false
      → is_empty text ≡ false
      → (a.conns conn).state ≡ awaiting_username
      → Change a (claimed_by a conn text)
  takes_name :
      {a : App} (conn : ℕ) (text : String)
      → a.workers conn ≡ claimed text
      → Change a (named_by a conn text)
  leaves :
      {a : App} (conn : ℕ)
      → (a.conns conn).closed ≡ false
      → is_empty (a.conns conn).username ≡ true
      → Change a (closed_by a conn a.usernames)
  signs_off :
      {a : App} (conn : ℕ) (left_user : String)
      → (a.conns conn).closed ≡ false
      → left_user ≡ (a.conns conn).username
      → is_empty left_user ≡ false
      → Change a (closed_by a conn (remove left_user a.usernames))
  chain : {a b c : App} → Change a b → Change b c → Change a c

Change-if :
    (a : App) (b : Bool) (x y : App)
    → (b ≡ true → Change a x)
    → (b ≡ false → Change a y)
    → Change a (if b then x else y)
Change-if a true x y h k = h refl
Change-if a false x y h k = k refl

Change-refl : (a : App) → Change a a
Change-refl a = quietly (Quiet-refl a)

pub same_username :
    (a : App) (conn j : ℕ)
    → (put ◌==◌ a.conns conn (record (a.conns conn) { closed = true }) j).username
      ≡ (a.conns j).username
same_username a conn j = elim (put-cases a.conns conn (record (a.conns conn) { closed = true }) j) [
  | inl (e, at) ↦ ap (λ (x : Conn). x.username) at ∙ ap (λ k. (a.conns k).username) (sym e)
  | inr (e, at) ↦ ap (λ (x : Conn). x.username) at
]

close_client-Change : (a : App) (conn : ℕ) → Change a (close_client a conn)
unfolding close_client on_client_disconnect
close_client-Change a conn =
    let b = set_conn a conn (record (a.conns conn) { closed = true }) in
    let left_user : String = (b.conns conn).username in
    let left_name : left_user ≡ (a.conns conn).username = same_username a conn conn in
    Change-if a (a.conns conn).closed a _ (λ e. Change-refl a)
      (λ o.
        Change-if a (is_empty left_user) b _ (λ e. leaves conn o (ap is_empty (sym left_name) ∙ e))
          (λ e.
            chain (signs_off conn left_user o left_name e)
              (quietly (calls-Quiet (closed_by a conn (remove left_user a.usernames)) _))))

claim_name-Change :
    (a : App) (conn : ℕ) (text : String)
    → (a.conns conn).state ≡ awaiting_username
    → Change a (claim_name a conn text)
unfolding claim_name
claim_name-Change a conn text waiting =
    Change-if a (contains text a.usernames || is_empty text) _ _
      (λ e. quietly (
        Quiet-trans a (set_worker a conn idle) _ (set_worker-Quiet a conn idle refl)
          (send-Quiet _ conn _)))
      (λ e. claims conn text (ground arith) (ground arith) waiting)

accept_name-Change :
    (a : App) (conn : ℕ) (text : String)
    → a.workers conn ≡ claimed text
    → Change a (accept_name a conn text)
unfolding accept_name
accept_name-Change a conn text w = chain (takes_name conn text w) (
    quietly (
      Quiet-trans (named_by a conn text) _ _ (send-Quiet (named_by a conn text) conn _)
        (calls-Quiet _ _)))

normal_chat-Change : (a : App) (conn : ℕ) (text : String) → Change a (normal_chat a conn text)
unfolding normal_chat
normal_chat-Change a conn text = quietly (
    Quiet-trans a (set_worker a conn idle) _ (set_worker-Quiet a conn idle refl)
      (calls-Quiet (set_worker a conn idle) _))

go_on-Change : (a : App) (conn : ℕ) → Change a (go_on a conn)
unfolding go_on
go_on-Change a conn = stand (a.workers conn) refl
  where
    speak :
        (text : String) (s : ConnState)
        → (a.conns conn).state ≡ s
        → Change a (elim s [
          | awaiting_username ↦ claim_name a conn text
          | active ↦ normal_chat a conn text
        ])
    speak text awaiting_username e = claim_name-Change a conn text e
    speak text active e = normal_chat-Change a conn text

    stand :
        (w : Worker)
        → a.workers conn ≡ w
        → Change a (elim w [
          | idle ↦ a
          | checked text ↦ elim ((a.conns conn).state) [
            | awaiting_username ↦ claim_name a conn text
            | active ↦ normal_chat a conn text
          ]
          | claimed text ↦ accept_name a conn text
        ])
    stand idle e = Change-refl a
    stand (checked text) e = speak text (a.conns conn).state refl
    stand (claimed text) e = accept_name-Change a conn text e

take_message-Change :
    (a : App) (conn : ℕ) (text : String) (now : ℕ) → Change a (take_message a conn text now)
unfolding take_message
take_message-Change a conn text now =
    let c : Conn = refill_tokens (a.conns conn) now in
    let filled : Quiet a (set_conn a conn c) =
      unfold refill_tokens in set_conn-Quiet a conn c refl refl refl in
    let spent : Conn = record c { tokens = c.tokens - one_token } in
    Change-if a (not (is_idle (a.workers conn)) || (a.conns conn).closed) a _ (λ e. Change-refl a)
      (λ e.
        Change-if a (ltb c.tokens one_token) _ _
          (λ f.
            chain
              (quietly (
                Quiet-trans a (set_conn a conn c) _ filled (send-Quiet (set_conn a conn c) conn _)))
              (close_client-Change _ conn))
          (λ f. quietly (
            Quiet-trans a (set_conn a conn spent) _
              (unfold refill_tokens in set_conn-Quiet a conn spent refl refl refl)
              (set_worker-Quiet (set_conn a conn spent) conn (checked text) refl))))

on_client_connect-Quiet : (a : App) (conn : ℕ) → Quiet a (on_client_connect a conn)
unfolding on_client_connect
on_client_connect-Quiet a conn =
    let c = record (a.conns conn) { has_codec = true } in
    Quiet-trans a (set_conn a conn c) _ (set_conn-Quiet a conn c refl refl refl)
      (send-Quiet (set_conn a conn c) conn _)

pub act-Change : (a : App) (e : Event) → Change a (act a e)
unfolding act
act-Change a (connects conn) = quietly (on_client_connect-Quiet a conn)
act-Change a (arrives conn text now) = take_message-Change a conn text now
act-Change a (proceeds conn) = go_on-Change a conn
act-Change a (closes conn) = close_client-Change a conn
