-- ===== src/Chat3/Names.antt =====
-- Who holds a name in the chat application of v3/chatapp.h, over every interleaving of its hooks.
use tcp_server_client_cpp.Base.{
  ℕ, String, ◌≡◌, refl, sym, ap, ◌∙◌, ◌⊎◌, inl, inr, Bool, true, false, List, if◌then◌else◌,
  put-cases,
}
use tcp_server_client_cpp.Chat.{is_empty, contains}
use tcp_server_client_cpp.Chat3.{
  awaiting_username, Conn, Worker, idle, checked, claimed, Call, App, send, set_conn, set_worker,
}

-- A worker is about to give the name to the connection, or the connection is open and has it.
abbrev pub Holds : App → ℕ → String → Type 0
Holds a j n =
    (a.workers j ≡ claimed n)
    ⊎ ((is_empty n ≡ false) × ((a.conns j).username ≡ n) × ((a.conns j).closed ≡ false))

pub record IsNamed (a : App) : Type 0 where
  pub held : (j : ℕ) (n : String) → Holds a j n → contains n a.usernames ≡ true
  pub single : (i j : ℕ) (n : String) → Holds a i n → Holds a j n → i ≡ j
  pub nameless :
      (j : ℕ) (n : String)
      → a.workers j ≡ claimed n
      → (is_empty n ≡ false) × (is_empty (a.conns j).username ≡ true)
  pub awaits :
      (j : ℕ) → (a.conns j).state ≡ awaiting_username → is_empty (a.conns j).username ≡ true

-- A step after which each name is held, if at all, by who held it before.
pub IsNamed-fewer :
    (a b : App)
    → IsNamed a
    → ((j : ℕ) (n : String) → Holds b j n → Holds a j n)
    → ((j : ℕ) (n : String)
        → Holds b j n
        → contains n a.usernames ≡ true
        → contains n b.usernames ≡ true)
    → ((j : ℕ) (n : String) → b.workers j ≡ claimed n → is_empty (b.conns j).username ≡ true)
    → ((j : ℕ) → (b.conns j).state ≡ awaiting_username → is_empty (b.conns j).username ≡ true)
    → IsNamed b
IsNamed-fewer a b h before kept nameless awaits = record {
  held = λ j n p. kept j n p (h.held j n (before j n p));
  single = λ i j n p q. h.single i j n (before i n p) (before j n q);
  nameless = λ j n w. (claim-named h j n (before j n (inl w)), nameless j n w);
  awaits = awaits;
}
  where
    claim-named : IsNamed a → (j : ℕ) (n : String) → Holds a j n → is_empty n ≡ false
    claim-named h j n (inl w) = (h.nameless j n w).0
    claim-named h j n (inr (e, name, o)) = e

-- A step that leaves the names, and lets workers at most come to rest.
pub record Quiet (a b : App) : Type 0 where
  pub names : b.usernames ≡ a.usernames
  pub same_name : (j : ℕ) → (b.conns j).username ≡ (a.conns j).username
  pub same_closed : (j : ℕ) → (b.conns j).closed ≡ (a.conns j).closed
  pub same_state : (j : ℕ) → (b.conns j).state ≡ (a.conns j).state
  pub claims : (j : ℕ) (n : String) → b.workers j ≡ claimed n → a.workers j ≡ claimed n

pub Quiet-refl : (a : App) → Quiet a a
Quiet-refl a = record {
  names = refl;
  same_name = λ j. refl;
  same_closed = λ j. refl;
  same_state = λ j. refl;
  claims = λ j n w. w;
}

pub Quiet-trans : (a b c : App) → Quiet a b → Quiet b c → Quiet a c
Quiet-trans a b c h k = record {
  names = k.names ∙ h.names;
  same_name = λ j. k.same_name j ∙ h.same_name j;
  same_closed = λ j. k.same_closed j ∙ h.same_closed j;
  same_state = λ j. k.same_state j ∙ h.same_state j;
  claims = λ j n w. h.claims j n (k.claims j n w);
}

pub Quiet-Holds : (a b : App) → Quiet a b → (j : ℕ) (n : String) → Holds b j n → Holds a j n
Quiet-Holds a b h j n (inl w) = inl (h.claims j n w)
Quiet-Holds a b h j n (inr (e, name, o)) =
    inr (e, sym (h.same_name j) ∙ name, sym (h.same_closed j) ∙ o)

pub Quiet-IsNamed : (a b : App) → Quiet a b → IsNamed a → IsNamed b
Quiet-IsNamed a b h k =
    IsNamed-fewer a b k (Quiet-Holds a b h) (λ j n p c. ap (contains n) h.names ∙ c)
      (λ j n w. ap is_empty (h.same_name j) ∙ (k.nameless j n (h.claims j n w)).1)
      (λ j s. ap is_empty (h.same_name j) ∙ k.awaits j (sym (h.same_state j) ∙ s))

-- What a quiet step writes.
pub set_conn-Quiet :
    (a : App) (conn : ℕ) (c : Conn)
    → c.username ≡ (a.conns conn).username
    → c.closed ≡ (a.conns conn).closed
    → c.state ≡ (a.conns conn).state
    → Quiet a (set_conn a conn c)
set_conn-Quiet a conn c name closed state = record {
  names = refl;
  same_name = λ j. elim (put-cases a.conns conn c j) [
    | inl (e, at) ↦ ap (λ (x : Conn). x.username) at ∙ name ∙ ap (λ k. (a.conns k).username) (sym e)
    | inr (e, at) ↦ ap (λ (x : Conn). x.username) at
  ];
  same_closed = λ j. elim (put-cases a.conns conn c j) [
    | inl (e, at) ↦ ap (λ (x : Conn). x.closed) at ∙ closed ∙ ap (λ k. (a.conns k).closed) (sym e)
    | inr (e, at) ↦ ap (λ (x : Conn). x.closed) at
  ];
  same_state = λ j. elim (put-cases a.conns conn c j) [
    | inl (e, at) ↦ ap (λ (x : Conn). x.state) at ∙ state ∙ ap (λ k. (a.conns k).state) (sym e)
    | inr (e, at) ↦ ap (λ (x : Conn). x.state) at
  ];
  claims = λ j n w. w;
}

abbrev is_claim : Worker → Bool
is_claim idle = false
is_claim (checked text) = false
is_claim (claimed text) = true

pub set_worker-Quiet :
    (a : App) (conn : ℕ) (w : Worker) → is_claim w ≡ false → Quiet a (set_worker a conn w)
set_worker-Quiet a conn w h = record {
  names = refl;
  same_name = λ j. refl;
  same_closed = λ j. refl;
  same_state = λ j. refl;
  claims = λ j n p. elim (put-cases a.workers conn w j) [
    | inl (e, at) ↦ cc (h, ap is_claim (sym at ∙ p))
    | inr (e, at) ↦ sym at ∙ p
  ];
}

pub Quiet-if :
    (a : App) (b : Bool) (x y : App) → Quiet a x → Quiet a y → Quiet a (if b then x else y)
Quiet-if a true x y h k = h
Quiet-if a false x y h k = k

pub calls-Quiet : (a : App) (calls : List Call) → Quiet a (record a { calls = calls })
calls-Quiet a calls = record {
  names = refl;
  same_name = λ j. refl;
  same_closed = λ j. refl;
  same_state = λ j. refl;
  claims = λ j n w. w;
}

pub send-Quiet : (a : App) (conn : ℕ) (text : String) → Quiet a (send a conn text)
unfolding send
send-Quiet a conn text = Quiet-if a (a.conns conn).has_codec _ a (calls-Quiet a _) (Quiet-refl a)
