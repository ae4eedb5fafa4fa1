-- ===== src/Chat3/Unique.antt =====
-- Names are held once in the chat application of v3/chatapp.h, over every interleaving of its hooks.
use tcp_server_client_cpp.Base.{
  ℕ, String, ◌≡◌, refl, sym, ap, ◌∙◌, ◌≢◌, ◌⊎◌, inl, inr, true, false, ◌||◌, List, [], ◌∷◌, ◌==◌,
  Bool-cases, put, put-cases, or_true,
}
use text.Mathlib.Text.{◌==◌ as str_eq}
use text.Mathlib.TextEquality.{eq_iff}
use text.Mathlib.TextPositions.{eq_refl}
use tcp_server_client_cpp.Chat.{is_empty, remove, contains}
use tcp_server_client_cpp.Chat3.{
  awaiting_username, active, Conn, idle, checked, claimed, App, new_conn, start_app, Event, act,
  run,
}
use tcp_server_client_cpp.Chat3.Names.{Holds, IsNamed, IsNamed-fewer, Quiet-IsNamed}
use tcp_server_client_cpp.Chat3.Change.{
  claimed_by, named_by, closed_by, same_username, Change, quietly, claims, takes_name, leaves,
  signs_off, chain, act-Change,
}

pub claimed_inj : {m n : String} → claimed m ≡ claimed n → m ≡ n
claimed_inj {m} = ap (λ w. elim w [ idle ↦ m | checked t ↦ m | claimed t ↦ t ])

pub contains-remove :
    (n u : String) (names : List String)
    → n ≢ u
    → contains n names ≡ true
    → contains n (remove u names) ≡ true
unfolding contains remove
contains-remove n u [] h c = c
contains-remove n u (m ∷ ms) h c = elim (Bool-cases (str_eq m u)) [
  | inl e ↦
      let other : str_eq m n ≡ false = elim (Bool-cases (str_eq m n)) [
        | inl f ↦ absurd (h (sym ((eq_iff m n).0 f) ∙ (eq_iff m u).0 e))
        | inr f ↦ f
      ] in
      rw e (contains-remove n u ms h (sym (ap (λ b. b || contains n ms) other) ∙ c))
  | inr e ↦ rw e (elim (Bool-cases (str_eq m n)) [
    | inl f ↦ rw f refl
    | inr f ↦ rw f (contains-remove n u ms h (sym (ap (λ b. b || contains n ms) f) ∙ c))
  ])
]

claimed_by-Holds :
    (a : App) (conn : ℕ) (text : String) (j : ℕ) (n : String)
    → Holds (claimed_by a conn text) j n
    → ((j ≡ conn) × (n ≡ text)) ⊎ Holds a j n
claimed_by-Holds a conn text j n (inl w) = elim (put-cases a.workers conn (claimed text) j) [
  | inl (e, at) ↦ inl (e, claimed_inj (sym w ∙ at))
  | inr (e, at) ↦ inr (inl (sym at ∙ w))
]
claimed_by-Holds a conn text j n (inr p) = inr (inr p)

claimed_by-IsNamed :
    (a : App) (conn : ℕ) (text : String)
    → IsNamed a
    → contains text a.usernames ≡ false
    → is_empty text ≡ false
    → (a.conns conn).state ≡ awaiting_username
    → IsNamed (claimed_by a conn text)
claimed_by-IsNamed a conn text h free some_text waiting =
    let b = claimed_by a conn text in
    let nobody : (j : ℕ) (n : String) → n ≡ text → Holds a j n → ⊥ =
      λ j n e p. cc (h.held j n p, ap (λ t. contains t a.usernames) e, free) in
    record {
      held = λ j n p.
          unfold contains in
          elim (claimed_by-Holds a conn text j n p) [
            | inl (e, f) ↦ rw f (rw (eq_refl text) refl)
            | inr q ↦ rw (h.held j n q) (or_true (str_eq text n))
          ];
      single = λ i j n p q. elim (claimed_by-Holds a conn text i n p) [
        | inl (e, f) ↦ elim (claimed_by-Holds a conn text j n q) [
          | inl (d, g) ↦ e ∙ sym d
          | inr r ↦ absurd (nobody j n f r)
        ]
        | inr r ↦ elim (claimed_by-Holds a conn text j n q) [
          | inl (d, g) ↦ absurd (nobody i n g r)
          | inr s ↦ h.single i j n r s
        ]
      ];
      nameless = λ j n w. elim (put-cases a.workers conn (claimed text) j) [
        | inl (e, at) ↦ (
          ap is_empty (claimed_inj (sym w ∙ at)) ∙ some_text,
          ap (λ k. is_empty (a.conns k).username) e ∙ h.awaits conn waiting,
        )
        | inr (e, at) ↦ h.nameless j n (sym at ∙ w)
      ];
      awaits = λ j s. h.awaits j s;
    }

named_by-Holds :
    (a : App) (conn : ℕ) (text : String)
    → a.workers conn ≡ claimed text
    → (j : ℕ) (n : String) → Holds (named_by a conn text) j n
    → Holds a j n
named_by-Holds a conn text w j n (inl v) = elim (put-cases a.workers conn idle j) [
  | inl (e, at) ↦ absurd (cc (sym at ∙ v))
  | inr (e, at) ↦ inl (sym at ∙ v)
]
named_by-Holds a conn text w j n (inr (f, name, o)) =
    elim (put-cases a.conns conn
      (record (a.conns conn) { username = text; state = active; is_broadcast_recipient = true })
      j) [
        | inl (e, at) ↦
            inl (ap a.workers e ∙ w ∙ ap claimed (sym (ap (λ (x : Conn). x.username) at) ∙ name))
        | inr (e, at) ↦ inr (
          f,
          sym (ap (λ (x : Conn). x.username) at) ∙ name,
          sym (ap (λ (x : Conn). x.closed) at) ∙ o,
        )
      ]

named_by-IsNamed :
    (a : App) (conn : ℕ) (text : String)
    → IsNamed a
    → a.workers conn ≡ claimed text
    → IsNamed (named_by a conn text)
named_by-IsNamed a conn text h w =
    let c = record (a.conns conn) {
      username = text;
      state = active;
      is_broadcast_recipient = true;
    } in
    IsNamed-fewer a (named_by a conn text) h (named_by-Holds a conn text w) (λ j n p q. q)
      (λ j n v. elim (put-cases a.workers conn idle j) [
        | inl (e, at) ↦ absurd (cc (sym at ∙ v))
        | inr (e, at) ↦ elim (put-cases a.conns conn c j) [
          | inl (f, there) ↦ absurd (e f)
          | inr (f, there) ↦
              ap (λ (x : Conn). is_empty x.username) there ∙ (h.nameless j n (sym at ∙ v)).1
        ]
      ])
      (λ j s. elim (put-cases a.conns conn c j) [
        | inl (f, there) ↦ absurd (cc (sym (ap (λ (x : Conn). x.state) there) ∙ s))
        | inr (f, there) ↦
            ap (λ (x : Conn). is_empty x.username) there
            ∙ h.awaits j (sym (ap (λ (x : Conn). x.state) there) ∙ s)
      ])

pub closed_by-Holds :
    (a : App) (conn : ℕ) (names : List String) (j : ℕ) (n : String)
    → Holds (closed_by a conn names) j n
    → (Holds a j n) × ((j ≡ conn) → a.workers conn ≡ claimed n)
closed_by-Holds a conn names j n (inl v) = (inl v, λ e. ap a.workers (sym e) ∙ v)
closed_by-Holds a conn names j n (inr (f, name, o)) =
    elim (put-cases a.conns conn (record (a.conns conn) { closed = true }) j) [
      | inl (e, at) ↦ absurd (cc (sym (ap (λ (x : Conn). x.closed) at) ∙ o))
      | inr (e, at) ↦ (
        inr (
          f,
          sym (ap (λ (x : Conn). x.username) at) ∙ name,
          sym (ap (λ (x : Conn). x.closed) at) ∙ o,
        ),
        λ d. absurd (e d),
      )
    ]

same_state :
    (a : App) (conn j : ℕ)
    → (put ◌==◌ a.conns conn (record (a.conns conn) { closed = true }) j).state ≡ (a.conns j).state
same_state a conn j = elim (put-cases a.conns conn (record (a.conns conn) { closed = true }) j) [
  | inl (e, at) ↦ ap (λ (x : Conn). x.state) at ∙ ap (λ k. (a.conns k).state) (sym e)
  | inr (e, at) ↦ ap (λ (x : Conn). x.state) at
]

closed_by-IsNamed :
    (a : App) (conn : ℕ) (names : List String)
    → IsNamed a
    → ((j : ℕ) (n : String)
        → Holds (closed_by a conn names) j n
        → contains n a.usernames ≡ true
        → contains n names ≡ true)
    → IsNamed (closed_by a conn names)
closed_by-IsNamed a conn names h kept =
    IsNamed-fewer a (closed_by a conn names) h (λ j n p. (closed_by-Holds a conn names j n p).0)
      kept (λ j n v. ap is_empty (same_username a conn j) ∙ (h.nameless j n v).1)
      (λ j s. ap is_empty (same_username a conn j) ∙ h.awaits j (sym (same_state a conn j) ∙ s))

-- The name that goes is held by nobody else.
closed_by-others :
    (a : App) (conn : ℕ) (names : List String)
    → IsNamed a
    → (a.conns conn).closed ≡ false
    → is_empty (a.conns conn).username ≡ false
    → (j : ℕ) (n : String) → Holds (closed_by a conn names) j n
    → n ≢ (a.conns conn).username
closed_by-others a conn names h o f j n p e =
    let at = closed_by-Holds a conn names j n p in
    let same : j ≡ conn = h.single j conn n at.0 (inr (ap is_empty e ∙ f, sym e, o)) in
    cc (f, (h.nameless conn n (at.1 same)).1)

Change-IsNamed : {a b : App} → Change a b → IsNamed a → IsNamed b
Change-IsNamed (quietly {a} {b} q) h = Quiet-IsNamed a b q h
Change-IsNamed (claims {a} conn text free some_text waiting) h =
    claimed_by-IsNamed a conn text h free some_text waiting
Change-IsNamed (takes_name {a} conn text w) h = named_by-IsNamed a conn text h w
Change-IsNamed (leaves {a} conn o e) h = closed_by-IsNamed a conn a.usernames h (λ j n p c. c)
Change-IsNamed (signs_off {a} conn left_user o name e) h =
    closed_by-IsNamed a conn (remove left_user a.usernames) h (λ j n p c.
      contains-remove n left_user a.usernames
        (λ d.
          closed_by-others a conn (remove left_user a.usernames) h o (ap is_empty (sym name) ∙ e) j
            n p (d ∙ name))
        c)
Change-IsNamed (chain c d) h = Change-IsNamed d (Change-IsNamed c h)

run-IsNamed : (a : App) (events : List Event) → IsNamed a → IsNamed (run a events)
run-IsNamed a [] h = h
run-IsNamed a (e ∷ es) h = run-IsNamed (act a e) es (Change-IsNamed (act-Change a e) h)

start_app-IsNamed : (born : ℕ → ℕ) → IsNamed (start_app born)
unfolding start_app new_conn
start_app-IsNamed born = record {
  held = λ j n p. absurd (nobody j n p);
  single = λ i j n p q. absurd (nobody i n p);
  nameless = λ j n w. absurd (nobody j n (inl w));
  awaits = λ j s. refl;
}
  where
    nobody : (j : ℕ) (n : String) → Holds (start_app born) j n → ⊥
    nobody j n (inl w) = cc w
    nobody j n (inr (e, name, o)) = cc (e, sym name)

pub started-IsNamed : (born : ℕ → ℕ) (events : List Event) → IsNamed (run (start_app born) events)
started-IsNamed born events = run-IsNamed (start_app born) events (start_app-IsNamed born)

-- Over every interleaving of the hooks of version 3 (connections, messages in their parts, closes), from the
-- start: two open connections with the same name, which is not empty, are one, and the name is in
-- `usernames_`.
pub run_unique :
    (born : ℕ → ℕ) (events : List Event) (i j : ℕ)
    → let a = run (start_app born) events in
      (a.conns i).closed ≡ false
      → (a.conns j).closed ≡ false
      → is_empty (a.conns i).username ≡ false
      → (a.conns i).username ≡ (a.conns j).username
      → (i ≡ j) × (contains (a.conns i).username a.usernames ≡ true)
run_unique born events i j oi oj f same =
    let h = started-IsNamed born events in
    let name = ((run (start_app born) events).conns i).username in
    let here : Holds (run (start_app born) events) i name = inr (f, refl, oi) in
    (h.single i j name here (inr (f, sym same, oj)), h.held i name here)
