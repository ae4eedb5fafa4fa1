-- ===== src/Chat3/Leak.antt =====
-- A connection of v3/chatapp.h that closes between the two halves of its login.
use tcp_server_client_cpp.Base.{
  ℕ, String, ◌≡◌, sym, ap, subst, ◌∙◌, ◌⊎◌, inl, inr, true, false, List, [], ◌∷◌, put-cases,
  or_true, if_true, if_false,
}
use text.Mathlib.Text.{◌==◌ as str_eq}
use tcp_server_client_cpp.Chat.{is_empty, remove, contains}
use tcp_server_client_cpp.Chat3.{
  active, Conn, idle, claimed, App, start_app, on_client_disconnect, close_client, Event, act, run,
}
use tcp_server_client_cpp.Chat3.Names.{Holds, IsNamed, Quiet}
use tcp_server_client_cpp.Chat3.Change.{
  claimed_by, named_by, closed_by, same_username, Change, quietly, claims, takes_name, leaves,
  signs_off, chain, act-Change,
}
use tcp_server_client_cpp.Chat3.Unique.{contains-remove, claimed_inj, started-IsNamed}

-- An open connection has the name, or a worker is about to give it the name.
abbrev Owns : App → ℕ → String → Type 0
Owns a j n = ((a.conns j).closed ≡ false) × ((a.workers j ≡ claimed n) ⊎ ((a.conns j).username ≡ n))

-- The name is taken, and no open connection owns it.
pub record IsLost (n : String) (a : App) : Type 0 where
  pub taken : contains n a.usernames ≡ true
  pub no_owner : (j : ℕ) → Owns a j n → ⊥

named_by-Owns :
    (a : App) (conn : ℕ) (text : String)
    → a.workers conn ≡ claimed text
    → (j : ℕ) (n : String) → Owns (named_by a conn text) j n
    → Owns a j n
named_by-Owns a conn text w j n (o, p) =
    let c = record (a.conns conn) {
      username = text;
      state = active;
      is_broadcast_recipient = true;
    } in
    elim (put-cases a.conns conn c j) [
      | inl (e, at) ↦ (
        ap (λ k. (a.conns k).closed) e ∙ sym (ap (λ (x : Conn). x.closed) at) ∙ o,
        elim p [
          | inl v ↦ elim (put-cases a.workers conn idle j) [
            | inl (f, there) ↦ absurd (cc (sym there ∙ v))
            | inr (f, there) ↦ absurd (f e)
          ]
          | inr q ↦
              inl (ap a.workers e ∙ w ∙ ap claimed (sym (ap (λ (x : Conn). x.username) at) ∙ q))
        ],
      )
      | inr (e, at) ↦ (
        sym (ap (λ (x : Conn). x.closed) at) ∙ o,
        elim p [
          | inl v ↦ elim (put-cases a.workers conn idle j) [
            | inl (f, there) ↦ absurd (e f)
            | inr (f, there) ↦ inl (sym there ∙ v)
          ]
          | inr q ↦ inr (sym (ap (λ (x : Conn). x.username) at) ∙ q)
        ],
      )
    ]

closed_by-Owns :
    (a : App) (conn : ℕ) (names : List String) (j : ℕ) (n : String)
    → Owns (closed_by a conn names) j n
    → Owns a j n
closed_by-Owns a conn names j n (o, p) =
    elim (put-cases a.conns conn (record (a.conns conn) { closed = true }) j) [
      | inl (e, at) ↦ absurd (cc (sym (ap (λ (x : Conn). x.closed) at) ∙ o))
      | inr (e, at) ↦ (
        sym (ap (λ (x : Conn). x.closed) at) ∙ o,
        elim p [ inl v ↦ inl v | inr q ↦ inr (sym (ap (λ (x : Conn). x.username) at) ∙ q) ],
      )
    ]

claimed_by-Owns :
    (a : App) (conn : ℕ) (text : String) (j : ℕ) (n : String)
    → Owns (claimed_by a conn text) j n
    → (text ≡ n) ⊎ Owns a j n
claimed_by-Owns a conn text j n (o, inl v) = elim (put-cases a.workers conn (claimed text) j) [
  | inl (e, at) ↦ inl (claimed_inj (sym at ∙ v))
  | inr (e, at) ↦ inr (o, inl (sym at ∙ v))
]
claimed_by-Owns a conn text j n (o, inr q) = inr (o, inr q)

Quiet-Owns : (a b : App) → Quiet a b → (j : ℕ) (n : String) → Owns b j n → Owns a j n
Quiet-Owns a b h j n (o, p) = (
  sym (h.same_closed j) ∙ o,
  elim p [ inl v ↦ inl (h.claims j n v) | inr q ↦ inr (sym (h.same_name j) ∙ q) ],
)

Change-IsLost : (n : String) {a b : App} → Change a b → IsLost n a → IsLost n b
Change-IsLost n (quietly {a} {b} q) h = record {
  taken = ap (contains n) q.names ∙ h.taken;
  no_owner = λ j p. h.no_owner j (Quiet-Owns a b q j n p);
}
Change-IsLost n (claims {a} conn text free some_text waiting) h = record {
  taken = unfold contains in rw h.taken (or_true (str_eq text n));
  no_owner = λ j p. elim (claimed_by-Owns a conn text j n p) [
    | inl e ↦ cc (h.taken, free, ap (λ t. contains t a.usernames) e)
    | inr q ↦ h.no_owner j q
  ];
}
Change-IsLost n (takes_name {a} conn text w) h = record {
  taken = h.taken;
  no_owner = λ j p. h.no_owner j (named_by-Owns a conn text w j n p);
}
Change-IsLost n (leaves {a} conn o e) h = record {
  taken = h.taken;
  no_owner = λ j p. h.no_owner j (closed_by-Owns a conn a.usernames j n p);
}
Change-IsLost n (signs_off {a} conn left_user o name e) h = record {
  taken =
      contains-remove n left_user a.usernames (λ d. h.no_owner conn (o, inr (sym (d ∙ name))))
        h.taken;
  no_owner = λ j p. h.no_owner j (closed_by-Owns a conn (remove left_user a.usernames) j n p);
}
Change-IsLost n (chain c d) h = Change-IsLost n d (Change-IsLost n c h)

run-IsLost : (n : String) (a : App) (events : List Event) → IsLost n a → IsLost n (run a events)
run-IsLost n a [] h = h
run-IsLost n a (e ∷ es) h = run-IsLost n (act a e) es (Change-IsLost n (act-Change a e) h)

-- An open connection without a name just closes.
close_client-nameless :
    (a : App) (conn : ℕ)
    → (a.conns conn).closed ≡ false
    → is_empty (a.conns conn).username ≡ true
    → close_client a conn ≡ closed_by a conn a.usernames
unfolding close_client on_client_disconnect
close_client-nameless a conn o e =
    if_false (a.conns conn).closed _ _ o
    ∙ if_true (is_empty _) _ _ (ap is_empty (same_username a conn conn) ∙ e)

closed_by-IsLost :
    (a : App) (conn : ℕ) (n : String)
    → IsNamed a
    → a.workers conn ≡ claimed n
    → (a.conns conn).closed ≡ false
    → IsLost n (closed_by a conn a.usernames)
closed_by-IsLost a conn n h w o = record {
  taken = h.held conn n (inl w);
  no_owner = λ j p.
      let q = closed_by-Owns a conn a.usernames j n p in
      let holds : Holds a j n = elim (q.1) [
        | inl v ↦ inl v
        | inr name ↦ inr ((h.nameless conn n w).0, name, q.0)
      ] in
      let same : j ≡ conn = h.single j conn n holds (inl w) in
      elim (put-cases a.conns conn (record (a.conns conn) { closed = true }) j) [
        | inl (e, at) ↦ cc (sym (ap (λ (x : Conn). x.closed) at) ∙ p.0)
        | inr (e, at) ↦ absurd (e same)
      ];
}

-- If an open connection of version 3 is closed after a worker has put its name into `usernames_` and before
-- the worker writes it into the connection, then whatever happens later the name stays in `usernames_`, while
-- no open connection has it or is about to.
pub close_client-IsLost :
    (born : ℕ → ℕ) (events later : List Event) (conn : ℕ) (n : String)
    → let a = run (start_app born) events in
      a.workers conn ≡ claimed n
      → (a.conns conn).closed ≡ false
      → IsLost n (run (close_client a conn) later)
close_client-IsLost born events later conn n w o =
    let a = run (start_app born) events in
    let h = started-IsNamed born events in
    run-IsLost n (close_client a conn) later (
      subst (IsLost n) (sym (close_client-nameless a conn o (h.nameless conn n w).1))
        (closed_by-IsLost a conn n h w o))
