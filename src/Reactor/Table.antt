-- ===== src/Reactor/Table.antt =====
-- The table of connections (v4/webserver.cpp): the shards hold the open connections, each with a timer, and those that a
-- thread is closing.
use tcp_server_client_cpp.Base.{
  ℕ, ◌≤◌, ◌<◌, ◌≡◌, refl, sym, ap, subst, ◌∙◌, inl, inr, Bool, true, false, ◌&&◌, ◌||◌, Option,
  some, List, [], ◌∷◌, arith, leb, ◌==◌, Bool-cases, put, put-cases, or_true,
}
use tcp_server_client_cpp.Conn.{Connection}
use tcp_server_client_cpp.Server.{Server, TimerEvent, get_shard_idx}
use tcp_server_client_cpp.Server.Sweep.{expected_expiry}
use tcp_server_client_cpp.Server.Sweep.Heap.{has_timer, contains_conn}
use tcp_server_client_cpp.Reactor.Identity.{Later}

-- An entry of a shard's table.
abbrev pub entry : Server → ℕ → ℕ → Option ℕ
entry s i fd = (s.shards i).connections fd

-- What an entry says of its connection.
pub record Owns (s : Server) (i fd conn : ℕ) : Type 0 where
  pub accepted : conn < s.accepted
  pub closing : (s.conns conn).closed ≡ true → s.erasing conn ≡ true
  pub at_fd : (s.conns conn).fd ≡ fd
  pub shard : i ≡ get_shard_idx fd

-- What holds of a connection that a thread is to erase: it is closed, and still in the table.
pub record IsErasing (s : Server) (conn : ℕ) : Type 0 where
  pub accepted : conn < s.accepted
  pub shut : (s.conns conn).closed ≡ true
  pub own : entry s (get_shard_idx (s.conns conn).fd) (s.conns conn).fd ≡ some conn

-- The open connections have an entry, an entry is open or to be erased, and an open one has a timer that comes up by
-- the time at which it expires, but perhaps for those of `late`.
pub record IsTable (late : List ℕ) (s : Server) : Type 0 where
  pub listed :
      (conn : ℕ)
      → conn < s.accepted
      → (s.conns conn).closed ≡ false
      → entry s (get_shard_idx (s.conns conn).fd) (s.conns conn).fd ≡ some conn
  pub owns : (i fd conn : ℕ) → entry s i fd ≡ some conn → Owns s i fd conn
  pub timed :
      (i fd conn : ℕ)
      → entry s i fd ≡ some conn
      → (s.conns conn).closed ≡ false
      → contains_conn conn late ≡ false
      → has_timer fd (expected_expiry (s.conns conn)) (s.shards i).timer_heap ≡ true
  pub erased : (conn : ℕ) → s.erasing conn ≡ true → IsErasing s conn

pub has_timer_mono :
    (fd l m : ℕ) (es : List TimerEvent)
    → l ≤ m
    → has_timer fd l es ≡ true
    → has_timer fd m es ≡ true
unfolding has_timer
has_timer_mono fd l m [] h t = t
has_timer_mono fd l m (e ∷ es) h t = elim (Bool-cases (e.fd == fd && leb e.expires_at l)) [
  | inl here ↦ ground arith
  | inr other ↦ rw (has_timer_mono fd l m es h (rw other at t)) (or_true _)
]

-- A change of connections that keeps their descriptors and whether they are closed.
pub record Moves (s t : Server) : Type 0 where
  pub accepted : t.accepted ≡ s.accepted
  pub shards : t.shards ≡ s.shards
  pub erasing : (conn : ℕ) → t.erasing conn ≡ s.erasing conn
  pub conns : (conn : ℕ) → Later (s.conns conn) (t.conns conn)

pub Later-refl : (c : Connection) → Later c c
Later-refl c = record { fd = refl; closed = refl; activity = omega arith }

pub put-Moves :
    (s t : Server) (conn : ℕ) (d : Connection)
    → t.accepted ≡ s.accepted
    → t.shards ≡ s.shards
    → t.erasing ≡ s.erasing
    → t.conns ≡ put ◌==◌ s.conns conn d
    → Later (s.conns conn) d
    → Moves s t
put-Moves s t conn d a sh er c l = record {
  accepted = a;
  shards = sh;
  erasing = λ j. ap (λ (f : ℕ → Bool). f j) er;
  conns = λ j. elim (put-cases s.conns conn d j) [
    | inl (same, e) ↦
        subst (λ x. Later (s.conns j) x) (sym (ap (λ (f : ℕ → Connection). f j) c ∙ e)) (rw same l)
    | inr (other, e) ↦
        subst (λ x. Later (s.conns j) x) (sym (ap (λ (f : ℕ → Connection). f j) c ∙ e))
          (Later-refl (s.conns j))
  ];
}

pub Moves-IsTable : {late : List ℕ} {s t : Server} → Moves s t → IsTable late s → IsTable late t
Moves-IsTable {late} {s} {t} m h = record {
  listed = λ conn l o.
      let k = m.conns conn in
      rw (k.fd, m.shards) (h.listed conn (rw m.accepted at l) (sym k.closed ∙ o));
  owns = λ i fd conn e.
      let k = m.conns conn in
      let w = h.owns i fd conn (rw m.shards at e) in
      record {
        accepted = rw m.accepted w.accepted;
        closing = λ o. m.erasing conn ∙ w.closing (sym k.closed ∙ o);
        at_fd = k.fd ∙ w.at_fd;
        shard = w.shard;
      };
  timed = λ i fd conn e o n.
      let k = m.conns conn in
      rw m.shards (
        has_timer_mono fd (expected_expiry (s.conns conn)) (expected_expiry (t.conns conn))
          (s.shards i).timer_heap (unfold expected_expiry in omega (arith, k.activity))
          (h.timed i fd conn (rw m.shards at e) (sym k.closed ∙ o) n));
  erased = λ conn b.
      let k = m.conns conn in
      let w = h.erased conn (sym (m.erasing conn) ∙ b) in
      record {
        accepted = rw m.accepted w.accepted;
        shut = k.closed ∙ w.shut;
        own = rw (k.fd, m.shards) w.own;
      };
}

pub late-weaken : {late : List ℕ} {s : Server} (c : ℕ) → IsTable late s → IsTable (c ∷ late) s
late-weaken {late} c h = record {
  listed = h.listed;
  owns = h.owns;
  timed =
      λ i fd conn e o n. h.timed i fd conn e o (or_right (c == conn) _ (unfold contains_conn in n));
  erased = h.erased;
}
  where
    or_right : (a b : Bool) → a || b ≡ false → b ≡ false
    or_right false b h = h
    or_right true b h = cc h
