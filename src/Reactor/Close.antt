-- ===== src/Reactor/Close.antt =====
-- `close_conn` (v4/webserver.cpp) and the table of connections: its two halves, and the whole.
use tcp_server_client_cpp.Base.{
  ℕ, ◌<◌, ◌≡◌, refl, sym, ap, subst, ◌∙◌, ◌≢◌, ◌⊎◌, inl, inr, Bool, true, false, none, some, List,
  ◌∷◌, ◌==◌, ==_ne, ==_iff, ==_refl, Bool-cases, put, put-cases,
}
use tcp_server_client_cpp.Conn.{Connection}
use tcp_server_client_cpp.Server.{
  Server, Shard, get_shard_idx, mark_closed, erase_entry, close_conn, start_close, finish_close,
}
use tcp_server_client_cpp.Server.Sweep.{expected_expiry}
use tcp_server_client_cpp.Server.Sweep.Heap.{has_timer, contains_conn}
use tcp_server_client_cpp.Chat.Names.{some_inj}
use tcp_server_client_cpp.Reactor.Table.{entry, IsTable, Moves, Moves-IsTable, Later-refl}

-- What `close_conn` does to an open connection.
pub close-accepted : (s : Server) (c : ℕ) → (close_conn s c).accepted ≡ s.accepted
unfolding close_conn erase_entry mark_closed
close-accepted s c = elim (Bool-cases (s.conns c).closed) [ inl e ↦ rw e refl | inr e ↦ rw e refl ]

-- The table behind an erase: the other entries, and the heaps.
abbrev erased_shard : Server → ℕ → Shard
erased_shard s fd =
    let shard = s.shards (get_shard_idx fd) in
    record shard { connections = put ◌==◌ shard.connections fd none }

erase-shards :
    (s : Server) (fd : ℕ)
    → (erase_entry s fd).shards ≡ put ◌==◌ s.shards (get_shard_idx fd) (erased_shard s fd)
unfolding erase_entry put
erase-shards s fd = refl

erase-entry :
    (s : Server) (d i fd : ℕ)
    → ((i ≡ get_shard_idx d) × (fd ≡ d) × (entry (erase_entry s d) i fd ≡ none))
      ⊎ (((i ≡ get_shard_idx d) → fd ≢ d) × (entry (erase_entry s d) i fd ≡ entry s i fd))
erase-entry s d i fd =
    let k = get_shard_idx d in
    let at_shard = ap (λ (f : ℕ → Shard). (f i).connections fd) (erase-shards s d) in
    elim (put-cases s.shards k (erased_shard s d) i) [
      | inl (same, at) ↦
          let here_at = at_shard ∙ ap (λ (x : Shard). x.connections fd) at in
          elim (put-cases (s.shards k).connections d none fd) [
            | inl (here, gone) ↦ inl (same, here, here_at ∙ gone)
            | inr (other, there) ↦
                inr (λ e. other, here_at ∙ there ∙ ap (λ j. (s.shards j).connections fd) (sym same))
          ]
      | inr (other, at) ↦
          inr (λ e. absurd (other e), at_shard ∙ ap (λ (x : Shard). x.connections fd) at)
    ]

erase-heap :
    (s : Server) (d i : ℕ) → ((erase_entry s d).shards i).timer_heap ≡ (s.shards i).timer_heap
erase-heap s d i =
    let k = get_shard_idx d in
    ap (λ (f : ℕ → Shard). (f i).timer_heap) (erase-shards s d)
    ∙ elim (put-cases s.shards k (erased_shard s d) i) [
      | inl (same, at) ↦
          ap (λ (x : Shard). x.timer_heap) at ∙ ap (λ j. (s.shards j).timer_heap) (sym same)
      | inr (other, at) ↦ ap (λ (x : Shard). x.timer_heap) at
    ]

-- The first half.
start-shut : (s : Server) (c : ℕ) → (s.conns c).closed ≡ true → start_close s c ≡ s
unfolding start_close
start-shut s c h = rw h refl

start-open :
    (s : Server) (c : ℕ)
    → (s.conns c).closed ≡ false
    → let t = start_close s c in
      (t.accepted ≡ s.accepted)
      × (t.shards ≡ s.shards)
      × (t.conns ≡ put ◌==◌ s.conns c (record (s.conns c) { closed = true }))
      × (t.erasing ≡ put ◌==◌ s.erasing c true)
unfolding start_close mark_closed put
start-open s c h = rw h (refl, refl, refl, refl)

-- A connection behind the first half: the one that is closed, or another.
start-conn :
    (s : Server) (c j : ℕ)
    → (s.conns c).closed ≡ false
    → let t = start_close s c in
      ((j ≡ c) × (t.conns j ≡ record (s.conns c) { closed = true }) × (t.erasing j ≡ true))
      ⊎ ((j ≢ c) × (t.conns j ≡ s.conns j) × (t.erasing j ≡ s.erasing j))
start-conn s c j o =
    let p = start-open s c o in
    let conn_at = ap (λ (f : ℕ → Connection). f j) p.2 in
    let erasing_at = ap (λ (f : ℕ → Bool). f j) p.3 in
    elim (put-cases s.conns c (record (s.conns c) { closed = true }) j) [
      | inl (same, at) ↦ elim (put-cases s.erasing c true j) [
        | inl (e, er) ↦ inl (same, conn_at ∙ at, erasing_at ∙ er)
        | inr (n, er) ↦ absurd (n same)
      ]
      | inr (other, at) ↦ elim (put-cases s.erasing c true j) [
        | inl (e, er) ↦ absurd (other e)
        | inr (n, er) ↦ inr (other, conn_at ∙ at, erasing_at ∙ er)
      ]
    ]

not_late :
    (late : List ℕ) (c conn : ℕ)
    → conn ≢ c
    → contains_conn conn late ≡ false
    → contains_conn conn (c ∷ late) ≡ false
unfolding contains_conn
not_late late c conn h n = rw (==_ne c conn (λ e. h (sym e)), n) refl

pub start_close-IsTable :
    {late : List ℕ} {s : Server} (c : ℕ)
    → c < s.accepted
    → IsTable (c ∷ late) s
    → IsTable late (start_close s c)
start_close-IsTable {late} {s} c l h = elim (Bool-cases (s.conns c).closed) [
  | inl shut ↦ rw (start-shut s c shut) (record {
    listed = h.listed;
    owns = h.owns;
    timed = λ i fd conn e o n.
        h.timed i fd conn e o
          (not_late late c conn (λ eq. cc (shut, o, ap (λ j. (s.conns j).closed) eq)) n);
    erased = h.erased;
  })
  | inr o ↦
      let t = start_close s c in
      let accepted = (start-open s c o).0 in
      let shards = (start-open s c o).1 in
      let at_entry : (i fd : ℕ) → entry t i fd ≡ entry s i fd =
        λ i fd. ap (λ (f : ℕ → Shard). (f i).connections fd) shards in
      record {
        listed = λ conn k open_. elim (start-conn s c conn o) [
          | inl (same, at, er) ↦ cc (open_, ap (λ (x : Connection). x.closed) at)
          | inr (other, at, er) ↦ rw at (
              at_entry _ _
              ∙ h.listed conn (rw accepted at k)
                  (ap (λ (x : Connection). x.closed) (sym at) ∙ open_))
        ];
        owns = λ i fd conn e.
            let w = h.owns i fd conn (sym (at_entry i fd) ∙ e) in
            elim (start-conn s c conn o) [
              | inl (same, at, er) ↦ record {
                accepted = rw accepted w.accepted;
                closing = λ b. er;
                at_fd =
                    ap (λ (x : Connection). x.fd) at
                    ∙ ap (λ j. (s.conns j).fd) (sym same)
                    ∙ w.at_fd;
                shard = w.shard;
              }
              | inr (other, at, er) ↦ record {
                accepted = rw accepted w.accepted;
                closing = λ b. er ∙ w.closing (ap (λ (x : Connection). x.closed) (sym at) ∙ b);
                at_fd = ap (λ (x : Connection). x.fd) at ∙ w.at_fd;
                shard = w.shard;
              }
            ];
        timed = λ i fd conn e open_ n. elim (start-conn s c conn o) [
          | inl (same, at, er) ↦ cc (open_, ap (λ (x : Connection). x.closed) at)
          | inr (other, at, er) ↦
              ap (λ (x : Connection). has_timer fd (expected_expiry x) (t.shards i).timer_heap) at
              ∙ ap
                  (λ (f : ℕ → Shard).
                    has_timer fd (expected_expiry (s.conns conn)) (f i).timer_heap)
                  shards
              ∙ h.timed i fd conn (sym (at_entry i fd) ∙ e)
                  (ap (λ (x : Connection). x.closed) (sym at) ∙ open_)
                  (not_late late c conn other n)
        ];
        erased = λ conn b. elim (start-conn s c conn o) [
          | inl (same, at, er) ↦ record {
            accepted = rw (accepted, same) l;
            shut = ap (λ (x : Connection). x.closed) at;
            own = rw (at, same) (at_entry _ _ ∙ h.listed c l o);
          }
          | inr (other, at, er) ↦
              let w = h.erased conn (sym er ∙ b) in
              record {
                accepted = rw accepted w.accepted;
                shut = ap (λ (x : Connection). x.closed) at ∙ w.shut;
                own = rw at (at_entry _ _ ∙ w.own);
              }
        ];
      }
]

-- The second half.
finish-parts :
    (s : Server) (c : ℕ)
    → let t = finish_close s c in
      (t.accepted ≡ s.accepted)
      × (t.conns ≡ s.conns)
      × (t.erasing ≡ put ◌==◌ s.erasing c false)
      × (t.shards ≡ (erase_entry s (s.conns c).fd).shards)
unfolding finish_close erase_entry put
finish-parts s c = (refl, refl, refl, refl)

-- A connection other than the one that is erased keeps its entry, and the one that is erased has none.
finish-entry :
    {late : List ℕ} {s : Server} (c i fd conn : ℕ)
    → s.erasing c ≡ true
    → IsTable late s
    → entry (finish_close s c) i fd ≡ some conn
    → (entry s i fd ≡ some conn) × (conn ≢ c)
finish-entry {late} {s} c i fd conn er h e =
    let there = ap (λ (f : ℕ → Shard). (f i).connections fd) (sym (finish-parts s c).3) ∙ e in
    elim (erase-entry s (s.conns c).fd i fd) [
      | inl (same, here, gone) ↦ cc (gone, there)
      | inr (other, old) ↦
          let was = sym old ∙ there in
          let w = h.owns i fd conn was in
          (
            was,
            λ eq.
                let at = sym w.at_fd ∙ ap (λ j. (s.conns j).fd) eq in
                other (w.shard ∙ ap get_shard_idx at) at,
          )
    ]

finish-listed :
    {late : List ℕ} {s : Server} (c conn : ℕ)
    → s.erasing c ≡ true
    → IsTable late s
    → conn ≢ c
    → entry s (get_shard_idx (s.conns conn).fd) (s.conns conn).fd ≡ some conn
    → entry (finish_close s c) (get_shard_idx (s.conns conn).fd) (s.conns conn).fd ≡ some conn
finish-listed {late} {s} c conn er h other was =
    let fd = (s.conns conn).fd in
    ap (λ (f : ℕ → Shard). (f (get_shard_idx fd)).connections fd) (finish-parts s c).3
    ∙ elim (erase-entry s (s.conns c).fd (get_shard_idx fd) fd) [
      | inl (same, here, gone) ↦ absurd (
          other
            (some_inj (sym was ∙ ap (λ f. entry s (get_shard_idx f) f) here ∙ (h.erased c er).own)))
      | inr (n, old) ↦ old ∙ was
    ]

pub finish_close-IsTable :
    {late : List ℕ} {s : Server} (c : ℕ)
    → s.erasing c ≡ true
    → IsTable late s
    → IsTable late (finish_close s c)
finish_close-IsTable {late} {s} c er h =
    let t = finish_close s c in
    let accepted = (finish-parts s c).0 in
    let conn_at : (j : ℕ) → t.conns j ≡ s.conns j =
      λ j. ap (λ (f : ℕ → Connection). f j) (finish-parts s c).1 in
    let erasing_at : (j : ℕ) → j ≢ c → t.erasing j ≡ s.erasing j = λ j n.
      ap (λ (f : ℕ → Bool). f j) (finish-parts s c).2
      ∙ elim (put-cases s.erasing c false j) [ inl (e, at) ↦ absurd (n e) | inr (m, at) ↦ at ] in
    let shut = (h.erased c er).shut in
    record {
      listed = λ conn k open_.
          let was_open = ap (λ (x : Connection). x.closed) (sym (conn_at conn)) ∙ open_ in
          rw (conn_at conn) (
            finish-listed c conn er h (λ eq. cc (shut, was_open, ap (λ j. (s.conns j).closed) eq))
              (h.listed conn (rw accepted at k) was_open));
      owns = λ i fd conn e.
          let was = finish-entry c i fd conn er h e in
          let w = h.owns i fd conn was.0 in
          record {
            accepted = rw accepted w.accepted;
            closing = λ b.
                erasing_at conn was.1
                ∙ w.closing (ap (λ (x : Connection). x.closed) (sym (conn_at conn)) ∙ b);
            at_fd = ap (λ (x : Connection). x.fd) (conn_at conn) ∙ w.at_fd;
            shard = w.shard;
          };
      timed = λ i fd conn e open_ n.
          let was = finish-entry c i fd conn er h e in
          ap (λ (x : Connection). has_timer fd (expected_expiry x) (t.shards i).timer_heap)
            (conn_at conn)
          ∙ ap (λ (f : ℕ → Shard). has_timer fd (expected_expiry (s.conns conn)) (f i).timer_heap)
              (finish-parts s c).3
          ∙ ap (has_timer fd (expected_expiry (s.conns conn))) (erase-heap s (s.conns c).fd i)
          ∙ h.timed i fd conn was.0 (ap (λ (x : Connection). x.closed) (sym (conn_at conn)) ∙ open_)
              n;
      erased = λ conn b.
          let other : conn ≢ c = λ eq. still_there s c conn eq b in
          let w = h.erased conn (sym (erasing_at conn other) ∙ b) in
          record {
            accepted = rw accepted w.accepted;
            shut = ap (λ (x : Connection). x.closed) (conn_at conn) ∙ w.shut;
            own = rw (conn_at conn) (finish-listed c conn er h other w.own);
          };
    }
  where
    still_there : (s : Server) (c j : ℕ) → j ≡ c → (finish_close s c).erasing j ≡ true → ⊥
    still_there s c j eq b =
        let at = ap (λ (f : ℕ → Bool). f j) (finish-parts s c).2 in
        elim (put-cases s.erasing c false j) [ inl (e, off) ↦ cc (at, off, b) | inr (n, on) ↦ n eq ]

-- The whole: the two halves, one behind the other.
close-Moves :
    (s : Server) (c : ℕ)
    → (s.conns c).closed ≡ false
    → s.erasing c ≡ false
    → Moves (finish_close (start_close s c) c) (close_conn s c)
unfolding close_conn finish_close start_close mark_closed erase_entry put
close-Moves s c o e = record {
  accepted = rw o refl;
  shards = rw (o, ==_refl c) refl;
  erasing = λ j. elim (Bool-cases (j == c)) [
    | inl same ↦ rw (o, same) (ap s.erasing ((==_iff j c).0 same) ∙ e)
    | inr other ↦ rw (o, other) refl
  ];
  conns = λ j. rw o (Later-refl _);
}

pub close-IsTable :
    {late : List ℕ} {s : Server} (c : ℕ)
    → c < s.accepted
    → IsTable (c ∷ late) s
    → IsTable late (close_conn s c)
close-IsTable {late} {s} c l h = elim (Bool-cases (s.conns c).closed) [
  | inl shut ↦
      let same : start_close s c ≡ close_conn s c =
        start-shut s c shut ∙ (unfold close_conn in rw shut refl) in
      subst (IsTable late) same (start_close-IsTable c l h)
  | inr o ↦ elim (Bool-cases (s.erasing c)) [
    | inl busy ↦ cc (o, (h.erased c busy).shut)
    | inr idle ↦
        Moves-IsTable (close-Moves s c o idle)
          (finish_close-IsTable c (started s c o) (start_close-IsTable c l h))
  ]
]
  where
    started : (s : Server) (c : ℕ) → (s.conns c).closed ≡ false → (start_close s c).erasing c ≡ true
    started s c o = elim (start-conn s c c o) [
      | inl (same, at, er) ↦ er
      | inr (other, at, er) ↦ absurd (other refl)
    ]
