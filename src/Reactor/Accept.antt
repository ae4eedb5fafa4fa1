-- ===== src/Reactor/Accept.antt =====
-- `accept_loop` (v4/webserver.cpp) and the table of connections.
use tcp_server_client_cpp.Base.{
  ℕ, suc, ◌+◌, ◌<◌, ◌≡◌, refl, sym, ap, subst, ◌∙◌, ◌≢◌, ◌⊎◌, inl, inr, true, false, some, List, [],
  ◌∷◌, arith, ◌==◌, put, put-cases, or_true,
}
use tcp_server_client_cpp.Conn.{Connection, connect}
use tcp_server_client_cpp.Server.{
  Server, Shard, TimerEvent, get_shard_idx, accept_client, connection_timeout, epollin_only,
}
use tcp_server_client_cpp.Server.Sweep.{expected_expiry}
use tcp_server_client_cpp.Server.Sweep.Heap.{has_timer}
use native.Mathlib.Decide.{dec_lt}
use tcp_server_client_cpp.Chat.Names.{some_inj}
use tcp_server_client_cpp.Reactor.Table.{entry, Owns, IsTable}

abbrev made : ℕ → ℕ → Connection
made client_fd now = record (connect client_fd now) { current_epoll_events = epollin_only }

abbrev filled : Server → ℕ → ℕ → Shard
filled s client_fd now =
    let shard = s.shards (get_shard_idx client_fd) in
    record {
      connections = put ◌==◌ shard.connections client_fd (some s.accepted);
      timer_heap =
          record { expires_at = now + connection_timeout; fd = client_fd } ∷ shard.timer_heap;
    }

accept-parts :
    (s : Server) (client_fd now : ℕ)
    → let t = accept_client s client_fd now in
      (t.accepted ≡ suc s.accepted)
      × (t.conns ≡ put ◌==◌ s.conns s.accepted (made client_fd now))
      × (t.shards ≡ put ◌==◌ s.shards (get_shard_idx client_fd) (filled s client_fd now))
unfolding accept_client put
accept-parts s client_fd now = (refl, refl, refl)

-- No connection that is open, or that a thread still holds to erase it, has the descriptor: the kernel gives out one
-- that is not in use.
unfoldable pub IsUnused : Server → ℕ → Type 0
IsUnused s client_fd =
    (conn : ℕ)
    → conn < s.accepted
    → ((s.conns conn).closed ≡ false) ⊎ (s.erasing conn ≡ true)
    → (s.conns conn).fd ≢ client_fd

timer-cons :
    (fd limit : ℕ) (e : TimerEvent) (es : List TimerEvent)
    → has_timer fd limit es ≡ true
    → has_timer fd limit (e ∷ es) ≡ true
unfolding has_timer
timer-cons fd limit e es h = rw h (or_true _)

timer-head :
    (fd limit : ℕ) (es : List TimerEvent)
    → has_timer fd limit (record { expires_at = limit; fd = fd } ∷ es) ≡ true
unfolding has_timer
timer-head fd limit es = ground arith

made-lem :
    (client_fd now : ℕ)
    → let c = made client_fd now in
      (c.fd ≡ client_fd) × (c.closed ≡ false) × (c.last_activity ≡ now)
unfolding connect
made-lem client_fd now = (refl, refl, refl)

module _ (s : Server) (client_fd now : ℕ) where
  -- The new table: the new connection, and the entries from before.
  accept-entry :
      (i fd : ℕ)
      → ((i ≡ get_shard_idx client_fd)
          × (fd ≡ client_fd)
          × (entry (accept_client s client_fd now) i fd ≡ some s.accepted))
        ⊎ (((i ≡ get_shard_idx client_fd) → fd ≢ client_fd)
            × (entry (accept_client s client_fd now) i fd ≡ entry s i fd))
  accept-entry i fd =
      let k = get_shard_idx client_fd in
      let at_shard =
        ap (λ (f : ℕ → Shard). (f i).connections fd) (accept-parts s client_fd now).2 in
      elim (put-cases s.shards k (filled s client_fd now) i) [
        | inl (same, at) ↦
            elim (put-cases (s.shards k).connections client_fd (some s.accepted) fd) [
              | inl (here, new) ↦
                  inl (same, here, at_shard ∙ ap (λ (x : Shard). x.connections fd) at ∙ new)
              | inr (other, old) ↦ inr (
                λ e. other,
                at_shard
                    ∙ ap (λ (x : Shard). x.connections fd) at
                    ∙ old
                    ∙ ap (λ j. (s.shards j).connections fd) (sym same),
              )
            ]
        | inr (other, at) ↦
            inr (λ e. absurd (other e), at_shard ∙ ap (λ (x : Shard). x.connections fd) at)
      ]

  accept-heap :
      (i fd limit : ℕ)
      → has_timer fd limit (s.shards i).timer_heap ≡ true
      → has_timer fd limit ((accept_client s client_fd now).shards i).timer_heap ≡ true
  accept-heap i fd limit h =
      let k = get_shard_idx client_fd in
      ap (λ (f : ℕ → Shard). has_timer fd limit (f i).timer_heap) (accept-parts s client_fd now).2
      ∙ elim (put-cases s.shards k (filled s client_fd now) i) [
        | inl (same, at) ↦
            ap (λ (x : Shard). has_timer fd limit x.timer_heap) at
            ∙ timer-cons fd limit _ (s.shards k).timer_heap
                (ap (λ j. has_timer fd limit (s.shards j).timer_heap) (sym same) ∙ h)
        | inr (other, at) ↦ ap (λ (x : Shard). has_timer fd limit x.timer_heap) at ∙ h
      ]

  accept-conn : (j : ℕ) → j < s.accepted → (accept_client s client_fd now).conns j ≡ s.conns j
  accept-conn j l =
      ap (λ (f : ℕ → Connection). f j) (accept-parts s client_fd now).1
      ∙ elim (put-cases s.conns s.accepted (made client_fd now) j) [
        | inl (same, at) ↦ absurd (omega arith)
        | inr (other, at) ↦ at
      ]

  accept-erasing : (j : ℕ) → (accept_client s client_fd now).erasing j ≡ s.erasing j
  unfolding accept_client
  accept-erasing j = refl

  accept-new : (accept_client s client_fd now).conns s.accepted ≡ made client_fd now
  accept-new =
      ap (λ (f : ℕ → Connection). f s.accepted) (accept-parts s client_fd now).1
      ∙ elim (put-cases s.conns s.accepted (made client_fd now) s.accepted) [
        | inl (same, at) ↦ at
        | inr (other, at) ↦ absurd (other refl)
      ]

  accept-timer :
      (i fd : ℕ)
      → i ≡ get_shard_idx client_fd
      → fd ≡ client_fd
      → has_timer fd
          (expected_expiry ((accept_client s client_fd now).conns s.accepted))
          ((accept_client s client_fd now).shards i).timer_heap
        ≡ true
  unfolding expected_expiry
  accept-timer i fd same here =
      let k = get_shard_idx client_fd in
      let active =
        ap (λ (x : Connection). x.last_activity + connection_timeout) accept-new
        ∙ ap (λ n. n + connection_timeout) (made-lem client_fd now).2 in
      ap (λ limit. has_timer fd limit ((accept_client s client_fd now).shards i).timer_heap) active
      ∙ ap (λ (f : ℕ → Shard). has_timer fd (now + connection_timeout) (f i).timer_heap)
          (accept-parts s client_fd now).2
      ∙ elim (put-cases s.shards k (filled s client_fd now) i) [
        | inl (e, at) ↦
            ap (λ (x : Shard). has_timer fd (now + connection_timeout) x.timer_heap) at
            ∙ ap (λ d. has_timer d (now + connection_timeout) (filled s client_fd now).timer_heap)
                here
            ∙ timer-head client_fd (now + connection_timeout) (s.shards k).timer_heap
        | inr (other, at) ↦ absurd (other same)
      ]

  pub accept_client-IsTable :
      IsUnused s client_fd → IsTable [] s → IsTable [] (accept_client s client_fd now)
  unfolding IsUnused
  accept_client-IsTable unused h = record {
    listed = λ conn l o. elim (dec_lt conn s.accepted) [
      | yes old ↦
          let c = accept-conn conn old in
          let f = (s.conns conn).fd in
          let was_open = ap (λ (x : Connection). x.closed) (sym c) ∙ o in
          rw c (elim (accept-entry (get_shard_idx f) f) [
            | inl (same, here, new) ↦ absurd (unused conn old (inl was_open) here)
            | inr (other, still) ↦ still ∙ h.listed conn old was_open
          ])
      | no new ↦
          let e : conn ≡ s.accepted = omega (arith, (accept-parts s client_fd now).0) in
          let f = ap (λ (x : Connection). x.fd) accept-new ∙ (made-lem client_fd now).0 in
          let first : entry (accept_client s client_fd now) (get_shard_idx client_fd) client_fd
              ≡ some s.accepted =
            elim (accept-entry (get_shard_idx client_fd) client_fd) [
              | inl (same, here, new_one) ↦ new_one
              | inr (other, still) ↦ absurd (other refl refl)
            ] in
          subst
            (λ j.
              entry (accept_client s client_fd now)
                (get_shard_idx ((accept_client s client_fd now).conns j).fd)
                ((accept_client s client_fd now).conns j).fd
              ≡ some j)
            (sym e) (ap (λ d. entry (accept_client s client_fd now) (get_shard_idx d) d) f ∙ first)
    ];
    owns = λ i fd conn e. elim (accept-entry i fd) [
      | inl (same, here, new) ↦
          let j : s.accepted ≡ conn = some_inj (sym new ∙ e) in
          subst (λ d. Owns (accept_client s client_fd now) i fd d) j
            (record {
              accepted = omega (arith, (accept-parts s client_fd now).0);
              closing = λ o.
                  cc (o, ap (λ (x : Connection). x.closed) accept-new, (made-lem client_fd now).1);
              at_fd =
                  ap (λ (x : Connection). x.fd) accept-new ∙ (made-lem client_fd now).0 ∙ sym here;
              shard = same ∙ ap get_shard_idx (sym here);
            })
      | inr (other, old) ↦
          let w = h.owns i fd conn (sym old ∙ e) in
          let c = accept-conn conn w.accepted in
          record {
            accepted = omega (arith, w.accepted, (accept-parts s client_fd now).0);
            closing = λ o.
                accept-erasing conn ∙ w.closing (ap (λ (x : Connection). x.closed) (sym c) ∙ o);
            at_fd = ap (λ (x : Connection). x.fd) c ∙ w.at_fd;
            shard = w.shard;
          }
    ];
    timed = λ i fd conn e o n. elim (accept-entry i fd) [
      | inl (same, here, new) ↦
          let j : s.accepted ≡ conn = some_inj (sym new ∙ e) in
          subst
            (λ d.
              has_timer fd (expected_expiry ((accept_client s client_fd now).conns d))
                ((accept_client s client_fd now).shards i).timer_heap
              ≡ true)
            j (accept-timer i fd same here)
      | inr (other, old) ↦
          let w = h.owns i fd conn (sym old ∙ e) in
          let c = accept-conn conn w.accepted in
          ap
            (λ (x : Connection).
              has_timer fd (expected_expiry x)
                ((accept_client s client_fd now).shards i).timer_heap)
            c
          ∙ accept-heap i fd (expected_expiry (s.conns conn))
              (h.timed i fd conn (sym old ∙ e) (ap (λ (x : Connection). x.closed) (sym c) ∙ o) n)
    ];
    erased = λ conn b.
        let w = h.erased conn (sym (accept-erasing conn) ∙ b) in
        let c = accept-conn conn w.accepted in
        let f = (s.conns conn).fd in
        record {
          accepted = omega (arith, w.accepted, (accept-parts s client_fd now).0);
          shut = ap (λ (x : Connection). x.closed) c ∙ w.shut;
          own = rw c (elim (accept-entry (get_shard_idx f) f) [
            | inl (same, here, new) ↦
                absurd (unused conn w.accepted (inr (sym (accept-erasing conn) ∙ b)) here)
            | inr (other, still) ↦ still ∙ w.own
          ]);
        };
  }
