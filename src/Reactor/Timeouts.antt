-- ===== src/Reactor/Timeouts.antt =====
-- `check_timeouts` (v4/webserver.cpp) and the table of connections.
use tcp_server_client_cpp.Base.{
  ℕ, suc, ◌<◌, ◌≡◌, refl, sym, ap, ◌∙◌, Bool, true, some, List, [], ◌∷◌, arith, ==_refl, length,
  or_true,
}
use tcp_server_client_cpp.Conn.{Connection}
use tcp_server_client_cpp.Server.{Server, Shard, close_conn, num_shards}
use native.Mathlib.Decide.{dec_lt}
use tcp_server_client_cpp.Server.Sweep.{expected_expiry, sweep_shards, close_all, check_timeouts}
use tcp_server_client_cpp.Server.Sweep.Heap.{due-le, has_timer, contains_conn, sweep-Promise}
use tcp_server_client_cpp.Server.Sweep.Shards.{sweep_shards-Sweeps}
use tcp_server_client_cpp.Reactor.Table.{entry, IsTable}
use tcp_server_client_cpp.Reactor.Close.{close-accepted, close-IsTable}

contains-cons :
    (conn c : ℕ) (cs : List ℕ) → contains_conn conn cs ≡ true → contains_conn conn (c ∷ cs) ≡ true
unfolding contains_conn
contains-cons conn c cs h = rw h (or_true _)

contains-head : (c : ℕ) (cs : List ℕ) → contains_conn c (c ∷ cs) ≡ true
unfolding contains_conn
contains-head c cs = rw (==_refl c) refl

-- The sweep of the shards leaves the tables, and takes the last timer only from what has timed out.
sweep_shards-IsTable :
    {s : Server} (now : ℕ)
    → IsTable [] s
    → IsTable (sweep_shards s now num_shards).1 (sweep_shards s now num_shards).0
sweep_shards-IsTable {s} now h =
    let w = sweep_shards-Sweeps s now num_shards in
    let t = (sweep_shards s now num_shards).0 in
    let same : (i fd : ℕ) → entry t i fd ≡ entry s i fd = λ i fd. elim (dec_lt i num_shards) [
      | yes k ↦ ap (λ (x : Shard). x.connections fd) (w.done i k)
      | no k ↦ ap (λ (x : Shard). x.connections fd) (w.ahead i (omega arith))
    ] in
    record {
      listed = λ conn l o.
          let c = ap (λ (f : ℕ → Connection). f conn) w.conns in
          rw c (
            same _ _
            ∙ h.listed conn (rw w.accepted at l) (ap (λ (x : Connection). x.closed) (sym c) ∙ o));
      owns = λ i fd conn e.
          let c = ap (λ (f : ℕ → Connection). f conn) w.conns in
          let was = h.owns i fd conn (sym (same i fd) ∙ e) in
          record {
            accepted = rw w.accepted was.accepted;
            closing = λ o.
                ap (λ (f : ℕ → Bool). f conn) w.erasing
                ∙ was.closing (ap (λ (x : Connection). x.closed) (sym c) ∙ o);
            at_fd = ap (λ (x : Connection). x.fd) c ∙ was.at_fd;
            shard = was.shard;
          };
      timed = λ i fd conn e o n.
          let limit = expected_expiry (s.conns conn) in
          let at : entry s i fd ≡ some conn = sym (same i fd) ∙ e in
          let c = ap (λ (f : ℕ → Connection). f conn) w.conns in
          let was =
            h.timed i fd conn at (ap (λ (x : Connection). x.closed) (sym c) ∙ o)
              (unfold contains_conn in refl) in
          ap
            (λ (f : ℕ → Connection).
              has_timer fd (expected_expiry (f conn)) (t.shards i).timer_heap)
            w.conns
          ∙ elim (dec_lt i num_shards) [
            | yes k ↦
                let p =
                  sweep-Promise s.conns (s.shards i).connections now
                    (suc (length (s.shards i).timer_heap)) (s.shards i).timer_heap fd conn
                    (omega (arith, due-le now (s.shards i).timer_heap)) at was in
                ap (λ (x : Shard). has_timer fd limit x.timer_heap) (w.done i k)
                ∙ elim (dec_lt now limit) [
                  | yes later ↦ p.1 later
                  | no past ↦ cc (n, w.found i conn k (p.0 (omega arith)))
                ]
            | no k ↦
                ap (λ (x : Shard). has_timer fd limit x.timer_heap) (w.ahead i (omega arith)) ∙ was
          ];
      erased = λ conn b.
          let c = ap (λ (f : ℕ → Connection). f conn) w.conns in
          let was = h.erased conn (ap (λ (f : ℕ → Bool). f conn) (sym w.erasing) ∙ b) in
          record {
            accepted = rw w.accepted was.accepted;
            shut = ap (λ (x : Connection). x.closed) c ∙ was.shut;
            own = rw c (same _ _ ∙ was.own);
          };
    }

-- The connections of a list that were accepted.
pub close_all-IsTable :
    (s : Server) (list : List ℕ)
    → ((conn : ℕ) → contains_conn conn list ≡ true → conn < s.accepted)
    → IsTable list s
    → IsTable [] (close_all s list)
unfolding close_all
close_all-IsTable s [] l h = h
close_all-IsTable s (c ∷ cs) l h =
    close_all-IsTable (close_conn s c) cs
      (λ conn k. rw (close-accepted s c) (l conn (contains-cons conn c cs k)))
      (close-IsTable c (l c (contains-head c cs)) h)

pub check_timeouts-IsTable :
    {s : Server} (now : ℕ) → IsTable [] s → IsTable [] (check_timeouts s now)
unfolding check_timeouts
check_timeouts-IsTable {s} now h =
    let w = sweep_shards-Sweeps s now num_shards in
    let t = (sweep_shards s now num_shards).0 in
    close_all-IsTable t (sweep_shards s now num_shards).1
      (λ conn k.
        let (i, fd, at, past) = w.idle conn k in rw w.accepted (h.owns i fd conn at).accepted)
      (sweep_shards-IsTable now h)
