-- ===== src/Server/Sweep/Shards.antt =====
-- `check_timeouts` (v4/webserver.cpp) over all shards: which connections it closes.
use tcp_server_client_cpp.Base.{
  ℕ, zero, suc, ◌≤◌, ◌<◌, ◌≡◌, refl, sym, ap, ap₂, subst, ◌∙◌, inl, inr, Bool, true, false, ◌||◌,
  some, List, [], ◌∷◌, arith, leb, ◌==◌, ==_iff, Bool-cases, length, put-cases, or_true,
}
use tcp_server_client_cpp.Conn.{Connection}
use tcp_server_client_cpp.Server.{Server, Shard, num_shards, close_conn}
use tcp_server_client_cpp.Server.Announce.{close_conn-closed}
use tcp_server_client_cpp.Server.Sweep.{
  Swept, expected_expiry, sweep, sweep_shards, close_all, check_timeouts,
}
use tcp_server_client_cpp.Server.Sweep.Heap.{
  due-le, has_timer, contains_conn, contains-append, sweep-Promise, sweep-idle,
}

-- Each open connection in the table has a timer that comes up by the time at which it expires.
pub record IsTimed (s : Server) : Type 0 where
  pub timed :
      (i fd conn : ℕ)
      → (s.shards i).connections fd ≡ some conn
      → (s.conns conn).closed ≡ false
      → has_timer fd (expected_expiry (s.conns conn)) (s.shards i).timer_heap ≡ true

-- The sweep of the shard `i` of `s`.
abbrev pub swept : Server → ℕ → ℕ → Swept
swept s now i =
    let shard = s.shards i in
    sweep s.conns shard.connections now (suc (length shard.timer_heap)) shard.timer_heap

-- What the loop over the shards leaves.
pub record Sweeps (s : Server) (now n : ℕ) (out : Server × List ℕ) : Type 0 where
  pub conns : out.0.conns ≡ s.conns
  pub accepted : out.0.accepted ≡ s.accepted
  pub erasing : out.0.erasing ≡ s.erasing
  pub done :
      (i : ℕ) → i < n → out.0.shards i ≡ record (s.shards i) { timer_heap = (swept s now i).heap }
  pub ahead : (i : ℕ) → n ≤ i → out.0.shards i ≡ s.shards i
  pub found :
      (i conn : ℕ)
      → i < n
      → contains_conn conn (swept s now i).timed_out ≡ true
      → contains_conn conn out.1 ≡ true
  pub idle :
      (conn : ℕ)
      → contains_conn conn out.1 ≡ true
      → (i fd : ℕ) × ((s.shards i).connections fd ≡ some conn)
        × (expected_expiry (s.conns conn) ≤ now)

pub sweep_shards-Sweeps : (s : Server) (now n : ℕ) → Sweeps s now n (sweep_shards s now n)
unfolding sweep_shards
sweep_shards-Sweeps s now zero = record {
  conns = refl;
  accepted = refl;
  erasing = refl;
  done = λ i h. absurd (omega arith);
  ahead = λ i h. refl;
  found = λ i conn h. absurd (omega arith);
  idle = λ conn h. unfold contains_conn in cc h;
}
sweep_shards-Sweeps s now (suc n) =
    let ih = sweep_shards-Sweeps s now n in
    let t = (sweep_shards s now n).0 in
    let out = (sweep_shards s now n).1 in
    let here : swept t now n ≡ swept s now n =
      ap₂ (λ c (sh : Shard). sweep c sh.connections now (suc (length sh.timer_heap)) sh.timer_heap)
        ih.conns (ih.ahead n (omega arith)) in
    let kept : Shard = record (t.shards n) { timer_heap = (swept t now n).heap } in
    record {
      conns = ih.conns;
      accepted = ih.accepted;
      erasing = ih.erasing;
      done = λ i h. elim (put-cases t.shards n kept i) [
        | inl (same, e) ↦
            e
            ∙ ap₂ (λ (sh : Shard) (w : Swept). record sh { timer_heap = w.heap })
                (ih.ahead n (omega arith)) here
            ∙ ap (λ j. record (s.shards j) { timer_heap = (swept s now j).heap }) (sym same)
        | inr (other, e) ↦ e ∙ ih.done i (omega arith)
      ];
      ahead = λ i h. elim (put-cases t.shards n kept i) [
        | inl (same, e) ↦ absurd (omega arith)
        | inr (other, e) ↦ e ∙ ih.ahead i (omega arith)
      ];
      found = λ i conn h c.
          contains-append conn out (swept t now n).timed_out ∙ elim (Bool-cases (i == n)) [
            | inl same ↦
                let e : i ≡ n = (==_iff i n).0 same in
                let last : contains_conn conn (swept t now n).timed_out ≡ true =
                  ap (λ (w : Swept). contains_conn conn w.timed_out)
                    (here ∙ ap (swept s now) (sym e))
                  ∙ c in
                rw last (or_true _)
            | inr other ↦ rw (ih.found i conn (ground arith) c) refl
          ];
      idle = λ conn h. elim (Bool-cases (contains_conn conn out)) [
        | inl before ↦ ih.idle conn before
        | inr now_first ↦
            let (fd, at, past) =
              sweep-idle t.conns (t.shards n).connections now (suc (length (t.shards n).timer_heap))
                (t.shards n).timer_heap conn
                (rw now_first at (sym (contains-append conn out (swept t now n).timed_out) ∙ h)) in
            (
              n,
              fd,
              ap (λ (sh : Shard). sh.connections fd) (sym (ih.ahead n (omega arith))) ∙ at,
              subst (λ (c : ℕ → Connection). expected_expiry (c conn) ≤ now) ih.conns past,
            )
      ];
    }

-- What times out is what expires by `now`.
bool_ext : (b c : Bool) → (c ≡ true → b ≡ true) → (b ≡ true → c ≡ true) → b ≡ c
bool_ext true true f g = refl
bool_ext true false f g = cc (g refl)
bool_ext false true f g = cc (f refl)
bool_ext false false f g = refl

close_all-closed :
    (s : Server) (list : List ℕ) (conn : ℕ)
    → ((close_all s list).conns conn).closed ≡ contains_conn conn list || (s.conns conn).closed
unfolding close_all contains_conn
close_all-closed s [] conn = refl
close_all-closed s (c ∷ cs) conn =
    ground (arith, close_all-closed (close_conn s c) cs conn, close_conn-closed s c conn)

pub check_timeouts-closes :
    {s : Server} (now i fd conn : ℕ)
    → IsTimed s
    → i < num_shards
    → (s.shards i).connections fd ≡ some conn
    → (s.conns conn).closed ≡ false
    → ((check_timeouts s now).conns conn).closed
      ≡ leb (expected_expiry (s.conns conn)) now || (s.conns conn).closed
unfolding check_timeouts
check_timeouts-closes {s} now i fd conn timed h at o =
    let w = sweep_shards-Sweeps s now num_shards in
    let out = (sweep_shards s now num_shards).1 in
    let p =
      sweep-Promise s.conns (s.shards i).connections now (suc (length (s.shards i).timer_heap))
        (s.shards i).timer_heap fd conn (omega (arith, due-le now (s.shards i).timer_heap)) at
        (timed.timed i fd conn at o) in
    close_all-closed (sweep_shards s now num_shards).0 out conn
    ∙ ap₂ ◌||◌
        (bool_ext (contains_conn conn out) (leb (expected_expiry (s.conns conn)) now)
          (λ e. w.found i conn h (p.0 (ground arith)))
          (λ e. let past = (w.idle conn e).3 in ground arith))
        (ap (λ (c : ℕ → Connection). (c conn).closed) w.conns)
