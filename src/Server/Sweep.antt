-- ===== src/Server/Sweep.antt =====
-- `WebServer::check_timeouts` of v4/webserver.cpp. A heap is a list; `std::priority_queue` gives an entry with the
-- least `expires_at`, here the first such one.
pub mod Heap
pub mod Shards
use tcp_server_client_cpp.Base.{
  ℕ, zero, suc, ◌+◌, ◌-◌, ◌*◌, ◌/◌, ◌%◌, ◌^◌, ◌≤◌, ◌<◌, min, max, String, ◌≡◌, refl, sym, ap, ap₂,
  subst, ◌∙◌, ◌≡⟨◌⟩◌, ◌∎, ◌≢◌, ◌↔◌, ◌⊎◌, inl, inr, Bool, true, false, not, ◌&&◌, ◌||◌, Option, none,
  some, List, [], ◌∷◌, ◌++◌, map, append-nil, append_assoc, arith, ltb, leb, ◌==◌, if◌then◌else◌,
  lt→ltb, le→ltb, ltb→lt, ltb→le, ==_iff, ==_refl, ==_ne, Bool-cases, Option-cases, length, get_or,
  take, drop, replicate, flatten, flatten-append, length-append, length-take, length-drop,
  length-replicate, take-append-drop, take_all, drop_all, take-append_left, drop-append_left,
  drop-append_right, drop-drop, take-append, drop-append, get_or-append, get_or-append_left,
  get_or-take, get_or-drop, take-take, drop-take, take-min, drop-min, drop-min_le, eq-nil, list_ext,
  size_mod, u32_mod, add_size, sub_size, add_u32, sub_size_lem, add_size_lem, put, put-cases,
}
use tcp_server_client_cpp.Conn.{Connection}
use tcp_server_client_cpp.Server.{
  Server, Shard, TimerEvent, connection_timeout, num_shards, close_conn,
}

-- `heap.top()`, and the heap after `heap.pop()`.
unfoldable pub earliest : TimerEvent → List TimerEvent → TimerEvent × List TimerEvent
earliest e [] = (e, [])
earliest e (f ∷ fs) =
    let (top, rest) = earliest f fs in
    if leb e.expires_at top.expires_at then (e, f ∷ fs) else (top, e ∷ rest)

-- What the `while` over one shard's heap leaves.
pub record Swept : Type 0 where
  pub heap : List TimerEvent
  pub timed_out : List ℕ

-- `last_active + std::chrono::seconds(CONNECTION_TIMEOUT_SEC)`.
unfoldable pub expected_expiry : Connection → ℕ
expected_expiry conn = conn.last_activity + connection_timeout

module _ (conns : ℕ → Connection) (connections : ℕ → Option ℕ) (now : ℕ) where
  -- The body behind `heap.pop()`: the heap and the connection that has timed out, if any.
  unfoldable pub visit : TimerEvent → List TimerEvent → List TimerEvent × List ℕ
  unfolding expected_expiry
  visit event heap = elim (connections event.fd) [
    | none ↦ (heap, [])
    | some conn ↦
        if ltb now (expected_expiry (conns conn))
        then (record { expires_at = expected_expiry (conns conn); fd = event.fd } ∷ heap, [])
        else (heap, conn ∷ [])
  ]

  -- The loop. An entry that is put back lies in the future, so the entries of now and before are rounds enough.
  unfoldable pub sweep : ℕ → List TimerEvent → Swept
  unfolding visit
  sweep zero heap = record { heap = heap; timed_out = [] }
  sweep (suc fuel) [] = record { heap = []; timed_out = [] }
  sweep (suc fuel) (e ∷ es) =
      let (event, popped) = earliest e es in
      let (heap, out) = visit event popped in
      let later = sweep fuel heap in
      if ltb now event.expires_at
      then record { heap = e ∷ es; timed_out = [] }
      else record later { timed_out = out ++ later.timed_out }

-- The loop over the first `n` shards.
unfoldable pub sweep_shards : Server → ℕ → ℕ → Server × List ℕ
unfolding put
sweep_shards s now zero = (s, [])
sweep_shards s now (suc i) =
    let (t, out) = sweep_shards s now i in
    let shard = t.shards i in
    let swept =
      sweep t.conns shard.connections now (suc (length shard.timer_heap)) shard.timer_heap in
    let kept : Shard = record shard { timer_heap = swept.heap } in
    (record t { shards = put ◌==◌ t.shards i kept }, out ++ swept.timed_out)

unfoldable pub close_all : Server → List ℕ → Server
close_all s [] = s
close_all s (conn ∷ conns) = close_all (close_conn s conn) conns

unfoldable pub check_timeouts : Server → ℕ → Server
check_timeouts s now = let (t, timed_out) = sweep_shards s now num_shards in close_all t timed_out
