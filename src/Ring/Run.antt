-- ===== src/Ring/Run.antt =====
-- Any sequence of calls on a `RingBuffer` (v4/ringbuffer.h) against a bounded queue of bytes.
use tcp_server_client_cpp.Base.{
  ℕ, ◌-◌, ◌≤◌, min, ◌≡◌, refl, sym, ap, ap₂, ◌∙◌, Bool, List, [], ◌∷◌, ◌++◌, arith, ◌==◌, length,
  take, drop, length-take, drop-min_le,
}
use tcp_server_client_cpp.Ring.{Ring, size, empty, full, write, peek, consume, get_writeable_iovecs}
use tcp_server_client_cpp.Ring.Inv.{IsValid, contents, free_bytes, length-contents}
use tcp_server_client_cpp.Ring.Refine.{write_refines, length-write}
use tcp_server_client_cpp.Ring.Read.{peek_refines, consume_refines}
use tcp_server_client_cpp.Ring.Scatter.{
  Readv, receive, receive_refines, length-receive, total_len, get_writeable_iovecs_bounds,
}

-- A call: `write` and `readv` with the bytes on offer, `peek` and `consume` with a length, and the observers.
pub data Op : Type 0 where
  puts receives : List ℕ → Op
  peeks drops : ℕ → Op
  asks_size asks_empty asks_full : Op

-- What the caller sees of it.
pub data Reply : Type 0 where
  number : ℕ → Reply
  bytes : List ℕ → Reply
  flag : Bool → Reply
  done : Reply

module _ (k : Readv) where
  -- A call on the ring. `readv` reads at most what the regions hold.
  pub step : Ring → Op → Reply × Ring
  step r (puts xs) = let (n, s) = write r xs in (number n, s)
  step r (receives xs) =
      let got = take (total_len (get_writeable_iovecs r)) xs in
      (number (length got), receive k r got)
  step r (peeks n) = (bytes (peek r n), r)
  step r (drops n) = (done, consume r n)
  step r asks_size = (number (size r), r)
  step r asks_empty = (flag (empty r), r)
  step r asks_full = (flag (full r), r)

  pub run : Ring → List Op → List Reply
  run r [] = []
  run r (op ∷ ops) = let (reply, s) = step r op in reply ∷ run s ops

-- The same calls on a queue of at most `limit` bytes.
module _ (limit : ℕ) where
  unfoldable pub queue_step : List ℕ → Op → Reply × List ℕ
  queue_step q (puts xs) =
      (number (min (length xs) (limit - length q)), q ++ take (limit - length q) xs)
  queue_step q (receives xs) =
      (number (min (length xs) (limit - length q)), q ++ take (limit - length q) xs)
  queue_step q (peeks n) = (bytes (take n q), q)
  queue_step q (drops n) = (done, drop n q)
  queue_step q asks_size = (number (length q), q)
  queue_step q asks_empty = (flag (length q == 0), q)
  queue_step q asks_full = (flag (length q == limit), q)

  unfoldable pub queue_run : List ℕ → List Op → List Reply
  queue_run q [] = []
  queue_run q (op ∷ ops) = let (reply, s) = queue_step q op in reply ∷ queue_run s ops

take_receivable :
    (r : Ring) (xs : List ℕ)
    → IsValid r
    → length (take (total_len (get_writeable_iovecs r)) xs) ≤ free_bytes r
take_receivable r xs v =
    omega (
      arith,
      length-take (total_len (get_writeable_iovecs r)) xs,
      (get_writeable_iovecs_bounds v).1,
    )

-- No call changes the capacity.
length-step :
    (k : Readv) {r : Ring} (op : Op) → IsValid r → length (step k r op).1.buf ≡ length r.buf
unfolding step
length-step k (puts xs) v = length-write xs v
length-step k {r} (receives xs) v =
    length-receive k (take (total_len (get_writeable_iovecs r)) xs) v (take_receivable r xs v)
length-step k {r} (drops n) v = unfold consume in refl
length-step k _ v = refl

-- Each call answers as the queue does, leaves the ring holding the queue's bytes, and keeps the invariant.
pub step_refines :
    (k : Readv) {r : Ring} (op : Op)
    → IsValid r
    → ((step k r op).0 ≡ (queue_step (length r.buf) (contents r) op).0)
      × (contents (step k r op).1 ≡ (queue_step (length r.buf) (contents r) op).1)
      × IsValid (step k r op).1
unfolding step queue_step size empty full
step_refines k {r} (puts xs) v =
    let w = write_refines xs v in rw length-contents (ap number w.0, w.1, w.2)
step_refines k {r} (receives xs) v =
    let w =
      receive_refines k (take (total_len (get_writeable_iovecs r)) xs) v (take_receivable r xs v) in
    let all = (get_writeable_iovecs_bounds v).1 in
    rw length-contents (
      ap number (omega (arith, length-take (total_len (get_writeable_iovecs r)) xs, all)),
      w.0 ∙ ap (λ n. contents r ++ take n xs) all,
      w.1,
    )
step_refines k {r} (peeks n) v = (ap bytes (peek_refines n v), refl, v)
step_refines k {r} (drops n) v =
    let c = consume_refines n v in
    (
      refl,
      c.0
          ∙ ap (λ m. drop (min n m) (contents r)) (sym (length-contents r))
          ∙ drop-min_le n (contents r),
      c.1,
    )
step_refines k {r} asks_size v = (ap number (sym (length-contents r)), refl, v)
step_refines k {r} asks_empty v = (ap (λ n. flag (n == 0)) (sym (length-contents r)), refl, v)
step_refines k {r} asks_full v =
    (ap (λ n. flag (n == length r.buf)) (sym (length-contents r)), refl, v)

-- The answers to any sequence of calls on a valid ring are those of a bounded queue of the ring's capacity
-- that starts with the bytes that the ring holds.
pub run_refines :
    (k : Readv) (ops : List Op) {r : Ring}
    → IsValid r
    → run k r ops ≡ queue_run (length r.buf) (contents r) ops
unfolding run queue_run
run_refines k [] v = refl
run_refines k (op ∷ ops) {r} v =
    let (reply, same, valid) = step_refines k op v in
    ap₂ ◌∷◌ reply
      (run_refines k ops valid ∙ ap₂ (λ n q. queue_run n q ops) (length-step k op v) same)
