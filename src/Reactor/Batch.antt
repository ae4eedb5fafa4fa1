-- ===== src/Reactor/Batch.antt =====
-- A batch of broadcasts (`process_global_queue` of v4/webserver.cpp) over all shards.
use tcp_server_client_cpp.Base.{
  ℕ, zero, suc, ◌<◌, ◌≡◌, refl, sym, ap, ◌∙◌, ◌≢◌, inl, inr, Bool, true, false, ◌&&◌, some, List,
  [], ◌∷◌, ◌++◌, arith, ltb, ◌==◌, if◌then◌else◌, lt→ltb, le→ltb, ==_iff, ==_refl, ==_ne,
  Bool-cases, Option-cases, put,
}
use tcp_server_client_cpp.Ring.Scatter.{Readv}
use tcp_server_client_cpp.Conn.{Connection}
use tcp_server_client_cpp.Send.{Acted, BroadcastEvent, broadcast_to}
use tcp_server_client_cpp.Server.{Server, get_shard_idx, num_shards}
use tcp_server_client_cpp.Reactor.{
  Task, Reactor, World, store, is_listed, each_listed, run_task, batch_tasks, process_global_queue,
  has_events,
}
use tcp_server_client_cpp.Reactor.Identity.{identity, broadcast_to-identity}
use tcp_server_client_cpp.Reactor.Table.{entry, IsTable}
use tcp_server_client_cpp.Reactor.Steps.{Reach, Reach-IsTable, idx-lt}
use tcp_server_client_cpp.Reactor.Handlers.{run_task-IsTable}

store-conns :
    (s : Server) (k : ℕ) (a : Acted) (j : ℕ)
    → (store s k a).conns j ≡ (if j == k then a.conn else s.conns j)
unfolding store put
store-conns s k a j = refl

ltb-suc : (j n : ℕ) → j ≢ n → ltb j (suc n) ≡ ltb j n
ltb-suc j n h = ground arith

-- The loop over a shard calls `act` once on each connection that the shard has.
each_listed-conns :
    (s : Server) (i : ℕ) (act : ℕ → Connection → Acted) (n j : ℕ)
    → (each_listed s i act n).conns j
      ≡ (if ltb j n && is_listed s i j then (act j (s.conns j)).conn else s.conns j)
unfolding each_listed
each_listed-conns s i act zero j = ground arith
each_listed-conns s i act (suc n) j =
    let t = each_listed s i act n in
    let ih = each_listed-conns s i act n j in
    elim (Bool-cases (j == n)) [
      | inl same ↦
          let e : j ≡ n = (==_iff j n).0 same in
          let not_yet : t.conns j ≡ s.conns j = ih ∙ rw (le→ltb j n (omega arith)) refl in
          elim (Bool-cases (is_listed s i n)) [
            | inl l ↦
                let lj : is_listed s i j ≡ true = ap (is_listed s i) e ∙ l in
                rw (l, lt→ltb j (suc n) (omega arith), lj)
                  (store-conns t n (act n (t.conns n)) j
                    ∙ rw same (
                        ap (λ k. (act k (t.conns k)).conn) (sym e)
                        ∙ ap (λ c. (act j c).conn) not_yet))
            | inr l ↦
                let lj : is_listed s i j ≡ false = ap (is_listed s i) e ∙ l in
                rw (l, lt→ltb j (suc n) (omega arith), lj) not_yet
          ]
      | inr other ↦
          let ne : j ≢ n = ground arith in
          elim (Bool-cases (is_listed s i n)) [
            | inl l ↦ rw (l, ltb-suc j n ne) (store-conns t n (act n (t.conns n)) j ∙ rw other ih)
            | inr l ↦ rw (l, ltb-suc j n ne) ih
          ]
    ]

-- The workers run tasks one after another.
unfoldable pub run_tasks : Server → List Task → World → Server
run_tasks s [] w = s
run_tasks s (t ∷ ts) w = run_tasks (run_task s t w) ts w

run_tasks-append :
    (s : Server) (xs ys : List Task) (w : World)
    → run_tasks s (xs ++ ys) w ≡ run_tasks (run_tasks s xs w) ys w
unfolding run_tasks
run_tasks-append s [] ys w = refl
run_tasks-append s (x ∷ xs) ys w = run_tasks-append (run_task s x w) xs ys w

-- In a sound table exactly the shard of its descriptor has an open connection.
is_listed-shard :
    {s : Server} (i conn : ℕ)
    → IsTable [] s
    → conn < s.accepted
    → (s.conns conn).closed ≡ false
    → is_listed s i conn ≡ (i == get_shard_idx (s.conns conn).fd)
unfolding is_listed
is_listed-shard {s} i conn h l o = elim (Bool-cases (i == get_shard_idx (s.conns conn).fd)) [
  | inl e ↦
      let at : entry s i (s.conns conn).fd ≡ some conn =
        ap (λ k. entry s k (s.conns conn).fd) ((==_iff _ _).0 e) ∙ h.listed conn l o in
      rw (at, is_listed, e) (==_refl conn)
  | inr e ↦ elim (Option-cases (entry s i (s.conns conn).fd)) [
    | inl n ↦ rw (n, is_listed, e) refl
    | inr (d, n) ↦ absurd (ground (arith, (h.owns i (s.conns conn).fd d n).shard))
  ]
]

each_listed-accepted :
    (s : Server) (i : ℕ) (act : ℕ → Connection → Acted) (n : ℕ)
    → (each_listed s i act n).accepted ≡ s.accepted
unfolding each_listed store
each_listed-accepted s i act zero = refl
each_listed-accepted s i act (suc n) = elim (Bool-cases (is_listed s i n)) [
  | inl e ↦ rw e (each_listed-accepted s i act n)
  | inr e ↦ rw e (each_listed-accepted s i act n)
]

task-accepted : (s : Server) (t : Task) (w : World) → (run_task s t w).accepted ≡ s.accepted
unfolding run_task
task-accepted s t w = each_listed-accepted s t.shard _ s.accepted

if-identity :
    (b : Bool) (c : Connection) (events : List BroadcastEvent) (w : World) (conn : ℕ)
    → identity (if b then (broadcast_to c events (w.writes conn)).conn else c) ≡ identity c
if-identity true c events w conn = broadcast_to-identity c events (w.writes conn)
if-identity false c events w conn = refl

task-conns :
    {s : Server} (t : Task) (w : World) (conn : ℕ)
    → IsTable [] s
    → conn < s.accepted
    → (s.conns conn).closed ≡ false
    → (run_task s t w).conns conn ≡ (
        if t.shard == get_shard_idx (s.conns conn).fd
        then (broadcast_to (s.conns conn) t.events (w.writes conn)).conn
        else s.conns conn)
unfolding run_task
task-conns {s} t w conn h l o =
    each_listed-conns s t.shard (λ j c. broadcast_to c t.events (w.writes j)) s.accepted conn
    ∙ rw (lt→ltb conn s.accepted l, is_listed-shard t.shard conn h l o) refl

batch-conns :
    {s : Server} (events : List BroadcastEvent) (k : ℕ) (w : World) (conn : ℕ)
    → IsTable [] s
    → conn < s.accepted
    → (s.conns conn).closed ≡ false
    → let t = run_tasks s (batch_tasks events k) w in
      IsTable [] t
      × (t.accepted ≡ s.accepted)
      × (t.conns conn ≡ (
          if ltb (get_shard_idx (s.conns conn).fd) k
          then (broadcast_to (s.conns conn) events (w.writes conn)).conn
          else s.conns conn))
unfolding run_tasks batch_tasks
batch-conns events zero w conn h l o = (h, refl, ground arith)
batch-conns {s} events (suc k) w conn h l o =
    let c = s.conns conn in
    let sent = (broadcast_to c events (w.writes conn)).conn in
    let i = get_shard_idx c.fd in
    let last : Task = record { shard = k; events = events } in
    let t = run_tasks s (batch_tasks events k) w in
    let (sound, counted, at) = batch-conns events k w conn h l o in
    let same : identity (t.conns conn) ≡ identity c =
      ap identity at ∙ if-identity (ltb i k) c events w conn in
    let fd_same : (t.conns conn).fd ≡ c.fd = ap (λ (x : ℕ × Bool × ℕ). x.0) same in
    let o_same : (t.conns conn).closed ≡ false = ap (λ (x : ℕ × Bool × ℕ). x.1) same ∙ o in
    let step = task-conns last w conn sound (rw counted l) o_same in
    let all : run_tasks s (batch_tasks events k ++ (last ∷ [])) w ≡ run_task t last w =
      run_tasks-append s (batch_tasks events k) (last ∷ []) w in
    rw all (
      run_task-IsTable t last w sound,
      task-accepted t last w ∙ counted,
      step
          ∙ rw fd_same (elim (Bool-cases (ltb i k)) [
            | inl before ↦
                let done : t.conns conn ≡ sent = at ∙ rw before refl in
                rw (==_ne k i (ground arith), lt→ltb i (suc k) (ground arith)) done
            | inr not_yet ↦
                let still : t.conns conn ≡ c = at ∙ rw not_yet refl in
                elim (Bool-cases (k == i)) [
                  | inl now ↦
                      rw (now, lt→ltb i (suc k) (ground arith))
                        (ap (λ x. (broadcast_to x events (w.writes conn)).conn) still)
                  | inr later ↦ rw (later, le→ltb i (suc k) (ground arith)) still
                ]
          ]),
    )

-- In a state of the reactor that its steps reach (where `accept` returns descriptors that are not in use and
-- the clock does not go back), with no task waiting and a broadcast in the queue, `process_global_queue`
-- empties the queue, and once the tasks that it makes have run, each open connection is as one call of the
-- per-connection loop on the whole batch leaves it.
pub process_global_queue-delivers :
    {sys : Readv} {r : Reactor} (w : World) (conn : ℕ)
    → Reach sys r
    → r.tasks ≡ []
    → has_events r.global_queue ≡ true
    → conn < r.server.accepted
    → (r.server.conns conn).closed ≡ false
    → let t = process_global_queue r in
      (t.global_queue ≡ [])
      × ((run_tasks t.server t.tasks w).conns conn
          ≡ (broadcast_to (r.server.conns conn) r.global_queue (w.writes conn)).conn)
unfolding process_global_queue
process_global_queue-delivers {r = r} w conn reach idle some_events l o =
    rw (some_events, idle)
      (
        refl,
        (batch-conns r.global_queue num_shards w conn (Reach-IsTable reach) l o).2
            ∙ rw (lt→ltb (get_shard_idx (r.server.conns conn).fd) num_shards (idx-lt _)) refl,
      )
