-- ===== src/ThreadPool.antt =====
-- The thread pool of v4/threadpool.cpp. Each method is one step under `queue_mtx_`; a worker's loop is cut where it holds
-- no lock: before the test of `running_`, inside the wait, and while it runs a task.
pub mod Order
pub mod Tests
use tcp_server_client_cpp.Base.{
  ℕ, zero, suc, ◌+◌, ◌-◌, ◌*◌, ◌/◌, ◌%◌, ◌^◌, ◌≤◌, ◌<◌, min, max, String, ◌≡◌, refl, sym, ap, ap₂,
  subst, ◌∙◌, ◌≡⟨◌⟩◌, ◌∎, ◌≢◌, ◌↔◌, ◌⊎◌, inl, inr, Bool, true, false, not, ◌&&◌, ◌||◌, Option, none,
  some, List, [], ◌∷◌, ◌++◌, map, append-nil, append_assoc, arith, ltb, leb, ◌==◌, if◌then◌else◌,
  lt→ltb, le→ltb, ltb→lt, ltb→le, ==_iff, ==_refl, ==_ne, Bool-cases, Option-cases, if_true,
  if_false, or_true, or_false, length, get_or, take, drop, replicate, flatten, flatten-append,
  length-append, length-take, length-drop, length-replicate, take-append-drop, take_all, drop_all,
  take-append_left, drop-append_left, drop-append_right, drop-drop, take-append, drop-append,
  get_or-append, get_or-append_left, get_or-take, get_or-drop, take-take, drop-take, take-min,
  drop-min, drop-min_le, eq-nil, list_ext, size_mod, u32_mod, add_size, sub_size, add_u32,
  sub_size_lem, add_size_lem, put, put-cases,
}
use tcp_server_client_cpp.Wire.{is_nil}

-- Where a worker stands.
pub data Place (T : Type 0) : Type 0 where
  at_loop waiting returned : Place T
  runs_task : T → Place T

-- `task_queue_`, `running_` and the workers; `taken` are the tasks that workers have taken off, in order.
pub record ThreadPool (T : Type 0) : Type 0 where
  pub task_queue : List T
  pub running : Bool
  pub workers : ℕ → Place T
  pub taken : List T

module _ {T : Type 0} where
  unfoldable pub new_pool : ThreadPool T
  new_pool = record { task_queue = []; running = true; workers = λ w. at_loop; taken = [] }

  unfoldable pub push_task : ThreadPool T → T → ThreadPool T
  push_task p task = record p { task_queue = p.task_queue ++ (task ∷ []) }

  -- The loop over the batch.
  unfoldable pub push_batch : ThreadPool T → List T → ThreadPool T
  unfolding push_task
  push_batch p [] = p
  push_batch p (task ∷ tasks) = push_batch (push_task p task) tasks

  -- `shutdown`, but for joining the workers.
  unfoldable pub shutdown : ThreadPool T → ThreadPool T
  shutdown p = record p { running = false }

  abbrev pub stand : ThreadPool T → ℕ → Place T → ThreadPool T
  stand p w place = record p { workers = put ◌==◌ p.workers w place }

  -- Behind the wait: its condition holds, or the worker waits on.
  unfoldable pub take_task : ThreadPool T → ℕ → List T → ThreadPool T
  unfolding put
  take_task p w [] = if p.running then p else stand p w returned
  take_task p w (task ∷ tasks) = record (stand p w (runs_task task)) {
    task_queue = tasks;
    taken = p.taken ++ (task ∷ []);
  }

  -- What a worker does next.
  unfoldable pub worker_loop : ThreadPool T → ℕ → ThreadPool T
  unfolding put
  worker_loop p w = elim (p.workers w) [
    | at_loop ↦ if p.running then stand p w waiting else stand p w returned
    | waiting ↦ take_task p w p.task_queue
    | returned ↦ p
    | runs_task task ↦ stand p w at_loop
  ]

-- What may happen next, on any thread.
pub data PoolEvent (T : Type 0) : Type 0 where
  pushes_task : T → PoolEvent T
  pushes_batch : List T → PoolEvent T
  shuts_down : PoolEvent T
  works_on : ℕ → PoolEvent T

module _ {T : Type 0} where
  unfoldable pub pool_step : ThreadPool T → PoolEvent T → ThreadPool T
  pool_step p (pushes_task task) = push_task p task
  pool_step p (pushes_batch tasks) = push_batch p tasks
  pool_step p shuts_down = shutdown p
  pool_step p (works_on w) = worker_loop p w

  abbrev pub run_pool : ThreadPool T → List (PoolEvent T) → ThreadPool T
  run_pool p [] = p
  run_pool p (e ∷ es) = run_pool (pool_step p e) es
