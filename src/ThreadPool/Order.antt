-- ===== src/ThreadPool/Order.antt =====
-- Every task that the thread pool (v4/threadpool.cpp) is given is taken once, in order, or still waits.
use tcp_server_client_cpp.Base.{
  ℕ, ◌≡◌, refl, sym, ap, ◌∙◌, Bool, true, false, List, [], ◌∷◌, ◌++◌, append-nil, append_assoc,
  if◌then◌else◌,
}
use tcp_server_client_cpp.ThreadPool.{
  Place, at_loop, waiting, returned, runs_task, ThreadPool, push_task, push_batch, shutdown, stand,
  take_task, worker_loop, PoolEvent, pushes_task, pushes_batch, shuts_down, works_on, pool_step,
  run_pool,
}

-- The tasks that the events hand over.
abbrev pub pushed_tasks : {T : Type 0} → List (PoolEvent T) → List T
pushed_tasks [] = []
pushed_tasks (pushes_task task ∷ es) = task ∷ pushed_tasks es
pushed_tasks (pushes_batch tasks ∷ es) = tasks ++ pushed_tasks es
pushed_tasks (shuts_down ∷ es) = pushed_tasks es
pushed_tasks (works_on w ∷ es) = pushed_tasks es

module _ {T : Type 0} where
  abbrev pub all_tasks : ThreadPool T → List T
  all_tasks p = p.taken ++ p.task_queue

  push_task-all :
      (p : ThreadPool T) (task : T) → all_tasks (push_task p task) ≡ all_tasks p ++ (task ∷ [])
  unfolding push_task
  push_task-all p task = sym (append_assoc p.taken p.task_queue (task ∷ []))

  push_batch-all :
      (p : ThreadPool T) (tasks : List T) → all_tasks (push_batch p tasks) ≡ all_tasks p ++ tasks
  unfolding push_batch
  push_batch-all p [] = sym (append-nil (all_tasks p))
  push_batch-all p (task ∷ tasks) =
      push_batch-all (push_task p task) tasks
      ∙ ap (λ t. t ++ tasks) (push_task-all p task)
      ∙ append_assoc (all_tasks p) (task ∷ []) tasks

  all_tasks-if :
      (p : ThreadPool T) (b : Bool) (x y : ThreadPool T)
      → all_tasks x ≡ all_tasks p
      → all_tasks y ≡ all_tasks p
      → all_tasks (if b then x else y) ≡ all_tasks p
  all_tasks-if p true x y h k = h
  all_tasks-if p false x y h k = k

  take_task-all :
      (p : ThreadPool T) (w : ℕ) (queue : List T)
      → p.task_queue ≡ queue
      → all_tasks (take_task p w queue) ≡ all_tasks p
  unfolding take_task
  take_task-all p w [] e = all_tasks-if p p.running p (stand p w returned) refl refl
  take_task-all p w (task ∷ tasks) e =
      append_assoc p.taken (task ∷ []) tasks ∙ ap (λ t. p.taken ++ t) (sym e)

  worker_loop-all : (p : ThreadPool T) (w : ℕ) → all_tasks (worker_loop p w) ≡ all_tasks p
  unfolding worker_loop
  worker_loop-all p w = at (p.workers w)
    where
      at :
          (place : Place T)
          → all_tasks (elim place [
            | at_loop ↦ if p.running then stand p w waiting else stand p w returned
            | waiting ↦ take_task p w p.task_queue
            | returned ↦ p
            | runs_task task ↦ stand p w at_loop
          ])
            ≡ all_tasks p
      at at_loop = all_tasks-if p p.running (stand p w waiting) (stand p w returned) refl refl
      at waiting = take_task-all p w p.task_queue refl
      at returned = refl
      at (runs_task task) = refl

  -- Over any sequence of pushes, batches, shutdowns and steps of workers, the tasks that workers have taken,
  -- in order, and then those that wait are those that were taken and waited before and then those pushed, in
  -- order.
  pub run_pool-all :
      (p : ThreadPool T) (events : List (PoolEvent T))
      → all_tasks (run_pool p events) ≡ all_tasks p ++ pushed_tasks events
  unfolding pool_step
  run_pool-all p [] = sym (append-nil (all_tasks p))
  run_pool-all p (pushes_task task ∷ es) =
      run_pool-all (push_task p task) es
      ∙ ap (λ t. t ++ pushed_tasks es) (push_task-all p task)
      ∙ append_assoc (all_tasks p) (task ∷ []) (pushed_tasks es)
  run_pool-all p (pushes_batch tasks ∷ es) =
      run_pool-all (push_batch p tasks) es
      ∙ ap (λ t. t ++ pushed_tasks es) (push_batch-all p tasks)
      ∙ append_assoc (all_tasks p) tasks (pushed_tasks es)
  run_pool-all p (shuts_down ∷ es) = run_pool-all (shutdown p) es ∙ (unfold shutdown in refl)
  run_pool-all p (works_on w ∷ es) =
      run_pool-all (worker_loop p w) es ∙ ap (λ t. t ++ pushed_tasks es) (worker_loop-all p w)
