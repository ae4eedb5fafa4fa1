-- ===== src/ThreadPool/Tests.antt =====
-- The theorem on the thread pool (v4/threadpool.cpp) at a small input.
use tcp_server_client_cpp.Base.{ℕ, ◌≡◌, refl, List, [], ◌∷◌, ◌++◌, put}
use tcp_server_client_cpp.ThreadPool.{
  new_pool, push_task, push_batch, shutdown, take_task, worker_loop, pool_step, PoolEvent,
  pushes_batch, shuts_down, works_on, run_pool,
}
use tcp_server_client_cpp.ThreadPool.Order.{pushed_tasks, all_tasks, run_pool-all}

-- One worker takes a task, and the pool is shut down while it runs.
abbrev events : List (PoolEvent ℕ)
events =
    pushes_batch (1 ∷ 2 ∷ [])
    ∷ works_on 0
    ∷ works_on 0
    ∷ shuts_down
    ∷ works_on 0
    ∷ works_on 0
    ∷ works_on 0
    ∷ []

-- The second task is never taken.
events-left : (run_pool new_pool events).task_queue ≡ 2 ∷ []
unfolding pool_step push_batch push_task shutdown worker_loop take_task new_pool put
events-left = refl

run_pool-all_example :
    all_tasks (run_pool new_pool events) ≡ all_tasks new_pool ++ pushed_tasks events
run_pool-all_example = run_pool-all new_pool events
