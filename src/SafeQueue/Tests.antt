-- ===== src/SafeQueue/Tests.antt =====
-- Sequences of calls on a `SafeQueue` (v4/safe_queue.h).
use tcp_server_client_cpp.Base.{ℕ, ◌≡◌, refl, true, List, [], ◌∷◌, ◌++◌}
use tcp_server_client_cpp.SafeQueue.{new_queue, push, finished_empty, pop, stop}
use tcp_server_client_cpp.SafeQueue.Fifo.{
  Call, pushes, pops, stops, step, run, pushed, has_stop, run-fifo, pop-drained,
}

abbrev calls : List (Call ℕ)
calls = pushes 1 ∷ pushes 2 ∷ pops ∷ stops ∷ pops ∷ []

run-fifo_example :
    (run new_queue calls).0 ++ (run new_queue calls).1.queue ≡ new_queue.queue ++ pushed calls
run-fifo_example = run-fifo new_queue calls

calls-finished : (pop (run new_queue calls).1).0 ≡ finished_empty
unfolding run step push pop stop new_queue
calls-finished = refl

pop-drained_example : ((run new_queue calls).0 ≡ pushed calls) × (has_stop calls ≡ true)
pop-drained_example = pop-drained calls calls-finished
