-- ===== src/SafeQueue/Fifo.antt =====
-- Any sequence of calls on a `SafeQueue` (v4/safe_queue.h), from whatever threads.
use tcp_server_client_cpp.Base.{
  ◌||◌, or_true, or_false, ◌≡◌, refl, sym, ap, ◌∙◌, Bool, true, false, List, [], ◌∷◌, ◌++◌,
  append-nil, append_assoc,
}
use tcp_server_client_cpp.SafeQueue.{
  SafeQueue, new_queue, push, Popped, finished_empty, popped, pop, stop,
}

pub data Call {ℓ} (A : Type ℓ) : Type ℓ where
  pushes : A → Call A
  pops stops : Call A

-- What a `pop` hands out.
abbrev pub handed_out {ℓ} : {A : Type ℓ} → Popped A → List A
handed_out (popped item) = item ∷ []
handed_out _ = []

unfoldable pub step {ℓ} : {A : Type ℓ} → SafeQueue A → Call A → List A × SafeQueue A
step q (pushes item) = ([], push q item)
step q pops = (let (answer, r) = pop q in (handed_out answer, r))
step q stops = ([], stop q)

-- The items handed out over all the calls, in order.
unfoldable pub run {ℓ} : {A : Type ℓ} → SafeQueue A → List (Call A) → List A × SafeQueue A
run q [] = ([], q)
run q (call ∷ calls) =
    let (out, r) = step q call in let (later, s) = run r calls in (out ++ later, s)

-- The items pushed, in order.
unfoldable pub pushed {ℓ} : {A : Type ℓ} → List (Call A) → List A
pushed [] = []
pushed (pushes item ∷ calls) = item ∷ pushed calls
pushed (pops ∷ calls) = pushed calls
pushed (stops ∷ calls) = pushed calls

-- Whether `stop` is among the calls.
unfoldable pub has_stop {ℓ} : {A : Type ℓ} → List (Call A) → Bool
has_stop [] = false
has_stop (pushes item ∷ calls) = has_stop calls
has_stop (pops ∷ calls) = has_stop calls
has_stop (stops ∷ calls) = true

module _ {ℓ} {A : Type ℓ} where
  abbrev queue_of : List A → Bool → SafeQueue A
  queue_of xs b = record { queue = xs; finished = b }

  pop-items :
      (xs : List A) (b : Bool)
      → handed_out (pop (queue_of xs b)).0 ++ (pop (queue_of xs b)).1.queue ≡ xs
  unfolding pop
  pop-items [] true = refl
  pop-items [] false = refl
  pop-items (x ∷ xs) b = refl

  pop-queue : (q : SafeQueue A) → handed_out (pop q).0 ++ (pop q).1.queue ≡ q.queue
  pop-queue q = pop-items q.queue q.finished

  pop-ended :
      (xs : List A) (b : Bool) → (pop (queue_of xs b)).0 ≡ finished_empty → (xs ≡ []) × (b ≡ true)
  unfolding pop
  pop-ended [] true h = (refl, refl)
  pop-ended [] false h = cc h
  pop-ended (x ∷ xs) b h = cc h

  pop-finished :
      (q : SafeQueue A) → (pop q).0 ≡ finished_empty → (q.queue ≡ []) × (q.finished ≡ true)
  pop-finished q h = pop-ended q.queue q.finished h

  pop-kept : (xs : List A) (b : Bool) → (pop (queue_of xs b)).1.finished ≡ b
  unfolding pop
  pop-kept [] b = refl
  pop-kept (x ∷ xs) b = refl

  pop-flag : (q : SafeQueue A) → (pop q).1.finished ≡ q.finished
  pop-flag q = pop-kept q.queue q.finished

  run-flag :
      (q : SafeQueue A) (calls : List (Call A))
      → (run q calls).1.finished ≡ q.finished || has_stop calls
  unfolding run step has_stop push stop
  run-flag q [] = sym (or_false q.finished)
  run-flag q (pushes item ∷ calls) = run-flag (push q item) calls
  run-flag q (pops ∷ calls) = run-flag (pop q).1 calls ∙ ap (λ b. b || has_stop calls) (pop-flag q)
  run-flag q (stops ∷ calls) = run-flag (stop q) calls ∙ sym (or_true q.finished)

-- Over any sequence of calls, the items handed out and then those in the queue are those that were in the
-- queue and then those pushed, in order.
pub run-fifo {ℓ} :
    {A : Type ℓ} (q : SafeQueue A) (calls : List (Call A))
    → (run q calls).0 ++ (run q calls).1.queue ≡ q.queue ++ pushed calls
unfolding run step pushed push stop
run-fifo q [] = sym (append-nil q.queue)
run-fifo q (pushes item ∷ calls) =
    run-fifo (push q item) calls ∙ append_assoc q.queue (item ∷ []) (pushed calls)
run-fifo q (pops ∷ calls) =
    append_assoc (handed_out (pop q).0) (run (pop q).1 calls).0 (run (pop q).1 calls).1.queue
    ∙ ap (λ t. handed_out (pop q).0 ++ t) (run-fifo (pop q).1 calls)
    ∙ sym (append_assoc (handed_out (pop q).0) (pop q).1.queue (pushed calls))
    ∙ ap (λ t. t ++ pushed calls) (pop-queue q)
run-fifo q (stops ∷ calls) = run-fifo (stop q) calls

-- If `pop` on a queue that started empty returns false, every item pushed has been handed out, in order, and
-- `stop` has been called.
pub pop-drained {ℓ} :
    {A : Type ℓ} (calls : List (Call A))
    → (pop (run new_queue calls).1).0 ≡ finished_empty
    → ((run new_queue calls).0 ≡ pushed calls) × (has_stop calls ≡ true)
unfolding new_queue
pop-drained calls h =
    let q = run new_queue calls in
    let ended = pop-finished q.1 h in
    (
      sym (append-nil q.0) ∙ ap (λ t. q.0 ++ t) (sym ended.0) ∙ run-fifo new_queue calls,
      sym (run-flag new_queue calls) ∙ ended.1,
    )
