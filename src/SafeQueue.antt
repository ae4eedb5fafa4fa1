-- ===== src/SafeQueue.antt =====
-- `SafeQueue` of v4/safe_queue.h (v3/safe_queue.h is the same file): the queue of network events between the reactor
-- and the chat application. Each method holds the mutex, so it is one step.
pub mod Fifo
pub mod Tests
use tcp_server_client_cpp.Base.{
  ℕ, zero, suc, ◌+◌, ◌-◌, ◌*◌, ◌/◌, ◌%◌, ◌^◌, ◌≤◌, ◌<◌, min, max, String, ◌≡◌, refl, sym, ap, ap₂,
  subst, ◌∙◌, ◌≡⟨◌⟩◌, ◌∎, ◌≢◌, ◌↔◌, ◌⊎◌, inl, inr, Bool, true, false, not, ◌&&◌, ◌||◌, Option, none,
  some, List, [], ◌∷◌, ◌++◌, map, append-nil, append_assoc, arith, ltb, leb, ◌==◌, if◌then◌else◌,
  lt→ltb, le→ltb, ltb→lt, ltb→le, ==_iff, ==_refl, ==_ne, Bool-cases, Option-cases, length, get_or,
  take, drop, replicate, flatten, flatten-append, length-append, length-take, length-drop,
  length-replicate, take-append-drop, take_all, drop_all, take-append_left, drop-append_left,
  drop-append_right, drop-drop, take-append, drop-append, get_or-append, get_or-append_left,
  get_or-take, get_or-drop, take-take, drop-take, take-min, drop-min, drop-min_le, eq-nil, list_ext,
  size_mod, u32_mod, add_size, sub_size, add_u32, sub_size_lem, add_size_lem,
}

-- `queue_` and `finished_`.
pub record SafeQueue {ℓ} (A : Type ℓ) : Type ℓ where
  pub queue : List A
  pub finished : Bool

unfoldable pub new_queue {ℓ} : {A : Type ℓ} → SafeQueue A
new_queue = record { queue = []; finished = false }

unfoldable pub push {ℓ} : {A : Type ℓ} → SafeQueue A → A → SafeQueue A
push q item = record q { queue = q.queue ++ (item ∷ []) }

-- What a call of `pop` comes to: it waits on the condition variable, it returns false, or it returns true and an item.
pub data Popped {ℓ} (A : Type ℓ) : Type ℓ where
  waits finished_empty : Popped A
  popped : A → Popped A

unfoldable pub pop {ℓ} : {A : Type ℓ} → SafeQueue A → Popped A × SafeQueue A
pop q = elim (q.queue) [
  | [] ↦ (if q.finished then finished_empty else waits, q)
  | item ∷ rest ↦ (popped item, record q { queue = rest })
]

unfoldable pub stop {ℓ} : {A : Type ℓ} → SafeQueue A → SafeQueue A
stop q = record q { finished = true }
