-- ===== src/Wire/Outcome.antt =====
-- How `WebServer::attempt_write` (v4/webserver.cpp) ends: that it does, and what that says of the queue and of the
-- pause of reading.
use tcp_server_client_cpp.Base.{
  ℕ, zero, suc, ◌≤◌, ◌<◌, ◌≡◌, refl, sym, ap, ◌∙◌, ◌≢◌, inl, inr, Bool, false, List, [], ◌∷◌, arith,
  length, length-append,
}
use tcp_server_client_cpp.Conn.{Connection}
use tcp_server_client_cpp.Wire.{
  WriteResult, wrote, would_block, failed, Exit, drained, unanswered, taken, returned, account,
  pop_sent, is_nil, resume_reading, write_loop, attempt_write,
}
use tcp_server_client_cpp.Wire.Advance.{
  unsent, pop_sent-unsent, pop_sent-offers, length-taken, length-taken_pos, is_nil-cases,
}
use tcp_server_client_cpp.Wire.Loop.{
  IsSending, trim, trim-IsSending, account-IsSending, account-stream,
}

-- What the end of the loop says of the queue and of `is_reading_paused`, which was `paused` at its start.
abbrev pub Ends : Bool → Exit → Connection → Type 0
Ends paused drained c = (c.outgoing_queue ≡ []) × (c.is_reading_paused ≡ false)
Ends paused _ c = (c.outgoing_queue ≢ []) × (c.is_reading_paused ≡ paused)

resume-Ends :
    (c : Connection)
    → c.pending_bytes ≡ 0
    → c.outgoing_queue ≡ []
    → Ends c.is_reading_paused drained (resume_reading c)
unfolding resume_reading
resume-Ends c e n = ground arith

drained-Ends :
    {c : Connection}
    → IsSending c
    → pop_sent c.outgoing_queue ≡ []
    → Ends c.is_reading_paused drained
        (resume_reading (record c { outgoing_queue = pop_sent c.outgoing_queue }))
drained-Ends {c} v e =
    resume-Ends (record c { outgoing_queue = pop_sent c.outgoing_queue })
      (v.pending ∙ ap length (sym (pop_sent-unsent c.outgoing_queue) ∙ ap unsent e)) e

not_nil {ℓ} : {A : Type ℓ} (xs : List A) → is_nil xs ≡ false → xs ≢ []
unfolding is_nil
not_nil [] h e = cc
not_nil (x ∷ xs) h e = cc

write_loop-Ends :
    (c : Connection) (answers : List WriteResult)
    → IsSending c
    → Ends c.is_reading_paused (write_loop c answers).exit (write_loop c answers).conn
unfolding write_loop account
write_loop-Ends c [] v = elim (is_nil-cases (pop_sent c.outgoing_queue)) [
  | inl (e, n) ↦ rw e (drained-Ends v n)
  | inr e ↦ rw e (not_nil _ e, refl)
]
write_loop-Ends c (wrote zero ∷ answers) v = elim (is_nil-cases (pop_sent c.outgoing_queue)) [
  | inl (e, n) ↦ rw e (drained-Ends v n)
  | inr e ↦ rw e (write_loop-Ends (trim c) answers (trim-IsSending v))
]
write_loop-Ends c (wrote (suc n) ∷ answers) v = elim (is_nil-cases (pop_sent c.outgoing_queue)) [
  | inl (e, m) ↦ rw e (drained-Ends v m)
  | inr e ↦ rw e (
      write_loop-Ends (account (trim c) (returned (pop_sent c.outgoing_queue) (suc n))) answers
        (account-IsSending (suc n) (trim-IsSending v)))
]
write_loop-Ends c (would_block ∷ answers) v = elim (is_nil-cases (pop_sent c.outgoing_queue)) [
  | inl (e, n) ↦ rw e (drained-Ends v n)
  | inr e ↦ rw e (not_nil _ e, refl)
]
write_loop-Ends c (failed ∷ answers) v = elim (is_nil-cases (pop_sent c.outgoing_queue)) [
  | inl (e, n) ↦ rw e (drained-Ends v n)
  | inr e ↦ rw e (not_nil _ e, refl)
]

-- If something is queued and the queue agrees with the byte count, `attempt_write` either empties the queue
-- and clears the pause of reading, or leaves packets queued and the pause as it was.
pub attempt_write-Ends :
    (c : Connection) (answers : List WriteResult)
    → IsSending c
    → c.outgoing_queue ≢ []
    → Ends c.is_reading_paused (attempt_write c answers).exit (attempt_write c answers).conn
unfolding attempt_write
attempt_write-Ends c answers v h = elim (is_nil-cases c.outgoing_queue) [
  | inl (_, n) ↦ absurd (h n)
  | inr e ↦ rw e (write_loop-Ends c answers v)
]

-- No answer of the kernel is 0.
abbrev pub NoZero : List WriteResult → Type 0
NoZero [] = Unit {0}
NoZero (wrote zero ∷ answers) = ⊥
NoZero (_ ∷ answers) = NoZero answers

one_taken :
    {c : Connection}
    → IsSending c
    → is_nil (pop_sent c.outgoing_queue) ≡ false
    → 0 < length (taken (pop_sent c.outgoing_queue) 1)
one_taken {c} v e =
    length-taken_pos (pop_sent c.outgoing_queue) 0
      (pop_sent-offers c.outgoing_queue v.queue (not_nil _ e))

fewer-left :
    {c : Connection} (n : ℕ) {k : ℕ}
    → IsSending c
    → is_nil (pop_sent c.outgoing_queue) ≡ false
    → length (unsent c.outgoing_queue) ≤ suc k
    → length
        (unsent (account (trim c) (returned (pop_sent c.outgoing_queue) (suc n))).outgoing_queue)
      ≤ k
fewer-left {c} n v e h = omega (
  arith,
  length-taken_pos (pop_sent c.outgoing_queue) n
      (pop_sent-offers c.outgoing_queue v.queue (not_nil _ e)),
  ap length (account-stream (suc n) (trim-IsSending v)),
  ap length (pop_sent-unsent c.outgoing_queue),
  length-append (taken (pop_sent c.outgoing_queue) (suc n))
      (unsent (account (trim c) (returned (pop_sent c.outgoing_queue) (suc n))).outgoing_queue),
)

write_loop-ends :
    (c : Connection) (answers : List WriteResult)
    → IsSending c
    → NoZero answers
    → length (unsent c.outgoing_queue) ≤ length answers
    → (write_loop c answers).exit ≢ unanswered
unfolding write_loop
write_loop-ends c [] v z h = elim (is_nil-cases (pop_sent c.outgoing_queue)) [
  | inl (e, _) ↦ rw e (λ x. cc)
  | inr e ↦ absurd (
      omega (
        arith,
        one_taken v e,
        length-taken (pop_sent c.outgoing_queue) 1,
        h,
        ap length (pop_sent-unsent c.outgoing_queue),
      ))
]
write_loop-ends c (wrote zero ∷ answers) v z h = absurd z
write_loop-ends c (wrote (suc n) ∷ answers) v z h =
    elim (is_nil-cases (pop_sent c.outgoing_queue)) [
      | inl (e, _) ↦ rw e (λ x. cc)
      | inr e ↦ rw e (
          write_loop-ends (account (trim c) (returned (pop_sent c.outgoing_queue) (suc n))) answers
            (account-IsSending (suc n) (trim-IsSending v)) z (fewer-left n v e h))
    ]
write_loop-ends c (would_block ∷ answers) v z h = elim (is_nil-cases (pop_sent c.outgoing_queue)) [
  | inl (e, _) ↦ rw e (λ x. cc)
  | inr e ↦ rw e (λ x. cc)
]
write_loop-ends c (failed ∷ answers) v z h = elim (is_nil-cases (pop_sent c.outgoing_queue)) [
  | inl (e, _) ↦ rw e (λ x. cc)
  | inr e ↦ rw e (λ x. cc)
]

-- If the send queue and the byte count agree, no answer of the kernel is 0, and there are at least as many
-- answers as queued bytes, `attempt_write` returns before it needs another answer.
pub attempt_write-returns :
    (c : Connection) (answers : List WriteResult)
    → IsSending c
    → NoZero answers
    → length (unsent c.outgoing_queue) ≤ length answers
    → (attempt_write c answers).exit ≢ unanswered
unfolding attempt_write
attempt_write-returns c answers v z h = elim (is_nil-cases c.outgoing_queue) [
  | inl (e, _) ↦ rw e (λ x. cc)
  | inr e ↦ rw e (write_loop-ends c answers v z h)
]
