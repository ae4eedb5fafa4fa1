-- ===== src/Wire/Frame.antt =====
-- What `attempt_write` of v4/webserver.cpp leaves alone in a connection: all but the queue, the byte count and the
-- pause of reading.
use tcp_server_client_cpp.Base.{
  ℕ, zero, suc, ◌≡◌, refl, ◌∙◌, inl, inr, false, ◌&&◌, List, [], ◌∷◌, leb, Bool-cases,
}
use tcp_server_client_cpp.Conn.{Connection}
use tcp_server_client_cpp.Wire.{
  WriteResult, wrote, would_block, failed, is_nil, pop_sent, account, returned, resume_reading,
  write_loop, attempt_write, low_water_mark,
}

-- The rest of the connection.
abbrev pub frame : Connection → Connection
frame c = record c { outgoing_queue = []; pending_bytes = 0; is_reading_paused = false }

resume-frame : (c : Connection) → frame (resume_reading c) ≡ frame c
unfolding resume_reading
resume-frame c = elim (Bool-cases (c.is_reading_paused && leb c.pending_bytes low_water_mark)) [
  | inl e ↦ rw e refl
  | inr e ↦ rw e refl
]

account-frame : (c : Connection) (n : ℕ) → frame (account c n) ≡ frame c
unfolding account
account-frame c n = refl

write_loop-frame :
    (c : Connection) (answers : List WriteResult) → frame (write_loop c answers).conn ≡ frame c
unfolding write_loop
write_loop-frame c [] = elim (Bool-cases (is_nil (pop_sent c.outgoing_queue))) [
  | inl e ↦ rw e (resume-frame _)
  | inr e ↦ rw e refl
]
write_loop-frame c (wrote zero ∷ answers) = elim (Bool-cases (is_nil (pop_sent c.outgoing_queue))) [
  | inl e ↦ rw e (resume-frame _)
  | inr e ↦
      rw e (write_loop-frame (record c { outgoing_queue = pop_sent c.outgoing_queue }) answers)
]
write_loop-frame c (wrote (suc n) ∷ answers) =
    elim (Bool-cases (is_nil (pop_sent c.outgoing_queue))) [
      | inl e ↦ rw e (resume-frame _)
      | inr e ↦
          let c1 = record c { outgoing_queue = pop_sent c.outgoing_queue } in
          let sent = returned c1.outgoing_queue (suc n) in
          rw e (write_loop-frame (account c1 sent) answers ∙ account-frame c1 sent)
    ]
write_loop-frame c (would_block ∷ answers) =
    elim (Bool-cases (is_nil (pop_sent c.outgoing_queue))) [
      | inl e ↦ rw e (resume-frame _)
      | inr e ↦ rw e refl
    ]
write_loop-frame c (failed ∷ answers) = elim (Bool-cases (is_nil (pop_sent c.outgoing_queue))) [
  | inl e ↦ rw e (resume-frame _)
  | inr e ↦ rw e refl
]

pub attempt_write-frame :
    (c : Connection) (answers : List WriteResult) → frame (attempt_write c answers).conn ≡ frame c
unfolding attempt_write
attempt_write-frame c answers = elim (Bool-cases (is_nil c.outgoing_queue)) [
  | inl e ↦ rw e refl
  | inr e ↦ rw e (write_loop-frame c answers)
]
