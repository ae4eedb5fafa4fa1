-- ===== src/Chat/Limit.antt =====
-- The rate limit of `ChatApp::HandleMessage` (v4/chatapp.h) over the messages of one connection.
use tcp_server_client_cpp.Base.{
  ℕ, suc, ◌+◌, ◌*◌, ◌≤◌, ◌≡◌, inl, inr, List, [], ◌∷◌, arith, if◌then◌else◌, Bool-cases,
}
use tcp_server_client_cpp.Chat.{
  ChatSession, one_token, max_tokens, new_session, refill, spend, rate_limit,
}

-- The times of the messages, in order.
abbrev pub IsOrdered : ℕ → List ℕ → Type 0
IsOrdered t [] = Unit {0}
IsOrdered t (now ∷ times) = (t ≤ now) × IsOrdered now times

-- How many of the messages are let through, and the session behind them.
unfoldable pub let_through : ChatSession → List ℕ → ℕ × ChatSession
let_through s [] = (0, s)
let_through s (now ∷ times) =
    let (passes, t) = rate_limit s now in
    let (n, u) = let_through t times in (if passes then suc n else n, u)

rate_limit-spent :
    (s : ChatSession) (now : ℕ)
    → s.last_refill ≤ now
    → let (passes, t) = rate_limit s now in
      (t.last_refill ≡ now)
      × ((if passes then one_token else 0) + t.tokens + s.last_refill ≤ s.tokens + now)
unfolding rate_limit refill spend
rate_limit-spent s now h = ground arith

let_through-spent :
    (s : ChatSession) (times : List ℕ)
    → IsOrdered s.last_refill times
    → let (n, t) = let_through s times in
      n * one_token + t.tokens + s.last_refill ≤ s.tokens + t.last_refill
unfolding let_through
let_through-spent s [] h = omega arith
let_through-spent s (now ∷ times) h =
    let one = rate_limit-spent s now h.0 in
    let t = (rate_limit s now).1 in
    let ih = let_through-spent t times (rw one.0 h.1) in
    elim (Bool-cases (rate_limit s now).0) [
      | inl e ↦ rw e (omega (arith, ih, one.0, rw e at one.1))
      | inr e ↦ rw e (omega (arith, ih, one.0, rw e at one.1))
    ]

-- Of the messages of a new session, at times in order, the rate limit lets through at most 60 and one more for
-- each second between the start and the last message.
pub let_through-bound :
    (start : ℕ) (times : List ℕ)
    → IsOrdered start times
    → let (n, t) = let_through (new_session start) times in
      n * one_token + start ≤ max_tokens + t.last_refill
unfolding new_session
let_through-bound start times h =
    let e = let_through-spent (new_session start) times h in omega arith
