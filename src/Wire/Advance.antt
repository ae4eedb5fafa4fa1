-- ===== src/Wire/Advance.antt =====
-- The packet queue under `WebServer::attempt_write` (v4/webserver.cpp): what `gather`, `pop_sent` and `advance`
-- do to the bytes that are still to be sent.
use tcp_server_client_cpp.Base.{
  ℕ, zero, suc, ◌+◌, ◌-◌, ◌^◌, ◌≤◌, ◌<◌, min, ◌≡◌, refl, sym, ap, ◌∙◌, ◌≢◌, ◌⊎◌, inl, inr, true,
  false, List, [], ◌∷◌, ◌++◌, append_assoc, arith, ltb, leb, if◌then◌else◌, ltb→lt, ltb→le,
  Bool-cases, length, take, drop, flatten, length-append, length-take, length-drop, drop_all,
  take-append_left, drop-append_left, drop-append_right, drop-drop, take-min, size_mod, add_size,
  sub_size,
}
use tcp_server_client_cpp.Conn.{OutgoingPacket}
use tcp_server_client_cpp.Wire.{gather, rest_of, is_nil, pop_sent, advance, iov_limit, taken}

-- The bytes still to be sent, in order.
abbrev pub unsent : List OutgoingPacket → List ℕ
unsent [] = []
unsent (p ∷ q) = rest_of p ++ unsent q

-- No packet is sent beyond its end, and each fits a `std::vector`.
abbrev pub IsQueue : List OutgoingPacket → Type 0
IsQueue [] = Unit {0}
IsQueue (p ∷ q) = (p.sent_offset ≤ length p.payload) × (length p.payload < 2 ^ 63) × IsQueue q

pub length-rest : (p : OutgoingPacket) → length (rest_of p) ≡ length p.payload - p.sent_offset
length-rest p = length-drop p.sent_offset p.payload

-- The bytes behind those that `gather` offers.
later : ℕ → List OutgoingPacket → List ℕ
later n [] = []
later zero (p ∷ q) = unsent (p ∷ q)
later (suc n) (p ∷ q) =
    let next = later n q in
    let skip = later (suc n) q in if ltb p.sent_offset (length p.payload) then next else skip

gather-later : (n : ℕ) (q : List OutgoingPacket) → flatten (gather n q) ++ later n q ≡ unsent q
unfolding gather later
gather-later n [] = refl
gather-later zero (p ∷ q) = refl
gather-later (suc n) (p ∷ q) = elim (Bool-cases (ltb p.sent_offset (length p.payload))) [
  | inl e ↦ rw e (
      append_assoc (rest_of p) (flatten (gather n q)) (later n q)
      ∙ ap (λ t. rest_of p ++ t) (gather-later n q))
  | inr e ↦
      let none_left : rest_of p ≡ [] = drop_all p.sent_offset p.payload (ltb→le _ _ e) in
      rw (e, none_left) (gather-later (suc n) q)
]

-- If nothing is offered, nothing is left to send.
gather-nil : (n : ℕ) (q : List OutgoingPacket) → gather (suc n) q ≡ [] → unsent q ≡ []
unfolding gather
gather-nil n [] h = refl
gather-nil n (p ∷ q) h = elim (Bool-cases (ltb p.sent_offset (length p.payload))) [
  | inl e ↦ cc (rw (e, gather) at h)
  | inr e ↦
      rw (drop_all p.sent_offset p.payload (ltb→le _ _ e)) (gather-nil n q (rw (e, gather) at h))
]

gather-offers :
    (n : ℕ) (q : List OutgoingPacket)
    → is_nil (gather n q) ≡ false
    → 0 < length (flatten (gather n q))
unfolding gather is_nil
gather-offers n [] h = cc
gather-offers zero (p ∷ q) h = cc
gather-offers (suc n) (p ∷ q) h = elim (Bool-cases (ltb p.sent_offset (length p.payload))) [
  | inl e ↦
      rw e (
        omega
          (arith, ltb→lt _ _ e, length-append (rest_of p) (flatten (gather n q)), length-rest p))
  | inr e ↦ rw e (gather-offers (suc n) q (rw (e, gather) at h))
]

pub is_nil-cases {ℓ} :
    {A : Type ℓ} (xs : List A) → ((is_nil xs ≡ true) × (xs ≡ [])) ⊎ (is_nil xs ≡ false)
unfolding is_nil
is_nil-cases [] = inl (refl, refl)
is_nil-cases (x ∷ xs) = inr refl

append-eq-nil : (xs ys : List ℕ) → xs ++ ys ≡ [] → ys ≡ []
append-eq-nil [] ys h = h
append-eq-nil (x ∷ xs) ys h = cc

-- What the kernel takes is the front of the bytes to be sent, and `advance` leaves the others.
pub advance-unsent :
    (n : ℕ) (q : List OutgoingPacket)
    → IsQueue q
    → n < size_mod
    → unsent (advance n q).1 ≡ drop n (unsent q)
unfolding advance
advance-unsent n [] v h = sym (drop_all n [] (omega arith))
advance-unsent n (p ∷ q) v h = elim (Bool-cases (ltb 0 n)) [
  | inr nothing ↦ let z : n ≡ 0 = omega (arith, ltb→le _ _ nothing) in rw (nothing, z)
  | inl something ↦
      let remaining : sub_size (length p.payload) p.sent_offset ≡ length (rest_of p) =
        omega (arith, length-rest p) in
      elim (Bool-cases (leb (length (rest_of p)) n)) [
        | inl whole ↦
            let le : length (rest_of p) ≤ n = ground arith in
            let left : sub_size n (length (rest_of p)) ≡ n - length (rest_of p) = omega arith in
            rw (something, remaining, whole, left)
              (advance-unsent (n - length (rest_of p)) q v.2 (omega arith)
                ∙ sym (drop-append_right n (rest_of p) (unsent q) le))
        | inr part ↦
            let lt : n < length (rest_of p) = ground arith in
            let moved : add_size p.sent_offset n ≡ p.sent_offset + n =
              omega (arith, length-rest p) in
            rw (something, remaining, part, moved)
              (ap (λ t. t ++ unsent q) (sym (drop-drop n p.sent_offset p.payload))
                ∙ sym (drop-append_left n (rest_of p) (unsent q) (omega arith)))
      ]
]

pub advance-IsQueue : (n : ℕ) (q : List OutgoingPacket) → IsQueue q → IsQueue (advance n q).1
unfolding advance
advance-IsQueue n [] v = tt
advance-IsQueue n (p ∷ q) v =
    ground (arith, advance-IsQueue (sub_size n (sub_size (length p.payload) p.sent_offset)) q v.2)

pub pop_sent-unsent : (q : List OutgoingPacket) → unsent (pop_sent q) ≡ unsent q
unfolding pop_sent is_nil
pop_sent-unsent [] = refl
pop_sent-unsent (p ∷ q) = elim (is_nil-cases (gather iov_limit (p ∷ q))) [
  | inl (e, none_offered) ↦
      let all_sent : unsent (p ∷ q) ≡ [] = gather-nil 63 (p ∷ q) none_offered in
      rw e (pop_sent-unsent q ∙ append-eq-nil (rest_of p) (unsent q) all_sent ∙ sym all_sent)
  | inr e ↦ rw e
]

-- What is left in the queue after `pop_sent` offers at least one byte.
pub pop_sent-offers :
    (q : List OutgoingPacket)
    → IsQueue q
    → pop_sent q ≢ []
    → 0 < length (flatten (gather iov_limit (pop_sent q)))
unfolding pop_sent
pop_sent-offers [] v h = absurd (h refl)
pop_sent-offers (p ∷ q) v h = elim (is_nil-cases (gather iov_limit (p ∷ q))) [
  | inl (e, none_offered) ↦ rw (e, pop_sent) (pop_sent-offers q v.2 (rw (e, pop_sent) at h))
  | inr e ↦ rw (e, pop_sent) (gather-offers iov_limit (p ∷ q) e)
]

pub pop_sent-IsQueue : (q : List OutgoingPacket) → IsQueue q → IsQueue (pop_sent q)
unfolding pop_sent is_nil
pop_sent-IsQueue [] v = tt
pop_sent-IsQueue (p ∷ q) v = ground (arith, pop_sent-IsQueue q v.2)

-- Of the bytes to be sent, the kernel takes the front part.
pub taken-take :
    (q : List OutgoingPacket) (n : ℕ) → taken q n ≡ take (length (taken q n)) (unsent q)
unfolding taken
taken-take q n =
    let offered : List ℕ = flatten (gather iov_limit q) in
    let k : length (take n offered) ≡ min (length offered) n =
      omega (arith, length-take n offered) in
    sym (
      ap (take (length (take n offered))) (sym (gather-later iov_limit q))
      ∙ take-append_left (length (take n offered)) offered (later iov_limit q) (omega arith)
      ∙ ap (λ m. take m offered) k
      ∙ take-min n offered)

pub length-taken : (q : List OutgoingPacket) (n : ℕ) → length (taken q n) ≤ length (unsent q)
unfolding taken
length-taken q n = omega (
  arith,
  length-take n (flatten (gather iov_limit q)),
  length-append (flatten (gather iov_limit q)) (later iov_limit q),
  ap length (gather-later iov_limit q),
)

-- It takes at least one byte if there is one, unless it answers 0.
pub length-taken_pos :
    (q : List OutgoingPacket) (n : ℕ)
    → 0 < length (flatten (gather iov_limit q))
    → 0 < length (taken q (suc n))
unfolding taken
length-taken_pos q n h = omega (arith, length-take (suc n) (flatten (gather iov_limit q)))
