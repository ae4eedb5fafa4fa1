-- ===== src/Server/Sweep/Heap.antt =====
-- The loop over one heap in `check_timeouts` (v4/webserver.cpp).
use tcp_server_client_cpp.Base.{
  ℕ, zero, suc, ◌+◌, ◌≤◌, ◌<◌, ◌≡◌, refl, sym, ap, subst, ◌∙◌, ◌⊎◌, inl, inr, Bool, true, false,
  ◌&&◌, ◌||◌, Option, none, some, List, [], ◌∷◌, ◌++◌, arith, ltb, leb, ◌==◌, if◌then◌else◌, ltb→lt,
  ltb→le, ==_iff, Bool-cases, Option-cases, length, or_true,
}
use tcp_server_client_cpp.Conn.{Connection}
use tcp_server_client_cpp.Server.{TimerEvent}
use tcp_server_client_cpp.Server.Sweep.{earliest, Swept, expected_expiry, visit, sweep}

-- How many entries are of now or before.
unfoldable pub due : ℕ → List TimerEvent → ℕ
due now [] = 0
due now (e ∷ es) = (if ltb now e.expires_at then 0 else 1) + due now es

-- Whether there is an entry for `fd` that comes up by `limit`.
unfoldable pub has_timer : ℕ → ℕ → List TimerEvent → Bool
has_timer fd limit [] = false
has_timer fd limit (e ∷ es) = (e.fd == fd && leb e.expires_at limit) || has_timer fd limit es

unfoldable pub contains_conn : ℕ → List ℕ → Bool
contains_conn conn [] = false
contains_conn conn (c ∷ cs) = c == conn || contains_conn conn cs

pub contains-append :
    (conn : ℕ) (xs ys : List ℕ)
    → contains_conn conn (xs ++ ys) ≡ contains_conn conn xs || contains_conn conn ys
unfolding contains_conn
contains-append conn [] ys = refl
contains-append conn (x ∷ xs) ys = ground (arith, contains-append conn xs ys)

pub due-le : (now : ℕ) (es : List TimerEvent) → due now es ≤ length es
unfolding due
due-le now [] = omega arith
due-le now (e ∷ es) = ground (arith, due-le now es)

-- Taking the top off loses no entry, and the top is the least.
due-earliest :
    (now : ℕ) (e : TimerEvent) (es : List TimerEvent)
    → due now ((earliest e es).0 ∷ (earliest e es).1) ≡ due now (e ∷ es)
unfolding due earliest
due-earliest now e [] = refl
due-earliest now e (f ∷ fs) = ground (arith, due-earliest now f fs)

has_timer-earliest :
    (fd limit : ℕ) (e : TimerEvent) (es : List TimerEvent)
    → has_timer fd limit ((earliest e es).0 ∷ (earliest e es).1) ≡ has_timer fd limit (e ∷ es)
unfolding has_timer earliest
has_timer-earliest fd limit e [] = refl
has_timer-earliest fd limit e (f ∷ fs) = ground (arith, has_timer-earliest fd limit f fs)

due-none :
    (now : ℕ) (e : TimerEvent) (es : List TimerEvent)
    → now < (earliest e es).0.expires_at
    → (due now (e ∷ es) ≡ 0) × ((earliest e es).0.expires_at ≤ e.expires_at)
unfolding due earliest
due-none now e [] h = ground arith
due-none now e (f ∷ fs) h = ground (arith, due-none now f fs)

has_timer-due :
    (now fd limit : ℕ) (es : List TimerEvent)
    → has_timer fd limit es ≡ true
    → limit ≤ now
    → 1 ≤ due now es
unfolding has_timer due
has_timer-due now fd limit [] h l = cc h
has_timer-due now fd limit (e ∷ es) h l = ground (arith, has_timer-due now fd limit es)

due-top :
    (now : ℕ) (e : TimerEvent) (es : List TimerEvent)
    → ltb now e.expires_at ≡ false
    → due now (e ∷ es) ≡ suc (due now es)
unfolding due
due-top now e es h = rw h (omega arith)

module _ (conns : ℕ → Connection) (connections : ℕ → Option ℕ) (now : ℕ) where
  -- What the loop promises for a connection that the shard's table has at `fd` and that has an entry by `limit`,
  -- the time at which it is to expire.
  abbrev pub Promise : ℕ → ℕ → ℕ → Swept → Type 0
  Promise fd conn limit out =
      (limit ≤ now → contains_conn conn out.timed_out ≡ true)
      × (now < limit → has_timer fd limit out.heap ≡ true)

  abbrev put_back : TimerEvent → ℕ → TimerEvent
  put_back e conn = record { expires_at = expected_expiry (conns conn); fd = e.fd }

  visit-none :
      (e : TimerEvent) (es : List TimerEvent)
      → connections e.fd ≡ none
      → visit conns connections now e es ≡ (es, [])
  unfolding visit
  visit-none e es n = rw (n, visit) refl

  visit-later :
      (e : TimerEvent) (es : List TimerEvent) (conn : ℕ)
      → connections e.fd ≡ some conn
      → ltb now (expected_expiry (conns conn)) ≡ true
      → visit conns connections now e es ≡ (put_back e conn ∷ es, [])
  unfolding visit
  visit-later e es conn at later = rw (at, visit, later) refl

  visit-past :
      (e : TimerEvent) (es : List TimerEvent) (conn : ℕ)
      → connections e.fd ≡ some conn
      → ltb now (expected_expiry (conns conn)) ≡ false
      → visit conns connections now e es ≡ (es, conn ∷ [])
  unfolding visit
  visit-past e es conn at past = rw (at, visit, past) refl

  visit-due :
      (e : TimerEvent) (es : List TimerEvent)
      → due now (visit conns connections now e es).0 ≡ due now es
  unfolding due
  visit-due e es = elim (Option-cases (connections e.fd)) [
    | inl n ↦ rw (visit-none e es n) refl
    | inr (c, at) ↦ elim (Bool-cases (ltb now (expected_expiry (conns c)))) [
      | inl later ↦ rw (visit-later e es c at later) (ground arith)
      | inr past ↦ rw (visit-past e es c at past) refl
    ]
  ]

  visit-keeps :
      (e : TimerEvent) (es : List TimerEvent) (fd limit : ℕ)
      → has_timer fd limit es ≡ true
      → has_timer fd limit (visit conns connections now e es).0 ≡ true
  unfolding has_timer
  visit-keeps e es fd limit h = elim (Option-cases (connections e.fd)) [
    | inl n ↦ rw (visit-none e es n) h
    | inr (c, at) ↦ elim (Bool-cases (ltb now (expected_expiry (conns c)))) [
      | inl later ↦ rw (visit-later e es c at later) (ground arith)
      | inr past ↦ rw (visit-past e es c at past) h
    ]
  ]

  -- The entry that is popped for a connection is put back, or the connection has timed out.
  visit-own :
      (e : TimerEvent) (es : List TimerEvent) (conn : ℕ)
      → connections e.fd ≡ some conn
      → (has_timer e.fd (expected_expiry (conns conn)) (visit conns connections now e es).0 ≡ true)
        ⊎ ((expected_expiry (conns conn) ≤ now)
            × (contains_conn conn (visit conns connections now e es).1 ≡ true))
  unfolding has_timer contains_conn
  visit-own e es conn at = elim (Bool-cases (ltb now (expected_expiry (conns conn)))) [
    | inl later ↦ inl (rw (visit-later e es conn at later) (ground arith))
    | inr past ↦ inr (ltb→le _ _ past, rw (visit-past e es conn at past) (ground arith))
  ]

  visit-Promise :
      (e : TimerEvent) (es : List TimerEvent) (fd conn : ℕ)
      → connections fd ≡ some conn
      → has_timer fd (expected_expiry (conns conn)) (e ∷ es) ≡ true
      → (has_timer fd (expected_expiry (conns conn)) (visit conns connections now e es).0 ≡ true)
        ⊎ ((expected_expiry (conns conn) ≤ now)
            × (contains_conn conn (visit conns connections now e es).1 ≡ true))
  unfolding has_timer
  visit-Promise e es fd conn at h = elim (Bool-cases (e.fd == fd)) [
    | inl same ↦
        let eq : e.fd ≡ fd = (==_iff e.fd fd).0 same in
        subst
          (λ d.
            (has_timer d (expected_expiry (conns conn)) (visit conns connections now e es).0 ≡ true)
            ⊎ ((expected_expiry (conns conn) ≤ now)
                × (contains_conn conn (visit conns connections now e es).1 ≡ true)))
          eq (visit-own e es conn (ap connections eq ∙ at))
    | inr other ↦ inl (visit-keeps e es fd _ (rw other at h))
  ]

  pub sweep-Promise :
      (fuel : ℕ) (heap : List TimerEvent) (fd conn : ℕ)
      → due now heap < fuel
      → connections fd ≡ some conn
      → has_timer fd (expected_expiry (conns conn)) heap ≡ true
      → Promise fd conn (expected_expiry (conns conn)) (sweep conns connections now fuel heap)
  unfolding sweep
  sweep-Promise zero heap fd conn h at t = absurd (omega arith)
  sweep-Promise (suc fuel) [] fd conn h at t = unfold has_timer in cc t
  sweep-Promise (suc fuel) (e ∷ es) fd conn h at t =
      let top = (earliest e es).0 in
      let rest = (earliest e es).1 in
      elim (Bool-cases (ltb now top.expires_at)) [
        | inl future ↦
            let none_due = (due-none now e es (ltb→lt _ _ future)).0 in
            rw future (
              λ past. absurd (omega (arith, none_due, has_timer-due now fd _ (e ∷ es) t past)),
              λ later. t,
            )
        | inr now_due ↦
            let out = (visit conns connections now top rest).1 in
            let more =
              (sweep conns connections now fuel
                (visit conns connections now top rest).0).timed_out in
            let counted : due now (e ∷ es) ≡ suc (due now rest) =
              sym (due-earliest now e es) ∙ due-top now top rest now_due in
            let enough : due now (visit conns connections now top rest).0 < fuel =
              omega (arith, visit-due top rest, counted) in
            rw now_due
              (elim (visit-Promise top rest fd conn at (has_timer-earliest fd _ e es ∙ t)) [
                | inl still ↦
                    let ih =
                      sweep-Promise fuel (visit conns connections now top rest).0 fd conn enough at
                        still in
                    (λ past. contains-append conn out more ∙ rw (ih.0 past) (or_true _), ih.1)
                | inr (past, found) ↦ (
                  λ p. contains-append conn out more ∙ rw found refl,
                  λ later. absurd (omega arith),
                )
              ])
      ]

  visit-idle :
      (e : TimerEvent) (es : List TimerEvent) (conn : ℕ)
      → contains_conn conn (visit conns connections now e es).1 ≡ true
      → (fd : ℕ) × (connections fd ≡ some conn) × (expected_expiry (conns conn) ≤ now)
  unfolding contains_conn
  visit-idle e es conn h = elim (Option-cases (connections e.fd)) [
    | inl n ↦ cc (rw (visit-none e es n) at h)
    | inr (c, at) ↦ elim (Bool-cases (ltb now (expected_expiry (conns c)))) [
      | inl later ↦ cc (rw (visit-later e es c at later) at h)
      | inr past ↦ elim (Bool-cases (c == conn)) [
        | inl same ↦
            let e_c : c ≡ conn = (==_iff c conn).0 same in
            (e.fd, at ∙ ap some e_c, rw (sym e_c) (ltb→le now (expected_expiry (conns c)) past))
        | inr other ↦ cc (rw (visit-past e es c at past, other) at h)
      ]
    ]
  ]

  -- Only connections that have been idle too long time out.
  pub sweep-idle :
      (fuel : ℕ) (heap : List TimerEvent) (conn : ℕ)
      → contains_conn conn (sweep conns connections now fuel heap).timed_out ≡ true
      → (fd : ℕ) × (connections fd ≡ some conn) × (expected_expiry (conns conn) ≤ now)
  unfolding sweep
  sweep-idle zero heap conn h = unfold contains_conn in cc h
  sweep-idle (suc fuel) [] conn h = unfold contains_conn in cc h
  sweep-idle (suc fuel) (e ∷ es) conn h =
      let top = (earliest e es).0 in
      let rest = (earliest e es).1 in
      let out = (visit conns connections now top rest).1 in
      let later = sweep conns connections now fuel (visit conns connections now top rest).0 in
      elim (Bool-cases (ltb now top.expires_at)) [
        | inl future ↦ unfold contains_conn in cc (rw future at h)
        | inr now_due ↦ elim (Bool-cases (contains_conn conn out)) [
          | inl found ↦ visit-idle top rest conn found
          | inr no_more ↦
              sweep-idle fuel (visit conns connections now top rest).0 conn
                (rw no_more at (sym (contains-append conn out later.timed_out) ∙ (rw now_due at h)))
        ]
      ]
