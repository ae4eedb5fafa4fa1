-- ===== src/Send/Registration.antt =====
-- The mask that epoll holds for a connection, read off the calls of `epoll_ctl` (v4/webserver.cpp).
use tcp_server_client_cpp.Base.{
  ℕ, ◌≡◌, refl, sym, ap, ap₂, ◌∙◌, inl, inr, Bool, true, false, not, ◌&&◌, ◌||◌, List, [], ◌∷◌,
  ◌++◌, leb, ◌==◌, ==_refl, if◌then◌else◌, Bool-cases, length,
}
use tcp_server_client_cpp.Conn.{Connection, Events}
use tcp_server_client_cpp.Wire.{WriteResult, is_nil, is_fatal, attempt_write}
use tcp_server_client_cpp.Wire.Frame.{attempt_write-frame}
use tcp_server_client_cpp.Send.{
  EpollCtl, adds, mods, dels, Acted, same_events, update_epoll_events, mod_fd_epoll, enqueue,
  pause_if_high, rearm, write_and_arm, settle, wanted_events, send_pre_encoded, handle_write,
  arm_if_queued, flush_conn, BroadcastEvent, excludes, push_events, deliver, broadcast_to,
  max_outgoing_queue_size, idle,
}
use tcp_server_client_cpp.Send.Update.{pause-flags, update-events, same_events-eq}

-- The mask for a descriptor after these calls: the last that was asked for, or the one from before.
unfoldable pub last_mask : ℕ → Events → List EpollCtl → Events
last_mask fd mask [] = mask
last_mask fd mask (adds g events ∷ ctl) = last_mask fd (if g == fd then events else mask) ctl
last_mask fd mask (mods g events ∷ ctl) = last_mask fd (if g == fd then events else mask) ctl
last_mask fd mask (dels g ∷ ctl) = last_mask fd mask ctl

pub last_mask-append :
    (fd : ℕ) (mask : Events) (xs ys : List EpollCtl)
    → last_mask fd mask (xs ++ ys) ≡ last_mask fd (last_mask fd mask xs) ys
unfolding last_mask
last_mask-append fd mask [] ys = refl
last_mask-append fd mask (adds g e ∷ xs) ys =
    last_mask-append fd (if g == fd then e else mask) xs ys
last_mask-append fd mask (mods g e ∷ xs) ys =
    last_mask-append fd (if g == fd then e else mask) xs ys
last_mask-append fd mask (dels g ∷ xs) ys = last_mask-append fd mask xs ys

-- From `c` to `d`, the calls bring the mask that epoll holds to the one that the connection keeps.
pub record Registers (c d : Connection) (ctl : List EpollCtl) : Type 0 where
  pub mask : last_mask c.fd c.current_epoll_events ctl ≡ d.current_epoll_events
  pub fd : d.fd ≡ c.fd

same-Registers :
    (c d : Connection)
    → d.current_epoll_events ≡ c.current_epoll_events
    → d.fd ≡ c.fd
    → Registers c d []
unfolding last_mask
same-Registers c d e f = record { mask = sym e; fd = f }

Registers-append :
    (c d e : Connection) (xs ys : List EpollCtl)
    → Registers c d xs
    → Registers d e ys
    → Registers c e (xs ++ ys)
Registers-append c d e xs ys h k = record {
  mask =
      last_mask-append c.fd c.current_epoll_events xs ys
      ∙ ap₂ (λ f m. last_mask f m ys) (sym h.fd) h.mask
      ∙ k.mask;
  fd = k.fd ∙ h.fd;
}

-- Behind a change of the connection that leaves its descriptor and its mask.
Registers-behind :
    (c d e : Connection) (ctl : List EpollCtl)
    → d.current_epoll_events ≡ c.current_epoll_events
    → d.fd ≡ c.fd
    → Registers d e ctl
    → Registers c e ctl
Registers-behind c d e ctl m f h = Registers-append c d e [] ctl (same-Registers c d m f) h

Registers-if :
    (c : Connection) (b : Bool) (x y : Acted)
    → Registers c x.conn x.ctl
    → Registers c y.conn y.ctl
    → Registers c (if b then x else y).conn (if b then x else y).ctl
Registers-if c true x y h k = h
Registers-if c false x y h k = k

update-mask :
    (c : Connection) (e : Events)
    → last_mask c.fd c.current_epoll_events (update_epoll_events c e).1 ≡ e
unfolding update_epoll_events mod_fd_epoll last_mask
update-mask c e = elim (Bool-cases (same_events c.current_epoll_events e)) [
  | inl same ↦ rw same (same_events-eq c.current_epoll_events e same)
  | inr new ↦ rw (new, ==_refl c.fd) refl
]

update-Registers :
    (c : Connection) (e : Events)
    → Registers c (update_epoll_events c e).0 (update_epoll_events c e).1
update-Registers c e = record {
  mask =
      update-mask c e ∙ sym (ap (λ (x : Connection). x.current_epoll_events) (update-events c e));
  fd = ap (λ (x : Connection). x.fd) (update-events c e);
}

write-mask :
    (c : Connection) (answers : List WriteResult)
    → (attempt_write c answers).conn.current_epoll_events ≡ c.current_epoll_events
write-mask c answers =
    ap (λ (x : Connection). x.current_epoll_events) (attempt_write-frame c answers)

write-fd : (c : Connection) (answers : List WriteResult) → (attempt_write c answers).conn.fd ≡ c.fd
write-fd c answers = ap (λ (x : Connection). x.fd) (attempt_write-frame c answers)

settle-Registers : (c : Connection) → Registers c (settle c).0 (settle c).1
unfolding settle
settle-Registers c = Registers-behind c _ _ _ refl refl (
    update-Registers (record c { is_write_armed = not (is_nil c.outgoing_queue) })
      (wanted_events c))

arm-Registers : (c : Connection) → Registers c (arm_if_queued c).0 (arm_if_queued c).1
unfolding arm_if_queued
arm-Registers c = elim (Bool-cases (not (is_nil c.outgoing_queue) && not c.is_write_armed)) [
  | inl e ↦
      let u = update-Registers c (record (c.current_epoll_events) { epollout = true }) in
      rw e (record { mask = u.mask; fd = u.fd })
  | inr e ↦ rw e (same-Registers c c refl refl)
]

rearm-same :
    (c : Connection)
    → ((rearm c).0.current_epoll_events ≡ c.current_epoll_events) × ((rearm c).0.fd ≡ c.fd)
unfolding rearm
rearm-same c = elim (Bool-cases (is_nil c.outgoing_queue && c.is_write_armed)) [
  | inl e ↦ rw e (refl, refl)
  | inr e ↦ elim (Bool-cases (not (is_nil c.outgoing_queue) && not c.is_write_armed)) [
    | inl f ↦ rw (e, f) (refl, refl)
    | inr f ↦ rw (e, f) (refl, refl)
  ]
]

write_and_arm-Registers :
    (c : Connection) (answers : List WriteResult)
    → Registers c (write_and_arm c answers).conn (write_and_arm c answers).ctl
unfolding write_and_arm
write_and_arm-Registers c answers =
    let s = (attempt_write c answers).conn in
    let same = rearm-same s in
    Registers-behind c (rearm s).0 _ _ (same.0 ∙ write-mask c answers) (same.1 ∙ write-fd c answers)
      (update-Registers (rearm s).0 (rearm s).1)

arm_behind-Registers :
    (c d : Connection) (answers : List WriteResult)
    → d.current_epoll_events ≡ c.current_epoll_events
    → d.fd ≡ c.fd
    → let s = (attempt_write d answers).conn in Registers c (arm_if_queued s).0 (arm_if_queued s).1
arm_behind-Registers c d answers m f =
    let s = (attempt_write d answers).conn in
    Registers-behind c s _ _ (write-mask d answers ∙ m) (write-fd d answers ∙ f) (arm-Registers s)

pub send_pre_encoded-Registers :
    (c : Connection) (packet : List ℕ) (answers : List WriteResult)
    → let a = send_pre_encoded c packet answers in Registers c a.conn a.ctl
unfolding send_pre_encoded
send_pre_encoded-Registers c packet answers =
    let d = pause_if_high (enqueue c packet) in
    let mask : d.current_epoll_events ≡ c.current_epoll_events =
      ap (λ (x : Connection). x.current_epoll_events) (pause-flags (enqueue c packet))
      ∙ (unfold enqueue in refl) in
    let fd : d.fd ≡ c.fd =
      ap (λ (x : Connection). x.fd) (pause-flags (enqueue c packet)) ∙ (unfold enqueue in refl) in
    Registers-if c c.closed (idle c) _ (same-Registers c c refl refl) (
      Registers-append c _ _ _ _
        (Registers-if c _ _ _ (Registers-behind c d _ _ mask fd (write_and_arm-Registers d answers))
          (same-Registers c d mask fd))
        (settle-Registers _))

pub handle_write-Registers :
    (c : Connection) (answers : List WriteResult)
    → (handle_write c answers).1 ≡ false
    → let a = (handle_write c answers).0 in Registers c a.conn a.ctl
unfolding handle_write
handle_write-Registers c answers h = elim (Bool-cases (is_fatal (attempt_write c answers).exit)) [
  | inl e ↦ cc (rw (e, handle_write) at h)
  | inr e ↦
      let s = (attempt_write c answers).conn in
      let d = record s { is_write_armed = not (is_nil s.outgoing_queue) } in
      let r =
        Registers-behind c d _ _ (write-mask c answers) (write-fd c answers)
          (update-Registers d (wanted_events s)) in
      rw e (record { mask = r.mask; fd = r.fd })
]

pub flush_conn-Registers :
    (c : Connection) (owns_lock : Bool) (answers : List WriteResult)
    → let a = flush_conn c owns_lock answers in Registers c a.conn a.ctl
unfolding flush_conn
flush_conn-Registers c owns_lock answers =
    Registers-if c (c.closed || not owns_lock || is_nil c.outgoing_queue) (idle c) _
      (same-Registers c c refl refl) (arm_behind-Registers c c answers refl refl)

push-same :
    (c : Connection) (es : List BroadcastEvent)
    → let d = (push_events c es).conn in
      (d.current_epoll_events ≡ c.current_epoll_events) × (d.fd ≡ c.fd)
unfolding push_events
push-same c [] = (refl, refl)
push-same c (e ∷ es) = elim (Bool-cases (excludes e c.fd)) [
  | inl f ↦ rw f (push-same c es)
  | inr f ↦ elim (Bool-cases (leb max_outgoing_queue_size (length c.outgoing_queue))) [
    | inl g ↦ rw (f, g) (refl, refl)
    | inr g ↦
        let later = push-same (enqueue c e.payload) es in
        rw (f, g) (later.0 ∙ (unfold enqueue in refl), later.1 ∙ (unfold enqueue in refl))
  ]
]

pub broadcast_to-Registers :
    (c : Connection) (events : List BroadcastEvent) (answers : List WriteResult)
    → let a = broadcast_to c events answers in Registers c a.conn a.ctl
unfolding broadcast_to deliver
broadcast_to-Registers c events answers =
    let p = push_events (record c { has_codec = true }) events in
    let same = push-same (record c { has_codec = true }) events in
    let d = pause_if_high p.conn in
    Registers-if c c.closed (idle c) _ (same-Registers c c refl refl) (
      Registers-if c p.added_any _ (idle p.conn)
        (arm_behind-Registers c d answers
          (ap (λ (x : Connection). x.current_epoll_events) (pause-flags p.conn) ∙ same.0)
          (ap (λ (x : Connection). x.fd) (pause-flags p.conn) ∙ same.1))
        (same-Registers c p.conn same.0 same.1))
