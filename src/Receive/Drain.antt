-- ===== src/Receive/Drain.antt =====
-- The decoding loop of `WebServer::handle_read` (v4/webserver.cpp) on a ring that starts with whole packets.
use tcp_server_client_cpp.Base.{
  ℕ, zero, suc, ◌+◌, ◌≤◌, ◌<◌, ◌≡◌, refl, ap, subst, ◌∙◌, none, some, List, [], ◌∷◌, ◌++◌,
  append_assoc, arith, length, length-append,
}
use tcp_server_client_cpp.Ring.{Ring}
use tcp_server_client_cpp.Ring.Inv.{IsValid, contents}
use tcp_server_client_cpp.Codec.{decode, max_payload}
use tcp_server_client_cpp.Codec.Frame.{need_more, packet, front, frame, front-frame, length-frame}
use tcp_server_client_cpp.Codec.Decode.{Decodes, decode_refines}
use tcp_server_client_cpp.Codec.Stream.{frames, AllFit}
use tcp_server_client_cpp.Receive.{decode_all}

pub decode_all-none :
    (fuel : ℕ) (r : Ring) → (decode r).0 ≡ none → decode_all (suc fuel) r ≡ ([], (decode r).1)
unfolding decode_all
decode_all-none fuel r e = rw (e, decode_all)

pub decode_all-some :
    (fuel : ℕ) (r : Ring) (payload : List ℕ)
    → (decode r).0 ≡ some payload
    → decode_all (suc fuel) r
      ≡ (payload ∷ (decode_all fuel (decode r).1).0, (decode_all fuel (decode r).1).1)
unfolding decode_all
decode_all-some fuel r payload e = rw (e, decode_all)

-- What the loop leaves, started at `r` with the packets `ps` and then `part`.
pub record Drained (r : Ring) (ps : List (List ℕ)) (part : List ℕ) (out : List (List ℕ) × Ring)
    : Type 0 where
  pub messages : out.0 ≡ ps
  pub kept : contents out.1 ≡ part
  pub valid : IsValid out.1
  pub capacity : length out.1.buf ≡ length r.buf

-- The loop takes off exactly the whole packets, and stops at the part.
pub decode_all-Drained :
    (fuel : ℕ) (ps : List (List ℕ)) (part : List ℕ) {r : Ring}
    → IsValid r
    → contents r ≡ frames ps ++ part
    → AllFit (4 + max_payload) ps
    → front part ≡ need_more
    → length ps < fuel
    → Drained r ps part (decode_all fuel r)
decode_all-Drained zero ps part v e f w h = absurd (omega arith)
decode_all-Drained (suc fuel) [] part {r} v e f w h =
    let d : Decodes r need_more (decode r) =
      subst (λ t. Decodes r t (decode r)) (ap front e ∙ w) (decode_refines v) in
    rw (decode_all-none fuel r d.0) (record {
      messages = refl;
      kept = ap contents d.1 ∙ e;
      valid = rw d.1 v;
      capacity = ap (λ s. length s.buf) d.1;
    })
decode_all-Drained (suc fuel) (p ∷ ps) part {r} v e f w h =
    let at_front : front (contents r) ≡ packet p (frames ps ++ part) =
      ap front (e ∙ append_assoc (frame p) (frames ps) part)
      ∙ front-frame p (frames ps ++ part) (omega arith) in
    let d : Decodes r (packet p (frames ps ++ part)) (decode r) =
      subst (λ t. Decodes r t (decode r)) at_front (decode_refines v) in
    let later = decode_all-Drained fuel ps part {r = (decode r).1} d.2 d.1 f.1 w (omega arith) in
    rw (decode_all-some fuel r p d.0) (record {
      messages = ap (λ t. p ∷ t) later.messages;
      kept = later.kept;
      valid = later.valid;
      capacity = later.capacity ∙ d.3;
    })

-- A packet takes four bytes at least.
pub length-frames : (ps : List (List ℕ)) → length ps ≤ length (frames ps)
length-frames [] = omega arith
length-frames (p ∷ ps) =
    omega (arith, length-frames ps, length-append (frame p) (frames ps), length-frame p)
