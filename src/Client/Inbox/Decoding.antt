-- ===== src/Client/Inbox/Decoding.antt =====
-- The decoding loop of v4/client.cpp beside that of the server, where the payloads are serialized messages.
use tcp_server_client_cpp.Base.{
  ℕ, zero, suc, ◌≡◌, refl, sym, ap, ap₂, ◌∙◌, inl, inr, none, some, List, [], ◌∷◌, map,
  Option-cases, get_or, drop,
}
use tcp_server_client_cpp.Ring.{Ring}
use tcp_server_client_cpp.Codec.{Protobuf, decode, decode_message}
use tcp_server_client_cpp.Codec.Frame.{decode_message-some}
use tcp_server_client_cpp.Receive.{decode_all}
use tcp_server_client_cpp.Receive.Drain.{decode_all-none, decode_all-some}
use tcp_server_client_cpp.Client.Inbox.{Incoming, decode_messages}

no_images : {A B : Type 0} (f : A → B) (ms : List A) → [] ≡ map f ms → ms ≡ []
no_images f [] e = refl
no_images f (m ∷ ms) e = cc e

module _ {M : Type 0} (view : M → Incoming) (p : Protobuf M) where
  decode_messages-none :
      (fuel : ℕ) (r : Ring)
      → (decode r).0 ≡ none
      → decode_messages view p (suc fuel) r ≡ ([], (decode r).1)
  unfolding decode_messages decode_message decode
  decode_messages-none fuel r e = rw (e, decode_messages, decode_message) refl

  decode_messages-some :
      (fuel : ℕ) (r : Ring) (payload : List ℕ) (m : M)
      → (decode r).0 ≡ some payload
      → p.parse payload ≡ some m
      → decode_messages view p (suc fuel) r ≡ (
        m ∷ (decode_messages view p fuel (decode r).1).0,
        (decode_messages view p fuel (decode r).1).1,
      )
  unfolding decode_messages
  decode_messages-some fuel r payload m e f =
      rw (decode_message-some p r e ∙ f, decode_messages) (unfold decode_message in refl)

  decode_messages-first :
      (fuel : ℕ) (r : Ring) (payload : List ℕ) (ms : List M)
      → (decode r).0 ≡ some payload
      → payload ∷ (decode_all fuel (decode r).1).0 ≡ map p.serialize ms
      → ((ns : List M)
          → (decode_all fuel (decode r).1).0 ≡ map p.serialize ns
          → decode_messages view p fuel (decode r).1 ≡ (ns, (decode_all fuel (decode r).1).1))
      → decode_messages view p (suc fuel) r ≡ (ms, (decode_all fuel (decode r).1).1)
  decode_messages-first fuel r payload [] f e later = cc e
  decode_messages-first fuel r payload (m ∷ ms) f e later =
      let head : payload ≡ p.serialize m = ap (λ t. get_or t 0 payload) e in
      decode_messages-some fuel r payload m f (ap p.parse head ∙ p.parse-serialize m)
      ∙ ap (λ (x : List M × Ring). (m ∷ x.0, x.1)) (later ms (ap (drop 1) e))

  -- Where the payloads taken off are serialized messages, the messages are decoded.
  pub decode_messages-all :
      (fuel : ℕ) (r : Ring) (ms : List M)
      → (decode_all fuel r).0 ≡ map p.serialize ms
      → decode_messages view p fuel r ≡ (ms, (decode_all fuel r).1)
  decode_messages-all zero r [] e = unfold decode_messages in unfold decode_all in refl
  decode_messages-all zero r (m ∷ ms) e = unfold decode_all in cc e
  decode_messages-all (suc fuel) r ms e = elim (Option-cases (decode r).0) [
    | inl f ↦
        let none_taken : ms ≡ [] =
          no_images p.serialize ms (sym (ap (λ x. x.0) (decode_all-none fuel r f)) ∙ e) in
        decode_messages-none fuel r f
        ∙ ap₂ (λ a b. (a, b)) (sym none_taken) (sym (ap (λ x. x.1) (decode_all-none fuel r f)))
    | inr (payload, f) ↦
        decode_messages-first fuel r payload ms f
          (sym (ap (λ x. x.0) (decode_all-some fuel r payload f)) ∙ e)
          (decode_messages-all fuel (decode r).1)
        ∙ ap (λ s. (ms, s)) (sym (ap (λ x. x.1) (decode_all-some fuel r payload f)))
  ]
