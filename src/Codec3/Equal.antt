-- ===== src/Codec3/Equal.antt =====
-- The two ways in which `LengthPrefixedCodec` (v3/codec.h) encodes, and its decoder beside that of v4/codec.h.
use tcp_server_client_cpp.Base.{
  ℕ, ◌+◌, ◌%◌, ◌≤◌, ◌≡◌, refl, sym, ap, ◌∙◌, inl, inr, List, ◌++◌, arith, ltb, ltb→le, Bool-cases,
  length, drop, replicate, length-drop, length-replicate, u32_mod, add_size, add_u32,
}
use tcp_server_client_cpp.Ring.{Ring, size, peek, memcpy}
use tcp_server_client_cpp.Ring.Memory.{memcpy_front, memcpy_full, memcpy-append}
use tcp_server_client_cpp.Codec.{ntohl_bytes, htonl_bytes, max_payload}
use tcp_server_client_cpp.Codec
use tcp_server_client_cpp.Codec.Frame.{length-htonl}
use tcp_server_client_cpp.Codec3.LengthPrefixed

-- The two overloads of `LengthPrefixedCodec::encode` make the same packet, whatever the output vector held.
pub encode_into-encode :
    (msg out : List ℕ) → LengthPrefixed.encode_into msg out ≡ LengthPrefixed.encode msg
unfolding LengthPrefixed.encode_into LengthPrefixed.encode
encode_into-encode msg out =
    let n : ℕ = length msg in
    let header : List ℕ = htonl_bytes (n % u32_mod) in
    let room : length (replicate (4 + n) 0) ≡ 4 + n = length-replicate {A = ℕ} (4 + n) 0 in
    let four : length header ≡ 4 = length-htonl (n % u32_mod) in
    sym (
      ap (λ t. memcpy t 4 msg)
        (memcpy_front (replicate (4 + n) 0) header (omega (arith, room, four)))
      ∙ ap (λ k. memcpy (header ++ drop (length header) (replicate (4 + n) 0)) k msg) (sym four)
      ∙ memcpy-append header (drop (length header) (replicate (4 + n) 0)) msg
      ∙ ap (λ t. header ++ t)
          (memcpy_full (drop (length header) (replicate (4 + n) 0)) msg
            (omega (arith, room, length-drop {A = ℕ} (length header) (replicate (4 + n) 0), four))))

-- On any ring `LengthPrefixedCodec::decode` of version 3 and `PacketCodec::decode` of version 4 give the same
-- answer and leave the same ring, though one adds the header in `size_t` and the other in `uint32_t`.
pub decode-same : (r : Ring) → LengthPrefixed.decode r ≡ Codec.decode r
unfolding LengthPrefixed.decode Codec.decode
decode-same r =
    let len = ntohl_bytes (peek r 4) in
    elim (Bool-cases (ltb (size r) 4)) [
      | inl e ↦ rw e refl
      | inr e ↦ elim (Bool-cases (ltb max_payload len)) [
        | inl f ↦ rw (e, f) refl
        | inr f ↦
            let small : len ≤ max_payload = ltb→le _ _ f in
            let sum : add_size 4 len ≡ add_u32 4 len = omega arith in rw (e, f, sum) refl
      ]
    ]
