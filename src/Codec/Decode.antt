-- ===== src/Codec/Decode.antt =====
-- `PacketCodec::decode` (v4/codec.h) against the packet format on byte lists.
use tcp_server_client_cpp.Base.{
  ℕ, ◌+◌, ◌≤◌, ◌<◌, min, ◌≡◌, refl, ap, subst, ◌∙◌, inl, inr, Option, none, some, List, [], ◌++◌,
  arith, ltb, lt→ltb, le→ltb, ltb→lt, ltb→le, Bool-cases, length, take, drop, replicate,
  length-take, length-drop, length-replicate, drop_all, drop-drop, add_u32,
}
use tcp_server_client_cpp.Ring.{Ring, size, peek, consume}
use tcp_server_client_cpp.Ring.Inv.{IsValid, contents, length-contents}
use tcp_server_client_cpp.Ring.Read.{peek_refines, consume_refines, length-consume}
use tcp_server_client_cpp.Ring.Memory.{memcpy_full}
use tcp_server_client_cpp.Codec.{
  decode, peek_vector, ntohl_bytes, max_payload, Protobuf, encode, decode_message,
}
use tcp_server_client_cpp.Codec.Frame.{
  Front, need_more, reject, packet, front, frame, front-packet, front-reject, front-incomplete,
  front-short, front-frame, encode-frame, decode_message-some,
}

-- What `decode` has to do, by the front of the bytes held: wait, drop everything, or take one packet.
abbrev pub Decodes : Ring → Front → Option (List ℕ) × Ring → Type 0
Decodes r need_more (o, s) = (o ≡ none) × (s ≡ r)
Decodes r reject (o, s) = (o ≡ none) × (contents s ≡ []) × IsValid s × (length s.buf ≡ length r.buf)
Decodes r (packet payload rest) (o, s) =
    (o ≡ some payload) × (contents s ≡ rest) × IsValid s × (length s.buf ≡ length r.buf)

pub peek_vector_lem :
    {r : Ring} (n : ℕ) → IsValid r → n ≤ r.count → peek_vector r n ≡ take n (contents r)
unfolding peek_vector
peek_vector_lem {r} n v h = rw (peek_refines n v) (
    memcpy_full (replicate n 0) (take n (contents r))
      (omega (arith, length-take n (contents r), length-contents r, length-replicate {A = ℕ} n 0)))

-- The branches of `decode`.
decode-short : (r : Ring) → r.count < 4 → decode r ≡ (none, r)
unfolding decode size
decode-short r h = rw (lt→ltb r.count 4 h)

module _ (r : Ring) (len : ℕ) (header : ntohl_bytes (peek r 4) ≡ len) (four : 4 ≤ r.count) where
  decode-large : max_payload < len → decode r ≡ (none, consume r r.count)
  unfolding decode size
  decode-large h = rw (header, le→ltb r.count 4 four, lt→ltb max_payload len h)

  decode-part : len ≤ max_payload → r.count < 4 + len → decode r ≡ (none, r)
  unfolding decode size
  decode-part h k =
      let sum : add_u32 4 len ≡ 4 + len = omega arith in
      rw (header, le→ltb r.count 4 four, le→ltb max_payload len h, sum, lt→ltb r.count (4 + len) k)

  decode-whole :
      len ≤ max_payload
      → 4 + len ≤ r.count
      → decode r ≡ (some (peek_vector (consume r 4) len), consume (consume r 4) len)
  unfolding decode size
  decode-whole h k =
      let sum : add_u32 4 len ≡ 4 + len = omega arith in
      rw (header, le→ltb r.count 4 four, le→ltb max_payload len h, sum, le→ltb r.count (4 + len) k)

-- Taking a packet off the ring.
take_packet :
    {r : Ring} (len : ℕ)
    → IsValid r
    → 4 + len ≤ r.count
    → Decodes r
        (packet (take len (drop 4 (contents r))) (drop (4 + len) (contents r)))
        (some (peek_vector (consume r 4) len), consume (consume r 4) len)
take_packet {r} len v h = (
  ap some (peek_vector_lem len first.1 enough ∙ ap (take len) behind),
  second.0
      ∙ ap (λ k. drop k (contents (consume r 4))) least
      ∙ ap (drop len) behind
      ∙ drop-drop len 4 (contents r),
  second.1,
  length-consume (consume r 4) len ∙ length-consume r 4,
)
  where
    first : (contents (consume r 4) ≡ drop (min 4 r.count) (contents r)) × IsValid (consume r 4)
    first = consume_refines 4 v

    four_least : min 4 r.count ≡ 4
    four_least = omega arith

    behind : contents (consume r 4) ≡ drop 4 (contents r)
    behind = first.0 ∙ ap (λ k. drop k (contents r)) four_least

    enough : len ≤ (consume r 4).count
    enough = omega (
      arith,
      length-contents (consume r 4),
      ap length behind,
      length-drop 4 (contents r),
      length-contents r,
    )

    least : min len (consume r 4).count ≡ len
    least = omega (arith, enough)

    second :
        (contents (consume (consume r 4) len)
          ≡ drop (min len (consume r 4).count) (contents (consume r 4)))
        × IsValid (consume (consume r 4) len)
    second = consume_refines len first.1

drop_everything : {r : Ring} → IsValid r → Decodes r reject (none, consume r r.count)
drop_everything {r} v =
    let c = consume_refines r.count v in
    (
      refl,
      c.0 ∙ drop_all (min r.count r.count) (contents r) (omega (arith, length-contents r)),
      c.1,
      length-consume r r.count,
    )

-- On a valid ring `decode` does what the front of the bytes held asks for, by the format read off a plain
-- list: it waits for more and leaves the ring, drops everything on a length over the limit, or takes exactly
-- one packet; the ring stays valid, of the same capacity.
pub decode_refines : {r : Ring} → IsValid r → Decodes r (front (contents r)) (decode r)
decode_refines {r} v = elim (Bool-cases (ltb r.count 4)) [
  | inl short ↦
      rw
        (
          front-short (contents r) (omega (arith, size_of, ltb→lt _ _ short)),
          decode-short r (ltb→lt _ _ short),
        )
        (refl, refl)
  | inr some_four ↦
      let four : 4 ≤ r.count = ltb→le r.count 4 some_four in
      elim (Bool-cases (ltb max_payload len)) [
        | inl large ↦
            rw
              (
                front-reject (contents r) len refl (omega (arith, size_of)) (ltb→lt _ _ large),
                decode-large r len header four (ltb→lt _ _ large),
              )
              (drop_everything v)
        | inr small ↦
            let fits : len ≤ max_payload = ltb→le _ _ small in
            elim (Bool-cases (ltb r.count (4 + len))) [
              | inl part ↦
                  rw
                    (
                      front-incomplete (contents r) len refl (omega (arith, size_of)) fits
                          (omega (arith, size_of, ltb→lt _ _ part)),
                      decode-part r len header four fits (ltb→lt _ _ part),
                    )
                    (refl, refl)
              | inr whole ↦
                  rw
                    (
                      front-packet (contents r) len refl (omega (arith, size_of, ltb→le _ _ whole))
                          fits,
                      decode-whole r len header four fits (ltb→le _ _ whole),
                    )
                    (take_packet len v (ltb→le _ _ whole))
            ]
      ]
]
  where
    len : ℕ
    len = ntohl_bytes (take 4 (contents r))

    size_of : length (contents r) ≡ r.count
    size_of = length-contents r

    header : ntohl_bytes (peek r 4) ≡ len
    header = ap ntohl_bytes (peek_refines 4 v)

-- If a valid ring holds a message that `ProtobufCodec::encode` made, of at most 10 MB, and then other bytes,
-- `ProtobufCodec::decode` gives that message and leaves exactly the other bytes in a valid ring.
pub encode-decode :
    {M : Type 0} (p : Protobuf M) (m : M) (rest : List ℕ) {r : Ring}
    → length (p.serialize m) ≤ max_payload
    → IsValid r
    → contents r ≡ encode p m ++ rest
    → let (o, s) = decode_message p r in (o ≡ some m) × (contents s ≡ rest) × IsValid s
unfolding decode_message
encode-decode p m rest {r} h v e = (shown, d.1, d.2)
  where
    payload : List ℕ
    payload = p.serialize m

    framed : contents r ≡ frame payload ++ rest
    framed = e ∙ ap (λ t. t ++ rest) (encode-frame p m (omega arith))

    d : Decodes r (packet payload rest) (decode r)
    d =
        subst (λ t. Decodes r t (decode r)) (ap front framed ∙ front-frame payload rest h)
          (decode_refines v)

    shown : (decode_message p r).0 ≡ some m
    shown = decode_message-some p r d.0 ∙ p.parse-serialize m
