-- ===== src/Codec/Frame.antt =====
-- The packet format of v4/codec.h on plain byte lists: a four-byte length, then that many bytes.
use tcp_server_client_cpp.Base.{
  ℕ, ◌+◌, ◌%◌, ◌≤◌, ◌<◌, ◌≡◌, refl, sym, ap, ap₂, ◌∙◌, some, List, ◌++◌, arith, ltb, if◌then◌else◌,
  lt→ltb, le→ltb, length, take, drop, replicate, length-append, length-drop, length-replicate,
  take-append, drop-append, u32_mod,
}
use tcp_server_client_cpp.Ring.{Ring, memcpy}
use tcp_server_client_cpp.Ring.Memory.{memcpy_front, memcpy_full, memcpy-append}
use tcp_server_client_cpp.Codec.{
  ntohl_bytes, htonl_bytes, max_payload, to_packet, Protobuf, encode, decode, decode_message,
  decode_payload,
}

-- A packet with the given payload.
abbrev pub frame : List ℕ → List ℕ
frame payload = htonl_bytes (length payload) ++ payload

-- What the front of a byte sequence is.
pub data Front : Type 0 where
  need_more : Front
  reject : Front
  packet : List ℕ → List ℕ → Front

-- The front of a byte sequence, by the format.
unfoldable pub front : List ℕ → Front
front xs =
    let len = ntohl_bytes (take 4 xs) in
    if ltb (length xs) 4
    then need_more
    else if ltb max_payload len
    then reject
    else if ltb (length xs) (4 + len)
    then need_more
    else packet (take len (drop 4 xs)) (drop (4 + len) xs)

-- Writing a length and reading it back.
pub ntohl-htonl : (n : ℕ) → n < u32_mod → ntohl_bytes (htonl_bytes n) ≡ n
unfolding ntohl_bytes htonl_bytes
ntohl-htonl n h = omega arith

pub length-htonl : (n : ℕ) → length (htonl_bytes n) ≡ 4
unfolding htonl_bytes
length-htonl n = refl

pub length-frame : (payload : List ℕ) → length (frame payload) ≡ 4 + length payload
length-frame payload =
    omega
      (arith, length-append (htonl_bytes (length payload)) payload, length-htonl (length payload))

-- The cases of `front`, by the length read from the header.
module _ (xs : List ℕ) (len : ℕ) (header : ntohl_bytes (take 4 xs) ≡ len) where
  pub front-packet :
      4 + len ≤ length xs
      → len ≤ max_payload
      → front xs ≡ packet (take len (drop 4 xs)) (drop (4 + len) xs)
  unfolding front
  front-packet h k = rw (
    header,
    le→ltb (length xs) 4 (omega arith),
    le→ltb max_payload len k,
    le→ltb (length xs) (4 + len) h,
  )

  pub front-reject : 4 ≤ length xs → max_payload < len → front xs ≡ reject
  unfolding front
  front-reject h k = rw (header, le→ltb (length xs) 4 h, lt→ltb max_payload len k)

  pub front-incomplete :
      4 ≤ length xs → len ≤ max_payload → length xs < 4 + len → front xs ≡ need_more
  unfolding front
  front-incomplete h k l =
      rw (header, le→ltb (length xs) 4 h, le→ltb max_payload len k, lt→ltb (length xs) (4 + len) l)

pub front-short : (xs : List ℕ) → length xs < 4 → front xs ≡ need_more
unfolding front
front-short xs h = rw (lt→ltb (length xs) 4 h)

pub header-frame :
    (payload rest : List ℕ)
    → length payload < u32_mod
    → ntohl_bytes (take 4 (frame payload ++ rest)) ≡ length payload
header-frame payload rest h = unfold htonl_bytes in ntohl-htonl (length payload) h

pub drop-frame : (payload rest : List ℕ) → drop 4 (frame payload ++ rest) ≡ payload ++ rest
drop-frame payload rest = unfold htonl_bytes in refl

-- A packet followed by anything is read back, and what follows is left.
pub front-frame :
    (payload rest : List ℕ)
    → length payload ≤ max_payload
    → front (frame payload ++ rest) ≡ packet payload rest
front-frame payload rest h =
    front-packet (frame payload ++ rest) (length payload) (header-frame payload rest (omega arith))
      (omega (arith, length-append (frame payload) rest, length-frame payload)) h
    ∙ ap₂ packet (unfold htonl_bytes in take-append payload rest) (
        ap (λ n. drop n (frame payload ++ rest)) (sym (length-frame payload))
        ∙ drop-append (frame payload) rest)

-- The copies of `ProtobufCodec::encode` make the packet of the serialized message.
pub to_packet-frame :
    (payload : List ℕ) → length payload < u32_mod → to_packet payload ≡ frame payload
unfolding to_packet
to_packet-frame payload h =
    let n : ℕ = length payload in
    let header : List ℕ = htonl_bytes n in
    let wrapped : n % u32_mod ≡ n = omega arith in
    let room : length (replicate (4 + n) 0) ≡ 4 + n = length-replicate {A = ℕ} (4 + n) 0 in
    rw wrapped (
      ap (λ t. memcpy t 4 payload)
        (memcpy_front (replicate (4 + n) 0) header (omega (arith, room, length-htonl n)))
      ∙ ap (λ k. memcpy (header ++ drop (length header) (replicate (4 + n) 0)) k payload)
          (sym (length-htonl n))
      ∙ memcpy-append header (drop (length header) (replicate (4 + n) 0)) payload
      ∙ ap (λ t. header ++ t)
          (memcpy_full (drop (length header) (replicate (4 + n) 0)) payload (
            omega (
              arith,
              room,
              length-drop {A = ℕ} (length header) (replicate (4 + n) 0),
              length-htonl n,
            ))))

pub encode-frame :
    {M : Type 0} (p : Protobuf M) (m : M)
    → length (p.serialize m) < u32_mod
    → encode p m ≡ frame (p.serialize m)
unfolding encode
encode-frame p m h = to_packet-frame (p.serialize m) h

pub decode_message-some :
    {M : Type 0} (p : Protobuf M) (r : Ring) {payload : List ℕ}
    → (decode r).0 ≡ some payload
    → (decode_message p r).0 ≡ p.parse payload
unfolding decode_message decode_payload
decode_message-some p r e = rw (e, decode_message)
