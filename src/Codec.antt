-- ===== src/Codec.antt =====
-- `PacketCodec` and `ProtobufCodec` of v4/codec.h: length-prefixed packets out of a `RingBuffer`, and messages
-- in packets. Google's protobuf library is a parameter.
pub mod Frame
pub mod Decode
pub mod Stream
pub mod Tests
use tcp_server_client_cpp.Base.{
  ℕ, zero, suc, ◌+◌, ◌-◌, ◌*◌, ◌/◌, ◌%◌, ◌^◌, ◌≤◌, ◌<◌, min, max, String, ◌≡◌, refl, sym, ap, ap₂,
  subst, ◌∙◌, ◌≡⟨◌⟩◌, ◌∎, ◌≢◌, ◌↔◌, ◌⊎◌, inl, inr, Bool, true, false, not, ◌&&◌, ◌||◌, Option, none,
  some, List, [], ◌∷◌, ◌++◌, map, append-nil, append_assoc, arith, ltb, leb, ◌==◌, if◌then◌else◌,
  lt→ltb, le→ltb, ltb→lt, ltb→le, ==_iff, ==_refl, ==_ne, Bool-cases, Option-cases, length, get_or,
  take, drop, replicate, length-append, length-take, length-drop, length-replicate,
  take-append-drop, take_all, drop_all, take-append_left, drop-append_left, drop-drop,
  get_or-append, get_or-append_left, get_or-take, get_or-drop, take-take, drop-take, take-min,
  drop-min, drop-min_le, eq-nil, list_ext, size_mod, u32_mod, add_size, sub_size, add_u32,
  sub_size_lem, add_size_lem,
}
use tcp_server_client_cpp.Ring.{Ring, size, peek, consume, memcpy}

-- `std::memcpy(&net_len, header, 4)`, then `ntohl`: four bytes, the most significant first.
pub ntohl_bytes : List ℕ → ℕ
ntohl_bytes (a ∷ b ∷ c ∷ d ∷ []) = a * 2 ^ 24 + b * 2 ^ 16 + c * 2 ^ 8 + d
ntohl_bytes _ = 0

-- The four bytes of `htonl(n)` in memory.
pub htonl_bytes : ℕ → List ℕ
htonl_bytes n = (n / 2 ^ 24 % 256) ∷ (n / 2 ^ 16 % 256) ∷ (n / 2 ^ 8 % 256) ∷ (n % 256) ∷ []

-- "10mb limit".
abbrev pub max_payload : ℕ
max_payload = 10 * 1024 * 1024

-- `std::vector<char> v(len)`, then `buf.peek(v.data(), len)`.
pub peek_vector : Ring → ℕ → List ℕ
peek_vector r len = memcpy (replicate len 0) 0 (peek r len)

-- `PacketCodec::decode`. `4 + len` is `uint32_t` arithmetic.
unfoldable pub decode : Ring → Option (List ℕ) × Ring
decode r =
    let len = ntohl_bytes (peek r 4) in
    if ltb (size r) 4
    then (none, r)
    else if ltb max_payload len
    then (none, consume r (size r))
    else if ltb (size r) (add_u32 4 len)
    then (none, r)
    else (let r1 = consume r 4 in (some (peek_vector r1 len), consume r1 len))

-- A message type of the protobuf library: `SerializeToString` and `ParseFromArray`.
pub record Protobuf (M : Type 0) : Type 0 where
  pub serialize : M → List ℕ
  pub parse : List ℕ → Option M
  pub parse-serialize : (m : M) → parse (serialize m) ≡ some m

-- `packet.resize(4 + payload.size())` and the two copies into it.
pub to_packet : List ℕ → List ℕ
to_packet payload =
    let packet = replicate (4 + length payload) 0 in
    memcpy (memcpy packet 0 (htonl_bytes (length payload % u32_mod))) 4 payload

module _ {M : Type 0} (p : Protobuf M) where
  -- `ProtobufCodec::encode`.
  pub encode : M → List ℕ
  encode msg = to_packet (p.serialize msg)

  -- `ProtobufCodec::decode` on a payload.
  pub decode_payload : List ℕ → Option M
  decode_payload bytes = p.parse bytes

  -- `ProtobufCodec::decode` on a ring.
  unfoldable pub decode_message : Ring → Option M × Ring
  decode_message r =
      let (payload, s) = decode r in
      (elim payload [ none ↦ none | some bytes ↦ decode_payload bytes ], s)
