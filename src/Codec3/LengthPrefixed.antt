-- ===== src/Codec3/LengthPrefixed.antt =====
-- `LengthPrefixedCodec` of v3/codec.h.
use tcp_server_client_cpp.Base.{
  ℕ, ◌+◌, ◌%◌, Option, none, some, List, [], ◌++◌, ltb, if◌then◌else◌, length, replicate, u32_mod,
  add_size,
}
use tcp_server_client_cpp.Ring.{Ring, size, peek, consume, memcpy}
use tcp_server_client_cpp.Codec.{ntohl_bytes, htonl_bytes, max_payload, peek_vector}

-- `encode(msg, out)`: `out` is cleared, then the header and the message are put at its end.
unfoldable pub encode_into : List ℕ → List ℕ → List ℕ
encode_into msg out =
    let cleared : List ℕ = [] in (cleared ++ htonl_bytes (length msg % u32_mod)) ++ msg

-- `sizeof(uint32_t) + payload_len` is `size_t` arithmetic.
unfoldable pub decode : Ring → Option (List ℕ) × Ring
decode r =
    let payload_len = ntohl_bytes (peek r 4) in
    if ltb (size r) 4
    then (none, r)
    else if ltb max_payload payload_len
    then (none, consume r (size r))
    else if ltb (size r) (add_size 4 payload_len)
    then (none, r)
    else (let r1 = consume r 4 in (some (peek_vector r1 payload_len), consume r1 payload_len))

-- `encode(msg)`: `resize`, then two copies.
unfoldable pub encode : List ℕ → List ℕ
encode msg =
    let packet = replicate (4 + length msg) 0 in
    memcpy (memcpy packet 0 (htonl_bytes (length msg % u32_mod))) 4 msg
