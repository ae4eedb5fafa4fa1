-- ===== src/Codec/Tests.antt =====
-- Runs of the codec model (v4/codec.h), and its theorems at concrete rings.
use tcp_server_client_cpp.Base.{ℕ, ◌≡◌, refl, sym, ap, ◌∙◌, some, List, [], ◌∷◌, ◌++◌, arith}
use tcp_server_client_cpp.Ring.{Ring}
use tcp_server_client_cpp.Ring.Inv.{IsValid, contents}
use tcp_server_client_cpp.Codec.{decode, ntohl_bytes, htonl_bytes, Protobuf, encode, decode_message}
use tcp_server_client_cpp.Codec.Frame.{front, frame, packet, front-frame, to_packet-frame}
use tcp_server_client_cpp.Codec.Decode.{Decodes, decode_refines, encode-decode}

-- The packet of the payload 5, 6 and one byte behind it, round the end of the storage.
abbrev holding : Ring
holding = record {
  buf = 0 ∷ 2 ∷ 5 ∷ 6 ∷ 9 ∷ 1 ∷ 0 ∷ 0 ∷ [];
  read_pos = 6;
  write_pos = 5;
  count = 7;
}

holding-IsValid : IsValid holding
holding-IsValid = record {
  small = omega arith;
  read_in = omega arith;
  count_in = omega arith;
  write_at = refl;
}

front-holding : front (contents holding) ≡ packet (5 ∷ 6 ∷ []) (9 ∷ [])
unfolding front ntohl_bytes
front-holding = refl

-- A protobuf library whose messages are their bytes.
abbrev raw_bytes : Protobuf (List ℕ)
raw_bytes = record { serialize = λ m. m; parse = λ m. some m; parse-serialize = λ m. refl }

decode_refines_example : Decodes holding (front (contents holding)) (decode holding)
decode_refines_example = decode_refines holding-IsValid

front-frame_example : front (frame (5 ∷ 6 ∷ []) ++ (9 ∷ [])) ≡ packet (5 ∷ 6 ∷ []) (9 ∷ [])
front-frame_example = front-frame (5 ∷ 6 ∷ []) (9 ∷ []) (omega arith)

encode-holding : contents holding ≡ encode raw_bytes (5 ∷ 6 ∷ []) ++ (9 ∷ [])
encode-holding = sym (ap (λ t. t ++ (9 ∷ [])) (to_packet-holding))
  where
    to_packet-holding : encode raw_bytes (5 ∷ 6 ∷ []) ≡ 0 ∷ 0 ∷ 0 ∷ 2 ∷ 5 ∷ 6 ∷ []
    to_packet-holding =
        unfold encode in to_packet-frame (5 ∷ 6 ∷ []) (omega arith) ∙ (unfold htonl_bytes in refl)

encode-decode_example :
    let (o, s) = decode_message raw_bytes holding in
    (o ≡ some (5 ∷ 6 ∷ [])) × (contents s ≡ 9 ∷ []) × IsValid s
encode-decode_example =
    encode-decode raw_bytes (5 ∷ 6 ∷ []) (9 ∷ []) (omega arith) holding-IsValid encode-holding
