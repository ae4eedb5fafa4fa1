-- ===== src/Codec3/Tests.antt =====
-- The line codec (v3/codec.h) on a small ring.
use tcp_server_client_cpp.Codec
use tcp_server_client_cpp.Codec3.LengthPrefixed
use tcp_server_client_cpp.Codec3.Equal.{encode_into-encode, decode-same}
use tcp_server_client_cpp.Base.{◌≡◌, refl, some, [], ◌∷◌, arith}
use tcp_server_client_cpp.Ring.{Ring}
use tcp_server_client_cpp.Ring.Inv.{IsValid, contents}
use tcp_server_client_cpp.Codec3.LineBased.{newline, decode, encode}
use tcp_server_client_cpp.Codec3.Lines.{encode-decode_line}

-- A ring whose storage holds "hi", a newline and one byte more.
abbrev holding : Ring
holding = record { buf = 104 ∷ 105 ∷ newline ∷ 7 ∷ 0 ∷ []; read_pos = 0; write_pos = 4; count = 4 }

holding-IsValid : IsValid holding
holding-IsValid = record {
  small = omega arith;
  read_in = omega arith;
  count_in = omega arith;
  write_at = ground arith;
}

encode-decode_line_example :
    ((decode holding).0 ≡ some (104 ∷ 105 ∷ []))
    × (contents (decode holding).1 ≡ 7 ∷ [])
    × IsValid (decode holding).1
encode-decode_line_example =
    encode-decode_line (104 ∷ 105 ∷ []) (7 ∷ []) holding-IsValid (omega arith, (omega arith, tt))
      (unfold encode in refl)

encode_into-encode_example :
    LengthPrefixed.encode_into (5 ∷ 6 ∷ []) (1 ∷ []) ≡ LengthPrefixed.encode (5 ∷ 6 ∷ [])
encode_into-encode_example = encode_into-encode (5 ∷ 6 ∷ []) (1 ∷ [])

decode-same_example : LengthPrefixed.decode holding ≡ Codec.decode holding
decode-same_example = decode-same holding
