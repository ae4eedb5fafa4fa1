-- ===== src/Codec3/LineBased.antt =====
-- `LineBasedCodec` of v3/codec.h.
use tcp_server_client_cpp.Base.{
  ℕ, suc, ◌+◌, Option, none, some, List, [], ◌∷◌, ◌++◌, ◌==◌, if◌then◌else◌, take,
}
use tcp_server_client_cpp.Ring.{Ring, size, consume}
use tcp_server_client_cpp.Codec.{peek_vector}

abbrev pub newline : ℕ
newline = b'\n'

-- The index that the `for` loop stops at, counted from `i`.
unfoldable pub find_newline : List ℕ → ℕ → Option ℕ
find_newline [] i = none
find_newline (c ∷ temp) i = if c == newline then some i else find_newline temp (suc i)

unfoldable pub decode : Ring → Option (List ℕ) × Ring
decode r =
    let temp = peek_vector r (size r) in
    elim (find_newline temp 0) [
      | none ↦ (none, r)
      | some i ↦ (some (take i temp), consume r (i + 1))
    ]

unfoldable pub encode : List ℕ → List ℕ
encode msg = msg ++ (newline ∷ [])
