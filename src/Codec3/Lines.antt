-- ===== src/Codec3/Lines.antt =====
-- What `LineBasedCodec` (v3/codec.h) takes off a ring.
use tcp_server_client_cpp.Base.{
  ℕ, suc, ◌+◌, ◌≤◌, min, ◌≡◌, refl, sym, ap, ◌∙◌, ◌≢◌, none, some, List, [], ◌∷◌, ◌++◌,
  append_assoc, arith, ==_ne, length, take, drop, length-append, take_all, take-append, drop-append,
}
use tcp_server_client_cpp.Ring.{Ring, size, consume}
use tcp_server_client_cpp.Ring.Inv.{IsValid, contents, length-contents}
use tcp_server_client_cpp.Ring.Read.{consume_refines}
use tcp_server_client_cpp.Codec.{peek_vector}
use tcp_server_client_cpp.Codec.Decode.{peek_vector_lem}
use tcp_server_client_cpp.Codec3.LineBased.{newline, find_newline, decode, encode}

-- No byte of the list ends a line.
abbrev pub IsLine : List ℕ → Type 0
IsLine [] = Unit {0}
IsLine (c ∷ cs) = (c ≢ newline) × IsLine cs

find-line :
    (msg rest : List ℕ) (i : ℕ)
    → IsLine msg
    → find_newline (msg ++ (newline ∷ rest)) i ≡ some (i + length msg)
unfolding find_newline
find-line [] rest i h = ap some (omega arith)
find-line (c ∷ cs) rest i h =
    rw (==_ne c newline h.0) (find-line cs rest (suc i) h.1 ∙ ap some (omega arith))

find-none : (msg : List ℕ) (i : ℕ) → IsLine msg → find_newline msg i ≡ none
unfolding find_newline
find-none [] i h = refl
find-none (c ∷ cs) i h = rw (==_ne c newline h.0) (find-none cs (suc i) h.1)

whole : {r : Ring} → IsValid r → peek_vector r (size r) ≡ contents r
unfolding size
whole {r} v =
    peek_vector_lem r.count v (omega arith)
    ∙ take_all r.count (contents r) (omega (arith, length-contents r))

decode-none : (r : Ring) → find_newline (peek_vector r (size r)) 0 ≡ none → decode r ≡ (none, r)
unfolding decode
decode-none r e = rw (e, decode) refl

decode-some :
    (r : Ring) (i : ℕ)
    → find_newline (peek_vector r (size r)) 0 ≡ some i
    → decode r ≡ (some (take i (peek_vector r (size r))), consume r (i + 1))
unfolding decode
decode-some r i e = rw (e, decode) refl

-- If a valid ring holds what `LineBasedCodec::encode` made of a message without a newline, and then other
-- bytes, `LineBasedCodec::decode` gives that message and leaves exactly the other bytes in a valid ring.
pub encode-decode_line :
    {r : Ring} (msg rest : List ℕ)
    → IsValid r
    → IsLine msg
    → contents r ≡ encode msg ++ rest
    → ((decode r).0 ≡ some msg) × (contents (decode r).1 ≡ rest) × IsValid (decode r).1
unfolding encode
encode-decode_line {r} msg rest v h e =
    let at : contents r ≡ msg ++ (newline ∷ rest) = e ∙ append_assoc msg (newline ∷ []) rest in
    let found : find_newline (peek_vector r (size r)) 0 ≡ some (length msg) =
      ap (λ t. find_newline t 0) (whole v ∙ at) ∙ find-line msg rest 0 h ∙ ap some (omega arith) in
    let c = consume_refines (length msg + 1) v in
    let held : length msg + 1 ≤ r.count =
      omega (arith, length-contents r, ap length at, length-append msg (newline ∷ rest)) in
    let all : min (length msg + 1) r.count ≡ length msg + 1 = omega arith in
    rw (decode-some r (length msg) found) (
      ap some (ap (take (length msg)) (whole v ∙ at) ∙ take-append msg (newline ∷ rest)),
      c.0
          ∙ ap (λ n. drop n (contents r)) all
          ∙ ap (drop (length msg + 1)) e
          ∙ ap (λ n. drop n ((msg ++ (newline ∷ [])) ++ rest))
              (sym (length-append msg (newline ∷ [])))
          ∙ drop-append (msg ++ (newline ∷ [])) rest,
      c.1,
    )

pub decode-waits : {r : Ring} → IsValid r → IsLine (contents r) → decode r ≡ (none, r)
decode-waits {r} v h =
    decode-none r (ap (λ t. find_newline t 0) (whole v) ∙ find-none (contents r) 0 h)
