-- ===== src/Receive/Tests.antt =====
-- The theorems on `handle_read` (v4/webserver.cpp) at a new connection.
use tcp_server_client_cpp.Base.{ℕ, ◌≡◌, ap, List, [], ◌∷◌, ◌++◌, arith, replicate, length-replicate}
use tcp_server_client_cpp.Ring.Inv.{contents, contents-make}
use tcp_server_client_cpp.Ring.Tests.{posix}
use tcp_server_client_cpp.Codec.Frame.{frame}
use tcp_server_client_cpp.Codec.Stream.{frames}
use tcp_server_client_cpp.Conn.{in_buf_size, connect}
use tcp_server_client_cpp.Receive.{ReadAnswer, ready, no_data, handle_read}
use tcp_server_client_cpp.Receive.Reassembly.{
  Awaits, Delivers, connect-Awaits, handle_read-Delivers,
}
use tcp_server_client_cpp.Receive.Oversize.{IsStuck, handle_read-IsStuck}

abbrev sent : List (List ℕ)
sent = (1 ∷ 2 ∷ []) ∷ [] ∷ (3 ∷ []) ∷ []

-- Two reads, which cut the first packet and the last.
abbrev answers : List ReadAnswer
answers = ready 2 10 ∷ ready 20 11 ∷ no_data ∷ []

handle_read-Delivers_example : Delivers sent (handle_read posix (connect 5 0) (frames sent) answers)
handle_read-Delivers_example =
    handle_read-Delivers posix answers (connect-Awaits 5 0 sent (omega arith))

connect-Awaits_example : Awaits sent (connect 5 0) (frames sent)
connect-Awaits_example = connect-Awaits 5 0 sent (omega arith)

abbrev large : List ℕ
large = replicate 9000 1

large-IsStuck : IsStuck large [] (connect 5 0) (frame large ++ [])
large-IsStuck = record {
  input = (connect-Awaits 5 0 [] tt).input;
  stream =
      let e : contents (connect 5 0).in_buf ≡ [] = unfold connect in contents-make in_buf_size in
      ap (λ t. t ++ (frame large ++ [])) e;
  too_large = omega (arith, length-replicate {A = ℕ} 9000 1);
  allowed = omega (arith, length-replicate {A = ℕ} 9000 1);
}

handle_read-IsStuck_example :
    let done = handle_read posix (connect 5 0) (frame large ++ []) answers in
    (done.messages ≡ []) × IsStuck large [] done.conn done.kernel
handle_read-IsStuck_example = handle_read-IsStuck posix answers large-IsStuck
