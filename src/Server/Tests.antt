-- ===== src/Server/Tests.antt =====
-- Accepts and closes (v4/webserver.cpp) in a small run.
use tcp_server_client_cpp.Base.{◌≡◌, List, [], ◌∷◌, arith, ltb}
use tcp_server_client_cpp.Server.{new_server}
use tcp_server_client_cpp.Server.Announce.{
  Call, accepts, closes, run, connects, disconnects, one_if, run-announces,
}

-- The second client gets the descriptor of the first, which is closed twice.
abbrev calls : List Call
calls = accepts 7 0 ∷ closes 0 ∷ closes 0 ∷ accepts 7 5 ∷ []

run-announces_example :
    (connects 0 (run new_server calls).event_queue ≡ one_if (ltb 0 (run new_server calls).accepted))
    × (disconnects 0 (run new_server calls).event_queue
        ≡ one_if ((run new_server calls).conns 0).closed)
run-announces_example = run-announces calls 0 (omega arith, (omega arith, tt))
