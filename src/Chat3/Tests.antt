-- ===== src/Chat3/Tests.antt =====
-- The theorems on the chat application of v3/chatapp.h at small inputs.
use tcp_server_client_cpp.Base.{ℕ, ◌≡◌, refl, ap, true, false, List, [], ◌∷◌, put}
use tcp_server_client_cpp.Chat.{is_empty, contains}
use tcp_server_client_cpp.Chat3.{
  act, on_client_connect, send, take_message, refill_tokens, go_on, claim_name, accept_name,
  new_conn, Event, connects, arrives, proceeds, start_app, claimed, close_client, run,
}
use tcp_server_client_cpp.Chat3.Unique.{run_unique}
use tcp_server_client_cpp.Chat3.Leak.{IsLost, close_client-IsLost}

abbrev born : ℕ → ℕ
born conn = 0

-- "ann" logs in on one connection, and tries to on another.
abbrev twice : List Event
twice =
    connects 0
    ∷ arrives 0 "ann" 1
    ∷ proceeds 0
    ∷ connects 1
    ∷ arrives 1 "ann" 2
    ∷ proceeds 0
    ∷ proceeds 1
    ∷ proceeds 1
    ∷ []

twice-open : ((run (start_app born) twice).conns 0).closed ≡ false
unfolding act on_client_connect send take_message refill_tokens go_on claim_name accept_name put
    contains start_app new_conn
twice-open = refl

twice-named : ((run (start_app born) twice).conns 0).username ≡ "ann"
unfolding act on_client_connect send take_message refill_tokens go_on claim_name accept_name put
    contains start_app new_conn
twice-named = refl

abbrev first : ℕ
first = 0

run_unique_example :
    let a = run (start_app born) twice in
    (first ≡ first) × (contains (a.conns 0).username a.usernames ≡ true)
run_unique_example =
    run_unique born twice first first twice-open twice-open (ap is_empty twice-named) refl

-- The first part of a login.
abbrev halfway : List Event
halfway = connects 0 ∷ arrives 0 "ann" 1 ∷ proceeds 0 ∷ []

halfway-claimed : (run (start_app born) halfway).workers 0 ≡ claimed "ann"
unfolding act on_client_connect send take_message refill_tokens go_on claim_name accept_name put
    contains start_app new_conn
halfway-claimed = refl

halfway-open : ((run (start_app born) halfway).conns 0).closed ≡ false
unfolding act on_client_connect send take_message refill_tokens go_on claim_name accept_name put
    contains start_app new_conn
halfway-open = refl

close_client-IsLost_example : IsLost "ann" (
    run
      (close_client (run (start_app born) halfway) 0)
      (proceeds 0 ∷ connects 1 ∷ arrives 1 "ann" 2 ∷ []))
close_client-IsLost_example =
    close_client-IsLost born halfway (proceeds 0 ∷ connects 1 ∷ arrives 1 "ann" 2 ∷ []) 0 "ann"
      halfway-claimed halfway-open
