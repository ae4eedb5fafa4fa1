-- ===== src/Client/Inbox/Login.antt =====
-- The login of v4/client.cpp and the stream behind its answer.
use tcp_server_client_cpp.Base.{
  ℕ, ◌<◌, ◌≡◌, refl, sym, ap, ap₂, subst, ◌∙◌, true, false, not, List, [], ◌∷◌, ◌++◌, map, arith,
  ◌==◌, ==_refl, length, take, drop, length-append, length-take, take-append, drop-append, u32_mod,
  if_true, if_false,
}
use tcp_server_client_cpp.Ring.Scatter.{Readv}
use tcp_server_client_cpp.Codec.{Protobuf, encode, ntohl_bytes}
use tcp_server_client_cpp.Codec.Frame.{frame, drop-frame, encode-frame, header-frame, length-frame}
use tcp_server_client_cpp.Codec.Stream.{frames, AllFit}
use tcp_server_client_cpp.Conn.{in_buf_size, connect}
use tcp_server_client_cpp.Receive.Reassembly.{Awaits, connect-Awaits}
use tcp_server_client_cpp.Client.{Request, login, Client, is_empty, prompt_for, lobby}
use tcp_server_client_cpp.Client.Inbox.{
  Incoming, PollAnswer, start, receive_loop, LoginDone, welcomes, parsed_welcome, read_answer,
  log_in,
}
use tcp_server_client_cpp.Client.Inbox.Delivery.{
  Shows, Stands, receive_loop-Shows, with_ring, Awaits-ring,
}

-- What the server sends for these messages.
abbrev pub packets_of : {M : Type 0} → Protobuf M → List M → List ℕ
packets_of p [] = []
packets_of p (m ∷ ms) = encode p m ++ packets_of p ms

packets_of-frames :
    {M : Type 0} (p : Protobuf M) (ms : List M)
    → AllFit in_buf_size (map p.serialize ms)
    → packets_of p ms ≡ frames (map p.serialize ms)
packets_of-frames p [] f = refl
packets_of-frames p (m ∷ ms) f =
    ap₂ (λ a b. a ++ b) (encode-frame p m (omega arith)) (packets_of-frames p ms f.1)

module _ (payload rest : List ℕ) (small : length payload < u32_mod) where
  abbrev stream : List ℕ
  stream = frame payload ++ rest

  header_len : ntohl_bytes (take 4 stream) ≡ length payload
  header_len = header-frame payload rest small

  header_whole : length (take 4 stream) ≡ 4
  header_whole =
      length-take 4 stream ∙ omega (arith, length-append (frame payload) rest, length-frame payload)

  behind_header : drop 4 stream ≡ payload ++ rest
  behind_header = drop-frame payload rest

  body : take (ntohl_bytes (take 4 stream)) (drop 4 stream) ≡ payload
  body = ap₂ take header_len behind_header ∙ take-append payload rest

  behind_body : drop (ntohl_bytes (take 4 stream)) (drop 4 stream) ≡ rest
  behind_body = ap₂ drop header_len behind_header ∙ drop-append payload rest

-- What a successful login leaves.
pub record Welcomed (q : Protobuf Request) (name rest : List ℕ) (out : LoginDone) : Type 0 where
  pub asked : out.packet ≡ encode q (login name)
  pub logged_in : out.logged_in ≡ true
  pub prompt : out.client.prompt ≡ prompt_for name lobby
  pub unread : out.unread ≡ rest

module _ {M : Type 0} (q : Protobuf Request) (view : M → Incoming) (p : Protobuf M) where
  read_answer-Welcomed :
      (c : Client) (m : M) (rest : List ℕ)
      → length (p.serialize m) < u32_mod
      → welcomes (view m) ≡ true
      → Welcomed q c.username rest
          (read_answer q view p c (encode q (login c.username)) (frame (p.serialize m) ++ rest))
  unfolding read_answer
  read_answer-Welcomed c m rest h w =
      let payload : List ℕ = p.serialize m in
      let all : List ℕ = frame payload ++ rest in
      let packet : List ℕ = encode q (login c.username) in
      let got : List ℕ = take (ntohl_bytes (take 4 all)) (drop 4 all) in
      let left : List ℕ = drop (ntohl_bytes (take 4 all)) (drop 4 all) in
      let accepted : LoginDone = record {
        client = record c { prompt = prompt_for c.username lobby };
        packet = packet;
        logged_in = true;
        unread = left;
      } in
      let four : not (length (take 4 all) == 4) ≡ false =
        ap (λ n. not (n == 4)) (header_whole payload rest h) in
      let enough : not (length got == ntohl_bytes (take 4 all)) ≡ false =
        ap₂ (λ b n. not (length b == n)) (body payload rest h) (header_len payload rest h)
        ∙ ap not (==_refl (length payload)) in
      let welcome : parsed_welcome view (p.parse got) ≡ true =
        ap (λ b. parsed_welcome view (p.parse b)) (body payload rest h)
        ∙ ap (parsed_welcome view) (p.parse-serialize m)
        ∙ w in
      let whole : read_answer q view p c packet all ≡ accepted =
        if_false (not (length (take 4 all) == 4)) _ _ four
        ∙ if_false (not (length got == ntohl_bytes (take 4 all))) _ _ enough
        ∙ if_true (parsed_welcome view (p.parse got)) _ _ welcome in
      subst (Welcomed q c.username rest) (sym whole) (record {
        asked = refl;
        logged_in = refl;
        prompt = refl;
        unread = behind_body payload rest h;
      })

  -- A fresh receiver stands in the stream of the messages sent.
  start-Stands :
      (ms : List M) (bytes : List ℕ)
      → AllFit in_buf_size (map p.serialize ms)
      → bytes ≡ packets_of p ms
      → Stands view p ms (start bytes)
  unfolding start connect
  start-Stands ms bytes f e =
      subst (Awaits (map p.serialize ms) (with_ring (start bytes).in_buf))
        (sym (e ∙ packets_of-frames p ms f))
        (Awaits-ring _ refl (connect-Awaits 0 0 (map p.serialize ms) f))

  -- If the name typed is not empty, the request is sent, and the server sends an answer that accepts the login
  -- (under 2^32 bytes) and then other messages (each of at most 8192 bytes, header included): `login` sends
  -- the request with that name and returns true with the prompt of the lobby, and for any answers of `poll`
  -- and `readv` the receiving loop then pushes the texts of a front part of the other messages, in order, with
  -- the notice of a lost connection behind them if it has hung up, and awaits the rest.
  pub log_in-Shows :
      (sys : Readv) (c : Client) (name : List ℕ) (m : M) (ms : List M) (answers : List PollAnswer)
      → is_empty name ≡ false
      → length (p.serialize m) < u32_mod
      → welcomes (view m) ≡ true
      → AllFit in_buf_size (map p.serialize ms)
      → let bytes = packets_of p (m ∷ ms) in
        let d = log_in q view p c name true bytes in
        Welcomed q name (packets_of p ms) d
        × Shows view p ms (start d.unread) (receive_loop view p sys (start d.unread) answers)
  log_in-Shows sys c name m ms answers n h w f =
      let bytes = packets_of p (m ∷ ms) in
      let d : LoginDone = log_in q view p c name true bytes in
      let named = record c { username = name } in
      let framed : bytes ≡ frame (p.serialize m) ++ packets_of p ms =
        ap (λ t. t ++ packets_of p ms) (encode-frame p m h) in
      let asked : d
          ≡ read_answer q view p named (encode q (login name))
              (frame (p.serialize m) ++ packets_of p ms) =
        unfold log_in in
        if_false (is_empty name) _ _ n
        ∙ ap (read_answer q view p named (encode q (login name))) framed in
      let good : Welcomed q name (packets_of p ms) d =
        subst (Welcomed q name (packets_of p ms)) (sym asked)
          (read_answer-Welcomed named m (packets_of p ms) h w) in
      (
        good,
        receive_loop-Shows view p sys answers ms (start d.unread) (unfold start in refl)
            (start-Stands ms d.unread f good.unread),
      )
