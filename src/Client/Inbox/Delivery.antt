-- ===== src/Client/Inbox/Delivery.antt =====
-- The receiving loop of v4/client.cpp on a stream of messages.
use tcp_server_client_cpp.Base.{
  ℕ, suc, String, ◌≡◌, refl, sym, ap, ap₂, subst, ◌∙◌, ◌≢◌, Bool, true, false, not, ◌&&◌, none,
  List, [], ◌∷◌, ◌++◌, map, append-nil, append_assoc, arith, if◌then◌else◌, length, get_or, drop,
  if_false,
}
use tcp_server_client_cpp.Ring.{Ring, size, get_writeable_iovecs}
use tcp_server_client_cpp.Ring.Inv.{IsValid, contents, length-contents}
use tcp_server_client_cpp.Ring.Scatter.{Readv, receive, get_writeable_iovecs_some}
use tcp_server_client_cpp.Wire.{is_nil}
use tcp_server_client_cpp.Codec.{Protobuf}
use tcp_server_client_cpp.Codec.Frame.{front}
use tcp_server_client_cpp.Conn.{Connection, connect, update_activity}
use tcp_server_client_cpp.Receive.{decode_all, take_in}
use tcp_server_client_cpp.Receive
use tcp_server_client_cpp.Receive.Reassembly.{Awaits, Delivers, take_in-Delivers}
use tcp_server_client_cpp.Client.Inbox.{
  Incoming, handle_server_message, texts_of, lost, PollAnswer, nothing_yet, poll_failed, hung_up,
  readv_ready, readv_ends, Receiver, bytes_read, decode_messages, read_socket, receive_loop,
}
use tcp_server_client_cpp.Client.Inbox.Decoding.{decode_messages-all}

-- A connection of the server with this ring: the client's has the same size.
abbrev pub with_ring : Ring → Connection
with_ring r = record (connect 0 0) { in_buf = r }

-- What a closed connection pushes.
abbrev pub notice : Bool → List String
notice true = []
notice false = lost ∷ []

texts_of-append :
    {M : Type 0} (view : M → Incoming) (ms ns : List M)
    → texts_of view (ms ++ ns) ≡ texts_of view ms ++ texts_of view ns
texts_of-append view [] ns = refl
texts_of-append view (m ∷ ms) ns =
    ap (λ t. handle_server_message (view m) ++ t) (texts_of-append view ms ns)
    ∙ sym (append_assoc (handle_server_message (view m)) (texts_of view ms) (texts_of view ns))

-- A list of images cut in two.
record Halves {A B : Type 0} (f : A → B) (ms : List A) (xs ys : List B) : Type 0 where
  done : List A
  left : List A
  whole : done ++ left ≡ ms
  done_images : map f done ≡ xs
  left_images : map f left ≡ ys

halves :
    {A B : Type 0} (f : A → B) (ms : List A) (xs ys : List B)
    → xs ++ ys ≡ map f ms
    → Halves f ms xs ys
halves f ms [] ys e = record {
  done = [];
  left = ms;
  whole = refl;
  done_images = refl;
  left_images = sym e;
}
halves f [] (x ∷ xs) ys e = cc e
halves f (m ∷ ms) (x ∷ xs) ys e =
    let h = halves f ms xs ys (ap (drop 1) e) in
    let head : x ≡ f m = ap (λ t. get_or t 0 x) e in
    record {
      done = m ∷ h.done;
      left = h.left;
      whole = ap (λ t. m ∷ t) h.whole;
      done_images = ap₂ (λ a b. a ∷ b) (sym head) h.done_images;
      left_images = h.left_images;
    }

pub Awaits-ring :
    {ps : List (List ℕ)} {c : Connection} {kernel : List ℕ} (d : Connection)
    → c.in_buf ≡ d.in_buf
    → Awaits ps c kernel
    → Awaits ps d kernel
Awaits-ring {kernel} d e w = record {
  input = record {
    valid = subst IsValid e w.input.valid;
    sized = ap (λ r. length r.buf) (sym e) ∙ w.input.sized;
  };
  stream = ap (λ r. contents r ++ kernel) (sym e) ∙ w.stream;
  fits = w.fits;
  waits = ap (λ r. front (contents r)) (sym e) ∙ w.waits;
  room = rw (sym e) w.room;
}

is_nil-cons : {A : Type 0} (xs : List A) → xs ≢ [] → is_nil xs ≡ false
unfolding is_nil
is_nil-cons [] h = absurd (h refl)
is_nil-cons (x ∷ xs) h = refl

module _ {M : Type 0} (view : M → Incoming) (p : Protobuf M) where
  abbrev pub Stands : List M → Receiver → Type 0
  Stands ms c = Awaits (map p.serialize ms) (with_ring c.in_buf) c.kernel

  -- From `c` to `out`, in a stream of the messages `ms`: a front part of them is shown, and the others are awaited.
  pub record Shows (ms : List M) (c out : Receiver) : Type 0 where
    pub done : List M
    pub left : List M
    pub whole : done ++ left ≡ ms
    pub texts : out.pushed ≡ c.pushed ++ (texts_of view done ++ notice out.running)
    pub stands : Stands left out

  -- What one read did.
  record Read (ms : List M) (c out : Receiver) : Type 0 where
    done : List M
    left : List M
    whole : done ++ left ≡ ms
    texts : out.pushed ≡ c.pushed ++ texts_of view done
    stands : Stands left out
    goes_on : out.running ≡ c.running

  room-free :
      (ms : List M) (c : Receiver) → Stands ms c → is_nil (get_writeable_iovecs c.in_buf) ≡ false
  room-free ms c w = is_nil-cons (get_writeable_iovecs c.in_buf) (
      get_writeable_iovecs_some w.input.valid
        (omega (arith, w.room, length-contents c.in_buf, w.input.sized)))

  read_socket-free :
      (sys : Readv) (c : Receiver) (k : ℕ)
      → is_nil (get_writeable_iovecs c.in_buf) ≡ false
      → (done : List M) (s : Ring)
      → let r = receive sys c.in_buf (bytes_read c k) in
        decode_messages view p (suc (size r)) r ≡ (done, s)
        → read_socket view p sys c k ≡ record c {
          in_buf = s;
          kernel = drop (length (bytes_read c k)) c.kernel;
          pushed = c.pushed ++ texts_of view done;
        }
  unfolding read_socket
  read_socket-free sys c k h done s e =
      if_false (is_nil (get_writeable_iovecs c.in_buf)) _ _ h
      ∙ ap
          (λ (x : List M × Ring). record c {
            in_buf = x.1;
            kernel = drop (length (bytes_read c k)) c.kernel;
            pushed = c.pushed ++ texts_of view x.0;
          })
          e

  taken_in :
      (sys : Readv) (ms : List M) (c : Receiver) (k : ℕ)
      → Stands ms c
      → let r = receive sys c.in_buf (bytes_read c k) in
        let (payloads, s) = decode_all (suc (size r)) r in
        Delivers (map p.serialize ms) (record {
          conn = with_ring s;
          messages = payloads;
          kernel = drop (length (bytes_read c k)) c.kernel;
          should_close = none;
        })
  unfolding take_in update_activity bytes_read Receive.readable
  taken_in sys ms c k w =
      let d = take_in-Delivers sys k 0 w in
      record { left = d.left; payloads = d.payloads; awaits = Awaits-ring _ refl d.awaits }

  read_socket-Read :
      (sys : Readv) (ms : List M) (c : Receiver) (k : ℕ)
      → Stands ms c
      → Read ms c (read_socket view p sys c k)
  read_socket-Read sys ms c k w =
      let fuel : ℕ = suc (size (receive sys c.in_buf (bytes_read c k))) in
      let r : Ring = receive sys c.in_buf (bytes_read c k) in
      let one = taken_in sys ms c k w in
      let h = halves p.serialize ms (decode_all fuel r).0 one.left one.payloads in
      let after = record c {
        in_buf = (decode_all fuel r).1;
        kernel = drop (length (bytes_read c k)) c.kernel;
        pushed = c.pushed ++ texts_of view h.done;
      } in
      subst (Read ms c)
        (sym (
          read_socket-free sys c k (room-free ms c w) h.done (decode_all fuel r).1
            (decode_messages-all view p fuel r h.done (sym h.done_images))))
        (record {
          done = h.done;
          left = h.left;
          whole = h.whole;
          texts = refl;
          stands =
              subst (λ ps. Awaits ps (with_ring after.in_buf) after.kernel) (sym h.left_images)
                one.awaits;
          goes_on = refl;
        })

  stays : (ms : List M) (c : Receiver) → c.running ≡ true → Stands ms c → Shows ms c c
  stays ms c r w = record {
    done = [];
    left = ms;
    whole = refl;
    texts = sym (append-nil c.pushed) ∙ ap (λ b. c.pushed ++ notice b) (sym r);
    stands = w;
  }

  Shows-if :
      (ms : List M) (c : Receiver) (b : Bool) (x y : Receiver)
      → Shows ms c x
      → Shows ms c y
      → Shows ms c (if b then x else y)
  Shows-if ms c true x y h k = h
  Shows-if ms c false x y h k = k

  -- If a running receiver stands in a stream of messages (its input ring is valid and holds less than one packet, the
  -- ring and then the kernel hold the packets of these messages, each of at most 8192 bytes), then for any answers of
  -- `poll` and `readv` it pushes the texts of a front part of the messages, in order, and after them the notice if the
  -- connection has hung up; and it stands in the stream of the others.
  pub receive_loop-Shows :
      (sys : Readv) (answers : List PollAnswer) (ms : List M) (c : Receiver)
      → c.running ≡ true
      → Stands ms c
      → Shows ms c (receive_loop view p sys c answers)
  unfolding receive_loop
  receive_loop-Shows sys [] ms c r w = stays ms c r w
  receive_loop-Shows sys (nothing_yet ∷ answers) ms c r w = receive_loop-Shows sys answers ms c r w
  receive_loop-Shows sys (poll_failed ∷ answers) ms c r w = stays ms c r w
  receive_loop-Shows sys (hung_up ∷ answers) ms c r w = record {
    done = [];
    left = ms;
    whole = refl;
    texts = refl;
    stands = w;
  }
  receive_loop-Shows sys (readv_ready k ∷ answers) ms c r w =
      let one = read_socket-Read sys ms c k w in
      let later =
        receive_loop-Shows sys answers one.left (read_socket view p sys c k) (one.goes_on ∙ r)
          one.stands in
      Shows-if ms c (not (is_nil (get_writeable_iovecs c.in_buf)) && is_nil (bytes_read c k)) c _
        (stays ms c r w)
        (record {
          done = one.done ++ later.done;
          left = later.left;
          whole =
              append_assoc one.done later.done later.left
              ∙ ap (λ t. one.done ++ t) later.whole
              ∙ one.whole;
          texts =
              later.texts
              ∙ ap
                  (λ t.
                    t
                    ++ (texts_of view later.done
                        ++ notice
                            (receive_loop view p sys (read_socket view p sys c k) answers).running))
                  one.texts
              ∙ append_assoc c.pushed (texts_of view one.done) _
              ∙ ap (λ t. c.pushed ++ t)
                  (sym (append_assoc (texts_of view one.done) (texts_of view later.done) _)
                    ∙ ap
                        (λ t.
                          t
                          ++ notice
                              (receive_loop view p sys (read_socket view p sys c k)
                                answers).running)
                        (sym (texts_of-append view one.done later.done)));
          stands = later.stands;
        })
  receive_loop-Shows sys (readv_ends ∷ answers) ms c r w = stays ms c r w
