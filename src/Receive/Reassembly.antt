-- ===== src/Receive/Reassembly.antt =====
-- `WebServer::handle_read` (v4/webserver.cpp) on a peer that sends well-formed packets, however TCP cuts them.
use tcp_server_client_cpp.Base.{
  ℕ, suc, ◌≤◌, ◌<◌, min, ◌≡◌, refl, sym, ap, subst, ◌∙◌, inl, inr, ◌||◌, none, List, [], ◌∷◌, ◌++◌,
  append-nil, append_assoc, arith, Bool-cases, length, take, drop, length-append, length-take,
  take-append-drop, drop-min_le,
}
use tcp_server_client_cpp.Ring.{Ring, size, get_writeable_iovecs}
use tcp_server_client_cpp.Ring.Inv.{
  IsValid, contents, free_bytes, length-contents, make-IsValid, capacity-make, contents-make,
}
use tcp_server_client_cpp.Ring.Scatter.{
  Readv, receive, receive_refines, length-receive, total_len, get_writeable_iovecs_bounds,
}
use tcp_server_client_cpp.Codec.Frame.{need_more, front, length-frame, front-frame, front-short}
use tcp_server_client_cpp.Codec.Stream.{frames, AllFit, Cut, cut}
use tcp_server_client_cpp.Conn.{Connection, in_buf_size, connect}
use tcp_server_client_cpp.Wire.{is_nil}
use tcp_server_client_cpp.Receive.{
  ReadAnswer, ready, no_data, failed, ReadDone, readable, take_in, handle_read, decode_all,
}
use tcp_server_client_cpp.Receive.Drain.{Drained, decode_all-Drained, length-frames}

-- The input ring is valid, of the size that the connection gave it.
pub record IsInput (c : Connection) : Type 0 where
  pub valid : IsValid c.in_buf
  pub sized : length c.in_buf.buf ≡ in_buf_size

-- Where a connection stands in a stream of packets: `left` is still to come, in the ring and in the kernel, and
-- the ring holds less than one packet of it.
pub record Awaits (left : List (List ℕ)) (c : Connection) (kernel : List ℕ) : Type 0 where
  pub input : IsInput c
  pub stream : contents c.in_buf ++ kernel ≡ frames left
  pub fits : AllFit in_buf_size left
  pub waits : front (contents c.in_buf) ≡ need_more
  pub room : length (contents c.in_buf) < in_buf_size

-- What `handle_read` did: it delivered a front part of the packets, and awaits the others.
pub record Delivers (ps : List (List ℕ)) (done : ReadDone) : Type 0 where
  pub left : List (List ℕ)
  pub payloads : done.messages ++ left ≡ ps
  pub awaits : Awaits left done.conn done.kernel

pub AllFit-mono : {m n : ℕ} (ps : List (List ℕ)) → m ≤ n → AllFit m ps → AllFit n ps
AllFit-mono [] h f = tt
AllFit-mono (p ∷ ps) h f = (omega arith, AllFit-mono ps h f.1)

AllFit-right : (limit : ℕ) (ps qs : List (List ℕ)) → AllFit limit (ps ++ qs) → AllFit limit qs
AllFit-right limit [] qs f = f
AllFit-right limit (p ∷ ps) qs f = AllFit-right limit ps qs f.1

AllFit-left : (limit : ℕ) (ps qs : List (List ℕ)) → AllFit limit (ps ++ qs) → AllFit limit ps
AllFit-left limit [] qs f = tt
AllFit-left limit (p ∷ ps) qs f = (f.0, AllFit-left limit ps qs f.1)

pub length-readable :
    (c : Connection) (kernel : List ℕ) (k : ℕ)
    → IsValid c.in_buf
    → length (readable c kernel k) ≤ free_bytes c.in_buf
unfolding readable
length-readable c kernel k v = omega (
  arith,
  length-take (min (suc k) (total_len (get_writeable_iovecs c.in_buf))) kernel,
  (get_writeable_iovecs_bounds v).1,
)

pub readable-drop :
    (c : Connection) (kernel : List ℕ) (k : ℕ)
    → readable c kernel k ++ drop (length (readable c kernel k)) kernel ≡ kernel
unfolding readable
readable-drop c kernel k =
    let n : ℕ = min (suc k) (total_len (get_writeable_iovecs c.in_buf)) in
    ap (λ m. take n kernel ++ drop m kernel) (length-take n kernel)
    ∙ ap (λ t. take n kernel ++ t) (drop-min_le n kernel)
    ∙ take-append-drop n kernel

part_small :
    {ps : List (List ℕ)} {xs ys : List ℕ} (limit : ℕ) (c : Cut ps xs ys)
    → 0 < limit
    → AllFit limit c.left
    → length c.part < limit
part_small limit c p f = elim (c.small) [
  | inl e ↦ omega (arith, ap length e)
  | inr (q, rest, e, short) ↦
      let g : AllFit limit (q ∷ rest) = subst (AllFit limit) e f in
      omega (arith, g.0, short, length-frame q)
]

module _ (sys : Readv) where
  -- One read.
  pub take_in-Delivers :
      {ps : List (List ℕ)} {c : Connection} {kernel : List ℕ} (k now : ℕ)
      → Awaits ps c kernel
      → let bytes = readable c kernel k in
        let (messages, d) = take_in sys c bytes now in
        Delivers ps (record {
          conn = d;
          messages = messages;
          kernel = drop (length bytes) kernel;
          should_close = none;
        })
  unfolding take_in
  take_in-Delivers {ps} {c} {kernel} k now w = record {
    left = parts.left;
    payloads = ap (λ t. t ++ parts.left) out.messages ∙ parts.payloads;
    awaits = record {
      input = record {
        valid = out.valid;
        sized = out.capacity ∙ length-receive sys bytes w.input.valid fits ∙ w.input.sized;
      };
      stream = ap (λ t. t ++ drop (length bytes) kernel) out.kept ∙ parts.unread;
      fits = left_fits;
      waits = ap front out.kept ∙ parts.waits;
      room = rw out.kept (part_small in_buf_size parts (omega arith) left_fits);
    };
  }
    where
      bytes : List ℕ
      bytes = readable c kernel k

      fits : length bytes ≤ free_bytes c.in_buf
      fits = length-readable c kernel k w.input.valid

      r : Ring
      r = receive sys c.in_buf bytes

      got : (contents r ≡ contents c.in_buf ++ bytes) × IsValid r
      got = receive_refines sys bytes w.input.valid fits

      parts : Cut ps (contents c.in_buf ++ bytes) (drop (length bytes) kernel)
      parts =
          cut in_buf_size ps (contents c.in_buf ++ bytes) (drop (length bytes) kernel) (omega arith)
            w.fits
            (append_assoc (contents c.in_buf) bytes (drop (length bytes) kernel)
              ∙ ap (λ t. contents c.in_buf ++ t) (readable-drop c kernel k)
              ∙ w.stream)

      all_fit : AllFit in_buf_size (parts.whole ++ parts.left)
      all_fit = subst (AllFit in_buf_size) (sym parts.payloads) w.fits

      left_fits : AllFit in_buf_size parts.left
      left_fits = AllFit-right in_buf_size parts.whole parts.left all_fit

      out : Drained r parts.whole parts.part (decode_all (suc (size r)) r)
      out =
          decode_all-Drained (suc (size r)) parts.whole parts.part got.1 (got.0 ∙ sym parts.read)
            (AllFit-mono parts.whole (omega arith)
              (AllFit-left in_buf_size parts.whole parts.left all_fit))
            parts.waits
            (unfold size in
              omega (
                arith,
                length-frames parts.whole,
                ap length (got.0 ∙ sym parts.read),
                length-append (frames parts.whole) parts.part,
                length-contents r,
              ))

  -- If the connection awaits the packets `ps` (its input ring is valid and holds less than one packet, the
  -- ring and then the kernel hold the stream of `ps`, and each packet takes at most the 8192 bytes of the
  -- ring), then for any answers of the kernel `handle_read` delivers a front part of the payloads of `ps`,
  -- whole and in order, and the connection awaits the others.
  pub handle_read-Delivers :
      (answers : List ReadAnswer) {ps : List (List ℕ)} {c : Connection} {kernel : List ℕ}
      → Awaits ps c kernel
      → Delivers ps (handle_read sys c kernel answers)
  unfolding handle_read
  handle_read-Delivers [] {ps} {c} {kernel} w =
      elim (Bool-cases (is_nil (get_writeable_iovecs c.in_buf))) [
        | inl e ↦ rw e (record { left = ps; payloads = refl; awaits = w })
        | inr e ↦ rw e (record { left = ps; payloads = refl; awaits = w })
      ]
  handle_read-Delivers (ready k now ∷ answers) {ps} {c} {kernel} w =
      let one = take_in-Delivers k now w in
      let later = handle_read-Delivers answers one.awaits in
      elim (Bool-cases (is_nil (get_writeable_iovecs c.in_buf) || is_nil (readable c kernel k))) [
        | inl e ↦ rw e (record { left = ps; payloads = refl; awaits = w })
        | inr e ↦ rw e (record {
          left = later.left;
          payloads =
              append_assoc (take_in sys c (readable c kernel k) now).0 _ later.left
              ∙ ap (λ t. (take_in sys c (readable c kernel k) now).0 ++ t) later.payloads
              ∙ one.payloads;
          awaits = later.awaits;
        })
      ]
  handle_read-Delivers (no_data ∷ answers) {ps} w = record {
    left = ps;
    payloads = refl;
    awaits = w;
  }
  handle_read-Delivers (failed ∷ answers) {ps} w = record { left = ps; payloads = refl; awaits = w }

-- Nothing is awaited once the ring and the kernel hold no more.
Awaits-none : {left : List (List ℕ)} {c : Connection} → Awaits left c [] → left ≡ []
Awaits-none {left = []} w = refl
Awaits-none {left = p ∷ ps} {c} w =
    let e : contents c.in_buf ≡ frames (p ∷ ps) = sym (append-nil (contents c.in_buf)) ∙ w.stream in
    cc (w.waits, ap front e, front-frame p (frames ps) (omega arith))

-- Once the kernel holds nothing more, every packet sent has been delivered.
pub handle_read_complete :
    (sys : Readv) (answers : List ReadAnswer) {ps : List (List ℕ)} {c : Connection}
    {kernel : List ℕ}
    → Awaits ps c kernel
    → (handle_read sys c kernel answers).kernel ≡ []
    → (handle_read sys c kernel answers).messages ≡ ps
handle_read_complete sys answers {ps} {c} {kernel} w e =
    let d = handle_read-Delivers sys answers w in
    let done =
      Awaits-none (subst (Awaits d.left (handle_read sys c kernel answers).conn) e d.awaits) in
    sym (append-nil _)
    ∙ ap (λ t. (handle_read sys c kernel answers).messages ++ t) (sym done)
    ∙ d.payloads

-- A new connection awaits whatever packets its peer sends.
pub connect-Awaits :
    (fd now : ℕ) (ps : List (List ℕ))
    → AllFit in_buf_size ps
    → Awaits ps (connect fd now) (frames ps)
unfolding connect
connect-Awaits fd now ps f = record {
  input = record {
    valid = make-IsValid in_buf_size (omega arith) (omega arith);
    sized = capacity-make in_buf_size;
  };
  stream = rw contents-make refl;
  fits = f;
  waits = rw contents-make (front-short [] (omega arith));
  room = rw contents-make (omega arith);
}
