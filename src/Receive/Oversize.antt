-- ===== src/Receive/Oversize.antt =====
-- A packet larger than the input ring (v4/webserver.cpp, v4/connection.h): the codec's limit of 10 MB lets its
-- header pass, and the ring of 8192 bytes never holds it.
use tcp_server_client_cpp.Base.{
  ℕ, suc, ◌+◌, ◌≤◌, ◌<◌, ◌≡◌, refl, ap, ap₂, ◌∙◌, inl, inr, ◌||◌, List, [], ◌∷◌, ◌++◌, append_assoc,
  arith, Bool-cases, length, drop, length-append,
}
use tcp_server_client_cpp.Ring.{Ring, size, get_writeable_iovecs}
use tcp_server_client_cpp.Ring.Inv.{IsValid, contents, free_bytes, length-contents}
use tcp_server_client_cpp.Ring.Scatter.{Readv, receive, receive_refines, length-receive}
use tcp_server_client_cpp.Codec.{max_payload}
use tcp_server_client_cpp.Codec.Frame.{need_more, front, frame, length-frame}
use tcp_server_client_cpp.Codec.Stream.{front-part}
use tcp_server_client_cpp.Conn.{Connection, in_buf_size}
use tcp_server_client_cpp.Wire.{is_nil}
use tcp_server_client_cpp.Receive.{
  ReadAnswer, ready, no_data, failed, readable, take_in, handle_read, decode_all,
}
use tcp_server_client_cpp.Receive.Drain.{Drained, decode_all-Drained}
use tcp_server_client_cpp.Receive.Reassembly.{IsInput, length-readable, readable-drop}

-- The ring and the kernel hold the packet of `payload`, which is larger than the ring, and then `more`.
pub record IsStuck (payload more : List ℕ) (c : Connection) (kernel : List ℕ) : Type 0 where
  pub input : IsInput c
  pub stream : contents c.in_buf ++ kernel ≡ frame payload ++ more
  pub too_large : in_buf_size < 4 + length payload
  pub allowed : length payload ≤ max_payload

module _ (sys : Readv) where
  take_in-IsStuck :
      {payload more : List ℕ} {c : Connection} {kernel : List ℕ} (k now : ℕ)
      → IsStuck payload more c kernel
      → let bytes = readable c kernel k in
        let (messages, d) = take_in sys c bytes now in
        (messages ≡ []) × IsStuck payload more d (drop (length bytes) kernel)
  unfolding take_in
  take_in-IsStuck {payload} {more} {c} {kernel} k now w = (
    out.messages,
    record {
      input = record {
        valid = out.valid;
        sized = out.capacity ∙ length-receive sys bytes w.input.valid fits ∙ w.input.sized;
      };
      stream = ap (λ t. t ++ drop (length bytes) kernel) out.kept ∙ whole;
      too_large = w.too_large;
      allowed = w.allowed;
    },
  )
    where
      bytes : List ℕ
      bytes = readable c kernel k

      fits : length bytes ≤ free_bytes c.in_buf
      fits = length-readable c kernel k w.input.valid

      r : Ring
      r = receive sys c.in_buf bytes

      got : (contents r ≡ contents c.in_buf ++ bytes) × IsValid r
      got = receive_refines sys bytes w.input.valid fits

      whole : (contents c.in_buf ++ bytes) ++ drop (length bytes) kernel ≡ frame payload ++ more
      whole =
          append_assoc (contents c.in_buf) bytes (drop (length bytes) kernel)
          ∙ ap (λ t. contents c.in_buf ++ t) (readable-drop c kernel k)
          ∙ w.stream

      waits : front (contents c.in_buf ++ bytes) ≡ need_more
      waits =
          front-part payload (contents c.in_buf ++ bytes) (drop (length bytes) kernel) more
            w.allowed whole
            (omega (
              arith,
              length-append (contents c.in_buf) bytes,
              length-contents c.in_buf,
              length-frame payload,
              w.input.valid.count_in,
              w.too_large,
              fits,
              w.input.sized,
            ))

      out : Drained r [] (contents c.in_buf ++ bytes) (decode_all (suc (size r)) r)
      out =
          decode_all-Drained (suc (size r)) [] (contents c.in_buf ++ bytes) got.1 got.0 tt waits
            (omega arith)

  -- If a valid input ring and then the kernel hold the stream of a packet that is larger than the 8192 bytes
  -- of the ring but within the codec's limit, then `handle_read` delivers nothing, whatever the kernel
  -- answers, and the ring and the kernel still hold that stream.
  pub handle_read-IsStuck :
      (answers : List ReadAnswer) {payload more : List ℕ} {c : Connection} {kernel : List ℕ}
      → IsStuck payload more c kernel
      → let done = handle_read sys c kernel answers in
        (done.messages ≡ []) × IsStuck payload more done.conn done.kernel
  unfolding handle_read
  handle_read-IsStuck [] {c = c} w = elim (Bool-cases (is_nil (get_writeable_iovecs c.in_buf))) [
    | inl e ↦ rw e (refl, w)
    | inr e ↦ rw e (refl, w)
  ]
  handle_read-IsStuck (ready k now ∷ answers) {c = c} {kernel = kernel} w =
      let one = take_in-IsStuck k now w in
      let later = handle_read-IsStuck answers one.1 in
      elim (Bool-cases (is_nil (get_writeable_iovecs c.in_buf) || is_nil (readable c kernel k))) [
        | inl e ↦ rw e (refl, w)
        | inr e ↦ rw e (ap₂ ◌++◌ one.0 later.0, later.1)
      ]
  handle_read-IsStuck (no_data ∷ answers) w = (refl, w)
  handle_read-IsStuck (failed ∷ answers) w = (refl, w)
