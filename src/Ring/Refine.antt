-- ===== src/Ring/Refine.antt =====
-- `RingBuffer` (v4/ringbuffer.h) against the list of the bytes that it holds.
use tcp_server_client_cpp.Base.{
  ℕ, ◌+◌, ◌-◌, ◌≤◌, ◌<◌, ◌≡◌, refl, sym, ap, ◌∙◌, inl, inr, List, ◌++◌, length, get_or, take, drop,
  min, ltb, if◌then◌else◌, sub_size, arith, Bool-cases, list_ext, length-take, length-append,
  take-take, drop-take, get_or-append, get_or-append_left, ltb→lt, ltb→le, take-min,
}
use tcp_server_client_cpp.Ring.{Ring, memcpy, write}
use tcp_server_client_cpp.Ring.Memory.{
  slot, get_or-tabulate, store, length-store, get_or-store_in, get_or-store_out, memcpy-nil,
}
use tcp_server_client_cpp.Ring.Inv.{
  IsValid, byte_at, contents, free_bytes, length-contents, write_pos-lt, write_pos-step,
}

pub get_or-contents : (r : Ring) (i : ℕ) → i < r.count → get_or (contents r) i 0 ≡ byte_at r i
get_or-contents r i h = get_or-tabulate r.count (byte_at r) i 0 h

byte_at-stored :
    (r : Ring) (bytes : List ℕ) (s : Ring) (i : ℕ)
    → s.buf ≡ store r.buf r.write_pos bytes
    → s.read_pos ≡ r.read_pos
    → byte_at s i ≡ get_or (store r.buf r.write_pos bytes) (slot (length r.buf) (r.read_pos + i)) 0
byte_at-stored r bytes s i eb er = rw (eb, er, length-store r.buf r.write_pos bytes)

-- A ring whose storage has `bytes` stored at the old write index, and whose count is larger by their number,
-- holds the old bytes and then those.
pub contents-store :
    {r : Ring} (bytes : List ℕ) (s : Ring)
    → IsValid r
    → length bytes ≤ free_bytes r
    → s.buf ≡ store r.buf r.write_pos bytes
    → s.read_pos ≡ r.read_pos
    → s.count ≡ r.count + length bytes
    → contents s ≡ contents r ++ bytes
contents-store {r} bytes s v h eb er ec =
    list_ext 0 (contents s) (contents r ++ bytes)
      (omega (arith, length-contents s, length-contents r, length-append (contents r) bytes))
      λ i k. elim (Bool-cases (ltb i r.count)) [
        | inl e ↦
            let at : slot (length r.buf) (r.read_pos + i)
                ≡ slot (length r.buf) (r.write_pos + (free_bytes r + i)) =
              ground (arith, v.write_at, ltb→lt _ _ e) in
            get_or-contents s i (omega (arith, ltb→lt _ _ e))
            ∙ byte_at-stored r bytes s i eb er
            ∙ ap (λ j. get_or (store r.buf r.write_pos bytes) j 0) at
            ∙ get_or-store_out r.buf r.write_pos bytes (free_bytes r + i) (write_pos-lt v)
                (omega arith) (omega arith) (omega (arith, ltb→lt _ _ e))
            ∙ ap (λ j. get_or r.buf j 0) (sym at)
            ∙ sym (get_or-contents r i (ltb→lt _ _ e))
            ∙ sym (
                get_or-append_left (contents r) bytes i 0
                  (omega (arith, ltb→lt _ _ e, length-contents r)))
        | inr e ↦
            let at : slot (length r.buf) (r.read_pos + i)
                ≡ slot (length r.buf) (r.write_pos + (i - r.count)) =
              ground (arith, v.write_at, ltb→le _ _ e, length-contents s) in
            get_or-contents s i (omega (arith, length-contents s))
            ∙ byte_at-stored r bytes s i eb er
            ∙ ap (λ j. get_or (store r.buf r.write_pos bytes) j 0) at
            ∙ get_or-store_in r.buf r.write_pos bytes (i - r.count) (write_pos-lt v) (omega arith)
                (omega (arith, ltb→le _ _ e, length-contents s))
            ∙ ap (λ n. get_or bytes (i - n) 0) (sym (length-contents r))
            ∙ sym (
                get_or-append (contents r) bytes i 0
                  (omega (arith, ltb→le _ _ e, length-contents r)))
      ]

-- The two copies of `write`, the second made only where it copies something.
two_chunks :
    (buf bytes : List ℕ) (wp n first : ℕ)
    → n ≤ length bytes
    → first ≡ min n (length buf - wp)
    → (if ltb 0 (n - first)
        then memcpy (memcpy buf wp (take first bytes)) 0 (take (n - first) (drop first bytes))
        else memcpy buf wp (take first bytes))
      ≡ store buf wp (take n bytes)
two_chunks buf bytes wp n first h e =
    let n1 : min (length (take n bytes)) (length buf - wp) ≡ first =
      omega (arith, length-take n bytes) in
    rw (n1, take-take first n bytes (omega arith), drop-take first n bytes)
      (elim (Bool-cases (ltb 0 (n - first))) [
        | inl some_left ↦ rw some_left
        | inr none_left ↦
            let z : n - first ≡ 0 = omega (arith, ltb→le _ _ none_left) in
            rw (none_left, z, memcpy-nil)
      ])

-- What `write` leaves in the storage is the bytes that fit, stored at the write index.
write-store :
    {r : Ring} (bytes : List ℕ)
    → IsValid r
    → let (n, s) = write r bytes in
      (n ≡ min (length bytes) (free_bytes r)) × (s.buf ≡ store r.buf r.write_pos (take n bytes))
unfolding write
write-store {r} bytes v =
    let free : sub_size (length r.buf) r.count ≡ free_bytes r = omega arith in
    let to_end : sub_size (length r.buf) r.write_pos ≡ length r.buf - r.write_pos =
      omega (arith, write_pos-lt v) in
    rw (free, to_end)
      (
        refl,
        (let n : ℕ = min (length bytes) (free_bytes r) in
            let first : ℕ = min n (length r.buf - r.write_pos) in
            let second : sub_size n first ≡ n - first = omega arith in
            rw second (two_chunks r.buf bytes r.write_pos n first (omega arith) refl)),
      )

write-step :
    {r : Ring} (bytes : List ℕ)
    → IsValid r
    → let (n, s) = write r bytes in
      (s.read_pos ≡ r.read_pos)
      × (s.count ≡ r.count + n)
      × (s.write_pos ≡ slot (length r.buf) (r.read_pos + (r.count + n)))
unfolding write
write-step {r} bytes v =
    ground (arith, write_pos-step (min (length bytes) (sub_size (length r.buf) r.count)) v)

-- On a valid ring `write` returns the smaller of the length given and the free space, appends exactly so many
-- of the bytes, in order, and keeps the ring valid.
pub write_refines :
    {r : Ring} (bytes : List ℕ)
    → IsValid r
    → let (n, s) = write r bytes in
      (n ≡ min (length bytes) (free_bytes r))
      × (contents s ≡ contents r ++ take (free_bytes r) bytes)
      × IsValid s
write_refines {r} bytes v = (parts.0, shown, valid)
  where
    n : ℕ
    n = (write r bytes).0

    s : Ring
    s = (write r bytes).1

    parts :
        (n ≡ min (length bytes) (free_bytes r)) × (s.buf ≡ store r.buf r.write_pos (take n bytes))
    parts = write-store bytes v

    taken : length (take n bytes) ≡ n
    taken = omega (arith, length-take n bytes, parts.0)

    step :
        (s.read_pos ≡ r.read_pos)
        × (s.count ≡ r.count + n)
        × (s.write_pos ≡ slot (length r.buf) (r.read_pos + (r.count + n)))
    step = write-step bytes v

    shown : contents s ≡ contents r ++ take (free_bytes r) bytes
    shown =
        contents-store (take n bytes) s v (omega (arith, parts.0, taken)) parts.1 step.0
          (omega (arith, step.1, taken))
        ∙ ap (λ ys. contents r ++ ys)
            (ap (λ k. take k bytes) parts.0 ∙ take-min (free_bytes r) bytes)

    valid : IsValid s
    valid =
        let e : length s.buf ≡ length r.buf =
          ap length parts.1 ∙ length-store r.buf r.write_pos (take n bytes) in
        record {
          small = rw e v.small;
          read_in = rw (e, step.0) v.read_in;
          count_in = rw (e, step.1) (omega (arith, parts.0));
          write_at = rw (e, step.0, step.1) step.2;
        }

pub length-write :
    {r : Ring} (bytes : List ℕ) → IsValid r → length (write r bytes).1.buf ≡ length r.buf
length-write {r} bytes v =
    ap length (write-store bytes v).1
    ∙ length-store r.buf r.write_pos (take (write r bytes).0 bytes)
