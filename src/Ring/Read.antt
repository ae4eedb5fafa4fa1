-- ===== src/Ring/Read.antt =====
-- The reading side of `RingBuffer` (v4/ringbuffer.h): peek, consume and the contiguous read region.
use tcp_server_client_cpp.Base.{
  ℕ, zero, suc, ◌+◌, ◌-◌, ◌≤◌, ◌<◌, ◌≡◌, refl, sym, ap, ap₂, ◌∙◌, inl, inr, List, [], ◌++◌, length,
  get_or, take, drop, min, ltb, if◌then◌else◌, sub_size, arith, Bool-cases, list_ext, length-take,
  length-drop, length-append, get_or-take, get_or-drop, get_or-append, get_or-append_left, ltb→lt,
  lt→ltb, ltb→le,
}
use tcp_server_client_cpp.Ring.{Ring, peek, consume, get_read_ptr, get_contiguous_read_size}
use tcp_server_client_cpp.Ring.Memory.{slot, mod-slot}
use tcp_server_client_cpp.Ring.Inv.{
  consume-IsValid, IsValid, contents, length-contents, write_pos-lt,
}
use tcp_server_client_cpp.Ring.Refine.{get_or-contents}

consume-step :
    {r : Ring} (n : ℕ)
    → IsValid r
    → ((consume r n).buf ≡ r.buf)
      × ((consume r n).read_pos ≡ slot (length r.buf) (r.read_pos + min n r.count))
      × ((consume r n).count ≡ r.count - min n r.count)
unfolding consume
consume-step {r} n v = ground (arith, mod-slot (length r.buf) (r.read_pos + min n r.count))

-- A ring with the same storage, read `k` places on.
contents-skip :
    {r : Ring} (k : ℕ) (s : Ring)
    → IsValid r
    → k ≤ r.count
    → s.buf ≡ r.buf
    → s.read_pos ≡ slot (length r.buf) (r.read_pos + k)
    → s.count ≡ r.count - k
    → contents s ≡ drop k (contents r)
contents-skip {r} k s v h eb er ec =
    list_ext 0 (contents s) (drop k (contents r))
      (omega (arith, length-contents s, length-contents r, length-drop k (contents r)))
      λ i l.
        let i_in : k + i < r.count = omega (arith, length-contents s) in
        let at : slot (length s.buf) (s.read_pos + i) ≡ slot (length r.buf) (r.read_pos + (k + i)) =
          rw (eb, er) (ground arith) in
        get_or-contents s i (omega (arith, length-contents s))
        ∙ ap₂ (λ b j. get_or b j 0) eb at
        ∙ sym (get_or-contents r (k + i) i_in)
        ∙ sym (get_or-drop k (contents r) i 0)

-- On a valid ring `consume` removes the oldest bytes, as many as are asked for or as there are, and keeps the
-- ring valid.
pub consume_refines :
    {r : Ring} (n : ℕ)
    → IsValid r
    → (contents (consume r n) ≡ drop (min n r.count) (contents r)) × IsValid (consume r n)
consume_refines {r} n v = (
  contents-skip (min n r.count) (consume r n) v (omega arith) step.0 step.1 step.2,
  consume-IsValid n v,
)
  where
    step :
        ((consume r n).buf ≡ r.buf)
        × ((consume r n).read_pos ≡ slot (length r.buf) (r.read_pos + min n r.count))
        × ((consume r n).count ≡ r.count - min n r.count)
    step = consume-step n v

-- The two pieces that `peek` copies, read index by index.
module _ (buf : List ℕ) (pos k : ℕ) where
  head_len : ℕ
  head_len = min k (length buf - pos)

  pieces : List ℕ
  pieces = take head_len (drop pos buf) ++ take (k - head_len) buf

module _ (buf : List ℕ) (pos k : ℕ) (pos_in : pos < length buf) (fits : k ≤ length buf) where
  length-pieces : length (pieces buf pos k) ≡ k
  unfolding pieces head_len
  length-pieces = omega (
    arith,
    length-append (take (head_len buf pos k) (drop pos buf)) (take (k - (head_len buf pos k)) buf),
    length-take (head_len buf pos k) (drop pos buf),
    length-drop pos buf,
    length-take (k - (head_len buf pos k)) buf,
  )

  length-head : length (take (head_len buf pos k) (drop pos buf)) ≡ (head_len buf pos k)
  unfolding head_len
  length-head = omega (arith, length-take (head_len buf pos k) (drop pos buf), length-drop pos buf)

  get_or-pieces :
      (i : ℕ) → i < k → get_or (pieces buf pos k) i 0 ≡ get_or buf (slot (length buf) (pos + i)) 0
  unfolding pieces
  get_or-pieces i h = elim (Bool-cases (ltb (pos + i) (length buf))) [
    | inl e ↦ rw e (
        get_or-append_left (take (head_len buf pos k) (drop pos buf))
          (take (k - (head_len buf pos k)) buf) i 0
          (omega (arith, length-head, in_head (ltb→lt _ _ e)))
        ∙ get_or-take (head_len buf pos k) (drop pos buf) i 0 (in_head (ltb→lt _ _ e))
        ∙ get_or-drop pos buf i 0)
    | inr e ↦ rw e (
        get_or-append (take (head_len buf pos k) (drop pos buf))
          (take (k - (head_len buf pos k)) buf) i 0
          (omega (arith, length-head, past_head (ltb→le _ _ e)))
        ∙ ap (λ n. get_or (take (k - (head_len buf pos k)) buf) (i - n) 0) length-head
        ∙ get_or-take (k - (head_len buf pos k)) buf (i - (head_len buf pos k)) 0
            (omega (arith, past_head (ltb→le _ _ e)))
        ∙ ap (λ j. get_or buf j 0) (omega (arith, past_head (ltb→le _ _ e))))
  ]
    where
      in_head : pos + i < length buf → i < (head_len buf pos k)
      in_head l = unfold head_len in omega arith

      past_head :
          length buf ≤ pos + i
          → ((head_len buf pos k) ≡ length buf - pos) × ((head_len buf pos k) ≤ i)
      past_head l = unfold head_len in omega arith

both_ways : (m : ℕ) (xs : List ℕ) → (if ltb 0 m then take m xs else []) ≡ take m xs
both_ways zero xs = refl
both_ways (suc m) xs = rw (lt→ltb 0 (suc m) (omega arith))

peek-pieces : {r : Ring} (n : ℕ) → IsValid r → peek r n ≡ pieces r.buf r.read_pos (min n r.count)
unfolding peek pieces head_len
peek-pieces {r} n v =
    rw (to_end, second)
      (ap (λ ys. take first (drop r.read_pos r.buf) ++ ys) (both_ways (k - first) r.buf))
  where
    k : ℕ
    k = min n r.count

    first : ℕ
    first = min k (length r.buf - r.read_pos)

    to_end : sub_size (length r.buf) r.read_pos ≡ length r.buf - r.read_pos
    to_end = omega arith

    second : sub_size k first ≡ k - first
    second = omega arith

-- On a valid ring `peek` copies the oldest bytes, as many as are asked for or as there are.
pub peek_refines : {r : Ring} (n : ℕ) → IsValid r → peek r n ≡ take n (contents r)
peek_refines {r} n v =
    peek-pieces n v
    ∙ list_ext 0 (pieces r.buf r.read_pos (min n r.count)) (take n (contents r))
        (omega (arith, size_of, length-take n (contents r), length-contents r))
        λ i h.
          let i_in : i < min n r.count = omega (arith, size_of) in
          get_or-pieces r.buf r.read_pos (min n r.count) v.read_in (omega arith) i i_in
          ∙ sym (get_or-contents r i (omega arith))
          ∙ sym (get_or-take n (contents r) i 0 (omega arith))
  where
    size_of : length (pieces r.buf r.read_pos (min n r.count)) ≡ min n r.count
    size_of = length-pieces r.buf r.read_pos (min n r.count) v.read_in (omega arith)

contiguous_fits :
    {r : Ring}
    → IsValid r
    → (get_contiguous_read_size r ≤ r.count)
      × (r.read_pos + get_contiguous_read_size r ≤ length r.buf)
      × (get_contiguous_read_size r ≡ 0 → r.count ≡ 0)
unfolding get_contiguous_read_size
contiguous_fits {r} v = (
  ground (arith, write_pos-lt v),
  ground (arith, write_pos-lt v),
  λ e. ground (arith, write_pos-lt v),
)

-- A run of the storage from the read index on that does not go round holds the oldest bytes.
take-drop-contents :
    {r : Ring} (n : ℕ)
    → IsValid r
    → n ≤ r.count
    → r.read_pos + n ≤ length r.buf
    → take n (drop r.read_pos r.buf) ≡ take n (contents r)
take-drop-contents {r} n v h k =
    list_ext 0 (take n (drop r.read_pos r.buf)) (take n (contents r))
      (omega (
        arith,
        length-take n (drop r.read_pos r.buf),
        length-drop r.read_pos r.buf,
        length-take n (contents r),
        length-contents r,
      ))
      λ i l.
        let i_in : i < n = omega (arith, length-take n (drop r.read_pos r.buf)) in
        let at : slot (length r.buf) (r.read_pos + i) ≡ r.read_pos + i = ground arith in
        get_or-take n (drop r.read_pos r.buf) i 0 i_in
        ∙ get_or-drop r.read_pos r.buf i 0
        ∙ ap (λ j. get_or r.buf j 0) (sym at)
        ∙ sym (get_or-contents r i (omega arith))
        ∙ sym (get_or-take n (contents r) i 0 i_in)

-- On a valid ring the memory at `get_read_ptr()`, over `get_contiguous_read_size()` bytes, is the oldest part
-- of the bytes held; that size is at most the number held, and it is 0 only if the ring is empty.
pub get_read_ptr_refines :
    {r : Ring}
    → IsValid r
    → let n = get_contiguous_read_size r in
      (take n (get_read_ptr r) ≡ take n (contents r)) × (n ≤ r.count) × (n ≡ 0 → r.count ≡ 0)
unfolding get_read_ptr
get_read_ptr_refines {r} v =
    (take-drop-contents (get_contiguous_read_size r) v fits.0 fits.1, fits.0, fits.2)
  where
    fits :
        (get_contiguous_read_size r ≤ r.count)
        × (r.read_pos + get_contiguous_read_size r ≤ length r.buf)
        × (get_contiguous_read_size r ≡ 0 → r.count ≡ 0)
    fits = contiguous_fits v

pub length-consume : (r : Ring) (n : ℕ) → length (consume r n).buf ≡ length r.buf
unfolding consume
length-consume r n = refl
