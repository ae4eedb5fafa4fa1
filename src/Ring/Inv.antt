-- ===== src/Ring/Inv.antt =====
-- The representation invariant of `RingBuffer` (v4/ringbuffer.h), and the bytes that it holds.
use tcp_server_client_cpp.Base.{
  refl, ℕ, ◌+◌, ◌-◌, ◌≤◌, ◌<◌, ◌≡◌, ◌^◌, ◌%◌, List, [], length, get_or, min, add_size, arith,
  length-replicate,
}
use tcp_server_client_cpp.Ring.{Ring, make, commit_write, consume}
use tcp_server_client_cpp.Ring.Memory.{slot, slot-lt, mod-slot, tabulate, length-tabulate}

-- The storage is not empty and no larger than a `std::vector` can be; the indices lie in it.
pub record IsValid (r : Ring) : Type 0 where
  pub small : length r.buf < 2 ^ 63
  pub read_in : r.read_pos < length r.buf
  pub count_in : r.count ≤ length r.buf
  pub write_at : r.write_pos ≡ slot (length r.buf) (r.read_pos + r.count)

-- The i-th byte from the read index on.
abbrev pub byte_at : Ring → ℕ → ℕ
byte_at r i = get_or r.buf (slot (length r.buf) (r.read_pos + i)) 0

-- The bytes held, oldest first.
abbrev pub contents : Ring → List ℕ
contents r = tabulate r.count (byte_at r)

abbrev pub free_bytes : Ring → ℕ
free_bytes r = length r.buf - r.count

pub length-contents : (r : Ring) → length (contents r) ≡ r.count
length-contents r = length-tabulate r.count (byte_at r)

pub make-IsValid : (n : ℕ) → 0 < n → n < 2 ^ 63 → IsValid (make n)
unfolding make
make-IsValid n p h = ground (arith, length-replicate {A = ℕ} n 0)

pub write_pos-lt : {r : Ring} → IsValid r → r.write_pos < length r.buf
write_pos-lt {r} v =
    rw v.write_at (slot-lt (length r.buf) (r.read_pos + r.count) (omega arith) (omega arith))

-- Moving the write index on by what is committed.
pub write_pos-step :
    {r : Ring} (n : ℕ)
    → IsValid r
    → n ≤ free_bytes r
    → (add_size r.write_pos n % length r.buf ≡ slot (length r.buf) (r.read_pos + (r.count + n)))
      × (add_size r.count n ≡ r.count + n)
write_pos-step {r} n v h =
    ground (arith, mod-slot (length r.buf) (r.write_pos + n), write_pos-lt v, v.write_at)

pub commit_write-IsValid :
    {r : Ring} (n : ℕ) → IsValid r → n ≤ free_bytes r → IsValid (commit_write r n)
unfolding commit_write
commit_write-IsValid {r} n v h = ground (arith, write_pos-step n v h)

pub consume-IsValid : {r : Ring} (n : ℕ) → IsValid r → IsValid (consume r n)
unfolding consume
consume-IsValid {r} n v = ground (arith, mod-slot (length r.buf) (r.read_pos + min n r.count))

pub capacity-make : (n : ℕ) → length (make n).buf ≡ n
unfolding make
capacity-make n = length-replicate {A = ℕ} n 0

pub contents-make : (n : ℕ) → contents (make n) ≡ []
unfolding make
contents-make n = refl
