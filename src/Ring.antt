-- ===== src/Ring.antt =====
-- `RingBuffer` of v4/ringbuffer.h (v3/ringbuffer.h is the same file): a byte ring with a read index, a write
-- index and a count. A method that changes the object returns the new ring.
pub mod Memory
pub mod Inv
pub mod Refine
pub mod Read
pub mod Scatter
pub mod Run
pub mod Tests
use tcp_server_client_cpp.Base.{
  ℕ, zero, suc, ◌+◌, ◌-◌, ◌%◌, ◌<◌, min, List, [], ◌∷◌, ◌++◌, Bool, length, take, drop, replicate,
  ltb, ◌==◌, if◌then◌else◌, add_size, sub_size,
}

-- `buf_`, `read_pos_`, `write_pos_`, `count_`.
pub record Ring : Type 0 where
  pub buf : List ℕ
  pub read_pos : ℕ
  pub write_pos : ℕ
  pub count : ℕ

-- The constructor: `std::vector<uint8_t>(capacity)` holds zeros.
pub make : ℕ → Ring
make cap = record { buf = replicate cap 0; read_pos = 0; write_pos = 0; count = 0 }

unfoldable pub size : Ring → ℕ
size r = r.count

pub capacity : Ring → ℕ
capacity r = length r.buf

unfoldable pub empty : Ring → Bool
empty r = r.count == 0

unfoldable pub full : Ring → Bool
full r = r.count == length r.buf

-- `std::memcpy(&dst[pos], src, n)`; bytes past the end of `dst` are dropped.
pub memcpy : List ℕ → ℕ → List ℕ → List ℕ
memcpy [] pos src = []
memcpy (d ∷ dst) (suc pos) src = d ∷ memcpy dst pos src
memcpy (d ∷ dst) zero [] = d ∷ dst
memcpy (d ∷ dst) zero (s ∷ src) = s ∷ memcpy dst zero src

-- `write(data, len)`, the bytes `data[0 .. len)` given as a list. The result is the number written.
pub write : Ring → List ℕ → ℕ × Ring
write r bytes =
    let cap = length r.buf in
    let free_space = sub_size cap r.count in
    let bytes_to_write = min (length bytes) free_space in
    let first_chunk = min bytes_to_write (sub_size cap r.write_pos) in
    let buf1 = memcpy r.buf r.write_pos (take first_chunk bytes) in
    let second_chunk = sub_size bytes_to_write first_chunk in
    let buf2 =
      if ltb 0 second_chunk
      then memcpy buf1 0 (take second_chunk (drop first_chunk bytes))
      else buf1 in
    (
      bytes_to_write,
      record r {
        buf = buf2;
        write_pos = add_size r.write_pos bytes_to_write % cap;
        count = add_size r.count bytes_to_write;
      },
    )

-- An `iovec` into the ring's storage: the index of its first byte, and its length.
pub record Iovec : Type 0 where
  pub base : ℕ
  pub len : ℕ

pub get_writeable_iovecs : Ring → List Iovec
get_writeable_iovecs r =
    let cap = length r.buf in
    let free_space = sub_size cap r.count in
    let contiguous_to_end = sub_size cap r.write_pos in
    let len1 = min free_space contiguous_to_end in
    let iov1 : Iovec = record { base = r.write_pos; len = len1 } in
    let iov2 : Iovec = record { base = 0; len = sub_size free_space len1 } in
    if free_space == 0 then [] else if ltb len1 free_space then iov1 ∷ iov2 ∷ [] else iov1 ∷ []

pub commit_write : Ring → ℕ → Ring
commit_write r len = record r {
  write_pos = add_size r.write_pos len % length r.buf;
  count = add_size r.count len;
}

-- `peek(out, len)`: the bytes that it copies to `out`. Its result is their number.
pub peek : Ring → ℕ → List ℕ
peek r len =
    let bytes_to_read = min len r.count in
    let cap = length r.buf in
    let first_chunk = min bytes_to_read (sub_size cap r.read_pos) in
    let second_chunk = sub_size bytes_to_read first_chunk in
    take first_chunk (drop r.read_pos r.buf)
    ++ (if ltb 0 second_chunk then take second_chunk r.buf else [])

pub consume : Ring → ℕ → Ring
consume r len =
    let to_remove = min len r.count in
    record r {
      read_pos = add_size r.read_pos to_remove % length r.buf;
      count = sub_size r.count to_remove;
    }

-- The memory that `get_read_ptr()` points at, up to the end of the storage.
pub get_read_ptr : Ring → List ℕ
get_read_ptr r = drop r.read_pos r.buf

pub get_contiguous_read_size : Ring → ℕ
get_contiguous_read_size r =
    if r.count == 0
    then 0
    else if ltb r.read_pos r.write_pos
    then sub_size r.write_pos r.read_pos
    else sub_size (length r.buf) r.read_pos
