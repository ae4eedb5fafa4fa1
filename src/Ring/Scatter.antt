-- ===== src/Ring/Scatter.antt =====
-- Reading from a socket straight into the storage of a `RingBuffer` (v4/ringbuffer.h): the regions of
-- `get_writeable_iovecs`, filled by `readv`, then `commit_write`.
use tcp_server_client_cpp.Base.{
  ℕ, ◌+◌, ◌-◌, ◌≤◌, ◌<◌, ◌≡◌, refl, sym, ap, ap₂, ◌∙◌, ◌≢◌, inl, inr, List, [], ◌∷◌, ◌++◌, arith,
  ltb, ◌==◌, if◌then◌else◌, ltb→le, ==_iff, Bool-cases, length, take, drop, length-drop, take_all,
  drop_all, take-min, drop-min, eq-nil, sub_size,
}
use tcp_server_client_cpp.Ring.{Ring, Iovec, memcpy, get_writeable_iovecs, commit_write}
use tcp_server_client_cpp.Ring.Memory.{store, length-store, memcpy-nil}
use tcp_server_client_cpp.Ring.Inv.{
  IsValid, contents, free_bytes, write_pos-lt, write_pos-step, commit_write-IsValid,
}
use tcp_server_client_cpp.Ring.Refine.{contents-store}

-- What POSIX says of the memory effect of `readv`: the bytes read fill the regions in order, each one wholly
-- before the next.
pub record Readv : Type 0 where
  pub fill : List ℕ → List Iovec → List ℕ → List ℕ
  pub fill-nil : (buf bytes : List ℕ) → fill buf [] bytes ≡ buf
  pub fill-cons :
      (buf : List ℕ) (iov : Iovec) (iovs : List Iovec) (bytes : List ℕ)
      → fill buf (iov ∷ iovs) bytes
        ≡ fill (memcpy buf iov.base (take iov.len bytes)) iovs (drop iov.len bytes)

unfoldable pub total_len : List Iovec → ℕ
total_len [] = 0
total_len (v ∷ vs) = v.len + total_len vs

abbrev pub InBounds : ℕ → List Iovec → Type 0
InBounds n [] = Unit {0}
InBounds n (v ∷ vs) = (0 < v.len) × (v.base + v.len ≤ n) × InBounds n vs

abbrev region : ℕ → ℕ → Iovec
region base len = record { base = base; len = len }

-- The regions with plain subtraction.
abbrev regions : Ring → List Iovec
regions r =
    if free_bytes r == 0
    then []
    else if ltb (length r.buf - r.write_pos) (free_bytes r)
    then region r.write_pos (length r.buf - r.write_pos)
      ∷ region 0 (free_bytes r - (length r.buf - r.write_pos))
      ∷ []
    else region r.write_pos (free_bytes r) ∷ []

iovecs-regions : {r : Ring} → IsValid r → get_writeable_iovecs r ≡ regions r
unfolding get_writeable_iovecs
iovecs-regions {r} v =
    let free : sub_size (length r.buf) r.count ≡ free_bytes r = omega arith in
    let to_end : sub_size (length r.buf) r.write_pos ≡ length r.buf - r.write_pos =
      omega (arith, write_pos-lt v) in
    rw (free, to_end) (ground (arith, write_pos-lt v))

-- The regions that `get_writeable_iovecs` gives for a valid ring lie in the storage, none is empty, and
-- together they are as long as the free space.
pub get_writeable_iovecs_bounds :
    {r : Ring}
    → IsValid r
    → InBounds (length r.buf) (get_writeable_iovecs r)
      × (total_len (get_writeable_iovecs r) ≡ free_bytes r)
unfolding total_len
get_writeable_iovecs_bounds {r} v = ground (arith, iovecs-regions v, write_pos-lt v)

-- `readv` into the regions, then `commit_write` of what it returned.
pub receive : Readv → Ring → List ℕ → Ring
receive k r bytes =
    commit_write (record r { buf = k.fill r.buf (get_writeable_iovecs r) bytes }) (length bytes)

-- `store` with its pieces cut at the end of the storage.
store-chunks :
    (buf : List ℕ) (wp : ℕ) (bytes : List ℕ)
    → store buf wp bytes
      ≡ memcpy (memcpy buf wp (take (length buf - wp) bytes)) 0 (drop (length buf - wp) bytes)
store-chunks buf wp bytes =
    ap₂ (λ a b. memcpy (memcpy buf wp a) 0 b) (take-min (length buf - wp) bytes)
      (drop-min (length buf - wp) bytes)

fill-regions :
    (k : Readv) {r : Ring} (bytes : List ℕ)
    → IsValid r
    → length bytes ≤ free_bytes r
    → k.fill r.buf (regions r) bytes ≡ store r.buf r.write_pos bytes
fill-regions k {r} bytes v h = elim (Bool-cases (free_bytes r == 0)) [
  | inl none_free ↦
      let e : bytes ≡ [] = eq-nil bytes (omega (arith, (==_iff _ _).0 none_free)) in
      rw (none_free, e)
        (k.fill-nil r.buf []
          ∙ sym (
              store-chunks r.buf r.write_pos []
              ∙ ap₂ (λ a b. memcpy (memcpy r.buf r.write_pos a) 0 b)
                  (take_all to_end [] (omega arith)) (drop_all to_end [] (omega arith))
              ∙ memcpy-nil (memcpy r.buf r.write_pos []) 0
              ∙ memcpy-nil r.buf r.write_pos))
  | inr some_free ↦ elim (Bool-cases (ltb to_end (free_bytes r))) [
    | inl two ↦
        rw (some_free, two)
          (k.fill-cons r.buf (region r.write_pos to_end) (region 0 (free_bytes r - to_end) ∷ [])
              bytes
            ∙ k.fill-cons (memcpy r.buf r.write_pos (take to_end bytes))
                (region 0 (free_bytes r - to_end)) [] (drop to_end bytes)
            ∙ k.fill-nil
                (memcpy (memcpy r.buf r.write_pos (take to_end bytes)) 0
                  (take (free_bytes r - to_end) (drop to_end bytes)))
                (drop (free_bytes r - to_end) (drop to_end bytes))
            ∙ ap (memcpy (memcpy r.buf r.write_pos (take to_end bytes)) 0) (
                take_all (free_bytes r - to_end) (drop to_end bytes)
                  (omega (arith, length-drop to_end bytes)))
            ∙ sym (store-chunks r.buf r.write_pos bytes))
    | inr one ↦
        let short : length bytes ≤ to_end = omega (arith, ltb→le _ _ one) in
        rw (some_free, one)
          (k.fill-cons r.buf (region r.write_pos (free_bytes r)) [] bytes
            ∙ k.fill-nil (memcpy r.buf r.write_pos (take (free_bytes r) bytes))
                (drop (free_bytes r) bytes)
            ∙ ap (memcpy r.buf r.write_pos) (take_all (free_bytes r) bytes h)
            ∙ sym (
                store-chunks r.buf r.write_pos bytes
                ∙ ap₂ (λ a b. memcpy (memcpy r.buf r.write_pos a) 0 b) (take_all to_end bytes short)
                    (drop_all to_end bytes short)
                ∙ memcpy-nil (memcpy r.buf r.write_pos bytes) 0))
  ]
]
  where
    to_end : ℕ
    to_end = length r.buf - r.write_pos

commit_step :
    (r : Ring) (n : ℕ)
    → IsValid r
    → n ≤ free_bytes r
    → ((commit_write r n).read_pos ≡ r.read_pos) × ((commit_write r n).count ≡ r.count + n)
unfolding commit_write
commit_step r n v h = (refl, (write_pos-step n v h).1)

commit_write-buf : (r : Ring) (n : ℕ) → (commit_write r n).buf ≡ r.buf
unfolding commit_write
commit_write-buf r n = refl

-- If the bytes fit the free space of a valid ring, filling the regions of `get_writeable_iovecs` by `readv`
-- and committing appends exactly those bytes, in order, and keeps the ring valid.
pub receive_refines :
    (k : Readv) {r : Ring} (bytes : List ℕ)
    → IsValid r
    → length bytes ≤ free_bytes r
    → (contents (receive k r bytes) ≡ contents r ++ bytes) × IsValid (receive k r bytes)
unfolding receive
receive_refines k {r} bytes v h = (
  contents-store bytes (receive k r bytes) v h (commit_write-buf moved (length bytes) ∙ filled)
      committed.0 committed.1,
  commit_write-IsValid (length bytes) moved_IsValid (rw same_len h),
)
  where
    moved : Ring
    moved = record r { buf = k.fill r.buf (get_writeable_iovecs r) bytes }

    filled : moved.buf ≡ store r.buf r.write_pos bytes
    filled = rw (iovecs-regions v) (fill-regions k bytes v h)

    same_len : length moved.buf ≡ length r.buf
    same_len = ap length filled ∙ length-store r.buf r.write_pos bytes

    moved_IsValid : IsValid moved
    moved_IsValid = record {
      small = rw same_len v.small;
      read_in = rw same_len v.read_in;
      count_in = rw same_len v.count_in;
      write_at = rw same_len v.write_at;
    }

    committed :
        ((receive k r bytes).read_pos ≡ r.read_pos)
        × ((receive k r bytes).count ≡ r.count + length bytes)
    committed = commit_step moved (length bytes) moved_IsValid (rw same_len h)

pub length-receive :
    (k : Readv) {r : Ring} (bytes : List ℕ)
    → IsValid r
    → length bytes ≤ free_bytes r
    → length (receive k r bytes).buf ≡ length r.buf
unfolding receive commit_write
length-receive k {r} bytes v h = ap length (filled) ∙ length-store r.buf r.write_pos bytes
  where
    filled : k.fill r.buf (get_writeable_iovecs r) bytes ≡ store r.buf r.write_pos bytes
    filled = rw (iovecs-regions v) (fill-regions k bytes v h)

-- A ring with a free byte has one.
pub get_writeable_iovecs_some :
    {r : Ring} → IsValid r → 0 < free_bytes r → get_writeable_iovecs r ≢ []
unfolding total_len
get_writeable_iovecs_some {r} v h e =
    absurd (omega (arith, (get_writeable_iovecs_bounds v).1, ap total_len e))
