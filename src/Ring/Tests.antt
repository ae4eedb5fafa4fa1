-- ===== src/Ring/Tests.antt =====
-- Runs of the `RingBuffer` model (v4/ringbuffer.h), and its theorems at concrete rings.
use tcp_server_client_cpp.Base.{ℕ, ◌≤◌, ◌≡◌, refl, List, [], ◌∷◌, arith, take, drop}
use tcp_server_client_cpp.Ring.{
  Ring, Iovec, memcpy, write, peek, consume, get_writeable_iovecs, get_read_ptr,
  get_contiguous_read_size,
}
use tcp_server_client_cpp.Ring.Inv.{IsValid, contents}
use tcp_server_client_cpp.Ring.Refine.{write_refines}
use tcp_server_client_cpp.Ring.Read.{peek_refines, consume_refines, get_read_ptr_refines}
use tcp_server_client_cpp.Ring.Scatter.{
  Readv, InBounds, total_len, get_writeable_iovecs_bounds, receive, receive_refines,
}
use tcp_server_client_cpp.Ring.Run.{
  Op, puts, receives, peeks, drops, asks_size, run, queue_run, run_refines,
}

-- The bytes 8, then 9, round the end of the storage.
abbrev wrapped : Ring
wrapped = record { buf = 9 ∷ 7 ∷ 8 ∷ []; read_pos = 2; write_pos = 1; count = 2 }

wrapped-IsValid : IsValid wrapped
wrapped-IsValid = record {
  small = omega arith;
  read_in = omega arith;
  count_in = omega arith;
  write_at = refl;
}

contents-wrapped : contents wrapped ≡ 8 ∷ 9 ∷ []
contents-wrapped = refl

-- A `readv` of that behaviour.
fill : List ℕ → List Iovec → List ℕ → List ℕ
fill buf [] bytes = buf
fill buf (v ∷ vs) bytes = fill (memcpy buf v.base (take v.len bytes)) vs (drop v.len bytes)

abbrev pub posix : Readv
unfolding fill
posix = record { fill = fill; fill-nil = λ buf bytes. refl; fill-cons = λ buf v vs bytes. refl }

peek-wrapped : peek wrapped 5 ≡ 8 ∷ 9 ∷ []
unfolding peek
peek-wrapped = refl

write_refines_example :
    let (n, s) = write wrapped (4 ∷ 5 ∷ []) in (n ≡ 1) × (contents s ≡ 8 ∷ 9 ∷ 4 ∷ []) × IsValid s
write_refines_example = write_refines (4 ∷ 5 ∷ []) wrapped-IsValid

peek_refines_example : peek wrapped 1 ≡ 8 ∷ []
peek_refines_example = peek_refines 1 wrapped-IsValid

consume_refines_example : (contents (consume wrapped 1) ≡ 9 ∷ []) × IsValid (consume wrapped 1)
consume_refines_example = consume_refines 1 wrapped-IsValid

get_read_ptr_refines_example :
    let n = get_contiguous_read_size wrapped in
    (take n (get_read_ptr wrapped) ≡ take n (8 ∷ 9 ∷ [])) × (n ≤ 2) × (n ≡ 0 → wrapped.count ≡ 0)
get_read_ptr_refines_example = get_read_ptr_refines wrapped-IsValid

get_writeable_iovecs_bounds_example :
    InBounds 3 (get_writeable_iovecs wrapped) × (total_len (get_writeable_iovecs wrapped) ≡ 1)
get_writeable_iovecs_bounds_example = get_writeable_iovecs_bounds wrapped-IsValid

receive_refines_example :
    (contents (receive posix wrapped (4 ∷ [])) ≡ 8 ∷ 9 ∷ 4 ∷ [])
    × IsValid (receive posix wrapped (4 ∷ []))
receive_refines_example = receive_refines posix (4 ∷ []) wrapped-IsValid (omega arith)

abbrev script : List Op
script = peeks 1 ∷ puts (4 ∷ 5 ∷ []) ∷ drops 2 ∷ receives (6 ∷ []) ∷ asks_size ∷ []

run_refines_example : run posix wrapped script ≡ queue_run 3 (8 ∷ 9 ∷ []) script
run_refines_example = run_refines posix script wrapped-IsValid
