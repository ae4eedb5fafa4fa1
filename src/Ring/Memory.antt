-- ===== src/Ring/Memory.antt =====
-- Lemmas on `memcpy` into the storage of a `RingBuffer` (v4/ringbuffer.h), on indices taken round the ring, and
-- on lists given by their elements.
use native.Mathlib.Nat.{mod-eq_of_lt, mod-eq-sub-mod}
use tcp_server_client_cpp.Base.{
  ℕ, zero, suc, ◌+◌, ◌-◌, ◌%◌, ◌≤◌, ◌<◌, ◌≡◌, refl, ap, ◌∙◌, ◌⊎◌, inl, inr, List, [], ◌∷◌, ◌++◌,
  append-nil, drop_all, length, get_or, take, drop, ltb, if◌then◌else◌, arith, Bool-cases, min,
  length-take, length-drop, get_or-take, get_or-drop, ltb→lt, ltb→le,
}
use tcp_server_client_cpp.Ring.{memcpy}

-- An index below twice the capacity, taken round the ring.
abbrev pub slot : ℕ → ℕ → ℕ
slot len k = if ltb k len then k else k - len

pub mod-slot : (len k : ℕ) → k < len + len → k % len ≡ slot len k
mod-slot len k h = elim (Bool-cases (ltb k len)) [
  | inl e ↦ rw e (mod-eq_of_lt (ltb→lt k len e))
  | inr e ↦
      let le : len ≤ k = ltb→le k len e in
      let lt : k - len < len = omega arith in rw (e, mod-eq-sub-mod le, mod-eq_of_lt lt)
]

pub slot-lt : (len k : ℕ) → k < len + len → 0 < len → slot len k < len
slot-lt len k h p = ground arith

-- The list of the first `n` values of a function.
abbrev pub tabulate {ℓ} : {A : Type ℓ} → ℕ → (ℕ → A) → List A
tabulate zero f = []
tabulate (suc n) f = f 0 ∷ tabulate n (λ i. f (suc i))

module _ {ℓ} {A : Type ℓ} where
  pub length-tabulate : (n : ℕ) (f : ℕ → A) → length (tabulate n f) ≡ n
  length-tabulate zero f = refl
  length-tabulate (suc n) f = ap suc (length-tabulate n (λ i. f (suc i)))

  pub get_or-tabulate :
      (n : ℕ) (f : ℕ → A) (i : ℕ) (d : A) → i < n → get_or (tabulate n f) i d ≡ f i
  get_or-tabulate zero f i d h = absurd (omega arith)
  get_or-tabulate (suc n) f zero d h = refl
  get_or-tabulate (suc n) f (suc i) d h = get_or-tabulate n (λ i. f (suc i)) i d (omega arith)

pub length-memcpy :
    (dst : List ℕ) (pos : ℕ) (src : List ℕ) → length (memcpy dst pos src) ≡ length dst
unfolding memcpy
length-memcpy [] pos src = refl
length-memcpy (d ∷ dst) (suc pos) src = ap suc (length-memcpy dst pos src)
length-memcpy (d ∷ dst) zero [] = refl
length-memcpy (d ∷ dst) zero (s ∷ src) = ap suc (length-memcpy dst zero src)

pub memcpy-nil : (dst : List ℕ) (pos : ℕ) → memcpy dst pos [] ≡ dst
unfolding memcpy
memcpy-nil [] pos = refl
memcpy-nil (d ∷ dst) (suc pos) = ap (λ t. d ∷ t) (memcpy-nil dst pos)
memcpy-nil (d ∷ dst) zero = refl

-- Inside the copied range the new bytes are read, outside it the old ones.
pub get_or-memcpy_in :
    (dst : List ℕ) (pos : ℕ) (src : List ℕ) (j : ℕ)
    → j < length src
    → pos + length src ≤ length dst
    → get_or (memcpy dst pos src) (pos + j) 0 ≡ get_or src j 0
unfolding memcpy
get_or-memcpy_in [] pos src j h k = absurd (omega arith)
get_or-memcpy_in (d ∷ dst) (suc pos) src j h k =
    let e : suc pos + j ≡ suc (pos + j) = omega arith in
    rw e (get_or-memcpy_in dst pos src j h (omega arith))
get_or-memcpy_in (d ∷ dst) zero [] j h k = absurd (omega arith)
get_or-memcpy_in (d ∷ dst) zero (s ∷ src) zero h k = refl
get_or-memcpy_in (d ∷ dst) zero (s ∷ src) (suc j) h k =
    let e : zero + suc j ≡ suc (zero + j) = omega arith in
    rw e (get_or-memcpy_in dst zero src j (omega arith) (omega arith))

pub get_or-memcpy_out :
    (dst : List ℕ) (pos : ℕ) (src : List ℕ) (j : ℕ)
    → (j < pos) ⊎ (pos + length src ≤ j)
    → get_or (memcpy dst pos src) j 0 ≡ get_or dst j 0
unfolding memcpy
get_or-memcpy_out [] pos src j h = refl
get_or-memcpy_out (d ∷ dst) (suc pos) src zero h = refl
get_or-memcpy_out (d ∷ dst) (suc pos) src (suc j) h = get_or-memcpy_out dst pos src j (omega arith)
get_or-memcpy_out (d ∷ dst) zero [] j h = refl
get_or-memcpy_out (d ∷ dst) zero (s ∷ src) zero h = absurd (omega arith)
get_or-memcpy_out (d ∷ dst) zero (s ∷ src) (suc j) h =
    get_or-memcpy_out dst zero src j (inr (omega arith))

-- A copy to the front, and a copy behind an initial part.
pub memcpy_front :
    (dst src : List ℕ) → length src ≤ length dst → memcpy dst 0 src ≡ src ++ drop (length src) dst
unfolding memcpy
memcpy_front [] [] h = refl
memcpy_front [] (s ∷ src) h = absurd (omega arith)
memcpy_front (d ∷ dst) [] h = refl
memcpy_front (d ∷ dst) (s ∷ src) h = ap (λ t. s ∷ t) (memcpy_front dst src (omega arith))

pub memcpy_full : (dst src : List ℕ) → length src ≡ length dst → memcpy dst 0 src ≡ src
memcpy_full dst src e =
    memcpy_front dst src (omega arith)
    ∙ ap (λ t. src ++ t) (drop_all (length src) dst (omega arith))
    ∙ append-nil src

pub memcpy-append : (a b src : List ℕ) → memcpy (a ++ b) (length a) src ≡ a ++ memcpy b 0 src
unfolding memcpy
memcpy-append [] b src = refl
memcpy-append (x ∷ a) b src = ap (λ t. x ∷ t) (memcpy-append a b src)

-- Bytes stored from index `wp` on, going round at the end of the storage.
abbrev pub store : List ℕ → ℕ → List ℕ → List ℕ
store buf wp bytes =
    memcpy (memcpy buf wp (take (min (length bytes) (length buf - wp)) bytes)) 0
      (drop (min (length bytes) (length buf - wp)) bytes)

pub length-store :
    (buf : List ℕ) (wp : ℕ) (bytes : List ℕ) → length (store buf wp bytes) ≡ length buf
length-store buf wp bytes = rw (length-memcpy, length-memcpy)

module _ (buf : List ℕ) (wp : ℕ) (bytes : List ℕ) (k : ℕ) (wp_in : wp < length buf)
    (fits : length bytes ≤ length buf) where
  -- The k-th stored byte stands k places after the first, round the ring.
  pub get_or-store_in :
      k < length bytes
      → get_or (store buf wp bytes) (slot (length buf) (wp + k)) 0 ≡ get_or bytes k 0
  get_or-store_in h = elim (Bool-cases (ltb (wp + k) (length buf))) [
    | inl e ↦ rw e (
        get_or-memcpy_out (memcpy buf wp (take n1 bytes)) 0 (drop n1 bytes) (wp + k)
          (inr (omega (arith, length-drop n1 bytes)))
        ∙ get_or-memcpy_in buf wp (take n1 bytes) k
            (omega (arith, length-take n1 bytes, ltb→lt _ _ e))
            (omega (arith, length-take n1 bytes))
        ∙ get_or-take n1 bytes k 0 (omega (arith, ltb→lt _ _ e)))
    | inr e ↦
        let j : wp + k - length buf ≡ 0 + (k - n1) = omega (arith, ltb→le _ _ e) in
        let i : n1 + (k - n1) ≡ k = omega (arith, ltb→le _ _ e) in
        rw (e, j)
          (get_or-memcpy_in (memcpy buf wp (take n1 bytes)) 0 (drop n1 bytes) (k - n1)
              (omega (arith, length-drop n1 bytes, ltb→le _ _ e))
              (omega (arith, length-drop n1 bytes, length-memcpy buf wp (take n1 bytes)))
            ∙ get_or-drop n1 bytes (k - n1) 0
            ∙ ap (λ m. get_or bytes m 0) i)
  ]
    where
      n1 : ℕ
      n1 = min (length bytes) (length buf - wp)

  -- The places after those keep their bytes.
  pub get_or-store_out :
      length bytes ≤ k
      → k < length buf
      → get_or (store buf wp bytes) (slot (length buf) (wp + k)) 0
        ≡ get_or buf (slot (length buf) (wp + k)) 0
  get_or-store_out h l = elim (Bool-cases (ltb (wp + k) (length buf))) [
    | inl e ↦ rw e (
        get_or-memcpy_out (memcpy buf wp (take n1 bytes)) 0 (drop n1 bytes) (wp + k)
          (inr (omega (arith, length-drop n1 bytes, ltb→lt _ _ e)))
        ∙ get_or-memcpy_out buf wp (take n1 bytes) (wp + k)
            (inr (omega (arith, length-take n1 bytes, ltb→lt _ _ e))))
    | inr e ↦ rw e (
        get_or-memcpy_out (memcpy buf wp (take n1 bytes)) 0 (drop n1 bytes) (wp + k - length buf)
          (inr (omega (arith, length-drop n1 bytes, ltb→le _ _ e)))
        ∙ get_or-memcpy_out buf wp (take n1 bytes) (wp + k - length buf)
            (inl (omega (arith, ltb→le _ _ e))))
  ]
    where
      n1 : ℕ
      n1 = min (length bytes) (length buf - wp)
