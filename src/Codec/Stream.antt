-- ===== src/Codec/Stream.antt =====
-- A byte stream made of packets (the format of v4/codec.h), cut anywhere.
use tcp_server_client_cpp.Base.{
  ℕ, ◌+◌, ◌≤◌, ◌<◌, ◌≡◌, refl, sym, ap, ◌∙◌, ◌⊎◌, inl, inr, List, [], ◌∷◌, ◌++◌, append_assoc,
  arith, ltb, ltb→lt, ltb→le, Bool-cases, length, take, drop, length-append, take-append-drop,
  take-append_left, drop-append_left, take-append, drop-append, eq-nil,
}
use tcp_server_client_cpp.Codec.{max_payload, ntohl_bytes}
use tcp_server_client_cpp.Codec.Frame.{
  need_more, front, frame, front-short, front-incomplete, header-frame, length-frame,
}

-- The stream of a list of payloads.
abbrev pub frames : List (List ℕ) → List ℕ
frames [] = []
frames (p ∷ ps) = frame p ++ frames ps

-- Every packet fits `limit` bytes, header included.
abbrev pub AllFit : ℕ → List (List ℕ) → Type 0
AllFit limit [] = Unit {0}
AllFit limit (p ∷ ps) = (4 + length p ≤ limit) × AllFit limit ps

-- A proper part of the front of a packet is no packet yet.
pub front-part :
    (p xs ys more : List ℕ)
    → length p ≤ max_payload
    → xs ++ ys ≡ frame p ++ more
    → length xs < length (frame p)
    → front xs ≡ need_more
front-part p xs ys more h e l = elim (Bool-cases (ltb (length xs) 4)) [
  | inl short ↦ front-short xs (ltb→lt _ _ short)
  | inr four ↦
      let le : 4 ≤ length xs = ltb→le _ _ four in
      front-incomplete xs (length p)
        (ap ntohl_bytes (sym (take-append_left 4 xs ys le) ∙ ap (take 4) e)
          ∙ header-frame p more (omega arith))
        le h (omega (arith, length-frame p))
]

-- A front part of a stream of packets: whole packets, then a part that is no packet yet.
pub record Cut (ps : List (List ℕ)) (xs ys : List ℕ) : Type 0 where
  pub whole : List (List ℕ)
  pub left : List (List ℕ)
  pub part : List ℕ
  pub payloads : whole ++ left ≡ ps
  pub read : frames whole ++ part ≡ xs
  pub unread : part ++ ys ≡ frames left
  pub waits : front part ≡ need_more
  pub small :
      (part ≡ [])
      ⊎ ((p : List ℕ) × (rest : List (List ℕ)) × (left ≡ p ∷ rest)
          × (length part < length (frame p)))

-- Every front part of the stream can be cut so.
pub cut :
    (limit : ℕ) (ps : List (List ℕ)) (xs ys : List ℕ)
    → limit ≤ max_payload
    → AllFit limit ps
    → xs ++ ys ≡ frames ps
    → Cut ps xs ys
cut limit [] xs ys h f e = record {
  whole = [];
  left = [];
  part = [];
  payloads = refl;
  read = sym (eq-nil xs (omega (arith, ap length e, length-append xs ys)));
  unread = eq-nil ys (omega (arith, ap length e, length-append xs ys));
  waits = front-short [] (omega arith);
  small = inl refl;
}
cut limit (p ∷ ps) xs ys h f e = elim (Bool-cases (ltb (length xs) (length (frame p)))) [
  | inl short ↦ record {
    whole = [];
    left = p ∷ ps;
    part = xs;
    payloads = refl;
    read = refl;
    unread = e;
    waits = front-part p xs ys (frames ps) (omega arith) e (ltb→lt _ _ short);
    small = inr (p, ps, refl, ltb→lt _ _ short);
  }
  | inr long ↦
      let n : ℕ = length (frame p) in
      let le : n ≤ length xs = ltb→le _ _ long in
      let head : take n xs ≡ frame p =
        sym (take-append_left n xs ys le) ∙ ap (take n) e ∙ take-append (frame p) (frames ps) in
      let rest : drop n xs ++ ys ≡ frames ps =
        sym (drop-append_left n xs ys le) ∙ ap (drop n) e ∙ drop-append (frame p) (frames ps) in
      let c = cut limit ps (drop n xs) ys h f.1 rest in
      record {
        whole = p ∷ c.whole;
        left = c.left;
        part = c.part;
        payloads = ap (λ t. p ∷ t) c.payloads;
        read =
            append_assoc (frame p) (frames c.whole) c.part
            ∙ ap (λ t. frame p ++ t) c.read
            ∙ ap (λ t. t ++ drop n xs) (sym head)
            ∙ take-append-drop n xs;
        unread = c.unread;
        waits = c.waits;
        small = c.small;
      }
]
