-- ===== src/Client/Words.antt =====
-- Words and texts of a typed line (`std::stringstream` in v4/client.cpp).
use tcp_server_client_cpp.Base.{
  ℕ, ◌≡◌, refl, ap, ◌≢◌, true, false, List, [], ◌∷◌, ◌++◌, arith, ==_ne,
}
use tcp_server_client_cpp.Client.{
  is_space, is_print, space, skip_space, span_word, next_word, rest_of_line,
}

-- Printable bytes other than white space.
abbrev pub IsWord : List ℕ → Type 0
IsWord [] = Unit {0}
IsWord (c ∷ cs) = (is_print c ≡ true) × (is_space c ≡ false) × IsWord cs

abbrev pub IsText : List ℕ → Type 0
IsText [] = Unit {0}
IsText (c ∷ cs) = (is_print c ≡ true) × IsText cs

pub IsWord-IsText : (cs : List ℕ) → IsWord cs → IsText cs
IsWord-IsText [] h = tt
IsWord-IsText (c ∷ cs) h = (h.0, IsWord-IsText cs h.2)

pub IsText-append : (xs ys : List ℕ) → IsText xs → IsText ys → IsText (xs ++ ys)
IsText-append [] ys h k = k
IsText-append (x ∷ xs) ys h k = (h.0, IsText-append xs ys h.1 k)

span-space :
    (word rest : List ℕ) → IsWord word → span_word (word ++ (space ∷ rest)) ≡ (word, space ∷ rest)
unfolding span_word
span-space [] rest h = refl
span-space (c ∷ cs) rest h =
    rw h.1 (ap (λ (x : List ℕ × List ℕ). (c ∷ x.0, x.1)) (span-space cs rest h.2))

span-end : (word : List ℕ) → IsWord word → span_word word ≡ (word, [])
unfolding span_word
span-end [] h = refl
span-end (c ∷ cs) h = rw h.1 (ap (λ (x : List ℕ × List ℕ). (c ∷ x.0, x.1)) (span-end cs h.2))

-- The first word of a line, with and without something behind it.
pub next_word-space :
    (word rest : List ℕ)
    → IsWord word
    → word ≢ []
    → next_word (word ++ (space ∷ rest)) ≡ (word, space ∷ rest)
unfolding next_word skip_space
next_word-space [] rest h n = absurd (n refl)
next_word-space (c ∷ cs) rest h n = rw h.1 (span-space (c ∷ cs) rest h)

pub next_word-end : (word : List ℕ) → IsWord word → next_word word ≡ (word, [])
unfolding next_word skip_space
next_word-end [] h = unfold span_word in refl
next_word-end (c ∷ cs) h = rw h.1 (span-end (c ∷ cs) h)

pub next_word-skip : (cs : List ℕ) → next_word (space ∷ cs) ≡ next_word cs
unfolding next_word skip_space
next_word-skip cs = refl

pub rest_of_line-text : (cs : List ℕ) → IsText cs → rest_of_line cs ≡ cs
unfolding rest_of_line
rest_of_line-text [] h = refl
rest_of_line-text (c ∷ cs) h =
    rw (==_ne c 10 (ground arith)) (ap (λ t. c ∷ t) (rest_of_line-text cs h.1))
