-- ===== src/Shell/Tokens.antt =====
-- What the tokenizer uses up.
use osassignment.Prelude.{
  ℕ, ◌≤◌, ◌<◌, ◌≡◌, ◌≢◌, refl, Bool, true, false, ◌||◌, ◌==◌, if◌then◌else◌, List, [], ◌∷◌, length,
  Bool-cases, inl, inr, arith,
}
use osassignment.Shell.{
  is_space, is_symbol, skip, word, after_gt, token_at, token_of, gettoken, first_is,
}

pub length-skip : (s : List ℕ) → length (skip s) ≤ length s
unfolding skip
length-skip [] = omega arith
length-skip (c ∷ s) = ground (arith, length-skip s)

skip-head : (s : List ℕ) (c : ℕ) (r : List ℕ) → skip s ≡ c ∷ r → is_space c ≡ false
unfolding skip
skip-head [] c r e = absurd (cc)
skip-head (d ∷ s) c r e = elim (Bool-cases (is_space d)) [
  | inl on ↦ skip-head s c r (rw on at e)
  | inr off ↦ ground (arith, off)
]

length-word : (s : List ℕ) → length (word s).1 ≤ length s
unfolding word
length-word [] = omega arith
length-word (c ∷ s) = elim (Bool-cases (is_space c || is_symbol c)) [
  | inl on ↦ rw on (omega arith)
  | inr off ↦ rw off (omega (arith, length-word s))
]

length-word_more :
    (c : ℕ) (s : List ℕ) → (is_space c || is_symbol c) ≡ false → length (word (c ∷ s)).1 ≤ length s
unfolding word
length-word_more c s off = rw off (length-word s)

length-after_gt : (s : List ℕ) → length (after_gt s).2 ≤ length s
unfolding after_gt
length-after_gt [] = omega arith
length-after_gt (c ∷ s) = ground arith

abbrev is_single : ℕ → Bool
is_single c =
    (c == b'|') || ((c == b'(') || ((c == b')') || ((c == b';') || ((c == b'&') || (c == b'<')))))

not_symbol : (c : ℕ) → is_single c ≡ false → (c == b'>') ≡ false → is_symbol c ≡ false
not_symbol c h g = ground arith

length-either :
    (test : Bool) (p q : ℕ × List ℕ × List ℕ) (m : ℕ)
    → (test ≡ true → length p.2 ≤ m)
    → (test ≡ false → length q.2 ≤ m)
    → length (if test then p else q).2 ≤ m
length-either true p q m h k = h refl
length-either false p q m h k = k refl

length-token_at : (c : ℕ) (s : List ℕ) → is_space c ≡ false → length (token_at c s).2 ≤ length s
unfolding token_at
length-token_at c s plain =
    let other : ℕ × List ℕ × List ℕ = (b'a', (word (c ∷ s)).0, (word (c ∷ s)).1) in
    let behind : ℕ × List ℕ × List ℕ = if c == b'>' then after_gt s else other in
    length-either (is_single c) (c, c ∷ [], s) behind (length s) (λ on. omega arith)
      (λ off.
        length-either (c == b'>') (after_gt s) other (length s) (λ gt. length-after_gt s)
          (λ ne. length-word_more c s (ground (arith, plain, not_symbol c off ne))))

-- A token that is not the end of the input is used up.
pub gettoken-lt :
    (s : List ℕ)
    → (length (gettoken s).2 ≤ length (skip s))
      × (skip s ≢ [] → length (gettoken s).2 < length (skip s))
unfolding gettoken
gettoken-lt s = go (skip s) (λ c r e. skip-head s c r e)
  where
    go :
        (t : List ℕ)
        → ((c : ℕ) (r : List ℕ) → t ≡ c ∷ r → is_space c ≡ false)
        → (length (skip (token_of t).2) ≤ length t)
          × (t ≢ [] → length (skip (token_of t).2) < length t)
    go [] h = (omega arith, λ ne. absurd (ne refl))
    go (c ∷ r) h =
        let a = length-skip (token_at c r).2 in
        let b = length-token_at c r (h c r refl) in (omega arith, λ ne. omega arith)

pub first_is-nonempty : (test : ℕ → Bool) (s : List ℕ) → first_is test s ≡ true → s ≢ []
first_is-nonempty test [] h e = cc
first_is-nonempty test (c ∷ s) h e = cc

pub skip-skip : (s : List ℕ) → skip (skip s) ≡ skip s
unfolding skip
skip-skip [] = refl
skip-skip (c ∷ s) = elim (Bool-cases (is_space c)) [
  | inl on ↦ rw on (skip-skip s)
  | inr off ↦ rw off (rw off refl)
]

pub token-nonempty : (s : List ℕ) → ((gettoken s).0 == 0) ≡ false → skip s ≢ []
unfolding gettoken
token-nonempty s h e =
    let zero_token : (token_of (skip s)).0 ≡ 0 = rw e refl in ground (arith, h, zero_token)
