-- ===== src/Strings/Compare.antt =====
-- The results of the comparisons.
use osassignment.Prelude.{
  ℕ, zero, suc, ◌+◌, ◌<◌, ◌≡◌, ◌≢◌, ◌⊎◌, inl, inr, refl, ◌∙◌, sym, ap, subst, not, ◌&&◌, ◌==◌, some,
  Bool-cases, arith,
}
use osassignment.Memory.{Mem}
use osassignment.Strings.{diff, memcmp, strncmp, strlen}

-- The first `i` bytes of two blocks are equal, and each as `Test` says.
abbrev pub Agree : (ℕ → Type 0) → Mem → ℕ → ℕ → ℕ → Type 0
Agree Test m a b i = (j : ℕ) → j < i → (m (a + j) ≡ m (b + j)) × Test (m (a + j))

Agree-next :
    (Test : ℕ → Type 0) (m : Mem) (a b i : ℕ)
    → m a ≡ m b
    → Test (m a)
    → Agree Test m (a + 1) (b + 1) i
    → Agree Test m a b (suc i)
Agree-next Test m a b i e t f zero h = (e0, subst Test (ap m {x = a} {y = a + 0} (omega arith)) t)
  where
    e0 : m (a + 0) ≡ m (b + 0)
    e0 = ap m {x = a + 0} {y = a} (omega arith) ∙ e ∙ ap m {x = b} {y = b + 0} (omega arith)
Agree-next Test m a b i e t f (suc j) h =
    let (g, u) = f j (omega arith) in
    let ea = ap m {x = a + 1 + j} {y = a + suc j} (omega arith) in
    let eb = ap m {x = b + 1 + j} {y = b + suc j} (omega arith) in
    (sym ea ∙ g ∙ eb, subst Test ea u)

-- The comparison of `n` bytes gives `d`: 0 if all agree; otherwise the difference of the first two
-- bytes that stop it.
abbrev pub Compared : (ℕ → Type 0) → (ℕ → ℕ → Type 0) → Mem → ℕ → ℕ → ℕ → ℕ → Type 0
Compared Test Stop m a b n d =
    ((d ≡ 0) × Agree Test m a b n)
    ⊎ ((i : ℕ) × (i < n)
        × Agree Test m a b i
        × Stop (m (a + i)) (m (b + i))
        × (d ≡ diff (m (a + i)) (m (b + i))))

module _ (Test : ℕ → Type 0) (Stop : ℕ → ℕ → Type 0) (m : Mem) (a b n d : ℕ) where
  Compared-later :
      m a ≡ m b
      → Test (m a)
      → Compared Test Stop m (a + 1) (b + 1) n d
      → Compared Test Stop m a b (suc n) d
  Compared-later e t (inl (z, f)) = inl (z, Agree-next Test m a b n e t f)
  Compared-later e t (inr (i, h, f, s, r)) =
      let ea = ap m {x = a + 1 + i} {y = a + suc i} (omega arith) in
      let eb = ap m {x = b + 1 + i} {y = b + suc i} (omega arith) in
      inr (
        suc i,
        omega arith,
        Agree-next Test m a b i e t f,
        subst (λ x. Stop x (m (b + suc i))) ea (subst (Stop (m (a + 1 + i))) eb s),
        r ∙ ap (λ x. diff x (m (b + 1 + i))) ea ∙ ap (diff (m (a + suc i))) eb,
      )

  Compared-here : Stop (m a) (m b) → d ≡ diff (m a) (m b) → Compared Test Stop m a b (suc n) d
  Compared-here s e =
      let ea = ap m {x = a} {y = a + 0} (omega arith) in
      let eb = ap m {x = b} {y = b + 0} (omega arith) in
      inr (
        0,
        omega arith,
        (λ j h. absurd (omega arith)),
        subst (λ x. Stop x (m (b + 0))) ea (subst (Stop (m a)) eb s),
        e ∙ ap (λ x. diff x (m b)) ea ∙ ap (diff (m (a + 0))) eb,
      )

abbrev pub AnyByte : ℕ → Type 0
AnyByte x = Unit

-- `memcmp` returns 0 if the two blocks agree in all n bytes, and otherwise the difference of the
-- first two bytes that differ.
pub memcmp-Compared : (m : Mem) (a b n : ℕ) → Compared AnyByte ◌≢◌ m a b n (memcmp m a b n)
unfolding memcmp
memcmp-Compared m a b zero = inl (refl, λ j h. absurd (omega arith))
memcmp-Compared m a b (suc n) = elim (Bool-cases (m a == m b)) [
  | inl e ↦ rw e (
      Compared-later AnyByte ◌≢◌ m a b n (memcmp m (a + 1) (b + 1) n) (ground arith) tt
        (memcmp-Compared m (a + 1) (b + 1) n))
  | inr e ↦ rw e (Compared-here AnyByte ◌≢◌ m a b n (diff (m a) (m b)) (ground arith) refl)
]

abbrev pub NotNul : ℕ → Type 0
NotNul x = x ≢ 0

-- Two bytes at which a comparison of strings ends.
abbrev pub EndsAt : ℕ → ℕ → Type 0
EndsAt x y = (x ≡ 0) ⊎ (x ≢ y)

-- `strncmp` returns 0 if the first n bytes agree and none of them is NUL, and otherwise the
-- difference of the bytes at the first place at which the first string ends or the two differ: 0 if
-- both end there.
pub strncmp-Compared : (m : Mem) (p q n : ℕ) → Compared NotNul EndsAt m p q n (strncmp m p q n)
unfolding strncmp
strncmp-Compared m p q zero = inl (refl, λ j h. absurd (omega arith))
strncmp-Compared m p q (suc n) = elim (Bool-cases (not (m p == 0) && (m p == m q))) [
  | inl e ↦ rw e (
      Compared-later NotNul EndsAt m p q n (strncmp m (p + 1) (q + 1) n) (ground arith)
        (ground arith) (strncmp-Compared m (p + 1) (q + 1) n))
  | inr e ↦ rw e (Compared-here NotNul EndsAt m p q n (diff (m p) (m q)) (ground arith) refl)
]

strlen_from :
    (m : Mem) (s n more fuel : ℕ)
    → m (s + (n + more)) ≡ 0
    → ((j : ℕ) → j < n + more → m (s + j) ≢ 0)
    → more < fuel
    → strlen m s n fuel ≡ some (n + more)
unfolding strlen
strlen_from m s n more zero z f h = absurd (omega arith)
strlen_from m s n zero (suc fuel) z f h = ground (
  arith,
  ap m {x = s + (n + 0)} {y = s + n} (omega arith),
  ap some {x = n} {y = n + 0} (omega arith),
)
strlen_from m s n (suc more) (suc fuel) z f h = ground (
  arith,
  f n (omega arith),
  strlen_from m s (n + 1) more fuel
      (ap m {x = s + (n + 1 + more)} {y = s + (n + suc more)} (omega arith) ∙ z)
      (λ j g. f j (omega arith)),
  ap some {x = n + 1 + more} {y = n + suc more} (omega arith),
)

-- `strlen` of a string that ends is the distance to its first NUL byte, with fuel for more bytes than
-- that.
pub strlen_lem :
    (m : Mem) (s n fuel : ℕ)
    → m (s + n) ≡ 0
    → ((j : ℕ) → j < n → m (s + j) ≢ 0)
    → n < fuel
    → strlen m s 0 fuel ≡ some n
strlen_lem m s n fuel z f h =
    strlen_from m s 0 n fuel (ap m {x = s + (0 + n)} {y = s + n} (omega arith) ∙ z)
      (λ j g. f j (omega arith)) h
    ∙ ap some {x = 0 + n} {y = n} (omega arith)
