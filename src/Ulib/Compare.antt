-- ===== src/Ulib/Compare.antt =====
-- Comparing and searching the strings of user programs.
use osassignment.Prelude.{
  ℕ, ◌^◌, ◌<◌, ◌≡◌, ◌↔◌, refl, ap₂, subst, ==_refl, ◌==◌, List, [], ◌∷◌, Bool-cases, inl, inr,
  arith,
}
use osassignment.Ulib.{strcmp}

-- Bytes of a string: none is NUL.
abbrev pub IsText : List ℕ → Type 0
IsText [] = Unit
IsText (c ∷ s) = (0 < c) × (c < 2 ^ 8) × IsText s

strcmp-zero : (p q : List ℕ) → IsText p → IsText q → strcmp p q ≡ 0 → p ≡ q
unfolding strcmp
strcmp-zero [] [] tp tq e = refl
strcmp-zero [] (d ∷ q) tp (pos, small, rest) e = absurd (omega arith)
strcmp-zero (c ∷ p) [] (pos, small, rest) tq e = absurd (omega arith)
strcmp-zero (c ∷ p) (d ∷ q) (pos, small, tp) (pos2, small2, tq) e = elim (Bool-cases (c == d)) [
  | inl on ↦
      let same : c ≡ d = ground (arith, on) in
      ap₂ (λ x y. x ∷ y) same (strcmp-zero p q tp tq (rw on at e))
  | inr off ↦ absurd (ground (arith, off, rw off at e))
]

strcmp_refl : (p : List ℕ) → strcmp p p ≡ 0
unfolding strcmp
strcmp_refl [] = refl
strcmp_refl (c ∷ p) = rw (==_refl c) (strcmp_refl p)

pub strcmp-zero_iff : (p q : List ℕ) → IsText p → IsText q → (strcmp p q ≡ 0) ↔ (p ≡ q)
strcmp-zero_iff p q tp tq =
    (strcmp-zero p q tp tq, λ e. subst (λ r. strcmp p r ≡ 0) e (strcmp_refl p))
