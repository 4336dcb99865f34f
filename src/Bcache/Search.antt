-- ===== src/Bcache/Search.antt =====
-- What the two loops of `bget` find.
use osassignment.Prelude.{
  ℕ, ◌≤◌, ◌<◌, ◌≡◌, subst, Bool, true, false, if◌then◌else◌, Option, none, some, List, [], ◌∷◌,
  Bool-cases, inl, inr, arith, ℕ_discrete,
}
use osassignment.Prelude.Count.{count, count-cons_self, count-cons_ne}
use osassignment.Bcache.{Buf, find_next, find_prev, or_else}

module _ (test : Buf → Bool) (bufs : ℕ → Buf) where
  abbrev pub FoundIn : List ℕ → Option ℕ → Type 0
  FoundIn is none = (j : ℕ) → 0 < count j is → test (bufs j) ≡ false
  FoundIn is (some i) = (0 < count i is) × (test (bufs i) ≡ true)

  count-cons_le : (i j : ℕ) (is : List ℕ) → count j is ≤ count j (i ∷ is)
  unfolding count
  count-cons_le i j is = ground arith

  FoundIn-cons :
      (i : ℕ) (is : List ℕ) (o : Option ℕ)
      → test (bufs i) ≡ false
      → FoundIn is o
      → FoundIn (i ∷ is) o
  FoundIn-cons i is (some k) off (at, on) = (omega (arith, count-cons_le i k is), on)
  FoundIn-cons i is none off h = λ j at. elim (ℕ_discrete i j) [
    | yes e ↦ subst (λ k. test (bufs k) ≡ false) e off
    | no ne ↦ h j (omega (arith, count-cons_ne i j is ne))
  ]

  FoundIn-here : (i : ℕ) (is : List ℕ) → test (bufs i) ≡ true → FoundIn (i ∷ is) (some i)
  FoundIn-here i is on = (omega (arith, count-cons_self i is), on)

  pub find_next-FoundIn : (is : List ℕ) → FoundIn is (find_next test bufs is)
  unfolding find_next count
  find_next-FoundIn [] = λ j at. absurd (omega arith)
  find_next-FoundIn (i ∷ is) = elim (Bool-cases (test (bufs i))) [
    | inl on ↦ rw on (FoundIn-here i is on)
    | inr off ↦ rw off (FoundIn-cons i is _ off (find_next-FoundIn is))
  ]

  FoundIn-or_else :
      (i : ℕ) (is : List ℕ) (o : Option ℕ)
      → FoundIn is o
      → FoundIn (i ∷ is) (or_else o (if test (bufs i) then some i else none))
  FoundIn-or_else i is (some k) (at, on) = (omega (arith, count-cons_le i k is), on)
  FoundIn-or_else i is none h = elim (Bool-cases (test (bufs i))) [
    | inl on ↦ rw on (FoundIn-here i is on)
    | inr off ↦ rw off (FoundIn-cons i is none off h)
  ]

  pub find_prev-FoundIn : (is : List ℕ) → FoundIn is (find_prev test bufs is)
  unfolding find_prev count
  find_prev-FoundIn [] = λ j at. absurd (omega arith)
  find_prev-FoundIn (i ∷ is) = FoundIn-or_else i is _ (find_prev-FoundIn is)
