-- ===== src/Prelude/Table.antt =====
-- Tables by index: one entry written, and the first entry that passes a test.
use Prim.Native.Nat.{ℕ, zero, suc, ◌+◌, ◌≤◌, ◌<◌}
use mathlib.Core.Path.{◌≡◌, ap, sym, ◌∙◌, subst}
use mathlib.Core.Logic.{◌≢◌, inl, inr}
use mathlib.Core.Bool.{Bool, true, false}
use mathlib.Core.Option.{Option, none, some}
use native.Mathlib.Omega.{arith}
use native.Mathlib.Decide.{ℕ_discrete}
use osassignment.Prelude.Tests.{◌==◌, if◌then◌else◌, Bool-cases, ==_refl, ==_ne}

unfoldable pub update {ℓ} : {A : Type ℓ} → (ℕ → A) → ℕ → A → ℕ → A
update ps i p j = if i == j then p else ps j

pub update_self {ℓ} : {A : Type ℓ} (ps : ℕ → A) (i : ℕ) (p : A) → update ps i p i ≡ p
unfolding update
update_self ps i p = rw ==_refl

pub update_ne {ℓ} : {A : Type ℓ} (ps : ℕ → A) (i j : ℕ) (p : A) → i ≢ j → update ps i p j ≡ ps j
unfolding update
update_ne ps i j p h = rw (==_ne i j h)

pub below_suc {ℓ} :
    (P : ℕ → Type ℓ) (i : ℕ) → ((j : ℕ) → j < i → P j) → P i → (j : ℕ) → j < i + 1 → P j
below_suc P i h here j lt = elim (ℕ_discrete i j) [
  | yes e ↦ subst P e here
  | no ne ↦ h j (omega arith)
]

module _ {ℓ} {A : Type ℓ} where
  -- A loop over `n` entries from `i` on, up to the first that passes a test.
  unfoldable pub find_first : (A → Bool) → (ℕ → A) → ℕ → ℕ → Option ℕ
  find_first test ps i zero = none
  find_first test ps i (suc n) = if test (ps i) then some i else find_first test ps (i + 1) n

  -- The result of the search of `n` entries from `i` on.
  abbrev pub First : (A → Bool) → (ℕ → A) → ℕ → ℕ → Option ℕ → Type 0
  First test ps i n none = (j : ℕ) → i ≤ j → j < i + n → test (ps j) ≡ false
  First test ps i n (some k) =
      (i ≤ k) × (k < i + n) × (test (ps k) ≡ true) × ((j : ℕ) → i ≤ j → j < k → test (ps j) ≡ false)

  pub skip_first :
      (test : A → Bool) (ps : ℕ → A) (i e : ℕ)
      → test (ps i) ≡ false
      → ((j : ℕ) → i + 1 ≤ j → j < e → test (ps j) ≡ false)
      → (j : ℕ) → i ≤ j
      → j < e
      → test (ps j) ≡ false
  skip_first test ps i e off rest j lo hi = elim (ℕ_discrete i j) [
    | yes q ↦ ap (λ k. test (ps k)) (sym q) ∙ off
    | no ne ↦ rest j (omega arith) hi
  ]

  First-next :
      (test : A → Bool) (ps : ℕ → A) (i n : ℕ) (o : Option ℕ)
      → test (ps i) ≡ false
      → First test ps (i + 1) n o
      → First test ps i (suc n) o
  First-next test ps i n none off f =
      λ j lo hi. skip_first test ps i (i + suc n) off (λ k l h. f k l (omega arith)) j lo hi
  First-next test ps i n (some k) off (lo, hi, on, before) =
      (omega arith, omega arith, on, skip_first test ps i k off before)

  pub find_first-First :
      (test : A → Bool) (ps : ℕ → A) (i n : ℕ) → First test ps i n (find_first test ps i n)
  unfolding find_first
  find_first-First test ps i zero = λ j lo hi. absurd (omega arith)
  find_first-First test ps i (suc n) = elim (Bool-cases (test (ps i))) [
    | inl on ↦ rw on (omega arith, omega arith, on, λ j lo hi. absurd (omega arith))
    | inr off ↦ rw off (First-next test ps i n _ off (find_first-First test ps (i + 1) n))
  ]
