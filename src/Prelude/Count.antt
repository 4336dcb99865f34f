-- ===== src/Prelude/Count.antt =====
-- How often a number stands in a list, as a reference count does it.
use Prim.Native.Nat.{ℕ, suc, ◌-◌, ◌≤◌}
use mathlib.Core.Path.{◌≡◌, refl}
use mathlib.Core.Logic.{◌≢◌, inl, inr}
use mathlib.Core.List.{List, [], ◌∷◌}
use native.Mathlib.Omega.{arith}
use osassignment.Prelude.Tests.{◌==◌, if◌then◌else◌, Bool-cases}
use osassignment.Prelude.Lists.{length}

unfoldable pub count : ℕ → List ℕ → ℕ
count i [] = 0
count i (x ∷ xs) = if x == i then suc (count i xs) else count i xs

-- The list without the first `i`.
unfoldable pub remove : ℕ → List ℕ → List ℕ
remove i [] = []
remove i (x ∷ xs) = if x == i then xs else x ∷ remove i xs

pub count-cons_self : (i : ℕ) (xs : List ℕ) → count i (i ∷ xs) ≡ suc (count i xs)
unfolding count
count-cons_self i xs = ground arith

pub count-cons_ne : (i j : ℕ) (xs : List ℕ) → i ≢ j → count j (i ∷ xs) ≡ count j xs
unfolding count
count-cons_ne i j xs h = ground arith

pub count-remove_self : (i : ℕ) (xs : List ℕ) → count i (remove i xs) ≡ count i xs - 1
unfolding count remove
count-remove_self i [] = refl
count-remove_self i (x ∷ xs) = elim (Bool-cases (x == i)) [
  | inl on ↦ rw on (omega arith)
  | inr off ↦ rw off (rw off (count-remove_self i xs))
]

pub count-remove_ne : (i j : ℕ) (xs : List ℕ) → i ≢ j → count j (remove i xs) ≡ count j xs
unfolding count remove
count-remove_ne i j [] h = refl
count-remove_ne i j (x ∷ xs) h = elim (Bool-cases (x == i)) [
  | inl on ↦ ground (arith, on, h)
  | inr off ↦ rw off (ground (arith, count-remove_ne i j xs h))
]

pub count-le : (i : ℕ) (xs : List ℕ) → count i xs ≤ length xs
unfolding count
count-le i [] = omega arith
count-le i (x ∷ xs) = ground (arith, count-le i xs)
