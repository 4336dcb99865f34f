-- ===== src/Prelude/Run.antt =====
-- Code that may panic, and whose loops may run out of fuel.
use mathlib.Core.Path.{◌≡◌, refl}
use mathlib.Core.Bool.{Bool, true, false}
use osassignment.Prelude.Tests.{if◌then◌else◌}

pub data Run {ℓ} (A : Type ℓ) : Type ℓ where
  done : A → Run A
  panics stuck : Run A

infixl 5 ◌>>=◌
abbrev pub ◌>>=◌ {ℓ κ} : {A : Type ℓ} {B : Type κ} → Run A → (A → Run B) → Run B
done a >>= f = f a
panics >>= f = panics
stuck >>= f = stuck

-- It is not stuck; a panic is for the reason `Q`, and the result is as `P` says.
abbrev pub Ensures {ℓ} : {A : Type ℓ} → Type 0 → (A → Type 0) → Run A → Type 0
Ensures Q P (done a) = P a
Ensures Q P panics = Q
Ensures Q P stuck = ⊥

pub Ensures-weaken {ℓ} :
    {A : Type ℓ} (Q Q' : Type 0) (P P' : A → Type 0) (m : Run A)
    → Ensures Q P m
    → (Q → Q')
    → ((a : A) → P a → P' a)
    → Ensures Q' P' m
Ensures-weaken Q Q' P P' (done a) h why k = k a h
Ensures-weaken Q Q' P P' panics h why k = why h
Ensures-weaken Q Q' P P' stuck h why k = elim h [ ]

pub Ensures-if {ℓ} :
    {A : Type ℓ} (Q : Type 0) (P : A → Type 0) (t : Bool) (m k : Run A)
    → (t ≡ true → Ensures Q P m)
    → (t ≡ false → Ensures Q P k)
    → Ensures Q P (if t then m else k)
Ensures-if Q P true m k yes_case no_case = yes_case refl
Ensures-if Q P false m k yes_case no_case = no_case refl

module _ {ℓ κ} {A : Type ℓ} {B : Type κ} where
  pub Ensures-bind :
      (Q Q' : Type 0) (P : A → Type 0) (P' : B → Type 0) (m : Run A) (f : A → Run B)
      → Ensures Q P m
      → (Q → Q')
      → ((a : A) → P a → Ensures Q' P' (f a))
      → Ensures Q' P' (m >>= f)
  Ensures-bind Q Q' P P' (done a) f h why k = k a h
  Ensures-bind Q Q' P P' panics f h why k = why h
  Ensures-bind Q Q' P P' stuck f h why k = elim h [ ]
