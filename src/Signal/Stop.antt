-- ===== src/Signal/Stop.antt =====
-- How long SIGSTOP holds a process.
use osassignment.Prelude.{
  ℕ, ◌≡◌, ◌≢◌, ◌⊎◌, inl, inr, refl, true, false, ◌||◌, Option, none, some, List, [], ◌∷◌, ◌++◌, ap,
  Bool-cases, not-and-not, bit_or, arith,
}
use osassignment.Prelude.Bits.{test_bit, test_bit-or}
use osassignment.Proc.{Proc, sigkill, sigcont}
use osassignment.Signal.{has_signal, handle_sigstop}
use osassignment.Signal.Pending.{has_signal-bit}

abbrev pub arrive : ℕ → Proc → Proc
arrive bits p = record p { pending = bit_or p.pending bits }

-- The process with the bits of every `kill` of the list turned on.
abbrev pub arrived : List ℕ → Proc → Proc
arrived [] p = p
arrived (bits ∷ ys) p = arrived ys (arrive bits p)

abbrev pub Released : Proc → Type 0
Released p = (has_signal p sigcont || has_signal p sigkill) ≡ true

abbrev pub Held : Proc → Type 0
Held p = (has_signal p sigcont || has_signal p sigkill) ≡ false

-- Held before each of the yields.
abbrev pub HeldBefore : List ℕ → Proc → Type 0
HeldBefore [] p = Unit
HeldBefore (bits ∷ ys) p = Held p × HeldBefore ys (arrive bits p)

abbrev pub StopResult : List ℕ → Proc → Option (Proc × List ℕ) → Type 0
StopResult ys p none = HeldBefore ys p × Held (arrived ys p)
StopResult ys p (some (q, rest)) =
    (front : List ℕ) × (ys ≡ front ++ rest)
    × (q ≡ arrived front p)
    × HeldBefore front p
    × Released q

StopResult-yield :
    (bits : ℕ) (ys : List ℕ) (p : Proc) (o : Option (Proc × List ℕ))
    → Held p
    → StopResult ys (arrive bits p) o
    → StopResult (bits ∷ ys) p o
StopResult-yield bits ys p none h r = ((h, r.0), r.1)
StopResult-yield bits ys p (some (q, rest)) h (front, e, a, before, rel) =
    (bits ∷ front, ap (λ l. bits ∷ l) e, a, (h, before), rel)

-- The loop of `handle_SIGSTOP` comes back at the first moment at which SIGCONT or SIGKILL is
-- pending, with all that arrived until then; it does not come back if there is no such moment.
pub handle_sigstop-StopResult : (ys : List ℕ) (p : Proc) → StopResult ys p (handle_sigstop ys p)
unfolding handle_sigstop
handle_sigstop-StopResult [] p = elim (Bool-cases (has_signal p sigcont || has_signal p sigkill)) [
  | inl e ↦ rw (not-and-not, e) ([], refl, refl, tt, e)
  | inr e ↦ rw (not-and-not, e) (tt, e)
]
handle_sigstop-StopResult (bits ∷ ys) p =
    elim (Bool-cases (has_signal p sigcont || has_signal p sigkill)) [
      | inl e ↦ rw (not-and-not, e) ([], refl, refl, tt, e)
      | inr e ↦
          rw (not-and-not, e)
            (StopResult-yield bits ys p (handle_sigstop ys (arrive bits p)) e
              (handle_sigstop-StopResult ys (arrive bits p)))
    ]

pub has_signal-arrival :
    (p : Proc) (bits j : ℕ)
    → has_signal (record p { pending = bit_or p.pending bits }) j
      ≡ (has_signal p j || test_bit bits j)
has_signal-arrival p bits j = ground (
  arith,
  has_signal-bit p j,
  has_signal-bit (record p { pending = bit_or p.pending bits }) j,
  test_bit-or j p.pending bits,
)

-- One of the yields turns signal `j` on.
abbrev pub Brings : ℕ → List ℕ → Type 0
Brings j [] = ⊥
Brings j (bits ∷ ys) = (test_bit bits j ≡ true) ⊎ Brings j ys

-- A stopped process is not stopped for ever: if SIGCONT or SIGKILL is pending or arrives during one
-- of the yields, the loop comes back.
pub handle_sigstop-ne-none :
    (ys : List ℕ) (p : Proc) (j : ℕ)
    → (j ≡ sigcont) ⊎ (j ≡ sigkill)
    → (has_signal p j ≡ true) ⊎ Brings j ys
    → handle_sigstop ys p ≢ none
unfolding handle_sigstop
handle_sigstop-ne-none [] p j c (inl h) = ground arith
handle_sigstop-ne-none [] p j c (inr h) = absurd h
handle_sigstop-ne-none (bits ∷ ys) p j c h =
    ground (arith, handle_sigstop-ne-none ys (arrive bits p) j c, has_signal-arrival p bits j)
