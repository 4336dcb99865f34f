-- ===== src/Signal/Handlers.antt =====
-- Setting a handler and setting the mask.
use osassignment.Prelude.{
  ℕ, ◌-◌, ◌^◌, ◌≤◌, ◌<◌, ◌≡◌, ◌≢◌, ◌⊎◌, inl, inr, refl, Option, none, some, leb, length, set,
  get_or-set_self, get_or-set_ne, Bool-cases, arith,
}
use osassignment.Proc.{Proc}
use osassignment.Signal.{handler, signal}

-- Handler `signum` is `h`, and nothing else has changed.
pub record Installed (signum h : ℕ) (p q : Proc) : Type 0 where
  pub set_to : handler q signum ≡ h
  pub others : (j : ℕ) → signum ≢ j → handler q j ≡ handler p j
  pub rest : q ≡ record p { handlers = q.handlers }

abbrev pub SignalResult : ℕ → ℕ → Proc → ℕ × Option Proc → Type 0
SignalResult signum h p (old, none) = ⊥
SignalResult signum h p (old, some q) =
    ((signum ≤ 31) × (old ≡ handler p signum) × Installed signum h p q)
    ⊎ ((31 < signum) × (old ≡ 2 ^ 32 - 2) × (q ≡ p))

Installed-set :
    (signum h : ℕ) (p : Proc)
    → signum < length p.handlers
    → Installed signum h p (record p { handlers = set p.handlers signum h })
Installed-set signum h p lt = record {
  set_to = get_or-set_self p.handlers signum h 0 lt;
  others = λ j ne. get_or-set_ne p.handlers signum j h 0 ne;
  rest = refl;
}

-- `signal` with a legal number, for a process with 32 handlers, installs the handler and returns the
-- old one; every other handler and the rest of the process are as they were. With another number it
-- returns -2 and changes nothing.
pub signal-SignalResult :
    (signum h : ℕ) (p : Proc)
    → length p.handlers ≡ 32
    → SignalResult signum h p (signal signum h (some p))
unfolding signal
signal-SignalResult signum h p n = elim (Bool-cases (leb signum 31)) [
  | inl legal ↦ rw legal (inl (ground arith, refl, Installed-set signum h p (ground arith)))
  | inr illegal ↦ rw illegal (inr (ground arith, refl, refl))
]
