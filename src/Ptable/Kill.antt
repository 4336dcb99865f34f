-- ===== src/Ptable/Kill.antt =====
-- `kill`, on every branch.
use osassignment.Prelude.{
  ℕ, ◌^◌, ◌≤◌, ◌<◌, ◌≡◌, ◌≢◌, ◌⊎◌, refl, Bool, true, false, ◌||◌, ◌==◌, Option, none, some, inl,
  inr, bit_or, Bool-cases, leb, arith,
}
use osassignment.Prelude.Table.{First, find_first, find_first-First, update, update_ne, update_self}
use osassignment.Prelude.Bits.{test_bit-or, test_bit-pow}
use osassignment.Proc.{Proc, nproc}
use osassignment.Signal.{has_signal}
use osassignment.Signal.Pending.{has_signal-bit}
use osassignment.Ptable.{kill}

-- Entry `i` has signal `signum` pending beside what it had, and nothing else has changed.
pub record Sent (signum i : ℕ) (ps qs : ℕ → Proc) : Type 0 where
  pub signal : (j : ℕ) → has_signal (qs i) j ≡ (has_signal (ps i) j || (signum == j))
  pub rest : qs i ≡ record (ps i) { pending = (qs i).pending }
  pub others : (j : ℕ) → i ≢ j → qs j ≡ ps j

abbrev pub Killed : ℕ → ℕ → (ℕ → Proc) → Bool × (ℕ → Proc) → Type 0
Killed pid signum ps (true, qs) =
    (signum ≤ 31)
    × ((i : ℕ) × (i < nproc)
        × ((ps i).pid ≡ pid)
        × ((j : ℕ) → j < i → (ps j).pid ≢ pid)
        × Sent signum i ps qs)
Killed pid signum ps (false, qs) =
    (qs ≡ ps) × ((31 < signum) ⊎ ((j : ℕ) → j < nproc → (ps j).pid ≢ pid))

send-Sent :
    (signum i : ℕ) (ps : ℕ → Proc)
    → Sent signum i ps
        (update ps i (record (ps i) { pending = bit_or (ps i).pending (2 ^ signum) }))
send-Sent signum i ps = record {
  signal = λ j.
      rw (update_self ps i (record (ps i) { pending = bit_or (ps i).pending (2 ^ signum) })) (
        ground (
          arith,
          has_signal-bit (ps i) j,
          has_signal-bit (record (ps i) { pending = bit_or (ps i).pending (2 ^ signum) }) j,
          test_bit-or j (ps i).pending (2 ^ signum),
          test_bit-pow signum j,
        ));
  rest = rw (update_self ps i (record (ps i) { pending = bit_or (ps i).pending (2 ^ signum) }));
  others = λ j ne. update_ne ps i j _ ne;
}

Killed-find :
    (pid signum : ℕ) (ps : ℕ → Proc) (o : Option ℕ)
    → signum ≤ 31
    → First (λ p. p.pid == pid) ps 0 nproc o
    → Killed pid signum ps (elim o [
      | none ↦ (false, ps)
      | some i ↦
          (true, update ps i (record (ps i) { pending = bit_or (ps i).pending (2 ^ signum) }))
    ])
Killed-find pid signum ps none h f = (refl, inr (λ j lt e. ground (arith, f j)))
Killed-find pid signum ps (some i) h (lo, hi, on, before) =
    (h, (i, hi, ground arith, (λ j lt e. ground (arith, before j)), send-Sent signum i ps))

-- `kill` sends a legal signal to the first process with the pid, which gets that one more pending
-- signal and no other change; with an illegal number, or a pid that no entry has, it changes
-- nothing and fails.
pub kill_lem : (pid signum : ℕ) (ps : ℕ → Proc) → Killed pid signum ps (kill pid signum ps)
unfolding kill
kill_lem pid signum ps = elim (Bool-cases (leb signum 31)) [
  | inl legal ↦ rw legal (
      Killed-find pid signum ps (find_first (λ p. p.pid == pid) ps 0 nproc) (ground arith)
        (find_first-First (λ p. p.pid == pid) ps 0 nproc))
  | inr illegal ↦ rw illegal (refl, inl (ground arith))
]
