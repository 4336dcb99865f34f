-- ===== src/Spinlock/Cpus.antt =====
-- The count of `pushcli` on a CPU.
use osassignment.Prelude.{
  ℕ, zero, suc, ◌+◌, ◌-◌, ◌%◌, ◌^◌, ◌≤◌, ◌<◌, ◌≡◌, ◌≢◌, refl, sym, ◌∙◌, subst, true, false, ◌&&◌,
  leb, ◌==◌, some, arith, ℕ_discrete,
}
use mathlib.Core.Option.{some-injective}
use osassignment.Prelude.Table.{update, update_self, update_ne}
use osassignment.Spinlock.{Cpu, pushcli, popcli}
use osassignment.Spinlock.Lock.{has_lock}
use osassignment.Spinlock.System.{
  Place, outside, spinning, taken, inside, leaving, weight, System, after_xchg,
}

abbrev pub CpuOk : ℕ → Place → Cpu → Type 0
CpuOk n p cpu =
    (cpu.ncli ≡ n + weight p) × (0 < cpu.ncli → cpu.interrupts ≡ false) × (n < 2 ^ 31 - 1)

abbrev pub CpusOk : System → Type 0
CpusOk s = (c : ℕ) → CpuOk (s.nested c) (s.places c) (s.cpus c)

pub weight-le : (p : Place) → weight p ≤ 1
weight-le outside = omega arith
weight-le spinning = omega arith
weight-le taken = omega arith
weight-le inside = omega arith
weight-le leaving = omega arith

pub CpuOk-push :
    (n m : ℕ) (p q : Place) (cpu : Cpu)
    → CpuOk n p cpu
    → m + weight q ≡ n + weight p + 1
    → m < 2 ^ 31 - 1
    → CpuOk m q (pushcli cpu)
unfolding pushcli
CpuOk-push n m p q cpu (eq, off, small) e lt =
    let le = weight-le p in (omega (arith, eq, le, small, e), λ h. refl, lt)

pub popcli-ok :
    (n : ℕ) (p : Place) (cpu : Cpu)
    → CpuOk n p cpu
    → 0 < n + weight p
    → popcli cpu
      ≡ some (record cpu { ncli = cpu.ncli - 1; interrupts = (cpu.ncli - 1 == 0) && cpu.intena })
unfolding popcli
popcli-ok n p cpu (eq, off, small) h =
    let le = weight-le p in
    let less : (cpu.ncli + (2 ^ 32 - 1)) % 2 ^ 32 ≡ cpu.ncli - 1 =
      omega (arith, eq, le, small, h) in
    let fits : leb (2 ^ 31) (cpu.ncli - 1) ≡ false = ground (arith, eq, le, small, h) in
    rw (off (omega (arith, eq, h)), less, fits) refl

pub CpuOk-pop :
    (n m : ℕ) (p q : Place) (cpu d : Cpu)
    → CpuOk n p cpu
    → m + weight q + 1 ≡ n + weight p
    → m < 2 ^ 31 - 1
    → popcli cpu ≡ some d
    → CpuOk m q d
CpuOk-pop n m p q cpu d ok e lt popped =
    let eq = some-injective _ _ (sym popped ∙ popcli-ok n p cpu ok (omega (arith, e))) in
    rw eq (
      omega (arith, ok.0, e),
      λ h. let more : (cpu.ncli - 1 == 0) ≡ false = ground (arith, h) in rw more refl,
      lt,
    )

pub CpusOk-at :
    (n m : ℕ → ℕ) (p q : ℕ → Place) (u v : ℕ → Cpu) (c : ℕ)
    → ((d : ℕ) → CpuOk (n d) (p d) (u d))
    → ((d : ℕ) → c ≢ d → (m d ≡ n d) × (q d ≡ p d) × (v d ≡ u d))
    → CpuOk (m c) (q c) (v c)
    → (d : ℕ) → CpuOk (m d) (q d) (v d)
CpusOk-at n m p q u v c ok same here d = elim (ℕ_discrete c d) [
  | yes e ↦ subst (λ k. CpuOk (m k) (q k) (v k)) e here
  | no ne ↦ let (a, b, f) = same d ne in rw (a, b, f) (ok d)
]

unfoldable pub popped : Cpu → Cpu
popped cpu = record cpu { ncli = cpu.ncli - 1; interrupts = (cpu.ncli - 1 == 0) && cpu.intena }

pub CpuOk-popped :
    (n m : ℕ) (p q : Place) (cpu : Cpu)
    → CpuOk n p cpu
    → m + weight q + 1 ≡ n + weight p
    → m < 2 ^ 31 - 1
    → CpuOk m q (popped cpu)
unfolding popped
CpuOk-popped n m p q cpu ok e lt =
    CpuOk-pop n m p q cpu _ ok e lt (popcli-ok n p cpu ok (omega (arith, e)))

-- A CPU moves, and its count stays.
pub CpusOk-move :
    (s : System) (c : ℕ) (p : Place)
    → CpusOk s
    → weight p ≡ weight (s.places c)
    → (d : ℕ) → CpuOk (s.nested d) (update s.places c p d) (s.cpus d)
CpusOk-move s c p ok e =
    CpusOk-at s.nested s.nested s.places _ s.cpus s.cpus c ok
      (λ d ne. (refl, update_ne s.places c d p ne, refl)) (rw (update_self s.places c p, e) (ok c))

pub weight-after_xchg : (n : ℕ) → weight (after_xchg n) ≡ 1
weight-after_xchg zero = refl
weight-after_xchg (suc n) = refl

pub has_lock-weight : (p : Place) → has_lock p ≡ true → weight p ≡ 1
has_lock-weight outside h = absurd (cc)
has_lock-weight spinning h = refl
has_lock-weight taken h = refl
has_lock-weight inside h = refl
has_lock-weight leaving h = refl
