-- ===== src/Spinlock/Exclusion.antt =====
-- At most one CPU is between `xchg` and the end of `release`, and nothing panics.
use osassignment.Prelude.{
  ℕ, ◌+◌, ◌-◌, ◌<◌, ◌≡◌, ◌≢◌, refl, sym, ap, ◌∙◌, true, false, none, some, inl, arith, ℕ_discrete,
}
use mathlib.Core.Option.{some-injective, none-ne-some}
use osassignment.Prelude.Table.{update_self, update_ne}
use osassignment.Spinlock.{pushcli, popcli, start, own, disown, unlock}
use osassignment.Spinlock.System.{
  outside, spinning, inside, leaving, weight, System, Step, starts, spins, owns, disowns, unlocks,
  nests, unnests, sets_interrupts, Reach, boot, next,
}
use osassignment.Spinlock.Lock.{
  has_lock, owner_of, LockOk, LockOk-calm, LockOk-held, IsHeldBy-move, IsFree-move, holding-outside,
  holding-inside, spins-LockOk,
}
use osassignment.Spinlock.Cpus.{
  CpusOk, CpuOk-push, popcli-ok, CpuOk-pop, CpusOk-at, CpuOk-popped, CpusOk-move, weight-after_xchg,
  has_lock-weight, popped,
}

-- The lock and the CPUs.
abbrev IsOk : System → Type 0
IsOk s = LockOk s.lk s.places × CpusOk s

start-ok :
    (s : System) (c : ℕ)
    → IsOk s
    → s.places c ≡ outside
    → start c s.lk (s.cpus c) ≡ some (pushcli (s.cpus c))
unfolding start
start-ok s c (lock, cpus) at = rw (holding-outside s.lk s.places c (rw at refl) lock) refl

disown-ok :
    (s : System) (c : ℕ)
    → IsOk s
    → s.places c ≡ inside
    → disown c s.lk ≡ some (record (s.lk) { cpu = none })
unfolding disown
disown-ok s c (lock, cpus) at = rw (holding-inside s.lk s.places c at lock) refl

unlock-ok :
    (s : System) (c : ℕ)
    → IsOk s
    → s.places c ≡ leaving
    → unlock s.lk (s.cpus c) ≡ some (record (s.lk) { locked = 0 }, popped (s.cpus c))
unfolding unlock popped
unlock-ok s c (lock, cpus) at =
    rw (popcli-ok (s.nested c) (s.places c) (s.cpus c) (cpus c) (rw at (omega arith)), unlock) refl

Step-IsOk : (s t : System) → Step s t → IsOk s → IsOk t
Step-IsOk _ _ (starts s c cpu at e) ok = rw (some-injective _ _ (sym e ∙ start-ok s c ok at)) (
  LockOk-calm s.lk s.places c spinning (rw at refl) refl ok.0,
  CpusOk-at s.nested s.nested s.places _ s.cpus _ c ok.1
      (λ d ne. (refl, update_ne s.places c d spinning ne, update_ne s.cpus c d _ ne))
      (rw (update_self s.places c spinning, update_self s.cpus c (pushcli (s.cpus c)))
        (CpuOk-push (s.nested c) (s.nested c) (s.places c) spinning (s.cpus c) (ok.1 c)
          (rw at (omega arith)) (ok.1 c).2)),
)
Step-IsOk _ _ (spins s c at) (lock, cpus) = (
  spins-LockOk s.lk s.places c at lock,
  CpusOk-move s c _ cpus (weight-after_xchg s.lk.locked ∙ sym (ap weight at)),
)
Step-IsOk _ _ (owns s c at) (lock, cpus) =
    let (l, owner, has, h) = LockOk-held s.lk s.places c (rw at refl) lock in
    (
      IsHeldBy-move (own c s.lk) s.places c inside refl l refl h,
      CpusOk-move s c inside cpus (rw at refl),
    )
Step-IsOk _ _ (disowns s c lk at e) (lock, cpus) =
    let (l, owner, has, h) = LockOk-held s.lk s.places c (rw at refl) lock in
    rw (some-injective _ _ (sym e ∙ disown-ok s c (lock, cpus) at)) (
      IsHeldBy-move (record (s.lk) { cpu = none }) s.places c leaving refl l refl h,
      CpusOk-move s c leaving cpus (rw at refl),
    )
Step-IsOk _ _ (unlocks s c lk cpu at e) (lock, cpus) =
    let (l, owner, has, h) = LockOk-held s.lk s.places c (rw at refl) lock in
    let both = some-injective _ _ (sym e ∙ unlock-ok s c (lock, cpus) at) in
    rw (ap (λ p. p.0) both, ap (λ p. p.1) both)
      (
        IsFree-move (record (s.lk) { locked = 0 }) s.places c refl (owner ∙ ap (owner_of c) at) h,
        CpusOk-at s.nested s.nested s.places _ s.cpus _ c cpus
            (λ d ne. (refl, update_ne s.places c d outside ne, update_ne s.cpus c d _ ne))
            (rw (update_self s.places c outside, update_self s.cpus c (popped (s.cpus c)))
              (CpuOk-popped (s.nested c) (s.nested c) (s.places c) outside (s.cpus c) (cpus c)
                (rw at (omega arith)) (cpus c).2)),
      )
Step-IsOk _ _ (nests s c few) ok = (
  ok.0,
  CpusOk-at s.nested _ s.places s.places s.cpus _ c ok.1
      (λ d ne. (update_ne s.nested c d _ ne, refl, update_ne s.cpus c d _ ne))
      (rw (update_self s.nested c (s.nested c + 1), update_self s.cpus c (pushcli (s.cpus c)))
        (CpuOk-push (s.nested c) (s.nested c + 1) (s.places c) (s.places c) (s.cpus c) (ok.1 c)
          (omega arith) (omega arith))),
)
Step-IsOk _ _ (unnests s c cpu deep e) ok = (
  ok.0,
  CpusOk-at s.nested _ s.places s.places s.cpus _ c ok.1
      (λ d ne. (update_ne s.nested c d _ ne, refl, update_ne s.cpus c d cpu ne))
      (rw (update_self s.nested c (s.nested c - 1), update_self s.cpus c cpu)
        (CpuOk-pop (s.nested c) (s.nested c - 1) (s.places c) (s.places c) (s.cpus c) cpu (ok.1 c)
          (omega (arith, deep)) (omega (arith, (ok.1 c).2)) e)),
)
Step-IsOk _ _ (sets_interrupts s c on zero_ncli) ok = (
  ok.0,
  CpusOk-at s.nested s.nested s.places s.places s.cpus _ c ok.1
      (λ d ne. (refl, refl, update_ne s.cpus c d _ ne))
      (rw (update_self s.cpus c (record (s.cpus c) { interrupts = on }))
        ((ok.1 c).0, λ h. absurd (omega (arith, h, zero_ncli)), (ok.1 c).2)),
)

Reach-IsOk : (s : System) → Reach s → IsOk s
Reach-IsOk _ (boot cpus h) = (
  inl (refl, refl, λ d. refl),
  λ c. (omega (arith, h c), λ more. absurd (omega (arith, h c, more)), omega arith),
)
Reach-IsOk _ (next s t r step) = Step-IsOk s t step (Reach-IsOk s r)

-- Two CPUs that have the lock are one, and no interrupt comes in on it.
pub Reach-exclusive :
    (s : System) (c d : ℕ)
    → Reach s
    → has_lock (s.places c) ≡ true
    → has_lock (s.places d) ≡ true
    → (c ≡ d) × ((s.cpus c).interrupts ≡ false)
Reach-exclusive s c d r hc hd =
    let (lock, cpus) = Reach-IsOk s r in
    let (l, owner, has, h) = LockOk-held s.lk s.places c hc lock in
    let one = has_lock-weight (s.places c) hc in
    (
      elim (ℕ_discrete c d) [ yes e ↦ e | no ne ↦ absurd (ground (arith, hd, h d ne)) ],
      (cpus c).1 (omega (arith, (cpus c).0, one)),
    )

-- No call of `panic` in the steps of `acquire`, `release` and `popcli` is reached.
pub Reach-NoPanic :
    (s : System) (c : ℕ)
    → Reach s
    → (s.places c ≡ outside → start c s.lk (s.cpus c) ≢ none)
      × (s.places c ≡ inside → disown c s.lk ≢ none)
      × (s.places c ≡ leaving → unlock s.lk (s.cpus c) ≢ none)
      × (0 < s.nested c → popcli (s.cpus c) ≢ none)
Reach-NoPanic s c r =
    let ok = Reach-IsOk s r in
    (
      λ at e. none-ne-some _ (sym e ∙ start-ok s c ok at),
      λ at e. none-ne-some _ (sym e ∙ disown-ok s c ok at),
      λ at e. none-ne-some _ (sym e ∙ unlock-ok s c ok at),
      λ deep e.
          none-ne-some _
            (sym e ∙ popcli-ok _ (s.places c) (s.cpus c) (ok.1 c) (omega (arith, deep))),
    )
