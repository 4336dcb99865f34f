-- ===== src/Ptable/System/Lives.antt =====
-- The invariant under `fork`, `exit` and the reaping half of `wait`.
use osassignment.Prelude.{
  ℕ, ◌+◌, ◌^◌, ◌≤◌, ◌<◌, ◌≡◌, ◌≢◌, ◌⊎◌, refl, ◌∙◌, sym, ap, subst, true, some, inl, inr, ℕ_discrete,
  arith,
}
use osassignment.Proc.{ProcState, unused, embryo, sleeping, runnable, running, zombie, nproc}
use osassignment.Ptable.{Kernel}
use osassignment.Ptable.Fork.Child.{Refused, Forked}
use osassignment.Ptable.Exit.Reap.{freed, is_zombie_child}
use osassignment.Ptable.System.Inv.{Used, Alive, Inv, Alike, Alike-Inv, Alike-refl}

pub not_unused : (s : ProcState) → (s ≡ unused) ⊎ (s ≢ unused)
not_unused unused = inl refl
not_unused embryo = inr (λ e. cc)
not_unused sleeping = inr (λ e. cc)
not_unused runnable = inr (λ e. cc)
not_unused running = inr (λ e. cc)
not_unused zombie = inr (λ e. cc)

module _ {R : Type 0} (k k' : Kernel R) (v : Inv k) where
  -- A used entry after the refusal is the one from before.
  Refused-same : Refused k k' → (j : ℕ) → Used (k'.procs j) → Alike (k.procs j) (k'.procs j)
  Refused-same r j u = elim (not_unused (k.procs j).state) [
    | inl e ↦ absurd (u (r.same.free j e))
    | inr ne ↦ rw (r.same.used j ne) (Alike-refl (k.procs j))
  ]

  pub Refused-Inv : k.nextpid + 1 < 2 ^ 31 → Refused k k' → Inv k'
  Refused-Inv fits r =
      Alike-Inv k k' (omega (arith, r.next)) r.init (λ j h u. Refused-same r j u)
        (λ j h a. rw (r.same.used j a.0) a) v

  pub Reaped-Inv :
      (cur i : ℕ)
      → is_zombie_child cur (k.procs i) ≡ true
      → k'.procs i ≡ freed (k.procs i)
      → ((j : ℕ) → i ≢ j → k'.procs j ≡ k.procs j)
      → k'.nextpid ≡ k.nextpid
      → k'.initproc ≡ k.initproc
      → Inv k'
  Reaped-Inv cur i z f same n init =
      Alike-Inv k k' (omega (arith, n)) init
        (λ j h u. elim (ℕ_discrete i j) [
          | yes e ↦ absurd (u (ap (λ m. (k'.procs m).state) (sym e) ∙ ap (λ p. p.state) f))
          | no ne ↦ rw (same j ne) (Alike-refl (k.procs j))
        ])
        (λ j h a. elim (ℕ_discrete i j) [
          | yes e ↦ absurd (a.1 (ap (λ m. (k.procs m).state) (sym e) ∙ ground arith))
          | no ne ↦ rw (same j ne) a
        ])
        v

  module _ (cur i pid : ℕ) (live : Used (k.procs cur)) (alive : Alive (k.procs cur))
      (small : cur < nproc) (fits : k.nextpid + 1 < 2 ^ 31) (f : Forked cur i pid k k') where
    -- The child's pid is above every other.
    fork-above : (j : ℕ) → j < nproc → i ≢ j → Used (k'.procs j) → (k'.procs j).pid ≤ k.nextpid
    fork-above j h ne u = rw (f.others j ne) (v.bound j h (subst Used (f.others j ne) u))

    fork_unique :
        (a b : ℕ)
        → a < nproc
        → b < nproc
        → Used (k'.procs a)
        → Used (k'.procs b)
        → (k'.procs a).pid ≡ (k'.procs b).pid
        → a ≡ b
    fork_unique a b ha hb ua ub e = elim (ℕ_discrete i a) [
      | yes p ↦ elim (ℕ_discrete i b) [
        | yes q ↦ omega arith
        | no nb ↦ absurd (
            omega (
              arith,
              fork-above b hb nb ub,
              f.child_pid,
              f.pid_next,
              e,
              ap (λ n. (k'.procs n).pid) p,
            ))
      ]
      | no na ↦ elim (ℕ_discrete i b) [
        | yes q ↦ absurd (
            omega (
              arith,
              fork-above a ha na ua,
              f.child_pid,
              f.pid_next,
              e,
              ap (λ n. (k'.procs n).pid) q,
            ))
        | no nb ↦
            v.unique a b ha hb (subst Used (f.others a na) ua) (subst Used (f.others b nb) ub)
              (sym (ap (λ p. p.pid) (f.others a na)) ∙ e ∙ ap (λ p. p.pid) (f.others b nb))
      ]
    ]

    fork-Alive : (j : ℕ) → Alive (k.procs j) → Alive (k'.procs j)
    fork-Alive j a = elim (ℕ_discrete i j) [
      | yes e ↦ absurd (a.0 (ap (λ n. (k.procs n).state) (sym e) ∙ f.was_free))
      | no ne ↦ rw (f.others j ne) a
    ]

    fork-parents :
        (j p : ℕ)
        → j < nproc
        → Used (k'.procs j)
        → (k'.procs j).parent ≡ some p
        → (p < nproc) × Alive (k'.procs p)
    fork-parents j p h u e = elim (ℕ_discrete i j) [
      | yes q ↦
          let c : cur ≡ p = ground (arith, f.parent, ap (λ n. (k'.procs n).parent) q) in
          subst (λ n. (n < nproc) × Alive (k'.procs n)) c (small, fork-Alive cur alive)
      | no ne ↦
          let old =
            v.parents j p h (subst Used (f.others j ne) u)
              (sym (ap (λ r. r.parent) (f.others j ne)) ∙ e) in
          (old.0, fork-Alive p old.1)
    ]

    pub Forked-Inv : Inv k'
    Forked-Inv = record {
      unique = fork_unique;
      bound = λ j h u. elim (ℕ_discrete i j) [
        | yes e ↦ omega (arith, f.child_pid, f.pid_next, ap (λ n. (k'.procs n).pid) e)
        | no ne ↦ omega (arith, fork-above j h ne u, f.pid_next)
      ];
      parents = fork-parents;
      init_alive = rw f.init (v.init_alive.0, fork-Alive k.initproc v.init_alive.1);
    }
