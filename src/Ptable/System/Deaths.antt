-- ===== src/Ptable/System/Deaths.antt =====
-- The invariant under `exit`.
use osassignment.Prelude.{
  ℕ, ◌<◌, ◌≡◌, ◌≢◌, ◌⊎◌, ◌∙◌, sym, ap, subst, true, Option, none, some, inl, inr, ℕ_discrete, arith,
}
use osassignment.Proc.{ProcState, unused, zombie, nproc}
use osassignment.Ptable.{Services, Layout, Kernel}
use osassignment.Ptable.Exit.{child_of, exit}
use osassignment.Ptable.Exit.Reparent.{Awakens, new_parent}
use osassignment.Ptable.Exit.Exited.{Exited}
use osassignment.Ptable.System.Inv.{Used, Alive, Inv}

pub exit-init :
    (s : Services) (l : Layout) (cur : ℕ) (k k' : Kernel s.Res)
    → cur ≡ k.initproc
    → exit s l cur k ≢ some k'
unfolding exit
exit-init s l cur k k' e r = ground arith

Awakens-Used : {s t : ProcState} → Awakens s t → t ≢ unused → s ≢ unused
Awakens-Used a u e = ground arith

Awakens-Alive :
    {s t : ProcState} → Awakens s t → (s ≢ unused) × (s ≢ zombie) → (t ≢ unused) × (t ≢ zombie)
Awakens-Alive a h = (λ e. ground arith, λ e. ground arith)

new_parent-some :
    (cur init p : ℕ) (o : Option ℕ)
    → new_parent cur init o ≡ some p
    → ((child_of cur o ≡ true) × (p ≡ init)) ⊎ ((p ≢ cur) × (o ≡ some p))
new_parent-some cur init p none e = absurd (cc)
new_parent-some cur init p (some i) e = elim (ℕ_discrete i cur) [
  | yes q ↦ inl (ground arith, ground arith)
  | no ne ↦ inr (ground arith, ground arith)
]

module _ {R : Type 0} (k k' : Kernel R) (v : Inv k) (l : Layout) (cur : ℕ) (h : cur < nproc)
    (ne : cur ≢ k.initproc) (live : Used (k.procs cur))
    (x : Exited l cur k.initproc k.procs k'.procs) (n : k'.nextpid ≡ k.nextpid)
    (init : k'.initproc ≡ k.initproc) where
  was-Used : (j : ℕ) → j < nproc → Used (k'.procs j) → Used (k.procs j)
  was-Used j hj u = elim (ℕ_discrete cur j) [
    | yes e ↦ subst (λ m. Used (k.procs m)) e live
    | no d ↦ Awakens-Used (x.others j hj d).wakes u
  ]

  same_pid : (j : ℕ) → j < nproc → (k'.procs j).pid ≡ (k.procs j).pid
  same_pid j hj = elim (ℕ_discrete cur j) [
    | yes e ↦ subst (λ m. (k'.procs m).pid ≡ (k.procs m).pid) e x.same_pid
    | no d ↦ ap (λ p. p.pid) (x.others j hj d).same
  ]

  still-Alive : (j : ℕ) → j < nproc → cur ≢ j → Alive (k.procs j) → Alive (k'.procs j)
  still-Alive j hj d a = Awakens-Alive (x.others j hj d).wakes a

  exit-parents :
      (i p : ℕ)
      → i < nproc
      → Used (k'.procs i)
      → (k'.procs i).parent ≡ some p
      → (p < nproc) × Alive (k'.procs p)
  exit-parents i p hi u e =
      elim (new_parent-some cur k.initproc p (k.procs i).parent (sym (x.adopted i hi) ∙ e)) [
        | inl (_, q) ↦
            rw q (v.init_alive.0, still-Alive k.initproc v.init_alive.0 ne v.init_alive.1)
        | inr (d, q) ↦
            let old = v.parents i p hi (was-Used i hi u) q in
            (old.0, still-Alive p old.0 (λ c. d (sym c)) old.1)
      ]

  pub Exited-Inv : Inv k'
  Exited-Inv = record {
    unique = λ i j hi hj ui uj e.
        v.unique i j hi hj (was-Used i hi ui) (was-Used j hj uj)
          (sym (same_pid i hi) ∙ e ∙ same_pid j hj);
    bound = λ i hi u. omega (arith, same_pid i hi, v.bound i hi (was-Used i hi u));
    parents = exit-parents;
    init_alive = rw init (v.init_alive.0, still-Alive k.initproc v.init_alive.0 ne v.init_alive.1);
  }
