-- ===== src/Ptable/System/Inv.antt =====
-- Pids are unique, and the parent of every process is alive.
use osassignment.Prelude.{ℕ, ◌≤◌, ◌<◌, ◌≡◌, ◌≢◌, ◌∙◌, sym, refl, some, ℕ_discrete, arith}
use osassignment.Prelude.Table.{update, update_ne, update_self}
use osassignment.Proc.{Proc, unused, zombie, nproc}
use osassignment.Ptable.{Kernel}

abbrev pub Used : Proc → Type 0
Used p = p.state ≢ unused

abbrev pub Alive : Proc → Type 0
Alive p = (p.state ≢ unused) × (p.state ≢ zombie)

pub record Inv {R : Type 0} (k : Kernel R) : Type 0 where
  pub unique :
      (i j : ℕ)
      → i < nproc
      → j < nproc
      → Used (k.procs i)
      → Used (k.procs j)
      → (k.procs i).pid ≡ (k.procs j).pid
      → i ≡ j
  pub bound : (i : ℕ) → i < nproc → Used (k.procs i) → (k.procs i).pid ≤ k.nextpid
  pub parents :
      (i p : ℕ)
      → i < nproc
      → Used (k.procs i)
      → (k.procs i).parent ≡ some p
      → (p < nproc) × Alive (k.procs p)
  pub init_alive : (k.initproc < nproc) × Alive (k.procs k.initproc)

-- The same pid and parent, and a state that is unused or a zombie only if it was.
pub record Alike (p q : Proc) : Type 0 where
  pub pid : q.pid ≡ p.pid
  pub parent : q.parent ≡ p.parent
  pub used : Used q → Used p
  pub alive : Alive p → Alive q

module _ {R : Type 0} (k : Kernel R) where
  pub Alike-Inv :
      (k' : Kernel R)
      → k.nextpid ≤ k'.nextpid
      → k'.initproc ≡ k.initproc
      → ((j : ℕ) → j < nproc → Used (k'.procs j) → Alike (k.procs j) (k'.procs j))
      → ((j : ℕ) → j < nproc → Alive (k.procs j) → Alive (k'.procs j))
      → Inv k
      → Inv k'
  Alike-Inv k' n init same alive v = record {
    unique = λ i j hi hj ui uj e.
        v.unique i j hi hj ((same i hi ui).used ui) ((same j hj uj).used uj)
          (sym (same i hi ui).pid ∙ e ∙ (same j hj uj).pid);
    bound = λ i hi ui. omega (arith, (same i hi ui).pid, v.bound i hi ((same i hi ui).used ui));
    parents = λ i p hi ui e.
        let old = v.parents i p hi ((same i hi ui).used ui) (sym (same i hi ui).parent ∙ e) in
        (old.0, alive p old.0 old.1);
    init_alive = rw init (v.init_alive.0, alive k.initproc v.init_alive.0 v.init_alive.1);
  }

pub Alike-refl : (p : Proc) → Alike p p
Alike-refl p = record { pid = refl; parent = refl; used = λ u. u; alive = λ a. a }

pub update-Alike :
    (ps : ℕ → Proc) (i : ℕ) (p : Proc) → Alike (ps i) p → (j : ℕ) → Alike (ps j) (update ps i p j)
update-Alike ps i p a j = elim (ℕ_discrete i j) [
  | yes e ↦ rw (← e, update_self ps i p) a
  | no ne ↦ rw (update_ne ps i j p ne) (Alike-refl (ps j))
]

-- A change of the entries that leaves each one alike.
pub Alike-procs :
    {R : Type 0} (k : Kernel R) (qs : ℕ → Proc)
    → ((j : ℕ) → j < nproc → Alike (k.procs j) (qs j))
    → Inv k
    → Inv (record k { procs = qs })
Alike-procs k qs a v =
    Alike-Inv k (record k { procs = qs }) (omega arith) refl (λ j h _. a j h) (λ j h. (a j h).alive)
      v
