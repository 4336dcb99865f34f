-- ===== src/Spinlock/System.antt =====
-- CPUs that take one lock, with other sections without interrupts around and inside.
use osassignment.Prelude.{ℕ, zero, suc, ◌+◌, ◌-◌, ◌^◌, ◌<◌, ◌≡◌, Bool, none, some}
use osassignment.Prelude.Table.{update}
use osassignment.Spinlock.{Cpu, pushcli, popcli, Spinlock, start, xchg, own, disown, unlock}

-- Where a CPU stands: not at the lock; in the loop of `acquire`; behind the loop; in the section that
-- the lock protects; behind the barrier of `release`.
pub data Place : Type 0 where
  outside spinning taken inside leaving : Place

abbrev pub weight : Place → ℕ
weight outside = 0
weight spinning = 1
weight taken = 1
weight inside = 1
weight leaving = 1

-- `nested` counts the calls of `pushcli` for other locks that are open on a CPU.
pub record System : Type 0 where
  pub lk : Spinlock
  pub cpus : ℕ → Cpu
  pub places : ℕ → Place
  pub nested : ℕ → ℕ

abbrev pub after_xchg : ℕ → Place
after_xchg zero = taken
after_xchg (suc n) = spinning

pub data Step : System → System → Type 0 where
  starts :
      (s : System) (c : ℕ) (cpu : Cpu)
      → s.places c ≡ outside
      → start c s.lk (s.cpus c) ≡ some cpu
      → Step s (record s { cpus = update s.cpus c cpu; places = update s.places c spinning })
  spins :
      (s : System) (c : ℕ)
      → s.places c ≡ spinning
      → Step s
          (record s { lk = (xchg s.lk).1; places = update s.places c (after_xchg (xchg s.lk).0) })
  owns :
      (s : System) (c : ℕ)
      → s.places c ≡ taken
      → Step s (record s { lk = own c s.lk; places = update s.places c inside })
  disowns :
      (s : System) (c : ℕ) (lk : Spinlock)
      → s.places c ≡ inside
      → disown c s.lk ≡ some lk
      → Step s (record s { lk = lk; places = update s.places c leaving })
  unlocks :
      (s : System) (c : ℕ) (lk : Spinlock) (cpu : Cpu)
      → s.places c ≡ leaving
      → unlock s.lk (s.cpus c) ≡ some (lk, cpu)
      → Step s
          (record s { lk = lk; cpus = update s.cpus c cpu; places = update s.places c outside })
  nests :
      (s : System) (c : ℕ)
      → s.nested c < 2 ^ 31 - 2
      → Step s (record s {
        cpus = update s.cpus c (pushcli (s.cpus c));
        nested = update s.nested c (s.nested c + 1);
      })
  unnests :
      (s : System) (c : ℕ) (cpu : Cpu)
      → 0 < s.nested c
      → popcli (s.cpus c) ≡ some cpu
      → Step s
          (record s { cpus = update s.cpus c cpu; nested = update s.nested c (s.nested c - 1) })
  -- `sti` and `cli` of code that holds no lock
  sets_interrupts :
      (s : System) (c : ℕ) (on : Bool)
      → (s.cpus c).ncli ≡ 0
      → Step s (record s { cpus = update s.cpus c (record (s.cpus c) { interrupts = on }) })

-- From a lock as `initlock` leaves it.
pub data Reach : System → Type 0 where
  boot :
      (cpus : ℕ → Cpu)
      → ((c : ℕ) → (cpus c).ncli ≡ 0)
      → Reach (record {
        lk = record { locked = 0; cpu = none };
        cpus = cpus;
        places = λ c. outside;
        nested = λ c. 0;
      })
  next : (s t : System) → Reach s → Step s t → Reach t
