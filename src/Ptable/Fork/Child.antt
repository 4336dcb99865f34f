-- ===== src/Ptable/Fork/Child.antt =====
-- What `allocproc` and `fork` do to the table.
use osassignment.Prelude.{
  ℕ, ◌+◌, ◌-◌, ◌%◌, ◌^◌, ◌<◌, ◌≡◌, ◌≢◌, ◌⊎◌, refl, ◌∙◌, sym, ap, true, ◌==◌, Option, none, some,
  inl, inr, Bool-cases, ℕ_discrete, ne_of_==, arith,
}
use osassignment.Prelude.Table.{First, find_first, find_first-First, update, update_ne, update_self}
use osassignment.Proc.{Proc, ProcState, unused, embryo, runnable, is_unused, nproc}
use osassignment.Signal.{trapframe_size}
use osassignment.Ptable.{Services, Layout, Kernel}
use osassignment.Ptable.Fork.Built.{
  Built, BuiltResult, allocproc-BuiltResult, Copied, CopiedBy, fork_child-Copied,
}
use osassignment.Ptable.Fork.{
  is_free, alloc_at, allocproc, allocpid, fork, fork_copy, fork_child, kstacksize,
}

-- Entries in use are as they were, and free ones are still free.
pub record UsedSame (ps qs : ℕ → Proc) : Type 0 where
  pub used : (j : ℕ) → (ps j).state ≢ unused → qs j ≡ ps j
  pub free : (j : ℕ) → (ps j).state ≡ unused → (qs j).state ≡ unused

-- Entry `i` was free and is now a process in creation; no other entry has changed.
pub record Allocated {R : Type 0} (i : ℕ) (k k' : Kernel R) : Type 0 where
  pub small : i < nproc
  pub was_free : (k.procs i).state ≡ unused
  pub state : (k'.procs i).state ≡ embryo
  pub pid : (k'.procs i).pid ≡ (k.nextpid + 1) % 2 ^ 32
  pub next : k'.nextpid ≡ (k.nextpid + 1) % 2 ^ 32
  pub kstack : (k'.procs i).kstack ≢ 0
  pub tf : (k'.procs i).tf ≡ (k'.procs i).kstack + kstacksize - trapframe_size
  pub trap_backup : (k'.procs i).trap_backup ≡ (k.procs i).trap_backup
  pub others : (j : ℕ) → i ≢ j → k'.procs j ≡ k.procs j
  pub init : k'.initproc ≡ k.initproc

-- Without a free entry, or without memory, a pid may have been used up, and that is all.
pub record Refused {R : Type 0} (k k' : Kernel R) : Type 0 where
  pub same : UsedSame k.procs k'.procs
  pub next : (k'.nextpid ≡ k.nextpid) ⊎ (k'.nextpid ≡ (k.nextpid + 1) % 2 ^ 32)
  pub init : k'.initproc ≡ k.initproc

abbrev pub AllocResult : {R : Type 0} → Kernel R → Option ℕ × Kernel R → Type 0
AllocResult k (none, k') = Refused k k'
AllocResult k (some i, k') = Allocated i k k'

is_unused_iff : (s : ProcState) → is_unused s ≡ true → s ≡ unused
is_unused_iff s h = ground arith

-- A table that differs from `ps` in the free entry `i` only, whatever is put there.
change_free :
    (ps qs : ℕ → Proc) (i : ℕ) (p : Proc)
    → (ps i).state ≡ unused
    → ((j : ℕ) → i ≢ j → qs j ≡ ps j)
    → p.state ≡ unused
    → UsedSame ps (update qs i p)
change_free ps qs i p was same is = record {
  used = λ j ne. elim (ℕ_discrete i j) [
    | yes e ↦ absurd (ne (ap (λ n. (ps n).state) (sym e) ∙ was))
    | no d ↦ update_ne qs i j p d ∙ same j d
  ];
  free = λ j st. elim (ℕ_discrete i j) [
    | yes e ↦ rw (← e, update_self qs i p) is
    | no d ↦ rw (update_ne qs i j p d, same j d) st
  ];
}

UsedSame-refl : (ps : ℕ → Proc) → UsedSame ps ps
UsedSame-refl ps = record { used = λ j ne. refl; free = λ j st. st }

module _ (s : Services) (l : Layout) (i : ℕ) (k c : Kernel s.Res) (small : i < nproc)
    (was : (k.procs i).state ≡ unused) (creating : (c.procs i).state ≡ embryo)
    (same : (j : ℕ) → i ≢ j → c.procs j ≡ k.procs j) (next : c.nextpid ≡ k.nextpid)
    (init : c.initproc ≡ k.initproc)
    (backup : (c.procs i).trap_backup ≡ (k.procs i).trap_backup) where
  alloc_at-AllocResult : AllocResult k (alloc_at s l i c)
  unfolding alloc_at
  alloc_at-AllocResult = elim (Bool-cases ((s.kalloc c.res).0 == 0)) [
    | inl e ↦
        rw (e, allocpid)
          (record {
            same = change_free k.procs c.procs i _ was same refl;
            next = inr (ap (λ n. (n + 1) % 2 ^ 32) next);
            init = init;
          })
    | inr e ↦
        rw (e, allocpid)
          (record {
            small = small;
            was_free = was;
            state = ap (λ p. p.state) (update_self c.procs i _) ∙ creating;
            pid = ap (λ p. p.pid) (update_self c.procs i _) ∙ ap (λ n. (n + 1) % 2 ^ 32) next;
            next = ap (λ n. (n + 1) % 2 ^ 32) next;
            kstack = λ z. ne_of_== _ 0 e (sym (ap (λ p. p.kstack) (update_self c.procs i _)) ∙ z);
            tf =
                ap (λ p. p.tf) (update_self c.procs i _)
                ∙ sym (ap (λ p. p.kstack + kstacksize - trapframe_size) (update_self c.procs i _));
            trap_backup = ap (λ p. p.trap_backup) (update_self c.procs i _) ∙ backup;
            others = λ j ne. update_ne c.procs i j _ ne ∙ same j ne;
            init = init;
          })
  ]

allocproc-AllocResult :
    (s : Services) (l : Layout) (k : Kernel s.Res) → AllocResult k (allocproc s l k)
unfolding allocproc
allocproc-AllocResult s l k =
    go (find_first is_free k.procs 0 nproc) (find_first-First is_free k.procs 0 nproc)
  where
    go :
        (o : Option ℕ)
        → First is_free k.procs 0 nproc o
        → AllocResult k (elim o [
          | none ↦ (none, k)
          | some i ↦
              alloc_at s l i
                (record k { procs = update k.procs i (record (k.procs i) { state = embryo }) })
        ])
    go none f = record { same = UsedSame-refl k.procs; next = inl refl; init = refl }
    go (some i) (lo, hi, on, before) =
        alloc_at-AllocResult s l i k
          (record k { procs = update k.procs i (record (k.procs i) { state = embryo }) }) hi
          (is_unused_iff _ on)
          (ap (λ p. p.state) (update_self k.procs i (record (k.procs i) { state = embryo })))
          (λ j ne. update_ne k.procs i j (record (k.procs i) { state = embryo }) ne) refl refl
          (ap (λ p. p.trap_backup) (update_self k.procs i (record (k.procs i) { state = embryo })))

-- Entry `i` was free and is now the runnable child of `cur`, with the parent's memory size,
-- directory, handlers and mask, no pending signal and the next pid; no other entry has changed.
pub record Forked {R : Type 0} (cur i pid : ℕ) (k k' : Kernel R) : Type 0 where
  pub small : i < nproc
  pub was_free : (k.procs i).state ≡ unused
  pub state : (k'.procs i).state ≡ runnable
  pub pid_next : (pid ≡ (k.nextpid + 1) % 2 ^ 32) × (k'.nextpid ≡ (k.nextpid + 1) % 2 ^ 32)
  pub child_pid : (k'.procs i).pid ≡ pid
  pub parent : (k'.procs i).parent ≡ some cur
  pub size : (k'.procs i).sz ≡ (k.procs cur).sz
  pub cwd : (k'.procs i).cwd ≡ (k.procs cur).cwd
  pub handlers : (k'.procs i).handlers ≡ (k.procs cur).handlers
  pub mask : (k'.procs i).mask ≡ (k.procs cur).mask
  pub pending : (k'.procs i).pending ≡ 0
  pub trap_backup : (k'.procs i).trap_backup ≡ (k.procs i).trap_backup
  pub others : (j : ℕ) → i ≢ j → k'.procs j ≡ k.procs j
  pub init : k'.initproc ≡ k.initproc

abbrev pub ForkResult : (s : Services) → ℕ → Kernel s.Res → Option ℕ × Kernel s.Res → Type 0
ForkResult s cur k (none, k') = Refused k k'
ForkResult s cur k (some pid, k') = (i : ℕ) × Forked cur i pid k k' × Copied s cur i k k'

module _ (s : Services) (l : Layout) (cur i : ℕ) (k c : Kernel s.Res) (a : Allocated i k c)
    (b : Built s i k c) (ne : i ≢ cur) where
  at_cur : c.procs cur ≡ k.procs cur
  at_cur = a.others cur ne

  abbrev ForkedBy : Option ℕ × Kernel s.Res → Type 0
  ForkedBy (none, k') = ⊥
  ForkedBy (some pid, k') = Forked cur i pid k k'

  fork_child-Forked :
      (pgdir : ℕ) (res : s.Res) → ForkedBy (fork_child s l cur i pgdir (record c { res = res }))
  unfolding fork_child
  fork_child-Forked pgdir res = record {
    small = a.small;
    was_free = a.was_free;
    state = ap (λ p. p.state) (update_self c.procs i _);
    pid_next = (a.pid, a.next);
    child_pid = ap (λ p. p.pid) (update_self c.procs i _);
    parent = ap (λ p. p.parent) (update_self c.procs i _);
    size = ap (λ p. p.sz) (update_self c.procs i _) ∙ ap (λ p. p.sz) at_cur;
    cwd = ap (λ p. p.cwd) (update_self c.procs i _) ∙ ap (λ p. p.cwd) at_cur;
    handlers = ap (λ p. p.handlers) (update_self c.procs i _) ∙ ap (λ p. p.handlers) at_cur;
    mask = ap (λ p. p.mask) (update_self c.procs i _) ∙ ap (λ p. p.mask) at_cur;
    trap_backup = ap (λ p. p.trap_backup) (update_self c.procs i _) ∙ a.trap_backup;
    pending = ap (λ p. p.pending) (update_self c.procs i _);
    others = λ j d. update_ne c.procs i j _ d ∙ a.others j d;
    init = a.init;
  }

  both : (r : Option ℕ × Kernel s.Res) → ForkedBy r → CopiedBy s cur i k r → ForkResult s cur k r
  both (none, k') f q = absurd f
  both (some pid, k') f q = (i, f, q)

  fork_copy-ForkResult : ForkResult s cur k (fork_copy s l cur i c)
  unfolding fork_copy
  fork_copy-ForkResult =
      elim (Bool-cases ((s.copyuvm (c.procs cur).pgdir (c.procs cur).sz c.res).0 == 0)) [
        | inl e ↦ rw e (record {
          same = change_free k.procs c.procs i _ a.was_free a.others refl;
          next = inr a.next;
          init = a.init;
        })
        | inr e ↦
            let (pgdir, res) = s.copyuvm (c.procs cur).pgdir (c.procs cur).sz c.res in
            rw e (
              both (fork_child s l cur i pgdir (record c { res = res }))
                (fork_child-Forked pgdir res)
                (fork_child-Copied s l cur i k c b at_cur pgdir res (ne_of_== pgdir 0 e) refl))
      ]

pub fork-ForkResult :
    (s : Services) (l : Layout) (cur : ℕ) (k : Kernel s.Res)
    → (k.procs cur).state ≢ unused
    → ForkResult s cur k (fork s l cur k)
unfolding fork
fork-ForkResult s l cur k live =
    go (allocproc s l k).0 (allocproc s l k).1 (allocproc-AllocResult s l k)
      (allocproc-BuiltResult s l k)
  where
    go :
        (o : Option ℕ) (k1 : Kernel s.Res)
        → AllocResult k (o, k1)
        → BuiltResult s k (o, k1)
        → ForkResult s cur k (elim o [ none ↦ (none, k1) | some n ↦ fork_copy s l cur n k1 ])
    go none k1 r b = r
    go (some n) k1 a b =
        fork_copy-ForkResult s l cur n k k1 a b
          (λ e. live (ap (λ j. (k.procs j).state) (sym e) ∙ a.was_free))
