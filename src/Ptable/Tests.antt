-- ===== src/Ptable/Tests.antt =====
-- Runs of the operations on the table.
use osassignment.Prelude.{
  ℕ, ◌+◌, ◌*◌, ◌≡◌, refl, ◌==◌, true, if◌then◌else◌, Option, some, none, [], ◌∷◌, replicate,
  ℕ_discrete, arith,
}
use osassignment.Prelude.Table.{find_first, update}
use osassignment.Proc.{Proc, ProcState, unused, sleeping, running, zombie}
use osassignment.Ptable.{Services, Layout, Kernel, kill}
use osassignment.Ptable.Fork.{
  fork, allocproc, alloc_at, allocpid, fork_copy, fork_child, safestrcpy,
}
use osassignment.Ptable.Exit.{exit, wait}
use osassignment.Ptable.Exit.Exited.{Exited, exit-Exited}
use osassignment.Ptable.Exit.Reap.{Waited, wait-Waited}
use osassignment.Ptable.System.{here, next, forks, kills}
use osassignment.Ptable.System.Inv.{Inv, Used}
use osassignment.Ptable.System.Steps.{Reach-Inv}

-- Pages are handed out one after the other.
abbrev paging : Services
paging = record {
  Res = ℕ;
  kalloc = λ n. (4096 * (n + 1), n + 1);
  kfree = λ _ n. n;
  copyuvm = λ _ _ n. (4096 * (n + 1), n + 1);
  freevm = λ _ n. n;
  filedup = λ _ n. n;
  fileclose = λ _ n. n;
  idup = λ _ n. n;
  iput = λ _ n. n;
  begin_op = λ n. n;
  end_op = λ n. n;
}

abbrev a_layout : Layout
a_layout = record { ptable = 0x80000; forkret = 0x500; trapret = 0x600 }

abbrev an_entry : ProcState → ℕ → Option ℕ → ℕ → Proc
an_entry state pid parent chan = record {
  sz = 0x4000;
  pgdir = 0x9000;
  kstack = 0xa000;
  state = state;
  pid = pid;
  parent = parent;
  tf = 0xafb4;
  context = 0xaf9c;
  chan = chan;
  killed = 0;
  ofile = replicate 16 none;
  cwd = none;
  name = replicate 16 0;
  pending = 0;
  mask = 0xffffffff;
  mask_backup = 0;
  handlers = replicate 32 0xffffffff;
  trap_backup = 0;
}

-- Init sleeps in `wait`, its child runs, and the grandchild is a zombie.
abbrev family : ℕ → Proc
family i =
    if i == 0
    then an_entry sleeping 2 none 0x80000
    else if i == 1
    then an_entry running 3 (some 0) 0
    else if i == 2
    then an_entry zombie 4 (some 1) 0
    else an_entry unused 0 none 0

abbrev family_kernel : Kernel ℕ
family_kernel = record { procs = family; nextpid = 4; initproc = 0; mem = λ _. 0; res = 20 }

-- Init runs, and no other entry is in use.
abbrev alone : ℕ → Proc
alone i = if i == 0 then an_entry running 2 none 0 else an_entry unused 0 none 0

abbrev start_kernel : Kernel ℕ
start_kernel = record { procs = alone; nextpid = 2; initproc = 0; mem = λ _. 0; res = 20 }

kill_run : (kill 3 9 family).0 ≡ true
unfolding kill find_first
kill_run = refl

safestrcpy_run : safestrcpy (9 ∷ 9 ∷ 9 ∷ 9 ∷ []) (5 ∷ 6 ∷ 7 ∷ 8 ∷ []) 3 ≡ 5 ∷ 6 ∷ 0 ∷ 9 ∷ []
unfolding safestrcpy
safestrcpy_run = refl

fork_run : (fork paging a_layout 1 family_kernel).0 ≡ some 5
unfolding fork allocproc alloc_at allocpid fork_copy fork_child find_first update
fork_run = refl

exit-Exited_example :
    (k' : Kernel ℕ) × (exit paging a_layout 1 family_kernel ≡ some k')
    × Exited a_layout 1 0 family k'.procs
    × (k'.nextpid ≡ 4)
    × (k'.initproc ≡ 0)
exit-Exited_example = exit-Exited paging a_layout 1 family_kernel (omega arith) (λ e. omega arith)

wait-Waited_example : Waited a_layout 1 family_kernel (wait paging a_layout 1 family_kernel)
wait-Waited_example = wait-Waited paging a_layout 1 family_kernel

Used-alone : (i : ℕ) → Used (alone i) → i ≡ 0
Used-alone i u = elim (ℕ_discrete i 0) [ yes e ↦ e | no ne ↦ absurd (u (ground arith)) ]

start-Inv : Inv start_kernel
start-Inv = record {
  unique = λ i j _ _ u v _. omega (arith, Used-alone i u, Used-alone j v);
  bound = λ i _ u. rw (Used-alone i u) (omega arith);
  parents = λ i p _ u e. absurd (ground (arith, Used-alone i u));
  init_alive = (omega arith, (λ e. cc, λ e. cc));
}

-- Init forks, and SIGKILL is sent to the child.
abbrev forked_kernel : Kernel ℕ
forked_kernel = (fork paging a_layout 0 start_kernel).1

abbrev killed_kernel : Kernel ℕ
killed_kernel = record forked_kernel { procs = (kill 3 9 forked_kernel.procs).1 }

Reach-Inv_example : Inv killed_kernel
Reach-Inv_example =
    Reach-Inv paging a_layout start_kernel killed_kernel
      (next (next here (forks 0 (omega arith, refl))) (kills 3 9)) (omega arith) start-Inv
