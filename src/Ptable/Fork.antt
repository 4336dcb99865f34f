-- ===== src/Ptable/Fork.antt =====
-- New processes: `allocpid`, `allocproc` and `fork` of proc.c, and `safestrcpy` of string.c.
pub mod Built
pub mod Child
use osassignment.Prelude.{
  ℕ, zero, suc, ◌+◌, ◌-◌, ◌%◌, ◌^◌, Bool, ◌==◌, if◌then◌else◌, Option, none, some, List, [], ◌∷◌,
}
use osassignment.Prelude.Table.{find_first, update}
use osassignment.Memory.{Mem, store32, memset, memmove}
use osassignment.Proc.{Proc, unused, embryo, runnable, is_unused, nproc}
use osassignment.Signal.{trapframe_size, tf_eax}
use osassignment.Ptable.{Services, Layout, Kernel}

abbrev pub kstacksize : ℕ
kstacksize = 4096

abbrev pub sizeof_context : ℕ
sizeof_context = 20

-- `*s = 0` at the first of the bytes that are left.
abbrev terminate : List ℕ → List ℕ
terminate [] = []
terminate (s ∷ ss) = 0 ∷ ss

-- `safestrcpy(s, t, n)` for `n` at least 1, by the bytes of both blocks. A source that ends without
-- a NUL byte reads as zeros.
unfoldable pub safestrcpy : List ℕ → List ℕ → ℕ → List ℕ
safestrcpy ss ts zero = ss
safestrcpy ss ts (suc zero) = terminate ss
safestrcpy [] ts (suc (suc n)) = []
safestrcpy (s ∷ ss) [] (suc (suc n)) = 0 ∷ terminate ss
safestrcpy (s ∷ ss) (t ∷ ts) (suc (suc n)) =
    let rest = safestrcpy ss ts (suc n) in t ∷ (if t == 0 then terminate ss else rest)

abbrev pub is_free : Proc → Bool
is_free p = is_unused p.state

module _ (s : Services) (l : Layout) where
  open s use {Res, kalloc, kfree, copyuvm, filedup, idup}

  -- The compare-and-swap on `nextpid` makes the read and the write one step. The sum wraps.
  unfoldable pub allocpid : Kernel Res → ℕ × Kernel Res
  allocpid k = let pid = (k.nextpid + 1) % 2 ^ 32 in (pid, record k { nextpid = pid })

  -- The stack of a new process: room for the trap frame, `trapret` as the return address, and a
  -- context that starts at `forkret`.
  unfoldable pub init_stack : ℕ → Mem → Mem
  init_stack stack m =
      let tf = stack + kstacksize - trapframe_size in
      let m' = store32 m (tf - 4) l.trapret in
      let context = tf - 4 - sizeof_context in
      store32 (memset m' context 0 sizeof_context) (context + 16) l.forkret

  -- Entry `i`, which the compare-and-swap made EMBRYO, once it is found.
  unfoldable pub alloc_at : ℕ → Kernel Res → Option ℕ × Kernel Res
  unfolding allocpid init_stack update
  alloc_at i k =
      let (pid, k') = allocpid k in
      let (stack, res) = kalloc k'.res in
      let p = record (k'.procs i) { pid = pid; kstack = stack } in
      if stack == 0
      then (none, record k' { procs = update k'.procs i (record p { state = unused }); res = res })
      else (
        some i,
        record k' {
          procs = update k'.procs i (record p {
            tf = stack + kstacksize - trapframe_size;
            context = stack + kstacksize - trapframe_size - 4 - sizeof_context;
          });
          mem = init_stack stack k'.mem;
          res = res;
        },
      )

  unfoldable pub allocproc : Kernel Res → Option ℕ × Kernel Res
  unfolding alloc_at update find_first
  allocproc k = elim (find_first is_free k.procs 0 nproc) [
    | none ↦ (none, k)
    | some i ↦
        alloc_at i (record k { procs = update k.procs i (record (k.procs i) { state = embryo }) })
  ]

  -- `if(curproc->ofile[i]) np->ofile[i] = filedup(curproc->ofile[i]);` for each descriptor.
  unfoldable pub dup_files : List (Option ℕ) → List (Option ℕ) → Res → List (Option ℕ) × Res
  dup_files [] ns r = (ns, r)
  dup_files (f ∷ fs) [] r = ([], r)
  dup_files (none ∷ fs) (n ∷ ns) r = let (ns', r') = dup_files fs ns r in (n ∷ ns', r')
  dup_files (some f ∷ fs) (n ∷ ns) r =
      let (ns', r') = dup_files fs ns (filedup f r) in (some f ∷ ns', r')

  -- The rest of `fork` once the child `n` has its page table.
  unfoldable pub fork_child : ℕ → ℕ → ℕ → Kernel Res → Option ℕ × Kernel Res
  unfolding dup_files safestrcpy update
  fork_child cur n pgdir k =
      let cp = k.procs cur in
      let np = k.procs n in
      let (files, res) = dup_files cp.ofile np.ofile k.res in
      (
        some np.pid,
        record k {
          procs = update k.procs n (record np {
            pgdir = pgdir;
            sz = cp.sz;
            parent = some cur;
            ofile = files;
            cwd = cp.cwd;
            name = safestrcpy np.name cp.name 16;
            handlers = cp.handlers;
            mask = cp.mask;
            pending = 0;
            state = runnable;
          });
          mem = store32 (memmove k.mem np.tf cp.tf trapframe_size) (np.tf + tf_eax) 0;
          res = idup cp.cwd res;
        },
      )

  -- Once the child `n` is allocated.
  unfoldable pub fork_copy : ℕ → ℕ → Kernel Res → Option ℕ × Kernel Res
  unfolding fork_child update
  fork_copy cur n k =
      let (pgdir, res) = copyuvm (k.procs cur).pgdir (k.procs cur).sz k.res in
      if pgdir == 0
      then (
        none,
        record k {
          procs = update k.procs n (record (k.procs n) { pgdir = 0; kstack = 0; state = unused });
          res = kfree (k.procs n).kstack res;
        },
      )
      else fork_child cur n pgdir (record k { res = res })

  -- none is the return of -1, otherwise the pid of the child.
  unfoldable pub fork : ℕ → Kernel Res → Option ℕ × Kernel Res
  unfolding allocproc fork_copy
  fork cur k =
      let (o, k1) = allocproc k in elim o [ none ↦ (none, k1) | some n ↦ fork_copy cur n k1 ]
