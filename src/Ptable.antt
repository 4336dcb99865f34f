-- ===== src/Ptable.antt =====
-- The process table and the operations on it (proc.c, without the signals of the current process).
-- Each operation is one step, as where `ptable.lock` is held throughout. `fork` takes it only at
-- its end: until then its child is EMBRYO, and no other process writes that entry.
pub mod Wakeup
pub mod Fork
pub mod Exit
pub mod Kill
pub mod System
mod Tests
use osassignment.Prelude.{
  ℕ, zero, suc, ◌+◌, ◌-◌, ◌*◌, ◌%◌, ◌^◌, Bool, true, false, not, ◌&&◌, ◌||◌, ltb, leb, ◌==◌,
  if◌then◌else◌, bit_or, Option, none, some, List, [], ◌∷◌, length, get_or, set,
}
use osassignment.Prelude.Table.{find_first, update}
use osassignment.Memory.{Mem, write, store32, memset, memmove}
use osassignment.Proc.{
  Proc, ProcState, unused, embryo, sleeping, runnable, running, zombie, is_unused, is_sleeping,
  is_zombie, nproc,
}
use osassignment.Signal.{trapframe_size, tf_eax}

-- What the process table uses of the page allocator, the page tables and the file system. A page
-- or a page table that cannot be had is 0. `idup` gives back the inode that it is given.
pub record Services : Type 1 where
  pub Res : Type 0
  pub kalloc : Res → ℕ × Res
  pub kfree : ℕ → Res → Res
  pub copyuvm : ℕ → ℕ → Res → ℕ × Res
  pub freevm : ℕ → Res → Res
  pub filedup : ℕ → Res → Res
  pub fileclose : ℕ → Res → Res
  pub idup : Option ℕ → Res → Res
  pub iput : Option ℕ → Res → Res
  pub begin_op : Res → Res
  pub end_op : Res → Res

-- Where the linker places the table and the two entry points of a new process.
pub record Layout : Type 0 where
  pub ptable : ℕ
  pub forkret : ℕ
  pub trapret : ℕ

-- The entry of `ptable.proc` at each index below NPROC; no other index is used. `mem` is kernel memory.
pub record Kernel (R : Type 0) : Type 0 where
  pub procs : ℕ → Proc
  pub nextpid : ℕ
  pub initproc : ℕ
  pub mem : Mem
  pub res : R

-- `for(p = ptable.proc; p < &ptable.proc[NPROC]; p++)` with a body that may change the table.
unfoldable pub for_procs {ℓ} : {A : Type ℓ} → (ℕ → (ℕ → A) → ℕ → A) → ℕ → ℕ → (ℕ → A) → ℕ → A
for_procs body i zero ps = ps
for_procs body i (suc n) ps = for_procs body (i + 1) n (body i ps)

-- `&ptable.proc[i]` as a number, and null.
abbrev pub sizeof_proc : ℕ
sizeof_proc = 268

abbrev pub proc_addr : Layout → Option ℕ → ℕ
proc_addr l none = 0
proc_addr l (some i) = l.ptable + sizeof_proc * i

abbrev pub wakes : ℕ → Proc → Bool
wakes chan p = is_sleeping p.state && (p.chan == chan)

unfoldable pub wakeup_one : ℕ → ℕ → (ℕ → Proc) → ℕ → Proc
unfolding update
wakeup_one chan i ps =
    if wakes chan (ps i) then update ps i (record (ps i) { state = runnable }) else ps

unfoldable pub wakeup1 : ℕ → (ℕ → Proc) → ℕ → Proc
unfolding for_procs wakeup_one
wakeup1 chan ps = for_procs (wakeup_one chan) 0 nproc ps

-- `signum` is the 32-bit pattern of the `int`; true is the return of 0, false of -1.
unfoldable pub kill : ℕ → ℕ → (ℕ → Proc) → Bool × (ℕ → Proc)
unfolding find_first update
kill pid signum ps =
    if leb signum 31
    then elim (find_first (λ p. p.pid == pid) ps 0 nproc) [
      | none ↦ (false, ps)
      | some i ↦
          (true, update ps i (record (ps i) { pending = bit_or (ps i).pending (2 ^ signum) }))
    ]
    else (false, ps)
