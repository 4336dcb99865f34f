-- ===== src/Ptable/Exit.antt =====
-- The end of a process: `exit` and `wait` of proc.c.
pub mod Reparent
pub mod Exited
pub mod Reap
use osassignment.Prelude.{
  ℕ, zero, suc, ◌+◌, Bool, true, false, ◌&&◌, ◌||◌, ◌==◌, if◌then◌else◌, Option, none, some, List,
  [], ◌∷◌, set,
}
use osassignment.Prelude.Table.{update}
use osassignment.Proc.{Proc, unused, sleeping, zombie, is_zombie, nproc}
use osassignment.Ptable.{Services, Layout, Kernel, for_procs, proc_addr, wakeup1}

abbrev pub child_of : ℕ → Option ℕ → Bool
child_of cur none = false
child_of cur (some i) = i == cur

abbrev pub is_child : ℕ → Proc → Bool
is_child cur p = child_of cur p.parent

-- How a search for a zombie child ends: at one, or with whether there is any child.
pub data Scan : Type 0 where
  found : ℕ → Scan
  missed : (havekids : Bool) → Scan

-- `n` entries from `i` on.
unfoldable pub wait_scan : ℕ → (ℕ → Proc) → ℕ → ℕ → Bool → Scan
wait_scan cur ps i zero havekids = missed havekids
wait_scan cur ps i (suc n) havekids =
    let rest = wait_scan cur ps (i + 1) n (havekids || is_child cur (ps i)) in
    if is_child cur (ps i) && is_zombie (ps i).state then found i else rest

-- One round of the loop of `wait`.
pub data WaitResult (R : Type 0) : Type 0 where
  reaped : (pid : ℕ) → Kernel R → WaitResult R
  failed : WaitResult R
  sleeps : Kernel R → WaitResult R

-- One child is passed to init, which is woken for a zombie.
unfoldable pub reparent : Layout → ℕ → ℕ → ℕ → (ℕ → Proc) → ℕ → Proc
unfolding update wakeup1
reparent l cur init i ps =
    if is_child cur (ps i)
    then (let ps' = update ps i (record (ps i) { parent = some init }) in
        if is_zombie (ps i).state then wakeup1 (proc_addr l (some init)) ps' else ps')
    else ps

unfoldable pub reparent_all : Layout → ℕ → ℕ → (ℕ → Proc) → ℕ → Proc
unfolding reparent for_procs
reparent_all l cur init ps = for_procs (reparent l cur init) 0 nproc ps

module _ (s : Services) (l : Layout) where
  open s use {Res, kfree, freevm, fileclose, iput, begin_op, end_op}

  unfoldable pub close_files : List (Option ℕ) → Res → List (Option ℕ) × Res
  close_files [] r = ([], r)
  close_files (none ∷ fs) r = let (fs', r') = close_files fs r in (none ∷ fs', r')
  close_files (some f ∷ fs) r = let (fs', r') = close_files fs (fileclose f r) in (none ∷ fs', r')

  -- `exit` of a process other than init, up to the call of `sched`, which does not come back.
  unfoldable pub exit_body : ℕ → Kernel Res → Kernel Res
  exit_body cur k =
      let (files, res) = close_files (k.procs cur).ofile k.res in
      let ps = update k.procs cur (record (k.procs cur) { ofile = files; cwd = none }) in
      let ps' = wakeup1 (proc_addr l (ps cur).parent) ps in
      let ps'' = reparent_all l cur k.initproc ps' in
      record k {
        procs = update ps'' cur (record (ps'' cur) { state = zombie });
        res = end_op (iput (k.procs cur).cwd (begin_op res));
      }

  -- none: "init exiting".
  unfoldable pub exit : ℕ → Kernel Res → Option (Kernel Res)
  exit cur k = if cur == k.initproc then none else some (exit_body cur k)

  -- What follows the search.
  unfoldable pub wait_at : ℕ → Kernel Res → Scan → WaitResult Res
  unfolding update
  wait_at cur k (found i) =
      let p = k.procs i in
      reaped p.pid (record k {
        procs = update k.procs i (record p {
          kstack = 0;
          pid = 0;
          parent = none;
          name = set p.name 0 0;
          killed = 0;
          state = unused;
        });
        res = freevm p.pgdir (kfree p.kstack k.res);
      })
  wait_at cur k (missed havekids) =
      if havekids && ((k.procs cur).killed == 0)
      then sleeps (record k {
        procs =
            update k.procs cur
              (record (k.procs cur) { chan = proc_addr l (some cur); state = sleeping });
      })
      else failed

  unfoldable pub wait : ℕ → Kernel Res → WaitResult Res
  unfolding wait_scan wait_at
  wait cur k = wait_at cur k (wait_scan cur k.procs 0 nproc false)
