-- ===== src/Ptable/System.antt =====
-- The table under any sequence of operations, by any processes in any order.
pub mod Inv
pub mod Lives
pub mod Deaths
pub mod Steps
use osassignment.Prelude.{ℕ, ◌+◌, ◌<◌, ◌≡◌, ◌≢◌, Bool, true, false, some, none}
use osassignment.Prelude.Table.{update}
use osassignment.Proc.{Proc, unused, sleeping, runnable, running, nproc}
use osassignment.Ptable.{Services, Layout, Kernel, wakeup1, kill}
use osassignment.Ptable.Fork.{fork}
use osassignment.Ptable.Exit.{exit, wait, reaped, sleeps}

-- `p->chan = chan; p->state = SLEEPING;` of `sleep`.
unfoldable pub sleep_on : ℕ → ℕ → (ℕ → Proc) → ℕ → Proc
unfolding update
sleep_on cur chan ps = update ps cur (record (ps cur) { chan = chan; state = sleeping })

-- `p->chan = 0` of `sleep`, when the process runs again.
unfoldable pub tidy_up : ℕ → (ℕ → Proc) → ℕ → Proc
unfolding update
tidy_up cur ps = update ps cur (record (ps cur) { chan = 0 })

-- `myproc()->state = RUNNABLE` of `yield`.
unfoldable pub give_up : ℕ → (ℕ → Proc) → ℕ → Proc
unfolding update
give_up cur ps = update ps cur (record (ps cur) { state = runnable })

-- `p->state = RUNNING` of `scheduler`.
unfoldable pub dispatch : ℕ → (ℕ → Proc) → ℕ → Proc
unfolding update
dispatch i ps = update ps i (record (ps i) { state = running })

module _ (s : Services) (l : Layout) where
  open s use {Res}

  abbrev pub Runs : Kernel Res → ℕ → Type 0
  Runs k cur = (cur < nproc) × ((k.procs cur).state ≡ running)

  pub data Step (k : Kernel Res) : Kernel Res → Type 0 where
    forks : (cur : ℕ) → Runs k cur → Step k (fork s l cur k).1
    exits : {k' : Kernel Res} (cur : ℕ) → Runs k cur → exit s l cur k ≡ some k' → Step k k'
    reaps :
        {k' : Kernel Res} (cur pid : ℕ) → Runs k cur → wait s l cur k ≡ reaped pid k' → Step k k'
    waits : {k' : Kernel Res} (cur : ℕ) → Runs k cur → wait s l cur k ≡ sleeps k' → Step k k'
    sleeps_on :
        (cur chan : ℕ) → Runs k cur → Step k (record k { procs = sleep_on cur chan k.procs })
    wakes_up : (chan : ℕ) → Step k (record k { procs = wakeup1 chan k.procs })
    kills : (pid signum : ℕ) → Step k (record k { procs = (kill pid signum k.procs).1 })
    yields : (cur : ℕ) → Runs k cur → Step k (record k { procs = give_up cur k.procs })
    schedules :
        (i : ℕ)
        → i < nproc
        → (k.procs i).state ≡ runnable
        → Step k (record k { procs = dispatch i k.procs })
    resumes : (cur : ℕ) → Runs k cur → Step k (record k { procs = tidy_up cur k.procs })

  pub data Reach (k : Kernel Res) : Kernel Res → Type 0 where
    here : Reach k k
    next : {u v : Kernel Res} → Reach k u → Step u v → Reach k v

  -- The number of calls of `fork`.
  abbrev pub forks_in : {k k' : Kernel Res} → Step k k' → ℕ
  forks_in (forks cur r) = 1
  forks_in (exits cur r e) = 0
  forks_in (reaps cur pid r e) = 0
  forks_in (waits cur r e) = 0
  forks_in (sleeps_on cur chan r) = 0
  forks_in (wakes_up chan) = 0
  forks_in (kills pid signum) = 0
  forks_in (yields cur r) = 0
  forks_in (schedules i h e) = 0
  forks_in (resumes cur r) = 0

  abbrev pub fork_count : {k k' : Kernel Res} → Reach k k' → ℕ
  fork_count here = 0
  fork_count (next r st) = fork_count r + forks_in st
