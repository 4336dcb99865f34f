-- ===== src/Proc.antt =====
-- `struct proc` of proc.h, and the constants of proc.h and param.h.
use osassignment.Prelude.{ℕ, ◌-◌, ◌^◌, Option, List, Bool, true, false}

-- `enum procstate`
pub data ProcState : Type 0 where
  unused embryo sleeping runnable running zombie : ProcState

abbrev pub is_sleeping : ProcState → Bool
is_sleeping sleeping = true
is_sleeping _ = false

abbrev pub is_unused : ProcState → Bool
is_unused unused = true
is_unused _ = false

abbrev pub is_zombie : ProcState → Bool
is_zombie zombie = true
is_zombie _ = false

-- Handlers are words: `SIG_DFL` is -1, as a pointer 0xffffffff.
abbrev pub sig_dfl : ℕ
sig_dfl = 2 ^ 32 - 1

abbrev pub sig_ign : ℕ
sig_ign = 1

abbrev pub sigkill : ℕ
sigkill = 9

abbrev pub sigstop : ℕ
sigstop = 17

abbrev pub sigcont : ℕ
sigcont = 19

abbrev pub nproc : ℕ
nproc = 64

-- Addresses are numbers with 0 for the null pointer. A pointer to another `struct proc`, to a
-- `struct file` or to a `struct inode` is an index into its table, or none for null.
pub record Proc : Type 0 where
  pub sz : ℕ
  pub pgdir : ℕ
  pub kstack : ℕ
  pub state : ProcState
  pub pid : ℕ
  pub parent : Option ℕ
  pub tf : ℕ
  pub context : ℕ
  pub chan : ℕ
  pub killed : ℕ
  pub ofile : List (Option ℕ)
  pub cwd : Option ℕ
  pub name : List ℕ
  pub pending : ℕ
  pub mask : ℕ
  pub mask_backup : ℕ
  pub handlers : List ℕ
  pub trap_backup : ℕ
