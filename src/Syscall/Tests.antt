-- ===== src/Syscall/Tests.antt =====
-- Runs of the argument routines and of the dispatch.
use osassignment.Prelude.{ℕ, ◌+◌, ◌<◌, ◌≡◌, refl, ◌==◌, if◌then◌else◌, Option, some, none, []}
use osassignment.Memory.{Mem, load32}
use osassignment.Proc.{Proc, running}
use osassignment.Signal.{World, trapframe_size, tf_eax}
use osassignment.Signal.Stack.{Apart}
use osassignment.Syscall.{
  Handler, fetchint, fetchstr, argint, argptr, argstr, find_nul, syscall, sys_sigret,
}
use osassignment.Syscall.Fetch.{Found, fetchstr-Found}
use osassignment.Syscall.Dispatch.{syscall-sigret}

abbrev caller : Proc
caller = record {
  sz = 0x4000;
  pgdir = 0x9000;
  kstack = 0xa000;
  state = running;
  pid = 3;
  parent = some 0;
  tf = 0x10000;
  context = 0xff00;
  chan = 0;
  killed = 0;
  ofile = [];
  cwd = none;
  name = [];
  pending = 0;
  mask = 0;
  mask_backup = 7;
  handlers = [];
  trap_backup = 0x30000;
}

-- `eax` is the argument, `esp` is 0x2000, the first argument 0x100, and "ab" stands at 0x100.
abbrev call_memory : ℕ → Mem
call_memory eax x =
    if x == 0x1001c
    then eax
    else if x == 0x10045
    then 0x20
    else if x == 0x2005
    then 1
    else if x == 0x100
    then 97
    else if x == 0x101
    then 98
    else 0

abbrev call_world : ℕ → World
call_world eax = record { proc = caller; mem = call_memory eax }

abbrev call_table : ℕ → Option Handler
call_table n = if n == 24 then some sys_sigret else none

fetchstr_run : fetchstr (call_world 0) 0x100 ≡ some 2
unfolding fetchstr find_nul
fetchstr_run = refl

argptr_run : argptr (call_world 0) 0 0x3f00 ≡ some 0x100
unfolding argptr argint fetchint load32
argptr_run = refl

argptr_past_run : argptr (call_world 0) 0 0x3f01 ≡ none
unfolding argptr argint fetchint load32
argptr_past_run = refl

argstr_run : argstr (call_world 0) 0 ≡ some (0x100, 2)
unfolding argstr fetchstr find_nul argint fetchint load32
argstr_run = refl

fetchstr-Found_example : Found (call_memory 0) 0x100 0 0x3f00 (fetchstr (call_world 0) 0x100)
fetchstr-Found_example = fetchstr-Found (call_world 0) 0x100

syscall-sigret_example :
    let w = syscall call_table (call_world 24) in
    (load32 w.mem (0x10000 + tf_eax) ≡ 1)
    × ((k : ℕ)
        → k < trapframe_size
        → Apart tf_eax 4 k 1
        → w.mem (0x10000 + k) ≡ call_memory 24 (0x30000 + k))
    × (w.proc.mask ≡ 7)
syscall-sigret_example = syscall-sigret call_table (call_world 24) (unfold load32 in refl) refl
