-- ===== src/Syscall.antt =====
-- System calls from the kernel's side (syscall.c): arguments out of user memory, and the dispatch.
pub mod Fetch
pub mod Dispatch
mod Tests
use osassignment.Prelude.{
  ℕ, zero, suc, ◌+◌, ◌-◌, ◌*◌, ◌%◌, ◌^◌, Bool, ◌&&◌, ◌||◌, ltb, leb, ◌==◌, if◌then◌else◌, Option,
  none, some,
}
use osassignment.Memory.{Mem, load32, store32}
use osassignment.Signal.{World, sigret, tf_eax, tf_esp}

-- none is the return of -1; otherwise the value goes to `*ip`. `addr + 4` is a `uint`.
unfoldable pub fetchint : World → ℕ → Option ℕ
fetchint w addr =
    if leb w.proc.sz addr || ltb w.proc.sz ((addr + 4) % 2 ^ 32)
    then none
    else some (load32 w.mem addr)

-- `for(s = *pp; s < ep; s++) if(*s == 0) return s - *pp;`, with `n` bytes to go and `k` behind it.
unfoldable pub find_nul : Mem → ℕ → ℕ → ℕ → Option ℕ
find_nul m s k zero = none
find_nul m s k (suc n) = if m s == 0 then some k else find_nul m (s + 1) (k + 1) n

-- The pointer that goes to `*pp` is `addr`; the result is the length.
unfoldable pub fetchstr : World → ℕ → Option ℕ
unfolding find_nul
fetchstr w addr = if leb w.proc.sz addr then none else find_nul w.mem addr 0 (w.proc.sz - addr)

unfoldable pub argint : World → ℕ → Option ℕ
unfolding fetchint
argint w n = fetchint w ((load32 w.mem (w.proc.tf + tf_esp) + 4 + 4 * n) % 2 ^ 32)

-- `size` is the 32-bit pattern of the `int`; the sum is a `uint`.
unfoldable pub argptr : World → ℕ → ℕ → Option ℕ
unfolding argint
argptr w n size = elim (argint w n) [
  | none ↦ none
  | some i ↦
      if leb (2 ^ 31) size || (leb w.proc.sz i || ltb w.proc.sz ((i + size) % 2 ^ 32))
      then none
      else some i
]

-- The pointer, and the length of its string.
unfoldable pub argstr : World → ℕ → Option (ℕ × ℕ)
unfolding argint fetchstr
argstr w n = elim (argint w n) [
  | none ↦ none
  | some addr ↦ elim (fetchstr w addr) [ none ↦ none | some k ↦ some (addr, k) ]
]

-- A handler of the table gives the value for `eax` and what it leaves.
abbrev pub Handler : Type 0
Handler = World → ℕ × World

unfoldable pub sys_sigret : Handler
sys_sigret w = (1, sigret w)

abbrev pub sys_sigret_number : ℕ
sys_sigret_number = 24

-- `NELEM(syscalls)`
abbrev pub nelem_syscalls : ℕ
nelem_syscalls = 25

-- `tf` is read before the call and after it through `curproc`.
unfoldable pub return_value : ℕ → World → World
return_value v w = record w { mem = store32 w.mem (w.proc.tf + tf_eax) v }

-- `num` is an `int`: its pattern is 2 ^ 31 or more if it is negative.
unfoldable pub syscall : (ℕ → Option Handler) → World → World
unfolding return_value
syscall table w =
    let num = load32 w.mem (w.proc.tf + tf_eax) in
    if (ltb 0 num && ltb num (2 ^ 31)) && ltb num nelem_syscalls
    then elim (table num) [
      | none ↦ return_value (2 ^ 32 - 1) w
      | some f ↦ let (v, w') = f w in return_value v w'
    ]
    else return_value (2 ^ 32 - 1) w
