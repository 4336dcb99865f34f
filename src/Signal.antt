-- ===== src/Signal.antt =====
-- Signals of the current process: trap.c from `hasSignal` to `check_kernel_sigs`, and
-- `sigprocmask`, `signal` and `sigret` of proc.c.
pub mod Pending
pub mod Stack
pub mod Check
pub mod Deliver
pub mod Return
pub mod Default
pub mod Stop
pub mod Kill
pub mod Handlers
mod Tests
use osassignment.Prelude.{
  ℕ, zero, suc, ◌+◌, ◌-◌, ◌%◌, ◌^◌, Bool, true, false, not, ◌&&◌, ◌||◌, ltb, leb, ◌==◌,
  if◌then◌else◌, bit_and, bit_or, bit_xor, Option, none, some, List, [], ◌∷◌, length, get_or, set,
}
use osassignment.Memory.{Mem, load32, store32, memmove}
use osassignment.Proc.{
  Proc, sleeping, runnable, is_sleeping, sig_dfl, sig_ign, sigkill, sigstop, sigcont,
}

-- The current process, and the memory that its page table maps.
pub record World : Type 0 where
  pub proc : Proc
  pub mem : Mem

-- Signal numbers are 0 to 31 wherever these are called, so `1 << signum` is `2 ^ signum`.
unfoldable pub has_signal : Proc → ℕ → Bool
has_signal p signum = ltb 0 (bit_and p.pending (2 ^ signum))

unfoldable pub is_blocked : Option Proc → ℕ → Bool
is_blocked none signum = true
is_blocked (some p) signum = if ltb 0 (bit_and p.mask (2 ^ signum)) then false else true

unfoldable pub cancel_signal : Proc → ℕ → Proc
cancel_signal p signum =
    if leb signum 31 then record p { pending = bit_xor p.pending (2 ^ signum) } else p

unfoldable pub handle_sigkill : Proc → Proc
handle_sigkill p =
    if is_sleeping p.state
    then record p { killed = 1; state = runnable }
    else record p { killed = 1 }

unfoldable pub handle_sigcont : Proc → Proc
handle_sigcont p =
    cancel_signal (if has_signal p sigstop then cancel_signal p sigstop else p) sigcont

-- The `while` of `handle_SIGSTOP`. Entry k of the list is the set of bits that other processes'
-- `kill` turned on during the k-th `yield`. `none`: the process is still stopped when the list ends.
unfoldable pub handle_sigstop : List ℕ → Proc → Option (Proc × List ℕ)
handle_sigstop [] p =
    if not (has_signal p sigcont) && not (has_signal p sigkill) then none else some (p, [])
handle_sigstop (bits ∷ ys) p =
    if not (has_signal p sigcont) && not (has_signal p sigkill)
    then handle_sigstop ys (record p { pending = bit_or p.pending bits })
    else some (p, bits ∷ ys)

-- `handlers[i]`, at the indices below 32 that the code uses.
abbrev pub handler : Proc → ℕ → ℕ
handler p i = get_or p.handlers i 0

-- The first `switch`: default handling.
unfoldable pub default_action : ℕ → List ℕ → Proc → Option (Proc × List ℕ)
unfolding handle_sigkill handle_sigcont
default_action i ys p =
    if i == sigkill
    then some
        ((if handler p i == sig_dfl || handler p i == sigkill then handle_sigkill p else p), ys)
    else if i == sigcont
    then some
        ((if handler p i == sig_dfl || handler p i == sigcont then handle_sigcont p else p), ys)
    else if i == sigstop
    then (if handler p i == sig_dfl || handler p i == sigstop
        then handle_sigstop ys p
        else some (p, ys))
    else some ((if handler p i == sig_dfl then handle_sigkill p else p), ys)

-- `sizeof(struct trapframe)`, and the offsets of its fields that the code writes.
abbrev pub trapframe_size : ℕ
trapframe_size = 76

abbrev pub tf_eax : ℕ
tf_eax = 28

abbrev pub tf_eip : ℕ
tf_eip = 56

abbrev pub tf_esp : ℕ
tf_esp = 68

-- `uint` subtraction wraps.
abbrev pub sub32 : ℕ → ℕ → ℕ
sub32 a b = (a + 2 ^ 32 - b) % 2 ^ 32

-- The two exits of the loop body, or a process that is still stopped when the yields run out.
pub data Outcome : Type 0 where
  done : World → List ℕ → Outcome
  delivered : World → List ℕ → Outcome
  stopped : Outcome

abbrev pub and_then : Outcome → (World → List ℕ → Outcome) → Outcome
and_then (done w ys) k = k w ys
and_then (delivered w ys) k = delivered w ys
and_then stopped k = stopped

-- `tf->esp -= 4; *(int *)tf->esp = v`
unfoldable pub push32 : ℕ → ℕ → Mem → Mem
push32 tf v m =
    let m' = store32 m (tf + tf_esp) (sub32 (load32 m (tf + tf_esp)) 4) in
    store32 m' (load32 m' (tf + tf_esp)) v

-- The linker places the code between `call_sigret_syscall` and `end_sigret_syscall`.
pub record Image : Type 0 where
  pub code : ℕ
  pub size : ℕ

unfoldable pub custom_stop : List ℕ → World → Outcome
custom_stop ys w = elim (handle_sigstop ys w.proc) [
  | none ↦ stopped
  | some (p, ys') ↦ done (record w { proc = p }) ys'
]

-- `curproc->mask = curproc->mask_backup`
abbrev pub restore_mask : World → World
restore_mask w = record w { proc = record w.proc { mask = w.proc.mask_backup } }

module _ (image : Image) where
  -- A user handler is to run: save the trap frame and build the handler's stack.
  unfoldable pub deliver_frame : ℕ → Proc → Mem → Mem
  unfolding push32
  deliver_frame i p m =
      let m0 = memmove m p.trap_backup p.tf trapframe_size in
      let m1 = store32 m0 (p.tf + tf_esp) (sub32 (load32 m0 (p.tf + tf_esp)) image.size) in
      let injected = load32 m1 (p.tf + tf_esp) in
      let m2 = memmove m1 injected image.code image.size in
      let m3 = push32 p.tf i m2 in
      let m4 = store32 m3 (p.tf + tf_eip) (handler p i) in push32 p.tf injected m4

  unfoldable pub deliver : ℕ → World → World
  unfolding deliver_frame
  deliver i w = record { proc = cancel_signal w.proc i; mem = deliver_frame i w.proc w.mem }

  -- After the first `switch`: an ignored signal, or a handler that is not the default.
  unfoldable pub custom_action : ℕ → List ℕ → World → Outcome
  unfolding handle_sigkill handle_sigcont deliver
  custom_action i ys w =
      let h = handler w.proc i in
      if h == sig_ign
      then done (record w { proc = cancel_signal w.proc i }) ys
      else if h == sig_dfl
      then done w ys
      else if h == sigkill
      then done (record w { proc = handle_sigkill w.proc }) ys
      else if h == sigcont
      then done (record w { proc = handle_sigcont w.proc }) ys
      else if h == sigstop
      then custom_stop ys w
      else delivered (deliver i w) ys

  -- The body of the `for`, for signal `i`.
  unfoldable pub check_one : ℕ → List ℕ → World → Outcome
  unfolding default_action custom_action
  check_one i ys w =
      if not (has_signal w.proc i && not (is_blocked (some w.proc) i))
      then done w ys
      else elim (default_action i ys (record w.proc { mask_backup = w.proc.mask; mask = 0 })) [
        | none ↦ stopped
        | some (p, ys') ↦
            and_then (custom_action i ys' (record w { proc = p }))
              (λ w' ys''. done (restore_mask w') ys'')
      ]

  -- `n` rounds of the `for`, from signal `i`.
  unfoldable pub check_loop : ℕ → ℕ → List ℕ → World → Outcome
  check_loop zero i ys w = done w ys
  check_loop (suc n) i ys w = and_then (check_one i ys w) (λ w' ys'. check_loop n (i + 1) ys' w')

  -- none: a CPU with no process.
  unfoldable pub check_kernel_sigs : List ℕ → Option World → Option Outcome
  check_kernel_sigs ys none = none
  check_kernel_sigs ys (some w) =
      some (if w.proc.mask == 0 || w.proc.pending == 0 then done w ys else check_loop 32 0 ys w)

-- The result of `sigprocmask` and `signal`, and the process after it.
unfoldable pub sigprocmask : ℕ → Option Proc → ℕ × Option Proc
sigprocmask sigmask none = (0, none)
sigprocmask sigmask (some p) = (p.mask, some (record p { mask = sigmask }))

-- `signum` is the 32-bit pattern of the `int`: a negative one is above 31.
unfoldable pub signal : ℕ → ℕ → Option Proc → ℕ × Option Proc
signal signum h none = (2 ^ 32 - 2, none)
signal signum h (some p) =
    if leb signum 31
    then (handler p signum, some (record p { handlers = set p.handlers signum h }))
    else (2 ^ 32 - 2, some p)

unfoldable pub sigret : World → World
sigret w = record {
  proc = record w.proc { mask = w.proc.mask_backup };
  mem = memmove w.mem w.proc.tf w.proc.trap_backup trapframe_size;
}
