-- ===== src/Syscall/Dispatch.antt =====
-- The dispatch on `eax`, and what it does to a return from a signal handler.
use osassignment.Prelude.{ℕ, ◌+◌, ◌-◌, ◌^◌, ◌≤◌, ◌<◌, ◌≡◌, ◌⊎◌, refl, Option, none, some, arith}
use osassignment.Memory.{load32, store32}
use osassignment.Memory.Words.{load32-store32_self, store32_outside}
use osassignment.Signal.{World, sigret, tf_eax, trapframe_size}
use osassignment.Signal.Stack.{Apart}
use osassignment.Signal.Return.{sigret-frame}
use osassignment.Syscall.{Handler, syscall, sys_sigret, sys_sigret_number, nelem_syscalls}

abbrev eax_of : World → ℕ
eax_of w = load32 w.mem (w.proc.tf + tf_eax)

-- A number that is out of range or has no entry in the table sets `eax` to -1 and leaves the
-- process and every other byte as they were.
pub syscall_unknown :
    (table : ℕ → Option Handler) (w : World)
    → ((eax_of w ≡ 0) ⊎ (nelem_syscalls ≤ eax_of w)) ⊎ (table (eax_of w) ≡ none)
    → let w' = syscall table w in
      (w'.proc ≡ w.proc)
      × (load32 w'.mem (w.proc.tf + tf_eax) ≡ 2 ^ 32 - 1)
      × ((x : ℕ) → Apart (w.proc.tf + tf_eax) 4 x 1 → w'.mem x ≡ w.mem x)
unfolding syscall
syscall_unknown table w h =
    let self = load32-store32_self w.mem (w.proc.tf + tf_eax) (2 ^ 32 - 1) (omega arith) in
    let outside = store32_outside w.mem (w.proc.tf + tf_eax) (2 ^ 32 - 1) in
    (ground arith, ground (arith, self), λ x a. ground (arith, outside x))

-- With the number of `sigret` in `eax` and `sys_sigret` at its place in the table, the mask is the
-- saved one after the dispatch, and the frame is the saved one but for `eax`, which the dispatch
-- sets to 1, the return value of `sys_sigret`, after the frame has been restored.
pub syscall-sigret :
    (table : ℕ → Option Handler) (u : World)
    → eax_of u ≡ sys_sigret_number
    → table sys_sigret_number ≡ some sys_sigret
    → let w = syscall table u in
      (load32 w.mem (u.proc.tf + tf_eax) ≡ 1)
      × ((k : ℕ)
          → k < trapframe_size
          → Apart tf_eax 4 k 1
          → w.mem (u.proc.tf + k) ≡ u.mem (u.proc.trap_backup + k))
      × (w.proc.mask ≡ u.proc.mask_backup)
syscall-sigret table u e t = (
  rw restored (load32-store32_self (sigret u).mem (u.proc.tf + tf_eax) 1 (omega arith)),
  λ k h a. rw restored (
      ground (
        arith,
        sigret-frame u k h,
        store32_outside (sigret u).mem (u.proc.tf + tf_eax) 1 (u.proc.tf + k) (omega arith),
      )),
  rw restored (unfold sigret in refl),
)
  where
    restored :
        syscall table u ≡ record (sigret u) { mem = store32 (sigret u).mem (u.proc.tf + tf_eax) 1 }
    restored = unfold syscall sys_sigret sigret in ground (arith, t)
