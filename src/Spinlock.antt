-- ===== src/Spinlock.antt =====
-- Spin locks (spinlock.c): `pushcli` and `popcli` on one CPU, and the steps of `acquire` and `release`
-- between which other CPUs run.
pub mod System
pub mod Lock
pub mod Cpus
pub mod Exclusion
mod Tests
use osassignment.Prelude.{
  ℕ, zero, suc, ◌+◌, ◌-◌, ◌%◌, ◌^◌, Bool, true, false, not, ◌&&◌, leb, ◌==◌, if◌then◌else◌, Option,
  none, some,
}

-- `FL_IF` of the flags register, and the fields of `struct cpu`; `ncli` is an `int` as its 32 bits.
pub record Cpu : Type 0 where
  pub interrupts : Bool
  pub ncli : ℕ
  pub intena : Bool

unfoldable pub pushcli : Cpu → Cpu
pushcli c = record {
  interrupts = false;
  ncli = (c.ncli + 1) % 2 ^ 32;
  intena = if c.ncli == 0 then c.interrupts else c.intena;
}

-- none: panic.
unfoldable pub popcli : Cpu → Option Cpu
popcli c =
    let n = (c.ncli + (2 ^ 32 - 1)) % 2 ^ 32 in
    if c.interrupts
    then none
    else if leb (2 ^ 31) n
    then none
    else some (record c { ncli = n; interrupts = (n == 0) && c.intena })

-- `locked`, and `cpu` with none for 0.
pub record Spinlock : Type 0 where
  pub locked : ℕ
  pub cpu : Option ℕ

abbrev pub is_cpu : ℕ → Option ℕ → Bool
is_cpu c none = false
is_cpu c (some d) = d == c

abbrev pub holding : ℕ → Spinlock → Bool
holding c lk = not (lk.locked == 0) && is_cpu c lk.cpu

-- `acquire` up to the loop. none: panic.
unfoldable pub start : ℕ → Spinlock → Cpu → Option Cpu
unfolding pushcli
start c lk cpu = if holding c lk then none else some (pushcli cpu)

-- `xchg(&lk->locked, 1)`: the old value, and the lock.
abbrev pub xchg : Spinlock → ℕ × Spinlock
xchg lk = (lk.locked, record lk { locked = 1 })

-- `lk->cpu = mycpu()`
abbrev pub own : ℕ → Spinlock → Spinlock
own c lk = record lk { cpu = some c }

-- `release` up to the barrier. none: panic.
unfoldable pub disown : ℕ → Spinlock → Option Spinlock
disown c lk = if holding c lk then some (record lk { cpu = none }) else none

-- The end of `release`. none: panic.
unfoldable pub unlock : Spinlock → Cpu → Option (Spinlock × Cpu)
unfolding popcli
unlock lk cpu = elim (popcli cpu) [ none ↦ none | some c ↦ some (record lk { locked = 0 }, c) ]
