-- ===== src/Kalloc.antt =====
-- The page allocator (kalloc.c). The lock makes each operation one step.
-- The start-up code has no lock, and no other CPU runs then.
pub mod Freelist
pub mod Owners
mod Tests
use osassignment.Prelude.{
  ℕ, zero, suc, ◌+◌, ◌-◌, ◌%◌, ◌^◌, ◌≤◌, ◌<◌, Bool, ◌||◌, not, ltb, leb, ◌==◌, if◌then◌else◌,
  Option, none, some,
}
use osassignment.Memory.{Mem, load32, store32, memset}

abbrev pub pgsize : ℕ
pgsize = 4096

abbrev pub kernbase : ℕ
kernbase = 0x80000000

abbrev pub phystop : ℕ
phystop = 0xe000000

-- `V2P`, of a `uint`.
abbrev pub v2p : ℕ → ℕ
v2p v = (v + 2 ^ 32 - kernbase) % 2 ^ 32

-- Memory, and the head of the free list. The first word of a free page is its `next`.
pub record Kmem : Type 0 where
  pub mem : Mem
  pub freelist : ℕ

-- The test of `kfree`; `end` is where the linker ends the kernel.
abbrev pub bad_page : ℕ → ℕ → Bool
bad_page end v = not ((v % pgsize) == 0) || (ltb v end || leb phystop (v2p v))

-- none: panic.
unfoldable pub kfree : ℕ → ℕ → Kmem → Option Kmem
kfree end v k =
    if bad_page end v
    then none
    else some (record { mem = store32 (memset k.mem v 1 pgsize) v k.freelist; freelist = v })

unfoldable pub kalloc : Kmem → ℕ × Kmem
kalloc k =
    if k.freelist == 0
    then (0, k)
    else (k.freelist, record k { freelist = load32 k.mem k.freelist })
