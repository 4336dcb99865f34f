-- ===== src/Icache.antt =====
-- The cache of inodes (`iget`, `idup`, `iput` of fs.c). `icache.lock` makes each of its critical sections
-- one step.
pub mod Scan
pub mod System
pub mod Unique
mod Tests
use osassignment.Prelude.{
  ℕ, zero, suc, ◌+◌, ◌-◌, ◌%◌, ◌^◌, Bool, true, false, not, ◌&&◌, below_one, ◌==◌, if◌then◌else◌,
  Option, none, some,
}
use osassignment.Prelude.Table.{update}

abbrev pub ninode : ℕ
ninode = 50

-- `ref` is an `int` as its 32 bits, `valid` a flag; `kind` is the field `type`.
pub record Inode : Type 0 where
  pub dev : ℕ
  pub inum : ℕ
  pub ref : ℕ
  pub valid : Bool
  pub kind : ℕ
  pub nlink : ℕ
  pub size : ℕ

abbrev pub is_cached : ℕ → ℕ → Inode → Bool
is_cached dev inum ip = not (below_one ip.ref) && ((ip.dev == dev) && (ip.inum == inum))

-- "Remember empty slot."
abbrev pub remember : Option ℕ → ℕ → Inode → Option ℕ
remember none i ip = if ip.ref == 0 then some i else none
remember (some e) i ip = some e

-- How the loop of `iget` ends.
pub data Slot : Type 0 where
  cached : ℕ → Slot
  recycled : ℕ → Slot
  full : Slot

abbrev pub slot_after : Option ℕ → Slot
slot_after none = full
slot_after (some e) = recycled e

-- The loop, with `n` entries from `i` on to go.
unfoldable pub scan : ℕ → ℕ → (ℕ → Inode) → ℕ → ℕ → Option ℕ → Slot
scan dev inum ic i zero empty = slot_after empty
scan dev inum ic i (suc n) empty =
    let rest = scan dev inum ic (i + 1) n (remember empty i (ic i)) in
    if is_cached dev inum (ic i) then cached i else rest

-- `ip->ref++`
abbrev pub bump : ℕ → (ℕ → Inode) → ℕ → Inode
bump i ic = update ic i (record (ic i) { ref = ((ic i).ref + 1) % 2 ^ 32 })

-- none: panic.
abbrev pub take_slot : ℕ → ℕ → (ℕ → Inode) → Slot → Option (ℕ × (ℕ → Inode))
take_slot dev inum ic (cached i) = some (i, bump i ic)
take_slot dev inum ic (recycled e) =
    some (e, update ic e (record (ic e) { dev = dev; inum = inum; ref = 1; valid = false }))
take_slot dev inum ic full = none

unfoldable pub iget : ℕ → ℕ → (ℕ → Inode) → Option (ℕ × (ℕ → Inode))
unfolding scan
iget dev inum ic = take_slot dev inum ic (scan dev inum ic 0 ninode none)

abbrev pub idup : ℕ → (ℕ → Inode) → ℕ → Inode
idup i ic = bump i ic

-- `iput` under the sleep lock, and whether it frees the inode on disk (`itrunc`, `iupdate`).
unfoldable pub iput_check : ℕ → (ℕ → Inode) → (ℕ → Inode) × Bool
iput_check i ic =
    let frees = ((ic i).valid && ((ic i).nlink == 0)) && ((ic i).ref == 1) in
    if frees
    then (update ic i (record (ic i) { kind = 0; size = 0; valid = false }), true)
    else (ic, false)

-- `ip->ref--`
unfoldable pub iput_drop : ℕ → (ℕ → Inode) → ℕ → Inode
iput_drop i ic = update ic i (record (ic i) { ref = ((ic i).ref + (2 ^ 32 - 1)) % 2 ^ 32 })
