-- ===== src/Balloc.antt =====
-- The allocator of disk blocks (`balloc`, `bfree`, `bzero` of fs.c), on the blocks as the buffer cache
-- and the transaction show them.
pub mod Bitmap
pub mod Free
pub mod Tests
use osassignment.Prelude.{
  ℕ, zero, suc, ◌+◌, ◌-◌, ◌*◌, ◌/◌, ◌%◌, ◌^◌, Bool, true, false, ltb, ◌==◌, if◌then◌else◌, Option,
  none, some, bit_and, bit_or,
}
use osassignment.Prelude.Table.{update}
use osassignment.Memory.{Mem, write, memset}

abbrev pub bsize : ℕ
bsize = 512

abbrev pub bpb : ℕ
bpb = 4096

-- The fields of `sb` that are read.
pub record Superblock : Type 0 where
  pub size : ℕ
  pub inodestart : ℕ
  pub bmapstart : ℕ

-- The bytes of each block.
abbrev pub Disk : Type 0
Disk = ℕ → Mem

abbrev pub bblock : Superblock → ℕ → ℕ
bblock sb b = b / bpb + sb.bmapstart

-- `(bp->data[bi/8] & m) == 0`
abbrev pub is_clear : Mem → ℕ → Bool
is_clear bits bi = bit_and (bits (bi / 8)) (2 ^ (bi % 8)) == 0

unfoldable pub bzero : Disk → ℕ → Disk
bzero disk b = update disk b (memset (disk b) 0 0 bsize)

-- The inner loop with `n` rounds to go: the `bi` of a free block.
unfoldable pub scan_bits : Mem → ℕ → ℕ → ℕ → ℕ → Option ℕ
scan_bits bits size b bi zero = none
scan_bits bits size b bi (suc n) =
    let rest = scan_bits bits size b (bi + 1) n in
    if ltb (b + bi) size then (if is_clear bits bi then some bi else rest) else none

-- The outer loop from `b` on: a free block, the panic, or out of fuel.
pub data Scan : Type 0 where
  free_block : ℕ → Scan
  no_block stuck : Scan

abbrev pub or_later : ℕ → Option ℕ → Scan → Scan
or_later b none later = later
or_later b (some bi) later = free_block (b + bi)

unfoldable pub scan_map : Disk → Superblock → ℕ → ℕ → Scan
scan_map disk sb b zero = stuck
scan_map disk sb b (suc n) =
    let later = scan_map disk sb (b + bpb) n in
    if ltb b sb.size
    then or_later b (scan_bits (disk (bblock sb b)) sb.size b 0 bpb) later
    else no_block

-- `bp->data[bi/8] |= m`
unfoldable pub mark : Superblock → ℕ → Disk → Disk
mark sb b disk =
    let bits = disk (bblock sb b) in
    let bi = b % bpb in
    update disk (bblock sb b) (write bits (bi / 8) (bit_or (bits (bi / 8)) (2 ^ (bi % 8))))

pub data Result : Type 0 where
  allocated : ℕ → Disk → Result
  panics out_of_fuel : Result

abbrev pub take_block : Superblock → Disk → Scan → Result
take_block sb disk (free_block b) = allocated b (bzero (mark sb b disk) b)
take_block sb disk no_block = panics
take_block sb disk stuck = out_of_fuel

unfoldable pub balloc : ℕ → Superblock → Disk → Result
balloc n sb disk = take_block sb disk (scan_map disk sb 0 n)

-- none: panic. `~m` on the bits of a byte.
unfoldable pub bfree : Superblock → ℕ → Disk → Option Disk
bfree sb b disk =
    let bits = disk (bblock sb b) in
    let bi = b % bpb in
    if is_clear bits bi
    then none
    else some (
        update disk (bblock sb b)
          (write bits (bi / 8) (bit_and (bits (bi / 8)) (2 ^ 8 - 1 - 2 ^ (bi % 8)))))
