-- ===== src/Balloc/Tests.antt =====
-- A disk of 20 blocks whose first 10 are in use; the map is block 3.
use osassignment.Prelude.{◌/◌, ◌≡◌, refl, ◌==◌, if◌then◌else◌, arith}
use osassignment.Prelude.Bits.{test_bit}
use osassignment.Balloc.{Superblock, Disk, bpb, scan_map, scan_bits, balloc, free_block}
use osassignment.Balloc.Bitmap.{MapInUse, BallocOf, balloc-BallocOf}

abbrev pub sb : Superblock
sb = record { size = 20; inodestart = 2; bmapstart = 3 }

abbrev pub disk : Disk
disk b i = if b == 3 then (if i == 0 then 0xff else if i == 1 then 0x03 else 0) else 7

disk-MapInUse : MapInUse sb disk
unfolding test_bit
disk-MapInUse b lt = let e : b / bpb ≡ 0 = omega arith in rw e (omega arith, refl)

scan_map-disk : scan_map disk sb 0 2 ≡ free_block 10
unfolding scan_map scan_bits
scan_map-disk = refl

balloc-BallocOf_example : BallocOf sb disk (balloc 2 sb disk)
balloc-BallocOf_example = balloc-BallocOf 2 sb disk disk-MapInUse (omega arith)
