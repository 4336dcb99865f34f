-- ===== src/Balloc/Free.antt =====
-- The block that is given back.
use osassignment.Prelude.{
  ℕ, ◌-◌, ◌/◌, ◌%◌, ◌^◌, ◌<◌, ◌≡◌, ◌≢◌, refl, sym, ap, ◌∙◌, Bool, true, false, not, ◌&&◌, ◌==◌,
  Option, none, some, bit_and, Bool-cases, inl, inr, arith,
}
use osassignment.Prelude.Bits.{test_bit, test_bit-and, check_below, checked_below}
use osassignment.Prelude.Table.{update, update_ne}
use osassignment.Memory.{write}
use osassignment.Balloc.{bpb, Superblock, Disk, bblock, is_clear, bfree}
use osassignment.Balloc.Bitmap.{
  in_use, is_clear-not, update-write, same_place, other_place, and_true,
}

same : Bool → Bool → Bool
same true b = b
same false b = not b

-- The bits of `~m`, one by one.
others_table :
    check_below 8 (λ k. check_below 8 (λ j. same (test_bit (2 ^ 8 - 1 - 2 ^ k) j) (not (k == j))))
    ≡ true
unfolding check_below test_bit same
others_table = refl

same-eq : (a b : Bool) → same a b ≡ true → a ≡ b
unfolding same
same-eq true b h = sym h
same-eq false true h = absurd (cc)
same-eq false false h = refl

test_bit-others : (k j : ℕ) → k < 8 → j < 8 → test_bit (2 ^ 8 - 1 - 2 ^ k) j ≡ not (k == j)
test_bit-others k j hk hj = same-eq _ _ (
    checked_below 8 (λ j. same (test_bit (2 ^ 8 - 1 - 2 ^ k) j) (not (k == j))) j
      (checked_below 8
        (λ k. check_below 8 (λ j. same (test_bit (2 ^ 8 - 1 - 2 ^ k) j) (not (k == j)))) k
        others_table hk)
      hj)

and_true_right : (x : Bool) → (x && true) ≡ x
and_true_right true = refl
and_true_right false = refl

cleared : Superblock → ℕ → Disk → Disk
cleared sb b disk =
    let bits = disk (bblock sb b) in
    let bi = b % bpb in
    update disk (bblock sb b)
      (write bits (bi / 8) (bit_and (bits (bi / 8)) (2 ^ 8 - 1 - 2 ^ (bi % 8))))

cleared-in_use :
    (sb : Superblock) (b c : ℕ) (disk : Disk)
    → in_use sb (cleared sb b disk) c ≡ (in_use sb disk c && not (b == c))
unfolding cleared
cleared-in_use sb b c disk =
    let place = (bblock sb c == bblock sb b) && (c % bpb / 8 == b % bpb / 8) in
    let byte = disk (bblock sb b) (b % bpb / 8) in
    let mask = 2 ^ 8 - 1 - 2 ^ (b % bpb % 8) in
    ap (λ x. test_bit x (c % bpb % 8))
      (update-write disk (bblock sb b) (bblock sb c) (b % bpb / 8) (c % bpb / 8)
        (bit_and byte mask))
    ∙ (elim (Bool-cases place) [
      | inr off ↦ rw (off, other_place sb b c off) (sym (and_true_right (in_use sb disk c)))
      | inl on ↦
          let (p, q) = and_true (bblock sb c == bblock sb b) (c % bpb / 8 == b % bpb / 8) on in
          let same_block : bblock sb c ≡ bblock sb b = ground (arith, p) in
          let same_byte : c % bpb / 8 ≡ b % bpb / 8 = ground (arith, q) in
          rw
            (
              on,
              test_bit-and (c % bpb % 8) byte mask,
              test_bit-others (b % bpb % 8) (c % bpb % 8) (omega arith) (omega arith),
              same_place sb b c on,
              same_block,
              same_byte,
            )
            refl
    ])

-- What `bfree` does.
abbrev pub BfreeOf : Superblock → ℕ → Disk → Option Disk → Type 0
BfreeOf sb b disk none = in_use sb disk b ≡ false
BfreeOf sb b disk (some after) =
    (in_use sb disk b ≡ true)
    × ((c : ℕ) → in_use sb after c ≡ (in_use sb disk c && not (b == c)))
    × ((c : ℕ) → bblock sb b ≢ c → after c ≡ disk c)

-- `bfree` panics exactly for a block that is not in use; otherwise that block and no other is not in
-- use any more, and only the block of the map with its bit changes.
pub bfree-BfreeOf : (sb : Superblock) (b : ℕ) (disk : Disk) → BfreeOf sb b disk (bfree sb b disk)
unfolding bfree cleared
bfree-BfreeOf sb b disk = elim (Bool-cases (is_clear (disk (bblock sb b)) (b % bpb))) [
  | inl clear ↦ rw clear (ground (arith, is_clear-not (disk (bblock sb b)) (b % bpb), clear))
  | inr set ↦ rw set (
    ground (arith, is_clear-not (disk (bblock sb b)) (b % bpb), set),
    λ c. cleared-in_use sb b c disk,
    λ c ne. update_ne disk (bblock sb b) c _ ne,
  )
]
