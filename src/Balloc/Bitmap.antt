-- ===== src/Balloc/Bitmap.antt =====
-- Which blocks are in use, before and after.
use osassignment.Prelude.{
  ℕ, zero, suc, ◌+◌, ◌-◌, ◌*◌, ◌/◌, ◌%◌, ◌^◌, ◌≤◌, ◌<◌, ◌≡◌, ◌≢◌, refl, sym, ap, ◌∙◌, subst, Bool,
  true, false, not, ◌&&◌, ◌||◌, ltb, ◌==◌, if◌then◌else◌, Option, none, some, bit_or, Bool-cases,
  inl, inr, arith, ℕ_discrete, dec_lt, ==_refl, ==_ne,
}
use osassignment.Prelude.Bits.{test_bit, bit_and-pow, test_bit-or, test_bit-pow}
use osassignment.Prelude.Table.{update, update_self, update_ne}
use osassignment.Memory.{Mem, write, memset}
use osassignment.Memory.Fill.{memset_lem}
use osassignment.Balloc.{
  bsize, bpb, Superblock, Disk, bblock, is_clear, bzero, scan_bits, Scan, free_block, no_block,
  stuck, or_later, scan_map, mark, Result, allocated, panics, out_of_fuel, take_block, balloc,
}

-- The bit of the block in the free map.
abbrev pub in_use : Superblock → Disk → ℕ → Bool
in_use sb disk b = test_bit (disk (bblock sb b) (b % bpb / 8)) (b % bpb % 8)

pub is_clear-not :
    (bits : Mem) (bi : ℕ) → is_clear bits bi ≡ not (test_bit (bits (bi / 8)) (bi % 8))
is_clear-not bits bi = ground (arith, bit_and-pow (bi % 8) (bits (bi / 8)))

-- A search of one block of the map.
abbrev BitsOf : Mem → ℕ → ℕ → ℕ → ℕ → Option ℕ → Type 0
BitsOf bits size b bi n none =
    (k : ℕ) → bi ≤ k → k < bi + n → b + k < size → is_clear bits k ≡ false
BitsOf bits size b bi n (some k) =
    (bi ≤ k) × (k < bi + n) × (b + k < size) × (is_clear bits k ≡ true)

scan_bits-BitsOf :
    (bits : Mem) (size b bi n : ℕ) → BitsOf bits size b bi n (scan_bits bits size b bi n)
unfolding scan_bits
scan_bits-BitsOf bits size b bi zero = λ k lo hi. absurd (omega arith)
scan_bits-BitsOf bits size b bi (suc n) = elim (Bool-cases (ltb (b + bi) size)) [
  | inr past ↦ rw past (λ k lo hi lt. absurd (ground (arith, past)))
  | inl within ↦ elim (Bool-cases (is_clear bits bi)) [
    | inl on ↦ rw (within, on) (omega arith, omega arith, ground (arith, within), on)
    | inr off ↦ rw (within, off) (next _ off (scan_bits-BitsOf bits size b (bi + 1) n))
  ]
]
  where
    next :
        (o : Option ℕ)
        → is_clear bits bi ≡ false
        → BitsOf bits size b (bi + 1) n o
        → BitsOf bits size b bi (suc n) o
    next (some k) off (lo, hi, lt, on) = (omega arith, omega arith, lt, on)
    next none off h = λ k lo hi lt. elim (ℕ_discrete bi k) [
      | yes e ↦ subst (λ j. is_clear bits j ≡ false) e off
      | no ne ↦ h k (omega arith) (omega arith) lt
    ]

-- A search of the map from the block `b` on, where a block of the map begins.
abbrev MapFrom : Disk → Superblock → ℕ → Scan → Type 0
MapFrom disk sb b (free_block c) = (b ≤ c) × (c < sb.size) × (in_use sb disk c ≡ false)
MapFrom disk sb b no_block = (c : ℕ) → b ≤ c → c < sb.size → in_use sb disk c ≡ true
MapFrom disk sb b stuck = ⊥

in_use-bit :
    (sb : Superblock) (disk : Disk) (b k : ℕ)
    → b % bpb ≡ 0
    → k < bpb
    → in_use sb disk (b + k) ≡ not (is_clear (disk (bblock sb b)) k)
in_use-bit sb disk b k start lt =
    let e : (b + k) / bpb ≡ b / bpb = omega arith in
    let f : (b + k) % bpb ≡ k = omega arith in
    rw (e, f) (ground (arith, is_clear-not (disk (bblock sb b)) k))

or_later-MapFrom :
    (disk : Disk) (sb : Superblock) (b : ℕ) (o : Option ℕ) (later : Scan)
    → b % bpb ≡ 0
    → BitsOf (disk (bblock sb b)) sb.size b 0 bpb o
    → (o ≡ none → MapFrom disk sb (b + bpb) later)
    → MapFrom disk sb b (or_later b o later)
or_later-MapFrom disk sb b (some k) later start (lo, hi, lt, clear) h =
    (omega arith, lt, ground (arith, in_use-bit sb disk b k start (omega arith), clear))
or_later-MapFrom disk sb b none (free_block c) start used h =
    let (lo, lt, free) = h refl in (omega arith, lt, free)
or_later-MapFrom disk sb b none stuck start used h = h refl
or_later-MapFrom disk sb b none no_block start used h = λ c lo lt. elim (dec_lt c (b + bpb)) [
  | yes here ↦ used_here c lo here lt
  | no past ↦ h refl c (omega arith) lt
]
  where
    used_here : (c : ℕ) → b ≤ c → c < b + bpb → c < sb.size → in_use sb disk c ≡ true
    used_here c lo hi lt =
        let e : b + (c - b) ≡ c = omega arith in
        let bit = in_use-bit sb disk b (c - b) start (omega arith) in
        let off = used (c - b) (omega arith) (omega arith) (omega (arith, e, lt)) in
        subst (λ j. in_use sb disk j ≡ true) e (ground (arith, bit, off))

scan_map-MapFrom :
    (disk : Disk) (sb : Superblock) (b n : ℕ)
    → b % bpb ≡ 0
    → 0 < n
    → sb.size + bpb ≤ b + n * bpb
    → MapFrom disk sb b (scan_map disk sb b n)
unfolding scan_map
scan_map-MapFrom disk sb b zero start some_fuel enough = absurd (omega arith)
scan_map-MapFrom disk sb b (suc n) start some_fuel enough = elim (Bool-cases (ltb b sb.size)) [
  | inr past ↦ rw past (λ c lo lt. absurd (ground (arith, past)))
  | inl within ↦ rw within (
      or_later-MapFrom disk sb b _ _ start (scan_bits-BitsOf (disk (bblock sb b)) sb.size b 0 bpb)
        (λ none_here.
          scan_map-MapFrom disk sb (b + bpb) n (omega arith) (ground (arith, within, enough))
            (ground (arith, within, enough))))
]

-- The blocks of the map are in use, as mkfs leaves them.
abbrev pub MapInUse : Superblock → Disk → Type 0
MapInUse sb disk =
    (b : ℕ) → b < sb.size → (bblock sb b < sb.size) × (in_use sb disk (bblock sb b) ≡ true)

pub update-write :
    (disk : Disk) (p q i j v : ℕ)
    → update disk p (write (disk p) i v) q j ≡ (if (q == p) && (j == i) then v else disk q j)
unfolding write
update-write disk p q i j v = elim (ℕ_discrete p q) [
  | yes e ↦ rw (← e, update_self disk p (write (disk p) i v), ==_refl p) refl
  | no ne ↦ rw (update_ne disk p q (write (disk p) i v) ne, ==_ne q p (λ e. ne (sym e))) refl
]

-- The byte of a block in the map, and its bit, are those of no other block.
pub same_place :
    (sb : Superblock) (b c : ℕ)
    → ((bblock sb c == bblock sb b) && (c % bpb / 8 == b % bpb / 8)) ≡ true
    → (b % bpb % 8 == c % bpb % 8) ≡ (b == c)
same_place sb b c h = ground (arith, h)

pub other_place :
    (sb : Superblock) (b c : ℕ)
    → ((bblock sb c == bblock sb b) && (c % bpb / 8 == b % bpb / 8)) ≡ false
    → (b == c) ≡ false
other_place sb b c h = elim (ℕ_discrete b c) [
  | yes e ↦ absurd (ground (arith, rw e at h))
  | no ne ↦ ==_ne b c ne
]

pub and_true : (x y : Bool) → (x && y) ≡ true → (x ≡ true) × (y ≡ true)
and_true true true h = (refl, refl)
and_true true false h = (refl, h)
and_true false y h = absurd (cc)

or_false : (x : Bool) → (x || false) ≡ x
or_false true = refl
or_false false = refl

mark-in_use :
    (sb : Superblock) (b c : ℕ) (disk : Disk)
    → in_use sb (mark sb b disk) c ≡ (in_use sb disk c || (b == c))
unfolding mark
mark-in_use sb b c disk =
    let place = (bblock sb c == bblock sb b) && (c % bpb / 8 == b % bpb / 8) in
    let byte = disk (bblock sb b) (b % bpb / 8) in
    let bit = 2 ^ (b % bpb % 8) in
    ap (λ x. test_bit x (c % bpb % 8))
      (update-write disk (bblock sb b) (bblock sb c) (b % bpb / 8) (c % bpb / 8) (bit_or byte bit))
    ∙ (elim (Bool-cases place) [
      | inr off ↦ rw (off, other_place sb b c off) (sym (or_false (in_use sb disk c)))
      | inl on ↦
          let (p, q) = and_true (bblock sb c == bblock sb b) (c % bpb / 8 == b % bpb / 8) on in
          let same_block : bblock sb c ≡ bblock sb b = ground (arith, p) in
          let same_byte : c % bpb / 8 ≡ b % bpb / 8 = ground (arith, q) in
          rw
            (
              on,
              test_bit-or (c % bpb % 8) byte bit,
              test_bit-pow (b % bpb % 8) (c % bpb % 8),
              same_place sb b c on,
              same_block,
              same_byte,
            )
            refl
    ])

-- What `balloc` does.
abbrev pub BallocOf : Superblock → Disk → Result → Type 0
BallocOf sb disk panics = (b : ℕ) → b < sb.size → in_use sb disk b ≡ true
BallocOf sb disk out_of_fuel = ⊥
BallocOf sb disk (allocated c after) =
    (c < sb.size)
    × (in_use sb disk c ≡ false)
    × ((b : ℕ) → b < sb.size → in_use sb after b ≡ (in_use sb disk b || (c == b)))
    × ((i : ℕ) → i < bsize → after c i ≡ 0)
    × ((b : ℕ) → c ≢ b → bblock sb c ≢ b → after b ≡ disk b)

take_block-BallocOf :
    (sb : Superblock) (disk : Disk) (found : Scan)
    → MapInUse sb disk
    → MapFrom disk sb 0 found
    → BallocOf sb disk (take_block sb disk found)
unfolding bzero mark
take_block-BallocOf sb disk no_block meta h = λ b lt. h b (omega arith) lt
take_block-BallocOf sb disk stuck meta h = h
take_block-BallocOf sb disk (free_block c) meta (lo, lt, free) = (
  lt,
  free,
  λ b hb.
      let ne : c ≢ bblock sb b =
        λ e. ground (arith, (meta b hb).1, subst (λ k. in_use sb disk k ≡ false) e free) in
      ap (λ m. test_bit (m (b % bpb / 8)) (b % bpb % 8))
        (update_ne (mark sb c disk) c (bblock sb b) _ ne)
      ∙ mark-in_use sb c b disk,
  λ i hi.
      ap (λ m. m i) (update_self (mark sb c disk) c (memset (mark sb c disk c) 0 0 bsize))
      ∙ ground (arith, memset_lem (mark sb c disk c) 0 0 bsize i, hi),
  λ b ne other. update_ne (mark sb c disk) c b _ ne ∙ update_ne disk (bblock sb c) b _ other,
)

-- With the blocks of the free map in use, and fuel for one round more than the map has blocks:
-- `balloc` panics only if every block is in use; otherwise it returns a block of the disk that was
-- not in use, which is the only one whose bit changes, filled with zeros, and it changes no block
-- but this one and its part of the map.
pub balloc-BallocOf :
    (n : ℕ) (sb : Superblock) (disk : Disk)
    → MapInUse sb disk
    → sb.size + bpb ≤ n * bpb
    → BallocOf sb disk (balloc n sb disk)
unfolding balloc
balloc-BallocOf n sb disk meta enough =
    take_block-BallocOf sb disk _ meta
      (scan_map-MapFrom disk sb 0 n refl (omega (arith, enough)) (omega (arith, enough)))
