-- ===== src/Content/Owned.antt =====
-- The blocks that belong to an inode.
use osassignment.Prelude.{
  ℕ, ◌+◌, ◌-◌, ◌*◌, ◌/◌, ◌%◌, ◌^◌, ◌≤◌, ◌<◌, ◌≡◌, ◌≢◌, refl, sym, ◌∙◌, ℕ_discrete, true, ltb, ◌==◌,
  if◌then◌else◌, arith,
}
use osassignment.Memory.{load32}
use osassignment.Balloc.{bsize, bpb, Superblock, Disk, bblock}
use osassignment.Balloc.Bitmap.{in_use, MapInUse}
use osassignment.Content.{ndirect, maxfile, Node}

-- The blocks before the first data block: those up to the end of the free map.
abbrev pub data_start : Superblock → ℕ
data_start sb = sb.bmapstart + sb.size / bpb + 1

-- The layout of a disk, as mkfs makes it.
pub record Layout (sb : Superblock) : Type 0 where
  pub starts : 0 < sb.bmapstart
  pub room : data_start sb ≤ sb.size
  pub words : sb.size ≤ 2 ^ 32

-- The number of the block with the content from `512 * k` on, or 0; at `maxfile`, the indirect block.
unfoldable pub own : Node → ℕ → ℕ
own ip k =
    if ltb k ndirect
    then ip.addrs k
    else if k == maxfile
    then ip.addrs ndirect
    else if ip.addrs ndirect == 0
    then 0
    else load32 (ip.disk (ip.addrs ndirect)) (4 * (k - ndirect))

abbrev pub IsData : Superblock → Disk → ℕ → Type 0
IsData sb disk b = (data_start sb ≤ b) × (b < sb.size) × (in_use sb disk b ≡ true)

-- The blocks before the data are in use; those of the inode are data blocks in use, and different.
pub record IsNode (sb : Superblock) (ip : Node) : Type 0 where
  pub meta : (b : ℕ) → b < data_start sb → in_use sb ip.disk b ≡ true
  pub owned : (k : ℕ) → k ≤ maxfile → own ip k ≢ 0 → IsData sb ip.disk (own ip k)
  pub apart : (j k : ℕ) → j ≤ maxfile → k ≤ maxfile → own ip j ≢ 0 → own ip j ≡ own ip k → j ≡ k

-- The byte at `off` of the content.
unfoldable pub byte : Node → ℕ → ℕ
byte ip off = if own ip (off / bsize) == 0 then 0 else ip.disk (own ip (off / bsize)) (off % bsize)

-- A data block of something else.
abbrev pub IsForeign : Superblock → Node → ℕ → Type 0
IsForeign sb ip b = IsData sb ip.disk b × ((k : ℕ) → k ≤ maxfile → own ip k ≢ b)

pub bblock-lt : (sb : Superblock) (b : ℕ) → b < sb.size → bblock sb b < data_start sb
bblock-lt sb b lt = omega arith

pub IsNode-MapInUse : (sb : Superblock) (ip : Node) → Layout sb → IsNode sb ip → MapInUse sb ip.disk
IsNode-MapInUse sb ip l w b lt =
    let h = bblock-lt sb b lt in (omega (arith, h, l.room), w.meta (bblock sb b) h)

-- The blocks of an inode whose indirect block is as it was.
pub own-kept :
    (ip : Node) (d : Disk) (s k : ℕ)
    → (own ip maxfile ≢ 0 → d (own ip maxfile) ≡ ip.disk (own ip maxfile))
    → own (record ip { disk = d; size = s }) k ≡ own ip k
unfolding own
own-kept ip d s k kept = elim (ℕ_discrete (ip.addrs ndirect) 0) [
  | yes z ↦ rw z refl
  | no there ↦ rw (kept there) refl
]

-- The same blocks, with the same bits in the free map.
pub IsNode-same :
    (sb : Superblock) (ip ip' : Node)
    → Layout sb
    → IsNode sb ip
    → ((k : ℕ) → k ≤ maxfile → own ip' k ≡ own ip k)
    → ((b : ℕ) → b < sb.size → in_use sb ip'.disk b ≡ in_use sb ip.disk b)
    → IsNode sb ip'
IsNode-same sb ip ip' l w blocks bits = record {
  meta = λ b lt. bits b (omega (arith, lt, l.room)) ∙ w.meta b lt;
  owned = λ k le ne.
      let at = blocks k le in
      let (hi, lt, used) = w.owned k le (λ z. ne (at ∙ z)) in
      rw at (hi, lt, bits (own ip k) lt ∙ used);
  apart = λ j k hj hk ne e.
      w.apart j k hj hk (λ z. ne (blocks j hj ∙ z)) (sym (blocks j hj) ∙ e ∙ blocks k hk);
}

pub IsForeign-same :
    (sb : Superblock) (ip ip' : Node) (b : ℕ)
    → ((k : ℕ) → k ≤ maxfile → own ip' k ≡ own ip k)
    → ((b : ℕ) → b < sb.size → in_use sb ip'.disk b ≡ in_use sb ip.disk b)
    → IsForeign sb ip b
    → IsForeign sb ip' b
IsForeign-same sb ip ip' b blocks bits ((hi, lt, used), away) =
    ((hi, lt, bits b lt ∙ used), λ k le e. away k le (sym (blocks k le) ∙ e))
