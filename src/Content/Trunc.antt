-- ===== src/Content/Trunc.antt =====
-- `itrunc`.
use osassignment.Prelude.{ℕ, ◌+◌, ◌≤◌, ◌<◌, ◌≡◌, ◌≢◌, false}
use osassignment.Balloc.{Superblock}
use osassignment.Balloc.Bitmap.{in_use}
use osassignment.Content.{maxfile, Node, iblock, dinode_at, read_dinode}
use osassignment.Content.Dinode.{FoundAs}
use osassignment.Content.Owned.{data_start, own}
use osassignment.Content.Becomes.{SameFields}
use osassignment.Content.Truncated.{Truncated}

-- `ip'` is `ip` with no block and the size 0, on the disk too. Its blocks are free, and nothing else
-- has changed.
pub record Emptied (sb : Superblock) (ip ip' : Node) : Type 0 where
  pub fields : SameFields ip' (record ip { size = 0 })
  pub none_left : (k : ℕ) → k ≤ maxfile → own ip' k ≡ 0
  pub gone : (k : ℕ) → k ≤ maxfile → own ip k ≢ 0 → in_use sb ip'.disk (own ip k) ≡ false
  pub stays :
      (b : ℕ)
      → b < sb.size
      → ((k : ℕ) → k ≤ maxfile → own ip k ≡ b → b ≡ 0)
      → in_use sb ip'.disk b ≡ in_use sb ip.disk b
  pub data_same : (b : ℕ) → data_start sb ≤ b → ip'.disk b ≡ ip.disk b
  pub others : (b : ℕ) → b < sb.bmapstart → iblock sb ip.inum ≢ b → ip'.disk b ≡ ip.disk b
  pub other_inode :
      (i x : ℕ)
      → iblock sb i < sb.bmapstart
      → ip.inum ≢ i
      → x < 64
      → ip'.disk (iblock sb i) (dinode_at i + x) ≡ ip.disk (iblock sb i) (dinode_at i + x)
  pub on_disk : FoundAs ip' (read_dinode sb ip'.disk ip.inum)
