-- ===== src/Content.antt =====
-- The content of an inode (`bmap`, `itrunc`, `readi`, `writei`, and `iupdate` and the read of `ilock`;
-- fs.c). The caller holds the lock of the inode, and the disk is the blocks as the buffer cache and the
-- transaction show them. The calls of `log_write`, in `balloc`, `bzero`, `bfree`, `bmap`, `writei` and
-- `iupdate`, keep a changed block in the cache until the commit; that they do not panic, inside a
-- transaction that has room, is a matter of Log and not part of these definitions.
pub mod Copy
pub mod Owned
pub mod Becomes
pub mod Grow
pub mod Place
pub mod Map
pub mod Block
pub mod Store
pub mod Dinode
pub mod Save
pub mod Device
pub mod Write
pub mod Read
pub mod Freed
pub mod Truncated
pub mod Trunc
pub mod Tests
use osassignment.Prelude.{
  ℕ, zero, suc, ◌+◌, ◌-◌, ◌*◌, ◌/◌, ◌%◌, ◌^◌, min, Bool, true, false, not, ◌&&◌, ◌||◌, ltb, leb,
  ◌==◌, if◌then◌else◌, Option, none, some,
}
use osassignment.Prelude.Table.{update}
use osassignment.Prelude.Run.{Run, done, panics, stuck, ◌>>=◌}
use osassignment.Memory.{Mem, write, load32, store32}
use osassignment.Balloc.{bsize, bpb, Superblock, Disk, balloc, Result, allocated, bfree}

abbrev pub ndirect : ℕ
ndirect = 12

abbrev pub nindirect : ℕ
nindirect = 128

abbrev pub maxfile : ℕ
maxfile = 140

abbrev pub ipb : ℕ
ipb = 8

abbrev pub t_dev : ℕ
t_dev = 3

abbrev pub ndev : ℕ
ndev = 10

-- The fields of `struct inode` that the disk has too, with `inum` and the disk. The shorts are their
-- 16 bits.
pub record Node : Type 0 where
  pub disk : Disk
  pub inum : ℕ
  pub kind : ℕ
  pub major : ℕ
  pub minor : ℕ
  pub nlink : ℕ
  pub size : ℕ
  pub addrs : ℕ → ℕ

-- `memmove` from one block of memory to another.
unfoldable pub copy_bytes : ℕ → Mem → ℕ → Mem → ℕ → Mem
copy_bytes zero src s dst d = dst
copy_bytes (suc n) src s dst d = copy_bytes n src (s + 1) (write dst d (src s)) (d + 1)

-- `balloc`, with rounds for all of the free map.
abbrev pub from_balloc : Result → Run (ℕ × Disk)
from_balloc (allocated b disk) = done (b, disk)
from_balloc Result.panics = panics
from_balloc Result.out_of_fuel = stuck

unfoldable pub new_block : Superblock → Disk → Run (ℕ × Disk)
new_block sb disk = from_balloc (balloc (sb.size / bpb + 2) sb disk)

-- `if((addr = ip->addrs[k]) == 0) ip->addrs[k] = addr = balloc(ip->dev);`
unfoldable pub map_addr : Superblock → ℕ → Node → Run (ℕ × Node)
map_addr sb k ip =
    if ip.addrs k == 0
    then (new_block sb ip.disk >>= λ (b, disk).
        done (b, record ip { disk = disk; addrs = update ip.addrs k b }))
    else done (ip.addrs k, ip)

-- The same for the entry `i` of the indirect block `addr`.
unfoldable pub map_entry : Superblock → ℕ → ℕ → Node → Run (ℕ × Node)
map_entry sb addr i ip =
    let b = load32 (ip.disk addr) (4 * i) in
    if b == 0
    then (new_block sb ip.disk >>= λ (b, disk).
        done (b, record ip { disk = update disk addr (store32 (disk addr) (4 * i) b) }))
    else done (b, ip)

unfoldable pub bmap : Superblock → ℕ → Node → Run (ℕ × Node)
bmap sb bn ip =
    if ltb bn ndirect
    then map_addr sb bn ip
    else if ltb (bn - ndirect) nindirect
    then (map_addr sb ndirect ip >>= λ (addr, ip'). map_entry sb addr (bn - ndirect) ip')
    else panics

-- `struct dinode` at `a`: four shorts, the size and the addresses.
unfoldable pub store16 : Mem → ℕ → ℕ → Mem
store16 m a v = write (write m a (v % 256)) (a + 1) (v / 256 % 256)

unfoldable pub load16 : Mem → ℕ → ℕ
load16 m a = m a + 256 * m (a + 1)

-- `n` words from `a` on, the first one `words k`.
unfoldable pub store_words : ℕ → ℕ → (ℕ → ℕ) → Mem → ℕ → Mem
store_words zero k words m a = m
store_words (suc n) k words m a = store_words n (k + 1) words (store32 m a (words k)) (a + 4)

unfoldable pub store_dinode : Node → Mem → ℕ → Mem
store_dinode ip m a =
    let m1 = store16 m a ip.kind in
    let m2 = store16 m1 (a + 2) ip.major in
    let m3 = store16 m2 (a + 4) ip.minor in
    let m4 = store16 m3 (a + 6) ip.nlink in
    let m5 = store32 m4 (a + 8) ip.size in store_words (ndirect + 1) 0 ip.addrs m5 (a + 12)

abbrev pub iblock : Superblock → ℕ → ℕ
iblock sb inum = inum / ipb + sb.inodestart

-- `(struct dinode*)bp->data + inum%IPB`
abbrev pub dinode_at : ℕ → ℕ
dinode_at inum = inum % ipb * 64

unfoldable pub iupdate : Superblock → Node → Node
iupdate sb ip =
    let b = iblock sb ip.inum in
    record ip { disk = update ip.disk b (store_dinode ip (ip.disk b) (dinode_at ip.inum)) }

-- What `ilock` reads of an inode that is not valid. none: panic.
unfoldable pub read_dinode : Superblock → Disk → ℕ → Option Node
read_dinode sb disk inum =
    let m = disk (iblock sb inum) in
    let a = dinode_at inum in
    if load16 m a == 0
    then none
    else some (record {
      disk = disk;
      inum = inum;
      kind = load16 m a;
      major = load16 m (a + 2);
      minor = load16 m (a + 4);
      nlink = load16 m (a + 6);
      size = load32 m (a + 8);
      addrs = λ k. load32 m (a + 12 + 4 * k);
    })

-- The returns of `readi` and `writei`: -1; what the function in `devsw[major]` returns; a number.
pub data Io (A : Type 0) : Type 0 where
  failed : Io A
  device : ℕ → Io A
  moved : ℕ → A → Io A

-- `has` says which devices have the function.
abbrev pub device_io : {A : Type 0} → (ℕ → Bool) → ℕ → Io A
device_io has major =
    if leb (2 ^ 15) major || (leb ndev major || not (has major)) then failed else device major

-- The loop of `readi`, with `left` for `n - tot`; no sum wraps, by the tests before the loop.
unfoldable pub read_loop : ℕ → Superblock → ℕ → ℕ → ℕ → Node → Mem → Run (Node × Mem)
read_loop zero sb left off dst ip mem = stuck
read_loop (suc f) sb left off dst ip mem =
    let m = min left (bsize - off % bsize) in
    let round =
      (bmap sb (off / bsize) ip >>= λ (b, ip').
      read_loop f sb (left - m) (off + m) (dst + m) ip'
        (copy_bytes m (ip'.disk b) (off % bsize) mem dst)) in
    if ltb 0 left then round else done (ip, mem)

unfoldable pub readi : Superblock → (ℕ → Bool) → ℕ → ℕ → ℕ → Node → Mem → Run (Io (Node × Mem))
readi sb has dst off n ip mem =
    let m = if ltb ip.size ((off + n) % 2 ^ 32) then ip.size - off else n in
    if ip.kind == t_dev
    then done (device_io has ip.major)
    else if ltb ip.size off || ltb ((off + n) % 2 ^ 32) off
    then done failed
    else read_loop (suc m) sb m off dst ip mem >>= λ r. done (moved m r)

-- The loop of `writei`. `log_write` puts the block into the transaction: here the disk shows it.
unfoldable pub write_loop : ℕ → Superblock → ℕ → ℕ → ℕ → Mem → Node → Run Node
write_loop zero sb left off src mem ip = stuck
write_loop (suc f) sb left off src mem ip =
    let m = min left (bsize - off % bsize) in
    let round =
      (bmap sb (off / bsize) ip >>= λ (b, ip').
      write_loop f sb (left - m) (off + m) (src + m) mem (record ip' {
        disk = update ip'.disk b (copy_bytes m mem src (ip'.disk b) (off % bsize));
      })) in
    if ltb 0 left then round else done ip

-- The size at the end of `writei`; `off` is where the loop ended.
unfoldable pub grow : Superblock → ℕ → ℕ → Node → Node
grow sb off n ip = if ltb 0 n && ltb ip.size off then iupdate sb (record ip { size = off }) else ip

unfoldable pub writei : Superblock → (ℕ → Bool) → ℕ → ℕ → ℕ → Mem → Node → Run (Io Node)
writei sb has src off n mem ip =
    if ip.kind == t_dev
    then done (device_io has ip.major)
    else if ltb ip.size off || ltb ((off + n) % 2 ^ 32) off
    then done failed
    else if ltb (maxfile * bsize) ((off + n) % 2 ^ 32)
    then done failed
    else write_loop (suc n) sb n off src mem ip >>= λ ip'. done (moved n (grow sb (off + n) n ip'))

abbrev pub from_bfree : Option Disk → Run Disk
from_bfree none = panics
from_bfree (some disk) = done disk

-- `if(ip->addrs[k]){ bfree(ip->dev, ip->addrs[k]); ip->addrs[k] = 0; }`
unfoldable pub free_addr : Superblock → ℕ → Node → Run Node
free_addr sb k ip =
    if ip.addrs k == 0
    then done ip
    else from_bfree (bfree sb (ip.addrs k) ip.disk) >>= λ disk.
        done (record ip { disk = disk; addrs = update ip.addrs k 0 })

-- `n` rounds of the loop over the direct blocks from `k` on.
unfoldable pub free_direct : ℕ → Superblock → ℕ → Node → Run Node
free_direct zero sb k ip = done ip
free_direct (suc n) sb k ip = free_addr sb k ip >>= free_direct n sb (k + 1)

-- `n` rounds of the loop over the entries `a` of the indirect block from `j` on.
unfoldable pub free_entries : ℕ → Superblock → Mem → ℕ → Disk → Run Disk
free_entries zero sb a j disk = done disk
free_entries (suc n) sb a j disk =
    let b = load32 a (4 * j) in
    (if b == 0 then done disk else from_bfree (bfree sb b disk)) >>= free_entries n sb a (j + 1)

unfoldable pub free_indirect : Superblock → Node → Run Node
free_indirect sb ip =
    if ip.addrs ndirect == 0
    then done ip
    else free_entries nindirect sb (ip.disk (ip.addrs ndirect)) 0 ip.disk >>= λ disk.
        free_addr sb ndirect (record ip { disk = disk })

unfoldable pub itrunc : Superblock → Node → Run Node
itrunc sb ip = free_direct ndirect sb 0 ip >>= free_indirect sb >>= λ ip'.
    done (iupdate sb (record ip' { size = 0 }))
