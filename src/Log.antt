-- ===== src/Log.antt =====
-- The log (log.c): transactions on the disk that survive a power failure at any write.
pub mod Header
pub mod Commit
pub mod Recover
pub mod Crash
pub mod Space
pub mod Ops
mod Tests
use osassignment.Prelude.{
  ℕ, zero, suc, ◌+◌, ◌-◌, ◌*◌, ◌%◌, ◌^◌, ◌≤◌, ◌<◌, Bool, true, false, ◌||◌, below_one, ltb, leb,
  ◌==◌, if◌then◌else◌, Option, none, some,
}
use osassignment.Prelude.Table.{update}
use osassignment.Memory.{Mem, load32, store32}

abbrev pub maxopblocks : ℕ
maxopblocks = 10

abbrev pub logsize : ℕ
logsize = 30

-- The device, block by block. `cache` is what `bread` gives: the data of the buffer of a block, or what
-- the disk has if it has no buffer (`bget` recycles no buffer that is dirty). The power fails after
-- `power` more writes; from then on the disk stays as it is.
pub record Device : Type 0 where
  pub disk : ℕ → Mem
  pub cache : ℕ → Mem
  pub power : ℕ

-- `bwrite` of the buffer of block `i` with the data `b`.
unfoldable pub bwrite : ℕ → Mem → Device → Device
unfolding update
bwrite i b d = record {
  disk = if d.power == 0 then d.disk else update d.disk i b;
  cache = update d.cache i b;
  power = d.power - 1;
}

-- The power comes back: nothing is in memory.
unfoldable pub boot : ℕ → Device → Device
boot power d = record { disk = d.disk; cache = d.disk; power = power }

-- `struct log`, with `lh` as the two fields `n` and `block`.
pub record Log : Type 0 where
  pub start : ℕ
  pub size : ℕ
  pub outstanding : ℕ
  pub committing : Bool
  pub n : ℕ
  pub block : ℕ → ℕ

-- The loop of `install_trans` from `tail` on, with `k` rounds to go.
unfoldable pub install_trans : Log → ℕ → ℕ → Device → Device
unfolding bwrite
install_trans log tail zero d = d
install_trans log tail (suc k) d =
    install_trans log (tail + 1) k (bwrite (log.block tail) (d.cache (log.start + tail + 1)) d)

-- The loop of `write_log`.
unfoldable pub write_log : Log → ℕ → ℕ → Device → Device
unfolding bwrite
write_log log tail zero d = d
write_log log tail (suc k) d =
    write_log log (tail + 1) k (bwrite (log.start + tail + 1) (d.cache (log.block tail)) d)

-- `lh->block[i]` for `k` entries from `i` on.
unfoldable pub load_blocks : Mem → ℕ → ℕ → (ℕ → ℕ) → ℕ → ℕ
unfolding update
load_blocks b i zero block = block
load_blocks b i (suc k) block = load_blocks b (i + 1) k (update block i (load32 b (4 + 4 * i)))

unfoldable pub read_head : Device → Log → Log
unfolding load_blocks
read_head d log =
    let n = load32 (d.cache log.start) 0 in
    record log { n = n; block = load_blocks (d.cache log.start) 0 n log.block }

unfoldable pub store_blocks : (ℕ → ℕ) → ℕ → ℕ → Mem → Mem
store_blocks block i zero b = b
store_blocks block i (suc k) b = store_blocks block (i + 1) k (store32 b (4 + 4 * i) (block i))

unfoldable pub write_head : Log → Device → Device
unfolding store_blocks bwrite
write_head log d =
    bwrite log.start (store_blocks log.block 0 log.n (store32 (d.cache log.start) 0 log.n)) d

unfoldable pub recover_from_log : Log → Device → Log × Device
unfolding read_head install_trans write_head
recover_from_log log d =
    let log' = read_head d log in
    let d' = install_trans log' 0 log'.n d in
    let cleared = record log' { n = 0 } in (cleared, write_head cleared d')

unfoldable pub commit : Log → Device → Log × Device
unfolding write_log write_head install_trans
commit log d =
    if ltb 0 log.n
    then (let d1 = write_log log 0 log.n d in
        let d2 = write_head log d1 in
        let d3 = install_trans log 0 log.n d2 in
        let cleared = record log { n = 0 } in (cleared, write_head cleared d3))
    else (log, d)

-- One round of the loop of `begin_op`; none: it sleeps on `&log`.
unfoldable pub begin_op : Log → Option Log
begin_op log =
    if log.committing
    then none
    else if ltb logsize (log.n + (log.outstanding + 1) * maxopblocks)
    then none
    else some (record log { outstanding = log.outstanding + 1 })

-- What `end_op` does before `commit`, if it is to call it; none: a panic.
unfoldable pub end_op : Log → Option (Log × Bool)
end_op log =
    if log.committing
    then none
    else (let left = (log.outstanding + 2 ^ 32 - 1) % 2 ^ 32 in
        if left == 0
        then some (record log { outstanding = left; committing = true }, true)
        else some (record log { outstanding = left }, false))

-- What it does after it.
unfoldable pub end_commit : Log → Log
end_commit log = record log { committing = false }

-- The first of `k` entries from `i` on that holds `blockno`, or the place behind them.
unfoldable pub find_block : (ℕ → ℕ) → ℕ → ℕ → ℕ → ℕ
find_block block blockno i zero = i
find_block block blockno i (suc k) =
    let rest = find_block block blockno (i + 1) k in if block i == blockno then i else rest

-- none: a panic. The buffer becomes dirty, which keeps it in the cache.
unfoldable pub log_write : ℕ → Log → Option Log
unfolding find_block update
log_write blockno log =
    if leb logsize log.n || leb (log.size - 1) log.n
    then none
    else if below_one log.outstanding
    then none
    else (let i = find_block log.block blockno 0 log.n in
        some (record log {
          block = update log.block i blockno;
          n = if i == log.n then log.n + 1 else log.n;
        }))
