-- ===== src/Bcache.antt =====
-- The buffer cache (`binit`, `bget`, `brelse` of bio.c). `bcache.lock` makes each operation one step; the
-- sleep lock of a buffer comes behind it. The list through `next` from `head` is a list of indices of
-- `buf`, the most recently used first.
pub mod Search
pub mod Blocks
pub mod Steps
pub mod Recycle
mod Tests
use osassignment.Prelude.{
  ℕ, zero, suc, ◌+◌, ◌-◌, ◌%◌, ◌^◌, Bool, true, false, not, ◌&&◌, ◌==◌, if◌then◌else◌, Option, none,
  some, List, [], ◌∷◌,
}
use osassignment.Prelude.Table.{update}
use osassignment.Prelude.Count.{remove}

abbrev pub nbuf : ℕ
nbuf = 30

-- `valid` and `dirty` are `B_VALID` and `B_DIRTY` of `flags`.
pub record Buf : Type 0 where
  pub dev : ℕ
  pub blockno : ℕ
  pub refcnt : ℕ
  pub valid : Bool
  pub dirty : Bool

pub record Bcache : Type 0 where
  pub order : List ℕ
  pub bufs : ℕ → Buf

-- The loop of `binit` over the first `n` buffers.
unfoldable pub link_all : ℕ → List ℕ
link_all zero = []
link_all (suc n) = n ∷ link_all n

abbrev pub is_block : ℕ → ℕ → Buf → Bool
is_block dev blockno b = (b.dev == dev) && (b.blockno == blockno)

abbrev pub is_spare : Buf → Bool
is_spare b = (b.refcnt == 0) && not b.dirty

-- Along `next`.
unfoldable pub find_next : (Buf → Bool) → (ℕ → Buf) → List ℕ → Option ℕ
find_next test bufs [] = none
find_next test bufs (i ∷ is) = if test (bufs i) then some i else find_next test bufs is

abbrev pub or_else : Option ℕ → Option ℕ → Option ℕ
or_else none o = o
or_else (some i) o = some i

-- Along `prev`: what is behind comes first.
unfoldable pub find_prev : (Buf → Bool) → (ℕ → Buf) → List ℕ → Option ℕ
find_prev test bufs [] = none
find_prev test bufs (i ∷ is) =
    or_else (find_prev test bufs is) (if test (bufs i) then some i else none)

-- The buffer of a block that is cached, and one to recycle. none: panic.
abbrev pub use_buf : ℕ → ℕ → Bcache → Option ℕ → Option ℕ → Option (ℕ × Bcache)
use_buf dev blockno bc (some i) spare = some (
  i,
  record bc {
    bufs = update bc.bufs i (record (bc.bufs i) { refcnt = ((bc.bufs i).refcnt + 1) % 2 ^ 32 });
  },
)
use_buf dev blockno bc none (some i) = some (
  i,
  record bc {
    bufs =
        update bc.bufs i
          (record { dev = dev; blockno = blockno; refcnt = 1; valid = false; dirty = false });
  },
)
use_buf dev blockno bc none none = none

unfoldable pub bget : ℕ → ℕ → Bcache → Option (ℕ × Bcache)
unfolding find_next find_prev
bget dev blockno bc =
    use_buf dev blockno bc (find_next (is_block dev blockno) bc.bufs bc.order)
      (find_prev is_spare bc.bufs bc.order)

-- `brelse` behind `releasesleep`.
unfoldable pub brelse : ℕ → Bcache → Bcache
brelse i bc =
    let r = ((bc.bufs i).refcnt + (2 ^ 32 - 1)) % 2 ^ 32 in
    record {
      order = if r == 0 then i ∷ remove i bc.order else bc.order;
      bufs = update bc.bufs i (record (bc.bufs i) { refcnt = r });
    }
