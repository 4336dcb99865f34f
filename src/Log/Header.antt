-- ===== src/Log/Header.antt =====
-- The header block: what `write_head` stores, `read_head` reads.
use osassignment.Prelude.{ℕ, zero, suc, ◌+◌, ◌*◌, ◌^◌, ◌≤◌, ◌<◌, ◌≡◌, refl, ◌∙◌, ℕ_discrete, arith}
use osassignment.Prelude.Table.{update, update_self, update_ne}
use osassignment.Memory.{Mem, load32, store32}
use osassignment.Memory.Words.{load32-store32_self, load32-store32_ne}
use osassignment.Log.{Log, Device, store_blocks, load_blocks, read_head}

-- The bytes of a header with this many blocks and these numbers.
pub record IsHeader (n : ℕ) (block : ℕ → ℕ) (b : Mem) : Type 0 where
  pub count : load32 b 0 ≡ n
  pub blocks : (i : ℕ) → i < n → load32 b (4 + 4 * i) ≡ block i

store_blocks_below :
    (block : ℕ → ℕ) (k i : ℕ) (b : Mem) (a : ℕ)
    → a ≤ 4 * i
    → load32 (store_blocks block i k b) a ≡ load32 b a
unfolding store_blocks
store_blocks_below block zero i b a h = refl
store_blocks_below block (suc k) i b a h =
    store_blocks_below block k (i + 1) (store32 b (4 + 4 * i) (block i)) a (omega arith)
    ∙ load32-store32_ne b (4 + 4 * i) a (block i) (omega arith)

store_blocks_at :
    (block : ℕ → ℕ) (k i : ℕ) (b : Mem) (j : ℕ)
    → i ≤ j
    → j < i + k
    → block j < 2 ^ 32
    → load32 (store_blocks block i k b) (4 + 4 * j) ≡ block j
unfolding store_blocks
store_blocks_at block zero i b j lo hi w = absurd (omega arith)
store_blocks_at block (suc k) i b j lo hi w =
    let b' = store32 b (4 + 4 * i) (block i) in
    elim (ℕ_discrete i j) [
      | yes e ↦ rw e (
          store_blocks_below block k (j + 1) (store32 b (4 + 4 * j) (block j)) (4 + 4 * j)
            (omega arith)
          ∙ load32-store32_self b (4 + 4 * j) (block j) w)
      | no ne ↦ store_blocks_at block k (i + 1) b' j (omega arith) (omega arith) w
    ]

pub store_blocks-IsHeader :
    (n : ℕ) (block : ℕ → ℕ) (b : Mem)
    → n < 2 ^ 32
    → ((i : ℕ) → i < n → block i < 2 ^ 32)
    → IsHeader n block (store_blocks block 0 n (store32 b 0 n))
store_blocks-IsHeader n block b h w = record {
  count =
      store_blocks_below block n 0 (store32 b 0 n) 0 (omega arith) ∙ load32-store32_self b 0 n h;
  blocks = λ i lt. store_blocks_at block n 0 (store32 b 0 n) i (omega arith) (omega arith) (w i lt);
}

load_blocks_below :
    (b : Mem) (k i : ℕ) (block : ℕ → ℕ) (j : ℕ) → j < i → load_blocks b i k block j ≡ block j
unfolding load_blocks
load_blocks_below b zero i block j h = refl
load_blocks_below b (suc k) i block j h =
    load_blocks_below b k (i + 1) (update block i (load32 b (4 + 4 * i))) j (omega arith)
    ∙ update_ne block i j (load32 b (4 + 4 * i)) (λ e. omega arith)

load_blocks_at :
    (b : Mem) (k i : ℕ) (block : ℕ → ℕ) (j : ℕ)
    → i ≤ j
    → j < i + k
    → load_blocks b i k block j ≡ load32 b (4 + 4 * j)
unfolding load_blocks
load_blocks_at b zero i block j lo hi = absurd (omega arith)
load_blocks_at b (suc k) i block j lo hi = elim (ℕ_discrete i j) [
  | yes e ↦ rw e (
      load_blocks_below b k (j + 1) (update block j (load32 b (4 + 4 * j))) j (omega arith)
      ∙ update_self block j (load32 b (4 + 4 * j)))
  | no ne ↦
      load_blocks_at b k (i + 1) (update block i (load32 b (4 + 4 * i))) j (omega arith)
        (omega arith)
]

-- Reading a header gives its numbers and leaves the rest of `struct log`.
pub read_head_lem :
    (d : Device) (log : Log) (n : ℕ) (block : ℕ → ℕ)
    → IsHeader n block (d.cache log.start)
    → ((read_head d log).n ≡ n)
      × ((i : ℕ) → i < n → (read_head d log).block i ≡ block i)
      × ((read_head d log).start ≡ log.start)
      × ((read_head d log).size ≡ log.size)
unfolding read_head
read_head_lem d log n block h = (
  h.count,
  λ i lt.
      load_blocks_at (d.cache log.start) (load32 (d.cache log.start) 0) 0 log.block i (omega arith)
        (omega (arith, h.count))
      ∙ h.blocks i lt,
  refl,
  refl,
)
