-- ===== src/Memory/Words.antt =====
-- Words in byte memory: what a store leaves to a load, and to the bytes around it.
use osassignment.Prelude.{ℕ, ◌+◌, ◌^◌, ◌≤◌, ◌<◌, ◌≡◌, ◌⊎◌, arith}
use osassignment.Memory.{Mem, load32, store32}

pub load32-store32_self : (m : Mem) (a v : ℕ) → v < 2 ^ 32 → load32 (store32 m a v) a ≡ v
unfolding load32 store32
load32-store32_self m a v h = ground arith

pub store32_outside : (m : Mem) (a v x : ℕ) → (x < a) ⊎ (a + 4 ≤ x) → store32 m a v x ≡ m x
unfolding store32
store32_outside m a v x h = ground arith

-- A load reads four bytes.
pub load32_cong :
    (m k : Mem) (a b : ℕ)
    → m a ≡ k b
    → m (a + 1) ≡ k (b + 1)
    → m (a + 2) ≡ k (b + 2)
    → m (a + 3) ≡ k (b + 3)
    → load32 m a ≡ load32 k b
unfolding load32
load32_cong m k a b p q r s = omega arith

pub load32-store32_ne :
    (m : Mem) (a b v : ℕ) → (b + 4 ≤ a) ⊎ (a + 4 ≤ b) → load32 (store32 m a v) b ≡ load32 m b
load32-store32_ne m a b v h =
    load32_cong _ m b b (store32_outside m a v b (omega arith))
      (store32_outside m a v (b + 1) (omega arith)) (store32_outside m a v (b + 2) (omega arith))
      (store32_outside m a v (b + 3) (omega arith))
