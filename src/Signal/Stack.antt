-- ===== src/Signal/Stack.antt =====
-- `push32`: a word on the user stack, through the `esp` of a trap frame.
use osassignment.Prelude.{ℕ, ◌+◌, ◌-◌, ◌^◌, ◌≤◌, ◌<◌, ◌≡◌, ◌⊎◌, arith}
use osassignment.Memory.{Mem, load32, store32}
use osassignment.Memory.Words.{load32-store32_self, load32-store32_ne, store32_outside}
use osassignment.Signal.{push32, tf_esp, sub32}

abbrev pub esp_of : ℕ → Mem → ℕ
esp_of tf m = load32 m (tf + tf_esp)

-- Two blocks of bytes that do not meet, each by its start and length.
abbrev pub Apart : ℕ → ℕ → ℕ → ℕ → Type 0
Apart a n b k = (a + n ≤ b) ⊎ (b + k ≤ a)

pub store-esp : (tf : ℕ) (m : Mem) (v : ℕ) → v < 2 ^ 32 → esp_of tf (store32 m (tf + tf_esp) v) ≡ v
store-esp tf m v h = load32-store32_self m (tf + tf_esp) v h

module _ (tf : ℕ) (m : Mem) (v e : ℕ) (at : esp_of tf m ≡ e) (word : e < 2 ^ 32) (room : 4 ≤ e)
    (apart : Apart (tf + tf_esp) 4 (e - 4) 4) where
  lowered : Mem
  lowered = store32 m (tf + tf_esp) (sub32 (load32 m (tf + tf_esp)) 4)

  lowered-esp : load32 lowered (tf + tf_esp) ≡ e - 4
  unfolding lowered
  lowered-esp = omega (arith, store-esp tf m (sub32 (load32 m (tf + tf_esp)) 4) (omega arith))

  pub push32-esp : esp_of tf (push32 tf v m) ≡ e - 4
  unfolding push32 lowered
  push32-esp =
      rw lowered-esp (
        omega (arith, lowered-esp, load32-store32_ne lowered (e - 4) (tf + tf_esp) v (omega arith)))

  pub push32-word : v < 2 ^ 32 → load32 (push32 tf v m) (e - 4) ≡ v
  unfolding push32 lowered
  push32-word h = rw lowered-esp (load32-store32_self lowered (e - 4) v h)

  pub push32_outside :
      (x : ℕ)
      → (x < tf + tf_esp) ⊎ (tf + tf_esp + 4 ≤ x)
      → (x < e - 4) ⊎ (e ≤ x)
      → push32 tf v m x ≡ m x
  unfolding push32 lowered
  push32_outside x h g = rw lowered-esp (
      omega (
        arith,
        store32_outside lowered (e - 4) v x (omega arith),
        store32_outside m (tf + tf_esp) (sub32 (load32 m (tf + tf_esp)) 4) x h,
      ))
