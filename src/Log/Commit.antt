-- ===== src/Log/Commit.antt =====
-- What the loops of a commit leave on the disk and in the cache, wherever the power fails.
use osassignment.Prelude.{
  ℕ, zero, suc, ◌+◌, ◌-◌, ◌^◌, ◌≤◌, ◌<◌, ◌≡◌, ◌≢◌, ◌⊎◌, refl, ◌∙◌, ℕ_discrete, arith,
}
use osassignment.Prelude.Table.{update_self, update_ne}
use osassignment.Memory.{Mem, store32}
use osassignment.Log.{Log, Device, bwrite, install_trans, write_log, write_head, store_blocks}

-- Not a block of the log itself.
abbrev pub Outside : Log → ℕ → Type 0
Outside log x = (x < log.start) ⊎ (log.start + log.size ≤ x)

-- The blocks of a transaction: words, each once, none of them in the log, and room for them in it.
pub record IsTransaction (log : Log) : Type 0 where
  pub fits : log.n < log.size
  pub word : log.n < 2 ^ 32
  pub words : (i : ℕ) → i < log.n → log.block i < 2 ^ 32
  pub outside : (i : ℕ) → i < log.n → Outside log (log.block i)
  pub once : (i j : ℕ) → i < log.n → j < log.n → log.block i ≡ log.block j → i ≡ j

module _ (i : ℕ) (b : Mem) (d : Device) where
  pub bwrite_power : (bwrite i b d).power ≡ d.power - 1
  unfolding bwrite
  bwrite_power = refl

  pub bwrite_self : 0 < d.power → (bwrite i b d).disk i ≡ b
  unfolding bwrite
  bwrite_self h = ground (arith, update_self d.disk i b)

  pub bwrite_ne : (x : ℕ) → i ≢ x → (bwrite i b d).disk x ≡ d.disk x
  unfolding bwrite
  bwrite_ne x ne = ground (arith, update_ne d.disk i x b ne)

  pub bwrite_dead : d.power ≡ 0 → (bwrite i b d).disk ≡ d.disk
  unfolding bwrite
  bwrite_dead h = rw h

  bwrite-cache_self : (bwrite i b d).cache i ≡ b
  unfolding bwrite
  bwrite-cache_self = update_self d.cache i b

  pub bwrite-cache_ne : (x : ℕ) → i ≢ x → (bwrite i b d).cache x ≡ d.cache x
  unfolding bwrite
  bwrite-cache_ne x ne = update_ne d.cache i x b ne

module _ (log : Log) (t : IsTransaction log) where
  pub write_log-power : (k tail : ℕ) (d : Device) → (write_log log tail k d).power ≡ d.power - k
  unfolding write_log bwrite
  write_log-power zero tail d = omega arith
  write_log-power (suc k) tail d = omega (
    arith,
    write_log-power k (tail + 1) (bwrite (log.start + tail + 1) (d.cache (log.block tail)) d),
  )

  pub write_log_outside :
      (k tail : ℕ) (d : Device) (x : ℕ)
      → (x < log.start + tail + 1) ⊎ (log.start + tail + k < x)
      → ((write_log log tail k d).disk x ≡ d.disk x)
        × ((write_log log tail k d).cache x ≡ d.cache x)
  unfolding write_log
  write_log_outside zero tail d x h = (refl, refl)
  write_log_outside (suc k) tail d x h =
      let b = d.cache (log.block tail) in
      let i = log.start + tail + 1 in
      let (f, g) = write_log_outside k (tail + 1) (bwrite i b d) x (omega arith) in
      (f ∙ bwrite_ne i b d x (omega arith), g ∙ bwrite-cache_ne i b d x (omega arith))

  pub write_log-copies :
      (k tail : ℕ) (d : Device)
      → tail + k ≤ log.n
      → (i : ℕ) → tail ≤ i
      → i < tail + k
      → (k ≤ d.power → (write_log log tail k d).disk (log.start + i + 1) ≡ d.cache (log.block i))
        × ((write_log log tail k d).cache (log.start + i + 1) ≡ d.cache (log.block i))
  unfolding write_log
  write_log-copies zero tail d h i lo hi = absurd (omega arith)
  write_log-copies (suc k) tail d h i lo hi =
      let b = d.cache (log.block tail) in
      let at = log.start + tail + 1 in
      let d' = bwrite at b d in
      elim (ℕ_discrete tail i) [
        | yes e ↦
            let (f, g) = write_log_outside k (tail + 1) d' at (omega arith) in
            rw (← e) ((λ p. f ∙ bwrite_self at b d (omega arith)), g ∙ bwrite-cache_self at b d)
        | no ne ↦
            let (f, g) =
              write_log-copies k (tail + 1) d' (omega arith) i (omega arith) (omega arith) in
            let o = t.outside i (omega arith) in
            let same = bwrite-cache_ne at b d (log.block i) (λ e. omega (arith, o, e, t.fits)) in
            ((λ p. f (omega (arith, bwrite_power at b d)) ∙ same), g ∙ same)
      ]

  pub install-power : (k tail : ℕ) (d : Device) → (install_trans log tail k d).power ≡ d.power - k
  unfolding install_trans bwrite
  install-power zero tail d = omega arith
  install-power (suc k) tail d = omega (
    arith,
    install-power k (tail + 1) (bwrite (log.block tail) (d.cache (log.start + tail + 1)) d),
  )

  pub install_outside :
      (k tail : ℕ) (d : Device) (x : ℕ)
      → ((i : ℕ) → tail ≤ i → i < tail + k → log.block i ≢ x)
      → ((install_trans log tail k d).disk x ≡ d.disk x)
        × ((install_trans log tail k d).cache x ≡ d.cache x)
  unfolding install_trans
  install_outside zero tail d x h = (refl, refl)
  install_outside (suc k) tail d x h =
      let b = d.cache (log.start + tail + 1) in
      let ne = h tail (omega arith) (omega arith) in
      let (f, g) =
        install_outside k (tail + 1) (bwrite (log.block tail) b d) x
          (λ i lo hi. h i (omega arith) (omega arith)) in
      (f ∙ bwrite_ne (log.block tail) b d x ne, g ∙ bwrite-cache_ne (log.block tail) b d x ne)

  pub install-copies :
      (k tail : ℕ) (d : Device)
      → tail + k ≤ log.n
      → k ≤ d.power
      → (i : ℕ) → tail ≤ i
      → i < tail + k
      → (install_trans log tail k d).disk (log.block i) ≡ d.cache (log.start + i + 1)
  unfolding install_trans
  install-copies zero tail d h p i lo hi = absurd (omega arith)
  install-copies (suc k) tail d h p i lo hi =
      let b = d.cache (log.start + tail + 1) in
      let at = log.block tail in
      let d' = bwrite at b d in
      elim (ℕ_discrete tail i) [
        | yes e ↦ rw (← e) (
            (install_outside k (tail + 1) d' at
              (λ j lo hi c. omega (arith, t.once j tail (omega arith) (omega arith) c))).0
            ∙ bwrite_self at b d (omega arith))
        | no ne ↦
            let o = t.outside tail (omega arith) in
            install-copies k (tail + 1) d' (omega arith) (omega (arith, bwrite_power at b d)) i
              (omega arith) (omega arith)
            ∙ bwrite-cache_ne at b d (log.start + i + 1) (λ c. omega (arith, o, c, t.fits))
      ]

pub install-dead :
    (log : Log) (k tail : ℕ) (d : Device) → d.power ≡ 0 → (install_trans log tail k d).disk ≡ d.disk
unfolding install_trans
install-dead log zero tail d h = refl
install-dead log (suc k) tail d h =
    let b = d.cache (log.start + tail + 1) in
    install-dead log k (tail + 1) (bwrite (log.block tail) b d)
      (omega (arith, bwrite_power (log.block tail) b d))
    ∙ bwrite_dead (log.block tail) b d h

pub write_head-dead :
    (log : Log) (d : Device)
    → d.power ≡ 0
    → ((write_head log d).disk ≡ d.disk) × ((write_head log d).power ≡ 0)
unfolding write_head
write_head-dead log d h =
    let b = store_blocks log.block 0 log.n (store32 (d.cache log.start) 0 log.n) in
    (bwrite_dead log.start b d h, omega (arith, bwrite_power log.start b d))
