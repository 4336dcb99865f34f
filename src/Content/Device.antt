-- ===== src/Content/Device.antt =====
-- A device in `readi` and `writei`.
use osassignment.Prelude.{
  ℕ, ◌≤◌, ◌<◌, ◌≡◌, ◌⊎◌, inl, inr, Bool, true, false, arith, Bool-cases, dec_lt,
}
use osassignment.Content.{ndev, failed, device, device_io}

-- A device without the function.
abbrev pub NoDevice : (ℕ → Bool) → ℕ → Type 0
NoDevice has major = (ndev ≤ major) ⊎ (has major ≡ false)

pub device_io-cases :
    {A : Type 0} (has : ℕ → Bool) (major : ℕ)
    → ((device_io {A = A} has major ≡ failed) × NoDevice has major)
      ⊎ ((device_io {A = A} has major ≡ device major) × (major < ndev) × (has major ≡ true))
device_io-cases has major = elim (dec_lt major ndev) [
  | no high ↦ inl (ground (arith, high), inl (omega arith))
  | yes low ↦ elim (Bool-cases (has major)) [
    | inl there ↦ inr (ground (arith, low, there), low, there)
    | inr none ↦ inl (ground (arith, none), inr none)
  ]
]
