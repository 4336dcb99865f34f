-- ===== src/Directory/Entry.antt =====
-- What an entry of a directory says.
use osassignment.Prelude.{
  ℕ, zero, suc, ◌+◌, ◌-◌, ◌≤◌, ◌<◌, ◌≡◌, ◌≢◌, ◌⊎◌, ◌↔◌, refl, sym, ap, ◌∙◌, arith, ℕ_discrete,
}
use osassignment.Memory.{Mem}
use osassignment.Strings.{strncmp}
use osassignment.Strings.Copy.{padded}
use osassignment.Names.{dirsiz}
use osassignment.Content.{load16}
use osassignment.Content.Read.{fetched}
use osassignment.Directory.{direntsize, namecmp}

-- `n` bytes of two strings agree, where those behind the end are 0.
abbrev pub SameString : ℕ → Mem → ℕ → Mem → ℕ → Type 0
SameString n m s k t = (j : ℕ) → j < n → padded m s j ≡ padded k t j

SameString-next :
    (n : ℕ) (m : Mem) (s t : ℕ)
    → m s ≡ m t
    → (m s ≢ 0 → SameString n m (s + 1) m (t + 1))
    → SameString (suc n) m s m t
SameString-next n m s t e later zero lt = e
SameString-next n m s t e later (suc j) lt = elim (ℕ_discrete (m s) 0) [
  | yes z ↦ ground (arith, e, z)
  | no nz ↦ ground (arith, e, later nz j (omega arith))
]

SameString-later :
    (n : ℕ) (m : Mem) (s t : ℕ)
    → m s ≡ m t
    → m s ≢ 0
    → SameString (suc n) m s m t
    → SameString n m (s + 1) m (t + 1)
SameString-later n m s t e nz h j lt = ground (arith, h (suc j) (omega arith), e, nz)

-- `strncmp` returns 0 exactly for strings that agree.
pub strncmp-SameString :
    (n : ℕ) (m : Mem) (s t : ℕ)
    → ((x : ℕ) → m x < 256)
    → (strncmp m s t n ≡ 0) ↔ SameString n m s m t
unfolding strncmp
strncmp-SameString zero m s t bytes = (λ e j lt. absurd (omega arith), λ h. refl)
strncmp-SameString (suc n) m s t bytes =
    let (there, back) = strncmp-SameString n m (s + 1) (t + 1) bytes in
    elim (ℕ_discrete (m s) (m t)) [
      | no ne ↦ (
        λ e. absurd (ground (arith, e, ne, bytes s, bytes t)),
        λ h. absurd (ne (h zero (omega arith))),
      )
      | yes e ↦ elim (ℕ_discrete (m s) 0) [
        | yes z ↦ (λ h. SameString-next n m s t e (λ nz. absurd (nz z)), λ h. ground (arith, e, z))
        | no nz ↦ (
          λ h. SameString-next n m s t e (λ y. there (ground (arith, h, e, nz))),
          λ h. ground (arith, back (SameString-later n m s t e nz h), e, nz),
        )
      ]
    ]

head_same : (m k : Mem) (s t : ℕ) → m (s + 0) ≡ k (t + 0) → m s ≡ k t
head_same m k s t e =
    let left : s + 0 ≡ s = omega arith in
    let right : t + 0 ≡ t = omega arith in sym (ap m left) ∙ e ∙ ap k right

pub padded-shift :
    (j : ℕ) (m k : Mem) (s t : ℕ)
    → ((y : ℕ) → y ≤ j → m (s + y) ≡ k (t + y))
    → padded m s j ≡ padded k t j
padded-shift zero m k s t f = head_same m k s t (f 0 (omega arith))
padded-shift (suc j) m k s t f =
    let tail = padded-shift j m k (s + 1) (t + 1) (λ y le.
      let left : s + 1 + y ≡ s + suc y = omega arith in
      let right : t + 1 + y ≡ t + suc y = omega arith in
      ap m left ∙ f (suc y) (omega arith) ∙ sym (ap k right)) in
    ground (arith, head_same m k s t (f 0 (omega arith)), tail)

-- The entry at `off` of the content `f` is in use, and has the name at `name`.
abbrev pub IsEntry : (ℕ → ℕ) → ℕ → Mem → ℕ → Type 0
IsEntry f off mem name = (load16 f off ≢ 0) × SameString dirsiz mem name f (off + 2)

module _ (off de name : ℕ) (f : ℕ → ℕ) (mem mem' : Mem)
    (read : (x : ℕ) → mem' x ≡ fetched direntsize off f de mem x) where
  fetched_at : (y : ℕ) → y < direntsize → mem' (de + y) ≡ f (off + y)
  fetched_at y lt =
      let e : de + y - de ≡ y = omega arith in
      read (de + y) ∙ ground (arith, ap (λ i. f (off + i)) e)

  pub fetched_outside : (x : ℕ) → (x < de) ⊎ (de + direntsize ≤ x) → mem' x ≡ mem x
  fetched_outside x h = read x ∙ ground (arith, h)

  pub fetched-inum : load16 mem' de ≡ load16 f off
  unfolding load16
  fetched-inum =
      let left : de + 0 ≡ de = omega arith in
      let right : off + 0 ≡ off = omega arith in
      ground
        (arith, ap mem' left, fetched_at 0 (omega arith), ap f right, fetched_at 1 (omega arith))

  pub fetched-SameString :
      (name + dirsiz ≤ de) ⊎ (de + direntsize ≤ name)
      → ((x : ℕ) → mem' x < 256)
      → (namecmp mem' name (de + 2) ≡ 0) ↔ SameString dirsiz mem name f (off + 2)
  fetched-SameString apart bytes =
      let (there, back) = strncmp-SameString dirsiz mem' name (de + 2) bytes in
      (
        λ e j lt. sym (name_same j lt) ∙ there e j lt ∙ entry_same j lt,
        λ h. back (λ j lt. name_same j lt ∙ h j lt ∙ sym (entry_same j lt)),
      )
    where
      name_same : (j : ℕ) → j < dirsiz → padded mem' name j ≡ padded mem name j
      name_same j lt =
          padded-shift j mem' mem name name (λ y le. fetched_outside (name + y) (omega arith))

      entry_same : (j : ℕ) → j < dirsiz → padded mem' (de + 2) j ≡ padded f (off + 2) j
      entry_same j lt = padded-shift j mem' f (de + 2) (off + 2) (λ y le.
          let left : de + 2 + y ≡ de + (2 + y) = omega arith in
          let right : off + 2 + y ≡ off + (2 + y) = omega arith in
          ap mem' left ∙ fetched_at (2 + y) (omega arith) ∙ sym (ap f right))
