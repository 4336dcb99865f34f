-- ===== src/Icache/Scan.antt =====
-- What the loop of `iget` finds.
use osassignment.Prelude.{
  ℕ, zero, suc, ◌+◌, ◌<◌, ◌≡◌, subst, true, false, ◌==◌, Option, none, some, Bool-cases, inl, inr,
  arith,
}
use osassignment.Prelude.Table.{below_suc}
use osassignment.Icache.{Inode, is_cached, remember, Slot, cached, recycled, full, slot_after, scan}

module _ (dev inum : ℕ) (ic : ℕ → Inode) where
  -- Among the first `m` entries.
  abbrev pub Found : ℕ → Slot → Type 0
  Found m (cached i) = (i < m) × (is_cached dev inum (ic i) ≡ true)
  Found m (recycled e) =
      (e < m) × ((ic e).ref ≡ 0) × ((j : ℕ) → j < m → is_cached dev inum (ic j) ≡ false)
  Found m full = (j : ℕ) → j < m → (((ic j).ref == 0) ≡ false) × (is_cached dev inum (ic j) ≡ false)

  abbrev Remembered : ℕ → Option ℕ → Type 0
  Remembered i none = (j : ℕ) → j < i → ((ic j).ref == 0) ≡ false
  Remembered i (some e) = (e < i) × ((ic e).ref ≡ 0)

  remember-Remembered :
      (i : ℕ) (o : Option ℕ) → Remembered i o → Remembered (i + 1) (remember o i (ic i))
  remember-Remembered i (some e) (lt, z) = (omega arith, z)
  remember-Remembered i none h = elim (Bool-cases ((ic i).ref == 0)) [
    | inl on ↦ rw on (omega arith, ground (arith, on))
    | inr off ↦ rw off (below_suc (λ k. ((ic k).ref == 0) ≡ false) i h off)
  ]

  slot_after-Found :
      (m : ℕ) (o : Option ℕ)
      → ((j : ℕ) → j < m → is_cached dev inum (ic j) ≡ false)
      → Remembered m o
      → Found m (slot_after o)
  slot_after-Found m none h r = λ j lt. (r j lt, h j lt)
  slot_after-Found m (some e) h (lt, z) = (lt, z, h)

  pub scan-Found :
      (i n m : ℕ) (o : Option ℕ)
      → i + n ≡ m
      → ((j : ℕ) → j < i → is_cached dev inum (ic j) ≡ false)
      → Remembered i o
      → Found m (scan dev inum ic i n o)
  unfolding scan
  scan-Found i zero m o e h r =
      let all : i ≡ m = omega arith in
      subst (λ k. Found k (slot_after o)) all (slot_after-Found i o h r)
  scan-Found i (suc n) m o e h r = elim (Bool-cases (is_cached dev inum (ic i))) [
    | inl on ↦ rw on (omega arith, on)
    | inr off ↦ rw off (
        scan-Found (i + 1) n m (remember o i (ic i)) (omega arith)
          (below_suc (λ k. is_cached dev inum (ic k) ≡ false) i h off) (remember-Remembered i o r))
  ]
