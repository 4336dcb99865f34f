-- ===== src/Icache/Unique.antt =====
-- No inode has two entries in the cache.
use osassignment.Prelude.{
  ℕ, ◌-◌, ◌^◌, ◌<◌, ◌≡◌, ◌≢◌, refl, sym, ap, ◌∙◌, true, false, ◌&&◌, ◌==◌, none, some, Bool-cases,
  inl, inr, List, ◌∷◌, length, arith, ℕ_discrete,
}
use mathlib.Core.Option.{some-injective}
use osassignment.Prelude.Table.{update, update_self, update_ne}
use osassignment.Prelude.Count.{
  count, remove, count-cons_self, count-cons_ne, count-remove_self, count-remove_ne, count-le,
}
use osassignment.Icache.{
  Inode, ninode, is_cached, Slot, cached, recycled, full, scan, bump, take_slot, iget, iput_check,
  iput_drop,
}
use osassignment.Icache.Scan.{Found, scan-Found}
use osassignment.Icache.System.{
  System, Step, get, dup, sets, check, put, Reach, boot, next, WellFormed,
}

-- One entry changes with the references to it, and stays for the same inode if there were some.
WellFormed-update :
    (s : System) (i : ℕ) (f : Inode) (hs : List ℕ)
    → WellFormed s
    → f.ref ≡ count i hs
    → count i hs < 2 ^ 31
    → i < ninode
    → ((j : ℕ) → i ≢ j → count j hs ≡ count j s.holders)
    → ((j : ℕ)
        → i ≢ j
        → 0 < count i hs
        → 0 < count j s.holders
        → f.dev ≡ (s.inodes j).dev
        → f.inum ≡ (s.inodes j).inum
        → ⊥)
    → WellFormed (record { inodes = update s.inodes i f; holders = hs })
WellFormed-update s i f hs w here few lt others apart = record {
  counted = λ j. elim (ℕ_discrete i j) [
    | yes e ↦ rw (← e) (ap (λ g. g.ref) (update_self s.inodes i f) ∙ here)
    | no ne ↦ rw (update_ne s.inodes i j f ne, others j ne) (w.counted j)
  ];
  small =
      λ j. elim (ℕ_discrete i j) [ yes e ↦ rw (← e) few | no ne ↦ rw (others j ne) (w.small j) ];
  inside = λ j held. elim (ℕ_discrete i j) [
    | yes e ↦ rw (← e) lt
    | no ne ↦ w.inside j (rw (others j ne) at held)
  ];
  unique = λ j k. same j k (ℕ_discrete i j) (ℕ_discrete i k);
}
  where
    same :
        (j k : ℕ)
        → Dec (i ≡ j)
        → Dec (i ≡ k)
        → 0 < count j hs
        → 0 < count k hs
        → (update s.inodes i f j).dev ≡ (update s.inodes i f k).dev
        → (update s.inodes i f j).inum ≡ (update s.inodes i f k).inum
        → j ≡ k
    same j k (yes a) (yes b) hj hk d n = sym a ∙ b
    same j k (yes a) (no b) hj hk d n = absurd (
        apart k b (rw (← a) at hj) (rw (others k b) at hk)
          (rw (← a, update_self s.inodes i f, update_ne s.inodes i k f b) at d)
          (rw (← a, update_self s.inodes i f, update_ne s.inodes i k f b) at n))
    same j k (no a) (yes b) hj hk d n = absurd (
        apart j a (rw (← b) at hk) (rw (others j a) at hj)
          (sym (rw (← b, update_self s.inodes i f, update_ne s.inodes i j f a) at d))
          (sym (rw (← b, update_self s.inodes i f, update_ne s.inodes i j f a) at n)))
    same j k (no a) (no b) hj hk d n =
        w.unique j k (rw (others j a) at hj) (rw (others k b) at hk)
          (rw (update_ne s.inodes i j f a, update_ne s.inodes i k f b) at d)
          (rw (update_ne s.inodes i j f a, update_ne s.inodes i k f b) at n)

-- A referenced entry that stays for its inode.
WellFormed-keep :
    (s : System) (i : ℕ) (f : Inode) (hs : List ℕ)
    → WellFormed s
    → 0 < count i s.holders
    → f.dev ≡ (s.inodes i).dev
    → f.inum ≡ (s.inodes i).inum
    → f.ref ≡ count i hs
    → count i hs < 2 ^ 31
    → ((j : ℕ) → i ≢ j → count j hs ≡ count j s.holders)
    → WellFormed (record { inodes = update s.inodes i f; holders = hs })
WellFormed-keep s i f hs w held d n here few others =
    WellFormed-update s i f hs w here few (w.inside i held) others
      (λ j ne _ hj dj nj. ne (w.unique i j held hj (sym d ∙ dj) (sym n ∙ nj)))

WellFormed-bump :
    (s : System) (i : ℕ)
    → WellFormed s
    → 0 < count i s.holders
    → length s.holders < 2 ^ 31 - 1
    → WellFormed (record { inodes = bump i s.inodes; holders = i ∷ s.holders })
WellFormed-bump s i w held few =
    let one = count-cons_self i s.holders in
    let le = count-le i s.holders in
    WellFormed-keep s i _ (i ∷ s.holders) w held refl refl
      (omega (arith, one, le, few, w.counted i)) (omega (arith, one, le, few))
      (λ j ne. count-cons_ne i j s.holders ne)

is_cached-held :
    (s : System) (dev inum i : ℕ)
    → WellFormed s
    → is_cached dev inum (s.inodes i) ≡ true
    → (0 < count i s.holders) × ((s.inodes i).dev ≡ dev) × ((s.inodes i).inum ≡ inum)
is_cached-held s dev inum i w h = ground (arith, h, w.counted i)

held-is_cached :
    (s : System) (i : ℕ)
    → WellFormed s
    → 0 < count i s.holders
    → is_cached (s.inodes i).dev (s.inodes i).inum (s.inodes i) ≡ true
held-is_cached s i w held = ground (arith, w.small i, w.counted i)

take_slot-WellFormed :
    (s : System) (dev inum i : ℕ) (ic : ℕ → Inode) (slot : Slot)
    → WellFormed s
    → length s.holders < 2 ^ 31 - 1
    → Found dev inum s.inodes ninode slot
    → take_slot dev inum s.inodes slot ≡ some (i, ic)
    → WellFormed (record { inodes = ic; holders = i ∷ s.holders })
take_slot-WellFormed s dev inum i ic (cached k) w few (lt, on) e =
    let both = some-injective _ _ e in
    rw (← ap (λ p. p.0) both, ← ap (λ p. p.1) both)
      (WellFormed-bump s k w (is_cached-held s dev inum k w on).0 few)
take_slot-WellFormed s dev inum i ic full w few f e = absurd (cc)
take_slot-WellFormed s dev inum i ic (recycled k) w few (lt, free, none_cached) e =
    let both = some-injective _ _ e in
    let one = count-cons_self k s.holders in
    let taken = record (s.inodes k) { dev = dev; inum = inum; ref = 1; valid = false } in
    rw (← ap (λ p. p.0) both, ← ap (λ p. p.1) both)
      (WellFormed-update s k taken (k ∷ s.holders) w (omega (arith, one, free, w.counted k))
        (omega (arith, one, free, w.counted k)) lt (λ j ne. count-cons_ne k j s.holders ne)
        (λ j ne _ hj d n.
          ground (arith, held-is_cached s j w hj, none_cached j (w.inside j hj), d, n)))

scan_all-Found :
    (s : System) (dev inum : ℕ)
    → Found dev inum s.inodes ninode (scan dev inum s.inodes 0 ninode none)
scan_all-Found s dev inum =
    scan-Found dev inum s.inodes 0 ninode ninode none refl (λ j lt. absurd (omega arith))
      (λ j lt. absurd (omega arith))

Step-WellFormed : (s t : System) → Step s t → WellFormed s → WellFormed t
unfolding iget iput_check iput_drop
Step-WellFormed _ _ (get s dev inum i ic few e) w =
    take_slot-WellFormed s dev inum i ic _ w few (scan_all-Found s dev inum) e
Step-WellFormed _ _ (dup s i held few) w = WellFormed-bump s i w held few
Step-WellFormed _ _ (sets s i valid kind nlink size held) w =
    WellFormed-keep s i _ s.holders w held refl refl (w.counted i) (w.small i) (λ j ne. refl)
Step-WellFormed _ _ (check s i held) w =
    elim (Bool-cases
      (((s.inodes i).valid && ((s.inodes i).nlink == 0)) && ((s.inodes i).ref == 1))) [
        | inl on ↦ rw on (
            WellFormed-keep s i _ s.holders w held refl refl (w.counted i) (w.small i)
              (λ j ne. refl))
        | inr off ↦ rw off w
      ]
Step-WellFormed _ _ (put s i held) w =
    let fewer = count-remove_self i s.holders in
    WellFormed-keep s i _ (remove i s.holders) w held refl refl
      (omega (arith, fewer, w.counted i, w.small i, held)) (omega (arith, fewer, w.small i))
      (λ j ne. count-remove_ne i j s.holders ne)

-- Whatever the steps of the holders and of `iput`: each count is the number of references to the
-- entry, below 2 ^ 31; references are to entries of the table; no two referenced entries are for the
-- same device and inode number.
pub Reach-WellFormed : (s : System) → Reach s → WellFormed s
unfolding count
Reach-WellFormed _ (boot ic h) = record {
  counted = h;
  small = λ i. omega arith;
  inside = λ i held. absurd (omega arith);
  unique = λ i j held. absurd (omega arith);
}
Reach-WellFormed _ (next s t r step) = Step-WellFormed s t step (Reach-WellFormed s r)

take_slot-held :
    (s : System) (i : ℕ) (slot : Slot)
    → WellFormed s
    → 0 < count i s.holders
    → Found (s.inodes i).dev (s.inodes i).inum s.inodes ninode slot
    → take_slot (s.inodes i).dev (s.inodes i).inum s.inodes slot ≡ some (i, bump i s.inodes)
take_slot-held s i (cached k) w held (lt, on) =
    let (hk, d, n) = is_cached-held s _ _ k w on in rw (w.unique k i hk held d n) refl
take_slot-held s i (recycled k) w held (lt, free, none_cached) =
    absurd (ground (arith, held-is_cached s i w held, none_cached i (w.inside i held)))
take_slot-held s i full w held none_cached =
    absurd (ground (arith, held-is_cached s i w held, (none_cached i (w.inside i held)).1))

-- With a reference to an entry, `iget` of its device and inode number returns this entry with one
-- reference more, in any state that the steps reach.
pub iget-held :
    (s : System) (i : ℕ)
    → Reach s
    → 0 < count i s.holders
    → iget (s.inodes i).dev (s.inodes i).inum s.inodes ≡ some (i, bump i s.inodes)
unfolding iget
iget-held s i r held =
    take_slot-held s i _ (Reach-WellFormed s r) held
      (scan_all-Found s (s.inodes i).dev (s.inodes i).inum)
