-- ===== src/Directory/Written.antt =====
-- The entry that `dirlink` writes.
use osassignment.Prelude.{
  ℕ, zero, suc, ◌+◌, ◌-◌, ◌*◌, ◌^◌, ◌≤◌, ◌<◌, ◌≡◌, ◌⊎◌, sym, ap, ◌∙◌, arith, ℕ_discrete, dec_lt,
}
use osassignment.Memory.{Mem, write}
use osassignment.Balloc.{bsize}
use osassignment.Names.{dirsiz}
use osassignment.Strings.{strncpy}
use osassignment.Strings.Copy.{padded, strncpy_lem}
use osassignment.Content.{load16, store16, maxfile}
use osassignment.Content.Store.{load16-store16_self, store16_outside}
use osassignment.Content.Block.{written}
use osassignment.Directory.{direntsize}
use osassignment.Directory.Entry.{SameString}

-- The bytes of the entry that is written.
abbrev pub entry_bytes : Mem → ℕ → ℕ → ℕ → Mem
entry_bytes mem name inum de = store16 (strncpy mem (de + 2) name dirsiz) de inum

padded-fill :
    (j : ℕ) (k m : Mem) (t s : ℕ)
    → ((y : ℕ) → y ≤ j → k (t + y) ≡ padded m s y)
    → padded k t j ≡ padded m s j
padded-fill zero k m t s f = let e : t + 0 ≡ t = omega arith in sym (ap k e) ∙ f 0 (omega arith)
padded-fill (suc j) k m t s f =
    let e : t + 0 ≡ t = omega arith in
    let head : k t ≡ m s = sym (ap k e) ∙ f 0 (omega arith) in
    elim (ℕ_discrete (m s) 0) [
      | yes z ↦ ground (arith, head, z)
      | no nz ↦
          let tail : padded k (t + 1) j ≡ padded m (s + 1) j =
            padded-fill j k m (t + 1) (s + 1) (λ y le.
              let index : t + 1 + y ≡ t + suc y = omega arith in
              ground (arith, ap k index, f (suc y) (omega arith), nz)) in
          ground (arith, head, nz, tail)
    ]

entry_name :
    (mem : Mem) (name inum de y : ℕ)
    → (name + dirsiz ≤ de) ⊎ (de + direntsize ≤ name)
    → y < dirsiz
    → entry_bytes mem name inum de (de + 2 + y) ≡ padded mem name y
entry_name mem name inum de y apart lt =
    let index : de + 2 + y - (de + 2) ≡ y = omega arith in
    store16_outside (strncpy mem (de + 2) name dirsiz) de inum (de + 2 + y) (omega arith)
    ∙ strncpy_lem dirsiz mem (de + 2) name (de + 2 + y) (omega arith)
    ∙ ground (arith, ap (padded mem name) index)

padded-lt : (j : ℕ) (m : Mem) (s : ℕ) → ((i : ℕ) → i ≤ j → m (s + i) < 256) → padded m s j < 256
padded-lt zero m s f = let e : s + 0 ≡ s = omega arith in omega (arith, f 0 (omega arith), ap m e)
padded-lt (suc j) m s f =
    let tail : padded m (s + 1) j < 256 = padded-lt j m (s + 1) (λ i le.
      let index : s + 1 + i ≡ s + suc i = omega arith in
      omega (arith, f (suc i) (omega arith), ap m index)) in
    ground (arith, tail)

low_bytes : (m : Mem) (a v : ℕ) → (store16 m a v a < 256) × (store16 m a v (a + 1) < 256)
unfolding store16 write
low_bytes m a v = ground arith

entry-lt :
    (mem : Mem) (name inum de i : ℕ)
    → (name + dirsiz ≤ de) ⊎ (de + direntsize ≤ name)
    → ((i : ℕ) → i < dirsiz → mem (name + i) < 256)
    → i < direntsize
    → entry_bytes mem name inum de (de + i) < 256
entry-lt mem name inum de i apart low lt = elim (dec_lt i 2) [
  | yes short ↦
      let (first, second) = low_bytes (strncpy mem (de + 2) name dirsiz) de inum in
      elim (ℕ_discrete i 0) [
        | yes z ↦
            let index : de + i ≡ de = omega arith in
            omega (arith, first, ap (entry_bytes mem name inum de) index)
        | no nz ↦
            let index : de + i ≡ de + 1 = omega arith in
            omega (arith, second, ap (entry_bytes mem name inum de) index)
      ]
  | no name_byte ↦
      let index : de + 2 + (i - 2) ≡ de + i = omega arith in
      omega (
        arith,
        entry_name mem name inum de (i - 2) apart (omega arith),
        ap (entry_bytes mem name inum de) index,
        padded-lt (i - 2) mem name (λ y le. low y (omega arith)),
      )
]

-- The new content of a directory: the entry at `o`, and what was there.
pub record IsLinkedAt (f g : ℕ → ℕ) (mem : Mem) (name inum o : ℕ) : Type 0 where
  pub inum_at : load16 g o ≡ inum
  pub name_at : SameString dirsiz mem name g (o + 2)
  pub fits_at : o + direntsize ≤ maxfile * bsize
  pub byte_at : (i : ℕ) → i < direntsize → g (o + i) < 256
  pub others : (x : ℕ) → x < maxfile * bsize → (x < o) ⊎ (o + direntsize ≤ x) → g x ≡ f x

load16_shift :
    (g k : Mem) (o de : ℕ)
    → g (o + 0) ≡ k (de + 0)
    → g (o + 1) ≡ k (de + 1)
    → load16 g o ≡ load16 k de
unfolding load16
load16_shift g k o de p q =
    let left : o + 0 ≡ o = omega arith in
    let right : de + 0 ≡ de = omega arith in ground (arith, ap g left, ap k right, p, q)

pub written-IsLinkedAt :
    (f g : ℕ → ℕ) (mem : Mem) (name inum de o : ℕ)
    → (name + dirsiz ≤ de) ⊎ (de + direntsize ≤ name)
    → ((i : ℕ) → i < dirsiz → mem (name + i) < 256)
    → inum < 2 ^ 16
    → o + direntsize ≤ maxfile * bsize
    → ((x : ℕ)
        → x < maxfile * bsize
        → g x ≡ written direntsize o de (entry_bytes mem name inum de) f x)
    → IsLinkedAt f g mem name inum o
written-IsLinkedAt f g mem name inum de o apart low fits small same = record {
  inum_at =
      load16_shift g (entry_bytes mem name inum de) o de (at 0 (omega arith)) (at 1 (omega arith))
      ∙ load16-store16_self (strncpy mem (de + 2) name dirsiz) de inum fits;
  name_at = λ j lt. sym (
      padded-fill j g mem (o + 2) name (λ y le.
        let index : o + 2 + y ≡ o + (2 + y) = omega arith in
        let index2 : de + (2 + y) ≡ de + 2 + y = omega arith in
        ap g index
        ∙ at (2 + y) (omega arith)
        ∙ ap (entry_bytes mem name inum de) index2
        ∙ entry_name mem name inum de y apart (omega arith)));
  fits_at = small;
  byte_at = λ i lt. omega (arith, at i lt, entry-lt mem name inum de i apart low lt);
  others = λ x lt out. same x lt ∙ ground (arith, out);
}
  where
    at : (y : ℕ) → y < direntsize → g (o + y) ≡ entry_bytes mem name inum de (de + y)
    at y lt =
        let index : o + y - o ≡ y = omega arith in
        same (o + y) (omega arith)
        ∙ ground (arith, ap (λ i. entry_bytes mem name inum de (de + i)) index)
