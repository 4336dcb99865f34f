-- ===== src/Content/Freed.antt =====
-- The blocks of an inode, freed one after the other.
use osassignment.Prelude.{
  ℕ, zero, suc, ◌+◌, ◌≤◌, ◌<◌, ◌≡◌, ◌≢◌, refl, sym, ap, ◌∙◌, subst, Bool, true, false, not, ◌&&◌,
  ◌==◌, arith, ℕ_discrete, Option, none, some,
}
use osassignment.Prelude.Run.{Ensures}
use osassignment.Balloc.{Superblock, Disk}
use osassignment.Balloc.Bitmap.{in_use}
use osassignment.Balloc.Free.{BfreeOf}
use osassignment.Content.{maxfile, Node, from_bfree}
use osassignment.Content.Owned.{data_start, Layout, own, IsNode, bblock-lt}

-- `d` is the disk of the inode with the first `n` of its blocks freed.
pub record Freed (sb : Superblock) (ip : Node) (n : ℕ) (d : Disk) : Type 0 where
  pub gone : (k : ℕ) → k < n → own ip k ≢ 0 → in_use sb d (own ip k) ≡ false
  pub stays :
      (b : ℕ)
      → b < sb.size
      → ((k : ℕ) → k < n → own ip k ≡ b → b ≡ 0)
      → in_use sb d b ≡ in_use sb ip.disk b
  pub data_same : (b : ℕ) → data_start sb ≤ b → d b ≡ ip.disk b
  pub meta_same : (b : ℕ) → b < sb.bmapstart → d b ≡ ip.disk b

cut : (x : Bool) (a b : ℕ) → a ≡ b → (x && not (a == b)) ≡ false
cut x a b e = ground (arith, e)

keep : (x : Bool) (a b : ℕ) → a ≢ b → (x && not (a == b)) ≡ x
keep x a b ne = ground (arith, ne)

module _ (sb : Superblock) (ip : Node) (l : Layout sb) (w : IsNode sb ip) where
  pub Freed-none : Freed sb ip 0 ip.disk
  Freed-none = record {
    gone = λ k lt ne. absurd (omega arith);
    stays = λ b lt h. refl;
    data_same = λ b le. refl;
    meta_same = λ b lt. refl;
  }

  pub Freed-skip : (n : ℕ) (d : Disk) → own ip n ≡ 0 → Freed sb ip n d → Freed sb ip (n + 1) d
  Freed-skip n d z p = record {
    gone = λ k lt ne. elim (ℕ_discrete k n) [
      | yes e ↦ absurd (ne (ap (own ip) e ∙ z))
      | no off ↦ p.gone k (omega arith) ne
    ];
    stays = λ b lt h. p.stays b lt (λ k le e. h k (omega arith) e);
    data_same = p.data_same;
    meta_same = p.meta_same;
  }

  Freed-step :
      (n : ℕ) (d d' : Disk)
      → n ≤ maxfile
      → own ip n ≢ 0
      → Freed sb ip n d
      → BfreeOf sb (own ip n) d (some d')
      → Freed sb ip (n + 1) d'
  Freed-step n d d' le nz p (used, bits, same) =
      let b0 = own ip n in
      let (hi, inside, was) = w.owned n le nz in
      let map = bblock-lt sb b0 inside in
      record {
        gone = λ k lt ne. elim (ℕ_discrete n k) [
          | yes e ↦ bits (own ip k) ∙ cut (in_use sb d (own ip k)) b0 (own ip k) (ap (own ip) e)
          | no off ↦
              bits (own ip k)
              ∙ ap (λ x. x && not (b0 == own ip k)) (p.gone k (omega (arith, lt, off)) ne)
        ];
        stays = λ b lt h.
            bits b
            ∙ ap (λ x. x && not (b0 == b)) (p.stays b lt (λ k le e. h k (omega arith) e))
            ∙ keep (in_use sb ip.disk b) b0 b (λ e. nz (e ∙ h n (omega arith) e));
        data_same = λ b le. same b (omega arith) ∙ p.data_same b le;
        meta_same = λ b lt. same b (omega arith) ∙ p.meta_same b lt;
      }

  -- The block is still in use, since it is none of those before.
  Freed-used :
      (n : ℕ) (d : Disk)
      → n ≤ maxfile
      → own ip n ≢ 0
      → Freed sb ip n d
      → in_use sb d (own ip n) ≡ true
  Freed-used n d le nz p =
      let (hi, inside, was) = w.owned n le nz in
      p.stays (own ip n) inside
        (λ k lt e. absurd (omega (arith, lt, w.apart k n (omega arith) le (λ z. nz (sym e ∙ z)) e)))
      ∙ was

  pub Freed-bfree :
      (n : ℕ) (d : Disk) (r : Option Disk)
      → n ≤ maxfile
      → own ip n ≢ 0
      → Freed sb ip n d
      → BfreeOf sb (own ip n) d r
      → Ensures ⊥ (Freed sb ip (n + 1)) (from_bfree r)
  Freed-bfree n d none le nz p h = ground (arith, Freed-used n d le nz p, h)
  Freed-bfree n d (some d') le nz p h = Freed-step n d d' le nz p h

  pub Freed-skips :
      (m n : ℕ) (d : Disk)
      → ((k : ℕ) → n ≤ k → k < n + m → own ip k ≡ 0)
      → Freed sb ip n d
      → Freed sb ip (n + m) d
  Freed-skips zero n d z p = subst (λ i. Freed sb ip i d) (let e : n ≡ n + 0 = omega arith in e) p
  Freed-skips (suc m) n d z p =
      subst (λ i. Freed sb ip i d) (let e : n + 1 + m ≡ n + suc m = omega arith in e)
        (Freed-skips m (n + 1) d (λ k le lt. z k (omega arith) (omega arith))
          (Freed-skip n d (z n (omega arith) (omega arith)) p))
