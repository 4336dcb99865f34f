-- ===== src/Content/Dinode.antt =====
-- The inode on the disk: `iupdate` and the read of `ilock`.
use osassignment.Prelude.{
  ℕ, ◌+◌, ◌%◌, ◌^◌, ◌≤◌, ◌<◌, ◌≡◌, ◌≢◌, ◌⊎◌, inl, inr, refl, sym, ap, ◌∙◌, subst, arith, ℕ_discrete,
  dec_lt, ==_ne, Option, none, some,
}
use osassignment.Prelude.Table.{update, update_self, update_ne}
use osassignment.Balloc.{Superblock, Disk}
use osassignment.Content.{ndirect, ipb, Node, store_dinode, iblock, dinode_at, iupdate, read_dinode}
use osassignment.Content.Becomes.{SameFields}
use osassignment.Content.Store.{IsDinode, IsAt, store_dinode_outside, store_dinode-IsAt}

-- The result of a read of the dinode of `ip`.
abbrev pub FoundAs : Node → Option Node → Type 0
FoundAs ip none = ip.kind ≡ 0
FoundAs ip (some r) =
    (ip.kind ≢ 0) × SameFields r ip × ((k : ℕ) → k ≤ ndirect → r.addrs k ≡ ip.addrs k)

-- The disk with the inode on it; no other inode and no other block has changed.
pub record IsUpdated (sb : Superblock) (ip : Node) (disk : Disk) : Type 0 where
  pub read_back : FoundAs ip (read_dinode sb disk ip.inum)
  pub other_inode :
      (i x : ℕ)
      → ip.inum ≢ i
      → x < 64
      → disk (iblock sb i) (dinode_at i + x) ≡ ip.disk (iblock sb i) (dinode_at i + x)
  pub other_block : (b : ℕ) → iblock sb ip.inum ≢ b → disk b ≡ ip.disk b

IsAt-FoundAs :
    (sb : Superblock) (ip : Node) (disk : Disk)
    → IsAt ip (disk (iblock sb ip.inum)) (dinode_at ip.inum)
    → FoundAs ip (read_dinode sb disk ip.inum)
unfolding read_dinode
IsAt-FoundAs sb ip disk h = elim (ℕ_discrete ip.kind 0) [
  | yes z ↦ rw (h.kind_at ∙ z) z
  | no nz ↦
      rw (==_ne _ 0 (λ e. nz (sym h.kind_at ∙ e)))
        (nz, (refl, h.kind_at, h.major_at, h.minor_at, h.nlink_at, h.size_at), h.addrs_at)
]

-- For fields of their widths: what `iupdate` writes is what `ilock` reads (a panic where the type
-- is 0), and no other dinode and no other block changes.
pub iupdate-IsUpdated :
    (sb : Superblock) (ip : Node) → IsDinode ip → IsUpdated sb ip (iupdate sb ip).disk
unfolding iupdate
iupdate-IsUpdated sb ip w =
    let b = iblock sb ip.inum in
    let a = dinode_at ip.inum in
    let new = store_dinode ip (ip.disk b) a in
    let self : update ip.disk b new b ≡ new = update_self ip.disk b new in
    record {
      read_back =
          IsAt-FoundAs sb ip (update ip.disk b new)
            (subst (λ m. IsAt ip m a) (sym self) (store_dinode-IsAt ip (ip.disk b) a w));
      other_inode = λ i x ne lt. elim (ℕ_discrete b (iblock sb i)) [
        | yes e ↦
            ap (λ k. update ip.disk b new k (dinode_at i + x)) (sym e)
            ∙ ap (λ m. m (dinode_at i + x)) self
            ∙ store_dinode_outside ip (ip.disk b) a (dinode_at i + x) (apart i x ne lt e)
            ∙ ap (λ k. ip.disk k (dinode_at i + x)) e
        | no away ↦ ap (λ m. m (dinode_at i + x)) (update_ne ip.disk b (iblock sb i) new away)
      ];
      other_block = λ k ne. update_ne ip.disk b k new ne;
    }
  where
    apart :
        (i x : ℕ)
        → ip.inum ≢ i
        → x < 64
        → iblock sb ip.inum ≡ iblock sb i
        → (dinode_at i + x < dinode_at ip.inum) ⊎ (dinode_at ip.inum + 64 ≤ dinode_at i + x)
    apart i x ne lt e = elim (dec_lt (i % ipb) (ip.inum % ipb)) [
      | yes p ↦ inl (omega arith)
      | no p ↦ inr (ground (arith, ne, lt, e, p))
    ]

pub FoundAs-disk :
    (ip : Node) (d : Disk) (r : Option Node) → FoundAs ip r → FoundAs (record ip { disk = d }) r
FoundAs-disk ip d none h = h
FoundAs-disk ip d (some r) h = h

pub IsDinode-resized :
    (a b : Node) (s : ℕ)
    → SameFields b a
    → IsDinode a
    → s < 2 ^ 32
    → ((k : ℕ) → k ≤ ndirect → b.addrs k < 2 ^ 32)
    → IsDinode (record b { size = s })
IsDinode-resized a b s (at, kind, major, minor, nlink, size) t fits addrs = record {
  kind_fits = omega (arith, kind, t.kind_fits);
  major_fits = omega (arith, major, t.major_fits);
  minor_fits = omega (arith, minor, t.minor_fits);
  nlink_fits = omega (arith, nlink, t.nlink_fits);
  size_fits = fits;
  addrs_fit = addrs;
}
