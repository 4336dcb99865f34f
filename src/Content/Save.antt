-- ===== src/Content/Save.antt =====
-- The inode after `iupdate`: a block before the free map has changed, and perhaps the size.
use osassignment.Prelude.{
  ℕ, ◌+◌, ◌*◌, ◌/◌, ◌%◌, ◌^◌, ◌≤◌, ◌<◌, ◌≡◌, ◌≢◌, refl, sym, ap, ◌∙◌, subst, arith, ℕ_discrete,
}
use osassignment.Prelude.Bits.{test_bit}
use osassignment.Balloc.{bsize, bpb, Superblock, Disk, bblock}
use osassignment.Balloc.Bitmap.{in_use}
use osassignment.Content.{ndirect, maxfile, Node, iblock, dinode_at, iupdate, read_dinode}
use osassignment.Content.Store.{IsDinode}
use osassignment.Content.Owned.{
  IsNode-same, IsForeign-same, own-kept, Layout, own, IsNode, byte, IsForeign,
}
use osassignment.Content.Place.{place, own-place}
use osassignment.Content.Becomes.{SameFields, Becomes}
use osassignment.Content.Dinode.{IsDinode-resized, FoundAs, FoundAs-disk, iupdate-IsUpdated}

module _ (sb : Superblock) (ip : Node) (l : Layout sb) (w : IsNode sb ip) (d : Disk) (s : ℕ)
    (same : (b : ℕ) → sb.bmapstart ≤ b → d b ≡ ip.disk b) where
  unfoldable pub ip_saved : Node
  ip_saved = record ip { disk = d; size = s }

  pub own_saved : (k : ℕ) → k ≤ maxfile → own ip_saved k ≡ own ip k
  unfolding ip_saved
  own_saved k le =
      own-kept ip d s k
        (λ there. same (own ip maxfile) (omega (arith, (w.owned maxfile (omega arith) there).0)))

  saved_same : (b : ℕ) → sb.bmapstart ≤ b → ip_saved.disk b ≡ ip.disk b
  unfolding ip_saved
  saved_same b le = same b le

  saved_bits : (b : ℕ) → b < sb.size → in_use sb d b ≡ in_use sb ip.disk b
  saved_bits b lt =
      ap (λ m. test_bit (m (b % bpb / 8)) (b % bpb % 8)) (same (bblock sb b) (omega arith))

  pub ip_saved-IsNode : IsNode sb ip_saved
  unfolding ip_saved
  ip_saved-IsNode = IsNode-same sb ip ip_saved l w own_saved saved_bits

  pub byte_saved : (x : ℕ) → x < maxfile * bsize → byte ip_saved x ≡ byte ip x
  unfolding byte
  byte_saved x lt = elim (ℕ_discrete (own ip (x / bsize)) 0) [
    | yes z ↦ rw (own_saved (x / bsize) (omega arith), z) refl
    | no y ↦
        let block : ip_saved.disk (own ip (x / bsize)) ≡ ip.disk (own ip (x / bsize)) =
          saved_same (own ip (x / bsize))
            (omega (arith, (w.owned (x / bsize) (omega arith) y).0)) in
        rw (own_saved (x / bsize) (omega arith), block) refl
  ]

  pub IsForeign-saved :
      (b : ℕ) → IsForeign sb ip b → IsForeign sb ip_saved b × (ip_saved.disk b ≡ ip.disk b)
  unfolding ip_saved
  IsForeign-saved b h =
      (IsForeign-same sb ip ip_saved b own_saved saved_bits h, same b (omega (arith, h.0.0)))

-- `ip'` is `ip` with the content `f` and the size `s`; a new size is on the disk. What is not of this
-- inode is as it was.
pub record Saved (sb : Superblock) (ip : Node) (f : ℕ → ℕ) (s : ℕ) (ip' : Node) : Type 0 where
  pub node : IsNode sb ip'
  pub content : (off : ℕ) → off < maxfile * bsize → byte ip' off ≡ f off
  pub foreign : (b : ℕ) → IsForeign sb ip b → IsForeign sb ip' b × (ip'.disk b ≡ ip.disk b)
  pub others : (b : ℕ) → b < sb.bmapstart → iblock sb ip.inum ≢ b → ip'.disk b ≡ ip.disk b
  pub other_inode :
      (i x : ℕ)
      → iblock sb i < sb.bmapstart
      → ip.inum ≢ i
      → x < 64
      → ip'.disk (iblock sb i) (dinode_at i + x) ≡ ip.disk (iblock sb i) (dinode_at i + x)
  pub fields : SameFields ip' (record ip { size = s })
  pub on_disk : ip.size ≢ s → FoundAs ip' (read_dinode sb ip'.disk ip.inum)

pub Becomes-Saved :
    (sb : Superblock) (T : ℕ → Type 0) (ip : Node) (f : ℕ → ℕ) (ip' : Node)
    → Becomes sb T ip f ip'
    → Saved sb ip f ip.size ip'
Becomes-Saved sb T ip f ip' p = record {
  node = p.node;
  content = p.content;
  foreign = p.foreign;
  others = λ b lt ne. p.meta_same b lt;
  other_inode = λ i x lt ne le. ap (λ m. m (dinode_at i + x)) (p.meta_same (iblock sb i) lt);
  fields = p.fields;
  on_disk = λ ne. absurd (ne refl);
}

own_fits :
    (sb : Superblock) (ip : Node) (k : ℕ)
    → Layout sb
    → IsNode sb ip
    → k ≤ maxfile
    → own ip k < 2 ^ 32
own_fits sb ip k l w le = elim (ℕ_discrete (own ip k) 0) [
  | yes z ↦ omega arith
  | no y ↦ omega (arith, (w.owned k le y).1, l.words)
]

addrs_fits :
    (sb : Superblock) (ip : Node) (k : ℕ)
    → Layout sb
    → IsNode sb ip
    → k ≤ ndirect
    → ip.addrs k < 2 ^ 32
addrs_fits sb ip k l w le =
    omega (arith, own_fits sb ip (place k) l w (ground arith), own-place ip k le)

-- The size is `s` from now on, on the disk too.
pub iupdate-Saved :
    (sb : Superblock) (T : ℕ → Type 0) (ip : Node) (f : ℕ → ℕ) (s : ℕ) (ip' : Node)
    → Layout sb
    → iblock sb ip.inum < sb.bmapstart
    → IsDinode ip
    → s < 2 ^ 32
    → Becomes sb T ip f ip'
    → Saved sb ip f s (iupdate sb (record ip' { size = s }))
unfolding iupdate ip_saved
iupdate-Saved sb T ip f s ip' l inodes t fits p =
    let (at, kind, major, minor, nlink, size) = p.fields in
    let ip2 : Node = record ip' { size = s } in
    let u =
      iupdate-IsUpdated sb ip2
        (IsDinode-resized ip ip' s p.fields t fits (λ k le. addrs_fits sb ip' k l p.node le)) in
    let d : Disk = (iupdate sb ip2).disk in
    let same : (b : ℕ) → sb.bmapstart ≤ b → d b ≡ ip'.disk b =
      λ b le. u.other_block b (λ e. omega (arith, e, le, inodes, at)) in
    record {
      node = ip_saved-IsNode sb ip' l p.node d s same;
      content = λ x lt. byte_saved sb ip' l p.node d s same x lt ∙ p.content x lt;
      foreign = λ b h.
          let (h1, e1) = p.foreign b h in
          let (h2, e2) = IsForeign-saved sb ip' l p.node d s same b h1 in (h2, e2 ∙ e1);
      others =
          λ b lt ne. u.other_block b (λ e. ne (ap (iblock sb) (sym at) ∙ e)) ∙ p.meta_same b lt;
      other_inode = λ i x lt ne le.
          u.other_inode i x (λ e. ne (sym at ∙ e)) le
          ∙ ap (λ m. m (dinode_at i + x)) (p.meta_same (iblock sb i) lt);
      fields = (at, kind, major, minor, nlink, refl);
      on_disk = λ ne.
          FoundAs-disk ip2 d (read_dinode sb d ip.inum)
            (subst (λ i. FoundAs ip2 (read_dinode sb d i)) at u.read_back);
    }

pub Saved-after :
    (sb : Superblock) (T : ℕ → Type 0) (a b c : Node) (f g : ℕ → ℕ) (s : ℕ)
    → Becomes sb T a f b
    → Saved sb b g s c
    → Saved sb a g s c
Saved-after sb T a b c f g s p q =
    let (at, kind, major, minor, nlink, size) = p.fields in
    record {
      node = q.node;
      content = q.content;
      foreign =
          λ x h. let (h1, e1) = p.foreign x h in let (h2, e2) = q.foreign x h1 in (h2, e2 ∙ e1);
      others = λ x lt ne. q.others x lt (λ e. ne (ap (iblock sb) (sym at) ∙ e)) ∙ p.meta_same x lt;
      other_inode = λ i x lt ne le.
          q.other_inode i x lt (λ e. ne (sym at ∙ e)) le
          ∙ ap (λ m. m (dinode_at i + x)) (p.meta_same (iblock sb i) lt);
      fields =
          let (at2, kind2, major2, minor2, nlink2, size2) = q.fields in
          (at2 ∙ at, kind2 ∙ kind, major2 ∙ major, minor2 ∙ minor, nlink2 ∙ nlink, size2);
      on_disk = λ ne.
          subst (λ i. FoundAs c (read_dinode sb c.disk i)) at (q.on_disk (λ e. ne (sym size ∙ e)));
    }

-- The content in its own words.
pub Saved-byte :
    (sb : Superblock) (a b : Node) (f : ℕ → ℕ) (s : ℕ) → Saved sb a f s b → Saved sb a (byte b) s b
Saved-byte sb a b f s p = record {
  node = p.node;
  content = λ off lt. refl;
  foreign = p.foreign;
  others = p.others;
  other_inode = p.other_inode;
  fields = p.fields;
  on_disk = p.on_disk;
}

pub IsDinode-Becomes :
    (sb : Superblock) (T : ℕ → Type 0) (a b : Node) (f : ℕ → ℕ)
    → Layout sb
    → IsDinode a
    → Becomes sb T a f b
    → IsDinode b
IsDinode-Becomes sb T a b f l t p =
    IsDinode-resized a b b.size p.fields t (omega (arith, p.fields.5, t.size_fits))
      (λ k le. addrs_fits sb b k l p.node le)
