-- ===== src/Content/Block.antt =====
-- The inode after bytes of one of its data blocks have changed.
use osassignment.Prelude.{
  ℕ, ◌+◌, ◌-◌, ◌*◌, ◌/◌, ◌%◌, ◌≤◌, ◌<◌, ◌≡◌, ◌≢◌, inl, refl, sym, ap, ◌∙◌, true, ◌&&◌, ltb, leb,
  if◌then◌else◌, arith, ℕ_discrete, ==_ne,
}
use osassignment.Prelude.Bits.{test_bit}
use osassignment.Prelude.Table.{update, update_self, update_ne}
use osassignment.Memory.{Mem}
use osassignment.Balloc.{bsize, bpb, Superblock, bblock}
use osassignment.Balloc.Bitmap.{in_use}
use osassignment.Content.{maxfile, Node, copy_bytes}
use osassignment.Content.Copy.{copy_bytes_lem}
use osassignment.Content.Owned.{
  IsNode-same, IsForeign-same, own-kept, Layout, own, IsData, IsNode, byte, bblock-lt,
}
use osassignment.Content.Becomes.{Becomes}

-- The content `f` with the `n` bytes from `off` on taken from those at `src` in `mem`.
abbrev pub written : ℕ → ℕ → ℕ → Mem → (ℕ → ℕ) → ℕ → ℕ
written n off src mem f x = if leb off x && ltb x (off + n) then mem (src + (x - off)) else f x

module _ (sb : Superblock) (ip : Node) (w : IsNode sb ip) (off m src : ℕ) (mem : Mem)
    (small : off / bsize < maxfile) (fits : off % bsize + m ≤ bsize)
    (nz : own ip (off / bsize) ≢ 0) where
  unfoldable pub ip_block : Node
  ip_block = record ip {
    disk =
        update ip.disk (own ip (off / bsize))
          (copy_bytes m mem src (ip.disk (own ip (off / bsize))) (off % bsize));
  }

  block_data : IsData sb ip.disk (own ip (off / bsize))
  block_data = w.owned (off / bsize) (omega arith) nz

  block_other : (b : ℕ) → own ip (off / bsize) ≢ b → ip_block.disk b ≡ ip.disk b
  unfolding ip_block
  block_other b ne = update_ne ip.disk (own ip (off / bsize)) b _ ne

  -- The block is not the indirect one.
  own_block : (k : ℕ) → k ≤ maxfile → own ip_block k ≡ own ip k
  unfolding ip_block
  own_block k le = own-kept ip _ ip.size k (λ there.
      block_other (own ip maxfile)
        (λ e. omega (arith, small, w.apart (off / bsize) maxfile (omega arith) (omega arith) nz e)))

  block_bits : (b : ℕ) → b < sb.size → in_use sb ip_block.disk b ≡ in_use sb ip.disk b
  block_bits b lt =
      ap (λ d. test_bit (d (b % bpb / 8)) (b % bpb % 8))
        (block_other (bblock sb b) (λ e. omega (arith, e, block_data.0, bblock-lt sb b lt)))

  block_self :
      (x : ℕ)
      → x / bsize ≡ off / bsize
      → ip_block.disk (own ip (off / bsize)) (x % bsize)
        ≡ written m off src mem (λ y. ip.disk (own ip (off / bsize)) (x % bsize)) x
  unfolding ip_block
  block_self x e =
      let delta : leb off x ≡ true → x % bsize - off % bsize ≡ x - off =
        λ h. ground (arith, h, e) in
      ap (λ d. d (x % bsize)) (update_self ip.disk (own ip (off / bsize)) _)
      ∙ copy_bytes_lem m mem src (ip.disk (own ip (off / bsize))) (off % bsize) (x % bsize)
      ∙ ground (arith, e, delta)

  block_content :
      (x : ℕ) → x < maxfile * bsize → byte ip_block x ≡ written m off src mem (byte ip) x
  unfolding byte
  block_content x lt = elim (ℕ_discrete (x / bsize) (off / bsize)) [
    | yes e ↦ rw (own_block (x / bsize) (omega arith), e, ==_ne _ 0 nz) (block_self x e)
    | no ne ↦ rw (own_block (x / bsize) (omega arith)) (elim (ℕ_discrete (own ip (x / bsize)) 0) [
      | yes z ↦ rw z (outside x ne 0)
      | no y ↦
          rw
            (
              ==_ne _ 0 y,
              block_other (own ip (x / bsize)) (λ f.
                  ne (sym (w.apart (off / bsize) (x / bsize) (omega arith) (omega arith) nz f))),
            )
            (outside x ne (ip.disk (own ip (x / bsize)) (x % bsize)))
    ])
  ]
    where
      outside :
          (x : ℕ)
          → x / bsize ≢ off / bsize
          → (v : ℕ) → v ≡ (if leb off x && ltb x (off + m) then mem (src + (x - off)) else v)
      outside x ne v = ground arith

  pub block-Becomes :
      (T : ℕ → Type 0) → Layout sb → Becomes sb T ip (written m off src mem (byte ip)) ip_block
  unfolding ip_block
  block-Becomes T l = record {
    node = IsNode-same sb ip ip_block l w own_block block_bits;
    content = block_content;
    foreign = λ b h. (
      IsForeign-same sb ip ip_block b own_block block_bits h,
      block_other b (h.1 (off / bsize) (omega arith)),
    );
    meta_same = λ b lt. block_other b (λ e. omega (arith, e, lt, block_data.0));
    kept = λ k le ne. own_block k le;
    only = λ b lt h. inl (sym (block_bits b lt) ∙ h);
    grown = λ k le ne. absurd (ne (own_block k le));
    fields = (refl, refl, refl, refl, refl, refl);
  }
