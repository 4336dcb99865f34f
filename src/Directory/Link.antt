-- ===== src/Directory/Link.antt =====
-- `dirlink`.
use osassignment.Prelude.{
  max, subst, ℕ, suc, ◌+◌, ◌*◌, ◌%◌, ◌^◌, ◌≤◌, ◌<◌, ◌≡◌, ◌⊎◌, inl, inr, sym, ◌∙◌, Bool, arith, some,
}
use osassignment.Prelude.Run.{Ensures, Ensures-bind, Ensures-weaken}
use osassignment.Memory.{Mem}
use osassignment.Balloc.{bsize, Superblock}
use osassignment.Names.{dirsiz}
use osassignment.Content.{Node, load16, maxfile, iblock}
use osassignment.Content.Owned.{Layout, byte}
use osassignment.Content.Store.{IsDinode}
use osassignment.Content.Becomes.{Becomes-mono, Becomes}
use osassignment.Content.Map.{FullOn, FullOn-trans, FullOn-mono, Needs, Needs-mono}
use osassignment.Content.Save.{Saved, IsDinode-Becomes, Saved-after}
use osassignment.Directory.{
  direntsize, link_new, empty_loop, LookupResult, absent, found, dirlookup, LinkResult, present,
  linked, after_lookup, dirlink,
}
use osassignment.Directory.Entry.{IsEntry, padded-shift}
use osassignment.Directory.Reading.{IsDirectory, IsDirectory-Becomes}
use osassignment.Directory.Get.{LookupOf, NoLookup, NoInodes, lookup-LookupOf}
use osassignment.Icache.{Inode, ninode, iget}
use osassignment.Directory.Vacant.{IsVacant, IsVacant-cong, Vacated, empty_loop-Vacated}
use osassignment.Directory.Placed.{Placed, link_at-Placed}

-- There is no room for a new entry. The directory has a hole on a full disk; or the first vacant entry
-- is at `o`, and its block is missing on a full disk, or it is behind the end of the greatest size.
abbrev pub NoRoom : Superblock → Node → Type 0
NoRoom sb dp =
    FullOn sb (Needs 0 dp.size) dp
    ⊎ ((o : ℕ) × IsVacant (byte dp) dp.size 0 o
        × (FullOn sb (Needs 0 (max dp.size (o + direntsize))) dp
            ⊎ (maxfile * bsize < o + direntsize)))

IsVacant-before :
    (sb : Superblock) (T : ℕ → Type 0) (a b : Node) (o : ℕ)
    → IsDirectory sb a
    → Becomes sb T a (byte a) b
    → IsVacant (byte b) b.size 0 o
    → IsVacant (byte a) a.size 0 o
IsVacant-before sb T a b o w p v =
    IsVacant-cong (byte b) (byte a) a.size 0 o w.entries
      (λ i lt. p.content i (omega (arith, lt, w.small)))
      (subst (λ z. IsVacant (byte b) z 0 o) p.fields.5 v)

-- The disk is full for `b`, which has some of the holes of `a` filled.
FullOn-before :
    (sb : Superblock) (s : ℕ) (a b : Node)
    → a.size ≤ s
    → Becomes sb (Needs 0 a.size) a (byte a) b
    → FullOn sb (Needs 0 s) b
    → FullOn sb (Needs 0 s) a
FullOn-before sb s a b le p full =
    FullOn-trans sb (Needs 0 s) a b (byte a)
      (Becomes-mono sb (Needs 0 a.size) (Needs 0 s) a b (byte a)
        (Needs-mono 0 a.size 0 s (omega arith) (omega arith)) p)
      full

NoRoom-Becomes :
    (sb : Superblock) (a b : Node)
    → IsDirectory sb a
    → Becomes sb (Needs 0 a.size) a (byte a) b
    → NoRoom sb b
    → NoRoom sb a
NoRoom-Becomes sb a b w p (inl full) = inl (
    FullOn-before sb a.size a b (omega arith) p
      (subst (λ z. FullOn sb (Needs 0 z) b) p.fields.5 full))
NoRoom-Becomes sb a b w p (inr (o, v, inl full)) = inr (
  o,
  IsVacant-before sb (Needs 0 a.size) a b o w p v,
  inl (
      FullOn-before sb (max a.size (o + direntsize)) a b (omega arith) p
        (subst (λ z. FullOn sb (Needs 0 (max z (o + direntsize))) b) p.fields.5 full)),
)
NoRoom-Becomes sb a b w p (inr (o, v, inr big)) =
    inr (o, IsVacant-before sb (Needs 0 a.size) a b o w p v, inr big)

-- The first vacant entry, written.
abbrev pub LinkedTo : Superblock → ℕ → ℕ → Node → Mem → Node → Type 0
LinkedTo sb name inum dp mem dp' =
    (o : ℕ) × IsVacant (byte dp) dp.size 0 o × Placed sb name inum o dp mem dp'

LinkedTo-Becomes :
    (sb : Superblock) (T : ℕ → Type 0) (name inum : ℕ) (a b c : Node) (mem k : Mem)
    → IsDirectory sb a
    → Becomes sb T a (byte a) b
    → ((i : ℕ) → i < dirsiz → k (name + i) ≡ mem (name + i))
    → LinkedTo sb name inum b k c
    → LinkedTo sb name inum a mem c
LinkedTo-Becomes sb T name inum a b c mem k w p names (o, v, (at, s)) = (
  o,
  IsVacant-before sb T a b o w p v,
  (
    record {
      inum_at = at.inum_at;
      fits_at = at.fits_at;
      byte_at = at.byte_at;
      name_at = λ j lt.
          padded-shift j mem k name name (λ i le. sym (names i (omega arith))) ∙ at.name_at j lt;
      others = λ x lt out. at.others x lt out ∙ p.content x lt;
    },
    Saved-after sb T a b c (byte a) (byte c) _ p
        (subst (λ z. Saved sb b (byte c) (max z (o + direntsize)) c) p.fields.5 s),
  ),
)

-- Why `dirlink` may panic: there is no room for the entry, or the directory has an entry with the
-- name and the cache has no room for its inode.
abbrev pub NoLink : Superblock → ℕ → ℕ → Node → Mem → (ℕ → Inode) → Type 0
NoLink sb dev name dp mem ic =
    NoRoom sb dp
    ⊎ ((o : ℕ) × (o < dp.size)
        × IsEntry (byte dp) o mem name
        × NoInodes dev (load16 (byte dp) o) ic)

-- What `dirlink` does.
abbrev pub LinkOf : Superblock → ℕ → ℕ → ℕ → Node → Mem → (ℕ → Inode) → LinkResult → Type 0
LinkOf sb dev name inum dp mem ic (present slot dp' ic') =
    ((o : ℕ) × (o < dp.size)
      × (o % direntsize ≡ 0)
      × IsEntry (byte dp) o mem name
      × (slot < ninode)
      × ((ic' slot).dev ≡ dev)
      × ((ic' slot).inum ≡ load16 (byte dp) o)
      × (iget dev (load16 (byte dp) o) ic ≡ some (slot, ic')))
    × Becomes sb (Needs 0 dp.size) dp (byte dp) dp'
LinkOf sb dev name inum dp mem ic (linked dp') =
    ((o : ℕ) → o < dp.size → o % direntsize ≡ 0 → ¬ (IsEntry (byte dp) o mem name))
    × LinkedTo sb name inum dp mem dp'

module _ (sb : Superblock) (has : ℕ → Bool) (name inum de : ℕ) (l : Layout sb)
    (apart : (name + dirsiz ≤ de) ⊎ (de + direntsize ≤ name)) (fits : inum < 2 ^ 16) where
  link_new-LinkedTo :
      (dp : Node) (mem : Mem)
      → iblock sb dp.inum < sb.bmapstart
      → IsDinode dp
      → IsDirectory sb dp
      → ((i : ℕ) → i < dirsiz → mem (name + i) < 256)
      → Ensures (NoRoom sb dp) (LinkedTo sb name inum dp mem) (link_new sb has name inum de dp mem)
  unfolding link_new
  link_new-LinkedTo dp mem inodes t w low =
      Ensures-bind (FullOn sb (Needs 0 dp.size) dp) (NoRoom sb dp)
        (Vacated sb (Needs 0 dp.size) de 0 dp mem) (LinkedTo sb name inum dp mem)
        (empty_loop (suc dp.size) sb has de 0 dp mem) _
        (empty_loop-Vacated (suc dp.size) sb (Needs 0 dp.size) has de 0 dp mem l w (omega arith)
          (omega arith) (omega arith) (λ k h. h))
        inl
        (λ (o, dp1, mem1) (v, p, outside).
          Ensures-weaken (FullOn sb (Needs o direntsize) dp1 ⊎ (maxfile * bsize < o + direntsize))
            (NoRoom sb dp) (Placed sb name inum o dp1 mem1) (LinkedTo sb name inum dp mem) _
            (link_at-Placed sb has name inum de o dp1 mem1 l (omega (arith, inodes, p.fields.0))
              (IsDinode-Becomes sb (Needs 0 dp.size) dp dp1 (byte dp) l t p)
              (IsDirectory-Becomes sb (Needs 0 dp.size) dp dp1 (byte dp) w p) apart
              (λ i lt. omega (arith, outside (name + i) (omega arith), low i lt)) fits
              (omega (arith, v.inside, p.fields.5)))
            (λ why. no_room dp dp1 o v p why)
            (λ dp2 q.
              LinkedTo-Becomes sb (Needs 0 dp.size) name inum dp dp1 dp2 mem mem1 w p
                (λ i lt. outside (name + i) (omega arith)) (o, vacant_after dp dp1 o w v p, q)))
    where
      no_room :
          (dp dp1 : Node) (o : ℕ)
          → IsVacant (byte dp) dp.size 0 o
          → Becomes sb (Needs 0 dp.size) dp (byte dp) dp1
          → FullOn sb (Needs o direntsize) dp1 ⊎ (maxfile * bsize < o + direntsize)
          → NoRoom sb dp
      no_room dp dp1 o v p (inl full) = inr (
        o,
        v,
        inl (
            FullOn-before sb (max dp.size (o + direntsize)) dp dp1 (omega arith) p (
              FullOn-mono sb (Needs o direntsize) (Needs 0 (max dp.size (o + direntsize))) dp1
                (Needs-mono o direntsize 0 (max dp.size (o + direntsize)) (omega arith)
                  (omega arith))
                full)),
      )
      no_room dp dp1 o v p (inr big) = inr (o, v, inr big)

      vacant_after :
          (dp dp1 : Node) (o : ℕ)
          → IsDirectory sb dp
          → IsVacant (byte dp) dp.size 0 o
          → Becomes sb (Needs 0 dp.size) dp (byte dp) dp1
          → IsVacant (byte dp1) dp1.size 0 o
      vacant_after dp dp1 o w v p =
          subst (λ z. IsVacant (byte dp1) z 0 o) (sym p.fields.5)
            (IsVacant-cong (byte dp) (byte dp1) dp.size 0 o w.entries
              (λ i lt. sym (p.content i (omega (arith, lt, w.small)))) v)

  pub dirlink-LinkOf :
      (dev : ℕ) (dp : Node) (mem : Mem) (ic : ℕ → Inode)
      → iblock sb dp.inum < sb.bmapstart
      → IsDinode dp
      → IsDirectory sb dp
      → ((x : ℕ) → x < maxfile * bsize → byte dp x < 256)
      → ((x : ℕ) → mem x < 256)
      → Ensures
          (NoLink sb dev name dp mem ic)
          (LinkOf sb dev name inum dp mem ic)
          (dirlink sb has dev name inum de dp mem ic)
  unfolding dirlink after_lookup
  dirlink-LinkOf dev dp mem ic inodes t w content bytes =
      Ensures-bind (NoLookup sb (Needs 0 dp.size) dev name dp mem ic) (NoLink sb dev name dp mem ic)
        (LookupOf sb (Needs 0 dp.size) dev name de dp mem ic) (LinkOf sb dev name inum dp mem ic)
        (dirlookup sb has dev name de dp mem ic) (after_lookup sb has name inum de)
        (lookup-LookupOf sb (Needs 0 dp.size) has dev name de ic dp mem l apart w content bytes
          (λ k h. h))
        no_link after
    where
      no_link : NoLookup sb (Needs 0 dp.size) dev name dp mem ic → NoLink sb dev name dp mem ic
      no_link (inl full) = inl (inl full)
      no_link (inr none_left) = inr none_left

      after :
          (r : LookupResult)
          → LookupOf sb (Needs 0 dp.size) dev name de dp mem ic r
          → Ensures
              (NoLink sb dev name dp mem ic)
              (LinkOf sb dev name inum dp mem ic)
              (after_lookup sb has name inum de r)
      after (found slot o dp1 mem1 ic1) ((h, p, outside, low), s, d, g) =
          ((o, h.1, h.2, h.4, s, d, h.3, g), p)
      after (absent dp1 mem1) (h, p, outside, low) =
          Ensures-bind (NoRoom sb dp1) (NoLink sb dev name dp mem ic)
            (LinkedTo sb name inum dp1 mem1) (LinkOf sb dev name inum dp mem ic)
            (link_new sb has name inum de dp1 mem1) _
            (link_new-LinkedTo dp1 mem1 (omega (arith, inodes, p.fields.0))
              (IsDinode-Becomes sb (Needs 0 dp.size) dp dp1 (byte dp) l t p)
              (IsDirectory-Becomes sb (Needs 0 dp.size) dp dp1 (byte dp) w p)
              (λ i lt. low (name + i)))
            (λ z. inl (NoRoom-Becomes sb dp dp1 w p z))
            (λ dp2 q. (
              λ o lt even. h o (omega arith) lt even,
              LinkedTo-Becomes sb (Needs 0 dp.size) name inum dp dp1 dp2 mem mem1 w p
                  (λ i lt. outside (name + i) (omega arith)) q,
            ))
