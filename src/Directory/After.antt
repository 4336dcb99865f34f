-- ===== src/Directory/After.antt =====
-- A lookup after `dirlink`.
use osassignment.Prelude.{
  ℕ, ◌+◌, ◌-◌, ◌*◌, ◌%◌, ◌^◌, ◌≤◌, ◌<◌, ◌≡◌, ◌≢◌, ◌⊎◌, inl, inr, refl, sym, ap, ◌∙◌, subst, Bool,
  max, arith, ℕ_discrete, dec_lt, Option, none, some,
}
use osassignment.Prelude.Run.{done, Ensures, Ensures-weaken}
use osassignment.Memory.{Mem}
use osassignment.Balloc.{bsize, Superblock}
use osassignment.Names.{dirsiz}
use osassignment.Content.{Node, load16, maxfile, iblock}
use osassignment.Content.Owned.{Layout, byte}
use osassignment.Content.Store.{IsDinode}
use osassignment.Content.Map.{Needs}
use osassignment.Icache.{Inode}
use osassignment.Directory.{direntsize, dirlookup, LookupResult, absent, found, linked, dirlink}
use osassignment.Directory.Entry.{IsEntry}
use osassignment.Directory.Found.{IsEntry-cong, FoundFrom, found_inum}
use osassignment.Directory.Reading.{IsDirectory}
use osassignment.Directory.Get.{LookupOf, NoLookup, lookup-LookupOf}
use osassignment.Directory.Vacant.{IsVacant}
use osassignment.Directory.Written.{IsLinkedAt}
use osassignment.Directory.Link.{NoLink, LinkOf, LinkedTo, dirlink-LinkOf}

module _ (sb : Superblock) (name inum : ℕ) (dp dp' : Node) (mem : Mem) (w : IsDirectory sb dp)
    (nz : inum ≢ 0)
    (none_yet : (o : ℕ) → o < dp.size → o % direntsize ≡ 0 → ¬ (IsEntry (byte dp) o mem name)) where
  linked-IsDirectory : LinkedTo sb name inum dp mem dp' → IsDirectory sb dp'
  linked-IsDirectory (o, v, (at, s)) =
      let (n, kind, major, minor, nlink, size) = s.fields in
      record {
        node = s.node;
        kind_dir = kind ∙ w.kind_dir;
        small = omega (arith, size, w.small, at.fits_at);
        entries = omega (arith, size, w.entries, v.aligned);
      }

  linked_bytes :
      ((x : ℕ) → x < maxfile * bsize → byte dp x < 256)
      → LinkedTo sb name inum dp mem dp'
      → (x : ℕ) → x < maxfile * bsize
      → byte dp' x < 256
  linked_bytes content (o, v, (at, s)) x lt = elim (dec_lt x o) [
    | yes before ↦ omega (arith, at.others x lt (inl before), content x lt)
    | no from ↦ elim (dec_lt x (o + direntsize)) [
      | yes inside ↦
          let index : o + (x - o) ≡ x = omega arith in
          omega (arith, at.byte_at (x - o) (omega arith), ap (byte dp') index)
      | no after ↦ omega (arith, at.others x lt (inr (omega arith)), content x lt)
    ]
  ]

  -- An entry with the name is the new one.
  linked_found :
      (o : ℕ) (r : Option (ℕ × ℕ) × Node × Mem)
      → IsVacant (byte dp) dp.size 0 o
      → IsLinkedAt (byte dp) (byte dp') mem name inum o
      → dp'.size ≡ max dp.size (o + direntsize)
      → FoundFrom (byte dp') dp'.size mem name 0 r.0
      → found_inum r.0 ≡ some inum
  linked_found o (none, d, m) v at size h = absurd (
      h o (omega arith) (omega (arith, size)) v.aligned
        ((λ z. nz (sym at.inum_at ∙ z)), at.name_at))
  linked_found o (some (i, y), d, m) v at size (from, lt, even, is, entry, before) =
      elim (ℕ_discrete o y) [
        | yes e ↦ ap some (is ∙ ap (load16 (byte dp')) (sym e) ∙ at.inum_at)
        | no ne ↦ absurd (
            none_yet y (omega (arith, size, lt, ne, even, v.aligned, v.inside)) even (
              IsEntry-cong (byte dp') (byte dp) y mem mem name
                (λ i small.
                  at.others (y + i)
                    (omega
                      (arith, small, size, lt, even, w.small, w.entries, v.aligned, at.fits_at))
                    (omega (arith, small, ne, even, v.aligned)))
                (λ i small. refl) entry))
      ]

-- The inode number of the inode that `dirlookup` returns.
abbrev pub looked_inum : LookupResult → Option ℕ
looked_inum (absent dp mem) = none
looked_inum (found slot off dp mem ic) = some (ic slot).inum

module _ (sb : Superblock) (has : ℕ → Bool) (name inum de : ℕ) (l : Layout sb)
    (apart : (name + dirsiz ≤ de) ⊎ (de + direntsize ≤ name)) (fits : inum < 2 ^ 16)
    (nz : inum ≢ 0) where
  linked-lookup :
      (dev : ℕ) (dp dp' : Node) (mem : Mem) (ic ic' : ℕ → Inode)
      → IsDirectory sb dp
      → ((x : ℕ) → x < maxfile * bsize → byte dp x < 256)
      → ((x : ℕ) → mem x < 256)
      → LinkOf sb dev name inum dp mem ic (linked dp')
      → Ensures
          (NoLookup sb (Needs 0 dp'.size) dev name dp' mem ic')
          (λ r. looked_inum r ≡ some inum)
          (dirlookup sb has dev name de dp' mem ic')
  linked-lookup dev dp dp' mem ic ic' w content bytes (none_yet, (o, v, (at, s))) =
      Ensures-weaken (NoLookup sb (Needs 0 dp'.size) dev name dp' mem ic')
        (NoLookup sb (Needs 0 dp'.size) dev name dp' mem ic')
        (LookupOf sb (Needs 0 dp'.size) dev name de dp' mem ic') _ _
        (lookup-LookupOf sb (Needs 0 dp'.size) has dev name de ic' dp' mem l apart
          (linked-IsDirectory sb name inum dp dp' mem w nz none_yet (o, v, (at, s)))
          (linked_bytes sb name inum dp dp' mem w nz none_yet content (o, v, (at, s))) bytes
          (λ k h. h))
        (λ why. why) is_found
    where
      is_found :
          (r : LookupResult)
          → LookupOf sb (Needs 0 dp'.size) dev name de dp' mem ic' r
          → looked_inum r ≡ some inum
      is_found (absent d m) q =
          linked_found sb name inum dp dp' mem w nz none_yet o (none, d, m) v at s.fields.5 q.0
      is_found (found slot y d m c) q =
          linked_found sb name inum dp dp' mem w nz none_yet o (some ((c slot).inum, y), d, m) v at
            s.fields.5 q.0.0

  -- As for `dirlink`, with an inode number that is not 0: where `dirlink` has returned 0,
  -- `dirlookup` of the name, with any inode cache, returns an inode of that number. Apart from the panics of `log_write`, it panics only if
  -- the directory has a hole and the disk is full, with at most its own holes filled, or if the
  -- cache has no room for the inode.
  pub dirlookup-dirlink :
      (dev : ℕ) (dp dp' : Node) (mem : Mem) (ic ic' : ℕ → Inode)
      → iblock sb dp.inum < sb.bmapstart
      → IsDinode dp
      → IsDirectory sb dp
      → ((x : ℕ) → x < maxfile * bsize → byte dp x < 256)
      → ((x : ℕ) → mem x < 256)
      → dirlink sb has dev name inum de dp mem ic ≡ done (linked dp')
      → Ensures
          (NoLookup sb (Needs 0 dp'.size) dev name dp' mem ic')
          (λ r. looked_inum r ≡ some inum)
          (dirlookup sb has dev name de dp' mem ic')
  dirlookup-dirlink dev dp dp' mem ic ic' inodes t w content bytes e =
      linked-lookup dev dp dp' mem ic ic' w content bytes (
        subst (Ensures (NoLink sb dev name dp mem ic) (LinkOf sb dev name inum dp mem ic)) e
          (dirlink-LinkOf sb has name inum de l apart fits dev dp mem ic inodes t w content bytes))
