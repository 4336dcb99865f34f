-- ===== src/Directory/Get.antt =====
-- `dirlookup`.
use osassignment.Prelude.{
  ℕ, ◌+◌, ◌*◌, ◌≤◌, ◌<◌, ◌≡◌, ◌≢◌, ◌⊎◌, inl, inr, refl, sym, ap, subst, ◌∙◌, Bool, false, arith,
  Option, none, some,
}
use osassignment.Prelude.Table.{update_self}
use osassignment.Prelude.Run.{Ensures, Ensures-bind}
use osassignment.Memory.{Mem}
use osassignment.Balloc.{bsize, Superblock}
use osassignment.Names.{dirsiz}
use osassignment.Icache.{
  Inode, ninode, is_cached, take_slot, scan, iget, Slot, cached, recycled, full,
}
use osassignment.Icache.Scan.{Found, scan-Found}
use osassignment.Content.{Node, load16, maxfile}
use osassignment.Content.Owned.{Layout, byte}
use osassignment.Content.Map.{FullOn, Needs}
use osassignment.Directory.{
  direntsize, find_entry, dirlookup, get_entry, found_at, LookupResult, absent, found,
}
use osassignment.Directory.Entry.{IsEntry}
use osassignment.Directory.Reading.{IsDirectory}
use osassignment.Directory.Lookup.{Looked, find_entry-Looked}

-- No entry of the cache is free or for the inode.
abbrev pub NoInodes : ℕ → ℕ → (ℕ → Inode) → Type 0
NoInodes dev inum ic = (j : ℕ) → j < ninode → ((ic j).ref ≢ 0) × (is_cached dev inum (ic j) ≡ false)

-- What `iget` returns.
abbrev pub Got : ℕ → ℕ → (ℕ → Inode) → Option (ℕ × (ℕ → Inode)) → Type 0
Got dev inum ic none = NoInodes dev inum ic
Got dev inum ic (some (i, ic')) = (i < ninode) × ((ic' i).dev ≡ dev) × ((ic' i).inum ≡ inum)

take_slot-Got :
    (dev inum : ℕ) (ic : ℕ → Inode) (s : Slot)
    → Found dev inum ic ninode s
    → Got dev inum ic (take_slot dev inum ic s)
take_slot-Got dev inum ic (cached i) (lt, e) =
    let at = update_self ic i _ in
    (lt, ap (λ p. p.dev) at ∙ ground (arith, e), ap (λ p. p.inum) at ∙ ground (arith, e))
take_slot-Got dev inum ic (recycled i) (lt, z, all) =
    let at = update_self ic i _ in (lt, ap (λ p. p.dev) at, ap (λ p. p.inum) at)
take_slot-Got dev inum ic full h = λ j lt. (ground (arith, h j lt), (h j lt).1)

pub iget-Got : (dev inum : ℕ) (ic : ℕ → Inode) → Got dev inum ic (iget dev inum ic)
unfolding iget
iget-Got dev inum ic = take_slot-Got dev inum ic (scan dev inum ic 0 ninode none) (
    scan-Found dev inum ic 0 ninode ninode none refl (λ j lt. absurd (omega arith))
      (λ j lt. absurd (omega arith)))

-- The result of `dirlookup`: there is no entry in use with the name, or the first one is at `off`, and
-- its inode is at `slot`.
abbrev pub LookupOf :
    Superblock → (ℕ → Type 0) → ℕ → ℕ → ℕ → Node → Mem → (ℕ → Inode) → LookupResult → Type 0
LookupOf sb T dev name de dp mem ic (absent dp' mem') =
    Looked sb T name de 0 dp mem (none, dp', mem')
LookupOf sb T dev name de dp mem ic (found slot off dp' mem' ic') =
    Looked sb T name de 0 dp mem (some ((ic' slot).inum, off), dp', mem')
    × (slot < ninode)
    × ((ic' slot).dev ≡ dev)
    × (iget dev (load16 (byte dp) off) ic ≡ some (slot, ic'))

-- Why `dirlookup` may panic: a block of the directory is missing on a full disk, or the cache has no
-- room for the inode of the entry.
abbrev pub NoLookup : Superblock → (ℕ → Type 0) → ℕ → ℕ → Node → Mem → (ℕ → Inode) → Type 0
NoLookup sb T dev name dp mem ic =
    FullOn sb T dp
    ⊎ ((o : ℕ) × (o < dp.size)
        × IsEntry (byte dp) o mem name
        × NoInodes dev (load16 (byte dp) o) ic)

module _ (sb : Superblock) (T : ℕ → Type 0) (has : ℕ → Bool) (dev name de : ℕ)
    (ic : ℕ → Inode) where
  found_at-LookupOf :
      (inum off : ℕ) (dp dp' : Node) (mem mem' : Mem) (g : Option (ℕ × (ℕ → Inode)))
      → Looked sb T name de 0 dp mem (some (inum, off), dp', mem')
      → Got dev inum ic g
      → iget dev inum ic ≡ g
      → Ensures
          (NoLookup sb T dev name dp mem ic)
          (LookupOf sb T dev name de dp mem ic)
          (found_at off dp' mem' g)
  unfolding found_at
  found_at-LookupOf inum off dp dp' mem mem' none h n e =
      inr (off, h.0.1, h.0.4, subst (λ z. NoInodes dev z ic) h.0.3 n)
  found_at-LookupOf inum off dp dp' mem mem' (some (slot, ic')) h n e = (
    subst (λ z. Looked sb T name de 0 dp mem (some (z, off), dp', mem')) (sym n.2) h,
    n.0,
    n.1,
    subst (λ z. iget dev z ic ≡ some (slot, ic')) h.0.3 e,
  )

  get_entry-LookupOf :
      (dp : Node) (mem : Mem) (r : Option (ℕ × ℕ) × Node × Mem)
      → Looked sb T name de 0 dp mem r
      → Ensures
          (NoLookup sb T dev name dp mem ic)
          (LookupOf sb T dev name de dp mem ic)
          (get_entry dev ic r)
  unfolding get_entry
  get_entry-LookupOf dp mem (none, dp', mem') h = h
  get_entry-LookupOf dp mem (some (inum, off), dp', mem') h =
      found_at-LookupOf inum off dp dp' mem mem' (iget dev inum ic) h (iget-Got dev inum ic) refl

  pub lookup-LookupOf :
      (dp : Node) (mem : Mem)
      → Layout sb
      → (name + dirsiz ≤ de) ⊎ (de + direntsize ≤ name)
      → IsDirectory sb dp
      → ((x : ℕ) → x < maxfile * bsize → byte dp x < 256)
      → ((x : ℕ) → mem x < 256)
      → ((k : ℕ) → Needs 0 dp.size k → T k)
      → Ensures
          (NoLookup sb T dev name dp mem ic)
          (LookupOf sb T dev name de dp mem ic)
          (dirlookup sb has dev name de dp mem ic)
  unfolding dirlookup
  lookup-LookupOf dp mem l apart w content bytes cov =
      Ensures-bind (FullOn sb T dp) (NoLookup sb T dev name dp mem ic)
        (Looked sb T name de 0 dp mem) (LookupOf sb T dev name de dp mem ic)
        (find_entry sb has name de dp mem) (get_entry dev ic)
        (find_entry-Looked sb T has name de l apart dp mem w content bytes cov) inl
        (λ r h. get_entry-LookupOf dp mem r h)

-- On a disk with the layout of mkfs, for a directory whose blocks are its own, of a size up to the
-- greatest and a multiple of that of an entry, where all is bytes and the buffer does not meet the
-- name: `dirlookup` does not run out of rounds. Apart from the panics of `log_write`, it panics only if the directory has a hole and the
-- disk is full, with at most its own holes filled, or if there is an entry with the name and the
-- inode cache has no room for its inode. Otherwise there is no entry in use with that name, or it
-- returns the offset of the first one and its inode, from `iget`. The content of the directory is as
-- it was, no blocks but those of holes are new, and of the memory only the buffer changes.
pub dirlookup-LookupOf :
    (sb : Superblock) (has : ℕ → Bool) (dev name de : ℕ) (dp : Node) (mem : Mem) (ic : ℕ → Inode)
    → Layout sb
    → (name + dirsiz ≤ de) ⊎ (de + direntsize ≤ name)
    → IsDirectory sb dp
    → ((x : ℕ) → x < maxfile * bsize → byte dp x < 256)
    → ((x : ℕ) → mem x < 256)
    → Ensures
        (NoLookup sb (Needs 0 dp.size) dev name dp mem ic)
        (LookupOf sb (Needs 0 dp.size) dev name de dp mem ic)
        (dirlookup sb has dev name de dp mem ic)
dirlookup-LookupOf sb has dev name de dp mem ic l apart w content bytes =
    lookup-LookupOf sb (Needs 0 dp.size) has dev name de ic dp mem l apart w content bytes
      (λ k h. h)
