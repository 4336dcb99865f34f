-- ===== src/Directory/Placed.antt =====
-- The entry that `link_at` puts in its place.
use osassignment.Prelude.{ℕ, ◌+◌, ◌*◌, ◌^◌, ◌≤◌, ◌<◌, ◌⊎◌, inl, inr, Bool, max, arith}
use osassignment.Prelude.Run.{Ensures, Ensures-bind, Ensures-weaken}
use osassignment.Memory.{Mem}
use osassignment.Balloc.{bsize, Superblock}
use osassignment.Names.{dirsiz}
use osassignment.Content.{Node, Io, failed, device, moved, maxfile, writei, iblock}
use osassignment.Content.Owned.{Layout, byte}
use osassignment.Content.Store.{IsDinode}
use osassignment.Content.Map.{FullOn, Needs}
use osassignment.Content.Save.{Saved, Saved-byte}
use osassignment.Content.Write.{WriteiOf, writei-WriteiOf}
use osassignment.Directory.{direntsize, whole, link_at}
use osassignment.Directory.Reading.{IsDirectory}
use osassignment.Directory.Written.{entry_bytes, IsLinkedAt, written-IsLinkedAt}

-- The entry has been written, and with it perhaps the size.
abbrev pub Placed : Superblock → ℕ → ℕ → ℕ → Node → Mem → Node → Type 0
Placed sb name inum o dp mem dp' =
    IsLinkedAt (byte dp) (byte dp') mem name inum o
    × Saved sb dp (byte dp') (max dp.size (o + direntsize)) dp'

WriteiOf-Placed :
    (sb : Superblock) (has : ℕ → Bool) (name inum de o : ℕ) (dp : Node) (mem : Mem) (r : Io Node)
    → IsDirectory sb dp
    → (name + dirsiz ≤ de) ⊎ (de + direntsize ≤ name)
    → ((i : ℕ) → i < dirsiz → mem (name + i) < 256)
    → inum < 2 ^ 16
    → o ≤ dp.size
    → WriteiOf sb has de o direntsize (entry_bytes mem name inum de) dp r
    → Ensures (maxfile * bsize < o + direntsize) (Placed sb name inum o dp mem) (whole r)
unfolding whole
WriteiOf-Placed sb has name inum de o dp mem failed w apart low fits le (inl (dev, none_there)) =
    absurd (omega (arith, dev, w.kind_dir))
WriteiOf-Placed sb has name inum de o dp mem failed w apart low fits le (inr (file, inl past)) =
    absurd (omega arith)
WriteiOf-Placed sb has name inum de o dp mem failed w apart low fits le (inr (file, inr big)) = big
WriteiOf-Placed sb has name inum de o dp mem (device d) w apart low fits le
      (dev, at, below, there) =
    absurd (omega (arith, dev, w.kind_dir))
WriteiOf-Placed sb has name inum de o dp mem (moved n dp') w apart low fits le
      (file, inside, small, all, s) =
    rw all (
      written-IsLinkedAt (byte dp) (byte dp') mem name inum de o apart low fits small s.content,
      Saved-byte sb dp dp' _ (max dp.size (o + direntsize)) s,
    )

pub link_at-Placed :
    (sb : Superblock) (has : ℕ → Bool) (name inum de o : ℕ) (dp : Node) (mem : Mem)
    → Layout sb
    → iblock sb dp.inum < sb.bmapstart
    → IsDinode dp
    → IsDirectory sb dp
    → (name + dirsiz ≤ de) ⊎ (de + direntsize ≤ name)
    → ((i : ℕ) → i < dirsiz → mem (name + i) < 256)
    → inum < 2 ^ 16
    → o ≤ dp.size
    → Ensures
        (FullOn sb (Needs o direntsize) dp ⊎ (maxfile * bsize < o + direntsize))
        (Placed sb name inum o dp mem)
        (link_at sb has name inum de o dp mem)
unfolding link_at
link_at-Placed sb has name inum de o dp mem l inodes t w apart low fits le =
    Ensures-bind (FullOn sb (Needs o direntsize) dp)
      (FullOn sb (Needs o direntsize) dp ⊎ (maxfile * bsize < o + direntsize))
      (WriteiOf sb has de o direntsize (entry_bytes mem name inum de) dp)
      (Placed sb name inum o dp mem)
      (writei sb has de o direntsize (entry_bytes mem name inum de) dp) whole
      (writei-WriteiOf sb has de o direntsize (entry_bytes mem name inum de) dp l inodes t w.node
        (omega (arith, le, w.small)) (omega arith))
      inl
      (λ r h.
        Ensures-weaken (maxfile * bsize < o + direntsize) _ (Placed sb name inum o dp mem)
          (Placed sb name inum o dp mem) (whole r)
          (WriteiOf-Placed sb has name inum de o dp mem r w apart low fits le h) inr (λ a q. q))
