-- ===== src/Icache/System.antt =====
-- The reference counts of cached inodes, against the references that there are.
use osassignment.Prelude.{ℕ, ◌-◌, ◌^◌, ◌<◌, ◌≡◌, Bool, some, List, [], ◌∷◌, length}
use osassignment.Prelude.Table.{update}
use osassignment.Prelude.Count.{count, remove}
use osassignment.Icache.{Inode, ninode, iget, idup, iput_check, iput_drop}

-- The table, and each reference to an entry that a file, a directory or a system call holds.
pub record System : Type 0 where
  pub inodes : ℕ → Inode
  pub holders : List ℕ

-- The fields that `ilock` reads from the disk and that the holder of the sleep lock changes.
abbrev pub set_fields : Inode → Bool → ℕ → ℕ → ℕ → Inode
set_fields ip valid kind nlink size = record ip {
  valid = valid;
  kind = kind;
  nlink = nlink;
  size = size;
}

-- No more references than an `int` counts. `put` is the last critical section of `iput`.
pub data Step : System → System → Type 0 where
  get :
      (s : System) (dev inum i : ℕ) (ic : ℕ → Inode)
      → length s.holders < 2 ^ 31 - 1
      → iget dev inum s.inodes ≡ some (i, ic)
      → Step s (record { inodes = ic; holders = i ∷ s.holders })
  dup :
      (s : System) (i : ℕ)
      → 0 < count i s.holders
      → length s.holders < 2 ^ 31 - 1
      → Step s (record { inodes = idup i s.inodes; holders = i ∷ s.holders })
  sets :
      (s : System) (i : ℕ) (valid : Bool) (kind nlink size : ℕ)
      → 0 < count i s.holders
      → Step s
          (record s { inodes = update s.inodes i (set_fields (s.inodes i) valid kind nlink size) })
  check :
      (s : System) (i : ℕ)
      → 0 < count i s.holders
      → Step s (record s { inodes = (iput_check i s.inodes).0 })
  put :
      (s : System) (i : ℕ)
      → 0 < count i s.holders
      → Step s (record { inodes = iput_drop i s.inodes; holders = remove i s.holders })

-- From an empty cache, as at boot.
pub data Reach : System → Type 0 where
  boot :
      (ic : ℕ → Inode) → ((i : ℕ) → (ic i).ref ≡ 0) → Reach (record { inodes = ic; holders = [] })
  next : (s t : System) → Reach s → Step s t → Reach t

-- Each count is the number of the references, no `int` overflows, the references are to entries of
-- the table, and no two referenced entries are for one inode.
pub record WellFormed (s : System) : Type 0 where
  pub counted : (i : ℕ) → (s.inodes i).ref ≡ count i s.holders
  pub small : (i : ℕ) → count i s.holders < 2 ^ 31
  pub inside : (i : ℕ) → 0 < count i s.holders → i < ninode
  pub unique :
      (i j : ℕ)
      → 0 < count i s.holders
      → 0 < count j s.holders
      → (s.inodes i).dev ≡ (s.inodes j).dev
      → (s.inodes i).inum ≡ (s.inodes j).inum
      → i ≡ j
