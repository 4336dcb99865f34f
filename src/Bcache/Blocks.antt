-- ===== src/Bcache/Blocks.antt =====
-- The users of the buffer cache.
use osassignment.Prelude.{
  ℕ, ◌-◌, ◌^◌, ◌<◌, ◌≡◌, Bool, ltb, if◌then◌else◌, some, List, [], ◌∷◌, length,
}
use osassignment.Prelude.Table.{update}
use osassignment.Prelude.Count.{count, remove}
use osassignment.Bcache.{Buf, Bcache, nbuf, link_all, bget, brelse}

-- The cache, and each use of a buffer between `bget` and `brelse`, or since a `bget` that waits for the
-- sleep lock.
pub record System : Type 0 where
  pub bc : Bcache
  pub users : List ℕ

abbrev pub set_flags : Buf → Bool → Bool → Buf
set_flags b valid dirty = record b { valid = valid; dirty = dirty }

-- The device numbers start at 1. `flags` is set by a user of the buffer (`iderw`, `log_write`).
pub data Step : System → System → Type 0 where
  gets :
      (s : System) (dev blockno i : ℕ) (bc : Bcache)
      → 0 < dev
      → length s.users < 2 ^ 32 - 1
      → bget dev blockno s.bc ≡ some (i, bc)
      → Step s (record { bc = bc; users = i ∷ s.users })
  flags :
      (s : System) (i : ℕ) (valid dirty : Bool)
      → 0 < count i s.users
      → Step s (record s {
        bc = record (s.bc) { bufs = update s.bc.bufs i (set_flags (s.bc.bufs i) valid dirty) };
      })
  releases :
      (s : System) (i : ℕ)
      → 0 < count i s.users
      → Step s (record { bc = brelse i s.bc; users = remove i s.users })

-- From `binit`.
pub data Reach : System → Type 0 where
  boot :
      (bufs : ℕ → Buf)
      → ((i : ℕ) → (bufs i).refcnt ≡ 0)
      → ((i : ℕ) → (bufs i).dev ≡ 0)
      → Reach (record { bc = record { order = link_all nbuf; bufs = bufs }; users = [] })
  next : (s t : System) → Reach s → Step s t → Reach t

-- Each count is the number of the users and does not overflow; each buffer stands once in the list,
-- and nothing else does; no block has two buffers.
pub record IsCache (s : System) : Type 0 where
  pub counted : (i : ℕ) → (s.bc.bufs i).refcnt ≡ count i s.users
  pub small : (i : ℕ) → count i s.users < 2 ^ 32
  pub inside : (i : ℕ) → 0 < count i s.users → i < nbuf
  pub listed : (i : ℕ) → count i s.bc.order ≡ (if ltb i nbuf then 1 else 0)
  pub unique :
      (i j : ℕ)
      → 0 < (s.bc.bufs i).dev
      → i < nbuf
      → j < nbuf
      → (s.bc.bufs i).dev ≡ (s.bc.bufs j).dev
      → (s.bc.bufs i).blockno ≡ (s.bc.bufs j).blockno
      → i ≡ j
