-- ===== src/Directory/Reading.antt =====
-- An entry is read.
use osassignment.Prelude.{min, ◌-◌, ℕ, ◌*◌, ◌%◌, ◌≤◌, ◌<◌, ◌≡◌, inl, inr, ap, ◌∙◌, Bool, arith}
use osassignment.Prelude.Run.{Ensures, Ensures-bind, Ensures-weaken}
use osassignment.Memory.{Mem}
use osassignment.Balloc.{bsize, Superblock}
use osassignment.Content.{Node, Io, failed, device, moved, maxfile, readi}
use osassignment.Content.Owned.{Layout, IsNode, byte}
use osassignment.Content.Becomes.{Becomes-mono, Becomes}
use osassignment.Content.Map.{FullOn, FullOn-mono, Needs, Needs-mono}
use osassignment.Content.Read.{fetched, ReadiOf, readi-ReadiOf}
use osassignment.Directory.{t_dir, direntsize, whole, read_entry}

-- A directory in blocks of its own.
pub record IsDirectory (sb : Superblock) (dp : Node) : Type 0 where
  pub node : IsNode sb dp
  pub kind_dir : dp.kind ≡ t_dir
  pub small : dp.size ≤ maxfile * bsize
  pub entries : dp.size % direntsize ≡ 0

pub IsDirectory-Becomes :
    (sb : Superblock) (T : ℕ → Type 0) (a b : Node) (f : ℕ → ℕ)
    → IsDirectory sb a
    → Becomes sb T a f b
    → IsDirectory sb b
IsDirectory-Becomes sb T a b f w p =
    let (at, kind, major, minor, nlink, size) = p.fields in
    record {
      node = p.node;
      kind_dir = kind ∙ w.kind_dir;
      small = omega (arith, size, w.small);
      entries = omega (arith, size, w.entries);
    }

-- The entry has been read.
abbrev pub EntryRead : Superblock → (ℕ → Type 0) → ℕ → ℕ → Node → Mem → Node × Mem → Type 0
EntryRead sb T de off dp mem r =
    Becomes sb T dp (byte dp) r.0 × ((x : ℕ) → r.1 x ≡ fetched direntsize off (byte dp) de mem x)

ReadiOf-EntryRead :
    (sb : Superblock) (T : ℕ → Type 0) (has : ℕ → Bool) (de off : ℕ) (dp : Node) (mem : Mem)
    (r : Io (Node × Mem))
    → IsDirectory sb dp
    → off % direntsize ≡ 0
    → off < dp.size
    → ((k : ℕ) → Needs 0 dp.size k → T k)
    → ReadiOf sb has de off direntsize dp mem r
    → Ensures ⊥ (EntryRead sb T de off dp mem) (whole r)
unfolding whole
ReadiOf-EntryRead sb T has de off dp mem failed w al lt cov (inl (dev, none_there)) =
    absurd (omega (arith, dev, w.kind_dir))
ReadiOf-EntryRead sb T has de off dp mem failed w al lt cov (inr (file, inl past)) =
    absurd (omega arith)
ReadiOf-EntryRead sb T has de off dp mem failed w al lt cov (inr (file, inr wraps)) =
    absurd (omega (arith, wraps, lt, w.small))
ReadiOf-EntryRead sb T has de off dp mem (device d) w al lt cov (dev, at, low, there) =
    absurd (omega (arith, dev, w.kind_dir))
ReadiOf-EntryRead sb T has de off dp mem (moved n r) w al lt cov (file, inside, fits, least, p, e) =
    let same : n ≡ direntsize = omega (arith, least, w.entries) in
    let p2 : Becomes sb T dp (byte dp) r.0 =
      Becomes-mono sb (Needs off n) T dp r.0 (byte dp)
        (λ k h.
          cov k
            (Needs-mono off n 0 dp.size (omega arith) (omega (arith, same, lt, al, w.entries)) k h))
        p in
    rw same (p2, λ x. e x ∙ ap (λ k. fetched k off (byte dp) de mem x) same)

pub read_entry-EntryRead :
    (sb : Superblock) (T : ℕ → Type 0) (has : ℕ → Bool) (de off : ℕ) (dp : Node) (mem : Mem)
    → Layout sb
    → IsDirectory sb dp
    → off % direntsize ≡ 0
    → off < dp.size
    → ((k : ℕ) → Needs 0 dp.size k → T k)
    → Ensures (FullOn sb T dp) (EntryRead sb T de off dp mem) (read_entry sb has de off dp mem)
unfolding read_entry
read_entry-EntryRead sb T has de off dp mem l w al lt cov =
    Ensures-bind (FullOn sb (Needs off (min direntsize (dp.size - off))) dp) (FullOn sb T dp)
      (ReadiOf sb has de off direntsize dp mem) (EntryRead sb T de off dp mem)
      (readi sb has de off direntsize dp mem) whole
      (readi-ReadiOf sb has de off direntsize dp mem l w.node w.small (omega (arith, lt, w.small))
        (omega arith))
      (FullOn-mono sb (Needs off (min direntsize (dp.size - off))) T dp (λ k h. cov k (
        Needs-mono off (min direntsize (dp.size - off)) 0 dp.size (omega arith) (omega arith) k h)))
      (λ r h.
        Ensures-weaken ⊥ (FullOn sb T dp) (EntryRead sb T de off dp mem)
          (EntryRead sb T de off dp mem) (whole r)
          (ReadiOf-EntryRead sb T has de off dp mem r w al lt cov h) (λ e. absurd e) (λ a q. q))
