-- ===== src/Content/Read.antt =====
-- `readi`.
use osassignment.Prelude.{
  subst, ℕ, zero, suc, ◌+◌, ◌-◌, ◌*◌, ◌/◌, ◌%◌, ◌^◌, ◌≤◌, ◌<◌, ◌≡◌, ◌≢◌, ◌⊎◌, inl, inr, refl, ap,
  ◌∙◌, Bool, min, true, ◌&&◌, ◌||◌, ltb, leb, ◌==◌, if◌then◌else◌, arith, dec_lt, ==_ne, ==_iff,
  ne_of_==,
}
use osassignment.Prelude.Run.{done, ◌>>=◌, Ensures, Ensures-bind, Ensures-if, Ensures-weaken}
use osassignment.Memory.{Mem}
use osassignment.Balloc.{bsize, Superblock}
use osassignment.Content.{
  maxfile, t_dev, ndev, Node, bmap, copy_bytes, Io, failed, device, moved, device_io, read_loop,
  readi,
}
use osassignment.Content.Copy.{copy_bytes_lem}
use osassignment.Content.Owned.{Layout, own, IsNode, byte}
use osassignment.Content.Becomes.{Becomes, Becomes-refl, Becomes-trans, Becomes-cong}
use osassignment.Content.Map.{
  Covers, Needs, Needs-Covers, IsMapped, FullOn, FullOn-trans, bmap-IsMapped,
}
use osassignment.Content.Device.{NoDevice, device_io-cases}

-- The memory with `n` bytes of the content `f` from `off` on stored at `dst`.
abbrev pub fetched : ℕ → ℕ → (ℕ → ℕ) → ℕ → Mem → Mem
fetched n off f dst mem x = if leb dst x && ltb x (dst + n) then f (off + (x - dst)) else mem x

abbrev Read : Superblock → (ℕ → Type 0) → ℕ → ℕ → ℕ → Node → Mem → Node × Mem → Type 0
Read sb T n off dst ip mem r =
    Becomes sb T ip (byte ip) r.0 × ((x : ℕ) → r.1 x ≡ fetched n off (byte ip) dst mem x)

byte_at :
    (ip : Node) (b off j : ℕ)
    → own ip (off / bsize) ≡ b
    → b ≢ 0
    → off % bsize + j < bsize
    → ip.disk b (off % bsize + j) ≡ byte ip (off + j)
unfolding byte
byte_at ip b off j at nz lt =
    let block : (off + j) / bsize ≡ off / bsize = omega arith in
    let place : (off + j) % bsize ≡ off % bsize + j = omega arith in
    rw (block, place, at, ==_ne b 0 nz) refl

-- The bytes of this round, then those of the next ones.
rounds :
    (n m off dst : ℕ) (f g : ℕ → ℕ) (mem mem1 mem2 : Mem) (x : ℕ)
    → m ≤ n
    → off + n ≤ maxfile * bsize
    → ((y : ℕ) → y < maxfile * bsize → g y ≡ f y)
    → mem1 x ≡ fetched m off g dst mem x
    → mem2 x ≡ fetched (n - m) (off + m) g (dst + m) mem1 x
    → mem2 x ≡ fetched n off f dst mem x
rounds n m off dst f g mem mem1 mem2 x le small same e1 e2 = elim (dec_lt x dst) [
  | yes before ↦ ground (arith, before, e1, e2, le)
  | no from ↦ elim (dec_lt x (dst + n)) [
    | no after ↦ ground (arith, after, e1, e2, le)
    | yes inside ↦
        let here : g (off + (x - dst)) ≡ f (off + (x - dst)) =
          same (off + (x - dst)) (omega arith) in
        elim (dec_lt x (dst + m)) [
          | yes low ↦ ground (arith, from, low, e1, e2, le, here)
          | no high ↦
              let index : off + m + (x - (dst + m)) ≡ off + (x - dst) = omega arith in
              ground (arith, from, high, inside, e1, e2, le, here, ap g index)
        ]
  ]
]

first_round :
    (ip : Node) (b m off dst : ℕ) (mem : Mem) (x : ℕ)
    → own ip (off / bsize) ≡ b
    → b ≢ 0
    → off % bsize + m ≤ bsize
    → copy_bytes m (ip.disk b) (off % bsize) mem dst x ≡ fetched m off (byte ip) dst mem x
first_round ip b m off dst mem x at nz fits =
    let at_x : dst ≤ x
        → x < dst + m
        → ip.disk b (off % bsize + (x - dst)) ≡ byte ip (off + (x - dst)) =
      λ lo hi. byte_at ip b off (x - dst) at nz (omega arith) in
    copy_bytes_lem m (ip.disk b) (off % bsize) mem dst x ∙ ground (arith, at_x)

round-Read :
    (fuel : ℕ) (sb : Superblock) (T : ℕ → Type 0) (n m off dst : ℕ) (ip : Node) (mem : Mem) (b : ℕ)
    (ip1 : Node)
    → m ≤ n
    → off + n ≤ maxfile * bsize
    → off % bsize + m ≤ bsize
    → IsMapped sb T (off / bsize) ip (b, ip1)
    → ((mem1 : Mem)
        → Ensures
            (FullOn sb T ip1)
            (Read sb T (n - m) (off + m) (dst + m) ip1 mem1)
            (read_loop fuel sb (n - m) (off + m) (dst + m) ip1 mem1))
    → Ensures (FullOn sb T ip) (Read sb T n off dst ip mem) (
        read_loop fuel sb
          (n - m)
          (off + m)
          (dst + m)
          ip1
          (copy_bytes m (ip1.disk b) (off % bsize) mem dst))
round-Read fuel sb T n m off dst ip mem b ip1 le small fits (p, at, nz) rest =
    let mem1 = copy_bytes m (ip1.disk b) (off % bsize) mem dst in
    Ensures-weaken (FullOn sb T ip1) (FullOn sb T ip)
      (Read sb T (n - m) (off + m) (dst + m) ip1 mem1) (Read sb T n off dst ip mem) _ (rest mem1)
      (FullOn-trans sb T ip ip1 (byte ip) p)
      (λ (ip2, mem2) (q, e). (
        Becomes-cong sb T ip ip2 (byte ip1) (byte ip) p.content
            (Becomes-trans sb T ip ip1 ip2 (byte ip) (byte ip1) p q),
        λ x.
            rounds n m off dst (byte ip) (byte ip1) mem mem1 mem2 x le small p.content
              (first_round ip1 b m off dst mem x at nz fits) (e x),
      ))

read_loop-Read :
    (fuel : ℕ) (sb : Superblock) (T : ℕ → Type 0) (n off dst : ℕ) (ip : Node) (mem : Mem)
    → Layout sb
    → IsNode sb ip
    → n < fuel
    → off + n ≤ maxfile * bsize
    → ((x : ℕ) → off ≤ x → x < off + n → Covers T (x / bsize))
    → Ensures (FullOn sb T ip) (Read sb T n off dst ip mem) (read_loop fuel sb n off dst ip mem)
unfolding read_loop
read_loop-Read zero sb T n off dst ip mem l w enough small cover = absurd (omega arith)
read_loop-Read (suc fuel) sb T n off dst ip mem l w enough small cover =
    Ensures-if (FullOn sb T ip) (Read sb T n off dst ip mem) (ltb 0 n) _ _
      (λ some.
        Ensures-bind (FullOn sb T ip) (FullOn sb T ip) (IsMapped sb T (off / bsize) ip)
          (Read sb T n off dst ip mem) (bmap sb (off / bsize) ip) _
          (bmap-IsMapped sb T (off / bsize) ip l w (ground (arith, some, small))
            (cover off (omega arith) (ground (arith, some))))
          (λ full. full)
          (λ (b, ip1) h.
            round-Read fuel sb T n (min n (bsize - off % bsize)) off dst ip mem b ip1 (omega arith)
              small (omega arith) h
              (λ mem1.
                read_loop-Read fuel sb T _ _ _ ip1 mem1 l h.0.node (ground (arith, some, enough))
                  (omega arith) (λ x lo hi. cover x (omega arith) (omega arith)))))
      (λ none. (Becomes-refl sb T ip w, λ x. ground (arith, none)))

-- What `readi` does for a device, and for a file: of the `n` bytes from `off` on, those before its end
-- are stored at `dst`. The content is as it was.
abbrev pub ReadiOf : Superblock → (ℕ → Bool) → ℕ → ℕ → ℕ → Node → Mem → Io (Node × Mem) → Type 0
ReadiOf sb has dst off n ip mem failed =
    ((ip.kind ≡ t_dev) × NoDevice has ip.major)
    ⊎ ((ip.kind ≢ t_dev) × ((ip.size < off) ⊎ (2 ^ 32 ≤ off + n)))
ReadiOf sb has dst off n ip mem (device d) =
    (ip.kind ≡ t_dev) × (d ≡ ip.major) × (d < ndev) × (has d ≡ true)
ReadiOf sb has dst off n ip mem (moved m (ip', mem')) =
    (ip.kind ≢ t_dev)
    × (off ≤ ip.size)
    × (off + n < 2 ^ 32)
    × (m ≡ min n (ip.size - off))
    × Becomes sb (Needs off m) ip (byte ip) ip'
    × ((x : ℕ) → mem' x ≡ fetched m off (byte ip) dst mem x)

-- On a disk with the layout of mkfs, for an inode whose blocks are in use, its own and different,
-- of a size up to the greatest, and 32-bit `off` and `n`: `readi` does not run out of rounds.
-- Apart from the panics of `log_write` (a hole in the file gets a block), it panics only if there is
-- a hole among the bytes to read and the disk is full, with at most such holes filled. Otherwise it
-- returns -1 for a device without the function, for an offset past the end and where `off + n` wraps; the return
-- of the device's function; or the number of those of the `n` bytes that lie before the end, where
-- these bytes are at `dst` and no other memory and no content has changed.
pub readi-ReadiOf :
    (sb : Superblock) (has : ℕ → Bool) (dst off n : ℕ) (ip : Node) (mem : Mem)
    → Layout sb
    → IsNode sb ip
    → ip.size ≤ maxfile * bsize
    → off < 2 ^ 32
    → n < 2 ^ 32
    → Ensures
        (FullOn sb (Needs off (min n (ip.size - off))) ip)
        (ReadiOf sb has dst off n ip mem)
        (readi sb has dst off n ip mem)
unfolding readi
readi-ReadiOf sb has dst off n ip mem l w size off_fits n_fits =
    Ensures-if (FullOn sb (Needs off (min n (ip.size - off))) ip) (ReadiOf sb has dst off n ip mem)
      (ip.kind == t_dev) _ _ (λ dev. readi_device ((==_iff ip.kind t_dev).0 dev))
      (λ file.
        Ensures-if (FullOn sb (Needs off (min n (ip.size - off))) ip)
          (ReadiOf sb has dst off n ip mem) (ltb ip.size off || ltb ((off + n) % 2 ^ 32) off) _ _
          (λ past. inr (ground (arith, file), ground (arith, past)))
          (λ inside.
            readi_file _ (ne_of_== ip.kind t_dev file) (ground (arith, inside))
              (ground (arith, inside)) (ground (arith, inside))))
  where
    readi_device :
        ip.kind ≡ t_dev
        → Ensures
            (FullOn sb (Needs off (min n (ip.size - off))) ip)
            (ReadiOf sb has dst off n ip mem)
            (done (device_io has ip.major))
    readi_device dev = elim (device_io-cases {A = Node × Mem} has ip.major) [
      | inl (e, h) ↦ rw e (inl (dev, h))
      | inr (e, lt, h) ↦ rw e (dev, refl, lt, h)
    ]

    readi_file :
        (m : ℕ)
        → ip.kind ≢ t_dev
        → off ≤ ip.size
        → off + n < 2 ^ 32
        → m ≡ min n (ip.size - off)
        → Ensures
            (FullOn sb (Needs off (min n (ip.size - off))) ip)
            (ReadiOf sb has dst off n ip mem)
            (read_loop (suc m) sb m off dst ip mem >>= λ r. done (moved m r))
    readi_file m file inside fits least =
        Ensures-bind (FullOn sb (Needs off m) ip) (FullOn sb (Needs off (min n (ip.size - off))) ip)
          (Read sb (Needs off m) m off dst ip mem) (ReadiOf sb has dst off n ip mem)
          (read_loop (suc m) sb m off dst ip mem) _
          (read_loop-Read (suc m) sb (Needs off m) m off dst ip mem l w (omega arith) (omega arith)
            (λ x lo hi. Needs-Covers off m x lo hi))
          (λ full. subst (λ z. FullOn sb (Needs off z) ip) least full)
          (λ (ip', mem') (p, e). (file, inside, fits, least, p, e))
