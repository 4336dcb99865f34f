-- ===== src/Content/Write.antt =====
-- `writei`.
use osassignment.Prelude.{
  ℕ, zero, suc, ◌+◌, ◌-◌, ◌*◌, ◌/◌, ◌%◌, ◌^◌, ◌≤◌, ◌<◌, ◌≡◌, ◌≢◌, ◌⊎◌, inl, inr, refl, sym, ◌∙◌,
  subst, Bool, min, max, true, false, ◌&&◌, ◌||◌, ltb, ◌==◌, arith, dec_lt, lt→ltb, ==_iff,
  ne_of_==,
}
use osassignment.Prelude.Table.{update}
use osassignment.Prelude.Run.{Run, done, ◌>>=◌, Ensures, Ensures-bind, Ensures-if, Ensures-weaken}
use osassignment.Memory.{Mem}
use osassignment.Balloc.{bsize, Superblock}
use osassignment.Content.{
  maxfile, t_dev, ndev, Node, bmap, copy_bytes, Io, failed, device, moved, device_io, write_loop,
  grow, writei, iblock,
}
use osassignment.Content.Store.{IsDinode}
use osassignment.Content.Owned.{Layout, own, IsNode, byte}
use osassignment.Content.Becomes.{Becomes, Becomes-refl, Becomes-trans, Becomes-cong}
use osassignment.Content.Map.{
  Covers, Needs, Needs-Covers, IsMapped, FullOn, FullOn-trans, bmap-IsMapped, not_ltb,
}
use osassignment.Content.Device.{NoDevice, device_io-cases}
use osassignment.Content.Save.{Saved, Becomes-Saved, iupdate-Saved}
use osassignment.Content.Block.{written, ip_block, block-Becomes}

-- The bytes of this round, then those of the next ones.
rounds :
    (n m off src : ℕ) (mem : Mem) (f g h : ℕ → ℕ) (x : ℕ)
    → m ≤ n
    → g x ≡ f x
    → h x ≡ written m off src mem g x
    → written (n - m) (off + m) (src + m) mem h x ≡ written n off src mem f x
rounds n m off src mem f g h x le e e' = ground (arith, e, e')

abbrev pub Wrote : Superblock → (ℕ → Type 0) → ℕ → ℕ → ℕ → Mem → Node → Node → Type 0
Wrote sb T n off src mem ip = Becomes sb T ip (written n off src mem (byte ip))

-- The round for the block that `bmap` returns, then the rest.
round-Wrote :
    (sb : Superblock) (T : ℕ → Type 0) (n m off src : ℕ) (mem : Mem) (ip ip1 : Node) (b : ℕ)
    (f : Node → Run Node)
    → Layout sb
    → off / bsize < maxfile
    → off % bsize + m ≤ bsize
    → m ≤ n
    → IsMapped sb T (off / bsize) ip (b, ip1)
    → ((ip2 : Node)
        → IsNode sb ip2
        → Ensures (FullOn sb T ip2) (Wrote sb T (n - m) (off + m) (src + m) mem ip2) (f ip2))
    → Ensures (FullOn sb T ip) (Wrote sb T n off src mem ip) (
        f (record ip1 {
          disk = update ip1.disk b (copy_bytes m mem src (ip1.disk b) (off % bsize));
        }))
unfolding ip_block
round-Wrote sb T n m off src mem ip ip1 b f l small fits le (h, at, nz) rest =
    let nz1 : own ip1 (off / bsize) ≢ 0 = λ e. nz (sym at ∙ e) in
    let ip2 : Node = ip_block sb ip1 h.node off m src mem small fits nz1 in
    let q = block-Becomes sb ip1 h.node off m src mem small fits nz1 T l in
    let p = Becomes-trans sb T ip ip1 ip2 (byte ip) (written m off src mem (byte ip1)) h q in
    subst
      (λ b. Ensures (FullOn sb T ip) (Wrote sb T n off src mem ip) (
        f (record ip1 {
          disk = update ip1.disk b (copy_bytes m mem src (ip1.disk b) (off % bsize));
        })))
      at
      (Ensures-weaken (FullOn sb T ip2) (FullOn sb T ip)
        (Wrote sb T (n - m) (off + m) (src + m) mem ip2) (Wrote sb T n off src mem ip) (f ip2)
        (rest ip2 q.node) (FullOn-trans sb T ip ip2 (written m off src mem (byte ip1)) p)
        (λ ip3 r.
          Becomes-cong sb T ip ip3 _ (written n off src mem (byte ip))
            (λ x lt.
              rounds n m off src mem (byte ip) (byte ip1) (byte ip2) x le (h.content x lt)
                (q.content x lt))
            (Becomes-trans sb T ip ip2 ip3 (written m off src mem (byte ip1)) _ p r)))

write_loop-Wrote :
    (fuel : ℕ) (sb : Superblock) (T : ℕ → Type 0) (n off src : ℕ) (mem : Mem) (ip : Node)
    → Layout sb
    → IsNode sb ip
    → n < fuel
    → off + n ≤ maxfile * bsize
    → ((x : ℕ) → off ≤ x → x < off + n → Covers T (x / bsize))
    → Ensures (FullOn sb T ip) (Wrote sb T n off src mem ip) (write_loop fuel sb n off src mem ip)
unfolding write_loop
write_loop-Wrote zero sb T n off src mem ip l w enough small cover = absurd (omega arith)
write_loop-Wrote (suc fuel) sb T n off src mem ip l w enough small cover = elim (dec_lt 0 n) [
  | no none ↦
      rw (not_ltb 0 n none) (
        Becomes-cong sb T ip ip (byte ip) _ (λ x lt. ground (arith, none)) (Becomes-refl sb T ip w))
  | yes some ↦
      let m = min n (bsize - off % bsize) in
      rw (lt→ltb 0 n some) (
        Ensures-bind (FullOn sb T ip) (FullOn sb T ip) (IsMapped sb T (off / bsize) ip)
          (Wrote sb T n off src mem ip) (bmap sb (off / bsize) ip) _
          (bmap-IsMapped sb T (off / bsize) ip l w (omega arith)
            (cover off (omega arith) (omega arith)))
          (λ full. full)
          (λ (b, ip1) h.
            round-Wrote sb T n (min n (bsize - off % bsize)) off src mem ip ip1 b
              (write_loop fuel sb (n - m) (off + m) (src + m) mem) l (omega arith) (omega arith)
              (omega arith) h
              (λ ip2 w2.
                write_loop-Wrote fuel sb T (n - m) (off + m) (src + m) mem ip2 l w2 (omega arith)
                  (omega arith) (λ x lo hi. cover x (omega arith) (omega arith)))))
]

-- What `writei` does for a device, and for a file: an array of bytes that `n` bytes are written to, at
-- an offset up to its end, and which gets longer if they go past it.
abbrev pub WriteiOf : Superblock → (ℕ → Bool) → ℕ → ℕ → ℕ → Mem → Node → Io Node → Type 0
WriteiOf sb has src off n mem ip failed =
    ((ip.kind ≡ t_dev) × NoDevice has ip.major)
    ⊎ ((ip.kind ≢ t_dev) × ((ip.size < off) ⊎ (maxfile * bsize < off + n)))
WriteiOf sb has src off n mem ip (device d) =
    (ip.kind ≡ t_dev) × (d ≡ ip.major) × (d < ndev) × (has d ≡ true)
WriteiOf sb has src off n mem ip (moved m ip') =
    (ip.kind ≢ t_dev)
    × (off ≤ ip.size)
    × (off + n ≤ maxfile * bsize)
    × (m ≡ n)
    × Saved sb ip (written n off src mem (byte ip)) (max ip.size (off + n)) ip'

and_false : (x : Bool) → (x && false) ≡ false
and_false true = refl
and_false false = refl

grow-Saved :
    (sb : Superblock) (T : ℕ → Type 0) (off n : ℕ) (f : ℕ → ℕ) (ip ip' : Node)
    → Layout sb
    → iblock sb ip.inum < sb.bmapstart
    → IsDinode ip
    → off ≤ ip.size
    → off + n < 2 ^ 32
    → Becomes sb T ip f ip'
    → Saved sb ip f (max ip.size (off + n)) (grow sb (off + n) n ip')
unfolding grow
grow-Saved sb T off n f ip ip' l inodes t le fits p =
    let size = p.fields.5 in
    elim (dec_lt ip.size (off + n)) [
      | yes more ↦
          let top : max ip.size (off + n) ≡ off + n = omega arith in
          rw (lt→ltb 0 n (omega arith), lt→ltb ip'.size (off + n) (omega arith), top)
            (iupdate-Saved sb T ip f (off + n) ip' l inodes t fits p)
      | no same ↦
          let top : max ip.size (off + n) ≡ ip.size = omega arith in
          rw (top, not_ltb ip'.size (off + n) (λ h. same (omega arith)), and_false (ltb 0 n))
            (Becomes-Saved sb T ip f ip' p)
    ]

-- On a disk with the layout of mkfs, for an inode whose blocks are in use, its own and different,
-- with a dinode before the free map and fields of their widths, and 32-bit `off` and `n`: `writei`
-- does not run out of rounds. Apart from the panics of `log_write`, it panics only if a block that
-- the `n` bytes need is missing and the disk is full, with at most such blocks added. Otherwise it
-- returns -1 for a device without the function, for an offset past the end and for an end past the
-- greatest size;
-- the return of the device's function; or `n`, where the `n` bytes at `src` are the content from
-- `off` on, the rest of the content is as it was, the size is the larger of the old one and `off +
-- n`, a new size is on the disk, and no block and no inode of anything else has changed.
pub writei-WriteiOf :
    (sb : Superblock) (has : ℕ → Bool) (src off n : ℕ) (mem : Mem) (ip : Node)
    → Layout sb
    → iblock sb ip.inum < sb.bmapstart
    → IsDinode ip
    → IsNode sb ip
    → off < 2 ^ 32
    → n < 2 ^ 32
    → Ensures
        (FullOn sb (Needs off n) ip)
        (WriteiOf sb has src off n mem ip)
        (writei sb has src off n mem ip)
unfolding writei
writei-WriteiOf sb has src off n mem ip l inodes t w off_fits n_fits =
    Ensures-if (FullOn sb (Needs off n) ip) (WriteiOf sb has src off n mem ip) (ip.kind == t_dev) _
      _ (λ dev. writei_device ((==_iff ip.kind t_dev).0 dev))
      (λ file.
        Ensures-if (FullOn sb (Needs off n) ip) (WriteiOf sb has src off n mem ip)
          (ltb ip.size off || ltb ((off + n) % 2 ^ 32) off) _ _
          (λ past. inr (ground (arith, file), ground (arith, past)))
          (λ inside.
            Ensures-if (FullOn sb (Needs off n) ip) (WriteiOf sb has src off n mem ip)
              (ltb (maxfile * bsize) ((off + n) % 2 ^ 32)) _ _
              (λ big. inr (ground (arith, file), inr (ground (arith, inside, big))))
              (λ small.
                writei_file (ne_of_== ip.kind t_dev file) (ground (arith, inside))
                  (ground (arith, inside, small)))))
  where
    writei_device :
        ip.kind ≡ t_dev
        → Ensures
            (FullOn sb (Needs off n) ip)
            (WriteiOf sb has src off n mem ip)
            (done (device_io has ip.major))
    writei_device dev = elim (device_io-cases {A = Node} has ip.major) [
      | inl (e, h) ↦ rw e (inl (dev, h))
      | inr (e, lt, h) ↦ rw e (dev, refl, lt, h)
    ]

    writei_file :
        ip.kind ≢ t_dev
        → off ≤ ip.size
        → off + n ≤ maxfile * bsize
        → Ensures (FullOn sb (Needs off n) ip) (WriteiOf sb has src off n mem ip) (
            write_loop (suc n) sb n off src mem ip >>= λ ip'.
            done (moved n (grow sb (off + n) n ip')))
    writei_file file inside small =
        Ensures-bind (FullOn sb (Needs off n) ip) (FullOn sb (Needs off n) ip)
          (Wrote sb (Needs off n) n off src mem ip) (WriteiOf sb has src off n mem ip)
          (write_loop (suc n) sb n off src mem ip) _
          (write_loop-Wrote (suc n) sb (Needs off n) n off src mem ip l w (omega arith) small
            (λ x lo hi. Needs-Covers off n x lo hi))
          (λ full. full)
          (λ ip' p. (
            file,
            inside,
            small,
            refl,
            grow-Saved sb (Needs off n) off n _ ip ip' l inodes t inside (omega arith) p,
          ))
