-- ===== src/Content/Map.antt =====
-- `bmap` finds the block, or gives the inode a new one there.
use osassignment.Prelude.{
  ◌⊎◌, inl, inr, refl, ◌/◌, ℕ, ◌+◌, ◌-◌, ◌*◌, ◌≤◌, ◌<◌, ◌≡◌, ◌≢◌, sym, ap, ◌∙◌, subst, false, ltb,
  arith, ℕ_discrete, Bool-cases, ==_ne, dec_lt, lt→ltb, ltb→lt,
}
use osassignment.Prelude.Run.{Ensures, Ensures-bind, Ensures-weaken}
use osassignment.Memory.{load32}
use osassignment.Balloc.{bsize, Superblock, Disk}
use osassignment.Content.{ndirect, nindirect, maxfile, Node, new_block, map_addr, map_entry, bmap}
use osassignment.Content.Owned.{Layout, own, IsNode, byte}
use osassignment.Content.Becomes.{
  Becomes-mono, IsFull, IsNew, new_block-IsNew, Becomes, Becomes-refl, Becomes-trans, Becomes-cong,
}
use osassignment.Content.Grow.{Grown-Becomes}
use osassignment.Content.Place.{
  place, place_low, own-place, own_top, own_entry, ip_new, Grown-addr, ip_entry, Grown-entry,
}

-- A block that is there, in an inode that may have grown.
abbrev pub IsMapped : Superblock → (ℕ → Type 0) → ℕ → Node → ℕ × Node → Type 0
IsMapped sb T k ip p = Becomes sb T ip (byte ip) p.1 × (own p.1 k ≡ p.0) × (p.0 ≢ 0)

-- A block of the inode, at a place in `T`, is missing and the disk is full, after the inode got blocks
-- at other places in `T` at most, and the content `f`.
abbrev pub FullOn : Superblock → (ℕ → Type 0) → Node → Type 0
FullOn sb T ip =
    (f : ℕ → ℕ) × (ip' : Node) × (k : ℕ) × Becomes sb T ip f ip'
    × IsFull sb ip'.disk
    × T k
    × (k ≤ maxfile)
    × (own ip' k ≡ 0)

pub FullOn-mono :
    (sb : Superblock) (T T2 : ℕ → Type 0) (a : Node)
    → ((k : ℕ) → T k → T2 k)
    → FullOn sb T a
    → FullOn sb T2 a
FullOn-mono sb T T2 a more (g, c, k, q, full, at, le, z) =
    (g, c, k, Becomes-mono sb T T2 a c g more q, full, more k at, le, z)

pub FullOn-trans :
    (sb : Superblock) (T : ℕ → Type 0) (a b : Node) (f : ℕ → ℕ)
    → Becomes sb T a f b
    → FullOn sb T b
    → FullOn sb T a
FullOn-trans sb T a b f p (g, c, k, q, full, at, le, z) =
    (g, c, k, Becomes-trans sb T a b c f g p q, full, at, le, z)

IsMapped-addr :
    (sb : Superblock) (T : ℕ → Type 0) (ip : Node) (k c : ℕ) (d : Disk) (l : Layout sb)
    (w : IsNode sb ip) (le : k ≤ ndirect) (z : ip.addrs k ≡ 0) (new : IsNew sb ip.disk c d)
    → T (place k)
    → IsMapped sb T (place k) ip (c, ip_new sb ip k c d w le z new)
unfolding ip_new
IsMapped-addr sb T ip k c d l w le z new here =
    let g = Grown-addr sb ip k c d w le z new in
    (
      Grown-Becomes sb ip (ip_new sb ip k c d w le z new) (place k) c d l w g T here
          (refl, refl, refl, refl, refl, refl),
      g.here,
      λ e. omega (arith, e, new.after_meta),
    )

IsMapped-entry :
    (sb : Superblock) (T : ℕ → Type 0) (ip : Node) (i c : ℕ) (d : Disk) (l : Layout sb)
    (w : IsNode sb ip) (nz : ip.addrs ndirect ≢ 0) (lt : i < nindirect)
    (z : own ip (ndirect + i) ≡ 0) (new : IsNew sb ip.disk c d)
    → T (ndirect + i)
    → IsMapped sb T (ndirect + i) ip (c, ip_entry sb ip i c d l w nz lt z new)
unfolding ip_entry
IsMapped-entry sb T ip i c d l w nz lt z new here =
    let g = Grown-entry sb ip i c d l w nz lt z new in
    (
      Grown-Becomes sb ip (ip_entry sb ip i c d l w nz lt z new) (ndirect + i) c d l w g T here
          (refl, refl, refl, refl, refl, refl),
      g.here,
      λ e. omega (arith, e, new.after_meta),
    )

map_addr-IsMapped :
    (sb : Superblock) (T : ℕ → Type 0) (k : ℕ) (ip : Node)
    → Layout sb
    → IsNode sb ip
    → k ≤ ndirect
    → T (place k)
    → Ensures (FullOn sb T ip) (IsMapped sb T (place k) ip) (map_addr sb k ip)
unfolding map_addr ip_new
map_addr-IsMapped sb T k ip l w le here = elim (ℕ_discrete (ip.addrs k) 0) [
  | yes z ↦ rw z (
      Ensures-bind (IsFull sb ip.disk) (FullOn sb T ip) (λ p. IsNew sb ip.disk p.0 p.1)
        (IsMapped sb T (place k) ip) (new_block sb ip.disk) _ (new_block-IsNew sb ip l w)
        (λ full. (
          byte ip,
          ip,
          place k,
          Becomes-refl sb T ip w,
          full,
          here,
          ground arith,
          own-place ip k le ∙ z,
        ))
        (λ (c, d) new. IsMapped-addr sb T ip k c d l w le z new here))
  | no nz ↦ rw (==_ne (ip.addrs k) 0 nz) (Becomes-refl sb T ip w, own-place ip k le, nz)
]

map_entry-IsMapped :
    (sb : Superblock) (T : ℕ → Type 0) (i : ℕ) (ip : Node)
    → Layout sb
    → IsNode sb ip
    → ip.addrs ndirect ≢ 0
    → i < nindirect
    → T (ndirect + i)
    → Ensures
        (FullOn sb T ip)
        (IsMapped sb T (ndirect + i) ip)
        (map_entry sb (ip.addrs ndirect) i ip)
unfolding map_entry ip_entry
map_entry-IsMapped sb T i ip l w nz lt here = elim (ℕ_discrete (own ip (ndirect + i)) 0) [
  | yes z ↦ rw (sym entry ∙ z) (
      Ensures-bind (IsFull sb ip.disk) (FullOn sb T ip) (λ p. IsNew sb ip.disk p.0 p.1)
        (IsMapped sb T (ndirect + i) ip) (new_block sb ip.disk) _ (new_block-IsNew sb ip l w)
        (λ full. (byte ip, ip, ndirect + i, Becomes-refl sb T ip w, full, here, omega arith, z))
        (λ (c, d) new. IsMapped-entry sb T ip i c d l w nz lt z new here))
  | no y ↦ rw (==_ne _ 0 (λ e. y (entry ∙ e))) (Becomes-refl sb T ip w, entry, λ e. y (entry ∙ e))
]
  where
    entry : own ip (ndirect + i) ≡ load32 (ip.disk (ip.addrs ndirect)) (4 * i)
    entry =
        let index : ndirect + i - ndirect ≡ i = omega arith in
        own_entry ip (ndirect + i) (omega arith) (omega arith) nz
        ∙ ap (λ x. load32 (ip.disk (ip.addrs ndirect)) (4 * x)) index

pub not_ltb : (a b : ℕ) → ¬ (a < b) → ltb a b ≡ false
not_ltb a b h = ground (arith, ltb→lt a b, Bool-cases (ltb a b))

-- `T` has the places of the block `bn`: its own, and that of the indirect block.
abbrev pub Covers : (ℕ → Type 0) → ℕ → Type 0
Covers T bn = T bn × (ndirect ≤ bn → T maxfile)

-- The places that the bytes from `off` to `off + n` need.
abbrev pub Needs : ℕ → ℕ → ℕ → Type 0
Needs off n k =
    (x : ℕ) × (off ≤ x)
    × (x < off + n)
    × ((x / bsize ≡ k) ⊎ ((k ≡ maxfile) × (ndirect ≤ x / bsize)))

pub Needs-Covers : (off n x : ℕ) → off ≤ x → x < off + n → Covers (Needs off n) (x / bsize)
Needs-Covers off n x lo hi = ((x, lo, hi, inl refl), λ high. (x, lo, hi, inr (refl, high)))

pub Needs-mono :
    (off n off2 n2 : ℕ)
    → off2 ≤ off
    → off + n ≤ off2 + n2
    → (k : ℕ) → Needs off n k
    → Needs off2 n2 k
Needs-mono off n off2 n2 lo hi k (x, from, to, at) = (x, omega arith, omega arith, at)

-- `bmap` returns the block with the content from `512 * bn` on. The content is as it was: bytes of a
-- new block are 0. A panic says that a block is missing and the disk is full.
pub bmap-IsMapped :
    (sb : Superblock) (T : ℕ → Type 0) (bn : ℕ) (ip : Node)
    → Layout sb
    → IsNode sb ip
    → bn < maxfile
    → Covers T bn
    → Ensures (FullOn sb T ip) (IsMapped sb T bn ip) (bmap sb bn ip)
unfolding bmap
bmap-IsMapped sb T bn ip l w lt cover = elim (dec_lt bn ndirect) [
  | yes low ↦ rw (lt→ltb bn ndirect low) (
      subst (λ k. Ensures (FullOn sb T ip) (IsMapped sb T k ip) (map_addr sb bn ip))
        (place_low bn low)
        (map_addr-IsMapped sb T bn ip l w (omega arith) (subst T (sym (place_low bn low)) cover.0)))
  | no high ↦
      rw (not_ltb bn ndirect high, lt→ltb (bn - ndirect) nindirect (omega arith))
        (Ensures-bind (FullOn sb T ip) (FullOn sb T ip) (IsMapped sb T maxfile ip)
          (IsMapped sb T bn ip) (map_addr sb ndirect ip) _
          (map_addr-IsMapped sb T ndirect ip l w (omega arith) (cover.1 (omega arith)))
          (λ full. full) (λ (a, ip') (h, at, nz). entry (omega arith) a ip' h at nz))
]
  where
    entry :
        ndirect ≤ bn
        → (a : ℕ) (ip' : Node) → Becomes sb T ip (byte ip) ip'
        → own ip' maxfile ≡ a
        → a ≢ 0
        → Ensures (FullOn sb T ip) (IsMapped sb T bn ip) (map_entry sb a (bn - ndirect) ip')
    entry hi a ip' h at nz =
        let at' : ip'.addrs ndirect ≡ a = sym (own_top ip') ∙ at in
        subst
          (λ x. Ensures (FullOn sb T ip) (IsMapped sb T bn ip) (map_entry sb x (bn - ndirect) ip'))
          at'
          (subst
            (λ x.
              Ensures (FullOn sb T ip) (IsMapped sb T x ip)
                (map_entry sb (ip'.addrs ndirect) (bn - ndirect) ip'))
            (let e : ndirect + (bn - ndirect) ≡ bn = omega arith in e)
            (Ensures-weaken (FullOn sb T ip') (FullOn sb T ip)
              (IsMapped sb T (ndirect + (bn - ndirect)) ip')
              (IsMapped sb T (ndirect + (bn - ndirect)) ip) _
              (map_entry-IsMapped sb T (bn - ndirect) ip' l h.node (λ e. nz (sym at' ∙ e))
                (omega arith)
                (subst T (let e : bn ≡ ndirect + (bn - ndirect) = omega arith in e) cover.0))
              (FullOn-trans sb T ip ip' (byte ip) h)
              (λ (b, c) (q, here, some). (
                Becomes-cong sb T ip c (byte ip') (byte ip) h.content
                    (Becomes-trans sb T ip ip' c (byte ip) (byte ip') h q),
                here,
                some,
              ))))
