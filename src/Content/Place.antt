-- ===== src/Content/Place.antt =====
-- The blocks of an inode with a new block in `addrs` or in the indirect block.
use osassignment.Prelude.{
  ℕ, ◌+◌, ◌-◌, ◌*◌, ◌≤◌, ◌<◌, ◌≡◌, ◌≢◌, ◌⊎◌, inl, inr, refl, sym, ap, ◌∙◌, ◌==◌, if◌then◌else◌,
  arith, ℕ_discrete, ==_ne, dec_lt, lt→ltb,
}
use osassignment.Prelude.Table.{update, update_self, update_ne}
use osassignment.Memory.{Mem, load32, store32}
use osassignment.Memory.Words.{load32-store32_self, load32-store32_ne}
use osassignment.Balloc.{Superblock, Disk}
use osassignment.Balloc.Bitmap.{in_use}
use osassignment.Content.{ndirect, nindirect, maxfile, Node}
use osassignment.Content.Owned.{bblock-lt, Layout, own, IsNode}
use osassignment.Content.Becomes.{IsNew}
use osassignment.Content.Grow.{Grown}

-- The place among the blocks for an index of `addrs`.
abbrev pub place : ℕ → ℕ
place k = if k == ndirect then maxfile else k

pub place_low : (k : ℕ) → k < ndirect → place k ≡ k
place_low k lt = ground arith

load32-zeros :
    (m : Mem) (a : ℕ) → m a ≡ 0 → m (a + 1) ≡ 0 → m (a + 2) ≡ 0 → m (a + 3) ≡ 0 → load32 m a ≡ 0
unfolding load32
load32-zeros m a p q r s = omega arith

pub own-place : (ip : Node) (k : ℕ) → k ≤ ndirect → own ip (place k) ≡ ip.addrs k
unfolding own
own-place ip k le = elim (ℕ_discrete k ndirect) [
  | yes e ↦ rw e refl
  | no ne ↦ rw (==_ne k ndirect ne, lt→ltb k ndirect (omega arith)) refl
]

pub own_direct : (ip : Node) (j : ℕ) → j < ndirect → own ip j ≡ ip.addrs j
unfolding own
own_direct ip j lt = rw (lt→ltb j ndirect lt) refl

pub own_top : (ip : Node) → own ip maxfile ≡ ip.addrs ndirect
unfolding own
own_top ip = refl

-- The entries of the indirect block, of an inode that has none and of one that has.
pub own_none : (ip : Node) (j : ℕ) → ndirect ≤ j → j < maxfile → ip.addrs ndirect ≡ 0 → own ip j ≡ 0
unfolding own
own_none ip j lo hi z = ground (arith, z)

pub own_entry :
    (ip : Node) (j : ℕ)
    → ndirect ≤ j
    → j < maxfile
    → ip.addrs ndirect ≢ 0
    → own ip j ≡ load32 (ip.disk (ip.addrs ndirect)) (4 * (j - ndirect))
unfolding own
own_entry ip j lo hi nz = ground (arith, nz)

-- The new block is in `addrs`.
module _ (sb : Superblock) (ip : Node) (k c : ℕ) (d : Disk) (w : IsNode sb ip) (le : k ≤ ndirect)
    (z : ip.addrs k ≡ 0) (new : IsNew sb ip.disk c d) where
  unfoldable pub ip_new : Node
  ip_new = record ip { disk = d; addrs = update ip.addrs k c }

  there_entry : (j : ℕ) → ndirect ≤ j → j < maxfile → own ip_new j ≡ own ip j
  unfolding ip_new
  there_entry j lo hi = elim (ℕ_discrete k ndirect) [
    | yes e ↦
        let at : ip_new.addrs ndirect ≡ c =
          ap (λ m. update ip.addrs k c m) (sym e) ∙ update_self ip.addrs k c in
        let empty : load32 (d c) (4 * (j - ndirect)) ≡ 0 =
          load32-zeros (d c) (4 * (j - ndirect)) (new.zeros (4 * (j - ndirect)) (omega arith))
            (new.zeros (4 * (j - ndirect) + 1) (omega arith))
            (new.zeros (4 * (j - ndirect) + 2) (omega arith))
            (new.zeros (4 * (j - ndirect) + 3) (omega arith)) in
        own_entry ip_new j lo hi (λ f. omega (arith, f, at, new.after_meta))
        ∙ ap (λ b. load32 (d b) (4 * (j - ndirect))) at
        ∙ empty
        ∙ sym (own_none ip j lo hi (ap ip.addrs (sym e) ∙ z))
    | no ne ↦
        let at : ip_new.addrs ndirect ≡ ip.addrs ndirect = update_ne ip.addrs k ndirect c ne in
        elim (ℕ_discrete (ip.addrs ndirect) 0) [
          | yes y ↦ own_none ip_new j lo hi (at ∙ y) ∙ sym (own_none ip j lo hi y)
          | no y ↦
              let (high, lt, used) =
                w.owned maxfile (omega arith) (λ f. y (sym (own_top ip) ∙ f)) in
              let block : d (ip.addrs ndirect) ≡ ip.disk (ip.addrs ndirect) =
                new.others (ip.addrs ndirect)
                  (λ f. ground (arith, new.was_free, used, own_top ip, ap (in_use sb ip.disk) f))
                  (λ f. omega (arith, f, high, own_top ip, bblock-lt sb c new.inside)) in
              own_entry ip_new j lo hi (λ f. y (sym at ∙ f))
              ∙ ap (λ b. load32 (d b) (4 * (j - ndirect))) at
              ∙ ap (λ m. load32 m (4 * (j - ndirect))) block
              ∙ sym (own_entry ip j lo hi y)
        ]
  ]

  there_addr : (j : ℕ) → place k ≢ j → j ≤ maxfile → own ip_new j ≡ own ip j
  unfolding ip_new
  there_addr j ne lt = elim (dec_lt j ndirect) [
    | yes low ↦
        own_direct ip_new j low
        ∙ update_ne ip.addrs k j c (λ e. ground (arith, ne, e, low))
        ∙ sym (own_direct ip j low)
    | no high ↦ elim (dec_lt j maxfile) [
      | yes entry ↦ there_entry j (omega arith) entry
      | no top ↦
          let e : j ≡ maxfile = omega arith in
          ap (own ip_new) e
          ∙ own_top ip_new
          ∙ update_ne ip.addrs k ndirect c (λ f. ground (arith, ne, e, f))
          ∙ sym (own_top ip)
          ∙ sym (ap (own ip) e)
    ]
  ]

  pub Grown-addr : Grown sb ip ip_new (place k) c d
  unfolding ip_new
  Grown-addr = record {
    new = new;
    low = ground arith;
    empty = own-place ip k le ∙ z;
    here = own-place ip_new k le ∙ update_self ip.addrs k c;
    there = there_addr;
    same = λ b h. refl;
  }

-- The new block is in the indirect block.
module _ (sb : Superblock) (ip : Node) (i c : ℕ) (d : Disk) (l : Layout sb) (w : IsNode sb ip)
    (nz : ip.addrs ndirect ≢ 0) (lt : i < nindirect) (z : own ip (ndirect + i) ≡ 0)
    (new : IsNew sb ip.disk c d) where
  unfoldable pub ip_entry : Node
  ip_entry = record ip {
    disk = update d (ip.addrs ndirect) (store32 (d (ip.addrs ndirect)) (4 * i) c);
  }

  indirect_kept : d (ip.addrs ndirect) ≡ ip.disk (ip.addrs ndirect)
  indirect_kept =
      let (high, hlt, used) = w.owned maxfile (omega arith) (λ f. nz (sym (own_top ip) ∙ f)) in
      new.others (ip.addrs ndirect)
        (λ f. ground (arith, new.was_free, used, own_top ip, ap (in_use sb ip.disk) f))
        (λ f. omega (arith, f, high, own_top ip, bblock-lt sb c new.inside))

  entry_load :
      (j : ℕ)
      → ndirect ≤ j
      → j < maxfile
      → own ip_entry j ≡ load32 (store32 (d (ip.addrs ndirect)) (4 * i) c) (4 * (j - ndirect))
  unfolding ip_entry
  entry_load j lo hi =
      own_entry ip_entry j lo hi nz
      ∙ ap (λ m. load32 m (4 * (j - ndirect))) (update_self d (ip.addrs ndirect) _)

  entry_there : (j : ℕ) → ndirect + i ≢ j → j ≤ maxfile → own ip_entry j ≡ own ip j
  unfolding ip_entry
  entry_there j ne hi = elim (dec_lt j ndirect) [
    | yes low ↦ own_direct ip_entry j low ∙ sym (own_direct ip j low)
    | no high ↦ elim (dec_lt j maxfile) [
      | yes entry ↦
          entry_load j (omega arith) entry
          ∙ load32-store32_ne (d (ip.addrs ndirect)) (4 * i) (4 * (j - ndirect)) c
              (apart_words j ne (omega arith))
          ∙ ap (λ m. load32 m (4 * (j - ndirect))) indirect_kept
          ∙ sym (own_entry ip j (omega arith) entry nz)
      | no top ↦
          let e : j ≡ maxfile = omega arith in
          ap (own ip_entry) e ∙ own_top ip_entry ∙ sym (own_top ip) ∙ sym (ap (own ip) e)
    ]
  ]
    where
      apart_words :
          (j : ℕ)
          → ndirect + i ≢ j
          → ndirect ≤ j
          → (4 * (j - ndirect) + 4 ≤ 4 * i) ⊎ (4 * i + 4 ≤ 4 * (j - ndirect))
      apart_words j ne lo = elim (dec_lt j (ndirect + i)) [
        | yes p ↦ inl (omega arith)
        | no p ↦ inr (omega arith)
      ]

  pub Grown-entry : Grown sb ip ip_entry (ndirect + i) c d
  unfolding ip_entry
  Grown-entry = record {
    new = new;
    low = omega arith;
    empty = z;
    here =
        entry_load (ndirect + i) (omega arith) (omega arith)
        ∙ ap (load32 _) entry_at
        ∙ load32-store32_self (d (ip.addrs ndirect)) (4 * i) c (omega (arith, l.words, new.inside));
    there = entry_there;
    same = λ b h. update_ne d (ip.addrs ndirect) b _ (λ e. nz (e ∙ h (own_top ip_entry ∙ e)));
  }
    where
      entry_at : 4 * (ndirect + i - ndirect) ≡ 4 * i
      entry_at = omega arith
