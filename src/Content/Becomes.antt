-- ===== src/Content/Becomes.antt =====
-- A new block, and an inode that only gets more blocks.
use osassignment.Prelude.{
  ℕ_discrete, ℕ, ◌+◌, ◌*◌, ◌/◌, ◌≤◌, ◌<◌, ◌≡◌, ◌≢◌, ◌⊎◌, inl, inr, refl, sym, ◌∙◌, true, false,
  ◌||◌, ◌==◌, arith, dec_lt,
}
use osassignment.Prelude.Run.{Ensures}
use osassignment.Balloc.{bsize, bpb, Superblock, Disk, bblock, Result}
use osassignment.Balloc.Bitmap.{in_use, BallocOf, balloc-BallocOf}
use osassignment.Content.{maxfile, Node, new_block, from_balloc}
use osassignment.Content.Owned.{data_start, Layout, own, IsNode, byte, IsForeign, IsNode-MapInUse}

-- There is no free block.
abbrev pub IsFull : Superblock → Disk → Type 0
IsFull sb disk = (b : ℕ) → b < sb.size → in_use sb disk b ≡ true

-- `d` is `disk` with the block `c` allocated.
pub record IsNew (sb : Superblock) (disk : Disk) (c : ℕ) (d : Disk) : Type 0 where
  pub after_meta : data_start sb ≤ c
  pub inside : c < sb.size
  pub was_free : in_use sb disk c ≡ false
  pub bits : (b : ℕ) → b < sb.size → in_use sb d b ≡ (in_use sb disk b || (c == b))
  pub zeros : (i : ℕ) → i < bsize → d c i ≡ 0
  pub others : (b : ℕ) → c ≢ b → bblock sb c ≢ b → d b ≡ disk b

BallocOf-IsNew :
    (sb : Superblock) (disk : Disk) (r : Result)
    → Layout sb
    → ((b : ℕ) → b < data_start sb → in_use sb disk b ≡ true)
    → BallocOf sb disk r
    → Ensures (IsFull sb disk) (λ p. IsNew sb disk p.0 p.1) (from_balloc r)
BallocOf-IsNew sb disk Result.panics l meta h = h
BallocOf-IsNew sb disk Result.out_of_fuel l meta h = h
BallocOf-IsNew sb disk (Result.allocated c d) l meta (lt, free, bits, zeros, others) = record {
  after_meta = elim (dec_lt c (data_start sb)) [
    | yes low ↦ absurd (ground (arith, meta c low, free))
    | no high ↦ omega arith
  ];
  inside = lt;
  was_free = free;
  bits = bits;
  zeros = zeros;
  others = others;
}

pub new_block-IsNew :
    (sb : Superblock) (ip : Node)
    → Layout sb
    → IsNode sb ip
    → Ensures (IsFull sb ip.disk) (λ p. IsNew sb ip.disk p.0 p.1) (new_block sb ip.disk)
unfolding new_block
new_block-IsNew sb ip l w =
    BallocOf-IsNew sb ip.disk _ l w.meta
      (balloc-BallocOf (sb.size / bpb + 2) sb ip.disk (IsNode-MapInUse sb ip l w) (omega arith))

-- The fields that no change of the content touches.
abbrev pub SameFields : Node → Node → Type 0
SameFields a b =
    (a.inum ≡ b.inum)
    × (a.kind ≡ b.kind)
    × (a.major ≡ b.major)
    × (a.minor ≡ b.minor)
    × (a.nlink ≡ b.nlink)
    × (a.size ≡ b.size)

-- `ip'` is `ip` with perhaps more blocks, at places in `T` alone, and the content `f`; all that is not of this inode is as it
-- was, and a block that is in use now was in use or is of this inode.
pub record Becomes (sb : Superblock) (T : ℕ → Type 0) (ip : Node) (f : ℕ → ℕ) (ip' : Node)
    : Type 0 where
  pub node : IsNode sb ip'
  pub content : (off : ℕ) → off < maxfile * bsize → byte ip' off ≡ f off
  pub foreign : (b : ℕ) → IsForeign sb ip b → IsForeign sb ip' b × (ip'.disk b ≡ ip.disk b)
  pub meta_same : (b : ℕ) → b < sb.bmapstart → ip'.disk b ≡ ip.disk b
  pub kept : (k : ℕ) → k ≤ maxfile → own ip k ≢ 0 → own ip' k ≡ own ip k
  pub only :
      (b : ℕ)
      → b < sb.size
      → in_use sb ip'.disk b ≡ true
      → (in_use sb ip.disk b ≡ true) ⊎ ((k : ℕ) × (k ≤ maxfile) × (own ip' k ≡ b) × (b ≢ 0))
  pub grown : (k : ℕ) → k ≤ maxfile → own ip' k ≢ own ip k → T k
  pub fields : SameFields ip' ip

pub Becomes-refl :
    (sb : Superblock) (T : ℕ → Type 0) (ip : Node) → IsNode sb ip → Becomes sb T ip (byte ip) ip
Becomes-refl sb T ip w = record {
  node = w;
  content = λ off lt. refl;
  foreign = λ b h. (h, refl);
  meta_same = λ b lt. refl;
  kept = λ k le ne. refl;
  only = λ b lt h. inl h;
  grown = λ k le ne. absurd (ne refl);
  fields = (refl, refl, refl, refl, refl, refl);
}

pub Becomes-trans :
    (sb : Superblock) (T : ℕ → Type 0) (a b c : Node) (f g : ℕ → ℕ)
    → Becomes sb T a f b
    → Becomes sb T b g c
    → Becomes sb T a g c
Becomes-trans sb T a b c f g p q = record {
  node = q.node;
  content = q.content;
  foreign = λ x h. let (h1, e1) = p.foreign x h in let (h2, e2) = q.foreign x h1 in (h2, e2 ∙ e1);
  meta_same = λ x lt. q.meta_same x lt ∙ p.meta_same x lt;
  kept = λ k le ne. q.kept k le (λ e. ne (sym (p.kept k le ne) ∙ e)) ∙ p.kept k le ne;
  only = λ x lt h. elim (q.only x lt h) [
    | inr mine ↦ inr mine
    | inl was ↦ elim (p.only x lt was) [
      | inl was2 ↦ inl was2
      | inr (k, le, at, nz) ↦ inr (k, le, q.kept k le (λ e. nz (sym at ∙ e)) ∙ at, nz)
    ]
  ];
  grown = λ k le ne. elim (ℕ_discrete (own b k) (own a k)) [
    | yes e ↦ q.grown k le (λ e2. ne (e2 ∙ e))
    | no d ↦ p.grown k le d
  ];
  fields = ground (arith, p.fields, q.fields);
}

pub Becomes-cong :
    (sb : Superblock) (T : ℕ → Type 0) (a b : Node) (f g : ℕ → ℕ)
    → ((off : ℕ) → off < maxfile * bsize → f off ≡ g off)
    → Becomes sb T a f b
    → Becomes sb T a g b
Becomes-cong sb T a b f g e p = record {
  node = p.node;
  content = λ off lt. p.content off lt ∙ e off lt;
  foreign = p.foreign;
  meta_same = p.meta_same;
  kept = p.kept;
  only = p.only;
  grown = p.grown;
  fields = p.fields;
}

pub Becomes-mono :
    (sb : Superblock) (T T2 : ℕ → Type 0) (a b : Node) (f : ℕ → ℕ)
    → ((k : ℕ) → T k → T2 k)
    → Becomes sb T a f b
    → Becomes sb T2 a f b
Becomes-mono sb T T2 a b f more p = record {
  node = p.node;
  content = p.content;
  foreign = p.foreign;
  meta_same = p.meta_same;
  kept = p.kept;
  only = p.only;
  grown = λ k le ne. more k (p.grown k le ne);
  fields = p.fields;
}
