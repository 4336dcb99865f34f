-- ===== src/Content/Store.antt =====
-- A dinode in memory.
use osassignment.Prelude.{ℕ, zero, suc, ◌+◌, ◌*◌, ◌^◌, ◌≤◌, ◌<◌, ◌≡◌, ◌⊎◌, refl, ap, ◌∙◌, arith}
use osassignment.Memory.{Mem, write, load32, store32}
use osassignment.Memory.Words.{load32-store32_self, load32_cong, store32_outside}
use osassignment.Content.{ndirect, Node, store16, load16, store_words, store_dinode}

pub load16-store16_self : (m : Mem) (a v : ℕ) → v < 2 ^ 16 → load16 (store16 m a v) a ≡ v
unfolding load16 store16 write
load16-store16_self m a v h = ground arith

pub store16_outside : (m : Mem) (a v x : ℕ) → (x < a) ⊎ (a + 2 ≤ x) → store16 m a v x ≡ m x
unfolding store16 write
store16_outside m a v x h = ground arith

load16_cong : (m k : Mem) (a : ℕ) → m a ≡ k a → m (a + 1) ≡ k (a + 1) → load16 m a ≡ load16 k a
unfolding load16
load16_cong m k a e f = ground (arith, e, f)

load16-store16_ne :
    (m : Mem) (a b v : ℕ) → (b + 2 ≤ a) ⊎ (a + 2 ≤ b) → load16 (store16 m a v) b ≡ load16 m b
load16-store16_ne m a b v h =
    load16_cong (store16 m a v) m b (store16_outside m a v b (omega arith))
      (store16_outside m a v (b + 1) (omega arith))

store_words_outside :
    (n k : ℕ) (words : ℕ → ℕ) (m : Mem) (a x : ℕ)
    → (x < a) ⊎ (a + 4 * n ≤ x)
    → store_words n k words m a x ≡ m x
unfolding store_words
store_words_outside zero k words m a x h = refl
store_words_outside (suc n) k words m a x h =
    store_words_outside n (k + 1) words (store32 m a (words k)) (a + 4) x (omega arith)
    ∙ store32_outside m a (words k) x (omega arith)

load32-store_words :
    (n k : ℕ) (words : ℕ → ℕ) (m : Mem) (a j : ℕ)
    → j < n
    → words (k + j) < 2 ^ 32
    → load32 (store_words n k words m a) (a + 4 * j) ≡ words (k + j)
unfolding store_words
load32-store_words zero k words m a j lt small = absurd (omega arith)
load32-store_words (suc n) k words m a zero lt small =
    let here : a + 4 * 0 ≡ a = omega arith in
    let first : k + 0 ≡ k = omega arith in
    let m1 = store32 m a (words k) in
    rw (here, first)
      (load32_cong (store_words n (k + 1) words m1 (a + 4)) m1 a a
          (store_words_outside n (k + 1) words m1 (a + 4) a (omega arith))
          (store_words_outside n (k + 1) words m1 (a + 4) (a + 1) (omega arith))
          (store_words_outside n (k + 1) words m1 (a + 4) (a + 2) (omega arith))
          (store_words_outside n (k + 1) words m1 (a + 4) (a + 3) (omega arith))
        ∙ load32-store32_self m a (words k) (omega (arith, small, ap words first)))
load32-store_words (suc n) k words m a (suc j) lt small =
    let there : a + 4 * suc j ≡ a + 4 + 4 * j = omega arith in
    let next : k + suc j ≡ k + 1 + j = omega arith in
    rw (there, next)
      (load32-store_words n (k + 1) words (store32 m a (words k)) (a + 4) j (omega arith)
        (omega (arith, small, ap words next)))

-- The widths of the fields.
pub record IsDinode (ip : Node) : Type 0 where
  pub kind_fits : ip.kind < 2 ^ 16
  pub major_fits : ip.major < 2 ^ 16
  pub minor_fits : ip.minor < 2 ^ 16
  pub nlink_fits : ip.nlink < 2 ^ 16
  pub size_fits : ip.size < 2 ^ 32
  pub addrs_fit : (k : ℕ) → k ≤ ndirect → ip.addrs k < 2 ^ 32

-- The dinode at `a` has the fields of `ip`.
pub record IsAt (ip : Node) (m : Mem) (a : ℕ) : Type 0 where
  pub kind_at : load16 m a ≡ ip.kind
  pub major_at : load16 m (a + 2) ≡ ip.major
  pub minor_at : load16 m (a + 4) ≡ ip.minor
  pub nlink_at : load16 m (a + 6) ≡ ip.nlink
  pub size_at : load32 m (a + 8) ≡ ip.size
  pub addrs_at : (k : ℕ) → k ≤ ndirect → load32 m (a + 12 + 4 * k) ≡ ip.addrs k

module _ (ip : Node) (m : Mem) (a : ℕ) where
  shorts : Mem
  shorts =
      store16 (store16 (store16 (store16 m a ip.kind) (a + 2) ip.major) (a + 4) ip.minor) (a + 6)
        ip.nlink

  -- The addresses come last.
  head_same : (x : ℕ) → x < a + 12 → store_dinode ip m a x ≡ store32 shorts (a + 8) ip.size x
  unfolding store_dinode shorts
  head_same x lt =
      store_words_outside (ndirect + 1) 0 ip.addrs (store32 shorts (a + 8) ip.size) (a + 12) x
        (omega arith)

  short_same : (x : ℕ) → x + 2 ≤ a + 8 → load16 (store_dinode ip m a) x ≡ load16 shorts x
  short_same x le =
      load16_cong (store_dinode ip m a) shorts x
        (head_same x (omega arith) ∙ store32_outside shorts (a + 8) ip.size x (omega arith))
        (head_same (x + 1) (omega arith)
          ∙ store32_outside shorts (a + 8) ip.size (x + 1) (omega arith))

  pub store_dinode_outside : (x : ℕ) → (x < a) ⊎ (a + 64 ≤ x) → store_dinode ip m a x ≡ m x
  unfolding store_dinode
  store_dinode_outside x h =
      store_words_outside (ndirect + 1) 0 ip.addrs _ (a + 12) x (omega arith)
      ∙ store32_outside _ (a + 8) ip.size x (omega arith)
      ∙ store16_outside _ (a + 6) ip.nlink x (omega arith)
      ∙ store16_outside _ (a + 4) ip.minor x (omega arith)
      ∙ store16_outside _ (a + 2) ip.major x (omega arith)
      ∙ store16_outside m a ip.kind x (omega arith)

  pub store_dinode-IsAt : IsDinode ip → IsAt ip (store_dinode ip m a) a
  unfolding shorts store_dinode
  store_dinode-IsAt w = record {
    kind_at =
        short_same a (omega arith)
        ∙ load16-store16_ne _ (a + 6) a ip.nlink (omega arith)
        ∙ load16-store16_ne _ (a + 4) a ip.minor (omega arith)
        ∙ load16-store16_ne _ (a + 2) a ip.major (omega arith)
        ∙ load16-store16_self m a ip.kind w.kind_fits;
    major_at =
        short_same (a + 2) (omega arith)
        ∙ load16-store16_ne _ (a + 6) (a + 2) ip.nlink (omega arith)
        ∙ load16-store16_ne _ (a + 4) (a + 2) ip.minor (omega arith)
        ∙ load16-store16_self _ (a + 2) ip.major w.major_fits;
    minor_at =
        short_same (a + 4) (omega arith)
        ∙ load16-store16_ne _ (a + 6) (a + 4) ip.nlink (omega arith)
        ∙ load16-store16_self _ (a + 4) ip.minor w.minor_fits;
    nlink_at =
        short_same (a + 6) (omega arith) ∙ load16-store16_self _ (a + 6) ip.nlink w.nlink_fits;
    size_at =
        load32_cong (store_dinode ip m a) (store32 shorts (a + 8) ip.size) (a + 8) (a + 8)
          (head_same (a + 8) (omega arith)) (head_same (a + 8 + 1) (omega arith))
          (head_same (a + 8 + 2) (omega arith)) (head_same (a + 8 + 3) (omega arith))
        ∙ load32-store32_self shorts (a + 8) ip.size w.size_fits;
    addrs_at = λ k le.
        let z : 0 + k ≡ k = omega arith in
        load32-store_words (ndirect + 1) 0 ip.addrs (store32 shorts (a + 8) ip.size) (a + 12) k
          (omega arith) (omega (arith, w.addrs_fit k le, ap ip.addrs z))
        ∙ ap ip.addrs z;
  }
