-- ===== src/Log/Space.antt =====
-- Room in the log: operations that each write at most MAXOPBLOCKS blocks never log more than LOGSIZE.
use osassignment.Prelude.{
  ℕ, zero, suc, ◌+◌, ◌*◌, ◌≤◌, ◌<◌, ◌≡◌, ◌≢◌, ◌⊎◌, inl, inr, refl, ◌∙◌, sym, ap, subst, true, some,
  List, [], ◌∷◌, ◌++◌, length, ◌==◌, ne_of_==, if◌then◌else◌, Bool-cases, ℕ_discrete, dec_lt, none,
  arith,
}
use osassignment.Prelude.Table.{update, update_self, update_ne}
use osassignment.Log.{Log, log_write, find_block, logsize, maxopblocks}

-- What each open operation may still write.
abbrev pub total : List ℕ → ℕ
total [] = 0
total (b ∷ bs) = b + total bs

abbrev pub Within : List ℕ → Type 0
Within [] = Unit
Within (b ∷ bs) = (b ≤ maxopblocks) × Within bs

pub record HasSpace (size : ℕ) (log : Log) (bs : List ℕ) : Type 0 where
  pub open_ops : log.outstanding ≡ length bs
  pub within : Within bs
  pub few : log.outstanding ≤ 3
  pub sized : log.size ≡ size
  pub room : log.n + total bs ≤ logsize
  pub idle : log.committing ≡ true → bs ≡ []
  pub once : (i j : ℕ) → i < log.n → j < log.n → log.block i ≡ log.block j → i ≡ j

pub total-middle :
    (front : List ℕ) (b : ℕ) (rest : List ℕ)
    → total (front ++ (b ∷ rest)) ≡ b + total (front ++ rest)
total-middle [] b rest = refl
total-middle (x ∷ front) b rest = omega (arith, total-middle front b rest)

pub length-middle :
    (front : List ℕ) (b : ℕ) (rest : List ℕ)
    → length (front ++ (b ∷ rest)) ≡ suc (length (front ++ rest))
length-middle [] b rest = refl
length-middle (x ∷ front) b rest = ap suc (length-middle front b rest)

pub Within-middle :
    (front : List ℕ) (b c : ℕ) (rest : List ℕ)
    → c ≤ b
    → Within (front ++ (b ∷ rest))
    → Within (front ++ (c ∷ rest)) × Within (front ++ rest)
Within-middle [] b c rest h (w, ws) = ((omega arith, ws), ws)
Within-middle (x ∷ front) b c rest h (w, ws) =
    let (f, g) = Within-middle front b c rest h ws in ((w, f), (w, g))

pub total-le : (bs : List ℕ) → Within bs → total bs ≤ maxopblocks * length bs
total-le [] w = omega arith
total-le (b ∷ bs) (w, ws) = omega (arith, total-le bs ws)

-- The place of `x` among the entries, or the end.
abbrev FoundAt : (ℕ → ℕ) → ℕ → ℕ → ℕ → ℕ → Type 0
FoundAt block x i k r =
    ((i ≤ r) × (r < i + k) × (block r ≡ x))
    ⊎ ((r ≡ i + k) × ((j : ℕ) → i ≤ j → j < i + k → block j ≢ x))

FoundAt-next :
    (block : ℕ → ℕ) (x i k r : ℕ)
    → block i ≢ x
    → FoundAt block x (i + 1) k r
    → FoundAt block x i (suc k) r
FoundAt-next block x i k r ne (inl (lo, hi, e)) = inl (omega arith, omega arith, e)
FoundAt-next block x i k r ne (inr (e, away)) = inr (
  omega arith,
  λ j lo hi. elim (ℕ_discrete j i) [
    | yes q ↦ λ c. ne (ap block (sym q) ∙ c)
    | no d ↦ away j (omega arith) (omega arith)
  ],
)

find_block-FoundAt : (block : ℕ → ℕ) (x i k : ℕ) → FoundAt block x i k (find_block block x i k)
unfolding find_block
find_block-FoundAt block x i zero = inr (omega arith, λ j lo hi. absurd (omega arith))
find_block-FoundAt block x i (suc k) = elim (Bool-cases (block i == x)) [
  | inl e ↦ rw e (inl (omega arith, omega arith, ground arith))
  | inr off ↦ rw off (
      FoundAt-next block x i k (find_block block x (i + 1) k) (ne_of_== (block i) x off)
        (find_block-FoundAt block x (i + 1) k))
]

-- The log after `log_write` of block `x`.
pub record Logged (x : ℕ) (log log' : Log) : Type 0 where
  pub same_ops : log'.outstanding ≡ log.outstanding
  pub same_phase : log'.committing ≡ log.committing
  pub same_size : log'.size ≡ log.size
  pub grows : (log.n ≤ log'.n) × (log'.n ≤ log.n + 1)
  pub once : (i j : ℕ) → i < log'.n → j < log'.n → log'.block i ≡ log'.block j → i ≡ j

placed :
    (x : ℕ) (log : Log) (i : ℕ)
    → ((i j : ℕ) → i < log.n → j < log.n → log.block i ≡ log.block j → i ≡ j)
    → FoundAt log.block x 0 log.n i
    → Logged x log
        (record log { block = update log.block i x; n = if i == log.n then log.n + 1 else log.n })
placed x log i once (inl (lo, hi, e)) = record {
  same_ops = refl;
  same_phase = refl;
  same_size = refl;
  grows = (ground arith, ground arith);
  once = λ j k hj hk c. once j k (ground arith) (ground arith) (sym (kept j) ∙ c ∙ kept k);
}
  where
    kept : (j : ℕ) → update log.block i x j ≡ log.block j
    kept j = elim (ℕ_discrete i j) [
      | yes q ↦
          subst (λ u. update log.block i x u ≡ log.block u) q (update_self log.block i x ∙ sym e)
      | no ne ↦ update_ne log.block i j x ne
    ]
placed x log i once (inr (e, away)) = record {
  same_ops = refl;
  same_phase = refl;
  same_size = refl;
  grows = (ground arith, ground arith);
  once = λ j k hj hk c. elim (ℕ_discrete i j) [
    | yes p ↦ elim (ℕ_discrete i k) [
      | yes q ↦ omega arith
      | no nk ↦ absurd (
          away k (omega arith) (ground arith) (sym (update_ne log.block i k x nk) ∙ sym c ∙ at j p))
    ]
    | no nj ↦ elim (ℕ_discrete i k) [
      | yes q ↦
          absurd
            (away j (omega arith) (ground arith) (sym (update_ne log.block i j x nj) ∙ c ∙ at k q))
      | no nk ↦
          once j k (ground arith) (ground arith)
            (sym (update_ne log.block i j x nj) ∙ c ∙ update_ne log.block i k x nk)
    ]
  ];
}
  where
    at : (j : ℕ) → i ≡ j → update log.block i x j ≡ x
    at j q = subst (λ u. update log.block i x u ≡ x) q (update_self log.block i x)

-- `log_write` panics exactly when the header and the logged blocks fill the log.
pub log_write-Logged :
    (x : ℕ) (log : Log)
    → log.n < logsize
    → log.outstanding ≢ 0
    → log.outstanding ≤ 3
    → ((i j : ℕ) → i < log.n → j < log.n → log.block i ≡ log.block j → i ≡ j)
    → ((log.size ≤ log.n + 1) × (log_write x log ≡ none))
      ⊎ ((log.n + 1 < log.size)
          × ((log' : Log) × (log_write x log ≡ some log') × Logged x log log'))
unfolding log_write
log_write-Logged x log h o few once = elim (dec_lt (log.n + 1) log.size) [
  | no g ↦ inl (omega arith, ground arith)
  | yes g ↦
      let i = find_block log.block x 0 log.n in
      inr (
        g,
        (
          record log { block = update log.block i x; n = if i == log.n then log.n + 1 else log.n },
          ground arith,
          placed x log i once (find_block-FoundAt log.block x 0 log.n),
        ),
      )
]
