-- ===== src/Log/Recover.antt =====
-- Recovery, from a disk on which the power may have failed at any write, also during a recovery.
use osassignment.Prelude.{
  ℕ, zero, suc, ◌+◌, ◌-◌, ◌*◌, ◌≤◌, ◌<◌, ◌≡◌, ◌≢◌, ◌⊎◌, inl, inr, ◌∙◌, sym, ap, subst, ℕ_discrete,
  arith,
}
use osassignment.Memory.{Mem, load32, store32}
use osassignment.Log.{
  Log, Device, boot, install_trans, write_head, read_head, recover_from_log, store_blocks,
}
use osassignment.Log.Header.{IsHeader, store_blocks-IsHeader, read_head_lem}
use osassignment.Log.Commit.{
  Outside, IsTransaction, bwrite_self, bwrite_ne, bwrite_dead, install-power, install_outside,
  install-copies,
}

-- The blocks of the disk outside the log.
abbrev pub SameFiles : Log → (ℕ → Mem) → (ℕ → Mem) → Type 0
SameFiles log p q = (x : ℕ) → Outside log x → p x ≡ q x

-- A committed transaction `t` that is not erased: its blocks are in the log, and all others at home.
pub record Committed (t : Log) (disk target : ℕ → Mem) : Type 0 where
  pub header : IsHeader t.n t.block (disk t.start)
  pub logged : (i : ℕ) → i < t.n → disk (t.start + i + 1) ≡ target (t.block i)
  pub others : (x : ℕ) → Outside t x → ((i : ℕ) → i < t.n → t.block i ≢ x) → disk x ≡ target x

-- A disk from which recovery leads to the files `target`: no transaction, or a committed one.
abbrev pub LeadsTo : Log → (ℕ → Mem) → (ℕ → Mem) → Type 0
LeadsTo t disk target =
    (IsHeader 0 t.block (disk t.start) × SameFiles t disk target) ⊎ Committed t disk target

-- The log as `read_head` has it.
pub record SameTransaction (t log : Log) : Type 0 where
  pub n : log.n ≡ t.n
  pub block : (i : ℕ) → i < t.n → log.block i ≡ t.block i
  pub start : log.start ≡ t.start
  pub size : log.size ≡ t.size

pub SameTransaction-IsTransaction :
    (t log : Log) → SameTransaction t log → IsTransaction t → IsTransaction log
SameTransaction-IsTransaction t log s v = record {
  fits = omega (arith, s.n, s.size, v.fits);
  word = omega (arith, s.n, v.word);
  words = λ i h. omega (arith, s.block i (omega (arith, s.n)), v.words i (omega (arith, s.n)));
  outside = λ i h.
      let o = v.outside i (omega (arith, s.n)) in
      omega (arith, s.block i (omega (arith, s.n)), o, s.start, s.size);
  once = λ i j h g e.
      v.once i j (omega (arith, s.n)) (omega (arith, s.n))
        (sym (s.block i (omega (arith, s.n))) ∙ e ∙ s.block j (omega (arith, s.n)));
}

-- Is `x` one of the first `n` numbers?
pub find_home :
    (block : ℕ → ℕ) (x n : ℕ)
    → ((i : ℕ) × (i < n) × (block i ≡ x)) ⊎ ((i : ℕ) → i < n → block i ≢ x)
find_home block x zero = inr (λ i h. absurd (omega arith))
find_home block x (suc n) = elim (ℕ_discrete (block n) x) [
  | yes e ↦ inl (n, omega arith, e)
  | no ne ↦ elim (find_home block x n) [
    | inl (i, h, e) ↦ inl (i, omega arith, e)
    | inr none_yet ↦ inr (λ i h. elim (ℕ_discrete i n) [
      | yes q ↦ λ e. ne (ap block (sym q) ∙ e)
      | no d ↦ none_yet i (omega arith)
    ])
  ]
]

module _ (log : Log) (v : IsTransaction log) (target : ℕ → Mem) (d : Device) where
  -- After some rounds of `install_trans` a committed transaction still is.
  pub install-Committed :
      Committed log d.disk target → Committed log (install_trans log 0 log.n d).disk target
  install-Committed c = record {
    header =
        subst (IsHeader log.n log.block)
          (sym (kept log.start (λ i lo hi e. omega (arith, v.outside i (omega arith), e, v.fits))))
          c.header;
    logged = λ i h.
        kept (log.start + i + 1) (λ j lo hi e. omega (arith, v.outside j (omega arith), e, v.fits))
        ∙ c.logged i h;
    others = λ x o ne. kept x (λ j lo hi. ne j (omega arith)) ∙ c.others x o ne;
  }
    where
      kept :
          (x : ℕ)
          → ((i : ℕ) → 0 ≤ i → i < 0 + log.n → log.block i ≢ x)
          → (install_trans log 0 log.n d).disk x ≡ d.disk x
      kept x h = (install_outside log v log.n 0 d x h).0

  -- With power for all rounds the files are there.
  pub install-SameFiles :
      Committed log d.disk target
      → ((i : ℕ) → i < log.n → d.cache (log.start + i + 1) ≡ target (log.block i))
      → log.n ≤ d.power
      → SameFiles log (install_trans log 0 log.n d).disk target
  install-SameFiles c cached p x o = elim (find_home log.block x log.n) [
    | inl (i, h, e) ↦
        subst (λ y. (install_trans log 0 log.n d).disk y ≡ target y) e
          (install-copies log v log.n 0 d (omega arith) p i (omega arith) (omega arith)
            ∙ cached i h)
    | inr away ↦
        (install_outside log v log.n 0 d x (λ i lo hi. away i (omega arith))).0 ∙ c.others x o away
  ]

pub SameTransaction-sym : (t log : Log) → SameTransaction t log → SameTransaction log t
SameTransaction-sym t log s = record {
  n = sym s.n;
  block = λ i h. sym (s.block i (omega (arith, s.n)));
  start = sym s.start;
  size = sym s.size;
}

pub SameTransaction-Committed :
    (t log : Log) (disk target : ℕ → Mem)
    → SameTransaction t log
    → Committed t disk target
    → Committed log disk target
SameTransaction-Committed t log disk target s c = record {
  header = record {
    count = ap (λ x. load32 (disk x) 0) s.start ∙ c.header.count ∙ sym s.n;
    blocks = λ i h.
        ap (λ x. load32 (disk x) (4 + 4 * i)) s.start
        ∙ c.header.blocks i (omega (arith, s.n))
        ∙ sym (s.block i (omega (arith, s.n)));
  };
  logged = λ i h.
      ap disk {x = log.start + i + 1} {y = t.start + i + 1} (omega (arith, s.start))
      ∙ c.logged i (omega (arith, s.n))
      ∙ ap target (sym (s.block i (omega (arith, s.n))));
  others = λ x o ne.
      c.others x (omega (arith, o, s.start, s.size))
        (λ i h e. ne i (omega (arith, s.n)) (s.block i h ∙ e));
}

-- `write_head` with no blocks, where the power may be gone.
clear_lem :
    (log : Log) (d : Device)
    → let d' = write_head (record log { n = 0 }) d in
      ((d.power ≡ 0) × (d'.disk ≡ d.disk))
      ⊎ ((0 < d.power)
          × IsHeader 0 log.block (d'.disk log.start)
          × ((x : ℕ) → log.start ≢ x → d'.disk x ≡ d.disk x))
unfolding write_head
clear_lem log d =
    let b = store_blocks log.block 0 0 (store32 (d.cache log.start) 0 0) in
    elim (ℕ_discrete d.power 0) [
      | yes e ↦ inl (e, bwrite_dead log.start b d e)
      | no ne ↦ inr (
        omega arith,
        subst (IsHeader 0 log.block) (sym (bwrite_self log.start b d (omega arith))) (
            store_blocks-IsHeader 0 log.block (d.cache log.start) (omega arith)
              (λ i h. absurd (omega arith))),
        bwrite_ne log.start b d,
      )
    ]

-- Files that are there stay there when the header is erased or not.
abbrev pub Recovered : Log → (ℕ → Mem) → ℕ → Device → Type 0
Recovered t target power d' = LeadsTo t d'.disk target × (t.n < power → SameFiles t d'.disk target)

Outside-ne : (log : Log) → IsTransaction log → (x : ℕ) → Outside log x → log.start ≢ x
Outside-ne log v x o e = omega (arith, o, e, v.fits)

clear-Recovered :
    (log : Log) (v : IsTransaction log) (target : ℕ → Mem) (power : ℕ) (d : Device)
    → d.power ≡ power - log.n
    → Committed log d.disk target
    → (log.n ≤ power → SameFiles log d.disk target)
    → Recovered log target power (write_head (record log { n = 0 }) d)
clear-Recovered log v target power d p c files = elim (clear_lem log d) [
  | inl (z, e) ↦ rw e (inr c, λ h. absurd (omega (arith, p, z)))
  | inr (z, head, same) ↦
      let f : SameFiles log (write_head (record log { n = 0 }) d).disk target =
        λ x o. same x (Outside-ne log v x o) ∙ files (omega (arith, p)) x o in
      (inl (head, f), λ h. f)
]

pub recover-Committed :
    (log : Log) (v : IsTransaction log) (target : ℕ → Mem) (d : Device)
    → ((i : ℕ) → i < log.n → d.cache (log.start + i + 1) ≡ target (log.block i))
    → Committed log d.disk target
    → Recovered log target d.power (write_head (record log { n = 0 }) (install_trans log 0 log.n d))
recover-Committed log v target d cached c =
    clear-Recovered log v target d.power (install_trans log 0 log.n d)
      (install-power log v log.n 0 d) (install-Committed log v target d c)
      (install-SameFiles log v target d c cached)

recover-none :
    (t log : Log) (v : IsTransaction t) (target : ℕ → Mem) (d : Device)
    → log.n ≡ 0
    → log.start ≡ t.start
    → IsHeader 0 t.block (d.disk t.start)
    → SameFiles t d.disk target
    → Recovered t target d.power (write_head (record log { n = 0 }) (install_trans log 0 log.n d))
unfolding install_trans
recover-none t log v target d z s head files = rw z (elim (clear_lem log d) [
  | inl (_, e) ↦ rw e (inl (head, files), λ h. files)
  | inr (_, head', same) ↦
      let f : SameFiles t (write_head (record log { n = 0 }) d).disk target =
        λ x o. same x (λ e. Outside-ne t v x o (sym s ∙ e)) ∙ files x o in
      (
        inl (
          record {
            count =
                ap (λ x. load32 ((write_head (record log { n = 0 }) d).disk x) 0) (sym s)
                ∙ head'.count;
            blocks = λ i h. absurd (omega arith);
          },
          f,
        ),
        λ h. f,
      )
])

SameTransaction-LeadsTo :
    (t log : Log) (disk target : ℕ → Mem)
    → SameTransaction t log
    → LeadsTo log disk target
    → LeadsTo t disk target
SameTransaction-LeadsTo t log disk target s (inl (head, files)) = inl (
  record {
    count = ap (λ x. load32 (disk x) 0) (sym s.start) ∙ head.count;
    blocks = λ i h. absurd (omega arith);
  },
  λ x o. files x (omega (arith, o, s.start, s.size)),
)
SameTransaction-LeadsTo t log disk target s (inr c) =
    inr (SameTransaction-Committed log t disk target (SameTransaction-sym t log s) c)

Recovered-same :
    (t log : Log) (v : IsTransaction t) (target : ℕ → Mem) (power : ℕ) (s : SameTransaction t log)
    (d : Device)
    → Recovered log target power d
    → Recovered t target power d
Recovered-same t log v target power s d (leads, files) = (
  SameTransaction-LeadsTo t log d.disk target s leads,
  λ h x o. files (omega (arith, s.n)) x (omega (arith, o, s.start, s.size)),
)

-- `recover_from_log` at any power keeps where the disk leads to, and gets there if the power lasts.
pub recover-Recovered :
    (t log : Log) (v : IsTransaction t) (target : ℕ → Mem) (power : ℕ) (d : Device)
    → log.start ≡ t.start
    → log.size ≡ t.size
    → LeadsTo t d.disk target
    → Recovered t target power (recover_from_log log (boot power d)).1
unfolding recover_from_log boot
recover-Recovered t log v target power d st sz (inl (head, files)) =
    let b = boot power d in
    let (n, _, s, _) =
      read_head_lem b log 0 t.block (subst (λ x. IsHeader 0 t.block (d.disk x)) (sym st) head) in
    recover-none t (read_head b log) v target b n (s ∙ st) head files
recover-Recovered t log v target power d st sz (inr c) =
    let b = boot power d in
    let (n, blocks, s, z) =
      read_head_lem b log t.n t.block
        (subst (λ x. IsHeader t.n t.block (d.disk x)) (sym st) c.header) in
    let same : SameTransaction t (read_head b log) = record {
      n = n;
      block = blocks;
      start = s ∙ st;
      size = z ∙ sz;
    } in
    let c' = SameTransaction-Committed t (read_head b log) d.disk target same c in
    Recovered-same t (read_head b log) v target power same (recover_from_log log b).1 (
      recover-Committed (read_head b log) (SameTransaction-IsTransaction t (read_head b log) same v)
        target b c'.logged c')
