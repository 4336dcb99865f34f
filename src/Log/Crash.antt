-- ===== src/Log/Crash.antt =====
-- A commit that the power cuts off at any write, and any number of recoveries after it.
use osassignment.Prelude.{
  ℕ, ◌+◌, ◌-◌, ◌≤◌, ◌<◌, ◌≡◌, ◌≢◌, ◌⊎◌, inl, inr, ◌∙◌, sym, ap, subst, List, [], ◌∷◌, lt→ltb,
  ℕ_discrete, arith,
}
use osassignment.Memory.{Mem, load32}
use osassignment.Memory.{store32}
use osassignment.Log.{
  store_blocks, Log, Device, boot, install_trans, write_log, write_head, commit, recover_from_log,
}
use osassignment.Log.Header.{IsHeader, store_blocks-IsHeader}
use osassignment.Log.Commit.{
  Outside, IsTransaction, bwrite_self, bwrite_ne, write_log-power, write_log_outside,
  write_log-copies, install-power, install-dead, write_head-dead, bwrite_power, bwrite-cache_ne,
}
use osassignment.Log.Recover.{SameFiles, Committed, LeadsTo, recover-Recovered, recover-Committed}

module _ (log : Log) (v : IsTransaction log) (d : Device)
    (clean : (x : ℕ)
      → Outside log x
      → ((i : ℕ) → i < log.n → log.block i ≢ x)
      → d.cache x ≡ d.disk x)
    (idle : load32 (d.disk log.start) 0 ≡ 0) where
  abbrev d1 : Device
  d1 = write_log log 0 log.n d

  d1-Outside : (x : ℕ) → Outside log x → (d1.disk x ≡ d.disk x) × (d1.cache x ≡ d.cache x)
  d1-Outside x o = write_log_outside log v log.n 0 d x (omega (arith, o, v.fits))

  d1-LeadsTo : LeadsTo log d1.disk d.disk
  d1-LeadsTo = inl (
    record {
      count =
          ap (λ b. load32 b 0) (write_log_outside log v log.n 0 d log.start (omega arith)).0 ∙ idle;
      blocks = λ i h. absurd (omega arith);
    },
    λ x o. (d1-Outside x o).0,
  )

  abbrev d2 : Device
  d2 = write_head log d1

  abbrev head : Mem
  head = store_blocks log.block 0 log.n (store32 (d1.cache log.start) 0 log.n)

  Outside-ne_start : (x : ℕ) → Outside log x → log.start ≢ x
  Outside-ne_start x o e = omega (arith, o, e, v.fits)

  -- The write of the header commits.
  d2-Committed : 0 < d1.power → Committed log d2.disk d.cache
  unfolding write_head
  d2-Committed h = record {
    header =
        subst (IsHeader log.n log.block) (sym (bwrite_self log.start head d1 h))
          (store_blocks-IsHeader log.n log.block (d1.cache log.start) v.word v.words);
    logged = λ i lt.
        bwrite_ne log.start head d1 (log.start + i + 1) (λ e. omega (arith, e))
        ∙ (write_log-copies log v log.n 0 d (omega arith) i (omega arith) (omega arith)).0
            (omega (arith, write_log-power log v log.n 0 d));
    others = λ x o away.
        bwrite_ne log.start head d1 x (Outside-ne_start x o)
        ∙ (d1-Outside x o).0
        ∙ sym (clean x o away);
  }

  d2-cached : (i : ℕ) → i < log.n → d2.cache (log.start + i + 1) ≡ d.cache (log.block i)
  unfolding write_head
  d2-cached i h =
      bwrite-cache_ne log.start head d1 (log.start + i + 1) (λ e. omega (arith, e))
      ∙ (write_log-copies log v log.n 0 d (omega arith) i (omega arith) (omega arith)).1

  d2_power : d2.power ≡ d.power - log.n - 1
  unfolding write_head
  d2_power = omega (arith, bwrite_power log.start head d1, write_log-power log v log.n 0 d)

  -- The disk at any cut leads to the files as they were or to those in the cache, and it leads to
  -- the latter if the power lasts for the write of the header.
  commit-LeadsTo :
      0 < log.n
      → let d' = (commit log d).1 in
        (LeadsTo log d'.disk d.disk × (d.power ≤ log.n)) ⊎ LeadsTo log d'.disk d.cache
  unfolding commit
  commit-LeadsTo h = rw (lt→ltb 0 log.n h) (elim (ℕ_discrete d1.power 0) [
    | no ne ↦ inr ((recover-Committed log v d.cache d2 d2-cached (d2-Committed (omega arith))).0)
    | yes z ↦
        let (same, z2) = write_head-dead log d1 z in
        let dead =
          (write_head-dead (record log { n = 0 }) (install_trans log 0 log.n d2)
            (omega (arith, z2, install-power log v log.n 0 d2))).0
          ∙ install-dead log log.n 0 d2 z2
          ∙ same in
        inl (
          subst (λ k. LeadsTo log k d.disk) (sym dead) d1-LeadsTo,
          omega (arith, z, write_log-power log v log.n 0 d),
        )
  ])

-- Power comes back and fails again, after this many writes each time.
abbrev pub reboots : Log → List ℕ → Device → Device
reboots log [] d = d
reboots log (power ∷ ps) d = reboots log ps (recover_from_log log (boot power d)).1

reboots-LeadsTo :
    (t : Log) (v : IsTransaction t) (log : Log) (target : ℕ → Mem) (ps : List ℕ) (d : Device)
    → log.start ≡ t.start
    → log.size ≡ t.size
    → LeadsTo t d.disk target
    → LeadsTo t (reboots log ps d).disk target
reboots-LeadsTo t v log target [] d s z l = l
reboots-LeadsTo t v log target (power ∷ ps) d s z l =
    reboots-LeadsTo t v log target ps (recover_from_log log (boot power d)).1 s z
      (recover-Recovered t log v target power d s z l).0

-- Before the commit no transaction is on the disk, and the cache differs from it at most at the blocks
-- of the transaction and in the log. The power fails after any number of writes of `commit`, and
-- again during any number of recoveries. After the first recovery with power for one write more than
-- the transaction has blocks, the disk outside the log is as it was before the commit, or it is as
-- the cache was; and as the cache was if the first power lasted for the write of the header.
pub commit-recovery :
    (log : Log) (d : Device) (boot_log : Log) (ps : List ℕ) (power : ℕ)
    → IsTransaction log
    → 0 < log.n
    → ((x : ℕ) → Outside log x → ((i : ℕ) → i < log.n → log.block i ≢ x) → d.cache x ≡ d.disk x)
    → load32 (d.disk log.start) 0 ≡ 0
    → boot_log.start ≡ log.start
    → boot_log.size ≡ log.size
    → log.n < power
    → let d' = (recover_from_log boot_log (boot power (reboots boot_log ps (commit log d).1))).1 in
      (SameFiles log d'.disk d.disk × (d.power ≤ log.n)) ⊎ SameFiles log d'.disk d.cache
commit-recovery log d boot_log ps power v some_blocks clean idle s z enough =
    elim (commit-LeadsTo log v d clean idle some_blocks) [
      | inl (l, cut) ↦ inl (final d.disk l, cut)
      | inr l ↦ inr (final d.cache l)
    ]
  where
    final :
        (target : ℕ → Mem)
        → LeadsTo log (commit log d).1.disk target
        → SameFiles log
            (recover_from_log boot_log (boot power (reboots boot_log ps (commit log d).1))).1.disk
            target
    final target l =
        (recover-Recovered log boot_log v target power (reboots boot_log ps (commit log d).1) s z
            (reboots-LeadsTo log v boot_log target ps (commit log d).1 s z l)).1
          enough
