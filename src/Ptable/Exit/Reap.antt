-- ===== src/Ptable/Exit/Reap.antt =====
-- `wait` reaps a zombie child, and only that.
use osassignment.Prelude.{
  ℕ, zero, suc, ◌+◌, ◌≤◌, ◌<◌, ◌≡◌, ◌≢◌, ◌⊎◌, refl, Bool, true, false, ◌&&◌, ◌||◌, ◌==◌, set, none,
  some, inl, inr, Bool-cases, arith, ==_iff,
}
use osassignment.Prelude.Table.{skip_first, update_ne, update_self}
use osassignment.Proc.{Proc, unused, sleeping, is_zombie, nproc}
use osassignment.Ptable.{Services, Layout, Kernel, proc_addr}
use osassignment.Ptable.Exit.{
  is_child, Scan, found, missed, wait_scan, WaitResult, reaped, failed, sleeps, wait, wait_at,
}

abbrev pub is_zombie_child : ℕ → Proc → Bool
is_zombie_child cur p = is_child cur p && is_zombie p.state

-- The entries from `i` up to `e` fail a test.
abbrev pub Fails : (Proc → Bool) → (ℕ → Proc) → ℕ → ℕ → Type 0
Fails test ps i e = (j : ℕ) → i ≤ j → j < e → test (ps j) ≡ false

-- A child among the entries, or before them.
abbrev pub HasChild : ℕ → (ℕ → Proc) → ℕ → ℕ → Bool → Type 0
HasChild cur ps i n kids =
    (kids ≡ true) ⊎ ((k : ℕ) × (i ≤ k) × (k < i + n) × (is_child cur (ps k) ≡ true))

child_step :
    (cur : ℕ) (ps : ℕ → Proc) (i n : ℕ) (kids : Bool)
    → HasChild cur ps (i + 1) n (kids || is_child cur (ps i))
    → HasChild cur ps i (suc n) kids
child_step cur ps i n kids (inr (k, lo, hi, c)) = inr (k, omega arith, omega arith, c)
child_step cur ps i n kids (inl e) = elim (Bool-cases (is_child cur (ps i))) [
  | inl c ↦ inr (i, omega arith, omega arith, c)
  | inr c ↦ inl (ground arith)
]

-- What the loop finds in `n` entries from `i` on, with `kids` before them.
abbrev pub Scanned : ℕ → (ℕ → Proc) → ℕ → ℕ → Bool → Scan → Type 0
Scanned cur ps i n kids (found k) =
    (i ≤ k) × (k < i + n) × (is_zombie_child cur (ps k) ≡ true) × Fails (is_zombie_child cur) ps i k
Scanned cur ps i n kids (missed true) =
    Fails (is_zombie_child cur) ps i (i + n) × HasChild cur ps i n kids
Scanned cur ps i n kids (missed false) = (kids ≡ false) × Fails (is_child cur) ps i (i + n)

Scanned-next :
    (cur : ℕ) (ps : ℕ → Proc) (i n : ℕ) (kids : Bool) (o : Scan)
    → is_zombie_child cur (ps i) ≡ false
    → Scanned cur ps (i + 1) n (kids || is_child cur (ps i)) o
    → Scanned cur ps i (suc n) kids o
Scanned-next cur ps i n kids (found k) off (lo, hi, on, before) =
    (omega arith, omega arith, on, skip_first (is_zombie_child cur) ps i k off before)
Scanned-next cur ps i n kids (missed true) off (fails, kid) = (
  skip_first (is_zombie_child cur) ps i (i + suc n) off (λ j lo hi. fails j lo (omega arith)),
  child_step cur ps i n kids kid,
)
Scanned-next cur ps i n kids (missed false) off (none_yet, fails) = (
  ground arith,
  skip_first (is_child cur) ps i (i + suc n) (ground arith) (λ j lo hi. fails j lo (omega arith)),
)

wait_scan-Scanned :
    (cur : ℕ) (ps : ℕ → Proc) (i n : ℕ) (kids : Bool)
    → Scanned cur ps i n kids (wait_scan cur ps i n kids)
unfolding wait_scan
wait_scan-Scanned cur ps i zero true = (λ j lo hi. absurd (omega arith), inl refl)
wait_scan-Scanned cur ps i zero false = (refl, λ j lo hi. absurd (omega arith))
wait_scan-Scanned cur ps i (suc n) kids = elim (Bool-cases (is_zombie_child cur (ps i))) [
  | inl on ↦ rw on (omega arith, omega arith, on, λ j lo hi. absurd (omega arith))
  | inr off ↦ rw off (
      Scanned-next cur ps i n kids _ off
        (wait_scan-Scanned cur ps (i + 1) n (kids || is_child cur (ps i))))
]

-- The freed entry of a reaped child.
abbrev pub freed : Proc → Proc
freed p = record p {
  kstack = 0;
  pid = 0;
  parent = none;
  name = set p.name 0 0;
  killed = 0;
  state = unused;
}

-- What a round of `wait` does, result by result.
abbrev pub Waited : {R : Type 0} → Layout → ℕ → Kernel R → WaitResult R → Type 0
Waited l cur k (reaped pid k') =
    (i : ℕ) × (i < nproc)
    × (is_zombie_child cur (k.procs i) ≡ true)
    × (pid ≡ (k.procs i).pid)
    × (k'.procs i ≡ freed (k.procs i))
    × ((j : ℕ) → i ≢ j → k'.procs j ≡ k.procs j)
    × (k'.nextpid ≡ k.nextpid)
    × (k'.initproc ≡ k.initproc)
Waited l cur k failed =
    Fails (is_zombie_child cur) k.procs 0 nproc
    × (Fails (is_child cur) k.procs 0 nproc ⊎ ((k.procs cur).killed ≢ 0))
Waited l cur k (sleeps k') =
    Fails (is_zombie_child cur) k.procs 0 nproc
    × HasChild cur k.procs 0 nproc false
    × ((k.procs cur).killed ≡ 0)
    × (k'.procs cur ≡ record (k.procs cur) { chan = proc_addr l (some cur); state = sleeping })
    × ((j : ℕ) → cur ≢ j → k'.procs j ≡ k.procs j)
    × (k'.nextpid ≡ k.nextpid)
    × (k'.initproc ≡ k.initproc)

zombie_child : (cur : ℕ) (p : Proc) → is_child cur p ≡ false → is_zombie_child cur p ≡ false
zombie_child cur p e = rw e

after_scan :
    (s : Services) (l : Layout) (cur : ℕ) (k : Kernel s.Res) (o : Scan)
    → Scanned cur k.procs 0 nproc false o
    → Waited l cur k (wait_at s l cur k o)
unfolding wait_at
after_scan s l cur k (found i) (lo, hi, on, before) = (
  i,
  hi,
  on,
  refl,
  update_self k.procs i (freed (k.procs i)),
  λ j ne. update_ne k.procs i j (freed (k.procs i)) ne,
  refl,
  refl,
)
after_scan s l cur k (missed false) (_, fails) =
    ((λ j lo hi. zombie_child cur (k.procs j) (fails j lo hi)), inl fails)
after_scan s l cur k (missed true) (fails, kid) = elim (Bool-cases ((k.procs cur).killed == 0)) [
  | inl live ↦ rw live (
    fails,
    kid,
    (==_iff (k.procs cur).killed 0).0 live,
    update_self k.procs cur _,
    λ j ne. update_ne k.procs cur j _ ne,
    refl,
    refl,
  )
  | inr killed ↦ rw killed (fails, inr (ground arith))
]

-- `wait` frees the entry of a zombie child and returns its pid; it fails only if no child is a
-- zombie and there is no child or the caller was killed; otherwise, with a child and not killed, it
-- sleeps on its own address until the next round. No other entry changes.
pub wait-Waited :
    (s : Services) (l : Layout) (cur : ℕ) (k : Kernel s.Res) → Waited l cur k (wait s l cur k)
unfolding wait
wait-Waited s l cur k =
    after_scan s l cur k (wait_scan cur k.procs 0 nproc false)
      (wait_scan-Scanned cur k.procs 0 nproc false)
