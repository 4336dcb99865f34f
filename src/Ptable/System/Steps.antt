-- ===== src/Ptable/System/Steps.antt =====
-- Every step of the table keeps the invariant.
use osassignment.Prelude.{
  ℕ, ◌+◌, ◌^◌, ◌≤◌, ◌<◌, ◌≡◌, ◌≢◌, refl, ◌∙◌, sym, ap, subst, Bool, true, false, Option, none, some,
  inl, inr, ℕ_discrete, Bool-cases, arith,
}
use osassignment.Prelude.Table.{update}
use osassignment.Proc.{Proc, sleeping, runnable, running, nproc}
use osassignment.Ptable.{Services, Layout, Kernel, wakeup1, wakes, kill, proc_addr}
use osassignment.Ptable.Wakeup.{woken, wakeup1_lem}
use osassignment.Ptable.Kill.{Killed, kill_lem}
use osassignment.Ptable.Fork.{fork}
use osassignment.Ptable.Fork.Child.{ForkResult, fork-ForkResult}
use osassignment.Ptable.Exit.{exit}
use osassignment.Ptable.Exit.Exited.{exit-Exited}
use osassignment.Ptable.Exit.Reap.{Waited, wait-Waited}
use osassignment.Ptable.System.Lives.{Refused-Inv, Reaped-Inv, Forked-Inv}
use osassignment.Ptable.System.Deaths.{exit-init, Exited-Inv}
use osassignment.Ptable.System.Inv.{
  Used, Alive, Inv, Alike, Alike-Inv, Alike-refl, update-Alike, Alike-procs,
}
use osassignment.Ptable.System.{
  Step, forks, exits, reaps, waits, sleeps_on, wakes_up, kills, yields, schedules, resumes, Reach,
  here, next, forks_in, fork_count, sleep_on, tidy_up, give_up, dispatch,
}

woken-Alike : (chan : ℕ) (p : Proc) → Alike p (woken chan p)
woken-Alike chan p = elim (Bool-cases (wakes chan p)) [
  | inl e ↦
      rw e
        (record { pid = refl; parent = refl; used = λ u. ground arith; alive = λ a. ground arith })
  | inr e ↦ rw e (Alike-refl p)
]

wakeup1-Alike : (chan : ℕ) (ps : ℕ → Proc) (j : ℕ) → j < nproc → Alike (ps j) (wakeup1 chan ps j)
wakeup1-Alike chan ps j h = rw (wakeup1_lem chan ps j h) (woken-Alike chan (ps j))

-- From a running process to one that runs, waits or is runnable.
awake-Alike : (p q : Proc) → q.pid ≡ p.pid → q.parent ≡ p.parent → Used p → Alive q → Alike p q
awake-Alike p q e f u a = record { pid = e; parent = f; used = λ _. u; alive = λ _. a }

sent-Alike : (p q : Proc) → q ≡ record p { pending = q.pending } → Alike p q
sent-Alike p q e = record {
  pid = ap (λ r. r.pid) e;
  parent = ap (λ r. r.parent) e;
  used = λ u. ground arith;
  alive = λ a. ground arith;
}

kill-Alike : (pid signum : ℕ) (ps : ℕ → Proc) (j : ℕ) → Alike (ps j) ((kill pid signum ps).1 j)
kill-Alike pid signum ps = go (kill pid signum ps).0 (kill pid signum ps).1 (kill_lem pid signum ps)
  where
    go : (b : Bool) (qs : ℕ → Proc) → Killed pid signum ps (b, qs) → (j : ℕ) → Alike (ps j) (qs j)
    go false qs (e, _) j = rw e (Alike-refl (ps j))
    go true qs (_, (i, _, _, _, sent)) j = elim (ℕ_discrete i j) [
      | yes e ↦ rw (← e) (sent-Alike (ps i) (qs i) sent.rest)
      | no ne ↦ rw (sent.others j ne) (Alike-refl (ps j))
    ]

-- One entry is written.
written-Inv :
    {R : Type 0} (k : Kernel R) (i : ℕ) (p : Proc)
    → Alike (k.procs i) p
    → Inv k
    → Inv (record k { procs = update k.procs i p })
written-Inv k i p a = Alike-procs k (update k.procs i p) (λ j _. update-Alike k.procs i p a j)

running-Used : (p : Proc) → p.state ≡ running → Used p
running-Used p e u = ground arith

running-Alive : (p : Proc) → p.state ≡ running → Alive p
running-Alive p e = (λ u. ground arith, λ u. ground arith)

same_kernel : {R : Type 0} (a b : Kernel R) → some a ≡ some b → a ≡ b
same_kernel a b e = ap (λ o. elim o [ none ↦ a | some x ↦ x ]) e

-- `cur` waits, with the pid and the parent it has.
asleep-Inv :
    {R : Type 0} (k k' : Kernel R) (cur chan : ℕ)
    → Used (k.procs cur)
    → k'.procs cur ≡ record (k.procs cur) { chan = chan; state = sleeping }
    → ((j : ℕ) → cur ≢ j → k'.procs j ≡ k.procs j)
    → k'.nextpid ≡ k.nextpid
    → k'.initproc ≡ k.initproc
    → Inv k
    → Inv k'
asleep-Inv k k' cur chan u e same n init v =
    Alike-Inv k k' (omega (arith, n)) init (λ j _ _. alike j) (λ j _. (alike j).alive) v
  where
    written : Alike (k.procs cur) (k'.procs cur)
    written = rw e (
        awake-Alike (k.procs cur) (record (k.procs cur) { chan = chan; state = sleeping }) refl refl
          u (λ q. cc, λ q. cc))

    alike : (j : ℕ) → Alike (k.procs j) (k'.procs j)
    alike j = elim (ℕ_discrete cur j) [
      | yes q ↦ subst (λ m. Alike (k.procs m) (k'.procs m)) q written
      | no ne ↦ rw (same j ne) (Alike-refl (k.procs j))
    ]

sleep_on-Inv :
    {R : Type 0} (k : Kernel R) (cur chan : ℕ)
    → (k.procs cur).state ≡ running
    → Inv k
    → Inv (record k { procs = sleep_on cur chan k.procs })
unfolding sleep_on
sleep_on-Inv k cur chan e v =
    let q = record (k.procs cur) { chan = chan; state = sleeping } in
    written-Inv k cur q
      (awake-Alike (k.procs cur) q refl refl (running-Used (k.procs cur) e) (λ u. cc, λ u. cc)) v

give_up-Inv :
    {R : Type 0} (k : Kernel R) (cur : ℕ)
    → (k.procs cur).state ≡ running
    → Inv k
    → Inv (record k { procs = give_up cur k.procs })
unfolding give_up
give_up-Inv k cur e v =
    let q = record (k.procs cur) { state = runnable } in
    written-Inv k cur q
      (awake-Alike (k.procs cur) q refl refl (running-Used (k.procs cur) e) (λ u. cc, λ u. cc)) v

dispatch-Inv :
    {R : Type 0} (k : Kernel R) (i : ℕ)
    → (k.procs i).state ≡ runnable
    → Inv k
    → Inv (record k { procs = dispatch i k.procs })
unfolding dispatch
dispatch-Inv k i e v =
    let q = record (k.procs i) { state = running } in
    written-Inv k i q (awake-Alike (k.procs i) q refl refl (λ u. ground arith) (λ u. cc, λ u. cc)) v

tidy_up-Inv :
    {R : Type 0} (k : Kernel R) (cur : ℕ)
    → (k.procs cur).state ≡ running
    → Inv k
    → Inv (record k { procs = tidy_up cur k.procs })
unfolding tidy_up
tidy_up-Inv k cur e v =
    let q = record (k.procs cur) { chan = 0 } in
    written-Inv k cur q
      (awake-Alike (k.procs cur) q refl refl (running-Used (k.procs cur) e)
        (running-Alive (k.procs cur) e))
      v

-- The invariant, and at most `n` more pids.
abbrev Advanced : {R : Type 0} → ℕ → Kernel R → Kernel R → Type 0
Advanced n k k' = Inv k' × (k'.nextpid ≤ k.nextpid + n)

module _ (s : Services) (l : Layout) where
  fork-Inv :
      (k : Kernel s.Res) (cur : ℕ)
      → cur < nproc
      → (k.procs cur).state ≡ running
      → k.nextpid + 1 < 2 ^ 31
      → Inv k
      → Advanced 1 k (fork s l cur k).1
  fork-Inv k cur h e fits v =
      go (fork s l cur k).0 (fork s l cur k).1
        (fork-ForkResult s l cur k (running-Used (k.procs cur) e))
    where
      go : (o : Option ℕ) (k' : Kernel s.Res) → ForkResult s cur k (o, k') → Advanced 1 k k'
      go none k' r = (Refused-Inv k k' v fits r, omega (arith, r.next))
      go (some pid) k' (i, f, _) = (
        Forked-Inv k k' v cur i pid (running-Used (k.procs cur) e) (running-Alive (k.procs cur) e) h
            fits f,
        omega (arith, f.pid_next),
      )

  exit-Inv :
      (k k' : Kernel s.Res) (cur : ℕ)
      → cur < nproc
      → (k.procs cur).state ≡ running
      → exit s l cur k ≡ some k'
      → Inv k
      → Advanced 0 k k'
  exit-Inv k k' cur h e r v = elim (ℕ_discrete cur k.initproc) [
    | yes q ↦ absurd (exit-init s l cur k k' q r)
    | no ne ↦
        let (k1, r1, x, n, init) = exit-Exited s l cur k h ne in
        subst (Advanced 0 k) (same_kernel k1 k' (sym r1 ∙ r))
          (Exited-Inv k k1 v l cur h ne (running-Used (k.procs cur) e) x n init, omega (arith, n))
  ]

  -- Every step of any process keeps the invariant.
  pub Step-Inv :
      (k k' : Kernel s.Res) (st : Step s l k k')
      → k.nextpid + forks_in s l st < 2 ^ 31
      → Inv k
      → Advanced (forks_in s l st) k k'
  Step-Inv k _ (forks cur (h, e)) fits v = fork-Inv k cur h e fits v
  Step-Inv k k' (exits cur (h, e) r) fits v = exit-Inv k k' cur h e r v
  Step-Inv k k' (reaps cur pid _ r) fits v =
      let (i, _, z, _, f, same, n, init) = subst (Waited l cur k) r (wait-Waited s l cur k) in
      (Reaped-Inv k k' v cur i z f same n init, omega (arith, n))
  Step-Inv k k' (waits cur (h, e) r) fits v =
      let (_, _, _, w, same, n, init) = subst (Waited l cur k) r (wait-Waited s l cur k) in
      (
        asleep-Inv k k' cur (proc_addr l (some cur)) (running-Used (k.procs cur) e) w same n init v,
        omega (arith, n),
      )
  Step-Inv k _ (sleeps_on cur chan (h, e)) fits v = (sleep_on-Inv k cur chan e v, omega arith)
  Step-Inv k _ (wakes_up chan) fits v =
      (Alike-procs k (wakeup1 chan k.procs) (wakeup1-Alike chan k.procs) v, omega arith)
  Step-Inv k _ (kills pid signum) fits v = (
    Alike-procs k (kill pid signum k.procs).1 (λ j _. kill-Alike pid signum k.procs j) v,
    omega arith,
  )
  Step-Inv k _ (yields cur (h, e)) fits v = (give_up-Inv k cur e v, omega arith)
  Step-Inv k _ (schedules i h e) fits v = (dispatch-Inv k i e v, omega arith)
  Step-Inv k _ (resumes cur (h, e)) fits v = (tidy_up-Inv k cur e v, omega arith)

  Reach-Advanced :
      (k k' : Kernel s.Res) (r : Reach s l k k')
      → k.nextpid + fork_count s l r < 2 ^ 31
      → Inv k
      → Advanced (fork_count s l r) k k'
  Reach-Advanced k _ here fits v = (v, omega arith)
  Reach-Advanced k k' (next {u} r st) fits v =
      let (w, n) = Reach-Advanced k u r (omega arith) v in
      let (w', n') = Step-Inv u k' st (omega arith) w in (w', omega arith)

  -- After any sequence of steps by any processes, in any order, with fewer calls of `fork` than
  -- there are pids left before the `int` overflows, from a table where the pids of the entries in
  -- use are distinct and at most `nextpid`, and where init and the parent of every entry in use are
  -- entries that are neither unused nor zombies, the table is such a table again.
  pub Reach-Inv :
      (k k' : Kernel s.Res) (r : Reach s l k k')
      → k.nextpid + fork_count s l r < 2 ^ 31
      → Inv k
      → Inv k'
  Reach-Inv k k' r fits v = (Reach-Advanced k k' r fits v).0
