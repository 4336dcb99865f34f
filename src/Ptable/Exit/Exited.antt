-- ===== src/Ptable/Exit/Exited.antt =====
-- What `exit` leaves behind.
use osassignment.Prelude.{
  ℕ, ◌<◌, ◌≡◌, ◌≢◌, refl, ◌∙◌, sym, ap, subst, false, Option, none, some, List, [], ◌∷◌, ℕ_discrete,
  ==_refl, ==_ne, arith,
}
use osassignment.Prelude.Table.{update, update_ne, update_self}
use osassignment.Proc.{Proc, ProcState, sleeping, runnable, zombie, nproc}
use osassignment.Ptable.{Services, Layout, Kernel, proc_addr, wakeup1}
use osassignment.Ptable.Wakeup.{woken, wakeup1_lem}
use osassignment.Ptable.Exit.{is_child, child_of, close_files, reparent_all, exit_body, exit}
use osassignment.Ptable.Exit.Reparent.{
  Awakens, Passed, Passed-trans, wakeup1-Passed, new_parent, reparent_all-Reparented,
}

abbrev pub AllClosed : List (Option ℕ) → Type 0
AllClosed [] = Unit
AllClosed (f ∷ fs) = (f ≡ none) × AllClosed fs

close_files-AllClosed :
    (s : Services) (l : Layout) (fs : List (Option ℕ)) (r : s.Res)
    → AllClosed (close_files s l fs r).0
unfolding close_files
close_files-AllClosed s l [] r = tt
close_files-AllClosed s l (none ∷ fs) r = (refl, close_files-AllClosed s l fs r)
close_files-AllClosed s l (some f ∷ fs) r = (refl, close_files-AllClosed s l fs (s.fileclose f r))

-- The exited process is a zombie with no open file and no directory, its children are init's, and a
-- parent that sleeps in `wait` is awake; apart from that no other process has changed.
pub record Exited (l : Layout) (cur init : ℕ) (ps qs : ℕ → Proc) : Type 0 where
  pub is_zombie : (qs cur).state ≡ zombie
  pub same_pid : (qs cur).pid ≡ (ps cur).pid
  pub closed : AllClosed (qs cur).ofile × ((qs cur).cwd ≡ none)
  pub childless : (j : ℕ) → j < nproc → is_child cur (qs j) ≡ false
  pub adopted : (j : ℕ) → j < nproc → (qs j).parent ≡ new_parent cur init (ps j).parent
  pub others : (j : ℕ) → j < nproc → cur ≢ j → Passed (ps j) (qs j)
  pub parent_awake :
      (q : ℕ)
      → q < nproc
      → cur ≢ q
      → (ps cur).parent ≡ some q
      → (ps q).state ≡ sleeping
      → (ps q).chan ≡ proc_addr l (some q)
      → (qs q).state ≡ runnable

woken_state :
    (chan : ℕ) (p : Proc) → p.state ≡ sleeping → p.chan ≡ chan → (woken chan p).state ≡ runnable
woken_state chan p st c = rw (st, c, ==_refl)

stays_runnable : {s t : ProcState} → Awakens s t → s ≡ runnable → t ≡ runnable
stays_runnable a e = ground arith

module _ (s : Services) (l : Layout) (cur : ℕ) (k : Kernel s.Res) (here : cur < nproc)
    (not_init : cur ≢ k.initproc) where
  abbrev init : ℕ
  init = k.initproc

  abbrev closing : List (Option ℕ) × s.Res
  closing = close_files s l (k.procs cur).ofile k.res

  abbrev closed_proc : Proc
  closed_proc = record (k.procs cur) { ofile = closing.0; cwd = none }

  abbrev ps1 : ℕ → Proc
  ps1 = update k.procs cur closed_proc

  abbrev ps2 : ℕ → Proc
  ps2 = wakeup1 (proc_addr l (ps1 cur).parent) ps1

  abbrev ps3 : ℕ → Proc
  ps3 = reparent_all l cur init ps2

  abbrev ps4 : ℕ → Proc
  ps4 = update ps3 cur (record (ps3 cur) { state = zombie })

  ps1_self : ps1 cur ≡ closed_proc
  ps1_self = update_self k.procs cur closed_proc

  ps1-other : (j : ℕ) → cur ≢ j → ps1 j ≡ k.procs j
  ps1-other j ne = update_ne k.procs cur j closed_proc ne

  ps1-parent : (j : ℕ) → (ps1 j).parent ≡ (k.procs j).parent
  ps1-parent j = elim (ℕ_discrete cur j) [
    | yes e ↦ rw (← e, ps1_self)
    | no ne ↦ rw (ps1-other j ne)
  ]

  ps3-Passed : (j : ℕ) → j < nproc → Passed (ps1 j) (ps3 j)
  ps3-Passed j h =
      Passed-trans (ps1 j) (ps2 j) (ps3 j) (wakeup1-Passed (proc_addr l (ps1 cur).parent) ps1 j h).0
        (reparent_all-Reparented l cur init ps2 j h).0

  ps3-parent : (j : ℕ) → j < nproc → (ps3 j).parent ≡ new_parent cur init (k.procs j).parent
  ps3-parent j h =
      (reparent_all-Reparented l cur init ps2 j h).1
      ∙ ap (new_parent cur init)
          ((wakeup1-Passed (proc_addr l (ps1 cur).parent) ps1 j h).1 ∙ ps1-parent j)

  ps3-cur : ps3 cur ≡ record closed_proc { parent = (ps3 cur).parent; state = (ps3 cur).state }
  ps3-cur =
      subst (λ p. ps3 cur ≡ record p { parent = (ps3 cur).parent; state = (ps3 cur).state })
        ps1_self (ps3-Passed cur here).same

  ps4_self : ps4 cur ≡ record (ps3 cur) { state = zombie }
  ps4_self = update_self ps3 cur (record (ps3 cur) { state = zombie })

  ps4-other : (j : ℕ) → cur ≢ j → ps4 j ≡ ps3 j
  ps4-other j ne = update_ne ps3 cur j (record (ps3 cur) { state = zombie }) ne

  ps4-parent : (j : ℕ) → j < nproc → (ps4 j).parent ≡ new_parent cur init (k.procs j).parent
  ps4-parent j h = elim (ℕ_discrete cur j) [
    | yes e ↦ rw (← e, ps4_self) (ps3-parent cur here)
    | no ne ↦ rw (ps4-other j ne) (ps3-parent j h)
  ]

  not_child : (o : Option ℕ) → child_of cur (new_parent cur init o) ≡ false
  not_child none = refl
  not_child (some i) = ground arith

  chan-eq :
      (q : ℕ) → (k.procs cur).parent ≡ some q → proc_addr l (ps1 cur).parent ≡ proc_addr l (some q)
  chan-eq q p = ap (proc_addr l) (ps1-parent cur ∙ p)

  ps2-awake :
      (q : ℕ)
      → q < nproc
      → cur ≢ q
      → (k.procs cur).parent ≡ some q
      → (k.procs q).state ≡ sleeping
      → (k.procs q).chan ≡ proc_addr l (some q)
      → (ps2 q).state ≡ runnable
  ps2-awake q h ne p st c =
      rw (wakeup1_lem (proc_addr l (ps1 cur).parent) ps1 q h, ps1-other q ne)
        (woken_state (proc_addr l (ps1 cur).parent) (k.procs q) st (c ∙ sym (chan-eq q p)))

  exited : Exited l cur init k.procs ps4
  exited = record {
    is_zombie = ap (λ p. p.state) ps4_self;
    same_pid = ap (λ p. p.pid) ps4_self ∙ ap (λ p. p.pid) ps3-cur;
    closed = rw (ps4_self, ps3-cur) (close_files-AllClosed s l (k.procs cur).ofile k.res, refl);
    childless = λ j h. ap (child_of cur) (ps4-parent j h) ∙ not_child (k.procs j).parent;
    adopted = ps4-parent;
    others = λ j h ne.
        rw (ps4-other j ne) (subst (λ p. Passed p (ps3 j)) (ps1-other j ne) (ps3-Passed j h));
    parent_awake = λ q h ne p st c. rw (ps4-other q ne) (
        stays_runnable (reparent_all-Reparented l cur init ps2 q h).0.wakes
          (ps2-awake q h ne p st c));
  }

  exit_body-Exited : Exited l cur init k.procs (exit_body s l cur k).procs
  unfolding exit_body
  exit_body-Exited = exited

-- `exit` of a process other than init does not panic. The process is then a zombie with its pid, no
-- open file and no directory; its children are init's and no process is its child; a parent that
-- sleeps in `wait` is runnable; and of each other entry only the parent changes, or the state from
-- sleeping to runnable.
pub exit-Exited :
    (s : Services) (l : Layout) (cur : ℕ) (k : Kernel s.Res)
    → cur < nproc
    → cur ≢ k.initproc
    → (k' : Kernel s.Res) × (exit s l cur k ≡ some k')
      × Exited l cur k.initproc k.procs k'.procs
      × (k'.nextpid ≡ k.nextpid)
      × (k'.initproc ≡ k.initproc)
unfolding exit exit_body
exit-Exited s l cur k here ne = (
  exit_body s l cur k,
  rw (==_ne cur k.initproc ne),
  exit_body-Exited s l cur k here ne,
  refl,
  refl,
)
