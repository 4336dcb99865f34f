-- ===== src/Ptable/Exit/Reparent.antt =====
-- `exit` leaves no orphans.
use osassignment.Prelude.{
  ℕ, zero, suc, ◌+◌, ◌<◌, ◌≡◌, ◌⊎◌, refl, ◌∙◌, Bool, true, false, ◌&&◌, ltb, leb, ◌==◌,
  if◌then◌else◌, Option, some, inl, inr, Bool-cases, ℕ_discrete, ==_refl, ==_ne, arith,
}
use osassignment.Prelude.Table.{update, update_ne, update_self}
use osassignment.Proc.{Proc, ProcState, sleeping, runnable, is_zombie, nproc}
use osassignment.Ptable.{Layout, for_procs, proc_addr, wakeup1, wakes}
use osassignment.Ptable.Wakeup.{woken, wakeup1_lem}
use osassignment.Ptable.Exit.{is_child, child_of, reparent, reparent_all}

-- A process that stays in its state, or is woken from its sleep.
abbrev pub Awakens : ProcState → ProcState → Type 0
Awakens s t = (t ≡ s) ⊎ ((s ≡ sleeping) × (t ≡ runnable))

-- At most the parent and the state differ, and the state by waking up.
pub record Passed (p q : Proc) : Type 0 where
  pub same : q ≡ record p { parent = q.parent; state = q.state }
  pub wakes : Awakens p.state q.state

pub Passed-refl : (p : Proc) → Passed p p
Passed-refl p = record { same = refl; wakes = inl refl }

pub Passed-trans : (p q r : Proc) → Passed p q → Passed q r → Passed p r
Passed-trans p q r h g = record {
  same = ground (arith, h.same, g.same);
  wakes = ground (arith, h.wakes, g.wakes);
}

woken-Passed : (chan : ℕ) (p : Proc) → Passed p (woken chan p) × ((woken chan p).parent ≡ p.parent)
woken-Passed chan p = elim (Bool-cases (wakes chan p)) [
  | inl e ↦ rw e (record { same = refl; wakes = ground arith }, refl)
  | inr e ↦ rw e (Passed-refl p, refl)
]

pub wakeup1-Passed :
    (chan : ℕ) (ps : ℕ → Proc) (j : ℕ)
    → j < nproc
    → Passed (ps j) (wakeup1 chan ps j) × ((wakeup1 chan ps j).parent ≡ (ps j).parent)
wakeup1-Passed chan ps j h = rw (wakeup1_lem chan ps j h) (woken-Passed chan (ps j))

-- The parent that `exit` leaves.
abbrev pub new_parent : ℕ → ℕ → Option ℕ → Option ℕ
new_parent cur init o = if child_of cur o then some init else o

-- The rounds of a loop from `i` on, the first one apart.
turn_step {ℓ} :
    {A : Type ℓ} (f : A → A) (n i j : ℕ) (o q : A)
    → q ≡ (if i == j then f o else o)
    → (if leb (i + 1) j && ltb j (i + 1 + n) then f q else q)
      ≡ (if leb i j && ltb j (i + suc n) then f o else o)
turn_step f n i j o q e = ground arith

turn_none {ℓ} : {A : Type ℓ} (i j : ℕ) (x y : A) → y ≡ (if leb i j && ltb j (i + 0) then x else y)
turn_none i j x y = ground arith

not_turn {ℓ} :
    {A : Type ℓ} (test : A → Bool) (ps : ℕ → A) (f : A → A) (i j : ℕ)
    → ((x : A) → test x ≡ false → f x ≡ x)
    → test (ps i) ≡ false
    → ps j ≡ (if i == j then f (ps j) else ps j)
not_turn test ps f i j h e = ground (arith, h (ps j))

-- Entry `p` after the round for it, or not yet.
abbrev pub Reparented : ℕ → ℕ → Bool → Proc → Proc → Type 0
Reparented cur init turn p q =
    Passed p q × (q.parent ≡ (if turn then new_parent cur init p.parent else p.parent))

module _ (l : Layout) (cur init : ℕ) where
  set_parent : (ℕ → Proc) → ℕ → ℕ → Proc
  set_parent ps i = update ps i (record (ps i) { parent = some init })

  set_parent-Reparented :
      (ps : ℕ → Proc) (i j : ℕ)
      → is_child cur (ps i) ≡ true
      → Reparented cur init (i == j) (ps j) (set_parent ps i j)
  unfolding set_parent
  set_parent-Reparented ps i j c = elim (ℕ_discrete i j) [
    | yes e ↦
        rw (← e, ==_refl, update_self ps i (record (ps i) { parent = some init }), c)
          (record { same = refl; wakes = inl refl }, refl)
    | no ne ↦
        rw (==_ne i j ne, update_ne ps i j (record (ps i) { parent = some init }) ne)
          (Passed-refl (ps j), refl)
  ]

  Reparented-wakeup :
      (chan : ℕ) (turn : Bool) (p : Proc) (qs : ℕ → Proc) (j : ℕ)
      → j < nproc
      → Reparented cur init turn p (qs j)
      → Reparented cur init turn p (wakeup1 chan qs j)
  Reparented-wakeup chan turn p qs j h r =
      let w = wakeup1-Passed chan qs j h in
      (Passed-trans p (qs j) (wakeup1 chan qs j) r.0 w.0, w.1 ∙ r.1)

  reparent-Reparented :
      (ps : ℕ → Proc) (i j : ℕ)
      → j < nproc
      → Reparented cur init (i == j) (ps j) (reparent l cur init i ps j)
  unfolding reparent set_parent
  reparent-Reparented ps i j h = elim (Bool-cases (is_child cur (ps i))) [
    | inl c ↦ elim (Bool-cases (is_zombie (ps i).state)) [
      | inl z ↦
          rw (c, z)
            (Reparented-wakeup (proc_addr l (some init)) (i == j) (ps j) (set_parent ps i) j h
              (set_parent-Reparented ps i j c))
      | inr live ↦ rw (c, live) (set_parent-Reparented ps i j c)
    ]
    | inr other ↦ rw other (
      Passed-refl (ps j),
      not_turn (child_of cur) (λ k. (ps k).parent) (new_parent cur init) i j (λ o e. rw e) other,
    )
  ]

  reparent_loop :
      (n i : ℕ) (ps : ℕ → Proc) (j : ℕ)
      → j < nproc
      → Reparented cur init
          (leb i j && ltb j (i + n))
          (ps j)
          (for_procs (reparent l cur init) i n ps j)
  unfolding for_procs
  reparent_loop zero i ps j h = (Passed-refl (ps j), turn_none i j _ _)
  reparent_loop (suc n) i ps j h =
      let r = reparent-Reparented ps i j h in
      let g = reparent_loop n (i + 1) (reparent l cur init i ps) j h in
      (
        Passed-trans (ps j) (reparent l cur init i ps j) _ r.0 g.0,
        g.1 ∙ turn_step (new_parent cur init) n i j (ps j).parent _ r.1,
      )

  -- After the loop of `exit` over the table every child of `cur` is init's, and no other process
  -- has another parent.
  pub reparent_all-Reparented :
      (ps : ℕ → Proc) (j : ℕ)
      → j < nproc
      → Reparented cur init true (ps j) (reparent_all l cur init ps j)
  unfolding reparent_all
  reparent_all-Reparented ps j h =
      let r = reparent_loop nproc 0 ps j h in
      (r.0, r.1 ∙ turn_all (new_parent cur init (ps j).parent) (ps j).parent)
    where
      turn_all : (x y : Option ℕ) → (if leb 0 j && ltb j (0 + nproc) then x else y) ≡ x
      turn_all x y = ground arith
