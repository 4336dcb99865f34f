-- ===== src/Spinlock/Lock.antt =====
-- Who has the lock, and what the fields of the lock say of it.
use osassignment.Prelude.{
  ℕ, ◌≡◌, ◌≢◌, ◌⊎◌, refl, sym, ap, ◌∙◌, subst, Bool, true, false, Option, none, some, inl, inr,
  arith, ℕ_discrete, ==_refl, ==_ne,
}
use osassignment.Prelude.Table.{update, update_self, update_ne}
use osassignment.Spinlock.{Spinlock, is_cpu, holding, xchg}
use osassignment.Spinlock.System.{Place, outside, spinning, taken, inside, leaving, after_xchg}

abbrev pub has_lock : Place → Bool
has_lock outside = false
has_lock spinning = false
has_lock taken = true
has_lock inside = true
has_lock leaving = true

abbrev pub owner_of : ℕ → Place → Option ℕ
owner_of c outside = none
owner_of c spinning = none
owner_of c taken = none
owner_of c inside = some c
owner_of c leaving = none

abbrev pub IsFree : Spinlock → (ℕ → Place) → Type 0
IsFree lk ps = (lk.locked ≡ 0) × (lk.cpu ≡ none) × ((d : ℕ) → has_lock (ps d) ≡ false)

abbrev pub IsHeldBy : ℕ → Spinlock → (ℕ → Place) → Type 0
IsHeldBy c lk ps =
    (lk.locked ≡ 1)
    × (lk.cpu ≡ owner_of c (ps c))
    × (has_lock (ps c) ≡ true)
    × ((d : ℕ) → c ≢ d → has_lock (ps d) ≡ false)

abbrev pub LockOk : Spinlock → (ℕ → Place) → Type 0
LockOk lk ps = IsFree lk ps ⊎ ((c : ℕ) × IsHeldBy c lk ps)

pub update-others :
    (ps : ℕ → Place) (c : ℕ) (p : Place)
    → has_lock p ≡ false
    → (d : ℕ) → (c ≢ d → has_lock (ps d) ≡ false)
    → has_lock (update ps c p d) ≡ false
update-others ps c p off d h = elim (ℕ_discrete c d) [
  | yes e ↦ rw (← e, update_self ps c p) off
  | no ne ↦ rw (update_ne ps c d p ne) (h ne)
]

-- A CPU without the lock moves to a place without the lock.
pub LockOk-calm :
    (lk : Spinlock) (ps : ℕ → Place) (c : ℕ) (p : Place)
    → has_lock (ps c) ≡ false
    → has_lock p ≡ false
    → LockOk lk ps
    → LockOk lk (update ps c p)
LockOk-calm lk ps c p was off (inl (l, n, h)) =
    inl (l, n, λ d. update-others ps c p off d (λ _. h d))
LockOk-calm lk ps c p was off (inr (o, (l, owner, has, h))) =
    let ne : c ≢ o = λ e. ground (arith, subst (λ k. has_lock (ps k) ≡ true) (sym e) has, was) in
    let same = update_ne ps c o p ne in
    inr (o, (l, rw same owner, rw same has, λ d other. update-others ps c p off d (λ _. h d other)))

pub LockOk-held :
    (lk : Spinlock) (ps : ℕ → Place) (c : ℕ)
    → has_lock (ps c) ≡ true
    → LockOk lk ps
    → IsHeldBy c lk ps
LockOk-held lk ps c has (inl (l, n, h)) = absurd (ground (arith, has, h c))
LockOk-held lk ps c has (inr (o, held)) = elim (ℕ_discrete o c) [
  | yes e ↦ subst (λ k. IsHeldBy k lk ps) e held
  | no ne ↦ absurd (ground (arith, has, held.3 c ne))
]

pub IsHeldBy-move :
    (lk : Spinlock) (ps : ℕ → Place) (c : ℕ) (p : Place)
    → has_lock p ≡ true
    → lk.locked ≡ 1
    → lk.cpu ≡ owner_of c p
    → ((d : ℕ) → c ≢ d → has_lock (ps d) ≡ false)
    → LockOk lk (update ps c p)
IsHeldBy-move lk ps c p has l owner h =
    let self = update_self ps c p in
    inr (c, (l, rw self owner, rw self has, λ d ne. rw (update_ne ps c d p ne) (h d ne)))

pub IsFree-move :
    (lk : Spinlock) (ps : ℕ → Place) (c : ℕ)
    → lk.locked ≡ 0
    → lk.cpu ≡ none
    → ((d : ℕ) → c ≢ d → has_lock (ps d) ≡ false)
    → LockOk lk (update ps c outside)
IsFree-move lk ps c l n h = inl (l, n, λ d. update-others ps c outside refl d (h d))

pub is_cpu-owner_of : (c o : ℕ) (p : Place) → o ≢ c → is_cpu c (owner_of o p) ≡ false
is_cpu-owner_of c o outside ne = refl
is_cpu-owner_of c o spinning ne = refl
is_cpu-owner_of c o taken ne = refl
is_cpu-owner_of c o inside ne = ==_ne o c ne
is_cpu-owner_of c o leaving ne = refl

pub holding-outside :
    (lk : Spinlock) (ps : ℕ → Place) (c : ℕ)
    → has_lock (ps c) ≡ false
    → LockOk lk ps
    → holding c lk ≡ false
holding-outside lk ps c off (inl (l, n, h)) = rw l refl
holding-outside lk ps c off (inr (o, (l, owner, has, h))) =
    let ne : o ≢ c = λ e. ground (arith, subst (λ k. has_lock (ps k) ≡ true) e has, off) in
    rw (l, owner) (is_cpu-owner_of c o (ps o) ne)

pub holding-inside :
    (lk : Spinlock) (ps : ℕ → Place) (c : ℕ) → ps c ≡ inside → LockOk lk ps → holding c lk ≡ true
holding-inside lk ps c at ok =
    let (l, owner, has, h) = LockOk-held lk ps c (rw at refl) ok in
    let mine : lk.cpu ≡ some c = owner ∙ ap (owner_of c) at in rw (l, mine, ==_refl c) refl

pub spins-LockOk :
    (lk : Spinlock) (ps : ℕ → Place) (c : ℕ)
    → ps c ≡ spinning
    → LockOk lk ps
    → LockOk (xchg lk).1 (update ps c (after_xchg lk.locked))
spins-LockOk lk ps c at (inl (l, n, h)) =
    rw l (IsHeldBy-move (xchg lk).1 ps c taken refl refl n (λ d ne. h d))
spins-LockOk lk ps c at (inr (o, (l, owner, has, h))) =
    rw l (LockOk-calm (xchg lk).1 ps c spinning (rw at refl) refl (inr (o, (refl, owner, has, h))))
