-- ===== src/Ptable/Wakeup.antt =====
-- `wakeup1` and `kill`, entry by entry.
use osassignment.Prelude.{
  ℕ, zero, suc, ◌+◌, ◌<◌, ◌≡◌, Bool, ◌&&◌, ltb, leb, ◌==◌, if◌then◌else◌, lt→ltb, leb-zero, ◌∙◌,
  arith,
}
use osassignment.Prelude.Table.{update}
use osassignment.Proc.{Proc, runnable, nproc}
use osassignment.Ptable.{for_procs, wakes, wakeup_one, wakeup1}

abbrev pub woken : ℕ → Proc → Proc
woken chan p = if wakes chan p then record p { state = runnable } else p

-- A loop whose body changes only its own entry, by `f`.
pub for_procs-pointwise {ℓ} :
    {A : Type ℓ} (f : A → A) (body : ℕ → (ℕ → A) → ℕ → A)
    → ((i : ℕ) (ps : ℕ → A) (j : ℕ) → body i ps j ≡ (if i == j then f (ps j) else ps j))
    → (n i : ℕ) (ps : ℕ → A) (j : ℕ)
    → for_procs body i n ps j ≡ (if leb i j && ltb j (i + n) then f (ps j) else ps j)
unfolding for_procs
for_procs-pointwise f body one zero i ps j = ground arith
for_procs-pointwise f body one (suc n) i ps j =
    ground (arith, for_procs-pointwise f body one n (i + 1) (body i ps) j, one i ps j)

pub update_self_if {ℓ} :
    {A : Type ℓ} (test : A → Bool) (f : A → A) (ps : ℕ → A) (i j : ℕ)
    → (if test (ps i) then update ps i (f (ps i)) else ps) j
      ≡ (if i == j then (if test (ps j) then f (ps j) else ps j) else ps j)
unfolding update
update_self_if test f ps i j = ground arith

wakeup_one_lem :
    (chan i : ℕ) (ps : ℕ → Proc) (j : ℕ)
    → wakeup_one chan i ps j ≡ (if i == j then woken chan (ps j) else ps j)
unfolding wakeup_one
wakeup_one_lem chan i ps j = update_self_if (wakes chan) (λ p. record p { state = runnable }) ps i j

-- `wakeup1(chan)` makes every process that sleeps on `chan` runnable and changes nothing else.
pub wakeup1_lem :
    (chan : ℕ) (ps : ℕ → Proc) (j : ℕ) → j < nproc → wakeup1 chan ps j ≡ woken chan (ps j)
unfolding wakeup1
wakeup1_lem chan ps j h =
    for_procs-pointwise (woken chan) (wakeup_one chan) (wakeup_one_lem chan) nproc 0 ps j ∙ in_range
  where
    in_range :
        (if leb 0 j && ltb j (0 + nproc) then woken chan (ps j) else ps j) ≡ woken chan (ps j)
    in_range = rw (lt→ltb j nproc h, leb-zero j)
