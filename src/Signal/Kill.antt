-- ===== src/Signal/Kill.antt =====
-- SIGKILL ends a process: once pending and not blocked, the pass over the signals sets `killed`.
use osassignment.Prelude.{
  ℕ, zero, suc, ◌+◌, ◌≤◌, ◌<◌, ◌≡◌, ◌≢◌, refl, sym, true, false, not, ◌&&◌, xor, Option, none, some,
  List, [], ◌∷◌, Bool-cases, Option-cases, inl, inr, subst, ℕ_discrete, arith,
}
use osassignment.Prelude.Bits.{test_bit-zero}
use osassignment.Proc.{Proc, sig_dfl, sigkill}
use osassignment.Signal.{
  World, Image, Outcome, done, delivered, stopped, handler, has_signal, is_blocked, cancel_signal,
  handle_sigkill, handle_sigcont, handle_sigstop, default_action, custom_action, custom_stop,
  deliver, check_one, check_loop, check_kernel_sigs, and_then, restore_mask,
}
use osassignment.Signal.Pending.{has_signal-cancel, has_signal-bit, is_blocked-bit}
use osassignment.Signal.Check.{Kept, Checked, check_one-Checked}
use osassignment.Signal.Default.{Due, has_signal-sigcont, has_signal_same}
use osassignment.Signal.Stop.{arrive, has_signal-arrival}

-- What no other signal undoes: a pending SIGKILL, and `killed`.
abbrev Grows : Proc → Proc → Type 0
Grows p q =
    (has_signal p sigkill ≡ true → has_signal q sigkill ≡ true) × (p.killed ≡ 1 → q.killed ≡ 1)

Grows-sigstop :
    (ys : List ℕ) (p q : Proc) (rest : List ℕ) → handle_sigstop ys p ≡ some (q, rest) → Grows p q
unfolding handle_sigstop
Grows-sigstop [] p q rest h = (λ e. ground arith, λ e. ground arith)
Grows-sigstop (bits ∷ ys) p q rest h =
    let r = Grows-sigstop ys (arrive bits p) q rest in
    (λ e. ground (arith, r, has_signal-arrival p bits sigkill), λ e. ground (arith, r))

Grows-sigkill : (p : Proc) → Grows p (handle_sigkill p)
unfolding handle_sigkill has_signal
Grows-sigkill p = (λ e. ground arith, λ e. ground arith)

Grows-sigcont : (p : Proc) → Grows p (handle_sigcont p)
Grows-sigcont p = (
  λ e. unfold xor in ground (arith, has_signal-sigcont p sigkill),
  λ e. unfold handle_sigcont cancel_signal in ground arith,
)

Grows-cancel : (p : Proc) (i : ℕ) → i < 32 → i ≢ sigkill → Grows p (cancel_signal p i)
Grows-cancel p i h ne = (
  λ e. unfold xor in ground (arith, has_signal-cancel p i sigkill h),
  λ e. unfold cancel_signal in ground arith,
)

default_action-Grows :
    (i : ℕ) (ys : List ℕ) (p q : Proc) (rest : List ℕ)
    → default_action i ys p ≡ some (q, rest)
    → Grows p q
default_action-Grows i ys p q rest h =
    let stop = Grows-sigstop ys p q rest in
    (
      λ e. unfold default_action in ground (arith, stop, Grows-sigkill p, Grows-sigcont p),
      λ e. unfold default_action in ground (arith, stop, Grows-sigkill p, Grows-sigcont p),
    )

-- A process with SIGKILL pending is not held.
handle_sigstop-sigkill :
    (ys : List ℕ) (p : Proc) → has_signal p sigkill ≡ true → handle_sigstop ys p ≡ some (p, ys)
unfolding handle_sigstop
handle_sigstop-sigkill [] p h = ground arith
handle_sigstop-sigkill (bits ∷ ys) p h = ground arith

abbrev OutcomeGrows : Proc → Outcome → Type 0
OutcomeGrows p (done w ys) = Grows p w.proc
OutcomeGrows p (delivered w ys) = Grows p w.proc
OutcomeGrows p stopped = has_signal p sigkill ≢ true

custom_stop-Grows : (ys : List ℕ) (w : World) → OutcomeGrows w.proc (custom_stop ys w)
unfolding custom_stop
custom_stop-Grows ys w = elim (Option-cases (handle_sigstop ys w.proc)) [
  | inl e ↦ rw (e, custom_stop) (λ h. ground (arith, handle_sigstop-sigkill ys w.proc h))
  | inr ((p, rest), e) ↦ rw (e, custom_stop) (Grows-sigstop ys w.proc p rest e)
]

custom_action-Grows :
    (image : Image) (i : ℕ) (ys : List ℕ) (w : World)
    → i < 32
    → i ≢ sigkill
    → OutcomeGrows w.proc (custom_action image i ys w)
custom_action-Grows image i ys w h ne =
    unfold custom_action deliver in
    ground (
      arith,
      custom_stop-Grows ys w,
      Grows-cancel w.proc i h ne,
      Grows-sigkill w.proc,
      Grows-sigcont w.proc,
    )

default_action-sigkill :
    (i : ℕ) (ys : List ℕ) (p : Proc) → default_action i ys p ≡ none → has_signal p sigkill ≢ true
default_action-sigkill i ys p e h =
    unfold default_action in ground (arith, handle_sigstop-sigkill ys p h)

abbrev raised : World → Proc
raised w = record w.proc { mask_backup = w.proc.mask; mask = 0 }

Grows-restore :
    (w : World) (p : Proc) (o : Outcome)
    → Grows (raised w) p
    → OutcomeGrows p o
    → OutcomeGrows w.proc (and_then o (λ w' ys. done (restore_mask w') ys))
Grows-restore w p (done w' ys) g d =
    let before = has_signal_same (raised w) w.proc sigkill refl in
    let after = has_signal_same (restore_mask w').proc w'.proc sigkill refl in
    (λ e. ground (arith, g, d, before, after), λ e. ground (arith, g, d))
Grows-restore w p (delivered w' ys) g d =
    let before = has_signal_same (raised w) w.proc sigkill refl in
    (λ e. ground (arith, g, d, before), λ e. ground (arith, g, d))
Grows-restore w p stopped g d =
    λ e. let before = has_signal_same (raised w) w.proc sigkill refl in ground (arith, g, d, before)

check_one-Grows :
    (image : Image) (i : ℕ) (ys : List ℕ) (w : World)
    → i < 32
    → i ≢ sigkill
    → OutcomeGrows w.proc (check_one image i ys w)
unfolding check_one
check_one-Grows image i ys w h ne =
    elim (Bool-cases (has_signal w.proc i && not (is_blocked (some w.proc) i))) [
      | inr off ↦ rw off (λ e. e, λ e. e)
      | inl on ↦ rw on (go (default_action i ys (raised w)) refl)
    ]
  where
    go :
        (o : Option (Proc × List ℕ))
        → default_action i ys (raised w) ≡ o
        → OutcomeGrows w.proc (elim o [
          | none ↦ stopped
          | some (p, ys') ↦
              and_then
                (custom_action image i ys' (record w { proc = p }))
                (λ w' ys''. done (restore_mask w') ys'')
        ])
    go none e = λ h.
        default_action-sigkill i ys (raised w) e
          (ground (arith, h, has_signal_same (raised w) w.proc sigkill refl))
    go (some (p, ys')) e =
        Grows-restore w p (custom_action image i ys' (record w { proc = p }))
          (default_action-Grows i ys (raised w) p ys' e)
          (custom_action-Grows image i ys' (record w { proc = p }) h ne)

-- What becomes of a process with SIGKILL pending. It is never stopped; a pass that comes back to its
-- caller has set `killed`; where a user handler is to run, SIGKILL is still pending.
abbrev pub Fate : Outcome → Type 0
Fate (done w ys) = w.proc.killed ≡ 1
Fate (delivered w ys) = has_signal w.proc sigkill ≡ true
Fate stopped = ⊥

Fate-and_then :
    (p : Proc) (o : Outcome) (k : World → List ℕ → Outcome)
    → has_signal p sigkill ≡ true
    → OutcomeGrows p o
    → ((w : World) (ys : List ℕ) → o ≡ done w ys → Grows p w.proc → Fate (k w ys))
    → Fate (and_then o k)
Fate-and_then p (done w ys) k on g h = h w ys refl g
Fate-and_then p (delivered w ys) k on g h = g.0 on
Fate-and_then p stopped k on g h = absurd (g on)

check_loop-killed :
    (image : Image) (n i : ℕ) (ys : List ℕ) (w : World)
    → i + n ≤ 32
    → sigkill < i
    → has_signal w.proc sigkill ≡ true
    → w.proc.killed ≡ 1
    → Fate (check_loop image n i ys w)
unfolding check_loop
check_loop-killed image zero i ys w h lt on e = e
check_loop-killed image (suc n) i ys w h lt on e =
    Fate-and_then w.proc (check_one image i ys w) _ on
      (check_one-Grows image i ys w (omega arith) (omega arith))
      (λ w' ys' _ g.
        check_loop-killed image n (i + 1) ys' w' (omega arith) (omega arith) (g.0 on) (g.1 e))

check_one-sigkill :
    (image : Image) (ys : List ℕ) (w : World)
    → Due w.proc sigkill
    → handler w.proc sigkill ≡ sig_dfl
    → check_one image sigkill ys w
      ≡ done (restore_mask (record w { proc = handle_sigkill (raised w) })) ys
check_one-sigkill image ys w d g = unfold check_one default_action custom_action in ground arith

-- What the loop needs of the world to kill its process.
abbrev Doomed : World → Type 0
Doomed w =
    (has_signal w.proc sigkill ≡ true)
    × (is_blocked (some w.proc) sigkill ≡ false)
    × (handler w.proc sigkill ≡ sig_dfl)

Doomed-Kept : (w w' : World) → Kept w w' → Grows w.proc w'.proc → Doomed w → Doomed w'
Doomed-Kept w w' k g d = (
  g.0 d.0,
  ground (arith, k, is_blocked-bit w.proc sigkill, is_blocked-bit w'.proc sigkill, d.1),
  ground (arith, k, d.2),
)

sigkill-killed : (p : Proc) → (handle_sigkill p).killed ≡ 1
unfolding handle_sigkill
sigkill-killed p = ground arith

still_pending :
    (w : World)
    → has_signal w.proc sigkill ≡ true
    → has_signal (restore_mask (record w { proc = handle_sigkill (raised w) })).proc sigkill ≡ true
still_pending w h =
    let before = has_signal_same (raised w) w.proc sigkill refl in
    let after =
      has_signal_same (restore_mask (record w { proc = handle_sigkill (raised w) })).proc
        (handle_sigkill (raised w)) sigkill refl in
    ground (arith, h, before, after, Grows-sigkill (raised w))

check_loop-Doomed :
    (image : Image) (n i : ℕ) (ys : List ℕ) (w : World)
    → i + n ≡ 32
    → i ≤ sigkill
    → Doomed w
    → Fate (check_loop image n i ys w)
unfolding check_loop
check_loop-Doomed image zero i ys w h le d = absurd (omega arith)
check_loop-Doomed image (suc n) i ys w h le d = elim (ℕ_discrete i sigkill) [
  | yes e ↦
      rw (e, check_one-sigkill image ys w (ground (arith, d)) d.2)
        (check_loop-killed image n (sigkill + 1) ys _ (omega arith) (omega arith)
          (still_pending w d.0) (sigkill-killed (raised w)))
  | no ne ↦
      Fate-and_then w.proc (check_one image i ys w) _ d.0
        (check_one-Grows image i ys w (omega arith) ne)
        (λ w' ys' e g. check_loop-Doomed image n (i + 1) ys' w' (omega arith) (omega arith) (
          Doomed-Kept w w'
            (subst (Checked image w) e (check_one-Checked image i ys w (omega arith))) g d))
]

abbrev pub FateSome : Option Outcome → Type 0
FateSome none = ⊥
FateSome (some o) = Fate o

-- For a SIGKILL that is pending, not blocked and has the default handler, whatever other signals the
-- pass handles before and after it and whatever arrives: SIGSTOP never holds the process; a pass
-- that comes back to its caller has set `killed`; and one that leaves early, for a user handler,
-- leaves SIGKILL pending.
pub check_kernel_sigs-sigkill :
    (image : Image) (ys : List ℕ) (w : World)
    → has_signal w.proc sigkill ≡ true
    → is_blocked (some w.proc) sigkill ≡ false
    → handler w.proc sigkill ≡ sig_dfl
    → FateSome (check_kernel_sigs image ys (some w))
unfolding check_kernel_sigs
check_kernel_sigs-sigkill image ys w s b g =
    let e : check_kernel_sigs image ys (some w) ≡ some (check_loop image 32 0 ys w) = ground (
      arith,
      has_signal-bit w.proc sigkill,
      is_blocked-bit w.proc sigkill,
      test_bit-zero sigkill,
    ) in
    subst FateSome (sym e) (check_loop-Doomed image 32 0 ys w refl (omega arith) (s, b, g))
