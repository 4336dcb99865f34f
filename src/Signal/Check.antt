-- ===== src/Signal/Check.antt =====
-- What one pass of `check_kernel_sigs` leaves as it was.
use osassignment.Prelude.{
  ℕ, zero, suc, ◌+◌, ◌≤◌, ◌<◌, ◌≡◌, ◌≢◌, refl, true, false, Option, none, some, List, [], ◌∷◌,
  Option-cases, Bool-cases, not, ◌&&◌, bit_or, inl, inr, arith,
}
use osassignment.Proc.{Proc, sig_dfl, sig_ign, sigkill, sigstop, sigcont}
use osassignment.Signal.Pending.{is_blocked-bit}
use osassignment.Signal.{
  World, Image, Outcome, done, delivered, stopped, handler, has_signal, is_blocked, cancel_signal,
  handle_sigstop, default_action, custom_action, custom_stop, deliver, and_then, restore_mask,
  check_one, check_loop, check_kernel_sigs,
}

-- Signal handling may change what is pending, the `killed` flag and the state, and nothing else.
abbrev pub OnlySignals : Proc → Proc → Type 0
OnlySignals p q = q ≡ record p { pending = q.pending; killed = q.killed; state = q.state }

handle_sigstop-OnlySignals :
    (ys : List ℕ) (p q : Proc) (ys' : List ℕ)
    → handle_sigstop ys p ≡ some (q, ys')
    → OnlySignals p q
unfolding handle_sigstop
handle_sigstop-OnlySignals [] p q ys' h = ground arith
handle_sigstop-OnlySignals (b ∷ ys) p q ys' h =
    ground (arith, handle_sigstop-OnlySignals ys (record p { pending = bit_or p.pending b }) q ys')

default_action-OnlySignals :
    (i : ℕ) (ys : List ℕ) (p q : Proc) (ys' : List ℕ)
    → default_action i ys p ≡ some (q, ys')
    → OnlySignals p q
unfolding default_action cancel_signal
default_action-OnlySignals i ys p q ys' h = ground (arith, handle_sigstop-OnlySignals ys p q ys')

-- A pass that comes back has changed no memory, and of the process only the pending set, the
-- `killed` flag, the state and the backup of the mask.
abbrev pub Kept : World → World → Type 0
Kept w w' = w' ≡ record {
  proc = record w.proc {
    pending = w'.proc.pending;
    killed = w'.proc.killed;
    state = w'.proc.state;
    mask_backup = w'.proc.mask_backup;
  };
  mem = w.mem;
}

abbrev pub IsUserHandler : ℕ → Type 0
IsUserHandler h = (h ≢ sig_ign) × (h ≢ sig_dfl) × (h ≢ sigkill) × (h ≢ sigcont) × (h ≢ sigstop)

-- The world `w'` enters the handler of signal `signum`, which was pending and not blocked; while
-- the handler runs every signal is blocked, and the mask is in the backup.
pub record Entered (image : Image) (w w' : World) (signum : ℕ) : Type 0 where
  pub before : Proc
  pub small : signum < 32
  pub same : before ≡ record w.proc {
    pending = before.pending;
    killed = before.killed;
    state = before.state;
    mask = 0;
    mask_backup = w.proc.mask;
  }
  pub is_user : IsUserHandler (handler w.proc signum)
  pub is_pending : has_signal before signum ≡ true
  pub unblocked : is_blocked (some w.proc) signum ≡ false
  pub entered : w' ≡ deliver image signum (record { proc = before; mem = w.mem })

abbrev pub Checked : Image → World → Outcome → Type 0
Checked image w (done w' ys) = Kept w w'
Checked image w (delivered w' ys) = (signum : ℕ) × Entered image w w' signum
Checked image w stopped = Unit {0}

-- The second half of the body: back with only signal fields changed, or into a user handler.
abbrev CustomResult : Image → ℕ → World → Outcome → Type 0
CustomResult image i w (done w' ys) = (w'.mem ≡ w.mem) × OnlySignals w.proc w'.proc
CustomResult image i w (delivered w' ys) =
    IsUserHandler (handler w.proc i) × (w' ≡ deliver image i w)
CustomResult image i w stopped = Unit {0}

stop_result :
    (image : Image) (i : ℕ) (ys : List ℕ) (w : World) → CustomResult image i w (custom_stop ys w)
unfolding custom_stop
stop_result image i ys w = elim (Option-cases (handle_sigstop ys w.proc)) [
  | inl e ↦ rw (e, custom_stop) tt
  | inr ((p, ys'), e) ↦ rw (e, custom_stop) (refl, handle_sigstop-OnlySignals ys w.proc p ys' e)
]

custom_action-result :
    (image : Image) (i : ℕ) (ys : List ℕ) (w : World)
    → CustomResult image i w (custom_action image i ys w)
unfolding custom_action cancel_signal
custom_action-result image i ys w = ground (arith, stop_result image i ys w)

default_action_idle :
    (i : ℕ) (ys : List ℕ) (p : Proc)
    → IsUserHandler (handler p i)
    → default_action i ys p ≡ some (p, ys)
unfolding default_action
default_action_idle i ys p h = ground arith

abbrev raise_mask : Proc → Proc
raise_mask p = record p { mask_backup = p.mask; mask = 0 }

custom-Checked :
    (image : Image) (i : ℕ) (w : World) (p : Proc) (o : Outcome)
    → i < 32
    → is_blocked (some w.proc) i ≡ false
    → OnlySignals (raise_mask w.proc) p
    → (IsUserHandler (handler p i) → has_signal p i ≡ true)
    → CustomResult image i (record w { proc = p }) o
    → Checked image w (and_then o (λ w' ys. done (restore_mask w') ys))
custom-Checked image i w p (done w' ys) h b only pending r = ground (arith, r.1)
custom-Checked image i w p (delivered w' ys) h b only pending r = (
  i,
  record {
    before = p;
    small = h;
    same = only;
    is_user = ground (arith, r.0);
    is_pending = pending r.0;
    unblocked = b;
    entered = r.1;
  },
)
custom-Checked image i w p stopped h b only pending r = tt

has_signal-raise_mask : (p : Proc) (i : ℕ) → has_signal (raise_mask p) i ≡ has_signal p i
unfolding has_signal
has_signal-raise_mask p i = refl

pub check_one-Checked :
    (image : Image) (i : ℕ) (ys : List ℕ) (w : World)
    → i < 32
    → Checked image w (check_one image i ys w)
unfolding check_one
check_one-Checked image i ys w h =
    elim (Bool-cases (has_signal w.proc i && not (is_blocked (some w.proc) i))) [
      | inr off ↦ rw off (ground arith)
      | inl on ↦ rw on (go (default_action i ys (raise_mask w.proc)) refl on)
    ]
  where
    go :
        (o : Option (Proc × List ℕ))
        → default_action i ys (raise_mask w.proc) ≡ o
        → (has_signal w.proc i && not (is_blocked (some w.proc) i)) ≡ true
        → Checked image w (elim o [
          | none ↦ stopped
          | some (p, ys') ↦
              and_then
                (custom_action image i ys' (record w { proc = p }))
                (λ w' ys''. done (restore_mask w') ys'')
        ])
    go none e on = tt
    go (some (p, ys')) e on =
        custom-Checked image i w p (custom_action image i ys' (record w { proc = p })) h
          (ground arith) (default_action-OnlySignals i ys (raise_mask w.proc) p ys' e)
          (λ u. ground (
            arith,
            default_action-OnlySignals i ys (raise_mask w.proc) p ys' e,
            default_action_idle i ys (raise_mask w.proc),
            has_signal-raise_mask w.proc i,
          ))
          (custom_action-result image i ys' (record w { proc = p }))

Kept-Checked :
    (image : Image) (w v : World) (o : Outcome) → Kept w v → Checked image v o → Checked image w o
Kept-Checked image w v (done w' ys) k c = ground arith
Kept-Checked image w v (delivered w' ys) k (i, c) = (
  i,
  record {
    before = c.before;
    small = c.small;
    same = ground (arith, c.same);
    is_user = ground (arith, c.is_user);
    is_pending = c.is_pending;
    unblocked = ground (arith, is_blocked-bit w.proc i, is_blocked-bit v.proc i, c.unblocked);
    entered = ground (arith, c.entered);
  },
)
Kept-Checked image w v stopped k c = tt

check_loop-Checked :
    (image : Image) (n i : ℕ) (ys : List ℕ) (w : World)
    → i + n ≤ 32
    → Checked image w (check_loop image n i ys w)
unfolding check_loop
check_loop-Checked image zero i ys w h = ground arith
check_loop-Checked image (suc n) i ys w h =
    go (check_one image i ys w) (check_one-Checked image i ys w (omega arith))
      (λ ys' w'. check_loop-Checked image n (i + 1) ys' w' (omega arith))
  where
    go :
        (o : Outcome)
        → Checked image w o
        → ((ys' : List ℕ) (w' : World) → Checked image w' (check_loop image n (i + 1) ys' w'))
        → Checked image w (and_then o (λ w' ys'. check_loop image n (i + 1) ys' w'))
    go (done w' ys') k rest =
        Kept-Checked image w w' (check_loop image n (i + 1) ys' w') k (rest ys' w')
    go (delivered w' ys') c rest = c
    go stopped c rest = tt

abbrev pub CheckedSome : Image → World → Option Outcome → Type 0
CheckedSome image w none = ⊥
CheckedSome image w (some o) = Checked image w o

-- `check_kernel_sigs` either comes back with memory, mask, handlers and trap frame as they were, or
-- enters the user handler of one pending, unblocked signal whose handler is not one of the special
-- values: then the mask is 0, its old value is in the backup, and the world is what `deliver` makes.
-- The other end is a process that is still stopped when the list of yields is used up.
pub check_kernel_sigs-Checked :
    (image : Image) (ys : List ℕ) (w : World)
    → CheckedSome image w (check_kernel_sigs image ys (some w))
unfolding check_kernel_sigs
check_kernel_sigs-Checked image ys w =
    ground (arith, check_loop-Checked image 32 0 ys w (omega arith))
