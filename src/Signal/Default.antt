-- ===== src/Signal/Default.antt =====
-- The signals that have a default action or are ignored, and those that are blocked.
use osassignment.Prelude.{
  ℕ, zero, suc, ◌+◌, ◌^◌, ◌≤◌, ◌<◌, ◌≡◌, refl, ◌∙◌, true, false, not, ◌&&◌, xor, ◌==◌, some, List,
  bit_xor, arith,
}
use osassignment.Proc.{Proc, sig_dfl, sig_ign, sigstop, sigcont}
use osassignment.Signal.{
  World, Image, done, handler, has_signal, is_blocked, cancel_signal, handle_sigcont,
  default_action, custom_action, check_one, check_loop, check_kernel_sigs, restore_mask,
}
use osassignment.Signal.Pending.{has_signal-cancel, has_signal-bit, test_bit-clear}

-- Signal `i` is to be handled now.
abbrev pub Due : Proc → ℕ → Type 0
Due p i = (has_signal p i && not (is_blocked (some p) i)) ≡ true

-- No pending signal is let through by the mask.
abbrev pub AllBlocked : Proc → Type 0
AllBlocked p = (i : ℕ) → i < 32 → (has_signal p i && not (is_blocked (some p) i)) ≡ false

check_loop_blocked :
    (image : Image) (n i : ℕ) (ys : List ℕ) (w : World)
    → i + n ≤ 32
    → AllBlocked w.proc
    → check_loop image n i ys w ≡ done w ys
unfolding check_loop check_one
check_loop_blocked image zero i ys w h b = refl
check_loop_blocked image (suc n) i ys w h b =
    rw (b i (omega arith)) (check_loop_blocked image n (i + 1) ys w (omega arith) b)

-- Pending signals that the mask blocks have no effect at all, and stay pending.
pub check_kernel_sigs_blocked :
    (image : Image) (ys : List ℕ) (w : World)
    → AllBlocked w.proc
    → check_kernel_sigs image ys (some w) ≡ some (done w ys)
unfolding check_kernel_sigs
check_kernel_sigs_blocked image ys w b =
    ground (arith, check_loop_blocked image 32 0 ys w (omega arith) b)

-- An ignored signal, SIGKILL and SIGSTOP too, is taken off the pending set and does nothing else;
-- the mask has gone through its backup.
pub check_one_ignored :
    (image : Image) (i : ℕ) (ys : List ℕ) (w : World)
    → i < 32
    → Due w.proc i
    → handler w.proc i ≡ sig_ign
    → (w' : World) × (check_one image i ys w ≡ done w' ys)
      × (w' ≡ record w {
        proc = record w.proc { pending = w'.proc.pending; mask_backup = w.proc.mask };
      })
      × ((j : ℕ) → has_signal w'.proc j ≡ (has_signal w.proc j && not (i == j)))
check_one_ignored image i ys w h d g = (
  record w {
    proc = record w.proc { pending = bit_xor w.proc.pending (2 ^ i); mask_backup = w.proc.mask };
  },
  unfold check_one default_action custom_action cancel_signal in ground arith,
  refl,
  λ j. ground (
    arith,
    has_signal-bit w.proc i,
    has_signal-bit w.proc j,
    has_signal-bit
        (record w.proc { pending = bit_xor w.proc.pending (2 ^ i); mask_backup = w.proc.mask }) j,
    test_bit-clear w.proc.pending i j,
  ),
)

-- What `handle_SIGCONT` does to the pending set.
pub has_signal-sigcont :
    (p : Proc) (j : ℕ)
    → has_signal (handle_sigcont p) j ≡ xor (has_signal p j && not (sigstop == j)) (sigcont == j)
unfolding handle_sigcont xor
has_signal-sigcont p j = ground (
  arith,
  has_signal-cancel p sigstop j (omega arith),
  has_signal-cancel p sigcont j (omega arith),
  has_signal-cancel (cancel_signal p sigstop) sigcont j (omega arith),
)

abbrev raised : World → Proc
raised w = record w.proc { mask_backup = w.proc.mask; mask = 0 }

pub has_signal_same : (p q : Proc) (j : ℕ) → p.pending ≡ q.pending → has_signal p j ≡ has_signal q j
unfolding has_signal
has_signal_same p q j e = rw e

-- The world after `proc` was handled under the raised mask.
abbrev handled : World → Proc → World
handled w p = restore_mask (record w { proc = p })

has_signal-handled :
    (w : World) (p : Proc) (j : ℕ) → has_signal (handled w p).proc j ≡ has_signal p j
has_signal-handled w p j = has_signal_same _ _ j refl

handle_sigcont-mask : (p : Proc) → (handle_sigcont p).mask_backup ≡ p.mask_backup
unfolding handle_sigcont cancel_signal
handle_sigcont-mask p = ground arith

-- SIGCONT by default takes itself and SIGSTOP off the pending set, and leaves the rest of the
-- pending set and the mask alone.
pub check_one-sigcont :
    (image : Image) (ys : List ℕ) (w : World)
    → Due w.proc sigcont
    → handler w.proc sigcont ≡ sig_dfl
    → (w' : World) × (check_one image sigcont ys w ≡ done w' ys)
      × (w'.proc.mask ≡ w.proc.mask)
      × ((j : ℕ)
          → has_signal w'.proc j
            ≡ (has_signal w.proc j && (not (sigstop == j) && not (sigcont == j))))
check_one-sigcont image ys w d g = (
  handled w (handle_sigcont (raised w)),
  unfold check_one default_action custom_action cancel_signal in ground arith,
  handle_sigcont-mask (raised w),
  λ j.
      unfold xor in
      ground (
        arith,
        has_signal-handled w (handle_sigcont (raised w)) j,
        has_signal-sigcont (raised w) j,
        has_signal_same (raised w) w.proc j,
        has_signal_same (raised w) w.proc sigcont,
      ),
)

-- With SIGCONT's own number as its handler both switches handle it, and the second toggles its bit
-- back on: SIGCONT stays pending, and only SIGSTOP is taken off the pending set.
pub check_one-sigcont_twice :
    (image : Image) (ys : List ℕ) (w : World)
    → Due w.proc sigcont
    → handler w.proc sigcont ≡ sigcont
    → (w' : World) × (check_one image sigcont ys w ≡ done w' ys)
      × (w'.proc.mask ≡ w.proc.mask)
      × ((j : ℕ) → has_signal w'.proc j ≡ (has_signal w.proc j && not (sigstop == j)))
      × (has_signal w'.proc sigcont ≡ true)
check_one-sigcont_twice image ys w d g = (
  handled w (handle_sigcont (handle_sigcont (raised w))),
  unfold check_one default_action custom_action cancel_signal in ground arith,
  handle_sigcont-mask (handle_sigcont (raised w)) ∙ handle_sigcont-mask (raised w),
  pending,
  ground (arith, pending sigcont),
)
  where
    pending :
        (j : ℕ)
        → has_signal (handled w (handle_sigcont (handle_sigcont (raised w)))).proc j
          ≡ (has_signal w.proc j && not (sigstop == j))
    pending j =
        unfold xor in
        ground (
          arith,
          has_signal-handled w (handle_sigcont (handle_sigcont (raised w))) j,
          has_signal-sigcont (handle_sigcont (raised w)) j,
          has_signal-sigcont (raised w) j,
          has_signal_same (raised w) w.proc j,
        )
