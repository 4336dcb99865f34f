-- ===== src/Signal/Return.antt =====
-- Back from a user handler: `sigret` undoes what the delivery did.
use osassignment.Prelude.{ℕ, ◌+◌, ◌-◌, ◌<◌, ◌≡◌, ap, sym, subst, arith}
use osassignment.Memory.Move.{memmove_lem}
use osassignment.Signal.{
  World, Image, deliver, deliver_frame, cancel_signal, sigret, trapframe_size,
}
use osassignment.Signal.Check.{Entered}
use osassignment.Signal.Deliver.{Room, deliver_frame-backup}

-- What a handler that ran from `w` to `u` must have left alone for `sigret`: the two pointers of its
-- process, the backup of the mask, and the bytes of the saved trap frame.
pub record LeavesBackup (w u : World) : Type 0 where
  pub tf : u.proc.tf ≡ w.proc.tf
  pub trap_backup : u.proc.trap_backup ≡ w.proc.trap_backup
  pub mask_backup : u.proc.mask_backup ≡ w.proc.mask_backup
  pub bytes :
      (k : ℕ) → k < trapframe_size → u.mem (w.proc.trap_backup + k) ≡ w.mem (w.proc.trap_backup + k)

pub sigret-frame :
    (u : World) (k : ℕ)
    → k < trapframe_size
    → (sigret u).mem (u.proc.tf + k) ≡ u.mem (u.proc.trap_backup + k)
unfolding sigret
sigret-frame u k h = ground (
  arith,
  memmove_lem u.mem u.proc.tf u.proc.trap_backup trapframe_size (u.proc.tf + k),
  ap u.mem {x = u.proc.trap_backup + (u.proc.tf + k - u.proc.tf)} {y = u.proc.trap_backup + k}
      (omega arith),
)

Room-before :
    (image : Image) (w w' : World) (signum e : ℕ) (c : Entered image w w' signum)
    → Room image w.proc w.mem e
    → Room image c.before w.mem e
Room-before image w w' signum e c r =
    subst (λ p. Room image p w.mem e) (sym c.same)
      (record {
        at = r.at;
        word = r.word;
        room = r.room;
        frame_stack = r.frame_stack;
        backup_frame = r.backup_frame;
        backup_stack = r.backup_stack;
        code_frame = r.code_frame;
        code_backup = r.code_backup;
      })

-- A signal is delivered with room on the stack and the regions apart, and the handler leaves alone
-- the two frame pointers, the saved mask and the saved frame. Whatever else it did, after `sigret`
-- the trap frame holds the bytes that it held at the delivery, and the mask is the one from before.
pub sigret-deliver :
    (image : Image) (w w' u : World) (signum e : ℕ)
    → Room image w.proc w.mem e
    → Entered image w w' signum
    → LeavesBackup w' u
    → ((sigret u).proc.mask ≡ w.proc.mask)
      × ((k : ℕ) → k < trapframe_size → (sigret u).mem (w.proc.tf + k) ≡ w.mem (w.proc.tf + k))
sigret-deliver image w w' u signum e r c l = (mask, frame)
  where
    mask : (sigret u).proc.mask ≡ w.proc.mask
    mask = unfold sigret deliver cancel_signal in ground (arith, c.same, c.entered)

    tf : u.proc.tf ≡ w.proc.tf
    tf = unfold deliver cancel_signal in ground (arith, c.same, c.entered, l.tf)

    backup : w'.proc.trap_backup ≡ c.before.trap_backup
    backup = unfold deliver cancel_signal in ground (arith, c.entered)

    mem : w'.mem ≡ deliver_frame image signum c.before w.mem
    mem = unfold deliver in ground (arith, c.entered)

    frame : (k : ℕ) → k < trapframe_size → (sigret u).mem (w.proc.tf + k) ≡ w.mem (w.proc.tf + k)
    frame k h = ground (
      arith,
      sigret-frame u k h,
      l.bytes k h,
      deliver_frame-backup image signum c.before w.mem e (Room-before image w w' signum e c r) k h,
      tf,
      backup,
      mem,
      c.same,
      l.trap_backup,
    )
