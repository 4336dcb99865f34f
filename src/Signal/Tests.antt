-- ===== src/Signal/Tests.antt =====
-- Runs of the signal code.
use osassignment.Prelude.{
  ℕ, ◌+◌, replicate, ◌<◌, ◌≡◌, refl, true, false, not, ◌&&◌, ◌==◌, if◌then◌else◌, some, none, List,
  [], ◌∷◌, inl, inr, set, arith,
}
use osassignment.Prelude.Bits.{check_below, checked_below}
use osassignment.Memory.{Mem, load32}
use osassignment.Proc.{Proc, running, sig_dfl, sig_ign, sigstop, sigcont}
use osassignment.Signal.{
  World, Image, done, has_signal, is_blocked, handle_sigkill, handle_sigstop, trapframe_size,
  default_action, custom_action, check_one, check_loop, check_kernel_sigs, deliver, deliver_frame,
  sigret, sigprocmask, signal,
}
use osassignment.Signal.Check.{CheckedSome, Entered, check_kernel_sigs-Checked}
use osassignment.Signal.Deliver.{Room, Entry, deliver_frame-Entry}
use osassignment.Signal.Return.{LeavesBackup, sigret-deliver}
use osassignment.Signal.Handlers.{SignalResult, signal-SignalResult}
use osassignment.Signal.Kill.{FateSome, check_kernel_sigs-sigkill}
use osassignment.Signal.Stop.{StopResult, handle_sigstop-StopResult}
use osassignment.Signal.Default.{AllBlocked, check_one-sigcont_twice}

abbrev all_default : List ℕ
all_default = replicate 32 sig_dfl

-- All signals have the default handler but for number 2, whose handler is at 0x400.
abbrev a_proc : ℕ → List ℕ → Proc
a_proc pending handlers = record {
  sz = 0x4000;
  pgdir = 0x9000;
  kstack = 0xa000;
  state = running;
  pid = 3;
  parent = some 0;
  tf = 0x1000;
  context = 0x0f00;
  chan = 0;
  killed = 0;
  ofile = [];
  cwd = none;
  name = [];
  pending = pending;
  mask = 0xffffffff;
  mask_backup = 0;
  handlers = handlers;
  trap_backup = 0x3000;
}

abbrev user_proc : ℕ → Proc
user_proc pending = a_proc pending (set all_default 2 0x400)

-- `esp` of the trap frame is 0x2000.
abbrev frame_memory : Mem
frame_memory x = if x == 0x1045 then 0x20 else 0

abbrev user_world : ℕ → World
user_world pending = record { proc = user_proc pending; mem = frame_memory }

abbrev an_image : Image
an_image = record { code = 0x100; size = 8 }

abbrev raised_proc : Proc
raised_proc = record (user_proc 4) { mask = 0; mask_backup = 0xffffffff }

abbrev entered_world : World
entered_world = deliver an_image 2 (record { proc = raised_proc; mem = frame_memory })

user_room :
    (p : Proc) → p.tf ≡ 0x1000 → p.trap_backup ≡ 0x3000 → Room an_image p frame_memory 0x2000
user_room p t b = record {
  at = rw t (unfold load32 in refl);
  word = omega arith;
  room = omega arith;
  frame_stack = rw t (inl (omega arith));
  backup_frame = rw (t, b) (inr (omega arith));
  backup_stack = rw b (inr (omega arith));
  code_frame = rw t (inl (omega arith));
  code_backup = rw b (inl (omega arith));
}

pending_two : has_signal raised_proc 2 ≡ true
unfolding has_signal
pending_two = refl

unblocked_two : is_blocked (some (user_proc 4)) 2 ≡ false
unfolding is_blocked
unblocked_two = refl

user-Entered : Entered an_image (user_world 4) entered_world 2
user-Entered = record {
  before = raised_proc;
  small = omega arith;
  same = refl;
  is_user =
      (λ e. omega arith, λ e. omega arith, λ e. omega arith, λ e. omega arith, λ e. omega arith);
  is_pending = pending_two;
  unblocked = unblocked_two;
  entered = refl;
}

leaves_backup : (w : World) → LeavesBackup w w
leaves_backup w = record { tf = refl; trap_backup = refl; mask_backup = refl; bytes = λ k h. refl }

check_kernel_sigs_example :
    CheckedSome an_image (user_world 4) (check_kernel_sigs an_image [] (some (user_world 4)))
check_kernel_sigs_example = check_kernel_sigs-Checked an_image [] (user_world 4)

sigret-deliver_example :
    ((sigret entered_world).proc.mask ≡ 0xffffffff)
    × ((k : ℕ)
        → k < trapframe_size
        → (sigret entered_world).mem (0x1000 + k) ≡ frame_memory (0x1000 + k))
sigret-deliver_example =
    sigret-deliver an_image (user_world 4) entered_world entered_world 2 0x2000
      (user_room (user_proc 4) refl refl) user-Entered (leaves_backup entered_world)

deliver_frame_example :
    Entry an_image 2 raised_proc frame_memory 0x2000
      (user_room raised_proc refl refl)
      (deliver_frame an_image 2 raised_proc frame_memory)
deliver_frame_example =
    deliver_frame-Entry an_image 2 raised_proc frame_memory 0x2000 (user_room raised_proc refl refl)
      (omega arith) (omega arith)

-- SIGKILL is bit 9.
abbrev killed_world : World
killed_world = record (user_world 0x200) {
  proc = record (user_proc 0x200) { killed = 1; mask_backup = 0xffffffff };
}

check_kernel_sigs_run :
    check_kernel_sigs an_image [] (some (user_world 0x200)) ≡ some (done killed_world [])
unfolding check_kernel_sigs check_loop check_one default_action custom_action handle_sigkill
    has_signal is_blocked
check_kernel_sigs_run = refl

-- SIGSTOP, bit 17, is pending too.
check_kernel_sigs-sigkill_example :
    FateSome (check_kernel_sigs an_image [] (some (user_world 0x20200)))
check_kernel_sigs-sigkill_example =
    check_kernel_sigs-sigkill an_image [] (user_world 0x20200) (unfold has_signal in refl)
      (unfold is_blocked in refl) refl

-- SIGSTOP is bit 17, SIGCONT bit 19.
handle_sigstop_run :
    handle_sigstop (0 ∷ 0x80000 ∷ 1 ∷ []) (user_proc 0x20000) ≡ some (user_proc 0xa0000, 1 ∷ [])
unfolding handle_sigstop has_signal
handle_sigstop_run = refl

handle_sigstop-StopResult_example :
    StopResult
      (0 ∷ 0x80000 ∷ 1 ∷ [])
      (user_proc 0x20000)
      (handle_sigstop (0 ∷ 0x80000 ∷ 1 ∷ []) (user_proc 0x20000))
handle_sigstop-StopResult_example =
    handle_sigstop-StopResult (0 ∷ 0x80000 ∷ 1 ∷ []) (user_proc 0x20000)

-- SIGCONT with its own number as the handler.
abbrev cont_world : World
cont_world = record { proc = a_proc 0xa0000 (set all_default sigcont sigcont); mem = frame_memory }

check_one-sigcont_twice_example :
    (w' : World) × (check_one an_image sigcont [] cont_world ≡ done w' [])
    × (w'.proc.mask ≡ 0xffffffff)
    × ((j : ℕ) → has_signal w'.proc j ≡ (has_signal cont_world.proc j && not (sigstop == j)))
    × (has_signal w'.proc sigcont ≡ true)
check_one-sigcont_twice_example =
    check_one-sigcont_twice an_image [] cont_world (unfold has_signal is_blocked in refl) refl

-- SIGSTOP is ignored.
abbrev ignoring_world : World
ignoring_world = record {
  proc = a_proc 0x20000 (set all_default sigstop sig_ign);
  mem = frame_memory;
}

-- The mask, 1, lets no pending signal through.
abbrev blocked_world : World
blocked_world = record { proc = record (user_proc 0x200) { mask = 1 }; mem = frame_memory }

blocked_table :
    check_below 32
      (λ i. not (has_signal blocked_world.proc i && not (is_blocked (some blocked_world.proc) i)))
    ≡ true
unfolding check_below has_signal is_blocked
blocked_table = refl

all_blocked : AllBlocked blocked_world.proc
all_blocked i h = ground (
  arith,
  checked_below 32
      (λ j. not (has_signal blocked_world.proc j && not (is_blocked (some blocked_world.proc) j))) i
      blocked_table h,
)

signal_run :
    signal 2 0x500 (some (user_proc 0)) ≡ (0x400, some (a_proc 0 (set all_default 2 0x500)))
unfolding signal
signal_run = refl

sigprocmask_run : (sigprocmask 1 (some (user_proc 0))).0 ≡ 0xffffffff
unfolding sigprocmask
sigprocmask_run = refl

signal-SignalResult_example :
    SignalResult 2 0x500 (user_proc 0) (signal 2 0x500 (some (user_proc 0)))
signal-SignalResult_example = signal-SignalResult 2 0x500 (user_proc 0) refl
