-- ===== src/Log/Tests.antt =====
-- Runs of the log.
use osassignment.Prelude.{
  ℕ, suc, ◌≤◌, ◌<◌, ◌≡◌, ◌≢◌, ◌⊎◌, inr, refl, sym, ◌==◌, if◌then◌else◌, false, none, some, ◌+◌,
  List, [], ◌∷◌, ◌++◌, ==_ne, ap, Bool, arith,
}
use osassignment.Prelude.Table.{update}
use osassignment.Memory.{load32, store32, write}
use osassignment.Log.{
  Log, Device, boot, commit, recover_from_log, begin_op, log_write, find_block, write_log,
  write_head, install_trans, store_blocks, load_blocks, read_head, bwrite,
}
use osassignment.Log.Commit.{IsTransaction, Outside}
use osassignment.Log.Recover.{SameFiles}
use osassignment.Log.Crash.{reboots, commit-recovery}
use osassignment.Log.Space.{HasSpace}
use osassignment.Log.Ops.{here, next, begins, writes, Reach-HasSpace}

abbrev idle_log : Log
idle_log = record {
  start = 2;
  size = 30;
  outstanding = 0;
  committing = false;
  n = 0;
  block = λ _. 0;
}

-- One block, number 50, was changed from zeros to sevens.
abbrev full_log : Log
full_log = record idle_log { n = 1; block = λ _. 50 }

abbrev a_device : ℕ → Device
a_device power = record {
  disk = λ _. (λ _. 0);
  cache = λ x. if x == 50 then (λ _. 7) else (λ _. 0);
  power = power;
}

full-IsTransaction : IsTransaction full_log
full-IsTransaction = record {
  fits = omega arith;
  word = omega arith;
  words = λ i h. omega arith;
  outside = λ i h. inr (omega arith);
  once = λ i j h g e. omega arith;
}

-- With power for two writes the transaction is in the log, and recovery puts it in its place.
survives_run : (recover_from_log idle_log (boot 9 (commit full_log (a_device 2)).1)).1.disk 50 3 ≡ 7
unfolding recover_from_log boot commit write_log write_head install_trans store_blocks load_blocks
    read_head bwrite update load32 store32 write
survives_run = refl

lost_run : (recover_from_log idle_log (boot 9 (commit full_log (a_device 1)).1)).1.disk 50 3 ≡ 0
unfolding recover_from_log boot commit write_log write_head install_trans store_blocks load_blocks
    read_head bwrite update load32 store32 write
lost_run = refl

a_device_clean :
    (x : ℕ)
    → Outside full_log x
    → ((i : ℕ) → i < 1 → full_log.block i ≢ x)
    → (a_device 2).cache x ≡ (a_device 2).disk x
a_device_clean x o away =
    ap (λ (t : Bool). if t then (λ (_ : ℕ). 7) else (λ (_ : ℕ). 0))
      (==_ne x 50 (λ e. away 0 (omega arith) (sym e)))

commit-recovery_example :
    let d' =
      (recover_from_log idle_log
        (boot 2 (reboots idle_log (1 ∷ []) (commit full_log (a_device 2)).1))).1 in
    (SameFiles full_log d'.disk (a_device 2).disk × (2 ≤ 1))
    ⊎ SameFiles full_log d'.disk (a_device 2).cache
commit-recovery_example =
    commit-recovery full_log (a_device 2) idle_log (1 ∷ []) 2 full-IsTransaction (omega arith)
      a_device_clean (unfold load32 in refl) refl refl (omega arith)

abbrev open_log : Log
open_log = record idle_log { outstanding = 1 }

abbrev written_log : Log
written_log = record idle_log { outstanding = 1; n = 1; block = update idle_log.block 0 50 }

begin_op_run : begin_op idle_log ≡ some open_log
unfolding begin_op
begin_op_run = refl

log_write_run : log_write 50 open_log ≡ some written_log
unfolding log_write find_block
log_write_run = refl

Reach-HasSpace_example :
    HasSpace 30 written_log (9 ∷ [])
    × ((front : List ℕ) (b : ℕ) (rest : List ℕ) (x : ℕ)
        → 9 ∷ [] ≡ front ++ (suc b ∷ rest)
        → ((30 ≤ 1 + 1) × (log_write x written_log ≡ none))
          ⊎ ((1 + 1 < 30)
              × ((log'' : Log) × (log_write x written_log ≡ some log'')
                  × HasSpace 30 log'' (front ++ (b ∷ rest)))))
Reach-HasSpace_example =
    Reach-HasSpace idle_log written_log (9 ∷ []) (refl, refl, refl)
      (next (next here (begins begin_op_run)) (writes [] 9 [] 50 refl log_write_run))
