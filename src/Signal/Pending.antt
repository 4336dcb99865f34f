-- ===== src/Signal/Pending.antt =====
-- The pending set, signal by signal.
use osassignment.Prelude.{ℕ, ◌^◌, ◌<◌, ◌≡◌, true, not, ◌&&◌, xor, ◌==◌, bit_xor, some, arith}
use osassignment.Prelude.Bits.{test_bit, test_bit-xor, test_bit-pow, bit_and-pow}
use osassignment.Proc.{Proc}
use osassignment.Signal.{has_signal, is_blocked, cancel_signal}

pub has_signal-bit : (p : Proc) (j : ℕ) → has_signal p j ≡ test_bit p.pending j
unfolding has_signal
has_signal-bit p j = bit_and-pow j p.pending

pub is_blocked-bit : (p : Proc) (j : ℕ) → is_blocked (some p) j ≡ not (test_bit p.mask j)
unfolding is_blocked
is_blocked-bit p j = ground (arith, bit_and-pow j p.mask)

-- `cancelSignal` turns over the one bit that it names.
pub has_signal-cancel :
    (p : Proc) (i j : ℕ) → i < 32 → has_signal (cancel_signal p i) j ≡ xor (has_signal p j) (i == j)
unfolding cancel_signal
has_signal-cancel p i j h = ground (
  arith,
  has_signal-bit p j,
  has_signal-bit (cancel_signal p i) j,
  test_bit-xor j p.pending (2 ^ i),
  test_bit-pow i j,
)

-- Turning over a bit that is set clears it.
pub test_bit-clear :
    (w i j : ℕ)
    → test_bit w i ≡ true
    → test_bit (bit_xor w (2 ^ i)) j ≡ (test_bit w j && not (i == j))
unfolding xor
test_bit-clear w i j h = ground (arith, test_bit-xor j w (2 ^ i), test_bit-pow i j)
