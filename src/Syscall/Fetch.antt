-- ===== src/Syscall/Fetch.antt =====
-- Arguments come from inside the process's memory, which ends at `sz`.
use osassignment.Prelude.{
  ℕ, zero, suc, ◌+◌, ◌-◌, ◌^◌, ◌≤◌, ◌<◌, ◌≡◌, ◌≢◌, Option, none, some, ap, ◌∙◌, Bool-cases, inl,
  inr, leb, ◌==◌, if◌then◌else◌, arith,
}
use osassignment.Memory.{Mem, load32}
use osassignment.Signal.{World}
use osassignment.Syscall.{fetchint, find_nul, fetchstr, argint, argptr}

-- The result of the search for the end of a string of at most `n` bytes from `s` on.
abbrev pub Found : Mem → ℕ → ℕ → ℕ → Option ℕ → Type 0
Found m s k n none = (j : ℕ) → j < n → m (s + j) ≢ 0
Found m s k n (some r) =
    (shift : ℕ) × (r ≡ k + shift)
    × (shift < n)
    × (m (s + shift) ≡ 0)
    × ((j : ℕ) → j < shift → m (s + j) ≢ 0)

next_byte :
    (m : Mem) (s n : ℕ)
    → m s ≢ 0
    → ((j : ℕ) → j < n → m (s + 1 + j) ≢ 0)
    → (j : ℕ) → j < suc n
    → m (s + j) ≢ 0
next_byte m s n h f zero lt = λ e. h (ap m {x = s} {y = s + 0} (omega arith) ∙ e)
next_byte m s n h f (suc j) lt =
    λ e. f j (omega arith) (ap m {x = s + 1 + j} {y = s + suc j} (omega arith) ∙ e)

Found-next :
    (m : Mem) (s k n : ℕ) (o : Option ℕ)
    → m s ≢ 0
    → Found m (s + 1) (k + 1) n o
    → Found m s k (suc n) o
Found-next m s k n none h f = λ j lt. next_byte m s n h f j lt
Found-next m s k n (some r) h (shift, e, lt, nul, before) = (
  suc shift,
  omega arith,
  omega arith,
  ap m {x = s + suc shift} {y = s + 1 + shift} (omega arith) ∙ nul,
  next_byte m s shift h before,
)

find_nul-Found : (m : Mem) (s k n : ℕ) → Found m s k n (find_nul m s k n)
unfolding find_nul
find_nul-Found m s k zero = λ j h. absurd (omega arith)
find_nul-Found m s k (suc n) = elim (Bool-cases (m s == 0)) [
  | inl e ↦ rw e (
    0,
    omega arith,
    omega arith,
    ground (arith, ap m {x = s + 0} {y = s} (omega arith)),
    λ j h. absurd (omega arith),
  )
  | inr e ↦ rw e (Found-next m s k n _ (ground arith) (find_nul-Found m (s + 1) (k + 1) n))
]

-- `fetchstr` succeeds exactly if a NUL byte stands between `addr` and the end of the process: the
-- result is the distance to the first one, and every byte that is read lies below `sz`.
pub fetchstr-Found :
    (w : World) (addr : ℕ) → Found w.mem addr 0 (w.proc.sz - addr) (fetchstr w addr)
unfolding fetchstr
fetchstr-Found w addr = elim (Bool-cases (leb w.proc.sz addr)) [
  | inl e ↦ rw e (λ j h. absurd (ground arith))
  | inr e ↦ rw e (find_nul-Found w.mem addr 0 (w.proc.sz - addr))
]

-- `fetchint` reads the word at `addr` exactly if all its four bytes lie below `sz`, for any size of
-- process that the kernel allows.
pub fetchint_lem :
    (w : World) (addr : ℕ)
    → w.proc.sz ≤ 2 ^ 31
    → addr < 2 ^ 32
    → fetchint w addr ≡ (if leb (addr + 4) w.proc.sz then some (load32 w.mem addr) else none)
unfolding fetchint
fetchint_lem w addr h g = ground arith

-- A pointer that `argptr` accepts leads to `size` bytes below `sz`.
pub argptr-within :
    (w : World) (n size i : ℕ)
    → w.proc.sz ≤ 2 ^ 31
    → argptr w n size ≡ some i
    → (i < w.proc.sz) × (i + size ≤ w.proc.sz) × (size < 2 ^ 31) × (argint w n ≡ some i)
unfolding argptr
argptr-within w n size i h e = ground arith
