-- ===== src/Content/Copy.antt =====
-- Bytes copied from one block of memory to another.
use osassignment.Prelude.{ℕ, zero, suc, ◌+◌, ◌-◌, ◌≡◌, ◌&&◌, leb, ltb, if◌then◌else◌, arith}
use osassignment.Memory.{Mem, write}
use osassignment.Content.{copy_bytes}

-- `dst` with the `n` bytes from `d` on taken from those at `s`.
abbrev pub copied : ℕ → Mem → ℕ → Mem → ℕ → Mem
copied n src s dst d x = if leb d x && ltb x (d + n) then src (s + (x - d)) else dst x

pub copy_bytes_lem :
    (n : ℕ) (src : Mem) (s : ℕ) (dst : Mem) (d x : ℕ)
    → copy_bytes n src s dst d x ≡ copied n src s dst d x
unfolding copy_bytes write
copy_bytes_lem zero src s dst d x = ground arith
copy_bytes_lem (suc n) src s dst d x =
    ground (arith, copy_bytes_lem n src (s + 1) (write dst d (src s)) (d + 1) x)
