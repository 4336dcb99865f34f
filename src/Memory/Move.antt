-- ===== src/Memory/Move.antt =====
-- `memmove` copies also where the two blocks overlap.
use osassignment.Prelude.{
  ℕ, zero, suc, ◌+◌, ◌-◌, ◌≤◌, ◌≡◌, ◌⊎◌, ◌&&◌, ltb, leb, if◌then◌else◌, arith,
}
use osassignment.Memory.{Mem, write, copy_up, copy_down, memmove}

-- Memory `m` with the `n` bytes from `d` on taken from those at `s`.
abbrev pub moved : Mem → ℕ → ℕ → ℕ → Mem
moved m d s n x = if leb d x && ltb x (d + n) then m (s + (x - d)) else m x

copy_up_lem :
    (n : ℕ) (m : Mem) (d s x : ℕ) → (d ≤ s) ⊎ (s + n ≤ d) → copy_up m d s n x ≡ moved m d s n x
unfolding copy_up write
copy_up_lem zero m d s x h = ground arith
copy_up_lem (suc n) m d s x h = ground (arith, copy_up_lem n (write m d (m s)) (d + 1) (s + 1) x)

copy_down_lem :
    (n : ℕ) (m : Mem) (d s e f x : ℕ)
    → s ≤ d
    → e ≡ d + n
    → f ≡ s + n
    → copy_down m e f n x ≡ moved m d s n x
unfolding copy_down write
copy_down_lem zero m d s e f x h p q = ground arith
copy_down_lem (suc n) m d s e f x h p q =
    ground (arith, copy_down_lem n (write m (e - 1) (m (f - 1))) d s (e - 1) (f - 1) x)

-- After `memmove(dst, src, n)` the `n` bytes at `dst` are those that were at `src`, and every other
-- byte is unchanged, however the two blocks overlap.
pub memmove_lem : (m : Mem) (dst src n x : ℕ) → memmove m dst src n x ≡ moved m dst src n x
unfolding memmove
memmove_lem m dst src n x =
    ground (arith, copy_up_lem n m dst src x, copy_down_lem n m dst src (dst + n) (src + n) x)
