-- ===== src/Memory.antt =====
-- The byte memory that the kernel's pointers go into, the stores of x86.h (`stosb`, `stosl`) and
-- the memory routines of string.c. An address is a number; pointer arithmetic that leaves the
-- address space is undefined in C, and does not wrap here.
pub mod Words
pub mod Move
pub mod Fill
mod Tests
use osassignment.Prelude.{
  ℕ, zero, suc, ◌+◌, ◌-◌, ◌*◌, ◌/◌, ◌%◌, ◌^◌, Bool, ◌&&◌, ltb, ◌==◌, if◌then◌else◌, bit_and, bit_or,
}

-- The byte at each address.
abbrev pub Mem : Type 0
Mem = ℕ → ℕ

unfoldable pub write : Mem → ℕ → ℕ → Mem
write m a v x = if x == a then v else m x

-- A little-endian `uint` at `a`.
unfoldable pub load32 : Mem → ℕ → ℕ
load32 m a = m a + 256 * m (a + 1) + 2 ^ 16 * m (a + 2) + 2 ^ 24 * m (a + 3)

unfoldable pub store32 : Mem → ℕ → ℕ → Mem
unfolding write
store32 m a v =
    write (write (write (write m a (v % 256)) (a + 1) (v / 256 % 256)) (a + 2) (v / 2 ^ 16 % 256))
      (a + 3) (v / 2 ^ 24 % 256)

-- `rep stosb` stores the low byte of `c`, `n` times.
unfoldable pub stosb : Mem → ℕ → ℕ → ℕ → Mem
stosb m a c zero = m
stosb m a c (suc n) = stosb (write m a (c % 256)) (a + 1) c n

-- `rep stosl` stores a word, `n` times.
unfoldable pub stosl : Mem → ℕ → ℕ → ℕ → Mem
stosl m a v zero = m
stosl m a v (suc n) = stosl (store32 m a v) (a + 4) v n

-- `(c<<24)|(c<<16)|(c<<8)|c`
unfoldable pub fill_word : ℕ → ℕ
fill_word c = bit_or (bit_or (bit_or (c * 2 ^ 24) (c * 2 ^ 16)) (c * 2 ^ 8)) c

-- `c` is the 32-bit pattern of the `int` argument.
unfoldable pub memset : Mem → ℕ → ℕ → ℕ → Mem
unfolding stosb stosl fill_word
memset m dst c n =
    if dst % 4 == 0 && n % 4 == 0
    then stosl m dst (fill_word (bit_and c 0xff)) (n / 4)
    else stosb m dst c n

-- `while(n-- > 0) *d++ = *s++;`
unfoldable pub copy_up : Mem → ℕ → ℕ → ℕ → Mem
copy_up m d s zero = m
copy_up m d s (suc n) = copy_up (write m d (m s)) (d + 1) (s + 1) n

-- `while(n-- > 0) *--d = *--s;`
unfoldable pub copy_down : Mem → ℕ → ℕ → ℕ → Mem
copy_down m d s zero = m
copy_down m d s (suc n) = copy_down (write m (d - 1) (m (s - 1))) (d - 1) (s - 1) n

unfoldable pub memmove : Mem → ℕ → ℕ → ℕ → Mem
unfolding copy_up copy_down
memmove m dst src n =
    if ltb src dst && ltb dst (src + n)
    then copy_down m (dst + n) (src + n) n
    else copy_up m dst src n
