-- ===== src/Strings.antt =====
-- Comparing and copying strings (string.c).
pub mod Compare
pub mod Copy
mod Tests
use osassignment.Prelude.{
  ℕ, zero, suc, ◌+◌, ◌-◌, ◌%◌, ◌^◌, Bool, not, ◌&&◌, ◌==◌, if◌then◌else◌, Option, none, some,
}
use osassignment.Memory.{Mem, write}

-- The difference of two bytes as the pattern of an `int`.
abbrev pub diff : ℕ → ℕ → ℕ
diff x y = (x + 2 ^ 32 - y) % 2 ^ 32

unfoldable pub memcmp : Mem → ℕ → ℕ → ℕ → ℕ
memcmp m v1 v2 zero = 0
memcmp m v1 v2 (suc n) =
    let rest = memcmp m (v1 + 1) (v2 + 1) n in if m v1 == m v2 then rest else diff (m v1) (m v2)

unfoldable pub strncmp : Mem → ℕ → ℕ → ℕ → ℕ
strncmp m p q zero = 0
strncmp m p q (suc n) =
    let rest = strncmp m (p + 1) (q + 1) n in
    if not (m p == 0) && (m p == m q) then rest else diff (m p) (m q)

-- `while(n-- > 0) *s++ = 0;`
unfoldable pub zero_fill : Mem → ℕ → ℕ → Mem
zero_fill m s zero = m
zero_fill m s (suc n) = zero_fill (write m s 0) (s + 1) n

-- For an `n` that is not negative.
unfoldable pub strncpy : Mem → ℕ → ℕ → ℕ → Mem
unfolding zero_fill write
strncpy m s t zero = m
strncpy m s t (suc n) =
    let m' = write m s (m t) in
    let rest = strncpy m' (s + 1) (t + 1) n in if m t == 0 then zero_fill m' (s + 1) n else rest

-- With `n` bytes counted, and fuel for the bytes that are read; none when it runs out.
unfoldable pub strlen : Mem → ℕ → ℕ → ℕ → Option ℕ
strlen m s n zero = none
strlen m s n (suc fuel) =
    let rest = strlen m s (n + 1) fuel in if m (s + n) == 0 then some n else rest
