-- ===== src/Strings/Tests.antt =====
-- Runs of the string routines.
use osassignment.Prelude.{◌≡◌, refl, ◌==◌, if◌then◌else◌}
use osassignment.Memory.{Mem, write}
use osassignment.Strings.{memcmp, strncmp, strncpy, zero_fill}

-- "ab" at 0 and "ac" at 8.
abbrev texts : Mem
texts x =
    if x == 0 then 97 else if x == 1 then 98 else if x == 8 then 97 else if x == 9 then 99 else 0

memcmp_run : memcmp texts 0 8 4 ≡ 0xffffffff
unfolding memcmp
memcmp_run = refl

strncmp_run : strncmp texts 8 0 4 ≡ 1
unfolding strncmp
strncmp_run = refl

strncpy_run : strncpy texts 32 0 4 33 ≡ 98
unfolding strncpy zero_fill write
strncpy_run = refl
