-- ===== src/Memory/Tests.antt =====
-- Runs of the memory routines.
use osassignment.Prelude.{◌%◌, ◌≡◌, refl}
use osassignment.Memory.{Mem, memmove, memset, load32, store32, write, stosb, stosl, copy_down}

-- Every byte holds its address.
abbrev letters : Mem
letters x = x % 256

-- The blocks overlap.
memmove_run : memmove letters 2 0 4 5 ≡ 3
unfolding memmove copy_down write
memmove_run = refl

memset_run : memset letters 4 0x141 8 11 ≡ 0x41
unfolding memset stosl store32 write
memset_run = refl

memset_bytes_run : memset letters 3 0x141 2 4 ≡ 0x41
unfolding memset stosb write
memset_bytes_run = refl

load32_run : load32 (store32 letters 8 0x12345678) 8 ≡ 0x12345678
unfolding load32 store32 write
load32_run = refl
