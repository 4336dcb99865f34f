-- ===== src/Memory/Fill.antt =====
-- `memset` sets every byte of the block, by words where the block is aligned and by bytes elsewhere.
use osassignment.Prelude.{
  ℕ, zero, suc, ◌+◌, ◌*◌, ◌/◌, ◌%◌, ◌<◌, ◌≡◌, refl, true, ◌&&◌, ltb, leb, ◌==◌, ==_iff,
  if◌then◌else◌, arith,
}
use osassignment.Prelude.Bits.{bit_and-mask, check_below, checked_below}
use osassignment.Memory.{Mem, write, store32, stosb, stosl, fill_word, memset}

-- Memory `m` with the `n` bytes from `d` on set to `v`.
abbrev pub filled : Mem → ℕ → ℕ → ℕ → Mem
filled m d v n x = if leb d x && ltb x (d + n) then v else m x

stosb_lem : (n : ℕ) (m : Mem) (d c x : ℕ) → stosb m d c n x ≡ filled m d (c % 256) n x
unfolding stosb write
stosb_lem zero m d c x = ground arith
stosb_lem (suc n) m d c x = ground (arith, stosb_lem n (write m d (c % 256)) (d + 1) c x)

store32_fill : (m : Mem) (d b x : ℕ) → b < 256 → store32 m d (b * 0x01010101) x ≡ filled m d b 4 x
unfolding store32
store32_fill m d b x h = ground arith

stosl_lem :
    (n : ℕ) (m : Mem) (d b x : ℕ)
    → b < 256
    → stosl m d (b * 0x01010101) n x ≡ filled m d b (4 * n) x
unfolding stosl
stosl_lem zero m d b x h = ground arith
stosl_lem (suc n) m d b x h =
    ground (arith, stosl_lem n (store32 m d (b * 0x01010101)) (d + 4) b x, store32_fill m d b x)

fill_word_table : check_below 256 (λ b. fill_word b == b * 0x01010101) ≡ true
unfolding check_below fill_word
fill_word_table = refl

fill_word_lem : (b : ℕ) → b < 256 → fill_word b ≡ b * 0x01010101
fill_word_lem b h =
    (==_iff (fill_word b) (b * 0x01010101)).0
      (checked_below 256 (λ c. fill_word c == c * 0x01010101) b fill_word_table h)

-- After `memset(dst, c, n)` each of the `n` bytes at `dst` is the low byte of `c`, on the path that
-- stores words as on the one that stores bytes, and every other byte is unchanged.
pub memset_lem : (m : Mem) (dst c n x : ℕ) → memset m dst c n x ≡ filled m dst (c % 256) n x
unfolding memset
memset_lem m dst c n x = ground (
  arith,
  stosb_lem n m dst c x,
  bit_and-mask 8 c,
  fill_word_lem (c % 256) (omega arith),
  stosl_lem (n / 4) m dst (c % 256) x (omega arith),
)
