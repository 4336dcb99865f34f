-- ===== src/Ulib.antt =====
-- The library of the user programs: strings and `atoi` (ulib.c), and `printint` (printf.c).
-- A string is the list of its bytes before NUL.
pub mod Number
pub mod Compare
mod Tests
use osassignment.Prelude.{
  ℕ, zero, suc, ◌+◌, ◌-◌, ◌*◌, ◌/◌, ◌%◌, ◌^◌, Bool, true, false, not, ◌&&◌, ◌||◌, ltb, leb, ◌==◌,
  if◌then◌else◌, Option, none, some, List, [], ◌∷◌, ◌++◌,
}

-- The result is the pattern of an `int`.
unfoldable pub strcmp : List ℕ → List ℕ → ℕ
strcmp [] [] = 0
strcmp [] (d ∷ q) = (2 ^ 32 - d) % 2 ^ 32
strcmp (c ∷ p) [] = c
strcmp (c ∷ p) (d ∷ q) = let rest = strcmp p q in if c == d then rest else (c + 2 ^ 32 - d) % 2 ^ 32

-- The string from the byte on; none for 0.
unfoldable pub strchr : List ℕ → ℕ → Option (List ℕ)
strchr [] c = none
strchr (d ∷ s) c = if d == c then some (d ∷ s) else strchr s c

abbrev pub is_digit : ℕ → Bool
is_digit c = leb b'0' c && leb c b'9'

-- `n = n*10 + *s++ - '0'`, of an `int` as its 32 bits
abbrev pub add_digit : ℕ → ℕ → ℕ
add_digit n c = (n * 10 + c + (2 ^ 32 - b'0')) % 2 ^ 32

unfoldable pub atoi_from : ℕ → List ℕ → ℕ
atoi_from n [] = n
atoi_from n (c ∷ s) = let rest = atoi_from (add_digit n c) s in if is_digit c then rest else n

abbrev pub atoi : List ℕ → ℕ
atoi s = atoi_from 0 s

-- `digits[d]`
abbrev pub digit : ℕ → ℕ
digit d = if ltb d 10 then b'0' + d else b'A' + (d - 10)

-- The `do` loop with room for `n` more bytes; the bytes in the order in which they are written.
-- none: no room.
unfoldable pub digits_of : ℕ → ℕ → ℕ → List ℕ → Option (List ℕ)
digits_of zero base x buf = none
digits_of (suc n) base x buf =
    let next = digit (x % base) ∷ buf in
    let rest = digits_of n base (x / base) next in if x / base == 0 then some next else rest

abbrev pub is_negative : Bool → ℕ → Bool
is_negative sgn xx = sgn && leb (2 ^ 31) xx

abbrev pub magnitude : Bool → ℕ → ℕ
magnitude sgn xx = if is_negative sgn xx then (2 ^ 32 - xx) % 2 ^ 32 else xx

abbrev pub with_sign : Bool → Option (List ℕ) → Option (List ℕ)
with_sign neg none = none
with_sign neg (some s) = some (if neg then b'-' ∷ s else s)

-- `buf[16]`, with one place for the sign.
unfoldable pub printint : ℕ → ℕ → Bool → Option (List ℕ)
unfolding digits_of
printint xx base sgn = with_sign (is_negative sgn xx) (digits_of 15 base (magnitude sgn xx) [])
