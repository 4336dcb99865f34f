-- ===== src/Ulib/Number.antt =====
-- Numbers that are printed in decimal and read back.
use osassignment.Prelude.{
  ℕ, zero, suc, ◌+◌, ◌*◌, ◌/◌, ◌%◌, ◌^◌, ◌≤◌, ◌<◌, ◌≡◌, refl, ap, ◌∙◌, Bool, true, false, ◌==◌,
  if◌then◌else◌, some, List, [], ◌∷◌, length, Bool-cases, inl, inr, arith,
}
use osassignment.Ulib.{
  add_digit, is_digit, atoi_from, atoi, digit, digits_of, is_negative, magnitude, with_sign,
  printint,
}

abbrev power : ℕ → ℕ
power zero = 1
power (suc n) = 10 * power n

digit-read :
    (q r : ℕ) (s : List ℕ)
    → r < 10
    → q * 10 + r < 2 ^ 32
    → atoi_from q (digit r ∷ s) ≡ atoi_from (q * 10 + r) s
unfolding atoi_from
digit-read q r s lt fits =
    let d : digit r ≡ b'0' + r = ground arith in
    let on : is_digit (b'0' + r) ≡ true = ground arith in
    let sum : add_digit q (b'0' + r) ≡ q * 10 + r = omega arith in rw (d, on, sum) refl

some_room : (n x : ℕ) → (x / 10 == 0) ≡ false → x < power (suc n) → 0 < n
some_room zero x more lt = absurd (ground (arith, more, lt))
some_room (suc n) x more lt = omega arith

magnitude-lt : (xx : ℕ) (sgn : Bool) → xx < 2 ^ 32 → magnitude sgn xx < 2 ^ 32
magnitude-lt xx sgn fits = ground arith

digits_of-atoi :
    (n x : ℕ) (buf : List ℕ)
    → x < power n
    → x < 2 ^ 32
    → 0 < n
    → (s : List ℕ) × (digits_of n 10 x buf ≡ some s)
      × (atoi_from 0 s ≡ atoi_from x buf)
      × (length s ≤ n + length buf)
unfolding digits_of
digits_of-atoi zero x buf lt fits room = absurd (omega arith)
digits_of-atoi (suc n) x buf lt fits room = elim (Bool-cases (x / 10 == 0)) [
  | inl last ↦
      let same : 0 * 10 + x % 10 ≡ x = ground (arith, last) in
      rw last (
        digit (x % 10) ∷ buf,
        refl,
        digit-read 0 (x % 10) buf (omega arith) (omega arith) ∙ ap (λ k. atoi_from k buf) same,
        omega arith,
      )
  | inr more ↦
      let enough : 0 < n = some_room n x more lt in
      let (t, e, read, le) =
        digits_of-atoi n (x / 10) (digit (x % 10) ∷ buf) (omega arith) (omega arith) enough in
      let back : x / 10 * 10 + x % 10 ≡ x = omega arith in
      rw more (
        t,
        e,
        read
            ∙ digit-read (x / 10) (x % 10) buf (omega arith) (omega arith)
            ∙ ap (λ k. atoi_from k buf) back,
        omega arith,
      )
]

-- Of 32 bits, signed or not, `printint` in base 10 writes at most 15 digits, behind a minus for a
-- negative number, and never leaves its buffer; `atoi` of the digits is the absolute value.
pub printint-atoi :
    (xx : ℕ) (sgn : Bool)
    → xx < 2 ^ 32
    → (s : List ℕ) × (printint xx 10 sgn ≡ some (if is_negative sgn xx then b'-' ∷ s else s))
      × (atoi s ≡ magnitude sgn xx)
      × (length s ≤ 15)
unfolding printint atoi_from
printint-atoi xx sgn fits =
    let small = magnitude-lt xx sgn fits in
    let (s, e, read, le) =
      digits_of-atoi 15 (magnitude sgn xx) [] (omega (arith, small)) small (omega arith) in
    (s, ap (with_sign (is_negative sgn xx)) e, read, le)
